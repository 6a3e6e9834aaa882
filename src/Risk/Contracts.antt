-- ===== src/Risk/Contracts.antt =====
-- The records of src/spy_der/contracts/risk.py with the checks that their constructors make. Money is
-- an integer number of 1/10000 dollars, and a fraction kept between 0 and 1 one of 1/10000.
use spy_der.Prelude.{
  ℕ, String, Bool, true, false, ◌&&◌, ◌||◌, not, Option, none, some, List, [], ◌∷◌, if◌then◌else◌,
  leb, is_nil, any,
}
use spy_der.Prelude.Int.{ℤ, pos, ltb_ℤ}
use spy_der.Prelude.Float.{Float, real, zero_f, leb_f}
use spy_der.Prelude.Text.{is_blank, str_eq}

pub record LockoutState : Type 0 where
  pub session_warmup : Bool
  pub entry_cutoff : Bool
  pub emergency_lockout : Bool
  pub catalyst_lockout : Bool
  pub reasons : List String

unfoldable pub locked : LockoutState → Bool
locked l =
    l.session_warmup
    || (l.entry_cutoff || (l.emergency_lockout || (l.catalyst_lockout || not (is_nil l.reasons))))

pub record OperationalState : Type 0 where
  pub market_open : Bool
  pub session_warmup : Bool
  pub entry_locked : Bool
  pub data_valid : Bool
  pub broker_available : Bool
  pub deployment_permission : Bool
  pub journal_available : Bool
  pub hard_vetoes : List String

unfoldable pub entries_allowed : OperationalState → Bool
entries_allowed o =
    o.market_open
    && (not o.session_warmup
        && (not o.entry_locked
            && (o.data_valid
                && (o.broker_available
                    && (o.deployment_permission
                        && (o.journal_available && is_nil o.hard_vetoes))))))

pub record PortfolioState : Type 0 where
  pub account_id : String
  pub equity : ℤ
  pub cash : ℤ
  pub open_positions : ℕ
  pub daily_realized_pnl : ℤ
  pub open_risk_dollars : ℤ
  pub portfolio_gamma : ℤ
  pub portfolio_delta : ℤ
  pub family_counts : List (String × ℕ)
  pub expiration_counts : List (String × ℕ)
  pub open_geometry_hashes : List String
  pub open_candidate_ids : List String
  pub state_id : String

-- `PortfolioState.__post_init__`, as whether it lets the record pass.
unfoldable pub is_valid_portfolio : PortfolioState → Bool
is_valid_portfolio p =
    not (is_blank p.account_id)
    && (not (ltb_ℤ p.equity (pos 0))
        && (not (ltb_ℤ p.cash (pos 0)) && not (ltb_ℤ p.open_risk_dollars (pos 0))))

pub record RiskLimits : Type 0 where
  pub max_risk_dollars : ℤ
  pub max_contracts : ℕ
  pub max_positions : ℕ
  pub max_daily_loss : ℤ
  pub delta_limit : Option ℤ
  pub gamma_limit : Option ℤ
  pub max_family_positions : ℕ
  pub max_expiration_positions : ℕ
  pub risk_per_trade_frac : ℕ
  pub decision_ttl_seconds : ℤ

-- `RiskLimits.__post_init__`
unfoldable pub is_valid_limits : RiskLimits → Bool
is_valid_limits l =
    not (ltb_ℤ l.max_risk_dollars (pos 0))
    && (not (ltb_ℤ l.max_daily_loss (pos 0))
        && (leb l.risk_per_trade_frac 10000 && ltb_ℤ (pos 0) l.decision_ttl_seconds))

pub record RiskEnvelope : Type 0 where
  pub account_id : String
  pub approved : Bool
  pub max_risk_dollars : ℤ
  pub max_contracts : ℕ
  pub max_positions : ℕ
  pub max_daily_loss : ℤ
  pub max_size_scalar : Float
  pub remaining_daily_loss_budget : ℤ
  pub remaining_position_slots : ℕ
  pub delta_limit : Option ℤ
  pub gamma_limit : Option ℤ
  pub max_family_positions : ℕ
  pub max_expiration_positions : ℕ
  pub lockout_active : Bool
  pub deployment_permission : Bool
  pub decision_ttl_seconds : ℤ
  pub hard_vetoes : List String
  pub max_defined_risk_per_trade : Option ℤ

abbrev pub risk_of : RiskEnvelope → ℤ
risk_of e = elim e.max_defined_risk_per_trade [ none ↦ e.max_risk_dollars | some r ↦ r ]

abbrev pub is_zero_f : Float → Bool
is_zero_f x = leb_f x zero_f && leb_f zero_f x

-- The checks of `RiskEnvelope.__post_init__`.
unfoldable pub is_valid_envelope : RiskEnvelope → Bool
is_valid_envelope e =
    not (ltb_ℤ (risk_of e) (pos 0))
    && (leb_f zero_f e.max_size_scalar
        && (leb_f e.max_size_scalar (real (pos 10000))
            && (not (not (is_nil e.hard_vetoes) && e.approved)
                && not (not e.approved && not (is_zero_f e.max_size_scalar)))))

-- `RiskEnvelope.__post_init__` past its checks: both names of the risk budget agree.
unfoldable pub make_envelope : RiskEnvelope → Option RiskEnvelope
unfolding is_valid_envelope
make_envelope e =
    if is_valid_envelope e
    then some
        (record e { max_risk_dollars = risk_of e; max_defined_risk_per_trade = some (risk_of e) })
    else none

abbrev pub or_risk_rejected : List String → List String
or_risk_rejected [] = "risk_rejected" ∷ []
or_risk_rejected (v ∷ vs) = v ∷ vs

-- What `RiskEnvelope.rejected` hands to the constructor.
abbrev pub rejected_fields : List String → String → RiskEnvelope
rejected_fields reasons account_id = record {
  account_id = account_id;
  approved = false;
  max_risk_dollars = pos 0;
  max_contracts = 0;
  max_positions = 0;
  max_daily_loss = pos 0;
  max_size_scalar = zero_f;
  remaining_daily_loss_budget = pos 0;
  remaining_position_slots = 0;
  delta_limit = none;
  gamma_limit = none;
  max_family_positions = 0;
  max_expiration_positions = 0;
  lockout_active = true;
  deployment_permission = false;
  decision_ttl_seconds = pos 60;
  hard_vetoes = or_risk_rejected reasons;
  max_defined_risk_per_trade = none;
}

unfoldable pub rejected : List String → String → Option RiskEnvelope
unfolding make_envelope
rejected reasons account_id = make_envelope (rejected_fields reasons account_id)

-- A check of the firewall and a veto, without the rendered details.
pub record RiskCheck : Type 0 where
  pub name : String
  pub passed : Bool

pub record RiskVeto : Type 0 where
  pub code : String
  pub severity : String

pub record RiskDecision : Type 0 where
  pub approved : Bool
  pub approved_contracts : ℕ
  pub approved_risk_dollars : ℤ
  pub vetoes : List RiskVeto
  pub checks : List RiskCheck
  pub candidate_hash : String
  pub market_snapshot_id : String
  pub account_state_id : String
  pub expires_at : ℕ

abbrev pub any_hard : List RiskVeto → Bool
any_hard vs = any (λ v. str_eq v.severity "hard") vs

-- The checks of `RiskDecision.__post_init__`.
unfoldable pub is_valid_decision : RiskDecision → Bool
is_valid_decision d =
    not (ltb_ℤ d.approved_risk_dollars (pos 0)) && not (d.approved && any_hard d.vetoes)
