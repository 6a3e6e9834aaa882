-- ===== src/Risk/Checks.antt =====
-- What `apply_risk_firewall` of src/spy_der/risk/firewall.py reads, and its checks, group by group. The
-- rendered details of the checks are left out.
use spy_der.Prelude.{
  ℕ, String, Bool, true, false, not, ◌&&◌, ◌||◌, Option, none, some, List, [], ◌∷◌, if◌then◌else◌,
  ltb, is_nil,
}
use spy_der.Prelude.Int.{ℤ, pos, ◌+ℤ◌, ltb_ℤ, leb_ℤ, eqb_ℤ}
use spy_der.Prelude.Float.{Float, leb_f}
use spy_der.Prelude.Text.{is_blank, str_eq, elem}
use spy_der.Prelude.Dict.{lookup, from_pairs}
use spy_der.Guard.Types.{Timestamp, aware}
use spy_der.Risk.Contracts.{OperationalState, PortfolioState, RiskEnvelope, RiskCheck, risk_of}
use spy_der.Risk.Duplicates.{DuplicateGuard, is_duplicate, is_stale, is_stale_decision}
use spy_der.Risk.Envelope.{abs_ℤ}

pub data SystemAction : Type 0 where
  abstain select_candidate fail_closed : SystemAction

-- What the firewall reads of a decision.
pub record SystemDecision : Type 0 where
  pub action : SystemAction
  pub selected_candidate_id : Option String
  pub market_snapshot_id : String

-- What it reads of a candidate, with `getattr` where an attribute may be missing.
pub record RiskCandidate : Type 0 where
  pub candidate_id : String
  pub geometry_hash : String
  pub max_loss : Option ℤ
  pub maximum_loss : Option ℤ
  pub family : String
  pub expiration : String
  pub gamma : ℤ
  pub delta : ℤ
  pub snapshot_id : String

pub record FirewallContext : Type 0 where
  pub portfolio : Option PortfolioState
  pub operational : Option OperationalState
  pub decided_at : Option Timestamp
  pub now : ℕ
  pub spot_age_seconds : Option Float
  pub bar_age_seconds : Option Float
  pub quote_age_seconds : Option Float
  pub max_spot_age_seconds : Float
  pub max_bar_age_seconds : Float
  pub max_quote_age_seconds : Float
  pub fill_probability : Option Float
  pub min_fill_probability : Float
  pub requested_contracts : ℕ
  pub size_scalar : Float
  pub exit_policy_approved : Bool
  pub duplicate_guard : Option DuplicateGuard
  pub expected_geometry_hash : Option String

-- `a or b or 0`
abbrev pub first_nonzero : Option ℤ → Option ℤ → ℤ
first_nonzero none none = pos 0
first_nonzero none (some b) = b
first_nonzero (some a) none = a
first_nonzero (some a) (some b) = if eqb_ℤ a (pos 0) then b else a

abbrev pub max_loss_of : RiskCandidate → ℤ
max_loss_of c = first_nonzero c.max_loss c.maximum_loss

abbrev pub check : String → Bool → RiskCheck
check name passed = record { name = name; passed = passed }

abbrev pub none_or : {A : Type 0} → (A → Bool) → Option A → Bool
none_or p none = true
none_or p (some a) = p a

-- `limit is not None and limit > 0`, and then the test.
abbrev pub under_limit : Option ℤ → ℤ → Bool
under_limit none v = true
under_limit (some m) v = if ltb_ℤ (pos 0) m then leb_ℤ v m else true

abbrev pub count_of : String → List (String × ℕ) → ℕ
count_of k ps = elim (lookup k (from_pairs [] ps)) [ none ↦ 0 | some n ↦ n ]

-- A ceiling on the positions that share a family or an expiration.
abbrev pub room_for : ℕ → String → List (String × ℕ) → Bool
room_for limit k counts =
    if ltb 0 limit && not (is_blank k) then ltb (count_of k counts) limit else true

abbrev pub envelope_checks : RiskEnvelope → List RiskCheck
envelope_checks e =
    check "deployment_mode" (e.deployment_permission && e.approved)
    ∷ check "emergency_lockout" (not (e.lockout_active || not (is_nil e.hard_vetoes)))
    ∷ []

abbrev pub operational_checks : Option OperationalState → List RiskCheck
operational_checks none =
    check "session_status" true
    ∷ check "entry_cutoff" true
    ∷ check "journal_availability" true
    ∷ check "operational_vetoes" true
    ∷ []
operational_checks (some o) =
    check "session_status" (o.market_open && o.data_valid)
    ∷ check "entry_cutoff" (not o.entry_locked && not o.session_warmup)
    ∷ check "journal_availability" o.journal_available
    ∷ check "operational_vetoes" (is_nil o.hard_vetoes)
    ∷ []

abbrev pub freshness_checks : FirewallContext → List RiskCheck
freshness_checks x =
    check "spot_freshness" (none_or (λ a. leb_f a x.max_spot_age_seconds) x.spot_age_seconds)
    ∷ check "bar_freshness" (none_or (λ a. leb_f a x.max_bar_age_seconds) x.bar_age_seconds)
    ∷ check "quote_freshness" (none_or (λ a. leb_f a x.max_quote_age_seconds) x.quote_age_seconds)
    ∷ []

abbrev pub geometry_matches : Option String → String → Bool
geometry_matches none hash = not (is_blank hash)
geometry_matches (some expected) hash = str_eq hash expected

-- The maximum loss against the envelope's cap, where that is set.
abbrev pub loss_fits : ℤ → ℤ → Bool
loss_fits cap loss = ltb_ℤ (pos 0) loss && not (ltb_ℤ (pos 0) cap && ltb_ℤ cap loss)

abbrev pub candidate_checks : RiskEnvelope → FirewallContext → RiskCandidate → List RiskCheck
candidate_checks e x c =
    check "candidate_id" (not (is_blank c.candidate_id))
    ∷ check "geometry_hash" (geometry_matches x.expected_geometry_hash c.geometry_hash)
    ∷ check "maximum_loss" (loss_fits (risk_of e) (max_loss_of c))
    ∷ check "fill_estimate" (none_or (λ p. leb_f x.min_fill_probability p) x.fill_probability)
    ∷ []

abbrev pub portfolio_checks : RiskEnvelope → RiskCandidate → Option PortfolioState → List RiskCheck
portfolio_checks e c none =
    check "account_equity" true
    ∷ check "daily_realized_loss" true
    ∷ check "open_risk" true
    ∷ check "position_count" true
    ∷ check "family_concentration" true
    ∷ check "expiration_concentration" true
    ∷ check "delta" true
    ∷ check "gamma" true
    ∷ []
portfolio_checks e c (some p) =
    let limited = ltb_ℤ (pos 0) e.max_daily_loss in
    check "account_equity" (ltb_ℤ (pos 0) p.equity)
    ∷ check "daily_realized_loss"
        (if limited then leb_ℤ (max_loss_of c) e.remaining_daily_loss_budget else true)
    ∷ check "open_risk"
        (if limited then leb_ℤ (p.open_risk_dollars +ℤ max_loss_of c) e.max_daily_loss else true)
    ∷ check "position_count"
        (if ltb 0 e.max_positions then ltb p.open_positions e.max_positions else true)
    ∷ check "family_concentration" (room_for e.max_family_positions c.family p.family_counts)
    ∷ check "expiration_concentration"
        (room_for e.max_expiration_positions c.expiration p.expiration_counts)
    ∷ check "delta" (under_limit e.delta_limit (abs_ℤ p.portfolio_delta))
    ∷ check "gamma" (under_limit e.gamma_limit (p.portfolio_gamma +ℤ abs_ℤ c.gamma))
    ∷ []

abbrev pub is_equivalent : RiskCandidate → PortfolioState → Bool
is_equivalent c p =
    elem c.candidate_id p.open_candidate_ids
    || (not (is_blank c.geometry_hash) && elem c.geometry_hash p.open_geometry_hashes)

-- The guard's answer, and the guard afterwards: being asked purges it.
abbrev pub ask_guard :
    RiskCandidate → String → ℕ → Option DuplicateGuard → Bool × Option DuplicateGuard
ask_guard c account_id now none = (true, none)
ask_guard c account_id now (some g) =
    let (dup, g') = is_duplicate c.candidate_id c.geometry_hash account_id [] [] now g in
    (elim dup [ none ↦ true | some d ↦ false ], some g')

abbrev pub duplicate_checks :
    RiskCandidate → FirewallContext → Option PortfolioState → List RiskCheck × Option DuplicateGuard
duplicate_checks c x none =
    (check "duplicate_order" true ∷ check "equivalent_position" true ∷ [], x.duplicate_guard)
duplicate_checks c x (some p) =
    let (fresh, g) = ask_guard c p.account_id x.now x.duplicate_guard in
    (check "equivalent_position" (not (is_equivalent c p)) ∷ check "duplicate_order" fresh ∷ [], g)

-- A decision without a time is let through.
abbrev pub decided_in_time : RiskEnvelope → FirewallContext → Option Timestamp → Bool
decided_in_time e x none = true
decided_in_time e x (some at) =
    not (is_stale (is_stale_decision (some at) (aware x.now) e.decision_ttl_seconds))

abbrev pub closing_checks : RiskEnvelope → FirewallContext → List RiskCheck
closing_checks e x =
    check "stale_decision" (decided_in_time e x x.decided_at)
    ∷ check "exit_policy" x.exit_policy_approved
    ∷ []
