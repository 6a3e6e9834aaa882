-- ===== src/Risk/Firewall.antt =====
-- `apply_risk_firewall` of src/spy_der/risk/firewall.py, which puts the checks together and sizes the
-- trade. `now` is an aware instant, and a requested count that is not positive is 0.
pub mod Recent
pub mod Cleared
pub mod Afford
pub mod Approval
pub mod Sizes
pub mod Decision
pub mod Service
use spy_der.Risk.Checks.{
  SystemAction, SystemDecision, RiskCandidate, FirewallContext, max_loss_of, check, envelope_checks,
  operational_checks, freshness_checks, loss_fits, candidate_checks, portfolio_checks,
  duplicate_checks, closing_checks, select_candidate,
}
use spy_der.Prelude.{
  ℕ, ◌+◌, ◌*◌, String, false, Option, none, some, List, [], ◌∷◌, ◌++◌, if◌then◌else◌, ltb, find?,
  is_nil,
}
use spy_der.Prelude.Int.{ℤ, pos, ◌*ℤ◌, ltb_ℤ, max_ℤ, pos_part}
use spy_der.Prelude.Float.{Float, real, zero_f, min_f}
use spy_der.Prelude.Text.{is_blank, str_eq}
use spy_der.Risk.Contracts.{
  PortfolioState, RiskEnvelope, RiskCheck, RiskVeto, RiskDecision, risk_of,
}
use spy_der.Risk.Duplicates.{DuplicateGuard}
use spy_der.Risk.Sizing.{Decimals, SizeResult, contracts_for_risk, at_most}

-- `cap if cap > 0 else None`
abbrev pub positive_cap : ℤ → Option ℤ
positive_cap cap = if ltb_ℤ (pos 0) cap then some cap else none

-- The vetoes are the checks that failed, in order.
unfoldable pub vetoes_of : List RiskCheck → List RiskVeto
vetoes_of [] = []
vetoes_of (c ∷ cs) =
    if c.passed then vetoes_of cs else record { code = c.name; severity = "hard" } ∷ vetoes_of cs

abbrev pub state_id_of : Option PortfolioState → String
state_id_of none = ""
state_id_of (some p) = p.state_id

-- `now + timedelta(seconds=max(1, ttl))`
abbrev pub expiry : ℕ → ℤ → ℕ
expiry now ttl = now + pos_part (max_ℤ (pos 1) ttl) * 1000000

abbrev pub nothing_selected :
    String → RiskEnvelope → FirewallContext → SystemDecision → RiskDecision
nothing_selected code e x d = record {
  approved = false;
  approved_contracts = 0;
  approved_risk_dollars = pos 0;
  vetoes = record { code = code; severity = "hard" } ∷ [];
  checks = check code false ∷ [];
  candidate_hash = "";
  market_snapshot_id = d.market_snapshot_id;
  account_state_id = state_id_of x.portfolio;
  expires_at = expiry x.now e.decision_ttl_seconds;
}

-- The candidate that a decision selects, if it is to be executed at all.
abbrev pub wanted : SystemAction → Option String → Option String
wanted select_candidate i = i
wanted _ i = none

-- The account's equity in the sizing call: the cap stands for it where no portfolio is given.
abbrev pub equity_of : ℤ → Option PortfolioState → ℤ
equity_of cap none = cap
equity_of cap (some p) = p.equity

-- The contracts that are approved, if anything is, of the size of the sizing call.
abbrev pub count_for :
    RiskEnvelope → FirewallContext → RiskCandidate → Option PortfolioState → SizeResult → ℕ
count_for e x c none size = if loss_fits (risk_of e) (max_loss_of c) then 1 else 0
count_for e x c (some p) size =
    at_most e.max_contracts (at_most x.requested_contracts size.contracts)

module _ (ops : Decimals) where
  -- `risk_frac` of the sizing call.
  abbrev pub risk_frac_of : ℤ → Option PortfolioState → Float
  risk_frac_of cap none = real (pos 10000)
  risk_frac_of cap (some p) =
      if ltb_ℤ (pos 0) p.equity
      then min_f (real (pos 10000)) (real (ops.ratio cap p.equity))
      else zero_f

  -- The sizing call, which is made with or without a portfolio; none where it raises.
  unfoldable pub size_of :
      RiskEnvelope → FirewallContext → RiskCandidate → Option PortfolioState → Option SizeResult
  size_of e x c o =
      contracts_for_risk ops (equity_of (risk_of e) o) (risk_frac_of (risk_of e) o) (max_loss_of c)
        e.max_contracts (positive_cap (risk_of e)) (min_f x.size_scalar e.max_size_scalar)

  unfoldable pub contracts_of :
      RiskEnvelope → FirewallContext → RiskCandidate → Option PortfolioState → Option ℕ
  unfolding size_of
  contracts_of e x c o = elim (size_of e x c o) [
    | none ↦ none
    | some size ↦ some (count_for e x c o size)
  ]

  abbrev pub sizing_checks : ℕ → Option PortfolioState → List RiskCheck
  sizing_checks n none = []
  sizing_checks n (some p) = check "sizing" (ltb 0 n) ∷ []

  abbrev pub account_checks :
      RiskEnvelope → FirewallContext → RiskCandidate → Option PortfolioState → ℕ → List RiskCheck
  account_checks e x c o n =
      portfolio_checks e c o
      ++ ((duplicate_checks c x o).0 ++ (closing_checks e x ++ sizing_checks n o))

  unfoldable pub all_checks : RiskEnvelope → FirewallContext → RiskCandidate → ℕ → List RiskCheck
  all_checks e x c n =
      envelope_checks e
      ++ (operational_checks x.operational
          ++ (freshness_checks x ++ (candidate_checks e x c ++ account_checks e x c x.portfolio n)))

  -- The decision, of the contracts that the sizing allows.
  unfoldable pub judged :
      SystemDecision → RiskEnvelope → FirewallContext → RiskCandidate → ℕ → RiskDecision
  unfolding all_checks vetoes_of
  judged d e x c n =
      let checks = all_checks e x c n in
      let approved = is_nil (vetoes_of checks) in
      record {
        approved = approved;
        approved_contracts = if approved then n else 0;
        approved_risk_dollars = if approved then max_loss_of c *ℤ pos n else pos 0;
        vetoes = vetoes_of checks;
        checks = checks;
        candidate_hash = c.geometry_hash;
        market_snapshot_id =
            if is_blank d.market_snapshot_id then c.snapshot_id else d.market_snapshot_id;
        account_state_id = state_id_of x.portfolio;
        expires_at = expiry x.now e.decision_ttl_seconds;
      }

  unfoldable pub judge :
      SystemDecision → RiskEnvelope → FirewallContext → RiskCandidate → Option RiskDecision
  unfolding judged contracts_of
  judge d e x c = elim (contracts_of e x c x.portfolio) [
    | none ↦ none
    | some n ↦ some (judged d e x c n)
  ]

  -- A call that raises has asked the guard before, which is then as it is after the question.
  on_candidate :
      SystemDecision
      → RiskEnvelope
      → FirewallContext
      → Option RiskCandidate
      → Option RiskDecision × Option DuplicateGuard
  unfolding judge
  on_candidate d e x none = (some (nothing_selected "candidate_id" e x d), x.duplicate_guard)
  on_candidate d e x (some c) = (judge d e x c, (duplicate_checks c x x.portfolio).1)

  on_decision :
      SystemDecision
      → RiskEnvelope
      → List RiskCandidate
      → FirewallContext
      → Option String
      → Option RiskDecision × Option DuplicateGuard
  unfolding on_candidate
  on_decision d e universe x none =
      (some (nothing_selected "order_intent" e x d), x.duplicate_guard)
  on_decision d e universe x (some i) =
      on_candidate d e x (find? (λ c. str_eq c.candidate_id i) universe)

  -- The decision, none where the call raises, and the guard of the context afterwards.
  unfoldable pub apply_risk_firewall :
      SystemDecision
      → RiskEnvelope
      → List RiskCandidate
      → FirewallContext
      → Option RiskDecision × Option DuplicateGuard
  unfolding on_decision
  apply_risk_firewall d e universe x =
      on_decision d e universe x (wanted d.action d.selected_candidate_id)
