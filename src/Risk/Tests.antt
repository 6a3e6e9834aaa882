-- ===== src/Risk/Tests.antt =====
-- The theorems of the risk layer at one portfolio.
use native.Mathlib.Nat.{lt-div-mul-add}
use Prim.Native.String.{◌++◌}
use spy_der.Prelude.{
  String, List, ℕ, zero, suc, ◌*◌, ◌/◌, ◌≡◌, refl, ◌↔◌, true, false, none, some, [], ◌∷◌, arith, ap,
}
use spy_der.Prelude.Int.{ℤ, pos, negsuc, ◌+ℤ◌, ◌*ℤ◌}
use spy_der.Prelude.Float.{real, zero_f}
use spy_der.Guard.Types.{aware}
use spy_der.Risk.Contracts.{
  PortfolioState, RiskLimits, RiskEnvelope, RiskDecision, entries_allowed, is_valid_portfolio,
}
use spy_der.Risk.Lockout.{
  default_lockout, Conditions, build_operational_state, InSession,
  build_operational_state-InSession,
}
use spy_der.Risk.Envelope.{build_risk_envelope}
use spy_der.Risk.Envelope.Budget.{Granted, build_risk_envelope-Affordable}
use spy_der.Risk.Duplicates.{
  DuplicateGuard, remember_decision, is_duplicate, is_stale_decision, Duplicate,
}
use spy_der.Risk.Duplicates.Memory.{remember-is_duplicate}
use spy_der.Prelude.Dict.{lookup, insert, from_pairs}
use spy_der.Risk.Sizing.{Decimals, contracts_for_risk}
use spy_der.Risk.Checks.{SystemAction, SystemDecision, RiskCandidate, FirewallContext}
use spy_der.Risk.Firewall.{size_of, contracts_of, all_checks, judged, apply_risk_firewall}
use spy_der.Risk.Firewall.Approval.{Approves, Clear, Selected, apply_risk_firewall-Clear}
use spy_der.Risk.Firewall.Sizes.{FloorLaw}
use spy_der.Risk.Firewall.Decision.{
  Bounded, Returns, apply_risk_firewall-Bounded, apply_risk_firewall-Sound,
}
use spy_der.Risk.Firewall.Service.{evaluate, evaluate-no_repeat}
use spy_der.Risk.Portfolio.{
  PortfolioTracker, check, record_trade, state_fields, to_portfolio_state, total_from, count_where,
}
use spy_der.Risk.Portfolio.Agreement.{carrying, Beyond, check-PortfolioClear}
use spy_der.Risk.Portfolio.Limits.{Within, steps-Within, done, next, traded}
use spy_der.Risk.Firewall.Cleared.{PortfolioClear}

abbrev portfolio : PortfolioState
portfolio = record {
  account_id = "system_b_v3";
  equity = pos 100000000;
  cash = pos 100000000;
  open_positions = 1;
  daily_realized_pnl = pos 0;
  open_risk_dollars = pos 1000000;
  portfolio_gamma = pos 0;
  portfolio_delta = pos 0;
  family_counts = [];
  expiration_counts = [];
  open_geometry_hashes = [];
  open_candidate_ids = [];
  state_id = "";
}

abbrev limits : RiskLimits
limits = record {
  max_risk_dollars = pos 5000000;
  max_contracts = 10;
  max_positions = 3;
  max_daily_loss = pos 4000000;
  delta_limit = none;
  gamma_limit = none;
  max_family_positions = 0;
  max_expiration_positions = 0;
  risk_per_trade_frac = 200;
  decision_ttl_seconds = pos 60;
}

build_risk_envelope-Affordable_example :
    (e : RiskEnvelope) × ((build_risk_envelope limits portfolio none (real (pos 5000)) ≡ some e)
      × Granted limits portfolio none e)
build_risk_envelope-Affordable_example =
    build_risk_envelope-Affordable limits portfolio none (real (pos 5000))

abbrev conditions : Conditions
conditions = record {
  market_open = true;
  data_valid = true;
  broker_available = true;
  deployment_permission = true;
  journal_available = true;
  catalyst_active = false;
  emergency = false;
  extra_hard_vetoes = [];
}

build_operational_state-InSession_example :
    (entries_allowed (build_operational_state 40000000000 conditions default_lockout) ≡ true)
    ↔ InSession 40000000000 conditions default_lockout
build_operational_state-InSession_example =
    build_operational_state-InSession 40000000000 conditions default_lockout

abbrev guard : DuplicateGuard
guard = record { ttl = 900000000; seen = [] }

remember-is_duplicate_example :
    (is_duplicate "c1" "g1" "a1" [] [] 1000000000
      (remember_decision "c1" "g1" "a1" 500000000 guard)).0
    ≡ some Duplicate.duplicate_order
remember-is_duplicate_example =
    (remember-is_duplicate "c1" "g1" "a1" 500000000 1000000000 guard).0 (omega arith)

-- A library of decimals with which the floor of a quotient is exact.
abbrev product : ℤ → ℤ → ℤ → ℤ
product (pos equity) (pos f) (pos s) = pos (equity * f * s / 100000000)
product _ _ _ = pos 0

abbrev floor_ratio : ℤ → ℤ → ℤ
floor_ratio (pos a) (pos (suc b)) = pos (a / suc b)
floor_ratio (negsuc a) (pos (suc b)) = negsuc (a / suc b)
floor_ratio _ _ = pos 0

abbrev ratio : ℤ → ℤ → ℤ
ratio (pos a) (pos (suc b)) = pos (a * 10000 / suc b)
ratio _ _ = pos 0

abbrev decimals : Decimals
decimals = record { product = product; floor_ratio = floor_ratio; ratio = ratio }

floor_ratio-FloorLaw : FloorLaw decimals
unfolding ◌*ℤ◌
floor_ratio-FloorLaw (pos a) (pos (suc b)) h = ground arith
floor_ratio-FloorLaw (pos a) (pos zero) h = absurd (omega arith)
floor_ratio-FloorLaw (pos a) (negsuc b) h = absurd (omega arith)
floor_ratio-FloorLaw (negsuc a) (pos (suc b)) h =
    ground (arith, lt-div-mul-add {a = a} {b = suc b} (omega arith))
floor_ratio-FloorLaw (negsuc a) (pos zero) h = absurd (omega arith)
floor_ratio-FloorLaw (negsuc a) (negsuc b) h = absurd (omega arith)

abbrev envelope : RiskEnvelope
envelope = record {
  account_id = "system_b_v3";
  approved = true;
  max_risk_dollars = pos 3000000;
  max_contracts = 10;
  max_positions = 3;
  max_daily_loss = pos 4000000;
  max_size_scalar = real (pos 10000);
  remaining_daily_loss_budget = pos 3000000;
  remaining_position_slots = 2;
  delta_limit = none;
  gamma_limit = none;
  max_family_positions = 2;
  max_expiration_positions = 0;
  lockout_active = false;
  deployment_permission = true;
  decision_ttl_seconds = pos 60;
  hard_vetoes = [];
  max_defined_risk_per_trade = some (pos 3000000);
}

abbrev spread : RiskCandidate
spread = record {
  candidate_id = "c1";
  geometry_hash = "g1";
  max_loss = some (pos 1000000);
  maximum_loss = none;
  family = "put_credit_spread";
  expiration = "2026-01-16";
  gamma = pos 0;
  delta = pos 0;
  snapshot_id = "s1";
}

abbrev chosen : SystemDecision
chosen = record {
  action = SystemAction.select_candidate;
  selected_candidate_id = some "c1";
  market_snapshot_id = "s1";
}

abbrev context : ℕ → FirewallContext
context t = record {
  portfolio = some portfolio;
  operational = none;
  decided_at = some (aware t);
  now = t;
  spot_age_seconds = some (real (pos 10000));
  bar_age_seconds = none;
  quote_age_seconds = none;
  max_spot_age_seconds = real (pos 600000);
  max_bar_age_seconds = real (pos 1200000);
  max_quote_age_seconds = real (pos 600000);
  fill_probability = none;
  min_fill_probability = zero_f;
  requested_contracts = 2;
  size_scalar = real (pos 10000);
  exit_policy_approved = true;
  duplicate_guard = none;
  expected_geometry_hash = none;
}

apply_risk_firewall-Clear_example :
    Approves (apply_risk_firewall decimals chosen envelope (spread ∷ []) (context 5000000)).0 ↔ (
      (c : RiskCandidate) × (Selected chosen (spread ∷ []) c
        × Clear decimals envelope (context 5000000) c))
apply_risk_firewall-Clear_example =
    apply_risk_firewall-Clear decimals chosen envelope (spread ∷ []) (context 5000000)

-- The decision at that input, which is an approval of two contracts.
abbrev two_approved : RiskDecision
two_approved = record {
  approved = true;
  approved_contracts = 2;
  approved_risk_dollars = pos 2000000;
  vetoes = [];
  checks = all_checks decimals envelope (context 5000000) spread 2;
  candidate_hash = "g1";
  market_snapshot_id = "s1";
  account_state_id = "";
  expires_at = 65000000;
}

chosen_approved :
    (apply_risk_firewall decimals chosen envelope (spread ∷ []) (context 5000000)).0
    ≡ some two_approved
unfolding apply_risk_firewall ◌+ℤ◌ lookup from_pairs is_stale_decision ◌*ℤ◌ contracts_for_risk
    size_of contracts_of all_checks
chosen_approved = refl

apply_risk_firewall-Bounded_example :
    (c : RiskCandidate) × (Selected chosen (spread ∷ []) c
      × Bounded envelope (context 5000000) two_approved c)
apply_risk_firewall-Bounded_example =
    apply_risk_firewall-Bounded decimals floor_ratio-FloorLaw chosen envelope (spread ∷ [])
      (context 5000000) two_approved chosen_approved refl

apply_risk_firewall-Sound_example :
    Returns
      (context 5000000)
      (apply_risk_firewall decimals chosen envelope (spread ∷ []) (context 5000000)).0
apply_risk_firewall-Sound_example =
    apply_risk_firewall-Sound decimals chosen envelope (spread ∷ []) (context 5000000)

abbrev kept : DuplicateGuard
kept = record { ttl = 900000000; seen = ("system_b_v3|c1|g1", 5000000) ∷ [] }

approved_once :
    (evaluate decimals none chosen envelope (spread ∷ []) (context 5000000))
    ≡ (some two_approved, some kept)
unfolding evaluate remember_decision insert apply_risk_firewall ◌+ℤ◌ lookup from_pairs
    is_stale_decision ◌*ℤ◌ contracts_for_risk size_of contracts_of all_checks
approved_once = refl

-- The decision of the same call a minute later.
abbrev refused_again : RiskDecision
refused_again =
    judged decimals chosen envelope (record (context 65000000) { duplicate_guard = some kept })
      spread 2

asked_again :
    (evaluate decimals (some kept) chosen envelope (spread ∷ []) (context 65000000)).0
    ≡ some refused_again
unfolding evaluate remember_decision insert apply_risk_firewall ◌+ℤ◌ lookup from_pairs
    is_stale_decision ◌*ℤ◌ contracts_for_risk size_of contracts_of all_checks judged
asked_again = refl

evaluate-no_repeat_example : refused_again.approved ≡ false
evaluate-no_repeat_example =
    evaluate-no_repeat decimals none chosen envelope envelope (spread ∷ []) (context 5000000)
      (context 65000000) portfolio portfolio kept two_approved refused_again refl refl refl refl
      (ap (λ z. z.0) approved_once) refl (ap (λ z. z.1) approved_once) (omega arith) asked_again

abbrev tracker : PortfolioTracker
tracker = record {
  limits = limits;
  session = "2026-01-15";
  positions = [];
  daily_committed_loss = pos 0;
  daily_realized_pnl = pos 0;
}

abbrev joined : String → String → List String → ℤ → String
joined account_id session ids committed = account_id ++ session

abbrev exported : PortfolioState
exported = state_fields joined "a1" (pos 100000000) (pos 100000000) tracker

check-PortfolioClear_example :
    PortfolioClear (carrying tracker envelope) spread exported
    ↔ ((true ≡ true) × Beyond envelope spread tracker (pos 100000000))
unfolding check ◌+ℤ◌ to_portfolio_state is_valid_portfolio
check-PortfolioClear_example =
    (check-PortfolioClear joined spread "2026-01-15" "a1" (pos 100000000) (pos 100000000) tracker
        envelope).1
      exported refl

steps-Within_example : Within (pos 1) (record_trade spread "2026-01-15" (pos 1) tracker)
unfolding check total_from count_where ◌+ℤ◌
steps-Within_example =
    steps-Within (pos 1) {s = tracker}
      (next (traded spread "2026-01-15" (pos 1) refl (omega arith)) done)
      (λ a b. omega arith, (λ a. omega arith, (tt, (λ k a b. omega arith, λ k a b. omega arith))))
