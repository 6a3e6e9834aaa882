-- ===== src/Risk/Envelope.antt =====
-- `build_risk_envelope` of src/spy_der/risk/envelope.py, step by step.
pub mod Budget
use spy_der.Prelude.{
  ℕ, suc, ◌-◌, ◌*◌, Bool, true, false, ◌&&◌, ◌||◌, not, Option, none, some, List, [], ◌++◌,
  if◌then◌else◌, String, ltb, eqb, when, is_nil,
}
use spy_der.Prelude.Int.{ℤ, pos, negsuc, ◌+ℤ◌, ◌-ℤ◌, ltb_ℤ, leb_ℤ, max_ℤ, min_ℤ}
use spy_der.Prelude.Float.{Float, real, zero_f, max_f, min_f}
use spy_der.Execution.Simulator.{round_half_even}
use spy_der.Prelude.Text.{distinct}
use spy_der.Risk.Contracts.{
  OperationalState, entries_allowed, PortfolioState, RiskLimits, RiskEnvelope, make_envelope,
  rejected,
}

abbrev pub abs_ℤ : ℤ → ℤ
abs_ℤ (pos n) = pos n
abs_ℤ (negsuc n) = pos (suc n)

unfoldable pub operational_vetoes : Option OperationalState → List String
operational_vetoes none = []
operational_vetoes (some o) =
    o.hard_vetoes
    ++ (when (not (entries_allowed o) && is_nil o.hard_vetoes) "entries_not_allowed"
        ++ (when (not o.deployment_permission) "deployment_denied"
            ++ when (not o.journal_available) "journal_unavailable"))

-- Committed open risk and a realized loss, which use up the day's budget.
abbrev pub consumed : PortfolioState → ℤ
consumed p =
    if ltb_ℤ p.daily_realized_pnl (pos 0)
    then p.open_risk_dollars +ℤ abs_ℤ p.daily_realized_pnl
    else p.open_risk_dollars

abbrev pub remaining_daily : RiskLimits → PortfolioState → ℤ
remaining_daily l p =
    if ltb_ℤ (pos 0) l.max_daily_loss
    then max_ℤ (pos 0) (l.max_daily_loss -ℤ consumed p)
    else l.max_daily_loss

abbrev pub unlimited_slots : ℕ
unlimited_slots = 1000000000

abbrev pub remaining_slots : RiskLimits → PortfolioState → ℕ
remaining_slots l p =
    if ltb 0 l.max_positions then l.max_positions - p.open_positions else unlimited_slots

-- The static ceiling and the day's budget, whichever is set and lower.
abbrev pub capped_risk : RiskLimits → PortfolioState → ℤ
capped_risk l p =
    if ltb_ℤ (pos 0) l.max_daily_loss
    then (if leb_ℤ l.max_risk_dollars (pos 0)
        then remaining_daily l p
        else min_ℤ l.max_risk_dollars (remaining_daily l p))
    else l.max_risk_dollars

-- `(equity * frac).quantize(0.0001)` of a positive equity.
abbrev pub equity_fraction : ℤ → ℕ → ℤ
equity_fraction (pos e) f = pos (round_half_even (e * f) 10000)
equity_fraction (negsuc e) f = pos 0

abbrev pub max_risk : RiskLimits → PortfolioState → ℤ
max_risk l p =
    if leb_ℤ (capped_risk l p) (pos 0) && (ltb_ℤ (pos 0) p.equity && ltb 0 l.risk_per_trade_frac)
    then equity_fraction p.equity l.risk_per_trade_frac
    else capped_risk l p

-- `limit is not None and limit > 0` and the value is above it.
abbrev pub above_limit : Option ℤ → ℤ → Bool
above_limit none v = false
above_limit (some m) v = ltb_ℤ (pos 0) m && ltb_ℤ m v

unfoldable pub budget_vetoes : RiskLimits → PortfolioState → List String
budget_vetoes l p =
    when (ltb_ℤ (pos 0) l.max_daily_loss && leb_ℤ (remaining_daily l p) (pos 0))
      "daily_loss_exhausted"
    ++ (when (ltb 0 l.max_positions && eqb (remaining_slots l p) 0) "max_positions"
        ++ (when (leb_ℤ (max_risk l p) (pos 0)) "zero_risk_budget"
            ++ (when (above_limit l.gamma_limit p.portfolio_gamma) "portfolio_gamma"
                ++ when (above_limit l.delta_limit (abs_ℤ p.portfolio_delta)) "portfolio_delta")))

unfoldable pub envelope_vetoes : RiskLimits → PortfolioState → Option OperationalState → List String
unfolding operational_vetoes budget_vetoes
envelope_vetoes l p ops = operational_vetoes ops ++ budget_vetoes l p

-- `max(0.0, min(1.0, cap))`
abbrev pub size_scalar : Float → Float
size_scalar cap = max_f zero_f (min_f (real (pos 10000)) cap)

abbrev pub in_lockout : Option OperationalState → Bool
in_lockout none = false
in_lockout (some o) = o.session_warmup || (o.entry_locked || not (is_nil o.hard_vetoes))

abbrev pub is_permitted : Option OperationalState → Bool
is_permitted none = true
is_permitted (some o) = o.deployment_permission

-- What an envelope that passes is built from.
abbrev pub approved_fields :
    RiskLimits → PortfolioState → Option OperationalState → Float → RiskEnvelope
approved_fields l p ops cap = record {
  account_id = p.account_id;
  approved = true;
  max_risk_dollars = max_risk l p;
  max_contracts = l.max_contracts;
  max_positions = l.max_positions;
  max_daily_loss = l.max_daily_loss;
  max_size_scalar = size_scalar cap;
  remaining_daily_loss_budget =
      if ltb_ℤ (pos 0) l.max_daily_loss then remaining_daily l p else max_risk l p;
  remaining_position_slots = if ltb 0 l.max_positions then remaining_slots l p else unlimited_slots;
  delta_limit = l.delta_limit;
  gamma_limit = l.gamma_limit;
  max_family_positions = l.max_family_positions;
  max_expiration_positions = l.max_expiration_positions;
  lockout_active = in_lockout ops;
  deployment_permission = is_permitted ops;
  decision_ttl_seconds = l.decision_ttl_seconds;
  hard_vetoes = [];
  max_defined_risk_per_trade = none;
}

-- `none` where a constructor raises.
unfoldable pub build_risk_envelope :
    RiskLimits → PortfolioState → Option OperationalState → Float → Option RiskEnvelope
unfolding envelope_vetoes
build_risk_envelope l p ops cap =
    let hard = distinct (envelope_vetoes l p ops) in
    if is_nil hard then make_envelope (approved_fields l p ops cap) else rejected hard p.account_id
