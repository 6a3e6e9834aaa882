-- ===== src/Positions/Exits.antt =====
-- `evaluate_exit` of src/spy_der/positions/exits.py, statement by statement. The reasons are the
-- source's literals; an instant is one of microseconds, and its time of day in New York is a parameter.
pub mod Signals
use spy_der.Prelude.{
  ℕ, ◌-◌, ◌*◌, String, Bool, true, false, ◌&&◌, ◌||◌, Option, none, some, [], ◌∷◌, if◌then◌else◌,
  ltb, leb, eqb,
}
use spy_der.Prelude.Int.{ℤ, pos, ◌-ℤ◌, eqb_ℤ}
use spy_der.Prelude.Float.{Float, nan, real, zero_f, ltb_f, leb_f}
use spy_der.Prelude.Text.{elem, str_eq}
use spy_der.Prelude.Effects.{Result, ok, err}
use spy_der.Execution.Contracts.{Fault, unapproved_policy}
use spy_der.Positions.Contracts.{
  PositionState, ExitPolicy, policy_named, is_approved_policy, profit_ratio, fixed_target,
  fixed_stop, target_and_stop, trailing, eod_exit, structural_ras_exit,
}

pub data ExitReason : Type 0 where
  flat emergency_now expiration structural_ras no_entry target stop trail time_limit eod hold :
      ExitReason

pub record ExitSignal : Type 0 where
  pub should_exit : Bool
  pub reason : ExitReason
  pub policy_id : String

-- What the caller says besides the position.
pub record ExitCall : Type 0 where
  pub mark_price : ℤ
  pub now : ℕ
  pub ras_exit : Bool
  pub emergency : Bool
  pub expired : Bool

abbrev pub neg_f : Float → Float
neg_f nan = nan
neg_f (real a) = real (pos 0 -ℤ a)

abbrev pub follows_ras : ExitPolicy → Bool
follows_ras p = elem p.policy_id (structural_ras_exit ∷ target_and_stop ∷ trailing ∷ [])

abbrev pub takes_profit : ExitPolicy → Bool
takes_profit p = elem p.policy_id (fixed_target ∷ target_and_stop ∷ trailing ∷ [])

abbrev pub stops_loss : ExitPolicy → Bool
stops_loss p = elem p.policy_id (fixed_stop ∷ target_and_stop ∷ trailing ∷ [])

abbrev pub target_hit : ExitPolicy → ℤ → Bool
target_hit p r =
    takes_profit p && (ltb_f zero_f p.take_profit_ratio && leb_f p.take_profit_ratio (real r))

abbrev pub stop_hit : ExitPolicy → ℤ → Bool
stop_hit p r =
    stops_loss p && (ltb_f zero_f p.stop_loss_ratio && leb_f (real r) (neg_f p.stop_loss_ratio))

abbrev pub trail_hit : ExitPolicy → ℤ → ℤ → Bool
trail_hit p peak r =
    str_eq p.policy_id trailing
    && (leb_f p.trailing_arm_ratio (real peak)
        && leb_f p.trailing_giveback_ratio (real (peak -ℤ r)))

abbrev pub held_for : ExitPolicy → ℕ → Option ℕ → Bool
held_for p now none = false
held_for p now (some at) =
    ltb 0 p.max_holding_minutes && leb (p.max_holding_minutes * 60000000) (now - at)

-- 15:55
abbrev pub eod_time : ℕ
eod_time = 57300000000

abbrev pub signal : Bool → ExitReason → String → ExitSignal
signal b r i = record { should_exit = b; reason = r; policy_id = i }

-- `policy or ExitPolicy(policy_id=...)`, whose constructor refuses a policy that is not approved.
abbrev pub policy_for : PositionState → Option ExitPolicy → Result Fault ExitPolicy
policy_for q (some p) = ok p
policy_for q none =
    if is_approved_policy (policy_named q.exit_policy_id)
    then ok (policy_named q.exit_policy_id)
    else err (unapproved_policy q.exit_policy_id)

module _ (decimal_div : ℤ → ℤ → ℤ) (et_time : ℕ → ℕ) where
  abbrev pub eod_hit : ExitPolicy → ℕ → Bool
  eod_hit p now = (p.eod_close || str_eq p.policy_id eod_exit) && leb eod_time (et_time now)

  -- The tests on the signed fraction `r` of the entry price, and on the clock.
  unfoldable pub on_ratio : ExitPolicy → PositionState → ℕ → ℤ → ExitSignal
  on_ratio p q now r =
      if target_hit p r
      then signal true target p.policy_id
      else if stop_hit p r
      then signal true stop p.policy_id
      else if trail_hit p q.peak_pnl r
      then signal true trail p.policy_id
      else if held_for p now q.opened_at
      then signal true time_limit p.policy_id
      else if eod_hit p now
      then signal true eod p.policy_id
      else signal false hold p.policy_id

  unfoldable pub on_ratio_result :
      ExitPolicy → PositionState → ℕ → Result Fault ℤ → Result Fault ExitSignal
  unfolding on_ratio
  on_ratio_result p q now (err e) = err e
  on_ratio_result p q now (ok r) = ok (on_ratio p q now r)

  unfoldable pub on_entry :
      ExitPolicy → PositionState → ExitCall → Option ℤ → Result Fault ExitSignal
  unfolding on_ratio_result
  on_entry p q c none = ok (signal false no_entry "")
  on_entry p q c (some entry) =
      if eqb_ℤ entry (pos 0)
      then ok (signal false no_entry "")
      else on_ratio_result p q c.now
          (profit_ratio decimal_div entry c.mark_price q.opened_for_credit)

  unfoldable pub on_policy :
      PositionState → ExitCall → Result Fault ExitPolicy → Result Fault ExitSignal
  unfolding on_entry
  on_policy q c (err e) = err e
  on_policy q c (ok p) =
      if eqb q.open_contracts 0
      then ok (signal false flat "")
      else if c.emergency
      then ok (signal true emergency_now p.policy_id)
      else if c.expired
      then ok (signal true expiration p.policy_id)
      else if c.ras_exit && follows_ras p
      then ok (signal true structural_ras p.policy_id)
      else on_entry p q c q.entry_price

  unfoldable pub evaluate_exit :
      PositionState → ExitCall → Option ExitPolicy → Result Fault ExitSignal
  unfolding on_policy
  evaluate_exit q c policy = on_policy q c (policy_for q policy)
