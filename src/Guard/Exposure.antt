-- ===== src/Guard/Exposure.antt =====
-- What the guard lets out: a verdict's size is never more than was asked for or allowed, and a
-- blocked one has none. Its block list is a checklist: each reason once.
use spy_der.Prelude.{String, ◌≡◌, true, false, Option, none, [], arith}
use spy_der.Prelude.Int.{ℤ, pos, ◌≤ℤ◌, max_ℤ}
use spy_der.Prelude.Float.{Float, real, zero_f, AtMost}
use spy_der.Guard.Types.{GuardLimits, limits_error, GuardContext, GuardDecision}
use spy_der.Guard.Run.{
  is_trade, clamp_size, clamp_contracts, limits_or_default, apply_execution_guard,
}

-- A verdict that puts nothing at risk.
pub record IsFlat (d : GuardDecision) : Type 0 where
  pub no_candidate : d.candidate_id ≡ none
  pub no_size : d.size_scalar ≡ zero_f
  pub no_contracts : d.contracts ≡ pos 0

-- Whatever is asked, a verdict that is blocked is flat, and so is every verdict on a decision that
-- is no trade, which is approved and has no block.
pub apply_execution_guard-IsFlat :
    (action : String) (i : Option String) (size : Float) (ctx : GuardContext)
    (limits : Option GuardLimits)
    → let d = apply_execution_guard action i size ctx limits in
      (d.approved ≡ false → IsFlat d)
      × (is_trade action ≡ false → IsFlat d × (d.approved ≡ true) × (d.blocks ≡ []))
unfolding apply_execution_guard
apply_execution_guard-IsFlat action i size ctx limits = (λ h. ground arith, λ h. ground arith)

clamp_size_bounds :
    (lim : GuardLimits) (s : ℤ)
    → limits_error lim ≡ none
    → AtMost zero_f (clamp_size lim (real s))
      × AtMost (clamp_size lim (real s)) lim.max_size_scalar
      × (pos 0 ≤ℤ s → AtMost (clamp_size lim (real s)) (real s))
unfolding clamp_size limits_error
clamp_size_bounds lim s h = ground arith

clamp_contracts_bounds :
    (lim : GuardLimits) (ctx : GuardContext)
    → limits_error lim ≡ none
    → (pos 0 ≤ℤ clamp_contracts lim ctx)
      × (clamp_contracts lim ctx ≤ℤ lim.max_contracts)
      × (clamp_contracts lim ctx ≤ℤ max_ℤ ctx.requested_contracts (pos 0))
unfolding clamp_contracts limits_error
clamp_contracts_bounds lim ctx h = ground arith

-- The size and the contracts of a verdict lie in the limits' ranges.
pub record IsBounded (lim : GuardLimits) (ctx : GuardContext) (size : ℤ) (d : GuardDecision)
    : Type 0 where
  pub size_low : AtMost zero_f d.size_scalar
  pub size_high : AtMost d.size_scalar lim.max_size_scalar
  pub size_asked : pos 0 ≤ℤ size → AtMost d.size_scalar (real size)
  pub contracts_low : pos 0 ≤ℤ d.contracts
  pub contracts_high : d.contracts ≤ℤ lim.max_contracts
  pub contracts_asked : d.contracts ≤ℤ max_ℤ ctx.requested_contracts (pos 0)

zero_bounds :
    (lim : GuardLimits)
    → limits_error lim ≡ none
    → AtMost zero_f lim.max_size_scalar × (pos 0 ≤ℤ lim.max_contracts)
unfolding limits_error
zero_bounds lim h = ground arith

-- Under limits that `GuardLimits` accepts and for a size that is a number, the verdict on any
-- decision never widens it: its size is between 0 and the limit and at most the size asked for, its
-- contracts between 0 and the limit and at most those requested.
pub apply_execution_guard-IsBounded :
    (action : String) (i : Option String) (size : ℤ) (ctx : GuardContext)
    (limits : Option GuardLimits)
    → limits_error (limits_or_default limits) ≡ none
    → IsBounded
        (limits_or_default limits)
        ctx
        size
        (apply_execution_guard action i (real size) ctx limits)
unfolding apply_execution_guard
apply_execution_guard-IsBounded action i size ctx limits ok = ground (
  arith,
  clamp_size_bounds (limits_or_default limits) size ok,
  clamp_contracts_bounds (limits_or_default limits) ctx ok,
  zero_bounds (limits_or_default limits) ok,
)
