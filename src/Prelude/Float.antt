-- ===== src/Prelude/Float.antt =====
-- Python's `float` as far as the guards compare it: a value on a grid, or NaN, against which every
-- comparison is false. An infinity is a grid value beyond all others of a run.
use mathlib.Core.Path.{◌≡◌, refl}
use mathlib.Core.Logic.{◌↔◌}
use mathlib.Core.Bool.{Bool, true, false}
use native.Mathlib.Omega.{arith}
use spy_der.Prelude.Bools.{if◌then◌else◌}
use spy_der.Prelude.Int.{ℤ, pos, ltb_ℤ, leb_ℤ, ◌<ℤ◌, ◌≤ℤ◌}

pub data Float : Type 0 where
  nan : Float
  real : ℤ → Float

abbrev pub ltb_f : Float → Float → Bool
ltb_f nan y = false
ltb_f (real a) nan = false
ltb_f (real a) (real b) = ltb_ℤ a b

abbrev pub leb_f : Float → Float → Bool
leb_f nan y = false
leb_f (real a) nan = false
leb_f (real a) (real b) = leb_ℤ a b

-- The orders as statements.
abbrev pub Below : Float → Float → Type 0
Below nan y = ⊥
Below (real a) nan = ⊥
Below (real a) (real b) = a <ℤ b

abbrev pub AtMost : Float → Float → Type 0
AtMost nan y = ⊥
AtMost (real a) nan = ⊥
AtMost (real a) (real b) = a ≤ℤ b

-- `max(a, b)` and `min(a, b)` keep the first argument unless the second is strictly better.
abbrev pub max_f : Float → Float → Float
max_f a b = if ltb_f a b then b else a

abbrev pub min_f : Float → Float → Float
min_f a b = if ltb_f b a then b else a

abbrev pub zero_f : Float
zero_f = real (pos 0)

pub ltb_f-false : (x y : Float) → (ltb_f x y ≡ false) ↔ ¬ (Below x y)
ltb_f-false nan y = (λ h k. k, λ h. refl)
ltb_f-false (real a) nan = (λ h k. k, λ h. refl)
ltb_f-false (real a) (real b) = (λ h. ground arith, λ h. ground arith)

pub leb_f-false : (x y : Float) → (leb_f x y ≡ false) ↔ ¬ (AtMost x y)
leb_f-false nan y = (λ h k. k, λ h. refl)
leb_f-false (real a) nan = (λ h k. k, λ h. refl)
leb_f-false (real a) (real b) = (λ h. ground arith, λ h. ground arith)

pub ltb_f-true : (x y : Float) → (ltb_f x y ≡ true) ↔ Below x y
ltb_f-true nan y = (λ h. cc, λ h. absurd h)
ltb_f-true (real a) nan = (λ h. cc, λ h. absurd h)
ltb_f-true (real a) (real b) = (λ h. ground arith, λ h. ground arith)

pub leb_f-true : (x y : Float) → (leb_f x y ≡ true) ↔ AtMost x y
leb_f-true nan y = (λ h. cc, λ h. absurd h)
leb_f-true (real a) nan = (λ h. cc, λ h. absurd h)
leb_f-true (real a) (real b) = (λ h. ground arith, λ h. ground arith)
