-- ===== src/Prelude/Effects.antt =====
-- A method call: it returns or raises, and its object comes back either way, since what was written
-- before a raise stays written.
use mathlib.Core.Path.{◌≡◌, refl, ap}
use mathlib.Core.Bool.{Bool, true, false}
use mathlib.Core.Option.{Option, none, some}

pub data Result (E A : Type 0) : Type 0 where
  ok : A → Result E A
  err : E → Result E A

abbrev pub Action : Type 0 → Type 0 → Type 0 → Type 0
Action E S A = S → Result E A × S

module _ {E S : Type 0} where
  abbrev pub pure : {A : Type 0} → A → Action E S A
  pure a s = (ok a, s)

  abbrev pub raise : {A : Type 0} → E → Action E S A
  raise e s = (err e, s)

  abbrev pub get : Action E S S
  get s = (ok s, s)

  abbrev pub modify : (S → S) → Action E S (Unit {0})
  modify f s = (ok tt, f s)

  -- `if not c: raise e`
  abbrev pub require : Bool → E → Action E S (Unit {0})
  require true e s = (ok tt, s)
  require false e s = (err e, s)

  -- `d[k]`, a `KeyError` where the key is missing
  abbrev pub or_raise : {A : Type 0} → Option A → E → Action E S A
  or_raise none e s = (err e, s)
  or_raise (some a) e s = (ok a, s)

  infixl 5 ◌>>=◌ ◌>>◌
  abbrev pub ◌>>=◌ : {A B : Type 0} → Action E S A → (A → Action E S B) → Action E S B
  ◌>>=◌ m f s = let (r, s') = m s in elim r [ ok a ↦ f a s' | err e ↦ (err e, s') ]

  abbrev pub ◌>>◌ : {A B : Type 0} → Action E S A → Action E S B → Action E S B
  m >> k = m >>= λ _. k

-- A call on a part of the object.
abbrev pub within : {E S T A : Type 0} → (S → T) → (T → S → S) → Action E T A → Action E S A
within view put m s = let (r, t) = m (view s) in (r, put t s)

bind_from : {E S A B : Type 0} → (A → Action E S B) → Result E A × S → Result E B × S
bind_from f p = elim p.0 [ ok a ↦ f a p.1 | err e ↦ (err e, p.1) ]

-- A chain whose first step is known.
pub >>=-ok :
    {E S A B : Type 0} (m : Action E S A) (f : A → Action E S B) (s : S) {x : A} {t : S}
    → m s ≡ (ok x, t)
    → (m >>= f) s ≡ f x t
unfolding bind_from
>>=-ok m f s e = ap (bind_from f) e

pub >>=-err :
    {E S A B : Type 0} (m : Action E S A) (f : A → Action E S B) (s : S) {x : E} {t : S}
    → m s ≡ (err x, t)
    → (m >>= f) s ≡ (err x, t)
unfolding bind_from
>>=-err m f s e = ap (bind_from f) e

-- A requirement that is met lets the chain go on; one that is not ends it.
pub require_met :
    {E S B : Type 0} (b : Bool) (e : E) (k : Action E S B) (s : S)
    → b ≡ true
    → (require b e >> k) s ≡ k s
require_met true e k s h = refl
require_met false e k s h = cc

pub require_failed :
    {E S B : Type 0} (b : Bool) (e : E) (k : Action E S B) (s : S)
    → b ≡ false
    → (require b e >> k) s ≡ (err e, s)
require_failed true e k s h = cc
require_failed false e k s h = refl
