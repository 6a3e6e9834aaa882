-- ===== src/Prelude/Hoare.antt =====
-- Rules for an invariant of an object's methods: what holds before a call holds after it, whether it
-- returns or raises, and what it returns satisfies a postcondition.
use mathlib.Core.Path.{◌≡◌, refl}
use mathlib.Core.Bool.{Bool, true, false}
use mathlib.Core.Option.{Option, none, some}
use spy_der.Prelude.Bools.{if◌then◌else◌}
use spy_der.Prelude.Effects.{
  Result, ok, err, Action, pure, raise, get, modify, require, or_raise, ◌>>=◌,
}

abbrev pub Returned : {E A : Type 0} → (A → Type 0) → Result E A → Type 0
Returned Q (ok x) = Q x
Returned Q (err e) = Unit

pub record Keeps {E S A : Type 0} (I : S → Type 0) (Q : A → Type 0) (m : Action E S A)
    : Type 0 where
  pub keeps : (s : S) → I s → I (m s).1
  pub gives : (s : S) → I s → Returned Q (m s).0

module _ {E S : Type 0} (I : S → Type 0) where
  pub pure-Keeps : {A : Type 0} (Q : A → Type 0) (x : A) → Q x → Keeps {E = E} I Q (pure x)
  pure-Keeps Q x q = record { keeps = λ s h. h; gives = λ s h. q }

  pub raise-Keeps : {A : Type 0} (Q : A → Type 0) (e : E) → Keeps I Q (raise e)
  raise-Keeps Q e = record { keeps = λ s h. h; gives = λ s h. tt }

  pub get-Keeps : Keeps {E = E} I I get
  get-Keeps = record { keeps = λ s h. h; gives = λ s h. h }

  pub modify-Keeps :
      (f : S → S) → ((s : S) → I s → I (f s)) → Keeps {E = E} I (λ u. Unit {0}) (modify f)
  modify-Keeps f k = record { keeps = λ s h. k s h; gives = λ s h. tt }

  pub require-Keeps : (b : Bool) (e : E) → Keeps I (λ u. b ≡ true) (require b e)
  require-Keeps true e = record { keeps = λ s h. h; gives = λ s h. refl }
  require-Keeps false e = record { keeps = λ s h. h; gives = λ s h. tt }

  pub or_raise-Keeps :
      {A : Type 0} (o : Option A) (e : E) → Keeps I (λ x. o ≡ some x) (or_raise o e)
  or_raise-Keeps none e = record { keeps = λ s h. h; gives = λ s h. tt }
  or_raise-Keeps (some x) e = record { keeps = λ s h. h; gives = λ s h. refl }

  pub choose-Keeps :
      {A : Type 0} {Q : A → Type 0} (b : Bool) {m n : Action E S A}
      → (b ≡ true → Keeps I Q m)
      → (b ≡ false → Keeps I Q n)
      → Keeps I Q (if b then m else n)
  choose-Keeps true km kn = km refl
  choose-Keeps false km kn = kn refl

  pub >>=-Keeps :
      {A B : Type 0} {Q : A → Type 0} {R : B → Type 0} (m : Action E S A) (f : A → Action E S B)
      → Keeps I Q m
      → ((x : A) → Q x → Keeps I R (f x))
      → Keeps I R (m >>= f)
  >>=-Keeps {A} {B} {Q} {R} m f km kf = record {
    keeps = λ s h. after (m s).0 (m s).1 (km.keeps s h) (km.gives s h);
    gives = λ s h. result (m s).0 (m s).1 (km.keeps s h) (km.gives s h);
  }
    where
      after :
          (r : Result E A) (s : S)
          → I s
          → Returned Q r
          → I (let x : Result E B × S = elim r [ ok y ↦ f y s | err e ↦ (err e, s) ] in x).1
      after (ok y) s h q = (kf y q).keeps s h
      after (err e) s h q = h

      result :
          (r : Result E A) (s : S)
          → I s
          → Returned Q r
          → Returned R
              (let x : Result E B × S = elim r [ ok y ↦ f y s | err e ↦ (err e, s) ] in x).0
      result (ok y) s h q = (kf y q).gives s h
      result (err e) s h q = tt
