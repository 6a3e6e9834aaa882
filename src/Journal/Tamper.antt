-- ===== src/Journal/Tamper.antt =====
-- What the hash chain of src/spy_der/journal/hash_chain.py protects, and what it leaves open.
use spy_der.Prelude.{
  ℕ, suc, String, ◌≡◌, refl, sym, ◌∙◌, ap, Bool, true, false, ◌&&◌, Option, none, some, List, [],
  ◌∷◌, ◌++◌, if◌then◌else◌, length, arith, eqb,
}
use spy_der.Prelude.Text.{str_eq_iff}
use spy_der.Journal.Chain.{
  JournalEvent, Content, content_of, Hashes, compute_event_hash, hash_eq, fits, verify_from,
  verify_chain,
}
use spy_der.Journal.Sealed.{tip, both_tests}

-- The hash tells apart the events that stand at the same place of two journals.
abbrev pub NoCollision : Hashes → List JournalEvent → List JournalEvent → Type 0
NoCollision hashes [] ys = Unit {0}
NoCollision hashes (x ∷ xs) [] = Unit {0}
NoCollision hashes (x ∷ xs) (y ∷ ys) =
    (hashes.content_hash (content_of x) ≡ hashes.content_hash (content_of y)
      → content_of x ≡ content_of y)
    × NoCollision hashes xs ys

-- Two journals with the same hashed contents, event by event.
abbrev pub SameContents : List JournalEvent → List JournalEvent → Type 0
SameContents [] [] = Unit {0}
SameContents [] (y ∷ ys) = ⊥
SameContents (x ∷ xs) [] = ⊥
SameContents (x ∷ xs) (y ∷ ys) = (content_of x ≡ content_of y) × SameContents xs ys

hash_eq-true : (o p : Option String) → hash_eq o p ≡ true → o ≡ p
hash_eq-true none none h = refl
hash_eq-true none (some t) h = cc
hash_eq-true (some s) none h = cc
hash_eq-true (some s) (some t) h = ap some ((str_eq_iff s t).0 h)

and_left : (a b : Bool) → (a && b) ≡ true → (a ≡ true) × (b ≡ true)
and_left true b h = (refl, h)
and_left false b h = cc

some_injective : {s t : String} → some s ≡ some t → s ≡ t
some_injective h = cc

module _ (hashes : Hashes) where
  fits-previous :
      (prev : Option String) (n : ℕ) (e : JournalEvent)
      → fits hashes prev n e ≡ true
      → e.previous_event_hash ≡ prev
  unfolding fits
  fits-previous prev n e h =
      hash_eq-true e.previous_event_hash prev
        (and_left (hash_eq e.previous_event_hash prev) _
          (and_left (eqb e.sequence_number n) _ h).1).0

  same_hash :
      (x y : JournalEvent)
      → some (compute_event_hash hashes x) ≡ some (compute_event_hash hashes y)
      → hashes.content_hash (content_of x) ≡ hashes.content_hash (content_of y)
  unfolding compute_event_hash
  same_hash x y k = some_injective k

  agree :
      (p q : Option String) (n : ℕ) (xs ys : List JournalEvent)
      → verify_from hashes p n xs ≡ true
      → verify_from hashes q n ys ≡ true
      → length xs ≡ length ys
      → tip hashes p xs ≡ tip hashes q ys
      → NoCollision hashes xs ys
      → (p ≡ q) × SameContents xs ys
  unfolding verify_from
  agree p q n [] [] v w l t c = (t, tt)
  agree p q n [] (y ∷ ys) v w l t c = absurd (omega (arith, l))
  agree p q n (x ∷ xs) [] v w l t c = absurd (omega (arith, l))
  agree p q n (x ∷ xs) (y ∷ ys) v w l t c =
      let hx : String = compute_event_hash hashes x in
      let hy : String = compute_event_hash hashes y in
      let fx = (both_tests (fits hashes p n x) (verify_from hashes (some hx) (suc n) xs)).0 v in
      let fy = (both_tests (fits hashes q n y) (verify_from hashes (some hy) (suc n) ys)).0 w in
      let rest = agree (some hx) (some hy) (suc n) xs ys fx.1 fy.1 (omega (arith, l)) t c.1 in
      let contents : content_of x ≡ content_of y = c.0 (same_hash x y rest.0) in
      (
        sym (fits-previous p n x fx.0)
            ∙ ap (λ (k : Content). k.previous_event_hash) contents
            ∙ fits-previous q n y fy.0,
        (contents, rest.1),
      )

  -- Two journals of one length that both verify and end in the same hash have the same hashed contents
  -- throughout, where the hash has no collision between events at the same place. So no event of a
  -- verified journal can be changed, in a field that is hashed, and the last hash be kept.
  pub verify_chain-SameContents :
      (xs ys : List JournalEvent)
      → verify_chain hashes xs ≡ true
      → verify_chain hashes ys ≡ true
      → length xs ≡ length ys
      → tip hashes none xs ≡ tip hashes none ys
      → NoCollision hashes xs ys
      → SameContents xs ys
  unfolding verify_chain
  verify_chain-SameContents xs ys v w l t c = (agree none none 1 xs ys v w l t c).1

  verify_from-payload :
      (text : String) (e : JournalEvent) (prev : Option String) (n : ℕ)
      (before after : List JournalEvent)
      → verify_from hashes prev n (before ++ record e { payload_json = text } ∷ after)
        ≡ verify_from hashes prev n (before ++ e ∷ after)
  unfolding verify_from fits compute_event_hash
  verify_from-payload text e prev n [] after = refl
  verify_from-payload text e prev n (x ∷ xs) after =
      ap (λ r. if fits hashes prev n x then r else false)
        (verify_from-payload text e (some (compute_event_hash hashes x)) (suc n) xs after)

  -- The payload itself is not among the hashed fields: with any other payload in place of an event's,
  -- under the payload hash that the event names, a journal verifies as before.
  pub verify_chain-payload :
      (text : String) (e : JournalEvent) (before after : List JournalEvent)
      → verify_chain hashes (before ++ record e { payload_json = text } ∷ after)
        ≡ verify_chain hashes (before ++ e ∷ after)
  unfolding verify_chain
  verify_chain-payload text e before after = verify_from-payload text e none 1 before after
