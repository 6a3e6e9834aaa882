-- ===== src/Risk/Duplicates/Memory.antt =====
-- What the guard of src/spy_der/risk/duplicates.py remembers, and for how long.
use Prim.Native.String.{◌++◌, len}
use text.Mathlib.TextPositions.{len-append}
use spy_der.Prelude.{
  ℕ, ◌-◌, ◌≤◌, String, ◌≡◌, refl, ap, Bool, true, false, not, ◌&&◌, some, [], ◌∷◌, arith,
  Bool-cases, inl, inr,
}
use spy_der.Prelude.Text.{is_blank, str_eq_iff}
use spy_der.Prelude.Dict.{Dict, lookup, insert, Each}
use spy_der.Risk.Duplicates.{
  decision_signature, DuplicateGuard, still_seen, purge, observe, remember_decision, is_duplicate,
  duplicate_order,
}

still_seen-insert :
    (ttl now at : ℕ) (k : String) (d : Dict ℕ)
    → now - ttl ≤ at
    → lookup k (still_seen ttl now (insert k at d)) ≡ some at
unfolding lookup insert still_seen
still_seen-insert ttl now at k [] h = ground (arith, str_eq_iff k k)
still_seen-insert ttl now at k ((j, w) ∷ d) h =
    ground (arith, str_eq_iff k k, str_eq_iff j k, still_seen-insert ttl now at k d h)

still_seen-Each : (ttl now : ℕ) (d : Dict ℕ) → Each (λ at. now - ttl ≤ at) (still_seen ttl now d)
unfolding lookup still_seen
still_seen-Each ttl now [] k at h = cc
still_seen-Each ttl now ((j, w) ∷ d) k at h = ground (arith, still_seen-Each ttl now d k at)

-- The separators alone make a signature of some length.
pub signature_some : (c h a : String) → is_blank (decision_signature c h a) ≡ false
unfolding decision_signature
signature_some c h a =
    let rest : String = c ++ ("|" ++ h) in
    let l1 = len-append a ("|" ++ rest) in
    let l2 = len-append "|" rest in
    let longer : ¬ (len (a ++ ("|" ++ rest)) ≡ 0) = λ e. omega (arith, l1, l2, e) in
    elim (Bool-cases (is_blank (a ++ ("|" ++ rest)))) [
      | inl e ↦ absurd (longer (ap len ((str_eq_iff (a ++ ("|" ++ rest)) "").0 e)))
      | inr e ↦ e
    ]

pub and_false : (b : Bool) → (b && false) ≡ false
and_false true = refl
and_false false = refl

-- A remembered decision is refused as a duplicate for the guard's time to live, whatever the guard
-- held before; and a question leaves in the guard only what was seen within that time.
pub remember-is_duplicate :
    (candidate_id geometry_hash account_id : String) (at now : ℕ) (g : DuplicateGuard)
    → let g' = remember_decision candidate_id geometry_hash account_id at g in
      let (answer, after) = is_duplicate candidate_id geometry_hash account_id [] [] now g' in
      (now - g.ttl ≤ at → answer ≡ some duplicate_order)
      × Each (λ seen_at. now - g.ttl ≤ seen_at) after.seen
unfolding is_duplicate remember_decision observe purge
remember-is_duplicate c h a at now g =
    let sig : String = decision_signature c h a in
    let kept = still_seen-insert g.ttl now at sig (still_seen g.ttl at g.seen) in
    let some_text = signature_some c h a in
    (
      λ fresh.
          simp (some_text, kept fresh, and_false (not (is_blank c)), and_false (not (is_blank h))),
      rw some_text (still_seen-Each g.ttl now (insert sig at (still_seen g.ttl at g.seen))),
    )
