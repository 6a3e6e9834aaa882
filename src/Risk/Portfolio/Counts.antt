-- ===== src/Risk/Portfolio/Counts.antt =====
-- The counts that `to_portfolio_state` of src/spy_der/risk/portfolio.py collects and sorts.
use spy_der.Prelude.{
  if_both, ℕ, suc, ◌+◌, String, ◌≡◌, refl, ◌∙◌, ap, ◌≢◌, false, Bool-cases, inl, inr, Option, none,
  some, List, [], ◌∷◌, if◌then◌else◌, arith,
}
use spy_der.Prelude.Text.{precedes, is_blank, str_eq, str_eq_iff}
use spy_der.Prelude.Dict.{Dict, lookup, insert, from_pairs, lookup-insert}
use spy_der.Risk.Checks.{count_of}
use spy_der.Risk.Portfolio.{OpenPosition, count_where, one_more, counts_from, sort_in, sorted}

abbrev or_zero : Option ℕ → ℕ
or_zero none = 0
or_zero (some n) = n

-- No key stands twice.
abbrev Distinct : Dict ℕ → Type 0
Distinct [] = Unit {0}
Distinct ((k, v) ∷ d) = (lookup k d ≡ none) × Distinct d

insert-Distinct : (k : String) (v : ℕ) (d : Dict ℕ) → Distinct d → Distinct (insert k v d)
unfolding insert lookup
insert-Distinct k v [] h = (refl, tt)
insert-Distinct k v ((j, w) ∷ d) h = elim (Bool-cases (str_eq j k)) [
  | inl e ↦ rw e h
  | inr e ↦ rw e (
    rw (lookup-insert k j v d) (ground (arith, h.0, str_eq_iff j k, str_eq_iff k j)),
    insert-Distinct k v d h.1,
  )
]

one_more-Distinct : (k : String) (d : Dict ℕ) → Distinct d → Distinct (one_more k d)
one_more-Distinct k d h = if_both Distinct (is_blank k) d _ h (insert-Distinct k _ d h)

counts_from-Distinct :
    (f : OpenPosition → String) (ps : List OpenPosition) (d : Dict ℕ)
    → Distinct d
    → Distinct (counts_from f d ps)
unfolding counts_from
counts_from-Distinct f [] d h = h
counts_from-Distinct f (p ∷ ps) d h =
    counts_from-Distinct f ps (one_more (f p) d) (one_more-Distinct (f p) d h)

one_more-count :
    (j k : String) (d : Dict ℕ)
    → k ≢ ""
    → or_zero (lookup k (one_more j d))
      ≡ (if str_eq j k then suc (or_zero (lookup k d)) else or_zero (lookup k d))
one_more-count j k d ne =
    ground
      (arith, str_eq_iff j "", str_eq_iff j k, lookup-insert j k (suc (or_zero (lookup j d))) d)

counts_from-count :
    (f : OpenPosition → String) (k : String) (ps : List OpenPosition) (d : Dict ℕ)
    → k ≢ ""
    → or_zero (lookup k (counts_from f d ps)) ≡ or_zero (lookup k d) + count_where f k ps
unfolding counts_from count_where
counts_from-count f k [] d ne = omega arith
counts_from-count f k (p ∷ ps) d ne =
    ground (arith, counts_from-count f k ps (one_more (f p) d) ne, one_more-count (f p) k d ne)

lookup-sort_in :
    (k j : String) (v : ℕ) (es : Dict ℕ)
    → lookup j es ≡ none
    → lookup k (sort_in (j, v) es) ≡ (if str_eq j k then some v else lookup k es)
unfolding lookup sort_in
lookup-sort_in k j v [] h = refl
lookup-sort_in k j v ((i, w) ∷ es) h =
    ground (arith, str_eq_iff i j, str_eq_iff j k, str_eq_iff i k, lookup-sort_in k j v es)

sort_in-Distinct :
    (j : String) (v : ℕ) (es : Dict ℕ)
    → lookup j es ≡ none
    → Distinct es
    → Distinct (sort_in (j, v) es)
unfolding sort_in lookup
sort_in-Distinct j v [] h t = (refl, tt)
sort_in-Distinct j v ((i, w) ∷ es) h t =
    let apart : str_eq i j ≡ false = ground arith in
    let rest : lookup j es ≡ none = ground arith in
    if_both Distinct (precedes j i) _ _ (h, t)
      (
        lookup-sort_in i j v es rest ∙ ground (arith, t.0, str_eq_iff i j, str_eq_iff j i),
        sort_in-Distinct j v es rest t.1,
      )

sorted-lookup : (k : String) (d : Dict ℕ) → Distinct d → lookup k (sorted d) ≡ lookup k d
unfolding sorted lookup
sorted-lookup k [] h = refl
sorted-lookup k ((j, v) ∷ d) h =
    lookup-sort_in k j v (sorted d) (sorted-lookup j d h.1 ∙ h.0)
    ∙ ap (λ o. if str_eq j k then some v else o) (sorted-lookup k d h.1)

sorted-Distinct : (d : Dict ℕ) → Distinct d → Distinct (sorted d)
unfolding sorted
sorted-Distinct [] h = tt
sorted-Distinct ((j, v) ∷ d) h =
    sort_in-Distinct j v (sorted d) (sorted-lookup j d h.1 ∙ h.0) (sorted-Distinct d h.1)

from_pairs-lookup :
    (k : String) (ps d : Dict ℕ)
    → Distinct ps
    → lookup k (from_pairs d ps) ≡ (elim (lookup k ps) [ none ↦ lookup k d | some n ↦ some n ])
unfolding from_pairs lookup
from_pairs-lookup k [] d h = refl
from_pairs-lookup k ((j, v) ∷ ps) d h =
    from_pairs-lookup k ps (insert j v d) h.1
    ∙ ground (arith, str_eq_iff j k, h.0, lookup-insert j k v d)

or_none : (o : Option ℕ) → or_zero (elim o [ none ↦ none | some n ↦ some n ]) ≡ or_zero o
or_none none = refl
or_none (some n) = refl

zero_plus : (n : ℕ) → 0 + n ≡ n
zero_plus n = omega arith

-- What the firewall reads from the sorted counts is the number of positions.
pub count_of-sorted :
    (f : OpenPosition → String) (k : String) (ps : List OpenPosition)
    → k ≢ ""
    → count_of k (sorted (counts_from f [] ps)) ≡ count_where f k ps
unfolding lookup
count_of-sorted f k ps ne =
    let d : Dict ℕ = counts_from f [] ps in
    let distinct = counts_from-Distinct f ps [] tt in
    ap or_zero (from_pairs-lookup k (sorted d) [] (sorted-Distinct d distinct))
    ∙ or_none (lookup k (sorted d))
    ∙ ap or_zero (sorted-lookup k d distinct)
    ∙ counts_from-count f k ps [] ne
    ∙ zero_plus (count_where f k ps)
