-- ===== src/Training/Folds/Slices.antt =====
-- Slices of a list in which nothing stands twice, for src/spy_der/training/folds.py.
use spy_der.Prelude.{
  if_both, ℕ, zero, suc, ◌-◌, ◌≤◌, min, String, ◌≡◌, refl, ap, ◌∙◌, true, false, ◌&&◌, ◌||◌, not,
  List, [], ◌∷◌, ◌++◌, length, arith, Bool-cases, inl, inr,
}
use spy_der.Prelude.Text.{precedes, elem, str_eq, str_eq_iff, distinct, distinct_from}
use spy_der.Training.Folds.{take, drop, slice, place_in, in_order, sorted_set}

-- Nothing stands twice.
abbrev pub NoDup : List String → Type 0
NoDup [] = Unit {0}
NoDup (s ∷ ss) = (elem s ss ≡ false) × NoDup ss

pub length-take : (n : ℕ) (xs : List String) → length (take n xs) ≡ min n (length xs)
length-take zero xs = omega arith
length-take (suc n) [] = omega arith
length-take (suc n) (x ∷ xs) = omega (arith, length-take n xs)

pub length-drop : (n : ℕ) (xs : List String) → length (drop n xs) ≡ length xs - n
length-drop zero xs = omega arith
length-drop (suc n) [] = omega arith
length-drop (suc n) (x ∷ xs) = omega (arith, length-drop n xs)

pub take-drop : (n : ℕ) (xs : List String) → take n xs ++ drop n xs ≡ xs
take-drop zero xs = refl
take-drop (suc n) [] = refl
take-drop (suc n) (x ∷ xs) = ap (λ ys. x ∷ ys) (take-drop n xs)

pub elem-append : (s : String) (xs ys : List String) → elem s (xs ++ ys) ≡ (elem s xs || elem s ys)
elem-append s [] ys = refl
elem-append s (x ∷ xs) ys = ground (arith, elem-append s xs ys)

-- Two stretches of sessions that share none, each without repetition.
pub NoDup-append :
    (xs ys : List String)
    → NoDup (xs ++ ys)
    → NoDup xs × (NoDup ys × ((s : String) → elem s xs ≡ true → elem s ys ≡ false))
NoDup-append [] ys h = (tt, (h, λ s k. cc))
NoDup-append (x ∷ xs) ys h =
    let rest = NoDup-append xs ys h.1 in
    (
      (ground (arith, h.0, elem-append x xs ys), rest.0),
      (rest.1.0, λ s k. ground (arith, h.0, elem-append x xs ys, rest.1.1 s, str_eq_iff x s)),
    )

elem-place_in :
    (s t : String) (ts : List String) → elem s (place_in t ts) ≡ (str_eq t s || elem s ts)
unfolding place_in
elem-place_in s t [] = refl
elem-place_in s t (u ∷ us) = ground (arith, elem-place_in s t us)

place_in-NoDup :
    (t : String) (ts : List String) → elem t ts ≡ false → NoDup ts → NoDup (place_in t ts)
unfolding place_in
place_in-NoDup t [] h k = (refl, tt)
place_in-NoDup t (u ∷ us) h k =
    let apart : str_eq u t ≡ false = ground arith in
    let rest : elem t us ≡ false = ground arith in
    if_both NoDup (precedes t u) (t ∷ u ∷ us) (u ∷ place_in t us) (h, k)
      (
        ground (arith, elem-place_in u t us, k.0, str_eq_iff t u, str_eq_iff u t),
        place_in-NoDup t us rest k.1,
      )

elem-in_order : (s : String) (ts : List String) → elem s (in_order ts) ≡ elem s ts
unfolding in_order
elem-in_order s [] = refl
elem-in_order s (t ∷ ts) = ground (arith, elem-place_in s t (in_order ts), elem-in_order s ts)

in_order-NoDup : (ts : List String) → NoDup ts → NoDup (in_order ts)
unfolding in_order
in_order-NoDup [] h = tt
in_order-NoDup (t ∷ ts) h =
    place_in-NoDup t (in_order ts) (elem-in_order t ts ∙ h.0) (in_order-NoDup ts h.1)

elem-distinct_from :
    (s : String) (seen cs : List String)
    → elem s (distinct_from seen cs) ≡ (not (elem s seen) && elem s cs)
unfolding distinct_from
elem-distinct_from s seen [] = ground arith
elem-distinct_from s seen (c ∷ cs) = elim (Bool-cases (str_eq c s)) [
  | inl e ↦ ground (
    arith,
    elem-distinct_from s seen cs,
    elem-distinct_from s (c ∷ seen) cs,
    ap (λ y. elem y seen) ((str_eq_iff c s).0 e),
  )
  | inr e ↦ ground (arith, elem-distinct_from s seen cs, elem-distinct_from s (c ∷ seen) cs)
]

distinct_from-NoDup : (seen cs : List String) → NoDup (distinct_from seen cs)
unfolding distinct_from
distinct_from-NoDup seen [] = tt
distinct_from-NoDup seen (c ∷ cs) =
    if_both NoDup (elem c seen) (distinct_from seen cs) (c ∷ distinct_from (c ∷ seen) cs)
      (distinct_from-NoDup seen cs)
      (
        elem-distinct_from c (c ∷ seen) cs ∙ ground (arith, str_eq_iff c c),
        distinct_from-NoDup (c ∷ seen) cs,
      )

pub elem-distinct : (s : String) (cs : List String) → elem s (distinct cs) ≡ elem s cs
unfolding distinct
elem-distinct s cs = elem-distinct_from s [] cs

pub sorted_set-NoDup : (ss : List String) → NoDup (sorted_set ss)
unfolding sorted_set distinct
sorted_set-NoDup ss = in_order-NoDup (distinct ss) (distinct_from-NoDup [] ss)

pub elem-sorted_set : (s : String) (ss : List String) → elem s (sorted_set ss) ≡ elem s ss
unfolding sorted_set
elem-sorted_set s ss = elem-in_order s (distinct ss) ∙ elem-distinct s ss

take_nil : (n : ℕ) → take {A = String} n [] ≡ []
take_nil zero = refl
take_nil (suc n) = refl

-- Two slices one after the other.
pub take-slice : (i j : ℕ) (xs : List String) → i ≤ j → take i xs ++ slice i j xs ≡ take j xs
take-slice zero j xs h = ap (λ n. take n xs) (minus_zero j)
  where
    minus_zero : (n : ℕ) → n - 0 ≡ n
    minus_zero n = omega arith
take-slice (suc i) zero xs h = absurd (omega arith)
take-slice (suc i) (suc j) [] h = take_nil (suc j - suc i)
take-slice (suc i) (suc j) (x ∷ xs) h =
    ap (λ ys. x ∷ ys)
      (ap (λ n. take i xs ++ take n (drop i xs)) less ∙ take-slice i j xs (omega arith))
  where
    less : suc j - suc i ≡ j - i
    less = omega arith

pub append_assoc : (xs ys zs : List String) → (xs ++ ys) ++ zs ≡ xs ++ (ys ++ zs)
append_assoc [] ys zs = refl
append_assoc (x ∷ xs) ys zs = ap (λ r. x ∷ r) (append_assoc xs ys zs)
