-- ===== src/Prelude/Text.antt =====
-- Texts: identifiers are native strings, and `strip().upper()` walks code points.
use Prim.Native.Nat.{ℕ, ◌-◌, Ordering}
use Prim.Native.Char.{code}
use Prim.Native.String.{String, compare}
use mathlib.Core.Path.{◌≡◌, refl}
use mathlib.Core.Logic.{◌↔◌, ◌≢◌, inl, inr}
use mathlib.Core.Bool.{Bool, true, false, ◌&&◌, ◌||◌}
use mathlib.Core.List.{List, [], ◌∷◌, map, reverse}
use text.Mathlib.Text.{◌==◌}
use text.Mathlib.TextEquality.{eq_iff}
use spy_der.Prelude.Bools.{leb, eqb, if◌then◌else◌, Bool-cases}
use spy_der.Prelude.Lists.{any, is_nil}

abbrev pub str_eq : String → String → Bool
str_eq s t = s == t

pub str_eq_iff : (s t : String) → (str_eq s t ≡ true) ↔ (s ≡ t)
str_eq_iff s t = eq_iff s t

pub str_eq_ne : (s t : String) → s ≢ t → str_eq s t ≡ false
str_eq_ne s t ne = elim (Bool-cases (str_eq s t)) [
  | inl e ↦ absurd (ne ((str_eq_iff s t).0 e))
  | inr e ↦ e
]

-- `not s`
abbrev pub is_blank : String → Bool
is_blank s = s == ""

-- `s in xs`
abbrev pub elem : String → List String → Bool
elem s xs = any (λ x. x == s) xs

pub codes : String → List ℕ
codes String.[] = []
codes (String.◌∷◌ c s) = code c ∷ codes s

within : ℕ → ℕ → ℕ → Bool
within low high c = leb low c && leb c high

-- White space as `str.strip` removes it: `str.isspace` of a code point.
is_space : ℕ → Bool
unfolding within
is_space c =
    within 9 13 c
    || (within 28 32 c
        || (eqb c 133
            || (eqb c 160
                || (eqb c 5760
                    || (within 8192 8202 c
                        || (within 8232 8233 c || (eqb c 8239 || (eqb c 8287 || eqb c 12288))))))))

drop_space : List ℕ → List ℕ
drop_space [] = []
drop_space (c ∷ cs) = if is_space c then drop_space cs else c ∷ cs

pub strip : List ℕ → List ℕ
unfolding is_space drop_space
strip cs = reverse (drop_space (reverse (drop_space cs)))

-- `not s.strip()`
unfoldable pub is_white : String → Bool
unfolding codes strip
is_white s = is_nil (strip (codes s))

-- ASCII letters, as `str.upper` maps them.
to_upper : ℕ → ℕ
to_upper c = if leb b'a' c && leb c b'z' then c - 32 else c

pub codes_eq : List ℕ → List ℕ → Bool
codes_eq [] [] = true
codes_eq [] (d ∷ ds) = false
codes_eq (c ∷ cs) [] = false
codes_eq (c ∷ cs) (d ∷ ds) = eqb c d && codes_eq cs ds

-- `s.strip().upper() == word`
unfoldable pub stripped_upper_is : String → String → Bool
unfolding codes strip to_upper codes_eq
stripped_upper_is s word = codes_eq (map to_upper (strip (codes s))) (codes word)

-- `s < t`, by code points
abbrev pub precedes : String → String → Bool
precedes s t = elim (compare s t) [ Ordering.lt ↦ true | _ ↦ false ]

-- `dict.fromkeys(codes)` of the codes that are not in `seen`.
unfoldable pub distinct_from : List String → List String → List String
distinct_from seen [] = []
distinct_from seen (c ∷ cs) =
    let skip = distinct_from seen cs in
    let keep = c ∷ distinct_from (c ∷ seen) cs in if elem c seen then skip else keep

unfoldable pub distinct : List String → List String
unfolding distinct_from
distinct = distinct_from []

pub distinct-eq-nil : (cs : List String) → (is_nil (distinct cs) ≡ true) ↔ (cs ≡ [])
unfolding distinct distinct_from
distinct-eq-nil [] = (λ h. refl, λ h. refl)
distinct-eq-nil (c ∷ cs) = (λ h. cc, λ h. cc)
