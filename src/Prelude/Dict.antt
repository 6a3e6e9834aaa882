-- ===== src/Prelude/Dict.antt =====
-- A Python `dict` keyed by texts, in insertion order.
use Prim.Native.String.{String}
use mathlib.Core.Path.{◌≡◌, refl, subst}
use mathlib.Core.Logic.{◌≢◌}
use mathlib.Core.Bool.{Bool, true, false}
use mathlib.Core.Option.{Option, none, some}
use mathlib.Core.List.{List, [], ◌∷◌}
use native.Mathlib.Omega.{arith}
use spy_der.Prelude.Bools.{if◌then◌else◌}
use spy_der.Prelude.Text.{str_eq, str_eq_iff}

abbrev pub Dict : Type 0 → Type 0
Dict V = List (String × V)

module _ {V : Type 0} where
  -- `d.get(k)`
  unfoldable pub lookup : String → Dict V → Option V
  lookup k [] = none
  lookup k ((j, v) ∷ d) = if str_eq j k then some v else lookup k d

  -- `d[k] = v`
  unfoldable pub insert : String → V → Dict V → Dict V
  insert k v [] = (k, v) ∷ []
  insert k v ((j, w) ∷ d) = if str_eq j k then (j, v) ∷ d else (j, w) ∷ insert k v d

  -- `dict(pairs)`, on top of the entries of `d`.
  unfoldable pub from_pairs : Dict V → List (String × V) → Dict V
  from_pairs d [] = d
  from_pairs d ((k, v) ∷ ps) = from_pairs (insert k v d) ps

  -- `d.values()`
  abbrev pub values : Dict V → List V
  values [] = []
  values ((k, v) ∷ d) = v ∷ values d

  pub lookup-insert :
      (k j : String) (v : V) (d : Dict V)
      → lookup j (insert k v d) ≡ (if str_eq k j then some v else lookup j d)
  unfolding lookup insert
  lookup-insert k j v [] = refl
  lookup-insert k j v ((i, w) ∷ d) =
      ground (arith, str_eq_iff k j, str_eq_iff i k, str_eq_iff i j, lookup-insert k j v d)

  pub lookup-insert_self : (k : String) (v : V) (d : Dict V) → lookup k (insert k v d) ≡ some v
  lookup-insert_self k v d = ground (arith, lookup-insert k k v d, str_eq_iff k k)

  pub lookup-insert_ne :
      (k j : String) (v : V) (d : Dict V) → k ≢ j → lookup j (insert k v d) ≡ lookup j d
  lookup-insert_ne k j v d ne = ground (arith, lookup-insert k j v d, str_eq_iff k j)

  -- A property of every value that can be looked up.
  abbrev pub Each {κ} : (V → Type κ) → Dict V → Type κ
  Each P d = (k : String) (v : V) → lookup k d ≡ some v → P v

  pub insert-Each {κ} :
      (P : V → Type κ) (k : String) (v : V) (d : Dict V) → P v → Each P d → Each P (insert k v d)
  insert-Each P k v d p each j w e = pick (str_eq k j) (lookup-insert k j v d) e
    where
      pick :
          (b : Bool)
          → lookup j (insert k v d) ≡ (if b then some v else lookup j d)
          → lookup j (insert k v d) ≡ some w
          → P w
      pick true u e = subst P (ground arith) p
      pick false u e = each j w (ground arith)
