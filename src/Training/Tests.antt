-- ===== src/Training/Tests.antt =====
-- The theorem of the training layer at twelve sessions.
use spy_der.Prelude.{ℕ, ◌<◌, ◌/◌, String, ◌≡◌, some, List, [], ◌∷◌, length, arith}
use spy_der.Prelude.Int.{ℤ, pos}
use spy_der.Training.Folds.{
  NestedCrossFitConfig, FoldDefinition, sorted_set, build_nested_session_folds,
}
use spy_der.Training.Folds.Forward.{Each, Suffice}
use spy_der.Training.Folds.Leaks.{NoLeak, build_nested_session_folds-NoLeak}

abbrev config : NestedCrossFitConfig
config = record {
  outer_folds = 2;
  inner_folds = 3;
  embargo_sessions = 1;
  min_train_sessions = 4;
  min_validation_sessions = 2;
}

abbrev share : ℕ → ℤ
share n = pos (n / 5)

abbrev days : List String
days = "d1" ∷ "d2" ∷ "d3" ∷ "d4" ∷ "d5" ∷ "d6" ∷ "d7" ∷ "d8" ∷ "d9" ∷ "d3" ∷ []

build_nested_session_folds-NoLeak_example :
    (fs : List FoldDefinition) × ((build_nested_session_folds share config days 3 ≡ some fs)
      × (Each (NoLeak config) fs × (Suffice config (sorted_set days) → 0 < length fs)))
build_nested_session_folds-NoLeak_example =
    build_nested_session_folds-NoLeak share config days 3 (omega arith)
