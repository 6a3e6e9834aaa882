-- ===== src/Training/Folds.antt =====
-- src/spy_der/training/folds.py. A session is named by a text, the sizes are not negative, and the
-- rounded share of the calibration sessions is a parameter, in the place of the configured fraction.
-- The random state of the configuration is not read.
pub mod Slices
pub mod Forward
pub mod Leaks
use spy_der.Prelude.{
  ℕ, zero, suc, ◌+◌, ◌-◌, ◌/◌, min, max, String, Bool, ◌&&◌, Option, none, some, List, [], ◌∷◌,
  ◌++◌, not, if◌then◌else◌, ltb, length,
}
use spy_der.Prelude.Int.{ℤ, pos_part}
use spy_der.Prelude.Text.{precedes, distinct, elem}

module _ {A : Type 0} where
  -- `xs[:n]`
  abbrev pub take : ℕ → List A → List A
  take zero xs = []
  take (suc n) [] = []
  take (suc n) (x ∷ xs) = x ∷ take n xs

  -- `xs[n:]`
  abbrev pub drop : ℕ → List A → List A
  drop zero xs = xs
  drop (suc n) [] = []
  drop (suc n) (x ∷ xs) = drop n xs

  -- `xs[i:j]`
  abbrev pub slice : ℕ → ℕ → List A → List A
  slice i j xs = take (j - i) (drop i xs)

unfoldable pub place_in : String → List String → List String
place_in s [] = s ∷ []
place_in s (t ∷ ts) = if precedes s t then s ∷ t ∷ ts else t ∷ place_in s ts

unfoldable pub in_order : List String → List String
in_order [] = []
in_order (s ∷ ss) = place_in s (in_order ss)

-- `sorted(set(sessions))`
unfoldable pub sorted_set : List String → List String
sorted_set sessions = in_order (distinct sessions)

pub record OuterFold : Type 0 where
  pub train_sessions : List String
  pub embargoed_sessions : List String
  pub test_sessions : List String

pub record NestedCrossFitConfig : Type 0 where
  pub outer_folds : ℕ
  pub inner_folds : ℕ
  pub embargo_sessions : ℕ
  pub min_train_sessions : ℕ
  pub min_validation_sessions : ℕ

-- The variables of the loop.
pub record FoldLoop : Type 0 where
  pub cursor : ℕ
  pub fold_i : ℕ
  pub folds : List OuterFold

module _ (cfg : NestedCrossFitConfig) (uniq : List String) where
  abbrev pub step_size : ℕ
  step_size =
      max cfg.min_validation_sessions
        ((length uniq - cfg.min_train_sessions) / max cfg.outer_folds 1)

  abbrev pub embargo_end : ℕ → ℕ
  embargo_end cursor = min (length uniq) (cursor + cfg.embargo_sessions)

  abbrev pub test_end : ℕ → ℕ
  test_end cursor = min (length uniq) (embargo_end cursor + step_size)

  abbrev pub fold_at : ℕ → OuterFold
  fold_at cursor = record {
    train_sessions = take cursor uniq;
    embargoed_sessions = slice cursor (embargo_end cursor) uniq;
    test_sessions = slice (embargo_end cursor) (test_end cursor) uniq;
  }

  -- A round of the loop, or nothing where the loop ends.
  unfoldable pub next_round : FoldLoop → Option FoldLoop
  next_round s =
      let f = fold_at s.cursor in
      if (ltb s.cursor (length uniq) && ltb s.fold_i cfg.outer_folds)
        && (not (ltb (length f.train_sessions) cfg.min_train_sessions)
            && not (ltb (length f.test_sessions) 1))
      then some (record {
        cursor = test_end s.cursor;
        fold_i = s.fold_i + 1;
        folds = s.folds ++ (f ∷ []);
      })
      else none

  -- The loop, for as many tests of its condition as there is fuel.
  unfoldable pub run : ℕ → FoldLoop → Option (List OuterFold)
  run zero s = none
  run (suc n) s = elim (next_round s) [ none ↦ some s.folds | some s' ↦ run n s' ]

  unfoldable pub folds_over : ℕ → Option (List OuterFold)
  folds_over fuel =
      if ltb (length uniq)
        (cfg.min_train_sessions + cfg.embargo_sessions + cfg.min_validation_sessions)
      then some []
      else if ltb (length uniq - cfg.min_train_sessions) cfg.min_validation_sessions
      then some []
      else run fuel (record { cursor = cfg.min_train_sessions; fold_i = 0; folds = [] })

unfoldable pub build_expanding_session_folds :
    NestedCrossFitConfig → List String → ℕ → Option (List OuterFold)
build_expanding_session_folds cfg sessions fuel = folds_over cfg (sorted_set sessions) fuel

-- A fold with its number, which names it.
pub record FoldDefinition : Type 0 where
  pub fold_id : ℕ
  pub train_sessions : List String
  pub validation_sessions : List String
  pub calibration_sessions : List String
  pub embargoed_sessions : List String

module _ (rounded_share : ℕ → ℤ) (cfg : NestedCrossFitConfig) where
  -- `n_cal`, past its correction.
  abbrev pub calibration_count : ℕ → ℕ
  calibration_count n =
      let n_cal = min (max cfg.min_validation_sessions 1) (pos_part (rounded_share n)) in
      if ltb n (n_cal + cfg.min_train_sessions) then 0 else n_cal

  abbrev pub uncalibrated : ℕ → OuterFold → FoldDefinition
  uncalibrated i f = record {
    fold_id = i;
    train_sessions = f.train_sessions;
    validation_sessions = f.test_sessions;
    calibration_sessions = [];
    embargoed_sessions = f.embargoed_sessions;
  }

  abbrev pub calibrated : ℕ → OuterFold → ℕ → FoldDefinition
  calibrated i f n_cal =
      let train = f.train_sessions in
      let fit_end = length train - n_cal - cfg.embargo_sessions in
      record {
        fold_id = i;
        train_sessions = take fit_end train;
        validation_sessions = f.test_sessions;
        calibration_sessions = drop (length train - n_cal) train;
        embargoed_sessions =
            distinct (f.embargoed_sessions ++ slice fit_end (length train - n_cal) train);
      }

  -- The fold with the calibration sessions carved from the end of its training sessions, where enough
  -- of them remain.
  unfoldable pub nested_fold : ℕ → OuterFold → FoldDefinition
  nested_fold i f =
      let n_cal = calibration_count (length f.train_sessions) in
      if ltb 0 n_cal
        && not
            (ltb (length f.train_sessions) (cfg.min_train_sessions + n_cal + cfg.embargo_sessions))
      then calibrated i f n_cal
      else uncalibrated i f

  unfoldable pub nested_from : ℕ → List OuterFold → List FoldDefinition
  nested_from i [] = []
  nested_from i (f ∷ fs) = nested_fold i f ∷ nested_from (suc i) fs

  unfoldable pub build_nested_session_folds : List String → ℕ → Option (List FoldDefinition)
  build_nested_session_folds sessions fuel =
      elim (build_expanding_session_folds cfg sessions fuel) [
        | none ↦ none
        | some outer ↦ some (nested_from 0 outer)
      ]

-- `s in selected` of every row.
unfoldable pub session_masks : List String → List String → List Bool
session_masks [] selected = []
session_masks (s ∷ ss) selected = elem s selected ∷ session_masks ss selected
