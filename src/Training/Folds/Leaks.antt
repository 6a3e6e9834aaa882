-- ===== src/Training/Folds/Leaks.antt =====
-- The folds of src/spy_der/training/folds.py keep their sessions apart.
use spy_der.Prelude.{
  true≢false, ℕ, suc, ◌+◌, ◌-◌, ◌≤◌, ◌<◌, String, ◌≡◌, refl, ap, sym, ◌∙◌, subst, Bool, true, false,
  ◌&&◌, not, Option, none, some, List, [], ◌∷◌, ◌++◌, if◌then◌else◌, length, ltb, arith, Bool-cases,
  inl, inr,
}
use spy_der.Prelude.Int.{ℤ}
use spy_der.Prelude.Text.{elem, distinct}
use spy_der.Training.Folds.{
  take, drop, slice, sorted_set, OuterFold, NestedCrossFitConfig, build_expanding_session_folds,
  FoldDefinition, calibration_count, uncalibrated, calibrated, nested_fold, nested_from,
  build_nested_session_folds,
}
use spy_der.Training.Folds.Slices.{
  NoDup, NoDup-append, length-take, take-drop, take-slice, append_assoc, elem-append, elem-distinct,
  sorted_set-NoDup,
}
use spy_der.Training.Folds.Forward.{Each, Forward, Suffice, folds_over-Ends}

-- No session of the one is a session of the other.
abbrev pub Apart : List String → List String → Type 0
Apart xs ys = (s : String) → elem s xs ≡ true → elem s ys ≡ false

-- A fold in which every session serves one purpose, with enough of them to train on and some to
-- validate on.
abbrev pub NoLeak : NestedCrossFitConfig → FoldDefinition → Type 0
NoLeak cfg f =
    Apart f.train_sessions f.validation_sessions
    × (Apart f.calibration_sessions f.validation_sessions
        × (Apart f.train_sessions f.calibration_sessions
            × (Apart f.train_sessions f.embargoed_sessions
                × (Apart f.calibration_sessions f.embargoed_sessions
                    × (Apart f.embargoed_sessions f.validation_sessions
                        × ((cfg.min_train_sessions ≤ length f.train_sessions)
                            × (0 < length f.validation_sessions)))))))

take-NoDup : (n : ℕ) (xs : List String) → NoDup xs → NoDup (take n xs)
take-NoDup n xs h = (NoDup-append (take n xs) (drop n xs) (subst NoDup (sym (take-drop n xs)) h)).0

Apart-left : (xs ys zs : List String) → Apart xs (ys ++ zs) → Apart xs ys
Apart-left xs ys zs h s k = ground (arith, h s k, elem-append s ys zs)

Apart-right : (xs ys zs : List String) → Apart xs (ys ++ zs) → Apart xs zs
Apart-right xs ys zs h s k = ground (arith, h s k, elem-append s ys zs)

Apart-sym : (xs ys : List String) → Apart xs ys → Apart ys xs
Apart-sym xs ys h s k = elim (Bool-cases (elem s xs)) [
  | inl e ↦ absurd (true≢false (sym k ∙ h s e))
  | inr e ↦ e
]

Apart-both : (xs ys zs : List String) → Apart xs ys → Apart xs zs → Apart xs (ys ++ zs)
Apart-both xs ys zs h j s k = elem-append s ys zs ∙ ground (arith, h s k, j s k)

Apart-distinct : (xs ys : List String) → Apart xs ys → Apart xs (distinct ys)
Apart-distinct xs ys h s k = elem-distinct s ys ∙ h s k

Apart-first : (xs ys zs : List String) → Apart (xs ++ ys) zs → Apart xs zs
Apart-first xs ys zs h s k = h s (elem-append s xs ys ∙ ground (arith, k))

Apart-second : (xs ys zs : List String) → Apart (xs ++ ys) zs → Apart ys zs
Apart-second xs ys zs h s k = h s (elem-append s xs ys ∙ ground (arith, k))

module _ (rounded_share : ℕ → ℤ) (cfg : NestedCrossFitConfig) (uniq : List String)
    (once : NoDup uniq) where
  -- What the outer fold keeps apart.
  outer-Apart :
      (f : OuterFold)
      → Forward cfg uniq f
      → NoDup f.train_sessions
        × (Apart f.train_sessions f.embargoed_sessions
            × (Apart f.train_sessions f.test_sessions × Apart f.embargoed_sessions f.test_sessions))
  outer-Apart f ((n, whole), _) =
      let all : NoDup (f.train_sessions ++ (f.embargoed_sessions ++ f.test_sessions)) =
        subst NoDup (sym whole) (take-NoDup n uniq once) in
      let (one, (later, train)) =
        NoDup-append f.train_sessions (f.embargoed_sessions ++ f.test_sessions) all in
      let (_, (_, embargo)) = NoDup-append f.embargoed_sessions f.test_sessions later in
      (
        one,
        (
          Apart-left f.train_sessions f.embargoed_sessions f.test_sessions train,
          (Apart-right f.train_sessions f.embargoed_sessions f.test_sessions train, embargo),
        ),
      )

  uncalibrated-NoLeak :
      (i : ℕ) (f : OuterFold) → Forward cfg uniq f → NoLeak cfg (uncalibrated rounded_share cfg i f)
  uncalibrated-NoLeak i f forward =
      let (_, (gap, (test, embargo))) = outer-Apart f forward in
      (
        test,
        (λ s k. cc, (λ s k. refl, (gap, (λ s k. cc, (embargo, (forward.1.0, forward.1.1.1)))))),
      )

  calibrated-NoLeak :
      (i : ℕ) (f : OuterFold) (n_cal : ℕ)
      → Forward cfg uniq f
      → cfg.min_train_sessions + n_cal + cfg.embargo_sessions ≤ length f.train_sessions
      → NoLeak cfg (calibrated rounded_share cfg i f n_cal)
  calibrated-NoLeak i f n_cal forward enough =
      let tr : List String = f.train_sessions in
      let emb : List String = f.embargoed_sessions in
      let test : List String = f.test_sessions in
      let cal_start : ℕ = length tr - n_cal in
      let fit_end : ℕ = cal_start - cfg.embargo_sessions in
      let fit : List String = take fit_end tr in
      let gap : List String = slice fit_end cal_start tr in
      let cal : List String = drop cal_start tr in
      let split : fit ++ (gap ++ cal) ≡ tr =
        sym (append_assoc fit gap cal)
        ∙ ap (λ xs. xs ++ cal) (take-slice fit_end cal_start tr (omega arith))
        ∙ take-drop cal_start tr in
      let (one, (tr_emb, (tr_test, emb_test))) = outer-Apart f forward in
      let (_, (later, fit_rest)) = NoDup-append fit (gap ++ cal) (subst NoDup (sym split) one) in
      let (_, (_, gap_cal)) = NoDup-append gap cal later in
      let to_emb : Apart (fit ++ (gap ++ cal)) emb =
        subst (λ xs. Apart xs emb) (sym split) tr_emb in
      let to_test : Apart (fit ++ (gap ++ cal)) test =
        subst (λ xs. Apart xs test) (sym split) tr_test in
      let rest_test = Apart-second fit (gap ++ cal) test to_test in
      let rest_emb = Apart-second fit (gap ++ cal) emb to_emb in
      (
        Apart-first fit (gap ++ cal) test to_test,
        (
          Apart-second gap cal test rest_test,
          (
            Apart-right fit gap cal fit_rest,
            (
              Apart-distinct fit (emb ++ gap) (
                  Apart-both fit emb gap (Apart-first fit (gap ++ cal) emb to_emb)
                    (Apart-left fit gap cal fit_rest)),
              (
                Apart-distinct cal (emb ++ gap) (
                    Apart-both cal emb gap (Apart-second gap cal emb rest_emb)
                      (Apart-sym gap cal gap_cal)),
                (
                  Apart-sym test (distinct (emb ++ gap)) (
                      Apart-distinct test (emb ++ gap) (
                        Apart-both test emb gap (Apart-sym emb test emb_test)
                          (Apart-sym gap test (Apart-first gap cal test rest_test)))),
                  (omega (arith, length-take fit_end tr), forward.1.1.1),
                ),
              ),
            ),
          ),
        ),
      )

  nested_fold-NoLeak :
      (i : ℕ) (f : OuterFold) → Forward cfg uniq f → NoLeak cfg (nested_fold rounded_share cfg i f)
  unfolding nested_fold
  nested_fold-NoLeak i f forward =
      let n_cal : ℕ = calibration_count rounded_share cfg (length f.train_sessions) in
      pick (ltb 0 n_cal)
        (ltb (length f.train_sessions) (cfg.min_train_sessions + n_cal + cfg.embargo_sessions)) refl
    where
      pick :
          (a b : Bool)
          → ltb (length f.train_sessions) (
              cfg.min_train_sessions
              + calibration_count rounded_share cfg (length f.train_sessions)
              + cfg.embargo_sessions)
            ≡ b
          → NoLeak cfg (
              if a && not b
              then calibrated rounded_share cfg i f
                  (calibration_count rounded_share cfg (length f.train_sessions))
              else uncalibrated rounded_share cfg i f)
      pick false b e = uncalibrated-NoLeak i f forward
      pick true true e = uncalibrated-NoLeak i f forward
      pick true false e =
          calibrated-NoLeak i f (calibration_count rounded_share cfg (length f.train_sessions))
            forward (ground arith)

  nested_from-NoLeak :
      (i : ℕ) (fs : List OuterFold)
      → Each (Forward cfg uniq) fs
      → Each (NoLeak cfg) (nested_from rounded_share cfg i fs)
        × (length (nested_from rounded_share cfg i fs) ≡ length fs)
  unfolding nested_from
  nested_from-NoLeak i [] h = (tt, refl)
  nested_from-NoLeak i (f ∷ fs) h =
      let rest = nested_from-NoLeak (suc i) fs h.1 in
      ((nested_fold-NoLeak i f h.0, rest.0), omega (arith, rest.1))

-- Whatever the rounded shares: with more fuel than there are folds to make, building the folds ends; no
-- session of a fold serves two of training, calibration, embargo and validation; each fold has the
-- sessions to train on that the configuration asks for and at least one to validate on; and where
-- there are enough different sessions for one fold, and folds and validation sessions are asked for,
-- there is at least one.
pub build_nested_session_folds-NoLeak :
    (rounded_share : ℕ → ℤ) (cfg : NestedCrossFitConfig) (sessions : List String) (fuel : ℕ)
    → cfg.outer_folds < fuel
    → (fs : List FoldDefinition) × ((build_nested_session_folds rounded_share cfg sessions fuel
          ≡ some fs)
        × (Each (NoLeak cfg) fs × (Suffice cfg (sorted_set sessions) → 0 < length fs)))
unfolding build_nested_session_folds build_expanding_session_folds
build_nested_session_folds-NoLeak rounded_share cfg sessions fuel enough =
    let uniq : List String = sorted_set sessions in
    let (outer, (eq, (all, some_fold))) = folds_over-Ends cfg uniq fuel enough in
    let (clean, same) =
      nested_from-NoLeak rounded_share cfg uniq (sorted_set-NoDup sessions) 0 outer all in
    (
      nested_from rounded_share cfg 0 outer,
      (
        ap
            (λ o. elim o as (λ o. Option (List FoldDefinition)) [
              | none ↦ none
              | some outer ↦ some (nested_from rounded_share cfg 0 outer)
            ])
            eq,
        (clean, λ can. omega (arith, same, some_fold can)),
      ),
    )
