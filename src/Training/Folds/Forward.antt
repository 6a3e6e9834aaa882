-- ===== src/Training/Folds/Forward.antt =====
-- How the loop of src/spy_der/training/folds.py ends, and the outer folds that it makes.
use spy_der.Prelude.{
  true≢false, ℕ, zero, suc, ◌+◌, ◌-◌, ◌≤◌, ◌<◌, min, String, ◌≡◌, refl, ap, sym, ◌∙◌, Bool, true,
  false, ◌&&◌, not, Option, none, some, List, [], ◌∷◌, ◌++◌, if◌then◌else◌, length, length-append,
  ltb, arith, Bool-cases, inl, inr,
}
use spy_der.Training.Folds.{
  take, drop, slice, OuterFold, NestedCrossFitConfig, FoldLoop, embargo_end, test_end, fold_at,
  next_round, run, folds_over,
}
use spy_der.Training.Folds.Slices.{length-take, length-drop, take-slice, append_assoc}

abbrev pub Each : {A : Type 0} → (A → Type 0) → List A → Type 0
Each P [] = Unit {0}
Each P (x ∷ xs) = P x × Each P xs

Each-append :
    {A : Type 0} (P : A → Type 0) (xs : List A) (y : A) → Each P xs → P y → Each P (xs ++ (y ∷ []))
Each-append P [] y h k = (k, tt)
Each-append P (x ∷ xs) y h k = (h.0, Each-append P xs y h.1 k)

module _ (cfg : NestedCrossFitConfig) (uniq : List String) where
  -- Training, embargo and test, one after the other from the first session on: enough sessions to train
  -- on, the whole embargo, and some session to test on.
  abbrev pub Forward : OuterFold → Type 0
  Forward f =
      ((n : ℕ) × (f.train_sessions ++ (f.embargoed_sessions ++ f.test_sessions) ≡ take n uniq))
      × ((cfg.min_train_sessions ≤ length f.train_sessions)
          × ((length f.embargoed_sessions ≡ cfg.embargo_sessions) × (0 < length f.test_sessions)))

  length-slice : (i j : ℕ) → length (slice i j uniq) ≡ min (j - i) (length uniq - i)
  length-slice i j = omega (arith, length-take (j - i) (drop i uniq), length-drop i uniq)

  fold_at-Forward :
      (c : ℕ)
      → c < length uniq
      → cfg.min_train_sessions ≤ length (fold_at cfg uniq c).train_sessions
      → 0 < length (fold_at cfg uniq c).test_sessions
      → Forward (fold_at cfg uniq c)
  fold_at-Forward c inside warm some_test =
      let e : ℕ = embargo_end cfg uniq c in
      let t : ℕ = test_end cfg uniq c in
      (
        (
          t,
          sym (append_assoc (take c uniq) (slice c e uniq) (slice e t uniq))
              ∙ ap (λ xs. xs ++ slice e t uniq) (take-slice c e uniq (omega arith))
              ∙ take-slice e t uniq (omega arith),
        ),
        (warm, (omega (arith, length-slice c e, length-slice e t), some_test)),
      )

  abbrev round_test : FoldLoop → Bool
  round_test s =
      (ltb s.cursor (length uniq) && ltb s.fold_i cfg.outer_folds)
      && (not (ltb (length (fold_at cfg uniq s.cursor).train_sessions) cfg.min_train_sessions)
          && not (ltb (length (fold_at cfg uniq s.cursor).test_sessions) 1))

  abbrev after_round : FoldLoop → FoldLoop
  after_round s = record {
    cursor = test_end cfg uniq s.cursor;
    fold_i = s.fold_i + 1;
    folds = s.folds ++ (fold_at cfg uniq s.cursor ∷ []);
  }

  -- A round of the loop, from what its tests answer.
  abbrev rounded : ℕ → FoldLoop → Bool → Option (List OuterFold)
  rounded n s true = run cfg uniq n (after_round s)
  rounded n s false = some s.folds

  run-rounded : (n : ℕ) (s : FoldLoop) → run cfg uniq (suc n) s ≡ rounded n s (round_test s)
  unfolding run next_round
  run-rounded n s = by_test (round_test s)
    where
      by_test :
          (b : Bool)
          → (elim (if b then some (after_round s) else none) as (λ o. Option (List OuterFold)) [
            | none ↦ some s.folds
            | some s' ↦ run cfg uniq n s'
          ])
            ≡ rounded n s b
      by_test true = refl
      by_test false = refl

  run-Forward :
      (fuel : ℕ) (s : FoldLoop)
      → Each Forward s.folds
      → s.fold_i ≤ cfg.outer_folds
      → cfg.outer_folds < fuel + s.fold_i
      → (fs : List OuterFold) × ((run cfg uniq fuel s ≡ some fs)
          × (Each Forward fs
              × ((length s.folds ≤ length fs)
                  × (round_test s ≡ true → length s.folds < length fs))))
  unfolding run next_round
  run-Forward zero s h le enough = absurd (omega arith)
  run-Forward (suc n) s h le enough = elim (Bool-cases (round_test s)) [
    | inr e ↦ (
      s.folds,
      (
        run-rounded n s ∙ ap (rounded n s) e,
        (h, (omega arith, λ t. absurd (true≢false (sym t ∙ e)))),
      ),
    )
    | inl e ↦
        let one_more =
          Each-append Forward s.folds (fold_at cfg uniq s.cursor) h
            (fold_at-Forward s.cursor (tests e).0 (tests e).1.1.0 (tests e).1.1.1) in
        let (fs, (eq, all)) =
          run-Forward n (after_round s) one_more (omega (arith, (tests e).1.0)) (omega arith) in
        let longer = length-append s.folds (fold_at cfg uniq s.cursor ∷ []) in
        (
          fs,
          (
            run-rounded n s ∙ ap (rounded n s) e ∙ eq,
            (all.0, (omega (arith, longer, all.1.0), λ t. omega (arith, longer, all.1.0))),
          ),
        )
  ]
    where
      tests :
          round_test s ≡ true
          → (s.cursor < length uniq)
            × ((s.fold_i < cfg.outer_folds)
                × ((cfg.min_train_sessions ≤ length (fold_at cfg uniq s.cursor).train_sessions)
                    × (0 < length (fold_at cfg uniq s.cursor).test_sessions)))
      tests h = ground arith

  -- Sessions enough for a fold.
  abbrev pub Suffice : Type 0
  Suffice =
      (0 < cfg.outer_folds)
      × ((0 < cfg.min_validation_sessions)
          × (cfg.min_train_sessions + cfg.embargo_sessions + cfg.min_validation_sessions
              ≤ length uniq))

  abbrev begin : FoldLoop
  begin = record { cursor = cfg.min_train_sessions; fold_i = 0; folds = [] }

  round_test-begin : Suffice → round_test begin ≡ true
  round_test-begin (some_fold, (some_test, enough)) =
      let c : ℕ = cfg.min_train_sessions in
      let e : ℕ = embargo_end cfg uniq c in
      let train : length (take c uniq) ≡ c = omega (arith, length-take c uniq) in
      let test : 1 ≤ length (slice e (test_end cfg uniq c) uniq) =
        omega (arith, length-slice e (test_end cfg uniq c)) in
      ground (arith, train, test)

  -- The loop ends, with a fold where there are sessions enough for one.
  abbrev pub Ends : Option (List OuterFold) → Type 0
  Ends o = (fs : List OuterFold) × ((o ≡ some fs) × (Each Forward fs × (Suffice → 0 < length fs)))

  run-Ends : (fuel : ℕ) → cfg.outer_folds < fuel → Ends (run cfg uniq fuel begin)
  run-Ends fuel enough =
      let (fs, (eq, (all, (longer, round)))) =
        run-Forward fuel begin tt (omega arith) (omega arith) in
      (fs, (eq, (all, λ can. round (round_test-begin can))))

  pub folds_over-Ends : (fuel : ℕ) → cfg.outer_folds < fuel → Ends (folds_over cfg uniq fuel)
  unfolding folds_over
  folds_over-Ends fuel enough =
      pick
        (ltb (length uniq)
          (cfg.min_train_sessions + cfg.embargo_sessions + cfg.min_validation_sessions))
        (ltb (length uniq - cfg.min_train_sessions) cfg.min_validation_sessions) refl refl
    where
      pick :
          (a b : Bool)
          → ltb
              (length uniq)
              (cfg.min_train_sessions + cfg.embargo_sessions + cfg.min_validation_sessions)
            ≡ a
          → ltb (length uniq - cfg.min_train_sessions) cfg.min_validation_sessions ≡ b
          → Ends (if a then some [] else if b then some [] else run cfg uniq fuel begin)
      pick true b h k = ([], (refl, (tt, λ can. ground (arith, can.1.1))))
      pick false true h k = ([], (refl, (tt, λ can. ground (arith, can.1.1))))
      pick false false h k = run-Ends fuel enough
