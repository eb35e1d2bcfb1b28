-- ===== src/Training/CrossVal/Folds.antt =====
-- What the scores of deepCab/training/cv.py stand on.
use deep_cab.Prelude.{
  ℕ, true, some, List, [], ◌∷◌, ◌≡◌, refl, ap, ◌∙◌, sym, arith, length, All, inl, inr, Bool-cases,
  eq_iff, map,
}
use deep_cab.Prelude.Exec.{Result, ok, raised, ok-injective}
use deep_cab.Training.Splits.{Fold, is_sorted, time_series_splits}
use deep_cab.Training.Splits.Leakage.{IsTemporal, IsLeakFree, time_series_splits-IsLeakFree}
use deep_cab.Training.CrossVal.{
  CvConfig, CvResult, Harness, cons_ok, and_then, time_splits, splits_of, score_fold, score_folds,
  summary, run_cv,
}

-- What a chain of calls that returns has returned on the way
and_then_ok :
    {A B : Type 0} (r : Result A) (rest : A → Result B) (b : B)
    → and_then r rest ≡ ok b
    → (a : A) × (r ≡ ok a) × (rest a ≡ ok b)
and_then_ok (ok a) rest b h = (a, refl, h)
and_then_ok (raised e) rest b h = absurd (cc h)

cons_ok_ok :
    {A : Type 0} (r : Result A) (rs : Result (List A)) (xs : List A)
    → cons_ok r rs ≡ ok xs
    → (y : A) × (ys : List A) × (r ≡ ok y) × (rs ≡ ok ys) × (xs ≡ y ∷ ys)
cons_ok_ok (ok y) (ok ys) xs h = (y, ys, refl, refl, cc h)
cons_ok_ok (ok y) (raised e) xs h = absurd (cc h)
cons_ok_ok (raised e) rs xs h = absurd (cc h)

module _ {C E F R : Type 0} (hn : Harness C E F R) where
  score_folds_lem :
      (backend : C) (rows : List R) (y : List F) (folds : List Fold) (maes : List F)
      → score_folds hn backend rows y folds ≡ ok maes
      → map (score_fold hn backend rows y) folds ≡ map (λ mae. ok mae) maes
  unfolding score_folds
  score_folds_lem backend rows y [] maes h = ap (map (λ (mae : F). ok mae)) (ok-injective [] maes h)
  score_folds_lem backend rows y (fold ∷ folds) maes h =
      let (m, ms, e, es, split) =
        cons_ok_ok (score_fold hn backend rows y fold) (score_folds hn backend rows y folds) maes
          h in
      let rest = score_folds_lem backend rows y folds ms es in
      ap (λ x. x ∷ map (score_fold hn backend rows y) folds) e
      ∙ ap (λ l. ok m ∷ l) rest
      ∙ sym (ap (map (λ (mae : F). ok mae)) split)

  -- A cross-validation by time that returns was given times that ascend, has one score for each fold, in
  -- order, and in no fold was a row trained on that is later than a row of its test. This is for a
  -- splitter that puts the training rows of each fold before its test rows.
  pub run_cv-IsLeakFree :
      (cv : CvConfig) (backend : C) (seed : ℕ) (rows : List R) (y : List F) (times : List ℕ)
      (r : CvResult F)
      → cv.kind ≡ "timeseries"
      → All (IsTemporal (length times)) (hn.time_series cv.n_splits (length times))
      → run_cv hn (some cv) backend seed rows y (some times) ≡ ok r
      → (is_sorted times ≡ true)
        × ((folds : List Fold) × All (IsLeakFree times) folds
            × (map (score_fold hn backend rows y) folds ≡ map (λ mae. ok mae) r.fold_mae))
  unfolding run_cv splits_of time_splits
  run_cv-IsLeakFree cv backend seed rows y times r kind temporal h =
      let (folds, given, later) =
        and_then_ok (splits_of hn cv seed (length rows) (some times)) _ r h in
      let (maes, scored, last) = and_then_ok (score_folds hn backend rows y folds) _ r later in
      let by_time : time_splits hn (length rows) cv.n_splits (some times) ≡ ok folds =
        ground (arith, given, (eq_iff cv.kind "timeseries").1 kind) in
      elim (Bool-cases (is_sorted times)) [
        | inr unsorted ↦ absurd (ground (arith, by_time, unsorted))
        | inl sorted ↦
            let split : time_series_splits hn.time_series cv.n_splits times ≡ ok folds =
              ground (arith, by_time, sorted) in
            let (_, free) =
              time_series_splits-IsLeakFree hn.time_series cv.n_splits times folds temporal split in
            (
              sorted,
              (
                folds,
                free,
                score_folds_lem backend rows y folds maes scored
                    ∙ ap (λ (res : CvResult F). map (λ (mae : F). ok mae) res.fold_mae)
                        (ok-injective (summary hn maes) r last),
              ),
            )
      ]
