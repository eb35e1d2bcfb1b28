-- ===== src/Training/CrossVal.antt =====
-- `run_cv` of deepCab/training/cv.py. The splitters, the estimators and numpy's mean and deviation are fields
-- of `Harness`; the log lines are left out.
pub mod Folds
use deep_cab.Prelude.{
  ℕ, zero, suc, String, Option, none, some, List, [], ◌∷◌, length, str_eq, if◌then◌else◌,
}
use deep_cab.Prelude.Floats.{FloatOps}
use deep_cab.Prelude.Exec.{Result, ok, raised}
use deep_cab.Training.Evaluate.{sum_errors}
use deep_cab.Training.Splits.{Fold, Splitter, is_sorted, time_series_splits, kfold_splits}

pub record CvConfig : Type 0 where
  pub kind : String
  pub n_splits : ℕ

pub record CvResult (F : Type 0) : Type 0 where
  pub fold_mae : List F
  pub mean_mae : F
  pub std_mae : F

pub record Harness (C E F R : Type 0) : Type 0 where
  pub floats : FloatOps F
  pub time_series : Splitter
  pub kfold : ℕ → Splitter
  pub build_estimator : C → Result E
  pub fit : E → List R → List F → Result E
  pub predict : E → List R → List F
  pub mean : List F → F
  pub std : List F → F

-- `range(n)`, from a first number on
abbrev pub count_from : ℕ → ℕ → List ℕ
count_from start zero = []
count_from start (suc n) = start ∷ count_from (suc start) n

module _ {A : Type 0} where
  abbrev pub at : List A → ℕ → Result A
  at [] i = raised "IndexError"
  at (x ∷ xs) zero = ok x
  at (x ∷ xs) (suc i) = at xs i

  abbrev pub cons_ok : Result A → Result (List A) → Result (List A)
  cons_ok (ok x) (ok xs) = ok (x ∷ xs)
  cons_ok (ok x) (raised e) = raised e
  cons_ok (raised e) rest = raised e

  -- `X[idx]`
  abbrev pub pick : List A → List ℕ → Result (List A)
  pick xs [] = ok []
  pick xs (i ∷ idx) = cons_ok (at xs i) (pick xs idx)

abbrev pub and_then : {A B : Type 0} → Result A → (A → Result B) → Result B
and_then (ok a) rest = rest a
and_then (raised e) rest = raised e

module _ {C E F R : Type 0} (hn : Harness C E F R) where
  -- The times that the splitter is given: those of the caller, or `np.arange(n)`
  unfoldable pub time_splits : ℕ → ℕ → Option (List ℕ) → Result (List Fold)
  unfolding time_series_splits is_sorted
  time_splits n n_splits none = time_series_splits hn.time_series n_splits (count_from 0 n)
  time_splits n n_splits (some times) =
      if is_sorted times
      then time_series_splits hn.time_series n_splits times
      else raised "ValueError"

  -- The folds of `run_cv`
  unfoldable pub splits_of : CvConfig → ℕ → ℕ → Option (List ℕ) → Result (List Fold)
  unfolding time_splits kfold_splits
  splits_of cv seed n times =
      if str_eq cv.kind "timeseries"
      then time_splits n cv.n_splits times
      else ok (kfold_splits hn.kfold n cv.n_splits seed)

  -- One round of the loop over the folds: a fresh estimator, and its error on the test rows
  unfoldable pub score_fold : C → List R → List F → Fold → Result F
  unfolding sum_errors
  score_fold backend rows y (train, test) = and_then (hn.build_estimator backend) λ est.
      and_then (pick rows train) λ train_rows. and_then (pick y train) λ train_y.
        and_then (hn.fit est train_rows train_y) λ fitted. and_then (pick rows test) λ test_rows.
          and_then (pick y test) λ test_y. ok (
            hn.floats.div (sum_errors hn.floats hn.floats.abs (hn.predict fitted test_rows) test_y)
              (hn.floats.of_ℕ (length test_y)))

  unfoldable pub score_folds : C → List R → List F → List Fold → Result (List F)
  unfolding score_fold
  score_folds backend rows y [] = ok []
  score_folds backend rows y (fold ∷ folds) =
      cons_ok (score_fold backend rows y fold) (score_folds backend rows y folds)

  abbrev pub summary : List F → CvResult F
  summary maes = record { fold_mae = maes; mean_mae = hn.mean maes; std_mae = hn.std maes }

  -- `run_cv`, on the parts of the configuration that it reads
  unfoldable pub run_cv :
      Option CvConfig → C → ℕ → List R → List F → Option (List ℕ) → Result (CvResult F)
  unfolding splits_of score_folds
  run_cv none backend seed rows y times = raised "ValueError"
  run_cv (some cv) backend seed rows y times =
      and_then (splits_of cv seed (length rows) times)
        λ folds. and_then (score_folds backend rows y folds) λ maes. ok (summary maes)
