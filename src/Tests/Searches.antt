-- ===== src/Tests/Searches.antt =====
-- The folds of a cross-validation, the search for parameters, and the comparison of runs.
use deep_cab.Prelude.{ℕ, String, true, some, List, [], ◌∷◌, ◌≡◌, refl, ap, arith, All, map, length}
use deep_cab.Prelude.Floats.{fixed}
use deep_cab.Prelude.Dict.{Dict, lookup, insert}
use deep_cab.Prelude.Exec.{Result, ok, raised}
use deep_cab.Agent.Json.{Json, num}
use deep_cab.Training.Evaluate.{sum_errors}
use deep_cab.Training.Splits.{Fold, is_sorted, time_series_splits}
use deep_cab.Training.Splits.Leakage.{IsLeakFree}
use deep_cab.Training.CrossVal.{
  CvConfig, CvResult, Harness, time_splits, splits_of, score_fold, score_folds, run_cv,
}
use deep_cab.Training.CrossVal.Folds.{run_cv-IsLeakFree}
use deep_cab.Training.Trainer.{TrainConfig}
use deep_cab.Training.Hpo.{
  Range, HpoConfig, spaces, lgbm_space, xgb_space, catboost_space, tf_mlp_space, torch_mlp_space,
  ft_space, Trial, BestTrial, HpoResult, Sampler, Pruner, Tuner, make_sampler, make_pruner, merge,
  backend_with, run_trial, tune,
}
use deep_cab.Training.Hpo.Best.{Unbeaten, IsStudy, IsScored, tune-IsScored}

-- Four rows in order of time, and two folds.
abbrev folds : List Fold
folds = (0 ∷ [], 1 ∷ 2 ∷ []) ∷ (0 ∷ 1 ∷ 2 ∷ [], 3 ∷ []) ∷ []

abbrev harness : Harness ℕ ℕ ℕ ℕ
harness = record {
  floats = fixed;
  time_series = λ n_splits n. folds;
  kfold = λ seed n_splits n. [];
  build_estimator = λ c. ok c;
  fit = λ e rows y. ok e;
  predict = λ e rows. rows;
  mean = λ xs. 0;
  std = λ xs. 0;
}

abbrev cv : CvConfig
cv = record { kind = "timeseries"; n_splits = 2 }

abbrev rows : List ℕ
rows = 9 ∷ 8 ∷ 7 ∷ 6 ∷ []

abbrev times : List ℕ
times = 10 ∷ 10 ∷ 20 ∷ 30 ∷ []

abbrev scores : CvResult ℕ
scores = record { fold_mae = 3 ∷ 2 ∷ []; mean_mae = 0; std_mae = 0 }

scored_lem : run_cv harness (some cv) 3 42 rows (4 ∷ 4 ∷ 5 ∷ 4 ∷ []) (some times) ≡ ok scores
unfolding run_cv splits_of time_splits time_series_splits is_sorted score_folds score_fold
    sum_errors
scored_lem = refl

run_cv-IsLeakFree_example :
    (is_sorted times ≡ true)
    × ((fs : List Fold) × All (IsLeakFree times) fs
        × (map (score_fold harness 3 rows (4 ∷ 4 ∷ 5 ∷ 4 ∷ [])) fs ≡ ok 3 ∷ ok 2 ∷ []))
run_cv-IsLeakFree_example =
    run_cv-IsLeakFree harness cv 3 42 rows (4 ∷ 4 ∷ 5 ∷ 4 ∷ []) times scores refl
      (
        (((omega arith, omega arith), ((omega arith, omega arith), tt)), tt),
        (
          (
            ((omega arith, omega arith), tt),
            (((omega arith, omega arith), tt), (((omega arith, omega arith), tt), tt)),
          ),
          tt,
        ),
      )
      scored_lem

-- A backend is its parameters, and the study takes the trial that answers 31 everywhere.
abbrev trial : Trial ℕ
trial = λ name range. num 31

abbrev BackendDict : Type 0
BackendDict = Dict (Json ℕ)

abbrev best_of : BackendDict × Result ℕ → Result (BestTrial ℕ)
best_of (params, raised e) = raised e
best_of (params, ok value) = ok (record { value = value; params = params })

abbrev tuner : Tuner ℕ BackendDict ℕ
tuner = record {
  floats = fixed;
  model_dump = λ c. c;
  model_validate = λ kind params. ok params;
  objective = λ cfg. ok (length cfg.backend);
  study = λ sampler pruner direction run n. best_of (run trial);
}

best_of-IsRun :
    (outcome : BackendDict × Result ℕ) (best : BestTrial ℕ)
    → best_of outcome ≡ ok best
    → outcome ≡ (best.params, ok best.value)
best_of-IsRun (params, raised e) best h = absurd (cc h)
best_of-IsRun (params, ok value) best h =
    let found : best_given ≡ best = cc h in ap (λ (b : BestTrial ℕ). (b.params, ok b.value)) found
  where
    best_given : BestTrial ℕ
    best_given = record { value = value; params = params }

-- The trials that a study of this tuner runs
abbrev trials : Sampler → Pruner → String → (Trial ℕ → BackendDict × Result ℕ) → ℕ → List (Trial ℕ)
trials sampler pruner direction run n = trial ∷ []

answer-Unbeaten :
    (base : TrainConfig ℕ BackendDict) (direction : String) (value : ℕ) (answer : Result ℕ)
    → answer ≡ ok value
    → Unbeaten tuner base trials direction value answer
answer-Unbeaten base direction value (raised e) h = tt
answer-Unbeaten base direction value (ok other) h = ground (arith, h)

tuner-IsStudy : (base : TrainConfig ℕ BackendDict) → IsStudy tuner base trials
tuner-IsStudy base sampler pruner direction run n best h =
    let ran = best_of-IsRun (run trial) best h in
    (
      (trial, [], [], refl, ran),
      (answer-Unbeaten base direction best.value (run trial).1 (ap (λ o. o.1) ran), tt),
    )

abbrev base : TrainConfig ℕ BackendDict
base = record {
  data_ref = 1;
  backend_kind = "lgbm";
  backend = ("num_leaves", num 64) ∷ ("n_jobs", num 2) ∷ [];
  seed = 42;
}

abbrev hpo : HpoConfig
hpo = record { n_trials = 20; sampler = "tpe"; pruner = "median"; direction = "minimize" }

abbrev chosen : BackendDict
chosen = ("n_estimators", num 31) ∷ ("num_leaves", num 31) ∷ ("learning_rate", num 31) ∷ []

abbrev tuned : HpoResult BackendDict ℕ
tuned = record {
  best_value = 4;
  best_params = chosen;
  best_backend_cfg =
      ("num_leaves", num 31)
      ∷ ("n_jobs", num 2)
      ∷ ("n_estimators", num 31)
      ∷ ("learning_rate", num 31)
      ∷ [];
  n_trials = 20;
}

tuned_lem : tune tuner base (some hpo) ≡ ok tuned
unfolding tune make_sampler make_pruner run_trial backend_with merge spaces lgbm_space xgb_space
    catboost_space tf_mlp_space torch_mlp_space ft_space lookup insert
tuned_lem = refl

tune-IsScored_example :
    (space : Dict (Range ℕ)) × (lookup "lgbm" (spaces fixed) ≡ some space)
    × IsScored tuner base trials hpo space tuned
tune-IsScored_example = tune-IsScored tuner base trials hpo tuned (tuner-IsStudy base) tuned_lem

abbrev params_of_runs : List (Dict ℕ)
params_of_runs = (("depth", 3) ∷ ("seed", 1) ∷ []) ∷ (("depth", 3) ∷ []) ∷ []
