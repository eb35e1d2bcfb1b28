-- ===== src/Training/Hpo.antt =====
-- The search for the parameters of a backend: deepCab/training/hpo.py. Optuna's study, the validation and the
-- dumping of a backend's configuration, and the objective are arguments.
pub mod Merging
pub mod Best
use deep_cab.Prelude.{
  ℕ, String, Bool, true, false, Option, none, some, List, [], ◌∷◌, map, str_eq, if◌then◌else◌,
}
use deep_cab.Prelude.Floats.{FloatOps}
use deep_cab.Prelude.Dict.{Dict, lookup, insert}
use deep_cab.Prelude.Exec.{Result, ok, raised}
use deep_cab.Agent.Json.{Json}
use deep_cab.Training.Trainer.{TrainConfig}

-- The ranges that a trial is asked to choose from
pub data Range (F : Type 0) : Type 0 where
  suggest_int : ℕ → ℕ → ℕ → Range F
  suggest_float : F → F → Bool → Range F
  suggest_categorical : List ℕ → Range F

-- `HPOConfig`
pub record HpoConfig : Type 0 where
  pub n_trials : ℕ
  pub sampler : String
  pub pruner : String
  pub direction : String

pub data Sampler : Type 0 where
  tpe cma_es random : ℕ → Sampler

pub data Pruner : Type 0 where
  median hyperband nop : Pruner

-- `_make_sampler`
unfoldable pub make_sampler : String → ℕ → Sampler
make_sampler name seed =
    if str_eq name "tpe" then tpe seed else if str_eq name "cmaes" then cma_es seed else random seed

-- `_make_pruner`
unfoldable pub make_pruner : String → Pruner
make_pruner name =
    if str_eq name "median" then median else if str_eq name "hyperband" then hyperband else nop

module _ {F : Type 0} (fl : FloatOps F) where
  unfoldable pub xgb_space : Dict (Range F)
  xgb_space =
      ("n_estimators", suggest_int 100 1000 50)
      ∷ ("max_depth", suggest_int 3 10 1)
      ∷ ("learning_rate", suggest_float (fl.decimal 1 3) (fl.decimal 3 1) true)
      ∷ ("subsample", suggest_float (fl.decimal 5 1) (fl.of_ℕ 1) false)
      ∷ []

  unfoldable pub lgbm_space : Dict (Range F)
  lgbm_space =
      ("n_estimators", suggest_int 100 1000 50)
      ∷ ("num_leaves", suggest_int 15 127 1)
      ∷ ("learning_rate", suggest_float (fl.decimal 1 3) (fl.decimal 3 1) true)
      ∷ []

  unfoldable pub catboost_space : Dict (Range F)
  catboost_space =
      ("iterations", suggest_int 100 1000 50)
      ∷ ("depth", suggest_int 3 10 1)
      ∷ ("learning_rate", suggest_float (fl.decimal 1 3) (fl.decimal 3 1) true)
      ∷ []

  unfoldable pub tf_mlp_space : Dict (Range F)
  tf_mlp_space =
      ("dropout", suggest_float (fl.of_ℕ 0) (fl.decimal 4 1) false)
      ∷ ("l2", suggest_float (fl.decimal 1 4) (fl.decimal 1 2) true)
      ∷ ("learning_rate", suggest_float (fl.decimal 1 4) (fl.decimal 1 2) true)
      ∷ ("batch_size", suggest_categorical (128 ∷ 256 ∷ 512 ∷ []))
      ∷ []

  unfoldable pub torch_mlp_space : Dict (Range F)
  torch_mlp_space =
      ("dropout", suggest_float (fl.of_ℕ 0) (fl.decimal 4 1) false)
      ∷ ("learning_rate", suggest_float (fl.decimal 1 4) (fl.decimal 1 2) true)
      ∷ ("batch_size", suggest_categorical (128 ∷ 256 ∷ 512 ∷ []))
      ∷ []

  unfoldable pub ft_space : Dict (Range F)
  ft_space =
      ("d_token", suggest_categorical (64 ∷ 128 ∷ 192 ∷ 256 ∷ []))
      ∷ ("n_blocks", suggest_int 1 4 1)
      ∷ ("attention_dropout", suggest_float (fl.of_ℕ 0) (fl.decimal 3 1) false)
      ∷ ("ffn_dropout", suggest_float (fl.of_ℕ 0) (fl.decimal 3 1) false)
      ∷ ("learning_rate", suggest_float (fl.decimal 1 5) (fl.decimal 1 3) true)
      ∷ []

  -- `SPACES`
  unfoldable pub spaces : Dict (Dict (Range F))
  unfolding xgb_space lgbm_space catboost_space tf_mlp_space torch_mlp_space ft_space
  spaces =
      ("tf_mlp", tf_mlp_space)
      ∷ ("torch_mlp", torch_mlp_space)
      ∷ ("xgb", xgb_space)
      ∷ ("lgbm", lgbm_space)
      ∷ ("catboost", catboost_space)
      ∷ ("ft_transformer", ft_space)
      ∷ []

-- What a trial chooses for a name and a range
abbrev pub Trial : Type 0 → Type 0
Trial F = String → Range F → Json F

-- `study.best_trial`
pub record BestTrial (F : Type 0) : Type 0 where
  pub value : F
  pub params : Dict (Json F)

pub record HpoResult (C F : Type 0) : Type 0 where
  pub best_value : F
  pub best_params : Dict (Json F)
  pub best_backend_cfg : C
  pub n_trials : ℕ

module _ {F : Type 0} where
  -- The dict that a space function returns
  abbrev pub params_of : Trial F → Dict (Range F) → Dict (Json F)
  params_of trial space = map (λ (entry : String × Range F). (entry.0, trial entry.0 entry.1)) space

  -- `{**base, **params}`
  unfoldable pub merge : Dict (Json F) → Dict (Json F) → Dict (Json F)
  merge base [] = base
  merge base ((name, value) ∷ params) = merge (insert name value base) params

pub record Tuner (D C F : Type 0) : Type 0 where
  pub floats : FloatOps F
  -- `backend.model_dump()`, and `CONFIG_CLASSES[kind].model_validate(...)`
  pub model_dump : C → Dict (Json F)
  pub model_validate : String → Dict (Json F) → Result C
  pub objective : TrainConfig D C → Result F
  -- `create_study`, `optimize` and `best_trial`, on what a trial does: what it asks for, and its value
  pub study :
      Sampler → Pruner → String → (Trial F → Dict (Json F) × Result F) → ℕ → Result (BestTrial F)

module _ {D C F : Type 0} (tn : Tuner D C F) (base : TrainConfig D C) where
  -- The backend with parameters merged in
  unfoldable pub backend_with : Dict (Json F) → Result C
  unfolding merge
  backend_with params =
      tn.model_validate base.backend_kind (merge (tn.model_dump base.backend) params)

  abbrev pub scored : Result C → Result F
  scored (raised e) = raised e
  scored (ok backend) = tn.objective (record base { backend = backend })

  -- `_trial`
  unfoldable pub run_trial : Dict (Range F) → Trial F → Dict (Json F) × Result F
  unfolding backend_with
  run_trial space trial =
      let params = params_of trial space in (params, scored (backend_with params))

  -- The end of `tune`
  abbrev pub result_with : ℕ → BestTrial F → Result C → Result (HpoResult C F)
  result_with n_trials best (raised e) = raised e
  result_with n_trials best (ok backend) = ok (record {
    best_value = best.value;
    best_params = best.params;
    best_backend_cfg = backend;
    n_trials = n_trials;
  })

  abbrev pub after_study : ℕ → Result (BestTrial F) → Result (HpoResult C F)
  after_study n_trials (raised e) = raised e
  after_study n_trials (ok best) = result_with n_trials best (backend_with best.params)

  abbrev pub tune_with : HpoConfig → Option (Dict (Range F)) → Result (HpoResult C F)
  tune_with hpo none = raised "KeyError"
  tune_with hpo (some space) = after_study hpo.n_trials (
      tn.study (make_sampler hpo.sampler base.seed) (make_pruner hpo.pruner) hpo.direction
        (run_trial space) hpo.n_trials)

  -- `tune`, on `hpo or base_cfg.hpo`
  unfoldable pub tune : Option HpoConfig → Result (HpoResult C F)
  unfolding make_sampler make_pruner run_trial backend_with spaces
  tune none = raised "ValueError"
  tune (some hpo) = tune_with hpo (lookup base.backend_kind (spaces tn.floats))
