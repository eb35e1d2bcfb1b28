-- ===== src/Agent/Toolbox.antt =====
-- The bodies of the agent's tools: deepCab/agent/tools.py, on the shared state of deep_cab.Training.Site. The
-- validation of the arguments, the reading of the rows, the features, the attribution and MLflow are
-- fields of `Toolkit`.
pub mod Table
pub mod Trained
use deep_cab.Prelude.{
  ℕ, ◌-◌, String, Bool, true, Option, none, some, List, [], ◌∷◌, map, length, if◌then◌else◌,
}
use deep_cab.Prelude.Floats.{FloatOps}
use deep_cab.Prelude.Dict.{Dict}
use deep_cab.Prelude.Exec.{Result, ok, raised, Exec, pure, raise, gets, lift, ◌>>=◌, ◌>>◌}
use deep_cab.Agent.Json.{Json, num, str, obj, Fields, end, field}
use deep_cab.Agent.Tools.{Tool, Registry}
use deep_cab.Registry.Runs.{ModelHandle}
use deep_cab.Training.Site.{Site, outer}
use deep_cab.Training.Evaluate.{sum_errors, evaluate}
use deep_cab.Training.Trainer.{TrainConfig, TrainResult, Rows, Trainer, Hooks}
use deep_cab.Training.Run as Running
use deep_cab.Training.Hpo.{HpoConfig, HpoResult, Tuner, tune}

-- The validated arguments of the tools
pub data Arguments (D C Q : Type 0) : Type 0 where
  preprocess_in : D → String → Arguments D C Q
  train_in : String → C → D → ℕ → Arguments D C Q
  evaluate_in : String → Arguments D C Q
  predict_in : Q → Arguments D C Q
  explain_in : Q → Arguments D C Q
  tune_in : String → ℕ → D → Arguments D C Q
  list_runs_in : ℕ → String → Arguments D C Q
  compare_runs_in : List String → Arguments D C Q
  propose_in : String → Arguments D C Q

-- A frame of rows, as the tool summarises it: its fares, and the number of its columns
pub record Frame (F : Type 0) : Type 0 where
  pub fares : List F
  pub width : ℕ

pub record Explanation (F : Type 0) : Type 0 where
  pub prediction : F
  pub base_value : F
  pub aggregated : Fields F

pub record Toolkit (D E B C F Q R T S : Type 0) : Type 0 where
  pub trainer : Trainer D E B C F R S
  pub hooks : Hooks D E C F R T S
  -- the value of REGISTRY_GCS_BUCKET
  pub bucket : Option String
  -- `in_cls.model_validate(args)` of a tool
  pub decode : String → Json F → Result (Arguments D C Q)
  pub load : D → String → Exec S (Frame F)
  pub lowest : List F → Result F
  pub highest : List F → Result F
  pub mean : List F → F
  pub default_data : D
  pub predict_one : E → Q → Result F
  -- the first row of `preprocess_features`
  pub featurize : Q → Result R
  pub explain_row : E → List R → R → Result (Explanation F)
  -- `BACKEND_CONFIGS[kind]()`, and the fitting without validation data
  pub default_backend : String → C
  pub fit_plain : E → Rows F R → Result E
  -- the study and the configurations; its objective is replaced
  pub tuner : Tuner D C F
  pub dump_params : Dict (Json F) → Fields F
  -- `list_runs`, `compare_runs` and `propose_next_experiment` of the memory, dumped
  pub list_runs : ℕ → String → Result (Fields F)
  pub compare_runs : List String → Result (Fields F)
  pub propose : String → Result (Fields F)
  pub unknown : String → String
  pub outlasts : F → String → Json F → Site E B C F R T S → Bool
  pub timeout_text : F → String

module _ {D E B C F Q R T S : Type 0} (tk : Toolkit D E B C F Q R T S) where
  abbrev pub floats : FloatOps F
  floats = tk.trainer.floats

  abbrev pub size : ℕ → Json F
  size n = num (floats.of_ℕ n)

  -- The model of the process, or the exception of a tool that needs it
  abbrev pub loaded_or :
      String → Option (ModelHandle E F (List R)) → Result (ModelHandle E F (List R))
  loaded_or text none = raised text
  loaded_or text (some handle) = ok handle

  abbrev pub needs_model : String
  needs_model = "RuntimeError: no model loaded — call `train` first"

  abbrev pub loaded_model : Exec (Site E B C F R T S) (ModelHandle E F (List R))
  loaded_model w = (loaded_or needs_model w.model, w)

  -- `_preprocess`
  unfoldable pub run_preprocess : D → String → Exec (Site E B C F R T S) (Fields F)
  run_preprocess d split = do
    frame ← outer (tk.load d split)
    low ← lift (tk.lowest frame.fares)
    high ← lift (tk.highest frame.fares)
    pure (
        field "n_rows" (size (length frame.fares)) (
          field "n_features" (size (frame.width - 1)) (
            field "fare_min" (num low)
              (field "fare_max" (num high) (field "fare_mean" (num (tk.mean frame.fares)) end)))))

  abbrev pub id_json : Option String → Json F
  id_json none = Json.null
  id_json (some id) = str id

  -- The output of `_train`
  abbrev pub train_out : TrainResult E F R → Fields F
  train_out r =
      field "run_id" (id_json r.run_id)
        (field "backend_kind" (str r.backend_kind) (field "val_mae" (num r.val_mae) end))

  abbrev pub config_of : String → C → D → ℕ → TrainConfig D C
  config_of kind backend d seed = record {
    data_ref = d;
    backend_kind = kind;
    backend = backend;
    seed = seed;
  }

  -- `_train`
  unfoldable pub run_train : String → C → D → ℕ → Exec (Site E B C F R T S) (Fields F)
  run_train kind backend d seed =
      Running.run tk.trainer tk.hooks (config_of kind backend d seed) tk.bucket >>= λ r.
      pure (train_out r)

  -- `_evaluate`, on the rows of the default data
  unfoldable pub run_evaluate : String → Exec (Site E B C F R T S) (Fields F)
  unfolding evaluate
  run_evaluate split = do
    handle ← loaded_model
    rows ← outer (tk.trainer.preprocess tk.default_data split)
    let res = evaluate floats (tk.trainer.backends.predict handle.estimator) rows
    pure (field "mae" (num res.mae) (field "rmse" (num res.rmse) (field "n" (size res.n) end)))

  -- The output of `_predict`
  abbrev pub predict_out : String → F → Fields F
  predict_out kind fare = field "fare" (num fare) (field "backend_kind" (str kind) end)

  -- `_predict`
  unfoldable pub run_predict : Q → Exec (Site E B C F R T S) (Fields F)
  run_predict row = do
    handle ← loaded_model
    fare ← lift (tk.predict_one handle.estimator row)
    pure (predict_out handle.backend_kind fare)

  abbrev pub needs_background : String
  needs_background = "RuntimeError: no model+background loaded — call `train` first"

  abbrev pub background_or : Option (List R) → Result (List R)
  background_or none = raised needs_background
  background_or (some rows) = ok rows

  -- `_explain`
  unfoldable pub run_explain : Q → Exec (Site E B C F R T S) (Fields F)
  run_explain row = do
    handle ← (λ w. (loaded_or needs_background w.model, w))
    background ← lift (background_or handle.background)
    features ← lift (tk.featurize row)
    exp ← lift (tk.explain_row handle.estimator background features)
    pure (
        field "prediction" (num exp.prediction) (
          field "base_value" (num exp.base_value)
            (field "shap_by_feature" (obj exp.aggregated) end)))
