-- ===== src/Training/Trainer.antt =====
-- What deepCab/training/train.py works with: its configuration and result, and the code that it calls. The
-- reading of the rows, the fitting, MLflow, the provenance file and `gsutil` are fields of `Trainer`; the
-- bodies of the hooks that write the artifacts are fields of `Hooks`. They work on what is outside of the
-- program.
use deep_cab.Prelude.{ℕ, String, Bool, Option, List}
use deep_cab.Prelude.Floats.{FloatOps}
use deep_cab.Prelude.Exec.{Result, Exec}
use deep_cab.Schemas.Settings.{MlflowSettings}
use deep_cab.Models.Conformal.{AciRegressor}
use deep_cab.Registry.Runs.{Backends}

-- `TrainConfig`, as far as it is used
pub record TrainConfig (D C : Type 0) : Type 0 where
  pub data_ref : D
  pub backend_kind : String
  pub backend : C
  pub seed : ℕ

pub record TrainResult (E F R : Type 0) : Type 0 where
  pub run_id : Option String
  pub backend_kind : String
  pub val_mae : F
  pub model_path : String
  pub estimator : E
  pub background : Option (List R)
  pub aci : Option (AciRegressor F (List R))
  pub run_dir : String

-- `LineageEdge`
pub record LineageEdge : Type 0 where
  pub input_hash : String
  pub preprocessor_hash : String
  pub split_hash : String
  pub run_id : Option String

-- The dicts that `hash_obj` is given.
pub data Hashed (D : Type 0) : Type 0 where
  of_data : D → Hashed D
  of_pipeline : String → Hashed D
  of_split : String → ℕ → Hashed D

-- The rows and the targets of a split
abbrev pub Rows : Type 0 → Type 0 → Type 0
Rows F R = List R × List F

-- The functions of the MLflow module. The end of a run is told whether it failed.
pub record Mlflow (Cfg F S : Type 0) : Type 0 where
  pub set_tracking_uri : String → Exec S (Unit {0})
  pub set_experiment : String → Exec S (Unit {0})
  pub start_run : Exec S String
  pub log_params : Cfg → Exec S (Unit {0})
  pub log_config : Cfg → Exec S (Unit {0})
  pub log_metric : String → F → Exec S (Unit {0})
  pub log_artifact : String → String → Exec S (Unit {0})
  pub log_artifacts : String → String → Exec S (Unit {0})
  pub end_run : Bool → S → S

pub record Trainer (D E B C F R S : Type 0) : Type 0 where
  pub floats : FloatOps F
  pub backends : Backends E B C F (List R)
  -- `int(x)`
  pub truncate : F → ℕ
  pub set_all : ℕ → String → Exec S (Unit {0})
  pub preprocess : D → String → Exec S (Rows F R)
  pub build_estimator : C → Result E
  pub fit : E → Rows F R → Rows F R → Exec S E
  pub settings : MlflowSettings
  -- none if MLflow is not installed
  pub mlflow : Option (Mlflow (TrainConfig D C) F S)
  pub emit_provenance : TrainConfig D C → Option String → F → Exec S String
  pub runs_root : String
  pub push_to_gcs : String → String → Exec S (Unit {0})
  -- the digits of `uuid.uuid4().hex[:8]`
  pub hex : S → String

pub record Hooks (D E C F R T S : Type 0) : Type 0 where
  -- the directory of the provenance file
  pub parent : String → String
  pub hash_obj : Hashed D → String
  -- the provenance file is read, and the card is written to a path, under a model's name
  pub write_card : TrainConfig D C → String → F → String → String → Exec S (Unit {0})
  pub write_edge : LineageEdge → Exec S (Unit {0})
  pub export_to_onnx : E → List R → String → Exec S (Unit {0})
  pub from_path : String → String → Exec S T
