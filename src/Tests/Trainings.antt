-- ===== src/Tests/Trainings.antt =====
-- A training, the start of the service after it, and the polling for a training that runs elsewhere.
use deep_cab.Prelude.{
  ℕ, zero, suc, ◌+◌, ◌/◌, ◌^◌, ◌≤◌, String, false, none, some, List, [], ◌∷◌, ◌++◌, ◌≡◌, ◌↔◌, ◌⊎◌,
  refl, arith, str_eq, length,
}
use deep_cab.Prelude.Floats.{fixed}
use deep_cab.Prelude.Exec.{ok, raised, Exec}
use deep_cab.Models.Conformal.{from_fitted}
use deep_cab.Registry.Runs.{Backends, run_dir}
use deep_cab.Serving.Runtime.{empty_registry}
use deep_cab.Training.Site.{Site}
use deep_cab.Training.Trainer.{TrainConfig, TrainResult, Mlflow, Trainer, Hooks}
use deep_cab.Training.Stages.{calibrate_aci}
use deep_cab.Training.Stages.Calibration.{IsShare, share, calibrate_aci_cuts}
use deep_cab.Training.Run.{removeprefix, rstrip_slash, gcs_uri, run_training}
use deep_cab.Training.Run.Hooked.{AreAlike, run_training_hooks}
use deep_cab.Api.Lifespan.{Startup, start_up}
use deep_cab.Api.Lifespan.Reloading.{start_up_raises}

gcs_uri_cleaned :
    (gcs_uri "gs://models//" "r1" ≡ "gs://models/runs/r1/")
    × (gcs_uri "models" "r1" ≡ "gs://models/runs/r1/")
unfolding gcs_uri removeprefix rstrip_slash
gcs_uri_cleaned = (refl, refl)

-- An estimator is a number, and predicts the rows themselves.
abbrev backends : Backends ℕ ℕ ℕ ℕ (List ℕ)
backends = record {
  save = λ e. e;
  cfg_of = λ e. e;
  known = λ kind. str_eq kind "xgb";
  load = λ kind weights. ok weights;
  predict = λ e rows. rows;
  to_float32 = λ xs. xs;
  strip = λ text. text;
}

abbrev nothing : Exec ℕ (Unit {0})
nothing s = (ok tt, s + 1)

abbrev mlflow : Mlflow (TrainConfig ℕ ℕ) ℕ ℕ
mlflow = record {
  set_tracking_uri = λ uri. nothing;
  set_experiment = λ name. nothing;
  start_run = λ s. (ok "r7", s);
  log_params = λ cfg. nothing;
  log_config = λ cfg. nothing;
  log_metric = λ name x. nothing;
  log_artifact = λ path dir. nothing;
  log_artifacts = λ path dir. nothing;
  end_run = λ failed s. s;
}

abbrev pub trainer : Trainer ℕ ℕ ℕ ℕ ℕ ℕ ℕ
trainer = record {
  floats = fixed;
  backends = backends;
  truncate = λ x. x / 10 ^ 8;
  set_all = λ seed kind. nothing;
  preprocess = λ d split s. (ok (5 ∷ 6 ∷ [], 4 ∷ 4 ∷ []), s);
  build_estimator = λ c. ok c;
  fit = λ e train val s. (ok (e + 1), s);
  settings = record {
    tracking_uri = some "http://mlflow";
    experiment = none;
    model_name = none;
    champion_alias = "champion";
    challenger_alias = "challenger";
  };
  mlflow = some mlflow;
  emit_provenance = λ cfg run_id x s. (ok "runs/r7/provenance.json", s);
  runs_root = "runs";
  push_to_gcs = λ dir uri. nothing;
  hex = λ s. "00";
}

abbrev pub hooks : Hooks ℕ ℕ ℕ ℕ ℕ ℕ ℕ
hooks = record {
  parent = λ path. "runs/r7";
  hash_obj = λ x. "h";
  write_card = λ cfg name x provenance path. nothing;
  write_edge = λ edge. nothing;
  export_to_onnx = λ e rows path. nothing;
  from_path = λ path kind s. (ok 1, s);
}

abbrev failing : Exec ℕ (Unit {0})
failing s = (raised "OSError: disk", s + 5)

abbrev failing_hooks : Hooks ℕ ℕ ℕ ℕ ℕ ℕ ℕ
failing_hooks = record hooks {
  write_card = λ cfg name x provenance path. failing;
  write_edge = λ edge. failing;
  export_to_onnx = λ e rows path. failing;
}

abbrev pub cfg : TrainConfig ℕ ℕ
cfg = record { data_ref = 1; backend_kind = "xgb"; backend = 3; seed = 42 }

abbrev pub site : Site ℕ ℕ ℕ ℕ ℕ ℕ ℕ
site = record {
  model = none;
  disk = record { runs = []; latest = none };
  runtimes = empty_registry;
  outside = 0;
}

run_training_hooks_example :
    AreAlike (run_training trainer hooks cfg site) (run_training trainer failing_hooks cfg site)
run_training_hooks_example = run_training_hooks trainer hooks failing_hooks cfg site

abbrev pub result : TrainResult ℕ ℕ ℕ
result = record {
  run_id = some "r7";
  backend_kind = "xgb";
  val_mae = 1;
  model_path = "runs/r7/model";
  estimator = 4;
  background = some (5 ∷ 6 ∷ []);
  aci = none;
  run_dir = "runs/r7";
}

abbrev startup : Startup ℕ
startup = record {
  app_env = "prod";
  otel_enabled = false;
  mlflow = trainer.settings;
  init_tracing = nothing;
  champion = λ s. (raised "ConnectionError", s);
}

abbrev broken : Startup ℕ
broken = record startup { init_tracing = failing }

start_up_raises_example : ((e : String) × ((start_up backends broken site).0 ≡ raised e)) ↔ (
    (broken.app_env ≡ "prod") × ((e : String) × ((broken.init_tracing site.outside).0 ≡ raised e)))
start_up_raises_example = start_up_raises backends broken site

abbrev trained : Site ℕ ℕ ℕ ℕ ℕ ℕ ℕ
trained = (run_training trainer hooks cfg site).1

abbrev hundred : ℕ → List ℕ
hundred zero = []
hundred (suc n) = n ∷ hundred n

trainer-IsShare : IsShare trainer
trainer-IsShare n = omega arith

calibrate_aci_cuts_example :
    let rows = hundred 100 in
    let (aci, metric_rows, metric_y) = calibrate_aci trainer 4 rows rows in
    ((share trainer (length rows) ≤ 29) × (aci ≡ none) × (metric_rows ≡ rows) × (metric_y ≡ rows))
    ⊎ ((calib_rows : List ℕ) × (calib_y : List ℕ) × (aci
          ≡ some (
              from_fitted fixed
                (backends.predict 4)
                calib_rows
                calib_y
                (fixed.decimal 1 1)
                (fixed.decimal 5 3)))
        × (metric_rows ++ calib_rows ≡ rows)
        × (metric_y ++ calib_y ≡ rows)
        × (30 ≤ length calib_y))
calibrate_aci_cuts_example =
    calibrate_aci_cuts trainer 4 (hundred 100) (hundred 100) trainer-IsShare
