-- ===== src/Training/Run.antt =====
-- A training session: `_run_training` and `run` of deepCab/training/train.py.
pub mod Hooked
pub mod Published
pub mod Session
use Prim.Native.Char.{code}
use deep_cab.Prelude.{
  ℕ, String, ◌<>◌, Bool, true, false, Option, none, some, List, ◌==◌, ◌&&◌, if◌then◌else◌, str_eq,
}
use deep_cab.Prelude.Exec.{Result, ok, raised, Exec, pure, lift, ◌>>=◌, ◌>>◌}
use deep_cab.Schemas.Settings.{truthy, text_or}
use deep_cab.Models.Conformal.{AciRegressor}
use deep_cab.Registry.Runs.{ModelHandle}
use deep_cab.Training.Site.{Site, outer, on_outside}
use deep_cab.Training.Trainer.{TrainConfig, TrainResult, Rows, Mlflow, Trainer, Hooks}
use deep_cab.Training.Stages.{
  OpenRun, calibrate_aci, mae, start_mlflow_run, publish_to_state, persist_and_emit_artifacts,
}

abbrev pub is_raised : {A : Type 0} → Result A → Bool
is_raised (ok _) = false
is_raised (raised _) = true

-- The text without a prefix, if it starts with it: `text.removeprefix(prefix)`
unfoldable pub removeprefix : String → String → String
removeprefix prefix text = without prefix text
  where
    without : String → String → String
    without String.[] rest = rest
    without (String.◌∷◌ c cs) String.[] = text
    without (String.◌∷◌ c cs) (String.◌∷◌ d rest) =
        let shorter = without cs rest in if code c == code d then shorter else text

-- `text.rstrip("/")`
unfoldable pub rstrip_slash : String → String
rstrip_slash String.[] = ""
rstrip_slash (String.◌∷◌ c cs) =
    let rest = rstrip_slash cs in if str_eq rest "" && (code c == 47) then "" else String.◌∷◌ c rest

-- The address that a run's directory is copied to
unfoldable pub gcs_uri : String → String → String
unfolding removeprefix rstrip_slash
gcs_uri bucket run_id =
    "gs://" <> rstrip_slash (removeprefix "gs://" bucket) <> "/runs/" <> run_id <> "/"

abbrev pub id_of : {Cfg F S : Type 0} → OpenRun Cfg F S → Option String
id_of none = none
id_of (some (_, run_id)) = some run_id

module _ {D E B C F R S : Type 0} (t : Trainer D E B C F R S) where
  -- The estimator, fitted, and the validation split
  unfoldable pub fit_estimator : TrainConfig D C → Exec S (E × Rows F R)
  fit_estimator cfg = do
    t.set_all cfg.seed cfg.backend_kind
    train ← t.preprocess cfg.data_ref "train"
    val ← t.preprocess cfg.data_ref "val"
    est ← lift (t.build_estimator cfg.backend)
    fitted ← t.fit est train val
    pure (fitted, val)

module _ {D E B C F R T S : Type 0} (t : Trainer D E B C F R S) where
  -- `with run_ctx`
  abbrev pub with_run :
      {A : Type 0}
      → OpenRun (TrainConfig D C) F S
      → Exec (Site E B C F R T S) A
      → Exec (Site E B C F R T S) A
  with_run none body w = body w
  with_run (some (m, _)) body w =
      let (answer, w') = body w in (answer, on_outside (m.end_run (is_raised answer)) w')

  abbrev pub log_run :
      OpenRun (TrainConfig D C) F S → TrainConfig D C → F → Exec (Site E B C F R T S) (Unit {0})
  log_run none cfg val_mae = pure tt
  log_run (some (m, _)) cfg val_mae = do
    outer (m.log_params cfg)
    outer (m.log_config cfg)
    outer (m.log_metric "val_mae" val_mae)

  module _ (h : Hooks D E C F R T S) (cfg : TrainConfig D C) where
    -- The body of the `with`, and the result
    unfoldable pub within_run :
        E
        → List R
        → Option (AciRegressor F (List R))
        → F
        → OpenRun (TrainConfig D C) F S
        → Exec (Site E B C F R T S) (TrainResult E F R)
    unfolding publish_to_state persist_and_emit_artifacts
    within_run est rows aci val_mae opened = do
      log_run opened cfg val_mae
      handle ← publish_to_state t est cfg.backend_kind rows aci
      dir ← persist_and_emit_artifacts t h handle cfg (id_of opened) val_mae opened
      pure (record {
        run_id = id_of opened;
        backend_kind = cfg.backend_kind;
        val_mae = val_mae;
        model_path = dir <> "/model";
        estimator = est;
        background = handle.background;
        aci = aci;
        run_dir = dir;
      })

    -- `_run_training` from the calibration on
    unfoldable pub after_fit : E × Rows F R → Exec (Site E B C F R T S) (TrainResult E F R)
    unfolding calibrate_aci start_mlflow_run mae within_run
    after_fit (est, (rows, y)) =
        let (aci, metric_rows, metric_y) = calibrate_aci t est rows y in
        let val_mae = mae t (t.backends.predict est metric_rows) metric_y in
        start_mlflow_run t >>= λ opened. with_run opened (within_run est rows aci val_mae opened)

    -- `_run_training`
    unfoldable pub run_training : Exec (Site E B C F R T S) (TrainResult E F R)
    unfolding fit_estimator after_fit
    run_training = outer (fit_estimator t cfg) >>= after_fit

    -- The copy of the run's directory, if there is a bucket and an id
    abbrev pub mirror :
        Option String → TrainResult E F R → Exec (Site E B C F R T S) (TrainResult E F R)
    mirror bucket result =
        if truthy bucket && truthy result.run_id
        then (do
          outer (
              t.push_to_gcs result.run_dir (gcs_uri (text_or "" bucket) (text_or "" result.run_id)))
          pure result)
        else pure result

    -- `run`, with the value of REGISTRY_GCS_BUCKET
    unfoldable pub run : Option String → Exec (Site E B C F R T S) (TrainResult E F R)
    unfolding run_training gcs_uri
    run bucket = run_training >>= mirror bucket
