-- ===== src/Training/Stages.antt =====
-- The stages of a training session of deepCab/training/train.py, on the collaborators of
-- deep_cab.Training.Trainer.
pub mod Calibration
pub mod Stores
use deep_cab.Prelude.{
  ℕ, ◌-◌, String, ◌<>◌, Bool, true, false, Option, none, some, List, [], ◌∷◌, min, ltb, length,
  take, drop, if◌then◌else◌, ◌&&◌,
}
use deep_cab.Prelude.Exec.{Result, ok, raised, Exec, pure, gets, lift, ◌>>=◌, ◌>>◌}
use deep_cab.Schemas.Settings.{truthy, text_or, or_else}
use deep_cab.Training.Evaluate.{sum_errors}
use deep_cab.Models.Conformal.{AciRegressor, from_fitted}
use deep_cab.Registry.Runs.{ModelHandle, rid_of, save_full_state}
use deep_cab.Serving.Runtime.{register, activate}
use deep_cab.Training.Site.{Site, outer, caught, on_outside, set_model}
use deep_cab.Training.Trainer.{
  TrainConfig, TrainResult, LineageEdge, of_data, of_pipeline, of_split, Rows, Mlflow, Trainer,
  Hooks,
}

-- An MLflow run that is open, if there is one, and its id
abbrev pub OpenRun : Type 0 → Type 0 → Type 0 → Type 0
OpenRun Cfg F S = Option (Mlflow Cfg F S × String)

module _ {D E B C F R S : Type 0} (t : Trainer D E B C F R S) where
  -- `_calibrate_aci`: the wrapper, and what is left of the rows and of the targets
  unfoldable pub calibrate_aci :
      E → List R → List F → Option (AciRegressor F (List R)) × List R × List F
  unfolding from_fitted
  calibrate_aci est rows y =
      let n = t.truncate (t.floats.mul (t.floats.of_ℕ (length y)) (t.floats.decimal 3 1)) in
      if ltb n 30 then (none, rows, y) else (
        some (
            from_fitted t.floats (t.backends.predict est) (drop (length rows - n) rows)
              (drop (length y - n) y) (t.floats.decimal 1 1) (t.floats.decimal 5 3)),
        take (length rows - n) rows,
        take (length y - n) y,
      )

  -- `_mae`
  unfoldable pub mae : List F → List F → F
  mae pred y = t.floats.div (sum_errors t.floats t.floats.abs pred y) (t.floats.of_ℕ (length y))

module _ {D E B C F R T S : Type 0} (t : Trainer D E B C F R S) where
  -- `if settings.experiment: mlflow.set_experiment(...)`
  abbrev pub set_experiment_if : Mlflow (TrainConfig D C) F S → Exec (Site E B C F R T S) (Unit {0})
  set_experiment_if m =
      if truthy t.settings.experiment
      then outer (m.set_experiment (text_or "" t.settings.experiment))
      else pure tt

  abbrev pub start_with :
      Option (Mlflow (TrainConfig D C) F S)
      → Exec (Site E B C F R T S) (OpenRun (TrainConfig D C) F S)
  start_with none = pure none
  start_with (some m) =
      if truthy t.settings.tracking_uri
      then (do
        outer (m.set_tracking_uri (text_or "" t.settings.tracking_uri))
        set_experiment_if m
        run_id ← outer m.start_run
        pure (some (m, run_id)))
      else pure none

  -- `_start_mlflow_run`
  unfoldable pub start_mlflow_run : Exec (Site E B C F R T S) (OpenRun (TrainConfig D C) F S)
  start_mlflow_run = start_with t.mlflow

  -- `_publish_to_state`
  unfoldable pub publish_to_state :
      E
      → String
      → List R
      → Option (AciRegressor F (List R))
      → Exec (Site E B C F R T S) (ModelHandle E F (List R))
  unfolding set_model
  publish_to_state est kind rows aci = do
    let handle : ModelHandle E F (List R) = record {
      estimator = est;
      backend_kind = kind;
      background = some (take (min 200 (length rows)) rows);
      aci = aci;
    }
    set_model handle
    pure handle

  -- `save_full_state`, which gives the run's directory
  unfoldable pub save_state :
      ModelHandle E F (List R) → Option String → Exec (Site E B C F R T S) String
  unfolding save_full_state
  save_state handle run_id w =
      let hex = t.hex w.outside in
      (
        ok (t.runs_root <> "/" <> rid_of t.backends run_id hex),
        record w { disk = save_full_state t.backends handle run_id hex w.disk },
      )

  -- `mlflow_mod.log_artifacts(...)`, if there is MLflow
  abbrev pub upload : OpenRun (TrainConfig D C) F S → String → Exec (Site E B C F R T S) (Unit {0})
  upload none dir = pure tt
  upload (some (m, _)) dir = outer (m.log_artifacts dir "model")

  module _ (h : Hooks D E C F R T S) where
    abbrev pub upload_card :
        OpenRun (TrainConfig D C) F S → String → Exec (Site E B C F R T S) (Unit {0})
    upload_card none path = pure tt
    upload_card (some (m, _)) path = outer (m.log_artifact path "cards")

    -- `_emit_model_card`
    unfoldable pub emit_model_card :
        TrainConfig D C
        → F
        → String
        → OpenRun (TrainConfig D C) F S
        → Exec (Site E B C F R T S) (Unit {0})
    emit_model_card cfg val_mae provenance opened = caught (do
      let card = h.parent provenance <> "/MODEL_CARD.md"
      let name = text_or "" (or_else t.settings.model_name (some "deepcab"))
      outer (h.write_card cfg name val_mae provenance card)
      upload_card opened card)

    -- `_emit_lineage`
    unfoldable pub emit_lineage :
        TrainConfig D C → Option String → Exec (Site E B C F R T S) (Unit {0})
    emit_lineage cfg run_id = caught (
        outer (
          h.write_edge (record {
            input_hash = h.hash_obj (of_data cfg.data_ref);
            preprocessor_hash = h.hash_obj (of_pipeline "features.pipeline.preprocess_features:v1");
            split_hash = h.hash_obj (of_split "tail_30pct_for_aci" cfg.seed);
            run_id = run_id;
          })))

    abbrev pub activate_runtime : String → T → Exec (Site E B C F R T S) (Unit {0})
    activate_runtime key runtime w =
        let (answer, runtimes) = activate key (register key runtime w.runtimes) in
        (answer, record w { runtimes = runtimes })

    -- `_export_and_register_onnx`
    unfoldable pub export_and_register_onnx :
        E → TrainConfig D C → List R → String → Exec (Site E B C F R T S) (Unit {0})
    unfolding register activate
    export_and_register_onnx est cfg sample dir = caught (do
      let path = dir <> "/" <> cfg.backend_kind <> ".onnx"
      outer (h.export_to_onnx est sample path)
      runtime ← outer (h.from_path path cfg.backend_kind)
      activate_runtime cfg.backend_kind runtime)

    abbrev pub first_row : Option (List R) → List R
    first_row none = []
    first_row (some rows) = take 1 rows

    -- The hooks of `_persist_and_emit_artifacts`, in their order
    unfoldable pub run_hooks :
        ModelHandle E F (List R)
        → TrainConfig D C
        → Option String
        → F
        → OpenRun (TrainConfig D C) F S
        → String
        → String
        → Exec (Site E B C F R T S) (Unit {0})
    unfolding emit_model_card emit_lineage export_and_register_onnx
    run_hooks handle cfg run_id val_mae opened provenance dir = do
      emit_model_card cfg val_mae provenance opened
      emit_lineage cfg run_id
      export_and_register_onnx handle.estimator cfg (first_row handle.background) dir

    -- `_persist_and_emit_artifacts`
    unfoldable pub persist_and_emit_artifacts :
        ModelHandle E F (List R)
        → TrainConfig D C
        → Option String
        → F
        → OpenRun (TrainConfig D C) F S
        → Exec (Site E B C F R T S) String
    unfolding save_state run_hooks
    persist_and_emit_artifacts handle cfg run_id val_mae opened = do
      dir ← save_state handle run_id
      upload opened dir
      provenance ← outer (t.emit_provenance cfg run_id val_mae)
      run_hooks handle cfg run_id val_mae opened provenance dir
      pure dir
