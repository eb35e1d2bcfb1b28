-- ===== src/Training/Stages/Stores.antt =====
-- Which parts of deepCab/training/train.py leave the published model and the saved runs alone.
use deep_cab.Prelude.{
  String, ◌<>◌, Option, none, some, List, Bool, true, false, if◌then◌else◌, ◌≡◌, refl, ◌∙◌,
}
use deep_cab.Prelude.Exec.{Result, ok, raised, Exec, pure, continue, ◌>>=◌, ◌>>◌}
use deep_cab.Schemas.Settings.{truthy, text_or, or_else}
use deep_cab.Registry.Runs.{ModelHandle}
use deep_cab.Training.Site.{Site, outer, caught}
use deep_cab.Training.Trainer.{TrainConfig, Mlflow, Trainer, Hooks}
use deep_cab.Training.Stages.{
  OpenRun, set_experiment_if, start_with, start_mlflow_run, upload, emit_model_card, upload_card,
  emit_lineage, export_and_register_onnx, activate_runtime, first_row, run_hooks,
}

module _ {E B C F R T S : Type 0} where
  -- The model and the disk after the call are those before it, also if it raises.
  abbrev pub Spares : {A : Type 0} → Exec (Site E B C F R T S) A → Type 0
  Spares {A} call =
      (w : Site E B C F R T S) → ((call w).1.model ≡ w.model) × ((call w).1.disk ≡ w.disk)

  pub outer-Spares : {A : Type 0} (call : Exec S A) → Spares (outer {T = T} call)
  outer-Spares call w = (refl, refl)

  pub pure-Spares : {A : Type 0} (a : A) → Spares (pure a)
  pure-Spares a w = (refl, refl)

  continue-Spares :
      {A B' : Type 0} (answer : Result A) (rest : A → Exec (Site E B C F R T S) B')
      → ((a : A) → Spares (rest a))
      → Spares (continue answer rest)
  continue-Spares (ok a) rest h w = h a w
  continue-Spares (raised e) rest h w = (refl, refl)

  pub bind-Spares :
      {A B' : Type 0} (first : Exec (Site E B C F R T S) A)
      (rest : A → Exec (Site E B C F R T S) B')
      → Spares first
      → ((a : A) → Spares (rest a))
      → Spares (first >>= rest)
  bind-Spares first rest h k w =
      let (model, disk) = continue-Spares (first w).0 rest k (first w).1 in
      (model ∙ (h w).0, disk ∙ (h w).1)

  pub if-Spares :
      {A : Type 0} (test : Bool) (one other : Exec (Site E B C F R T S) A)
      → Spares one
      → Spares other
      → Spares (if test then one else other)
  if-Spares true one other h k = h
  if-Spares false one other h k = k

  pub caught-Spares :
      (body : Exec (Site E B C F R T S) (Unit {0})) → Spares body → Spares (caught body)
  caught-Spares body h w = h w

module _ {D E B C F R T S : Type 0} (t : Trainer D E B C F R S) where
  pub upload-Spares :
      (opened : OpenRun (TrainConfig D C) F S) (dir : String) → Spares (upload {T = T} t opened dir)
  upload-Spares none dir = pure-Spares tt
  upload-Spares (some (m, _)) dir = outer-Spares (m.log_artifacts dir "model")

  set_experiment-Spares :
      (m : Mlflow (TrainConfig D C) F S) → Spares (set_experiment_if {T = T} t m)
  set_experiment-Spares m =
      let name = text_or "" t.settings.experiment in
      if-Spares (truthy t.settings.experiment) (outer (m.set_experiment name)) (pure tt)
        (outer-Spares (m.set_experiment name)) (pure-Spares tt)

  start_with-Spares :
      (found : Option (Mlflow (TrainConfig D C) F S)) → Spares (start_with {T = T} t found)
  start_with-Spares none = pure-Spares {A = OpenRun (TrainConfig D C) F S} none
  start_with-Spares (some m) =
      let set_uri = m.set_tracking_uri (text_or "" t.settings.tracking_uri) in
      let opened : String → Exec (Site E B C F R T S) (OpenRun (TrainConfig D C) F S) =
        λ run_id. pure (some (m, run_id)) in
      let started = outer m.start_run >>= opened in
      let prepared = set_experiment_if t m >> started in
      if-Spares (truthy t.settings.tracking_uri) (outer set_uri >> prepared) (pure none)
        (bind-Spares (outer set_uri) (λ _. prepared) (outer-Spares set_uri)
          (λ _.
            bind-Spares (set_experiment_if t m) (λ _. started) (set_experiment-Spares m)
              (λ _.
                bind-Spares (outer m.start_run) opened (outer-Spares m.start_run)
                  (λ run_id. pure-Spares {A = OpenRun (TrainConfig D C) F S} (some (m, run_id))))))
        (pure-Spares {A = OpenRun (TrainConfig D C) F S} none)

  pub start_mlflow_run-Spares : Spares (start_mlflow_run {T = T} t)
  unfolding start_mlflow_run
  start_mlflow_run-Spares = start_with-Spares t.mlflow

  module _ (h : Hooks D E C F R T S) where
    upload_card-Spares :
        (opened : OpenRun (TrainConfig D C) F S) (path : String)
        → Spares (upload_card t h opened path)
    upload_card-Spares none path = pure-Spares tt
    upload_card-Spares (some (m, _)) path = outer-Spares (m.log_artifact path "cards")

    activate_runtime-Spares :
        (key : String) (runtime : T) → Spares (activate_runtime t h key runtime)
    activate_runtime-Spares key runtime w = (refl, refl)

    emit_model_card-Spares :
        (cfg : TrainConfig D C) (val_mae : F) (provenance : String)
        (opened : OpenRun (TrainConfig D C) F S)
        → Spares (emit_model_card t h cfg val_mae provenance opened)
    unfolding emit_model_card
    emit_model_card-Spares cfg val_mae provenance opened =
        let card = h.parent provenance <> "/MODEL_CARD.md" in
        let name = text_or "" (or_else t.settings.model_name (some "deepcab")) in
        let write = h.write_card cfg name val_mae provenance card in
        bind-Spares (outer write) (λ _. upload_card t h opened card) (outer-Spares write)
          (λ _. upload_card-Spares opened card)

    emit_lineage-Spares :
        (cfg : TrainConfig D C) (run_id : Option String) → Spares (emit_lineage t h cfg run_id)
    unfolding emit_lineage
    emit_lineage-Spares cfg run_id w = (refl, refl)

    export_and_register_onnx-Spares :
        (est : E) (cfg : TrainConfig D C) (sample : List R) (dir : String)
        → Spares (export_and_register_onnx t h est cfg sample dir)
    unfolding export_and_register_onnx
    export_and_register_onnx-Spares est cfg sample dir =
        let path = dir <> "/" <> cfg.backend_kind <> ".onnx" in
        let export = h.export_to_onnx est sample path in
        let load = h.from_path path cfg.backend_kind in
        let switch = activate_runtime t h cfg.backend_kind in
        bind-Spares (outer export) (λ _. outer load >>= switch) (outer-Spares export)
          (λ _.
            bind-Spares (outer load) switch (outer-Spares load)
              (activate_runtime-Spares cfg.backend_kind))

    -- The hooks leave the model and the disk alone, whatever becomes of their bodies.
    pub run_hooks-Spares :
        (handle : ModelHandle E F (List R)) (cfg : TrainConfig D C) (run_id : Option String)
        (val_mae : F) (opened : OpenRun (TrainConfig D C) F S) (provenance dir : String)
        → Spares (run_hooks t h handle cfg run_id val_mae opened provenance dir)
    unfolding run_hooks
    run_hooks-Spares handle cfg run_id val_mae opened provenance dir =
        let sample = first_row t h handle.background in
        let last = export_and_register_onnx t h handle.estimator cfg sample dir in
        bind-Spares (emit_model_card t h cfg val_mae provenance opened)
          (λ _. emit_lineage t h cfg run_id >> last)
          (emit_model_card-Spares cfg val_mae provenance opened)
          (λ _.
            bind-Spares (emit_lineage t h cfg run_id) (λ _. last) (emit_lineage-Spares cfg run_id)
              (λ _. export_and_register_onnx-Spares handle.estimator cfg sample dir))

    -- They return, too.
    pub run_hooks_returns :
        (handle : ModelHandle E F (List R)) (cfg : TrainConfig D C) (run_id : Option String)
        (val_mae : F) (opened : OpenRun (TrainConfig D C) F S) (provenance dir : String)
        (w : Site E B C F R T S)
        → (run_hooks t h handle cfg run_id val_mae opened provenance dir w).0 ≡ ok tt
    unfolding run_hooks emit_model_card emit_lineage export_and_register_onnx
    run_hooks_returns handle cfg run_id val_mae opened provenance dir w = refl
