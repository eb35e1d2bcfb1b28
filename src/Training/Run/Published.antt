-- ===== src/Training/Run/Published.antt =====
-- What a training of deepCab/training/train.py that returns has published and saved.
use deep_cab.Prelude.{String, ◌<>◌, Option, none, some, List, ◌≡◌, ◌∙◌, ap, subst}
use deep_cab.Prelude.Exec.{Result, ok, raised, Exec, pure, continue, ◌>>=◌, ◌>>◌}
use deep_cab.Models.Conformal.{AciRegressor}
use deep_cab.Registry.Runs.{ModelHandle, Backends, rid_of, save_full_state}
use deep_cab.Training.Site.{Site, outer, set_model}
use deep_cab.Training.Trainer.{TrainConfig, TrainResult, Rows, Trainer, Hooks}
use deep_cab.Training.Stages.{
  OpenRun, calibrate_aci, mae, start_mlflow_run, publish_to_state, save_state, upload, run_hooks,
  persist_and_emit_artifacts,
}
use deep_cab.Training.Stages.Stores.{
  Spares, outer-Spares, pure-Spares, bind-Spares, upload-Spares, start_mlflow_run-Spares,
  run_hooks-Spares,
}
use deep_cab.Training.Run.{
  with_run, log_run, id_of, fit_estimator, within_run, after_fit, run_training,
}

-- The handle with the parts that a result names
abbrev pub handle_of : {E F R : Type 0} → TrainResult E F R → ModelHandle E F (List R)
handle_of r = record {
  estimator = r.estimator;
  backend_kind = r.backend_kind;
  background = r.background;
  aci = r.aci;
}

module _ {E B C F R T S : Type 0} (bk : Backends E B C F (List R)) where
  -- The model of the result is the one that is published, and it is the one that was saved last.
  abbrev pub IsPublished : TrainResult E F R → Site E B C F R T S → Site E B C F R T S → Type 0
  IsPublished r before after =
      (after.model ≡ some (handle_of r))
      × ((hex : String) × (after.disk ≡ save_full_state bk (handle_of r) r.run_id hex before.disk))

  -- So it is whenever the call returns.
  abbrev Publishes : Exec (Site E B C F R T S) (TrainResult E F R) → Type 0
  Publishes call =
      (w : Site E B C F R T S) (r : TrainResult E F R)
      → (call w).0 ≡ ok r
      → IsPublished r w (call w).1

  continue-IsPublished :
      {A : Type 0} (answer : Result A) (rest : A → Exec (Site E B C F R T S) (TrainResult E F R))
      (w v : Site E B C F R T S) (r : TrainResult E F R)
      → ((a : A) → Publishes (rest a))
      → v.disk ≡ w.disk
      → (continue answer rest v).0 ≡ ok r
      → IsPublished r w (continue answer rest v).1
  continue-IsPublished (raised e) rest w v r h disk k = absurd (cc k)
  continue-IsPublished (ok a) rest w v r h disk k =
      let (model, (hex, saved)) = h a v r k in
      (model, (hex, saved ∙ ap (λ d. save_full_state bk (handle_of r) r.run_id hex d) disk))

  bind-Publishes :
      {A : Type 0} (first : Exec (Site E B C F R T S) A)
      (rest : A → Exec (Site E B C F R T S) (TrainResult E F R))
      → Spares first
      → ((a : A) → Publishes (rest a))
      → Publishes (first >>= rest)
  bind-Publishes first rest h k w r e =
      continue-IsPublished (first w).0 rest w (first w).1 r k (h w).1 e

  -- A value of what a call gives
  returned-value :
      {A B' : Type 0} (g : A → B') (answer : Result A) (w : Site E B C F R T S) (b : B')
      → (continue answer (λ a. pure (g a)) w).0 ≡ ok b
      → (a : A) × (g a ≡ b)
  returned-value g (ok a) w b h = (a, cc h)
  returned-value g (raised e) w b h = absurd (cc h)

module _ {D E B C F R T S : Type 0} (t : Trainer D E B C F R S) where
  with_run-Publishes :
      (opened : OpenRun (TrainConfig D C) F S)
      (call : Exec (Site E B C F R T S) (TrainResult E F R))
      → Publishes t.backends call
      → Publishes t.backends (with_run t opened call)
  with_run-Publishes none call h w r e = h w r e
  with_run-Publishes (some _) call h w r e = h w r e

  log_run-Spares :
      (opened : OpenRun (TrainConfig D C) F S) (cfg : TrainConfig D C) (val_mae : F)
      → Spares (log_run {T = T} t opened cfg val_mae)
  log_run-Spares none cfg val_mae = pure-Spares tt
  log_run-Spares (some (m, _)) cfg val_mae =
      let config = outer (m.log_config cfg) in
      let metric = outer (m.log_metric "val_mae" val_mae) in
      bind-Spares (outer (m.log_params cfg)) (λ _. config >> metric)
        (outer-Spares (m.log_params cfg))
        (λ _.
          bind-Spares config (λ _. metric) (outer-Spares (m.log_config cfg))
            (λ _. outer-Spares (m.log_metric "val_mae" val_mae)))

  module _ (h : Hooks D E C F R T S) (cfg : TrainConfig D C) where
    -- What follows on the saving of the run
    abbrev emit_rest :
        ModelHandle E F (List R)
        → F
        → OpenRun (TrainConfig D C) F S
        → String
        → Exec (Site E B C F R T S) String
    emit_rest handle val_mae opened dir = do
      upload t opened dir
      provenance ← outer (t.emit_provenance cfg (id_of opened) val_mae)
      run_hooks t h handle cfg (id_of opened) val_mae opened provenance dir
      pure dir

    emit_rest-Spares :
        (handle : ModelHandle E F (List R)) (val_mae : F) (opened : OpenRun (TrainConfig D C) F S)
        (dir : String)
        → Spares (emit_rest handle val_mae opened dir)
    emit_rest-Spares handle val_mae opened dir =
        let emit = t.emit_provenance cfg (id_of opened) val_mae in
        let hooks = λ (provenance : String).
          run_hooks t h handle cfg (id_of opened) val_mae opened provenance dir in
        let last = λ (provenance : String). hooks provenance >> pure dir in
        bind-Spares (upload t opened dir) (λ _. outer emit >>= last) (upload-Spares t opened dir)
          (λ _. bind-Spares (outer emit) last (outer-Spares emit) (λ provenance.
            bind-Spares (hooks provenance) (λ _. pure dir)
              (run_hooks-Spares t h handle cfg (id_of opened) val_mae opened provenance dir)
              (λ _. pure-Spares dir)))

    -- The result of a training, once its run is saved
    abbrev result_of :
        ModelHandle E F (List R) → F → OpenRun (TrainConfig D C) F S → String → TrainResult E F R
    result_of handle val_mae opened dir = record {
      run_id = id_of opened;
      backend_kind = handle.backend_kind;
      val_mae = val_mae;
      model_path = dir <> "/model";
      estimator = handle.estimator;
      background = handle.background;
      aci = handle.aci;
      run_dir = dir;
    }

    save-IsPublished :
        (handle : ModelHandle E F (List R)) (val_mae : F) (opened : OpenRun (TrainConfig D C) F S)
        (w : Site E B C F R T S) (r : TrainResult E F R)
        → let saved =
            persist_and_emit_artifacts t h handle cfg (id_of opened) val_mae opened >>= λ dir.
            pure (result_of handle val_mae opened dir) in
          (saved (record w { model = some handle })).0 ≡ ok r
          → IsPublished t.backends r w (saved (record w { model = some handle })).1
    unfolding persist_and_emit_artifacts save_state
    save-IsPublished handle val_mae opened w r e =
        let hex = t.hex w.outside in
        let dir = t.runs_root <> "/" <> rid_of t.backends (id_of opened) hex in
        let rest = emit_rest handle val_mae opened dir in
        let result = result_of handle val_mae opened in
        let v = record w {
          model = some handle;
          disk = save_full_state t.backends handle (id_of opened) hex w.disk;
        } in
        let (_, same) = returned-value t.backends result (rest v).0 (rest v).1 r e in
        let (model, disk) =
          bind-Spares rest (λ d. pure (result d)) (emit_rest-Spares handle val_mae opened dir)
            (λ d. pure-Spares (result d)) v in
        subst
          (λ (r' : TrainResult E F R).
            IsPublished t.backends r' w ((rest >>= λ d. pure (result d)) v).1)
          same (model, (hex, disk))

    within_run-Publishes :
        (est : E) (rows : List R) (aci : Option (AciRegressor F (List R))) (val_mae : F)
        (opened : OpenRun (TrainConfig D C) F S)
        → Publishes t.backends (within_run t h cfg est rows aci val_mae opened)
    unfolding within_run publish_to_state set_model persist_and_emit_artifacts save_state
    within_run-Publishes est rows aci val_mae opened =
        let publish = publish_to_state t est cfg.backend_kind rows aci in
        let saved = λ (handle : ModelHandle E F (List R)).
          persist_and_emit_artifacts t h handle cfg (id_of opened) val_mae opened >>= λ dir.
          pure (result_of handle val_mae opened dir) in
        bind-Publishes t.backends (log_run t opened cfg val_mae) (λ _. publish >>= saved)
          (log_run-Spares opened cfg val_mae) (λ _ w r e. save-IsPublished _ val_mae opened w r e)

    after_fit-Publishes : (fitted : E × Rows F R) → Publishes t.backends (after_fit t h cfg fitted)
    unfolding after_fit
    after_fit-Publishes (est, (rows, y)) =
        let cut = calibrate_aci t est rows y in
        let val_mae = mae t (t.backends.predict est cut.1) cut.2 in
        let within = λ (opened : OpenRun (TrainConfig D C) F S).
          within_run t h cfg est rows cut.0 val_mae opened in
        bind-Publishes t.backends (start_mlflow_run t) (λ opened. with_run t opened (within opened))
          (start_mlflow_run-Spares t)
          (λ opened.
            with_run-Publishes opened (within opened)
              (within_run-Publishes est rows cut.0 val_mae opened))

    -- When a training returns, the published model is the one of its result, and so is the run that it
    -- saved last.
    pub run_training-Publishes :
        (w : Site E B C F R T S) (r : TrainResult E F R)
        → (run_training t h cfg w).0 ≡ ok r
        → IsPublished t.backends r w (run_training t h cfg w).1
    unfolding run_training
    run_training-Publishes =
        bind-Publishes t.backends (outer (fit_estimator t cfg)) (after_fit t h cfg)
          (outer-Spares (fit_estimator t cfg)) after_fit-Publishes
