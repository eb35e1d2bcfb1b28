-- ===== src/Training/Run/Hooked.antt =====
-- What the artifact hooks of deepCab/training/train.py cannot change.
use deep_cab.Prelude.{String, ◌<>◌, Option, none, some, List, ◌≡◌, refl, sym, ◌∙◌, ap}
use deep_cab.Prelude.Exec.{Result, ok, raised, Exec, pure, continue, ◌>>=◌, ◌>>◌}
use deep_cab.Models.Conformal.{AciRegressor}
use deep_cab.Registry.Runs.{ModelHandle}
use deep_cab.Training.Site.{Site, outer}
use deep_cab.Training.Trainer.{TrainConfig, TrainResult, Rows, Trainer, Hooks}
use deep_cab.Training.Stages.{
  OpenRun, calibrate_aci, mae, start_mlflow_run, publish_to_state, save_state, upload, run_hooks,
  persist_and_emit_artifacts,
}
use deep_cab.Training.Stages.Stores.{run_hooks-Spares, run_hooks_returns}
use deep_cab.Training.Run.{
  with_run, log_run, id_of, fit_estimator, within_run, after_fit, run_training,
}

module _ {E B C F R T S : Type 0} where
  -- Two outcomes with the same answer, model and disk
  abbrev pub AreAlike :
      {A : Type 0} → (Result A × Site E B C F R T S) → (Result A × Site E B C F R T S) → Type 0
  AreAlike (r, w) (r', w') = (r ≡ r') × (w.model ≡ w'.model) × (w.disk ≡ w'.disk)

  abbrev AlikeCalls :
      {A : Type 0} → Exec (Site E B C F R T S) A → Exec (Site E B C F R T S) A → Type 0
  AlikeCalls one other = (w : Site E B C F R T S) → AreAlike (one w) (other w)

  continue-AlikeCalls :
      {A B' : Type 0} (answer : Result A) (one other : A → Exec (Site E B C F R T S) B')
      → ((a : A) → AlikeCalls (one a) (other a))
      → AlikeCalls (continue answer one) (continue answer other)
  continue-AlikeCalls (ok a) one other h w = h a w
  continue-AlikeCalls (raised e) one other h w = (refl, refl, refl)

  -- The same call, and rests that are alike
  bind-AlikeCalls :
      {A B' : Type 0} (first : Exec (Site E B C F R T S) A)
      (one other : A → Exec (Site E B C F R T S) B')
      → ((a : A) → AlikeCalls (one a) (other a))
      → AlikeCalls (first >>= one) (first >>= other)
  bind-AlikeCalls first one other h w = continue-AlikeCalls (first w).0 one other h (first w).1

  continue-alike :
      {A B' : Type 0} (g : A → B') (r r' : Result A) (w w' : Site E B C F R T S)
      → AreAlike (r, w) (r', w')
      → AreAlike (continue r (λ a. pure (g a)) w) (continue r' (λ a. pure (g a)) w')
  continue-alike g (ok a) (ok a') w w' (e, model, disk) =
      (ap (λ r. (continue r (λ a. pure (g a)) w).0) e, model, disk)
  continue-alike g (ok a) (raised e') w w' (e, model, disk) = absurd (cc e)
  continue-alike g (raised e') (ok a) w w' (e, model, disk) = absurd (cc e)
  continue-alike g (raised e') (raised e'') w w' (e, model, disk) =
      (ap (λ r. (continue r (λ a. pure (g a)) w).0) e, model, disk)

  -- Calls that are alike, and a value of what they give
  map-AlikeCalls :
      {A B' : Type 0} (g : A → B') (one other : Exec (Site E B C F R T S) A)
      → AlikeCalls one other
      → AlikeCalls (one >>= λ a. pure (g a)) (other >>= λ a. pure (g a))
  map-AlikeCalls g one other h w =
      continue-alike g (one w).0 (other w).0 (one w).1 (other w).1 (h w)

module _ {D E B C F R T S : Type 0} (t : Trainer D E B C F R S) where
  with_run-AlikeCalls :
      {A : Type 0} (opened : OpenRun (TrainConfig D C) F S)
      (one other : Exec (Site E B C F R T S) A)
      → AlikeCalls one other
      → AlikeCalls (with_run t opened one) (with_run t opened other)
  with_run-AlikeCalls none one other h w = h w
  with_run-AlikeCalls (some _) one other h w = h w

  module _ (h k : Hooks D E C F R T S) where
    hooks-AlikeCalls :
        (handle : ModelHandle E F (List R)) (cfg : TrainConfig D C) (run_id : Option String)
        (val_mae : F) (opened : OpenRun (TrainConfig D C) F S) (provenance dir : String)
        → AlikeCalls
            (run_hooks t h handle cfg run_id val_mae opened provenance dir)
            (run_hooks t k handle cfg run_id val_mae opened provenance dir)
    hooks-AlikeCalls handle cfg run_id val_mae opened provenance dir w =
        let one = run_hooks-Spares t h handle cfg run_id val_mae opened provenance dir w in
        let other = run_hooks-Spares t k handle cfg run_id val_mae opened provenance dir w in
        (
          run_hooks_returns t h handle cfg run_id val_mae opened provenance dir w
              ∙ sym (run_hooks_returns t k handle cfg run_id val_mae opened provenance dir w),
          one.0 ∙ sym other.0,
          one.1 ∙ sym other.1,
        )

    persist-AlikeCalls :
        (handle : ModelHandle E F (List R)) (cfg : TrainConfig D C) (run_id : Option String)
        (val_mae : F) (opened : OpenRun (TrainConfig D C) F S)
        → AlikeCalls
            (persist_and_emit_artifacts t h handle cfg run_id val_mae opened)
            (persist_and_emit_artifacts t k handle cfg run_id val_mae opened)
    unfolding persist_and_emit_artifacts
    persist-AlikeCalls handle cfg run_id val_mae opened =
        let hooks = λ (hk : Hooks D E C F R T S) (provenance dir : String).
          run_hooks t hk handle cfg run_id val_mae opened provenance dir in
        let hooked = λ (hk : Hooks D E C F R T S) (dir provenance : String).
          hooks hk provenance dir >> pure dir in
        let emit = outer (t.emit_provenance cfg run_id val_mae) in
        bind-AlikeCalls (save_state t handle run_id)
          (λ dir. upload t opened dir >> (emit >>= hooked h dir))
          (λ dir. upload t opened dir >> (emit >>= hooked k dir))
          (λ dir.
            bind-AlikeCalls (upload t opened dir) (λ _. emit >>= hooked h dir)
              (λ _. emit >>= hooked k dir)
              (λ _. bind-AlikeCalls emit (hooked h dir) (hooked k dir) (λ provenance.
                map-AlikeCalls (λ _. dir) (hooks h provenance dir) (hooks k provenance dir)
                  (hooks-AlikeCalls handle cfg run_id val_mae opened provenance dir))))

    within_run-AlikeCalls :
        (cfg : TrainConfig D C) (est : E) (rows : List R) (aci : Option (AciRegressor F (List R)))
        (val_mae : F) (opened : OpenRun (TrainConfig D C) F S)
        → AlikeCalls
            (within_run t h cfg est rows aci val_mae opened)
            (within_run t k cfg est rows aci val_mae opened)
    unfolding within_run
    within_run-AlikeCalls cfg est rows aci val_mae opened =
        let persist = λ (hk : Hooks D E C F R T S) (handle : ModelHandle E F (List R)).
          persist_and_emit_artifacts t hk handle cfg (id_of opened) val_mae opened in
        let result : ModelHandle E F (List R) → String → TrainResult E F R = λ handle dir. record {
          run_id = id_of opened;
          backend_kind = cfg.backend_kind;
          val_mae = val_mae;
          model_path = dir <> "/model";
          estimator = est;
          background = handle.background;
          aci = aci;
          run_dir = dir;
        } in
        let saved = λ (hk : Hooks D E C F R T S) (handle : ModelHandle E F (List R)).
          persist hk handle >>= λ dir. pure (result handle dir) in
        let publish = publish_to_state t est cfg.backend_kind rows aci in
        bind-AlikeCalls (log_run t opened cfg val_mae) (λ _. publish >>= saved h)
          (λ _. publish >>= saved k)
          (λ _. bind-AlikeCalls publish (saved h) (saved k) (λ handle.
            map-AlikeCalls (result handle) (persist h handle) (persist k handle)
              (persist-AlikeCalls handle cfg (id_of opened) val_mae opened)))

    after_fit-AlikeCalls :
        (cfg : TrainConfig D C) (fitted : E × Rows F R)
        → AlikeCalls (after_fit t h cfg fitted) (after_fit t k cfg fitted)
    unfolding after_fit
    after_fit-AlikeCalls cfg (est, (rows, y)) =
        let cut = calibrate_aci t est rows y in
        let val_mae = mae t (t.backends.predict est cut.1) cut.2 in
        let within = λ (hk : Hooks D E C F R T S) (opened : OpenRun (TrainConfig D C) F S).
          within_run t hk cfg est rows cut.0 val_mae opened in
        bind-AlikeCalls (start_mlflow_run t) (λ opened. with_run t opened (within h opened))
          (λ opened. with_run t opened (within k opened))
          (λ opened.
            with_run-AlikeCalls opened (within h opened) (within k opened)
              (within_run-AlikeCalls cfg est rows cut.0 val_mae opened))

    -- Whatever the hooks of the model card, of the lineage edge and of the ONNX export do, even if they
    -- raise, a training gives the same result or the same exception, publishes the same model and saves
    -- the same run.
    pub run_training_hooks :
        (cfg : TrainConfig D C) (w : Site E B C F R T S)
        → AreAlike (run_training t h cfg w) (run_training t k cfg w)
    unfolding run_training
    run_training_hooks cfg =
        bind-AlikeCalls (outer (fit_estimator t cfg)) (after_fit t h cfg) (after_fit t k cfg)
          (after_fit-AlikeCalls cfg)
