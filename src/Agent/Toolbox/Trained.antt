-- ===== src/Agent/Toolbox/Trained.antt =====
-- The tools of deepCab/agent/tools.py that work on the model, before and after a training.
use deep_cab.Prelude.{ℕ, String, some, List, ◌≡◌, sym, subst, ◌∙◌, ap}
use deep_cab.Prelude.Dict.{lookup}
use deep_cab.Prelude.Exec.{ok, Exec, pure, lift, continue, ◌>>=◌}
use deep_cab.Agent.Json.{Json, Fields}
use deep_cab.Agent.Tools.{as_data, run_validated, dispatch}
use deep_cab.Agent.Toolbox.{
  Arguments, train_in, predict_in, Toolkit, loaded_or, needs_model, config_of, train_out, run_train,
  predict_out, run_predict,
}
use deep_cab.Agent.Toolbox.Table.{run_tool, checked, run_decoded, tool_named, toolbox}
use deep_cab.Registry.Runs.{ModelHandle}
use deep_cab.Training.Site.{Site}
use deep_cab.Training.Trainer.{TrainResult}
use deep_cab.Training.Run.{gcs_uri, run_training, mirror}
use deep_cab.Training.Run as Running
use deep_cab.Training.Run.Published.{handle_of}
use deep_cab.Training.Run.Session.{run-model}

module _ {D E B C F Q R T S : Type 0} (tk : Toolkit D E B C F Q R T S) where
  -- A call whose arguments decode runs the tool, and gives its errors as data.
  run_named :
      (name : String) (args : Json F) (input : Arguments D C Q) (w : Site E B C F R T S)
      → tk.decode name args ≡ ok input
      → run_validated (toolbox tk) (tool_named tk name).1 (checked tk args (tk.decode name args)) w
        ≡ (as_data (toolbox tk) (run_tool tk input w).0, (run_tool tk input w).1)
  run_named name args input w decoded =
      ap (λ r. run_validated (toolbox tk) (tool_named tk name).1 (checked tk args r) w) decoded
      ∙ ap (λ r. (as_data (toolbox tk) (run_decoded tk r w).0, (run_decoded tk r w).1)) decoded

  dispatch-train :
      (args : Json F) (input : Arguments D C Q) (w : Site E B C F R T S)
      → tk.decode "train" args ≡ ok input
      → dispatch (toolbox tk) "train" args w
        ≡ (as_data (toolbox tk) (run_tool tk input w).0, (run_tool tk input w).1)
  unfolding dispatch toolbox lookup
  dispatch-train args input w decoded = run_named "train" args input w decoded

  dispatch-predict :
      (args : Json F) (input : Arguments D C Q) (w : Site E B C F R T S)
      → tk.decode "predict" args ≡ ok input
      → dispatch (toolbox tk) "predict" args w
        ≡ (as_data (toolbox tk) (run_tool tk input w).0, (run_tool tk input w).1)
  unfolding dispatch toolbox lookup
  dispatch-predict args input w decoded = run_named "predict" args input w decoded

  -- What is left of a prediction once the model is there
  abbrev price : Q → ModelHandle E F (List R) → Exec (Site E B C F R T S) (Fields F)
  price row handle = lift (tk.predict_one handle.estimator row) >>= λ fare.
      pure (predict_out tk handle.backend_kind fare)

  run_predict_loaded :
      (row : Q) (fare : F) (handle : ModelHandle E F (List R)) (w : Site E B C F R T S)
      → w.model ≡ some handle
      → tk.predict_one handle.estimator row ≡ ok fare
      → run_predict tk row w ≡ (ok (predict_out tk handle.backend_kind fare), w)
  unfolding run_predict
  run_predict_loaded row fare handle w loaded priced =
      ap (λ m. continue (loaded_or tk (needs_model tk) m) (price row) w) loaded
      ∙ ap (λ r. continue r (λ x. pure (predict_out tk handle.backend_kind x)) w) priced

module _ {D E B C F Q R T S : Type 0} (tk : Toolkit D E B C F Q R T S) where
  -- After a call of the train tool whose session returned, a call of the predict tool answers with the
  -- estimator of that session and its kind, whatever was loaded before, and changes nothing. This is for
  -- arguments that decode, and a row that the estimator can price.
  pub dispatch-predict_trained :
      (train_args args : Json F) (kind : String) (backend : C) (d : D) (seed : ℕ) (row : Q)
      (fare : F) (w : Site E B C F R T S) (r : TrainResult E F R)
      → tk.decode "train" train_args ≡ ok (train_in kind backend d seed)
      → tk.decode "predict" args ≡ ok (predict_in row)
      → (Running.run tk.trainer tk.hooks (config_of tk kind backend d seed) tk.bucket w).0 ≡ ok r
      → tk.predict_one r.estimator row ≡ ok fare
      → let (trained, v) = dispatch (toolbox tk) "train" train_args w in
        (trained ≡ train_out tk r)
        × (dispatch (toolbox tk) "predict" args v ≡ (predict_out tk r.backend_kind fare, v))
  unfolding run_tool run_train
  dispatch-predict_trained train_args args kind backend d seed row fare w r decoded decoded'
        returned priced =
      let cfg = config_of tk kind backend d seed in
      let u = (Running.run tk.trainer tk.hooks cfg tk.bucket w).1 in
      let ran =
        dispatch-train tk train_args (train_in kind backend d seed) w decoded
        ∙ ap
            (λ answer.
              let o = continue answer (λ x. pure (train_out tk x)) u in
              (as_data (toolbox tk) o.0, o.1))
            returned in
      let loaded = run-model tk.trainer tk.hooks cfg tk.bucket w r returned in
      (
        ap (λ o. o.0) ran,
        subst
            (λ (v : Site E B C F R T S).
              dispatch (toolbox tk) "predict" args v ≡ (predict_out tk r.backend_kind fare, v))
            (sym (ap (λ o. o.1) ran))
            (dispatch-predict tk args (predict_in row) u decoded'
              ∙ ap (λ o. (as_data (toolbox tk) o.0, o.1))
                  (run_predict_loaded tk row fare (handle_of r) u loaded priced)),
      )
