-- ===== src/Flow/Executors/Loaded.antt =====
-- Which model a chunk of deepCab/flow_v2/simulate.py is judged by.
use deep_cab.Prelude.{String, false, Option, some, [], ◌∷◌, ◌≡◌, refl, ◌∙◌, ap, arith, inl, inr}
use deep_cab.Prelude.Dict.{Dict}
use deep_cab.Prelude.Exec.{Result, ok, raised, pure, continue, ok-injective, Result-cases}
use deep_cab.Training.Run.Session.{run-model}
use deep_cab.Training.Evaluate.{evaluate}
use deep_cab.Training.Site.{Site}
use deep_cab.Training.Trainer.{TrainResult, Rows}
use deep_cab.Training.Run as Running
use deep_cab.Training.Run.Published.{handle_of}
use deep_cab.Flow.Overlay.{Process, set_all, env_overlay}
use deep_cab.Flow.Simulate.{Scene, Flow, train_chunk}
use deep_cab.Flow.Executors.{
  Bench, local_train, loaded_for, evaluate_handle, evaluate_chunk, local_flow,
}

-- A value of what a call gives changes nothing.
continue_state :
    {P A B : Type 0} (g : A → B) (answer : Result A) (p : P)
    → (continue answer (λ a. pure (g a)) p).1 ≡ p
continue_state g (ok a) p = refl
continue_state g (raised e) p = refl

module _ {D E B C F R T S : Type 0} (b : Bench D E B C F R T S) where
  evaluate_loaded :
      (r : TrainResult E F R) (rows : Rows F R) (p : Process (Scene (Site E B C F R T S)))
      → p.rest.outside.model ≡ some (handle_of r)
      → ((b.trainer p.env).preprocess b.reference_data "val" p.rest.outside.outside).0 ≡ ok rows
      → (evaluate_chunk b p).0
        ≡ ok (
            evaluate (b.trainer p.env).floats ((b.trainer p.env).backends.predict r.estimator) rows)
  unfolding evaluate_chunk
  evaluate_loaded r rows p loaded read =
      let t = b.trainer p.env in
      let w = p.rest.outside in
      let result = λ (given : Rows F R). evaluate t.floats (t.backends.predict r.estimator) given in
      let after = record w { outside = (t.preprocess b.reference_data "val" w.outside).1 } in
      ap (λ m. (continue (loaded_for b m) (evaluate_handle b t) w).0) loaded
      ∙ ap (λ given. (continue given (λ x. pure (result x)) after).0) read

  -- The environment in which a chunk is trained.
  abbrev pub chunk_env : String → String → Dict String → Dict String
  chunk_env run_name clause env =
      set_all (("MLFLOW_RUN_NAME", some run_name) ∷ [])
        (set_all (("DATA_SOURCE", some "query") ∷ ("DATA_BQ_WHERE", some clause) ∷ []) env)

  -- In the flow with the local executor, if the training of a chunk gives a run id, the training session
  -- has returned a result with that id, run on the state from before the chunk and under the chunk's
  -- environment, and the evaluation that follows is of the estimator of that result: so for rows of
  -- the reference data that can be read after the training.
  pub local_flow-evaluates :
      (fl : Flow F (Site E B C F R T S)) (run_name clause : String) (id : Option String)
      (rows : Rows F R) (p : Process (Scene (Site E B C F R T S)))
      → let (answer, q) = train_chunk (local_flow b fl) run_name clause p in
        answer ≡ ok id
        → ((b.trainer q.env).preprocess b.reference_data "val" q.rest.outside.outside).0 ≡ ok rows
        → (r : TrainResult E F R) × ((Running.run
              (b.trainer (chunk_env run_name clause p.env))
              b.hooks
              b.cfg
              b.bucket
              p.rest.outside).0
            ≡ ok r)
          × (r.run_id ≡ id)
          × (((local_flow b fl).evaluate q).0
              ≡ ok (
                  evaluate
                    (b.trainer q.env).floats
                    ((b.trainer q.env).backends.predict r.estimator)
                    rows))
  unfolding local_flow local_train train_chunk env_overlay
  local_flow-evaluates fl run_name clause id rows p returned read =
      let env = chunk_env run_name clause p.env in
      let w = p.rest.outside in
      let outcome = Running.run (b.trainer env) b.hooks b.cfg b.bucket w in
      let left : Process (Scene (Site E B C F R T S)) = record {
        env = env;
        cached = false;
        rest = record p.rest { outside = outcome.1 };
      } in
      let q = (train_chunk (local_flow b fl) run_name clause p).1 in
      elim (Result-cases outcome.0) [
        | inr (_, failed) ↦ absurd (ground (arith, failed, returned))
        | inl (r, fine) ↦ (
          r,
          fine,
          ok-injective r.run_id id (ground (arith, fine, returned)),
          evaluate_loaded r rows q
              (ap (λ (v : Process (Scene (Site E B C F R T S))). v.rest.outside.model)
                  (continue_state (λ (x : TrainResult E F R). x.run_id) outcome.0 left)
                ∙ run-model (b.trainer env) b.hooks b.cfg b.bucket w r fine)
              read,
        )
      ]
