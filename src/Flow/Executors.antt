-- ===== src/Flow/Executors.antt =====
-- The flow of deepCab/flow_v2/simulate.py on its own parts: `LocalTrainExecutor` calls the training session in
-- the process, and the evaluation of a chunk is of the model that the process has loaded. The settings
-- are read from the environment, so the trainer depends on it.
pub mod Loaded
use deep_cab.Prelude.{ℕ, String, false, Option, none, some, List, [], ◌∷◌}
use deep_cab.Prelude.Dict.{Dict}
use deep_cab.Prelude.Exec.{Result, ok, raised, Exec, pure, lift, gets, ◌>>=◌}
use deep_cab.Registry.Runs.{ModelHandle}
use deep_cab.Training.Evaluate.{EvalResult, evaluate}
use deep_cab.Training.Site.{Site, outer}
use deep_cab.Training.Trainer.{TrainConfig, Trainer, Hooks}
use deep_cab.Training.Run as Running
use deep_cab.Flow.Overlay.{Process, env_overlay}
use deep_cab.Prelude.Floats.{FloatOps}
use deep_cab.Flow.Retrain.{Trained}
use deep_cab.Flow.Vm.{Remote, VmTrainExecutor, BigQueryTable, vm_train}
use deep_cab.Flow.Simulate.{Scene, Flow}

-- What the flow is given: the session's collaborators under an environment, and the reference data
pub record Bench (D E B C F R T S : Type 0) : Type 0 where
  pub trainer : Dict String → Trainer D E B C F R S
  pub hooks : Hooks D E C F R T S
  pub cfg : TrainConfig D C
  pub bucket : Option String
  pub reference_data : D

module _ {D E B C F R T S : Type 0} (b : Bench D E B C F R T S) where
  -- A call on the shared state, under the environment of the process
  abbrev pub in_process :
      {A : Type 0}
      → (Dict String → Exec (Site E B C F R T S) A)
      → Exec (Process (Scene (Site E B C F R T S))) A
  in_process call p =
      let (answer, w) = call p.env p.rest.outside in
      (answer, record p { rest = record p.rest { outside = w } })

  -- `LocalTrainExecutor.__call__`, which gives the run id of its result
  unfoldable pub local_train :
      String → String → Exec (Process (Scene (Site E B C F R T S))) (Option String)
  unfolding env_overlay
  local_train run_name clause = env_overlay (("MLFLOW_RUN_NAME", some run_name) ∷ []) false (
      in_process (λ env. Running.run (b.trainer env) b.hooks b.cfg b.bucket) >>= λ r. pure r.run_id)

  abbrev pub loaded_for : Option (ModelHandle E F (List R)) → Result (ModelHandle E F (List R))
  loaded_for none =
      raised "RuntimeError: simulate: expected STATE.model populated by train_chunk_task"
  loaded_for (some handle) = ok handle

  -- What is left of the evaluation once the model is there
  abbrev pub evaluate_handle :
      Trainer D E B C F R S → ModelHandle E F (List R) → Exec (Site E B C F R T S) (EvalResult F)
  evaluate_handle t handle = outer (t.preprocess b.reference_data "val") >>= λ rows.
      pure (evaluate t.floats (t.backends.predict handle.estimator) rows)

  -- `evaluate_chunk_task`
  unfoldable pub evaluate_chunk : Exec (Process (Scene (Site E B C F R T S))) (EvalResult F)
  unfolding evaluate
  evaluate_chunk =
      in_process (λ env w. ((λ v. (loaded_for v.model, v)) >>= evaluate_handle (b.trainer env)) w)

  -- The flow with these two
  unfoldable pub local_flow : Flow F (Site E B C F R T S) → Flow F (Site E B C F R T S)
  unfolding local_train evaluate_chunk
  local_flow fl = record fl { train = local_train; evaluate = evaluate_chunk }
