-- ===== src/Tests/Benches.antt =====
-- A chunk of the simulate flow, with the session of the process.
use deep_cab.Prelude.{ℕ, false, none, some, [], ◌∷◌, ◌≡◌, refl}
use deep_cab.Prelude.Dict.{lookup, insert, erase}
use deep_cab.Prelude.Exec.{ok, raised}
use deep_cab.Prelude.Floats.{fixed}
use deep_cab.Schemas.Enums.{xgb}
use deep_cab.Training.Evaluate.{sum_errors, evaluate}
use deep_cab.Training.Site.{Site, set_model}
use deep_cab.Training.Trainer.{TrainResult}
use deep_cab.Training.Stages.{
  calibrate_aci, mae, start_mlflow_run, publish_to_state, save_state, run_hooks,
  persist_and_emit_artifacts, emit_model_card, emit_lineage, export_and_register_onnx,
}
use deep_cab.Training.Run.{fit_estimator, within_run, after_fit, run_training}
use deep_cab.Training.Run as Running
use deep_cab.Flow.Overlay.{Process, set_variable, set_all, previous, env_overlay}
use deep_cab.Flow.Simulate.{Scene, Flow, train_chunk}
use deep_cab.Flow.Executors.{Bench, local_train, local_flow}
use deep_cab.Flow.Executors.Loaded.{local_flow-evaluates}
use deep_cab.Tests.Trainings.{trainer, hooks, cfg, site}

abbrev World : Type 0
World = Site ℕ ℕ ℕ ℕ ℕ ℕ ℕ

abbrev bench : Bench ℕ ℕ ℕ ℕ ℕ ℕ ℕ ℕ
bench = record {
  trainer = λ env. trainer;
  hooks = hooks;
  cfg = cfg;
  bucket = none;
  reference_data = 2;
}

abbrev flow : Flow ℕ World
flow = record {
  floats = fixed;
  obs = record { slack_webhook_url = none; telegram_bot_token = none; telegram_chat_id = none };
  backend = xgb;
  train = λ run_name clause p. (raised "unset", p);
  cost_per_call = 0;
  evaluate = λ p. (raised "unset", p);
  promote = λ id threshold p. (raised "unset", p);
  isoformat = λ n. "t";
  show_ℕ = λ n. "n";
  show_padded = λ n. "000";
  show_metric = λ x. "x";
}

abbrev process : Process (Scene World)
process = record {
  env = ("HOME", "/home/ada") ∷ [];
  cached = false;
  rest = record { outbox = []; outside = site };
}

trained_lem : (train_chunk (local_flow bench flow) "sim-000-xgb" "c" process).0 ≡ ok (some "r7")
unfolding train_chunk local_flow local_train env_overlay set_all set_variable previous Running.run
    run_training fit_estimator after_fit calibrate_aci start_mlflow_run mae within_run
    publish_to_state persist_and_emit_artifacts save_state run_hooks emit_model_card emit_lineage
    export_and_register_onnx set_model sum_errors lookup insert erase
trained_lem = refl

local_flow-evaluates_example :
    let (answer, q) = train_chunk (local_flow bench flow) "sim-000-xgb" "c" process in
    (r : TrainResult ℕ ℕ ℕ) × ((Running.run trainer hooks cfg none site).0 ≡ ok r)
    × (r.run_id ≡ some "r7")
    × (((local_flow bench flow).evaluate q).0
        ≡ ok (evaluate fixed (trainer.backends.predict r.estimator) (5 ∷ 6 ∷ [], 4 ∷ 4 ∷ [])))
local_flow-evaluates_example =
    local_flow-evaluates bench flow "sim-000-xgb" "c" (some "r7") (5 ∷ 6 ∷ [], 4 ∷ 4 ∷ []) process
      trained_lem refl
