-- ===== src/Tests/Toolboxes.antt =====
-- Calls of the agent's tools.
use deep_cab.Prelude.{ℕ, ◌+◌, String, false, none, [], ◌∷◌, ◌≡◌, refl, str_eq, if◌then◌else◌}
use deep_cab.Prelude.Exec.{Result, ok, raised}
use deep_cab.Agent.Json.{Json, null, end}
use deep_cab.Agent.Tools.{dispatch}
use deep_cab.Agent.Toolbox.{
  Arguments, train_in, predict_in, Toolkit, config_of, train_out, predict_out,
}
use deep_cab.Agent.Toolbox.Table.{toolbox, tool_names}
use deep_cab.Agent.Toolbox.Trained.{dispatch-predict_trained}
use deep_cab.Training.Evaluate.{sum_errors}
use deep_cab.Training.Site.{set_model}
use deep_cab.Training.Stages.{
  calibrate_aci, mae, start_mlflow_run, publish_to_state, save_state, run_hooks,
  persist_and_emit_artifacts, emit_model_card, emit_lineage, export_and_register_onnx,
}
use deep_cab.Training.Run.{fit_estimator, within_run, after_fit, run_training}
use deep_cab.Training.Run as Running
use deep_cab.Training.Hpo.{Tuner}
use deep_cab.Tests.Trainings.{trainer, hooks, site, result}

abbrev tuner : Tuner ℕ ℕ ℕ
tuner = record {
  floats = trainer.floats;
  model_dump = λ c. [];
  model_validate = λ kind params. ok 1;
  objective = λ cfg. ok 1;
  study = λ sampler pruner direction run n. raised "ImportError: optuna";
}

-- The train tool trains an xgb model, and the predict tool is given the row 8.
abbrev decode : String → Json ℕ → Result (Arguments ℕ ℕ ℕ)
decode name args =
    if str_eq name "train"
    then ok (train_in "xgb" 3 1 42)
    else if str_eq name "predict"
    then ok (predict_in 8)
    else raised "ValidationError"

abbrev toolkit : Toolkit ℕ ℕ ℕ ℕ ℕ ℕ ℕ ℕ ℕ
toolkit = record {
  trainer = trainer;
  hooks = hooks;
  bucket = none;
  decode = decode;
  load = λ d split s. (ok (record { fares = []; width = 7 }), s);
  lowest = λ xs. raised "ValueError";
  highest = λ xs. raised "ValueError";
  mean = λ xs. 0;
  default_data = 1;
  predict_one = λ est row. ok (est + row);
  featurize = λ row. ok row;
  explain_row = λ est rows row. ok (record { prediction = 1; base_value = 1; aggregated = end });
  default_backend = λ kind. 1;
  fit_plain = λ est rows. ok est;
  tuner = tuner;
  dump_params = λ params. end;
  list_runs = λ top_k metric. ok end;
  compare_runs = λ run_ids. ok end;
  propose = λ goal. ok end;
  unknown = λ name. "unknown tool";
  outlasts = λ timeout name args w. false;
  timeout_text = λ timeout. "timeout";
}

tool_names_lem :
    tool_names toolkit
    ≡ "preprocess" ∷ "train" ∷ "evaluate" ∷ "predict" ∷ "explain" ∷ "tune" ∷ "list_runs"
      ∷ "compare_runs" ∷ "propose_next_experiment" ∷ []
unfolding tool_names toolbox
tool_names_lem = refl

run_returns : (Running.run trainer hooks (config_of toolkit "xgb" 3 1 42) none site).0 ≡ ok result
unfolding Running.run run_training fit_estimator after_fit calibrate_aci start_mlflow_run mae
    within_run publish_to_state persist_and_emit_artifacts save_state run_hooks emit_model_card
    emit_lineage export_and_register_onnx set_model sum_errors
run_returns = refl

dispatch-predict_trained_example :
    let (trained, v) = dispatch (toolbox toolkit) "train" null site in
    (trained ≡ train_out toolkit result)
    × (dispatch (toolbox toolkit) "predict" null v ≡ (predict_out toolkit "xgb" 12, v))
dispatch-predict_trained_example =
    dispatch-predict_trained toolkit null null "xgb" 3 1 42 8 12 site result refl refl run_returns
      refl
