-- ===== src/Agent/Toolbox/Table.antt =====
-- The tuning tool and the table of the tools of deepCab/agent/tools.py, as the registry that dispatch reads.
use deep_cab.Prelude.{ℕ, length, String, some, List, [], ◌∷◌, map}
use deep_cab.Prelude.Exec.{Result, ok, raised, Exec, pure, raise, lift, ◌>>=◌}
use deep_cab.Agent.Json.{Json, num, str, obj, Fields, end, field}
use deep_cab.Agent.Tools.{Tool, Registry}
use deep_cab.Training.Site.{Site, outer}
use deep_cab.Training.Evaluate.{sum_errors}
use deep_cab.Training.Trainer.{TrainConfig, Rows}
use deep_cab.Training.CrossVal.{and_then}
use deep_cab.Training.Hpo.{HpoResult, tune}
use deep_cab.Agent.Toolbox.{
  Arguments, preprocess_in, train_in, evaluate_in, predict_in, explain_in, tune_in, list_runs_in,
  compare_runs_in, propose_in, Toolkit, floats, size, config_of, run_preprocess, run_train,
  run_evaluate, run_predict, run_explain,
}

module _ {D E B C F Q R T S : Type 0} (tk : Toolkit D E B C F Q R T S) where
  -- The `objective` of `_tune`: the root mean square error on the validation rows
  unfoldable pub rmse_of : Rows F R → Rows F R → TrainConfig D C → Result F
  unfolding sum_errors
  rmse_of train (rows, y) cfg = and_then (tk.trainer.build_estimator cfg.backend) λ est.
      and_then (tk.fit_plain est train) λ fitted. ok (
        (floats tk).sqrt (
          (floats tk).div
            (sum_errors (floats tk) (λ d. (floats tk).mul d d)
              (tk.trainer.backends.predict fitted rows) y)
            ((floats tk).of_ℕ (length y))))

  abbrev pub tune_out : String → HpoResult C F → Fields F
  tune_out kind r = field "best_value" (num r.best_value) (
      field "best_params" (obj (tk.dump_params r.best_params))
        (field "backend_kind" (str kind) (field "n_trials" (size tk r.n_trials) end)))

  -- `_tune`, with the defaults of `HPOConfig`
  unfoldable pub run_tune : String → ℕ → D → Exec (Site E B C F R T S) (Fields F)
  unfolding rmse_of tune
  run_tune kind n_trials d = do
    train ← outer (tk.trainer.preprocess d "train")
    val ← outer (tk.trainer.preprocess d "val")
    r ← lift (
        tune (record tk.tuner { objective = rmse_of train val })
          (config_of tk kind (tk.default_backend kind) d 42)
          (some (record {
            n_trials = n_trials;
            sampler = "tpe";
            pruner = "median";
            direction = "minimize";
          })))
    pure (tune_out kind r)

  -- What a tool does with its arguments
  unfoldable pub run_tool : Arguments D C Q → Exec (Site E B C F R T S) (Fields F)
  unfolding run_preprocess run_train run_evaluate run_predict run_explain run_tune
  run_tool (preprocess_in d split) = run_preprocess tk d split
  run_tool (train_in kind backend d seed) = run_train tk kind backend d seed
  run_tool (evaluate_in split) = run_evaluate tk split
  run_tool (predict_in row) = run_predict tk row
  run_tool (explain_in row) = run_explain tk row
  run_tool (tune_in kind n_trials d) = run_tune kind n_trials d
  run_tool (list_runs_in top_k metric) = lift (tk.list_runs top_k metric)
  run_tool (compare_runs_in run_ids) = lift (tk.compare_runs run_ids)
  run_tool (propose_in goal) = lift (tk.propose goal)

  abbrev pub checked : Json F → Result (Arguments D C Q) → Result (Json F)
  checked args (ok _) = ok args
  checked args (raised e) = raised e

  abbrev pub run_decoded : Result (Arguments D C Q) → Exec (Site E B C F R T S) (Fields F)
  run_decoded (ok input) = run_tool input
  run_decoded (raised e) = raise e

  -- A tool by its name: its arguments are decoded by the model of that name.
  abbrev pub tool_named : String → String × Tool F (Site E B C F R T S)
  tool_named name = (
    name,
    record {
      validate = λ args. checked args (tk.decode name args);
      run = λ args. run_decoded (tk.decode name args);
    },
  )

  -- `_TOOLS`, and what `dispatch` reads besides
  unfoldable pub toolbox : Registry F (Site E B C F R T S)
  unfolding run_tool
  toolbox = record {
    tools =
        tool_named "preprocess"
        ∷ tool_named "train"
        ∷ tool_named "evaluate"
        ∷ tool_named "predict"
        ∷ tool_named "explain"
        ∷ tool_named "tune"
        ∷ tool_named "list_runs"
        ∷ tool_named "compare_runs"
        ∷ tool_named "propose_next_experiment"
        ∷ [];
    unknown = tk.unknown;
    outlasts = tk.outlasts;
    timeout_text = tk.timeout_text;
  }

  -- `tool_names`
  unfoldable pub tool_names : List String
  unfolding toolbox
  tool_names = map (λ (entry : String × Tool F (Site E B C F R T S)). entry.0) toolbox.tools
