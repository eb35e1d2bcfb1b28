-- ===== src/Lib.antt =====
-- deepCab: a verification library of the New York taxi fare service.
--
-- The program trains fare models in scheduled flows, promotes them in an MLflow registry, serves them
-- over HTTP, and runs an agent that plans and executes experiments under a budget. The parts meet in
-- few places: a flow calls the trainer, the evaluation and the promotion service for each time window;
-- the promotion service moves aliases and sends notifications; the HTTP service holds a model, its
-- intervals and a task table; the agent's improve loop drives a planner and an executor, which share a
-- budget and an append-only log.
--
-- Files and sources:
--   Prelude: shared names; Python dicts (Dict), floats (Floats), methods that may raise (Exec).
--   Schemas: deepCab/schemas, as far as it is used.
--   Obs/Notify: deepCab/obs/notify.py, slack.py, telegram.py. Obs/Tracer: deepCab/obs/jsonl.py.
--   Training/Evaluate: deepCab/training/evaluate.py. Training/Site is what a process shares (deepCab/api/state.py);
--   Training/Trainer, Training/Stages, Training/Run: deepCab/training/train.py.
--   Training/Splits: deepCab/data/splits.py. Training/CrossVal: deepCab/training/cv.py. Training/Hpo:
--     deepCab/training/hpo.py.
--   Registry/Alias and Registry/Runs: deepCab/registry/dispatcher.py (set_alias; save_full_state,
--     load_state_from_disk) and get_mlflow_client of deepCab/obs/mlflow.py.
--   Registry/Promotion: deepCab/registry/promotion.py (PromotionService.maybe_promote).
--   Flow/Windows: _chunks of deepCab/flow_v2/simulate.py, next_window of deepCab/flow_v2/nightly.py.
--   Flow/Overlay, Flow/Simulate: _env_overlay and _simulate_impl of deepCab/flow_v2/simulate.py.
--   Flow/Executors, Flow/Vm: LocalTrainExecutor and VmTrainExecutor of deepCab/flow_v2/simulate.py.
--   Flow/Nightly, Flow/Retrain: run_nightly and retrain_flow of deepCab/flow_v2/nightly.py, retrain.py.
--   Agent/Budget, Agent/Event: deepCab/agent/budget.py, trace.py. Agent/Tools, Agent/Toolbox: dispatch
--     and the tools of deepCab/agent/tools.py. Agent/Resume, Agent/Executor: deepCab/agent/executor.py. Agent/Planner:
--     deepCab/agent/planner.py. Agent/Improve: deepCab/agent/improve.py. Agent/Memory: deepCab/agent/memory.py,
--     and Agent/Memory/Comparing its compare_runs. Agent/Json is
--     dynamic data, Agent/Gen the generators, and Agent/Site the outside of the agent and the shared state.
--   Models/Conformal: deepCab/models/conformal.py. Explain/Aggregate, Explain/Cache: deepCab/explain.
--   Serving/Runtime, Serving/Batcher: deepCab/serving/runtime.py, batcher.py; Serving/Batcher/Worker has the
--     worker as a step relation.
--   Api/Tasks: deepCab/api/state.py, services/train.py; Api/Tasks/Steps has its background calls in small
--     steps. Api/Lifespan: deepCab/api/lifespan.py. Api/Auth: deepCab/api/deps.py.
--   Api/Predictions: deepCab/api/services/predict.py.
--   Tests: runs on concrete inputs.
--
-- Conventions. A Python float is an element of a type F with the operations of FloatOps, so nothing
-- about rounding is assumed. A method that changes an object takes and returns its state, and gives
-- the state back beside an error too. A generator is a step on the state that it shares with its
-- caller, which may close it at a yield (Agent/Gen). Third-party code is a field of a record (MLflow,
-- the chat client, Redis, numpy's quantile, the clock), with what its documentation promises as named
-- hypotheses where a theorem needs it, such as IsRegistry. A datetime is a number.
--
-- Fuel. `chunk_loop` stands for a `while` that ends for a positive period: end - start + 1 is enough.
-- `improve_loop` stands for `while True`: more fuel than the cap on iterations is enough. `poll_loop`
-- sleeps between its rounds: more fuel than the seconds of the timeout is enough. All other
-- loops are structural.
--
-- Not modelled: the fitting and the model backends, feature engineering, SHAP and BigQuery, which call
-- numerical and cloud libraries; HTTP and gRPC glue, command lines, logging and metrics; failures of
-- the file system while a run is saved; arguments, results and meta data of trace events. A date
-- beyond datetime.max (an OverflowError) and the cancelling of the batcher's worker are left out too.
pub mod Prelude
pub mod Schemas
pub mod Obs
pub mod Training
pub mod Registry
pub mod Flow
pub mod Agent
pub mod Explain
pub mod Models
pub mod Serving
pub mod Api
mod Tests
