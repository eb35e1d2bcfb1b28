-- ===== src/Flow/Vm.antt =====
-- `VmTrainExecutor` of deepCab/flow_v2/simulate.py: a training that a command line starts elsewhere, and
-- that is polled for in MLflow. The process, the clock and MLflow are fields of `Remote`; the polling
-- loop runs on fuel.
pub mod Polling
use deep_cab.Prelude.{
  ℕ, zero, suc, ◌+◌, String, ◌<>◌, Option, none, some, List, [], ◌∷◌, str_eq, ltb, if◌then◌else◌,
}
use deep_cab.Prelude.Floats.{FloatOps}
use deep_cab.Prelude.Exec.{Result, ok, raised, Exec, pure, ◌>>=◌}
use deep_cab.Schemas.Enums.{BackendKind, backend_value}
use deep_cab.Schemas.Settings.{truthy, text_or}
use deep_cab.Flow.Retrain.{Trained}

-- A run that MLflow gives
pub record RunInfo : Type 0 where
  pub run_id : String
  pub status : String

pub record VmTrainExecutor : Type 0 where
  pub backend : BackendKind
  pub data_size : String
  pub env : String
  pub poll_interval_seconds : ℕ
  pub timeout_seconds : ℕ

-- The table of `DataSettings`
pub record BigQueryTable : Type 0 where
  pub bq_project : String
  pub bq_dataset : String
  pub bq_table : String

pub record Remote (S : Type 0) : Type 0 where
  -- `subprocess.run(args, env=env, check=True)`, with the run name that the environment gains
  pub launch : List String → String → Exec S (Unit {0})
  -- `time.monotonic()`, in seconds, and `time.sleep`
  pub monotonic : S → ℕ
  pub sleep : ℕ → S → S
  pub experiment : Option String
  -- `client.get_experiment_by_name(name)`, and `client.search_runs(...)` on ids and a filter
  pub experiment_by_name : String → Exec S (Option String)
  pub search_runs : List String → String → Exec S (List RunInfo)

-- The command line
unfoldable pub vm_args : VmTrainExecutor → BigQueryTable → String → String → List String
vm_args x table run_name clause =
    "uv"
    ∷ "run"
    ∷ "deepcab-platform"
    ∷ "train-on-vm"
    ∷ "--env"
    ∷ x.env
    ∷ "--backend"
    ∷ backend_value x.backend
    ∷ "--data"
    ∷ x.data_size
    ∷ "--extra-env"
    ∷ "DATA_SOURCE=query"
    ∷ "--extra-env"
    ∷ ("DATA_BQ_PROJECT=" <> table.bq_project)
    ∷ "--extra-env"
    ∷ ("DATA_BQ_DATASET=" <> table.bq_dataset)
    ∷ "--extra-env"
    ∷ ("DATA_BQ_TABLE=" <> table.bq_table)
    ∷ "--extra-env"
    ∷ ("DATA_BQ_WHERE=" <> clause)
    ∷ "--extra-env"
    ∷ ("MLFLOW_RUN_NAME=" <> run_name)
    ∷ "--extra-env"
    ∷ "MLFLOW_EXPERIMENT=deepcab-simulate"
    ∷ []

-- `runs and runs[0].info.status == "FINISHED"`, with the id
unfoldable pub finished_id : List RunInfo → Option String
finished_id [] = none
finished_id (run ∷ _) = if str_eq run.status "FINISHED" then some run.run_id else none

abbrev pub id_list : Option String → List String
id_list none = []
id_list (some id) = id ∷ []

module _ {S : Type 0} (rm : Remote S) where
  -- `_experiment_ids`
  unfoldable pub experiment_ids : Option String → Exec S (List String)
  experiment_ids name =
      if truthy name
      then (rm.experiment_by_name (text_or "" name) >>= λ found. pure (id_list found))
      else pure []

  -- What a round of the loop asks MLflow
  unfoldable pub query : String → Exec S (List RunInfo)
  unfolding experiment_ids
  query run_name = experiment_ids rm.experiment >>= λ ids.
      rm.search_runs ids ("tags.mlflow.runName = '" <> run_name <> "'")

  module _ (interval : ℕ) (run_name : String) (deadline : ℕ) where
    -- The outcome of a call, or none if the fuel ran out
    abbrev pub Polled : Type 0
    Polled = Option (Result String × S)

    -- What follows on a round, with the rounds after it
    abbrev pub after_query : (S → Polled) → Result (List RunInfo) × S → Polled
    after_query again (raised e, s) = some (raised e, s)
    after_query again (ok runs, s) = elim (finished_id runs) [
      | some id ↦ some (ok id, s)
      | none ↦ again (rm.sleep interval s)
    ]

    -- The `while` of `_poll_mlflow`
    unfoldable pub poll_loop : ℕ → S → Polled
    unfolding query finished_id
    poll_loop zero s = none
    poll_loop (suc fuel) s =
        let next = after_query (poll_loop fuel) (query run_name s) in
        if ltb (rm.monotonic s) deadline then next else some (raised "TimeoutError", s)

  -- `_poll_mlflow`
  unfoldable pub poll_mlflow : VmTrainExecutor → String → ℕ → S → Option (Result String × S)
  unfolding poll_loop
  poll_mlflow x run_name fuel s =
      poll_loop x.poll_interval_seconds run_name (rm.monotonic s + x.timeout_seconds) fuel s

  module _ {F : Type 0} (floats : FloatOps F) where
    abbrev pub trained_vm : String → Result String × S → Result (Trained F) × S
    trained_vm kind (raised e, s) = (raised e, s)
    trained_vm kind (ok run_id, s) =
        (ok (record { run_id = some run_id; backend_kind = kind; val_mae = floats.nan }), s)

    abbrev pub after_launch :
        String
        → (S → Option (Result String × S))
        → Result (Unit {0}) × S
        → Option (Result (Trained F) × S)
    after_launch kind poll (raised e, s) = some (raised e, s)
    after_launch kind poll (ok _, s) = elim (poll s) [
      | none ↦ none
      | some outcome ↦ some (trained_vm kind outcome)
    ]

    -- `__call__`, on the kind of the configuration; none means that the fuel ran out
    unfoldable pub vm_train :
        VmTrainExecutor
        → BigQueryTable
        → String
        → String
        → String
        → ℕ
        → S
        → Option (Result (Trained F) × S)
    unfolding vm_args poll_mlflow
    vm_train x table kind run_name clause fuel s =
        after_launch kind (poll_mlflow x run_name fuel)
          (rm.launch (vm_args x table run_name clause) run_name s)
