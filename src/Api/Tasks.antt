-- ===== src/Api/Tasks.antt =====
-- The training tasks of the HTTP service: the task table of deepCab/api/state.py and `TrainingService` of
-- deepCab/api/services/train.py. The training itself is an argument, on the state outside of the table;
-- a background task runs between other requests, and its error text is the exception's.
pub mod Life
pub mod Steps
use deep_cab.Prelude.{String, Option, none, some, List, [], ◌∷◌, ◌≢◌}
use deep_cab.Prelude.Dict.{Dict, lookup, insert}
use deep_cab.Prelude.Exec.{Result, ok, raised, Exec}

pub data Status : Type 0 where
  pending running succeeded failed : Status

pub record TaskRecord : Type 0 where
  pub task_id : String
  pub status : Status
  pub run_id : Option String
  pub error : Option String

-- `_State`, less its model, with what the training changes.
pub record State (S : Type 0) : Type 0 where
  pub tasks : Dict TaskRecord
  pub outside : S

-- `TaskRecord(task_id=task_id)`
abbrev pub new_record : String → TaskRecord
new_record id = record { task_id = id; status = pending; run_id = none; error = none }

-- The end of the training: the record of a run that succeeded, or of one that raised.
unfoldable pub settle : Result String → TaskRecord → TaskRecord
settle (ok run) rec = record rec { status = succeeded; run_id = some run }
settle (raised e) rec = record rec { status = failed; error = some e }

module _ {S : Type 0} where
  -- `upsert_task`
  unfoldable pub upsert_task : TaskRecord → State S → State S
  upsert_task rec s = record s { tasks = insert rec.task_id rec s.tasks }

  -- `start`, with the id that it mints
  unfoldable pub start : String → State S → String × State S
  unfolding upsert_task
  start id s = (id, upsert_task (new_record id) s)

  -- `status`
  unfoldable pub status_of : String → State S → Result TaskRecord
  status_of id s = elim (lookup id s.tasks) [ none ↦ raised "UnknownTaskError" | some rec ↦ ok rec ]

  -- The writes to a record of the table, which the worker holds by reference.
  abbrev pub write : String → TaskRecord → State S → State S
  write id rec s = record s { tasks = insert id rec s.tasks }

  -- `_run_training`; a task that is not in the table is a KeyError.
  unfoldable pub run_training : Exec S String → String → Exec (State S) (Unit {0})
  unfolding settle
  run_training train id s = elim (lookup id s.tasks) [
    | none ↦ (raised "KeyError", s)
    | some rec ↦
        let started = write id (record rec { status = running }) s in
        let (result, outside) = train started.outside in
        (
          ok tt,
          write id (settle result (record rec { status = running }))
              (record started { outside = outside }),
        )
  ]

-- What other requests do: they start a task, run one, or change what is outside.
pub data Event (S : Type 0) : Type 0 where
  starts : String → Event S
  runs : String → Exec S String → Event S
  changes : (S → S) → Event S

module _ {S : Type 0} where
  abbrev pub after_event : Event S → State S → State S
  after_event (starts id) s = (start id s).1
  after_event (runs id train) s = (run_training train id s).1
  after_event (changes f) s = record s { outside = f s.outside }

  pub after_events : List (Event S) → State S → State S
  after_events [] s = s
  after_events (ev ∷ events) s = after_events events (after_event ev s)
