-- ===== src/Api/Tasks/Life.antt =====
-- The life of one training task of deepCab/api/services/train.py among the others.
use deep_cab.Prelude.{String, none, some, ◌≡◌, ◌≢◌}
use deep_cab.Prelude.Exec.{Result, ok, raised, Exec}
use deep_cab.Api.Tasks.{Event, starts, runs, changes, succeeded, failed, TaskRecord}

-- What the service says of a task whose training went so: it succeeded with the run that the training
-- gave and no error, or it failed with the error that the training raised and no run.
abbrev pub Reports : String → Result String → Result TaskRecord → Type 0
Reports id (ok run) answer =
    answer ≡ ok (record { task_id = id; status = succeeded; run_id = some run; error = none })
Reports id (raised e) answer =
    answer ≡ ok (record { task_id = id; status = failed; run_id = none; error = some e })

module _ {S : Type 0} where
  -- The event is about another task.
  abbrev pub Spares : String → Event S → Type 0
  Spares id (starts other) = other ≢ id
  Spares id (runs other train) = other ≢ id
  Spares id (changes f) = Unit
