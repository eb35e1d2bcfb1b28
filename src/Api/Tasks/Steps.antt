-- ===== src/Api/Tasks/Steps.antt =====
-- The background tasks of deepCab/api/services/train.py in small steps: a worker thread marks its record,
-- trains while the service answers, and settles the record; the tasks are queued by `start`.
pub mod Diagram
pub mod Whole
use deep_cab.Prelude.{String, Option, none, some, List, [], ◌∷◌, ◌++◌, ◌≡◌}
use deep_cab.Prelude.Dict.{Dict, lookup, insert, erase}
use deep_cab.Prelude.Exec.{Result}
use deep_cab.Api.Tasks.{TaskRecord, new_record, settle, running}

-- The table, the calls that the background tasks have queued, and those whose training is under way
pub record Service : Type 0 where
  pub tasks : Dict TaskRecord
  pub queued : Dict (Unit {0})
  pub training : Dict (Unit {0})

unfoldable pub empty_service : Service
empty_service = record { tasks = []; queued = []; training = [] }

-- `start`: the record and the background call
unfoldable pub enqueue : String → Service → Service
enqueue id s = record s {
  tasks = insert id (new_record id) s.tasks;
  queued = insert id tt s.queued;
}

-- `_run_training` up to the call of the training, on a record of the table
unfoldable pub begin : String → TaskRecord → Service → Service
begin id rec s = record s {
  tasks = insert id (record rec { status = running }) s.tasks;
  queued = erase id s.queued;
  training = insert id tt s.training;
}

-- `_run_training` from the end of the training on
unfoldable pub finish : String → Result String → TaskRecord → Service → Service
unfolding settle
finish id result rec s = record s {
  tasks = insert id (settle result rec) s.tasks;
  training = erase id s.training;
}

-- What a thread can do next. The ids are minted anew; how a training ends is not up to the service.
pub data Step : Service → Service → Type 0 where
  starts : (s : Service) (id : String) → lookup id s.tasks ≡ none → Step s (enqueue id s)
  begins :
      (s : Service) (id : String) (rec : TaskRecord)
      → lookup id s.queued ≡ some tt
      → lookup id s.tasks ≡ some rec
      → Step s (begin id rec s)
  finishes :
      (s : Service) (id : String) (result : Result String) (rec : TaskRecord)
      → lookup id s.training ≡ some tt
      → lookup id s.tasks ≡ some rec
      → Step s (finish id result rec s)

pub data Reach (s : Service) : Service → Type 0 where
  here : Reach s s
  next : {u v : Service} → Reach s u → Step u v → Reach s v
