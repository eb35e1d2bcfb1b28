-- ===== src/Api/Tasks/Steps/Whole.antt =====
-- A whole background call of deepCab/api/services/train.py is its two steps.
use deep_cab.Prelude.{String, some, ◌≡◌, arith}
use deep_cab.Prelude.Dict.{lookup}
use deep_cab.Prelude.Exec.{Exec}
use deep_cab.Api.Tasks.{State, TaskRecord, run_training, running}
use deep_cab.Api.Tasks.Steps.{Service, begin, finish}

-- On a task that is known, the table after `run_training` is the one after both steps, the second with
-- the record that the first wrote.
pub run_training-finish :
    {S : Type 0} (train : Exec S String) (id : String) (rec : TaskRecord) (st : State S)
    (s : Service)
    → lookup id st.tasks ≡ some rec
    → s.tasks ≡ st.tasks
    → (run_training train id st).1.tasks
      ≡ (finish id (train st.outside).0 (record rec { status = running }) (begin id rec s)).tasks
unfolding run_training begin finish
run_training-finish train id rec st s known same = ground (arith, known, same)
