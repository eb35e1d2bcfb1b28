-- ===== src/Training/Site.antt =====
-- What a process of deepCab shares: the model of deepCab/api/state.py, the directory of saved runs, the
-- runtimes of deepCab/serving/runtime.py, and what is outside of the program.
use deep_cab.Prelude.{Option, none, some, List}
use deep_cab.Prelude.Exec.{ok, Exec}
use deep_cab.Registry.Runs.{ModelHandle, Disk}
use deep_cab.Serving.Runtime.{RuntimeRegistry}

-- Estimators, their weights and configurations, floats, rows, runtimes, and the outside
pub record Site (E B C F R T S : Type 0) : Type 0 where
  pub model : Option (ModelHandle E F (List R))
  pub disk : Disk B C F (List R)
  pub runtimes : RuntimeRegistry T
  pub outside : S

module _ {E B C F R T S : Type 0} where
  -- A call of code that is not the program's.
  abbrev pub outer : {A : Type 0} → Exec S A → Exec (Site E B C F R T S) A
  outer call w = let (answer, s) = call w.outside in (answer, record w { outside = s })

  -- A body under `try`, with an `except Exception` that only logs
  abbrev pub caught : Exec (Site E B C F R T S) (Unit {0}) → Exec (Site E B C F R T S) (Unit {0})
  caught body w = (ok tt, (body w).1)

  -- A call under `with`, whose end is told whether the body raised
  abbrev pub on_outside : (S → S) → Site E B C F R T S → Site E B C F R T S
  on_outside leave w = record w { outside = leave w.outside }

  -- `STATE.set_model`
  unfoldable pub set_model : ModelHandle E F (List R) → Exec (Site E B C F R T S) (Unit {0})
  set_model handle w = (ok tt, record w { model = some handle })

  -- A new process, on the same disk
  unfoldable pub restarted : RuntimeRegistry T → Site E B C F R T S → Site E B C F R T S
  restarted runtimes w = record w { model = none; runtimes = runtimes }
