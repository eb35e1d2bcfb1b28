-- ===== src/Flow/Retrain.antt =====
-- `retrain_flow` of deepCab/flow_v2/retrain.py. Its three tasks are fields of `Tasks`: they work on what is
-- outside of the notifications.
pub mod Events
use deep_cab.Prelude.{String, ◌<>◌, Option, none, some, List, ◌++◌}
use deep_cab.Prelude.Exec.{Result, ok, raised, Exec, pure, ◌>>=◌, ◌>>◌}
use deep_cab.Schemas.Settings.{ObsSettings}
use deep_cab.Obs.Notify.{Delivery, notify_flow_event}
use deep_cab.Training.Evaluate.{EvalResult}
use deep_cab.Flow.Simulate.{Scene}

-- The dict that `train_task` returns, less the path.
pub record Trained (F : Type 0) : Type 0 where
  pub run_id : Option String
  pub backend_kind : String
  pub val_mae : F

pub record RetrainResult (F : Type 0) : Type 0 where
  pub backend_kind : String
  pub run_id : Option String
  pub val_mae : F
  pub eval_mae : F

pub record Tasks (F S : Type 0) : Type 0 where
  pub obs : ObsSettings
  pub preprocess : Exec S (Unit {0})
  pub train : Exec S (Trained F)
  pub evaluate : Exec S (EvalResult F)

-- `str(run_id)`
abbrev pub str_of : Option String → String
str_of none = "None"
str_of (some text) = text

module _ {F S : Type 0} (ts : Tasks F S) where
  abbrev pub outside_of : {A : Type 0} → Exec S A → Exec (Scene S) A
  outside_of task p = let (r, s) = task p.outside in (r, record p { outside = s })

  abbrev pub send_event : String → String → Exec (Scene S) (Unit {0})
  send_event state run_id p =
      (ok tt, record p { outbox = p.outbox ++ notify_flow_event ts.obs "retrain" state run_id })

  -- The end of the `try`: the event of success, and the result.
  unfoldable pub report : Trained F → EvalResult F → Exec (Scene S) (RetrainResult F)
  report trained evald = do
    send_event "success" (str_of trained.run_id)
    pure (record {
      backend_kind = trained.backend_kind;
      run_id = trained.run_id;
      val_mae = trained.val_mae;
      eval_mae = evald.mae;
    })

  -- The body of the `try`
  unfoldable pub attempt : Exec (Scene S) (RetrainResult F)
  unfolding report
  attempt = do
    outside_of ts.preprocess
    trained ← outside_of ts.train
    evald ← outside_of ts.evaluate
    report trained evald

  -- The `except`: an event, and the exception again.
  abbrev pub or_failed :
      String → Result (RetrainResult F) × Scene S → Result (RetrainResult F) × Scene S
  or_failed run_id (ok result, p) = (ok result, p)
  or_failed run_id (raised e, p) = (raised e, (send_event "failed" run_id p).1)

  -- `retrain_flow`, with its random digits
  unfoldable pub retrain_flow : String → Exec (Scene S) (RetrainResult F)
  unfolding attempt
  retrain_flow hex p =
      let run_id = "flow-" <> hex in or_failed run_id (attempt (send_event "running" run_id p).1)
