-- ===== src/Tests/Histories.antt =====
-- The retrain flow on concrete inputs.
use deep_cab.Prelude.{ℕ, ◌+◌, ◌<>◌, none, some, [], ◌++◌, ◌≡◌}
use deep_cab.Prelude.Exec.{ok, raised}
use deep_cab.Schemas.Settings.{ObsSettings}
use deep_cab.Obs.Notify.{notify_flow_event}
use deep_cab.Flow.Simulate.{Scene}
use deep_cab.Flow.Retrain.{Tasks, retrain_flow}
use deep_cab.Flow.Retrain.Events.{last_event, retrain_flow_events}

abbrev obs : ObsSettings
obs = record {
  slack_webhook_url = some "https://hooks";
  telegram_bot_token = none;
  telegram_chat_id = none;
}

-- The evaluation finds no model.
abbrev tasks : Tasks ℕ ℕ
tasks = record {
  obs = obs;
  preprocess = λ s. (ok tt, s + 1);
  train = λ s. (ok (record { run_id = some "r1"; backend_kind = "xgb"; val_mae = 3 }), s + 1);
  evaluate = λ s. (raised "RuntimeError", s);
}

abbrev scene : Scene ℕ
scene = record { outbox = []; outside = 0 }

retrain_flow_events_example :
    (retrain_flow tasks "00" scene).1.outbox
    ≡ ([] ++ notify_flow_event obs "retrain" "running" ("flow-" <> "00"))
      ++ last_event tasks ("flow-" <> "00") (retrain_flow tasks "00" scene).0
retrain_flow_events_example = retrain_flow_events tasks "00" scene
