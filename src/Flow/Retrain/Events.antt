-- ===== src/Flow/Retrain/Events.antt =====
-- The notifications of deepCab/flow_v2/retrain.py.
use deep_cab.Prelude.{String, ◌<>◌, List, ◌++◌, ◌≡◌, arith, inl, inr}
use deep_cab.Prelude.Exec.{Result, ok, raised, Result-cases}
use deep_cab.Obs.Notify.{Delivery, notify_flow_event}
use deep_cab.Flow.Simulate.{Scene}
use deep_cab.Flow.Retrain.{RetrainResult, Tasks, str_of, report, attempt, retrain_flow}

module _ {F S : Type 0} (ts : Tasks F S) where
  -- The event that goes with an outcome.
  abbrev pub last_event : String → Result (RetrainResult F) → List Delivery
  last_event run_id (ok result) =
      notify_flow_event ts.obs "retrain" "success" (str_of result.run_id)
  last_event run_id (raised e) = notify_flow_event ts.obs "retrain" "failed" run_id

  -- The flow announces its start and then its end, and nothing else: success with the id of the trained
  -- run if it returns, and failure with the flow's own id if any task raises.
  pub retrain_flow_events :
      (hex : String) (p : Scene S)
      → let (r, p') = retrain_flow ts hex p in
        p'.outbox
        ≡ (p.outbox ++ notify_flow_event ts.obs "retrain" "running" ("flow-" <> hex))
          ++ last_event ("flow-" <> hex) r
  unfolding retrain_flow attempt report
  retrain_flow_events hex p = elim (Result-cases (ts.preprocess p.outside).0) [
    | inr (e, bad) ↦ ground (arith, bad)
    | inl (u, good) ↦
        let s₁ = (ts.preprocess p.outside).1 in
        elim (Result-cases (ts.train s₁).0) [
          | inr (e, bad) ↦ ground (arith, good, bad)
          | inl (trained, fit) ↦ elim (Result-cases (ts.evaluate (ts.train s₁).1).0) [
            | inr (e, bad) ↦ ground (arith, good, fit, bad)
            | inl (evald, scored) ↦ ground (arith, good, fit, scored)
          ]
        ]
  ]
