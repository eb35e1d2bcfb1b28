-- ===== src/Agent/Executor/Calls.antt =====
-- The tool calls of a turn of deepCab/agent/executor.py against its budget: what is charged is exactly
-- what is run.
use deep_cab.Prelude.{
  ℕ, ◌+◌, String, false, Option, none, some, List, [], ◌∷◌, ◌++◌, ◌≡◌, ◌≢◌, refl, arith, inl, inr,
}
use deep_cab.Prelude.Exec.{Result-cases}
use deep_cab.Agent.Json.{Json, boolean, Fields, get, within}
use deep_cab.Agent.Event.{AgentEvent, Kind, tool_call, tool_result, budget, Sse}
use deep_cab.Agent.Gen.{Gen, Keeps, ◌>>=◌}
use deep_cab.Agent.Budget.{Usage}
use deep_cab.Agent.Site.{Site, Run, Message, log}
use deep_cab.Agent.Executor.{replay_or_call, answer_call, charge_usage, run_one_turn}
use deep_cab.Agent.Executor.Keeping.{run_one_turn-Keeps}

module _ {F : Type 0} where
  -- A result that the log does not mark as replayed.
  abbrev pub run_here : Kind → Option (Json F) → ℕ
  run_here tool_result (some (boolean false)) = 1
  run_here _ _ = 0

  -- The number of tool calls that were run, by the log.
  abbrev pub executed : List (AgentEvent F) → ℕ
  executed [] = 0
  executed (ev ∷ events) = run_here ev.kind (get "replayed" ev.payload) + executed events

  pub executed-append :
      (events : List (AgentEvent F)) (ev : AgentEvent F)
      → executed (events ++ ev ∷ [])
        ≡ executed events + run_here ev.kind (get "replayed" ev.payload)
  executed-append [] ev = omega arith
  executed-append (e ∷ events) ev = omega (arith, executed-append events ev)

  run_here-other :
      (kind : Kind) (replayed : Option (Json F)) → kind ≢ tool_result → run_here kind replayed ≡ 0
  run_here-other tool_result replayed h = absurd (h refl)
  run_here-other _ replayed h = refl

module _ {F W C : Type 0} (site : Site F W) (base : ℕ) where
  -- Since the log was empty, the budget was charged for each call that was run, and for no other.
  abbrev pub IsCharged : Run F W C → Type 0
  IsCharged s = s.budget.tool_calls ≡ base + executed s.trace

  pub log-IsCharged :
      (kind : Kind)
      → kind ≢ tool_result
      → (iter : ℕ) (name : String) (request_id : Option String) (payload : Fields F)
      → Keeps IsCharged (log site iter kind name request_id payload)
  unfolding log
  log-IsCharged kind other iter name request_id payload = record {
    kept = λ s h.
        omega
          (arith, executed-append s.trace _, run_here-other kind (get "replayed" payload) other);
  }

  module _ (emit : Sse F → Gen (Run F W C) (Unit {0})) (model : String) (timeout : F) where
    pub answer_call-IsCharged :
        (id : String) (cached : Option (Json F)) (name : String) (args : Json F)
        → Keeps IsCharged (answer_call site emit model timeout id cached name args)
    unfolding answer_call replay_or_call log get ◌>>=◌
    answer_call-IsCharged id (some result) name args = record {
      kept = λ s h. elim (Result-cases (within "error" result)) [
        | inl (found, tested) ↦ rw tested (omega (arith, executed-append s.trace _))
        | inr (e, bad) ↦ rw bad h
      ];
    }
    answer_call-IsCharged id none name args = record {
      kept = λ s h. omega (arith, executed-append s.trace _);
    }

    pub charge_usage-IsCharged :
        (usage : Option Usage) → Keeps IsCharged (charge_usage site emit model timeout usage)
    unfolding charge_usage log get ◌>>=◌
    charge_usage-IsCharged none = record { kept = λ s h. h }
    charge_usage-IsCharged (some usage) = record {
      kept = λ s h. omega (arith, executed-append s.trace _);
    }

    -- Over a turn the budget is charged once for each tool call that is run, and not for a replayed one:
    -- the count of the budget and that of the log move together, if the caller keeps it so.
    pub run_one_turn-IsCharged :
        ((ev : Sse F) → Keeps IsCharged (emit ev))
        → (bound : ℕ) (messages : List Message)
        → Keeps IsCharged (run_one_turn site emit model timeout bound messages)
    run_one_turn-IsCharged emits = run_one_turn-Keeps site IsCharged emit model timeout (record {
      emits = emits;
      worlds = λ s w h. h;
      calls = log-IsCharged tool_call (λ e. cc);
      stops = log-IsCharged budget (λ e. cc);
      answers = answer_call-IsCharged;
      usages = charge_usage-IsCharged;
    })
