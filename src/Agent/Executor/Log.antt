-- ===== src/Agent/Executor/Log.antt =====
-- The log of a turn of deepCab/agent/executor.py against its budget. Each predicate here is kept by
-- every part of a turn, so it holds whether the turn returns, raises, or is closed by its caller.
use deep_cab.Prelude.{
  ℕ, ◌+◌, String, Option, none, some, List, [], ◌∷◌, ◌++◌, ◌≡◌, ◌≢◌, refl, ◌∙◌, arith, inl, inr, ap,
  Bool-cases,
}
use deep_cab.Prelude.Floats.{FloatOps}
use deep_cab.Prelude.Exec.{ok}
use deep_cab.Agent.Json.{Json, num, Fields, get, is_true, or_null}
use deep_cab.Agent.Event.{AgentEvent, Kind, tool_call, tool_result, llm, budget, plan, Sse}
use deep_cab.Agent.Gen.{Gen, Keeps, keeps_rules, ◌>>=◌}
use deep_cab.Agent.Budget.{Budget, BudgetCap, Usage, fresh, llm_cost, restore, restore_event}
use deep_cab.Agent.Budget.Restore.{restore-append}
use deep_cab.Agent.Site.{Site, Run, Message, log}
use deep_cab.Agent.Executor.{replay_or_call, answer_call, charge_usage, run_one_turn}
use deep_cab.Agent.Executor.Keeping.{run_one_turn-Keeps}

module _ {F : Type 0} (fl : FloatOps F) where
  -- A restart that reads this log has spent these dollars.
  abbrev pub Booked : List (AgentEvent F) → BudgetCap F → F → Type 0
  Booked trace cap usd =
      (restored : Budget F) × (restore fl trace (fresh fl cap) ≡ ok restored) × (restored.usd ≡ usd)

  -- Only the report of a reply's usage changes the dollars of a restart.
  restore_event-usd :
      (kind : Kind) (payload : Fields F) (b : Budget F)
      → kind ≢ llm
      → (b' : Budget F) × (restore_event fl kind payload b ≡ ok b') × (b'.usd ≡ b.usd)
  unfolding restore_event
  restore_event-usd tool_result payload b h =
      elim (Bool-cases (is_true fl (or_null (get "ok" payload)))) [
        | inl good ↦ (record b { tool_calls = b.tool_calls + 1 }, ground (arith, good), refl)
        | inr bad ↦ (b, ground (arith, bad), refl)
      ]
  restore_event-usd llm payload b h = absurd (h refl)
  restore_event-usd plan payload b h = (record b { iters = b.iters + 1 }, refl, refl)
  restore_event-usd _ payload b h = (b, refl, refl)

  pub Booked-free :
      (trace : List (AgentEvent F)) (cap : BudgetCap F) (usd : F) (ev : AgentEvent F)
      → ev.kind ≢ llm
      → Booked trace cap usd
      → Booked (trace ++ ev ∷ []) cap usd
  Booked-free trace cap usd ev free (b, runs, same) =
      let (b', reads, kept) = restore_event-usd ev.kind ev.payload b free in
      (b', restore-append fl trace ev (fresh fl cap) runs ∙ reads, kept ∙ same)

  Booked-paid :
      (trace : List (AgentEvent F)) (cap : BudgetCap F) (usd cost : F) (ev : AgentEvent F)
      → ev.kind ≡ llm
      → get "usd" ev.payload ≡ some (num cost)
      → Booked trace cap usd
      → Booked (trace ++ ev ∷ []) cap (fl.add usd cost)
  unfolding restore_event
  Booked-paid trace cap usd cost ev is_llm paid (b, runs, same) = (
    record b { usd = fl.add b.usd cost },
    ground (arith, restore-append fl trace ev (fresh fl cap) runs, is_llm, paid),
    ap (λ x. fl.add x cost) same,
  )

module _ {F W C : Type 0} (site : Site F W) where
  abbrev pub IsBooked : Run F W C → Type 0
  IsBooked s = Booked site.floats s.trace s.budget.cap s.budget.usd

  pub log-IsBooked :
      (kind : Kind)
      → kind ≢ llm
      → (iter : ℕ) (name : String) (request_id : Option String) (payload : Fields F)
      → Keeps IsBooked (log site iter kind name request_id payload)
  unfolding log
  log-IsBooked kind free iter name request_id payload = record {
    kept = λ s h. Booked-free site.floats s.trace s.budget.cap s.budget.usd _ free h;
  }

  module _ (emit : Sse F → Gen (Run F W C) (Unit {0})) (model : String) (timeout : F) where
    replay_or_call-IsBooked :
        (cached : Option (Json F)) (name : String) (args : Json F)
        → Keeps IsBooked (replay_or_call site emit model timeout cached name args)
    unfolding replay_or_call ◌>>=◌
    replay_or_call-IsBooked (some result) name args = search keeps_rules
    replay_or_call-IsBooked none name args = record { kept = λ s h. h }

    pub answer_call-IsBooked :
        (id : String) (cached : Option (Json F)) (name : String) (args : Json F)
        → Keeps IsBooked (answer_call site emit model timeout id cached name args)
    unfolding answer_call
    answer_call-IsBooked id cached name args =
        search (keeps_rules, replay_or_call-IsBooked, log-IsBooked tool_result (λ e. cc)) depth 12

    pub charge_usage-IsBooked :
        (usage : Option Usage) → Keeps IsBooked (charge_usage site emit model timeout usage)
    unfolding charge_usage log ◌>>=◌ get
    charge_usage-IsBooked none = record { kept = λ s h. h }
    charge_usage-IsBooked (some usage) = record {
      kept = λ s h.
          Booked-paid site.floats s.trace s.budget.cap s.budget.usd
            (llm_cost site.floats model usage) _ refl refl h;
    }

    -- The dollars of the budget are those that a restart would read from the log, to the last bit, if
    -- they were before the turn and the caller keeps it so.
    pub run_one_turn-IsBooked :
        ((ev : Sse F) → Keeps IsBooked (emit ev))
        → (bound : ℕ) (messages : List Message)
        → Keeps IsBooked (run_one_turn site emit model timeout bound messages)
    run_one_turn-IsBooked emits = run_one_turn-Keeps site IsBooked emit model timeout (record {
      emits = emits;
      worlds = λ s w h. h;
      calls = log-IsBooked tool_call (λ e. cc);
      stops = log-IsBooked budget (λ e. cc);
      answers = answer_call-IsBooked;
      usages = charge_usage-IsBooked;
    })
