-- ===== src/Agent/Executor/Keeping.antt =====
-- The induction over a turn of deepCab/agent/executor.py: a predicate on the shared state that the
-- parts of a turn keep is kept by the whole turn, however it ends.
use deep_cab.Prelude.{ℕ, zero, suc, String, Option, List, [], ◌∷◌, none, some}
use deep_cab.Agent.Json.{Json, Fields}
use deep_cab.Agent.Event.{Sse, max_steps, tool_call, budget}
use deep_cab.Agent.Gen.{Gen, Keeps, Keeps-bind, Keeps-gets, keeps_rules}
use deep_cab.Agent.Budget.{Usage, Exhausted, check_or_raise}
use deep_cab.Agent.Site.{Site, Run, ToolCallRef, Message, log, in_world}
use deep_cab.Agent.Executor.{
  Turn, answer_call, handle_call, handle_calls, charge_usage, stop_exhausted, after_reply,
  take_step, run_steps, run_one_turn,
}

module _ {F W C : Type 0} (site : Site F W) (P : Run F W C → Type 0) where
  -- What has to be shown of the parts.
  pub record KeepsParts (emit : Sse F → Gen (Run F W C) (Unit {0})) (model : String) (timeout : F)
      : Type 0 where
    pub emits : (ev : Sse F) → Keeps P (emit ev)
    pub worlds : (s : Run F W C) (w : W) → P s → P (record s { world = w })
    pub calls :
        (iter : ℕ) (name : String) (id : Option String) (payload : Fields F)
        → Keeps P (log site iter tool_call name id payload)
    pub stops :
        (iter : ℕ) (name : String) (id : Option String) (payload : Fields F)
        → Keeps P (log site iter budget name id payload)
    pub answers :
        (id : String) (cached : Option (Json F)) (name : String) (args : Json F)
        → Keeps P (answer_call site emit model timeout id cached name args)
    pub usages : (usage : Option Usage) → Keeps P (charge_usage site emit model timeout usage)

  module _ (emit : Sse F → Gen (Run F W C) (Unit {0})) (model : String) (timeout : F)
      (parts : KeepsParts emit model timeout) where
    in_world-Keeps : {A : Type 0} (f : W → A × W) → Keeps P (in_world f)
    in_world-Keeps f = record { kept = λ s h. parts.worlds s (f s.world).1 h }

    handle_call-Keeps :
        (step : ℕ) (tc : ToolCallRef) (turn : Turn F)
        → Keeps P (handle_call site emit model timeout step tc turn)
    unfolding handle_call
    handle_call-Keeps step tc turn =
        search (keeps_rules, in_world-Keeps, parts.calls, parts.emits, parts.answers) depth 20

    handle_calls-Keeps :
        (step : ℕ) (calls : List ToolCallRef) (turn : Turn F)
        → Keeps P (handle_calls site emit model timeout step calls turn)
    unfolding handle_calls
    handle_calls-Keeps step [] turn = search keeps_rules
    handle_calls-Keeps step (tc ∷ rest) turn =
        search (keeps_rules, handle_call-Keeps step tc turn, handle_calls-Keeps step rest)

    stop_exhausted-Keeps : (e : Exhausted F) → Keeps P (stop_exhausted site emit model timeout e)
    unfolding stop_exhausted
    stop_exhausted-Keeps e = search (keeps_rules, parts.stops, parts.emits) depth 12

    after_reply-Keeps :
        (content : Option String) (calls : List ToolCallRef) (step : ℕ) (turn : Turn F)
        (next : Turn F → Gen (Run F W C) (Unit {0}))
        → ((t : Turn F) → Keeps P (next t))
        → Keeps P (after_reply site emit model timeout content calls step turn next)
    unfolding after_reply
    after_reply-Keeps content [] step turn next keep = parts.emits _
    after_reply-Keeps content (tc ∷ rest) step turn next keep =
        Keeps-bind _ next (handle_calls-Keeps step (tc ∷ rest) turn) keep

    take_step-Keeps :
        (stop : Option (Exhausted F)) (step : ℕ) (turn : Turn F)
        (next : Turn F → Gen (Run F W C) (Unit {0}))
        → ((t : Turn F) → Keeps P (next t))
        → Keeps P (take_step site emit model timeout stop step turn next)
    unfolding take_step
    take_step-Keeps (some e) step turn next keep = stop_exhausted-Keeps e
    take_step-Keeps none step turn next keep =
        search (keeps_rules, in_world-Keeps, parts.usages, after_reply-Keeps, keep) depth 12

    run_steps-Keeps :
        (bound left step : ℕ) (turn : Turn F)
        → Keeps P (run_steps site emit model timeout bound left step turn)
    unfolding run_steps
    run_steps-Keeps bound zero step turn = parts.emits (max_steps bound)
    run_steps-Keeps bound (suc left) step turn =
        Keeps-bind _ _ (Keeps-gets (λ s. check_or_raise site.floats s.budget))
          λ stop. take_step-Keeps stop step turn _ (run_steps-Keeps bound left (suc step))

    -- A predicate that the parts keep is kept by the whole turn.
    pub run_one_turn-Keeps :
        (bound : ℕ) (messages : List Message)
        → Keeps P (run_one_turn site emit model timeout bound messages)
    unfolding run_one_turn
    run_one_turn-Keeps bound messages = search (keeps_rules, run_steps-Keeps) depth 12
