-- ===== src/Agent/Executor.antt =====
-- `run_one_turn` of deepCab/agent/executor.py. The generator is driven by `emit`, which stands for the
-- body of the caller's loop on one event: it may change the shared state, raise, or leave the loop,
-- which closes the generator at that yield.
pub mod Keeping
pub mod Log
pub mod Calls
pub mod Frame
use deep_cab.Prelude.{
  ℕ, zero, suc, ◌+◌, String, ◌<>◌, Bool, true, false, not, Option, none, some, List, [], ◌∷◌, ◌++◌,
  ◌&&◌, if◌then◌else◌,
}
use deep_cab.Prelude.Dict.{Dict, lookup, insert, contains}
use deep_cab.Prelude.Exec.{Result, ok, raised}
use deep_cab.Schemas.Settings.{truthy, or_else, text_or}
use deep_cab.Agent.Json.{
  Json, null, boolean, str, obj, Fields, end, field, get, has, within, is_true, or_null,
}
use deep_cab.Agent.Event.{
  AgentEvent, Kind, tool_call, tool_result, llm, budget, Sse, calling, called, assistant,
  budget_exhausted, max_steps,
}
use deep_cab.Agent.Gen.{Gen, Outcome, pure, gets, lift, ◌>>=◌, ◌>>◌}
use deep_cab.Agent.Budget.{
  Exhausted, Usage, charge_usd, charge_tool_call, llm_cost, usage_payload, check_or_raise,
  reason_text,
}
use deep_cab.Agent.Resume.{Completed, cache_key, resume_cache, parse_args}
use deep_cab.Agent.Tools.{call_with_timeout}
use deep_cab.Agent.Site.{Site, Run, Reply, ToolCallRef, Message, log, with_budget, in_world}

-- The local variables of a turn.
pub record Turn (F : Type 0) : Type 0 where
  pub messages : List Message
  pub completed : Completed F

module _ {F W : Type 0} (site : Site F W) where
  -- The payload of a `tool_result` event.
  abbrev pub result_payload : Bool → Json F → Bool → Fields F
  result_payload succeeded result replayed =
      field "ok" (boolean succeeded)
        (field "result" result (field "replayed" (boolean replayed) end))

  module _ {C : Type 0} (emit : Sse F → Gen (Run F W C) (Unit {0})) (model : String)
      (timeout : F) where
    abbrev pub G : Type 0 → Type 0
    G A = Gen (Run F W C) A

    -- A result that is in the cache is replayed; any other call is run, and charged. Beside the result:
    -- `"error" not in result`, and whether it was replayed. The result of a call is an object.
    unfoldable pub replay_or_call : Option (Json F) → String → Json F → G (Json F × Bool × Bool)
    unfolding within
    replay_or_call (some result) name args = do
      failed ← lift (within "error" result)
      pure (result, not failed, true)
    replay_or_call none name args = do
      result ← in_world (call_with_timeout site.registry timeout name args)
      with_budget charge_tool_call
      pure (obj result, not (has "error" result), false)

    -- The call, and its `tool_result` event.
    unfoldable pub answer_call :
        String → Option (Json F) → String → Json F → G (Json F × Bool × Bool)
    answer_call request_id cached name args = do
      (result, succeeded, replayed) ← replay_or_call cached name args
      iter ← gets (λ s. s.budget.iters)
      log site iter tool_result name (some request_id) (result_payload succeeded result replayed)
      pure (result, succeeded, replayed)

    -- The last lines of the loop over the calls: the tool's message, and the cache.
    abbrev pub note_result : ToolCallRef → Json F → Json F → Bool → Turn F → Turn F
    note_result tc args result succeeded turn = record {
      messages = turn.messages ++ Message.tool tc.id (site.dumps result) ∷ [];
      completed =
          if not (contains (cache_key site tc.name args) turn.completed) && succeeded
          then insert (cache_key site tc.name args) result turn.completed
          else turn.completed;
    }

    -- One tool call of a reply.
    unfoldable pub handle_call : ℕ → ToolCallRef → Turn F → G (Turn F)
    handle_call step tc turn = do
      hex ← in_world (site.hex 6)
      let request_id = "step-" <> site.show.show_ℕ step <> "-" <> hex
      let args = parse_args site tc.arguments
      iter ← gets (λ s. s.budget.iters)
      log site iter tool_call tc.name (some request_id)
          (field "args" args (field "tool_call_id" (str tc.id) end))
      emit (calling tc.name args)
      let cached = lookup (cache_key site tc.name args) turn.completed
      (result, succeeded, replayed) ← answer_call request_id cached tc.name args
      emit (called tc.name result replayed)
      pure (note_result tc args result succeeded turn)

    unfoldable pub handle_calls : ℕ → List ToolCallRef → Turn F → G (Turn F)
    handle_calls step [] turn = pure turn
    handle_calls step (tc ∷ rest) turn = do
      turn' ← handle_call step tc turn
      handle_calls step rest turn'

    -- `budget.charge_llm_usage(model, ..., trace)`, if the reply reports its usage.
    unfoldable pub charge_usage : Option Usage → G (Unit {0})
    charge_usage none = pure tt
    charge_usage (some usage) = do
      let cost = llm_cost site.floats model usage
      with_budget (charge_usd site.floats cost)
      iter ← gets (λ s. s.budget.iters)
      log site iter llm model none (usage_payload site.floats usage cost)

    -- The `except BudgetExhausted` branch.
    unfoldable pub stop_exhausted : Exhausted F → G (Unit {0})
    stop_exhausted e = do
      let reason = reason_text site.show e
      iter ← gets (λ s. s.budget.iters)
      log site iter budget "" none (field "reason" (str reason) end)
      emit (budget_exhausted reason)

    -- What follows a reply with these tool calls: the answer, or the calls and then the next step.
    unfoldable pub after_reply :
        Option String → List ToolCallRef → ℕ → Turn F → (Turn F → G (Unit {0})) → G (Unit {0})
    after_reply content [] step turn next = emit (assistant (text_or "" content))
    after_reply content (tc ∷ rest) step turn next = handle_calls step (tc ∷ rest) turn >>= next

    -- The assistant's message with its tool calls.
    abbrev pub note_reply : Reply → Turn F → Turn F
    note_reply reply turn = record turn {
      messages =
          turn.messages ++ Message.assistant (text_or "" reply.content) reply.tool_calls ∷ [];
    }

    -- The body of the loop, by the outcome of `check_or_raise`; `next` is the rest of the loop.
    unfoldable pub take_step :
        Option (Exhausted F) → ℕ → Turn F → (Turn F → G (Unit {0})) → G (Unit {0})
    take_step (some e) step turn next = stop_exhausted e
    take_step none step turn next = do
      answer ← in_world (site.create model turn.messages)
      reply ← lift answer
      charge_usage reply.usage
      after_reply reply.content reply.tool_calls step (note_reply reply turn) next

    -- `for step in range(max_steps)`, with the steps that are left and the number of the next.
    unfoldable pub run_steps : ℕ → ℕ → ℕ → Turn F → G (Unit {0})
    run_steps bound zero step turn = emit (max_steps bound)
    run_steps bound (suc left) step turn = do
      stop ← gets (λ s. check_or_raise site.floats s.budget)
      take_step stop step turn (run_steps bound left (suc step))

    -- `run_one_turn`, given its first two messages.
    unfoldable pub run_one_turn : ℕ → List Message → G (Unit {0})
    run_one_turn bound messages = do
      events ← gets (λ s. s.trace)
      done ← lift (resume_cache site events)
      run_steps bound bound 0 (record { messages = messages; completed = done })
