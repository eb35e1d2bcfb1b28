-- ===== src/Agent/Event.antt =====
-- `AgentEvent` of deepCab/agent/trace.py, and what the loop yields to its caller.
use deep_cab.Prelude.{ℕ, String, Bool, Option, List}
use deep_cab.Agent.Json.{Json, Fields}

-- The values of `AgentEvent.kind`.
pub data Kind : Type 0 where
  plan tool_call tool_result llm budget error note done : Kind

pub record AgentEvent (F : Type 0) : Type 0 where
  pub ts : F
  pub loop_run_id : String
  pub iter : ℕ
  pub kind : Kind
  pub name : String
  pub request_id : Option String
  pub payload : Fields F

-- The events of `run_one_turn` and `run_improve` for the user.
pub data Sse (F : Type 0) : Type 0 where
  calling : (name : String) (args : Json F) → Sse F
  called : (name : String) (result : Json F) (replayed : Bool) → Sse F
  assistant : (content : String) → Sse F
  budget_exhausted : (reason : String) → Sse F
  max_steps : (steps : ℕ) → Sse F
  iter_start : (iter : ℕ) → Sse F
  planned : (iter n_steps : ℕ) → Sse F
  iter_end : (iter : ℕ) (metric : F) → Sse F
  plateau : (metric_window : List F) (improvement : F) → Sse F
  circuit_breaker : (tool : String) (n_repeats : ℕ) → Sse F
