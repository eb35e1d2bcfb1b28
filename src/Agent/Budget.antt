-- ===== src/Agent/Budget.antt =====
-- `Budget` of deepCab/agent/budget.py and `BudgetCap` of deepCab/schemas/agent.py. The Prometheus
-- counters and the log lines are left out.
pub mod Restore
use deep_cab.Prelude.{
  ℕ, ◌+◌, String, ◌<>◌, Bool, true, false, Option, none, some, List, [], ◌∷◌, str_eq, leb,
  if◌then◌else◌,
}
use deep_cab.Prelude.Floats.{FloatOps}
use deep_cab.Prelude.Exec.{Result, ok, raised}
use deep_cab.Agent.Json.{Json, num, Fields, end, field, get, is_true, or_null, to_float}
use deep_cab.Agent.Event.{
  AgentEvent, Kind, plan, tool_call, tool_result, llm, budget, error, note, done,
}

pub record BudgetCap (F : Type 0) : Type 0 where
  pub max_iters : ℕ
  pub max_tool_calls : ℕ
  pub max_usd : F

pub record Budget (F : Type 0) : Type 0 where
  pub cap : BudgetCap F
  pub iters : ℕ
  pub tool_calls : ℕ
  pub usd : F

-- The token counts of a usage report; a missing count is 0.
pub record Usage : Type 0 where
  pub prompt_tokens : ℕ
  pub completion_tokens : ℕ

-- `BudgetExhausted`, with what its text names.
pub data Exhausted (F : Type 0) : Type 0 where
  iters_reached : (max_iters iters : ℕ) → Exhausted F
  tool_calls_reached : (max_tool_calls tool_calls : ℕ) → Exhausted F
  usd_reached : (max_usd usd : F) → Exhausted F

module _ {F : Type 0} (fl : FloatOps F) where
  -- `Budget(cap=cap)`
  abbrev pub fresh : BudgetCap F → Budget F
  fresh cap = record { cap = cap; iters = 0; tool_calls = 0; usd = fl.of_ℕ 0 }

  abbrev pub add_usd : Budget F → Result F → Result (Budget F)
  add_usd b (raised e) = raised e
  add_usd b (ok x) = ok (record b { usd = fl.add b.usd x })

  -- the second test of `restore`: `"usd" in ev.payload`, then `float(ev.payload["usd"])`
  abbrev pub book_usd : Budget F → Option (Json F) → Result (Budget F)
  book_usd b none = ok b
  book_usd b (some v) = add_usd b (to_float fl v)

  -- One round of the loop in `restore`.
  unfoldable pub restore_event : Kind → Fields F → Budget F → Result (Budget F)
  restore_event tool_result payload b = ok (
      if is_true fl (or_null (get "ok" payload))
      then record b { tool_calls = b.tool_calls + 1 }
      else b)
  restore_event llm payload b = book_usd b (get "usd" payload)
  restore_event plan payload b = ok (record b { iters = b.iters + 1 })
  restore_event _ payload b = ok b

  -- `restore`
  unfoldable pub restore : List (AgentEvent F) → Budget F → Result (Budget F)
  restore [] b = ok b
  restore (ev ∷ events) b = elim (restore_event ev.kind ev.payload b) [
    | ok b' ↦ restore events b'
    | raised e ↦ raised e
  ]

  -- `_PRICES.get(model, (0.0, 0.0))`, in dollars for a million tokens
  unfoldable pub prices : String → F × F
  prices model =
      if str_eq model "gpt-4o-mini"
      then (fl.decimal 15 2, fl.decimal 60 2)
      else if str_eq model "gpt-4o"
      then (fl.decimal 250 2, fl.decimal 1000 2)
      else if str_eq model "gpt-4.1-mini"
      then (fl.decimal 40 2, fl.decimal 160 2)
      else (fl.of_ℕ 0, fl.of_ℕ 0)

  -- The dollars of one reply.
  unfoldable pub llm_cost : String → Usage → F
  unfolding prices
  llm_cost model usage =
      let million = fl.of_ℕ 1_000_000 in
      fl.add (fl.mul (fl.div (fl.of_ℕ usage.prompt_tokens) million) (prices model).0)
        (fl.mul (fl.div (fl.of_ℕ usage.completion_tokens) million) (prices model).1)

  -- The payload that `charge_llm_usage` appends to the trace.
  abbrev pub usage_payload : Usage → F → Fields F
  usage_payload usage cost = field "prompt_tokens" (num (fl.of_ℕ usage.prompt_tokens)) (
      field "completion_tokens" (num (fl.of_ℕ usage.completion_tokens))
        (field "usd" (num cost) end))

  abbrev pub charge_usd : F → Budget F → Budget F
  charge_usd cost b = record b { usd = fl.add b.usd cost }

  -- `check_or_raise`; none means that it returns.
  unfoldable pub check_or_raise : Budget F → Option (Exhausted F)
  check_or_raise b =
      if leb b.cap.max_iters b.iters
      then some (iters_reached b.cap.max_iters b.iters)
      else if leb b.cap.max_tool_calls b.tool_calls
      then some (tool_calls_reached b.cap.max_tool_calls b.tool_calls)
      else if fl.le b.cap.max_usd b.usd
      then some (usd_reached b.cap.max_usd b.usd)
      else none

module _ {F : Type 0} where
  abbrev pub charge_tool_call : Budget F → Budget F
  charge_tool_call b = record b { tool_calls = b.tool_calls + 1 }

  abbrev pub charge_iter : Budget F → Budget F
  charge_iter b = record b { iters = b.iters + 1 }

-- `str(e)`, given how numbers are printed: a count, a float, and a float with four decimals.
pub record Show (F : Type 0) : Type 0 where
  pub show_ℕ : ℕ → String
  pub show_float : F → String
  pub show_float₄ : F → String

unfoldable pub reason_text : {F : Type 0} → Show F → Exhausted F → String
reason_text sh (iters_reached cap n) =
    "max_iters=" <> sh.show_ℕ cap <> " reached (iters=" <> sh.show_ℕ n <> ")"
reason_text sh (tool_calls_reached cap n) =
    "max_tool_calls=" <> sh.show_ℕ cap <> " reached (tool_calls=" <> sh.show_ℕ n <> ")"
reason_text sh (usd_reached cap x) =
    "max_usd=" <> sh.show_float cap <> " reached (usd=" <> sh.show_float₄ x <> ")"
