-- ===== src/Agent/Improve.antt =====
-- `run_improve` of deepCab/agent/improve.py. The prompts of the two agents are fields of the
-- configuration here; what the loop yields is collected in `out`, and its caller takes every event.
pub mod Keeping
pub mod Stopping
pub mod Restart
use deep_cab.Prelude.{
  ℕ, zero, suc, ◌+◌, ◌-◌, ◌/◌, max, String, ◌<>◌, Bool, true, false, not, Option, none, some, List,
  [], ◌∷◌, ◌++◌, ◌&&◌, ◌||◌, str_eq, leb, ◌==◌, if◌then◌else◌, length, take, drop,
}
use deep_cab.Prelude.Floats.{FloatOps}
use deep_cab.Prelude.Dict.{Dict, lookup, insert}
use deep_cab.Prelude.Exec.{Result, ok, raised}
use deep_cab.Agent.Json.{
  Json, null, str, num, arr, obj, Items, nil, cons, Fields, end, field, get, has, or_null, to_float,
}
use deep_cab.Agent.Event.{
  AgentEvent, Kind, plan, error, note, done, budget, Sse, called, budget_exhausted, iter_start,
  planned, iter_end, plateau, circuit_breaker,
}
use deep_cab.Agent.Gen.{
  Gen, Outcome, returned, closed, failed, pure, close, gets, lift, modify, ◌>>=◌, ◌>>◌,
}
use deep_cab.Agent.Budget.{
  BudgetCap, Budget, Exhausted, charge_iter, fresh, restore, check_or_raise, reason_text,
}
use deep_cab.Agent.Site.{Site, Run, Message, log, with_budget}
use deep_cab.Agent.Executor.{run_one_turn}
use deep_cab.Agent.Planner.{ToolCall, dump_steps, make_plan}

-- `ImproveConfig` of deepCab/schemas/agent.py, with the prompts and the executor's step limit.
pub record ImproveConfig (F : Type 0) : Type 0 where
  pub goal : String
  pub cap : BudgetCap F
  pub plateau_eps : F
  pub plateau_window : ℕ
  pub per_tool_timeout_s : F
  pub circuit_breaker_n : ℕ
  pub planner_prompt : String
  pub executor_prompt : String
  pub max_steps : ℕ

-- What the loop keeps beside the budget and the log.
pub record Mine (F : Type 0) : Type 0 where
  pub out : List (Sse F)
  pub error_counts : Dict ℕ
  pub iter_metric : Option F

-- Whether the loop came to its end, or the fuel ran out first.
pub data Ending : Type 0 where
  finished out_of_fuel : Ending

abbrev pub count_of : Option ℕ → ℕ
count_of none = 0
count_of (some n) = n

-- `xs[-n:]`
abbrev pub last_n {ℓ} : {A : Type ℓ} → ℕ → List A → List A
last_n n xs = if n == 0 then xs else drop (length xs - n) xs

module _ {F : Type 0} (fl : FloatOps F) where
  pub sum_from : F → List F → F
  sum_from acc [] = acc
  sum_from acc (x ∷ xs) = sum_from (fl.add acc x) xs

  abbrev pub mean : List F → ℕ → F
  mean xs k = fl.div (sum_from (fl.of_ℕ 0) xs) (fl.of_ℕ k)

  -- `len(window) // 2 or 1`
  abbrev pub half_of : List F → ℕ
  half_of window = max (length window / 2) 1

  unfoldable pub old_mean : List F → F
  unfolding sum_from
  old_mean window = mean (take (half_of window) window) (half_of window)

  unfoldable pub new_mean : List F → F
  unfolding sum_from
  new_mean window = mean (drop (half_of window) window) (max (length window - half_of window) 1)

  unfoldable pub improvement_of : List F → F
  unfolding old_mean new_mean
  improvement_of window = fl.sub (old_mean window) (new_mean window)

  pub num_items : List F → Items F
  num_items [] = nil
  num_items (x ∷ xs) = cons (num x) (num_items xs)

module _ {F W : Type 0} (site : Site F W) (cfg : ImproveConfig F) (model : String) where
  abbrev pub S : Type 0
  S = Run F W (Mine F)

  abbrev pub I : Type 0 → Type 0
  I A = Gen S A

  abbrev pub with_mine : (Mine F → Mine F) → I (Unit {0})
  with_mine f = modify (λ s. record s { mine = f s.mine })

  -- `yield ev` of `run_improve`
  abbrev pub yield_up : Sse F → I (Unit {0})
  yield_up ev = with_mine (λ m. record m { out = m.out ++ ev ∷ [] })

  -- `_err_key`
  unfoldable pub err_key : String → Fields F → String
  err_key name result = site.blake2b (
      site.dumps_sorted (
        arr (
          cons (str name)
            (cons (or_null (get "args" result)) (cons (or_null (get "error" result)) nil)))))

  -- The circuit breaker, on a result that has an error.
  unfoldable pub break_circuit : ℕ → String → Fields F → I (Unit {0})
  break_circuit i name result = do
    let key = err_key name result
    counts ← gets (λ s. s.mine.error_counts)
    let n = suc (count_of (lookup key counts))
    with_mine (λ m. record m { error_counts = insert key n m.error_counts })
    if leb cfg.circuit_breaker_n n
        then (do
          log site i error "circuit_breaker" none
              (field "tool" (str name) (field "n_repeats" (num (site.floats.of_ℕ n)) end))
          yield_up (circuit_breaker name n)
          close)
        else pure tt

  abbrev pub metric_or_nan : Option (Json F) → Result F
  metric_or_nan none = to_float site.floats (str "nan")
  metric_or_nan (some v) = to_float site.floats v

  abbrev pub set_metric : Result F → I (Unit {0})
  set_metric r = do metric ← lift r; with_mine (λ m. record m { iter_metric = some metric })

  -- The capture of the evaluation, on a result without an error.
  unfoldable pub capture : String → Fields F → I (Unit {0})
  capture name result =
      if str_eq name "train"
      then set_metric (metric_or_nan (get "val_mae" result))
      else if str_eq name "evaluate"
      then set_metric (metric_or_nan (get "mae" result))
      else pure tt

  -- The body of the loop over the events of a turn.
  unfoldable pub on_event : ℕ → Sse F → I (Unit {0})
  on_event i (called name (obj result) replayed) = do
    yield_up (called name (obj result) replayed)
    if has "error" result then break_circuit i name result else capture name result
  on_event i (budget_exhausted reason) = do yield_up (budget_exhausted reason); close
  on_event i ev = yield_up ev

  -- The loop over a turn: whether `run_improve` returned from inside it.
  abbrev pub was_closed : Outcome (Unit {0}) → Outcome Bool
  was_closed (returned _) = returned false
  was_closed closed = returned true
  was_closed (failed e) = failed e

  unfoldable pub drive : I (Unit {0}) → I Bool
  drive m s = let (r, s') = m s in (was_closed r, s')

  pub plan_lines : List (ToolCall F) → String
  plan_lines [] = ""
  plan_lines (tc ∷ []) = "- " <> tc.name <> "(" <> site.dumps_sorted (obj tc.args) <> ")"
  plan_lines (tc ∷ rest) =
      "- " <> tc.name <> "(" <> site.dumps_sorted (obj tc.args) <> ")\n" <> plan_lines rest

  unfoldable pub user_message : List (ToolCall F) → String
  unfolding plan_lines
  user_message steps =
      "GOAL: "
      <> cfg.goal
      <> "\n\nPLAN:\n"
      <> plan_lines steps
      <> "\n\nExecute the plan tool-by-tool. If a tool returns {\"error\":...}, "
      <> "do NOT retry the same args."

  -- The part of an iteration after its plan, up to the end of its turn: whether the loop was left.
  unfoldable pub act : ℕ → List (ToolCall F) → I Bool
  act i steps = do
    yield_up (planned i (length steps))
    with_mine (λ m. record m { iter_metric = none })
    drive (
        run_one_turn site (on_event i) model cfg.per_tool_timeout_s cfg.max_steps
          (Message.system cfg.executor_prompt ∷ Message.user (user_message steps) ∷ []))

  -- An iteration up to the end of its turn.
  unfoldable pub run_turn : ℕ → I Bool
  run_turn i = do
    log site i plan "iter_start" none (field "goal" (str cfg.goal) end)
    yield_up (iter_start i)
    steps ← make_plan site cfg.planner_prompt model cfg.goal
    log site i plan "planner" none (field "steps" (arr (dump_steps steps)) end)
    act i steps

  -- The plateau test on a full window: whether the loop ends.
  unfoldable pub test_plateau : ℕ → List F → I Bool
  test_plateau i window = do
    let improvement = improvement_of site.floats window
    if site.floats.lt improvement cfg.plateau_eps
        then (do
          log site i done "plateau" none (
              field "window" (arr (num_items site.floats window)) (
                field "old_mean" (num (old_mean site.floats window)) (
                  field "new_mean" (num (new_mean site.floats window))
                    (field "improvement" (num improvement) end))))
          yield_up (plateau window improvement)
          pure true)
        else pure false

  -- The end of an iteration that has a metric, with the metrics so far: whether the loop ends.
  unfoldable pub note_metric : ℕ → F → List F → I Bool
  note_metric i metric metrics = do
    let window = last_n cfg.plateau_window metrics
    log site i note "iter_metric" none
        (field "metric" (num metric) (field "window" (arr (num_items site.floats window)) end))
    yield_up (iter_end i metric)
    if leb cfg.plateau_window (length metrics) then test_plateau i window else pure false

  unfoldable pub stop_budget : Exhausted F → I Ending
  stop_budget e = do
    let reason = reason_text site.show e
    i ← gets (λ s. s.budget.iters)
    log site i budget "" none (field "reason" (str reason) end)
    yield_up (budget_exhausted reason)
    pure finished

  -- What follows the turn; `next` goes on with the metrics so far.
  unfoldable pub end_iteration : ℕ → List F → Option F → (List F → I Ending) → I Ending
  end_iteration i metrics none next = next metrics
  end_iteration i metrics (some metric) next = do
    let metrics' = metrics ++ metric ∷ []
    stop ← note_metric i metric metrics'
    if stop then pure finished else next metrics'

  unfoldable pub iteration : Option (Exhausted F) → List F → (List F → I Ending) → I Ending
  iteration (some e) metrics next = stop_budget e
  iteration none metrics next = do
    i ← gets (λ s. s.budget.iters)
    with_budget charge_iter
    left ← run_turn i
    metric ← gets (λ s. s.mine.iter_metric)
    if left then pure finished else end_iteration i metrics metric next

  -- `while True`, on fuel.
  unfoldable pub improve_loop : ℕ → List F → I Ending
  improve_loop zero metrics = pure out_of_fuel
  improve_loop (suc fuel) metrics = do
    stop ← gets (λ s. check_or_raise site.floats s.budget)
    iteration stop metrics (improve_loop fuel)

  -- `budget.restore(trace)` on a fresh budget.
  unfoldable pub restore_budget : I (Unit {0})
  restore_budget = do
    events ← gets (λ s. s.trace)
    b ← lift (restore site.floats events (fresh site.floats cfg.cap))
    with_budget (λ _. b)

  -- `run_improve`
  unfoldable pub run_improve : ℕ → I Ending
  run_improve fuel = do restore_budget; improve_loop fuel []
