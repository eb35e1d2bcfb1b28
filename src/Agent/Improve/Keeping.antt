-- ===== src/Agent/Improve/Keeping.antt =====
-- The induction over `run_improve` of deepCab/agent/improve.py: a predicate on the shared state that the
-- parts of an iteration keep is kept by the iteration, however it ends.
use deep_cab.Prelude.{ℕ, zero, suc, String, Option, none, some, List, [], ◌∷◌, ◌≢◌}
use deep_cab.Prelude.Exec.{Result}
use deep_cab.Agent.Json.{Json, obj, Items, nil, cons, Fields}
use deep_cab.Agent.Event.{
  Kind, llm, tool_call, tool_result, budget, plan, error, note, done, Sse, called,
}
use deep_cab.Agent.Gen.{
  Gen, Keeps, Keeps-bind, Keeps-lift, Keeps-pure, Keeps-gets, Keeps-if, keeps_rules,
}
use deep_cab.Agent.Budget.{Usage, Exhausted, charge_iter}
use deep_cab.Agent.Site.{Site, ToolCallRef, Message, log, in_world, with_budget}
use deep_cab.Agent.Executor.{answer_call, charge_usage, run_one_turn}
use deep_cab.Agent.Executor.Keeping.{run_one_turn-Keeps}
use deep_cab.Agent.Planner.{
  ToolCall, step_of_call, steps_of_calls, step_of_content, content_round, after_step,
  steps_of_content, steps_or_none, steps_of_reply, make_plan,
}
use deep_cab.Agent.Improve.{
  ImproveConfig, Mine, S, with_mine, break_circuit, set_metric, capture, on_event, drive, act,
  run_turn, test_plateau, note_metric, stop_budget, Ending, end_iteration, iteration, improve_loop,
}

module _ {F W : Type 0} (site : Site F W) (cfg : ImproveConfig F) (model : String)
    (P : S site cfg model → Type 0) where
  -- What has to be shown of the parts.
  pub record LoopParts : Type 0 where
    pub mines : (s : S site cfg model) (m : Mine F) → P s → P (record s { mine = m })
    pub worlds : (s : S site cfg model) (w : W) → P s → P (record s { world = w })
    pub logs :
        (kind : Kind)
        → kind ≢ llm
        → kind ≢ tool_result
        → kind ≢ plan
        → (iter : ℕ) (name : String) (id : Option String) (payload : Fields F)
        → Keeps P (log site iter kind name id payload)
    pub answers :
        (i : ℕ) (id : String) (cached : Option (Json F)) (name : String) (args : Json F)
        → Keeps P (
            answer_call site
              (on_event site cfg model i)
              model
              cfg.per_tool_timeout_s
              id
              cached
              name
              args)
    pub usages :
        (i : ℕ) (usage : Option Usage)
        → Keeps P (charge_usage site (on_event site cfg model i) model cfg.per_tool_timeout_s usage)

  module _ (parts : LoopParts) where
    with_mine-Keeps : (f : Mine F → Mine F) → Keeps P (with_mine site cfg model f)
    with_mine-Keeps f = record { kept = λ s h. parts.mines s (f s.mine) h }

    in_world-Keeps : {A : Type 0} (f : W → A × W) → Keeps P (in_world f)
    in_world-Keeps f = record { kept = λ s h. parts.worlds s (f s.world).1 h }

    error-Keeps :
        (iter : ℕ) (name : String) (id : Option String) (payload : Fields F)
        → Keeps P (log site iter error name id payload)
    error-Keeps = parts.logs error (λ e. cc) (λ e. cc) (λ e. cc)

    ruleset rules = (keeps_rules, with_mine-Keeps, in_world-Keeps)

    break_circuit-Keeps :
        (i : ℕ) (name : String) (result : Fields F)
        → Keeps P (break_circuit site cfg model i name result)
    unfolding break_circuit
    break_circuit-Keeps i name result = search (rules, error-Keeps) depth 12

    set_metric-Keeps : (r : Result F) → Keeps P (set_metric site cfg model r)
    set_metric-Keeps r = search rules depth 12

    capture-Keeps :
        (name : String) (result : Fields F) → Keeps P (capture site cfg model name result)
    unfolding capture
    capture-Keeps name result = search (rules, set_metric-Keeps) depth 12

    on_event-Keeps : (i : ℕ) (ev : Sse F) → Keeps P (on_event site cfg model i ev)
    unfolding on_event
    on_event-Keeps i (called name (obj result) replayed) =
        search (rules, break_circuit-Keeps, capture-Keeps) depth 12
    on_event-Keeps i _ = search rules depth 12

    step_of_call-Keeps :
        (tc : ToolCallRef) (others : Gen (S site cfg model) (List (ToolCall F)))
        → Keeps P others
        → Keeps P (step_of_call site tc others)
    unfolding step_of_call
    step_of_call-Keeps tc others keep = Keeps-bind _ _ (in_world-Keeps _) (λ hex.
        Keeps-bind _ _ (Keeps-lift _) (λ args. Keeps-bind _ _ (in_world-Keeps _) (λ ts.
          Keeps-bind _ _ (Keeps-lift _) (λ fields. Keeps-bind _ _ keep (λ steps. Keeps-pure _)))))

    steps_of_calls-Keeps : (calls : List ToolCallRef) → Keeps P (steps_of_calls site calls)
    unfolding steps_of_calls
    steps_of_calls-Keeps [] = search rules
    steps_of_calls-Keeps (tc ∷ rest) =
        step_of_call-Keeps tc (steps_of_calls site rest) (steps_of_calls-Keeps rest)

    step_of_content-Keeps :
        (id : String) (step : Json F) (name : Option (Json F))
        → Keeps P (step_of_content site id step name)
    unfolding step_of_content
    step_of_content-Keeps id step none = search rules
    step_of_content-Keeps id step (some name) = search rules depth 12

    after_step-Keeps :
        (steps : Gen (S site cfg model) (List (ToolCall F))) (found : Option (ToolCall F))
        → Keeps P steps
        → Keeps P (after_step steps found)
    unfolding after_step
    after_step-Keeps steps none keep = search rules
    after_step-Keeps steps (some tc) keep = search (rules, keep)

    content_round-Keeps :
        (step : Json F) (others : Gen (S site cfg model) (List (ToolCall F)))
        → Keeps P others
        → Keeps P (content_round site step others)
    unfolding content_round
    content_round-Keeps step others keep =
        Keeps-bind _ _ (in_world-Keeps _)
          (λ hex. Keeps-bind _ _ (step_of_content-Keeps _ _ _) (λ found. after_step-Keeps _ _ keep))

    steps_of_content-Keeps : (items : Items F) → Keeps P (steps_of_content site items)
    unfolding steps_of_content
    steps_of_content-Keeps nil = search rules
    steps_of_content-Keeps (cons step rest) =
        content_round-Keeps step (steps_of_content site rest) (steps_of_content-Keeps rest)

    steps_or_none-Keeps : (items : Option (Items F)) → Keeps P (steps_or_none site items)
    unfolding steps_or_none
    steps_or_none-Keeps none = search rules
    steps_or_none-Keeps (some items) = steps_of_content-Keeps items

    steps_of_reply-Keeps :
        (content : Option String) (calls : List ToolCallRef)
        → Keeps P (steps_of_reply site content calls)
    unfolding steps_of_reply
    steps_of_reply-Keeps content [] = steps_or_none-Keeps _
    steps_of_reply-Keeps content (tc ∷ rest) = steps_of_calls-Keeps (tc ∷ rest)

    pub make_plan-Keeps : (prompt goal : String) → Keeps P (make_plan site prompt model goal)
    unfolding make_plan
    make_plan-Keeps prompt goal = search (rules, steps_of_reply-Keeps) depth 12

    drive-Keeps :
        (m : Gen (S site cfg model) (Unit {0})) → Keeps P m → Keeps P (drive site cfg model m)
    unfolding drive
    drive-Keeps m keep = record { kept = λ s h. keep.kept s h }

    turn-Keeps :
        (i : ℕ) (messages : List Message)
        → Keeps P (
            run_one_turn site
              (on_event site cfg model i)
              model
              cfg.per_tool_timeout_s
              cfg.max_steps
              messages)
    turn-Keeps i messages =
        run_one_turn-Keeps site P (on_event site cfg model i) model cfg.per_tool_timeout_s
          (record {
            emits = on_event-Keeps i;
            worlds = parts.worlds;
            calls = parts.logs tool_call (λ e. cc) (λ e. cc) (λ e. cc);
            stops = parts.logs budget (λ e. cc) (λ e. cc) (λ e. cc);
            answers = parts.answers i;
            usages = parts.usages i;
          })
          cfg.max_steps messages

    -- The part of an iteration after its plan.
    pub act-Keeps : (i : ℕ) (steps : List (ToolCall F)) → Keeps P (act site cfg model i steps)
    unfolding act
    act-Keeps i steps = search (rules, drive-Keeps, turn-Keeps) depth 12

    pub run_turn-Keeps :
        ((iter : ℕ) (name : String) (id : Option String) (payload : Fields F)
          → Keeps P (log site iter plan name id payload))
        → (i : ℕ) → Keeps P (run_turn site cfg model i)
    unfolding run_turn
    run_turn-Keeps plans i = search (rules, plans, make_plan-Keeps, act-Keeps) depth 20

    test_plateau-Keeps : (i : ℕ) (window : List F) → Keeps P (test_plateau site cfg model i window)
    unfolding test_plateau
    test_plateau-Keeps i window =
        search (rules, parts.logs done (λ e. cc) (λ e. cc) (λ e. cc)) depth 12

    pub note_metric-Keeps :
        (i : ℕ) (metric : F) (metrics : List F)
        → Keeps P (note_metric site cfg model i metric metrics)
    unfolding note_metric
    note_metric-Keeps i metric metrics =
        search (rules, parts.logs note (λ e. cc) (λ e. cc) (λ e. cc), test_plateau-Keeps) depth 12

    pub stop_budget-Keeps : (e : Exhausted F) → Keeps P (stop_budget site cfg model e)
    unfolding stop_budget
    stop_budget-Keeps e = search (rules, parts.logs budget (λ e. cc) (λ e. cc) (λ e. cc)) depth 12

    end_iteration-Keeps :
        (i : ℕ) (metrics : List F) (metric : Option F)
        (next : List F → Gen (S site cfg model) Ending)
        → ((metrics' : List F) → Keeps P (next metrics'))
        → Keeps P (end_iteration site cfg model i metrics metric next)
    unfolding end_iteration
    end_iteration-Keeps i metrics none next keep = keep metrics
    end_iteration-Keeps i metrics (some metric) next keep =
        Keeps-bind _ _ (note_metric-Keeps i metric _)
          (λ stop. Keeps-if stop _ _ (λ _. Keeps-pure _) (λ _. keep _))

  module _ (parts : LoopParts)
      (plans : (iter : ℕ) (name : String) (id : Option String) (payload : Fields F)
        → Keeps P (log site iter plan name id payload))
      (charge : Keeps P (with_budget charge_iter)) where
    iteration-Keeps :
        (stop : Option (Exhausted F)) (metrics : List F)
        (next : List F → Gen (S site cfg model) Ending)
        → ((metrics' : List F) → Keeps P (next metrics'))
        → Keeps P (iteration site cfg model stop metrics next)
    unfolding iteration
    iteration-Keeps (some e) metrics next keep = stop_budget-Keeps parts e
    iteration-Keeps none metrics next keep = Keeps-bind _ _ (Keeps-gets _) (λ i.
        Keeps-bind _ _ charge (λ _. Keeps-bind _ _ (run_turn-Keeps parts plans i) (λ left.
          Keeps-bind _ _ (Keeps-gets _) (λ metric.
            Keeps-if left _ _ (λ _. Keeps-pure _)
              (λ _. end_iteration-Keeps parts i metrics metric next keep)))))

    pub improve_loop-Keeps :
        (fuel : ℕ) (metrics : List F) → Keeps P (improve_loop site cfg model fuel metrics)
    unfolding improve_loop
    improve_loop-Keeps zero metrics = Keeps-pure _
    improve_loop-Keeps (suc fuel) metrics = Keeps-bind _ _ (Keeps-gets _) (λ stop.
        iteration-Keeps stop metrics (improve_loop site cfg model fuel) (improve_loop-Keeps fuel))
