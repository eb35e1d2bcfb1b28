-- ===== src/Agent/Planner.antt =====
-- `make_plan` of deepCab/agent/planner.py: the proposed tool calls of a reply, or the steps of its JSON
-- content. The system prompt is an argument.
use deep_cab.Prelude.{String, ◌<>◌, Option, none, some, List, [], ◌∷◌}
use deep_cab.Prelude.Exec.{Result, ok, raised}
use deep_cab.Schemas.Settings.{or_else, text_or}
use deep_cab.Agent.Json.{Json, str, arr, obj, Items, nil, cons, Fields, end, field, num, get}
use deep_cab.Agent.Gen.{Gen, pure, lift, ◌>>=◌}
use deep_cab.Agent.Site.{Site, Run, ToolCallRef, Message, in_world}

-- `ToolCall` of deepCab/schemas/agent.py
pub record ToolCall (F : Type 0) : Type 0 where
  pub request_id : String
  pub name : String
  pub args : Fields F
  pub issued_at : F

module _ {F : Type 0} where
  -- The validation of `ToolCall`: `args` must be an object.
  abbrev pub args_fields : Json F → Result (Fields F)
  args_fields (obj fields) = ok fields
  args_fields _ = raised "ValidationError"

  -- `step["name"]`, if the step is an object that has it; otherwise it raises.
  abbrev pub name_of : Json F → Option (Json F)
  name_of (obj fields) = get "name" fields
  name_of _ = none

  -- `step.get("args", {})`
  abbrev pub plan_args : Json F → Json F
  plan_args (obj fields) = elim (get "args" fields) [ none ↦ obj end | some args ↦ args ]
  plan_args _ = obj end

  -- `obj.get("steps", [])` as something to iterate over; none means that this raises at once.
  abbrev pub steps_of : Json F → Option (Items F)
  steps_of (obj fields) = elim (get "steps" fields) [
    | none ↦ some nil
    | some steps ↦ elim steps [ arr items ↦ some items | _ ↦ none ]
  ]
  steps_of _ = none

  -- The `ToolCall` of a step of the content, if both fields validate.
  abbrev pub valid_step : String → F → Json F → Json F → Option (ToolCall F)
  valid_step id ts (str name) (obj args) =
      some (record { request_id = id; name = name; args = args; issued_at = ts })
  valid_step id ts _ _ = none

  -- `[s.model_dump() for s in plan.steps]`
  pub dump_steps : List (ToolCall F) → Items F
  dump_steps [] = nil
  dump_steps (tc ∷ rest) =
      cons
        (obj (
          field "request_id" (str tc.request_id) (
            field "name" (str tc.name)
              (field "args" (obj tc.args) (field "issued_at" (num tc.issued_at) end)))))
        (dump_steps rest)

  abbrev pub content_items : Option (Json F) → Option (Items F)
  content_items none = none
  content_items (some content) = steps_of content

module _ {F W : Type 0} (site : Site F W) where
  abbrev pub loads_or_raise : Option String → Result (Json F)
  loads_or_raise arguments = elim (site.loads (text_or "{}" (or_else arguments (some "{}")))) [
    | none ↦ raised "JSONDecodeError"
    | some args ↦ ok args
  ]

module _ {F W C : Type 0} where
  -- What follows a round of that loop, given the rest of it.
  unfoldable pub after_step :
      Gen (Run F W C) (List (ToolCall F))
      → Option (ToolCall F)
      → Gen (Run F W C) (List (ToolCall F))
  after_step others none = pure []
  after_step others (some tc) = do steps ← others; pure (tc ∷ steps)

module _ {F W C : Type 0} (site : Site F W) where
  -- One round of the loop over `msg.tool_calls`, given the rest of it: arguments that do not parse or
  -- validate raise.
  unfoldable pub step_of_call :
      ToolCallRef → Gen (Run F W C) (List (ToolCall F)) → Gen (Run F W C) (List (ToolCall F))
  step_of_call tc others = do
    hex ← in_world (site.hex 8)
    args ← lift (loads_or_raise site tc.arguments)
    ts ← in_world site.now
    fields ← lift (args_fields args)
    steps ← others
    pure (
        record { request_id = "plan-" <> hex; name = tc.name; args = fields; issued_at = ts }
        ∷ steps)

  unfoldable pub steps_of_calls : List ToolCallRef → Gen (Run F W C) (List (ToolCall F))
  steps_of_calls [] = pure []
  steps_of_calls (tc ∷ rest) = step_of_call tc (steps_of_calls rest)

  -- One round of the loop over the content's steps; none means that it raised.
  unfoldable pub step_of_content :
      String → Json F → Option (Json F) → Gen (Run F W C) (Option (ToolCall F))
  step_of_content id step none = pure none
  step_of_content id step (some name) = do
    ts ← in_world site.now
    pure (valid_step id ts name (plan_args step))

  unfoldable pub content_round :
      Json F → Gen (Run F W C) (List (ToolCall F)) → Gen (Run F W C) (List (ToolCall F))
  content_round step others = do
    hex ← in_world (site.hex 8)
    found ← step_of_content ("plan-" <> hex) step (name_of step)
    after_step others found

  -- The loop in the `try`: an exception ends it, and the steps so far stay.
  unfoldable pub steps_of_content : Items F → Gen (Run F W C) (List (ToolCall F))
  steps_of_content nil = pure []
  steps_of_content (cons step rest) = content_round step (steps_of_content rest)

  unfoldable pub steps_or_none : Option (Items F) → Gen (Run F W C) (List (ToolCall F))
  steps_or_none none = pure []
  steps_or_none (some items) = steps_of_content items

  unfoldable pub steps_of_reply :
      Option String → List ToolCallRef → Gen (Run F W C) (List (ToolCall F))
  steps_of_reply content [] =
      steps_or_none (content_items (site.loads (text_or "{}" (or_else content (some "{}")))))
  steps_of_reply content (tc ∷ rest) = steps_of_calls (tc ∷ rest)

  -- `make_plan`
  unfoldable pub make_plan : String → String → String → Gen (Run F W C) (List (ToolCall F))
  make_plan system_prompt model goal = do
    answer ← in_world (site.create model (Message.system system_prompt ∷ Message.user goal ∷ []))
    reply ← lift answer
    steps_of_reply reply.content reply.tool_calls
