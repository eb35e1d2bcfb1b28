-- ===== src/Agent/Tools.antt =====
-- The tool registry of deepCab/agent/tools.py: `dispatch`, and `_call_tool_with_timeout` of
-- deepCab/agent/executor.py. A tool's validation and its body are arguments: they call the training
-- code and third-party packages, and may change the world.
use deep_cab.Prelude.{String, ◌<>◌, Bool, none, some, if◌then◌else◌}
use deep_cab.Prelude.Dict.{Dict, lookup}
use deep_cab.Prelude.Exec.{Result, ok, raised}
use deep_cab.Agent.Json.{Json, str, Fields, end, field}

pub record Tool (F W : Type 0) : Type 0 where
  -- `in_cls.model_validate(args)`
  pub validate : Json F → Result (Json F)
  -- `fn(parsed)`, dumped
  pub run : Json F → W → Result (Fields F) × W

pub record Registry (F W : Type 0) : Type 0 where
  -- `_TOOLS`
  pub tools : Dict (Tool F W)
  -- the text about an unknown tool, with the sorted names
  pub unknown : String → String
  -- whether the call outlasts its wall-clock timeout
  pub outlasts : F → String → Json F → W → Bool
  -- `f"timeout after {timeout_s}s"`
  pub timeout_text : F → String

module _ {F W : Type 0} (reg : Registry F W) where
  -- `{"error": text}`
  abbrev pub error_result : String → Fields F
  error_result text = field "error" (str text) end

  -- the `try` around the call
  abbrev pub as_data : Result (Fields F) → Fields F
  as_data (ok result) = result
  as_data (raised e) = error_result e

  abbrev pub run_validated : Tool F W → Result (Json F) → W → Fields F × W
  run_validated tool (raised e) w = (error_result ("args validation: " <> e), w)
  run_validated tool (ok args) w = let (r, w') = tool.run args w in (as_data r, w')

  -- `dispatch`: errors come back as data.
  unfoldable pub dispatch : String → Json F → W → Fields F × W
  unfolding lookup
  dispatch name args w = elim (lookup name reg.tools) [
    | none ↦ (error_result (reg.unknown name), w)
    | some tool ↦ run_validated tool (tool.validate args) w
  ]

  -- `_call_tool_with_timeout`: leaving the `with` block waits for the worker thread, so the call has run
  -- to its end also when its result is replaced by a timeout.
  unfoldable pub call_with_timeout : F → String → Json F → W → Fields F × W
  unfolding dispatch
  call_with_timeout timeout name args w =
      let (result, w') = dispatch name args w in
      (
        if reg.outlasts timeout name args w
            then error_result (reg.timeout_text timeout)
            else result,
        w',
      )
