-- ===== src/Agent/Resume.antt =====
-- The resume cache of `run_one_turn` of deepCab/agent/executor.py: `_cache_key`, and the two loops that
-- pair the logged calls with their results.
pub mod Replay
use deep_cab.Prelude.{String, ◌<>◌, Option, none, some, List, [], ◌∷◌, ◌&&◌, if◌then◌else◌}
use deep_cab.Prelude.Dict.{Dict, lookup, insert}
use deep_cab.Prelude.Exec.{Result, ok, raised}
use deep_cab.Schemas.Settings.{truthy, or_else, text_or}
use deep_cab.Agent.Json.{Json, obj, Fields, end, get, is_true, or_null}
use deep_cab.Agent.Event.{AgentEvent, Kind, tool_call, tool_result}
use deep_cab.Agent.Site.{Site}

-- The results of earlier calls by their cache key.
abbrev pub Completed : Type 0 → Type 0
Completed F = Dict (Json F)

module _ {F W : Type 0} (site : Site F W) where
  -- `_cache_key`
  unfoldable pub cache_key : String → Json F → String
  cache_key name args = site.blake2b (name <> "|" <> site.dumps_sorted args)

  -- `ev.payload.get("args") or {}`
  abbrev pub args_of : Fields F → Json F
  args_of payload =
      let args = or_null (get "args" payload) in if is_true site.floats args then args else obj end

  -- One round of the first loop, by the event's kind.
  abbrev pub log_call :
      Kind → Option String → String × Json F → Dict (String × Json F) → Dict (String × Json F)
  log_call tool_call request_id call calls =
      if truthy request_id then insert (text_or "" request_id) call calls else calls
  log_call _ request_id call calls = calls

  -- The first loop over the log: the name and the arguments of each logged call, by request id.
  pub logged_calls : List (AgentEvent F) → Dict (String × Json F) → Dict (String × Json F)
  logged_calls [] calls = calls
  logged_calls (ev ∷ events) calls =
      logged_calls events (log_call ev.kind ev.request_id (ev.name, args_of ev.payload) calls)

  -- `completed_results[_cache_key(name_r, args_r)] = ev.payload["result"]`
  abbrev pub complete :
      Option (String × Json F) → Option (Json F) → Completed F → Result (Completed F)
  complete none result done = ok done
  complete (some (name, args)) (some result) done = ok (insert (cache_key name args) result done)
  complete (some (name, args)) none done = raised "KeyError"

  abbrev pub complete_event :
      Dict (String × Json F) → AgentEvent F → Completed F → Result (Completed F)
  complete_event calls ev done = elim ev.kind [
    | tool_result ↦
        if truthy ev.request_id && is_true site.floats (or_null (get "ok" ev.payload))
        then complete (lookup (text_or "" ev.request_id) calls) (get "result" ev.payload) done
        else ok done
    | _ ↦ ok done
  ]

  -- The second loop over the log.
  pub logged_results :
      Dict (String × Json F) → List (AgentEvent F) → Completed F → Result (Completed F)
  logged_results calls [] done = ok done
  logged_results calls (ev ∷ events) done = elim (complete_event calls ev done) [
    | ok done' ↦ logged_results calls events done'
    | raised e ↦ raised e
  ]

  -- The resume cache that a turn starts from.
  unfoldable pub resume_cache : List (AgentEvent F) → Result (Completed F)
  unfolding logged_calls logged_results
  resume_cache events = logged_results (logged_calls events []) events []

  -- The `try` around `json.loads(tc.function.arguments or "{}")`.
  unfoldable pub parse_args : Option String → Json F
  parse_args arguments = elim (site.loads (text_or "{}" (or_else arguments (some "{}")))) [
    | some args ↦ args
    | none ↦ obj end
  ]
