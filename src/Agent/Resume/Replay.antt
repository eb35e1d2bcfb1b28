-- ===== src/Agent/Resume/Replay.antt =====
-- What the resume cache of deepCab/agent/executor.py holds of a log.
use deep_cab.Prelude.{
  String, true, Option, none, some, List, [], ◌∷◌, ◌++◌, ◌≡◌, ◌≢◌, ◌⊎◌, refl, ◌∙◌, ap, sym, arith,
  inl, inr, All, str_eq_ne,
}
use deep_cab.Prelude.Dict.{Dict, lookup, insert, contains, lookup-insert, lookup-insert_self}
use deep_cab.Prelude.Exec.{ok, Result-cases}
use deep_cab.Schemas.Settings.{text_or}
use deep_cab.Agent.Json.{Json, get, is_true, or_null}
use deep_cab.Agent.Event.{AgentEvent, Kind, tool_call, tool_result}
use deep_cab.Agent.Site.{Site}
use deep_cab.Agent.Resume.{
  Completed, cache_key, args_of, log_call, logged_calls, complete, complete_event, logged_results,
  resume_cache,
}

module _ {F W : Type 0} (site : Site F W) where
  -- The event is no call with this request id.
  abbrev pub NoCall : String → AgentEvent F → Type 0
  NoCall id ev = (ev.kind ≢ tool_call) ⊎ (text_or "" ev.request_id ≢ id)

  lookup-log_call :
      (id : String) (kind : Kind) (request_id : Option String) (call : String × Json F)
      (calls : Dict (String × Json F))
      → (kind ≢ tool_call) ⊎ (text_or "" request_id ≢ id)
      → lookup id (log_call site kind request_id call calls) ≡ lookup id calls
  lookup-log_call id tool_call request_id call calls (inl h) = absurd (h refl)
  lookup-log_call id tool_call request_id call calls (inr h) = ground (
    arith,
    lookup-insert (text_or "" request_id) id call calls,
    str_eq_ne (text_or "" request_id) id h,
  )
  lookup-log_call id _ request_id call calls h = refl

  lookup-logged_calls :
      (id : String) (events : List (AgentEvent F)) (calls : Dict (String × Json F))
      → All (NoCall id) events
      → lookup id (logged_calls site events calls) ≡ lookup id calls
  unfolding logged_calls
  lookup-logged_calls id [] calls h = refl
  lookup-logged_calls id (ev ∷ events) calls (h, hs) =
      lookup-logged_calls id events _ hs
      ∙ lookup-log_call id ev.kind ev.request_id (ev.name, args_of site ev.payload) calls h

  -- The last call with a request id is the one that its results are paired with.
  lookup-logged_call :
      (id : String) (before after : List (AgentEvent F)) (ev : AgentEvent F)
      (calls : Dict (String × Json F))
      → ev.kind ≡ tool_call
      → ev.request_id ≡ some id
      → id ≢ ""
      → All (NoCall id) after
      → lookup id (logged_calls site (before ++ ev ∷ after) calls)
        ≡ some (ev.name, args_of site ev.payload)
  unfolding logged_calls
  lookup-logged_call id [] after ev calls k r ne h =
      lookup-logged_calls id after _ h
      ∙ ground (
        arith,
        k,
        r,
        str_eq_ne id "" ne,
        lookup-insert_self id (ev.name, args_of site ev.payload) calls,
      )
  lookup-logged_call id (b ∷ before) after ev calls k r ne h =
      lookup-logged_call id before after ev _ k r ne h

  contains-insert :
      {V : Type 0} (k j : String) (v : V) (d : Dict V)
      → contains k d ≡ true
      → contains k (insert j v d) ≡ true
  contains-insert k j v d h = ground (arith, h, lookup-insert j k v d)

  contains-complete :
      (k : String) (call : Option (String × Json F)) (result : Option (Json F))
      (found next : Completed F)
      → contains k found ≡ true
      → complete site call result found ≡ ok next
      → contains k next ≡ true
  contains-complete k none result found next h e = ground (arith, h, e)
  contains-complete k (some (name, args)) none found next h e = ground (arith, e)
  contains-complete k (some (name, args)) (some result) found next h e =
      ground (arith, e, contains-insert k (cache_key site name args) result found h)

  contains-complete_event :
      (k : String) (calls : Dict (String × Json F)) (ev : AgentEvent F) (found next : Completed F)
      → contains k found ≡ true
      → complete_event site calls ev found ≡ ok next
      → contains k next ≡ true
  contains-complete_event k calls ev found next h e = ground (
    arith,
    h,
    e,
    contains-complete k (lookup (text_or "" ev.request_id) calls) (get "result" ev.payload) found
        next h,
  )

  contains-logged_results :
      (k : String) (calls : Dict (String × Json F)) (events : List (AgentEvent F))
      (found last : Completed F)
      → contains k found ≡ true
      → logged_results site calls events found ≡ ok last
      → contains k last ≡ true
  unfolding logged_results
  contains-logged_results k calls [] found last h e = ground (arith, h, e)
  contains-logged_results k calls (ev ∷ events) found last h e =
      elim (Result-cases (complete_event site calls ev found)) [
        | inl (next, good) ↦
            contains-logged_results k calls events next last
              (contains-complete_event k calls ev found next h good) (ground (arith, good, e))
        | inr (text, bad) ↦ absurd (ground (arith, bad, e))
      ]

  -- A result that is ok enters the cache under the call that it is paired with.
  logged_result-contains :
      (id name : String) (args : Json F) (result : Json F) (calls : Dict (String × Json F))
      (before after : List (AgentEvent F)) (ev : AgentEvent F) (found last : Completed F)
      → ev.kind ≡ tool_result
      → ev.request_id ≡ some id
      → id ≢ ""
      → is_true site.floats (or_null (get "ok" ev.payload)) ≡ true
      → get "result" ev.payload ≡ some result
      → lookup id calls ≡ some (name, args)
      → logged_results site calls (before ++ ev ∷ after) found ≡ ok last
      → contains (cache_key site name args) last ≡ true
  unfolding logged_results
  logged_result-contains id name args result calls [] after ev found last k r ne good res known e =
      let key = cache_key site name args in
      let next = insert key result found in
      let stored : complete_event site calls ev found ≡ ok next =
        ground (arith, k, r, str_eq_ne id "" ne, good, res, known) in
      contains-logged_results key calls after next last
        (ground (arith, lookup-insert_self key result found)) (ground (arith, stored, e))
  logged_result-contains id name args result calls (b ∷ before) after ev found last k r ne good res
        known e =
      elim (Result-cases (complete_event site calls b found)) [
        | inl (next, fine) ↦
            logged_result-contains id name args result calls before after ev next last k r ne good
              res known (ground (arith, fine, e))
        | inr (text, bad) ↦ absurd (ground (arith, bad, e))
      ]

  -- A tool call whose result is in the log as ok is in the resume cache under its name and arguments, if
  -- the log can be read and no later call has its request id.
  pub resume_cache-contains :
      (id : String) (result : Json F) (events before after before' after' : List (AgentEvent F))
      (call answer : AgentEvent F) (cache : Completed F)
      → id ≢ ""
      → events ≡ before ++ call ∷ after
      → events ≡ before' ++ answer ∷ after'
      → (call.kind ≡ tool_call) × (call.request_id ≡ some id) × All (NoCall id) after
      → (answer.kind ≡ tool_result)
        × (answer.request_id ≡ some id)
        × (is_true site.floats (or_null (get "ok" answer.payload)) ≡ true)
        × (get "result" answer.payload ≡ some result)
      → resume_cache site events ≡ ok cache
      → contains (cache_key site call.name (args_of site call.payload)) cache ≡ true
  unfolding resume_cache
  resume_cache-contains id result events before after before' after' call answer cache ne split
        split' (k, r, free) (k', r', good, res) e =
      let calls = logged_calls site events [] in
      let known : lookup id calls ≡ some (call.name, args_of site call.payload) =
        ap (λ (evs : List (AgentEvent F)). lookup id (logged_calls site evs [])) split
        ∙ lookup-logged_call id before after call [] k r ne free in
      logged_result-contains id call.name (args_of site call.payload) result calls before' after'
        answer [] cache k' r' ne good res known
        (ap (λ (evs : List (AgentEvent F)). logged_results site calls evs []) (sym split') ∙ e)
