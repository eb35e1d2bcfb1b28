-- ===== src/Agent/Site.antt =====
-- What the agent loop uses of the outside, and the state that it shares with its caller.
use deep_cab.Prelude.{ℕ, String, Option, List, [], ◌∷◌, ◌++◌}
use deep_cab.Prelude.Floats.{FloatOps}
use deep_cab.Prelude.Exec.{Result}
use deep_cab.Agent.Json.{Json, Fields}
use deep_cab.Agent.Event.{AgentEvent, Kind}
use deep_cab.Agent.Gen.{Gen, returned}
use deep_cab.Agent.Budget.{Budget, Show, Usage}
use deep_cab.Agent.Tools.{Registry}

-- A tool call of a reply; `arguments` may be missing.
pub record ToolCallRef : Type 0 where
  pub id : String
  pub name : String
  pub arguments : Option String

-- The messages of the chat.
pub data Message : Type 0 where
  system user : (content : String) → Message
  assistant : (content : String) (tool_calls : List ToolCallRef) → Message
  tool : (tool_call_id content : String) → Message

-- The part of a chat completion that the code reads. `tool_calls` is empty where it is None.
pub record Reply : Type 0 where
  pub usage : Option Usage
  pub content : Option String
  pub tool_calls : List ToolCallRef

-- The clock, random identifiers, the chat client, the tools, and the JSON and hash functions.
pub record Site (F W : Type 0) : Type 0 where
  pub floats : FloatOps F
  pub show : Show F
  pub registry : Registry F W
  -- `time.time()`
  pub now : W → F × W
  -- `uuid.uuid4().hex[:n]`
  pub hex : ℕ → W → String × W
  -- `client.chat.completions.create(model=..., messages=..., tools=...)`
  pub create : String → List Message → W → Result Reply × W
  -- `json.loads`; none is the JSONDecodeError
  pub loads : String → Option (Json F)
  pub dumps : Json F → String
  -- `json.dumps(..., sort_keys=True, default=str)`
  pub dumps_sorted : Json F → String
  -- `hashlib.blake2b(text.encode(), digest_size=8).hexdigest()`
  pub blake2b : String → String

-- The budget, the log, the world, and what the driving loop keeps for itself.
pub record Run (F W C : Type 0) : Type 0 where
  pub budget : Budget F
  pub loop_run_id : String
  pub trace : List (AgentEvent F)
  pub world : W
  pub mine : C

module _ {F W C : Type 0} (site : Site F W) where
  -- `trace.append(AgentEvent(iter=..., kind=..., name=..., request_id=..., payload=...))`
  unfoldable pub log : ℕ → Kind → String → Option String → Fields F → Gen (Run F W C) (Unit {0})
  log iter kind name request_id payload s =
      let (ts, w) = site.now s.world in
      (
        returned tt,
        record s {
          world = w;
          trace =
              s.trace
              ++ record {
                ts = ts;
                loop_run_id = s.loop_run_id;
                iter = iter;
                kind = kind;
                name = name;
                request_id = request_id;
                payload = payload;
              }
                ∷ [];
        },
      )

module _ {F W C : Type 0} where
  abbrev pub with_budget : (Budget F → Budget F) → Gen (Run F W C) (Unit {0})
  with_budget f s = (returned tt, record s { budget = f s.budget })

  -- A call that changes the world.
  abbrev pub in_world : {A : Type 0} → (W → A × W) → Gen (Run F W C) A
  in_world f s = let (a, w) = f s.world in (returned a, record s { world = w })
