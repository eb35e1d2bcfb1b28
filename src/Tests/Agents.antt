-- ===== src/Tests/Agents.antt =====
-- The agent loop of deepCab/agent on a client that calls one tool and then answers.
use deep_cab.Prelude.{
  eq_iff, false≢true, All, inl, String, true, ℕ, ◌+◌, Bool, false, none, some, List, [], ◌∷◌, ◌≡◌,
  ◌≢◌, refl, arith,
}
use deep_cab.Prelude.Floats.{fixed}
use deep_cab.Prelude.Exec.{ok}
use deep_cab.Agent.Json.{Fields, boolean, get, is_true, or_null, num, obj, end, field}
use deep_cab.Prelude.Dict.{lookup, insert, contains}
use deep_cab.Agent.Resume.{Completed, cache_key, args_of, resume_cache}
use deep_cab.Agent.Resume.Replay.{NoCall, resume_cache-contains}
use deep_cab.Agent.Event.{AgentEvent, Kind, tool_call, tool_result, Sse}
use deep_cab.Agent.Gen.{Gen, returned, Keeps, Keeps-pure, Holds, pure, ◌>>◌}
use deep_cab.Agent.Budget.{BudgetCap, fresh, restore, charge_iter}
use deep_cab.Agent.Tools.{Tool}
use deep_cab.Agent.Site.{Site, Message, ToolCallRef, with_budget}
use deep_cab.Agent.Executor.{run_one_turn}
use deep_cab.Agent.Executor.Calls.{IsCharged, run_one_turn-IsCharged}
use deep_cab.Agent.Executor.Frame.{Follows, run_one_turn-Follows}
use deep_cab.Agent.Executor.Log.{IsBooked}
use deep_cab.Agent.Improve.{ImproveConfig, out_of_fuel, S, run_turn, run_improve}
use deep_cab.Agent.Improve.Stopping.{run_improve_ends}
use deep_cab.Agent.Improve.Restart.{Restores, run_improve-IsBooked, run_turn-restored}

abbrev train_tool : Tool ℕ ℕ
train_tool = record {
  validate = λ args. ok args;
  run = λ args w. (ok (field "val_mae" (num w) end), w + 1);
}

abbrev tool_calls : List Message → List ToolCallRef
tool_calls (_ ∷ _ ∷ []) = record { id = "call-1"; name = "train"; arguments = none } ∷ []
tool_calls _ = []

-- Two messages are answered by a tool call, and more by a text.
abbrev site : Site ℕ ℕ
site = record {
  floats = fixed;
  show = record { show_ℕ = λ n. "n"; show_float = λ x. "x"; show_float₄ = λ x. "x" };
  registry = record {
    tools = ("train", train_tool) ∷ [];
    unknown = λ name. "unknown tool";
    outlasts = λ timeout name args w. false;
    timeout_text = λ timeout. "timeout";
  };
  now = λ w. (w, w + 1);
  hex = λ n w. ("00", w);
  create = λ model messages w. (
    ok (record {
      usage = some (record { prompt_tokens = 100; completion_tokens = 20 });
      content = some "done";
      tool_calls = tool_calls messages;
    }),
    w + 1,
  );
  loads = λ text. some (obj end);
  dumps = λ value. "{}";
  dumps_sorted = λ value. "{}";
  blake2b = λ text. text;
}

abbrev cap : BudgetCap ℕ
cap = record { max_iters = 2; max_tool_calls = 10; max_usd = 500_000_000 }

abbrev cfg : ImproveConfig ℕ
cfg = record {
  goal = "lower the error";
  cap = cap;
  plateau_eps = 1_000_000;
  plateau_window = 3;
  per_tool_timeout_s = 60;
  circuit_breaker_n = 3;
  planner_prompt = "plan";
  executor_prompt = "execute";
  max_steps = 4;
}

abbrev start : S site cfg "gpt-4o"
start = record {
  budget = fresh fixed cap;
  loop_run_id = "loop";
  trace = [];
  world = 0;
  mine = record { out = []; error_counts = []; iter_metric = none };
}

abbrev messages : List Message
messages = Message.system "execute" ∷ Message.user "go" ∷ []

-- A caller that only reads the events.
abbrev listen : Sse ℕ → Gen (S site cfg "gpt-4o") (Unit {0})
listen ev = pure tt

-- The log of a fresh run is empty.
restored : restore fixed [] (fresh fixed cap) ≡ ok (fresh fixed cap)
unfolding restore
restored = refl

run_improve_ends_example : (run_improve site cfg "gpt-4o" 3 start).0 ≢ returned out_of_fuel
run_improve_ends_example = run_improve_ends site cfg "gpt-4o" 3 start (omega arith)

run_improve-IsBooked_example : IsBooked site (run_improve site cfg "gpt-4o" 3 start).1
run_improve-IsBooked_example =
    run_improve-IsBooked site cfg "gpt-4o" 3 start (fresh fixed cap) restored

run_turn-restored_example :
    Holds
      (λ (_ : Bool) s'. Restores site cfg "gpt-4o" cap (0 + 2) s' × (s'.budget.iters ≡ 0 + 1))
      ((with_budget charge_iter >> run_turn site cfg "gpt-4o" 0) start).0
      ((with_budget charge_iter >> run_turn site cfg "gpt-4o" 0) start).1
run_turn-restored_example = run_turn-restored site cfg "gpt-4o" 0 start (fresh fixed cap) restored

run_one_turn-IsCharged_example :
    Keeps (IsCharged site 0) (run_one_turn site listen "gpt-4o" 60 4 messages)
run_one_turn-IsCharged_example =
    run_one_turn-IsCharged site 0 listen "gpt-4o" 60 (λ ev. Keeps-pure tt) 4 messages

run_one_turn-Follows_example :
    Keeps (Follows [] cap 0 "loop") (run_one_turn site listen "gpt-4o" 60 4 messages)
run_one_turn-Follows_example =
    run_one_turn-Follows site [] cap 0 "loop" listen "gpt-4o" 60 (λ ev. Keeps-pure tt) 4 messages

abbrev event_of : Kind → Fields ℕ → AgentEvent ℕ
event_of kind payload = record {
  ts = 0;
  loop_run_id = "loop";
  iter = 0;
  kind = kind;
  name = "train";
  request_id = some "step-0";
  payload = payload;
}

abbrev call_event : AgentEvent ℕ
call_event = event_of tool_call (field "args" (obj end) end)

abbrev answer_event : AgentEvent ℕ
answer_event = event_of tool_result (field "ok" (boolean true) (field "result" (obj end) end))

named_lem : ◌≢◌ {A = String} "step-0" ""
named_lem e = false≢true ((eq_iff "step-0" "").1 e)

call_logged :
    (call_event.kind ≡ tool_call)
    × (call_event.request_id ≡ some "step-0")
    × All (NoCall site "step-0") (answer_event ∷ [])
call_logged = (refl, refl, (inl (λ e. cc), tt))

answer_logged :
    (answer_event.kind ≡ tool_result)
    × (answer_event.request_id ≡ some "step-0")
    × (is_true fixed (or_null (get "ok" answer_event.payload)) ≡ true)
    × (get "result" answer_event.payload ≡ some (obj end))
unfolding get
answer_logged = (refl, refl, refl, refl)

abbrev kept_cache : Completed ℕ
kept_cache = ("train|{}", obj end) ∷ []

cache_lem : resume_cache site (call_event ∷ answer_event ∷ []) ≡ ok kept_cache
unfolding resume_cache cache_key get lookup insert
cache_lem = refl

resume_cache-contains_example :
    contains (cache_key site "train" (args_of site call_event.payload)) kept_cache ≡ true
resume_cache-contains_example =
    resume_cache-contains site "step-0" (obj end) (call_event ∷ answer_event ∷ []) []
      (answer_event ∷ []) (call_event ∷ []) [] call_event answer_event kept_cache named_lem refl
      refl call_logged answer_logged cache_lem
