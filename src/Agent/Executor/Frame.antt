-- ===== src/Agent/Executor/Frame.antt =====
-- What a turn of deepCab/agent/executor.py leaves alone: the log only grows, and the cap, the count of
-- iterations and the log's identity do not change.
use deep_cab.Prelude.{
  ℕ, String, Option, none, some, List, [], ◌∷◌, ◌++◌, ◌≡◌, refl, ◌∙◌, ap, append_assoc,
}
use deep_cab.Agent.Json.{Json, Fields}
use deep_cab.Agent.Event.{AgentEvent, Kind, tool_call, budget, Sse}
use deep_cab.Agent.Gen.{Gen, Keeps, keeps_rules, ◌>>=◌}
use deep_cab.Agent.Budget.{BudgetCap, Usage, charge_usd}
use deep_cab.Agent.Site.{Site, Run, Message, log, with_budget}
use deep_cab.Agent.Executor.{replay_or_call, answer_call, charge_usage, run_one_turn}
use deep_cab.Agent.Executor.Keeping.{run_one_turn-Keeps}

-- `s` comes after a state with this log, cap and count of iterations.
pub record Follows {F W C : Type 0} (trace : List (AgentEvent F)) (cap : BudgetCap F) (iters : ℕ)
    (id : String) (s : Run F W C) : Type 0 where
  pub added : List (AgentEvent F)
  pub appended : s.trace ≡ trace ++ added
  pub same_cap : s.budget.cap ≡ cap
  pub same_iters : s.budget.iters ≡ iters
  pub same_id : s.loop_run_id ≡ id

module _ {F W C : Type 0} (site : Site F W) (trace : List (AgentEvent F)) (cap : BudgetCap F)
    (iters : ℕ) (id : String) where
  abbrev pub Q : Run F W C → Type 0
  Q s = Follows trace cap iters id s

  Follows-append :
      (s : Run F W C) (w : W) (ev : AgentEvent F)
      → Q s
      → Q (record s { world = w; trace = s.trace ++ ev ∷ [] })
  Follows-append s w ev h = record {
    added = h.added ++ ev ∷ [];
    appended =
        ap (λ (t : List (AgentEvent F)). t ++ ev ∷ []) h.appended
        ∙ append_assoc trace h.added (ev ∷ []);
    same_cap = h.same_cap;
    same_iters = h.same_iters;
    same_id = h.same_id;
  }

  pub Follows-same :
      (s s' : Run F W C)
      → s'.trace ≡ s.trace
      → s'.budget.cap ≡ s.budget.cap
      → s'.budget.iters ≡ s.budget.iters
      → s'.loop_run_id ≡ s.loop_run_id
      → Q s
      → Q s'
  Follows-same s s' t c i n h = record {
    added = h.added;
    appended = t ∙ h.appended;
    same_cap = c ∙ h.same_cap;
    same_iters = i ∙ h.same_iters;
    same_id = n ∙ h.same_id;
  }

  pub log-Follows :
      (kind : Kind) (iter : ℕ) (name : String) (request_id : Option String) (payload : Fields F)
      → Keeps Q (log site iter kind name request_id payload)
  unfolding log
  log-Follows kind iter name request_id payload = record {
    kept = λ s h. Follows-append s (site.now s.world).1 _ h;
  }

  module _ (emit : Sse F → Gen (Run F W C) (Unit {0})) (model : String) (timeout : F) where
    replay_or_call-Follows :
        (cached : Option (Json F)) (name : String) (args : Json F)
        → Keeps Q (replay_or_call site emit model timeout cached name args)
    unfolding replay_or_call ◌>>=◌
    replay_or_call-Follows (some result) name args = search keeps_rules
    replay_or_call-Follows none name args = record {
      kept = λ s h. Follows-same s _ refl refl refl refl h;
    }

    pub answer_call-Follows :
        (request_id : String) (cached : Option (Json F)) (name : String) (args : Json F)
        → Keeps Q (answer_call site emit model timeout request_id cached name args)
    unfolding answer_call
    answer_call-Follows request_id cached name args =
        search (keeps_rules, replay_or_call-Follows, log-Follows) depth 12

    with_budget-Follows : (cost : F) → Keeps Q (with_budget (charge_usd site.floats cost))
    with_budget-Follows cost = record { kept = λ s h. Follows-same s _ refl refl refl refl h }

    pub charge_usage-Follows :
        (usage : Option Usage) → Keeps Q (charge_usage site emit model timeout usage)
    unfolding charge_usage
    charge_usage-Follows none = search keeps_rules
    charge_usage-Follows (some usage) =
        search (keeps_rules, with_budget-Follows, log-Follows) depth 12

    -- The log only grows, and the cap, the count of iterations and the log's identity stay, if the
    -- caller keeps it so.
    pub run_one_turn-Follows :
        ((ev : Sse F) → Keeps Q (emit ev))
        → (bound : ℕ) (messages : List Message)
        → Keeps Q (run_one_turn site emit model timeout bound messages)
    run_one_turn-Follows emits = run_one_turn-Keeps site Q emit model timeout (record {
      emits = emits;
      worlds = λ s w h. Follows-same s _ refl refl refl refl h;
      calls = log-Follows tool_call;
      stops = log-Follows budget;
      answers = answer_call-Follows;
      usages = charge_usage-Follows;
    })
