-- ===== src/Agent/Improve/Restart.antt =====
-- A restart of `run_improve` of deepCab/agent/improve.py from the log of an earlier run: what
-- `Budget.restore` of deepCab/agent/budget.py reads from it.
use deep_cab.Prelude.{
  ℕ, suc, ◌+◌, String, Bool, Option, none, some, [], ◌∷◌, ◌++◌, ◌≡◌, ◌≢◌, refl, ◌∙◌, ap, sym, subst,
  append-nil, arith, inl, inr, Bool-cases,
}
use deep_cab.Prelude.Exec.{ok}
use deep_cab.Agent.Json.{Json, Fields, get, is_true, or_null}
use deep_cab.Agent.Event.{AgentEvent, Kind, tool_result, llm, plan}
use deep_cab.Agent.Gen.{
  Gen, Outcome, Keeps, Meets, Holds, Holds-map, Holds-pair, Meets-Keeps, Meets-bind, ◌>>=◌, ◌>>◌,
  keeps_rules,
}
use deep_cab.Agent.Budget.{
  BudgetCap, Budget, Usage, fresh, charge_iter, restore, restore_event, llm_cost,
}
use deep_cab.Agent.Budget.Restore.{restore-append}
use deep_cab.Agent.Site.{Site, log, with_budget}
use deep_cab.Agent.Executor.{replay_or_call, answer_call, charge_usage}
use deep_cab.Agent.Executor.Log.{
  IsBooked, log-IsBooked, answer_call-IsBooked, charge_usage-IsBooked,
}
use deep_cab.Agent.Executor.Frame.{Follows, log-Follows}
use deep_cab.Agent.Improve.{
  ImproveConfig, Mine, Ending, S, on_event, run_turn, improve_loop, restore_budget, run_improve,
}
use deep_cab.Agent.Improve.Keeping.{
  LoopParts, run_turn-Keeps, make_plan-Keeps, act-Keeps, improve_loop-Keeps,
}
use deep_cab.Agent.Improve.Stopping.{restore-cap, loop_parts}

module _ {F W : Type 0} (site : Site F W) (cfg : ImproveConfig F) (model : String) where
  IsBooked-parts : LoopParts site cfg model (IsBooked site)
  IsBooked-parts = record {
    mines = λ s m h. h;
    worlds = λ s w h. h;
    logs = λ kind free _ _. log-IsBooked site kind free;
    answers = λ i. answer_call-IsBooked site _ model cfg.per_tool_timeout_s;
    usages = λ i. charge_usage-IsBooked site _ model cfg.per_tool_timeout_s;
  }

  charge_iter-IsBooked : Keeps (IsBooked {C = Mine F} site) (with_budget charge_iter)
  charge_iter-IsBooked = record { kept = λ s h. h }

  -- What `run_improve` does once the log is read.
  run_improve-restored :
      (fuel : ℕ) (s : S site cfg model) (b : Budget F)
      → restore site.floats s.trace (fresh site.floats cfg.cap) ≡ ok b
      → run_improve site cfg model fuel s
        ≡ improve_loop site cfg model fuel [] (record s { budget = b })
  unfolding run_improve restore_budget ◌>>=◌
  run_improve-restored fuel s b good = ground (arith, good)

  -- A restart that reads the log of a run, however the run ended, has spent what the run had spent: the
  -- dollars of the budget are those that the log restores to, if the log that the run started from
  -- could be read.
  pub run_improve-IsBooked :
      (fuel : ℕ) (s : S site cfg model) (b : Budget F)
      → restore site.floats s.trace (fresh site.floats cfg.cap) ≡ ok b
      → IsBooked site (run_improve site cfg model fuel s).1
  run_improve-IsBooked fuel s b good =
      let cap = restore-cap site.floats s.trace (fresh site.floats cfg.cap) b good in
      let from_cap = ap (λ c. restore site.floats s.trace (fresh site.floats c)) cap ∙ good in
      let loop =
        improve_loop-Keeps site cfg model (IsBooked site) IsBooked-parts
          (log-IsBooked site plan (λ e. cc)) charge_iter-IsBooked fuel [] in
      subst (λ (r : Outcome Ending × S site cfg model). IsBooked site r.1)
        (sym (run_improve-restored fuel s b good))
        (loop.kept (record s { budget = b }) (b, from_cap, refl))

  module _ (cap : BudgetCap F) (n : ℕ) where
    -- A restart that reads this log counts `n` iterations.
    abbrev pub Restores : S site cfg model → Type 0
    Restores s =
        (b : Budget F) × (restore site.floats s.trace (fresh site.floats cap) ≡ ok b)
        × (b.iters ≡ n)

    -- An event that does not change the count.
    Restores-append :
        (s : S site cfg model) (w : W) (ev : AgentEvent F)
        → ((b : Budget F)
            → (b' : Budget F) × (restore_event site.floats ev.kind ev.payload b ≡ ok b')
              × (b'.iters ≡ b.iters))
        → Restores s
        → Restores (record s { world = w; trace = s.trace ++ ev ∷ [] })
    Restores-append s w ev event (b, runs, same) =
        let (b', reads, kept) = event b in
        (
          b',
          restore-append site.floats s.trace ev (fresh site.floats cap) runs ∙ reads,
          kept ∙ same,
        )

    result_event-iters :
        (payload : Fields F) (b : Budget F)
        → (b' : Budget F) × (restore_event site.floats tool_result payload b ≡ ok b')
          × (b'.iters ≡ b.iters)
    unfolding restore_event
    result_event-iters payload b =
        elim (Bool-cases (is_true site.floats (or_null (get "ok" payload)))) [
          | inl good ↦ (record b { tool_calls = b.tool_calls + 1 }, ground (arith, good), refl)
          | inr bad ↦ (b, ground (arith, bad), refl)
        ]

    other_event-iters :
        (kind : Kind) (payload : Fields F) (b : Budget F)
        → kind ≢ llm
        → kind ≢ plan
        → (b' : Budget F) × (restore_event site.floats kind payload b ≡ ok b')
          × (b'.iters ≡ b.iters)
    unfolding restore_event
    other_event-iters tool_result payload b not_llm not_plan = result_event-iters payload b
    other_event-iters llm payload b not_llm not_plan = absurd (not_llm refl)
    other_event-iters plan payload b not_llm not_plan = absurd (not_plan refl)
    other_event-iters _ payload b not_llm not_plan = (b, refl, refl)

    log-Restores :
        (kind : Kind)
        → kind ≢ llm
        → kind ≢ plan
        → (iter : ℕ) (name : String) (request_id : Option String) (payload : Fields F)
        → Keeps Restores (log site iter kind name request_id payload)
    unfolding log
    log-Restores kind not_llm not_plan iter name request_id payload = record {
      kept = λ s h.
          Restores-append s (site.now s.world).1 _
            (λ b. other_event-iters kind payload b not_llm not_plan) h;
    }

    replay_or_call-Restores :
        (i : ℕ) (cached : Option (Json F)) (name : String) (args : Json F)
        → Keeps Restores (
            replay_or_call site
              (on_event site cfg model i)
              model
              cfg.per_tool_timeout_s
              cached
              name
              args)
    unfolding replay_or_call ◌>>=◌
    replay_or_call-Restores i (some result) name args = search keeps_rules
    replay_or_call-Restores i none name args = record { kept = λ s h. h }

    answer_call-Restores :
        (i : ℕ) (id : String) (cached : Option (Json F)) (name : String) (args : Json F)
        → Keeps Restores (
            answer_call site
              (on_event site cfg model i)
              model
              cfg.per_tool_timeout_s
              id
              cached
              name
              args)
    unfolding answer_call
    answer_call-Restores i id cached name args =
        search (keeps_rules, replay_or_call-Restores, log-Restores tool_result (λ e. cc) (λ e. cc))
          depth 12

    charge_usage-Restores :
        (i : ℕ) (usage : Option Usage)
        → Keeps Restores
            (charge_usage site (on_event site cfg model i) model cfg.per_tool_timeout_s usage)
    unfolding charge_usage log ◌>>=◌ get restore_event
    charge_usage-Restores i none = record { kept = λ s h. h }
    charge_usage-Restores i (some usage) = record {
      kept = λ s h.
          Restores-append s (site.now s.world).1 _
            (λ b. (
              record b { usd = site.floats.add b.usd (llm_cost site.floats model usage) },
              refl,
              refl,
            ))
            h;
    }

    Restores-parts : LoopParts site cfg model Restores
    Restores-parts = record {
      mines = λ s m h. h;
      worlds = λ s w h. h;
      logs = λ kind not_llm _ not_plan. log-Restores kind not_llm not_plan;
      answers = answer_call-Restores;
      usages = charge_usage-Restores;
    }

  -- A `plan` event counts as one iteration.
  plan-Restores :
      (cap : BudgetCap F) (n : ℕ) (iter : ℕ) (name : String) (request_id : Option String)
      (payload : Fields F)
      → Meets
          (Restores cap n)
          (log site iter plan name request_id payload)
          (λ _ s. Restores cap (suc n) s)
  unfolding log restore_event
  plan-Restores cap n iter name request_id payload = record {
    from = λ s (b, runs, same). (
      record b { iters = b.iters + 1 },
      restore-append site.floats s.trace _ (fresh site.floats cap) runs,
      omega (arith, same),
    );
  }

  kept :
      (cap : BudgetCap F) (n : ℕ) {A : Type 0} {m : Gen (S site cfg model) A}
      → Keeps (Restores cap n) m
      → Meets (Restores cap n) m (λ _ s. Restores cap n s)
  kept cap n k = Meets-Keeps k

  run_turn-Restores :
      (cap : BudgetCap F) (n i : ℕ)
      → Meets (Restores cap n) (run_turn site cfg model i) (λ _ s. Restores cap (suc (suc n)) s)
  unfolding run_turn
  run_turn-Restores cap n i = Meets-bind _ _ _ (plan-Restores cap n i _ _ _) (λ _.
      Meets-bind _ _ _ (kept cap (suc n) (record { kept = λ s h. h })) (λ _.
        Meets-bind _ _ _
          (kept cap (suc n) (make_plan-Keeps site cfg model _ (Restores-parts cap (suc n)) _ _))
          (λ steps. Meets-bind _ _ _ (plan-Restores cap (suc n) i _ _ _) (λ _.
            kept cap (suc (suc n))
              (act-Keeps site cfg model _ (Restores-parts cap (suc (suc n))) i steps)))))

  -- An iteration that gets through its turn adds one to the count of the budget and two to the count that
  -- a restart reads from the log, since it logs two `plan` events.
  pub run_turn-restored :
      (i : ℕ) (s : S site cfg model) (b : Budget F)
      → restore site.floats s.trace (fresh site.floats s.budget.cap) ≡ ok b
      → Holds
          (λ _ s'. Restores s.budget.cap (b.iters + 2) s' × (s'.budget.iters ≡ s.budget.iters + 1))
          ((with_budget charge_iter >> run_turn site cfg model i) s).0
          ((with_budget charge_iter >> run_turn site cfg model i) s).1
  unfolding ◌>>=◌
  run_turn-restored i s b good =
      let n = suc s.budget.iters in
      let s₁ = record s { budget = charge_iter s.budget } in
      let start : Follows s.trace s.budget.cap n s.loop_run_id s₁ = record {
        added = [];
        appended = sym (append-nil s.trace);
        same_cap = refl;
        same_iters = omega arith;
        same_id = refl;
      } in
      let turn =
        run_turn-Keeps site cfg model _
          (loop_parts site cfg model s.trace s.budget.cap n s.loop_run_id)
          (log-Follows site s.trace s.budget.cap n s.loop_run_id plan) i in
      Holds-pair _ _ _ _
        (Holds-map (λ _ s'. Restores s.budget.cap (suc (suc b.iters)) s')
          (λ (_ : Bool) s'. Restores s.budget.cap (b.iters + 2) s')
          (λ _ s' (b', runs, same). (b', runs, omega (arith, same))) _ _
          ((run_turn-Restores s.budget.cap b.iters i).from s₁ (b, good, refl)))
        (Holds-map (λ _ s'. Follows s.trace s.budget.cap n s.loop_run_id s')
          (λ (_ : Bool) s'. s'.budget.iters ≡ s.budget.iters + 1)
          (λ _ s' h. omega (arith, h.same_iters)) _ _ ((Meets-Keeps turn).from s₁ start))
