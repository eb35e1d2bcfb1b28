-- ===== src/Agent/Improve/Stopping.antt =====
-- The `while True` of `run_improve` of deepCab/agent/improve.py ends: each round spends one iteration of
-- the budget, and nothing gives one back.
use deep_cab.Prelude.{
  ℕ, zero, suc, ◌-◌, ◌<◌, String, Option, none, some, List, [], ◌∷◌, ◌≡◌, ◌≢◌, refl, sym, ap,
  append-nil, Bool, if◌then◌else◌, arith, inl, inr, leb, Bool-cases,
}
use deep_cab.Prelude.Floats.{FloatOps}
use deep_cab.Prelude.Exec.{ok, Result-cases}
use deep_cab.Agent.Json.{Fields}
use deep_cab.Agent.Event.{AgentEvent, Kind, plan}
use deep_cab.Agent.Gen.{
  Gen, Outcome, returned, Meets, Holds, Meets-Keeps, Meets-bind, Meets-if, pure, ◌>>=◌,
}
use deep_cab.Agent.Budget.{
  BudgetCap, Budget, Exhausted, check_or_raise, charge_iter, fresh, restore, restore_event,
}
use deep_cab.Agent.Site.{Site, log, with_budget}
use deep_cab.Agent.Executor.Frame.{
  Follows, Follows-same, log-Follows, answer_call-Follows, charge_usage-Follows,
}
use deep_cab.Agent.Improve.{
  ImproveConfig, Ending, finished, out_of_fuel, S, stop_budget, end_iteration, iteration,
  improve_loop, restore_budget, run_improve,
}
use deep_cab.Agent.Improve.Keeping.{LoopParts, run_turn-Keeps, note_metric-Keeps}

module _ {F : Type 0} (fl : FloatOps F) where
  check-iters : (b : Budget F) → check_or_raise fl b ≡ none → b.iters < b.cap.max_iters
  unfolding check_or_raise
  check-iters b h = elim (Bool-cases (leb b.cap.max_iters b.iters)) [
    | inl reached ↦ ground (arith, reached, h)
    | inr below ↦ ground (arith, below)
  ]

  event-cap :
      (kind : Kind) (payload : Fields F) (b b' : Budget F)
      → restore_event fl kind payload b ≡ ok b'
      → b'.cap ≡ b.cap
  unfolding restore_event
  event-cap kind payload b b' h = ground (arith, h)

  pub restore-cap :
      (events : List (AgentEvent F)) (b b' : Budget F)
      → restore fl events b ≡ ok b'
      → b'.cap ≡ b.cap
  unfolding restore
  restore-cap [] b b' h = ground (arith, h)
  restore-cap (ev ∷ events) b b' h = elim (Result-cases (restore_event fl ev.kind ev.payload b)) [
    | inl (b₁, good) ↦
        ground (arith, good, restore-cap events b₁ b', event-cap ev.kind ev.payload b b₁ good, h)
    | inr (text, bad) ↦ ground (arith, bad, h)
  ]

module _ {F W : Type 0} (site : Site F W) (cfg : ImproveConfig F) (model : String) where
  module _ (trace : List (AgentEvent F)) (cap : BudgetCap F) (n : ℕ) (id : String) where
    abbrev pub P : S site cfg model → Type 0
    P s = Follows trace cap n id s

    pub loop_parts : LoopParts site cfg model P
    loop_parts = record {
      mines = λ s m h. Follows-same site trace cap n id s _ refl refl refl refl h;
      worlds = λ s w h. Follows-same site trace cap n id s _ refl refl refl refl h;
      logs = λ kind _ _ _. log-Follows site trace cap n id kind;
      answers = λ i. answer_call-Follows site trace cap n id _ model cfg.per_tool_timeout_s;
      usages = λ i. charge_usage-Follows site trace cap n id _ model cfg.per_tool_timeout_s;
    }

    charge_iter-Follows : Meets P (with_budget charge_iter) (λ _ s. Follows trace cap (suc n) id s)
    charge_iter-Follows = record {
      from = λ s h. record {
        added = h.added;
        appended = h.appended;
        same_cap = h.same_cap;
        same_iters = omega (arith, h.same_iters);
        same_id = h.same_id;
      };
    }

  module _ (trace : List (AgentEvent F)) (cap : BudgetCap F) (id : String) where
    -- The ends of the loop, once from each way out of it.
    abbrev Ends : Ending → S site cfg model → Type 0
    Ends e s = e ≡ finished

    pure-Ends : (n : ℕ) → Meets (P trace cap n id) (pure finished) Ends
    pure-Ends n = record { from = λ s h. refl }

    stop_budget-Ends :
        (n : ℕ) (e : Exhausted F) → Meets (P trace cap n id) (stop_budget site cfg model e) Ends
    unfolding stop_budget log ◌>>=◌
    stop_budget-Ends n e = record { from = λ s h. refl }

    end_iteration-Ends :
        (n i : ℕ) (metrics : List F) (metric : Option F)
        (next : List F → Gen (S site cfg model) Ending)
        → ((metrics' : List F) → Meets (P trace cap n id) (next metrics') Ends)
        → Meets (P trace cap n id) (end_iteration site cfg model i metrics metric next) Ends
    unfolding end_iteration
    end_iteration-Ends n i metrics none next ends = ends metrics
    end_iteration-Ends n i metrics (some metric) next ends =
        Meets-bind (λ _ s. P trace cap n id s) _ _
          (Meets-Keeps (note_metric-Keeps site cfg model _ (loop_parts trace cap n id) i metric _))
          (λ stop. Meets-if stop _ _ (pure-Ends n) (ends _))

    -- What follows the turn, whether the turn closed the loop or not.
    after_turn-Ends :
        (n i : ℕ) (left : Bool) (metrics : List F) (metric : Option F)
        (next : List F → Gen (S site cfg model) Ending)
        → ((metrics' : List F) → Meets (P trace cap n id) (next metrics') Ends)
        → Meets
            (P trace cap n id)
            (if left then pure finished else end_iteration site cfg model i metrics metric next)
            Ends
    after_turn-Ends n i left metrics metric next ends =
        Meets-if left _ _ (pure-Ends n) (end_iteration-Ends n i metrics metric next ends)

    iteration-Ends :
        (n : ℕ) (metrics : List F) (next : List F → Gen (S site cfg model) Ending)
        → ((metrics' : List F) → Meets (P trace cap (suc n) id) (next metrics') Ends)
        → Meets (P trace cap n id) (iteration site cfg model none metrics next) Ends
    unfolding iteration
    iteration-Ends n metrics next ends =
        Meets-bind (λ _ s. P trace cap n id s) _ _ (record { from = λ s h. h })
          (λ i.
            Meets-bind (λ _ s. P trace cap (suc n) id s) _ _ (charge_iter-Follows trace cap n id)
              (λ _.
                Meets-bind (λ _ s. P trace cap (suc n) id s) _ _
                  (Meets-Keeps (
                    run_turn-Keeps site cfg model _ (loop_parts trace cap (suc n) id)
                      (log-Follows site trace cap (suc n) id plan) i))
                  (λ left.
                    Meets-bind (λ _ s. P trace cap (suc n) id s) _ _ (record { from = λ s h. h })
                      (λ metric. after_turn-Ends (suc n) i left metrics metric next ends))))

    -- A round, given that the rest ends after one more iteration below the cap.
    round-Ends :
        (n : ℕ) (metrics : List F) (next : List F → Gen (S site cfg model) Ending)
        (stop : Option (Exhausted F))
        → (n < cap.max_iters
            → (metrics' : List F) → Meets (P trace cap (suc n) id) (next metrics') Ends)
        → Meets
            (λ s. P trace cap n id s × (stop ≡ check_or_raise site.floats s.budget))
            (iteration site cfg model stop metrics next)
            Ends
    unfolding iteration
    round-Ends n metrics next (some e) ends = record {
      from = λ s (h, _). (stop_budget-Ends n e).from s h;
    }
    round-Ends n metrics next none ends = record {
      from = λ s (k, free).
          let below = check-iters site.floats s.budget (sym free) in
          let bound = ap (λ (c : BudgetCap F). c.max_iters) k.same_cap in
          (iteration-Ends n metrics next (ends (omega (arith, below, k.same_iters, bound)))).from s
            k;
    }

    improve_loop-Ends :
        (fuel n : ℕ) (metrics : List F)
        → cap.max_iters - n < fuel
        → Meets (P trace cap n id) (improve_loop site cfg model fuel metrics) Ends
    unfolding improve_loop
    improve_loop-Ends zero n metrics h = absurd (omega (arith, h))
    improve_loop-Ends (suc fuel) n metrics h =
        Meets-bind (λ stop s. P trace cap n id s × (stop ≡ check_or_raise site.floats s.budget)) _ _
          (record { from = λ s h'. (h', refl) })
          (λ stop.
            round-Ends n metrics (improve_loop site cfg model fuel) stop
              (λ below metrics'. improve_loop-Ends fuel (suc n) metrics' (omega (arith, h, below))))

  restore_budget-cap :
      Meets (λ _. Unit {0}) (restore_budget site cfg model) (λ _ s. s.budget.cap ≡ cfg.cap)
  unfolding restore_budget ◌>>=◌
  restore_budget-cap = record {
    from = λ s _. elim (Result-cases (restore site.floats s.trace (fresh site.floats cfg.cap))) [
      | inl (b, good) ↦
          ground (arith, good, restore-cap site.floats s.trace (fresh site.floats cfg.cap) b good)
      | inr (text, bad) ↦ ground (arith, bad)
    ];
  }

  run_improve-Ends :
      (fuel : ℕ)
      → cfg.cap.max_iters < fuel
      → Meets (λ _. Unit {0}) (run_improve site cfg model fuel) (λ e _. e ≡ finished)
  unfolding run_improve
  run_improve-Ends fuel h =
      Meets-bind (λ _ s. s.budget.cap ≡ cfg.cap) _ _ restore_budget-cap
        (λ _. record {
          from = λ s same.
              (improve_loop-Ends s.trace cfg.cap s.loop_run_id fuel s.budget.iters []
                  (omega (arith, h))).from
                s
                (record {
                  added = [];
                  appended = sym (append-nil s.trace);
                  same_cap = same;
                  same_iters = refl;
                  same_id = refl;
                });
        })

  finished-Holds :
      (r : Outcome Ending) (s : S site cfg model)
      → Holds (λ e _. e ≡ finished) r s
      → r ≢ returned out_of_fuel
  finished-Holds r s h e = ground (arith, h, e)

  -- A run of the loop ends by itself: with more fuel than the cap on iterations it never runs out of fuel,
  -- whatever the log, the model and the tools.
  pub run_improve_ends :
      (fuel : ℕ) (s : S site cfg model)
      → cfg.cap.max_iters < fuel
      → (run_improve site cfg model fuel s).0 ≢ returned out_of_fuel
  run_improve_ends fuel s h =
      finished-Holds _ (run_improve site cfg model fuel s).1 ((run_improve-Ends fuel h).from s tt)
