-- ===== src/Flow/Simulate/Tallies.antt =====
-- The totals of the result of the simulate flow of deepCab/flow_v2/simulate.py against its chunks.
use deep_cab.Prelude.{
  ℕ, suc, ◌+◌, String, ◌<>◌, Bool, Option, none, List, [], ◌∷◌, ◌++◌, ◌≡◌, refl, ◌∙◌, ap, sym,
  arith, map, length, append_assoc, append-nil, subst, if◌then◌else◌,
}
use deep_cab.Prelude.Exec.{Result, ok, raised, Exec, pure, continue, ◌>>=◌}
use deep_cab.Schemas.Enums.{backend_value}
use deep_cab.Training.Evaluate.{EvalResult}
use deep_cab.Registry.Promotion.{PromotionResult}
use deep_cab.Flow.Windows.{Window}
use deep_cab.Flow.Simulate.{
  ChunkResult, SimulateResult, Flow, P, ingest, train_chunk, add_chunk, record_chunk,
  simulate_chunk, simulate_chunks, start_result, simulate_windows, send, flow_event,
}

module _ {A B : Type 0} where
  map-append_one : (f : A → B) (xs : List A) (x : A) → map f (xs ++ x ∷ []) ≡ map f xs ++ f x ∷ []
  map-append_one f [] x = refl
  map-append_one f (y ∷ xs) x = ap (λ zs. f y ∷ zs) (map-append_one f xs x)

module _ {F : Type 0} where
  abbrev pub promoted_count : List (ChunkResult F) → ℕ
  promoted_count [] = 0
  promoted_count (c ∷ cs) = (if c.promotion.promoted then 1 else 0) + promoted_count cs

  -- The champion that the last promotion left, from one before.
  pub last_champion : Option String → List (ChunkResult F) → Option String
  last_champion version [] = version
  last_champion version (c ∷ cs) =
      last_champion (if c.promotion.promoted then c.promotion.new_champion_version else version) cs

  promoted_count-append :
      (cs : List (ChunkResult F)) (c : ChunkResult F)
      → promoted_count (cs ++ c ∷ []) ≡ promoted_count cs + (if c.promotion.promoted then 1 else 0)
  promoted_count-append [] c = omega arith
  promoted_count-append (d ∷ cs) c = omega (arith, promoted_count-append cs c)

  last_champion-append :
      (cs : List (ChunkResult F)) (version : Option String) (c : ChunkResult F)
      → last_champion version (cs ++ c ∷ []) ≡ (
          if c.promotion.promoted
          then c.promotion.new_champion_version
          else last_champion version cs)
  unfolding last_champion
  last_champion-append [] version c = refl
  last_champion-append (d ∷ cs) version c = last_champion-append cs _ c

module _ {F S : Type 0} (fl : Flow F S) where
  -- A result after the chunks of these windows.
  pub record Tallied (windows : List Window) (r : SimulateResult F) : Type 0 where
    pub clauses : map (λ (c : ChunkResult F). c.where_clause) r.chunks ≡ map (ingest fl) windows
    pub metrics : r.mae_trajectory ≡ map (λ (c : ChunkResult F). c.challenger_metric) r.chunks
    pub promoted : r.promotions ≡ promoted_count r.chunks
    pub champion : r.final_champion_version ≡ last_champion none r.chunks

  -- What holds of a result that was returned.
  abbrev pub Returns : (SimulateResult F → Type 0) → Result (SimulateResult F) → Type 0
  Returns Q (ok r) = Q r
  Returns Q (raised e) = Unit

  Tallied-add_chunk :
      (windows : List Window) (window : Window) (c : ChunkResult F) (r : SimulateResult F)
      → c.where_clause ≡ ingest fl window
      → Tallied windows r
      → Tallied (windows ++ window ∷ []) (add_chunk fl c r)
  unfolding add_chunk
  Tallied-add_chunk windows window c r e h = record {
    clauses =
        map-append_one (λ (c : ChunkResult F). c.where_clause) r.chunks c
        ∙ ap (λ xs. xs ++ c.where_clause ∷ []) h.clauses
        ∙ ap (λ x. map (ingest fl) windows ++ x ∷ []) e
        ∙ sym (map-append_one (ingest fl) windows window);
    metrics =
        ap (λ xs. xs ++ c.challenger_metric ∷ []) h.metrics
        ∙ sym (map-append_one (λ (c : ChunkResult F). c.challenger_metric) r.chunks c);
    promoted = ground (arith, promoted_count-append r.chunks c, h.promoted);
    champion = ground (arith, last_champion-append r.chunks none c, h.champion);
  }

  Returns-bind :
      {A : Type 0} (Q : SimulateResult F → Type 0) (r : Result A) (p : P fl)
      (f : A → Exec (P fl) (SimulateResult F))
      → ((a : A) (p' : P fl) → Returns Q (f a p').0)
      → Returns Q (continue r f p).0
  Returns-bind Q (ok a) p f h = h a p
  Returns-bind Q (raised e) p f h = tt

  Returns-then :
      (Q R : SimulateResult F → Type 0) (r : Result (SimulateResult F)) (p : P fl)
      (f : SimulateResult F → Exec (P fl) (SimulateResult F))
      → ((r' : SimulateResult F) (p' : P fl) → Q r' → Returns R (f r' p').0)
      → Returns Q r
      → Returns R (continue r f p).0
  Returns-then Q R (ok r') p f h k = h r' p k
  Returns-then Q R (raised e) p f h k = tt

  module _ (threshold : F) (every_chunk : Bool) (total : ℕ) where
    record_chunk-Tallied :
        (i : ℕ) (windows : List Window) (window : Window) (run_id : Option String)
        (score : EvalResult F) (promotion : PromotionResult F) (r : SimulateResult F) (p : P fl)
        → Tallied windows r
        → Returns
            (Tallied (windows ++ window ∷ []))
            (record_chunk fl every_chunk total i (ingest fl window) run_id score promotion r p).0
    unfolding record_chunk
    record_chunk-Tallied i windows window run_id score promotion r p h =
        Tallied-add_chunk windows window _ r refl h

    simulate_chunk-Tallied :
        (i : ℕ) (windows : List Window) (window : Window) (r : SimulateResult F) (p : P fl)
        → Tallied windows r
        → Returns
            (Tallied (windows ++ window ∷ []))
            (simulate_chunk fl threshold every_chunk total i window r p).0
    unfolding simulate_chunk
    simulate_chunk-Tallied i windows window r p h =
        let clause = ingest fl window in
        let trained =
          train_chunk fl ("sim-" <> fl.show_padded i <> "-" <> backend_value fl.backend) clause p in
        Returns-bind (Tallied (windows ++ window ∷ [])) trained.0 trained.1
          (λ run_id. fl.evaluate >>= λ score. fl.promote run_id threshold >>= λ promotion.
            record_chunk fl every_chunk total i clause run_id score promotion r)
          (λ run_id p₁.
            let (scored, p₂) = fl.evaluate p₁ in
            Returns-bind (Tallied (windows ++ window ∷ [])) scored p₂
              (λ score. fl.promote run_id threshold >>= λ promotion.
                record_chunk fl every_chunk total i clause run_id score promotion r)
              (λ score p₃.
                let (moved, p₄) = fl.promote run_id threshold p₃ in
                Returns-bind (Tallied (windows ++ window ∷ [])) moved p₄
                  (λ promotion. record_chunk fl every_chunk total i clause run_id score promotion r)
                  (λ promotion p₅.
                    record_chunk-Tallied i windows window run_id score promotion r p₅ h)))

    simulate_chunks-Tallied :
        (rest : List Window) (i : ℕ) (windows : List Window) (r : SimulateResult F) (p : P fl)
        → Tallied windows r
        → Returns
            (Tallied (windows ++ rest))
            (simulate_chunks fl threshold every_chunk total i rest r p).0
    unfolding simulate_chunks
    simulate_chunks-Tallied [] i windows r p h =
        subst (λ ws. Tallied ws r) (sym (append-nil windows)) h
    simulate_chunks-Tallied (window ∷ rest) i windows r p h =
        let first = simulate_chunk fl threshold every_chunk total i window r p in
        Returns-then (Tallied (windows ++ window ∷ [])) (Tallied (windows ++ window ∷ rest)) first.0
          first.1 (simulate_chunks fl threshold every_chunk total (suc i) rest)
          (λ r' p' h'.
            subst
              (λ ws.
                Returns (Tallied ws)
                  (simulate_chunks fl threshold every_chunk total (suc i) rest r' p').0)
              (append_assoc windows (window ∷ []) rest)
              (simulate_chunks-Tallied rest (suc i) (windows ++ window ∷ []) r' p' h'))
          (simulate_chunk-Tallied i windows window r p h)

  -- When the flow returns, its result lists the chunks of all the windows in order; the trajectory holds
  -- their metrics, the count is that of the promoted ones, and the final champion is the one that the
  -- last promotion reported, or none.
  pub simulate_windows-Tallied :
      (threshold : F) (every_chunk : Bool) (windows : List Window) (p : P fl)
      → Returns (Tallied windows) (simulate_windows fl threshold every_chunk windows p).0
  unfolding simulate_windows last_champion
  simulate_windows-Tallied threshold every_chunk windows p =
      let total = length windows in
      let start = (send fl (flow_event fl "running" total) p).1 in
      let loop = simulate_chunks fl threshold every_chunk total 0 windows (start_result fl) start in
      Returns-then (Tallied windows) (Tallied windows) loop.0 loop.1
        (λ r. send fl (flow_event fl "success" total) >>= λ _. pure r) (λ r' p' h. h)
        (simulate_chunks-Tallied threshold every_chunk total windows 0 [] (start_result fl) start
          (record { clauses = refl; metrics = refl; promoted = refl; champion = refl }))
