-- ===== src/Serving/Batcher/Worker/Draining.antt =====
-- Which of the rows that wait in deepCab/serving/batcher.py are answered, and which are not.
use deep_cab.Prelude.{
  ℕ, zero, suc, ◌-◌, ◌≤◌, ◌<◌, false, List, [], ◌∷◌, ◌++◌, ◌≡◌, ◌≢◌, ◌⊎◌, refl, sym, ◌∙◌, ap, subst,
  inl, inr, arith, length, length-append, All, append_assoc, leb, Bool-cases,
}
use deep_cab.Prelude.Exec.{Result}
use deep_cab.Serving.Batcher.{Item, Wait, collect_rest, Futures, collect_batch, answer_batch}
use deep_cab.Serving.Batcher.Worker.{
  Phase, testing, collecting, returned, Worker, submit, sentinel, stop, answer, Step, submits,
  stops, enters, leaves, answers, Way, here, ◌then◌, rounds,
}
use deep_cab.Serving.Batcher.Worker.Rounds.{
  IsAnswered, IsRowwise, contains-answer_batch, answer_batch-All,
}

module _ {A : Type 0} where
  -- Two ways to cut a list: the first part of one ends before the item of the other, or not.
  cut-cases :
      (front rest before after : List A) (x : A)
      → front ++ rest ≡ before ++ (x ∷ after)
      → ((more : List A) × (before ≡ front ++ more) × (rest ≡ more ++ (x ∷ after)))
        ⊎ ((more : List A) × (front ≡ before ++ (x ∷ more)))
  cut-cases [] rest before after x h = inl (before, refl, h)
  cut-cases (y ∷ front) rest [] after x h = inr (front, cc h)
  cut-cases (y ∷ front) rest (z ∷ before) after x h =
      elim (cut-cases front rest before after x cc h) [
        | inl (more, e, k) ↦ inl (more, cc (h, e), k)
        | inr (more, e) ↦ inr (more, cc (h, e))
      ]

  All-middle :
      (Holds : A → Type 0) (before after : List A) (x : A)
      → All Holds (before ++ (x ∷ after))
      → Holds x
  All-middle Holds [] after x (h, hs) = h
  All-middle Holds (y ∷ before) after x (h, hs) = All-middle Holds before after x hs

module _ {F : Type 0} where
  batch-IsAnswered :
      (predict : List (List F) → Result (List F)) (batch before more : List (Item F))
      (item : Item F) (futures : Futures F)
      → IsRowwise predict
      → batch ≡ before ++ (item ∷ more)
      → IsAnswered (answer_batch predict batch futures) item
  batch-IsAnswered predict batch before more item futures rowwise e =
      let later = answer_batch predict batch futures in
      All-middle (IsAnswered later) before more item
        (subst (All (IsAnswered later)) e (answer_batch-All predict batch futures rowwise))

module _ {F : Type 0} (max_batch : ℕ) where
  -- A batch is not empty.
  length-batch :
      (first : Item F) (waits : List (Wait F)) (before more : List (Item F))
      → before ≡ collect_batch max_batch first waits ++ more
      → length more < length before
  unfolding collect_batch
  length-batch first waits before more e =
      omega (arith, ap length e, length-append (collect_rest (max_batch - 1) waits) more)

  collect_rest-nil : (room : ℕ) → collect_rest {F = F} room [] ≡ []
  unfolding collect_rest
  collect_rest-nil zero = refl
  collect_rest-nil (suc room) = refl

  collect_batch-nil : (first : Item F) → collect_batch max_batch first [] ≡ first ∷ []
  unfolding collect_batch
  collect_batch-nil first = ap (λ items. first ∷ items) (collect_rest-nil (max_batch - 1))

module _ {F : Type 0} {max_batch : ℕ} {predict : List (List F) → Result (List F)} where
  Step-IsAnswered :
      {w u : Worker F} (item : Item F)
      → Step max_batch predict w u
      → IsAnswered w.futures item
      → IsAnswered u.futures item
  unfolding submit stop answer
  Step-IsAnswered item (submits w other unclosed) h = h
  Step-IsAnswered item (stops w fut) h = h
  Step-IsAnswered item (enters w p unclosed) h = h
  Step-IsAnswered item (leaves w p shut) h = h
  Step-IsAnswered item (answers w first waits rest p q) h = λ x xs e.
      contains-answer_batch predict item.fut (collect_batch max_batch first waits) w.futures
        (h x xs e)

  Way-IsAnswered :
      {w u : Worker F} (item : Item F)
      → Way max_batch predict w u
      → IsAnswered w.futures item
      → IsAnswered u.futures item
  Way-IsAnswered item (here w) h = h
  Way-IsAnswered item (st then path) h = Way-IsAnswered item path (Step-IsAnswered item st h)

  -- An item with `length before` others ahead of it is answered within one more round than that, if
  -- the runtime gives one output for each row or raises.
  queue-IsAnswered :
      {w u : Worker F} (before after : List (Item F)) (item : Item F)
      → IsRowwise predict
      → w.queue ≡ before ++ (item ∷ after)
      → (path : Way max_batch predict w u) → length before < rounds path
      → IsAnswered u.futures item
  unfolding rounds submit stop answer
  queue-IsAnswered before after item rowwise q (here w) h = absurd (omega (arith, h))
  queue-IsAnswered before after item rowwise q (submits w other unclosed then path) h =
      queue-IsAnswered before (after ++ other ∷ []) item rowwise
        (ap (λ l. l ++ other ∷ []) q ∙ append_assoc before (item ∷ after) (other ∷ [])) path h
  queue-IsAnswered before after item rowwise q (stops w fut then path) h =
      queue-IsAnswered before (after ++ sentinel fut ∷ []) item rowwise
        (ap (λ l. l ++ sentinel fut ∷ []) q
          ∙ append_assoc before (item ∷ after) (sentinel fut ∷ []))
        path h
  queue-IsAnswered before after item rowwise q (enters w p unclosed then path) h =
      queue-IsAnswered before after item rowwise q path h
  queue-IsAnswered before after item rowwise q (leaves w p shut then path) h =
      queue-IsAnswered before after item rowwise q path h
  queue-IsAnswered before after item rowwise q (answers w first waits rest p k then path) h =
      elim (cut-cases (collect_batch max_batch first waits) rest before after item (sym k ∙ q)) [
        | inl (more, e, f) ↦
            queue-IsAnswered more after item rowwise f path
              (omega (arith, h, length-batch max_batch first waits before more e))
        | inr (more, e) ↦ Way-IsAnswered item path (
            batch-IsAnswered predict (collect_batch max_batch first waits) before more item
              w.futures rowwise e)
      ]

  -- A worker that collects and is not stopped can answer its queue, an item at a time.
  rounds_from :
      (w : Worker F) (before after : List (Item F)) (item : Item F)
      → w.phase ≡ collecting
      → w.closed ≡ false
      → w.queue ≡ before ++ (item ∷ after)
      → (u : Worker F) × (path : Way max_batch predict w u) × (length before < rounds path)
  unfolding answer rounds
  rounds_from w [] after item p unclosed q = (
    answer predict (collect_batch max_batch item []) after w,
    answers w item [] after p
          (q ∙ ap (λ batch. batch ++ after) (sym (collect_batch-nil max_batch item)))
        then here _,
    omega arith,
  )
  rounds_from w (b ∷ before) after item p unclosed q =
      let rest = before ++ (item ∷ after) in
      let t = answer predict (collect_batch max_batch b []) rest w in
      let (u, path, more) =
        rounds_from (record t { phase = collecting }) before after item refl unclosed refl in
      (
        u,
        answers w b [] rest p
              (q ∙ ap (λ batch. batch ++ rest) (sym (collect_batch-nil max_batch b)))
            then enters t refl unclosed
            then path,
        omega (arith, more),
      )

  -- While the batcher is open, an item that waits can be answered, and it is answered on every path
  -- with more rounds than there are items before it. This is for a runtime that gives one output for
  -- each row, or raises, and a worker that is at work on its queue.
  pub queued-IsAnswered :
      {w u : Worker F} (before after : List (Item F)) (item : Item F)
      → IsRowwise predict
      → w.phase ≢ returned
      → w.closed ≡ false
      → w.queue ≡ before ++ (item ∷ after)
      → (path : Way max_batch predict w u)
      → ((rounds path ≤ length before) ⊎ IsAnswered u.futures item)
        × ((v : Worker F) × Way max_batch predict w v × IsAnswered v.futures item)
  unfolding rounds
  queued-IsAnswered {w} {u} before after item rowwise live unclosed q path = (
    elim (Bool-cases (leb (rounds path) (length before))) [
      | inl few ↦ inl (ground (arith, few))
      | inr many ↦ inr (queue-IsAnswered before after item rowwise q path (ground (arith, many)))
    ],
    onward w.phase refl,
  )
    where
      reached :
          (v : Worker F) (way : Way max_batch predict w v)
          → length before < rounds way
          → (v : Worker F) × Way max_batch predict w v × IsAnswered v.futures item
      reached v way more = (v, way, queue-IsAnswered before after item rowwise q way more)

      onward :
          (phase : Phase)
          → w.phase ≡ phase
          → (v : Worker F) × Way max_batch predict w v × IsAnswered v.futures item
      onward returned e = absurd (live e)
      onward collecting e =
          let (v, way, more) = rounds_from w before after item e unclosed q in reached v way more
      onward testing e =
          let (v, way, more) =
            rounds_from (record w { phase = collecting }) before after item refl unclosed q in
          reached v (enters w e unclosed then way) more
