-- ===== src/Serving/Batcher/Worker/Rounds.antt =====
-- What a round of deepCab/serving/batcher.py does to the futures of its batch, and to those that are done.
use deep_cab.Prelude.{
  String, true, List, [], ◌∷◌, ◌≡◌, ◌≢◌, refl, arith, map, length, All, subst, sym, ◌∙◌,
}
use deep_cab.Prelude.Dict.{contains, lookup-insert, lookup-insert_self}
use deep_cab.Prelude.Exec.{Result, ok, raised}
use deep_cab.Serving.Batcher.{
  Item, Futures, real_items, unless_empty, settle, set_results, set_exceptions, answer_batch,
}

module _ {F : Type 0} where
  abbrev pub IsDone : Futures F → Item F → Type 0
  IsDone futures item = contains item.fut futures ≡ true

  -- Its future is done, unless it is a sentinel.
  abbrev pub IsAnswered : Futures F → Item F → Type 0
  IsAnswered futures item = (x : F) (xs : List F) → item.row ≡ x ∷ xs → IsDone futures item

  -- One output for each row
  abbrev pub IsRowwise : (List (List F) → Result (List F)) → Type 0
  IsRowwise predict =
      (rows : List (List F)) (ys : List F) → predict rows ≡ ok ys → length ys ≡ length rows

  contains-settle :
      (fut other : String) (r : Result F) (futures : Futures F)
      → contains fut futures ≡ true
      → contains fut (settle other r futures) ≡ true
  unfolding settle
  contains-settle fut other r futures h = ground (arith, h, lookup-insert other fut r futures)

  contains-settle_self :
      (fut : String) (r : Result F) (futures : Futures F)
      → contains fut (settle fut r futures) ≡ true
  unfolding settle
  contains-settle_self fut r futures = ground (arith, lookup-insert_self fut r futures)

  contains-set_results :
      (fut : String) (items : List (Item F)) (ys : List F) (futures : Futures F)
      → contains fut futures ≡ true
      → contains fut (set_results items ys futures) ≡ true
  unfolding set_results
  contains-set_results fut [] ys futures h = h
  contains-set_results fut (item ∷ items) [] futures h = h
  contains-set_results fut (item ∷ items) (y ∷ ys) futures h =
      contains-set_results fut items ys (settle item.fut (ok y) futures)
        (contains-settle fut item.fut (ok y) futures h)

  contains-set_exceptions :
      (fut e : String) (items : List (Item F)) (futures : Futures F)
      → contains fut futures ≡ true
      → contains fut (set_exceptions e items futures) ≡ true
  unfolding set_exceptions
  contains-set_exceptions fut e [] futures h = h
  contains-set_exceptions fut e (item ∷ items) futures h =
      contains-set_exceptions fut e items (settle item.fut (raised e) futures)
        (contains-settle fut item.fut (raised e) futures h)

  set_results-All :
      (items : List (Item F)) (ys : List F) (futures : Futures F)
      → length ys ≡ length items
      → All (IsDone (set_results items ys futures)) items
  unfolding set_results
  set_results-All [] ys futures h = tt
  set_results-All (item ∷ items) [] futures h = absurd (omega (arith, h))
  set_results-All (item ∷ items) (y ∷ ys) futures h = (
    contains-set_results item.fut items ys (settle item.fut (ok y) futures)
        (contains-settle_self item.fut (ok y) futures),
    set_results-All items ys (settle item.fut (ok y) futures) (omega (arith, h)),
  )

  set_exceptions-All :
      (e : String) (items : List (Item F)) (futures : Futures F)
      → All (IsDone (set_exceptions e items futures)) items
  unfolding set_exceptions
  set_exceptions-All e [] futures = tt
  set_exceptions-All e (item ∷ items) futures = (
    contains-set_exceptions item.fut e items (settle item.fut (raised e) futures)
        (contains-settle_self item.fut (raised e) futures),
    set_exceptions-All e items (settle item.fut (raised e) futures),
  )

  -- What a round does with its rows, once the runtime has answered
  abbrev outcome : List (Item F) → Result (List F) → Futures F → Futures F
  outcome [] r futures = futures
  outcome (item ∷ real) (ok ys) futures = set_results (item ∷ real) ys futures
  outcome (item ∷ real) (raised e) futures = set_exceptions e (item ∷ real) futures

  answer_batch-outcome :
      (predict : List (List F) → Result (List F)) (items real : List (Item F)) (r : Result (List F))
      (futures : Futures F)
      → real_items items ≡ real
      → predict (map (λ (it : Item F). it.row) real) ≡ r
      → answer_batch predict items futures ≡ outcome real r futures
  unfolding answer_batch
  answer_batch-outcome predict items [] r futures h k = ground (arith, h)
  answer_batch-outcome predict items (item ∷ real) (ok ys) futures h k = ground (arith, h, k)
  answer_batch-outcome predict items (item ∷ real) (raised e) futures h k = ground (arith, h, k)

  outcome-contains :
      (fut : String) (real : List (Item F)) (r : Result (List F)) (futures : Futures F)
      → contains fut futures ≡ true
      → contains fut (outcome real r futures) ≡ true
  outcome-contains fut [] r futures h = h
  outcome-contains fut (item ∷ real) (ok ys) futures h =
      contains-set_results fut (item ∷ real) ys futures h
  outcome-contains fut (item ∷ real) (raised e) futures h =
      contains-set_exceptions fut e (item ∷ real) futures h

  outcome-All :
      (real : List (Item F)) (r : Result (List F)) (futures : Futures F)
      → ((ys : List F) → r ≡ ok ys → length ys ≡ length real)
      → All (IsDone (outcome real r futures)) real
  outcome-All [] r futures h = tt
  outcome-All (item ∷ real) (ok ys) futures h = set_results-All (item ∷ real) ys futures (h ys refl)
  outcome-All (item ∷ real) (raised e) futures h = set_exceptions-All e (item ∷ real) futures

  length-map : (items : List (Item F)) → length (map (λ (it : Item F). it.row) items) ≡ length items
  length-map [] = refl
  length-map (item ∷ items) = omega (arith, length-map items)

  -- A future that is done stays done.
  pub contains-answer_batch :
      (predict : List (List F) → Result (List F)) (fut : String) (items : List (Item F))
      (futures : Futures F)
      → contains fut futures ≡ true
      → contains fut (answer_batch predict items futures) ≡ true
  contains-answer_batch predict fut items futures h =
      let real = real_items items in
      let r = predict (map (λ (it : Item F). it.row) real) in
      subst (λ (fs : Futures F). contains fut fs ≡ true)
        (sym (answer_batch-outcome predict items real r futures refl refl))
        (outcome-contains fut real r futures h)

  unless_empty-All :
      (futures : Futures F) (item : Item F) (row : List F) (others : List (Item F))
      → item.row ≡ row
      → All (IsDone futures) (unless_empty row item others)
      → IsAnswered futures item × All (IsDone futures) others
  unless_empty-All futures item [] others e h = (λ x xs e'. absurd (no_row x xs (sym e ∙ e')), h)
    where
      no_row : (x : F) (xs : List F) → [] ≢ x ∷ xs
      no_row x xs h = cc
  unless_empty-All futures item (y ∷ ys) others e (done, h) = (λ x xs e'. done, h)

  real_items-All :
      (futures : Futures F) (items : List (Item F))
      → All (IsDone futures) (real_items items)
      → All (IsAnswered futures) items
  unfolding real_items
  real_items-All futures [] h = tt
  real_items-All futures (item ∷ items) h =
      let (answered, others) = unless_empty-All futures item item.row (real_items items) refl h in
      (answered, real_items-All futures items others)

  -- A round answers every item of its batch.
  pub answer_batch-All :
      (predict : List (List F) → Result (List F)) (items : List (Item F)) (futures : Futures F)
      → IsRowwise predict
      → All (IsAnswered (answer_batch predict items futures)) items
  answer_batch-All predict items futures rowwise =
      let real = real_items items in
      let r = predict (map (λ (it : Item F). it.row) real) in
      subst (λ (fs : Futures F). All (IsAnswered fs) items)
        (sym (answer_batch-outcome predict items real r futures refl refl))
        (real_items-All (outcome real r futures) items
          (outcome-All real r futures (λ ys e. rowwise _ ys e ∙ length-map real)))
