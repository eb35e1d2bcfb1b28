-- ===== src/Serving/Batcher/Answers.antt =====
-- Who is answered, and with what, by a round of deepCab/serving/batcher.py.
use deep_cab.Prelude.{
  ℕ, zero, suc, ◌-◌, ◌≤◌, max, String, none, some, List, [], ◌∷◌, ◌++◌, ◌≡◌, ◌≢◌, refl, ◌∙◌, ap,
  arith, map, length, All, eq_iff, str_eq_ne,
}
use deep_cab.Prelude.Dict.{lookup, lookup-insert, lookup-insert_self}
use deep_cab.Prelude.Exec.{Result, ok}
use deep_cab.Serving.Batcher.{
  Item, Wait, Futures, collect_rest, collect_batch, real_items, unless_empty, settle, set_results,
  answer_batch,
}

module _ {F : Type 0} where
  length-collect_rest : (room : ℕ) (waits : List (Wait F)) → length (collect_rest room waits) ≤ room
  unfolding collect_rest
  length-collect_rest zero waits = omega arith
  length-collect_rest (suc room) [] = omega arith
  length-collect_rest (suc room) (none ∷ waits) = omega arith
  length-collect_rest (suc room) (some item ∷ waits) = omega (arith, length-collect_rest room waits)

  -- A batch has at least one item, and at most as many as the limit, or one if the limit is 0.
  pub length-collect_batch :
      (max_batch : ℕ) (first : Item F) (waits : List (Wait F))
      → (1 ≤ length (collect_batch max_batch first waits))
        × (length (collect_batch max_batch first waits) ≤ max max_batch 1)
  unfolding collect_batch
  length-collect_batch max_batch first waits =
      (omega arith, omega (arith, length-collect_rest (max_batch - 1) waits))

  lookup-settle_other :
      (fut other : String) (r : Result F) (futures : Futures F)
      → other ≢ fut
      → lookup fut (settle other r futures) ≡ lookup fut futures
  unfolding settle
  lookup-settle_other fut other r futures h =
      ground (arith, lookup-insert other fut r futures, str_eq_ne other fut h)

  lookup-settle :
      (fut : String) (r : Result F) (futures : Futures F)
      → lookup fut futures ≡ none
      → lookup fut (settle fut r futures) ≡ some r
  unfolding settle
  lookup-settle fut r futures h = ground (arith, h, lookup-insert_self fut r futures)

  -- A future that is done stays as it is.
  lookup-settle_done :
      (fut other : String) (r a : Result F) (futures : Futures F)
      → lookup fut futures ≡ some a
      → lookup fut (settle other r futures) ≡ some a
  unfolding settle
  lookup-settle_done fut other r a futures h =
      ground (arith, h, lookup-insert other fut r futures, eq_iff other fut)

  set_results-done :
      (items : List (Item F)) (ys : List F) (fut : String) (a : Result F) (futures : Futures F)
      → lookup fut futures ≡ some a
      → lookup fut (set_results items ys futures) ≡ some a
  unfolding set_results
  set_results-done [] ys fut a futures h = h
  set_results-done (item ∷ items) [] fut a futures h = h
  set_results-done (item ∷ items) (y ∷ ys) fut a futures h =
      set_results-done items ys fut a (settle item.fut (ok y) futures)
        (lookup-settle_done fut item.fut (ok y) a futures h)

  -- The item has another future.
  abbrev pub Apart : String → Item F → Type 0
  Apart fut item = item.fut ≢ fut

  set_results-own :
      (f : List F → F) (before after : List (Item F)) (item : Item F) (futures : Futures F)
      → All (Apart item.fut) before
      → lookup item.fut futures ≡ none
      → lookup item.fut (
          set_results
            (before ++ item ∷ after)
            (map (λ (it : Item F). f it.row) (before ++ item ∷ after))
            futures)
        ≡ some (ok (f item.row))
  unfolding set_results
  set_results-own f [] after item futures tt h =
      set_results-done after _ item.fut (ok (f item.row))
        (settle item.fut (ok (f item.row)) futures)
        (lookup-settle item.fut (ok (f item.row)) futures h)
  set_results-own f (b ∷ before) after item futures (ne, apart) h =
      set_results-own f before after item (settle b.fut (ok (f b.row)) futures) apart
        (lookup-settle_other item.fut b.fut (ok (f b.row)) futures ne ∙ h)

  unless_empty-append :
      (row : List F) (item : Item F) (others more : List (Item F))
      → unless_empty row item (others ++ more) ≡ unless_empty row item others ++ more
  unless_empty-append [] item others more = refl
  unless_empty-append (y ∷ ys) item others more = refl

  real_items-split :
      (before after : List (Item F)) (item : Item F) (x : F) (xs : List F)
      → item.row ≡ x ∷ xs
      → real_items (before ++ item ∷ after) ≡ real_items before ++ item ∷ real_items after
  unfolding real_items
  real_items-split [] after item x xs h = ap (λ row. unless_empty row item (real_items after)) h
  real_items-split (b ∷ before) after item x xs h =
      ap (λ items. unless_empty b.row b items) (real_items-split before after item x xs h)
      ∙ unless_empty-append b.row b (real_items before) (item ∷ real_items after)

  unless_empty-Apart :
      (fut : String) (row : List F) (item : Item F) (others : List (Item F))
      → item.fut ≢ fut
      → All (Apart fut) others
      → All (Apart fut) (unless_empty row item others)
  unless_empty-Apart fut [] item others ne h = h
  unless_empty-Apart fut (y ∷ ys) item others ne h = (ne, h)

  real_items-Apart :
      (fut : String) (items : List (Item F))
      → All (Apart fut) items
      → All (Apart fut) (real_items items)
  unfolding real_items
  real_items-Apart fut [] h = tt
  real_items-Apart fut (item ∷ items) (h, hs) =
      unless_empty-Apart fut item.row item (real_items items) h (real_items-Apart fut items hs)

  answer-real :
      (predict : List (List F) → Result (List F)) (f : List F → F) (items : List (Item F))
      (futures : Futures F)
      → ((rows : List (List F)) → predict rows ≡ ok (map f rows))
      → (real : List (Item F)) → real_items items ≡ real
      → answer_batch predict items futures
        ≡ set_results real (map f (map (λ (it : Item F). it.row) real)) futures
  unfolding answer_batch set_results
  answer-real predict f items futures rowwise [] h = ground (arith, h)
  answer-real predict f items futures rowwise (item ∷ real) h =
      ground (arith, h, rowwise (map (λ (it : Item F). it.row) (item ∷ real)))

  map-map :
      (f : List F → F) (items : List (Item F))
      → map f (map (λ (it : Item F). it.row) items) ≡ map (λ (it : Item F). f it.row) items
  map-map f [] = refl
  map-map f (item ∷ items) = ap (λ ys. f item.row ∷ ys) (map-map f items)

  -- Wherever an item stands in a batch, its future gets the output of its own row, if the runtime treats
  -- each row by itself, the row is not a sentinel's, and the future is not done and is no one else's
  -- before it.
  pub answer_batch-own :
      (predict : List (List F) → Result (List F)) (f : List F → F) (before after : List (Item F))
      (item : Item F) (x : F) (xs : List F) (futures : Futures F)
      → ((rows : List (List F)) → predict rows ≡ ok (map f rows))
      → item.row ≡ x ∷ xs
      → All (Apart item.fut) before
      → lookup item.fut futures ≡ none
      → lookup item.fut (answer_batch predict (before ++ item ∷ after) futures)
        ≡ some (ok (f item.row))
  answer_batch-own predict f before after item x xs futures rowwise h apart free =
      let real = real_items before ++ item ∷ real_items after in
      ap (lookup item.fut) (
        answer-real predict f (before ++ item ∷ after) futures rowwise real
          (real_items-split before after item x xs h)
        ∙ ap (λ ys. set_results real ys futures) (map-map f real))
      ∙ set_results-own f (real_items before) (real_items after) item futures
          (real_items-Apart item.fut before apart) free
