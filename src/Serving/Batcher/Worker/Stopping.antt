-- ===== src/Serving/Batcher/Worker/Stopping.antt =====
-- What `stop` of deepCab/serving/batcher.py leaves in the queue.
use deep_cab.Prelude.{ℕ, String, List, [], ◌∷◌, ◌++◌, ◌≡◌, refl, ◌∙◌, ap, append_assoc}
use deep_cab.Prelude.Exec.{Result}
use deep_cab.Serving.Batcher.{Item, Wait, collect_batch, answer_batch}
use deep_cab.Serving.Batcher.Worker.{
  collecting, returned, Worker, submit, sentinel, stop, answer, submits, stops, enters, leaves,
  answers, Way, here, ◌then◌,
}

module _ {F : Type 0} where
  -- The worker once `stop` came while it collected a batch: it has answered that batch, and returned.
  abbrev pub after_stop :
      (List (List F) → Result (List F))
      → String
      → List (Item F)
      → List (Item F)
      → Worker F
      → Worker F
  after_stop predict fut batch rest w =
      record (answer predict batch (rest ++ sentinel fut ∷ []) (stop fut w)) { phase = returned }

module _ {F : Type 0} {max_batch : ℕ} {predict : List (List F) → Result (List F)} where
  returned-stays :
      {w u : Worker F} → Way max_batch predict w u → w.phase ≡ returned → u.futures ≡ w.futures
  unfolding submit stop answer
  returned-stays (here w) h = refl
  returned-stays (submits w other unclosed then path) h = returned-stays path h
  returned-stays (stops w fut then path) h = returned-stays path h
  returned-stays (enters w p unclosed then path) h = absurd (cc (p, h))
  returned-stays (leaves w p shut then path) h = returned-stays path refl
  returned-stays (answers w first waits rest p q then path) h = absurd (cc (p, h))

  -- If `stop` comes while the worker collects a batch, the worker may answer that batch and return: then
  -- the items behind the batch are still in the queue, and on no path is any other future settled.
  pub stop_strands :
      (w : Worker F) (first : Item F) (waits : List (Wait F)) (rest : List (Item F)) (fut : String)
      {v : Worker F}
      → w.phase ≡ collecting
      → w.queue ≡ collect_batch max_batch first waits ++ rest
      → Way max_batch predict
          (after_stop predict fut (collect_batch max_batch first waits) rest w)
          v
      → Way max_batch predict w
          (after_stop predict fut (collect_batch max_batch first waits) rest w)
        × (v.futures ≡ answer_batch predict (collect_batch max_batch first waits) w.futures)
  unfolding stop answer
  stop_strands w first waits rest fut p q path =
      let batch = collect_batch max_batch first waits in
      let behind = rest ++ sentinel fut ∷ [] in
      (
        stops w fut
            then answers (stop fut w) first waits behind p
                (ap (λ l. l ++ sentinel fut ∷ []) q ∙ append_assoc batch rest (sentinel fut ∷ []))
            then leaves (answer predict batch behind (stop fut w)) refl refl
            then here _,
        returned-stays path refl,
      )
