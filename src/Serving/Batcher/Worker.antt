-- ===== src/Serving/Batcher/Worker.antt =====
-- The worker of deepCab/serving/batcher.py among the coroutines that submit rows and stop it. A step is what
-- happens between two waits on the event loop: the queue has one consumer and is first in, first out, so
-- a batch is taken from its front when it is complete, and the items that come meanwhile are behind.
pub mod Rounds
pub mod Draining
pub mod Stopping
use deep_cab.Prelude.{ℕ, suc, String, Bool, true, false, List, [], ◌∷◌, ◌++◌, ◌≡◌}
use deep_cab.Prelude.Exec.{Result}
use deep_cab.Serving.Batcher.{Item, Wait, Futures, collect_batch, answer_batch}

-- Where the worker is: at the test of its loop, in `_collect_batch`, or returned.
pub data Phase : Type 0 where
  testing collecting returned : Phase

pub record Worker (F : Type 0) : Type 0 where
  pub queue : List (Item F)
  pub closed : Bool
  pub phase : Phase
  pub futures : Futures F

module _ {F : Type 0} where
  -- `start`, on a batcher that is new
  unfoldable pub started : Worker F
  started = record { queue = []; closed = false; phase = testing; futures = [] }

  -- The put of `submit`
  unfoldable pub submit : Item F → Worker F → Worker F
  submit item w = record w { queue = w.queue ++ item ∷ [] }

  -- The sentinel that `stop` puts, with its future
  abbrev pub sentinel : String → Item F
  sentinel fut = record { fut = fut; row = [] }

  -- `stop`, until it waits for the task
  unfoldable pub stop : String → Worker F → Worker F
  stop fut w = record w { queue = w.queue ++ sentinel fut ∷ []; closed = true }

  -- The end of a round of `_run`, with the batch and what stays in the queue
  unfoldable pub answer :
      (List (List F) → Result (List F)) → List (Item F) → List (Item F) → Worker F → Worker F
  unfolding answer_batch
  answer predict items rest w = record w {
    queue = rest;
    phase = testing;
    futures = answer_batch predict items w.futures;
  }

module _ {F : Type 0} (max_batch : ℕ) (predict : List (List F) → Result (List F)) where
  pub data Step : Worker F → Worker F → Type 0 where
    -- `submit` raises once the batcher is closed
    submits : (w : Worker F) (item : Item F) → w.closed ≡ false → Step w (submit item w)
    stops : (w : Worker F) (fut : String) → Step w (stop fut w)
    -- the test of the loop, both ways
    enters :
        (w : Worker F)
        → w.phase ≡ testing
        → w.closed ≡ false
        → Step w (record w { phase = collecting })
    leaves :
        (w : Worker F)
        → w.phase ≡ testing
        → w.closed ≡ true
        → Step w (record w { phase = returned })
    answers :
        (w : Worker F) (first : Item F) (waits : List (Wait F)) (rest : List (Item F))
        → w.phase ≡ collecting
        → w.queue ≡ collect_batch max_batch first waits ++ rest
        → Step w (answer predict (collect_batch max_batch first waits) rest w)

  infixr 5 ◌then◌
  pub data Way : Worker F → Worker F → Type 0 where
    here : (w : Worker F) → Way w w
    ◌then◌ : {w v u : Worker F} → Step w v → Way v u → Way w u

module _ {F : Type 0} {max_batch : ℕ} {predict : List (List F) → Result (List F)} where
  -- The batches that are answered on the way.
  unfoldable pub rounds : {w u : Worker F} → Way max_batch predict w u → ℕ
  rounds (here w) = 0
  rounds (answers w first waits rest p q then path) = suc (rounds path)
  rounds (st then path) = rounds path
