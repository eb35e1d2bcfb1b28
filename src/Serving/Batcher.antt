-- ===== src/Serving/Batcher.antt =====
-- `Batcher` of deepCab/serving/batcher.py: the collecting of a batch, and the round that answers it. A
-- future is its name, and `Futures` holds the outcomes of those that are done; what each wait on the
-- queue gives, an item or the deadline, is an argument.
pub mod Answers
pub mod Worker
use deep_cab.Prelude.{
  ℕ, zero, suc, ◌-◌, String, Bool, Option, none, some, List, [], ◌∷◌, map, if◌then◌else◌,
}
use deep_cab.Prelude.Dict.{Dict, insert, contains}
use deep_cab.Prelude.Exec.{Result, ok, raised}

-- `_Item`
pub record Item (F : Type 0) : Type 0 where
  pub fut : String
  pub row : List F

-- What a wait gives: the next item, or none at the deadline.
abbrev pub Wait : Type 0 → Type 0
Wait F = Option (Item F)

-- The outcomes of the futures that are done.
abbrev pub Futures : Type 0 → Type 0
Futures F = Dict (Result F)

module _ {F : Type 0} where
  -- The loop of `_collect_batch`, with the room that is left in the batch.
  unfoldable pub collect_rest : ℕ → List (Wait F) → List (Item F)
  collect_rest zero waits = []
  collect_rest (suc room) [] = []
  collect_rest (suc room) (none ∷ waits) = []
  collect_rest (suc room) (some item ∷ waits) = item ∷ collect_rest room waits

  -- `_collect_batch`
  unfoldable pub collect_batch : ℕ → Item F → List (Wait F) → List (Item F)
  unfolding collect_rest
  collect_batch max_batch first waits = first ∷ collect_rest (max_batch - 1) waits

  -- The item, unless its row is empty, before the others
  abbrev pub unless_empty : List F → Item F → List (Item F) → List (Item F)
  unless_empty [] item others = others
  unless_empty (_ ∷ _) item others = item ∷ others

  -- `[it for it in items if it.row.size > 0]`
  unfoldable pub real_items : List (Item F) → List (Item F)
  real_items [] = []
  real_items (item ∷ items) = unless_empty item.row item (real_items items)

  -- `if not fut.done(): fut.set_result(...)`, and the same with an exception
  unfoldable pub settle : String → Result F → Futures F → Futures F
  settle fut outcome futures = if contains fut futures then futures else insert fut outcome futures

  -- The loop over `zip(real, ys)`
  unfoldable pub set_results : List (Item F) → List F → Futures F → Futures F
  unfolding settle
  set_results (item ∷ items) (y ∷ ys) futures =
      set_results items ys (settle item.fut (ok y) futures)
  set_results _ _ futures = futures

  -- The loop of the `except`
  unfoldable pub set_exceptions : String → List (Item F) → Futures F → Futures F
  unfolding settle
  set_exceptions e [] futures = futures
  set_exceptions e (item ∷ items) futures =
      set_exceptions e items (settle item.fut (raised e) futures)

  -- A round of `_run` on a batch; `predict` is the runtime's, on the stacked rows.
  unfoldable pub answer_batch :
      (List (List F) → Result (List F)) → List (Item F) → Futures F → Futures F
  unfolding real_items set_results set_exceptions
  answer_batch predict items futures = elim (real_items items) [
    | [] ↦ futures
    | item ∷ real ↦ elim (predict (map (λ (it : Item F). it.row) (item ∷ real))) [
      | ok ys ↦ set_results (item ∷ real) ys futures
      | raised e ↦ set_exceptions e (item ∷ real) futures
    ]
  ]
