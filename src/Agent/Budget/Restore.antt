-- ===== src/Agent/Budget/Restore.antt =====
-- `restore` of deepCab/agent/budget.py over a growing log.
use deep_cab.Prelude.{List, [], ◌∷◌, ◌++◌, ◌≡◌, arith, inl, inr}
use deep_cab.Prelude.Floats.{FloatOps}
use deep_cab.Prelude.Exec.{ok, Result-cases}
use deep_cab.Agent.Event.{AgentEvent}
use deep_cab.Agent.Budget.{Budget, restore_event, restore}

module _ {F : Type 0} (fl : FloatOps F) where
  -- What the last event of a log adds.
  pub restore-append :
      (events : List (AgentEvent F)) (ev : AgentEvent F) (b : Budget F) {b' : Budget F}
      → restore fl events b ≡ ok b'
      → restore fl (events ++ ev ∷ []) b ≡ restore_event fl ev.kind ev.payload b'
  unfolding restore
  restore-append [] ev b h = ground arith
  restore-append (e ∷ events) ev b {b'} h =
      elim (Result-cases (restore_event fl e.kind e.payload b)) [
        | inl (b₁, good) ↦ ground (arith, good, restore-append events ev b₁ {b' = b'})
        | inr (text, bad) ↦ ground (arith, bad)
      ]
