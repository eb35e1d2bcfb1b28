-- ===== src/Flow/Nightly/Wrapping.antt =====
-- The cursor of deepCab/flow_v2/nightly.py after the walk has reached its horizon.
use deep_cab.Prelude.{
  ℕ, ◌+◌, ◌≤◌, min, max, String, Option, some, List, [], ◌∷◌, ◌++◌, ◌≡◌, ◌≢◌, str_eq_ne, arith, inl,
  inr, Option-cases,
}
use deep_cab.Flow.Windows.{next_window}
use deep_cab.Flow.Nightly.{Tracking, end_of, max_end, read_last_window_end}

module _ {S : Type 0} (tr : Tracking S) where
  max_end-append :
      (tags more : List (Option String)) (tag : Option String) (n : ℕ)
      → end_of tr tag ≡ some n
      → (k : ℕ) × (max_end tr (tags ++ tag ∷ more) ≡ some k) × (n ≤ k)
  unfolding max_end
  max_end-append [] more tag n h = elim (Option-cases (max_end tr more)) [
    | inl e ↦ (n, ground (arith, h, e), omega arith)
    | inr (k, e) ↦ (max n k, ground (arith, h, e), omega arith)
  ]
  max_end-append (t ∷ tags) more tag n h =
      let (k, e, bound) = max_end-append tags more tag n h in
      elim (Option-cases (end_of tr t)) [
        | inl f ↦ (k, ground (arith, e, f), bound)
        | inr (m, f) ↦ (max m k, ground (arith, e, f), omega (arith, bound))
      ]

  -- As long as the page of at most 100 runs that MLflow gives for the experiment has a run that is tagged
  -- with an end at the horizon or after it, the window of the next run is the first one, whatever runs
  -- come before and after it on the page.
  pub next_window-wrapped :
      (experiment : String) (s : S) (tags more : List (Option String)) (tag : Option String)
      (n period floor horizon : ℕ)
      → experiment ≢ ""
      → tr.window_ends experiment 100 s ≡ some (tags ++ tag ∷ more)
      → end_of tr tag ≡ some n
      → horizon ≤ n
      → next_window (read_last_window_end tr (some experiment) s) period floor horizon
        ≡ (floor, min (floor + period) horizon)
  unfolding next_window read_last_window_end
  next_window-wrapped experiment s tags more tag n period floor horizon named page h reached =
      let (k, e, bound) = max_end-append tags more tag n h in
      ground (arith, str_eq_ne experiment "" named, page, e, bound, reached)
