-- ===== src/Flow/Nightly.antt =====
-- The nightly flow of deepCab/flow_v2/nightly.py: the cursor that it reads from the tags of earlier runs,
-- and the run of one window. MLflow's client and the reading of timestamps are fields of `Tracking`.
pub mod Wrapping
use deep_cab.Prelude.{
  ℕ, ◌-◌, max, String, Bool, true, false, Option, none, some, List, [], ◌∷◌, if◌then◌else◌,
}
use deep_cab.Prelude.Exec.{ok, raised, Exec, pure, gets, ◌>>=◌, ◌>>◌}
use deep_cab.Schemas.Settings.{truthy, text_or}
use deep_cab.Flow.Overlay.{Process, env_overlay}
use deep_cab.Flow.Windows.{Window, next_window}
use deep_cab.Flow.Simulate.{
  ChunkResult, SimulateResult, Scene, Flow, P, chunk_where_clause, simulate,
}

-- What the flow asks of an `MlflowClient`. `window_ends` is `get_experiment_by_name`,
-- and then `search_runs` with at most so many results: the tag `deepcab.window_end` of each run that it
-- gives, or none if there is no such experiment.
pub record Tracking (S : Type 0) : Type 0 where
  pub window_ends : String → ℕ → S → Option (List (Option String))
  pub set_tag : String → String → String → Exec S (Unit {0})
  -- `datetime.fromisoformat`; none is the ValueError
  pub fromisoformat : String → Option ℕ
  pub isoformat_t : ℕ → String

abbrev pub later : ℕ → Option ℕ → Option ℕ
later n none = some n
later n (some k) = some (max n k)

module _ {S : Type 0} (tr : Tracking S) where
  -- The end in a tag; an empty tag or one that does not parse gives none.
  abbrev pub end_of : Option String → Option ℕ
  end_of tag = if truthy tag then tr.fromisoformat (text_or "" tag) else none

  -- The loop over the runs, and `max(ends) if ends else None`.
  unfoldable pub max_end : List (Option String) → Option ℕ
  max_end [] = none
  max_end (tag ∷ tags) = elim (end_of tag) [ none ↦ max_end tags | some n ↦ later n (max_end tags) ]

  -- `_read_last_window_end`
  unfoldable pub read_last_window_end : Option String → S → Option ℕ
  unfolding max_end
  read_last_window_end experiment s =
      if truthy experiment
      then elim (tr.window_ends (text_or "" experiment) 100 s) [
        | none ↦ none
        | some tags ↦ max_end tags
      ]
      else none

pub last_run_id : {F : Type 0} → List (ChunkResult F) → Option String
last_run_id [] = none
last_run_id (c ∷ []) = c.train_run_id
last_run_id (_ ∷ c ∷ cs) = last_run_id (c ∷ cs)

module _ {F S : Type 0} (fl : Flow F S) (tr : Tracking S) where
  abbrev pub in_tracking : Exec S (Unit {0}) → Exec (P fl) (Unit {0})
  in_tracking m p =
      let (r, s) = m p.rest.outside in (r, record p { rest = record p.rest { outside = s } })

  -- The tags that a run leaves.
  unfoldable pub tag_run : Option String → Window → Exec (P fl) (Unit {0})
  tag_run run_id (start, end) =
      if truthy run_id
      then (do
        in_tracking (tr.set_tag (text_or "" run_id) "deepcab.window_start" (tr.isoformat_t start))
        in_tracking (tr.set_tag (text_or "" run_id) "deepcab.window_end" (tr.isoformat_t end)))
      else pure tt

  -- `_simulate_impl` with one chunk for the window; the loop over chunks that ran out of fuel raises.
  abbrev pub simulate_window : ℕ → F → Window → Exec (P fl) (SimulateResult F)
  simulate_window fuel threshold (start, end) =
      elim (simulate fl fuel start end (end - start) threshold true) [
        | none ↦ λ p. (raised "out of fuel", p)
        | some run ↦ run
      ]

  -- `run_nightly`, given whether there is a client, the experiment, and the floor and the horizon.
  unfoldable pub run_nightly : ℕ → Bool → Option String → ℕ → ℕ → ℕ → String → F → Exec (P fl) ℕ
  unfolding read_last_window_end tag_run last_run_id
  run_nightly fuel connected experiment period floor horizon reference_where threshold =
      if connected
      then (do
        last_end ← gets (λ p. read_last_window_end tr experiment p.rest.outside)
        let window = next_window last_end period floor horizon
        result ←
            env_overlay
              (("DATA_SOURCE", some "query")
                ∷ ("DATA_BQ_PROJECT", some "bigquery-public-data")
                ∷ ("DATA_BQ_DATASET", some "new_york")
                ∷ ("DATA_BQ_TABLE", some "tlc_yellow_trips_2014")
                ∷ ("DATA_BQ_WHERE", some reference_where)
                ∷ [])
              true (simulate_window fuel threshold window)
        tag_run (last_run_id result.chunks) window
        pure 0)
      else pure 0
