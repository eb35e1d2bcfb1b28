-- ===== src/Agent/Memory/Comparing.antt =====
-- `compare_runs` of deepCab/agent/memory.py: where the parameters and the metrics of some runs differ. The
-- client's `get_run`, the equality of values and the printing of an index are arguments; the order of the
-- keys is left open by the code, which walks a set.
pub mod Differences
use deep_cab.Prelude.{
  ℕ, suc, String, ◌<>◌, Bool, true, false, ◌&&◌, Option, none, some, List, [], ◌∷◌, map,
  if◌then◌else◌,
}
use deep_cab.Prelude.Dict.{Dict, lookup, insert}
use deep_cab.Prelude.Exec.{Result, ok, raised}

module _ {V : Type 0} where
  -- The keys of a dict, added to a set of keys
  unfoldable pub add_keys : Dict V → Dict (Unit {0}) → Dict (Unit {0})
  add_keys [] keys = keys
  add_keys ((k, _) ∷ d) keys = add_keys d (insert k tt keys)

  -- `set().union(*[d.keys() for d in dicts])`
  unfoldable pub all_keys : List (Dict V) → Dict (Unit {0})
  unfolding add_keys
  all_keys [] = []
  all_keys (d ∷ dicts) = add_keys d (all_keys dicts)

  -- `{f"run_{i}": v for i, v in enumerate(values)}`, from a first index on
  unfoldable pub numbered : (ℕ → String) → ℕ → List (Option V) → Dict (Option V)
  numbered show_ℕ i [] = []
  numbered show_ℕ i (v ∷ values) = ("run_" <> show_ℕ i, v) ∷ numbered show_ℕ (suc i) values

  abbrev pub same_option : (V → V → Bool) → Option V → Option V → Bool
  same_option same none none = true
  same_option same (some v) (some w) = same v w
  same_option same _ _ = false

  -- Whether all are the same as a first one
  unfoldable pub all_same_as : (V → V → Bool) → Option V → List (Option V) → Bool
  all_same_as same v [] = true
  all_same_as same v (w ∷ values) = same_option same v w && all_same_as same v values

  -- `len(set(values)) <= 1`
  unfoldable pub all_same : (V → V → Bool) → List (Option V) → Bool
  unfolding all_same_as
  all_same same [] = true
  all_same same (v ∷ values) = all_same_as same v values

  -- `[d.get(k) for d in dicts]`
  abbrev pub values_at : String → List (Dict V) → List (Option V)
  values_at k [] = []
  values_at k (d ∷ dicts) = lookup k d ∷ values_at k dicts

  module _ (show_ℕ : ℕ → String) (same : V → V → Bool) where
    -- The loop over the keys
    unfoldable pub diff_over : List (Dict V) → Dict (Unit {0}) → Dict (Dict (Option V))
    unfolding all_same numbered
    diff_over dicts [] = []
    diff_over dicts ((k, _) ∷ keys) =
        let values = values_at k dicts in
        let rest = diff_over dicts keys in
        if all_same same values then rest else insert k (numbered show_ℕ 0 values) rest

    -- `_diff_dicts`
    unfoldable pub diff_dicts : List (Dict V) → Dict (Dict (Option V))
    unfolding diff_over all_keys
    diff_dicts dicts = diff_over dicts (all_keys dicts)

-- A run as `get_run` gives it
pub record RunDetail (F : Type 0) : Type 0 where
  pub run_id : String
  pub status : String
  pub params : Dict String
  pub metrics : Dict F

pub record Comparison (F : Type 0) : Type 0 where
  pub runs : List (RunDetail F)
  pub param_diff : Dict (Dict (Option String))
  pub metric_diff : Dict (Dict (Option F))

module _ {F : Type 0} (get_run : String → Result (RunDetail F)) where
  abbrev pub with_run :
      Result (RunDetail F) → Result (List (RunDetail F)) → Result (List (RunDetail F))
  with_run (raised e) rest = raised e
  with_run (ok r) (raised e) = raised e
  with_run (ok r) (ok rs) = ok (r ∷ rs)

  -- `[client.get_run(rid) for rid in run_ids]`
  unfoldable pub get_runs : List String → Result (List (RunDetail F))
  get_runs [] = ok []
  get_runs (rid ∷ run_ids) = with_run (get_run rid) (get_runs run_ids)

  module _ (show_ℕ : ℕ → String) (same_text : String → String → Bool) (same : F → F → Bool) where
    abbrev pub compared : Result (List (RunDetail F)) → Result (Comparison F)
    compared (raised e) = raised e
    compared (ok runs) = ok (record {
      runs = runs;
      param_diff = diff_dicts show_ℕ same_text (map (λ (r : RunDetail F). r.params) runs);
      metric_diff = diff_dicts show_ℕ same (map (λ (r : RunDetail F). r.metrics) runs);
    })

    -- `compare_runs`, told whether there is a client
    unfoldable pub compare_runs : Bool → List String → Result (Comparison F)
    unfolding get_runs diff_dicts
    compare_runs connected run_ids =
        if connected
        then compared (get_runs run_ids)
        else ok (record { runs = []; param_diff = []; metric_diff = [] })
