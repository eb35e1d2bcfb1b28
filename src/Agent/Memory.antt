-- ===== src/Agent/Memory.antt =====
-- deepCab/agent/memory.py: the past runs that the agent reads from MLflow, and its next suggestion. The
-- client's search, the digest of the parameters and the printing of a metric are fields of `Archive`.
pub mod Comparing
use deep_cab.Prelude.{
  ℕ, String, ◌<>◌, Bool, true, false, ◌&&◌, Option, none, some, List, [], ◌∷◌, map, str_eq,
  if◌then◌else◌,
}
use deep_cab.Prelude.Floats.{FloatOps}
use deep_cab.Prelude.Dict.{Dict, lookup}
use deep_cab.Schemas.Settings.{truthy, text_or}

pub record MemoryEntry (F : Type 0) : Type 0 where
  pub run_id : String
  pub backend_kind : String
  pub metric_name : String
  pub metric_value : F
  pub params_digest : String
  pub started_at : F

-- The part of an MLflow run that is read; `start_time` may be missing.
pub record RunInfo (F : Type 0) : Type 0 where
  pub run_id : String
  pub params : Dict String
  pub metrics : Dict F
  pub start_time : Option F

-- `search` gives the runs of an experiment by a metric, ascending, at most so many; none means that there
-- is no such experiment.
pub record Archive (F : Type 0) : Type 0 where
  pub floats : FloatOps F
  pub connected : Bool
  pub experiment : Option String
  pub search : String → String → ℕ → Option (List (RunInfo F))
  pub digest : Dict String → String
  pub show_metric : F → String

-- What `propose_next_experiment` suggests.
pub record Proposal : Type 0 where
  pub backend_kind : String
  pub rationale : String

module _ {F : Type 0} (ar : Archive F) where
  abbrev pub float_or : Option F → F → F
  float_or none default = default
  float_or (some x) default = x

  -- One round of the loop over the runs
  unfoldable pub entry_of : String → RunInfo F → MemoryEntry F
  entry_of metric r = record {
    run_id = r.run_id;
    backend_kind = text_or "unknown" (lookup "backend.kind" r.params);
    metric_name = metric;
    metric_value = float_or (lookup metric r.metrics) ar.floats.nan;
    params_digest = ar.digest r.params;
    started_at = ar.floats.div (float_or r.start_time (ar.floats.of_ℕ 0)) (ar.floats.of_ℕ 1000);
  }

  abbrev pub entries : String → Option (List (RunInfo F)) → List (MemoryEntry F)
  entries metric none = []
  entries metric (some runs) = map (entry_of metric) runs

  -- `list_runs`
  unfoldable pub list_runs : ℕ → String → List (MemoryEntry F)
  unfolding entry_of
  list_runs top_k metric =
      if ar.connected && truthy ar.experiment
      then entries metric (ar.search (text_or "" ar.experiment) metric top_k)
      else []

  -- `len({r.backend_kind for r in top}) == 1`, of a list that has this first kind
  unfoldable pub all_kind : String → List (MemoryEntry F) → Bool
  all_kind kind [] = true
  all_kind kind (r ∷ rest) = str_eq r.backend_kind kind && all_kind kind rest

  unfoldable pub propose_from : String → List (MemoryEntry F) → Proposal
  unfolding all_kind
  propose_from goal [] = record {
    backend_kind = "xgb";
    rationale =
        "no prior runs to learn from — start with a fast XGBoost baseline (goal: " <> goal <> ")";
  }
  propose_from goal (best ∷ rest) =
      if all_kind best.backend_kind rest
      then record {
        backend_kind = "lgbm";
        rationale =
            "goal: "
            <> goal
            <> " — best so far ("
            <> best.metric_name
            <> "="
            <> ar.show_metric best.metric_value
            <> ") is from "
            <> best.backend_kind
            <> "; try LightGBM next for a different inductive bias";
      }
      else record {
        backend_kind = best.backend_kind;
        rationale =
            "goal: "
            <> goal
            <> " — backend "
            <> best.backend_kind
            <> " leads at "
            <> best.metric_name
            <> "="
            <> ar.show_metric best.metric_value
            <> "; tune it harder";
      }

  -- `propose_next_experiment`, the kind and the reason
  unfoldable pub propose_next_experiment : String → Proposal
  unfolding list_runs propose_from
  propose_next_experiment goal = propose_from goal (list_runs 3 "val_mae")
