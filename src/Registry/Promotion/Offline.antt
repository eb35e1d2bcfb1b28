-- ===== src/Registry/Promotion/Offline.antt =====
-- What `maybe_promote` of deepCab/registry/promotion.py reports when no tracking URI is set: then
-- `set_alias` skips every call of MLflow, while the service builds a client for the lookups.
use deep_cab.Prelude.{String, ◌≡◌, ◌≢◌, false, true, none, some, arith, str_eq, str_eq_ne}
use deep_cab.Prelude.Exec.{ok}
use deep_cab.Registry.Alias.{World, has_client}
use deep_cab.Registry.Alias.Moves.{set_alias_no_client}
use deep_cab.Registry.Promotion.{
  PromotionInputs, PromotionResult, Service, set, score, current_champion_version, promote_model,
  maybe_promote,
}

module _ {F S E X : Type 0} (sv : Service F S E X)
    (offline : has_client sv.api sv.mlflow sv.obs true ≡ false)
    (champion_named : sv.mlflow.champion_alias ≢ "")
    (challenger_named : sv.mlflow.challenger_alias ≢ "") where
  -- The result of a first promotion.
  abbrev pub bootstrap : PromotionInputs F → F → PromotionResult F
  bootstrap inputs c = record {
    promoted = true;
    reason = "no-existing-champion";
    challenger_version = inputs.challenger_version;
    challenger_metric = c;
    old_champion_version = none;
    champion_metric = none;
    new_champion_version = some inputs.challenger_version;
  }

  module _ (model : String) (inputs : PromotionInputs F) (c : F) (w : World S) (named : model ≢ "")
      (bare : current_champion_version sv model sv.mlflow.champion_alias w ≡ none)
      (scored : score sv model inputs.challenger_version inputs.reference_data inputs.metric
        ≡ ok c) where
    promote_model_offline :
        ((promote_model sv model inputs w).0 ≡ ok (bootstrap inputs c))
        × ((promote_model sv model inputs w).1.store ≡ w.store)
    unfolding promote_model
    promote_model_offline =
        let v = inputs.challenger_version in
        let w₁ = (set sv model sv.mlflow.challenger_alias v w).1 in
        ground (
          arith,
          set_alias_no_client sv.api sv.mlflow sv.obs model sv.mlflow.challenger_alias v w named
              challenger_named offline,
          set_alias_no_client sv.api sv.mlflow sv.obs model sv.mlflow.champion_alias v w₁ named
              champion_named offline,
        )

    -- With no client for aliases, names for the model and the aliases, no champion, and a
    -- challenger that can be scored, the result says that the challenger was promoted, and nothing
    -- in the registry has changed.
    pub maybe_promote_offline :
        inputs.model_name ≡ some model
        → ((maybe_promote sv inputs w).0 ≡ ok (bootstrap inputs c))
          × ((maybe_promote sv inputs w).1.store ≡ w.store)
    unfolding maybe_promote
    maybe_promote_offline given =
        let n : str_eq model "" ≡ false = str_eq_ne model "" named in
        ground (arith, promote_model_offline)
