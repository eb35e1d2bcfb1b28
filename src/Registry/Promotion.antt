-- ===== src/Registry/Promotion.antt =====
-- `PromotionService` of deepCab/registry/promotion.py: score the challenger and the champion, and
-- move the aliases if the challenger is better by the threshold. Loading a version, preprocessing a
-- slice and an estimator's `predict` are parameters, as are the float operations.
pub mod Outcome
pub mod Threshold
pub mod Offline
use deep_cab.Prelude.{String, Bool, true, false, Option, none, some, List, str_eq, if◌then◌else◌}
use deep_cab.Prelude.Floats.{FloatOps}
use deep_cab.Prelude.Exec.{Result, ok, raised, Exec, pure, raise, lift, ◌>>=◌, ◌>>◌}
use deep_cab.Schemas.Enums.{Split, val}
use deep_cab.Schemas.Settings.{DataRef, MlflowSettings, ObsSettings, truthy, or_else, text_or}
use deep_cab.Training.Evaluate.{EvalResult, evaluate, metric_of}
use deep_cab.Registry.Alias.{Mlflow, World, found, has_client, set_alias}

pub record PromotionInputs (F : Type 0) : Type 0 where
  pub challenger_version : String
  pub reference_data : DataRef
  pub model_name : Option String
  pub improvement_threshold : F
  pub metric : String

pub record PromotionResult (F : Type 0) : Type 0 where
  pub promoted : Bool
  pub reason : String
  pub challenger_version : String
  pub challenger_metric : F
  pub old_champion_version : Option String
  pub champion_metric : Option F
  pub new_champion_version : Option String

-- The collaborators of the service. `client` is the injected client's lookup of an alias, or none for
-- the default client; `load_version` is the injected loader, or MLflow's.
pub record Service (F S E X : Type 0) : Type 0 where
  pub floats : FloatOps F
  pub mlflow : MlflowSettings
  pub obs : ObsSettings
  pub api : Mlflow S
  pub client : Option (String → String → S → Result String)
  pub load_version : String → String → Result E
  pub preprocess : DataRef → Split → Result (X × List F)
  pub predict : E → X → List F

module _ {F S E X : Type 0} (sv : Service F S E X) where
  -- `_mlflow_client().get_model_version_by_alias(...)`: with no client, the attribute of None raises.
  unfoldable pub ask_alias : String → String → S → Result String
  unfolding has_client
  ask_alias model alias s = elim sv.client [
    | some ask ↦ ask model alias s
    | none ↦
        if has_client sv.api sv.mlflow sv.obs false
        then sv.api.get_model_version_by_alias model alias s
        else raised "AttributeError"
  ]

  -- `_current_champion_version`: any exception means that there is no champion.
  unfoldable pub current_champion_version : String → String → World S → Option String
  unfolding ask_alias
  current_champion_version model alias w = found (ask_alias model alias w.store)

  -- `_score`, and `getattr(..., metric)` of it.
  unfoldable pub score : String → String → DataRef → String → Result F
  unfolding evaluate metric_of
  score model version reference_data metric = elim (sv.load_version model version) [
    | raised e ↦ raised e
    | ok estimator ↦ elim (sv.preprocess reference_data val) [
      | raised e ↦ raised e
      | ok rows ↦ metric_of sv.floats metric (evaluate sv.floats (sv.predict estimator) rows)
    ]
  ]

  abbrev pub set : String → String → String → Exec (World S) (Unit {0})
  set model alias version = set_alias sv.api sv.mlflow sv.obs (some model) (some alias) version

  -- The branch with a live champion that is another version.
  unfoldable pub compare_with :
      String → PromotionInputs F → F → String → Exec (World S) (PromotionResult F)
  unfolding score
  compare_with model inputs challenger_metric old_champion = do
    champion_metric ← lift (score model old_champion inputs.reference_data inputs.metric)
    let target =
        sv.floats.mul champion_metric
          (sv.floats.sub (sv.floats.of_ℕ 1) inputs.improvement_threshold)
    if sv.floats.lt challenger_metric target
        then (do
          set model "legacy" old_champion
          set model sv.mlflow.champion_alias inputs.challenger_version
          pure (record {
            promoted = true;
            reason = "beats-threshold";
            challenger_version = inputs.challenger_version;
            challenger_metric = challenger_metric;
            old_champion_version = some old_champion;
            champion_metric = some champion_metric;
            new_champion_version = some inputs.challenger_version;
          }))
        else pure (record {
          promoted = false;
          reason = "below-threshold";
          challenger_version = inputs.challenger_version;
          challenger_metric = challenger_metric;
          old_champion_version = some old_champion;
          champion_metric = some champion_metric;
          new_champion_version = some old_champion;
        })

  -- What follows the scoring of the challenger.
  unfoldable pub decide :
      String → PromotionInputs F → F → Option String → Exec (World S) (PromotionResult F)
  unfolding compare_with
  decide model inputs challenger_metric none = do
    set model sv.mlflow.champion_alias inputs.challenger_version
    pure (record {
      promoted = true;
      reason = "no-existing-champion";
      challenger_version = inputs.challenger_version;
      challenger_metric = challenger_metric;
      old_champion_version = none;
      champion_metric = none;
      new_champion_version = some inputs.challenger_version;
    })
  decide model inputs challenger_metric (some old_champion) =
      if str_eq old_champion inputs.challenger_version
      then pure (record {
        promoted = false;
        reason = "challenger-already-champion";
        challenger_version = inputs.challenger_version;
        challenger_metric = challenger_metric;
        old_champion_version = some old_champion;
        champion_metric = some challenger_metric;
        new_champion_version = some old_champion;
      })
      else compare_with model inputs challenger_metric old_champion

  -- `maybe_promote`, once the model's name is known.
  unfoldable pub promote_model : String → PromotionInputs F → Exec (World S) (PromotionResult F)
  unfolding score current_champion_version decide
  promote_model model inputs = do
    set model sv.mlflow.challenger_alias inputs.challenger_version
    challenger_metric ←
        lift (score model inputs.challenger_version inputs.reference_data inputs.metric)
    old_champion ← λ w. (ok (current_champion_version model sv.mlflow.champion_alias w), w)
    decide model inputs challenger_metric old_champion

  -- `inputs.model_name or m.model_name`
  abbrev pub model_of : PromotionInputs F → Option String
  model_of inputs = or_else inputs.model_name sv.mlflow.model_name

  -- `maybe_promote`
  unfoldable pub maybe_promote : PromotionInputs F → Exec (World S) (PromotionResult F)
  unfolding promote_model
  maybe_promote inputs =
      if truthy (model_of inputs)
      then promote_model (text_or "" (model_of inputs)) inputs
      else raise "ValueError"
