-- ===== src/Registry/Promotion/Threshold.antt =====
-- When `maybe_promote` of deepCab/registry/promotion.py promotes.
use deep_cab.Prelude.{
  String, ◌≡◌, ◌≢◌, ◌∙◌, false, true, Option, none, some, arith, inl, inr, Bool-cases, str_eq,
}
use deep_cab.Prelude.Exec.{Result, ok, raised, Result-cases}
use deep_cab.Schemas.Settings.{truthy, text_or}
use deep_cab.Registry.Alias.{World}
use deep_cab.Registry.Alias.Moves.{set_alias_others}
use deep_cab.Registry.Promotion.Outcome.{
  IsConfigured, points, truthy-ne-empty, current_champion_version_lem,
}
use deep_cab.Registry.Promotion.{
  PromotionInputs, PromotionResult, Service, set, score, current_champion_version, compare_with,
  decide, promote_model, model_of, maybe_promote,
}

module _ {F S E X : Type 0} (sv : Service F S E X) where
  -- The result's verdict on a champion `old` with the metric that it reports.
  abbrev pub Verdict :
      String → PromotionInputs F → PromotionResult F → Option String → Option F → Type 0
  Verdict model inputs r none _ = r.promoted ≡ true
  Verdict model inputs r (some old) none = ⊥
  Verdict model inputs r (some old) (some d) = elim (str_eq old inputs.challenger_version) [
    | true ↦ r.promoted ≡ false
    | false ↦
        (score sv model old inputs.reference_data inputs.metric ≡ ok d)
        × (r.promoted
            ≡ sv.floats.lt r.challenger_metric
                (sv.floats.mul d (sv.floats.sub (sv.floats.of_ℕ 1) inputs.improvement_threshold)))
  ]

  -- The result of a call, given the champion from before it.
  abbrev pub Justified :
      String → PromotionInputs F → Option String → Result (PromotionResult F) → Type 0
  Justified model inputs champion (raised e) = Unit
  Justified model inputs champion (ok r) =
      (score sv model inputs.challenger_version inputs.reference_data inputs.metric
        ≡ ok r.challenger_metric)
      × Verdict model inputs r champion r.champion_metric

  module _ (model : String) (inputs : PromotionInputs F) where
    compare_with-Justified :
        (c : F) (old : String) (w : World S)
        → score sv model inputs.challenger_version inputs.reference_data inputs.metric ≡ ok c
        → str_eq old inputs.challenger_version ≡ false
        → Justified model inputs (some old) (compare_with sv model inputs c old w).0
    unfolding compare_with
    compare_with-Justified c old w scored other =
        elim (Result-cases (score sv model old inputs.reference_data inputs.metric)) [
          | inl (d, e) ↦ ground (arith, e, scored)
          | inr (e, failed) ↦ ground arith
        ]

    decide-Justified :
        (c : F) (champion : Option String) (w : World S)
        → score sv model inputs.challenger_version inputs.reference_data inputs.metric ≡ ok c
        → Justified model inputs champion (decide sv model inputs c champion w).0
    unfolding decide
    decide-Justified c none w scored = ground (arith, scored)
    decide-Justified c (some old) w scored =
        ground (arith, scored, compare_with-Justified c old w scored)

    promote_model-Justified :
        (w : World S)
        → IsConfigured sv
        → model ≢ ""
        → Justified model inputs
            (points sv w model sv.mlflow.champion_alias)
            (promote_model sv model inputs w).0
    unfolding promote_model
    promote_model-Justified w conf named =
        let alias = sv.mlflow.champion_alias in
        let v = inputs.challenger_version in
        let w₁ = (set sv model sv.mlflow.challenger_alias v w).1 in
        let champion = current_champion_version sv model alias w₁ in
        let same : champion ≡ points sv w model alias =
          current_champion_version_lem sv conf model alias w₁
          ∙ set_alias_others sv.api sv.mlflow sv.obs model sv.mlflow.challenger_alias v w
              conf.registry alias named conf.challenger_named conf.apart in
        elim (Result-cases (score sv model v inputs.reference_data inputs.metric)) [
          | inl (c, scored) ↦ ground (arith, scored, same, decide-Justified c champion w₁ scored)
          | inr (e, failed) ↦ ground (arith, failed)
        ]

  -- A result reports the metric that was measured for the challenger, and promotes by the version that
  -- was behind the champion's alias before the call: always if there was none, never if it was the
  -- challenger, and otherwise exactly if the challenger's metric is below that champion's measured
  -- metric times one less the threshold. This is for a configured service.
  pub maybe_promote-Justified :
      (conf : IsConfigured sv) (inputs : PromotionInputs F) (w : World S)
      → Justified
          (text_or "" (model_of sv inputs))
          inputs
          (points sv w (text_or "" (model_of sv inputs)) sv.mlflow.champion_alias)
          (maybe_promote sv inputs w).0
  unfolding maybe_promote
  maybe_promote-Justified conf inputs w = elim (Bool-cases (truthy (model_of sv inputs))) [
    | inr unnamed ↦ rw unnamed tt
    | inl named ↦ rw named (
        promote_model-Justified (text_or "" (model_of sv inputs)) inputs w conf
          (truthy-ne-empty (model_of sv inputs) named))
  ]
