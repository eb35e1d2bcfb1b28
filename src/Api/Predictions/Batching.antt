-- ===== src/Api/Predictions/Batching.antt =====
-- The batch endpoint of deepCab/api/services/predict.py against its stream.
use deep_cab.Prelude.{
  Option, none, some, List, [], ◌∷◌, ◌≡◌, ◌⊎◌, refl, ◌∙◌, ap, sym, arith, inl, inr, map,
}
use deep_cab.Prelude.Exec.{ok}
use deep_cab.Models.Conformal.{AciRegressor, bracket}
use deep_cab.Registry.Runs.{ModelHandle}
use deep_cab.Api.Predictions.{
  FeatureRow, PredictResponse, Predictor, point_predict, bare, with_bounds, predict_with_interval,
  zip_bounds, predict_many, predict_stream,
}

module _ {E F X G : Type 0} (pr : Predictor E F X G) (model : ModelHandle E F X)
    (fare : FeatureRow F → F)
    (rowwise : (rows : List (FeatureRow F))
      → point_predict pr model (pr.preprocess_features rows) ≡ map fare rows) where
  -- The response to a row, by the half width of the interval if there is one.
  abbrev response : Option F → FeatureRow F → PredictResponse F
  response none row = bare pr model (fare row)
  response (some q) row =
      with_bounds pr model (fare row) (pr.floats.sub (fare row) q) (pr.floats.add (fare row) q)

  -- The half width of the intervals.
  abbrev width : AciRegressor F X → List F → F
  width aci residuals = pr.quantile residuals (pr.floats.sub (pr.floats.of_ℕ 1) aci.alpha_t)

  zip_bounds-map :
      (q : F) (rows : List (FeatureRow F))
      → zip_bounds pr model
          (map fare rows)
          (map (λ p. pr.floats.sub p q) (map fare rows))
          (map (λ p. pr.floats.add p q) (map fare rows))
        ≡ map (response (some q)) rows
  unfolding zip_bounds
  zip_bounds-map q [] = refl
  zip_bounds-map q (row ∷ rows) = ap (λ xs. response (some q) row ∷ xs) (zip_bounds-map q rows)

  bare-map :
      (rows : List (FeatureRow F)) → map (bare pr model) (map fare rows) ≡ map (response none) rows
  bare-map [] = refl
  bare-map (row ∷ rows) = ap (λ xs. response none row ∷ xs) (bare-map rows)

  stream-map :
      (f : FeatureRow F → PredictResponse F)
      → ((row : FeatureRow F) → predict_with_interval pr model row ≡ ok (f row))
      → (rows : List (FeatureRow F)) → predict_stream pr model rows ≡ ok (map f rows)
  unfolding predict_stream
  stream-map f each [] = refl
  stream-map f each (row ∷ rows) = ground (arith, each row, stream-map f each rows)

  one-bare :
      model.aci ≡ none
      → (row : FeatureRow F) → predict_with_interval pr model row ≡ ok (response none row)
  unfolding predict_with_interval
  one-bare h row = ground (arith, h, rowwise (row ∷ []))

  one-bounds :
      (aci : AciRegressor F X) (residuals : List F)
      → model.aci ≡ some aci
      → aci.residuals ≡ some residuals
      → (row : FeatureRow F)
      → predict_with_interval pr model row ≡ ok (response (some (width aci residuals)) row)
  unfolding predict_with_interval bracket
  one-bounds aci residuals h k row = ground (arith, h, k, rowwise (row ∷ []))

  many-bare :
      model.aci ≡ none
      → (rows : List (FeatureRow F)) → predict_many pr model rows ≡ ok (map (response none) rows)
  unfolding predict_many
  many-bare h rows = ground (arith, h, rowwise rows, bare-map rows)

  many-bounds :
      (aci : AciRegressor F X) (residuals : List F)
      → model.aci ≡ some aci
      → aci.residuals ≡ some residuals
      → (rows : List (FeatureRow F))
      → predict_many pr model rows ≡ ok (map (response (some (width aci residuals))) rows)
  unfolding predict_many bracket
  many-bounds aci residuals h k rows =
      ground (arith, h, k, rowwise rows, zip_bounds-map (width aci residuals) rows)

  -- A batch gets the same responses as its rows one by one, intervals included, if the features and the
  -- predictor treat each row by itself, and the model is not calibrated or has its residuals.
  pub predict_many-predict_stream :
      (model.aci ≡ none)
        ⊎ ((aci : AciRegressor F X) × (residuals : List F) × (model.aci ≡ some aci)
            × (aci.residuals ≡ some residuals))
      → (rows : List (FeatureRow F)) → predict_many pr model rows ≡ predict_stream pr model rows
  predict_many-predict_stream (inl h) rows =
      many-bare h rows ∙ sym (stream-map (response none) (one-bare h) rows)
  predict_many-predict_stream (inr (aci, residuals, h, k)) rows =
      many-bounds aci residuals h k rows
      ∙ sym (stream-map (response (some (width aci residuals))) (one-bounds aci residuals h k) rows)
