-- ===== src/Api/Predictions.antt =====
-- `PredictionService` of deepCab/api/services/predict.py, less its metrics. The features of rows, the
-- trigonometry, the jitter and the rounding are fields of `Predictor`; `active` is the registered runtime.
pub mod Batching
use deep_cab.Prelude.{ℕ, String, Option, none, some, List, [], ◌∷◌, map, str_eq, if◌then◌else◌}
use deep_cab.Prelude.Floats.{FloatOps}
use deep_cab.Prelude.Exec.{Result, ok, raised}
use deep_cab.Models.Conformal.{AciRegressor, bracket}
use deep_cab.Registry.Runs.{ModelHandle}

-- The fields of `FeatureRow` that the stub reads.
pub record FeatureRow (F : Type 0) : Type 0 where
  pub pickup_latitude : F
  pub pickup_longitude : F
  pub dropoff_latitude : F
  pub dropoff_longitude : F

pub record PredictResponse (F : Type 0) : Type 0 where
  pub fare : F
  pub interval_lower : Option F
  pub interval_upper : Option F
  pub backend_kind : String

pub record Predictor (E F X G : Type 0) : Type 0 where
  pub floats : FloatOps F
  pub radians : F → F
  pub sin : F → F
  pub cos : F → F
  pub asin : F → F
  pub round : F → ℕ → F
  -- `random.uniform(-j, j)`
  pub uniform : F → G → F × G
  pub preprocess_features : List (FeatureRow F) → X
  pub estimate : E → X → List F
  pub quantile : List F → F → F
  -- the kind of the active runtime, and its `predict`
  pub active : Option (String × (X → List F))

module _ {E F X G : Type 0} (pr : Predictor E F X G) where
  -- `_haversine_km`
  unfoldable pub haversine_km : FeatureRow F → F
  haversine_km row =
      let fl = pr.floats in
      let half = λ (x : F). pr.sin (fl.div x (fl.of_ℕ 2)) in
      let lat1 = pr.radians row.pickup_latitude in
      let lat2 = pr.radians row.dropoff_latitude in
      let dlat = fl.sub lat2 lat1 in
      let dlon = pr.radians (fl.sub row.dropoff_longitude row.pickup_longitude) in
      let a =
        fl.add (fl.mul (half dlat) (half dlat))
          (fl.mul (fl.mul (pr.cos lat1) (pr.cos lat2)) (fl.mul (half dlon) (half dlon))) in
      fl.mul (fl.mul (fl.of_ℕ 2) (fl.of_ℕ 6371)) (pr.asin (fl.sqrt a))

  -- `_random_fare`
  unfoldable pub random_fare : FeatureRow F → G → F × G
  unfolding haversine_km
  random_fare row seed =
      let fl = pr.floats in
      let base = fl.of_ℕ 3 in
      let estimated = fl.add base (fl.mul (haversine_km row) (fl.decimal 185 2)) in
      let (jitter, seed') = pr.uniform (fl.decimal 8 1) seed in
      let fare = fl.add estimated jitter in
      (pr.round (if fl.lt base fare then fare else base) 2, seed')

  -- `_stub_response`
  unfoldable pub stub_response : FeatureRow F → G → PredictResponse F × G
  unfolding random_fare
  stub_response row seed =
      let (fare, seed') = random_fare row seed in
      (
        record {
          fare = fare;
          interval_lower = none;
          interval_upper = none;
          backend_kind = "random-stub";
        },
        seed',
      )

  module _ (model : ModelHandle E F X) where
    -- `_point_predict`
    unfoldable pub point_predict : X → List F
    point_predict rows = elim pr.active [
      | none ↦ pr.estimate model.estimator rows
      | some (kind, predict) ↦
          if str_eq kind model.backend_kind then predict rows else pr.estimate model.estimator rows
    ]

    abbrev pub bare : F → PredictResponse F
    bare fare = record {
      fare = fare;
      interval_lower = none;
      interval_upper = none;
      backend_kind = model.backend_kind;
    }

    abbrev pub with_bounds : F → F → F → PredictResponse F
    with_bounds fare lower upper = record {
      fare = fare;
      interval_lower = some lower;
      interval_upper = some upper;
      backend_kind = model.backend_kind;
    }

    -- `point[0]` with its interval; an empty array is an IndexError.
    abbrev pub first_response : List F → Option (List F × List F) → Result (PredictResponse F)
    first_response (fare ∷ _) none = ok (bare fare)
    first_response (fare ∷ _) (some (lower ∷ _, upper ∷ _)) = ok (with_bounds fare lower upper)
    first_response _ _ = raised "IndexError"

    -- The interval of a calibrated model, and none of another.
    abbrev pub interval_of : Option (AciRegressor F X) → List F → Result (Option (List F × List F))
    interval_of none point = ok none
    interval_of (some aci) point = elim (bracket pr.floats pr.quantile aci point) [
      | raised e ↦ raised e
      | ok bounds ↦ ok (some bounds)
    ]

    -- `_predict_with_interval`
    unfoldable pub predict_with_interval : FeatureRow F → Result (PredictResponse F)
    unfolding point_predict bracket
    predict_with_interval row =
        let point = point_predict (pr.preprocess_features (row ∷ [])) in
        elim (interval_of model.aci point) [
          | raised e ↦ raised e
          | ok bounds ↦ first_response point bounds
        ]

    -- `zip(point, lower, upper)`
    pub zip_bounds : List F → List F → List F → List (PredictResponse F)
    zip_bounds (p ∷ point) (lo ∷ lower) (hi ∷ upper) =
        with_bounds p lo hi ∷ zip_bounds point lower upper
    zip_bounds _ _ _ = []

    abbrev pub all_responses : List F → Option (List F × List F) → List (PredictResponse F)
    all_responses point none = map bare point
    all_responses point (some (lower, upper)) = zip_bounds point lower upper

    -- `predict_many` with a model
    unfoldable pub predict_many : List (FeatureRow F) → Result (List (PredictResponse F))
    unfolding point_predict bracket zip_bounds
    predict_many rows =
        let point = point_predict (pr.preprocess_features rows) in
        elim (interval_of model.aci point) [
          | raised e ↦ raised e
          | ok bounds ↦ ok (all_responses point bounds)
        ]

    abbrev pub and_then :
        Result (PredictResponse F)
        → Result (List (PredictResponse F))
        → Result (List (PredictResponse F))
    and_then (raised e) rest = raised e
    and_then (ok resp) (raised e) = raised e
    and_then (ok resp) (ok rest) = ok (resp ∷ rest)

    -- The responses of `predict_stream` with a model, before its last event
    unfoldable pub predict_stream : List (FeatureRow F) → Result (List (PredictResponse F))
    predict_stream [] = ok []
    predict_stream (row ∷ rows) = and_then (predict_with_interval row) (predict_stream rows)

  -- `predict_many` without a model
  unfoldable pub stub_many : List (FeatureRow F) → G → List (PredictResponse F) × G
  stub_many [] seed = ([], seed)
  stub_many (row ∷ rows) seed =
      let (resp, seed') = stub_response row seed in
      let (rest, seed'') = stub_many rows seed' in (resp ∷ rest, seed'')

  -- `predict_one`
  unfoldable pub predict_one :
      Option (ModelHandle E F X) → FeatureRow F → G → Result (PredictResponse F) × G
  unfolding stub_response predict_with_interval
  predict_one none row seed = let (resp, seed') = stub_response row seed in (ok resp, seed')
  predict_one (some model) row seed = (predict_with_interval model row, seed)
