-- ===== src/Training/Evaluate.antt =====
-- `evaluate` of deepCab/training/evaluate.py. The preprocessing of the rows and the estimator's
-- `predict` are arguments.
use deep_cab.Prelude.{ℕ, String, List, ◌∷◌, str_eq, length, if◌then◌else◌}
use deep_cab.Prelude.Floats.{FloatOps}
use deep_cab.Prelude.Exec.{Result, ok, raised}

pub record EvalResult (F : Type 0) : Type 0 where
  pub mae : F
  pub rmse : F
  pub n : ℕ

module _ {F : Type 0} (fl : FloatOps F) where
  -- the sum of `f (pred - y)` over the rows
  unfoldable pub sum_errors : (F → F) → List F → List F → F
  sum_errors f (p ∷ pred) (t ∷ y) = fl.add (f (fl.sub p t)) (sum_errors f pred y)
  sum_errors f _ _ = fl.of_ℕ 0

  unfoldable pub evaluate : {X : Type 0} → (X → List F) → X × List F → EvalResult F
  unfolding sum_errors
  evaluate predict (rows, y) =
      let pred = predict rows in
      let count = fl.of_ℕ (length y) in
      record {
        mae = fl.div (sum_errors fl.abs pred y) count;
        rmse = fl.sqrt (fl.div (sum_errors (λ d. fl.mul d d) pred y) count);
        n = length y;
      }

  -- `getattr(result, metric)`
  unfoldable pub metric_of : String → EvalResult F → Result F
  metric_of metric r =
      if str_eq metric "mae"
      then ok r.mae
      else if str_eq metric "rmse"
      then ok r.rmse
      else if str_eq metric "n"
      then ok (fl.of_ℕ r.n)
      else raised "AttributeError"
