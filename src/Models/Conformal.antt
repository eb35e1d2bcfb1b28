-- ===== src/Models/Conformal.antt =====
-- `ACIRegressor` of deepCab/models/conformal.py. The base estimator is its `predict`, and `np.quantile` is
-- an argument.
pub mod Miscoverage
use deep_cab.Prelude.{
  ℕ, Bool, true, false, ◌&&◌, Option, none, some, List, [], ◌∷◌, map, if◌then◌else◌,
}
use deep_cab.Prelude.Floats.{FloatOps}
use deep_cab.Prelude.Exec.{Result, ok, raised}

pub record AciRegressor (F X : Type 0) : Type 0 where
  pub base : X → List F
  pub alpha : F
  pub gamma : F
  pub residuals : Option (List F)
  pub alpha_t : F

module _ {F : Type 0} (fl : FloatOps F) where
  pub absolute_errors : List F → List F → List F
  absolute_errors (t ∷ y) (p ∷ y_hat) = fl.abs (fl.sub t p) ∷ absolute_errors y y_hat
  absolute_errors _ _ = []

  -- `np.clip(x, low, high)` of one number
  unfoldable pub clip : F → F → F → F
  clip x low high = if fl.lt x low then low else if fl.lt high x then high else x

  -- 0 if the interval has the observation, and 1 if not
  abbrev pub err_of : F → F → F → F
  err_of y lower upper = if fl.le lower y && fl.le y upper then fl.of_ℕ 0 else fl.of_ℕ 1

module _ {F X : Type 0} (fl : FloatOps F) where
  -- `from_fitted`
  unfoldable pub from_fitted : (X → List F) → X → List F → F → F → AciRegressor F X
  unfolding absolute_errors
  from_fitted base rows y alpha gamma = record {
    base = base;
    alpha = alpha;
    gamma = gamma;
    residuals = some (absolute_errors fl y (base rows));
    alpha_t = alpha;
  }

  module _ (quantile : List F → F → F) where
    -- `bracket`
    unfoldable pub bracket : AciRegressor F X → List F → Result (List F × List F)
    bracket aci point = elim aci.residuals [
      | none ↦ raised "RuntimeError"
      | some residuals ↦
          let q = quantile residuals (fl.sub (fl.of_ℕ 1) aci.alpha_t) in
          ok (map (λ p. fl.sub p q) point, map (λ p. fl.add p q) point)
    ]

    -- `predict`
    unfoldable pub predict : AciRegressor F X → X → Result (List F × List F × List F)
    unfolding bracket
    predict aci rows = elim aci.residuals [
      | none ↦ raised "RuntimeError"
      | some _ ↦ elim (bracket aci (aci.base rows)) [
        | raised e ↦ raised e
        | ok (lower, upper) ↦ ok (aci.base rows, lower, upper)
      ]
    ]

  -- `update`
  unfoldable pub update : F → F → F → AciRegressor F X → AciRegressor F X
  unfolding clip
  update y lower upper aci = record aci {
    alpha_t =
        clip fl (fl.add aci.alpha_t (fl.mul aci.gamma (fl.sub aci.alpha (err_of fl y lower upper))))
          (fl.decimal 1 4) (fl.sub (fl.of_ℕ 1) (fl.decimal 1 4));
  }

  -- Observations with their intervals, in the order in which they are fed.
  pub update_all : List (F × F × F) → AciRegressor F X → AciRegressor F X
  unfolding update
  update_all [] aci = aci
  update_all ((y, lower, upper) ∷ seen) aci = update_all seen (update y lower upper aci)
