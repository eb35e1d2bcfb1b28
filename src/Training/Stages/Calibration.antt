-- ===== src/Training/Stages/Calibration.antt =====
-- How deepCab/training/train.py cuts the validation split for the calibration.
use deep_cab.Prelude.{
  ℕ, ◌-◌, ◌≤◌, none, some, List, ◌++◌, ◌≡◌, ◌⊎◌, inl, inr, arith, ltb, length, drop, take-drop,
  length-drop, Bool-cases,
}
use deep_cab.Models.Conformal.{from_fitted}
use deep_cab.Training.Trainer.{Trainer}
use deep_cab.Training.Stages.{calibrate_aci}

module _ {D E B C F R S : Type 0} (t : Trainer D E B C F R S) where
  -- `int(n * 0.3)`
  abbrev pub share : ℕ → ℕ
  share n = t.truncate (t.floats.mul (t.floats.of_ℕ n) (t.floats.decimal 3 1))

  -- The share of the calibration is not more than all.
  abbrev pub IsShare : Type 0
  IsShare = (n : ℕ) → share n ≤ n

  -- The rows and the targets that stay for the metric are followed by those of the calibration, in
  -- order and with nothing lost, and the calibration has at least 30 of them. Or there is none, and
  -- all stay, which is so when its share is below 30.
  pub calibrate_aci_cuts :
      (est : E) (rows : List R) (y : List F)
      → IsShare
      → let (aci, metric_rows, metric_y) = calibrate_aci t est rows y in
        ((share (length y) ≤ 29) × (aci ≡ none) × (metric_rows ≡ rows) × (metric_y ≡ y))
        ⊎ ((calib_rows : List R) × (calib_y : List F) × (aci
              ≡ some (
                  from_fitted t.floats
                    (t.backends.predict est)
                    calib_rows
                    calib_y
                    (t.floats.decimal 1 1)
                    (t.floats.decimal 5 3)))
            × (metric_rows ++ calib_rows ≡ rows)
            × (metric_y ++ calib_y ≡ y)
            × (30 ≤ length calib_y))
  unfolding calibrate_aci
  calibrate_aci_cuts est rows y small =
      let n = share (length y) in
      elim (Bool-cases (ltb n 30)) [
        | inl few ↦ inl (ground (arith, few))
        | inr enough ↦ inr (
          drop (length rows - n) rows,
          drop (length y - n) y,
          ground (arith, enough),
          ground (arith, enough, take-drop (length rows - n) rows),
          ground (arith, enough, take-drop (length y - n) y),
          ground (arith, enough, small (length y), length-drop (length y - n) y),
        )
      ]
