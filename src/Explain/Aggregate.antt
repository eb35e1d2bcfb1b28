-- ===== src/Explain/Aggregate.antt =====
-- deepCab/explain/aggregate.py: SHAP values of 65 columns, added up by group. A matrix is its list of rows;
-- its second dimension is given beside it, as numpy keeps it for an empty matrix too.
pub mod Columns
use deep_cab.Prelude.{
  ℕ, ◌-◌, String, Bool, List, [], ◌∷◌, map, ◌==◌, if◌then◌else◌, take, drop, length,
}
use deep_cab.Prelude.Floats.{FloatOps}
use deep_cab.Prelude.Dict.{Dict}
use deep_cab.Prelude.Exec.{Result, ok, raised}

-- `COLUMN_GROUPS`
abbrev pub column_groups : Dict (ℕ × ℕ)
column_groups =
    ("passenger", (0, 1))
    ∷ ("pickup_datetime", (1, 23))
    ∷ ("distance", (23, 25))
    ∷ ("pickup_location", (25, 45))
    ∷ ("dropoff_location", (45, 65))
    ∷ []

-- `EXPECTED_DIM`
abbrev pub expected_dim : ℕ
expected_dim = 65

-- `row[start:end]`
abbrev pub slice {ℓ} : {A : Type ℓ} → ℕ × ℕ → List A → List A
slice (start, end) row = drop start (take end row)

module _ {F : Type 0} (fl : FloatOps F) where
  pub sum : List F → F
  sum [] = fl.of_ℕ 0
  sum (x ∷ xs) = fl.add x (sum xs)

  -- `arr[:, start:end].sum()`
  unfoldable pub block_sum : ℕ × ℕ → List (List F) → F
  unfolding sum
  block_sum range [] = fl.of_ℕ 0
  block_sum range (row ∷ rows) = fl.add (sum (slice range row)) (block_sum range rows)

  pub by_group : (ℕ × ℕ → F) → Dict (ℕ × ℕ) → Dict F
  by_group f [] = []
  by_group f ((name, range) ∷ groups) = (name, f range) ∷ by_group f groups

  -- `aggregate_shap` on a matrix with `dim` columns
  unfoldable pub aggregate_shap : ℕ → List (List F) → Result (Dict F)
  unfolding block_sum by_group
  aggregate_shap dim rows =
      if dim == expected_dim
      then ok (by_group (λ range. block_sum range rows) column_groups)
      else raised "ValueError"

  -- `np.mean(np.abs(arr[:, start:end]).sum(axis=1))`
  unfoldable pub mean_abs : ℕ × ℕ → List (List F) → F
  unfolding sum
  mean_abs range rows =
      fl.div (sum (map (λ row. sum (map fl.abs (slice range row))) rows)) (fl.of_ℕ (length rows))

  -- `aggregate_global` on a matrix with `dim` columns
  unfoldable pub aggregate_global : ℕ → List (List F) → Result (Dict F)
  unfolding mean_abs by_group
  aggregate_global dim rows =
      if dim == expected_dim
      then ok (by_group (λ range. mean_abs range rows) column_groups)
      else raised "ValueError"
