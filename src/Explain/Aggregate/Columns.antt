-- ===== src/Explain/Aggregate/Columns.antt =====
-- The column groups of deepCab/explain/aggregate.py against the 65 columns.
use deep_cab.Prelude.{
  ℕ, zero, suc, ◌≤◌, List, [], ◌∷◌, ◌++◌, ◌≡◌, refl, ◌∙◌, ap, sym, arith, length, take, drop,
  append-nil,
}
use deep_cab.Prelude.Dict.{Dict}
use deep_cab.Explain.Aggregate.{column_groups, slice, expected_dim}

module _ {A : Type 0} where
  -- The columns of all the groups, one group after the other.
  abbrev pub regroup : Dict (ℕ × ℕ) → List A → List A
  regroup [] row = []
  regroup ((name, range) ∷ groups) row = slice range row ++ regroup groups row

  take-all : (n : ℕ) (row : List A) → length row ≤ n → take n row ≡ row
  take-all zero [] h = refl
  take-all zero (x ∷ row) h = absurd (omega (arith, h))
  take-all (suc n) [] h = refl
  take-all (suc n) (x ∷ row) h = ap (λ xs. x ∷ xs) (take-all n row (omega (arith, h)))

  take-split : (k n : ℕ) (row : List A) → k ≤ n → take n row ≡ take k row ++ drop k (take n row)
  take-split zero n row h = refl
  take-split (suc k) zero row h = absurd (omega (arith, h))
  take-split (suc k) (suc n) [] h = refl
  take-split (suc k) (suc n) (x ∷ row) h = ap (λ xs. x ∷ xs) (take-split k n row (omega (arith, h)))

  -- A slice, and what is left of a longer prefix.
  slice-drop :
      (start end n : ℕ) (row : List A)
      → start ≤ end
      → end ≤ n
      → drop start (take n row) ≡ slice (start, end) row ++ drop end (take n row)
  slice-drop zero end n row h k = take-split end n row k
  slice-drop (suc start) zero n row h k = absurd (omega (arith, h))
  slice-drop (suc start) (suc end) zero row h k = absurd (omega (arith, k))
  slice-drop (suc start) (suc end) (suc n) [] h k = refl
  slice-drop (suc start) (suc end) (suc n) (x ∷ row) h k =
      slice-drop start end n row (omega (arith, h)) (omega (arith, k))

  -- The slices of the groups, one after the other, give back a row of the expected length: they
  -- are consecutive, and leave out no column.
  pub column_groups-partition :
      (row : List A) → length row ≡ expected_dim → regroup column_groups row ≡ row
  column_groups-partition row h = sym (
      sym (take-all 65 row (omega (arith, h)))
      ∙ slice-drop 0 1 65 row (omega arith) (omega arith)
      ∙ ap (λ xs. slice (0, 1) row ++ xs)
          (slice-drop 1 23 65 row (omega arith) (omega arith)
            ∙ ap (λ xs. slice (1, 23) row ++ xs)
                (slice-drop 23 25 65 row (omega arith) (omega arith)
                  ∙ ap (λ xs. slice (23, 25) row ++ xs)
                      (slice-drop 25 45 65 row (omega arith) (omega arith)
                        ∙ ap (λ xs. slice (25, 45) row ++ xs)
                            (sym (append-nil (slice (45, 65) row)))))))
