-- ===== src/Training/Splits/Leakage.antt =====
-- The splits of deepCab/data/splits.py keep the future out of the training.
use deep_cab.Prelude.{
  ℕ, zero, suc, ◌≤◌, ◌<◌, true, List, [], ◌∷◌, ◌≡◌, arith, leb, length, All, Bool-cases, inl, inr,
  subst,
}
use deep_cab.Prelude.Exec.{Result, ok}
use deep_cab.Training.Splits.{Fold, Splitter, is_sorted, time_series_splits}

-- The time at an index; the last one beyond the end
abbrev pub time_at : ℕ → List ℕ → ℕ
time_at i [] = 0
time_at zero (a ∷ times) = a
time_at (suc i) (a ∷ times) = time_at i times

-- In each fold every index to train on is before every index to test on, and these are in range.
abbrev pub IsTemporal : ℕ → Fold → Type 0
IsTemporal n (train, test) = All (λ i. All (λ j. (i < j) × (j < n)) test) train

-- No training time is after a test time.
abbrev pub IsLeakFree : List ℕ → Fold → Type 0
IsLeakFree times (train, test) = All (λ i. All (λ j. time_at i times ≤ time_at j times) test) train

is_sorted-tail :
    (a b : ℕ) (times : List ℕ)
    → is_sorted (a ∷ b ∷ times) ≡ true
    → (a ≤ b) × (is_sorted (b ∷ times) ≡ true)
unfolding is_sorted
is_sorted-tail a b times h = elim (Bool-cases (leb a b)) [
  | inl le ↦ (ground (arith, le), ground (arith, le, h))
  | inr gt ↦ absurd (ground (arith, gt, h))
]

first-le :
    (a : ℕ) (times : List ℕ) (j : ℕ)
    → is_sorted (a ∷ times) ≡ true
    → j < length (a ∷ times)
    → a ≤ time_at j (a ∷ times)
unfolding is_sorted
first-le a times zero h k = omega arith
first-le a [] (suc j) h k = absurd (omega (arith, k))
first-le a (b ∷ times) (suc j) h k =
    let (le, sorted) = is_sorted-tail a b times h in
    omega (arith, le, first-le b times j sorted (omega (arith, k)))

time_at_mono :
    (times : List ℕ) (i j : ℕ)
    → is_sorted times ≡ true
    → i < j
    → j < length times
    → time_at i times ≤ time_at j times
unfolding is_sorted
time_at_mono [] i j h less k = absurd (omega (arith, k))
time_at_mono (a ∷ times) zero j h less k = first-le a times j h k
time_at_mono (a ∷ times) (suc i) zero h less k = absurd (omega (arith, less))
time_at_mono (a ∷ []) (suc i) (suc j) h less k = absurd (omega (arith, k))
time_at_mono (a ∷ b ∷ times) (suc i) (suc j) h less k =
    time_at_mono (b ∷ times) i j (is_sorted-tail a b times h).1 (omega (arith, less))
      (omega (arith, k))

All-map :
    {A : Type 0} (P Q : A → Type 0) (xs : List A) → ((x : A) → P x → Q x) → All P xs → All Q xs
All-map P Q [] f h = tt
All-map P Q (x ∷ xs) f (h, hs) = (f x h, All-map P Q xs f hs)

-- If the splitter puts the training rows of each fold before its test rows, then splits are given only for
-- times that ascend, and in no fold is a training time after a test time.
pub time_series_splits-IsLeakFree :
    (split : Splitter) (n_splits : ℕ) (times : List ℕ) (folds : List Fold)
    → All (IsTemporal (length times)) (split n_splits (length times))
    → time_series_splits split n_splits times ≡ ok folds
    → (is_sorted times ≡ true) × All (IsLeakFree times) folds
unfolding time_series_splits
time_series_splits-IsLeakFree split n_splits times folds temporal h =
    elim (Bool-cases (is_sorted times)) [
      | inr unsorted ↦ absurd (ground (arith, unsorted, h))
      | inl sorted ↦
          let given : ◌≡◌ {A = Result (List Fold)} (ok (split n_splits (length times))) (ok folds) =
            ground (arith, sorted, h) in
          let same : split n_splits (length times) ≡ folds = cc given in
          (
            sorted,
            subst (All (IsLeakFree times)) same (
                All-map (IsTemporal (length times)) (IsLeakFree times)
                  (split n_splits (length times))
                  (λ (train, test) ordered.
                    All-map (λ i. All (λ j. (i < j) × (j < length times)) test)
                      (λ i. All (λ j. time_at i times ≤ time_at j times) test) train
                      (λ i.
                        All-map (λ j. (i < j) × (j < length times))
                          (λ j. time_at i times ≤ time_at j times) test
                          (λ j (less, within). time_at_mono times i j sorted less within))
                      ordered)
                  temporal),
          )
    ]
