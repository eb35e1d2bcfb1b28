-- ===== src/Training/Splits.antt =====
-- The splits of deepCab/data/splits.py. The two splitters are scikit-learn's, and arguments; a datetime is a
-- number.
pub mod Leakage
use deep_cab.Prelude.{ℕ, Bool, true, ◌&&◌, List, [], ◌∷◌, leb, length, if◌then◌else◌}
use deep_cab.Prelude.Exec.{Result, ok, raised}

-- The indices of the rows to train on, and of those to test on
abbrev pub Fold : Type 0
Fold = List ℕ × List ℕ

-- `TimeSeriesSplit(n_splits).split(np.arange(n))`, on the number of splits and `n`
abbrev pub Splitter : Type 0
Splitter = ℕ → ℕ → List Fold

-- Whether each time is at most the next one: `_is_sorted`
unfoldable pub is_sorted : List ℕ → Bool
is_sorted [] = true
is_sorted (a ∷ []) = true
is_sorted (a ∷ b ∷ times) = leb a b && is_sorted (b ∷ times)

-- `time_series_splits`
unfoldable pub time_series_splits : Splitter → ℕ → List ℕ → Result (List Fold)
unfolding is_sorted
time_series_splits split n_splits times =
    if is_sorted times then ok (split n_splits (length times)) else raised "ValueError"

-- `kfold_splits`, with the splitter for a seed
unfoldable pub kfold_splits : (ℕ → Splitter) → ℕ → ℕ → ℕ → List Fold
kfold_splits split n n_splits seed = split seed n_splits n
