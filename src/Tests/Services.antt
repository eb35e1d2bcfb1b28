-- ===== src/Tests/Services.antt =====
-- The saved models, the service's tasks and guard, the runtimes, the intervals and the attributions.
use deep_cab.Prelude.{
  ℕ, String, true, false, Option, none, some, List, [], ◌∷◌, ◌≡◌, ◌≢◌, ◌⊎◌, inr, refl, arith,
  str_eq, eq_iff, false≢true,
}
use deep_cab.Prelude.Floats.{fixed}
use deep_cab.Prelude.Dict.{lookup, insert}
use deep_cab.Prelude.Exec.{ok, raised, Exec}
use deep_cab.Schemas.Settings.{truthy}
use deep_cab.Models.Conformal.{AciRegressor, update_all}
use deep_cab.Models.Conformal.Miscoverage.{IsCalibrated, update_all-IsCalibrated}
use deep_cab.Registry.Runs.{ModelHandle, Disk, Backends}
use deep_cab.Api.Tasks.{Event, starts, runs, State}
use deep_cab.Api.Auth.{api_key_guard, passes}
use deep_cab.Api.Auth.Access.{api_key_guard_key}
use deep_cab.Serving.Runtime.{
  empty_registry, register, activate, active, Call, registers, activates, after_calls,
}
use deep_cab.Serving.Runtime.Active.{active-after_calls}
use deep_cab.Explain.Aggregate.{column_groups}
use deep_cab.Explain.Aggregate.Columns.{regroup, column_groups-partition}

text_apart : (a b : String) → str_eq a b ≡ false → a ≢ b
text_apart a b h e = false≢true (ground (arith, h, (eq_iff a b).1 e))

-- An estimator is a number, and is saved as itself.
abbrev backends : Backends ℕ ℕ ℕ ℕ ℕ
backends = record {
  save = λ e. e;
  cfg_of = λ e. e;
  known = λ kind. str_eq kind "xgb";
  load = λ kind weights. ok weights;
  predict = λ e rows. e ∷ [];
  to_float32 = λ xs. xs;
  strip = λ text. text;
}

abbrev regressor : AciRegressor ℕ ℕ
regressor = record {
  base = λ rows. 3 ∷ [];
  alpha = 10_000_000;
  gamma = 500_000;
  residuals = some (1 ∷ 2 ∷ []);
  alpha_t = 10_000_000;
}

abbrev handle : ModelHandle ℕ ℕ ℕ
handle = record { estimator = 3; backend_kind = "xgb"; background = some 8; aci = some regressor }

abbrev disk : Disk ℕ ℕ ℕ ℕ
disk = record { runs = []; latest = none }

abbrev training : Exec ℕ String
training n = (ok "run", n)

abbrev others : List (Event ℕ)
others = starts "b" ∷ runs "b" (λ n. (raised "OSError: disk", n)) ∷ []

abbrev table : State ℕ
table = record { tasks = []; outside = 0 }

guarded : api_key_guard none (some "sk") (some "sk") ≡ passes tt
unfolding api_key_guard
guarded = refl

abbrev key : Option String
key = some "sk"

api_key_guard_key_example :
    (key ≡ none) × (truthy none ≡ true) ⊎ (key ≡ key) × (truthy key ≡ true) × (truthy none ≡ false)
api_key_guard_key_example = api_key_guard_key none (some "sk") (some "sk") (inr refl) guarded

abbrev calls : List (Call ℕ)
calls = registers "xgb" 1 ∷ activates "lgbm" ∷ registers "lgbm" 2 ∷ activates "lgbm" ∷ []

active_key_lem : (after_calls calls empty_registry).active_key ≡ some "lgbm"
unfolding after_calls register activate lookup insert
active_key_lem = refl

active-after_calls_example :
    (runtime : ℕ) × (active (after_calls calls empty_registry) ≡ some runtime)
active-after_calls_example =
    active-after_calls calls "lgbm" active_key_lem (text_apart "lgbm" "" refl)

ltb_irreflexive : (x : ℕ) → fixed.lt x x ≡ false
ltb_irreflexive x = ground arith

abbrev seen : List (ℕ × ℕ × ℕ)
seen = (5, 1, 3) ∷ (2, 1, 3) ∷ []

update_all-IsCalibrated_example :
    IsCalibrated fixed regressor (update_all fixed ((9, 1, 3) ∷ seen) regressor)
update_all-IsCalibrated_example =
    update_all-IsCalibrated fixed ltb_irreflexive refl seen 9 1 3 regressor

abbrev row : List ℕ
row =
    0 ∷ 1 ∷ 2 ∷ 3 ∷ 4 ∷ 5 ∷ 6 ∷ 7 ∷ 8 ∷ 9 ∷ 10 ∷ 11 ∷ 12 ∷ 13 ∷ 14 ∷ 15 ∷ 16 ∷ 17 ∷ 18 ∷ 19 ∷ 20
    ∷ 21 ∷ 22 ∷ 23 ∷ 24 ∷ 25 ∷ 26 ∷ 27 ∷ 28 ∷ 29 ∷ 30 ∷ 31 ∷ 32 ∷ 33 ∷ 34 ∷ 35 ∷ 36 ∷ 37 ∷ 38 ∷ 39
    ∷ 40 ∷ 41 ∷ 42 ∷ 43 ∷ 44 ∷ 45 ∷ 46 ∷ 47 ∷ 48 ∷ 49 ∷ 50 ∷ 51 ∷ 52 ∷ 53 ∷ 54 ∷ 55 ∷ 56 ∷ 57 ∷ 58
    ∷ 59 ∷ 60 ∷ 61 ∷ 62 ∷ 63 ∷ 64 ∷ []

column_groups-partition_example : regroup column_groups row ≡ row
column_groups-partition_example = column_groups-partition row refl
