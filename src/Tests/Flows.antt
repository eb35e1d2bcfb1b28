-- ===== src/Tests/Flows.antt =====
-- The flows of deepCab/flow_v2 on small windows.
use deep_cab.Prelude.{
  ℕ, ◌+◌, min, true, false, ◌&&◌, none, some, List, [], ◌∷◌, String, ◌≡◌, ◌≢◌, false≢true, eq_iff,
  refl, arith, leb, ltb, if◌then◌else◌,
}
use deep_cab.Prelude.Floats.{fixed}
use deep_cab.Prelude.Dict.{lookup}
use deep_cab.Prelude.Exec.{ok, raised, Exec}
use deep_cab.Schemas.Enums.{lgbm}
use deep_cab.Schemas.Settings.{ObsSettings}
use deep_cab.Flow.Windows.{Window, chunks, next_window}
use deep_cab.Flow.Windows.Tiling.{Tiles, holding, chunks-Tiles, chunks_partition, chunks_stuck}
use deep_cab.Flow.Overlay.{Process, Overrides, set_all, env_overlay}
use deep_cab.Flow.Overlay.Restoring.{listed, env_overlay-restores}
use deep_cab.Flow.Simulate.{Flow, P, simulate_windows}
use deep_cab.Flow.Simulate.Tallies.{Tallied, Returns, simulate_windows-Tallied}
use deep_cab.Flow.Nightly.{Tracking, read_last_window_end}
use deep_cab.Flow.Nightly.Wrapping.{next_window-wrapped}

chunks-Tiles_example : (cs : List Window) × (chunks 11 0 10 4 ≡ some cs) × Tiles 4 10 0 cs
chunks-Tiles_example = chunks-Tiles 11 0 10 4 (omega arith) (omega arith)

chunks_partition_example :
    (cs : List Window) × (chunks 11 0 10 4 ≡ some cs)
    × (holding 8 cs ≡ (if leb 0 8 && ltb 8 10 then 1 else 0))
chunks_partition_example = chunks_partition 11 0 10 4 8 (omega arith) (omega arith)

chunks_stuck_example : chunks 50 0 10 0 ≡ none
chunks_stuck_example = chunks_stuck 50 0 10 (omega arith)

abbrev overrides : Overrides
overrides = ("DATA_SOURCE", some "query") ∷ ("DATA_BQ_WHERE", none) ∷ []

abbrev process : Process ℕ
process = record { env = ("DATA_BQ_WHERE", "x") ∷ ("HOME", "/") ∷ []; cached = true; rest = 0 }

-- A block that clears the environment and raises.
abbrev block : Exec (Process ℕ) (Unit {0})
block p = (raised "RuntimeError", record p { env = [] })

env_overlay-restores_example :
    lookup "DATA_BQ_WHERE" (env_overlay overrides true block process).1.env ≡ (
      if listed "DATA_BQ_WHERE" overrides
      then lookup "DATA_BQ_WHERE" process.env
      else lookup "DATA_BQ_WHERE"
          (block (record process {
            env = set_all overrides process.env;
            cached = if true then false else process.cached;
          })).1.env)
env_overlay-restores_example = env_overlay-restores overrides true block process "DATA_BQ_WHERE"

abbrev obs : ObsSettings
obs = record { slack_webhook_url = none; telegram_bot_token = none; telegram_chat_id = none }

-- Every chunk is promoted; the state outside counts the trainings.
abbrev flow : Flow ℕ ℕ
flow = record {
  floats = fixed;
  obs = obs;
  backend = lgbm;
  train = λ run_name clause p.
      (ok (some run_name), record p { rest = record p.rest { outside = p.rest.outside + 1 } });
  cost_per_call = 5;
  evaluate = λ p. (ok (record { mae = p.rest.outside; rmse = 0; n = 1 }), p);
  promote = λ run_id threshold p. (
    ok (record {
      promoted = true;
      reason = "beats-threshold";
      challenger_version = "7";
      challenger_metric = p.rest.outside;
      old_champion_version = none;
      champion_metric = none;
      new_champion_version = run_id;
    }),
    p,
  );
  isoformat = λ n. "t";
  show_ℕ = λ n. "n";
  show_padded = λ n. "000";
  show_metric = λ x. "x";
}

abbrev windows : List Window
windows = (0, 4) ∷ (4, 8) ∷ (8, 10) ∷ []

abbrev idle : P flow
idle = record { env = []; cached = false; rest = record { outbox = []; outside = 0 } }

simulate_windows-Tallied_example :
    Returns flow (Tallied flow windows) (simulate_windows flow 5 true windows idle).0
simulate_windows-Tallied_example = simulate_windows-Tallied flow 5 true windows idle

abbrev tracking : Tracking ℕ
tracking = record {
  window_ends = λ experiment results s. some (none ∷ some "2015-01-01" ∷ []);
  set_tag = λ run key value s. (ok tt, s);
  fromisoformat = λ text. some 365;
  isoformat_t = λ n. "t";
}

deepcab_named : ◌≢◌ {A = String} "deepcab" ""
deepcab_named e = false≢true ((eq_iff "deepcab" "").1 e)

next_window-wrapped_example :
    next_window (read_last_window_end tracking (some "deepcab") 0) 14 0 365 ≡ (0, min (0 + 14) 365)
next_window-wrapped_example =
    next_window-wrapped tracking "deepcab" 0 (none ∷ []) [] (some "2015-01-01") 365 14 0 365
      deepcab_named refl refl (omega arith)
