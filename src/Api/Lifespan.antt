-- ===== src/Api/Lifespan.antt =====
-- The start of the HTTP service: deepCab/api/lifespan.py, on the shared state of deep_cab.Training.Site.
-- The initialisation of the tracer and the question to MLflow are arguments.
pub mod Reloading
use deep_cab.Prelude.{
  String, ◌<>◌, List, Bool, true, false, not, Option, none, some, str_eq, ◌&&◌, if◌then◌else◌,
}
use deep_cab.Prelude.Exec.{Result, ok, raised, Exec, pure, ◌>>=◌, ◌>>◌}
use deep_cab.Schemas.Settings.{MlflowSettings, truthy}
use deep_cab.Registry.Runs.{ModelHandle, Backends, load_state_from_disk, read_latest_run_id}
use deep_cab.Training.Site.{Site, outer, set_model}

-- The settings that the start reads
pub record Startup (S : Type 0) : Type 0 where
  pub app_env : String
  pub otel_enabled : Bool
  pub mlflow : MlflowSettings
  pub init_tracing : Exec S (Unit {0})
  -- the client, and its `get_model_version_by_alias`
  pub champion : Exec S String

module _ {E B C F R T S : Type 0} (st : Startup S) where
  -- What becomes of an exception of the tracer
  abbrev pub or_in_prod :
      Result (Unit {0}) × Site E B C F R T S → Result (Unit {0}) × Site E B C F R T S
  or_in_prod (ok _, w) = (ok tt, w)
  or_in_prod (raised e, w) =
      (if str_eq st.app_env "prod" then raised ("RuntimeError: " <> e) else ok tt, w)

  -- `_try_init_otel`
  unfoldable pub try_init_otel : Exec (Site E B C F R T S) (Unit {0})
  try_init_otel w =
      if not (str_eq st.app_env "prod") && not st.otel_enabled
      then (ok tt, w)
      else or_in_prod (outer st.init_tracing w)

module _ {E B C F R T S : Type 0} (bk : Backends E B C F (List R)) where
  abbrev pub set_loaded : Result (ModelHandle E F (List R)) → Exec (Site E B C F R T S) Bool
  set_loaded (ok handle) = set_model handle >> pure true
  set_loaded (raised _) = pure false

  -- `_try_load_local_latest`
  unfoldable pub try_load_local_latest : Exec (Site E B C F R T S) Bool
  unfolding set_model load_state_from_disk read_latest_run_id
  try_load_local_latest w = elim (read_latest_run_id bk w.disk) [
    | none ↦ (ok false, w)
    | some rid ↦ set_loaded (load_state_from_disk bk rid w.disk) w
  ]

  module _ (st : Startup S) where
    -- The question to MLflow, whose answer is only logged
    abbrev pub ask_champion : Exec (Site E B C F R T S) (Unit {0})
    ask_champion =
        if truthy st.mlflow.tracking_uri && truthy st.mlflow.model_name
        then (λ w. (ok tt, (outer st.champion w).1))
        else pure tt

    -- `_try_load_champion`
    unfoldable pub try_load_champion : Exec (Site E B C F R T S) (Unit {0})
    unfolding try_load_local_latest
    try_load_champion = do ask_champion; loaded ← try_load_local_latest; pure tt

    -- `lifespan`, until it yields
    unfoldable pub start_up : Exec (Site E B C F R T S) (Unit {0})
    unfolding try_init_otel try_load_champion
    start_up = do try_init_otel st; try_load_champion
