-- ===== src/Registry/Alias.antt =====
-- Aliases of model versions: `get_mlflow_client` of deepCab/obs/mlflow.py and `set_alias` of
-- deepCab/registry/dispatcher.py. MLflow's registry is a third-party service: its state `S` and its
-- two calls are parameters, and `IsRegistry` states what its documentation promises of them.
pub mod Moves
use deep_cab.Prelude.{
  String, Bool, true, not, Option, none, some, List, ◌++◌, ◌&&◌, ◌≡◌, ◌≢◌, ◌⊎◌, if◌then◌else◌,
}
use deep_cab.Prelude.Exec.{Result, ok, raised, Exec, pure, ◌>>=◌, ◌>>◌}
use deep_cab.Schemas.Settings.{MlflowSettings, ObsSettings, truthy, or_else, text_or}
use deep_cab.Obs.Notify.{Delivery, notify_alias_change}

-- The calls of `MlflowClient` that the registry makes, and whether the package is installed.
pub record Mlflow (S : Type 0) : Type 0 where
  pub installed : Bool
  pub set_registered_model_alias : String → String → String → Exec S (Unit {0})
  pub get_model_version_by_alias : String → String → S → Result String

-- The version that a lookup found, if it did not raise.
abbrev pub found : Result String → Option String
found (ok version) = some version
found (raised _) = none

module _ {S : Type 0} (api : Mlflow S) where
  -- The version behind an alias, if any.
  abbrev pub alias_of : S → String → String → Option String
  alias_of s model alias = found (api.get_model_version_by_alias model alias s)

  -- A call that succeeds moves its alias, and touches no other; one that raises moves none.
  pub record IsRegistry : Type 0 where
    pub get_set :
        (model alias version : String) (s : S)
        → (api.set_registered_model_alias model alias version s).0 ≡ ok tt
        → alias_of (api.set_registered_model_alias model alias version s).1 model alias
          ≡ some version
    pub get_set_ne :
        (model alias version other : String) (s : S)
        → alias ≢ other
        → alias_of (api.set_registered_model_alias model alias version s).1 model other
          ≡ alias_of s model other
    pub get_raised :
        (model alias version other error : String) (s : S)
        → (api.set_registered_model_alias model alias version s).0 ≡ raised error
        → alias_of (api.set_registered_model_alias model alias version s).1 model other
          ≡ alias_of s model other

-- The registry's state and the notifications that have been sent.
pub record World (S : Type 0) : Type 0 where
  pub store : S
  pub outbox : List Delivery

module _ {S : Type 0} (api : Mlflow S) (m : MlflowSettings) (obs : ObsSettings) where
  -- `get_mlflow_client(require_uri=...) is not None`
  unfoldable pub has_client : Bool → Bool
  has_client require_uri = not (require_uri && not (truthy m.tracking_uri)) && api.installed

  -- `_set_alias_backend`: without a client it warns and returns.
  unfoldable pub set_alias_backend : String → String → String → Exec (World S) (Unit {0})
  unfolding has_client
  set_alias_backend model alias version w =
      if has_client true
      then (let (r, s) = api.set_registered_model_alias model alias version w.store in
          (r, record w { store = s }))
      else (ok tt, w)

  unfoldable pub send_alias_change : String → String → String → Exec (World S) (Unit {0})
  send_alias_change model alias version w =
      (ok tt, record w { outbox = w.outbox ++ notify_alias_change obs model alias version })

  -- `set_alias(model=..., alias=..., version=...)`
  unfoldable pub set_alias : Option String → Option String → String → Exec (World S) (Unit {0})
  unfolding set_alias_backend send_alias_change
  set_alias model alias version =
      let model' = or_else model m.model_name in
      let alias' = text_or "" (or_else alias (some m.challenger_alias)) in
      if not (truthy model') then pure tt else (do
        set_alias_backend (text_or "" model') alias' version
        send_alias_change (text_or "" model') alias' version)
