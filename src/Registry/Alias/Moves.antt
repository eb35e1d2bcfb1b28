-- ===== src/Registry/Alias/Moves.antt =====
-- What `set_alias` of deepCab/registry/dispatcher.py does to the aliases.
use deep_cab.Prelude.{String, ◌++◌, ◌≡◌, ◌≢◌, false, true, some, arith, str_eq, str_eq_ne, inl, inr}
use deep_cab.Prelude.Exec.{Result, ok, raised, Result-cases}
use deep_cab.Schemas.Settings.{MlflowSettings, ObsSettings}
use deep_cab.Obs.Notify.{notify_alias_change}
use deep_cab.Registry.Alias.{Mlflow, IsRegistry, World, alias_of, has_client, set_alias}

-- What holds after a call: one thing if it returned, another if it raised.
abbrev pub after_call {ℓ κ} : {A : Type ℓ} {B : Type κ} → Result A → B → B → B
after_call (ok _) returned failed = returned
after_call (raised _) returned failed = failed

module _ {S : Type 0} (api : Mlflow S) (m : MlflowSettings) (obs : ObsSettings)
    (model alias version : String) (w : World S) where
  -- Without a client nothing moves, and the change is announced all the same.
  pub set_alias_no_client :
      model ≢ ""
      → alias ≢ ""
      → has_client api m obs true ≡ false
      → ((set_alias api m obs (some model) (some alias) version w).0 ≡ ok tt)
        × ((set_alias api m obs (some model) (some alias) version w).1.store ≡ w.store)
        × ((set_alias api m obs (some model) (some alias) version w).1.outbox
            ≡ w.outbox ++ notify_alias_change obs model alias version)
  unfolding set_alias
  set_alias_no_client named aliased offline =
      let n : str_eq model "" ≡ false = str_eq_ne model "" named in
      let a : str_eq alias "" ≡ false = str_eq_ne alias "" aliased in ground arith

  module _ (registry : IsRegistry api) where
    -- A call that returns has moved its alias, if there is a client; one that raises has not.
    pub set_alias_self :
        model ≢ ""
        → alias ≢ ""
        → has_client api m obs true ≡ true
        → let (r, w') = set_alias api m obs (some model) (some alias) version w in
          alias_of api w'.store model alias
          ≡ after_call r (some version) (alias_of api w.store model alias)
    unfolding set_alias
    set_alias_self named aliased online =
        let n : str_eq model "" ≡ false = str_eq_ne model "" named in
        let a : str_eq alias "" ≡ false = str_eq_ne alias "" aliased in
        elim (Result-cases (api.set_registered_model_alias model alias version w.store).0) [
          | inl (u, returned) ↦ ground (arith, registry.get_set model alias version w.store)
          | inr (e, failed) ↦
              ground (arith, registry.get_raised model alias version alias e w.store)
        ]

    -- Whatever the outcome, no other alias of the model moves.
    pub set_alias_others :
        (other : String)
        → model ≢ ""
        → alias ≢ ""
        → alias ≢ other
        → alias_of api (set_alias api m obs (some model) (some alias) version w).1.store model other
          ≡ alias_of api w.store model other
    unfolding set_alias
    set_alias_others other named aliased ne =
        let n : str_eq model "" ≡ false = str_eq_ne model "" named in
        let a : str_eq alias "" ≡ false = str_eq_ne alias "" aliased in
        ground (arith, registry.get_set_ne model alias version other w.store ne)
