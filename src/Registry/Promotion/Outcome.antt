-- ===== src/Registry/Promotion/Outcome.antt =====
-- What a call of `maybe_promote` of deepCab/registry/promotion.py leaves behind, by its outcome.
use deep_cab.Prelude.{
  String, ◌≡◌, ◌≢◌, refl, false, true, false≢true, eq_iff, Option, none, some, arith, inl, inr,
  Bool-cases, sym, Option-cases,
}
use deep_cab.Prelude.Exec.{Result, ok, raised, Result-cases}
use deep_cab.Schemas.Settings.{truthy, text_or}
use deep_cab.Registry.Alias.{IsRegistry, World, alias_of, has_client}
use deep_cab.Registry.Alias.Moves.{set_alias_self, set_alias_others}
use deep_cab.Registry.Promotion.{
  PromotionInputs, PromotionResult, Service, set, score, current_champion_version, compare_with,
  decide, promote_model, model_of, maybe_promote,
}

-- The three aliases of the service have names of their own, the tracking URI is set, and a client that
-- is injected asks the registry that the aliases are set in.
pub record IsConfigured {F S E X : Type 0} (sv : Service F S E X) : Type 0 where
  pub registry : IsRegistry sv.api
  pub same_registry :
      (ask : String → String → S → Result String) (model alias : String) (s : S)
      → sv.client ≡ some ask
      → ask model alias s ≡ sv.api.get_model_version_by_alias model alias s
  pub online : has_client sv.api sv.mlflow sv.obs true ≡ true
  pub champion_named : sv.mlflow.champion_alias ≢ ""
  pub challenger_named : sv.mlflow.challenger_alias ≢ ""
  pub apart : sv.mlflow.challenger_alias ≢ sv.mlflow.champion_alias
  pub champion-ne-legacy : sv.mlflow.champion_alias ≢ "legacy"
  pub challenger-ne-legacy : sv.mlflow.challenger_alias ≢ "legacy"

legacy_named : ◌≢◌ {A = String} "legacy" ""
legacy_named e = false≢true ((eq_iff "legacy" "").1 e)

-- `old or before`
abbrev pub newest : Option String → Option String → Option String
newest none before = before
newest (some old) before = some old

pub truthy-ne-empty : (t : Option String) → truthy t ≡ true → text_or "" t ≢ ""
truthy-ne-empty none h e = cc
truthy-ne-empty (some text) h e = ground (arith, (eq_iff text "").1 e)

module _ {F S E X : Type 0} (sv : Service F S E X) where
  -- The version behind an alias of a model.
  abbrev pub points : World S → String → String → Option String
  points w model alias = alias_of sv.api w.store model alias

  -- What the service takes for the champion is the version behind the alias.
  pub current_champion_version_lem :
      IsConfigured sv
      → (model alias : String) (w : World S)
      → current_champion_version sv model alias w ≡ points w model alias
  unfolding current_champion_version has_client
  current_champion_version_lem conf model alias w = elim (Option-cases sv.client) [
    | inl default ↦ ground (arith, default, conf.online)
    | inr (ask, injected) ↦
        ground (arith, injected, conf.same_registry ask model alias w.store injected)
  ]

  -- After a call that began at `w` and ended at `w'`: what it says about the aliases, by its outcome.
  abbrev pub Accounts :
      String → PromotionInputs F → World S → Result (PromotionResult F) → World S → Type 0
  Accounts model inputs w (ok r) w' =
      let champion = points w model sv.mlflow.champion_alias in
      (r.old_champion_version ≡ champion)
      × (r.new_champion_version ≡ points w' model sv.mlflow.champion_alias)
      × elim r.promoted [
        | true ↦
            (points w' model sv.mlflow.champion_alias ≡ some inputs.challenger_version)
            × (points w' model "legacy" ≡ newest champion (points w model "legacy"))
        | false ↦
            (points w' model sv.mlflow.champion_alias ≡ champion)
            × (points w' model "legacy" ≡ points w model "legacy")
      ]
  Accounts model inputs w (raised e) w' =
      points w' model sv.mlflow.champion_alias ≡ points w model sv.mlflow.champion_alias

  module _ (conf : IsConfigured sv) (model : String) (inputs : PromotionInputs F)
      (named : model ≢ "") where
    compare_with-Accounts :
        (c : F) (old : String) (w : World S)
        → points w model sv.mlflow.champion_alias ≡ some old
        → Accounts model inputs w
            (compare_with sv model inputs c old w).0
            (compare_with sv model inputs c old w).1
    unfolding compare_with
    compare_with-Accounts c old w live =
        let v = inputs.challenger_version in
        let w₁ = (set sv model "legacy" old w).1 in
        let champion = sv.mlflow.champion_alias in
        ground (
          arith,
          live,
          set_alias_self sv.api sv.mlflow sv.obs model "legacy" old w conf.registry named
              legacy_named conf.online,
          set_alias_others sv.api sv.mlflow sv.obs model "legacy" old w conf.registry champion named
              legacy_named,
          set_alias_self sv.api sv.mlflow sv.obs model champion v w₁ conf.registry named
              conf.champion_named conf.online,
          set_alias_others sv.api sv.mlflow sv.obs model champion v w₁ conf.registry "legacy" named
              conf.champion_named conf.champion-ne-legacy,
        )

    decide-Accounts :
        (c : F) (champion : Option String) (w : World S)
        → points w model sv.mlflow.champion_alias ≡ champion
        → Accounts model inputs w
            (decide sv model inputs c champion w).0
            (decide sv model inputs c champion w).1
    unfolding decide
    decide-Accounts c none w live =
        let v = inputs.challenger_version in
        let champion = sv.mlflow.champion_alias in
        ground (
          arith,
          live,
          set_alias_self sv.api sv.mlflow sv.obs model champion v w conf.registry named
              conf.champion_named conf.online,
          set_alias_others sv.api sv.mlflow sv.obs model champion v w conf.registry "legacy" named
              conf.champion_named conf.champion-ne-legacy,
        )
    decide-Accounts c (some old) w live = ground (arith, live, compare_with-Accounts c old w live)

    promote_model-Accounts :
        (w : World S)
        → Accounts model inputs w
            (promote_model sv model inputs w).0
            (promote_model sv model inputs w).1
    unfolding promote_model
    promote_model-Accounts w =
        let v = inputs.challenger_version in
        let challenger = sv.mlflow.challenger_alias in
        let champion = sv.mlflow.champion_alias in
        let w₁ = (set sv model challenger v w).1 in
        let others = set_alias_others sv.api sv.mlflow sv.obs model challenger v w conf.registry in
        elim (Result-cases (score sv model v inputs.reference_data inputs.metric)) [
          | inl (c, scored) ↦ ground (
            arith,
            scored,
            others champion named conf.challenger_named conf.apart,
            others "legacy" named conf.challenger_named conf.challenger-ne-legacy,
            decide-Accounts c (current_champion_version sv model champion w₁) w₁
                (sym (current_champion_version_lem conf model champion w₁)),
            current_champion_version_lem conf model champion w₁,
          )
          | inr (e, failed) ↦ ground (
            arith,
            others champion named conf.challenger_named conf.apart,
            others "legacy" named conf.challenger_named conf.challenger-ne-legacy,
          )
        ]

  -- A result names the version that was behind the champion's alias before the call and the one that is
  -- behind it after. If it reports a promotion, the champion's alias is at the challenger, and the
  -- legacy alias at the champion from before the call, or unmoved if there was none. If it reports
  -- none, neither alias has moved. A call that raises has not moved the champion's alias. This is for a
  -- configured service: with a tracking URI, aliases of names of their own, and a registry that keeps
  -- its aliases as documented.
  pub maybe_promote-Accounts :
      (conf : IsConfigured sv) (inputs : PromotionInputs F) (w : World S)
      → Accounts
          (text_or "" (model_of sv inputs))
          inputs
          w
          (maybe_promote sv inputs w).0
          (maybe_promote sv inputs w).1
  unfolding maybe_promote
  maybe_promote-Accounts conf inputs w = elim (Bool-cases (truthy (model_of sv inputs))) [
    | inr unnamed ↦ rw unnamed refl
    | inl named ↦ rw named (
        promote_model-Accounts conf (text_or "" (model_of sv inputs)) inputs
          (truthy-ne-empty (model_of sv inputs) named) w)
  ]
