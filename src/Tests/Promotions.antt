-- ===== src/Tests/Promotions.antt =====
-- The promotion service of deepCab/registry over a small registry of MLflow.
use deep_cab.Prelude.{
  ℕ, String, true, false, Option, none, some, [], ◌∷◌, ◌≡◌, ◌≢◌, refl, arith, ◌&&◌, str_eq, eq_iff,
  false≢true, if◌then◌else◌, str_eq_refl, inl, inr, Bool-cases,
}
use deep_cab.Prelude.Floats.{fixed}
use deep_cab.Prelude.Exec.{Result, ok, raised}
use deep_cab.Schemas.Enums.{s10k}
use deep_cab.Schemas.Settings.{MlflowSettings, ObsSettings}
use deep_cab.Registry.Alias.{Mlflow, IsRegistry, World, has_client, set_alias}
use deep_cab.Registry.Promotion.{
  PromotionInputs, Service, score, current_champion_version, maybe_promote,
}
use deep_cab.Training.Evaluate.{evaluate, metric_of}
use deep_cab.Registry.Promotion.Outcome.{IsConfigured, Accounts, maybe_promote-Accounts}
use deep_cab.Registry.Promotion.Threshold.{Justified, maybe_promote-Justified}
use deep_cab.Registry.Promotion.Offline.{bootstrap, maybe_promote_offline}

-- The version behind each alias of each model.
abbrev Aliases : Type 0
Aliases = String → String → Option String

abbrev answer : Option String → Result String
answer none = raised "MlflowException"
answer (some version) = ok version

abbrev mlflow : Mlflow Aliases
mlflow = record {
  installed = true;
  set_registered_model_alias = λ model alias version s.
      (ok tt, λ m a. if str_eq m model && str_eq a alias then some version else s m a);
  get_model_version_by_alias = λ model alias s. answer (s model alias);
}

mlflow-IsRegistry : IsRegistry mlflow
mlflow-IsRegistry = record {
  get_set = λ model alias version s h. ground (arith, str_eq_refl model, str_eq_refl alias);
  get_set_ne = λ model alias version other s h. elim (Bool-cases (str_eq other alias)) [
    | inl same ↦ absurd (h (ground (arith, (eq_iff other alias).0 same)))
    | inr apart ↦ ground (arith, apart)
  ];
  get_raised = λ model alias version other error s h. ground (arith, h);
}

abbrev settings : Option String → MlflowSettings
settings uri = record {
  tracking_uri = uri;
  experiment = some "deepcab";
  model_name = some "taxifare";
  champion_alias = "champion";
  challenger_alias = "challenger";
}

abbrev obs : ObsSettings
obs = record {
  slack_webhook_url = some "https://hooks";
  telegram_bot_token = some "token";
  telegram_chat_id = none;
}

-- The model of a version predicts its number; the truth is 3.
abbrev prediction : String → ℕ
prediction version =
    if str_eq version "5"
    then 500_000_000
    else if str_eq version "7"
    then 400_000_000
    else 900_000_000

abbrev service : Option String → Service ℕ Aliases ℕ ℕ
service uri = record {
  floats = fixed;
  mlflow = settings uri;
  obs = obs;
  api = mlflow;
  client = none;
  load_version = λ model version. ok (prediction version);
  preprocess = λ slice split. ok (0, 300_000_000 ∷ []);
  predict = λ estimator rows. estimator ∷ [];
}

abbrev inputs : PromotionInputs ℕ
inputs = record {
  challenger_version = "7";
  reference_data = record { size = s10k; validation_size = s10k };
  model_name = some "taxifare";
  improvement_threshold = 5_000_000;
  metric = "mae";
}

abbrev world : World Aliases
world = record {
  store =
      λ model alias. if str_eq model "taxifare" && str_eq alias "champion" then some "5" else none;
  outbox = [];
}

abbrev empty_world : World Aliases
empty_world = record { store = λ model alias. none; outbox = [] }

text_apart : (a b : String) → str_eq a b ≡ false → a ≢ b
text_apart a b h e = false≢true (ground (arith, h, (eq_iff a b).1 e))

service-IsConfigured : IsConfigured (service (some "http://mlflow"))
unfolding has_client
service-IsConfigured = record {
  registry = mlflow-IsRegistry;
  same_registry = λ ask model alias s h. absurd (cc h);
  online = refl;
  champion_named = text_apart "champion" "" refl;
  challenger_named = text_apart "challenger" "" refl;
  apart = text_apart "challenger" "champion" refl;
  champion-ne-legacy = text_apart "champion" "legacy" refl;
  challenger-ne-legacy = text_apart "challenger" "legacy" refl;
}

-- The run that the two witnesses are about: version 7 is better than version 5 by more than 5 %.
promoted :
    ((maybe_promote (service (some "http://mlflow")) inputs world).1).store "taxifare" "champion"
    ≡ some "7"
unfolding maybe_promote set_alias
promoted = refl

maybe_promote-Accounts_example :
    Accounts
      (service (some "http://mlflow"))
      "taxifare"
      inputs
      world
      (maybe_promote (service (some "http://mlflow")) inputs world).0
      (maybe_promote (service (some "http://mlflow")) inputs world).1
maybe_promote-Accounts_example =
    maybe_promote-Accounts (service (some "http://mlflow")) service-IsConfigured inputs world

maybe_promote-Justified_example :
    Justified
      (service (some "http://mlflow"))
      "taxifare"
      inputs
      (some "5")
      (maybe_promote (service (some "http://mlflow")) inputs world).0
maybe_promote-Justified_example =
    maybe_promote-Justified (service (some "http://mlflow")) service-IsConfigured inputs world

no_client : has_client mlflow (settings none) obs true ≡ false
unfolding has_client
no_client = refl

maybe_promote_offline_example :
    ((maybe_promote (service none) inputs empty_world).0
      ≡ ok (
          bootstrap
            (service none)
            no_client
            (text_apart "champion" "" refl)
            (text_apart "challenger" "" refl)
            inputs
            100_000_000))
    × ((maybe_promote (service none) inputs empty_world).1.store ≡ empty_world.store)
unfolding current_champion_version score evaluate metric_of
maybe_promote_offline_example =
    maybe_promote_offline (service none) no_client (text_apart "champion" "" refl)
      (text_apart "challenger" "" refl) "taxifare" inputs 100_000_000 empty_world
      (text_apart "taxifare" "" refl) refl refl refl
