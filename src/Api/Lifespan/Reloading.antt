-- ===== src/Api/Lifespan/Reloading.antt =====
-- When deepCab/api/lifespan.py raises, and which model it serves after a training.
use deep_cab.Prelude.{
  String, ◌<>◌, Bool, true, false, ◌&&◌, List, ◌≡◌, ◌↔◌, inl, inr, refl, ◌∙◌, ap, arith, str_eq,
  eq_iff, Bool-cases, Option-cases,
}
use deep_cab.Prelude.Exec.{Result, ok, raised, Exec, pure, continue, ◌>>=◌, Result-cases}
use deep_cab.Schemas.Settings.{truthy}
use deep_cab.Registry.Runs.{ModelHandle, Backends, load_state_from_disk, read_latest_run_id}
use deep_cab.Training.Site.{Site, set_model}
use deep_cab.Training.Trainer.{Trainer}
use deep_cab.Api.Lifespan.{
  Startup, try_init_otel, try_load_local_latest, ask_champion, try_load_champion, start_up,
  set_loaded,
}

module _ {E B C F R T S : Type 0} (bk : Backends E B C F (List R)) (st : Startup S) where
  ask_champion_returns :
      (w : Site E B C F R T S)
      → (s : S) × (ask_champion bk st w ≡ (ok tt, record w { outside = s }))
  ask_champion_returns w =
      elim (Bool-cases (truthy st.mlflow.tracking_uri && truthy st.mlflow.model_name)) [
        | inl asked ↦ ((st.champion w.outside).1, ground (arith, asked))
        | inr skipped ↦ (w.outside, ground (arith, skipped))
      ]

  set_loaded_returns :
      (loaded : Result (ModelHandle E F (List R))) (w : Site E B C F R T S)
      → (b : Bool) × ((set_loaded bk loaded w).0 ≡ ok b)
  unfolding set_model
  set_loaded_returns (ok handle) w = (true, refl)
  set_loaded_returns (raised e) w = (false, refl)

  load_latest_returns :
      (w : Site E B C F R T S) → (b : Bool) × ((try_load_local_latest bk w).0 ≡ ok b)
  unfolding try_load_local_latest
  load_latest_returns w = elim (Option-cases (read_latest_run_id bk w.disk)) [
    | inl missing ↦ (false, ground (arith, missing))
    | inr (rid, found) ↦
        let (b, h) = set_loaded_returns (load_state_from_disk bk rid w.disk) w in
        (b, ground (arith, found, h))
  ]

  -- The loading of the model returns, with what LATEST gives.
  try_load_champion_lem :
      (w : Site E B C F R T S)
      → (s : S) × (try_load_champion bk st w
          ≡ (ok tt, (try_load_local_latest bk (record w { outside = s })).1))
  unfolding try_load_champion
  try_load_champion_lem w =
      let (s, asked) = ask_champion_returns w in
      let v : Site E B C F R T S = record w { outside = s } in
      let (_, loaded) = load_latest_returns v in
      let last : Bool → Exec (Site E B C F R T S) (Unit {0}) = λ _. pure tt in
      let rest : Unit {0} → Exec (Site E B C F R T S) (Unit {0}) =
        λ _. try_load_local_latest bk >>= last in
      (
        s,
        ap (λ (o : Result (Unit {0}) × Site E B C F R T S). continue o.0 rest o.1) asked
            ∙ ap (λ (r : Result Bool). continue r last (try_load_local_latest bk v).1) loaded,
      )

  -- The start gives what the tracer gives, and serves what LATEST gives.
  start_up_lem :
      (w : Site E B C F R T S)
      → let (answer, v) = try_init_otel st w in
        (s : S) × (start_up bk st w
          ≡ (elim answer as (λ _. Result (Unit {0}) × Site E B C F R T S) [
            | raised e ↦ (raised e, v)
            | ok _ ↦ (ok tt, (try_load_local_latest bk (record v { outside = s })).1)
          ]))
  unfolding start_up
  start_up_lem w = go (try_init_otel st w).0 (try_init_otel st w).1
    where
      go :
          (answer : Result (Unit {0})) (v : Site E B C F R T S)
          → (s : S) × (continue answer (λ _. try_load_champion bk st) v
              ≡ (elim answer as (λ _. Result (Unit {0}) × Site E B C F R T S) [
                | raised e ↦ (raised e, v)
                | ok _ ↦ (ok tt, (try_load_local_latest bk (record v { outside = s })).1)
              ]))
      go (ok _) v = try_load_champion_lem v
      go (raised e) v = (v.outside, refl)

  otel_raises :
      (w : Site E B C F R T S) (e : String)
      → (try_init_otel st w).0 ≡ raised e
      → (st.app_env ≡ "prod") × ((e' : String) × ((st.init_tracing w.outside).0 ≡ raised e'))
  unfolding try_init_otel
  otel_raises w e h = elim (Bool-cases (str_eq st.app_env "prod")) [
    | inr elsewhere ↦ elim (Result-cases (st.init_tracing w.outside).0) [
      | inl (_, fine) ↦ absurd (ground (arith, elsewhere, fine, h))
      | inr (_, failed) ↦ absurd (ground (arith, elsewhere, failed, h))
    ]
    | inl prod ↦ elim (Result-cases (st.init_tracing w.outside).0) [
      | inl (_, fine) ↦ absurd (ground (arith, prod, fine, h))
      | inr (e', failed) ↦ ((eq_iff st.app_env "prod").0 prod, (e', failed))
    ]
  ]

  otel_raises_in_prod :
      (w : Site E B C F R T S) (e : String)
      → st.app_env ≡ "prod"
      → (st.init_tracing w.outside).0 ≡ raised e
      → (try_init_otel st w).0 ≡ raised ("RuntimeError: " <> e)
  unfolding try_init_otel
  otel_raises_in_prod w e prod failed = ground (arith, (eq_iff st.app_env "prod").1 prod, failed)

  -- The start raises exactly in production, when the tracer cannot be initialised.
  pub start_up_raises :
      (w : Site E B C F R T S)
      → ((e : String) × ((start_up bk st w).0 ≡ raised e))
        ↔ ((st.app_env ≡ "prod") × ((e : String) × ((st.init_tracing w.outside).0 ≡ raised e)))
  start_up_raises w = elim (Result-cases (try_init_otel st w).0) [
    | inl (_, fine) ↦ (
      λ (e, h). absurd (ground (arith, (start_up_lem w).1, fine, h)),
      λ (prod, (e, failed)). absurd (ground (arith, otel_raises_in_prod w e prod failed, fine)),
    )
    | inr (e, failed) ↦
        (λ _. otel_raises w e failed, λ _. (e, ground (arith, (start_up_lem w).1, failed)))
  ]
