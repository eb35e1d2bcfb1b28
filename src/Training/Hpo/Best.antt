-- ===== src/Training/Hpo/Best.antt =====
-- The configuration that deepCab/training/hpo.py returns is the one that the best of its trials was scored on.
use deep_cab.Prelude.{
  ℕ, String, false, some, List, ◌∷◌, ◌++◌, All, ◌≡◌, refl, sym, subst, ◌∙◌, ap, arith, inl, inr,
  Option-cases, str_eq, if◌then◌else◌,
}
use deep_cab.Prelude.Dict.{Dict, lookup}
use deep_cab.Prelude.Exec.{Result, ok, raised, Result-cases}
use deep_cab.Agent.Json.{Json}
use deep_cab.Training.Trainer.{TrainConfig}
use deep_cab.Training.Hpo.Merging.{
  newer, IsDistinct, lookup-merge, params_of-IsDistinct, spaces-IsDistinct,
}
use deep_cab.Training.Hpo.{
  Range, HpoConfig, Sampler, Pruner, make_sampler, make_pruner, spaces, Trial, BestTrial, HpoResult,
  params_of, Tuner, backend_with, scored, run_trial, result_with, after_study, tune, merge,
}

-- `trials` are the trials that a study has run, `study.trials`, for the arguments of the study.
module _ {D C F : Type 0} (tn : Tuner D C F) (base : TrainConfig D C)
    (trials : Sampler
      → Pruner
      → String
      → (Trial F → Dict (Json F) × Result F)
      → ℕ
      → List (Trial F)) where
  -- What a trial gave is no better than a value, in the direction of the study.
  abbrev pub Unbeaten : String → F → Result F → Type 0
  Unbeaten direction value (raised e) = Unit
  Unbeaten direction value (ok other) =
      (if str_eq direction "minimize" then tn.floats.lt other value else tn.floats.lt value other)
      ≡ false

  -- The parameters and the value are those of a trial in the list, and no trial in it is better.
  abbrev pub IsBestOf :
      String → (Trial F → Dict (Json F) × Result F) → List (Trial F) → Dict (Json F) → F → Type 0
  IsBestOf direction run asked params value =
      ((trial : Trial F) × (earlier : List (Trial F)) × (later : List (Trial F)) × (asked
          ≡ earlier ++ trial ∷ later)
        × (run trial ≡ (params, ok value)))
      × All (λ (t : Trial F). Unbeaten direction value (run t).1) asked

  -- `best_trial` of a study is the best of the trials that it ran.
  abbrev pub IsStudy : Type 0
  IsStudy =
      (sampler : Sampler) (pruner : Pruner) (direction : String)
      (run : Trial F → Dict (Json F) × Result F) (n_trials : ℕ) (best : BestTrial F)
      → tn.study sampler pruner direction run n_trials ≡ ok best
      → IsBestOf direction run (trials sampler pruner direction run n_trials) best.params best.value

  -- The trials of the study that a search makes.
  abbrev pub asked_by : HpoConfig → Dict (Range F) → List (Trial F)
  asked_by hpo space =
      trials (make_sampler hpo.sampler base.seed) (make_pruner hpo.pruner) hpo.direction
        (run_trial tn base space) hpo.n_trials

  -- The value of a trial over a space: that of the objective on the configuration merged with what the
  -- trial chose.
  abbrev pub value_of : Dict (Range F) → Trial F → Result F
  value_of space trial = scored tn base (backend_with tn base (params_of trial space))

  abbrev pub IsScored : HpoConfig → Dict (Range F) → HpoResult C F → Type 0
  IsScored hpo space r =
      ((trial : Trial F) × (earlier : List (Trial F)) × (later : List (Trial F)) × (asked_by hpo
            space
          ≡ earlier ++ trial ∷ later)
        × (params_of trial space ≡ r.best_params))
      × All (λ (t : Trial F). Unbeaten hpo.direction r.best_value (value_of space t))
          (asked_by hpo space)
      × ((merged : Dict (Json F)) × ((name : String)
            → lookup name merged
              ≡ newer (lookup name r.best_params) (lookup name (tn.model_dump base.backend)))
          × (tn.model_validate base.backend_kind merged ≡ ok r.best_backend_cfg))
      × (tn.objective (record base { backend = r.best_backend_cfg }) ≡ ok r.best_value)
      × (r.n_trials ≡ hpo.n_trials)

  result-IsScored :
      (hpo : HpoConfig) (space : Dict (Range F)) (best : BestTrial F) (made : Result C)
      (r : HpoResult C F)
      → IsDistinct space
      → IsBestOf hpo.direction (run_trial tn base space) (asked_by hpo space) best.params best.value
      → backend_with tn base best.params ≡ made
      → result_with tn base hpo.n_trials best made ≡ ok r
      → IsScored hpo space r
  unfolding run_trial backend_with
  result-IsScored hpo space best (raised e) r distinct chosen h m = absurd (cc m)
  result-IsScored hpo space best (ok backend) r distinct
        ((trial, earlier, later, there, ran), least) h m =
      let result : HpoResult C F = record {
        best_value = best.value;
        best_params = best.params;
        best_backend_cfg = backend;
        n_trials = hpo.n_trials;
      } in
      let params : params_of trial space ≡ best.params = ap (λ o. o.0) ran in
      let value : scored tn base (ok backend) ≡ ok best.value =
        ap (scored tn base) (sym h)
        ∙ ap (λ p. scored tn base (backend_with tn base p)) (sym params)
        ∙ ap (λ o. o.1) ran in
      let same : result ≡ r = cc m in
      subst (IsScored hpo space) same (
        (trial, earlier, later, there, params),
        least,
        (
          merge (tn.model_dump base.backend) best.params,
          λ name.
              lookup-merge (tn.model_dump base.backend) best.params name
                (subst IsDistinct params (params_of-IsDistinct trial space distinct)),
          h,
        ),
        value,
        refl,
      )

  -- A search that returns gives the parameters of one of the trials that its study ran over the space of
  -- the backend's kind; the backend's configuration that is validated from the base's fields, each
  -- overridden by the parameter of its name if there is one; and the value that the objective gives
  -- with it. And no trial of the study has a better value, in the direction asked for. This is for
  -- a study whose best trial is the best of those that it ran.
  pub tune-IsScored :
      (hpo : HpoConfig) (r : HpoResult C F)
      → IsStudy
      → tune tn base (some hpo) ≡ ok r
      → (space : Dict (Range F)) × (lookup base.backend_kind (spaces tn.floats) ≡ some space)
        × IsScored hpo space r
  unfolding tune
  tune-IsScored hpo r study h = elim (Option-cases (lookup base.backend_kind (spaces tn.floats))) [
    | inl missing ↦ absurd (ground (arith, missing, h))
    | inr (space, known) ↦
        let run = run_trial tn base space in
        let answer =
          tn.study (make_sampler hpo.sampler base.seed) (make_pruner hpo.pruner) hpo.direction run
            hpo.n_trials in
        let studied : after_study tn base hpo.n_trials answer ≡ ok r = ground (arith, known, h) in
        elim (Result-cases answer) [
          | inr (e, failed) ↦ absurd (ground (arith, failed, studied))
          | inl (best, found) ↦ (
            space,
            known,
            result-IsScored hpo space best (backend_with tn base best.params) r
                (spaces-IsDistinct tn.floats base.backend_kind space known)
                (study _ _ _ run hpo.n_trials best found) refl
                (sym (ap (after_study tn base hpo.n_trials) found) ∙ studied),
          )
        ]
  ]
