-- ===== src/Training/Run/Session.antt =====
-- The model that `run` of deepCab/training/train.py leaves, with its copy of the run.
use deep_cab.Prelude.{String, Option, some, ◌≡◌, sym, ◌∙◌, ap, arith, inl, inr, ◌&&◌, Bool-cases}
use deep_cab.Prelude.Exec.{ok, pure, continue, ◌>>◌, ok-injective, Result-cases}
use deep_cab.Schemas.Settings.{truthy, text_or}
use deep_cab.Training.Site.{Site, outer}
use deep_cab.Training.Stages.Stores.{Spares, pure-Spares, outer-Spares, bind-Spares, if-Spares}
use deep_cab.Training.Trainer.{TrainConfig, TrainResult, Trainer, Hooks}
use deep_cab.Training.Run.{gcs_uri, run_training, mirror}
use deep_cab.Training.Run as Running
use deep_cab.Training.Run.Published.{handle_of, run_training-Publishes}

module _ {D E B C F R T S : Type 0} (t : Trainer D E B C F R S) (h : Hooks D E C F R T S)
    (cfg : TrainConfig D C) where
  mirror-Spares :
      (bucket : Option String) (r : TrainResult E F R) → Spares (mirror t h cfg bucket r)
  mirror-Spares bucket r =
      let push = t.push_to_gcs r.run_dir (gcs_uri (text_or "" bucket) (text_or "" r.run_id)) in
      if-Spares (truthy bucket && truthy r.run_id) (outer push >> pure r) (pure r)
        (bind-Spares (outer push) (λ _. pure r) (outer-Spares push) (λ _. pure-Spares r))
        (pure-Spares r)

  mirror_same :
      (bucket : Option String) (r r' : TrainResult E F R) (w : Site E B C F R T S)
      → (mirror t h cfg bucket r w).0 ≡ ok r'
      → r ≡ r'
  mirror_same bucket r r' w e =
      let push = t.push_to_gcs r.run_dir (gcs_uri (text_or "" bucket) (text_or "" r.run_id)) in
      elim (Bool-cases (truthy bucket && truthy r.run_id)) [
        | inr kept ↦ ok-injective r r' (ground (arith, kept, e))
        | inl pushed ↦ elim (Result-cases (push w.outside).0) [
          | inl (_, fine) ↦ ok-injective r r' (ground (arith, pushed, fine, e))
          | inr (_, failed) ↦ absurd (ground (arith, pushed, failed, e))
        ]
      ]

  -- A session that returns has published the model of its result.
  pub run-model :
      (bucket : Option String) (w : Site E B C F R T S) (r : TrainResult E F R)
      → (Running.run t h cfg bucket w).0 ≡ ok r
      → (Running.run t h cfg bucket w).1.model ≡ some (handle_of r)
  unfolding Running.run
  run-model bucket w r e = elim (Result-cases (run_training t h cfg w).0) [
    | inr (_, failed) ↦ absurd (ground (arith, failed, e))
    | inl (r', fine) ↦
        let v = (run_training t h cfg w).1 in
        let whole = ap (λ answer. continue answer (mirror t h cfg bucket) v) fine in
        let same = mirror_same bucket r' r v (sym (ap (λ o. o.0) whole) ∙ e) in
        ap (λ o. o.1.model) whole
        ∙ (mirror-Spares bucket r' v).0
        ∙ (run_training-Publishes t h cfg w r' fine).0
        ∙ ap (λ x. some (handle_of x)) same
  ]
