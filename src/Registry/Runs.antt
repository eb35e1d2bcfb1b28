-- ===== src/Registry/Runs.antt =====
-- The saved models of deepCab/registry/dispatcher.py: `save_full_state`, `load_state_from_disk` and the
-- LATEST pointer. A file is kept as what its writer serialised; the estimators' own `save` and `load`,
-- and the cast of the residuals to 32 bits, are fields of `Backends`.
pub mod Reload
use deep_cab.Prelude.{String, ◌<>◌, Bool, Option, none, some, List, [], ◌∷◌, if◌then◌else◌}
use deep_cab.Prelude.Dict.{Dict, lookup, insert}
use deep_cab.Prelude.Exec.{Result, ok, raised}
use deep_cab.Schemas.Settings.{truthy, text_or}
use deep_cab.Models.Conformal.{AciRegressor}

-- `ModelHandle` of deepCab/api/state.py
pub record ModelHandle (E F X : Type 0) : Type 0 where
  pub estimator : E
  pub backend_kind : String
  pub background : Option X
  pub aci : Option (AciRegressor F X)

-- `aci.json`
pub record Calibration (F : Type 0) : Type 0 where
  pub residuals : List F
  pub alpha : F
  pub alpha_t : F
  pub gamma : F

-- The files of a run's directory.
pub record RunDir (B C F X : Type 0) : Type 0 where
  pub model : Option B
  pub cfg : Option (String × C)
  pub background : Option X
  pub aci : Option (Calibration F)

-- The directory `runs`, and its file LATEST.
pub record Disk (B C F X : Type 0) : Type 0 where
  pub runs : Dict (RunDir B C F X)
  pub latest : Option String

pub record Backends (E B C F X : Type 0) : Type 0 where
  pub save : E → B
  pub cfg_of : E → C
  -- `kind in BACKENDS`, and `BACKENDS[kind].load`
  pub known : String → Bool
  pub load : String → B → Result E
  pub predict : E → X → List F
  pub to_float32 : List F → List F
  -- `text.strip()`
  pub strip : String → String

module _ {E B C F X : Type 0} (bk : Backends E B C F X) where
  -- The directory of a run, which is made if it is not there.
  abbrev pub run_dir : String → Disk B C F X → RunDir B C F X
  run_dir rid disk = elim (lookup rid disk.runs) [
    | none ↦ record { model = none; cfg = none; background = none; aci = none }
    | some dir ↦ dir
  ]

  abbrev pub residuals_of : Option (List F) → List F
  residuals_of none = []
  residuals_of (some residuals) = residuals

  -- The blob of `aci.json`
  abbrev pub calibration_of : AciRegressor F X → Calibration F
  calibration_of aci = record {
    residuals = bk.to_float32 (residuals_of aci.residuals);
    alpha = aci.alpha;
    alpha_t = aci.alpha_t;
    gamma = aci.gamma;
  }

  -- The files that a handle overwrites; a part that it does not have leaves its file as it was.
  unfoldable pub save_files : ModelHandle E F X → RunDir B C F X → RunDir B C F X
  save_files handle dir = record {
    model = some (bk.save handle.estimator);
    cfg = some (handle.backend_kind, bk.cfg_of handle.estimator);
    background = elim handle.background [ none ↦ dir.background | some rows ↦ some rows ];
    aci = elim handle.aci [ none ↦ dir.aci | some aci ↦ some (calibration_of aci) ];
  }

  -- `run_id or f"local-{uuid.uuid4().hex[:8]}"`
  abbrev pub rid_of : Option String → String → String
  rid_of run_id hex = if truthy run_id then text_or "" run_id else "local-" <> hex

  -- `save_full_state`, with the random digits that it may need
  unfoldable pub save_full_state :
      ModelHandle E F X → Option String → String → Disk B C F X → Disk B C F X
  unfolding save_files
  save_full_state handle run_id hex disk =
      let rid = rid_of run_id hex in
      record {
        runs = insert rid (save_files handle (run_dir rid disk)) disk.runs;
        latest = some rid;
      }

  abbrev pub loaded_aci : E → Option (Calibration F) → Option (AciRegressor F X)
  loaded_aci est none = none
  loaded_aci est (some blob) = some (record {
    base = bk.predict est;
    alpha = blob.alpha;
    gamma = blob.gamma;
    residuals = some blob.residuals;
    alpha_t = blob.alpha_t;
  })

  abbrev pub load_weights : String → Option B → Result E
  load_weights kind none = raised "FileNotFoundError"
  load_weights kind (some weights) = bk.load kind weights

  -- `load_state_from_disk`
  unfoldable pub load_state_from_disk : String → Disk B C F X → Result (ModelHandle E F X)
  load_state_from_disk rid disk =
      let dir = run_dir rid disk in
      elim dir.cfg [
        | none ↦ raised "FileNotFoundError"
        | some (kind, _) ↦
            if bk.known kind
            then elim (load_weights kind dir.model) [
              | raised e ↦ raised e
              | ok est ↦ ok (record {
                estimator = est;
                backend_kind = kind;
                background = dir.background;
                aci = loaded_aci est dir.aci;
              })
            ]
            else raised "KeyError"
      ]

  -- `read_latest_run_id`
  unfoldable pub read_latest_run_id : Disk B C F X → Option String
  read_latest_run_id disk = elim disk.latest [
    | none ↦ none
    | some text ↦ if truthy (some (bk.strip text)) then some (bk.strip text) else none
  ]
