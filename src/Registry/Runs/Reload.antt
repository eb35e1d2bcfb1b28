-- ===== src/Registry/Runs/Reload.antt =====
-- What a restart loads of what deepCab/registry/dispatcher.py saved.
use deep_cab.Prelude.{String, none, some, ◌≡◌, ◌≢◌, arith, str_eq_ne}
use deep_cab.Registry.Runs.{
  ModelHandle, RunDir, Disk, Backends, calibration_of, save_full_state, loaded_aci,
  read_latest_run_id,
}

module _ {E B C F X : Type 0} (bk : Backends E B C F X) where
  -- What comes back of a handle that was saved over a directory: the background and the calibration that
  -- it does not have are those of the directory.
  abbrev pub reloaded : ModelHandle E F X → RunDir B C F X → ModelHandle E F X
  reloaded handle dir = record {
    estimator = handle.estimator;
    backend_kind = handle.backend_kind;
    background = elim handle.background [ none ↦ dir.background | some rows ↦ some rows ];
    aci =
        loaded_aci bk handle.estimator
          (elim handle.aci [ none ↦ dir.aci | some aci ↦ some (calibration_of bk aci) ]);
  }

  -- The latest run is the one that was saved last, if its id is not empty and has no space at its
  -- ends.
  pub read_latest_run_id-save_full_state :
      (handle : ModelHandle E F X) (run_id : String) (hex : String) (disk : Disk B C F X)
      → run_id ≢ ""
      → bk.strip run_id ≡ run_id
      → read_latest_run_id bk (save_full_state bk handle (some run_id) hex disk) ≡ some run_id
  unfolding read_latest_run_id save_full_state
  read_latest_run_id-save_full_state handle run_id hex disk named stripped =
      ground (arith, str_eq_ne run_id "" named, stripped)
