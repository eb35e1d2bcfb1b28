-- ===== src/Explain/Cache.antt =====
-- The cache of deepCab/explain/cache.py: a Redis server where one is configured, and a local dict. The
-- Redis client and the computation of a summary are fields of `Backend`.
pub mod Lookups
use deep_cab.Prelude.{ℕ, String, ◌<>◌, Option, none, some, List, [], ◌∷◌}
use deep_cab.Prelude.Dict.{Dict, lookup, insert}
use deep_cab.Prelude.Exec.{Result, ok, raised, Exec}

pub record GlobalSummary (F : Type 0) : Type 0 where
  pub by_feature : Dict F
  pub n_background : ℕ
  pub fingerprint : String

-- What a Redis client does, with the blobs decoded: `get` raises on a blob that does not decode.
pub record Redis (F R : Type 0) : Type 0 where
  pub get : String → Exec R (Option (GlobalSummary F))
  pub set : String → GlobalSummary F → Exec R (Unit {0})

-- `_LOCAL_CACHE`, and the server.
pub record Caches (F R : Type 0) : Type 0 where
  pub local : Dict (GlobalSummary F)
  pub server : R

abbrev pub redis_key : String → String
redis_key fp = "deepcab:shap:summary:" <> fp

module _ {F : Type 0} where
  -- What the server has of a key: an exception counts as nothing.
  abbrev pub hit : Result (Option (GlobalSummary F)) → Option (GlobalSummary F)
  hit (ok found) = found
  hit (raised e) = none

  abbrev pub or_local :
      Option (GlobalSummary F) → Option (GlobalSummary F) → Option (GlobalSummary F)
  or_local none found = found
  or_local (some summary) found = some summary

module _ {F R : Type 0} (client : Option (Redis F R)) where
  -- `_get_cached`
  unfoldable pub get_cached : String → Caches F R → Option (GlobalSummary F) × Caches F R
  get_cached fp c = elim client [
    | none ↦ (lookup fp c.local, c)
    | some rc ↦
        let (r, server) = rc.get (redis_key fp) c.server in
        (or_local (hit r) (lookup fp c.local), record c { server = server })
  ]

  -- `_put_cached`
  unfoldable pub put_cached : String → GlobalSummary F → Caches F R → Caches F R
  put_cached fp summary c = elim client [
    | none ↦ record c { local = insert fp summary c.local }
    | some rc ↦
        let (r, server) = rc.set (redis_key fp) summary c.server in
        record { local = insert fp summary c.local; server = server }
  ]

  abbrev pub keep_or_compute :
      String
      → Result (GlobalSummary F)
      → Option (GlobalSummary F) × Caches F R
      → Result (GlobalSummary F) × Caches F R
  keep_or_compute fp computed (some summary, c) = (ok summary, c)
  keep_or_compute fp (ok summary) (none, c) = (ok summary, put_cached fp summary c)
  keep_or_compute fp (raised e) (none, c) = (raised e, c)

  -- `get_global_summary` of what has this fingerprint; `computed` is what `compute_global_summary` gives.
  unfoldable pub get_global_summary :
      String → Result (GlobalSummary F) → Caches F R → Result (GlobalSummary F) × Caches F R
  unfolding get_cached put_cached
  get_global_summary fp computed c = keep_or_compute fp computed (get_cached fp c)

  -- `clear_cache`
  abbrev pub clear_cache : Caches F R → Caches F R
  clear_cache c = record c { local = [] }
