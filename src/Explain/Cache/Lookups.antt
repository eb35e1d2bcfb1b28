-- ===== src/Explain/Cache/Lookups.antt =====
-- What deepCab/explain/cache.py answers.
use deep_cab.Prelude.{String, Option, none, some, ◌≡◌, ◌⊎◌, arith}
use deep_cab.Prelude.Dict.{lookup-insert_self}
use deep_cab.Prelude.Exec.{Result, ok}
use deep_cab.Explain.Cache.{
  GlobalSummary, Redis, Caches, redis_key, hit, get_cached, put_cached, get_global_summary,
}

module _ {F R : Type 0} where
  -- A server that has, under a key, nothing but this summary, if it has anything.
  abbrev pub HasOnly : Option (Redis F R) → String → GlobalSummary F → Caches F R → Type 0
  HasOnly none fp summary c = Unit
  HasOnly (some rc) fp summary c =
      (hit (rc.get (redis_key fp) c.server).0 ≡ none)
      ⊎ (hit (rc.get (redis_key fp) c.server).0 ≡ some summary)

  -- After a summary was computed for a fingerprint, the next request for it gets the same one without
  -- another computation, also while the server cannot be reached or has dropped the key, if the server
  -- has no other summary under it.
  pub get_global_summary_again :
      (client : Option (Redis F R)) (fp : String) (again : Result (GlobalSummary F))
      (summary : GlobalSummary F) (c : Caches F R)
      → (get_cached client fp c).0 ≡ none
      → HasOnly client fp summary (get_global_summary client fp (ok summary) c).1
      → (get_global_summary client fp again (get_global_summary client fp (ok summary) c).1).0
        ≡ ok summary
  unfolding get_global_summary get_cached put_cached
  get_global_summary_again none fp again summary c miss has =
      ground (arith, miss, lookup-insert_self fp summary c.local)
  get_global_summary_again (some rc) fp again summary c miss has =
      ground (arith, miss, has, lookup-insert_self fp summary c.local)
