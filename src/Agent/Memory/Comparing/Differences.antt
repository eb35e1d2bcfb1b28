-- ===== src/Agent/Memory/Comparing/Differences.antt =====
-- Which keys the comparison of deepCab/agent/memory.py shows.
use deep_cab.Prelude.{ℕ, String, Bool, Option, none, some, List, if◌then◌else◌}
use deep_cab.Prelude.Dict.{Dict}
use deep_cab.Agent.Memory.Comparing.{numbered, all_same, values_at}

module _ {V : Type 0} where
  module _ (show_ℕ : ℕ → String) (same : V → V → Bool) where
    abbrev pub row_at : String → List (Dict V) → Option (Dict (Option V))
    row_at k dicts =
        if all_same same (values_at k dicts)
        then none
        else some (numbered show_ℕ 0 (values_at k dicts))
