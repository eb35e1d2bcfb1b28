-- ===== src/Flow/Overlay.antt =====
-- `_env_overlay` of deepCab/flow_v2/simulate.py: a block that runs under changed environment variables.
pub mod Restoring
use deep_cab.Prelude.{String, Bool, false, Option, none, some, List, [], ◌∷◌, if◌then◌else◌}
use deep_cab.Prelude.Dict.{Dict, lookup, insert, erase}
use deep_cab.Prelude.Exec.{Exec}

-- The process: its environment, whether its settings are cached, and what else it has.
pub record Process (S : Type 0) : Type 0 where
  pub env : Dict String
  pub cached : Bool
  pub rest : S

-- Values for environment variables; none deletes one.
abbrev pub Overrides : Type 0
Overrides = List (String × Option String)

unfoldable pub set_variable : String → Option String → Dict String → Dict String
set_variable k none env = erase k env
set_variable k (some v) env = insert k v env

unfoldable pub set_all : Overrides → Dict String → Dict String
unfolding set_variable
set_all [] env = env
set_all ((k, v) ∷ overrides) env = set_all overrides (set_variable k v env)

-- `{k: os.environ.get(k) for k in overrides}`
unfoldable pub previous : Overrides → Dict String → Overrides
previous [] env = []
previous ((k, _) ∷ overrides) env = (k, lookup k env) ∷ previous overrides env

module _ {S : Type 0} where
  -- Sets the variables, and clears the settings cache where that is asked for.
  abbrev pub enter : Overrides → Bool → Process S → Process S
  enter overrides clear p = record p {
    env = set_all overrides p.env;
    cached = if clear then false else p.cached;
  }

module _ {S A : Type 0} where
  -- The block under the overrides; the `finally` runs whether it returns or raises.
  unfoldable pub env_overlay : Overrides → Bool → Exec (Process S) A → Exec (Process S) A
  unfolding set_all previous
  env_overlay overrides clear block p =
      let before = previous overrides p.env in
      let (r, p') = block (enter overrides clear p) in (r, enter before clear p')
