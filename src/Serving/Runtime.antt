-- ===== src/Serving/Runtime.antt =====
-- `RuntimeRegistry` of deepCab/serving/runtime.py. Each method holds one lock from its first line to its
-- last, so calls of several threads are a sequence of whole calls.
pub mod Active
use deep_cab.Prelude.{
  String, ◌<>◌, Bool, true, false, Option, none, some, List, [], ◌∷◌, map, if◌then◌else◌,
}
use deep_cab.Prelude.Dict.{Dict, lookup, insert, contains}
use deep_cab.Prelude.Exec.{Result, ok, raised, Exec}
use deep_cab.Schemas.Settings.{truthy, text_or}

pub record RuntimeRegistry (R : Type 0) : Type 0 where
  pub runtimes : Dict R
  pub active_key : Option String

module _ {R : Type 0} where
  -- `__init__`
  abbrev pub empty_registry : RuntimeRegistry R
  empty_registry = record { runtimes = []; active_key = none }

  -- `register`
  unfoldable pub register : String → R → RuntimeRegistry R → RuntimeRegistry R
  register key runtime r = record {
    runtimes = insert key runtime r.runtimes;
    active_key = elim r.active_key [ none ↦ some key | some k ↦ some k ];
  }

  -- `activate`
  unfoldable pub activate : String → Exec (RuntimeRegistry R) (Unit {0})
  activate key r =
      if contains key r.runtimes
      then (ok tt, record r { active_key = some key })
      else (raised "KeyError", r)

  -- `active`
  unfoldable pub active : RuntimeRegistry R → Option R
  active r = if truthy r.active_key then lookup (text_or "" r.active_key) r.runtimes else none

  -- `keys`
  abbrev pub keys : RuntimeRegistry R → List String
  keys r = map (λ (entry : String × R). entry.0) r.runtimes

-- The calls that change the registry.
pub data Call (R : Type 0) : Type 0 where
  registers : String → R → Call R
  activates : String → Call R

module _ {R : Type 0} where
  abbrev pub after_call : Call R → RuntimeRegistry R → RuntimeRegistry R
  after_call (registers key runtime) r = register key runtime r
  after_call (activates key) r = (activate key r).1

  -- The registry after these calls, the first one first; a call that raises leaves it.
  unfoldable pub after_calls : List (Call R) → RuntimeRegistry R → RuntimeRegistry R
  after_calls [] r = r
  after_calls (c ∷ calls) r = after_calls calls (after_call c r)
