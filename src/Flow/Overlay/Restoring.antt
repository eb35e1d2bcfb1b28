-- ===== src/Flow/Overlay/Restoring.antt =====
-- What `_env_overlay` of deepCab/flow_v2/simulate.py leaves of the environment.
use deep_cab.Prelude.{
  String, Bool, true, false, Option, none, some, [], ◌∷◌, ◌≡◌, ◌⊎◌, inl, inr, refl, arith, str_eq,
  eq_iff, if◌then◌else◌, Bool-cases, ◌||◌,
}
use deep_cab.Prelude.Dict.{Dict, lookup, lookup-insert, lookup-erase}
use deep_cab.Prelude.Exec.{Exec}
use deep_cab.Flow.Overlay.{Process, Overrides, set_variable, set_all, previous, enter, env_overlay}

-- Whether a variable is among the overrides.
abbrev pub listed : String → Overrides → Bool
listed k [] = false
listed k ((j, _) ∷ overrides) = str_eq j k || listed k overrides

lookup-set_variable :
    (k j : String) (v : Option String) (env : Dict String)
    → lookup j (set_variable k v env) ≡ (if str_eq k j then v else lookup j env)
unfolding set_variable
lookup-set_variable k j none env = lookup-erase k j env
lookup-set_variable k j (some v) env = lookup-insert k j v env

listed-previous :
    (k : String) (overrides : Overrides) (env : Dict String)
    → listed k (previous overrides env) ≡ listed k overrides
unfolding previous
listed-previous k [] env = refl
listed-previous k ((j, v) ∷ overrides) env = ground (arith, listed-previous k overrides env)

-- A variable that is not listed is not written.
lookup-set_all :
    (k : String) (overrides : Overrides) (env : Dict String)
    → listed k overrides ≡ false
    → lookup k (set_all overrides env) ≡ lookup k env
unfolding set_all
lookup-set_all k [] env h = refl
lookup-set_all k ((j, v) ∷ overrides) env h =
    ground
      (arith, h, lookup-set_all k overrides (set_variable j v env), lookup-set_variable j k v env)

-- Writing back the values of `old`, over an environment that has drifted from it.
lookup-set_back :
    (k : String) (overrides : Overrides) (old env : Dict String)
    → (listed k overrides ≡ true) ⊎ (lookup k env ≡ lookup k old)
    → lookup k (set_all (previous overrides old) env) ≡ lookup k old
unfolding set_all previous
lookup-set_back k [] old env (inr h) = h
lookup-set_back k [] old env (inl h) = ground (arith, h)
lookup-set_back k ((j, v) ∷ overrides) old env h = elim (Bool-cases (str_eq j k)) [
  | inl here ↦
      lookup-set_back k overrides old (set_variable j (lookup j old) env)
        (inr (ground (arith, here, eq_iff j k, lookup-set_variable j k (lookup j old) env)))
  | inr there ↦
      lookup-set_back k overrides old (set_variable j (lookup j old) env)
        (ground (arith, there, h, lookup-set_variable j k (lookup j old) env))
]

module _ {S A : Type 0} where
  -- After the block, returned or raised, every variable that was overridden has the value from before, or
  -- none if it had none; every other variable has the value that the block left.
  pub env_overlay-restores :
      (overrides : Overrides) (clear : Bool) (block : Exec (Process S) A) (p : Process S)
      (k : String)
      → lookup k (env_overlay overrides clear block p).1.env ≡ (
          if listed k overrides
          then lookup k p.env
          else lookup k
              (block (record p {
                env = set_all overrides p.env;
                cached = if clear then false else p.cached;
              })).1.env)
  unfolding env_overlay
  env_overlay-restores overrides clear block p k =
      let left = (block (enter overrides clear p)).1.env in
      elim (Bool-cases (listed k overrides)) [
        | inl named ↦ ground (arith, named, lookup-set_back k overrides p.env left (inl named))
        | inr free ↦ ground (
          arith,
          free,
          listed-previous k overrides p.env,
          lookup-set_all k (previous overrides p.env) left,
        )
      ]
