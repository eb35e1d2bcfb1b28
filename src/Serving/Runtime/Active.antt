-- ===== src/Serving/Runtime/Active.antt =====
-- Which runtime of deepCab/serving/runtime.py answers.
use deep_cab.Prelude.{
  String, true, some, List, [], ◌∷◌, ◌≡◌, ◌≢◌, arith, inl, inr, str_eq_ne, Option-cases, Bool-cases,
}
use deep_cab.Prelude.Dict.{lookup, insert, contains, lookup-insert, lookup-insert_self}
use deep_cab.Serving.Runtime.{
  RuntimeRegistry, empty_registry, register, activate, active, Call, registers, activates,
  after_call, after_calls,
}

module _ {R : Type 0} where
  -- The active key, if there is one, has a runtime.
  abbrev pub IsServing : RuntimeRegistry R → Type 0
  IsServing r = (key : String) → r.active_key ≡ some key → contains key r.runtimes ≡ true

  contains-insert :
      (k j : String) (v : R) (d : List (String × R))
      → contains j d ≡ true
      → contains j (insert k v d) ≡ true
  contains-insert k j v d h = ground (arith, h, lookup-insert k j v d)

  contains-insert_self :
      (k : String) (v : R) (d : List (String × R)) → contains k (insert k v d) ≡ true
  contains-insert_self k v d = ground (arith, lookup-insert_self k v d)

  after_call-IsServing :
      (c : Call R) (r : RuntimeRegistry R) → IsServing r → IsServing (after_call c r)
  unfolding register activate
  after_call-IsServing (registers k v) r h key e = elim (Option-cases r.active_key) [
    | inl free ↦ ground (arith, e, free, contains-insert_self k v r.runtimes)
    | inr (j, taken) ↦ ground (arith, e, taken, h j taken, contains-insert k j v r.runtimes)
  ]
  after_call-IsServing (activates k) r h key e = elim (Bool-cases (contains k r.runtimes)) [
    | inl known ↦ ground (arith, e, known)
    | inr unknown ↦ ground (arith, e, unknown, h key)
  ]

  after_calls-IsServing :
      (calls : List (Call R)) (r : RuntimeRegistry R)
      → IsServing r
      → IsServing (after_calls calls r)
  unfolding after_calls
  after_calls-IsServing [] r h = h
  after_calls-IsServing (c ∷ calls) r h =
      after_calls-IsServing calls (after_call c r) (after_call-IsServing c r h)

  -- After any calls, an active key that is not empty has a runtime, so `active` answers with one.
  pub active-after_calls :
      (calls : List (Call R)) (key : String)
      → (after_calls calls empty_registry).active_key ≡ some key
      → key ≢ ""
      → (runtime : R) × (active (after_calls calls empty_registry) ≡ some runtime)
  unfolding active
  active-after_calls calls key e named =
      let r = after_calls calls empty_registry in
      let known = after_calls-IsServing calls empty_registry (λ k e'. ground (arith, e')) key e in
      elim (Option-cases (lookup key r.runtimes)) [
        | inl missing ↦ absurd (ground (arith, known, missing))
        | inr (runtime, found) ↦ (runtime, ground (arith, e, found, str_eq_ne key "" named))
      ]
