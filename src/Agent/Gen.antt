-- ===== src/Agent/Gen.antt =====
-- Generators that share mutable state with the loop that drives them. A step returns, raises, or finds
-- that the driving loop has left, which closes the generator; the state comes back in each case.
use deep_cab.Prelude.{String, ◌≡◌, refl, Bool, true, false, if◌then◌else◌}
use deep_cab.Prelude.Exec.{Result, ok, raised}

pub data Outcome (A : Type 0) : Type 0 where
  returned : A → Outcome A
  closed : Outcome A
  failed : String → Outcome A

abbrev pub outcome_of : {A : Type 0} → Result A → Outcome A
outcome_of (ok a) = returned a
outcome_of (raised e) = failed e

abbrev pub Gen : Type 0 → Type 0 → Type 0
Gen S A = S → Outcome A × S

module _ {S A : Type 0} where
  -- What a step gives without touching the state.
  abbrev pub lift : Result A → Gen S A
  lift answer now = (outcome_of answer, now)

  abbrev pub gets : (S → A) → Gen S A
  gets look now = (returned (look now), now)

  abbrev pub close : Gen S A
  close now = (closed, now)

  abbrev pub pure : A → Gen S A
  pure value now = (returned value, now)

  abbrev pub raise : String → Gen S A
  raise text now = (failed text, now)

module _ {S : Type 0} where
  abbrev pub modify : (S → S) → Gen S (Unit {0})
  modify f s = (returned tt, f s)

module _ {S A B : Type 0} where
  -- The rest of a block, unless the step before it ended the generator.
  abbrev pub go_on : Outcome A → (A → Gen S B) → Gen S B
  go_on (failed text) rest now = (failed text, now)
  go_on closed rest now = (closed, now)
  go_on (returned value) rest now = rest value now

  infixl 5 ◌>>=◌ ◌>>◌
  unfoldable pub ◌>>=◌ : Gen S A → (A → Gen S B) → Gen S B
  ◌>>=◌ first rest now = let (outcome, later) = first now in go_on outcome rest later

  abbrev pub ◌>>◌ : Gen S A → Gen S B → Gen S B
  first >> second = first >>= λ _. second

-- However a step ends, the predicate that held of the state before it holds of the state after it.
pub record Keeps {S A : Type 0} (Inv : S → Type 0) (step : Gen S A) : Type 0 where
  pub kept : (now : S) → Inv now → Inv (step now).1

module _ {S : Type 0} {Inv : S → Type 0} where
  module _ {A : Type 0} where
    -- A step that leaves the state alone.
    pub Keeps-close : Keeps {A = A} Inv close
    Keeps-close = record { kept = λ now holds. holds }

    pub Keeps-lift : (answer : Result A) → Keeps Inv (lift answer)
    Keeps-lift answer = record { kept = λ now holds. holds }

    pub Keeps-raise : (text : String) → Keeps {A = A} Inv (raise text)
    Keeps-raise text = record { kept = λ now holds. holds }

    pub Keeps-pure : (value : A) → Keeps Inv (pure value)
    Keeps-pure value = record { kept = λ now holds. holds }

    pub Keeps-gets : (look : S → A) → Keeps Inv (gets look)
    Keeps-gets look = record { kept = λ now holds. holds }

    -- A branch may use the test's outcome.
    pub Keeps-if :
        (test : Bool) (taken other : Gen S A)
        → (test ≡ true → Keeps Inv taken)
        → (test ≡ false → Keeps Inv other)
        → Keeps Inv (if test then taken else other)
    Keeps-if false taken other left right = right refl
    Keeps-if true taken other left right = left refl

  module _ {A B : Type 0} (rest : A → Gen S B) (each : (value : A) → Keeps Inv (rest value)) where
    go_on-Keeps : (outcome : Outcome A) (now : S) → Inv now → Inv (go_on outcome rest now).1
    go_on-Keeps (failed text) now holds = holds
    go_on-Keeps closed now holds = holds
    go_on-Keeps (returned value) now holds = (each value).kept now holds

  pub Keeps-bind :
      {A B : Type 0} (first : Gen S A) (rest : A → Gen S B)
      → Keeps Inv first
      → ((value : A) → Keeps Inv (rest value))
      → Keeps Inv (first >>= rest)
  unfolding ◌>>=◌
  Keeps-bind first rest keep each = record {
    kept = λ now holds. go_on-Keeps rest each (first now).0 (first now).1 (keep.kept now holds);
  }

pub ruleset keeps_rules =
    (Keeps-bind, Keeps-if, Keeps-gets, Keeps-pure, Keeps-lift, Keeps-raise, Keeps-close)

-- What holds of a step that returned.
abbrev pub Holds : {S A : Type 0} → (A → S → Type 0) → Outcome A → S → Type 0
Holds Q (returned a) s = Q a s
Holds Q closed s = Unit
Holds Q (failed e) s = Unit

-- From a state with `P`, if `m` returns `a`, the state has `Q a`.
pub record Meets {S A : Type 0} (P : S → Type 0) (m : Gen S A) (Q : A → S → Type 0) : Type 0 where
  pub from : (s : S) → P s → Holds Q (m s).0 (m s).1

module _ {S A : Type 0} where
  pub Holds-kept : (P : S → Type 0) (r : Outcome A) (s : S) → P s → Holds (λ _ s'. P s') r s
  Holds-kept P (returned a) s h = h
  Holds-kept P closed s h = tt
  Holds-kept P (failed e) s h = tt

  pub Meets-Keeps : {P : S → Type 0} {m : Gen S A} → Keeps P m → Meets P m (λ _ s. P s)
  Meets-Keeps {P} {m} k = record { from = λ s h. Holds-kept P (m s).0 (m s).1 (k.kept s h) }

  pub Meets-pure :
      {P : S → Type 0} {Q : A → S → Type 0} (a : A) → ((s : S) → P s → Q a s) → Meets P (pure a) Q
  Meets-pure a h = record { from = h }

module _ {S A B : Type 0} where
  Holds-go_on :
      (Q : A → S → Type 0) (R : B → S → Type 0) (f : A → Gen S B)
      → ((a : A) → Meets (Q a) (f a) R)
      → (r : Outcome A) (s : S) → Holds Q r s
      → Holds R (go_on r f s).0 (go_on r f s).1
  Holds-go_on Q R f mf (returned a) s h = (mf a).from s h
  Holds-go_on Q R f mf closed s h = tt
  Holds-go_on Q R f mf (failed e) s h = tt

  pub Meets-bind :
      {P : S → Type 0} (Q : A → S → Type 0) {R : B → S → Type 0} (m : Gen S A) (f : A → Gen S B)
      → Meets P m Q
      → ((a : A) → Meets (Q a) (f a) R)
      → Meets P (m >>= f) R
  unfolding ◌>>=◌
  Meets-bind Q {R} m f mm mf = record {
    from = λ s h. Holds-go_on Q R f mf (m s).0 (m s).1 (mm.from s h);
  }

module _ {S A : Type 0} where
  pub Meets-if :
      {P : S → Type 0} {Q : A → S → Type 0} (b : Bool) (m n : Gen S A)
      → Meets P m Q
      → Meets P n Q
      → Meets P (if b then m else n) Q
  Meets-if true m n km kn = km
  Meets-if false m n km kn = kn

  pub Holds-pair :
      (Q R : A → S → Type 0) (r : Outcome A) (s : S)
      → Holds Q r s
      → Holds R r s
      → Holds (λ a s'. Q a s' × R a s') r s
  Holds-pair Q R (returned a) s h k = (h, k)
  Holds-pair Q R closed s h k = tt
  Holds-pair Q R (failed e) s h k = tt

  pub Holds-map :
      (Q R : A → S → Type 0)
      → ((a : A) (s : S) → Q a s → R a s)
      → (r : Outcome A) (s : S) → Holds Q r s
      → Holds R r s
  Holds-map Q R f (returned a) s h = f a s h
  Holds-map Q R f closed s h = tt
  Holds-map Q R f (failed e) s h = tt
