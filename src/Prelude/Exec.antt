-- ===== src/Prelude/Exec.antt =====
-- A method that changes an object and may raise. What was written before a raise stays written, so
-- the state comes back beside the error too.
use Prim.Native.String.{String}
use mathlib.Core.Path.{◌≡◌, refl}
use mathlib.Core.Logic.{◌⊎◌, inl, inr}

pub data Result {ℓ} (A : Type ℓ) : Type ℓ where
  ok : A → Result A
  raised : String → Result A

abbrev pub Exec {ℓ} : Type ℓ → Type ℓ → Type ℓ
Exec S A = S → Result A × S

module _ {ℓ} {S A : Type ℓ} where
  abbrev pub gets : (S → A) → Exec S A
  gets look now = (ok (look now), now)

  abbrev pub raise : String → Exec S A
  raise text now = (raised text, now)

  abbrev pub pure : A → Exec S A
  pure value now = (ok value, now)

  -- A call that may raise and changes nothing.
  abbrev pub lift : Result A → Exec S A
  lift answer now = (answer, now)

module _ {ℓ} {S A B : Type ℓ} where
  -- The rest of a method, unless the call before it raised.
  abbrev pub continue : Result A → (A → Exec S B) → Exec S B
  continue (raised text) rest now = (raised text, now)
  continue (ok value) rest now = rest value now

  infixl 5 ◌>>=◌ ◌>>◌
  abbrev pub ◌>>=◌ : Exec S A → (A → Exec S B) → Exec S B
  ◌>>=◌ first rest now = let (answer, later) = first now in continue answer rest later

  abbrev pub ◌>>◌ : Exec S A → Exec S B → Exec S B
  first >> second = first >>= λ _. second

-- To split on a call's outcome and keep the equation.
pub Result-cases {ℓ} :
    {A : Type ℓ} (r : Result A) → ((a : A) × (r ≡ ok a)) ⊎ ((e : String) × (r ≡ raised e))
Result-cases (ok a) = inl (a, refl)
Result-cases (raised e) = inr (e, refl)

pub ok-injective {ℓ} : {A : Type ℓ} (a b : A) → ok a ≡ ok b → a ≡ b
ok-injective a b h = cc h
