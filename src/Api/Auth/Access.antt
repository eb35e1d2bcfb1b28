-- ===== src/Api/Auth/Access.antt =====
-- Who passes `api_key_guard` of deepCab/api/deps.py.
use deep_cab.Prelude.{
  String, true, false, Option, none, some, ◌≡◌, ◌⊎◌, inl, inr, refl, arith, eq_iff, Bool-cases,
}
use deep_cab.Schemas.Settings.{truthy}
use deep_cab.Api.Auth.{passes, expected_key, same_key, api_key_guard}

same_key-≡ : (a b : Option String) → same_key a b ≡ true → a ≡ b
same_key-≡ none none h = refl
same_key-≡ none (some b) h = ground (arith, h)
same_key-≡ (some a) none h = ground (arith, h)
same_key-≡ (some a) (some b) h = ground (arith, h, eq_iff a b)

-- Where one of the two keys is configured, only a request that carries a key passes, and that key is the
-- service's own if it has one, and that of OpenAI if not.
pub api_key_guard_key :
    (api_key openai_key x_api_key : Option String)
    → (truthy api_key ≡ true) ⊎ (truthy openai_key ≡ true)
    → api_key_guard api_key openai_key x_api_key ≡ passes tt
    → (x_api_key ≡ api_key) × (truthy api_key ≡ true)
      ⊎ (x_api_key ≡ openai_key) × (truthy openai_key ≡ true) × (truthy api_key ≡ false)
unfolding api_key_guard expected_key
api_key_guard_key api_key openai_key x_api_key guarded passed = elim (Bool-cases (truthy api_key)) [
  | inl own ↦ elim (Bool-cases (same_key x_api_key api_key)) [
    | inl same ↦ inl (same_key-≡ x_api_key api_key same, own)
    | inr other ↦ absurd (ground (arith, own, other, passed))
  ]
  | inr none_own ↦ elim (Bool-cases (same_key x_api_key openai_key)) [
    | inl same ↦
        inr (same_key-≡ x_api_key openai_key same, ground (arith, guarded, none_own), none_own)
    | inr other ↦ absurd (ground (arith, none_own, other, passed, guarded))
  ]
]
