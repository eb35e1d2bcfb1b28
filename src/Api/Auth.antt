-- ===== src/Api/Auth.antt =====
-- `api_key_guard` and `get_model_handle` of deepCab/api/deps.py.
pub mod Access
use deep_cab.Prelude.{
  String, Bool, true, false, not, ◌&&◌, Option, none, some, str_eq, if◌then◌else◌,
}
use deep_cab.Schemas.Settings.{truthy, text_or}

-- A request goes on, or ends with an HTTP status.
pub data Guard (A : Type 0) : Type 0 where
  passes : A → Guard A
  forbidden service_unavailable : Guard A

-- The key that the guard wants: the service's own, or that of OpenAI in its place.
unfoldable pub expected_key : Option String → Option String → Option String
expected_key api_key openai_key =
    if not (truthy api_key) && truthy openai_key then openai_key else api_key

-- `a == b` on optional texts
abbrev pub same_key : Option String → Option String → Bool
same_key none none = true
same_key (some a) (some b) = str_eq a b
same_key _ _ = false

-- `api_key_guard`, of the two configured keys and the request's `X-API-Key`
unfoldable pub api_key_guard : Option String → Option String → Option String → Guard (Unit {0})
unfolding expected_key
api_key_guard api_key openai_key x_api_key =
    let expected = expected_key api_key openai_key in
    if not (truthy expected)
    then passes tt
    else if not (same_key x_api_key expected)
    then forbidden
    else passes tt

-- `get_model_handle`
unfoldable pub get_model_handle : {M : Type 0} → Option M → Guard M
get_model_handle none = service_unavailable
get_model_handle (some model) = passes model
