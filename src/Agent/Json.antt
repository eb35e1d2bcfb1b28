-- ===== src/Agent/Json.antt =====
-- JSON values, the dynamic data of the agent: tool arguments and results, and event payloads. Numbers
-- are floats; an object keeps the order of its keys.
use deep_cab.Prelude.{
  String, Bool, true, false, not, Option, none, some, str_eq, find?, ◌||◌, if◌then◌else◌,
}
use deep_cab.Prelude.Floats.{FloatOps}
use deep_cab.Prelude.Exec.{Result, ok, raised}

mutual
  pub data Json (F : Type 0) : Type 0 where
    null : Json F
    boolean : Bool → Json F
    num : F → Json F
    str : String → Json F
    arr : Items F → Json F
    obj : Fields F → Json F

  pub data Items (F : Type 0) : Type 0 where
    nil : Items F
    cons : Json F → Items F → Items F

  pub data Fields (F : Type 0) : Type 0 where
    end : Fields F
    field : String → Json F → Fields F → Fields F

module _ {F : Type 0} where
  -- `d.get(key)`
  unfoldable pub get : String → Fields F → Option (Json F)
  get key end = none
  get key (field k v rest) = if str_eq k key then some v else get key rest

  -- `key in d`
  abbrev pub has : String → Fields F → Bool
  has key d = elim (get key d) [ none ↦ false | some _ ↦ true ]

  -- `d.get(key)` of an optional key, where a missing one is None
  abbrev pub or_null : Option (Json F) → Json F
  or_null none = null
  or_null (some v) = v

module _ {F : Type 0} where
  abbrev pub is_text : String → Json F → Bool
  is_text key (str text) = str_eq text key
  is_text key _ = false

  -- `key in items`
  unfoldable pub has_item : String → Items F → Bool
  has_item key nil = false
  has_item key (cons item items) = is_text key item || has_item key items

  -- `key in value`: among the keys of an object or the items of a list, or as a part of a text.
  unfoldable pub within : String → Json F → Result Bool
  unfolding has_item
  within key (obj fields) = ok (has key fields)
  within key (arr items) = ok (has_item key items)
  within key (str text) = ok (elim (find? text key) [ none ↦ false | some _ ↦ true ])
  within key _ = raised "TypeError"

module _ {F : Type 0} (fl : FloatOps F) where
  -- The truth value of a value.
  abbrev pub is_true : Json F → Bool
  is_true null = false
  is_true (boolean b) = b
  is_true (num x) = not (fl.eq x (fl.of_ℕ 0))
  is_true (str text) = not (str_eq text "")
  is_true (arr nil) = false
  is_true (arr (cons _ _)) = true
  is_true (obj end) = false
  is_true (obj (field _ _ _)) = true

  abbrev pub parsed : Option F → Result F
  parsed none = raised "ValueError"
  parsed (some x) = ok x

  -- `float(value)`
  abbrev pub to_float : Json F → Result F
  to_float (boolean b) = ok (if b then fl.of_ℕ 1 else fl.of_ℕ 0)
  to_float (num x) = ok x
  to_float (str text) = parsed (fl.parse text)
  to_float _ = raised "TypeError"
