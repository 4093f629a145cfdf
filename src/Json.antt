-- ===== src/Json.antt =====
-- The JSON library (nlohmann::json), as far as the server uses it: an interface of operations and of
-- what is documented of them. A read such as `contains` and `[]`, or `is_string` and `get`, is one
-- operation that gives an option. `type_error` is the message of the exception for a value that has not
-- the type that is asked for.
use jjmcp.Base.{ℕ, ◌≡◌, Bool, true, List, [], ◌∷◌, Option, none, some, if◌then◌else◌}
use jjmcp.Text.{Bytes, codes, ◌=ᵇ◌}
use jjmcp.Process.{Result, success, failure}

-- `int` and `long long`.
pub data ℤ : Type 0 where
  pos : ℕ → ℤ
  negsuc : ℕ → ℤ

-- The first pair of a key.
unfoldable pub lookup {ℓ} : {A : Type ℓ} → Bytes → List (Bytes × A) → Option A
lookup k [] = none
lookup k ((j, v) ∷ m) = if j =ᵇ k then some v else lookup k m

pub record Json : Type 1 where
  pub Value : Type 0
  pub null : Value
  pub string : Bytes → Value
  pub boolean : Bool → Value
  pub integer : ℤ → Value
  pub array : List Value → Value
  pub object : List (Bytes × Value) → Value
  pub is_null : Value → Bool
  pub is_object : Value → Bool
  pub find : Value → Bytes → Option Value
  pub as_string : Value → Option Bytes
  pub as_boolean : Value → Option Bool
  pub as_integer : Value → Option ℤ
  pub as_number : Value → Option ℤ
  pub type_error : Bytes → Value → Bytes
  pub is_object-object : (m : List (Bytes × Value)) → is_object (object m) ≡ true
  pub find-object : (m : List (Bytes × Value)) (k : Bytes) → find (object m) k ≡ lookup k m
  pub as_string-string : (s : Bytes) → as_string (string s) ≡ some s
  pub as_boolean-boolean : (b : Bool) → as_boolean (boolean b) ≡ some b
  pub as_integer-integer : (i : ℤ) → as_integer (integer i) ≡ some i
  pub as_number-integer : (i : ℤ) → as_number (integer i) ≡ some i

module _ (json : Json) where
  open json use {Value, find, as_string, as_boolean, as_number, type_error}

  -- `doc.value(key, fallback)` of an object: it throws where the value has another type.
  unfoldable pub value_string : Value → Bytes → Bytes → Result Bytes
  value_string doc key fallback = elim (find doc key) [
    | none ↦ success fallback
    | some v ↦ elim (as_string v) [
      | none ↦ failure (type_error (codes "string") v)
      | some s ↦ success s
    ]
  ]

  unfoldable pub value_boolean : Value → Bytes → Bool → Result Bool
  value_boolean doc key fallback = elim (find doc key) [
    | none ↦ success fallback
    | some v ↦ elim (as_boolean v) [
      | none ↦ failure (type_error (codes "boolean") v)
      | some b ↦ success b
    ]
  ]

  -- `get<long long>` takes any number, an integer or not.
  unfoldable pub value_number : Value → Bytes → ℤ → Result ℤ
  value_number doc key fallback = elim (find doc key) [
    | none ↦ success fallback
    | some v ↦ elim (as_number v) [
      | none ↦ failure (type_error (codes "number") v)
      | some i ↦ success i
    ]
  ]

  -- `doc.contains(key) && doc[key].is_string()`, and then `doc[key]` as a string.
  unfoldable pub string_at : Value → Bytes → Option Bytes
  string_at doc key = elim (find doc key) [ none ↦ none | some v ↦ as_string v ]

  unfoldable pub boolean_at : Value → Bytes → Option Bool
  boolean_at doc key = elim (find doc key) [ none ↦ none | some v ↦ as_boolean v ]
