-- ===== src/Redact.antt =====
-- internal/redact/json.go: masking the sensitive fields of a JSON document and bounding the result.
-- `normalized_key` (letters and digits, lower case), decoding and encoding are the Go library's.
pub mod Bounds
pub mod Masking
use hookfly.Base.{
  ℕ, ◌-◌, String, Bool, true, false, not, ◌&&◌, ◌||◌, Option, none, some, List, [], ◌∷◌, ◌++◌, ltb,
  leb, ◌==◌, if◌then◌else◌, length, take, str_eq, any,
}
use hookfly.Domain.{Bytes}

mutual
  pub data Value : Type 0 where
    null : Value
    bool : Bool → Value
    number : String → Value
    text : String → Value
    array : Items → Value
    object : Fields → Value

  pub data Items : Type 0 where
    nil : Items
    cons : Value → Items → Items

  pub data Fields : Type 0 where
    end : Fields
    field : String → Value → Fields → Fields

abbrev pub redacted : Value
redacted = text "[REDACTED]"

abbrev pub sensitive_key_parts : List String
sensitive_key_parts =
    "token" ∷ "secret" ∷ "authorization" ∷ "apikey" ∷ "password" ∷ "privatekey" ∷ []

-- The path runs from the root; `append` adds at its end.
abbrev pub gitlab_variable_path : List String → Bool
gitlab_variable_path (a ∷ b ∷ []) = str_eq a "objectattributes" && str_eq b "variables"
gitlab_variable_path _ = false

module _ (normalized_key : String → String) (contains : String → String → Bool) where
  unfoldable pub sensitive_key : String → Bool
  sensitive_key normalized = any (contains normalized) sensitive_key_parts

  -- The test of `mask` at a key below a path.
  unfoldable pub is_masked : List String → String → Bool
  is_masked path key =
      sensitive_key (normalized_key key)
      || (str_eq (normalized_key key) "value" && gitlab_variable_path path)

  unfoldable mutual
    pub mask : Value → List String → Value
    mask null path = null
    mask (bool b) path = bool b
    mask (number n) path = number n
    mask (text s) path = text s
    mask (array xs) path = array (mask_items xs path)
    mask (object fs) path = object (mask_fields fs path)

    pub mask_items : Items → List String → Items
    mask_items nil path = nil
    mask_items (cons x xs) path = cons (mask x path) (mask_items xs path)

    pub mask_fields : Fields → List String → Fields
    mask_fields end path = end
    mask_fields (field k v fs) path =
        field k (if is_masked path k then redacted else mask v (path ++ normalized_key k ∷ []))
          (mask_fields fs path)

-- `replace_all` is `strings.ReplaceAll` with "[REDACTED]".
module _ (replace_all : String → String → String) where
  -- `maskSecret` with a secret that is not empty: texts and keys lose it. A Go map keeps one of two keys
  -- that this makes equal; here both fields stay.
  unfoldable mutual
    pub mask_secret : Value → String → Value
    mask_secret null secret = null
    mask_secret (bool b) secret = bool b
    mask_secret (number n) secret = number n
    mask_secret (text s) secret = text (replace_all s secret)
    mask_secret (array xs) secret = array (mask_secret_items xs secret)
    mask_secret (object fs) secret = object (mask_secret_fields fs secret)

    pub mask_secret_items : Items → String → Items
    mask_secret_items nil secret = nil
    mask_secret_items (cons x xs) secret = cons (mask_secret x secret) (mask_secret_items xs secret)

    pub mask_secret_fields : Fields → String → Fields
    mask_secret_fields end secret = end
    mask_secret_fields (field k v fs) secret =
        field (replace_all k secret) (mask_secret v secret) (mask_secret_fields fs secret)

-- `...[truncated]`
abbrev pub text_marker : Bytes
text_marker = 46 ∷ 46 ∷ 46 ∷ 91 ∷ 116 ∷ 114 ∷ 117 ∷ 110 ∷ 99 ∷ 97 ∷ 116 ∷ 101 ∷ 100 ∷ 93 ∷ []

unfoldable pub bounded_text : Bytes → ℕ → Bytes
bounded_text input limit =
    if leb limit (length text_marker)
    then take limit text_marker
    else take (limit - length text_marker) input ++ text_marker

-- `{"truncated":true}`
abbrev pub json_marker : Bytes
json_marker =
    123 ∷ 34 ∷ 116 ∷ 114 ∷ 117 ∷ 110 ∷ 99 ∷ 97 ∷ 116 ∷ 101 ∷ 100 ∷ 34 ∷ 58 ∷ 116 ∷ 114 ∷ 117 ∷ 101
    ∷ 125 ∷ []

unfoldable pub bounded_json_marker : ℕ → Bytes
bounded_json_marker limit =
    if leb (length json_marker) limit
    then json_marker
    else (if leb 4 limit
        then 110 ∷ 117 ∷ 108 ∷ 108 ∷ []
        else (if leb 2 limit then 91 ∷ 93 ∷ [] else 48 ∷ []))

module _ (replace_bytes : Bytes → String → Bytes) where
  -- What is kept of an input that is not one JSON value.
  unfoldable pub redact_text : Bytes → String → ℕ → Bytes × Bool
  redact_text input secret limit =
      let cleaned = if str_eq secret "" then input else replace_bytes input secret in
      if leb (length cleaned) limit then (cleaned, false) else (bounded_text cleaned limit, true)

abbrev pub bound_json : Bytes → Bytes → ℕ → Bytes × Bool
bound_json input masked limit =
    if leb (length masked) limit
    then (masked, ltb limit (length input) || ltb limit (length masked))
    else (bounded_json_marker limit, true)

module _ (normalized_key : String → String) (contains : String → String → Bool)
    (replace_all : String → String → String) where
  abbrev pub masked_value : Value → String → Value
  masked_value v secret =
      let m = mask normalized_key contains v [] in
      if str_eq secret "" then m else mask_secret replace_all m secret

-- `decode` is the one JSON value that the input holds, if it is one; `encode` may fail.
module _ (normalized_key : String → String) (contains : String → String → Bool)
    (replace_all : String → String → String) (replace_bytes : Bytes → String → Bytes)
    (decode : Bytes → Option Value) (encode : Value → Option Bytes) where
  -- `JSONWithSecret`: the output, and whether it was truncated.
  unfoldable pub json_with_secret : Bytes → String → ℕ → Bytes × Bool
  json_with_secret input secret limit =
      if limit == 0 then ([], ltb 0 (length input)) else elim (decode input) [
        | none ↦ redact_text replace_bytes input secret limit
        | some v ↦ elim (encode (masked_value normalized_key contains replace_all v secret)) [
          | none ↦ redact_text replace_bytes input secret limit
          | some masked ↦ bound_json input masked limit
        ]
      ]
