-- ===== src/Webhook/Provider.antt =====
-- internal/provider/provider.go, and how the adapters read a decoded payload. What Go's library
-- computes on texts, numbers, signatures and JSON is a record of functions.
use hookfly.Base.{
  Int64, int, String, Bool, true, false, Option, none, some, List, [], ◌∷◌, ltb, if◌then◌else◌,
  str_eq,
}
use hookfly.Domain.{Bytes}
use hookfly.Redact.{Value, number, text, object, Fields, end, field}

-- `http.Header.Get`: a missing header is the empty text.
abbrev pub Headers : Type 0
Headers = String → String

abbrev pub SafeHeaders : Type 0
SafeHeaders = List (String × String)

pub record IncomingEvent : Type 0 where
  pub repository_external_id : String
  pub event : String
  pub ref : String
  pub status : String
  pub revision : String
  pub commit_message : String
  pub external_id : String
  pub trigger : String
  pub delivery_id : String
  pub supported : Bool
  pub safe_headers : SafeHeaders

-- The first JSON value of a body, and whether nothing follows it. Numbers are kept as their texts.
pub record Decoded : Type 0 where
  pub value : Value
  pub at_end : Bool

pub record Library : Type 0 where
  pub to_lower : String → String
  pub trim_space : String → String
  pub trim_prefix : String → String → String
  pub has_prefix : String → String → Bool
  pub words : String → List String
  pub join_words : List String → String → String
  pub parse_int : String → Option Int64
  pub format_int : Int64 → String
  pub decode : Bytes → Option Decoded
  pub bytes : String → Bytes
  pub hmac_sha256 : String → Bytes → Bytes
  pub sha256 : Bytes → Bytes
  pub decode_hex : String → Option Bytes
  pub encode_hex : Bytes → String

abbrev object_of : Value → Option Fields
object_of (object fields) = some fields
object_of _ = none

abbrev at_end_of : Bool → Option Fields → Option Fields
at_end_of true fields = fields
at_end_of false fields = none

abbrev single_object : Option Decoded → Option Fields
single_object none = none
single_object (some d) = at_end_of d.at_end (object_of d.value)

-- One JSON object and nothing after it; `null`, another value or a second one is an error.
unfoldable pub decode_object : Library → Bytes → Option Fields
decode_object lib body = single_object (lib.decode body)

abbrev pub lookup : String → Fields → Option Value
lookup key end = none
lookup key (field k v fields) =
    let rest = lookup key fields in if str_eq k key then some v else rest

abbrev value_below : (Fields → Option Value) → Option Value → Option Value
value_below next (some (object fields)) = next fields
value_below next _ = none

-- The value at a path of keys through objects; the callers give at least one key.
unfoldable pub value_at : Fields → String → List String → Option Value
value_at payload key [] = lookup key payload
value_at payload key (k ∷ ks) = value_below (λ fields. value_at fields k ks) (lookup key payload)

abbrev text_of : Option Value → String
text_of (some (text s)) = s
text_of _ = ""

abbrev number_text_of : Option Value → String
number_text_of (some (number n)) = n
number_text_of _ = ""

unfoldable pub string_at : Fields → String → List String → String
string_at payload key path = text_of (value_at payload key path)

unfoldable pub number_string_at : Fields → String → List String → String
number_string_at payload key path = number_text_of (value_at payload key path)

module _ (lib : Library) where
  abbrev positive : Option Int64 → Option String
  positive none = none
  positive (some id) = if ltb (int 0) id then some (lib.format_int id) else none

  -- A JSON number that is a positive 64-bit integer, as its decimal text.
  unfoldable pub positive_id : Option Value → Option String
  positive_id (some (number n)) = positive (lib.parse_int n)
  positive_id _ = none

abbrev pub or_empty : Option String → String
or_empty none = ""
or_empty (some s) = s

-- A header that is kept where it is set.
abbrev pub kept_header : Headers → String → SafeHeaders
kept_header headers name = if str_eq (headers name) "" then [] else (name, headers name) ∷ []
