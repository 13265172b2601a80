-- ===== src/Store/Headers.antt =====
-- internal/store/ingest.go, safeHeadersJSON: what is kept of the headers of a webhook.
use mathlib.Core.Option
use hookfly.Base.{
  ℕ, String, Bool, not, ◌||◌, Option, none, some, List, [], ◌∷◌, keep_if, codes, contains_codes,
}
use hookfly.Domain.{Bytes}

-- The entries of a `map[string]json.RawMessage`; `none` is the nil map.
abbrev pub HeaderMap : Type 0
HeaderMap = Option (List (String × Bytes))

-- `json.Unmarshal` and `json.Marshal` at such a map, where `none` is an error, and `strings.ToLower`.
pub record HeaderCodec : Type 0 where
  pub decode : Bytes → Option HeaderMap
  pub encode : HeaderMap → Option Bytes
  pub to_lower : String → String

module _ (codec : HeaderCodec) where
  abbrev credential_text : List ℕ → Bool
  credential_text lower =
      contains_codes lower (codes "token")
      || (contains_codes lower (codes "signature") || contains_codes lower (codes "authorization"))

  abbrev pub is_credential : String → Bool
  is_credential name = credential_text (codes (codec.to_lower name))

  abbrev pub is_kept : String × Bytes → Bool
  is_kept entry = not (is_credential entry.0)

  abbrev pub drop_credentials : HeaderMap → HeaderMap
  drop_credentials values = Option.map (keep_if is_kept) values

  abbrev pub or_nothing : Option Bytes → Bytes
  or_nothing none = []
  or_nothing (some safe) = safe

  -- A nil slice is the empty one.
  abbrev pub safe_values : Option HeaderMap → Bytes
  safe_values none = []
  safe_values (some values) = or_nothing (codec.encode (drop_credentials values))

  unfoldable pub safe_headers_json : Bytes → Bytes
  safe_headers_json [] = []
  safe_headers_json (b ∷ bs) = safe_values (codec.decode (b ∷ bs))
