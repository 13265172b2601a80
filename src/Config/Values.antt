-- ===== src/Config/Values.antt =====
-- internal/config/validate.go: the checks of URLs, header names and external IDs.
use hookfly.Base.{
  ℕ, Int64, int, String, Bool, false, not, ◌&&◌, ◌||◌, ◌==◌, ltb, Option, none, some, List, [], ◌∷◌,
  if◌then◌else◌, codes, has_prefix, contains_codes, is_alphanumeric, any, str_eq,
}
use hookfly.Config.Checks.{
  Stdlib, Url, Address, ConfigError, Checked, ◌>>=◌, require, refuse, is_known,
  external_id_not_positive, not_a_harbor_path, invalid_url, private_url, unsupported, invalid_path,
  invalid_header, invalid, valid,
}

-- The characters of a token of HTTP that are not letters or digits.
abbrev token_marks : List ℕ
token_marks = codes "!#$%&'*+-.^_`|~"

abbrev is_header_text : List ℕ → Bool
is_header_text [] = false
is_header_text (c ∷ cs) =
    not (any (λ d. not (is_alphanumeric d || any (λ m. d == m) token_marks)) (c ∷ cs))

unfoldable pub validate_http_header_name : String → Checked (Unit {0})
validate_http_header_name name = require (is_header_text (codes name)) (invalid_header name)

unfoldable pub validate_http_method : String → Checked (Unit {0})
validate_http_method method =
    require (is_known method ("GET" ∷ "POST" ∷ "PUT" ∷ "PATCH" ∷ "DELETE" ∷ []))
      (unsupported "method" method)

abbrev pub is_web : Url → Bool
is_web u = not (str_eq u.host "") && (str_eq u.scheme "http" || str_eq u.scheme "https")

abbrev pub check_url : {A : Type 0} → (A → Bool) → Option A → ConfigError → Checked A
check_url fits none e = invalid e
check_url fits (some u) e = if fits u then valid u else invalid e

module _ (std : Stdlib) where
  abbrev pub is_positive : Option Int64 → Bool
  is_positive none = false
  is_positive (some value) = ltb (int 0) value

  unfoldable pub validate_positive_external_id : String → Checked (Unit {0})
  validate_positive_external_id id =
      require (is_positive (std.parse_int id)) external_id_not_positive

  unfoldable pub validate_harbor_repository : String → Checked (Unit {0})
  validate_harbor_repository repository =
      require (std.match_string "^[^/\\s]+(?:/[^/\\s]+)+$" repository) not_a_harbor_path

  unfoldable pub validate_dokploy_url : String → Checked (Unit {0})
  validate_dokploy_url raw = do
    u ← check_url is_web (std.parse_request_uri raw) (invalid_url "Dokploy")
    valid tt

  abbrev is_unsafe_address : Option Address → Bool
  is_unsafe_address none = false
  is_unsafe_address (some a) =
      a.is_loopback
      || (a.is_link_local_unicast || (a.is_private || (a.is_unspecified || a.is_multicast)))

  unfoldable pub unsafe_http_host : String → Bool
  unsafe_http_host host = std.equal_fold host "localhost" || is_unsafe_address (std.parse_addr host)

  abbrev pub is_plain : Url → Bool
  is_plain u = is_web u && (not u.has_user && (str_eq u.raw_query "" && str_eq u.fragment ""))

  abbrev is_origin : Url → Bool
  is_origin u = is_plain u && (str_eq u.path "" || str_eq u.path "/")

  unfoldable pub validate_http_url : String → Bool → Checked (Unit {0})
  validate_http_url raw allow_private_network = do
    u ← check_url is_origin (std.parse_request_uri raw) (invalid_url "HTTP")
    refuse (not allow_private_network && unsafe_http_host u.host_name) (private_url "HTTP")

  unfoldable pub validate_forward_url : String → Bool → Checked (Unit {0})
  validate_forward_url raw allow_private_network = do
    u ← check_url is_plain (std.parse_url raw) (invalid_url "forward")
    refuse (not allow_private_network && unsafe_http_host u.host_name) (private_url "forward")

  -- `parsed.IsAbs`: the URL has a scheme.
  abbrev is_request_path : String → Url → Bool
  is_request_path path u =
      has_prefix (codes path) (codes "/")
      && (str_eq u.scheme ""
          && (str_eq u.host ""
              && (str_eq u.raw_query ""
                  && (str_eq u.fragment "" && not (contains_codes (codes path) (codes ".."))))))

  unfoldable pub validate_http_path : String → Checked (Unit {0})
  validate_http_path path = do
    u ← check_url (is_request_path path) (std.parse_request_uri path) invalid_path
    valid tt

  unfoldable pub is_reserved_http_header : String → Bool
  is_reserved_http_header name =
      is_known (std.to_lower name)
        ("authorization" ∷ "content-type" ∷ "host" ∷ "idempotency-key" ∷ [])
