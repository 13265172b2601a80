-- ===== src/Config/Http.antt =====
-- internal/config/validate.go: the authentication, the texts and the bodies of HTTP requests.
use hookfly.Base.{
  ℕ, String, Bool, true, false, not, ◌&&◌, ◌||◌, ◌==◌, Option, none, some, List, [], ◌∷◌,
  if◌then◌else◌, codes, contains_codes, count_pairs, str_eq,
}
use hookfly.Config.Bundle.{
  HttpAuthentication, StringLists, BodyValue, scalar, text, array, object, form, opaque, BodyValues,
  nil, cons, HttpBody,
}
use hookfly.Config.Checks.{
  Stdlib, Checked, ◌>>◌, require, refuse, check_all, is_known, has_none, invalid_authentication,
  unsupported, invalid_query, invalid_body, invalid_template, environment_reference, invalid, valid,
}
use hookfly.Config.Values.{validate_http_header_name, is_reserved_http_header}

module _ (std : Stdlib) where
  abbrev is_valid : Checked (Unit {0}) → Bool
  is_valid (valid a) = true
  is_valid (invalid e) = false

  unfoldable pub validate_http_authentication : HttpAuthentication → Checked (Unit {0})
  validate_http_authentication auth = do
    refuse (str_eq auth.value "") invalid_authentication
    if str_eq auth.auth_type "bearer"
        then require (str_eq auth.header "") invalid_authentication
        else if str_eq auth.auth_type "api_key"
        then require
            (is_valid (validate_http_header_name auth.header)
              && not (is_reserved_http_header std auth.header))
            invalid_authentication
        else invalid (unsupported "authentication" auth.auth_type)

  abbrev template_pattern : String
  template_pattern = "\\{\\{\\s*([^{}\\s]+)\\s*\\}\\}"

  abbrev allowed_http_template_variables : List String
  allowed_http_template_variables =
      "event.source" ∷ "event.repository" ∷ "event.ref" ∷ "event.revision" ∷ "event.status"
      ∷ "event.external_id" ∷ "event.trigger" ∷ "event.commit_message" ∷ "attempt.id" ∷ "target.id"
      ∷ []

  abbrev has_brace_pair : List ℕ → Bool
  has_brace_pair cs = contains_codes cs (codes "{{") || contains_codes cs (codes "}}")

  unfoldable pub validate_http_template : String → Checked (Unit {0})
  validate_http_template value = do
    require (count_pairs 123 false (codes value) == count_pairs 125 false (codes value))
        invalid_template
    check_all
        (λ name.
          require (is_known name allowed_http_template_variables) (unsupported "variable" name))
        (std.find_all_groups template_pattern value)
    refuse (has_brace_pair (codes (std.replace_all_string template_pattern value "")))
        invalid_template

  unfoldable pub validate_http_text : String → Checked (Unit {0})
  validate_http_text value = do
    refuse (std.match_string "^\\$\\{([A-Za-z_][A-Za-z0-9_]*)\\}$" value) environment_reference
    validate_http_template value

  abbrev validate_query_entry : String × List String → Checked (Unit {0})
  validate_query_entry (name, values) = do
    refuse (str_eq name "" || has_none values) (invalid_query name)
    check_all validate_http_text values

  unfoldable pub validate_http_query : StringLists → Checked (Unit {0})
  validate_http_query query = check_all validate_query_entry query

  unfoldable mutual
    pub validate_http_json_body : BodyValue → Checked (Unit {0})
    validate_http_json_body scalar = valid tt
    validate_http_json_body (text value) = validate_http_text value
    validate_http_json_body (array children) = validate_http_json_children children
    validate_http_json_body (object children) = validate_http_json_children children
    validate_http_json_body (form fields) = invalid invalid_body
    validate_http_json_body opaque = invalid invalid_body

    pub validate_http_json_children : BodyValues → Checked (Unit {0})
    validate_http_json_children nil = valid tt
    validate_http_json_children (cons child children) =
        validate_http_json_body child >> validate_http_json_children children

  abbrev validate_form : BodyValue → Checked (Unit {0})
  validate_form (form fields) = validate_http_query fields
  validate_form _ = invalid invalid_body

  abbrev validate_raw : BodyValue → Checked (Unit {0})
  validate_raw (text value) = validate_http_text value
  validate_raw _ = invalid invalid_body

  unfoldable pub validate_http_body : (method : String) → Option HttpBody → Checked (Unit {0})
  validate_http_body method none = valid tt
  validate_http_body method (some body) = do
    refuse (str_eq method "GET") invalid_body
    require (str_eq body.content_type "" || std.parse_media_type body.content_type) invalid_body
    if str_eq body.body_type "json"
        then validate_http_json_body body.value
        else if str_eq body.body_type "form"
        then validate_form body.value
        else if str_eq body.body_type "raw"
        then validate_raw body.value
        else invalid (unsupported "body" body.body_type)
