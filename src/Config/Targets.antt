-- ===== src/Config/Targets.antt =====
-- internal/config/validate.go: the connections and the targets.
use hookfly.Base.{
  Int64, int, String, Bool, not, ◌||◌, ltb, Option, none, some, List, [], ◌∷◌, if◌then◌else◌, find?,
  map, is_some, str_eq,
}
use hookfly.Config.Bundle.{DokployConnection, HttpConnection, Target}
use hookfly.Config.Checks.{
  Stdlib, api_key_required, unknown_connection, incompatible_connection, unsupported_fields,
  unsupported, reserved_header, invalid_success_status, connection_not_allowed, Checked, invalid,
  valid, ◌>>=◌, ◌>>◌, require, refuse, check_all, validate_identifier, add_unique, has_none,
}
use hookfly.Config.Values.{
  validate_http_header_name, validate_http_method, validate_dokploy_url, validate_http_url,
  validate_forward_url, validate_http_path, is_reserved_http_header,
}
use hookfly.Config.Http.{
  validate_http_authentication, validate_http_text, validate_http_query, validate_http_body,
}
use hookfly.Config.Sources.{in_context, has_key}

module _ (std : Stdlib) where
  -- The kinds of the connections, by their IDs: `map[string]string`.
  abbrev pub Connections : Type 0
  Connections = List (String × String)

  abbrev connection_ids : Connections → List String
  connection_ids known = map (λ k. k.0) known

  unfoldable pub validate_dokploy_connections :
      List DokployConnection → Connections → Checked Connections
  validate_dokploy_connections [] known = valid known
  validate_dokploy_connections (c ∷ cs) known = do
    validate_identifier "connection" c.id
    add_unique "connection" c.id (connection_ids known)
    refuse (str_eq c.api_key "") (api_key_required c.id)
    in_context c.id (validate_dokploy_url std c.base_url)
    validate_dokploy_connections cs ((c.id, "dokploy") ∷ known)

  unfoldable pub validate_http_connections : List HttpConnection → Connections → Checked Connections
  validate_http_connections [] known = valid known
  validate_http_connections (c ∷ cs) known = do
    validate_identifier "connection" c.id
    add_unique "connection" c.id (connection_ids known)
    in_context c.id
        (validate_http_url std c.base_url (c.allow_private_network || not (str_eq c.ssh_tunnel "")))
    in_context c.id (validate_http_authentication std c.auth)
    validate_http_connections cs ((c.id, "http") ∷ known)

  unfoldable pub validate_connections :
      List DokployConnection → List HttpConnection → Checked Connections
  validate_connections dokploy http = do
    known ← validate_dokploy_connections dokploy []
    validate_http_connections http known

  -- A target's connection is there and of its kind.
  abbrev pub check_connection : Target → String → Option (String × String) → Checked (Unit {0})
  check_connection t kind none = invalid (unknown_connection t.id t.connection)
  check_connection t kind (some found) =
      require (str_eq found.1 kind) (incompatible_connection t.id t.connection)

  abbrev pub has_forward_fields : Target → Bool
  has_forward_fields t =
      not (str_eq t.url "") || (not (str_eq t.host "") || t.allow_private_network)

  unfoldable pub validate_dokploy_target : Connections → Target → Checked (Unit {0})
  validate_dokploy_target connections t = do
    refuse (has_forward_fields t) (unsupported_fields "Dokploy")
    check_connection t "dokploy" (find? (has_key t.connection) connections)
    require (str_eq t.resource_type "compose") (unsupported "resource" t.resource_type)
    validate_identifier "target resource" t.resource_id

  abbrev pub validate_header : String × String → Checked (Unit {0})
  validate_header (name, value) = do
    validate_http_header_name name
    refuse (is_reserved_http_header std name) (reserved_header name)
    validate_http_text std value

  abbrev pub validate_success_status : Int64 → Checked (Unit {0})
  validate_success_status status =
      refuse (ltb status (int 200) || not (ltb status (int 300))) (invalid_success_status status)

  unfoldable pub validate_http_target : Connections → Target → Checked (Unit {0})
  validate_http_target connections t = do
    refuse (has_forward_fields t) (unsupported_fields "HTTP")
    check_connection t "http" (find? (has_key t.connection) connections)
    validate_http_method t.method
    validate_http_path std t.path
    validate_http_query std t.query
    check_all validate_header t.headers
    validate_http_body std t.method t.body
    check_all validate_success_status t.success_statuses

  abbrev pub has_request_fields : Target → Bool
  has_request_fields t =
      not (str_eq t.resource_type "")
      || (not (str_eq t.resource_id "")
          || (is_some t.poll_timeout
              || (not (str_eq t.method "")
                  || (not (str_eq t.path "")
                      || (not (has_none t.query)
                          || (not (has_none t.headers)
                              || (is_some t.body || not (has_none t.success_statuses))))))))

  abbrev pub forward_host : String → String
  forward_host host = if str_eq host "" then "target" else host

  unfoldable pub validate_forward_target : Target → Checked Target
  validate_forward_target t = do
    require (str_eq t.connection "") (connection_not_allowed t.id)
    refuse (has_request_fields t) (unsupported_fields "forward")
    validate_forward_url std t.url (t.allow_private_network || not (str_eq t.ssh_tunnel ""))
    require (str_eq (forward_host t.host) "target" || str_eq (forward_host t.host) "origin")
        (unsupported "host mode" (forward_host t.host))
    valid (record t { host = forward_host t.host })

  unfoldable pub validate_target : Connections → Target → Checked Target
  validate_target connections t =
      if str_eq t.target_type "dokploy"
      then (validate_dokploy_target connections t >> valid t)
      else if str_eq t.target_type "http"
      then (validate_http_target connections t >> valid t)
      else if str_eq t.target_type "forward"
      then validate_forward_target t
      else invalid (unsupported "target" t.target_type)

  -- The loop over the targets, which sets the host mode of forward targets.
  unfoldable pub validate_targets :
      Connections → (known : List String) → List Target → Checked (List Target)
  validate_targets connections known [] = valid []
  validate_targets connections known (t ∷ ts) = do
    validate_identifier "target" t.id
    add_unique "target" t.id known
    t' ← validate_target connections t
    ts' ← validate_targets connections (t.id ∷ known) ts
    valid (t' ∷ ts')
