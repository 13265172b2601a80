-- ===== src/Runtime/Urls.antt =====
-- internal/dokploy/client.go and internal/httptarget: the canonical forms of the configured URLs, over
-- the parser and the printer of Go's net/url.
use hookfly.Base.{String, Bool, not, ◌&&◌, ◌||◌, Option, none, some, str_eq, if◌then◌else◌}

pub record ParsedUrl : Type 0 where
  pub scheme : String
  pub has_user : Bool
  pub host : String
  pub path : String
  pub raw_path : String
  pub raw_query : String
  pub force_query : Bool
  pub fragment : String

pub record UrlLibrary : Type 0 where
  pub parse : String → Option ParsedUrl
  pub print : ParsedUrl → String
  pub host_name : ParsedUrl → String
  pub port : ParsedUrl → String
  pub join_host_port : String → String → String
  pub to_lower : String → String

module _ (lib : UrlLibrary) where
  abbrev is_web_scheme : String → Bool
  is_web_scheme scheme = str_eq scheme "http" || str_eq scheme "https"

  -- The port that the scheme implies is left out.
  abbrev canonical_port : String → String → String
  canonical_port scheme port =
      if (str_eq scheme "http" && str_eq port "80") || (str_eq scheme "https" && str_eq port "443")
      then ""
      else port

  abbrev canonical_host : String → String → String
  canonical_host name port = if str_eq port "" then name else lib.join_host_port name port

  -- The last steps of both `CanonicalBaseURL`, with the scheme in lower case.
  abbrev print_origin : String → ParsedUrl → String
  print_origin scheme u = lib.print (record u {
    scheme = scheme;
    host = canonical_host (lib.to_lower (lib.host_name u)) (canonical_port scheme (lib.port u));
    path = "";
    raw_path = "";
  })

  abbrev is_root : ParsedUrl → Bool
  is_root u = str_eq u.path "" || str_eq u.path "/"

  abbrev is_dokploy_origin : String → ParsedUrl → Bool
  is_dokploy_origin scheme u =
      not (str_eq u.scheme "")
      && (not (str_eq u.host "")
          && (is_web_scheme scheme
              && (not u.has_user
                  && (str_eq u.raw_query ""
                      && (not u.force_query
                          && (str_eq u.fragment ""
                              && (is_root u
                                  && not (str_eq (lib.to_lower (lib.host_name u)) ""))))))))

  abbrev dokploy_origin : Option ParsedUrl → Option String
  dokploy_origin none = none
  dokploy_origin (some u) =
      if is_dokploy_origin (lib.to_lower u.scheme) u
      then some (print_origin (lib.to_lower u.scheme) u)
      else none

  -- `dokploy.CanonicalBaseURL`.
  unfoldable pub dokploy_base_url : String → Option String
  dokploy_base_url raw = dokploy_origin (lib.parse raw)

  abbrev is_plain : ParsedUrl → Bool
  is_plain u =
      not (str_eq u.host "")
      && (is_web_scheme u.scheme
          && (not u.has_user && (str_eq u.raw_query "" && str_eq u.fragment "")))

  abbrev http_origin : Option ParsedUrl → Option String
  http_origin none = none
  http_origin (some u) =
      if is_plain u && is_root u then some (print_origin (lib.to_lower u.scheme) u) else none

  -- `httptarget.CanonicalBaseURL`.
  unfoldable pub http_base_url : String → Option String
  http_base_url raw = http_origin (lib.parse raw)

  abbrev forward_destination : Option ParsedUrl → Option String
  forward_destination none = none
  forward_destination (some u) =
      if is_plain u
      then some
          (lib.print (record u { scheme = lib.to_lower u.scheme; host = lib.to_lower u.host }))
      else none

  -- `httptarget.CanonicalForwardURL`.
  unfoldable pub forward_url : String → Option String
  forward_url raw = forward_destination (lib.parse raw)
