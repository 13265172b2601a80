-- ===== src/Examples/Configured.antt =====
-- A small configuration, validated: the theorems about it at concrete inputs.
use hookfly.Base.{
  int, String, true, false, none, some, [], ◌∷◌, ◌≡◌, ◌≢◌, ◌<◌, refl, sym, ap, inl, inr, str_eq,
  codes, order_by, lex_le,
}
use hookfly.Domain.{CanonicalEvent, RouteDecision}
use hookfly.Matcher.{
  RouteMatch, Route, ActionType, route_matches, matches_scalar, scalar_domains_overlap, overlaps,
  first_canonical,
}
use hookfly.Worker.Drainer.{RouteTarget, Generation, route}
use hookfly.Config.Bundle.{Source, Target, Bundle}
use hookfly.Config.Checks.{
  Stdlib, Url, Address, valid, is_identifier, validate_identifier, add_unique,
}
use hookfly.Config.Values.{
  is_plain, unsafe_http_host, validate_forward_url, validate_positive_external_id,
}
use hookfly.Config.Sources.{
  validate_repositories, validate_source, validate_sources_of, validate_gitlab_sources,
  validate_sources,
}
use hookfly.Config.Targets.{
  validate_dokploy_connections, validate_http_connections, validate_connections,
  validate_forward_target, validate_target, validate_targets,
}
use hookfly.Config.Routes.{
  validate_route_match, validate_route_targets, validate_action, validate_each_route, priority_of,
  routes_clash, validate_overlaps, validate_routes,
}
use hookfly.Config.Tunnels.{mark_tunnels, validate_ssh_tunnels}
use hookfly.Config.Validate.{canonicalize, validate_and_canonicalize}
use hookfly.Config.Priority.{chosen_route-least}
use hookfly.Config.References.{route-eq-some}
use hookfly.Config.Exposure.{IsGlobal, forward_url_exposes_no_local_host}

abbrev example_url : Url
example_url = record {
  scheme = "https";
  host = "ci.example";
  host_name = "ci.example";
  has_user = false;
  path = "/hook";
  raw_query = "";
  fragment = "";
}

abbrev global_address : Address
global_address = record {
  is_loopback = false;
  is_link_local_unicast = false;
  is_private = false;
  is_unspecified = false;
  is_multicast = false;
}

abbrev pub example_library : Stdlib
example_library = record {
  parse_request_uri = λ s. some example_url;
  parse_url = λ s. some example_url;
  parse_addr = λ s. some global_address;
  parse_ip = λ s. false;
  parse_media_type = λ s. true;
  parse_int = λ s. some (int 7);
  equal_fold = str_eq;
  to_lower = λ s. s;
  trim_space = λ s. s;
  is_abs = λ s. true;
  clean = λ s. s;
  match_string = λ p s. false;
  find_all_groups = λ p s. [];
  replace_all_string = λ p s r. s;
  sha256 = λ s. codes s;
  decimal = λ n. "1";
}

abbrev any_branch : RouteMatch
any_branch = record {
  source = "gh";
  repository = "app";
  event = "push";
  ref = none;
  status = none;
  revision = none;
  external_id = none;
  trigger = none;
}

abbrev general_route : Route
general_route = record {
  id = "general";
  priority = some (int 20);
  matching = any_branch;
  action = ActionType.record_only;
  targets = [];
}

abbrev main_route : Route
main_route = record {
  id = "main";
  priority = some (int 10);
  matching = record any_branch { ref = some "main" };
  action = ActionType.deploy;
  targets = "ci" ∷ [];
}

abbrev pub ci_target : Target
ci_target = record {
  ssh_tunnel = "";
  id = "ci";
  target_type = "forward";
  connection = "";
  resource_type = "";
  resource_id = "";
  poll_timeout = none;
  method = "";
  path = "";
  query = [];
  headers = [];
  body = none;
  success_statuses = [];
  url = "https://ci.example/hook";
  host = "target";
  allow_private_network = false;
}

abbrev gh_source : Source
gh_source = record {
  id = "gh";
  credential = "secret";
  repositories = record { id = "app"; name = "App"; external_id = "7"; history_limit = none } ∷ [];
}

abbrev pub written_bundle : Bundle
written_bundle = record {
  ssh_tunnels = [];
  global = record {
    kind = "global";
    config_dir = "conf";
    history = record { global_limit = int 100; default_repository_limit = int 10 };
    polling = record { interval = int 5; timeout = int 60 };
  };
  gitlab_sources = [];
  github_sources = gh_source ∷ [];
  harbor_sources = [];
  dokploy_connections = [];
  http_connections = [];
  targets = ci_target ∷ [];
  routes = general_route ∷ main_route ∷ [];
}

abbrev pub valid_bundle : Bundle
valid_bundle = record written_bundle { routes = main_route ∷ general_route ∷ [] }

pub bundle_ok : validate_and_canonicalize example_library written_bundle ≡ valid valid_bundle
unfolding validate_and_canonicalize canonicalize validate_ssh_tunnels mark_tunnels validate_sources
    validate_gitlab_sources validate_sources_of validate_source validate_repositories
    validate_connections validate_dokploy_connections validate_http_connections validate_targets
    validate_target validate_forward_target validate_forward_url validate_positive_external_id
    validate_identifier is_identifier add_unique validate_routes validate_each_route
    validate_overlaps validate_route_match validate_action validate_route_targets routes_clash
    overlaps scalar_domains_overlap unsafe_http_host order_by lex_le codes
bundle_ok = refl

abbrev pub main_push_event : CanonicalEvent
main_push_event = record {
  provider = "github";
  source = "gh";
  repository = "app";
  event = "push";
  ref = "main";
  status = "";
  revision = "abc";
  commit_message = "fix";
  external_id = "";
  trigger = "";
}

main_chosen : first_canonical valid_bundle.routes main_push_event ≡ some main_route
unfolding first_canonical route_matches matches_scalar
main_chosen = refl

general_matches : route_matches general_route.matching main_push_event ≡ true
unfolding route_matches matches_scalar
general_matches = refl

other_route : general_route.id ≢ main_route.id
other_route p = true_false (ap (str_eq "general") p)
  where
    true_false : true ≡ false → ⊥
    true_false q = cc

chosen_route-least_example : priority_of main_route.priority < priority_of general_route.priority
chosen_route-least_example =
    chosen_route-least example_library written_bundle valid_bundle bundle_ok main_push_event
      main_route main_chosen general_route (inr (inl refl)) general_matches other_route

abbrev target_named : String → RouteTarget
target_named id = record { id = id; snapshot = []; fingerprint = "key" }

abbrev pub example_generation : Generation
example_generation = record {
  digest = "digest";
  routes = valid_bundle.routes;
  targets = λ id. some (target_named id);
  sources = λ p id. none;
  gitlab_sources = λ h. none;
  rule_snapshot = λ r. [];
}

named_so : (id : String) (t : RouteTarget) → some (target_named id) ≡ some t → t.id ≡ id
named_so id t h = same_id (some_inj h)
  where
    some_inj : some (target_named id) ≡ some t → target_named id ≡ t
    some_inj p = cc

    same_id : target_named id ≡ t → t.id ≡ id
    same_id p = ap (λ (x : RouteTarget). x.id) (sym p)

forward_url_exposes_no_local_host_example :
    (u : Url) × (example_library.parse_url ci_target.url ≡ some u)
    × (is_plain example_library u ≡ true)
    × (example_library.equal_fold u.host_name "localhost" ≡ false)
    × ((a : Address) → example_library.parse_addr u.host_name ≡ some a → IsGlobal a)
forward_url_exposes_no_local_host_example =
    forward_url_exposes_no_local_host example_library written_bundle valid_bundle bundle_ok
      ci_target (inl refl) refl refl refl

pub example_routed :
    (e : CanonicalEvent) → (d : RouteDecision) × (route example_generation e ≡ some d)
example_routed e =
    let (d, p, _) =
      route-eq-some example_library written_bundle valid_bundle bundle_ok example_generation refl
        (λ t m. refl) named_so e in
    (d, p)
