-- ===== src/Config/Validate.antt =====
-- internal/config/validate.go: the validation of a configuration and its canonical order.
use hookfly.Base.{List, [], codes, map, order_by}
use hookfly.Config.Bundle.{Source, DokployConnection, HttpConnection, Target, Bundle}
use hookfly.Config.Checks.{Stdlib, Checked, valid, ◌>>=◌, ◌>>◌}
use hookfly.Config.Sources.{validate_sources}
use hookfly.Config.Targets.{validate_connections, validate_targets}
use hookfly.Config.Routes.{validate_routes, route_key}
use hookfly.Config.Tunnels.{validate_ssh_tunnels}

abbrev canonical_source : Source → Source
canonical_source s = record s { repositories = order_by (λ r. codes r.id) s.repositories }

abbrev canonical_sources : List Source → List Source
canonical_sources ss = map canonical_source (order_by (λ s. codes s.id) ss)

unfoldable pub canonicalize : Bundle → Bundle
canonicalize b = record b {
  gitlab_sources = canonical_sources b.gitlab_sources;
  github_sources = canonical_sources b.github_sources;
  harbor_sources = canonical_sources b.harbor_sources;
  dokploy_connections = order_by (λ (c : DokployConnection). codes c.id) b.dokploy_connections;
  http_connections = order_by (λ (c : HttpConnection). codes c.id) b.http_connections;
  targets = order_by (λ (t : Target). codes t.id) b.targets;
  routes = order_by route_key b.routes;
}

-- `ValidateAndCanonicalize`, returning the bundle that the code changes in place.
unfoldable pub validate_and_canonicalize : Stdlib → Bundle → Checked Bundle
validate_and_canonicalize std b = do
  tunnels ← validate_ssh_tunnels std b
  repositories ← validate_sources std b
  connections ← validate_connections std b.dokploy_connections b.http_connections
  targets ← validate_targets std connections [] b.targets
  validate_routes b.routes repositories (map (λ (t : Target). t.id) targets)
  valid (canonicalize (record b { ssh_tunnels = tunnels; targets = targets }))
