-- ===== src/Runtime/Digest.antt =====
-- internal/runtimecfg/generation.go: the identity of a configuration, which leaves its secrets out.
use hookfly.Base.{
  ℕ, Int64, String, Option, none, some, List, [], ◌∷◌, ◌++◌, ◌≡◌, refl, map, codes, order_by,
}
use hookfly.Domain.{Bytes}
use hookfly.Matcher.{Route}
use hookfly.Config.Bundle.{
  Repository, Source, DokployConnection, HttpConnection, Target, SshTunnel, Bundle,
}
use hookfly.Runtime.Snapshot.{tunnel_identity, SshSnapshot, ssh_snapshot}

pub record DigestSource : Type 0 where
  pub provider : String
  pub id : String
  pub repositories : List Repository

pub record DigestConnection : Type 0 where
  pub ssh_tunnel : String
  pub connection_type : String
  pub id : String
  pub base_url : String

pub record SshDigest : Type 0 where
  pub identity : SshSnapshot
  pub private_key_file : String
  pub known_hosts_file : String
  pub policy : String

-- The part of a bundle that is hashed; a target and a route go in with all their fields.
pub record DigestBundle : Type 0 where
  pub ssh_tunnels : List SshDigest
  pub kind : String
  pub config_dir : String
  pub global_limit : Int64
  pub default_repository_limit : Int64
  pub poll_interval : Int64
  pub poll_timeout : Int64
  pub sources : List DigestSource
  pub connections : List DigestConnection
  pub targets : List Target
  pub routes : List Route

abbrev digest_source : String → Source → DigestSource
digest_source provider s = record { provider = provider; id = s.id; repositories = s.repositories }

-- By provider, then by ID: the zero stands before every character of an identifier.
abbrev source_key : DigestSource → List ℕ
source_key s = codes s.provider ++ 0 ∷ codes s.id

abbrev digest_dokploy : DokployConnection → DigestConnection
digest_dokploy c = record {
  ssh_tunnel = c.ssh_tunnel;
  connection_type = "dokploy";
  id = c.id;
  base_url = c.base_url;
}

abbrev digest_http : HttpConnection → DigestConnection
digest_http c = record {
  ssh_tunnel = c.ssh_tunnel;
  connection_type = "http";
  id = c.id;
  base_url = c.base_url;
}

-- The tunnel itself bears its identifier, so there is one; Go would panic where there is none.
abbrev identity_or : SshTunnel → Option SshSnapshot → SshSnapshot
identity_or t none = ssh_snapshot t
identity_or t (some s) = s

abbrev digest_tunnel : List SshTunnel → SshTunnel → SshDigest
digest_tunnel tunnels t = record {
  identity = identity_or t (tunnel_identity tunnels t.id);
  private_key_file = t.private_key_file;
  known_hosts_file = t.known_hosts_file;
  policy = t.host_key_policy;
}

unfoldable pub digest_bundle : Bundle → DigestBundle
digest_bundle b = record {
  ssh_tunnels = map (digest_tunnel b.ssh_tunnels) b.ssh_tunnels;
  kind = b.global.kind;
  config_dir = b.global.config_dir;
  global_limit = b.global.history.global_limit;
  default_repository_limit = b.global.history.default_repository_limit;
  poll_interval = b.global.polling.interval;
  poll_timeout = b.global.polling.timeout;
  sources = order_by source_key (
      map (digest_source "gitlab") b.gitlab_sources
      ++ map (digest_source "github") b.github_sources
      ++ map (digest_source "harbor") b.harbor_sources);
  connections = map digest_dokploy b.dokploy_connections ++ map digest_http b.http_connections;
  targets = b.targets;
  routes = b.routes;
}

module _ (marshal : DigestBundle → Bytes) (sha256 : Bytes → Bytes)
    (encode_hex : Bytes → String) where
  -- `bundleDigest`.
  unfoldable pub bundle_digest : Bundle → String
  bundle_digest b = encode_hex (sha256 (marshal (digest_bundle b)))

-- Other secrets in the same configuration.
module _ (f : String → String) where
  abbrev change_source : Source → Source
  change_source s = record s { credential = f s.credential }

  abbrev change_dokploy : DokployConnection → DokployConnection
  change_dokploy c = record c { api_key = f c.api_key }

  abbrev change_http : HttpConnection → HttpConnection
  change_http c = record c { auth = record (c.auth) { value = f c.auth.value } }

  abbrev pub change_secrets : Bundle → Bundle
  change_secrets b = record b {
    gitlab_sources = map change_source b.gitlab_sources;
    github_sources = map change_source b.github_sources;
    harbor_sources = map change_source b.harbor_sources;
    dokploy_connections = map change_dokploy b.dokploy_connections;
    http_connections = map change_http b.http_connections;
  }

  map-map_same :
      {A B : Type 0} (g : A → B) (u : A → A) (xs : List A)
      → ((x : A) → g (u x) ≡ g x)
      → map g (map u xs) ≡ map g xs
  map-map_same g u [] h = refl
  map-map_same g u (x ∷ xs) h = rw (h x, map-map_same g u xs h) refl

  -- The digest does not depend on the tokens, secrets and authorizations of the sources, nor on the keys
  -- of the connections.
  pub bundle_digest-change_secrets :
      (marshal : DigestBundle → Bytes) (sha256 : Bytes → Bytes) (encode_hex : Bytes → String)
      (b : Bundle)
      → bundle_digest marshal sha256 encode_hex (change_secrets b)
        ≡ bundle_digest marshal sha256 encode_hex b
  unfolding bundle_digest digest_bundle
  bundle_digest-change_secrets marshal sha256 encode_hex b =
      rw
        (
          map-map_same (digest_source "gitlab") change_source b.gitlab_sources (λ s. refl),
          map-map_same (digest_source "github") change_source b.github_sources (λ s. refl),
          map-map_same (digest_source "harbor") change_source b.harbor_sources (λ s. refl),
          map-map_same digest_dokploy change_dokploy b.dokploy_connections (λ c. refl),
          map-map_same digest_http change_http b.http_connections (λ c. refl),
        )
        refl
