-- ===== src/Runtime/Generation.antt =====
-- internal/runtimecfg/generation.go: the compilation of a configuration to a generation, less the
-- clients of its connections and tunnels.
use hookfly.Base.{
  String, Bool, ◌&&◌, not, Option, none, some, List, [], ◌∷◌, any, find?, map, is_some, str_eq,
  same_codes, if◌then◌else◌,
}
use hookfly.Domain.{Bytes}
use hookfly.Matcher.{Route}
use hookfly.Config.Bundle.{Repository, Source, DokployConnection, HttpConnection, Target, Bundle}
use hookfly.Config.Checks.{Stdlib, Checked, valid, invalid}
use hookfly.Config.Validate.{validate_and_canonicalize}
use hookfly.Webhook.Provider.{Library}
use hookfly.Webhook.Source as WebhookSource
use hookfly.Webhook.Source.{Adapter}
use hookfly.Webhook.Github
use hookfly.Webhook.Gitlab
use hookfly.Webhook.Harbor
use hookfly.Webhook.Harbor.{DecodedEnvelope}
use hookfly.Worker.Drainer.{RouteTarget, Generation}
use hookfly.Runtime.Urls.{UrlLibrary, dokploy_base_url, http_base_url}
use hookfly.Runtime.Snapshot.{SnapshotLibrary}
use hookfly.Runtime.Resolve.{Bound}
use hookfly.Runtime.Compile.{compile_target}
use hookfly.Runtime.Digest.{DigestBundle, bundle_digest}

-- What the compilation takes from Go's library.
pub record Toolbox : Type 0 where
  pub std : Stdlib
  pub urls : UrlLibrary
  pub snapshots : SnapshotLibrary
  pub webhooks : Library
  pub decode_envelope : Bytes → Option DecodedEnvelope
  pub marshal_digest : DigestBundle → Bytes
  pub marshal_rule : Route → Bytes

module _ (tools : Toolbox) where
  abbrev repository_pair : Repository → String × String
  repository_pair r = (r.external_id, r.id)

  -- `addSource`, on what a webhook reads of a source.
  abbrev pub make_source : String → Source → Adapter → WebhookSource.Source
  make_source provider s adapter = record {
    provider = provider;
    id = s.id;
    adapter = adapter;
    repositories = map repository_pair s.repositories;
  }

  abbrev gitlab_of : Source → WebhookSource.Source
  gitlab_of s = make_source "gitlab" s (record {
    authenticate = Gitlab.authenticate tools.webhooks s.credential;
    normalize = Gitlab.normalize tools.webhooks;
  })

  abbrev github_of : Source → WebhookSource.Source
  github_of s = make_source "github" s (record {
    authenticate = Github.authenticate tools.webhooks s.credential;
    normalize = Github.normalize tools.webhooks;
  })

  abbrev harbor_of : Source → WebhookSource.Source
  harbor_of s = make_source "harbor" s (record {
    authenticate = Harbor.authenticate tools.webhooks tools.decode_envelope s.credential;
    normalize = Harbor.normalize tools.webhooks tools.decode_envelope;
  })

  abbrev find_source :
      (Source → WebhookSource.Source) → String → List Source → Option WebhookSource.Source
  find_source make id [] = none
  find_source make id (s ∷ ss) =
      let rest = find_source make id ss in if str_eq s.id id then some (make s) else rest

  unfoldable pub source_of : Bundle → (provider id : String) → Option WebhookSource.Source
  source_of b provider id =
      if str_eq provider "gitlab"
      then find_source gitlab_of id b.gitlab_sources
      else if str_eq provider "github"
      then find_source github_of id b.github_sources
      else if str_eq provider "harbor"
      then find_source harbor_of id b.harbor_sources
      else none

  abbrev find_token : Bytes → List Source → Option WebhookSource.Source
  find_token hash [] = none
  find_token hash (s ∷ ss) =
      let rest = find_token hash ss in
      if same_codes (tools.webhooks.sha256 (tools.webhooks.bytes s.credential)) hash
      then some (gitlab_of s)
      else rest

  abbrev pub route_target : Target → Bound → RouteTarget
  route_target t bound = record {
    id = t.id;
    snapshot = bound.snapshot;
    fingerprint = bound.fingerprint;
  }

  abbrev pub add_target :
      Target → Option Bound → Option (List RouteTarget) → Option (List RouteTarget)
  add_target t (some bound) (some ts) = some (route_target t bound ∷ ts)
  add_target t _ _ = none

  -- The loops over the targets; one that fails makes the compilation fail.
  unfoldable pub compile_targets : Bundle → List Target → Option (List RouteTarget)
  compile_targets b [] = some []
  compile_targets b (t ∷ ts) =
      add_target t (compile_target tools.urls tools.snapshots b t) (compile_targets b ts)

  abbrev pub have_urls : Bundle → Bool
  have_urls b =
      not (
        any (λ (c : DokployConnection). not (is_some (dokploy_base_url tools.urls c.base_url)))
          b.dokploy_connections)
      && not (
          any (λ (c : HttpConnection). not (is_some (http_base_url tools.urls c.base_url)))
            b.http_connections)

  -- The connections with the URLs that the first loops put in place.
  abbrev or_as_it_is : String → Option String → String
  or_as_it_is raw none = raw
  or_as_it_is raw (some url) = url

  abbrev with_canonical_urls : Bundle → Bundle
  with_canonical_urls b = record b {
    dokploy_connections =
        map
          (λ (c : DokployConnection). record c {
            base_url = or_as_it_is c.base_url (dokploy_base_url tools.urls c.base_url);
          })
          b.dokploy_connections;
    http_connections =
        map
          (λ (c : HttpConnection). record c {
            base_url = or_as_it_is c.base_url (http_base_url tools.urls c.base_url);
          })
          b.http_connections;
  }

  abbrev pub find_target : List RouteTarget → String → Option RouteTarget
  find_target ts id = find? (λ (t : RouteTarget). str_eq t.id id) ts

  abbrev pub generation_of : Bundle → List RouteTarget → Generation
  generation_of b ts = record {
    digest =
        bundle_digest tools.marshal_digest tools.snapshots.sha256 tools.snapshots.encode_hex
          (with_canonical_urls b);
    routes = b.routes;
    targets = find_target ts;
    sources = source_of b;
    gitlab_sources = λ hash. find_token hash b.gitlab_sources;
    rule_snapshot = tools.marshal_rule;
  }

  abbrev pub with_targets : Bundle → Option (List RouteTarget) → Option Generation
  with_targets b none = none
  with_targets b (some ts) = some (generation_of b ts)

  abbrev pub compile_valid : Checked Bundle → Option Generation
  compile_valid (invalid e) = none
  compile_valid (valid b) =
      if have_urls b then with_targets b (compile_targets b b.targets) else none

  -- `compileBundle`.
  unfoldable pub compile : Bundle → Option Generation
  compile b = compile_valid (validate_and_canonicalize tools.std b)
