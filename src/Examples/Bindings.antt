-- ===== src/Examples/Bindings.antt =====
-- A Dokploy target and its binding: the theorem at a concrete input.
use hookfly.Base.{String, false, Option, none, some, List, [], ◌∷◌, ◌≡◌, refl, In, inl, inr, codes}
use hookfly.Store.Routing.{is_empty}
use hookfly.Config.Bundle.{DokployConnection, Target, Bundle}
use hookfly.Runtime.Target.{compatible}
use hookfly.Runtime.Urls.{ParsedUrl, UrlLibrary, dokploy_base_url}
use hookfly.Runtime.Snapshot.{
  TargetSnapshot, SnapshotLibrary, binding_version, forward_binding_fingerprint,
  binding_fingerprint_fields,
}
use hookfly.Runtime.Resolve.{Bound, resolve_target}
use hookfly.Runtime.Compile.{compile_target}
use hookfly.Runtime.Compatibility.{written_snapshots, resolve_target-compile_target}
use hookfly.Base.{ap, map}
use hookfly.Domain.{RouteDecision, NewDelivery}
use hookfly.Config.References.{NoRepeats}
use hookfly.Worker.Drainer.{Generation, route}
use hookfly.Runtime.Urls.{forward_url}
use hookfly.Runtime.Compile.{compile_plain, bind}
use hookfly.Runtime.Digest.{bundle_digest, change_secrets, bundle_digest-change_secrets}
use hookfly.Runtime.Generation.{Toolbox, compile_targets, generation_of, compile_valid, compile}
use hookfly.Runtime.Totality.{route-compile}
use hookfly.Examples.Configured.{
  example_library, written_bundle, valid_bundle, bundle_ok, main_push_event, ci_target,
}
use hookfly.Examples.Webhooks.{webhook_library}

abbrev deploy_connection : DokployConnection
deploy_connection = record {
  ssh_tunnel = "";
  id = "dok";
  base_url = "https://Dok.example:443/";
  api_key = "key";
}

abbrev compose_target : Target
compose_target = record ci_target {
  id = "app";
  target_type = "dokploy";
  connection = "dok";
  resource_type = "compose";
  resource_id = "compose-1";
  url = "";
  host = "";
}

abbrev deploy_bundle : Bundle
deploy_bundle = record written_bundle {
  dokploy_connections = deploy_connection ∷ [];
  targets = compose_target ∷ [];
}

abbrev parsed_base : ParsedUrl
parsed_base = record {
  scheme = "https";
  has_user = false;
  host = "dok.example:443";
  path = "/";
  raw_path = "";
  raw_query = "";
  force_query = false;
  fragment = "";
}

abbrev url_library : UrlLibrary
url_library = record {
  parse = λ s. some parsed_base;
  print = λ u. "https://dok.example";
  host_name = λ u. "dok.example";
  port = λ u. "443";
  join_host_port = λ h p. h;
  to_lower = λ s. s;
}

abbrev compose_snapshot : TargetSnapshot
compose_snapshot = record {
  ssh = none;
  binding_version = binding_version;
  id = "app";
  target_type = "dokploy";
  resource_type = "compose";
  resource_id = "compose-1";
  connection = record { id = "dok"; base_url = "https://dok.example" };
  http = none;
  forward = none;
}

abbrev snapshot_library : SnapshotLibrary
snapshot_library = record {
  bytes = λ s. codes s;
  print_int = λ n. "2";
  sha256 = λ b. b;
  encode_hex = λ b. "fingerprint";
  marshal_http = λ h. [];
  marshal_forward = λ f. [];
  marshal_ssh = λ s. [];
  marshal_snapshot = λ s. 1 ∷ [];
  decode_version = λ b. some (some binding_version);
  decode_snapshot = λ b. some compose_snapshot;
  clone_json = λ v. v;
}

abbrev compose_snapshots : List TargetSnapshot
compose_snapshots =
    written_snapshots url_library snapshot_library deploy_bundle deploy_connection compose_target
      "https://dok.example"

written_and_read :
    (s : TargetSnapshot)
    → In s compose_snapshots
    → (snapshot_library.decode_version (snapshot_library.marshal_snapshot s)
        ≡ some (some s.binding_version))
      × (snapshot_library.decode_snapshot (snapshot_library.marshal_snapshot s) ≡ some s)
      × (is_empty (snapshot_library.marshal_snapshot s) ≡ false)
written_and_read s (inl e) = rw e (refl, refl, refl)
written_and_read s (inr (inl e)) = rw e (refl, refl, refl)
written_and_read s (inr (inr n)) = absurd n

canonical_base :
    dokploy_base_url url_library "https://Dok.example:443/" ≡ some "https://dok.example"
unfolding dokploy_base_url
canonical_base = refl

stable_base : dokploy_base_url url_library "https://dok.example" ≡ some "https://dok.example"
unfolding dokploy_base_url
stable_base = refl

resolve_target-compile_target_example :
    (bound : Bound) × (compile_target url_library snapshot_library deploy_bundle compose_target
      ≡ some bound)
    × ((targets : String → Option Bound)
        → targets "app" ≡ some bound
        → resolve_target url_library snapshot_library targets "app" bound.snapshot
          ≡ compatible bound.target)
resolve_target-compile_target_example =
    resolve_target-compile_target url_library snapshot_library deploy_bundle compose_target
      deploy_connection "https://dok.example" written_and_read refl refl refl refl canonical_base
      refl stable_base

abbrev tools : Toolbox
tools = record {
  std = example_library;
  urls = url_library;
  snapshots = snapshot_library;
  webhooks = webhook_library;
  decode_envelope = λ b. none;
  marshal_digest = λ d. [];
  marshal_rule = λ r. [];
}

abbrev compiled : Generation
compiled =
    generation_of tools valid_bundle
      (record { id = "ci"; snapshot = 1 ∷ []; fingerprint = "fingerprint" } ∷ [])

compiled_ok : compile tools written_bundle ≡ some compiled
unfolding compile compile_targets compile_target compile_plain bind forward_url
    forward_binding_fingerprint binding_fingerprint_fields
compiled_ok = ap (compile_valid tools) bundle_ok

route-compile_example :
    (d : RouteDecision) × (route compiled main_push_event ≡ some d)
    × NoRepeats (map (λ (n : NewDelivery). n.target_id) d.deliveries)
route-compile_example = route-compile tools written_bundle compiled compiled_ok main_push_event

abbrev rotated : String → String
rotated s = "rotated"

bundle_digest-change_secrets_example :
    bundle_digest
      (λ d. codes d.config_dir)
      (λ b. b)
      (λ b. "digest")
      (change_secrets rotated written_bundle)
    ≡ bundle_digest (λ d. codes d.config_dir) (λ b. b) (λ b. "digest") written_bundle
bundle_digest-change_secrets_example =
    bundle_digest-change_secrets rotated (λ d. codes d.config_dir) (λ b. b) (λ b. "digest")
      written_bundle
