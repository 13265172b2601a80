-- ===== src/Runtime/Compile.antt =====
-- internal/runtimecfg/generation.go: the binding of each target of a validated configuration. Of the
-- clients only the URLs are modelled; times are in whole milliseconds.
use Prim.Native.Nat.{◌/◌}
use hookfly.Base.{
  ℕ, ◌-◌, ◌*◌, Int64, int, String, true, ltb, leb, Option, none, some, find?, str_eq, if◌then◌else◌,
}
use hookfly.Domain.{Millis, Bytes}
use hookfly.Runtime.Target as RuntimeTarget
use hookfly.Runtime.Target.{Executable}
use hookfly.Config.Bundle.{Polling, DokployConnection, HttpConnection, HttpBody, Target, Bundle}
use hookfly.Runtime.Urls.{UrlLibrary, dokploy_base_url, http_base_url, forward_url}
use hookfly.Runtime.Snapshot.{
  HttpBodySnapshot, HttpTargetSnapshot, ForwardTargetSnapshot, SshSnapshot, TargetSnapshot,
  SnapshotLibrary, binding_version, binding_fingerprint, http_binding_fingerprint,
  forward_binding_fingerprint, tunnel_binding_fingerprint, tunnel_identity,
}
use hookfly.Runtime.Resolve.{Bound}

-- Durations are nanoseconds.
abbrev millisecond : ℕ
millisecond = 1000000

abbrev second : ℕ
second = 1000000000

abbrev at_least_millisecond : Int64 → Int64
at_least_millisecond d =
    if leb d (int 0) then int second else if ltb d (int millisecond) then int millisecond else d

abbrev or_half_hour : Int64 → Int64
or_half_hour d = if leb d (int 0) then int (1800 * second) else d

unfoldable pub polling_settings : Polling → Int64 × Int64
polling_settings p = (at_least_millisecond p.interval, or_half_hour p.timeout)

abbrev in_millis : Int64 → Millis
in_millis d = (d - int 0) / millisecond

abbrev timeout_of : Int64 → Option Int64 → Int64
timeout_of default none = default
timeout_of default (some d) = if ltb (int 0) d then d else default

-- What the first loop over the targets makes of one, before the pass that adds its tunnel.
pub record Plain : Type 0 where
  pub snapshot : TargetSnapshot
  pub fingerprint : String
  pub tunnel : String
  pub compose_id : String
  pub executable : Executable

module _ (urls : UrlLibrary) (lib : SnapshotLibrary) where
  abbrev pub dokploy_plain : DokployConnection → Target → String → Plain
  dokploy_plain c t base = record {
    snapshot = record {
      ssh = none;
      binding_version = binding_version;
      id = t.id;
      target_type = t.target_type;
      resource_type = t.resource_type;
      resource_id = t.resource_id;
      connection = record { id = c.id; base_url = base };
      http = none;
      forward = none;
    };
    fingerprint =
        binding_fingerprint lib binding_version (lib.bytes t.target_type)
          (lib.bytes t.resource_type) (lib.bytes base) (lib.bytes t.resource_id);
    tunnel = c.ssh_tunnel;
    compose_id = t.resource_id;
    executable = Executable.dokploy;
  }

  -- `compileHTTPBody` and then `newHTTPBodySnapshot`.
  abbrev body_snapshot : Option HttpBody → Option HttpBodySnapshot
  body_snapshot none = none
  body_snapshot (some body) = some (record {
    body_type = body.body_type;
    content_type = body.content_type;
    value =
        if str_eq body.body_type "form"
        then lib.clone_json body.value
        else lib.clone_json (lib.clone_json body.value);
  })

  abbrev http_snapshot : Target → HttpTargetSnapshot
  http_snapshot t = record {
    method = t.method;
    path = t.path;
    query = t.query;
    headers = t.headers;
    body = body_snapshot t.body;
    success_statuses = t.success_statuses;
  }

  abbrev pub http_plain : HttpConnection → Target → String → Plain
  http_plain c t base = record {
    snapshot = record {
      ssh = none;
      binding_version = binding_version;
      id = t.id;
      target_type = t.target_type;
      resource_type = "";
      resource_id = "";
      connection = record { id = c.id; base_url = base };
      http = some (http_snapshot t);
      forward = none;
    };
    fingerprint = http_binding_fingerprint lib binding_version c.id base (http_snapshot t);
    tunnel = c.ssh_tunnel;
    compose_id = "";
    executable = Executable.http true;
  }

  abbrev forward_snapshot : Target → String → ForwardTargetSnapshot
  forward_snapshot t url = record {
    url = url;
    host = t.host;
    allow_private_network = t.allow_private_network;
  }

  abbrev pub forward_plain : Target → String → Plain
  forward_plain t url = record {
    snapshot = record {
      ssh = none;
      binding_version = binding_version;
      id = t.id;
      target_type = t.target_type;
      resource_type = "";
      resource_id = "";
      connection = record { id = ""; base_url = "" };
      http = none;
      forward = some (forward_snapshot t url);
    };
    fingerprint = forward_binding_fingerprint lib binding_version (forward_snapshot t url);
    tunnel = t.ssh_tunnel;
    compose_id = "";
    executable = Executable.forward true;
  }

  abbrev to_plain : {C : Type 0} → (C → String → Plain) → C → Option String → Option Plain
  to_plain make c none = none
  to_plain make c (some base) = some (make c base)

  abbrev pub dokploy_with : Target → Option DokployConnection → Option Plain
  dokploy_with t none = none
  dokploy_with t (some c) =
      to_plain (λ c base. dokploy_plain c t base) c (dokploy_base_url urls c.base_url)

  abbrev http_with : Target → Option HttpConnection → Option Plain
  http_with t none = none
  http_with t (some c) = to_plain (λ c base. http_plain c t base) c (http_base_url urls c.base_url)

  -- `none` is an error, or a connection that validation would have missed.
  unfoldable pub compile_plain : Bundle → Target → Option Plain
  compile_plain b t =
      if str_eq t.target_type "dokploy"
      then dokploy_with t (find? (λ c. str_eq c.id t.connection) b.dokploy_connections)
      else if str_eq t.target_type "http"
      then http_with t (find? (λ c. str_eq c.id t.connection) b.http_connections)
      else if str_eq t.target_type "forward"
      then to_plain forward_plain t (forward_url urls t.url)
      else none

  abbrev pub runtime_target : Bundle → Target → Plain → RuntimeTarget.Target
  runtime_target b t p = record {
    id = t.id;
    compose_id = p.compose_id;
    executable = p.executable;
    poll_interval = in_millis (polling_settings b.global.polling).0;
    poll_timeout = in_millis (timeout_of (polling_settings b.global.polling).1 t.poll_timeout);
  }

  abbrev pub bound_of : Bundle → Target → Plain → String → Bytes → Bound
  bound_of b t p fingerprint snapshot = record {
    target = runtime_target b t p;
    target_type = t.target_type;
    binding_version = binding_version;
    fingerprint = fingerprint;
    snapshot = snapshot;
  }

  abbrev pub identity_of : String → Option SshSnapshot → SshSnapshot
  identity_of id none = record { id = id; host = ""; port = int 0; user = "" }
  identity_of id (some s) = s

  -- The snapshot is decoded and encoded again to add the tunnel.
  abbrev pub with_tunnel :
      Bundle → Target → Plain → SshSnapshot → Option TargetSnapshot → Option Bound
  with_tunnel b t p ssh none = none
  with_tunnel b t p ssh (some snapshot) = some (
      bound_of b t p (tunnel_binding_fingerprint lib p.fingerprint (some ssh))
        (lib.marshal_snapshot (record snapshot { ssh = some ssh })))

  unfoldable pub bind : Bundle → Target → Plain → Option Bound
  bind b t p =
      if str_eq p.tunnel ""
      then some (bound_of b t p p.fingerprint (lib.marshal_snapshot p.snapshot))
      else with_tunnel b t p (identity_of p.tunnel (tunnel_identity b.ssh_tunnels p.tunnel))
          (lib.decode_snapshot (lib.marshal_snapshot p.snapshot))

  abbrev pub bind_plain : Bundle → Target → Option Plain → Option Bound
  bind_plain b t none = none
  bind_plain b t (some p) = bind b t p

  -- One target of `compileBundle`, through both loops.
  unfoldable pub compile_target : Bundle → Target → Option Bound
  compile_target b t = bind_plain b t (compile_plain b t)
