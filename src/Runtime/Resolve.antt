-- ===== src/Runtime/Resolve.antt =====
-- internal/runtimecfg/binding.go: the current target of a historical delivery.
use hookfly.Base.{
  Int64, String, Bool, not, ◌&&◌, ◌||◌, ◌==◌, Option, none, some, str_eq, if◌then◌else◌,
}
use hookfly.Domain.{Bytes}
use hookfly.Store.Routing.{is_empty}
use hookfly.Runtime.Target.{Target, Binding, compatible, target_changed, target_unavailable}
use hookfly.Runtime.Urls.{UrlLibrary, dokploy_base_url, http_base_url, forward_url}
use hookfly.Runtime.Snapshot.{
  HttpTargetSnapshot, ForwardTargetSnapshot, TargetSnapshot, SnapshotLibrary, binding_fingerprint,
  http_binding_fingerprint, forward_binding_fingerprint, tunnel_binding_fingerprint,
}

-- What the resolution reads of a compiled target, and the target that the workers get.
pub record Bound : Type 0 where
  pub target : Target
  pub target_type : String
  pub binding_version : Int64
  pub fingerprint : String
  pub snapshot : Bytes

module _ (urls : UrlLibrary) (lib : SnapshotLibrary) where
  abbrev pub dokploy_fingerprint : Int64 → TargetSnapshot → Option String → Option String
  dokploy_fingerprint version h none = none
  dokploy_fingerprint version h (some base) = some (
      binding_fingerprint lib version (lib.bytes h.target_type) (lib.bytes h.resource_type)
        (lib.bytes base) (lib.bytes h.resource_id))

  abbrev pub http_fingerprint :
      Int64 → TargetSnapshot → Option HttpTargetSnapshot → Option String → Option String
  http_fingerprint version h (some request) (some base) =
      some (http_binding_fingerprint lib version h.connection.id base request)
  http_fingerprint version h _ _ = none

  abbrev pub canonical_forward : Option ForwardTargetSnapshot → Option ForwardTargetSnapshot
  canonical_forward none = none
  canonical_forward (some f) = with_url f (forward_url urls f.url)
    where
      with_url : ForwardTargetSnapshot → Option String → Option ForwardTargetSnapshot
      with_url f none = none
      with_url f (some url) = some (record f { url = url })

  abbrev pub forward_fingerprint : Int64 → Option ForwardTargetSnapshot → Option String
  forward_fingerprint version none = none
  forward_fingerprint version (some f) = some (forward_binding_fingerprint lib version f)

  -- The fingerprint of the historical binding without its tunnel; `none` makes it unavailable.
  unfoldable pub historical_fingerprint : Int64 → TargetSnapshot → Option String
  historical_fingerprint version h =
      if str_eq h.target_type "dokploy"
      then (if str_eq h.resource_type ""
            || (str_eq h.resource_id "" || str_eq h.connection.base_url "")
          then none
          else dokploy_fingerprint version h (dokploy_base_url urls h.connection.base_url))
      else if str_eq h.target_type "http"
      then (if str_eq h.connection.id "" || str_eq h.connection.base_url ""
          then none
          else http_fingerprint version h h.http (http_base_url urls h.connection.base_url))
      else if str_eq h.target_type "forward"
      then forward_fingerprint version (canonical_forward h.forward)
      else none

  abbrev pub compare_binding : Bound → TargetSnapshot → Option String → Binding
  compare_binding current h none = target_unavailable
  compare_binding current h (some fingerprint) =
      if str_eq (tunnel_binding_fingerprint lib fingerprint h.ssh) current.fingerprint
      then compatible current.target
      else target_changed

  abbrev pub is_same_kind : Bound → String → Int64 → TargetSnapshot → Bool
  is_same_kind current id version h =
      version == current.binding_version
      && (str_eq h.id id
          && (not (str_eq h.target_type "") && str_eq h.target_type current.target_type))

  abbrev pub with_historical : Bound → String → Int64 → Option TargetSnapshot → Binding
  with_historical current id version none = target_unavailable
  with_historical current id version (some h) =
      if is_same_kind current id version h
      then compare_binding current h (historical_fingerprint version h)
      else target_unavailable

  abbrev pub with_version : Bound → String → Bytes → Option (Option Int64) → Binding
  with_version current id snapshot (some (some version)) =
      with_historical current id version (lib.decode_snapshot snapshot)
  with_version current id snapshot _ = target_unavailable

  abbrev pub with_current : String → Bytes → Option Bound → Binding
  with_current id snapshot none = target_unavailable
  with_current id snapshot (some current) =
      if is_empty snapshot
      then target_unavailable
      else with_version current id snapshot (lib.decode_version snapshot)

  -- `ResolveTarget`.
  unfoldable pub resolve_target : (String → Option Bound) → String → Bytes → Binding
  resolve_target targets id snapshot = with_current id snapshot (targets id)
