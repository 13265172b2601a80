-- ===== src/Runtime/Compatibility.antt =====
-- internal/runtimecfg: a delivery finds the target that it was made for.
use hookfly.Base.{
  Int64, String, true, false, Option, none, some, List, [], ◌∷◌, ◌≡◌, refl, ap, ◌∙◌, str_eq,
  str_eq_self, if◌then◌else◌, Bool-cases, inl, inr, find?, In,
}
use hookfly.Domain.{Bytes}
use hookfly.Store.Routing.{is_empty}
use hookfly.Config.Bundle.{DokployConnection, Target, Bundle}
use hookfly.Runtime.Target.{compatible}
use hookfly.Runtime.Urls.{UrlLibrary, dokploy_base_url}
use hookfly.Runtime.Snapshot.{
  SshSnapshot, TargetSnapshot, SnapshotLibrary, binding_version, tunnel_binding_fingerprint,
  tunnel_identity,
}
use hookfly.Runtime.Resolve.{Bound, historical_fingerprint, is_same_kind, resolve_target}
use hookfly.Runtime.Compile.{
  Plain, dokploy_plain, compile_plain, bound_of, identity_of, bind, bind_plain, compile_target,
}

module _ (urls : UrlLibrary) (lib : SnapshotLibrary) where
  resolve_compared :
      (targets : String → Option Bound) (id : String) (snapshot : Bytes) (current : Bound)
      (version : Int64) (h : TargetSnapshot) (f : String)
      → targets id ≡ some current
      → is_empty snapshot ≡ false
      → lib.decode_version snapshot ≡ some (some version)
      → lib.decode_snapshot snapshot ≡ some h
      → is_same_kind urls lib current id version h ≡ true
      → historical_fingerprint urls lib version h ≡ some f
      → str_eq (tunnel_binding_fingerprint lib f h.ssh) current.fingerprint ≡ true
      → resolve_target urls lib targets id snapshot ≡ compatible current.target
  unfolding resolve_target
  resolve_compared targets id snapshot current version h f found full v s same print matches =
      rw (found, resolve_target, full, v, s, same, print, matches) refl

module _ (urls : UrlLibrary) (lib : SnapshotLibrary) where
  -- The tunnel that the second loop adds.
  abbrev pub tunnel_of : Bundle → DokployConnection → Option SshSnapshot
  tunnel_of b c =
      if str_eq c.ssh_tunnel ""
      then none
      else some (identity_of urls lib c.ssh_tunnel (tunnel_identity b.ssh_tunnels c.ssh_tunnel))

  -- The snapshots that the compilation of a target encodes.
  abbrev pub written_snapshots : Bundle → DokployConnection → Target → String → List TargetSnapshot
  written_snapshots b c t base =
      (dokploy_plain urls lib c t base).snapshot
      ∷ record ((dokploy_plain urls lib c t base).snapshot) { ssh = tunnel_of b c }
      ∷ []

module _ (urls : UrlLibrary) (lib : SnapshotLibrary) (b : Bundle) (t : Target)
    (c : DokployConnection) (base : String)
    (json : (s : TargetSnapshot)
      → In s (written_snapshots urls lib b c t base)
      → (lib.decode_version (lib.marshal_snapshot s) ≡ some (some s.binding_version))
        × (lib.decode_snapshot (lib.marshal_snapshot s) ≡ some s)
        × (is_empty (lib.marshal_snapshot s) ≡ false))
    (dokploy : t.target_type ≡ "dokploy") (typed : str_eq t.resource_type "" ≡ false)
    (named : str_eq t.resource_id "" ≡ false)
    (connected : find? (λ c. str_eq c.id t.connection) b.dokploy_connections ≡ some c)
    (canonical : dokploy_base_url urls c.base_url ≡ some base) (set : str_eq base "" ≡ false)
    (stable : dokploy_base_url urls base ≡ some base) where
  abbrev plain : Plain
  plain = dokploy_plain urls lib c t base

  is_dokploy : str_eq t.target_type "dokploy" ≡ true
  is_dokploy = rw dokploy refl

  plain_made : compile_plain urls lib b t ≡ some plain
  unfolding compile_plain
  plain_made = rw (is_dokploy, connected, canonical) refl

  abbrev with_ssh : Option SshSnapshot → TargetSnapshot
  with_ssh ssh = record (plain.snapshot) { ssh = ssh }

  historical :
      (ssh : Option SshSnapshot)
      → historical_fingerprint urls lib binding_version (with_ssh ssh) ≡ some plain.fingerprint
  unfolding historical_fingerprint
  historical ssh = rw (is_dokploy, typed, named, set, stable) refl

  abbrev bound_with : Option SshSnapshot → Bound
  bound_with ssh =
      bound_of urls lib b t plain (tunnel_binding_fingerprint lib plain.fingerprint ssh)
        (lib.marshal_snapshot (with_ssh ssh))

  same_kind :
      (ssh : Option SshSnapshot)
      → is_same_kind urls lib (bound_with ssh) t.id binding_version (with_ssh ssh) ≡ true
  same_kind ssh = rw (str_eq_self t.id, str_eq_self t.target_type, dokploy) refl

  resolved :
      (targets : String → Option Bound)
      → targets t.id ≡ some (bound_with (tunnel_of urls lib b c))
      → resolve_target urls lib targets t.id (bound_with (tunnel_of urls lib b c)).snapshot
        ≡ compatible (bound_with (tunnel_of urls lib b c)).target
  resolved targets found =
      let ssh = tunnel_of urls lib b c in
      let (version, decoded, written) = json (with_ssh ssh) (inr (inl refl)) in
      resolve_compared urls lib targets t.id (lib.marshal_snapshot (with_ssh ssh)) (bound_with ssh)
        binding_version (with_ssh ssh) plain.fingerprint found written version decoded
        (same_kind ssh) (historical ssh)
        (str_eq_self (tunnel_binding_fingerprint lib plain.fingerprint ssh))

  bound_made : bind urls lib b t plain ≡ some (bound_with (tunnel_of urls lib b c))
  unfolding bind tunnel_binding_fingerprint
  bound_made = elim (Bool-cases (str_eq c.ssh_tunnel "")) [
    | inl e ↦ rw e refl
    | inr e ↦ rw (e, (json plain.snapshot (inl refl)).1) refl
  ]

  -- A Dokploy target with a resource, whose canonical base URL is its own canonical form, compiles, with
  -- or without a tunnel; and where the generation has it under its ID, the snapshot that its deliveries
  -- keep resolves to it as a compatible binding.
  pub resolve_target-compile_target :
      (bound : Bound) × (compile_target urls lib b t ≡ some bound)
      × ((targets : String → Option Bound)
          → targets t.id ≡ some bound
          → resolve_target urls lib targets t.id bound.snapshot ≡ compatible bound.target)
  unfolding compile_target
  resolve_target-compile_target = (
    bound_with (tunnel_of urls lib b c),
    ap (bind_plain urls lib b t) plain_made ∙ bound_made,
    resolved,
  )
