-- ===== src/Runtime/Snapshot.antt =====
-- internal/runtimecfg/generation.go and ssh.go: what a delivery remembers of its target, and the
-- fingerprint of a binding.
use hookfly.Base.{
  Int64, int, String, Bool, Option, none, some, List, [], ◌∷◌, str_eq, if◌then◌else◌,
}
use hookfly.Domain.{Bytes}
use hookfly.Config.Bundle.{StringLists, BodyValue, SshTunnel}
use hookfly.Webhook.Framing.{write_all}

pub record ConnectionSnapshot : Type 0 where
  pub id : String
  pub base_url : String

pub record HttpBodySnapshot : Type 0 where
  pub body_type : String
  pub content_type : String
  pub value : BodyValue

pub record HttpTargetSnapshot : Type 0 where
  pub method : String
  pub path : String
  pub query : StringLists
  pub headers : List (String × String)
  pub body : Option HttpBodySnapshot
  pub success_statuses : List Int64

pub record ForwardTargetSnapshot : Type 0 where
  pub url : String
  pub host : String
  pub allow_private_network : Bool

pub record SshSnapshot : Type 0 where
  pub id : String
  pub host : String
  pub port : Int64
  pub user : String

pub record TargetSnapshot : Type 0 where
  pub ssh : Option SshSnapshot
  pub binding_version : Int64
  pub id : String
  pub target_type : String
  pub resource_type : String
  pub resource_id : String
  pub connection : ConnectionSnapshot
  pub http : Option HttpTargetSnapshot
  pub forward : Option ForwardTargetSnapshot

-- JSON, printing and hashing of Go's library; `none` is an error. `decode_version` reads the field
-- `binding_version` alone, which may be absent.
pub record SnapshotLibrary : Type 0 where
  pub bytes : String → Bytes
  pub print_int : Int64 → String
  pub sha256 : Bytes → Bytes
  pub encode_hex : Bytes → String
  pub marshal_http : HttpTargetSnapshot → Bytes
  pub marshal_forward : ForwardTargetSnapshot → Bytes
  pub marshal_ssh : SshSnapshot → Bytes
  pub marshal_snapshot : TargetSnapshot → Bytes
  pub decode_version : Bytes → Option (Option Int64)
  pub decode_snapshot : Bytes → Option TargetSnapshot
  pub clone_json : BodyValue → BodyValue

abbrev pub binding_version : Int64
binding_version = int 2

module _ (lib : SnapshotLibrary) where
  unfoldable pub binding_fingerprint_fields : List Bytes → String
  binding_fingerprint_fields fields = lib.encode_hex (lib.sha256 (write_all fields))

  unfoldable pub binding_fingerprint : Int64 → Bytes → Bytes → Bytes → Bytes → String
  binding_fingerprint version target_type resource_type base_url resource_id =
      binding_fingerprint_fields (
        lib.bytes (lib.print_int version)
        ∷ target_type
        ∷ resource_type
        ∷ base_url
        ∷ resource_id
        ∷ [])

  unfoldable pub http_binding_fingerprint :
      Int64 → (connection_id base_url : String) → HttpTargetSnapshot → String
  http_binding_fingerprint version connection_id base_url request = binding_fingerprint_fields (
      lib.bytes (lib.print_int version)
      ∷ lib.bytes "http"
      ∷ lib.bytes connection_id
      ∷ lib.bytes base_url
      ∷ lib.marshal_http request
      ∷ [])

  unfoldable pub forward_binding_fingerprint : Int64 → ForwardTargetSnapshot → String
  forward_binding_fingerprint version target =
      binding_fingerprint_fields
        (lib.bytes (lib.print_int version) ∷ lib.bytes "forward" ∷ lib.marshal_forward target ∷ [])

  -- A tunnel is part of the binding.
  unfoldable pub tunnel_binding_fingerprint : String → Option SshSnapshot → String
  tunnel_binding_fingerprint base none = base
  tunnel_binding_fingerprint base (some tunnel) =
      binding_fingerprint (int 1) (lib.bytes "ssh") (lib.bytes base) (lib.marshal_ssh tunnel)
        (lib.bytes "")

abbrev pub ssh_snapshot : SshTunnel → SshSnapshot
ssh_snapshot t = record { id = t.id; host = t.host; port = t.port; user = t.user }

unfoldable pub tunnel_identity : List SshTunnel → String → Option SshSnapshot
tunnel_identity [] id = none
tunnel_identity (t ∷ ts) id =
    let rest = tunnel_identity ts id in if str_eq t.id id then some (ssh_snapshot t) else rest
