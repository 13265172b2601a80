-- ===== src/Config/Bundle.antt =====
-- internal/config/types.go: the decoded configuration set. Source locations, which only the texts of
-- errors name, are left out; the maps of a document are lists of their entries, in the order in which
-- the code ranges over them.
use hookfly.Base.{Int64, String, Bool, Option, List}
use hookfly.Matcher.{Route}

pub record GlobalHistory : Type 0 where
  pub global_limit : Int64
  pub default_repository_limit : Int64

pub record Polling : Type 0 where
  pub interval : Int64
  pub timeout : Int64

pub record Global : Type 0 where
  pub kind : String
  pub config_dir : String
  pub history : GlobalHistory
  pub polling : Polling

pub record Repository : Type 0 where
  pub id : String
  pub name : String
  pub external_id : String
  pub history_limit : Option Int64

-- A GitLab, GitHub or Harbor source; its credential is the token, the secret or the authorization.
pub record Source : Type 0 where
  pub id : String
  pub credential : String
  pub repositories : List Repository

pub record DokployConnection : Type 0 where
  pub ssh_tunnel : String
  pub id : String
  pub base_url : String
  pub api_key : String

pub record HttpAuthentication : Type 0 where
  pub auth_type : String
  pub value : String
  pub header : String

pub record HttpConnection : Type 0 where
  pub ssh_tunnel : String
  pub id : String
  pub base_url : String
  pub allow_private_network : Bool
  pub auth : HttpAuthentication

abbrev pub StringLists : Type 0
StringLists = List (String × List String)

-- The `any` of a body, by the dynamic types that the validation tells apart.
mutual
  pub data BodyValue : Type 0 where
    scalar : BodyValue
    text : String → BodyValue
    array : BodyValues → BodyValue
    object : BodyValues → BodyValue
    form : StringLists → BodyValue
    opaque : BodyValue

  pub data BodyValues : Type 0 where
    nil : BodyValues
    cons : BodyValue → BodyValues → BodyValues

pub record HttpBody : Type 0 where
  pub body_type : String
  pub content_type : String
  pub value : BodyValue

pub record Target : Type 0 where
  pub ssh_tunnel : String
  pub id : String
  pub target_type : String
  pub connection : String
  pub resource_type : String
  pub resource_id : String
  pub poll_timeout : Option Int64
  pub method : String
  pub path : String
  pub query : StringLists
  pub headers : List (String × String)
  pub body : Option HttpBody
  pub success_statuses : List Int64
  pub url : String
  pub host : String
  pub allow_private_network : Bool

pub record SshTunnel : Type 0 where
  pub configuration_error : String
  pub id : String
  pub host : String
  pub port : Int64
  pub user : String
  pub private_key_file : String
  pub known_hosts_file : String
  pub host_key_policy : String

pub record Bundle : Type 0 where
  pub ssh_tunnels : List SshTunnel
  pub global : Global
  pub gitlab_sources : List Source
  pub github_sources : List Source
  pub harbor_sources : List Source
  pub dokploy_connections : List DokployConnection
  pub http_connections : List HttpConnection
  pub targets : List Target
  pub routes : List Route
