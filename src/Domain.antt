-- ===== src/Domain.antt =====
-- internal/domain: the statuses of a delivery, the canonical event and the routing decision.
-- A status is stored as text; here it is the constructor that stands for that text. Identifiers that
-- `uuid.NewString` draws are numbers, since the code only compares them; times are milliseconds.
use hookfly.Base.{ℕ, String, Bool, true, false, ◌||◌, List, [], ◌∷◌, ◌==◌, ◌≡◌, arith}

abbrev pub Uuid : Type 0
Uuid = ℕ

abbrev pub Millis : Type 0
Millis = ℕ

abbrev pub Bytes : Type 0
Bytes = List ℕ

pub data TransportStatus : Type 0 where
  pending sending enqueued failed unknown : TransportStatus

pub data DeploymentStatus : Type 0 where
  not_started locating running unrecognized : DeploymentStatus
  done error cancelled timeout unknown : DeploymentStatus

pub data Operation : Type 0 where
  retry redeploy : Operation

pub data RoutingResult : Type 0 where
  unmatched record_only deploy deferred unsupported : RoutingResult

pub record CanonicalEvent : Type 0 where
  pub provider : String
  pub source : String
  pub repository : String
  pub event : String
  pub ref : String
  pub status : String
  pub revision : String
  pub commit_message : String
  pub external_id : String
  pub trigger : String

pub record NewDelivery : Type 0 where
  pub target_id : String
  pub target_snapshot : Bytes
  pub dispatch_key : String

pub record RouteDecision : Type 0 where
  pub routing_result : RoutingResult
  pub rule_id : String
  pub rule_snapshot : Bytes
  pub deliveries : List NewDelivery

pub record IngestCommand : Type 0 where
  pub delivery_id : String
  pub canonical_event : CanonicalEvent
  pub received_at : Millis
  pub routing_result : RoutingResult
  pub rule_id : String
  pub rule_snapshot : Bytes
  pub config_digest : String
  pub headers_json : Bytes
  pub payload_json : Bytes
  pub request_json : Bytes
  pub deliveries : List NewDelivery

pub record IngestResult : Type 0 where
  pub event_id : Uuid
  pub duplicate : Bool

-- `==` on statuses, through the number of the constructor.
abbrev transport_code : TransportStatus → ℕ
transport_code TransportStatus.pending = 0
transport_code TransportStatus.sending = 1
transport_code TransportStatus.enqueued = 2
transport_code TransportStatus.failed = 3
transport_code TransportStatus.unknown = 4

abbrev pub same_transport : TransportStatus → TransportStatus → Bool
same_transport s t = transport_code s == transport_code t

abbrev deployment_code : DeploymentStatus → ℕ
deployment_code DeploymentStatus.not_started = 0
deployment_code DeploymentStatus.locating = 1
deployment_code DeploymentStatus.running = 2
deployment_code DeploymentStatus.unrecognized = 3
deployment_code DeploymentStatus.done = 4
deployment_code DeploymentStatus.error = 5
deployment_code DeploymentStatus.cancelled = 6
deployment_code DeploymentStatus.timeout = 7
deployment_code DeploymentStatus.unknown = 8

abbrev pub same_deployment : DeploymentStatus → DeploymentStatus → Bool
same_deployment s t = deployment_code s == deployment_code t

pub same_transport→≡ : (s t : TransportStatus) → same_transport s t ≡ true → s ≡ t
same_transport→≡ s t h = ground arith

pub same_deployment→≡ : (s t : DeploymentStatus) → same_deployment s t ≡ true → s ≡ t
same_deployment→≡ s t h = ground arith

-- The deployment is being monitored: `deployment_status IN ('locating', 'running', 'unrecognized')`.
abbrev pub is_monitored : DeploymentStatus → Bool
is_monitored DeploymentStatus.locating = true
is_monitored DeploymentStatus.running = true
is_monitored DeploymentStatus.unrecognized = true
is_monitored _ = false

-- `transport_status IN ('pending', 'sending')`.
abbrev pub is_open : TransportStatus → Bool
is_open TransportStatus.pending = true
is_open TransportStatus.sending = true
is_open _ = false

abbrev pub is_pending : TransportStatus → Bool
is_pending TransportStatus.pending = true
is_pending _ = false

abbrev pub is_sending : TransportStatus → Bool
is_sending TransportStatus.sending = true
is_sending _ = false

-- Sending or deployment monitoring is in progress.
abbrev pub active : TransportStatus → DeploymentStatus → Bool
active transport deployment =
    same_transport transport TransportStatus.pending
    || (same_transport transport TransportStatus.sending
        || (same_deployment deployment DeploymentStatus.locating
            || (same_deployment deployment DeploymentStatus.running
                || same_deployment deployment DeploymentStatus.unrecognized)))

-- The manual operations that are safe in the current state, by the early returns of the source.
abbrev allowed_after_send : DeploymentStatus → List Operation
allowed_after_send DeploymentStatus.error = Operation.redeploy ∷ []
allowed_after_send DeploymentStatus.cancelled = Operation.redeploy ∷ []
allowed_after_send DeploymentStatus.timeout = Operation.redeploy ∷ []
allowed_after_send DeploymentStatus.unknown = Operation.redeploy ∷ []
allowed_after_send _ = []

abbrev pub allowed_operations : TransportStatus → DeploymentStatus → List Operation
allowed_operations TransportStatus.failed deployment = Operation.retry ∷ []
allowed_operations TransportStatus.unknown deployment = Operation.retry ∷ []
allowed_operations _ deployment = allowed_after_send deployment

-- The SQL of the store and `Active` agree on what is active.
pub active-open-monitored :
    (t : TransportStatus) (d : DeploymentStatus) → active t d ≡ (is_open t || is_monitored d)
active-open-monitored t d = ground arith
