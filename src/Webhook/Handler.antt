-- ===== src/Webhook/Handler.antt =====
-- internal/publichook/handler.go: from a request to the ingestion of its webhook, under the read gate of
-- the generation. A manager without a generation, which Go answers as unavailable, does not occur here.
use hookfly.Store.Headers.{HeaderCodec}
use hookfly.Base.{
  String, Bool, true, false, ◌&&◌, ◌||◌, Option, none, some, List, [], any, if◌then◌else◌, str_eq,
}
use hookfly.Domain.{
  Bytes, Millis, CanonicalEvent, RoutingResult, NewDelivery, RouteDecision, IngestCommand,
  IngestResult,
}
use hookfly.Store.Tables.{Db, Result, ok, err}
use hookfly.Store.Routing.{ingest, ingest_deferred}
use hookfly.Runtime.Manager.{State, Manager, notify_drain}
use hookfly.Worker.Drainer.{Generation, route}
use hookfly.Webhook.Provider.{Headers, SafeHeaders, IncomingEvent, Library}
use hookfly.Webhook.Source.{Source, normalize}
use hookfly.Webhook.Identity.{delivery_identity}

-- The body as `io.ReadAll` reads it under the limit of 2 MiB.
pub data Body : Type 0 where
  read : Bytes → Body
  too_large : Body
  unreadable : Body

pub record Request : Type 0 where
  pub method : String
  pub host : String
  pub raw_query : String
  pub source_id : String
  pub headers : Headers
  pub body : Body

-- The status and what a client reads of an accepted webhook.
pub data Response : Type 0 where
  accepted : IngestResult → Response
  bad_request unauthorized not_found payload_too_large internal_error unavailable : Response

abbrev pub is_accepted : Response → Bool
is_accepted (accepted result) = true
is_accepted _ = false

-- JSON encoding, and the `type` of a target's snapshot, where it decodes.
pub record Encoding : Type 0 where
  pub marshal_headers : SafeHeaders → Option Bytes
  pub marshal_request : Request → Option Bytes
  pub snapshot_type : Bytes → Option String

pub record Served : Type 0 where
  pub response : Response
  pub manager : Manager Generation
  pub db : Db

abbrev pub reload_defers : State → Bool
reload_defers State.waiting = true
reload_defers State.draining = true
reload_defers State.applying = true
reload_defers _ = false

abbrev is_type : String → Option String → Bool
is_type name none = false
is_type name (some t) = str_eq t name

abbrev plain_decision : RoutingResult → RouteDecision
plain_decision result = record {
  routing_result = result;
  rule_id = "";
  rule_snapshot = [];
  deliveries = [];
}

-- The routing of a webhook: only a supported event is routed, and not while a reload defers it.
unfoldable pub decide : Generation → State → Bool → CanonicalEvent → Option RouteDecision
decide g state supported event =
    if supported
    then (if reload_defers state
        then some (plain_decision RoutingResult.deferred)
        else route g event)
    else some (plain_decision RoutingResult.unsupported)

module _ (lib : Library) (enc : Encoding) (codec : HeaderCodec) where
  abbrev pub is_forward : NewDelivery → Bool
  is_forward n = is_type "forward" (enc.snapshot_type n.target_snapshot)

  unfoldable pub has_forward_delivery : List NewDelivery → Bool
  has_forward_delivery ds = any is_forward ds

  abbrev pub command_of :
      Millis
      → Generation
      → CanonicalEvent
      → IncomingEvent
      → Bytes
      → (headers request : Bytes) → RouteDecision
      → IngestCommand
  command_of now g event incoming body headers request decision = record {
    delivery_id = delivery_identity lib event incoming body;
    canonical_event = event;
    received_at = now;
    routing_result = decision.routing_result;
    rule_id = decision.rule_id;
    rule_snapshot = decision.rule_snapshot;
    config_digest = g.digest;
    headers_json = headers;
    payload_json = body;
    request_json = request;
    deliveries = decision.deliveries;
  }

  module _ (provider : String) (now : Millis) (req : Request) (m : Manager Generation)
      (db : Db) where
    abbrev pub refused : Response → Served
    refused response = record { response = response; manager = m; db = db }

    abbrev pub answer : (deferred : Bool) → Result (IngestResult × Db) → Served
    answer deferred (err e) = refused unavailable
    answer deferred (ok (result, db')) = record {
      response = accepted result;
      manager = if deferred then notify_drain m else m;
      db = db';
    }

    -- The durable ingestion, direct or deferred.
    unfoldable pub store_command : (deferred : Bool) → IngestCommand → Served
    store_command deferred c =
        answer deferred (if deferred then ingest_deferred codec c db else ingest codec c db)

    abbrev pub with_request :
        CanonicalEvent → IncomingEvent → Bytes → Bytes → RouteDecision → Option Bytes → Served
    with_request event incoming body headers decision none = refused internal_error
    with_request event incoming body headers decision (some request) =
        store_command (incoming.supported && reload_defers m.state)
          (command_of now m.current event incoming body headers request decision)

    -- The request is kept for a deferred event and for a forward target.
    abbrev pub kept_request : IncomingEvent → RouteDecision → Option Bytes
    kept_request incoming decision =
        if (incoming.supported && reload_defers m.state) || has_forward_delivery decision.deliveries
        then enc.marshal_request req
        else some []

    abbrev pub with_decision :
        CanonicalEvent → IncomingEvent → Bytes → Bytes → Option RouteDecision → Served
    with_decision event incoming body headers none = refused unavailable
    with_decision event incoming body headers (some decision) =
        with_request event incoming body headers decision (kept_request incoming decision)

    abbrev pub with_headers : CanonicalEvent → IncomingEvent → Bytes → Option Bytes → Served
    with_headers event incoming body none = refused internal_error
    with_headers event incoming body (some headers) =
        with_decision event incoming body headers
          (decide m.current m.state incoming.supported event)

    -- A GitLab token is only good for the repositories that are configured.
    abbrev pub is_foreign : CanonicalEvent → IncomingEvent → Bool
    is_foreign event incoming =
        str_eq provider "gitlab" && (incoming.supported && str_eq event.repository "")

    abbrev pub with_event : Bytes → Option (CanonicalEvent × IncomingEvent) → Served
    with_event body none = refused bad_request
    with_event body (some (event, incoming)) =
        if is_foreign event incoming
        then refused unauthorized
        else with_headers event incoming body (enc.marshal_headers incoming.safe_headers)

    abbrev pub with_body : Source → Body → Served
    with_body s too_large = refused payload_too_large
    with_body s unreadable = refused bad_request
    with_body s (read body) =
        if s.adapter.authenticate req.headers body
        then with_event body (normalize s req.headers body)
        else refused unauthorized

    abbrev pub with_source : Response → Option Source → Served
    with_source missing none = refused missing
    with_source missing (some s) = with_body s req.body

    abbrev authentic : Option Source → Option Source
    authentic none = none
    authentic (some s) = if s.adapter.authenticate req.headers [] then some s else none

    -- `GitLabSource`.
    unfoldable pub gitlab_source : Option Source
    gitlab_source =
        if str_eq (req.headers "X-Gitlab-Token") ""
        then none
        else authentic
            (m.current.gitlab_sources (lib.sha256 (lib.bytes (req.headers "X-Gitlab-Token"))))

    -- `ServeHTTP`.
    unfoldable pub serve : Served
    serve =
        if str_eq provider "gitlab"
        then with_source unauthorized gitlab_source
        else with_source not_found (m.current.sources provider req.source_id)
