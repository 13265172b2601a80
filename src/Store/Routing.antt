-- ===== src/Store/Routing.antt =====
-- internal/store/ingest.go, routing.go and history.go: direct and deferred ingestion, the FIFO
-- routing queue, the counts that gate a reload, and the clearing of the history.
pub mod Laws
pub mod Replay
pub mod Credentials
pub mod Finalize
pub mod Queue
pub mod Arrivals
pub mod Departures
use mathlib.Core.Option
use mathlib.Core.List.{head?}
use hookfly.Store.Headers.{HeaderCodec, safe_headers_json}
use hookfly.Base.{
  ℕ, suc, String, Bool, true, false, not, ◌&&◌, ◌||◌, Option, none, some, List, [], ◌∷◌, ◌++◌, ◌==◌,
  if◌then◌else◌, find?, any, keep_if, length, join, order_by, str_eq, is_some, is_taken,
  rows_affected,
}
use hookfly.Domain.{
  Uuid, Millis, Bytes, RoutingResult, CanonicalEvent, NewDelivery, RouteDecision, IngestCommand,
  IngestResult, TransportStatus, DeploymentStatus,
}
use hookfly.Store.Tables.{
  EventRow, DeliveryRow, AttemptRow, Kind, QueueRow, Db, invalid_command, constraint_failed,
  attempt_not_sending, history_active, Result, ok, err, ◌>>=◌, ◌>>◌, guard, or_fail, update_one,
  rows, new_uuid, drawn,
}
use hookfly.Store.Recovery.{is_active_row}
use hookfly.Store.Attempts.{nullable}

abbrev pub is_deferred : RoutingResult → Bool
is_deferred RoutingResult.deferred = true
is_deferred _ = false

abbrev pub is_deploy : RoutingResult → Bool
is_deploy RoutingResult.deploy = true
is_deploy _ = false

abbrev pub is_empty : {A : Type 0} → List A → Bool
is_empty [] = true
is_empty (x ∷ xs) = false

unfoldable pub validate_deliveries : RoutingResult → List NewDelivery → Result (Unit {0})
validate_deliveries result deliveries =
    guard (is_empty deliveries || is_deploy result) invalid_command

-- Provider, source, event and delivery ID must not be empty.
unfoldable pub validate_persisted_event : IngestCommand → Result (Unit {0})
validate_persisted_event c =
    guard
      (not (str_eq c.canonical_event.provider "")
        && (not (str_eq c.canonical_event.source "")
            && (not (str_eq c.canonical_event.event "") && not (str_eq c.delivery_id ""))))
      invalid_command

-- UNIQUE (provider, source_id, delivery_id).
abbrev pub is_duplicate : IngestCommand → EventRow → Bool
is_duplicate c e =
    str_eq e.canonical.provider c.canonical_event.provider
    && (str_eq e.canonical.source c.canonical_event.source && str_eq e.delivery_id c.delivery_id)

-- `safeHeadersJSON`, which drops headers that carry credentials, is a parameter: it decodes JSON.
module _ (codec : HeaderCodec) where
  abbrev pub event_row : Uuid → IngestCommand → EventRow
  event_row id c = record {
    id = id;
    canonical = c.canonical_event;
    delivery_id = c.delivery_id;
    received_at = c.received_at;
    routing_result = c.routing_result;
    rule_id = if is_deferred c.routing_result then none else nullable c.rule_id;
    rule_snapshot = if is_deferred c.routing_result then [] else c.rule_snapshot;
    config_digest = c.config_digest;
    headers_json = safe_headers_json codec c.headers_json;
    payload_json = c.payload_json;
    request_json = c.request_json;
  }

-- A new delivery, as the second UPDATE of its insertion leaves it.
abbrev pub new_delivery_row : Uuid → Uuid → Uuid → NewDelivery → Millis → DeliveryRow
new_delivery_row id attempt_id event_id n at = record {
  id = id;
  event_id = event_id;
  target_id = n.target_id;
  target_snapshot = n.target_snapshot;
  dispatch_key = nullable n.dispatch_key;
  current_attempt_id = some attempt_id;
  transport_status = TransportStatus.pending;
  deployment_status = DeploymentStatus.not_started;
  created_at = at;
  updated_at = at;
}

abbrev pub initial_attempt : Uuid → Uuid → Millis → AttemptRow
initial_attempt id delivery_id at = record {
  id = id;
  delivery_id = delivery_id;
  kind = Kind.initial;
  actor = none;
  transport_status = TransportStatus.pending;
  deployment_status = DeploymentStatus.not_started;
  request_json = none;
  response_json = none;
  request_at = none;
  response_at = none;
  enqueued_at = none;
  deployment_id = none;
  deployment_cursor = none;
  poll_due_at = none;
  monitoring_deadline_at = none;
  last_polled_at = none;
  created_at = at;
}

-- PRIMARY KEY and UNIQUE (event_id, target_id) of `deliveries`.
abbrev pub delivery_clashes : Uuid → Uuid → String → List DeliveryRow → Bool
delivery_clashes id event_id target_id ds =
    is_taken (λ (d : DeliveryRow). d.id) id ds
    || any (λ d. d.event_id == event_id && str_eq d.target_id target_id) ds

abbrev pub with_delivery : Uuid → Millis → NewDelivery → Db → Db
with_delivery event_id at n db = record (drawn (drawn db)) {
  deliveries =
      db.deliveries ++ new_delivery_row (new_uuid db) (new_uuid (drawn db)) event_id n at ∷ [];
  attempts = db.attempts ++ initial_attempt (new_uuid (drawn db)) (new_uuid db) at ∷ [];
}

-- One delivery with its initial attempt; the first identifier drawn is the delivery's.
unfoldable pub insert_delivery : Uuid → Millis → NewDelivery → Db → Result Db
insert_delivery event_id at n db = do
  guard (not (delivery_clashes (new_uuid db) event_id n.target_id db.deliveries)) constraint_failed
  guard (not (is_taken (λ (a : AttemptRow). a.id) (new_uuid (drawn db)) db.attempts))
      constraint_failed
  ok (with_delivery event_id at n db)

unfoldable pub insert_deliveries : Uuid → Millis → List NewDelivery → Db → Result Db
insert_deliveries event_id at [] db = ok db
insert_deliveries event_id at (n ∷ ns) db = do
  db' ← insert_delivery event_id at n db
  insert_deliveries event_id at ns db'

module _ (codec : HeaderCodec) where
  -- `INSERT INTO events … ON CONFLICT DO NOTHING`: the event there is, or the new one.
  unfoldable pub insert_event : IngestCommand → Db → Result (IngestResult × Db)
  insert_event c db = elim (find? (is_duplicate c) db.events) [
    | some e ↦ ok (record { event_id = e.id; duplicate = true }, drawn db)
    | none ↦
        if is_taken (λ (e : EventRow). e.id) (new_uuid db) db.events
        then err constraint_failed
        else ok (
          record { event_id = new_uuid db; duplicate = false },
          record (drawn db) { events = db.events ++ event_row codec (new_uuid db) c ∷ [] },
        )
  ]

  -- The deliveries of a new event; a duplicate is returned as it is.
  abbrev pub finish_ingest : IngestCommand → IngestResult × Db → Result (IngestResult × Db)
  finish_ingest c inserted = if inserted.0.duplicate then ok inserted else (do
    db' ← insert_deliveries inserted.0.event_id c.received_at c.deliveries inserted.1
    ok (inserted.0, db'))

  -- `Ingest`.
  unfoldable pub ingest : IngestCommand → Db → Result (IngestResult × Db)
  ingest c db = do
    guard (not (is_deferred c.routing_result)) invalid_command
    validate_deliveries c.routing_result c.deliveries
    validate_persisted_event c
    inserted ← insert_event c db
    finish_ingest c inserted

  -- `INSERT INTO routing_queue (event_id)`; `event_id` is UNIQUE.
  abbrev pub enqueue : Uuid → Db → Result Db
  enqueue event_id db =
      if is_taken (λ (q : QueueRow). q.event_id) event_id db.routing_queue
      then err constraint_failed
      else ok (record db {
        routing_queue = db.routing_queue ++ record { seq = db.next_seq; event_id = event_id } ∷ [];
        next_seq = suc db.next_seq;
      })

  abbrev pub finish_deferred : IngestResult × Db → Result (IngestResult × Db)
  finish_deferred inserted =
      if inserted.0.duplicate
      then ok inserted
      else (do db' ← enqueue inserted.0.event_id inserted.1; ok (inserted.0, db'))

  -- `IngestDeferred`.
  unfoldable pub ingest_deferred : IngestCommand → Db → Result (IngestResult × Db)
  ingest_deferred c db = do
    guard (is_deferred c.routing_result) invalid_command
    validate_deliveries c.routing_result c.deliveries
    validate_persisted_event c
    inserted ← insert_event c db
    finish_deferred inserted

unfoldable pub count_active : Db → ℕ
count_active db = length (keep_if is_active_row (rows db))

unfoldable pub count_queued : Db → ℕ
count_queued db = length db.routing_queue

pub record DeferredEvent : Type 0 where
  pub seq : ℕ
  pub event : EventRow

abbrev pub deferred_event : QueueRow → EventRow → DeferredEvent
deferred_event q e = record { seq = q.seq; event = e }

abbrev pub queued_event : List EventRow → QueueRow → Option DeferredEvent
queued_event events q = Option.map (deferred_event q) (find? (λ e. e.id == q.event_id) events)

abbrev pub seq_key : DeferredEvent → List ℕ
seq_key d = d.seq ∷ []

-- The queue joined with its events that are still deferred, by acceptance sequence.
abbrev pub deferred_rows : Db → List DeferredEvent
deferred_rows db = order_by seq_key (
    keep_if (λ d. is_deferred d.event.routing_result)
      (join (queued_event db.events) db.routing_queue))

-- `PeekDeferred`.
unfoldable pub peek_deferred : Db → Option DeferredEvent
peek_deferred db = head? (deferred_rows db)

abbrev pub finalize_event : RouteDecision → String → EventRow → EventRow
finalize_event decision digest e = record e {
  routing_result = decision.routing_result;
  rule_id = nullable decision.rule_id;
  rule_snapshot = decision.rule_snapshot;
  config_digest = digest;
}

abbrev pub is_queue_row : DeferredEvent → QueueRow → Bool
is_queue_row d q = q.seq == d.seq && q.event_id == d.event.id

-- `DELETE FROM routing_queue WHERE seq = ? AND event_id = ?`.
abbrev pub dequeue : DeferredEvent → Db → Result Db
dequeue d db =
    if rows_affected (is_queue_row d) db.routing_queue == 1
    then ok (record db { routing_queue = keep_if (λ q. not (is_queue_row d q)) db.routing_queue })
    else err attempt_not_sending

-- The deliveries of a routed event, and its queue row.
abbrev pub route_head : DeferredEvent → RouteDecision → Db → Result Db
route_head head decision db = do
  db' ← insert_deliveries head.event.id head.event.received_at decision.deliveries db
  dequeue head db'

-- The writes of `FinalizeDeferred`, once the queue head is the event that was routed.
unfoldable pub finalize_head : DeferredEvent → RouteDecision → String → Db → Result Db
finalize_head head decision digest db = do
  events ←
      update_one attempt_not_sending (λ e. e.id == head.event.id && is_deferred e.routing_result)
        (finalize_event decision digest) db.events
  route_head head decision (record db { events = events })

-- The event that was routed is finalized only if it still is the head.
abbrev pub finalize_if_head :
    DeferredEvent → RouteDecision → String → Option DeferredEvent → Db → Result (Bool × Db)
finalize_if_head d decision digest none db = ok (false, db)
finalize_if_head d decision digest (some head) db =
    if head.seq == d.seq && head.event.id == d.event.id
    then (do db' ← finalize_head head decision digest db; ok (true, db'))
    else ok (false, db)

-- `FinalizeDeferred`.
unfoldable pub finalize_deferred : DeferredEvent → RouteDecision → String → Db → Result (Bool × Db)
finalize_deferred d decision digest db = do
  guard (not (is_deferred decision.routing_result)) invalid_command
  validate_deliveries decision.routing_result decision.deliveries
  finalize_if_head d decision digest (head? (deferred_rows db)) db

-- `ClearHistory`: deleting an event cascades to its deliveries, attempts, audits and queue row.
unfoldable pub clear_history : Db → Result (ℕ × Db)
clear_history db =
    if count_active db == 0 && count_queued db == 0
    then ok (
      length db.events,
      record db {
        events = [];
        deliveries = [];
        attempts = [];
        audit_logs = [];
        routing_queue = [];
      },
    )
    else err history_active
