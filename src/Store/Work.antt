-- ===== src/Store/Work.antt =====
-- internal/store/work.go: claiming a pending attempt, the requests that a send records, and the
-- transition out of `sending`.
pub mod Transition
pub mod Once
pub mod Claim
use mathlib.Core.Option
use mathlib.Core.List.{head?}
use hookfly.Base.{
  ℕ, ◌+◌, String, Bool, true, false, not, ◌&&◌, ◌||◌, Option, none, some, List, [], ◌∷◌, ◌==◌,
  if◌then◌else◌, find?, any, keep_if, join, order_by, str_eq, sql_eq, is_some, rows_affected,
  update_where,
}
use hookfly.Domain.{
  Uuid, Millis, Bytes, TransportStatus, DeploymentStatus, CanonicalEvent, is_sending, is_pending,
  is_monitored,
}
use hookfly.Store.Tables.{
  EventRow, DeliveryRow, AttemptRow, Kind, Db, StoreError, attempt_not_sending, Result, ok, err,
  ◌>>=◌, ◌>>◌, guard, or_fail, update_one, Row, holds, is_current, rows, occupies, snapshot,
  statuses, insert_audit,
}

pub record PendingAttempt : Type 0 where
  pub event_id : Uuid
  pub delivery_id : Uuid
  pub attempt_id : Uuid
  pub target_id : String
  pub target_snapshot : Bytes
  pub request_json : Bytes
  pub payload_json : Bytes
  pub received_at : Millis
  pub event : CanonicalEvent

-- A current attempt with the event that it belongs to: `JOIN events e ON e.id = d.event_id`.
pub record WorkRow : Type 0 where
  pub row : Row
  pub event : EventRow

abbrev pub work_row : Row → EventRow → WorkRow
work_row r e = record { row = r; event = e }

abbrev pub with_event : List EventRow → Row → Option WorkRow
with_event events r = Option.map (work_row r) (find? (λ e. e.id == r.delivery.event_id) events)

-- The same dispatch key, or the same target where one of the keys is NULL.
abbrev pub key_conflict : Option String → Option String → Bool → Bool
key_conflict (some k) (some l) same_target = str_eq k l
key_conflict _ _ same_target = same_target

abbrev pub conflicts : DeliveryRow → DeliveryRow → Bool
conflicts d e = key_conflict d.dispatch_key e.dispatch_key (str_eq d.target_id e.target_id)

-- Another delivery for the same remote resource is being sent or monitored, with no deployment bound.
abbrev pub blocks : Row → Row → Bool
blocks r s =
    conflicts s.delivery r.delivery && (not (s.delivery.id == r.delivery.id) && occupies s.attempt)

abbrev pub is_dispatchable : Kind → Bool
is_dispatchable Kind.initial = true
is_dispatchable Kind.retry = true
is_dispatchable Kind.redeploy = true

abbrev pub is_claimable : List Row → Row → Bool
is_claimable all r =
    is_dispatchable r.attempt.kind
    && (is_pending r.attempt.transport_status
        && (is_pending r.delivery.transport_status && not (any (blocks r) all)))

abbrev pub claim_key : WorkRow → List ℕ
claim_key w = w.event.received_at ∷ w.row.delivery.created_at ∷ w.row.delivery.id ∷ []

-- The rows that the claim's SELECT orders.
abbrev pub claimable : Db → List WorkRow
claimable db = join (with_event db.events) (keep_if (is_claimable (rows db)) (rows db))

abbrev pub pending_attempt : WorkRow → PendingAttempt
pending_attempt w = record {
  event_id = w.event.id;
  delivery_id = w.row.delivery.id;
  attempt_id = w.row.attempt.id;
  target_id = w.row.delivery.target_id;
  target_snapshot = w.row.delivery.target_snapshot;
  request_json = w.event.request_json;
  payload_json = w.event.payload_json;
  received_at = w.event.received_at;
  event = w.event.canonical;
}

-- `UPDATE delivery_attempts SET transport_status = 'sending' WHERE …`.
abbrev pub is_claim_target : Db → WorkRow → AttemptRow → Bool
is_claim_target db w a =
    (a.id == w.row.attempt.id && a.delivery_id == w.row.delivery.id)
    && (is_dispatchable a.kind
        && (is_pending a.transport_status
            && any
                (λ d.
                  d.id == w.row.delivery.id
                  && (holds d.current_attempt_id a.id && is_pending d.transport_status))
                db.deliveries))

abbrev pub start_send : AttemptRow → AttemptRow
start_send a = record a { transport_status = TransportStatus.sending }

abbrev pub is_claim_delivery : WorkRow → DeliveryRow → Bool
is_claim_delivery w d =
    (d.id == w.row.delivery.id && holds d.current_attempt_id w.row.attempt.id)
    && is_pending d.transport_status

abbrev pub send_delivery : Millis → DeliveryRow → DeliveryRow
send_delivery now d = record d { transport_status = TransportStatus.sending; updated_at = now }

-- The two updates and the audit of a claim, for the row that the SELECT chose.
unfoldable pub claim_row : Millis → Db → WorkRow → Result (Option PendingAttempt × Db)
claim_row now db w =
    if rows_affected (is_claim_target db w) db.attempts == 1
    then (do
      deliveries ←
          update_one attempt_not_sending (is_claim_delivery w) (send_delivery now) db.deliveries
      ok (
        some (pending_attempt w),
        insert_audit w.row "transport_sending"
            (statuses TransportStatus.pending DeploymentStatus.not_started)
            (statuses TransportStatus.sending DeploymentStatus.not_started) now
            (record db {
              attempts = update_where (is_claim_target db w) start_send db.attempts;
              deliveries = deliveries;
            }),
      ))
    else ok (none, db)

-- `ClaimPendingAttempt`: the oldest claimable current attempt goes to `sending`.
unfoldable pub claim_pending_attempt : Millis → Db → Result (Option PendingAttempt × Db)
claim_pending_attempt now db = elim (head? (order_by claim_key (claimable db))) [
  | none ↦ ok (none, db)
  | some w ↦ claim_row now db w
]

-- The outcome of a send, as `transitionAttempt` takes it.
pub record Outcome : Type 0 where
  pub transport : TransportStatus
  pub deployment : DeploymentStatus
  pub action : String
  pub request_json : Option Bytes
  pub response_json : Option Bytes
  pub at : Millis
  pub enqueued_at : Option Millis
  pub poll_due : Option Millis
  pub deadline : Option Millis

abbrev pub finish_attempt : Outcome → AttemptRow → AttemptRow
finish_attempt o a = record a {
  transport_status = o.transport;
  deployment_status = o.deployment;
  request_json = o.request_json;
  response_json = o.response_json;
  response_at = some o.at;
  enqueued_at = o.enqueued_at;
  poll_due_at = o.poll_due;
  monitoring_deadline_at = o.deadline;
}

abbrev pub finish_delivery : Outcome → DeliveryRow → DeliveryRow
finish_delivery o d = record d {
  transport_status = o.transport;
  deployment_status = o.deployment;
  updated_at = o.at;
}

abbrev pub is_sent_attempt : Row → AttemptRow → Bool
is_sent_attempt r a =
    (a.id == r.attempt.id && a.delivery_id == r.delivery.id) && is_sending a.transport_status

abbrev pub is_sent_delivery : Row → DeliveryRow → Bool
is_sent_delivery r d =
    (d.id == r.delivery.id && holds d.current_attempt_id r.attempt.id)
    && is_sending d.transport_status

-- `transitionAttempt`.
unfoldable pub transition_attempt : Uuid → Outcome → Db → Result Db
transition_attempt attempt_id o db = do
  r ← or_fail (find? (λ s. s.attempt.id == attempt_id) (rows db)) attempt_not_sending
  guard (is_sending r.attempt.transport_status) attempt_not_sending
  attempts ← update_one attempt_not_sending (is_sent_attempt r) (finish_attempt o) db.attempts
  deliveries ← update_one attempt_not_sending (is_sent_delivery r) (finish_delivery o) db.deliveries
  ok (
      insert_audit r o.action (snapshot r.attempt) (statuses o.transport o.deployment) o.at
        (record db { attempts = attempts; deliveries = deliveries }))

module _ (request_json response_json : Option Bytes) (at : Millis) where
  abbrev pub enqueued_outcome : Millis → Millis → Outcome
  enqueued_outcome poll_due deadline = record {
    transport = TransportStatus.enqueued;
    deployment = DeploymentStatus.locating;
    action = "transport_enqueued";
    request_json = request_json;
    response_json = response_json;
    at = at;
    enqueued_at = some at;
    poll_due = some poll_due;
    deadline = some deadline;
  }

  -- A direct HTTP operation has no deployment to observe.
  abbrev pub accepted_outcome : Outcome
  accepted_outcome = record {
    transport = TransportStatus.enqueued;
    deployment = DeploymentStatus.done;
    action = "transport_accepted";
    request_json = request_json;
    response_json = response_json;
    at = at;
    enqueued_at = some at;
    poll_due = none;
    deadline = none;
  }

  abbrev pub failed_outcome : Outcome
  failed_outcome = record {
    transport = TransportStatus.failed;
    deployment = DeploymentStatus.not_started;
    action = "transport_failed";
    request_json = request_json;
    response_json = response_json;
    at = at;
    enqueued_at = none;
    poll_due = none;
    deadline = none;
  }

  abbrev pub unknown_outcome : Millis → Millis → Outcome
  unknown_outcome poll_due deadline = record {
    transport = TransportStatus.unknown;
    deployment = DeploymentStatus.locating;
    action = "transport_unknown";
    request_json = request_json;
    response_json = response_json;
    at = at;
    enqueued_at = none;
    poll_due = some poll_due;
    deadline = some deadline;
  }

  abbrev pub unknown_terminal_outcome : Outcome
  unknown_terminal_outcome = record {
    transport = TransportStatus.unknown;
    deployment = DeploymentStatus.unknown;
    action = "transport_unknown";
    request_json = request_json;
    response_json = response_json;
    at = at;
    enqueued_at = none;
    poll_due = none;
    deadline = none;
  }

  unfoldable pub mark_enqueued : Uuid → Millis → Millis → Db → Result Db
  mark_enqueued attempt_id poll_due deadline db =
      transition_attempt attempt_id (enqueued_outcome poll_due deadline) db

  unfoldable pub mark_accepted : Uuid → Db → Result Db
  mark_accepted attempt_id db = transition_attempt attempt_id accepted_outcome db

  unfoldable pub mark_transport_failed : Uuid → Db → Result Db
  mark_transport_failed attempt_id db = transition_attempt attempt_id failed_outcome db

  unfoldable pub mark_transport_unknown : Uuid → Millis → Millis → Db → Result Db
  mark_transport_unknown attempt_id poll_due deadline db =
      transition_attempt attempt_id (unknown_outcome poll_due deadline) db

  unfoldable pub mark_transport_unknown_terminal : Uuid → Db → Result Db
  mark_transport_unknown_terminal attempt_id db =
      transition_attempt attempt_id unknown_terminal_outcome db

-- Some delivery has this attempt as its current one.
abbrev pub is_anyones_current : Db → AttemptRow → Bool
is_anyones_current db a = any (λ d. holds d.current_attempt_id a.id) db.deliveries

abbrev pub is_unrecorded : Db → Uuid → AttemptRow → Bool
is_unrecorded db attempt_id a =
    (a.id == attempt_id && is_sending a.transport_status)
    && (not (is_some a.request_json) && (not (is_some a.request_at) && is_anyones_current db a))

abbrev pub record_request : Bytes → Millis → AttemptRow → AttemptRow
record_request request at a = record a { request_json = some request; request_at = some at }

-- `RecordDeploymentRequest`: evidence of the request, right before the remote POST.
unfoldable pub record_deployment_request : Uuid → Bytes → Millis → Db → Result Db
record_deployment_request attempt_id request at db = do
  attempts ←
      update_one attempt_not_sending (is_unrecorded db attempt_id) (record_request request at)
        db.attempts
  ok (record db { attempts = attempts })

abbrev pub is_uncursored : Db → Uuid → AttemptRow → Bool
is_uncursored db attempt_id a =
    (a.id == attempt_id && is_sending a.transport_status)
    && (not (is_some a.deployment_cursor) && is_anyones_current db a)

abbrev pub set_cursor : String → AttemptRow → AttemptRow
set_cursor cursor a = record a { deployment_cursor = some cursor }

-- `SetDeploymentCursor`: the exclusive preflight boundary, before the remote POST.
unfoldable pub set_deployment_cursor : Uuid → String → Db → Result Db
set_deployment_cursor attempt_id cursor db = do
  attempts ←
      update_one attempt_not_sending (is_uncursored db attempt_id) (set_cursor cursor) db.attempts
  ok (record db { attempts = attempts })
