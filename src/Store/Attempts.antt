-- ===== src/Store/Attempts.antt =====
-- internal/store/attempts.go: the current attempt, and the compare-and-swap of a manual operation.

pub mod Once
use hookfly.Base.{
  String, Bool, not, ◌&&◌, Option, none, some, [], ◌∷◌, ◌++◌, ◌==◌, if◌then◌else◌, find?, str_eq,
  is_taken,
}
use hookfly.Domain.{
  Uuid, Millis, Bytes, TransportStatus, DeploymentStatus, Operation, same_transport,
  same_deployment,
}
use hookfly.Store.Tables.{
  DeliveryRow, AttemptRow, Kind, Db, current_attempt_changed, constraint_failed, no_rows, Result,
  ok, ◌>>=◌, ◌>>◌, guard, or_fail, update_one, Row, pair_row, rows, snapshot, statuses,
  StatusSnapshot, insert_audit_as, new_uuid, drawn,
}
use hookfly.Store.Poll.{or_empty}
use hookfly.Store.Recovery.{is_attempt_of, is_delivery_of, set_delivery}

pub record CurrentAttempt : Type 0 where
  pub event_id : Uuid
  pub delivery_id : Uuid
  pub attempt_id : Uuid
  pub target_id : String
  pub target_snapshot : Bytes
  pub transport_status : TransportStatus
  pub deployment_status : DeploymentStatus
  pub deployment_id : String
  pub monitoring_deadline : Option Millis

pub record ManualUpdate : Type 0 where
  pub expected : CurrentAttempt
  pub transport_status : TransportStatus
  pub deployment_status : DeploymentStatus
  pub deployment_id : String
  pub poll_due : Option Millis
  pub monitoring_deadline : Option Millis
  pub correct : Bool
  pub create : Bool
  pub operation : Operation
  pub actor_id : String
  pub reason : String
  pub at : Millis

abbrev pub current_of : Row → CurrentAttempt
current_of r = record {
  event_id = r.delivery.event_id;
  delivery_id = r.delivery.id;
  attempt_id = r.attempt.id;
  target_id = r.delivery.target_id;
  target_snapshot = r.delivery.target_snapshot;
  transport_status = r.attempt.transport_status;
  deployment_status = r.attempt.deployment_status;
  deployment_id = or_empty r.attempt.deployment_id;
  monitoring_deadline = r.attempt.monitoring_deadline_at;
}

-- The join by delivery, `currentAttemptTx`.
abbrev pub current_row_of : Uuid → Db → Option Row
current_row_of delivery_id db = find? (λ r. r.delivery.id == delivery_id) (rows db)

-- `CurrentAttempt`.
unfoldable pub current_attempt : Uuid → Db → Result CurrentAttempt
current_attempt delivery_id db = do
  r ← or_fail (current_row_of delivery_id db) no_rows
  ok (current_of r)

abbrev pub operation_attempt_kind : Operation → Kind
operation_attempt_kind Operation.retry = Kind.retry
operation_attempt_kind Operation.redeploy = Kind.redeploy

abbrev pub manual_action : Operation → String
manual_action Operation.retry = "manual_retry"
manual_action Operation.redeploy = "manual_redeploy"

abbrev pub nullable : String → Option String
nullable s = if str_eq s "" then none else some s

abbrev pub is_expected : CurrentAttempt → AttemptRow → Bool
is_expected e a =
    a.id == e.attempt_id
    && (same_transport a.transport_status e.transport_status
        && same_deployment a.deployment_status e.deployment_status)

abbrev pub correct_attempt : ManualUpdate → AttemptRow → AttemptRow
correct_attempt u a = record a {
  transport_status = u.transport_status;
  deployment_status = u.deployment_status;
  deployment_id = nullable u.deployment_id;
  poll_due_at = u.poll_due;
  monitoring_deadline_at = u.monitoring_deadline;
  last_polled_at = none;
}

abbrev pub corrected : ManualUpdate → StatusSnapshot
corrected u = statuses u.transport_status u.deployment_status

-- `updateManualCorrection` and its audit. The EXISTS of its first UPDATE is the join that `r` comes from.
unfoldable pub apply_correction : ManualUpdate → Row → Db → Result Db
apply_correction u r db = do
  attempts ← update_one current_attempt_changed (is_attempt_of r) (correct_attempt u) db.attempts
  deliveries ←
      update_one current_attempt_changed (is_delivery_of r) (set_delivery (corrected u) u.at)
        db.deliveries
  ok (
      insert_audit_as u.actor_id u.reason r "manual_reconciled" (snapshot r.attempt) (corrected u)
        u.at (record db { attempts = attempts; deliveries = deliveries }))

abbrev pub manual_attempt : Uuid → ManualUpdate → Row → AttemptRow
manual_attempt id u r = record {
  id = id;
  delivery_id = r.delivery.id;
  kind = operation_attempt_kind u.operation;
  actor = some u.actor_id;
  transport_status = TransportStatus.pending;
  deployment_status = DeploymentStatus.not_started;
  request_json = none;
  response_json = none;
  request_at = none;
  response_at = none;
  enqueued_at = none;
  deployment_id = none;
  deployment_cursor = none;
  poll_due_at = none;
  monitoring_deadline_at = none;
  last_polled_at = none;
  created_at = u.at;
}

abbrev pub replace_current : Uuid → Millis → DeliveryRow → DeliveryRow
replace_current id at d = record d {
  current_attempt_id = some id;
  transport_status = TransportStatus.pending;
  deployment_status = DeploymentStatus.not_started;
  updated_at = at;
}

-- The pending manual attempt that takes the place of the current one; `before` are the statuses
-- that the audit shows, those of a correction where there was one.
unfoldable pub create_manual : ManualUpdate → StatusSnapshot → Row → Db → Result (Uuid × Db)
create_manual u before r db = do
  guard (not (is_taken (λ (a : AttemptRow). a.id) (new_uuid db) db.attempts)) constraint_failed
  deliveries ←
      update_one current_attempt_changed (is_delivery_of r) (replace_current (new_uuid db) u.at)
        db.deliveries
  ok (
    new_uuid db,
    insert_audit_as u.actor_id u.reason (pair_row r.delivery (manual_attempt (new_uuid db) u r))
        (manual_action u.operation) before
        (statuses TransportStatus.pending DeploymentStatus.not_started) u.at
        (record (drawn db) {
          attempts = db.attempts ++ manual_attempt (new_uuid db) u r ∷ [];
          deliveries = deliveries;
        }),
  )

-- What follows the correction in `ApplyManualUpdate`.
abbrev pub finish_manual : ManualUpdate → StatusSnapshot → Row → Db → Result (Uuid × Db)
finish_manual u before r db =
    if u.create then create_manual u before r db else ok (r.attempt.id, db)

-- `ApplyManualUpdate`.
unfoldable pub apply_manual_update : ManualUpdate → Db → Result (Uuid × Db)
apply_manual_update u db = do
  r ← or_fail (current_row_of u.expected.delivery_id db) current_attempt_changed
  guard (is_expected u.expected r.attempt) current_attempt_changed
  if u.correct
      then (do db' ← apply_correction u r db; finish_manual u (corrected u) r db')
      else finish_manual u (snapshot r.attempt) r db
