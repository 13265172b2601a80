-- ===== src/Store/Recovery.antt =====
-- internal/store/work.go, RecoverInterrupted, and internal/store/recovery.go: what a restart does
-- with the attempts that it finds under way.

pub mod Laws
pub mod Interrupted
pub mod Whole
use hookfly.Base.{
  ℕ, ◌+◌, String, Bool, ◌&&◌, ◌||◌, Option, none, some, List, [], ◌∷◌, ◌++◌, ◌==◌, if◌then◌else◌,
  find?, keep_if, map, order_by, str_eq,
}
use hookfly.Domain.{
  Uuid, Millis, Bytes, TransportStatus, DeploymentStatus, is_monitored, is_sending, is_open, active,
  same_transport, same_deployment,
}
use hookfly.Store.Tables.{
  DeliveryRow, AttemptRow, Db, poll_not_claimed, attempt_not_sending, Result, ok, ◌>>=◌, update_one,
  Row, holds, rows, snapshot, statuses, StatusSnapshot, insert_audit,
}

-- Durations in milliseconds; 0 stands for those that are not positive.
pub record PollSchedule : Type 0 where
  pub interval : Millis
  pub timeout : Millis

pub record StatusChange : Type 0 where
  pub attempt_id : Uuid
  pub target_id : String
  pub before : StatusSnapshot
  pub after : StatusSnapshot

unfoldable pub normalized_poll_schedule : PollSchedule → PollSchedule
normalized_poll_schedule s = record {
  interval = if s.interval == 0 then 1000 else s.interval;
  timeout = if s.timeout == 0 then 1800000 else s.timeout;
}

abbrev pub schedule_for : PollSchedule → (String → Option PollSchedule) → String → PollSchedule
schedule_for default targets target_id = elim (targets target_id) [
  | none ↦ normalized_poll_schedule default
  | some configured ↦ normalized_poll_schedule configured
]

abbrev pub or_time : Option Millis → Millis → Millis
or_time none t = t
or_time (some s) t = s

-- An interrupted send is reconciled by polling; it is never sent again by itself.
abbrev pub recovered : AttemptRow → StatusSnapshot
recovered a =
    if is_sending a.transport_status
    then statuses TransportStatus.unknown DeploymentStatus.locating
    else snapshot a

abbrev pub recover_attempt :
    Millis → PollSchedule → StatusSnapshot → AttemptRow → AttemptRow → AttemptRow
recover_attempt now s after read a = record a {
  transport_status = after.transport_status;
  deployment_status = after.deployment_status;
  poll_due_at = some (or_time read.poll_due_at (now + s.interval));
  monitoring_deadline_at = some (or_time read.monitoring_deadline_at (now + s.timeout));
  last_polled_at = none;
}

abbrev pub set_delivery : StatusSnapshot → Millis → DeliveryRow → DeliveryRow
set_delivery after at d = record d {
  transport_status = after.transport_status;
  deployment_status = after.deployment_status;
  updated_at = at;
}

abbrev pub is_attempt_of : Row → AttemptRow → Bool
is_attempt_of r a = a.id == r.attempt.id && a.delivery_id == r.delivery.id

abbrev pub is_delivery_of : Row → DeliveryRow → Bool
is_delivery_of r d = d.id == r.delivery.id && holds d.current_attempt_id r.attempt.id

abbrev pub same_statuses : StatusSnapshot → StatusSnapshot → Bool
same_statuses a b =
    same_transport a.transport_status b.transport_status
    && same_deployment a.deployment_status b.deployment_status

abbrev pub status_change : Row → StatusSnapshot → StatusChange
status_change r after = record {
  attempt_id = r.attempt.id;
  target_id = r.delivery.target_id;
  before = snapshot r.attempt;
  after = after;
}

-- The body of the recovery loop, for one interrupted attempt.
unfoldable pub recover_row : Millis → PollSchedule → Row → Db → Result (List StatusChange × Db)
recover_row now s r db = do
  attempts ←
      update_one poll_not_claimed (is_attempt_of r)
        (recover_attempt now s (recovered r.attempt) r.attempt) db.attempts
  if same_statuses (snapshot r.attempt) (recovered r.attempt)
      then ok ([], record db { attempts = attempts })
      else (do
        deliveries ←
            update_one poll_not_claimed (is_delivery_of r) (set_delivery (recovered r.attempt) now)
              db.deliveries
        ok (
          status_change r (recovered r.attempt) ∷ [],
          insert_audit r "transport_recovered" (snapshot r.attempt) (recovered r.attempt) now
              (record db { attempts = attempts; deliveries = deliveries }),
        ))

abbrev pub is_interrupted : Row → Bool
is_interrupted r = is_sending r.attempt.transport_status || is_monitored r.attempt.deployment_status

abbrev pub created_key : Row → List ℕ
created_key r = r.delivery.created_at ∷ r.delivery.id ∷ []

module _ (now : Millis) (default : PollSchedule) (targets : String → Option PollSchedule) where
  unfoldable pub recover_rows : List Row → Db → Result (List StatusChange × Db)
  recover_rows [] db = ok ([], db)
  recover_rows (r ∷ rs) db = do
    first ← recover_row now (schedule_for default targets r.delivery.target_id) r db
    others ← recover_rows rs first.1
    ok (first.0 ++ others.0, others.1)

  -- `RecoverInterrupted`.
  unfoldable pub recover_interrupted : Db → Result (List StatusChange × Db)
  recover_interrupted db = recover_rows (order_by created_key (keep_if is_interrupted (rows db))) db

-- `ActiveBinding`: a current attempt as it was read before the startup recovery.
pub record ActiveBinding : Type 0 where
  pub event_id : Uuid
  pub delivery_id : Uuid
  pub attempt_id : Uuid
  pub target_id : String
  pub target_snapshot : Bytes
  pub transport_status : TransportStatus
  pub deployment_status : DeploymentStatus

abbrev pub binding_of : Row → ActiveBinding
binding_of r = record {
  event_id = r.delivery.event_id;
  delivery_id = r.delivery.id;
  attempt_id = r.attempt.id;
  target_id = r.delivery.target_id;
  target_snapshot = r.delivery.target_snapshot;
  transport_status = r.attempt.transport_status;
  deployment_status = r.attempt.deployment_status;
}

-- `transport_status IN ('pending', 'sending') OR deployment_status IN (…)`.
abbrev pub is_active_row : Row → Bool
is_active_row r = is_open r.attempt.transport_status || is_monitored r.attempt.deployment_status

unfoldable pub list_active_bindings : Db → List ActiveBinding
list_active_bindings db = map binding_of (order_by created_key (keep_if is_active_row (rows db)))

-- The audited action; a reason code other than these two is taken for `target_unavailable`.
abbrev pub reason_action : String → String
reason_action reason_code =
    if str_eq reason_code "target_changed"
    then "active_binding_target_changed"
    else "active_binding_target_unavailable"

-- A send that has not started has failed; of any other the outcome is unknown.
abbrev pub terminated : AttemptRow → StatusSnapshot
terminated a =
    if same_transport a.transport_status TransportStatus.pending
      && same_deployment a.deployment_status DeploymentStatus.not_started
    then statuses TransportStatus.failed DeploymentStatus.not_started
    else statuses TransportStatus.unknown DeploymentStatus.unknown

abbrev pub terminate_attempt : StatusSnapshot → AttemptRow → AttemptRow
terminate_attempt after a = record a {
  transport_status = after.transport_status;
  deployment_status = after.deployment_status;
  poll_due_at = none;
  monitoring_deadline_at = none;
  last_polled_at = none;
}

abbrev pub is_as_bound : ActiveBinding → AttemptRow → Bool
is_as_bound b a =
    a.id == b.attempt_id
    && (same_transport a.transport_status b.transport_status
        && same_deployment a.deployment_status b.deployment_status)

unfoldable pub terminate_row : Row → String → Millis → Db → Result Db
terminate_row r reason at db = do
  attempts ←
      update_one attempt_not_sending (is_attempt_of r) (terminate_attempt (terminated r.attempt))
        db.attempts
  deliveries ←
      update_one attempt_not_sending (is_delivery_of r) (set_delivery (terminated r.attempt) at)
        db.deliveries
  ok (
      insert_audit r (reason_action reason) (snapshot r.attempt) (terminated r.attempt) at
        (record db { attempts = attempts; deliveries = deliveries }))

-- `TerminateIncompatibleActive`: it does nothing where the attempt is no longer as it was read.
unfoldable pub terminate_incompatible_active : ActiveBinding → String → Millis → Db → Result Db
terminate_incompatible_active b reason at db =
    elim (find? (λ s. s.delivery.id == b.delivery_id) (rows db)) [
      | none ↦ ok db
      | some r ↦
          if is_as_bound b r.attempt
            && active r.attempt.transport_status r.attempt.deployment_status
          then terminate_row r reason at db
          else ok db
    ]
