-- ===== src/Store/Poll.antt =====
-- internal/store/work.go: claiming the due polls, and completing one.
pub mod Laws
use mathlib.Core.Option
use hookfly.Base.{
  ℕ, suc, String, Bool, true, false, not, ◌&&◌, ◌||◌, Option, none, some, List, [], ◌∷◌, map, ◌==◌,
  ltb, leb, if◌then◌else◌, find?, any, keep_if, take, join, order_by, str_eq, rows_affected,
  update_where,
}
use hookfly.Domain.{
  Uuid, Millis, Bytes, TransportStatus, DeploymentStatus, is_monitored, same_transport,
  same_deployment,
}
use hookfly.Store.Tables.{
  DeliveryRow, AttemptRow, Db, poll_not_claimed, Result, ok, ◌>>=◌, or_fail, update_one, Row, holds,
  rows, snapshot, statuses, insert_audit,
}
use hookfly.Store.Work.{WorkRow, with_event}

pub record PollWork : Type 0 where
  pub event_id : Uuid
  pub delivery_id : Uuid
  pub attempt_id : Uuid
  pub target_id : String
  pub target_snapshot : Bytes
  pub transport_status : TransportStatus
  pub deployment_status : DeploymentStatus
  pub deployment_id : String
  pub deployment_cursor : Option String
  pub monitoring_deadline : Millis
  pub claimed_at : Millis

pub record PollUpdate : Type 0 where
  pub transport_status : TransportStatus
  pub deployment_status : DeploymentStatus
  pub deployment_id : String
  pub next_poll_at : Option Millis

abbrev pub max_poll_batch : ℕ
max_poll_batch = 32

abbrev pub earlier : Millis → Millis → Millis
earlier deadline due = if ltb deadline due then deadline else due

abbrev pub not_polled_since : Option Millis → Millis → Bool
not_polled_since none at = true
not_polled_since (some last) at = ltb last at

abbrev pub due_test : Millis → Option Millis → Option Millis → Option Millis → Bool
due_test now (some due) (some deadline) last =
    (leb due now || leb deadline now) && not_polled_since last (earlier deadline due)
due_test now _ _ last = false

-- The conditions that the SELECT and the UPDATE of a poll claim share.
abbrev pub is_due : Millis → AttemptRow → Bool
is_due now a =
    is_monitored a.deployment_status
    && due_test now a.poll_due_at a.monitoring_deadline_at a.last_polled_at

abbrev pub or_zero : Option Millis → Millis
or_zero none = 0
or_zero (some t) = t

abbrev pub or_empty : Option String → String
or_empty none = ""
or_empty (some s) = s

abbrev pub due_key : WorkRow → List ℕ
due_key w =
    earlier (or_zero w.row.attempt.monitoring_deadline_at) (or_zero w.row.attempt.poll_due_at)
    ∷ w.event.received_at
    ∷ w.row.delivery.created_at
    ∷ w.row.delivery.id
    ∷ []

-- Both times are present on a due row, so `or_zero` reads what the row holds.
abbrev pub poll_work : Millis → WorkRow → PollWork
poll_work now w = record {
  event_id = w.event.id;
  delivery_id = w.row.delivery.id;
  attempt_id = w.row.attempt.id;
  target_id = w.row.delivery.target_id;
  target_snapshot = w.row.delivery.target_snapshot;
  transport_status = w.row.attempt.transport_status;
  deployment_status = w.row.attempt.deployment_status;
  deployment_id = or_empty w.row.attempt.deployment_id;
  deployment_cursor = w.row.attempt.deployment_cursor;
  monitoring_deadline = or_zero w.row.attempt.monitoring_deadline_at;
  claimed_at = now;
}

abbrev pub due_rows : Millis → Db → List WorkRow
due_rows now db = join (with_event db.events) (keep_if (λ r. is_due now r.attempt) (rows db))

abbrev pub is_poll_target : Millis → Db → PollWork → AttemptRow → Bool
is_poll_target now db w a =
    (a.id == w.attempt_id && a.delivery_id == w.delivery_id)
    && (is_due now a
        && any (λ d. d.id == w.delivery_id && holds d.current_attempt_id a.id) db.deliveries)

abbrev pub set_polled : Millis → AttemptRow → AttemptRow
set_polled now a = record a { last_polled_at = some now }

-- The claims of the candidates, one UPDATE each; a candidate whose UPDATE meets no row is left out.
unfoldable pub claim_polls : Millis → List PollWork → Db → List PollWork × Db
claim_polls now [] db = ([], db)
claim_polls now (w ∷ ws) db =
    let hit = rows_affected (is_poll_target now db w) db.attempts == 1 in
    let (claimed, db') = claim_polls now ws (record db {
      attempts = update_where (is_poll_target now db w) (set_polled now) db.attempts;
    }) in
    (if hit then w ∷ claimed else claimed, db')

-- `ListDuePolls`.
unfoldable pub list_due_polls : Millis → Db → List PollWork × Db
list_due_polls now db =
    claim_polls now (map (poll_work now) (take max_poll_batch (order_by due_key (due_rows now db))))
      db

abbrev pub is_claimed_by : PollWork → AttemptRow → Bool
is_claimed_by w a =
    (a.id == w.attempt_id && a.delivery_id == w.delivery_id) && holds a.last_polled_at w.claimed_at

abbrev pub bound_id : PollUpdate → Option String → Option String
bound_id u existing = if str_eq u.deployment_id "" then existing else some u.deployment_id

abbrev pub complete_attempt : PollUpdate → AttemptRow → AttemptRow
complete_attempt u a = record a {
  transport_status = u.transport_status;
  deployment_status = u.deployment_status;
  deployment_id = bound_id u a.deployment_id;
  poll_due_at = u.next_poll_at;
}

abbrev pub is_polled_delivery : Row → DeliveryRow → Bool
is_polled_delivery r d = d.id == r.delivery.id && holds d.current_attempt_id r.attempt.id

abbrev pub complete_delivery : PollUpdate → Millis → DeliveryRow → DeliveryRow
complete_delivery u at d = record d {
  transport_status = u.transport_status;
  deployment_status = u.deployment_status;
  updated_at = at;
}

abbrev pub is_transition : PollUpdate → AttemptRow → Bool
is_transition u a =
    not (same_transport a.transport_status u.transport_status)
    || not (same_deployment a.deployment_status u.deployment_status)

-- "deployment_" and the text of the status, as the audit of a completed poll names its action.
abbrev pub deployment_action : DeploymentStatus → String
deployment_action DeploymentStatus.not_started = "deployment_not_started"
deployment_action DeploymentStatus.locating = "deployment_locating"
deployment_action DeploymentStatus.running = "deployment_running"
deployment_action DeploymentStatus.unrecognized = "deployment_unrecognized"
deployment_action DeploymentStatus.done = "deployment_done"
deployment_action DeploymentStatus.error = "deployment_error"
deployment_action DeploymentStatus.cancelled = "deployment_cancelled"
deployment_action DeploymentStatus.timeout = "deployment_timeout"
deployment_action DeploymentStatus.unknown = "deployment_unknown"

-- The delivery and the audit of a completed poll, which a real status transition alone changes.
unfoldable pub complete_delivery_of :
    Row → PollUpdate → Millis → List AttemptRow → Db → Result (Bool × Db)
complete_delivery_of r u at attempts db =
    if is_transition u r.attempt
    then (do
      deliveries ←
          update_one poll_not_claimed (is_polled_delivery r) (complete_delivery u at) db.deliveries
      ok (
        true,
        insert_audit r (deployment_action u.deployment_status) (snapshot r.attempt)
            (statuses u.transport_status u.deployment_status) at
            (record db { attempts = attempts; deliveries = deliveries }),
      ))
    else ok (false, record db { attempts = attempts })

-- `CompletePoll`.
unfoldable pub complete_poll : PollWork → PollUpdate → Millis → Db → Result (Bool × Db)
complete_poll w u at db = do
  r ← or_fail (find? (λ s. is_claimed_by w s.attempt) (rows db)) poll_not_claimed
  attempts ← update_one poll_not_claimed (is_claimed_by w) (complete_attempt u) db.attempts
  complete_delivery_of r u at attempts db
