-- ===== src/Service.antt =====
-- internal/service/attempts.go: manual operations on a delivery, reconciled with Dokploy first.
pub mod Laws
use hookfly.Base.{
  ℕ, ◌+◌, String, Bool, true, false, not, ◌&&◌, ◌||◌, Option, none, some, List, [], ◌∷◌, ◌==◌,
  if◌then◌else◌, any, str_eq,
}
use hookfly.Domain.{
  Uuid, Millis, Bytes, TransportStatus, DeploymentStatus, Operation, active, allowed_operations,
  same_transport, same_deployment,
}
use hookfly.Dokploy.{Deployment, History, find_deployment}
use hookfly.Store.Tables.{Db, StoreError, no_rows, current_attempt_changed, Result, ok, err}
use hookfly.Store.Attempts.{CurrentAttempt, ManualUpdate, current_attempt, apply_manual_update}
use hookfly.Runtime.Manager.{State, is_idle}
use hookfly.Runtime.Target.{Target, Binding, compatible, target_changed, target_unavailable}
use hookfly.Worker.Poller.{matched_status}

pub data ServiceError : Type 0 where
  operation_not_allowed deployment_still_active already_succeeded state_changed : ServiceError
  reconciliation_unavailable config_reload_in_progress : ServiceError
  historical_target_changed historical_target_unavailable : ServiceError
  store_failed : StoreError → ServiceError

-- `AttemptResult` with the error beside it, whether a terminal state was committed, and the database.
pub record Executed : Type 0 where
  pub attempt_id : Option Uuid
  pub created : Bool
  pub error : Option ServiceError
  pub terminal : Bool
  pub db : Db

abbrev pub refused : Option Uuid → ServiceError → Db → Executed
refused id e db = record {
  attempt_id = id;
  created = false;
  error = some e;
  terminal = false;
  db = db;
}

abbrev pub same_operation : Operation → Operation → Bool
same_operation Operation.retry Operation.retry = true
same_operation Operation.redeploy Operation.redeploy = true
same_operation Operation.retry Operation.redeploy = false
same_operation Operation.redeploy Operation.retry = false

unfoldable pub operation_allowed : CurrentAttempt → Operation → Bool
operation_allowed c op =
    any (same_operation op) (allowed_operations c.transport_status c.deployment_status)

abbrev reconciled_deployment : DeploymentStatus → Bool
reconciled_deployment DeploymentStatus.unknown = true
reconciled_deployment DeploymentStatus.error = true
reconciled_deployment DeploymentStatus.cancelled = true
reconciled_deployment DeploymentStatus.timeout = true
reconciled_deployment _ = false

unfoldable pub needs_reconciliation : CurrentAttempt → Bool
needs_reconciliation c =
    same_transport c.transport_status TransportStatus.unknown
    || reconciled_deployment c.deployment_status

-- The deployment is under way, and nothing about it is unknown.
abbrev pub is_busy : CurrentAttempt → Bool
is_busy c =
    active c.transport_status c.deployment_status
    && (not (same_transport c.transport_status TransportStatus.unknown)
        && not (same_deployment c.deployment_status DeploymentStatus.unknown))

-- The error of a store update, as both callers of `ApplyManualUpdate` report it.
abbrev pub update_error : StoreError → ServiceError
update_error current_attempt_changed = state_changed
update_error e = store_failed e

pub record Request : Type 0 where
  pub operation : Operation
  pub actor_id : String
  pub reason : String
  pub at : Millis

abbrev pub creation : CurrentAttempt → Request → ManualUpdate
creation c q = record {
  expected = c;
  transport_status = c.transport_status;
  deployment_status = c.deployment_status;
  deployment_id = "";
  poll_due = none;
  monitoring_deadline = none;
  correct = false;
  create = true;
  operation = q.operation;
  actor_id = q.actor_id;
  reason = q.reason;
  at = q.at;
}

-- An update that creates the manual attempt, and its result.
abbrev pub create_by : ManualUpdate → Db → Executed
create_by u db = elim (apply_manual_update u db) [
  | err e ↦ refused none (update_error e) db
  | ok (id, db') ↦ record {
    attempt_id = some id;
    created = true;
    error = none;
    terminal = false;
    db = db';
  }
]

unfoldable pub create_manual : CurrentAttempt → Request → Db → Executed
create_manual c q db = create_by (creation c q) db

-- `correctAndReturn`: the terminal flag is the caller's, whatever the update does.
unfoldable pub correct_and_return : ManualUpdate → ServiceError → Bool → Db → Executed
correct_and_return u why terminal db = elim (apply_manual_update u db) [
  | err e ↦ record {
    attempt_id = none;
    created = false;
    error = some (update_error e);
    terminal = terminal;
    db = db;
  }
  | ok (id, db') ↦ record {
    attempt_id = some id;
    created = false;
    error = some why;
    terminal = terminal;
    db = db';
  }
]

abbrev pub correction :
    CurrentAttempt
    → Request
    → Deployment
    → DeploymentStatus
    → Option Millis
    → Option Millis
    → ManualUpdate
correction c q d status due deadline = record {
  expected = c;
  transport_status = TransportStatus.enqueued;
  deployment_status = status;
  deployment_id = d.deployment_id;
  poll_due = due;
  monitoring_deadline = deadline;
  correct = true;
  create = false;
  operation = q.operation;
  actor_id = q.actor_id;
  reason = q.reason;
  at = q.at;
}

-- A deployment that has failed: a retry is told of it, a redeploy goes ahead.
abbrev pub after_failure : ManualUpdate → Operation → Db → Executed
after_failure u Operation.retry db = correct_and_return u state_changed true db
after_failure u Operation.redeploy db = create_by (record u { create = true }) db

-- The `switch` over the status of the matched deployment.
unfoldable pub reconcile_match :
    Target → CurrentAttempt → Request → Deployment → DeploymentStatus → Db → Executed
reconcile_match t c q d DeploymentStatus.done db =
    correct_and_return (correction c q d DeploymentStatus.done none none) already_succeeded true db
reconcile_match t c q d DeploymentStatus.error db =
    after_failure (correction c q d DeploymentStatus.error none none) q.operation db
reconcile_match t c q d DeploymentStatus.cancelled db =
    after_failure (correction c q d DeploymentStatus.cancelled none none) q.operation db
reconcile_match t c q d status db =
    correct_and_return
      (correction c q d status (some (q.at + t.poll_interval)) (some (q.at + t.poll_timeout)))
      deployment_still_active false db

-- `fields` is `strings.Fields`, `token` builds "attempt_id=" with the identifier, and the history is
-- what the target's Dokploy lists.
module _ (fields : String → List String) (token : Uuid → String) where
  unfoldable pub reconcile_then_execute :
      Target → History → CurrentAttempt → Request → Db → Executed
  reconcile_then_execute t history c q db =
      elim (find_deployment fields t.compose_id (token c.attempt_id) c.deployment_id history) [
        | none ↦ refused (some c.attempt_id) reconciliation_unavailable db
        | some none ↦ create_manual c q db
        | some (some d) ↦ reconcile_match t c q d (matched_status d.status) db
      ]

  -- The decision of `Execute`, once the binding is compatible.
  unfoldable pub decide : Target → History → CurrentAttempt → Request → Db → Executed
  decide t history c q db =
      if is_busy c
      then refused (some c.attempt_id) deployment_still_active db
      else (if same_deployment c.deployment_status DeploymentStatus.done
          then refused (some c.attempt_id) already_succeeded db
          else (if not (operation_allowed c q.operation)
              then refused (some c.attempt_id) operation_not_allowed db
              else (if needs_reconciliation c
                  then reconcile_then_execute t history c q db
                  else create_manual c q db)))

  abbrev pub decide_bound : Binding → History → CurrentAttempt → Request → Db → Executed
  decide_bound (compatible t) history c q db = decide t history c q db
  decide_bound target_changed history c q db =
      refused (some c.attempt_id) historical_target_changed db
  decide_bound target_unavailable history c q db =
      refused (some c.attempt_id) historical_target_unavailable db

  -- What follows the read of the current attempt: it must be the expected one.
  abbrev pub execute_for :
      (CurrentAttempt → Binding) → History → Uuid → Request → Result CurrentAttempt → Db → Executed
  execute_for resolve history expected q (err no_rows) db = refused none state_changed db
  execute_for resolve history expected q (err e) db = refused none (store_failed e) db
  execute_for resolve history expected q (ok c) db =
      if c.attempt_id == expected
      then decide_bound (resolve c) history c q db
      else refused none state_changed db

  -- `Execute`, under one read gate.
  unfoldable pub execute :
      State
      → (CurrentAttempt → Binding)
      → History
      → (delivery_id expected : Uuid) → Request
      → Db
      → Executed
  execute state resolve history delivery_id expected q db =
      if not (is_idle state)
      then refused none config_reload_in_progress db
      else execute_for resolve history expected q (current_attempt delivery_id db) db
