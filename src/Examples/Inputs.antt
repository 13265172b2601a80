-- ===== src/Examples/Inputs.antt =====
-- Databases, targets, routes and documents for the witnesses.
use hookfly.Base.{
  not_taken-ne, sym, String, true, false, Option, none, some, List, [], ◌∷◌, ◌≡◌, refl, ap, In, inl,
  inr, join, order_by, str_eq, rows_affected, lex_le, int,
}
use hookfly.Domain.{
  Uuid, Millis, Bytes, TransportStatus, DeploymentStatus, RoutingResult, RouteDecision,
  IngestCommand, Operation,
}
use hookfly.Store.Tables.{
  EventRow, new_uuid, Db, Row, ok, update_one, insert_audit, insert_audit_as,
}
use hookfly.Store.Invariant.{Inv}
use hookfly.Store.Work.{
  PendingAttempt, claim_pending_attempt, claim_row, transition_attempt, failed_outcome,
  unknown_terminal_outcome,
}
use hookfly.Store.Poll.{PollWork, list_due_polls, claim_polls, complete_poll, complete_delivery_of}
use hookfly.Store.Retention.{
  prune, prune_group, prune_groups, terminal_event_ids_after, terminal_events,
  delete_retention_events, delete_event, distinct_groups, is_terminal,
}
use hookfly.Store.Retention.Kept.{IsKeyed}
use hookfly.Store.Recovery.{PollSchedule, binding_of, terminate_incompatible_active, terminate_row}
use hookfly.Store.Attempts
use hookfly.Store.Attempts.{CurrentAttempt, ManualUpdate, current_attempt, apply_manual_update}
use hookfly.Store.Routing.{
  DeferredEvent, event_row, ingest, ingest_deferred, insert_event, insert_deliveries,
  insert_delivery, validate_deliveries, validate_persisted_event, finalize_deferred, finalize_head,
}
use hookfly.Store.Routing.Laws.{ingest_deferred-Inv}
use hookfly.Dokploy.{
  Deployment, History, found, find_deployment_after, walk_to_cursor, choose_candidate,
}
use hookfly.Runtime.Target.{Target, Executable, Binding, compatible, target_changed}
use hookfly.Runtime.Manager.{
  State, Manager, loaded, new_manager, initialize, begin_reload, finish_reload, set_draining,
}
use hookfly.Runtime.Manager.Steps.{Reach, started, stepped, began, finished, forced, initialized}
use hookfly.Worker.Dispatcher.{Times, World, acknowledged}
use hookfly.Worker.Poller.{poll_one, poll_outcome, poll_update}
use hookfly.Worker.Poller.Laws.{IsUnmoved}
use hookfly.Worker.Drainer.{Generation}
use hookfly.Service
use hookfly.Service.{
  Request, refused, reconciliation_unavailable, execute, decide, operation_allowed,
  needs_reconciliation,
}
use hookfly.Matcher.{RouteMatch, Route, ActionType, route_matches, first_canonical, matches_scalar}
use hookfly.Redact.{
  Value, text, object, end, field, redacted, is_masked, sensitive_key, mask, mask_items,
  mask_fields,
}
use hookfly.Redact.Masking.{Has, HasItems, HasFields}
use hookfly.Examples.{
  to_app, push_event, push_command, empty_db, empty_db-Inv, sample_codec, first_result, db_of,
  pushed_db, pushed_db-Inv, claimed_db, sent_row, plain_db_of, polled_db, due_work,
}

-- Two events without deliveries beside the pushed one.
abbrev pub aged_event : Uuid → Millis → EventRow
aged_event id at = record (event_row sample_codec id push_command) { received_at = at }

abbrev pub aged_db : Db
aged_db = record pushed_db { events = aged_event 1 1 ∷ aged_event 2 2 ∷ pushed_db.events }

pub aged_db-IsKeyed : IsKeyed aged_db
unfolding ingest insert_event insert_deliveries insert_delivery validate_deliveries
    validate_persisted_event join claim_pending_attempt claim_row order_by insert_audit
    insert_audit_as update_one rows_affected
aged_db-IsKeyed = (
  (
    (λ y m p.
        not_taken-ne (λ (e : EventRow). e.id) 1 (aged_event 2 2 ∷ pushed_db.events) refl y m
          (sym p)),
    (
      (λ y m p. not_taken-ne (λ (e : EventRow). e.id) 2 pushed_db.events refl y m (sym p)),
      ((λ y m. absurd m), tt),
    ),
  ),
  pushed_db-Inv.deliveries_distinct,
)

pub pushed_there : In (aged_event 10 7) aged_db.events
unfolding ingest insert_event insert_deliveries insert_delivery validate_deliveries
    validate_persisted_event join claim_pending_attempt claim_row order_by insert_audit
    insert_audit_as update_one rows_affected
pushed_there = inr (inr (inl refl))

pub waits_still : is_terminal aged_db (aged_event 10 7) ≡ false
unfolding ingest insert_event insert_deliveries insert_delivery validate_deliveries
    validate_persisted_event join claim_pending_attempt claim_row order_by insert_audit
    insert_audit_as update_one rows_affected
waits_still = refl

-- Of the two finished events, the older one is pruned.
pub prunes_oldest :
    (prune (λ gs. gs) (λ g. none) 1 0 aged_db).0 ≡ record { deleted = 1; event_ids = 1 ∷ [] }
unfolding prune prune_group prune_groups terminal_event_ids_after terminal_events
    delete_retention_events delete_event distinct_groups lex_le ingest insert_event
    insert_deliveries insert_delivery validate_deliveries validate_persisted_event join
    claim_pending_attempt claim_row order_by insert_audit insert_audit_as update_one rows_affected
prunes_oldest = refl

abbrev pub ended_db : Db
ended_db = plain_db_of claimed_db (transition_attempt 12 (failed_outcome none none 9) claimed_db)

pub ended_ok : transition_attempt 12 (failed_outcome none none 9) claimed_db ≡ ok ended_db
unfolding transition_attempt ingest insert_event insert_deliveries insert_delivery
    validate_deliveries validate_persisted_event join claim_pending_attempt claim_row order_by
    insert_audit insert_audit_as update_one rows_affected
ended_ok = refl

abbrev pub terminated_db : Db
terminated_db =
    plain_db_of claimed_db
      (terminate_incompatible_active (binding_of sent_row) "target_changed" 15 claimed_db)

pub terminated_ok :
    terminate_incompatible_active (binding_of sent_row) "target_changed" 15 claimed_db
    ≡ ok terminated_db
unfolding terminate_incompatible_active terminate_row ingest insert_event insert_deliveries
    insert_delivery validate_deliveries validate_persisted_event join claim_pending_attempt
    claim_row order_by insert_audit insert_audit_as update_one rows_affected
terminated_ok = refl

abbrev pub slow_schedule : PollSchedule
slow_schedule = record { interval = 10; timeout = 90 }

abbrev pub deferred_command : IngestCommand
deferred_command = record push_command { routing_result = RoutingResult.deferred; deliveries = [] }

abbrev pub deferred_db : Db
deferred_db = db_of empty_db (ingest_deferred sample_codec deferred_command empty_db)

pub deferred_ok :
    ingest_deferred sample_codec deferred_command empty_db ≡ ok (first_result, deferred_db)
unfolding ingest_deferred ingest insert_event insert_deliveries insert_delivery validate_deliveries
    validate_persisted_event join claim_pending_attempt claim_row order_by insert_audit
    insert_audit_as update_one rows_affected
deferred_ok = refl

pub deferred_db-Inv : Inv deferred_db
deferred_db-Inv =
    ingest_deferred-Inv sample_codec deferred_command empty_db first_result deferred_db empty_db-Inv
      deferred_ok

abbrev pub head_event : DeferredEvent
head_event = record { seq = 1; event = event_row sample_codec 10 deferred_command }

abbrev pub deploy_decision : RouteDecision
deploy_decision = record {
  routing_result = RoutingResult.deploy;
  rule_id = "rule";
  rule_snapshot = [];
  deliveries = to_app ∷ [];
}

abbrev pub routed_db : Db
routed_db = db_of deferred_db (finalize_deferred head_event deploy_decision "digest" deferred_db)

pub routed_ok :
    finalize_deferred head_event deploy_decision "digest" deferred_db ≡ ok (true, routed_db)
unfolding ingest_deferred finalize_deferred finalize_head ingest insert_event insert_deliveries
    insert_delivery validate_deliveries validate_persisted_event join claim_pending_attempt
    claim_row order_by insert_audit insert_audit_as update_one rows_affected
routed_ok = refl

abbrev pub no_snapshot : String → Bytes
no_snapshot s = []

abbrev pub round_times : Times
round_times = record { claimed = 8; recorded = 9; finished = 10 }

abbrev pub dokploy_target : Target
dokploy_target = record {
  id = "app";
  compose_id = "compose";
  executable = Executable.dokploy;
  poll_interval = 10;
  poll_timeout = 90;
}

abbrev pub http_target : Target
http_target = record {
  id = "app";
  compose_id = "";
  executable = Executable.http true;
  poll_interval = 10;
  poll_timeout = 90;
}

abbrev pub to_dokploy : PendingAttempt → Binding
to_dokploy w = compatible dokploy_target

abbrev pub acknowledging_world : PendingAttempt → World
acknowledging_world w = record {
  latest = some "old";
  send = record { evidence = some []; outcome = acknowledged; response = [] };
  readable = true;
}

abbrev pub one_field : String → List String
one_field s = s ∷ []

abbrev pub token_of : Uuid → String
token_of id = "attempt_id=12"

abbrev pub to_nothing : PollWork → Binding
to_nothing w = target_changed

abbrev pub no_history : PollWork → History
no_history w = none

pub due_work-IsUnmoved : IsUnmoved due_work polled_db
unfolding ingest insert_event insert_deliveries insert_delivery validate_deliveries
    validate_persisted_event join claim_pending_attempt claim_row order_by insert_audit
    insert_audit_as update_one rows_affected transition_attempt list_due_polls claim_polls
due_work-IsUnmoved r (inl e, c) = (
  ap (λ (x : Row). x.attempt.transport_status) e,
  ap (λ (x : Row). x.attempt.deployment_status) e,
)
due_work-IsUnmoved r (inr n, c) = absurd n

abbrev pub completed_db : Db
completed_db =
    db_of polled_db (poll_one one_field token_of to_nothing 10 no_history 30 due_work polled_db)

pub completed_ok :
    poll_one one_field token_of to_nothing 10 no_history 30 due_work polled_db
    ≡ ok (false, completed_db)
unfolding poll_one poll_outcome poll_update complete_poll complete_delivery_of ingest insert_event
    insert_deliveries insert_delivery validate_deliveries validate_persisted_event join
    claim_pending_attempt claim_row order_by insert_audit insert_audit_as update_one rows_affected
    transition_attempt list_due_polls claim_polls
completed_ok = refl

abbrev pub new_deployment : Deployment
new_deployment = record {
  deployment_id = "new";
  status = some "running";
  description = some "attempt_id=12";
}

abbrev pub listed : List Deployment
listed =
    new_deployment ∷ record { deployment_id = "old"; status = some "done"; description = none } ∷ []

pub found_after :
    find_deployment_after one_field "compose" "attempt_id=12" "old" (some listed)
    ≡ some (some new_deployment, found)
unfolding find_deployment_after walk_to_cursor choose_candidate
found_after = refl

abbrev pub failed_db : Db
failed_db = plain_db_of claimed_db (transition_attempt 12 (failed_outcome none none 9) claimed_db)

abbrev pub failed_attempt : CurrentAttempt
failed_attempt = record {
  event_id = 10;
  delivery_id = 11;
  attempt_id = 12;
  target_id = "app";
  target_snapshot = 1 ∷ [];
  transport_status = TransportStatus.failed;
  deployment_status = DeploymentStatus.not_started;
  deployment_id = "";
  monitoring_deadline = none;
}

abbrev pub manual_retry : ManualUpdate
manual_retry = record {
  expected = failed_attempt;
  transport_status = TransportStatus.failed;
  deployment_status = DeploymentStatus.not_started;
  deployment_id = "";
  poll_due = none;
  monitoring_deadline = none;
  correct = false;
  create = true;
  operation = Operation.retry;
  actor_id = "admin";
  reason = "again";
  at = 50;
}

abbrev pub retried_db : Db
retried_db = db_of failed_db (apply_manual_update manual_retry failed_db)

pub retried_ok : apply_manual_update manual_retry failed_db ≡ ok (new_uuid failed_db, retried_db)
unfolding ingest insert_event insert_deliveries insert_delivery validate_deliveries
    validate_persisted_event join claim_pending_attempt claim_row order_by insert_audit
    insert_audit_as update_one rows_affected transition_attempt apply_manual_update
    Attempts.create_manual
retried_ok = refl

abbrev pub retry_request : Request
retry_request = record {
  operation = Operation.retry;
  actor_id = "admin";
  reason = "again";
  at = 50;
}

pub retry_created :
    (execute one_field token_of State.idle
      (λ c. compatible dokploy_target)
      none
      11
      12
      retry_request
      failed_db).created
    ≡ true
unfolding ingest insert_event insert_deliveries insert_delivery validate_deliveries
    validate_persisted_event join claim_pending_attempt claim_row order_by insert_audit
    insert_audit_as update_one rows_affected transition_attempt list_due_polls claim_polls execute
    current_attempt decide operation_allowed needs_reconciliation Service.create_manual
    apply_manual_update Attempts.create_manual
retry_created = refl

abbrev pub unknown_db : Db
unknown_db =
    plain_db_of claimed_db (transition_attempt 12 (unknown_terminal_outcome none none 9) claimed_db)

abbrev pub unknown_attempt : CurrentAttempt
unknown_attempt = record {
  event_id = 10;
  delivery_id = 11;
  attempt_id = 12;
  target_id = "app";
  target_snapshot = 1 ∷ [];
  transport_status = TransportStatus.unknown;
  deployment_status = DeploymentStatus.unknown;
  deployment_id = "";
  monitoring_deadline = none;
}

pub unknown_current : current_attempt 11 unknown_db ≡ ok unknown_attempt
unfolding ingest insert_event insert_deliveries insert_delivery validate_deliveries
    validate_persisted_event join claim_pending_attempt claim_row order_by insert_audit
    insert_audit_as update_one rows_affected transition_attempt list_due_polls claim_polls
    current_attempt
unknown_current = refl

abbrev pub as_digest : String → String
as_digest s = s

abbrev pub idle_manager : Manager String
idle_manager = new_manager "old" 0

abbrev pub validating_manager : Manager String
validating_manager = record idle_manager { state = State.validating }

abbrev pub applied_manager : Manager String
applied_manager = (finish_reload as_digest (loaded "new") (some 0) 5 validating_manager).1

pub started_ok : initialize (some 0) none (new_manager "old" 0) ≡ some idle_manager
unfolding initialize new_manager
started_ok = refl

pub begun_ok : begin_reload idle_manager ≡ some validating_manager
unfolding begin_reload new_manager
begun_ok = refl

pub applied_ok :
    applied_manager ≡ (finish_reload as_digest (loaded "new") (some 0) 5 validating_manager).1
applied_ok = refl

-- A reload waits for two deliveries when `SetDraining` is called.
pub drained_early :
    Reach as_digest 0 true
      (set_draining (finish_reload as_digest (loaded "new") (some 2) 5 validating_manager).1)
drained_early =
    stepped
      (stepped
        (stepped (stepped (started "old" 0) (initialized (some 0) none started_ok) refl)
          (began begun_ok) refl)
        (finished (loaded "new") (some 2) 5 refl) refl)
      (forced refl) refl

abbrev pub any_push : RouteMatch
any_push = record {
  source = "gh";
  repository = "acme/app";
  event = "push";
  ref = none;
  status = none;
  revision = none;
  external_id = none;
  trigger = none;
}

abbrev pub main_push : RouteMatch
main_push = record any_push { ref = some "refs/heads/main" }

abbrev pub push_route : Route
push_route = record {
  id = "push";
  priority = some (int 2);
  matching = main_push;
  action = ActionType.deploy;
  targets = "app" ∷ [];
}

abbrev pub tag_route : Route
tag_route = record push_route {
  id = "tag";
  priority = some (int 1);
  matching = record any_push { ref = some "refs/tags/v1" };
}

abbrev pub push_routes : List Route
push_routes = tag_route ∷ push_route ∷ []

pub push_route_chosen : first_canonical push_routes push_event ≡ some push_route
unfolding first_canonical route_matches matches_scalar
push_route_chosen = refl

abbrev pub same_key : String → String
same_key s = s

abbrev pub secret_document : Value
secret_document = object (field "token" (text "x") end)

pub secret_masked : is_masked same_key str_eq [] "token" ≡ true
unfolding is_masked sensitive_key
secret_masked = refl

pub secret_held : Has same_key (mask same_key str_eq secret_document []) [] [] "token" redacted
unfolding is_masked sensitive_key mask mask_items mask_fields Has HasItems HasFields
secret_held = inl (refl, refl, refl)

abbrev pub as_text : String → String → String
as_text s secret = s

abbrev pub keep_bytes : Bytes → String → Bytes
keep_bytes b secret = b

abbrev pub no_json : Bytes → Option Value
no_json b = none

abbrev pub no_bytes : Value → Option Bytes
no_bytes v = none

abbrev pub routing_generation : Generation
routing_generation = record {
  digest = "digest";
  routes = push_routes;
  targets = λ id. some (record { id = id; snapshot = []; fingerprint = "key" });
  sources = λ p id. none;
  gitlab_sources = λ h. none;
  rule_snapshot = λ r. [];
}
