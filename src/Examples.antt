-- ===== src/Examples.antt =====
-- A small database: one pushed delivery, claimed, sent and polled.
pub mod Inputs
pub mod Witnesses
pub mod Configured
pub mod Webhooks
pub mod Bindings
use hookfly.Store.Headers.{HeaderMap, HeaderCodec}
use hookfly.Base.{
  ℕ, ◌+◌, ◌==◌, String, Bool, true, false, Option, none, some, List, [], ◌∷◌, ◌++◌, ◌≡◌, ◌≤◌, refl,
  arith, length, All, In, map, ◌⊎◌, inl, inr, join, order_by, str_eq, is_taken, find?, any,
  rows_affected, update_where, lex_le, sym, ap, if◌then◌else◌,
}
use hookfly.Domain.{
  Uuid, Millis, Bytes, TransportStatus, DeploymentStatus, RoutingResult, CanonicalEvent,
  NewDelivery, IngestCommand, IngestResult, Operation, is_monitored, is_pending,
}
use hookfly.Store.Tables.{
  Db, Row, pair_row, Result, ok, err, attempt_not_sending, rows, drawn, update_one, insert_audit,
  insert_audit_as,
}
use hookfly.Store.Invariant.{IsSound, Inv}
use hookfly.Store.Routing.{
  ingest, insert_event, insert_deliveries, insert_delivery, validate_deliveries,
  validate_persisted_event, is_deferred, new_delivery_row, initial_attempt,
}
use hookfly.Store.Routing.Laws.{ingest-Inv}
use hookfly.Store.Work.{
  PendingAttempt, claim_pending_attempt, claim_row, send_delivery, start_send, transition_attempt,
  enqueued_outcome,
}
use hookfly.Store.Work.Claim.{claim_pending_attempt-Inv}
use hookfly.Store.Work.Transition.{IsSending, transition_attempt-Inv}
use hookfly.Store.Poll.Laws.{list_due_polls-Inv}
use hookfly.Store.Poll.{PollWork, list_due_polls, claim_polls}

abbrev pub push_event : CanonicalEvent
push_event = record {
  provider = "github";
  source = "gh";
  repository = "acme/app";
  event = "push";
  ref = "refs/heads/main";
  status = "";
  revision = "abc";
  commit_message = "fix";
  external_id = "";
  trigger = "";
}

abbrev pub to_app : NewDelivery
to_app = record { target_id = "app"; target_snapshot = 1 ∷ []; dispatch_key = "key" }

abbrev pub push_command : IngestCommand
push_command = record {
  delivery_id = "d1";
  canonical_event = push_event;
  received_at = 7;
  routing_result = RoutingResult.deploy;
  rule_id = "rule";
  rule_snapshot = [];
  config_digest = "digest";
  headers_json = [];
  payload_json = [];
  request_json = [];
  deliveries = to_app ∷ [];
}

abbrev pub empty_db : Db
empty_db = record {
  events = [];
  deliveries = [];
  attempts = [];
  audit_logs = [];
  routing_queue = [];
  next_seq = 1;
  entropy = λ n. n + 10;
}

pub empty_db-Inv : Inv empty_db
unfolding join
empty_db-Inv = record {
  deliveries_distinct = tt;
  attempts_distinct = tt;
  mirrored = λ r h. absurd h;
  exclusive = λ r s h k n c o. absurd h;
}

-- A header with a token is the byte 1, an accepted one the byte 2.
abbrev pub byte_of : String → Bytes
byte_of name =
    if str_eq name "x-gitlab-token" then 1 ∷ [] else (if str_eq name "accept" then 2 ∷ [] else [])

abbrev pub bytes_of : List (String × Bytes) → Bytes
bytes_of [] = []
bytes_of ((name, value) ∷ entries) = byte_of name ++ bytes_of entries

abbrev pub map_bytes : HeaderMap → Bytes
map_bytes none = []
map_bytes (some entries) = bytes_of entries

abbrev pub names_of : Bytes → List (String × Bytes)
names_of [] = []
names_of (b ∷ bs) =
    let rest = names_of bs in
    if b == 1
    then ("x-gitlab-token", b ∷ []) ∷ rest
    else (if b == 2 then ("accept", b ∷ []) ∷ rest else rest)

abbrev pub some_headers : Bytes → Option HeaderMap
some_headers [] = none
some_headers (b ∷ bs) = some (some (names_of bs))

abbrev pub sample_codec : HeaderCodec
sample_codec = record {
  decode = some_headers;
  encode = λ m. some (0 ∷ map_bytes m);
  to_lower = λ s. s;
}

abbrev pub first_result : IngestResult
first_result = record { event_id = 10; duplicate = false }

abbrev pub db_of : {A : Type 0} → Db → Result (A × Db) → Db
db_of db (ok (x, db')) = db'
db_of db (err e) = db

abbrev pub pushed_db : Db
pushed_db = db_of empty_db (ingest sample_codec push_command empty_db)

pub pushed_ok : ingest sample_codec push_command empty_db ≡ ok (first_result, pushed_db)
unfolding ingest insert_event insert_deliveries insert_delivery validate_deliveries
    validate_persisted_event join
pushed_ok = refl

pub pushed_db-Inv : Inv pushed_db
pushed_db-Inv =
    ingest-Inv sample_codec push_command empty_db first_result pushed_db empty_db-Inv pushed_ok

-- The pushed delivery is claimed.
abbrev pub claimed_db : Db
claimed_db = db_of pushed_db (claim_pending_attempt 8 pushed_db)

abbrev pub pushed_work : PendingAttempt
pushed_work = record {
  event_id = 10;
  delivery_id = 11;
  attempt_id = 12;
  target_id = "app";
  target_snapshot = 1 ∷ [];
  request_json = [];
  payload_json = [];
  received_at = 7;
  event = push_event;
}

claimed_ok : claim_pending_attempt 8 pushed_db ≡ ok (some pushed_work, claimed_db)
unfolding ingest insert_event insert_deliveries insert_delivery validate_deliveries
    validate_persisted_event join claim_pending_attempt claim_row order_by insert_audit
    insert_audit_as update_one rows_affected
claimed_ok = refl

pub claimed_db-Inv : Inv claimed_db
claimed_db-Inv =
    claim_pending_attempt-Inv 8 pushed_db claimed_db (some pushed_work) pushed_db-Inv claimed_ok

abbrev pub sent_row : Row
sent_row =
    pair_row (send_delivery 8 (new_delivery_row 11 12 10 to_app 7))
      (start_send (initial_attempt 12 11 7))

pub sent_row-IsSending : IsSending claimed_db 12 sent_row
unfolding ingest insert_event insert_deliveries insert_delivery validate_deliveries
    validate_persisted_event join claim_pending_attempt claim_row order_by insert_audit
    insert_audit_as update_one rows_affected
sent_row-IsSending = (inl refl, refl, refl)

abbrev pub plain_db_of : Db → Result Db → Db
plain_db_of db (ok db') = db'
plain_db_of db (err e) = db

-- Its send is acknowledged, and its deployment polled.
abbrev pub enqueued_db : Db
enqueued_db =
    plain_db_of claimed_db (transition_attempt 12 (enqueued_outcome none none 9 20 100) claimed_db)

enqueued_ok :
    transition_attempt 12 (enqueued_outcome none none 9 20 100) claimed_db ≡ ok enqueued_db
unfolding ingest insert_event insert_deliveries insert_delivery validate_deliveries
    validate_persisted_event join claim_pending_attempt claim_row order_by insert_audit
    insert_audit_as update_one rows_affected transition_attempt
enqueued_ok = refl

pub enqueued_db-Inv : Inv enqueued_db
enqueued_db-Inv =
    transition_attempt-Inv claimed_db enqueued_db claimed_db-Inv 12
      (enqueued_outcome none none 9 20 100) refl enqueued_ok

abbrev pub polled_db : Db
polled_db = (list_due_polls 30 enqueued_db).1

abbrev pub due_work : PollWork
due_work = record {
  event_id = 10;
  delivery_id = 11;
  attempt_id = 12;
  target_id = "app";
  target_snapshot = 1 ∷ [];
  transport_status = TransportStatus.enqueued;
  deployment_status = DeploymentStatus.locating;
  deployment_id = "";
  deployment_cursor = none;
  monitoring_deadline = 100;
  claimed_at = 30;
}

pub polled_works : (list_due_polls 30 enqueued_db).0 ≡ due_work ∷ []
unfolding ingest insert_event insert_deliveries insert_delivery validate_deliveries
    validate_persisted_event join claim_pending_attempt claim_row order_by insert_audit
    insert_audit_as update_one rows_affected transition_attempt list_due_polls claim_polls
polled_works = refl

pub polled_db-Inv : Inv polled_db
polled_db-Inv = list_due_polls-Inv 30 enqueued_db enqueued_db-Inv
