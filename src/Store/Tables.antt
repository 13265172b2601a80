-- ===== src/Store/Tables.antt =====
-- migrations/*.sql and the helpers of internal/store: rows, the current-attempt join, results,
-- random identifiers and the audit log.
use mathlib.Core.Option
use hookfly.Base.{
  ℕ, suc, String, Bool, true, false, not, ◌&&◌, ◌||◌, Option, none, some, List, [], ◌∷◌, ◌++◌, ◌==◌,
  if◌then◌else◌, ◌≡◌, refl, find?, is_some, join, rows_affected, update_where,
}
use hookfly.Domain.{
  Uuid, Millis, Bytes, TransportStatus, DeploymentStatus, RoutingResult, CanonicalEvent, is_sending,
  is_monitored,
}

pub record EventRow : Type 0 where
  pub id : Uuid
  pub canonical : CanonicalEvent
  pub delivery_id : String
  pub received_at : Millis
  pub routing_result : RoutingResult
  pub rule_id : Option String
  pub rule_snapshot : Bytes
  pub config_digest : String
  pub headers_json : Bytes
  pub payload_json : Bytes
  pub request_json : Bytes

pub record DeliveryRow : Type 0 where
  pub id : Uuid
  pub event_id : Uuid
  pub target_id : String
  pub target_snapshot : Bytes
  pub dispatch_key : Option String
  pub current_attempt_id : Option Uuid
  pub transport_status : TransportStatus
  pub deployment_status : DeploymentStatus
  pub created_at : Millis
  pub updated_at : Millis

-- `delivery_attempts.kind`; the code writes these three texts only.
pub data Kind : Type 0 where
  initial retry redeploy : Kind

pub record AttemptRow : Type 0 where
  pub id : Uuid
  pub delivery_id : Uuid
  pub kind : Kind
  pub actor : Option String
  pub transport_status : TransportStatus
  pub deployment_status : DeploymentStatus
  pub request_json : Option Bytes
  pub response_json : Option Bytes
  pub request_at : Option Millis
  pub response_at : Option Millis
  pub enqueued_at : Option Millis
  pub deployment_id : Option String
  pub deployment_cursor : Option String
  pub poll_due_at : Option Millis
  pub monitoring_deadline_at : Option Millis
  pub last_polled_at : Option Millis
  pub created_at : Millis

pub record StatusSnapshot : Type 0 where
  pub transport_status : TransportStatus
  pub deployment_status : DeploymentStatus

pub record AuditRow : Type 0 where
  pub id : Uuid
  pub event_id : Uuid
  pub delivery_id : Uuid
  pub attempt_id : Uuid
  pub actor : String
  pub action : String
  pub before : StatusSnapshot
  pub after : StatusSnapshot
  pub reason : String
  pub created_at : Millis

pub record QueueRow : Type 0 where
  pub seq : ℕ
  pub event_id : Uuid

-- `entropy` holds the identifiers that `uuid.NewString` has yet to draw, `next_seq` what
-- AUTOINCREMENT gives out next.
pub record Db : Type 0 where
  pub events : List EventRow
  pub deliveries : List DeliveryRow
  pub attempts : List AttemptRow
  pub audit_logs : List AuditRow
  pub routing_queue : List QueueRow
  pub next_seq : ℕ
  pub entropy : ℕ → Uuid

pub data StoreError : Type 0 where
  attempt_not_sending poll_not_claimed current_attempt_changed history_active : StoreError
  constraint_failed invalid_command no_rows : StoreError

-- A transaction that fails leaves the database as it was: the caller keeps the old value.
pub data Result (A : Type 0) : Type 0 where
  ok : A → Result A
  err : StoreError → Result A

-- A condition of a transaction: without it the transaction ends with the error.
abbrev pub guard : (condition : Bool) (why : StoreError) → Result (Unit {0})
guard false why = err why
guard true _ = ok tt

abbrev pub or_fail : {A : Type 0} → Option A → StoreError → Result A
or_fail none why = err why
or_fail (some found) _ = ok found

infixl 5 ◌>>=◌
abbrev pub ◌>>=◌ : {A B : Type 0} → Result A → (A → Result B) → Result B
err why >>= next = err why
ok result >>= next = next result

infixl 5 ◌>>◌
abbrev pub ◌>>◌ : {A : Type 0} → Result (Unit {0}) → Result A → Result A
checked >> rest = checked >>= λ _. rest

-- An UPDATE whose RowsAffected must be 1 (`requireOneRow`, `requirePollRow`, `requireCurrentAttemptRow`).
unfoldable pub update_one :
    {A : Type 0} → StoreError → (A → Bool) → (A → A) → List A → Result (List A)
update_one e p f xs = if rows_affected p xs == 1 then ok (update_where p f xs) else err e

-- One delivery with its current attempt.
pub record Row : Type 0 where
  pub delivery : DeliveryRow
  pub attempt : AttemptRow

abbrev pub holds : Option Uuid → Uuid → Bool
holds none id = false
holds (some x) id = x == id

-- `a.id = d.current_attempt_id AND a.delivery_id = d.id`.
abbrev pub is_current : DeliveryRow → AttemptRow → Bool
is_current d a = holds d.current_attempt_id a.id && a.delivery_id == d.id

abbrev pub pair_row : DeliveryRow → AttemptRow → Row
pair_row d a = record { delivery = d; attempt = a }

abbrev pub current_row : List AttemptRow → DeliveryRow → Option Row
current_row attempts d = Option.map (pair_row d) (find? (is_current d) attempts)

-- The join of deliveries with their current attempts.
abbrev pub rows : Db → List Row
rows db = join (current_row db.attempts) db.deliveries

-- The send is under way or its deployment is monitored, and no remote deployment is bound to it yet.
abbrev pub occupies : AttemptRow → Bool
occupies a =
    not (is_some a.deployment_id)
    && (is_sending a.transport_status || is_monitored a.deployment_status)

abbrev pub snapshot : AttemptRow → StatusSnapshot
snapshot a = record {
  transport_status = a.transport_status;
  deployment_status = a.deployment_status;
}

abbrev pub statuses : TransportStatus → DeploymentStatus → StatusSnapshot
statuses t d = record { transport_status = t; deployment_status = d }

-- `uuid.NewString`: the first of the identifiers to come, and the database without it.
abbrev pub new_uuid : Db → Uuid
new_uuid db = db.entropy 0

abbrev pub drawn : Db → Db
drawn db = record db { entropy = λ n. db.entropy (suc n) }

-- The one INSERT into `audit_logs`, for `insertAudit` (actor "system") and `insertManualAudit`.
unfoldable pub insert_audit_as :
    String → String → Row → String → StatusSnapshot → StatusSnapshot → Millis → Db → Db
insert_audit_as actor reason r action before after at db = record (drawn db) {
  audit_logs =
      db.audit_logs
      ++ record {
        id = new_uuid db;
        event_id = r.delivery.event_id;
        delivery_id = r.delivery.id;
        attempt_id = r.attempt.id;
        actor = actor;
        action = action;
        before = before;
        after = after;
        reason = reason;
        created_at = at;
      }
        ∷ [];
}

unfoldable pub insert_audit : Row → String → StatusSnapshot → StatusSnapshot → Millis → Db → Db
unfolding insert_audit_as
insert_audit r action before after at db = insert_audit_as "system" "" r action before after at db

-- Inversion of a step of a transaction that succeeded.
pub >>=-eq-ok :
    {A B : Type 0} (step : Result A) (next : A → Result B) {end : B}
    → (step >>= next) ≡ ok end
    → (mid : A) × (step ≡ ok mid) × (next mid ≡ ok end)
>>=-eq-ok (err why) next h = cc
>>=-eq-ok (ok mid) next h = (mid, refl, h)

pub or_fail-eq-ok :
    {A : Type 0} (o : Option A) (e : StoreError) {a : A} → or_fail o e ≡ ok a → o ≡ some a
or_fail-eq-ok none e h = cc
or_fail-eq-ok (some x) e h = cc

pub guard-eq-ok : (b : Bool) (e : StoreError) {u : Unit {0}} → guard b e ≡ ok u → b ≡ true
guard-eq-ok true e h = refl
guard-eq-ok false e h = cc
