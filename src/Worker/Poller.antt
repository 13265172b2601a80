-- ===== src/Worker/Poller.antt =====
-- internal/worker/poller.go: one claimed poll is looked up, judged and completed.
pub mod Laws
use hookfly.Base.{
  ℕ, ◌+◌, String, Bool, true, false, not, ◌&&◌, ◌||◌, Option, none, some, List, [], ◌∷◌, ◌++◌, ◌==◌,
  leb, if◌then◌else◌, str_eq,
}
use hookfly.Domain.{Uuid, Millis, Bytes, TransportStatus, DeploymentStatus, active}
use hookfly.Dokploy.{
  Deployment, DeploymentLookup, found, not_found, ambiguous, cursor_missing, History,
  find_deployment, find_deployment_after,
}
use hookfly.Store.Tables.{Db, StoreError, poll_not_claimed, Result, ok, err}
use hookfly.Store.Poll.{PollWork, PollUpdate, list_due_polls, complete_poll}
use hookfly.Runtime.Target.{Target, Binding, compatible, target_changed, target_unavailable}

abbrev pub matched_status : Option String → DeploymentStatus
matched_status none = DeploymentStatus.unrecognized
matched_status (some s) =
    if str_eq s "done"
    then DeploymentStatus.done
    else (if str_eq s "error"
        then DeploymentStatus.error
        else (if str_eq s "cancelled"
            then DeploymentStatus.cancelled
            else (if str_eq s "running"
                then DeploymentStatus.running
                else DeploymentStatus.unrecognized)))

-- done, error and cancelled end the monitoring whatever the clock says.
abbrev pub is_final : DeploymentStatus → Bool
is_final DeploymentStatus.done = true
is_final DeploymentStatus.error = true
is_final DeploymentStatus.cancelled = true
is_final _ = false

abbrev pub deadline_status : PollWork → DeploymentStatus
deadline_status w =
    if not (str_eq w.deployment_id "") then DeploymentStatus.timeout else DeploymentStatus.unknown

abbrev pub matched_update : Deployment → Bool → Millis → PollUpdate
matched_update d deadline_reached next =
    let status = matched_status d.status in
    if is_final status
    then record {
      transport_status = TransportStatus.enqueued;
      deployment_status = status;
      deployment_id = d.deployment_id;
      next_poll_at = none;
    }
    else (if deadline_reached
        then record {
          transport_status = TransportStatus.enqueued;
          deployment_status = DeploymentStatus.timeout;
          deployment_id = d.deployment_id;
          next_poll_at = none;
        }
        else record {
          transport_status = TransportStatus.enqueued;
          deployment_status = status;
          deployment_id = d.deployment_id;
          next_poll_at = some next;
        })

abbrev pub unmatched_update : PollWork → Bool → Millis → PollUpdate
unmatched_update w deadline_reached next =
    if deadline_reached
    then record {
      transport_status = w.transport_status;
      deployment_status = deadline_status w;
      deployment_id = "";
      next_poll_at = none;
    }
    else record {
      transport_status = w.transport_status;
      deployment_status = w.deployment_status;
      deployment_id = "";
      next_poll_at = some next;
    }

-- `pollUpdate`, with the deployment that was matched, if any.
unfoldable pub poll_update : PollWork → Option Deployment → Millis → Millis → PollUpdate
poll_update w none now interval =
    unmatched_update w (leb w.monitoring_deadline now) (now + interval)
poll_update w (some d) now interval =
    matched_update d (leb w.monitoring_deadline now) (now + interval)

-- What a lookup gives the loop: the match, and whether the correlation is unsafe.
pub record Correlation : Type 0 where
  pub matching : Option Deployment
  pub unsafe : Bool

abbrev pub no_match : Correlation
no_match = record { matching = none; unsafe = false }

abbrev pub is_unsafe : DeploymentLookup → Bool
is_unsafe found = false
is_unsafe not_found = false
is_unsafe ambiguous = true
is_unsafe cursor_missing = true

abbrev pub is_found : DeploymentLookup → Bool
is_found found = true
is_found _ = false

abbrev pub from_lookup : Option (Option Deployment × DeploymentLookup) → Correlation
from_lookup none = no_match
from_lookup (some (d, lookup)) = record {
  matching = if is_found lookup then d else none;
  unsafe = is_unsafe lookup;
}

-- A lookup that fails is logged, and the poll goes on without a match.
abbrev pub from_find : Option (Option Deployment) → Correlation
from_find none = no_match
from_find (some d) = record { matching = d; unsafe = false }

-- The deployment ID or a missing cursor selects the search by identity.
abbrev pub by_identity : PollWork → Bool
by_identity w = elim w.deployment_cursor [ none ↦ true | some c ↦ not (str_eq w.deployment_id "") ]

-- What follows `CompletePoll`: a claim that was lost in between is passed over.
abbrev pub finish_one : PollUpdate → Db → Result (Bool × Db) → Result (Bool × Db)
finish_one update db (ok (changed, db')) =
    ok (changed && not (active update.transport_status update.deployment_status), db')
finish_one update db (err poll_not_claimed) = ok (false, db)
finish_one update db (err e) = err e

-- What a round leaves: its error, the terminal notifications that it made, and the database.
pub record Round : Type 0 where
  pub error : Option StoreError
  pub terminal : ℕ
  pub db : Db

abbrev pub count_terminal : Bool → Round → Round
count_terminal terminal r = if terminal then record r { terminal = r.terminal + 1 } else r

-- `fields` is `strings.Fields`, `token` builds "attempt_id=" with the identifier, and `history` is
-- what the target's Dokploy lists for a Compose ID.
module _ (fields : String → List String) (token : Uuid → String) where
  unfoldable pub correlate : Target → History → PollWork → Correlation
  correlate target history w =
      if by_identity w
      then from_find
          (find_deployment fields target.compose_id (token w.attempt_id) w.deployment_id history)
      else from_lookup (elim w.deployment_cursor [
        | none ↦ none
        | some cursor ↦
            find_deployment_after fields target.compose_id (token w.attempt_id) cursor history
      ])

  abbrev pub judge : PollWork → Correlation → Millis → Millis → PollUpdate
  judge w c now interval =
      let update = poll_update w c.matching now interval in
      if c.unsafe
      then record update { deployment_status = DeploymentStatus.unknown; next_poll_at = none }
      else update

  -- The update of one claimed poll; `interval` is the generation's, used where no target is bound.
  unfoldable pub poll_outcome : Binding → Millis → History → PollWork → Millis → PollUpdate
  poll_outcome (compatible target) interval history w now =
      judge w (correlate target history w) now target.poll_interval
  poll_outcome target_changed interval history w now = judge w no_match now interval
  poll_outcome target_unavailable interval history w now = judge w no_match now interval

  -- The body of the loop of `RunOnce`: the new database, and whether a terminal state was committed.
  unfoldable pub poll_one :
      (PollWork → Binding)
      → Millis
      → (PollWork → History)
      → Millis
      → PollWork
      → Db
      → Result (Bool × Db)
  poll_one resolve interval history now w db =
      let update = poll_outcome (resolve w) interval (history w) w now in
      finish_one update db (complete_poll w update now db)

  -- The loop ends at the first error; what was committed before it stays.
  unfoldable pub poll_all :
      (PollWork → Binding) → Millis → (PollWork → History) → Millis → List PollWork → Db → Round
  poll_all resolve interval history now [] db = record { error = none; terminal = 0; db = db }
  poll_all resolve interval history now (w ∷ ws) db =
      elim (poll_one resolve interval history now w db) [
        | err e ↦ record { error = some e; terminal = 0; db = db }
        | ok (terminal, db') ↦
            count_terminal terminal (poll_all resolve interval history now ws db')
      ]

  -- `RunOnce`.
  unfoldable pub run_once :
      (PollWork → Binding) → Millis → (PollWork → History) → Millis → Db → Round
  run_once resolve interval history now db =
      let (works, db') = list_due_polls now db in poll_all resolve interval history now works db'
