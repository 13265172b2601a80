-- ===== src/Worker/Dispatcher.antt =====
-- internal/worker/dispatcher.go: one round claims a pending attempt, sends it once and persists the
-- outcome. What the remote side and the clock do in the round are arguments.
pub mod Laws
use hookfly.Base.{ℕ, ◌+◌, String, Bool, true, false, Option, none, some, is_some}
use hookfly.Domain.{Uuid, Millis, Bytes}
use hookfly.Store.Tables.{Db, StoreError, Result, ok, err}
use hookfly.Store.Work.{
  PendingAttempt, claim_pending_attempt, record_deployment_request, set_deployment_cursor,
  mark_enqueued, mark_accepted, mark_transport_failed, mark_transport_unknown,
  mark_transport_unknown_terminal,
}
use hookfly.Runtime.Target.{
  Target, Executable, Binding, compatible, target_changed, target_unavailable,
}

-- The clock, where the round reads it.
pub record Times : Type 0 where
  pub claimed : Millis
  pub recorded : Millis
  pub finished : Millis

-- What the client reports of a send: acknowledged, possibly lost, or definitely failed.
pub data SendOutcome : Type 0 where
  acknowledged uncertain definitive : SendOutcome

-- The send of one request. `evidence` is what the client hands over to be recorded right before the
-- transport call; `none`, where it fails before that, and then nothing is sent.
pub record Send : Type 0 where
  pub evidence : Option Bytes
  pub outcome : SendOutcome
  pub response : Bytes

-- The world of a round: the newest deployment ID of the Compose resource (`none` is an error), the
-- send, and whether a forwarded request can be read back from the event.
pub record World : Type 0 where
  pub latest : Option String
  pub send : Send
  pub readable : Bool

-- What a round leaves: whether it handled an attempt, whether a request went out, its error, whether
-- it notified of a terminal state, and the database.
pub record Dispatched : Type 0 where
  pub handled : Bool
  pub posted : Bool
  pub error : Option StoreError
  pub terminal : Bool
  pub db : Db

-- The end of a round by a transition; `db` is what a refused one leaves.
abbrev pub settle : Bool → Bool → Db → Result Db → Dispatched
settle posted terminal db (ok db') = record {
  handled = true;
  posted = posted;
  error = none;
  terminal = terminal;
  db = db';
}
settle posted terminal db (err e) = record {
  handled = true;
  posted = posted;
  error = some e;
  terminal = false;
  db = db;
}

abbrev pub stop : StoreError → Db → Dispatched
stop e db = record { handled = true; posted = false; error = some e; terminal = false; db = db }

-- The callback that records the evidence; a client that fails before calls it not.
unfoldable pub record_evidence : Option Bytes → Uuid → Millis → Db → Result Db
record_evidence none attempt_id at db = ok db
record_evidence (some evidence) attempt_id at db =
    record_deployment_request attempt_id evidence at db

-- `snapshot` builds the bounded JSON of a definitive failure.
module _ (snapshot : String → Bytes) (t : Times) where
  abbrev pub fail : String → PendingAttempt → Db → Dispatched
  fail message work db =
      settle false true db
        (mark_transport_failed none (some (snapshot message)) t.finished work.attempt_id db)

  -- The outcome of a Dokploy send: monitored if it may have arrived.
  unfoldable pub finish_dokploy : Target → Send → PendingAttempt → Db → Dispatched
  finish_dokploy target send work db =
      let due = t.finished + target.poll_interval in
      let deadline = t.finished + target.poll_timeout in
      elim send.outcome [
        | acknowledged ↦ settle (is_some send.evidence) false db (
            mark_enqueued send.evidence (some send.response) t.finished work.attempt_id due deadline
              db)
        | uncertain ↦ settle (is_some send.evidence) false db (
            mark_transport_unknown send.evidence (some send.response) t.finished work.attempt_id due
              deadline db)
        | definitive ↦
            settle (is_some send.evidence) true db (
              mark_transport_failed send.evidence (some send.response) t.finished work.attempt_id
                db)
      ]

  -- The outcome of a direct HTTP or forwarded send, which nothing monitors.
  unfoldable pub finish_direct : Send → PendingAttempt → Db → Dispatched
  finish_direct send work db = elim send.outcome [
    | acknowledged ↦
        settle (is_some send.evidence) true db
          (mark_accepted send.evidence (some send.response) t.finished work.attempt_id db)
    | uncertain ↦ settle (is_some send.evidence) true db (
        mark_transport_unknown_terminal send.evidence (some send.response) t.finished
          work.attempt_id db)
    | definitive ↦
        settle (is_some send.evidence) true db
          (mark_transport_failed send.evidence (some send.response) t.finished work.attempt_id db)
  ]

  -- The Dokploy path of `RunOnce`: cursor, evidence, POST, outcome.
  unfoldable pub dispatch_dokploy : World → Target → PendingAttempt → Db → Dispatched
  dispatch_dokploy world target work db = elim world.latest [
    | none ↦ fail "deployment history is unavailable" work db
    | some cursor ↦ elim (set_deployment_cursor work.attempt_id cursor db) [
      | err e ↦ stop e db
      | ok db' ↦ elim (record_evidence world.send.evidence work.attempt_id t.recorded db') [
        | err e ↦ stop e db'
        | ok db'' ↦ finish_dokploy target world.send work db''
      ]
    ]
  ]

  -- What `dispatchHTTP` and `dispatchForward` share: evidence, request, outcome.
  unfoldable pub dispatch_direct : World → PendingAttempt → Db → Dispatched
  dispatch_direct world work db =
      elim (record_evidence world.send.evidence work.attempt_id t.recorded db) [
        | err e ↦ stop e db
        | ok db' ↦ finish_direct world.send work db'
      ]

  unfoldable pub dispatch_http : Bool → World → PendingAttempt → Db → Dispatched
  dispatch_http true world work db = dispatch_direct world work db
  dispatch_http false world work db = fail "HTTP target is unavailable" work db

  abbrev forward_read : Bool → World → PendingAttempt → Db → Dispatched
  forward_read true world work db = dispatch_direct world work db
  forward_read false world work db = fail "forward request is unavailable" work db

  unfoldable pub dispatch_forward : Bool → World → PendingAttempt → Db → Dispatched
  dispatch_forward true world work db = forward_read world.readable world work db
  dispatch_forward false world work db = fail "forward target is unavailable" work db

  abbrev pub dispatch_to : Executable → World → Target → PendingAttempt → Db → Dispatched
  dispatch_to Executable.dokploy world target work db = dispatch_dokploy world target work db
  dispatch_to (Executable.http client) world target work db = dispatch_http client world work db
  dispatch_to (Executable.forward client) world target work db =
      dispatch_forward client world work db

  unfoldable pub dispatch_work : Binding → World → PendingAttempt → Db → Dispatched
  dispatch_work (compatible target) world work db =
      dispatch_to target.executable world target work db
  dispatch_work target_changed world work db = fail "target_changed" work db
  dispatch_work target_unavailable world work db = fail "target_unavailable" work db

  -- `RunOnce`, with `resolve` for `ResolveTarget` of the generation under the gate.
  unfoldable pub run_once : (PendingAttempt → Binding) → (PendingAttempt → World) → Db → Dispatched
  run_once resolve world db = elim (claim_pending_attempt t.claimed db) [
    | err e ↦ record { handled = false; posted = false; error = some e; terminal = false; db = db }
    | ok (none, db') ↦ record {
      handled = false;
      posted = false;
      error = none;
      terminal = false;
      db = db';
    }
    | ok (some work, db') ↦ dispatch_work (resolve work) (world work) work db'
  ]
