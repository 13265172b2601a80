-- ===== src/Worker/Dispatcher/Laws.antt =====
-- internal/worker/dispatcher.go: a round of the dispatcher keeps the invariant of the store.
use hookfly.Base.{
  ◌+◌, is_some, String, Bool, true, false, Option, none, some, ◌≡◌, refl, Option-cases, Bool-cases,
  inl, inr, ◌⊎◌,
}
use hookfly.Domain.{Uuid, Millis, Bytes, is_pending}
use hookfly.Store.Tables.{Db, StoreError, Result, ok, err}
use hookfly.Store.Invariant.{Inv}
use hookfly.Store.Work.{
  PendingAttempt, Outcome, claim_pending_attempt, set_deployment_cursor, transition_attempt,
  enqueued_outcome, accepted_outcome, failed_outcome, unknown_outcome, unknown_terminal_outcome,
  mark_enqueued, mark_accepted, mark_transport_failed, mark_transport_unknown,
  mark_transport_unknown_terminal,
}
use hookfly.Store.Work.Transition.{transition_attempt-Inv}
use hookfly.Store.Work.Claim.{claim_pending_attempt-Inv}
use hookfly.Store.Touch.{record_deployment_request-Inv, set_deployment_cursor-Inv}
use hookfly.Runtime.Target.{
  Target, Executable, Binding, compatible, target_changed, target_unavailable,
}
use hookfly.Worker.Dispatcher.{
  Times, Send, SendOutcome, acknowledged, uncertain, definitive, World, settle, record_evidence,
  fail, finish_dokploy, finish_direct, dispatch_dokploy, dispatch_direct, dispatch_http,
  dispatch_forward, dispatch_to, dispatch_work, run_once,
}

Result-cases :
    {A : Type 0} (m : Result A) → ((a : A) × (m ≡ ok a)) ⊎ ((e : StoreError) × (m ≡ err e))
Result-cases (ok a) = inl (a, refl)
Result-cases (err e) = inr (e, refl)

outcome-cases : (o : SendOutcome) → (o ≡ acknowledged) ⊎ ((o ≡ uncertain) ⊎ (o ≡ definitive))
outcome-cases acknowledged = inl refl
outcome-cases uncertain = inr (inl refl)
outcome-cases definitive = inr (inr refl)

-- A step that keeps the invariant, where it succeeds.
abbrev Keeps : Result Db → Type 0
Keeps m = (db' : Db) → m ≡ ok db' → Inv db'

settle-Inv :
    (posted terminal : Bool) (db : Db) (id : Uuid) (o : Outcome)
    → is_pending o.transport ≡ false
    → Inv db
    → Inv (settle posted terminal db (transition_attempt id o db)).db
settle-Inv posted terminal db id o out v = elim (Result-cases (transition_attempt id o db)) [
  | inl (d, e) ↦ rw e (transition_attempt-Inv db d v id o out e)
  | inr (x, e) ↦ rw e v
]

record_evidence-Inv :
    (e : Option Bytes) (id : Uuid) (at : Millis) (db : Db)
    → Inv db
    → Keeps (record_evidence e id at db)
unfolding record_evidence
record_evidence-Inv none id at db v db' h = rw (← same h) v
  where
    same : {x y : Db} → ◌≡◌ {A = Result Db} (ok x) (ok y) → x ≡ y
    same p = cc
record_evidence-Inv (some e) id at db v db' h = record_deployment_request-Inv id e at db db' v h

module _ (snapshot : String → Bytes) (t : Times) where
  fail-Inv :
      (message : String) (work : PendingAttempt) (db : Db)
      → Inv db
      → Inv (fail snapshot t message work db).db
  unfolding mark_transport_failed
  fail-Inv message work db v =
      settle-Inv false true db work.attempt_id
        (failed_outcome none (some (snapshot message)) t.finished) refl v

  finish_dokploy-Inv :
      (target : Target) (send : Send) (work : PendingAttempt) (db : Db)
      → Inv db
      → Inv (finish_dokploy snapshot t target send work db).db
  unfolding finish_dokploy mark_enqueued mark_transport_unknown mark_transport_failed
  finish_dokploy-Inv target send work db v = elim (outcome-cases send.outcome) [
    | inl e ↦
        rw (e, finish_dokploy)
          (settle-Inv (is_some send.evidence) false db work.attempt_id
            (enqueued_outcome send.evidence (some send.response) t.finished
              (t.finished + target.poll_interval) (t.finished + target.poll_timeout))
            refl v)
    | inr (inl e) ↦
        rw (e, finish_dokploy)
          (settle-Inv (is_some send.evidence) false db work.attempt_id
            (unknown_outcome send.evidence (some send.response) t.finished
              (t.finished + target.poll_interval) (t.finished + target.poll_timeout))
            refl v)
    | inr (inr e) ↦
        rw (e, finish_dokploy)
          (settle-Inv (is_some send.evidence) true db work.attempt_id
            (failed_outcome send.evidence (some send.response) t.finished) refl v)
  ]

  finish_direct-Inv :
      (send : Send) (work : PendingAttempt) (db : Db)
      → Inv db
      → Inv (finish_direct snapshot t send work db).db
  unfolding finish_direct mark_accepted mark_transport_unknown_terminal mark_transport_failed
  finish_direct-Inv send work db v = elim (outcome-cases send.outcome) [
    | inl e ↦
        rw (e, finish_direct)
          (settle-Inv (is_some send.evidence) true db work.attempt_id
            (accepted_outcome send.evidence (some send.response) t.finished) refl v)
    | inr (inl e) ↦
        rw (e, finish_direct)
          (settle-Inv (is_some send.evidence) true db work.attempt_id
            (unknown_terminal_outcome send.evidence (some send.response) t.finished) refl v)
    | inr (inr e) ↦
        rw (e, finish_direct)
          (settle-Inv (is_some send.evidence) true db work.attempt_id
            (failed_outcome send.evidence (some send.response) t.finished) refl v)
  ]

  dispatch_direct-Inv :
      (world : World) (work : PendingAttempt) (db : Db)
      → Inv db
      → Inv (dispatch_direct snapshot t world work db).db
  unfolding dispatch_direct
  dispatch_direct-Inv world work db v =
      elim (Result-cases (record_evidence world.send.evidence work.attempt_id t.recorded db)) [
        | inl (d, e) ↦
            rw (e, dispatch_direct)
              (finish_direct-Inv world.send work d
                (record_evidence-Inv world.send.evidence work.attempt_id t.recorded db v d e))
        | inr (x, e) ↦ rw (e, dispatch_direct) v
      ]

  dispatch_dokploy-Inv :
      (world : World) (target : Target) (work : PendingAttempt) (db : Db)
      → Inv db
      → Inv (dispatch_dokploy snapshot t world target work db).db
  unfolding dispatch_dokploy
  dispatch_dokploy-Inv world target work db v = elim (Option-cases world.latest) [
    | inl n ↦ rw (n, dispatch_dokploy) (fail-Inv "deployment history is unavailable" work db v)
    | inr (c, s) ↦ elim (Result-cases (set_deployment_cursor work.attempt_id c db)) [
      | inr (x, e) ↦ rw (s, e, dispatch_dokploy) v
      | inl (d, e) ↦
          let w = set_deployment_cursor-Inv work.attempt_id c db d v e in
          elim (Result-cases (record_evidence world.send.evidence work.attempt_id t.recorded d)) [
            | inr (x, f) ↦ rw (s, e, f, dispatch_dokploy) w
            | inl (d', f) ↦
                rw (s, e, f, dispatch_dokploy)
                  (finish_dokploy-Inv target world.send work d'
                    (record_evidence-Inv world.send.evidence work.attempt_id t.recorded d w d' f))
          ]
    ]
  ]

  dispatch_to-Inv :
      (e : Executable) (world : World) (target : Target) (work : PendingAttempt) (db : Db)
      → Inv db
      → Inv (dispatch_to snapshot t e world target work db).db
  unfolding dispatch_http dispatch_forward dispatch_direct
  dispatch_to-Inv Executable.dokploy world target work db v =
      dispatch_dokploy-Inv world target work db v
  dispatch_to-Inv (Executable.http true) world target work db v =
      dispatch_direct-Inv world work db v
  dispatch_to-Inv (Executable.http false) world target work db v =
      fail-Inv "HTTP target is unavailable" work db v
  dispatch_to-Inv (Executable.forward false) world target work db v =
      fail-Inv "forward target is unavailable" work db v
  dispatch_to-Inv (Executable.forward true) world target work db v =
      elim (Bool-cases world.readable) [
        | inl r ↦ rw (r, dispatch_forward) (dispatch_direct-Inv world work db v)
        | inr r ↦ rw (r, dispatch_forward) (fail-Inv "forward request is unavailable" work db v)
      ]

  dispatch_work-Inv :
      (b : Binding) (world : World) (work : PendingAttempt) (db : Db)
      → Inv db
      → Inv (dispatch_work snapshot t b world work db).db
  unfolding dispatch_work
  dispatch_work-Inv (compatible target) world work db v =
      dispatch_to-Inv target.executable world target work db v
  dispatch_work-Inv target_changed world work db v = fail-Inv "target_changed" work db v
  dispatch_work-Inv target_unavailable world work db v = fail-Inv "target_unavailable" work db v

  -- A round of the dispatcher keeps the invariant of the store, whatever targets are bound, whatever the
  -- remote side answers and wherever the round stops.
  pub run_once-Inv :
      (resolve : PendingAttempt → Binding) (world : PendingAttempt → World) (db : Db)
      → Inv db
      → Inv (run_once snapshot t resolve world db).db
  unfolding run_once
  run_once-Inv resolve world db v = elim (Result-cases (claim_pending_attempt t.claimed db)) [
    | inr (x, e) ↦ rw (e, run_once) v
    | inl ((none, d), e) ↦ rw (e, run_once) (claim_pending_attempt-Inv t.claimed db d none v e)
    | inl ((some w, d), e) ↦
        rw (e, run_once)
          (dispatch_work-Inv (resolve w) (world w) w d
            (claim_pending_attempt-Inv t.claimed db d (some w) v e))
  ]
