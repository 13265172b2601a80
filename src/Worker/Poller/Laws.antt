-- ===== src/Worker/Poller/Laws.antt =====
-- internal/worker/poller.go: what a poll asks for next, and that a completed poll keeps the invariant.
use hookfly.Base.{
  ◌+◌, String, Bool, true, false, not, ◌&&◌, ◌||◌, Option, none, some, List, ◌≡◌, refl, Bool-cases,
  inl, inr, leb, arith, str_eq, sym, ap, ◌∙◌, is_some,
}
use hookfly.Domain.{Uuid, Millis, is_monitored, is_pending}
use hookfly.Dokploy.{Deployment, History}
use hookfly.Store.Tables.{
  AttemptRow, Db, StoreError, poll_not_claimed, attempt_not_sending, current_attempt_changed,
  history_active, constraint_failed, invalid_command, no_rows, Result, ok, err, Row, occupies,
}
use hookfly.Store.Invariant.{Inv, not_both}
use hookfly.Store.Poll.{PollWork, PollUpdate, bound_id, complete_poll, complete_attempt}
use hookfly.Store.Poll.Laws.{IsAdvance, Claims, complete_poll-Inv}
use hookfly.Runtime.Target.{Binding, compatible, target_changed, target_unavailable}
use hookfly.Worker.Poller.{
  matched_status, is_final, deadline_status, matched_update, unmatched_update, poll_update,
  Correlation, no_match, judge, correlate, poll_outcome, finish_one, poll_one,
}

-- What a poll of a claimed work may ask for: it is polled again only while its deployment is monitored
-- and the deadline is not reached, and it stops only with a status that is not monitored.
pub record IsSchedule (w : PollWork) (now : Millis) (u : PollUpdate) : Type 0 where
  pub continues : is_some u.next_poll_at ≡ is_monitored u.deployment_status
  pub ends : leb w.monitoring_deadline now ≡ true → u.next_poll_at ≡ none
  pub unsent : is_pending u.transport_status ≡ true → is_pending w.transport_status ≡ true

-- A matched deployment is monitored on unless its status is final.
matched_monitored :
    (s : Option String) → is_monitored (matched_status s) ≡ not (is_final (matched_status s))
matched_monitored none = refl
matched_monitored (some s) = elim (Bool-cases (str_eq s "done")) [
  | inl a ↦ rw a refl
  | inr a ↦ elim (Bool-cases (str_eq s "error")) [
    | inl b ↦ rw (a, b) refl
    | inr b ↦ elim (Bool-cases (str_eq s "cancelled")) [
      | inl c ↦ rw (a, b, c) refl
      | inr c ↦ elim (Bool-cases (str_eq s "running")) [
        | inl d ↦ rw (a, b, c, d) refl
        | inr d ↦ rw (a, b, c, d) refl
      ]
    ]
  ]
]

matched-IsSchedule :
    (w : PollWork) (d : Deployment) (now next : Millis)
    → IsSchedule w now (matched_update d (leb w.monitoring_deadline now) next)
matched-IsSchedule w d now next = elim (Bool-cases (is_final (matched_status d.status))) [
  | inl f ↦ rw f (record {
    continues = sym (matched_monitored d.status ∙ ap not f);
    ends = λ h. refl;
    unsent = λ h. absurd (not_both _ h refl);
  })
  | inr f ↦ elim (Bool-cases (leb w.monitoring_deadline now)) [
    | inl l ↦
        rw (f, l)
          (record { continues = refl; ends = λ h. refl; unsent = λ h. absurd (not_both _ h refl) })
    | inr l ↦
        rw (f, l)
          (record {
            continues = sym (matched_monitored d.status ∙ ap not f);
            ends = λ h. absurd (not_both _ h l);
            unsent = λ h. absurd (not_both _ h refl);
          })
  ]
]

last_not_monitored : (w : PollWork) → is_monitored (deadline_status w) ≡ false
last_not_monitored w = elim (Bool-cases (str_eq w.deployment_id "")) [
  | inl e ↦ rw e refl
  | inr e ↦ rw e refl
]

unmatched-IsSchedule :
    (w : PollWork) (now next : Millis)
    → is_monitored w.deployment_status ≡ true
    → IsSchedule w now (unmatched_update w (leb w.monitoring_deadline now) next)
unmatched-IsSchedule w now next m = elim (Bool-cases (leb w.monitoring_deadline now)) [
  | inl l ↦
      rw l (record { continues = sym (last_not_monitored w); ends = λ h. refl; unsent = λ h. h })
  | inr l ↦
      rw l (record { continues = rw m refl; ends = λ h. absurd (not_both _ h l); unsent = λ h. h })
]

poll_update-IsSchedule :
    (w : PollWork) (d : Option Deployment) (now interval : Millis)
    → is_monitored w.deployment_status ≡ true
    → IsSchedule w now (poll_update w d now interval)
unfolding poll_update
poll_update-IsSchedule w none now interval m = unmatched-IsSchedule w now (now + interval) m
poll_update-IsSchedule w (some d) now interval m = matched-IsSchedule w d now (now + interval)

module _ (fields : String → List String) (token : Uuid → String) where
  judge-IsSchedule :
      (w : PollWork) (c : Correlation) (now interval : Millis)
      → is_monitored w.deployment_status ≡ true
      → IsSchedule w now (judge fields token w c now interval)
  judge-IsSchedule w c now interval m =
      let s = poll_update-IsSchedule w c.matching now interval m in
      elim (Bool-cases c.unsafe) [
        | inl e ↦ rw e (record { continues = refl; ends = λ h. refl; unsent = s.unsent })
        | inr e ↦ rw e s
      ]

  -- For every binding and history, a poll of a monitored attempt is followed by another one exactly if
  -- the status that it stores is monitored, by none if the deadline is reached, and it never stores a
  -- transport status of an attempt that waits to be sent, unless the attempt had it.
  pub poll_outcome-IsSchedule :
      (b : Binding) (interval : Millis) (history : History) (w : PollWork) (now : Millis)
      → is_monitored w.deployment_status ≡ true
      → IsSchedule w now (poll_outcome fields token b interval history w now)
  unfolding poll_outcome
  poll_outcome-IsSchedule (compatible t) interval history w now m =
      judge-IsSchedule w (correlate fields token t history w) now t.poll_interval m
  poll_outcome-IsSchedule target_changed interval history w now m =
      judge-IsSchedule w no_match now interval m
  poll_outcome-IsSchedule target_unavailable interval history w now m =
      judge-IsSchedule w no_match now interval m

not_bound :
    (u : PollUpdate) (id : Option String) → is_some (bound_id u id) ≡ false → is_some id ≡ false
not_bound u none h = refl
not_bound u (some x) h = elim (Bool-cases (str_eq u.deployment_id "")) [
  | inl e ↦ absurd (not_both _ refl (rw (e, bound_id) at h))
  | inr e ↦ absurd (not_both _ refl (rw (e, bound_id) at h))
]

occupies_before :
    (u : PollUpdate) (a : AttemptRow)
    → is_monitored a.deployment_status ≡ true
    → occupies (complete_attempt u a) ≡ true
    → occupies a ≡ true
occupies_before u a m o = unbound _ _ _ (not_bound u a.deployment_id (was_free _ _ o)) m
  where
    was_free : (x y : Bool) → (not x && y) ≡ true → x ≡ false
    was_free x y h = ground arith

    unbound : (x y z : Bool) → x ≡ false → z ≡ true → (not x && (y || z)) ≡ true
    unbound x y z p q = ground arith

same_db : {b c : Bool} {x y : Db} → ◌≡◌ {A = Result (Bool × Db)} (ok (b, x)) (ok (c, y)) → x ≡ y
same_db p = cc

err_ok : {A : Type 0} {e : StoreError} {x : A} → ◌≡◌ {A = Result A} (err e) (ok x) → ⊥
err_ok p = cc

-- The claimed attempt still has the statuses that its poll was claimed with.
abbrev pub IsUnmoved : PollWork → Db → Type 0
IsUnmoved w db =
    (r : Row)
    → Claims w db r
    → (r.attempt.transport_status ≡ w.transport_status)
      × (r.attempt.deployment_status ≡ w.deployment_status)

module _ (fields : String → List String) (token : Uuid → String) where
  -- A poll of a monitored attempt that nothing moved in between keeps the invariant of the store.
  pub poll_one-Inv :
      (resolve : PollWork → Binding) (interval : Millis) (history : PollWork → History)
      (now : Millis) (w : PollWork) (db : Db)
      → Inv db
      → is_monitored w.deployment_status ≡ true
      → IsUnmoved w db
      → (terminal : Bool) (db' : Db)
      → poll_one fields token resolve interval history now w db ≡ ok (terminal, db')
      → Inv db'
  unfolding poll_one
  poll_one-Inv resolve interval history now w db v m same terminal db' h =
      by_result (complete_poll w u now db)
        (λ d changed e. complete_poll-Inv w u now db d changed v advance e) h
    where
      u : PollUpdate
      u = poll_outcome fields token (resolve w) interval (history w) w now

      advance : (r : Row) → Claims w db r → IsAdvance u r.attempt
      advance r c = record {
        sent = λ e. rw (same r c).0 (
            (poll_outcome-IsSchedule fields token (resolve w) interval (history w) w now m).unsent
              e);
        occupied = λ o. occupies_before u r.attempt (rw (same r c).1 m) o;
      }

      by_result :
          (res : Result (Bool × Db))
          → ((d : Db) (changed : Bool) → res ≡ ok (changed, d) → Inv d)
          → finish_one u db res ≡ ok (terminal, db')
          → Inv db'
      by_result (ok (changed, d)) k p = rw (← same_db p) (k d changed refl)
      by_result (err poll_not_claimed) k p = rw (← same_db p) v
      by_result (err attempt_not_sending) k p = absurd (err_ok p)
      by_result (err current_attempt_changed) k p = absurd (err_ok p)
      by_result (err history_active) k p = absurd (err_ok p)
      by_result (err constraint_failed) k p = absurd (err_ok p)
      by_result (err invalid_command) k p = absurd (err_ok p)
      by_result (err no_rows) k p = absurd (err_ok p)
