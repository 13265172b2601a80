-- ===== src/Store/Recovery/Interrupted.antt =====
-- internal/store/work.go, RecoverInterrupted: the recovery of one interrupted attempt.
use hookfly.Base.{
  Bool, true, not, ◌&&◌, List, ◌≡◌, refl, sym, ap, ◌∙◌, arith, In, on, Bool-cases, inl, inr,
  map-same,
}
use hookfly.Domain.{Millis, is_pending, is_sending, same_transport→≡, same_deployment→≡}
use hookfly.Store.Tables.{
  DeliveryRow, AttemptRow, Db, Row, StatusSnapshot, rows, is_current, occupies, Result, ok,
  poll_not_claimed, update_one, snapshot, insert_audit, >>=-eq-ok,
}
use hookfly.Store.Rows.{In-rows, update_one-eq-ok}
use hookfly.Store.Invariant.{Inv, not_both}
use hookfly.Store.Update.{RowUpdate, Inv-RowUpdate}
use hookfly.Store.Recovery.{
  PollSchedule, StatusChange, recovered, recover_attempt, recover_row, is_attempt_of,
  is_delivery_of, set_delivery, same_statuses,
}

module _ (now : Millis) (s : PollSchedule) (r : Row)
    (c : is_current r.delivery r.attempt ≡ true) where
  unfoldable pub moved : RowUpdate r
  moved = record {
    is_attempt = is_attempt_of r;
    is_delivery = is_delivery_of r;
    new_attempt = recover_attempt now s (recovered r.attempt) r.attempt;
    new_delivery = set_delivery (recovered r.attempt) now;
    meets_attempt = ground arith;
    meets_delivery = ground arith;
    only_attempt = λ a h. ground arith;
    only_delivery = λ d h. ground arith;
    keeps = record {
      attempt_id = λ a. ground arith;
      attempt_delivery = λ a. ground arith;
      delivery_id = λ d. ground arith;
      current = λ d. ground arith;
      target = λ d. ground arith;
      dispatch = λ d. ground arith;
    };
  }

  -- Where the statuses stay, the delivery is not written.
  unfoldable pub stayed : RowUpdate r
  stayed = record {
    is_attempt = is_attempt_of r;
    is_delivery = is_delivery_of r;
    new_attempt = recover_attempt now s (recovered r.attempt) r.attempt;
    new_delivery = λ d. d;
    meets_attempt = ground arith;
    meets_delivery = ground arith;
    only_attempt = λ a h. ground arith;
    only_delivery = λ d h. ground arith;
    keeps = record {
      attempt_id = λ a. ground arith;
      attempt_delivery = λ a. ground arith;
      delivery_id = λ d. ground arith;
      current = λ d. ground arith;
      target = λ d. ground arith;
      dispatch = λ d. ground arith;
    };
  }

-- A recovered attempt does not wait, if it was interrupted, and occupies nothing that it did not occupy.
recovered_pending :
    (a : AttemptRow)
    → is_pending (recovered a).transport_status ≡ true
    → is_pending a.transport_status ≡ true
recovered_pending a h = elim (Bool-cases (is_sending a.transport_status)) [
  | inl e ↦ absurd (not_both _ h (rw e refl))
  | inr e ↦ rw e at h
]

recovered-occupies :
    (now : Millis) (s : PollSchedule) (a : AttemptRow)
    → occupies (recover_attempt now s (recovered a) a a) ≡ true
    → occupies a ≡ true
recovered-occupies now s a h = elim (Bool-cases (is_sending a.transport_status)) [
  | inl e ↦ rw e (unbound _ _ h)
  | inr e ↦ rw e at h
]
  where
    unbound : (x y : Bool) → (not x && y) ≡ true → (not x && true) ≡ true
    unbound x y p = ground arith

same_row :
    (a b : StatusSnapshot)
    → same_statuses a b ≡ true
    → (a.transport_status ≡ b.transport_status) × (a.deployment_status ≡ b.deployment_status)
same_row a b h = (
  same_transport→≡ a.transport_status b.transport_status (first _ _ h),
  same_deployment→≡ a.deployment_status b.deployment_status (second _ _ h),
)
  where
    first : (x y : Bool) → (x && y) ≡ true → x ≡ true
    first x y h = ground arith

    second : (x y : Bool) → (x && y) ≡ true → y ≡ true
    second x y h = ground arith

second_eq :
    {xs ys : List StatusChange} {x y : Db}
    → ◌≡◌ {A = Result (List StatusChange × Db)} (ok (xs, x)) (ok (ys, y))
    → x ≡ y
second_eq p = cc

-- Recovering one current attempt keeps the invariant of the store, whether or not its statuses change.
pub recover_row-Inv :
    (now : Millis) (s : PollSchedule) (r : Row) (db db' : Db) (changes : List StatusChange)
    → Inv db
    → In r (rows db)
    → recover_row now s r db ≡ ok (changes, db')
    → Inv db'
unfolding recover_row insert_audit moved stayed
recover_row-Inv now s r db db' changes v hr h =
    let (as', e, k) =
      >>=-eq-ok
        (update_one poll_not_claimed (is_attempt_of r)
          (recover_attempt now s (recovered r.attempt) r.attempt) db.attempts)
        _ h in
    let attempts = (update_one-eq-ok poll_not_claimed _ _ db.attempts as' e).1 in
    let c = (In-rows db r hr).1 in
    let m = v.mirrored r hr in
    elim (Bool-cases (same_statuses (snapshot r.attempt) (recovered r.attempt))) [
      | inl t ↦
          let same = second_eq (rw t at k) in
          let (p, q) = same_row _ _ t in
          Inv-RowUpdate db v r hr (stayed now s r c) db'
            (ap (λ (d : Db). d.attempts) (sym same) ∙ attempts)
            (ap (λ (d : Db). d.deliveries) (sym same)
              ∙ sym (map-same _ db.deliveries (λ d i. unmoved d)))
            (record {
              transport = m.transport ∙ p;
              deployment = m.deployment ∙ q;
              fresh = λ w. m.fresh (recovered_pending r.attempt w);
            })
            (recovered-occupies now s r.attempt)
      | inr t ↦
          let (ds, f, l) =
            >>=-eq-ok
              (update_one poll_not_claimed (is_delivery_of r)
                (set_delivery (recovered r.attempt) now) db.deliveries)
              _ (rw t at k) in
          let same = second_eq l in
          Inv-RowUpdate db v r hr (moved now s r c) db'
            (ap (λ (d : Db). d.attempts) (sym same) ∙ attempts)
            (ap (λ (d : Db). d.deliveries) (sym same)
              ∙ (update_one-eq-ok poll_not_claimed _ _ db.deliveries ds f).1)
            (record {
              transport = refl;
              deployment = refl;
              fresh = λ w. m.fresh (recovered_pending r.attempt w);
            })
            (recovered-occupies now s r.attempt)
    ]
  where
    unmoved : (d : DeliveryRow) → on (is_delivery_of r) (λ (x : DeliveryRow). x) d ≡ d
    unmoved d = elim (Bool-cases (is_delivery_of r d)) [ inl e ↦ rw e | inr e ↦ rw e ]
