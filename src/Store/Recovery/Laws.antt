-- ===== src/Store/Recovery/Laws.antt =====
-- internal/store/recovery.go: ending an active attempt whose target changed keeps the invariant.
use hookfly.Base.{
  String, Bool, true, false, not, ◌&&◌, ◌||◌, ◌≡◌, refl, sym, ap, ◌∙◌, subst, arith, In, find?,
  Bool-cases, Option-cases, inl, inr, ◌==◌, In-find?,
}
use hookfly.Domain.{
  Millis, TransportStatus, DeploymentStatus, is_pending, is_sending, is_monitored, same_transport,
  same_deployment, active,
}
use hookfly.Store.Tables.{
  AttemptRow, Db, Row, StatusSnapshot, rows, is_current, Result, ok, attempt_not_sending,
  update_one, insert_audit, >>=-eq-ok,
}
use hookfly.Store.Rows.{In-rows, update_one-eq-ok}
use hookfly.Store.Invariant.{Inv, not_both}
use hookfly.Store.Update.{RowUpdate, Inv-RowUpdate}
use hookfly.Store.Recovery.{
  ActiveBinding, terminated, terminate_attempt, is_as_bound, terminate_row,
  terminate_incompatible_active, is_attempt_of, is_delivery_of, set_delivery,
}

terminate_update :
    (r : Row) (after : StatusSnapshot) (at : Millis)
    → is_current r.delivery r.attempt ≡ true
    → RowUpdate r
terminate_update r after at c = record {
  is_attempt = is_attempt_of r;
  is_delivery = is_delivery_of r;
  new_attempt = terminate_attempt after;
  new_delivery = set_delivery after at;
  meets_attempt = ground arith;
  meets_delivery = ground arith;
  only_attempt = λ a h. ground arith;
  only_delivery = λ d h. ground arith;
  keeps = record {
    attempt_id = λ a. ground arith;
    attempt_delivery = λ a. ground arith;
    delivery_id = λ d. ground arith;
    current = λ d. ground arith;
    target = λ d. ground arith;
    dispatch = λ d. ground arith;
  };
}

-- A terminated attempt waits no more and occupies nothing.
terminated_over :
    (a : AttemptRow)
    → (is_pending (terminated a).transport_status ≡ false)
      × (is_sending (terminated a).transport_status ≡ false)
      × (is_monitored (terminated a).deployment_status ≡ false)
terminated_over a =
    elim (Bool-cases (
      same_transport a.transport_status TransportStatus.pending
      && same_deployment a.deployment_status DeploymentStatus.not_started)) [
        | inl e ↦ rw e (refl, refl, refl)
        | inr e ↦ rw e (refl, refl, refl)
      ]

not_occupied : (x y z : Bool) → y ≡ false → z ≡ false → (not x && (y || z)) ≡ false
not_occupied x y z p q = ground arith

ok_inj : {x y : Db} → ◌≡◌ {A = Result Db} (ok x) (ok y) → x ≡ y
ok_inj p = cc

terminate_row-Inv :
    (r : Row) (reason : String) (at : Millis) (db db' : Db)
    → Inv db
    → In r (rows db)
    → terminate_row r reason at db ≡ ok db'
    → Inv db'
unfolding terminate_row insert_audit terminate_update
terminate_row-Inv r reason at db db' v hr h =
    let (as', e, k) =
      >>=-eq-ok
        (update_one attempt_not_sending (is_attempt_of r) (terminate_attempt (terminated r.attempt))
          db.attempts)
        _ h in
    let (ds, f, l) =
      >>=-eq-ok
        (update_one attempt_not_sending (is_delivery_of r) (set_delivery (terminated r.attempt) at)
          db.deliveries)
        _ k in
    let same = ok_inj l in
    let (p, s, m) = terminated_over r.attempt in
    Inv-RowUpdate db v r hr (terminate_update r (terminated r.attempt) at (In-rows db r hr).1) db'
      (ap (λ (d : Db). d.attempts) (sym same)
        ∙ (update_one-eq-ok attempt_not_sending _ _ db.attempts as' e).1)
      (ap (λ (d : Db). d.deliveries) (sym same)
        ∙ (update_one-eq-ok attempt_not_sending _ _ db.deliveries ds f).1)
      (record { transport = refl; deployment = refl; fresh = λ q. absurd (not_both _ q p) })
      (λ o. absurd (not_both _ o (not_occupied _ _ _ s m)))

-- Ending an active attempt whose target changed or is gone keeps the invariant of the store, whether the
-- attempt is still as it was read, changed in between or is no longer there.
pub terminate_incompatible_active-Inv :
    (b : ActiveBinding) (reason : String) (at : Millis) (db db' : Db)
    → Inv db
    → terminate_incompatible_active b reason at db ≡ ok db'
    → Inv db'
unfolding terminate_incompatible_active
terminate_incompatible_active-Inv b reason at db db' v h =
    elim (Option-cases (find? (λ (s : Row). s.delivery.id == b.delivery_id) (rows db))) [
      | inl n ↦ subst Inv (ok_inj (rw (n, terminate_incompatible_active) at h)) v
      | inr (r, f) ↦
          elim (Bool-cases (
            is_as_bound b r.attempt
            && active r.attempt.transport_status r.attempt.deployment_status)) [
              | inr e ↦ subst Inv (ok_inj (rw (f, e, terminate_incompatible_active) at h)) v
              | inl e ↦
                  terminate_row-Inv r reason at db db' v (In-find? _ (rows db) f)
                    (rw (f, e, terminate_incompatible_active) at h)
            ]
    ]
