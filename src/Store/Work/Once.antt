-- ===== src/Store/Work/Once.antt =====
-- The transition out of `sending` happens once for an attempt.
use hookfly.Base.{
  true, false, map, List, ◌≡◌, refl, sym, ap, ◌∙◌, In, In-map, In-find?, find?, find?-true, ◌==◌,
  ==→≡, ==_self, subst, Option-cases, Bool-cases, inl, inr,
}
use hookfly.Domain.{Uuid, is_sending, is_pending}
use hookfly.Store.Tables.{Db, Row, Result, ok, err, attempt_not_sending, rows}
use hookfly.Store.Rows.{change_row}
use hookfly.Store.Invariant.{Inv, not_both}
use hookfly.Store.Update.{at_delivery}
use hookfly.Store.Work.{Outcome, finish_attempt, finish_delivery, transition_attempt}
use hookfly.Store.Work.Transition.{
  IsSending, row-eq_attempt, transition_attempt_ok, transition_attempt_refused,
}

abbrev finished_at : Row → Outcome → Row → Row
finished_at r o = at_delivery r.delivery.id (change_row (finish_attempt o) (finish_delivery o))

-- Once the row of an attempt has taken an outcome, no row sends that attempt.
not-IsSending_again :
    (db db' : Db) (o : Outcome) (r : Row)
    → Inv db
    → In r (rows db)
    → is_sending o.transport ≡ false
    → rows db' ≡ map (finished_at r o) (rows db)
    → (s : Row) → ¬ IsSending db' r.attempt.id s
not-IsSending_again db db' o r v hr out k s (hs, same, t) =
    let (y, m, e) =
      In-map (finished_at r o) (rows db) s (subst (λ (xs : List Row). In s xs) k hs) in
    elim (Bool-cases (y.delivery.id == r.delivery.id)) [
      | inl q ↦
          not_both (is_sending o.transport)
            (ap (λ (x : Row). is_sending x.attempt.transport_status) (sym (e ∙ hit y q)) ∙ t) out
      | inr q ↦
          let z = e ∙ miss y q in
          let y_is = row-eq_attempt db v y r m hr (ap (λ (x : Row). x.attempt.id) (sym z) ∙ same) in
          not_both (r.delivery.id == r.delivery.id) (==_self r.delivery.id)
            (ap (λ (x : Row). x.delivery.id == r.delivery.id) (sym y_is) ∙ q)
    ]
  where
    hit :
        (y : Row)
        → (y.delivery.id == r.delivery.id) ≡ true
        → finished_at r o y ≡ change_row (finish_attempt o) (finish_delivery o) y
    hit y q = rw q refl

    miss : (y : Row) → (y.delivery.id == r.delivery.id) ≡ false → finished_at r o y ≡ y
    miss y q = rw q refl

-- An attempt takes one outcome: after a transition to an outcome that is neither pending nor sending
-- has succeeded, every further transition of the attempt is refused, whatever its outcome.
pub transition_attempt_once :
    (db db' : Db) (attempt_id : Uuid) (o next : Outcome)
    → Inv db
    → is_pending o.transport ≡ false
    → is_sending o.transport ≡ false
    → transition_attempt attempt_id o db ≡ ok db'
    → transition_attempt attempt_id next db' ≡ err attempt_not_sending
unfolding transition_attempt
transition_attempt_once db db' attempt_id o next v waits out h =
    elim (Option-cases (find? (λ (x : Row). x.attempt.id == attempt_id) (rows db))) [
      | inl n ↦ absurd (err≢ok (rw n at h))
      | inr (r, f) ↦ elim (Bool-cases (is_sending r.attempt.transport_status)) [
        | inr s ↦ absurd (err≢ok (rw (f, s) at h))
        | inl s ↦
            let hr = In-find? _ (rows db) f in
            let same : r.attempt.id ≡ attempt_id =
              ==→≡ _ _ (find?-true (λ (x : Row). x.attempt.id == attempt_id) (rows db) f) in
            let (db1, e, k, _) = transition_attempt_ok db v attempt_id o r waits (hr, same, s) in
            let is_db' : db1 ≡ db' = ok_inj (sym e ∙ h) in
            transition_attempt_refused db' attempt_id next (λ t w.
              not-IsSending_again db db' o r v hr out (ap (λ (d : Db). rows d) (sym is_db') ∙ k) t
                (w.0, w.1 ∙ sym same, w.2))
      ]
    ]
  where
    err≢ok : {x : Db} → ◌≡◌ {A = Result Db} (err attempt_not_sending) (ok x) → ⊥
    err≢ok p = cc

    ok_inj : {x y : Db} → ◌≡◌ {A = Result Db} (ok x) (ok y) → x ≡ y
    ok_inj p = cc
