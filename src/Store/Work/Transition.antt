-- ===== src/Store/Work/Transition.antt =====
-- The transition out of `sending`: when it succeeds, what it changes, and that it keeps the invariant.
use hookfly.Base.{
  true, false, map, ◌≡◌, refl, sym, ap, ◌∙◌, arith, In, find?, ◌==◌, ==→≡, ==_self, Option-cases,
  inl, inr, find?-In, find?-true, In-find?, some, on, Distinct-unique, Bool-cases,
}
use hookfly.Domain.{Uuid, is_sending, is_pending}
use hookfly.Store.Tables.{
  DeliveryRow, AttemptRow, Db, Row, Result, ok, err, attempt_not_sending, rows, is_current,
  snapshot, statuses, insert_audit,
}
use hookfly.Store.Rows.{change_row, In-rows}
use hookfly.Store.Invariant.{IsSound, Inv, not_both}
use hookfly.Store.Update.{
  RowUpdate, at_delivery, row-eq, update_attempts_ok, update_deliveries_ok, rows-RowUpdate,
  Inv-RowUpdate,
}
use hookfly.Store.Work.{
  Outcome, finish_attempt, finish_delivery, is_sent_attempt, is_sent_delivery, transition_attempt,
}

sent_update :
    (o : Outcome) (r : Row)
    → is_current r.delivery r.attempt ≡ true
    → IsSound r
    → is_sending r.attempt.transport_status ≡ true
    → RowUpdate r
sent_update o r c m s = record {
  is_attempt = is_sent_attempt r;
  is_delivery = is_sent_delivery r;
  new_attempt = finish_attempt o;
  new_delivery = finish_delivery o;
  meets_attempt = ground arith;
  meets_delivery = ground arith;
  only_attempt = λ a h. ground arith;
  only_delivery = λ d h. ground arith;
  keeps = record {
    attempt_id = λ a. ground arith;
    attempt_delivery = λ a. ground arith;
    delivery_id = λ d. ground arith;
    current = λ d. ground arith;
    target = λ d. ground arith;
    dispatch = λ d. ground arith;
  };
}

-- The database after the transition of a row.
abbrev after_transition : Outcome → Row → Db → Db
after_transition o r db =
    insert_audit r o.action (snapshot r.attempt) (statuses o.transport o.deployment) o.at
      (record db {
        attempts = map (on (is_sent_attempt r) (finish_attempt o)) db.attempts;
        deliveries = map (on (is_sent_delivery r) (finish_delivery o)) db.deliveries;
      })

-- The attempt is current, and its send is under way.
abbrev pub IsSending : Db → Uuid → Row → Type 0
IsSending db attempt_id r =
    In r (rows db) × (r.attempt.id ≡ attempt_id) × (is_sending r.attempt.transport_status ≡ true)

module _ (db : Db) (v : Inv db) (o : Outcome) (r : Row) (hr : In r (rows db))
    (s : is_sending r.attempt.transport_status ≡ true) (out : is_pending o.transport ≡ false) where
  row_update : RowUpdate r
  row_update = sent_update o r (In-rows db r hr).1 (v.mirrored r hr) s

  transition_found :
      find? (λ (x : Row). x.attempt.id == r.attempt.id) (rows db) ≡ some r
      → transition_attempt r.attempt.id o db ≡ ok (after_transition o r db)
  unfolding transition_attempt row_update sent_update
  transition_found f = rw (
    f,
    s,
    update_attempts_ok db v r hr row_update attempt_not_sending,
    update_deliveries_ok db v r hr row_update attempt_not_sending,
  )

  after_transition-Inv : Inv (after_transition o r db)
  unfolding row_update sent_update insert_audit
  after_transition-Inv =
      Inv-RowUpdate db v r hr row_update (after_transition o r db) refl refl
        (record { transport = refl; deployment = refl; fresh = λ p. absurd (not_both _ p out) })
        (ground arith)

  rows-after_transition :
      rows (after_transition o r db)
      ≡ map
          (at_delivery r.delivery.id (change_row (finish_attempt o) (finish_delivery o)))
          (rows db)
  unfolding row_update sent_update insert_audit
  rows-after_transition = rows-RowUpdate db v r hr row_update (after_transition o r db) refl refl

-- Attempts of the join are told apart by their identifiers.
pub row-eq_attempt :
    (db : Db)
    → Inv db
    → (r s : Row) → In r (rows db)
    → In s (rows db)
    → r.attempt.id ≡ s.attempt.id
    → r ≡ s
row-eq_attempt db v r s hr hs e =
    let (dr, cr, ar) = In-rows db r hr in
    let (ds, cs, as') = In-rows db s hs in
    let same =
      Distinct-unique (λ (a : AttemptRow). a.id) db.attempts v.attempts_distinct r.attempt s.attempt
        ar as' e in
    row-eq db v r s hr hs (same_delivery r.delivery s.delivery r.attempt s.attempt cr cs same)
  where
    same_delivery :
        (d e : DeliveryRow) (a b : AttemptRow)
        → is_current d a ≡ true
        → is_current e b ≡ true
        → a ≡ b
        → d.id ≡ e.id
    same_delivery d e a b p q same = ground arith

find_current :
    (db : Db)
    → Inv db
    → (r : Row) → In r (rows db)
    → find? (λ (x : Row). x.attempt.id == r.attempt.id) (rows db) ≡ some r
find_current db v r hr =
    let (s, f) =
      find?-In (λ (x : Row). x.attempt.id == r.attempt.id) (rows db) r hr (==_self r.attempt.id) in
    let same =
      row-eq_attempt db v s r (In-find? _ (rows db) f) hr
        (==→≡ _ _ (find?-true (λ (x : Row). x.attempt.id == r.attempt.id) (rows db) f)) in
    f ∙ ap some same

-- A transition of a current sending attempt succeeds: its row takes the outcome, no other row of the
-- join changes, and the invariant holds of the new database.
pub transition_attempt_ok :
    (db : Db)
    → Inv db
    → (attempt_id : Uuid) (o : Outcome) (r : Row) → is_pending o.transport ≡ false
    → IsSending db attempt_id r
    → (db' : Db) × (transition_attempt attempt_id o db ≡ ok db')
      × (rows db'
          ≡ map
              (at_delivery r.delivery.id (change_row (finish_attempt o) (finish_delivery o)))
              (rows db))
      × Inv db'
transition_attempt_ok db v attempt_id o r out (hr, e, s) = (
  after_transition o r db,
  rw (← e) (transition_found db v o r hr s out (find_current db v r hr)),
  rows-after_transition db v o r hr s out,
  after_transition-Inv db v o r hr s out,
)

-- Without such an attempt, the transition is refused.
pub transition_attempt_refused :
    (db : Db) (attempt_id : Uuid) (o : Outcome)
    → ((r : Row) → ¬ IsSending db attempt_id r)
    → transition_attempt attempt_id o db ≡ err attempt_not_sending
unfolding transition_attempt
transition_attempt_refused db attempt_id o none_sends =
    elim (Option-cases (find? (λ (x : Row). x.attempt.id == attempt_id) (rows db))) [
      | inl n ↦ rw n
      | inr (r, f) ↦ elim (Bool-cases (is_sending r.attempt.transport_status)) [
        | inl s ↦ absurd (
            none_sends r (
              In-find? _ (rows db) f,
              ==→≡ _ _ (find?-true (λ (x : Row). x.attempt.id == attempt_id) (rows db) f),
              s,
            ))
        | inr s ↦ rw (f, s)
      ]
    ]

pub transition_attempt-Inv :
    (db db' : Db)
    → Inv db
    → (attempt_id : Uuid) (o : Outcome) → is_pending o.transport ≡ false
    → transition_attempt attempt_id o db ≡ ok db'
    → Inv db'
transition_attempt-Inv db db' v attempt_id o out h =
    elim (Option-cases (find? (λ (x : Row). x.attempt.id == attempt_id) (rows db))) [
      | inl n ↦ absurd (refused_ok (unfold transition_attempt in rw n) h)
      | inr (r, f) ↦ elim (Bool-cases (is_sending r.attempt.transport_status)) [
        | inl s ↦
            let (d, e, _, i) = transition_attempt_ok db v attempt_id o r out (
              In-find? _ (rows db) f,
              ==→≡ _ _ (find?-true (λ (x : Row). x.attempt.id == attempt_id) (rows db) f),
              s,
            ) in
            rw (same_ok (sym h ∙ e)) i
        | inr s ↦ absurd (refused_ok (unfold transition_attempt in rw (f, s)) h)
      ]
    ]
  where
    refused_ok :
        transition_attempt attempt_id o db ≡ err attempt_not_sending
        → transition_attempt attempt_id o db ≡ ok db'
        → ⊥
    refused_ok p q = cc

    same_ok : {x y : Db} → ◌≡◌ {A = Result Db} (ok x) (ok y) → x ≡ y
    same_ok p = cc
