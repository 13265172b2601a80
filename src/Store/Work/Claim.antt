-- ===== src/Store/Work/Claim.antt =====
-- The claim of a pending attempt: which one it takes, what it changes, and that it keeps the
-- invariant, exclusion included.

use hookfly.Base.{
  ℕ, Bool, true, false, not, ◌&&◌, [], map, ◌≡◌, ◌≢◌, refl, sym, ap, ◌∙◌, arith, In, any, find?,
  ◌==◌, ==→≡, Option-cases, inl, inr, ◌⊎◌, Option, some, none, Bool-cases, lex_le, order_by-cases,
  order_by-least, any-In, not_any-In, In-join, In-keep_if, In-map, keep_if, update_where,
}
use hookfly.Domain.{Millis, is_pending, TransportStatus, DeploymentStatus}
use hookfly.Store.Tables.{
  statuses, EventRow, DeliveryRow, Db, Row, Result, ok, attempt_not_sending, rows, is_current,
  insert_audit, holds, occupies,
}
use hookfly.Store.Rows.{change_row, In-rows}
use hookfly.Store.Invariant.{IsExclusive, Inv, conflicts_sym, not_both}
use hookfly.Store.Update.{
  RowUpdate, at_delivery, row-eq, attempt_met, update_deliveries_ok, rows-RowUpdate,
  Inv-RowUpdate_with,
}
use hookfly.Store.Work.{
  is_dispatchable, PendingAttempt, WorkRow, work_row, with_event, conflicts, blocks, is_claimable,
  claim_key, claimable, pending_attempt, is_claim_target, is_claim_delivery, start_send,
  send_delivery, claim_row, claim_pending_attempt,
}

-- A claimable row of the join, with its event.
In-claimable :
    (db : Db) (w : WorkRow)
    → In w (claimable db)
    → In w.row (rows db) × (is_claimable (rows db) w.row ≡ true)
In-claimable db w h =
    let (r, m, e) =
      In-join (with_event db.events) (keep_if (is_claimable (rows db)) (rows db)) w h in
    let same : w.row ≡ r =
      elim (Option-cases (find? (λ (x : EventRow). x.id == r.delivery.event_id) db.events)) [
        | inl n ↦ absurd (none_some (rw n at e))
        | inr (x, f) ↦ row_of r x (rw f at e)
      ] in
    rw same (In-keep_if (is_claimable (rows db)) (rows db) r m)
  where
    none_some : ◌≡◌ {A = Option WorkRow} none (some w) → ⊥
    none_some p = cc

    row_of : (r : Row) (x : EventRow) → some (work_row r x) ≡ some w → w.row ≡ r
    row_of r x p = ground arith

-- What the guards of a claim say of its row.
record IsClaim (db : Db) (w : WorkRow) : Type 0 where
  current : is_current w.row.delivery w.row.attempt ≡ true
  attempt_pending : is_pending w.row.attempt.transport_status ≡ true
  delivery_pending : is_pending w.row.delivery.transport_status ≡ true
  delivery_there : In w.row.delivery db.deliveries
  free : any (blocks w.row) (rows db) ≡ false

IsClaim-facts : (db : Db) (w : WorkRow) → In w (claimable db) → IsClaim db w
IsClaim-facts db w h =
    let (m, t) = In-claimable db w h in
    let (d, c, _) = In-rows db w.row m in
    record {
      current = c;
      attempt_pending = ground arith;
      delivery_pending = ground arith;
      delivery_there = d;
      free = ground arith;
    }

claim_update : (now : Millis) (db : Db) (w : WorkRow) → IsClaim db w → RowUpdate w.row
claim_update now db w f = record {
  is_attempt = is_claim_target db w;
  is_delivery = is_claim_delivery w;
  new_attempt = start_send;
  new_delivery = send_delivery now;
  meets_attempt =
      let there =
        any-In
          (λ (d : DeliveryRow).
            d.id == w.row.delivery.id
            && (holds d.current_attempt_id w.row.attempt.id && is_pending d.transport_status))
          db.deliveries w.row.delivery f.delivery_there
          (self_test w.row f.current f.delivery_pending) in
      target_test w.row f.current f.attempt_pending _ there;
  meets_delivery = self_delivery w.row f.current f.delivery_pending;
  only_attempt = λ a h. ground arith;
  only_delivery = λ d h. ground arith;
  keeps = record {
    attempt_id = λ a. elim (Bool-cases (is_claim_target db w a)) [ inl e ↦ rw e | inr e ↦ rw e ];
    attempt_delivery =
        λ a. elim (Bool-cases (is_claim_target db w a)) [ inl e ↦ rw e | inr e ↦ rw e ];
    delivery_id = λ d. ground arith;
    current = λ d. ground arith;
    target = λ d. ground arith;
    dispatch = λ d. ground arith;
  };
}
  where
    self_test :
        (r : Row)
        → is_current r.delivery r.attempt ≡ true
        → is_pending r.delivery.transport_status ≡ true
        → (r.delivery.id == r.delivery.id
            && (holds r.delivery.current_attempt_id r.attempt.id
                && is_pending r.delivery.transport_status))
          ≡ true
    self_test r c p = ground arith

    self_delivery :
        (r : Row)
        → is_current r.delivery r.attempt ≡ true
        → is_pending r.delivery.transport_status ≡ true
        → ((r.delivery.id == r.delivery.id && holds r.delivery.current_attempt_id r.attempt.id)
            && is_pending r.delivery.transport_status)
          ≡ true
    self_delivery r c p = ground arith

    target_test :
        (r : Row)
        → is_current r.delivery r.attempt ≡ true
        → is_pending r.attempt.transport_status ≡ true
        → (b : Bool) → b ≡ true
        → ((r.attempt.id == r.attempt.id && r.attempt.delivery_id == r.delivery.id)
            && (is_dispatchable r.attempt.kind && (is_pending r.attempt.transport_status && b)))
          ≡ true
    target_test r c p b t = ground arith

-- The database after a claim.
abbrev after_claim : Millis → WorkRow → Db → Db
after_claim now w db =
    insert_audit w.row "transport_sending"
      (statuses TransportStatus.pending DeploymentStatus.not_started)
      (statuses TransportStatus.sending DeploymentStatus.not_started) now
      (record db {
        attempts = update_where (is_claim_target db w) start_send db.attempts;
        deliveries = update_where (is_claim_delivery w) (send_delivery now) db.deliveries;
      })

abbrev pub claimed_row : Millis → Row → Row
claimed_row now = change_row start_send (send_delivery now)

module _ (now : Millis) (db : Db) (v : Inv db) (w : WorkRow) (h : In w (claimable db)) where
  claim_row_update : RowUpdate w.row
  claim_row_update = claim_update now db w (IsClaim-facts db w h)

  In-row : In w.row (rows db)
  In-row = (In-claimable db w h).0

  claim_row_ok : claim_row now db w ≡ ok (some (pending_attempt w), after_claim now w db)
  unfolding claim_row claim_row_update claim_update
  claim_row_ok = rw (
    attempt_met db v w.row In-row claim_row_update,
    update_deliveries_ok db v w.row In-row claim_row_update attempt_not_sending,
  )

  rows-after_claim :
      rows (after_claim now w db) ≡ map (at_delivery w.row.delivery.id (claimed_row now)) (rows db)
  unfolding claim_row_update claim_update insert_audit
  rows-after_claim =
      rows-RowUpdate db v w.row In-row claim_row_update (after_claim now w db) refl refl

  -- No other occupied row conflicts with the claimed one.
  claimed_free :
      (s : Row)
      → In s (rows db)
      → w.row.delivery.id ≢ s.delivery.id
      → conflicts w.row.delivery s.delivery ≡ true
      → occupies s.attempt ≡ false
  claimed_free s hs ne cf =
      let free = not_any-In (blocks w.row) (rows db) (IsClaim-facts db w h).free s hs in
      unblocked (s.delivery.id) (w.row.delivery.id) _ _ free
        (conflicts_sym s.delivery w.row.delivery ∙ cf) ne
    where
      unblocked :
          (x y : ℕ) (c o : Bool) → (c && (not (x == y) && o)) ≡ false → c ≡ true → y ≢ x → o ≡ false
      unblocked x y c o b p q = ground arith

  data Place (s' : Row) : Type 0 where
    claimed : s' ≡ claimed_row now w.row → Place s'
    other : In s' (rows db) → w.row.delivery.id ≢ s'.delivery.id → Place s'

  place : (s' : Row) → In s' (rows (after_claim now w db)) → Place s'
  place s' hs =
      let (s, m, e) =
        In-map (at_delivery w.row.delivery.id (claimed_row now)) (rows db) s'
          (rw rows-after_claim at hs) in
      elim (Bool-cases (s.delivery.id == w.row.delivery.id)) [
        | inl t ↦
            claimed (rw t at e ∙ ap (claimed_row now) (row-eq db v s w.row m In-row (==→≡ _ _ t)))
        | inr t ↦
            let same : s' ≡ s = rw t at e in
            other (rw same m) (rw same (λ q. apart s.delivery.id w.row.delivery.id t q))
      ]
    where
      apart : (x y : ℕ) → (x == y) ≡ false → y ≢ x
      apart x y t q = ground arith

  after_claim-IsExclusive : IsExclusive (rows (after_claim now w db))
  after_claim-IsExclusive r s hr hs ne cf o = go r s (place r hr) (place s hs) ne cf o
    where
      go :
          (r s : Row)
          → Place r
          → Place s
          → r.delivery.id ≢ s.delivery.id
          → conflicts r.delivery s.delivery ≡ true
          → occupies r.attempt ≡ true
          → occupies s.attempt ≡ false
      go r s (claimed p) (claimed q) ne cf o =
          absurd (ne (ap (λ (x : Row). x.delivery.id) (p ∙ sym q)))
      go r s (claimed p) (other m n) ne cf o = claimed_free s m n (rw p at cf)
      go r s (other m n) (claimed q) ne cf o =
          absurd (
            not_both _ o
              (claimed_free r m n (conflicts_sym w.row.delivery r.delivery ∙ rw q at cf)))
      go r s (other m n) (other k l) ne cf o = v.exclusive r s m k ne cf o

  after_claim-Inv : Inv (after_claim now w db)
  unfolding claim_row_update claim_update insert_audit
  after_claim-Inv =
      let m = v.mirrored w.row In-row in
      Inv-RowUpdate_with db v w.row In-row claim_row_update (after_claim now w db) refl refl
        (record { transport = refl; deployment = m.deployment; fresh = λ p. cc })
        after_claim-IsExclusive

-- A claim takes the first of the claimable attempts by (received_at, created_at, id), marks that row
-- alone as sending and keeps the invariant; it takes none, and changes nothing, where there is none.
pub claim_pending_attempt_takes_oldest :
    (now : Millis) (db : Db)
    → Inv db
    → ((claimable db ≡ []) × (claim_pending_attempt now db ≡ ok (none, db)))
      ⊎ ((w : WorkRow) × (db' : Db) × (claim_pending_attempt now db
            ≡ ok (some (pending_attempt w), db'))
          × In w (claimable db)
          × ((x : WorkRow) → In x (claimable db) → lex_le (claim_key w) (claim_key x) ≡ true)
          × (rows db' ≡ map (at_delivery w.row.delivery.id (claimed_row now)) (rows db))
          × Inv db')
unfolding claim_pending_attempt
claim_pending_attempt_takes_oldest now db v = elim (order_by-cases claim_key (claimable db)) [
  | inl (e, o) ↦ inl (e, rw (o, claim_pending_attempt))
  | inr (w, rest, o, h) ↦ inr (
    w,
    after_claim now w db,
    rw (o, claim_pending_attempt) (claim_row_ok now db v w h),
    h,
    order_by-least claim_key (claimable db) o,
    rows-after_claim now db v w h,
    after_claim-Inv now db v w h,
  )
]

pub claim_pending_attempt-Inv :
    (now : Millis) (db db' : Db) (p : Option PendingAttempt)
    → Inv db
    → claim_pending_attempt now db ≡ ok (p, db')
    → Inv db'
claim_pending_attempt-Inv now db db' p v e = elim (claim_pending_attempt_takes_oldest now db v) [
  | inl (_, n) ↦ rw (snd_ok (sym e ∙ n)) v
  | inr (w, d, t, _, _, _, i) ↦ rw (snd_ok (sym e ∙ t)) i
]
  where
    snd_ok :
        {a b : Option PendingAttempt} {x y : Db}
        → ◌≡◌ {A = Result (Option PendingAttempt × Db)} (ok (a, x)) (ok (b, y))
        → x ≡ y
    snd_ok q = cc
