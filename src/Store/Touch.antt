-- ===== src/Store/Touch.antt =====
-- Updates of the attempts alone that leave their statuses: recorded evidence, cursors, poll claims.
use hookfly.Base.{
  String, Bool, true, ◌&&◌, map, ◌≡◌, refl, sym, ◌∙◌, arith, In, on, Bool-cases, inl, inr, map-same,
}
use hookfly.Domain.{Uuid, Millis, Bytes, is_pending, is_sending, TransportStatus}
use hookfly.Store.Tables.{
  AttemptRow, Db, Row, rows, occupies, Result, ok, attempt_not_sending, >>=-eq-ok,
}
use hookfly.Store.Rows.{update_one-eq-ok}
use hookfly.Store.Invariant.{IsSound, Inv, Changes, Inv-changed, IsExclusive-changed}
use hookfly.Store.Work.{
  record_deployment_request, is_unrecorded, record_request, set_deployment_cursor, is_uncursored,
  set_cursor,
}

-- The change keeps what the invariant reads; evidence comes only to attempts that are not pending.
pub record IsTouch (u : AttemptRow → AttemptRow) : Type 0 where
  pub id : (a : AttemptRow) → (u a).id ≡ a.id
  pub delivery_id : (a : AttemptRow) → (u a).delivery_id ≡ a.delivery_id
  pub transport : (a : AttemptRow) → (u a).transport_status ≡ a.transport_status
  pub deployment : (a : AttemptRow) → (u a).deployment_status ≡ a.deployment_status
  pub bound : (a : AttemptRow) → (u a).deployment_id ≡ a.deployment_id
  pub evidence :
      (a : AttemptRow)
      → is_pending a.transport_status ≡ true
      → ((u a).request_json ≡ a.request_json)
        × ((u a).request_at ≡ a.request_at)
        × ((u a).deployment_cursor ≡ a.deployment_cursor)

pub Inv-touch :
    (db db' : Db) (u : AttemptRow → AttemptRow)
    → IsTouch u
    → db'.attempts ≡ map u db.attempts
    → db'.deliveries ≡ db.deliveries
    → Inv db
    → Inv db'
Inv-touch db db' u t ea ed v =
    Inv-changed db db' c v sound
      (IsExclusive-changed db db' c v.exclusive (λ r h o. occupied r.attempt o))
  where
    c : Changes db db'
    c = record {
      attempt_change = u;
      delivery_change = λ d. d;
      keeps = record {
        attempt_id = t.id;
        attempt_delivery = t.delivery_id;
        delivery_id = λ d. refl;
        current = λ d. refl;
        target = λ d. refl;
        dispatch = λ d. refl;
      };
      attempts = ea;
      deliveries = ed ∙ sym (map-same (λ d. d) db.deliveries (λ d h. refl));
    }

    occupied : (a : AttemptRow) → occupies (u a) ≡ true → occupies a ≡ true
    occupied a o = rw (t.bound a, t.transport a, t.deployment a) at o

    sound :
        (r : Row)
        → In r (rows db)
        → IsSound r
        → IsSound (record { delivery = r.delivery; attempt = u r.attempt })
    sound r h s = record {
      transport = s.transport ∙ sym (t.transport r.attempt);
      deployment = s.deployment ∙ sym (t.deployment r.attempt);
      fresh = λ p.
          let q : is_pending r.attempt.transport_status ≡ true = rw (t.transport r.attempt) at p in
          let (a, b, d) = t.evidence r.attempt q in
          let (e, f, g) = s.fresh q in (a ∙ e, b ∙ f, d ∙ g);
    }

record_request-IsTouch :
    (db : Db) (id : Uuid) (request : Bytes) (at : Millis)
    → IsTouch (on (is_unrecorded db id) (record_request request at))
record_request-IsTouch db id request at = record {
  id = λ a. split (λ b. b.id ≡ a.id) a refl refl;
  delivery_id = λ a. split (λ b. b.delivery_id ≡ a.delivery_id) a refl refl;
  transport = λ a. split (λ b. b.transport_status ≡ a.transport_status) a refl refl;
  deployment = λ a. split (λ b. b.deployment_status ≡ a.deployment_status) a refl refl;
  bound = λ a. split (λ b. b.deployment_id ≡ a.deployment_id) a refl refl;
  evidence = λ a p. elim (Bool-cases (is_unrecorded db id a)) [
    | inl e ↦ absurd (pending_sending a.transport_status _ _ p e)
    | inr e ↦ rw e (refl, refl, refl)
  ];
}
  where
    split :
        (P : AttemptRow → Type 0) (a : AttemptRow)
        → P (record_request request at a)
        → P a
        → P (on (is_unrecorded db id) (record_request request at) a)
    split P a x y = elim (Bool-cases (is_unrecorded db id a)) [ inl e ↦ rw e x | inr e ↦ rw e y ]

    pending_sending :
        (t : TransportStatus) (x y : Bool)
        → is_pending t ≡ true
        → ((x && is_sending t) && y) ≡ true
        → ⊥
    pending_sending t x y p e = ground arith

set_cursor-IsTouch :
    (db : Db) (id : Uuid) (cursor : String) → IsTouch (on (is_uncursored db id) (set_cursor cursor))
set_cursor-IsTouch db id cursor = record {
  id = λ a. split (λ b. b.id ≡ a.id) a refl refl;
  delivery_id = λ a. split (λ b. b.delivery_id ≡ a.delivery_id) a refl refl;
  transport = λ a. split (λ b. b.transport_status ≡ a.transport_status) a refl refl;
  deployment = λ a. split (λ b. b.deployment_status ≡ a.deployment_status) a refl refl;
  bound = λ a. split (λ b. b.deployment_id ≡ a.deployment_id) a refl refl;
  evidence = λ a p. elim (Bool-cases (is_uncursored db id a)) [
    | inl e ↦ absurd (pending_sending a.transport_status _ _ p e)
    | inr e ↦ rw e (refl, refl, refl)
  ];
}
  where
    split :
        (P : AttemptRow → Type 0) (a : AttemptRow)
        → P (set_cursor cursor a)
        → P a
        → P (on (is_uncursored db id) (set_cursor cursor) a)
    split P a x y = elim (Bool-cases (is_uncursored db id a)) [ inl e ↦ rw e x | inr e ↦ rw e y ]

    pending_sending :
        (t : TransportStatus) (x y : Bool)
        → is_pending t ≡ true
        → ((x && is_sending t) && y) ≡ true
        → ⊥
    pending_sending t x y p e = ground arith

ok_inj : {x y : Db} → ◌≡◌ {A = Result Db} (ok x) (ok y) → x ≡ y
ok_inj p = cc

pub record_deployment_request-Inv :
    (id : Uuid) (request : Bytes) (at : Millis) (db db' : Db)
    → Inv db
    → record_deployment_request id request at db ≡ ok db'
    → Inv db'
unfolding record_deployment_request
record_deployment_request-Inv id request at db db' v h =
    let (xs, e, k) = >>=-eq-ok _ _ h in
    let same = ok_inj k in
    Inv-touch db db' _ (record_request-IsTouch db id request at)
      (rw (← same) (update_one-eq-ok attempt_not_sending _ _ db.attempts xs e).1) (rw (← same)) v

pub set_deployment_cursor-Inv :
    (id : Uuid) (cursor : String) (db db' : Db)
    → Inv db
    → set_deployment_cursor id cursor db ≡ ok db'
    → Inv db'
unfolding set_deployment_cursor
set_deployment_cursor-Inv id cursor db db' v h =
    let (xs, e, k) = >>=-eq-ok _ _ h in
    let same = ok_inj k in
    Inv-touch db db' _ (set_cursor-IsTouch db id cursor)
      (rw (← same) (update_one-eq-ok attempt_not_sending _ _ db.attempts xs e).1) (rw (← same)) v
