-- ===== src/Store/Routing/Laws.antt =====
-- internal/store/ingest.go and routing.go: ingestion and routing keep the invariant, and a repeated
-- delivery of a webhook adds nothing.
use hookfly.Store.Headers.{HeaderCodec}
use hookfly.Base.{
  Bool, true, false, not, ◌||◌, List, [], ◌∷◌, ◌≡◌, refl, sym, Bool-cases, Option-cases, inl, inr,
  ap, ◌∙◌, subst, arith, map-same, find?, is_taken,
}
use hookfly.Domain.{Uuid, Millis, NewDelivery, IngestCommand, IngestResult}
use hookfly.Store.Tables.{
  EventRow, QueueRow, Db, Result, ok, err, ◌>>=◌, ◌>>◌, guard, >>=-eq-ok, guard-eq-ok, new_uuid,
  drawn, constraint_failed, invalid_command,
}
use hookfly.Store.Invariant.{Inv}
use hookfly.Store.Insert.{Inv-Insertion}
use hookfly.Store.Touch.{IsTouch, Inv-touch}
use hookfly.Store.Routing.{
  is_deferred, is_duplicate, new_delivery_row, initial_attempt, insert_delivery, insert_deliveries,
  insert_event, ingest, finish_ingest, finish_deferred, enqueue, ingest_deferred,
  validate_deliveries, validate_persisted_event,
}

-- The invariant reads deliveries and attempts only.
pub same_tables :
    (db db' : Db) → db'.attempts ≡ db.attempts → db'.deliveries ≡ db.deliveries → Inv db → Inv db'
same_tables db db' ea ed v =
    Inv-touch db db' (λ a. a) kept (ea ∙ sym (map-same (λ a. a) db.attempts (λ a h. refl))) ed v
  where
    kept : IsTouch (λ a. a)
    kept = record {
      id = λ a. refl;
      delivery_id = λ a. refl;
      transport = λ a. refl;
      deployment = λ a. refl;
      bound = λ a. refl;
      evidence = λ a p. (refl, refl, refl);
    }

pub ok_inj : {A : Type 0} {x y : A} → ◌≡◌ {A = Result A} (ok x) (ok y) → x ≡ y
ok_inj p = cc

pub guards_passed :
    {A : Type 0} (a b c : Result (Unit {0})) (m : Result A) {x : A}
    → (a >> (b >> (c >> m))) ≡ ok x
    → m ≡ ok x
guards_passed (ok u) (ok v) (ok w) m h = h
guards_passed (ok u) (ok v) (err e) m h = cc
guards_passed (ok u) (err e) c m h = cc
guards_passed (err e) b c m h = cc

-- A step of a transaction that keeps the invariant, where it succeeds.
abbrev Keeps : Db → Result Db → Type 0
Keeps db m = (db' : Db) → Inv db → m ≡ ok db' → Inv db'

insert_delivery-Inv :
    (event_id : Uuid) (at : Millis) (n : NewDelivery) (db : Db)
    → Keeps db (insert_delivery event_id at n db)
unfolding insert_delivery
insert_delivery-Inv event_id at n db db' v h =
    let (_, a, k) = >>=-eq-ok _ _ h in
    let (_, b, l) = >>=-eq-ok _ _ k in
    let same = ok_inj l in
    Inv-Insertion db db'
      (record {
        delivery = new_delivery_row (new_uuid db) (new_uuid (drawn db)) event_id n at;
        attempt = initial_attempt (new_uuid (drawn db)) (new_uuid db) at;
        current = refl;
        owner = refl;
        delivery_new = first_false _ _ (guard-eq-ok _ _ a);
        attempt_new = negated _ (guard-eq-ok _ _ b);
        sound = record { transport = refl; deployment = refl; fresh = λ p. (refl, refl, refl) };
        idle = refl;
        deliveries = ap (λ (d : Db). d.deliveries) (sym same);
        attempts = ap (λ (d : Db). d.attempts) (sym same);
      })
      v
  where
    first_false : (x y : Bool) → not (x || y) ≡ true → x ≡ false
    first_false x y h = ground arith

    negated : (x : Bool) → not x ≡ true → x ≡ false
    negated x h = ground arith

pub insert_deliveries-Inv :
    (event_id : Uuid) (at : Millis) (ns : List NewDelivery) (db : Db)
    → Keeps db (insert_deliveries event_id at ns db)
unfolding insert_deliveries
insert_deliveries-Inv event_id at [] db db' v h = subst Inv (ok_inj h) v
insert_deliveries-Inv event_id at (n ∷ ns) db db' v h =
    let (d, e, k) = >>=-eq-ok _ _ h in
    insert_deliveries-Inv event_id at ns d db' (insert_delivery-Inv event_id at n db d v e) k

module _ (codec : HeaderCodec) where
  -- The new event, or the one there is, changes no delivery and no attempt.
  pub insert_event_same :
      (c : IngestCommand) (db : Db) (res : IngestResult) (db' : Db)
      → insert_event codec c db ≡ ok (res, db')
      → (db'.attempts ≡ db.attempts) × (db'.deliveries ≡ db.deliveries)
  unfolding insert_event
  insert_event_same c db res db' h = elim (Option-cases (find? (is_duplicate c) db.events)) [
    | inr (e, f) ↦
        let same = ap (λ (p : IngestResult × Db). p.1) (ok_inj (rw (f, insert_event) at h)) in
        (ap (λ (d : Db). d.attempts) (sym same), ap (λ (d : Db). d.deliveries) (sym same))
    | inl f ↦ elim (Bool-cases (is_taken (λ (e : EventRow). e.id) (new_uuid db) db.events)) [
      | inl t ↦ absurd (err_ok (rw (f, t, insert_event) at h))
      | inr t ↦
          let same = ap (λ (p : IngestResult × Db). p.1) (ok_inj (rw (f, t, insert_event) at h)) in
          (ap (λ (d : Db). d.attempts) (sym same), ap (λ (d : Db). d.deliveries) (sym same))
    ]
  ]
    where
      err_ok :
          {x : IngestResult × Db}
          → ◌≡◌ {A = Result (IngestResult × Db)} (err constraint_failed) (ok x)
          → ⊥
      err_ok p = cc

  insert_event-Inv :
      (c : IngestCommand) (db : Db) (res : IngestResult) (db' : Db)
      → Inv db
      → insert_event codec c db ≡ ok (res, db')
      → Inv db'
  insert_event-Inv c db res db' v h =
      let (a, d) = insert_event_same c db res db' h in same_tables db db' a d v

  second :
      {r : IngestResult} {x y : Db} {s : IngestResult}
      → ◌≡◌ {A = Result (IngestResult × Db)} (ok (r, x)) (ok (s, y))
      → x ≡ y
  second p = cc

  -- A webhook that is ingested keeps the invariant of the store.
  pub ingest-Inv :
      (c : IngestCommand) (db : Db) (res : IngestResult) (db' : Db)
      → Inv db
      → ingest codec c db ≡ ok (res, db')
      → Inv db'
  unfolding ingest
  ingest-Inv c db res db' v h =
      let m =
        guards_passed (guard (not (is_deferred c.routing_result)) invalid_command)
          (validate_deliveries c.routing_result c.deliveries) (validate_persisted_event c)
          (insert_event codec c db >>= finish_ingest codec c) h in
      let ((r, d), e, n) = >>=-eq-ok (insert_event codec c db) (finish_ingest codec c) m in
      let w = insert_event-Inv c db r d v e in
      elim (Bool-cases r.duplicate) [
        | inl t ↦ subst Inv (second (rw t at n)) w
        | inr t ↦
            let (x, f, o) = >>=-eq-ok _ _ (rw t at n) in
            subst Inv (second o)
              (insert_deliveries-Inv r.event_id c.received_at c.deliveries d x w f)
      ]

  pub enqueue_same :
      (id : Uuid) (db db' : Db)
      → enqueue codec id db ≡ ok db'
      → (db'.attempts ≡ db.attempts) × (db'.deliveries ≡ db.deliveries)
  enqueue_same id db db' h =
      elim (Bool-cases (is_taken (λ (q : QueueRow). q.event_id) id db.routing_queue)) [
        | inl t ↦ absurd (err_ok (rw t at h))
        | inr t ↦
            let same = ok_inj (rw t at h) in
            (ap (λ (d : Db). d.attempts) (sym same), ap (λ (d : Db). d.deliveries) (sym same))
      ]
    where
      err_ok : {x : Db} → ◌≡◌ {A = Result Db} (err constraint_failed) (ok x) → ⊥
      err_ok p = cc

  -- A webhook that is put into the routing queue keeps the invariant of the store.
  pub ingest_deferred-Inv :
      (c : IngestCommand) (db : Db) (res : IngestResult) (db' : Db)
      → Inv db
      → ingest_deferred codec c db ≡ ok (res, db')
      → Inv db'
  unfolding ingest_deferred
  ingest_deferred-Inv c db res db' v h =
      let m =
        guards_passed (guard (is_deferred c.routing_result) invalid_command)
          (validate_deliveries c.routing_result c.deliveries) (validate_persisted_event c)
          (insert_event codec c db >>= finish_deferred codec) h in
      let ((r, d), e, n) = >>=-eq-ok (insert_event codec c db) (finish_deferred codec) m in
      let w = insert_event-Inv c db r d v e in
      elim (Bool-cases r.duplicate) [
        | inl t ↦ subst Inv (second (rw t at n)) w
        | inr t ↦
            let (x, f, o) = >>=-eq-ok _ _ (rw t at n) in
            let (a, b) = enqueue_same r.event_id d x f in
            subst Inv (second o) (same_tables d x a b w)
      ]
