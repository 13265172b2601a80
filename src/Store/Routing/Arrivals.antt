-- ===== src/Store/Routing/Arrivals.antt =====
-- internal/store/ingest.go and routing.go: what an ingestion adds to the routing queue.

use hookfly.Store.Headers.{HeaderCodec}
use hookfly.Base.{
  ℕ, suc, Bool, true, false, not, some, List, [], ◌∷◌, ◌++◌, ◌==◌, ◌<◌, ◌≡◌, ◌≢◌, refl, sym, ap,
  ◌∙◌, subst, Distinct-append_one, is_taken, find?, find?-append_new, map, ==_self, inl, inr,
  Bool-cases, Option-cases, arith, if◌then◌else◌, In-append, not_taken-ne,
}
use hookfly.Domain.{Uuid, Millis, NewDelivery, IngestCommand, IngestResult}
use hookfly.Store.Tables.{
  EventRow, QueueRow, Db, Result, ok, err, ◌>>=◌, guard, >>=-eq-ok, guard-eq-ok, new_uuid, drawn,
  constraint_failed, invalid_command, AttemptRow,
}
use hookfly.Store.Routing.{
  is_deferred, is_duplicate, event_row, insert_delivery, insert_deliveries, delivery_clashes,
  with_delivery, insert_event, ingest, finish_ingest, finish_deferred, enqueue, ingest_deferred,
  validate_deliveries, validate_persisted_event,
}
use hookfly.Store.Routing.Laws.{guards_passed}
use hookfly.Store.Routing.Replay.{ok_inj, two_passed}
use hookfly.Store.Routing.Queue.{waiting_events, IsAscending, QueueInv}

insert_delivery-queue :
    (event_id : Uuid) (at : Millis) (n : NewDelivery) (db db' : Db)
    → insert_delivery event_id at n db ≡ ok db'
    → (db'.events ≡ db.events)
      × (db'.routing_queue ≡ db.routing_queue)
      × (db'.next_seq ≡ db.next_seq)
unfolding insert_delivery
insert_delivery-queue event_id at n db db' h =
    let same = ok_inj (
      two_passed
        (guard (not (delivery_clashes (new_uuid db) event_id n.target_id db.deliveries))
          constraint_failed)
        (guard (not (is_taken (λ (a : AttemptRow). a.id) (new_uuid (drawn db)) db.attempts))
          constraint_failed)
        (ok (with_delivery event_id at n db)) h) in
    (
      ap (λ (d : Db). d.events) (sym same),
      ap (λ (d : Db). d.routing_queue) (sym same),
      ap (λ (d : Db). d.next_seq) (sym same),
    )

pub insert_deliveries-queue :
    (event_id : Uuid) (at : Millis) (ns : List NewDelivery) (db db' : Db)
    → insert_deliveries event_id at ns db ≡ ok db'
    → (db'.events ≡ db.events)
      × (db'.routing_queue ≡ db.routing_queue)
      × (db'.next_seq ≡ db.next_seq)
unfolding insert_deliveries
insert_deliveries-queue event_id at [] db db' h =
    let same = ok_inj h in
    (
      ap (λ (d : Db). d.events) (sym same),
      ap (λ (d : Db). d.routing_queue) (sym same),
      ap (λ (d : Db). d.next_seq) (sym same),
    )
insert_deliveries-queue event_id at (n ∷ ns) db db' h =
    let (d, e, k) = >>=-eq-ok _ _ h in
    let (a, b, c) = insert_deliveries-queue event_id at ns d db' k in
    let (a', b', c') = insert_delivery-queue event_id at n db d e in (a ∙ a', b ∙ b', c ∙ c')

-- The invariant of the queue reads the events, the queue and the next sequence number.
pub same_queue :
    (db db' : Db)
    → db'.events ≡ db.events
    → db'.routing_queue ≡ db.routing_queue
    → db'.next_seq ≡ db.next_seq
    → QueueInv db
    → QueueInv db'
same_queue db db' e q n v = record {
  ascending = rw (q, n) v.ascending;
  distinct = rw q v.distinct;
  waits = λ r m. rw e (v.waits r (rw q at m));
}

find?-append_old :
    (q : EventRow → Bool) (xs : List EventRow) (y e : EventRow)
    → find? q xs ≡ some e
    → find? q (xs ++ y ∷ []) ≡ some e
find?-append_old q [] y e h = absurd (ground arith)
find?-append_old q (x ∷ xs) y e h = elim (Bool-cases (q x)) [
  | inl t ↦ rw t (rw t at h)
  | inr t ↦ rw t (find?-append_old q xs y e (rw t at h))
]

-- Another event disturbs none that waits.
new_event-QueueInv :
    (db db' : Db) (e : EventRow)
    → db'.events ≡ db.events ++ e ∷ []
    → db'.routing_queue ≡ db.routing_queue
    → db'.next_seq ≡ db.next_seq
    → QueueInv db
    → QueueInv db'
new_event-QueueInv db db' e added q n v = record {
  ascending = rw (q, n) v.ascending;
  distinct = rw q v.distinct;
  waits = λ r m.
      let (x, found, deferred) = v.waits r (rw q at m) in
      (
        x,
        rw added (find?-append_old (λ (y : EventRow). y.id == r.event_id) db.events e x found),
        deferred,
      );
}

IsAscending-append :
    (qs : List QueueRow) (next : ℕ) (q : QueueRow)
    → q.seq ≡ next
    → IsAscending qs next
    → IsAscending (qs ++ q ∷ []) (suc next)
IsAscending-append [] next q e a = (ground arith, (λ r m. elim m [ ]), tt)
IsAscending-append (x ∷ xs) next q e (l, s, a) = (
  ground arith,
  λ r m. elim (In-append xs (q ∷ []) r m) [
    | inl k ↦ s r k
    | inr k ↦ elim k [ inl p ↦ last r (ap (λ (y : QueueRow). y.seq) p) | inr n ↦ absurd n ]
  ],
  IsAscending-append xs next q e a,
)
  where
    last : (r : QueueRow) → r.seq ≡ q.seq → x.seq < r.seq
    last r p = ground arith

map-append :
    (qs : List QueueRow) (q : QueueRow)
    → map (λ (r : QueueRow). r.event_id) (qs ++ q ∷ [])
      ≡ map (λ (r : QueueRow). r.event_id) qs ++ q.event_id ∷ []
map-append [] q = refl
map-append (x ∷ xs) q = ap (◌∷◌ x.event_id) (map-append xs q)

module _ (codec : HeaderCodec) where
  pair_inj :
      {r s : IngestResult} {x y : Db}
      → ◌≡◌ {A = Result (IngestResult × Db)} (ok (r, x)) (ok (s, y))
      → (r ≡ s) × (x ≡ y)
  pair_inj p = (cc, cc)

  -- An event that was inserted: a duplicate leaves the events alone, a new one is stored under a new ID.
  insert_event-QueueInv :
      (c : IngestCommand) (db : Db) (res : IngestResult) (db' : Db)
      → QueueInv db
      → insert_event codec c db ≡ ok (res, db')
      → QueueInv db'
        × (waiting_events db' ≡ waiting_events db)
        × (res.duplicate ≡ false
            → (e : EventRow) × (find? (λ (x : EventRow). x.id == res.event_id) db'.events ≡ some e)
              × (e.routing_result ≡ c.routing_result))
  unfolding insert_event
  insert_event-QueueInv c db res db' v h = elim (Option-cases (find? (is_duplicate c) db.events)) [
    | inr (e, f) ↦
        let (p, q) = pair_inj (rw (f, insert_event) at h) in
        (
          same_queue db db' (ap (λ (d : Db). d.events) (sym q))
              (ap (λ (d : Db). d.routing_queue) (sym q)) (ap (λ (d : Db). d.next_seq) (sym q)) v,
          ap waiting_events (sym q),
          λ n. absurd (clash (ap (λ (r : IngestResult). r.duplicate) p ∙ n)),
        )
    | inl f ↦ elim (Bool-cases (is_taken (λ (e : EventRow). e.id) (new_uuid db) db.events)) [
      | inl t ↦ absurd (err_ok (rw (f, t, insert_event) at h))
      | inr t ↦
          let (p, q) = pair_inj (rw (f, t, insert_event) at h) in
          let row = event_row codec (new_uuid db) c in
          (
            new_event-QueueInv db db' row (ap (λ (d : Db). d.events) (sym q))
                (ap (λ (d : Db). d.routing_queue) (sym q)) (ap (λ (d : Db). d.next_seq) (sym q)) v,
            ap waiting_events (sym q),
            λ n. (
              row,
              rw (ap (λ (d : Db). d.events) (sym q), sym (ap (λ (r : IngestResult). r.event_id) p))
                  (find?-append_new (λ (x : EventRow). x.id == new_uuid db) db.events row
                    (λ x m.
                      other x (not_taken-ne (λ (e : EventRow). e.id) (new_uuid db) db.events t x m))
                    (==_self (new_uuid db))),
              refl,
            ),
          )
    ]
  ]
    where
      err_ok :
          {x : IngestResult × Db}
          → ◌≡◌ {A = Result (IngestResult × Db)} (err constraint_failed) (ok x)
          → ⊥
      err_ok p = cc

      clash : true ≡ false → ⊥
      clash p = cc

      other : (x : EventRow) → x.id ≢ new_uuid db → (x.id == new_uuid db) ≡ false
      other x n = ground arith

  enqueue-QueueInv :
      (id : Uuid) (db db' : Db)
      → QueueInv db
      → (e : EventRow) × (find? (λ (x : EventRow). x.id == id) db.events ≡ some e)
        × (is_deferred e.routing_result ≡ true)
      → enqueue codec id db ≡ ok db'
      → QueueInv db' × (waiting_events db' ≡ waiting_events db ++ id ∷ [])
  enqueue-QueueInv id db db' v w h =
      elim (Bool-cases (is_taken (λ (q : QueueRow). q.event_id) id db.routing_queue)) [
        | inl t ↦ absurd (err_ok (rw t at h))
        | inr t ↦
            let same = ok_inj (rw t at h) in
            (
              subst QueueInv same (entered t),
              ap waiting_events (sym same) ∙ map-append db.routing_queue row,
            )
      ]
    where
      err_ok : {x : Db} → ◌≡◌ {A = Result Db} (err constraint_failed) (ok x) → ⊥
      err_ok p = cc

      row : QueueRow
      row = record { seq = db.next_seq; event_id = id }

      entered :
          is_taken (λ (q : QueueRow). q.event_id) id db.routing_queue ≡ false
          → QueueInv (record db {
            routing_queue = db.routing_queue ++ row ∷ [];
            next_seq = suc db.next_seq;
          })
      entered t = record {
        ascending = IsAscending-append db.routing_queue db.next_seq row refl v.ascending;
        distinct =
            Distinct-append_one (λ (q : QueueRow). q.event_id) db.routing_queue row v.distinct t;
        waits = λ r m. elim (In-append db.routing_queue (row ∷ []) r m) [
          | inl k ↦ v.waits r k
          | inr k ↦ elim k [ inl p ↦ rw (ap (λ (q : QueueRow). q.event_id) p) w | inr n ↦ absurd n ]
        ];
      }

  -- A deferred event that is new is put at the end of the events that wait; a duplicate leaves them as
  -- they are. The invariant of the queue holds afterwards.
  pub ingest_deferred-waiting_events :
      (c : IngestCommand) (db : Db) (res : IngestResult) (db' : Db)
      → QueueInv db
      → ingest_deferred codec c db ≡ ok (res, db')
      → QueueInv db'
        × (waiting_events db'
            ≡ (if res.duplicate then waiting_events db else waiting_events db ++ res.event_id ∷ []))
  unfolding ingest_deferred
  ingest_deferred-waiting_events c db res db' v h =
      let m =
        guards_passed (guard (is_deferred c.routing_result) invalid_command)
          (validate_deliveries c.routing_result c.deliveries) (validate_persisted_event c)
          (insert_event codec c db >>= finish_deferred codec) h in
      let (_, g, _) = >>=-eq-ok (guard (is_deferred c.routing_result) invalid_command) _ h in
      let ((r, d), e, n) = >>=-eq-ok (insert_event codec c db) (finish_deferred codec) m in
      let (w, same, stored) = insert_event-QueueInv c db r d v e in
      elim (Bool-cases r.duplicate) [
        | inl t ↦
            let (p, q) = pair_inj (rw t at n) in
            (
              subst QueueInv q w,
              rw (sym (ap (λ (x : IngestResult). x.duplicate) p) ∙ t)
                  (ap waiting_events (sym q) ∙ same),
            )
        | inr t ↦
            let (x, f, o) = >>=-eq-ok (enqueue codec r.event_id d) _ (rw t at n) in
            let (p, q) = pair_inj o in
            let (row, found, result) = stored t in
            let (u, pushed) =
              enqueue-QueueInv r.event_id d x w
                (
                  row,
                  found,
                  rw result (guard-eq-ok (is_deferred c.routing_result) invalid_command g),
                )
                f in
            (
              subst QueueInv q u,
              rw
                  (
                    sym (ap (λ (x : IngestResult). x.duplicate) p) ∙ t,
                    sym (ap (λ (x : IngestResult). x.event_id) p),
                  )
                  (ap waiting_events (sym q) ∙ pushed ∙ ap (λ ids. ids ++ r.event_id ∷ []) same),
            )
      ]

  -- A direct ingestion keeps the invariant of the queue, and the events that wait.
  pub ingest-waiting_events :
      (c : IngestCommand) (db : Db) (res : IngestResult) (db' : Db)
      → QueueInv db
      → ingest codec c db ≡ ok (res, db')
      → QueueInv db' × (waiting_events db' ≡ waiting_events db)
  unfolding ingest
  ingest-waiting_events c db res db' v h =
      let m =
        guards_passed (guard (not (is_deferred c.routing_result)) invalid_command)
          (validate_deliveries c.routing_result c.deliveries) (validate_persisted_event c)
          (insert_event codec c db >>= finish_ingest codec c) h in
      let ((r, d), e, n) = >>=-eq-ok (insert_event codec c db) (finish_ingest codec c) m in
      let (w, same, _) = insert_event-QueueInv c db r d v e in
      elim (Bool-cases r.duplicate) [
        | inl t ↦
            let (p, q) = pair_inj (rw t at n) in
            (subst QueueInv q w, ap waiting_events (sym q) ∙ same)
        | inr t ↦
            let (x, f, o) =
              >>=-eq-ok (insert_deliveries r.event_id c.received_at c.deliveries d) _ (rw t at n) in
            let (p, q) = pair_inj o in
            let (a, b, s) = insert_deliveries-queue r.event_id c.received_at c.deliveries d x f in
            (
              subst QueueInv q (same_queue d x a b s w),
              ap waiting_events (sym q) ∙ ap (map (λ (r : QueueRow). r.event_id)) b ∙ same,
            )
      ]
