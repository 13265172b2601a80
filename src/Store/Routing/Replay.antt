-- ===== src/Store/Routing/Replay.antt =====
-- internal/store/ingest.go: a repeated webhook adds nothing.
use hookfly.Store.Headers.{HeaderCodec}
use hookfly.Base.{true, not, some, List, [], ◌∷◌, ◌≡◌, sym, ap, ◌∙◌, find?, is_taken}
use hookfly.Domain.{Uuid, Millis, NewDelivery, IngestCommand, IngestResult}
use hookfly.Store.Tables.{
  EventRow, AttemptRow, Db, Result, ok, err, ◌>>◌, guard, >>=-eq-ok, new_uuid, drawn,
  constraint_failed,
}
use hookfly.Store.Routing.{
  is_duplicate, delivery_clashes, with_delivery, insert_delivery, insert_deliveries,
}

pub ok_inj : {x y : Db} → ◌≡◌ {A = Result Db} (ok x) (ok y) → x ≡ y
ok_inj p = cc

pub two_passed :
    {A : Type 0} (a b : Result (Unit {0})) (m : Result A) {x : A}
    → (a >> (b >> m)) ≡ ok x
    → m ≡ ok x
two_passed (ok u) (ok v) m h = h
two_passed (ok u) (err e) m h = cc
two_passed (err e) b m h = cc

insert_delivery-events :
    (event_id : Uuid) (at : Millis) (n : NewDelivery) (db db' : Db)
    → insert_delivery event_id at n db ≡ ok db'
    → db'.events ≡ db.events
unfolding insert_delivery
insert_delivery-events event_id at n db db' h =
    ap (λ (d : Db). d.events)
      (sym (
        ok_inj (
          two_passed
            (guard (not (delivery_clashes (new_uuid db) event_id n.target_id db.deliveries))
              constraint_failed)
            (guard (not (is_taken (λ (a : AttemptRow). a.id) (new_uuid (drawn db)) db.attempts))
              constraint_failed)
            (ok (with_delivery event_id at n db)) h)))

pub insert_deliveries-events :
    (event_id : Uuid) (at : Millis) (ns : List NewDelivery) (db db' : Db)
    → insert_deliveries event_id at ns db ≡ ok db'
    → db'.events ≡ db.events
unfolding insert_deliveries
insert_deliveries-events event_id at [] db db' h = ap (λ (d : Db). d.events) (sym (ok_inj h))
insert_deliveries-events event_id at (n ∷ ns) db db' h =
    let (d, e, k) = >>=-eq-ok _ _ h in
    insert_deliveries-events event_id at ns d db' k ∙ insert_delivery-events event_id at n db d e

-- The event that the command made, or met, is the one that it meets again.
abbrev Stored : IngestCommand → IngestResult → List EventRow → Type 0
Stored c res events =
    (e : EventRow) × (find? (is_duplicate c) events ≡ some e) × (e.id ≡ res.event_id)

module _ (codec : HeaderCodec) where
  abbrev reported : Db → Uuid → Result (IngestResult × Db)
  reported db id = ok (record { event_id = id; duplicate = true }, drawn db)
