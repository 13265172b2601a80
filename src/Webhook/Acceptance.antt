-- ===== src/Webhook/Acceptance.antt =====
-- internal/publichook/handler.go: what a webhook changes in the store, and when.
use hookfly.Store.Headers.{HeaderCodec}
use hookfly.Base.{
  ℕ, String, Bool, true, false, not, List, [], ◌∷◌, ◌≡◌, refl, sym, ap, ◌∙◌, inl, inr, Bool-cases,
  arith, if◌then◌else◌,
}
use hookfly.Domain.{Millis, NewDelivery, IngestCommand, IngestResult}
use hookfly.Store.Tables.{Db, Result, ok, err, >>=-eq-ok, guard, invalid_command, ◌>>=◌}
use hookfly.Store.Invariant.{Inv}
use hookfly.Store.Routing.{
  ingest, ingest_deferred, insert_event, insert_deliveries, finish_ingest, finish_deferred, enqueue,
  is_deferred, validate_deliveries, validate_persisted_event,
}
use hookfly.Store.Routing.Laws.{
  ingest-Inv, ingest_deferred-Inv, guards_passed, insert_event_same, enqueue_same,
}
use hookfly.Store.Routing.Replay.{ok_inj}
use hookfly.Store.Routing.Queue.{QueueInv}
use hookfly.Store.Routing.Arrivals.{ingest_deferred-waiting_events, ingest-waiting_events}
use hookfly.Runtime.Manager.{Manager}
use hookfly.Worker.Drainer.{Generation}
use hookfly.Webhook.Provider.{Library}
use hookfly.Webhook.Handler.{
  Request, is_accepted, Encoding, Served, reload_defers, answer, store_command, serve,
}
use hookfly.Webhook.Answers.{by_answer}

module _ (lib : Library) (enc : Encoding) (codec : HeaderCodec) (provider : String) (now : Millis)
    (req : Request) (m : Manager Generation) (db : Db) where
  abbrev stored : Bool → IngestCommand → Result (IngestResult × Db)
  stored deferred c = if deferred then ingest_deferred codec c db else ingest codec c db

  abbrev answered : Bool → Result (IngestResult × Db) → Served
  answered = answer lib enc codec provider now req m db

  stored-Invs :
      (deferred : Bool) (c : IngestCommand)
      → Inv db
      → QueueInv db
      → (r : Result (IngestResult × Db)) → stored deferred c ≡ r
      → Inv (answered deferred r).db × QueueInv (answered deferred r).db
  stored-Invs deferred c v w (err e) h = (v, w)
  stored-Invs true c v w (ok (res, db')) h = (
    ingest_deferred-Inv codec c db res db' v h,
    (ingest_deferred-waiting_events codec c db res db' w h).0,
  )
  stored-Invs false c v w (ok (res, db')) h =
      (ingest-Inv codec c db res db' v h, (ingest-waiting_events codec c db res db' w h).0)

  -- Whatever a webhook brings and however it is answered, the invariants of the deliveries and of the
  -- routing queue hold afterwards.
  pub serve-Invs :
      Inv db
      → QueueInv db
      → Inv (serve lib enc codec provider now req m db).db
        × QueueInv (serve lib enc codec provider now req m db).db
  unfolding store_command
  serve-Invs v w =
      by_answer lib enc codec provider now req m db (λ s. Inv s.db × QueueInv s.db) (λ r n. (v, w))
        (λ deferred c d n. stored-Invs deferred c v w (stored deferred c) refl)

  -- An answer other than 202 leaves the store and the manager as they were.
  pub serve_refused :
      is_accepted (serve lib enc codec provider now req m db).response ≡ false
      → ((serve lib enc codec provider now req m db).db ≡ db)
        × ((serve lib enc codec provider now req m db).manager ≡ m)
  unfolding store_command
  serve_refused =
      by_answer lib enc codec provider now req m db
        (λ s. is_accepted s.response ≡ false → (s.db ≡ db) × (s.manager ≡ m))
        (λ r n h. (refl, refl)) (λ deferred c d n. only_errors deferred (stored deferred c))
    where
      only_errors :
          (deferred : Bool) (r : Result (IngestResult × Db))
          → is_accepted (answered deferred r).response ≡ false
          → ((answered deferred r).db ≡ db) × ((answered deferred r).manager ≡ m)
      only_errors deferred (err e) h = (refl, refl)
      only_errors deferred (ok (res, db')) h = absurd (ground arith)

  second :
      {r : IngestResult} {x y : Db} {s : IngestResult}
      → ◌≡◌ {A = Result (IngestResult × Db)} (ok (r, x)) (ok (s, y))
      → x ≡ y
  second p = cc

  ingest_deferred-deliveries :
      (c : IngestCommand) (res : IngestResult) (db' : Db)
      → ingest_deferred codec c db ≡ ok (res, db')
      → db'.deliveries ≡ db.deliveries
  unfolding ingest_deferred
  ingest_deferred-deliveries c res db' h =
      let k =
        guards_passed (guard (is_deferred c.routing_result) invalid_command)
          (validate_deliveries c.routing_result c.deliveries) (validate_persisted_event c)
          (insert_event codec c db >>= finish_deferred codec) h in
      let ((r, d), e, n) = >>=-eq-ok (insert_event codec c db) (finish_deferred codec) k in
      let same = (insert_event_same codec c db r d e).1 in
      elim (Bool-cases r.duplicate) [
        | inl t ↦ ap (λ (x : Db). x.deliveries) (sym (second (rw t at n))) ∙ same
        | inr t ↦
            let (x, f, o) = >>=-eq-ok (enqueue codec r.event_id d) _ (rw t at n) in
            ap (λ (x : Db). x.deliveries) (sym (second o))
            ∙ (enqueue_same codec r.event_id d x f).1
            ∙ same
      ]

  ingest-deliveries :
      (c : IngestCommand) (res : IngestResult) (db' : Db)
      → c.deliveries ≡ []
      → ingest codec c db ≡ ok (res, db')
      → db'.deliveries ≡ db.deliveries
  unfolding ingest insert_deliveries
  ingest-deliveries c res db' none_made h =
      let k =
        guards_passed (guard (not (is_deferred c.routing_result)) invalid_command)
          (validate_deliveries c.routing_result c.deliveries) (validate_persisted_event c)
          (insert_event codec c db >>= finish_ingest codec c) h in
      let ((r, d), e, n) = >>=-eq-ok (insert_event codec c db) (finish_ingest codec c) k in
      let same = (insert_event_same codec c db r d e).1 in
      elim (Bool-cases r.duplicate) [
        | inl t ↦ ap (λ (x : Db). x.deliveries) (sym (second (rw t at n))) ∙ same
        | inr t ↦
            let (x, f, o) =
              >>=-eq-ok (insert_deliveries r.event_id c.received_at c.deliveries d) _ (rw t at n) in
            ap (λ (x : Db). x.deliveries) (sym (second o))
            ∙ nothing_made r.event_id c.deliveries d x none_made f
            ∙ same
      ]
    where
      nothing_made :
          (id : ℕ) (ns : List NewDelivery) (d x : Db)
          → ns ≡ []
          → insert_deliveries id c.received_at ns d ≡ ok x
          → x.deliveries ≡ d.deliveries
      nothing_made id [] d x n f = ap (λ (y : Db). y.deliveries) (sym (ok_inj f))
      nothing_made id (y ∷ ys) d x n f = absurd (ground arith)

  -- While the manager waits for a reload, applies it or drains the queue, no webhook creates a delivery.
  pub serve-reload_defers :
      reload_defers m.state ≡ true
      → (serve lib enc codec provider now req m db).db.deliveries ≡ db.deliveries
  unfolding store_command
  serve-reload_defers waiting =
      by_answer lib enc codec provider now req m db (λ s. s.db.deliveries ≡ db.deliveries)
        (λ r n. refl) (λ deferred c d n. unchanged deferred c (n waiting) (stored deferred c) refl)
    where
      unchanged :
          (deferred : Bool) (c : IngestCommand)
          → c.deliveries ≡ []
          → (r : Result (IngestResult × Db)) → stored deferred c ≡ r
          → (answered deferred r).db.deliveries ≡ db.deliveries
      unchanged deferred c n (err e) h = refl
      unchanged true c n (ok (res, db')) h = ingest_deferred-deliveries c res db' h
      unchanged false c n (ok (res, db')) h = ingest-deliveries c res db' n h
