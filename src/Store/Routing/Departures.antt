-- ===== src/Store/Routing/Departures.antt =====
-- internal/store/routing.go: finalizing takes the first event out of the routing queue.
use mathlib.Core.Option
use mathlib.Core.List.{head?}
use hookfly.Base.{
  ℕ, String, Bool, true, false, not, ◌&&◌, some, List, [], ◌∷◌, ◌==◌, ◌<◌, ◌≡◌, ◌≢◌, refl, sym, ap,
  ◌∙◌, subst, In, find?-true, find?-map, keep_if, map, on, update_where, rows_affected, ==→≡, inl,
  inr, Bool-cases, arith,
}
use hookfly.Domain.{RouteDecision}
use hookfly.Store.Tables.{
  EventRow, QueueRow, Db, Result, ok, err, guard, >>=-eq-ok, invalid_command, attempt_not_sending,
  update_one,
}
use hookfly.Store.Routing.{
  is_deferred, insert_deliveries, validate_deliveries, DeferredEvent, finalize_head, finalize_event,
  finalize_if_head, finalize_deferred, peek_deferred, dequeue, deferred_rows, is_queue_row,
}
use hookfly.Store.Routing.Replay.{ok_inj, two_passed}
use hookfly.Store.Routing.Queue.{
  waiting_events, IsAscending, Waits, QueueInv, AreRows, deferred_rows-AreRows,
}
use hookfly.Store.Routing.Arrivals.{insert_deliveries-queue}

-- The head of a queue with its row.
abbrev HeadRow : DeferredEvent → List QueueRow → Type 0
HeadRow d qs =
    (q : QueueRow) × (rest : List QueueRow) × (qs ≡ q ∷ rest)
    × (d.seq ≡ q.seq)
    × (d.event.id ≡ q.event_id)

peek_deferred-HeadRow :
    (db : Db) (d : DeferredEvent)
    → QueueInv db
    → peek_deferred db ≡ some d
    → HeadRow d db.routing_queue
unfolding peek_deferred
peek_deferred-HeadRow db d v h =
    go db.routing_queue (deferred_rows db) (deferred_rows-AreRows db v) h
  where
    go :
        (qs : List QueueRow) (ds : List DeferredEvent)
        → AreRows qs ds
        → head? ds ≡ some d
        → HeadRow d qs
    go [] [] a k = absurd (ground arith)
    go [] (x ∷ ds) a k = absurd a
    go (q ∷ qs) [] a k = absurd a
    go (q ∷ qs) (x ∷ ds) a k =
        let same : x ≡ d = some_inj k in (q, qs, refl, rw (sym same) a.0, rw (sym same) a.1)
      where
        some_inj : some x ≡ some d → x ≡ d
        some_inj p = cc

keep_if-all :
    {A : Type 0} (p : A → Bool) (xs : List A) → ((x : A) → In x xs → p x ≡ true) → keep_if p xs ≡ xs
keep_if-all p [] h = refl
keep_if-all p (x ∷ xs) h = rw (h x (inl refl)) (ap (◌∷◌ x) (keep_if-all p xs (λ y m. h y (inr m))))

dequeue-first :
    (d : DeferredEvent) (q : QueueRow) (qs : List QueueRow) (next : ℕ)
    → d.seq ≡ q.seq
    → d.event.id ≡ q.event_id
    → IsAscending (q ∷ qs) next
    → keep_if (λ r. not (is_queue_row d r)) (q ∷ qs) ≡ qs
dequeue-first d q qs next s i a =
    rw (this (q.seq) d.seq q.event_id d.event.id s i)
      (keep_if-all (λ r. not (is_queue_row d r)) qs (λ r m. later r (a.1 r m)))
  where
    this : (x y z w : ℕ) → y ≡ x → w ≡ z → not (x == y && z == w) ≡ false
    this x y z w p k = ground arith

    later : (r : QueueRow) → q.seq < r.seq → not (is_queue_row d r) ≡ true
    later r l = ground arith

-- The writes of a finalization, on the events and on the queue.
finalize_head-queue :
    (head : DeferredEvent) (decision : RouteDecision) (digest : String) (db db' : Db)
    → finalize_head head decision digest db ≡ ok db'
    → (db'.events
        ≡ update_where
            (λ e. e.id == head.event.id && is_deferred e.routing_result)
            (finalize_event decision digest)
            db.events)
      × (db'.routing_queue ≡ keep_if (λ q. not (is_queue_row head q)) db.routing_queue)
      × (db'.next_seq ≡ db.next_seq)
unfolding finalize_head update_one
finalize_head-queue head decision digest db db' h =
    elim (Bool-cases (rows_affected p db.events == 1)) [
      | inr n ↦ absurd (err_ok (rw n at h))
      | inl y ↦
          let (x, f, l) =
            >>=-eq-ok
              (insert_deliveries head.event.id head.event.received_at decision.deliveries touched)
              (dequeue head) (rw y at h) in
          let (a, b, c) =
            insert_deliveries-queue head.event.id head.event.received_at decision.deliveries touched
              x f in
          let (a', b', c') = dequeued x l in
          (a' ∙ a, b' ∙ ap (keep_if (λ q. not (is_queue_row head q))) b, c' ∙ c)
    ]
  where
    p : EventRow → Bool
    p e = e.id == head.event.id && is_deferred e.routing_result

    touched : Db
    touched = record db { events = update_where p (finalize_event decision digest) db.events }

    err_ok : {y : Db} → ◌≡◌ {A = Result Db} (err attempt_not_sending) (ok y) → ⊥
    err_ok q = cc

    dequeued :
        (x : Db)
        → dequeue head x ≡ ok db'
        → (db'.events ≡ x.events)
          × (db'.routing_queue ≡ keep_if (λ q. not (is_queue_row head q)) x.routing_queue)
          × (db'.next_seq ≡ x.next_seq)
    dequeued x l = elim (Bool-cases (rows_affected (is_queue_row head) x.routing_queue == 1)) [
      | inr t ↦ absurd (err_ok (rw t at l))
      | inl t ↦
          let same = ok_inj (rw t at l) in
          (
            ap (λ (d : Db). d.events) (sym same),
            ap (λ (d : Db). d.routing_queue) (sym same),
            ap (λ (d : Db). d.next_seq) (sym same),
          )
    ]

-- Routing an event leaves another event as it was.
Waits-update_where :
    (head : DeferredEvent) (decision : RouteDecision) (digest : String) (events : List EventRow)
    (q : QueueRow)
    → q.event_id ≢ head.event.id
    → Waits events q
    → Waits
        (update_where
          (λ e. e.id == head.event.id && is_deferred e.routing_result)
          (finalize_event decision digest)
          events)
        q
Waits-update_where head decision digest events q other (e, found, deferred) = (
  e,
  find?-map (λ x. x.id == q.event_id) (λ x. x.id == q.event_id) u same_id events
      ∙ ap (Option.map u) found
      ∙ ap some
          (rw (missed (==→≡ e.id q.event_id (find?-true (λ x. x.id == q.event_id) events found)))),
  deferred,
)
  where
    p : EventRow → Bool
    p x = x.id == head.event.id && is_deferred x.routing_result

    u : EventRow → EventRow
    u = on p (finalize_event decision digest)

    same_id : (x : EventRow) → ((u x).id == q.event_id) ≡ (x.id == q.event_id)
    same_id x = elim (Bool-cases (p x)) [ inl t ↦ rw t refl | inr t ↦ rw t refl ]

    missed : e.id ≡ q.event_id → p e ≡ false
    missed i = ground arith

-- Finalizing the event that was peeked at, where it succeeds, takes exactly that event from the front of
-- the events that wait, and the invariant of the queue holds afterwards.
pub finalize_deferred-waiting_events :
    (db : Db) (d : DeferredEvent) (decision : RouteDecision) (digest : String) (db' : Db)
    (changed : Bool)
    → QueueInv db
    → peek_deferred db ≡ some d
    → finalize_deferred d decision digest db ≡ ok (changed, db')
    → (changed ≡ true) × (waiting_events db ≡ d.event.id ∷ waiting_events db') × QueueInv db'
unfolding finalize_deferred peek_deferred
finalize_deferred-waiting_events db d decision digest db' changed v k h =
    let (q, qs, queue, s, i) = peek_deferred-HeadRow db d v k in
    let n =
      two_passed (guard (not (is_deferred decision.routing_result)) invalid_command)
        (validate_deliveries decision.routing_result decision.deliveries)
        (finalize_if_head d decision digest (head? (deferred_rows db)) db) h in
    let (x, f, o) =
      >>=-eq-ok (finalize_head d decision digest db) (λ y. ok (true, y))
        (rw (self d) at (rw k at n)) in
    let (done, same) = inj o in
    let (events, routed, next) = finalize_head-queue d decision digest db x f in
    let rest : x.routing_queue ≡ qs =
      routed
      ∙ ap (keep_if (λ r. not (is_queue_row d r))) queue
      ∙ dequeue-first d q qs db.next_seq s i (rw queue at v.ascending) in
    (
      sym done,
      ap (map (λ (r : QueueRow). r.event_id)) queue ∙ rw (i, sym same, rest) refl,
      subst QueueInv same (record {
        ascending = rw (rest, next) (rw queue at v.ascending).2;
        distinct = rw rest (rw queue at v.distinct).1;
        waits = λ r m.
            let j = rw rest at m in
            rw events (
              Waits-update_where d decision digest db.events r
                (λ e. (rw queue at v.distinct).0 r j (sym i ∙ sym e))
                (v.waits r (rw queue (inr j))));
      }),
    )
  where
    inj :
        {b : Bool} {x : Db}
        → ◌≡◌ {A = Result (Bool × Db)} (ok (b, x)) (ok (changed, db'))
        → (b ≡ changed) × (x ≡ db')
    inj p = (cc, cc)

    self : (d : DeferredEvent) → (d.seq == d.seq && d.event.id == d.event.id) ≡ true
    self d = ground arith
