-- ===== src/Store/Routing/Queue.antt =====
-- internal/store/routing.go: the routing queue as a list of the events that wait, and its head.
use mathlib.Core.Option
use mathlib.Core.List.{head?}
use hookfly.Base.{
  ℕ, true, some, List, [], ◌∷◌, ◌==◌, ◌<◌, ◌≡◌, refl, ap, In, Distinct, find?, find?-true, keep_if,
  map, join, cons_if, order_by, lex_le, ==→≡, inl, inr, arith,
}
use hookfly.Domain.{Uuid}
use hookfly.Store.Tables.{EventRow, QueueRow, Db}
use hookfly.Store.Routing.{
  is_deferred, DeferredEvent, queued_event, seq_key, deferred_rows, peek_deferred,
}

-- The abstract queue: the events that wait to be routed, in the order of their acceptance.
abbrev pub waiting_events : Db → List Uuid
waiting_events db = map (λ (q : QueueRow). q.event_id) db.routing_queue

-- The sequence numbers grow along the queue, and the next one is greater than all.
abbrev pub IsAscending : List QueueRow → ℕ → Type 0
IsAscending [] next = Unit
IsAscending (q ∷ qs) next =
    (q.seq < next) × ((r : QueueRow) → In r qs → q.seq < r.seq) × IsAscending qs next

-- The event of a queue row is in the store and still deferred.
abbrev pub Waits : List EventRow → QueueRow → Type 0
Waits events q =
    (e : EventRow) × (find? (λ (x : EventRow). x.id == q.event_id) events ≡ some e)
    × (is_deferred e.routing_result ≡ true)

pub record QueueInv (db : Db) : Type 0 where
  pub ascending : IsAscending db.routing_queue db.next_seq
  pub distinct : Distinct (λ (q : QueueRow). q.event_id) db.routing_queue
  pub waits : (q : QueueRow) → In q db.routing_queue → Waits db.events q

-- The rows of a query stand for those of the queue.
abbrev pub AreRows : List QueueRow → List DeferredEvent → Type 0
AreRows [] [] = Unit
AreRows [] (d ∷ ds) = ⊥
AreRows (q ∷ qs) [] = ⊥
AreRows (q ∷ qs) (d ∷ ds) =
    (d.seq ≡ q.seq)
    × (d.event.id ≡ q.event_id)
    × (is_deferred d.event.routing_result ≡ true)
    × AreRows qs ds

join-AreRows :
    (events : List EventRow) (qs : List QueueRow)
    → ((q : QueueRow) → In q qs → Waits events q)
    → AreRows qs (join (queued_event events) qs)
unfolding join
join-AreRows events [] w = tt
join-AreRows events (q ∷ qs) w =
    let (e, found, deferred) = w q (inl refl) in
    let rest = join-AreRows events qs (λ r m. w r (inr m)) in
    rw (found, cons_if)
      (
        refl,
        ==→≡ e.id q.event_id (find?-true (λ (x : EventRow). x.id == q.event_id) events found),
        deferred,
        rest,
      )

keep_if-AreRows :
    (qs : List QueueRow) (ds : List DeferredEvent)
    → AreRows qs ds
    → keep_if (λ d. is_deferred d.event.routing_result) ds ≡ ds
keep_if-AreRows [] [] a = refl
keep_if-AreRows [] (d ∷ ds) a = absurd a
keep_if-AreRows (q ∷ qs) [] a = absurd a
keep_if-AreRows (q ∷ qs) (d ∷ ds) (_, _, deferred, a) =
    rw deferred (ap (◌∷◌ d) (keep_if-AreRows qs ds a))

order_by-AreRows :
    (qs : List QueueRow) (ds : List DeferredEvent) (next : ℕ)
    → AreRows qs ds
    → IsAscending qs next
    → order_by seq_key ds ≡ ds
unfolding order_by lex_le
order_by-AreRows [] [] next a s = refl
order_by-AreRows [] (d ∷ ds) next a s = absurd a
order_by-AreRows (q ∷ qs) [] next a s = absurd a
order_by-AreRows (q ∷ []) (d ∷ []) next a s = refl
order_by-AreRows (q ∷ []) (d ∷ e ∷ ds) next a s = absurd a.3
order_by-AreRows (q ∷ r ∷ qs) (d ∷ []) next a s = absurd a.3
order_by-AreRows (q ∷ r ∷ qs) (d ∷ e ∷ ds) next a s =
    rw (order_by-AreRows (r ∷ qs) (e ∷ ds) next a.3 s.2)
      (rw (first_le d.seq e.seq q.seq r.seq a.0 a.3.0 (s.1 r (inl refl))) refl)
  where
    first_le : (a b c d : ℕ) → a ≡ c → b ≡ d → c < d → lex_le (a ∷ []) (b ∷ []) ≡ true
    first_le a b c d p q l = ground arith

-- The query of the queue returns the queue.
pub deferred_rows-AreRows : (db : Db) → QueueInv db → AreRows db.routing_queue (deferred_rows db)
deferred_rows-AreRows db v =
    let a = join-AreRows db.events db.routing_queue v.waits in
    let rows = join (queued_event db.events) db.routing_queue in
    rw
      (
        keep_if-AreRows db.routing_queue rows a,
        order_by-AreRows db.routing_queue rows db.next_seq a v.ascending,
      )
      a

-- The event that is peeked at is the first of those that wait; none is only when none waits.
pub peek_deferred-waiting_events :
    (db : Db)
    → QueueInv db
    → Option.map (λ (d : DeferredEvent). d.event.id) (peek_deferred db) ≡ head? (waiting_events db)
unfolding peek_deferred
peek_deferred-waiting_events db v =
    heads db.routing_queue (deferred_rows db) (deferred_rows-AreRows db v)
  where
    heads :
        (qs : List QueueRow) (ds : List DeferredEvent)
        → AreRows qs ds
        → Option.map (λ (d : DeferredEvent). d.event.id) (head? ds)
          ≡ head? (map (λ (q : QueueRow). q.event_id) qs)
    heads [] [] a = refl
    heads [] (d ∷ ds) a = absurd a
    heads (q ∷ qs) [] a = absurd a
    heads (q ∷ qs) (d ∷ ds) a = ap some a.1
