-- ===== src/Store/Routing/Finalize.antt =====
-- internal/store/routing.go: finalizing the head of the routing queue keeps the invariant.
use mathlib.Core.List.{head?}
use hookfly.Base.{
  String, Bool, true, false, not, ◌&&◌, Option, none, some, ◌==◌, ◌≡◌, refl, sym, Bool-cases, inl,
  inr, ap, subst, ◌⊎◌, &&-split, ==→≡, rows_affected,
}
use hookfly.Domain.{RouteDecision}
use hookfly.Store.Tables.{
  EventRow, Db, Result, ok, err, guard, >>=-eq-ok, invalid_command, update_one, attempt_not_sending,
}
use hookfly.Store.Invariant.{Inv}
use hookfly.Store.Routing.{
  is_deferred, insert_deliveries, validate_deliveries, DeferredEvent, finalize_head, route_head,
  finalize_event, finalize_if_head, finalize_deferred, peek_deferred, dequeue, deferred_rows,
  is_queue_row,
}
use hookfly.Store.Routing.Laws.{same_tables, insert_deliveries-Inv}
use hookfly.Store.Routing.Replay.{ok_inj, two_passed}

finalize_head-Inv :
    (head : DeferredEvent) (decision : RouteDecision) (digest : String) (db db' : Db)
    → Inv db
    → finalize_head head decision digest db ≡ ok db'
    → Inv db'
unfolding finalize_head
finalize_head-Inv head decision digest db db' v h =
    let (events, e, k) =
      >>=-eq-ok
        (update_one attempt_not_sending
          (λ (r : EventRow). r.id == head.event.id && is_deferred r.routing_result)
          (finalize_event decision digest) db.events)
        (λ xs. route_head head decision (record db { events = xs })) h in
    let (x, f, l) =
      >>=-eq-ok
        (insert_deliveries head.event.id head.event.received_at decision.deliveries
          (record db { events = events }))
        (dequeue head) k in
    let w =
      insert_deliveries-Inv head.event.id head.event.received_at decision.deliveries _ x
        (same_tables db (record db { events = events }) refl refl v) f in
    dequeued x db' w l
  where
    dequeued : (x db' : Db) → Inv x → dequeue head x ≡ ok db' → Inv db'
    dequeued x db' w l =
        elim (Bool-cases (rows_affected (is_queue_row head) x.routing_queue == 1)) [
          | inl t ↦
              let same = ok_inj (rw t at l) in
              same_tables x db' (ap (λ (d : Db). d.attempts) (sym same))
                (ap (λ (d : Db). d.deliveries) (sym same)) w
          | inr t ↦ absurd (err_ok (rw t at l))
        ]
      where
        err_ok : {y : Db} → ◌≡◌ {A = Result Db} (err attempt_not_sending) (ok y) → ⊥
        err_ok p = cc

-- The event is the one that the queue accepted first among those that wait.
abbrev pub IsHead : DeferredEvent → Db → Type 0
IsHead d db =
    (head : DeferredEvent) × (peek_deferred db ≡ some head)
    × (head.seq ≡ d.seq)
    × (head.event.id ≡ d.event.id)

-- Finalizing a deferred event keeps the invariant, and it changes the database only if the event is the
-- first of the routing queue: otherwise it returns false with the database as it was.
pub finalize_deferred-Inv :
    (d : DeferredEvent) (decision : RouteDecision) (digest : String) (db db' : Db) (changed : Bool)
    → Inv db
    → finalize_deferred d decision digest db ≡ ok (changed, db')
    → Inv db' × (((changed ≡ true) × IsHead d db) ⊎ ((changed ≡ false) × (db' ≡ db)))
unfolding finalize_deferred peek_deferred
finalize_deferred-Inv d decision digest db db' changed v h =
    by_head (head? (deferred_rows db)) refl (
      two_passed (guard (not (is_deferred decision.routing_result)) invalid_command)
        (validate_deliveries decision.routing_result decision.deliveries)
        (finalize_if_head d decision digest (head? (deferred_rows db)) db) h)
  where
    inj :
        {b : Bool} {x : Db}
        → ◌≡◌ {A = Result (Bool × Db)} (ok (b, x)) (ok (changed, db'))
        → (b ≡ changed) × (x ≡ db')
    inj p = (cc, cc)

    unchanged :
        ◌≡◌ {A = Result (Bool × Db)} (ok (false, db)) (ok (changed, db'))
        → Inv db' × (((changed ≡ true) × IsHead d db) ⊎ ((changed ≡ false) × (db' ≡ db)))
    unchanged p = let (a, b) = inj p in (subst Inv b v, inr (sym a, sym b))

    by_head :
        (o : Option DeferredEvent)
        → head? (deferred_rows db) ≡ o
        → finalize_if_head d decision digest o db ≡ ok (changed, db')
        → Inv db' × (((changed ≡ true) × IsHead d db) ⊎ ((changed ≡ false) × (db' ≡ db)))
    by_head none e k = unchanged k
    by_head (some head) e k = elim (Bool-cases (head.seq == d.seq && head.event.id == d.event.id)) [
      | inr t ↦ unchanged (rw t at k)
      | inl t ↦
          let (x, f, l) = >>=-eq-ok (finalize_head head decision digest db) _ (rw t at k) in
          let (a, b) = inj l in
          let (s, i) = &&-split _ _ t in
          (
            subst Inv b (finalize_head-Inv head decision digest db x v f),
            inl (sym a, (head, e, ==→≡ _ _ s, ==→≡ _ _ i)),
          )
    ]
