-- ===== src/Worker/Drainer/Progress.antt =====
-- internal/worker/drainer.go: the rounds of the drainer empty the routing queue.
use mathlib.Core.Option
use mathlib.Core.List.{head?}
use hookfly.Base.{
  ℕ, suc, Bool, true, false, Option, none, some, List, [], ◌∷◌, ◌≡◌, refl, sym, ap, subst, ◌∙◌,
  length, map, inl, inr, ◌⊎◌, arith,
}
use hookfly.Domain.{Uuid, CanonicalEvent, RouteDecision}
use hookfly.Store.Tables.{QueueRow, Db, StoreError, Result, ok, err}
use hookfly.Store.Routing.{DeferredEvent, finalize_deferred, peek_deferred, count_queued}
use hookfly.Store.Routing.Queue.{waiting_events, QueueInv, peek_deferred-waiting_events}
use hookfly.Store.Routing.Departures.{finalize_deferred-waiting_events}
use hookfly.Runtime.Manager.{State, Manager, is_draining, set_idle_if_queue_empty}
use hookfly.Worker.Drainer.{
  unless_failed, Generation, route, store_failed, Drained, finalized, run_once, rounds,
}

-- The store failed, or every deferred event is routed and the manager is back to idle.
abbrev pub IsDrained : Drained → Type 0
IsDrained r =
    ((e : StoreError) × (r.error ≡ some (store_failed e)))
    ⊎ ((r.error ≡ none) × (r.manager.state ≡ State.idle) × (waiting_events r.db ≡ []))

peek_none : (db : Db) → QueueInv db → waiting_events db ≡ [] → peek_deferred db ≡ none
peek_none db v w = empty (peek_deferred db) (peek_deferred-waiting_events db v ∙ ap head? w)
  where
    empty :
        (o : Option DeferredEvent)
        → Option.map (λ (d : DeferredEvent). d.event.id) o ≡ none
        → o ≡ none
    empty none h = refl
    empty (some d) h = absurd (ground arith)

peek_some :
    (db : Db) (id : Uuid) (ids : List Uuid)
    → QueueInv db
    → waiting_events db ≡ id ∷ ids
    → (d : DeferredEvent) × (peek_deferred db ≡ some d)
peek_some db id ids v w = full (peek_deferred db) (peek_deferred-waiting_events db v ∙ ap head? w)
  where
    full :
        (o : Option DeferredEvent)
        → Option.map (λ (d : DeferredEvent). d.event.id) o ≡ some id
        → (d : DeferredEvent) × (o ≡ some d)
    full none h = absurd (ground arith)
    full (some d) h = (d, refl)

none_queued : (db : Db) → waiting_events db ≡ [] → count_queued db ≡ 0
unfolding count_queued
none_queued db w = no_rows db.routing_queue w
  where
    no_rows : (qs : List QueueRow) → map (λ (q : QueueRow). q.event_id) qs ≡ [] → length qs ≡ 0
    no_rows [] h = refl
    no_rows (q ∷ qs) h = absurd (ground arith)

rounds_first :
    (n : ℕ) (m : Manager Generation) (db : Db) {r : Drained}
    → run_once m db ≡ r
    → unless_failed r.error r (rounds n r.manager r.db) ≡ rounds (suc n) m db
unfolding rounds
rounds_first n m db e =
    ap (λ (r : Drained). unless_failed r.error r (rounds n r.manager r.db)) (sym e)

tail_eq : {x y : Uuid} {xs ys : List Uuid} → x ∷ xs ≡ y ∷ ys → xs ≡ ys
tail_eq q = cc

-- A round while no event waits.
last_round :
    (m : Manager Generation) (db : Db)
    → is_draining m.state ≡ true
    → QueueInv db
    → waiting_events db ≡ []
    → run_once m db ≡ record {
      processed = false;
      error = none;
      manager = record m { state = State.idle; recovery = false };
      db = db;
    }
unfolding run_once set_idle_if_queue_empty
last_round m db draining v w =
    rw (draining, run_once, peek_none db v w, none_queued db w, draining, set_idle_if_queue_empty)
      refl

-- A round on the event that was peeked at and routed.
routing_round :
    (m : Manager Generation) (db : Db) (d : DeferredEvent) (decision : RouteDecision)
    → is_draining m.state ≡ true
    → peek_deferred db ≡ some d
    → route m.current d.event.canonical ≡ some decision
    → run_once m db ≡ finalized m db (finalize_deferred d decision m.current.digest db)
unfolding run_once
routing_round m db d decision draining p r = rw (draining, run_once, p, r) refl

module _ (m : Manager Generation) (draining : is_draining m.state ≡ true)
    (routed : (e : CanonicalEvent) → (d : RouteDecision) × (route m.current e ≡ some d)) where
  drained :
      (ids : List Uuid) (db : Db)
      → QueueInv db
      → waiting_events db ≡ ids
      → IsDrained (rounds (suc (length ids)) m db)
  unfolding rounds
  drained [] db v w =
      subst IsDrained (rounds_first 0 m db (last_round m db draining v w)) (inr (refl, refl, w))
  drained (id ∷ ids) db v w =
      let (d, p) = peek_some db id ids v w in
      let (decision, r) = routed d.event.canonical in
      step d decision p (routing_round m db d decision draining p r)
        (finalize_deferred d decision m.current.digest db) refl (drained ids)
    where
      step :
          (d : DeferredEvent) (decision : RouteDecision)
          → peek_deferred db ≡ some d
          → run_once m db ≡ finalized m db (finalize_deferred d decision m.current.digest db)
          → (end : Result (Bool × Db)) → finalize_deferred d decision m.current.digest db ≡ end
          → ((x : Db)
              → QueueInv x
              → waiting_events x ≡ ids
              → IsDrained (rounds (suc (length ids)) m x))
          → IsDrained (rounds (suc (suc (length ids))) m db)
      step d decision p r (err e) f more =
          subst IsDrained (rounds_first (suc (length ids)) m db (r ∙ ap (finalized m db) f))
            (inl (e, refl))
      step d decision p r (ok (changed, db')) f more =
          let (_, popped, v') =
            finalize_deferred-waiting_events db d decision m.current.digest db' changed v p f in
          subst IsDrained (rounds_first (suc (length ids)) m db (r ∙ ap (finalized m db) f))
            (more db' v' (tail_eq (sym popped ∙ w)))

  -- A draining manager whose generation routes every event: as many rounds as deferred events, and one
  -- more, end with an error of the store or leave the manager idle and no deferred event.
  pub rounds-IsDrained : (db : Db) → QueueInv db → IsDrained (rounds (suc (count_queued db)) m db)
  unfolding count_queued
  rounds-IsDrained db v =
      rw (sym (queued_length db.routing_queue)) (drained (waiting_events db) db v refl)
    where
      queued_length :
          (qs : List QueueRow) → length (map (λ (q : QueueRow). q.event_id) qs) ≡ length qs
      queued_length [] = refl
      queued_length (q ∷ qs) = ap suc (queued_length qs)
