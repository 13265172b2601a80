-- ===== src/Store/Recovery/Whole.antt =====
-- internal/store/work.go, RecoverInterrupted: the whole loop ends, and leaves no send under way.
use mathlib.Core.Option
use hookfly.Base.{
  Distinct-order_by, Distinct-keep_if, ℕ, String, Bool, true, false, Option, none, some, List, [],
  ◌∷◌, ◌++◌, ◌==◌, ◌≡◌, ◌≢◌, refl, sym, ap, ◌∙◌, subst, In, In-map, In-map_conv, In-keep_if,
  In-keep_if_conv, Distinct, on, map, map-same, join, cons_if, In-join, keep_if, find?, order_by,
  In-order_by, In-order_by_conv, Bool-cases, Option-cases, inl, inr, arith, ==→≡,
}
use hookfly.Domain.{Millis, is_sending}
use hookfly.Store.Tables.{
  pair_row, insert_audit_as, DeliveryRow, AttemptRow, Db, Row, rows, current_row, is_current, ok,
  poll_not_claimed, snapshot, insert_audit,
}
use hookfly.Store.Rows.{In-rows, change_row}
use hookfly.Store.Invariant.{Inv}
use hookfly.Store.Update.{at_delivery, update_attempts_ok, update_deliveries_ok, rows-RowUpdate}
use hookfly.Store.Recovery.{
  PollSchedule, StatusChange, recovered, recover_attempt, recover_row, recover_rows,
  recover_interrupted, is_attempt_of, is_delivery_of, set_delivery, same_statuses, schedule_for,
  is_interrupted, created_key, status_change,
}
use hookfly.Store.Recovery.Interrupted.{moved, stayed, recover_row-Inv}

abbrev row_key : Row → ℕ
row_key r = r.delivery.id

current_row-id :
    (as' : List AttemptRow) (d : DeliveryRow) (r : Row)
    → current_row as' d ≡ some r
    → r.delivery.id ≡ d.id
current_row-id as' d r h = by_attempt (find? (is_current d) as') h
  where
    by_attempt :
        (o : Option AttemptRow) → Option.map (λ a. pair_row d a) o ≡ some r → r.delivery.id ≡ d.id
    by_attempt none k = absurd (ground arith)
    by_attempt (some a) k = ap (λ (x : Row). x.delivery.id) (sym (some_inj k))
      where
        some_inj : {x y : Row} → some x ≡ some y → x ≡ y
        some_inj p = cc

Distinct-rows :
    (as' : List AttemptRow) (ds : List DeliveryRow)
    → Distinct (λ (d : DeliveryRow). d.id) ds
    → Distinct row_key (join (current_row as') ds)
unfolding join cons_if
Distinct-rows as' [] d = tt
Distinct-rows as' (x ∷ xs) d = elim (Option-cases (current_row as' x)) [
  | inl e ↦ rw (e, cons_if) (Distinct-rows as' xs d.1)
  | inr (r, e) ↦
      rw (e, cons_if)
        (
          (λ s m p.
              let (z, k, q) = In-join (current_row as') xs s m in
              d.0 z k (sym (current_row-id as' x r e) ∙ p ∙ current_row-id as' z s q)),
          Distinct-rows as' xs d.1,
        )
]

-- The recovery of a current attempt succeeds, and changes the join at its delivery only.
recover_row-eq-ok :
    (now : Millis) (s : PollSchedule) (r : Row) (db : Db)
    → Inv db
    → In r (rows db)
    → (changes : List StatusChange) × (db' : Db) × (nd : DeliveryRow → DeliveryRow) × (recover_row
          now s r db
        ≡ ok (changes, db'))
      × (rows db'
          ≡ map
              (at_delivery r.delivery.id
                (change_row (recover_attempt now s (recovered r.attempt) r.attempt) nd))
              (rows db))
unfolding recover_row moved stayed insert_audit insert_audit_as
recover_row-eq-ok now s r db v hr =
    elim (Bool-cases (same_statuses (snapshot r.attempt) (recovered r.attempt))) [
      | inl t ↦ (
        [],
        stayed_db,
        λ d. d,
        rw (update_attempts_ok db v r hr (stayed now s r c) poll_not_claimed, t) refl,
        rows-RowUpdate db v r hr (stayed now s r c) stayed_db refl
            (sym (map-same _ db.deliveries (λ d i. unmoved d))),
      )
      | inr t ↦ (
        status_change r (recovered r.attempt) ∷ [],
        moved_db,
        set_delivery (recovered r.attempt) now,
        rw
            (
              update_attempts_ok db v r hr (moved now s r c) poll_not_claimed,
              t,
              update_deliveries_ok db v r hr (moved now s r c) poll_not_claimed,
            )
            refl,
        rows-RowUpdate db v r hr (moved now s r c) moved_db refl refl,
      )
    ]
  where
    c : is_current r.delivery r.attempt ≡ true
    c = (In-rows db r hr).1

    stayed_db : Db
    stayed_db = record db {
      attempts =
          map (on (is_attempt_of r) (recover_attempt now s (recovered r.attempt) r.attempt))
            db.attempts;
    }

    moved_db : Db
    moved_db =
        insert_audit r "transport_recovered" (snapshot r.attempt) (recovered r.attempt) now
          (record stayed_db {
            deliveries =
                map (on (is_delivery_of r) (set_delivery (recovered r.attempt) now)) db.deliveries;
          })

    unmoved : (d : DeliveryRow) → on (is_delivery_of r) (λ (x : DeliveryRow). x) d ≡ d
    unmoved d = elim (Bool-cases (is_delivery_of r d)) [ inl e ↦ rw e | inr e ↦ rw e ]

-- Of an attempt that recovery has read, no send is under way.
recovered_not_sending : (a : AttemptRow) → is_sending (recovered a).transport_status ≡ false
recovered_not_sending a = elim (Bool-cases (is_sending a.transport_status)) [
  | inl e ↦ rw e refl
  | inr e ↦ rw e e
]

-- A row of another delivery is not touched, and a row that sends afterwards is one of those.
module _ (id : ℕ) (g : Row → Row) where
  at_delivery_other : (s : Row) → row_key s ≢ id → at_delivery id g s ≡ s
  at_delivery_other s n = elim (Bool-cases (s.delivery.id == id)) [
    | inl e ↦ absurd (n (==→≡ s.delivery.id id e))
    | inr e ↦ rw e refl
  ]

  at_delivery_sending :
      (s : Row)
      → ((z : Row) → is_sending (g z).attempt.transport_status ≡ false)
      → is_sending (at_delivery id g s).attempt.transport_status ≡ true
      → (at_delivery id g s ≡ s) × (row_key s ≢ id)
  at_delivery_sending s stops h = elim (Bool-cases (s.delivery.id == id)) [
    | inl e ↦ absurd (not_true _ (rw e at h) (stops s))
    | inr e ↦ (rw e refl, λ q. apart s.delivery.id id e q)
  ]
    where
      not_true : (b : Bool) → b ≡ true → b ≡ false → ⊥
      not_true b p q = ground arith

      apart : (x y : ℕ) → (x == y) ≡ false → x ≢ y
      apart x y p q = ground arith

module _ (now : Millis) (default : PollSchedule) (targets : String → Option PollSchedule) where
  -- The loop ends without an error, keeps the invariant, and a row that still sends is none of its rows.
  abbrev Recovered : List Row → Db → List StatusChange × Db → Type 0
  Recovered rs db out =
      Inv out.1
      × ((s : Row)
          → In s (rows out.1)
          → is_sending s.attempt.transport_status ≡ true
          → In s (rows db) × ((r : Row) → In r rs → row_key s ≢ row_key r))

  recover_rows-Recovered :
      (rs : List Row) (db : Db)
      → Inv db
      → Distinct row_key rs
      → ((r : Row) → In r rs → In r (rows db))
      → (out : List StatusChange × Db) × (recover_rows now default targets rs db ≡ ok out)
        × Recovered rs db out
  unfolding recover_rows
  recover_rows-Recovered [] db v d there = (([], db), refl, (v, λ s m h. (m, λ r k. absurd k)))
  recover_rows-Recovered (r ∷ rs) db v d there =
      let (c, db1, nd, e, k) = recover_row-eq-ok now schedule r db v (there r (inl refl)) in
      let v1 = recover_row-Inv now schedule r db db1 c v (there r (inl refl)) e in
      let (out, f, (v2, only)) = recover_rows-Recovered rs db1 v1 d.1 (λ s m. rest db1 nd k s m) in
      (
        (c ++ out.0, out.1),
        rw (e, f) refl,
        (
          v2,
          λ s m h.
              let (i, n) = only s m h in
              let (z, j, q) = In-map _ (rows db) s (subst (λ (xs : List Row). In s xs) k i) in
              let (same, other) =
                at_delivery_sending r.delivery.id (change nd) z
                  (λ y. recovered_not_sending r.attempt)
                  (subst (λ (t : Row). is_sending t.attempt.transport_status ≡ true) q h) in
              let zs = sym (q ∙ same) in
              (
                subst (λ (t : Row). In t (rows db)) zs j,
                λ t p. elim p [
                  | inl w ↦ λ x. other (ap row_key zs ∙ x ∙ ap row_key w)
                  | inr w ↦ n t w
                ],
              ),
        ),
      )
    where
      schedule : PollSchedule
      schedule = schedule_for default targets r.delivery.target_id

      change : (DeliveryRow → DeliveryRow) → Row → Row
      change nd = change_row (recover_attempt now schedule (recovered r.attempt) r.attempt) nd

      rest :
          (db1 : Db) (nd : DeliveryRow → DeliveryRow)
          → rows db1 ≡ map (at_delivery r.delivery.id (change nd)) (rows db)
          → (s : Row) → In s rs
          → In s (rows db1)
      rest db1 nd k s m =
          subst (λ (xs : List Row). In s xs) (sym k)
            (subst (λ (t : Row). In t (map (at_delivery r.delivery.id (change nd)) (rows db)))
              (at_delivery_other r.delivery.id (change nd) s (λ q. d.0 s m (sym q)))
              (In-map_conv (at_delivery r.delivery.id (change nd)) (rows db) s (there s (inr m))))

  -- On a store that satisfies the invariant, the recovery at a restart does not fail: it returns its
  -- changes and a store that satisfies the invariant and in which no current attempt is sending.
  pub recover_interrupted_finishes :
      (db : Db)
      → Inv db
      → (changes : List StatusChange) × (db' : Db) × (recover_interrupted now default targets db
          ≡ ok (changes, db'))
        × Inv db'
        × ((s : Row) → In s (rows db') → is_sending s.attempt.transport_status ≡ false)
  unfolding recover_interrupted
  recover_interrupted_finishes db v =
      let (out, e, (v', only)) =
        recover_rows-Recovered selected db v
          (Distinct-order_by row_key created_key (keep_if is_interrupted (rows db)) (
            Distinct-keep_if row_key is_interrupted (rows db)
              (Distinct-rows db.attempts db.deliveries v.deliveries_distinct)))
          (λ r m. (In-keep_if is_interrupted (rows db) r (In-order_by created_key r _ m)).0) in
      (
        out.0,
        out.1,
        e,
        v',
        λ s m. elim (Bool-cases (is_sending s.attempt.transport_status)) [
          | inr h ↦ h
          | inl h ↦
              let (i, n) = only s m h in
              absurd (
                n s
                  (In-order_by_conv created_key s _
                    (In-keep_if_conv is_interrupted (rows db) s i (interrupted s h)))
                  refl)
        ],
      )
    where
      selected : List Row
      selected = order_by created_key (keep_if is_interrupted (rows db))

      interrupted :
          (s : Row) → is_sending s.attempt.transport_status ≡ true → is_interrupted s ≡ true
      interrupted s h = rw h refl
