-- ===== src/Store/Retention/Kept.antt =====
-- internal/store/retention.go: what pruning leaves in the store.
use mathlib.Core.Option
use hookfly.Base.{
  In-drop, In-reverse, In-any, find?-keep_if, ℕ, suc, Bool, true, false, not, ◌&&◌, Option, none,
  some, List, [], ◌∷◌, ◌++◌, ◌==◌, ◌≡◌, ◌≢◌, refl, sym, ap, ◌∙◌, In, In-map, In-keep_if,
  In-keep_if_conv, In-join, In-join_conv, Distinct, Distinct-keep_if, Distinct-unique, any, any-In,
  find?, find?-true, In-order_by, Bool-cases, Option-cases, inl, inr, ◌⊎◌, arith, if◌then◌else◌,
  ==→≡, rows_affected,
}
use hookfly.Domain.{Uuid}
use hookfly.Store.Tables.{
  EventRow, DeliveryRow, AttemptRow, Db, Row, rows, is_current, pair_row, current_row,
}
use hookfly.Store.Rows.{In-rows}
use hookfly.Store.Recovery.{is_active_row}
use hookfly.Store.Routing.{is_deferred}
use hookfly.Store.Retention.{
  RepositoryKey, PruneResult, age_key, delete_event, delete_retention_events, distinct_groups,
  event_id_of, is_terminal, is_delivery_of_event, limit_for, prune, prune_group, prune_groups,
  terminal_event_ids_after, terminal_events,
}

apart : (x y : ℕ) → x ≢ y → not (x == y) ≡ true
apart x y n = elim (Bool-cases (x == y)) [ inl e ↦ absurd (n (==→≡ x y e)) | inr e ↦ rw e refl ]

-- The primary keys of the events and of the deliveries are distinct.
abbrev pub IsKeyed : Db → Type 0
IsKeyed db =
    Distinct (λ (e : EventRow). e.id) db.events × Distinct (λ (d : DeliveryRow). d.id) db.deliveries

-- The event is still there, with each of its current attempts.
abbrev pub IsKept : EventRow → Db → Db → Type 0
IsKept e db db' =
    In e db'.events × ((r : Row) → In r (rows db) → r.delivery.event_id ≡ e.id → In r (rows db'))

abbrev is_active_of : EventRow → Row → Bool
is_active_of e r = r.delivery.event_id == e.id && is_active_row r

abbrev Unfinished : Db → EventRow → Type 0
Unfinished db e =
    (is_deferred e.routing_result ≡ true)
    ⊎ ((r : Row) × In r (rows db) × (r.delivery.event_id ≡ e.id) × (is_active_row r ≡ true))

IsKept-trans : (e : EventRow) (a b c : Db) → IsKept e a b → IsKept e b c → IsKept e a c
IsKept-trans e a b c h k = (k.0, λ r m q. k.1 r (h.1 r m q) q)

IsKept-refl : (e : EventRow) (db : Db) → In e db.events → IsKept e db db
IsKept-refl e db h = (h, λ r m q. m)

-- Deleting an event leaves the rows of another one.
delete_event-rows :
    (id : Uuid) (db : Db) (r : Row)
    → IsKeyed db
    → In r (rows db)
    → r.delivery.event_id ≢ id
    → In r (rows (delete_event id db))
unfolding delete_event
delete_event-rows id db r keyed h n =
    let (d, m, e) = In-join (current_row db.attempts) db.deliveries r h in
    let (md, cur, ma) = In-rows db r h in
    elim (Option-cases (find? (is_current d) db.attempts)) [
      | inl f ↦ absurd (none≢some (rw f at e))
      | inr (a, f) ↦
          let same : pair_row d a ≡ r = some_inj (rw f at e) in
          let other : d.event_id ≢ id =
            λ q. n (sym (ap (λ (x : Row). x.delivery.event_id) same) ∙ q) in
          In-join_conv (current_row _) _ d r
            (In-keep_if_conv _ db.deliveries d m (apart d.event_id id other))
            (ap (Option.map (pair_row d))
                (find?-keep_if _ _ db.attempts a f (stays d a m (find?-true _ db.attempts f) other))
              ∙ ap some same)
    ]
  where
    none≢some : ◌≡◌ {A = Option Row} none (some r) → ⊥
    none≢some p = cc

    some_inj : {s : Row} → some s ≡ some r → s ≡ r
    some_inj p = cc

    taken : AttemptRow → DeliveryRow → Bool
    taken a x = is_delivery_of_event id x && x.id == a.delivery_id

    stays :
        (d : DeliveryRow) (a : AttemptRow)
        → In d db.deliveries
        → is_current d a ≡ true
        → d.event_id ≢ id
        → not (any (taken a) db.deliveries) ≡ true
    stays d a m c other = elim (Bool-cases (any (taken a) db.deliveries)) [
      | inr t ↦ rw t refl
      | inl t ↦
          let (x, k, q) = In-any (taken a) db.deliveries t in
          absurd (
            other (
              ap (λ (y : DeliveryRow). y.event_id)
                (Distinct-unique (λ (y : DeliveryRow). y.id) db.deliveries keyed.1 d x m k
                  (sym (==→≡ a.delivery_id d.id (second _ _ c))
                    ∙ sym (==→≡ x.id a.delivery_id (second _ _ q))))
              ∙ ==→≡ x.event_id id (first _ _ q)))
    ]
      where
        first : (x y : Bool) → (x && y) ≡ true → x ≡ true
        first x y h = ground arith

        second : (x y : Bool) → (x && y) ≡ true → y ≡ true
        second x y h = ground arith

delete_event-IsKeyed : (id : Uuid) (db : Db) → IsKeyed db → IsKeyed (delete_event id db)
unfolding delete_event
delete_event-IsKeyed id db k = (
  Distinct-keep_if (λ (e : EventRow). e.id) _ db.events k.0,
  Distinct-keep_if (λ (d : DeliveryRow). d.id) _ db.deliveries k.1,
)

delete_event-IsKept :
    (id : Uuid) (db : Db) (e : EventRow)
    → IsKeyed db
    → In e db.events
    → e.id ≢ id
    → IsKept e db (delete_event id db)
unfolding delete_event
delete_event-IsKept id db e k h n = (
  In-keep_if_conv _ db.events e h (apart e.id id n),
  λ r m q. delete_event-rows id db r k m (λ p. n (sym q ∙ p)),
)

-- An event that waits to be routed, or of which a current attempt is active.
unfinished : (db : Db) (e : EventRow) → is_terminal db e ≡ false → Unfinished db e
unfinished db e h = elim (Bool-cases (is_deferred e.routing_result)) [
  | inl d ↦ inl d
  | inr d ↦
      let (r, m, t) = In-any (is_active_of e) (rows db) (active _ (rw d at h)) in
      inr (r, m, ==→≡ r.delivery.event_id e.id (first _ _ t), second _ _ t)
]
  where
    active : (b : Bool) → not b ≡ false → b ≡ true
    active b h = ground arith

    first : (x y : Bool) → (x && y) ≡ true → x ≡ true
    first x y h = ground arith

    second : (x y : Bool) → (x && y) ≡ true → y ≡ true
    second x y h = ground arith

Unfinished-not_terminal : (db : Db) (e : EventRow) → Unfinished db e → is_terminal db e ≡ false
Unfinished-not_terminal db e (inl d) = rw d refl
Unfinished-not_terminal db e (inr (r, m, q, t)) =
    rw (any-In (is_active_of e) (rows db) r m (rw (q, t) (self e.id)))
      (last (is_deferred e.routing_result))
  where
    self : (n : ℕ) → (n == n) && true ≡ true
    self n = ground arith

    last : (b : Bool) → (not b && false) ≡ false
    last b = ground arith

Unfinished-IsKept :
    (db db' : Db) (e : EventRow) → IsKept e db db' → Unfinished db e → Unfinished db' e
Unfinished-IsKept db db' e k (inl d) = inl d
Unfinished-IsKept db db' e k (inr (r, m, q, t)) = inr (r, k.1 r m q, q, t)

-- What one group selects for deletion are other events.
terminal_event_ids_after_apart :
    (g : Option RepositoryKey) (limit : ℕ) (db : Db) (e : EventRow)
    → IsKeyed db
    → In e db.events
    → Unfinished db e
    → (id : Uuid) → In id (terminal_event_ids_after g limit db)
    → e.id ≢ id
unfolding terminal_event_ids_after terminal_events
terminal_event_ids_after_apart g limit db e k h u id m p =
    let (x, i, q) = In-map event_id_of _ id m in
    let (there, chosen) =
      In-keep_if _ db.events x (In-order_by age_key x _ (In-reverse _ x (In-drop limit _ x i))) in
    let same = Distinct-unique (λ (y : EventRow). y.id) db.events k.0 x e there h (sym q ∙ sym p) in
    not_both _ _ chosen (ap (is_terminal db) same ∙ Unfinished-not_terminal db e u)
  where
    not_both : (a b : Bool) → (a && b) ≡ true → b ≡ false → ⊥
    not_both a b p q = ground arith

-- A step of pruning that keeps the keys, and every unfinished event.
abbrev Keeps : EventRow → Db → Db → Type 0
Keeps e db db' = IsKeyed db' × IsKept e db db'

delete_retention_events-Keeps :
    (ids : List Uuid) (result : PruneResult) (db : Db) (e : EventRow)
    → IsKeyed db
    → In e db.events
    → ((id : Uuid) → In id ids → e.id ≢ id)
    → Keeps e db (delete_retention_events ids result db).1
unfolding delete_retention_events
delete_retention_events-Keeps [] result db e k h n = (k, IsKept-refl e db h)
delete_retention_events-Keeps (id ∷ ids) result db e k h n =
    let one = delete_event-IsKept id db e k h (n id (inl refl)) in
    let counted : PruneResult =
      if rows_affected (λ (x : EventRow). x.id == id) db.events == 1
      then record { deleted = suc result.deleted; event_ids = result.event_ids ++ id ∷ [] }
      else result in
    let (k', rest) =
      delete_retention_events-Keeps ids counted (delete_event id db) e
        (delete_event-IsKeyed id db k) one.0 (λ i m. n i (inr m)) in
    (
      k',
      IsKept-trans e db (delete_event id db)
          (delete_retention_events ids counted (delete_event id db)).1 one rest,
    )

prune_group-Keeps :
    (g : Option RepositoryKey) (limit : ℕ) (result : PruneResult) (db : Db) (e : EventRow)
    → IsKeyed db
    → In e db.events
    → Unfinished db e
    → Keeps e db (prune_group g limit result db).1
unfolding prune_group
prune_group-Keeps g limit result db e k h u = elim (Bool-cases (limit == 0)) [
  | inl z ↦ rw z (k, IsKept-refl e db h)
  | inr z ↦ rw z (
      delete_retention_events-Keeps (terminal_event_ids_after g limit db) result db e k h
        (terminal_event_ids_after_apart g limit db e k h u))
]

module _ (sort_groups : List RepositoryKey → List RepositoryKey) (limits : RepositoryKey → Option ℕ)
    (default global : ℕ) where
  prune_groups-Keeps :
      (gs : List RepositoryKey) (result : PruneResult) (db : Db) (e : EventRow)
      → IsKeyed db
      → In e db.events
      → Unfinished db e
      → Keeps e db (prune_groups sort_groups limits default global gs result db).1
  unfolding prune_groups
  prune_groups-Keeps [] result db e k h u = (k, IsKept-refl e db h)
  prune_groups-Keeps (g ∷ gs) result db e k h u =
      let limit = limit_for limits default g in
      let (k', one) = prune_group-Keeps (some g) limit result db e k h u in
      let db' = (prune_group (some g) limit result db).1 in
      let (k'', rest) =
        prune_groups-Keeps gs (prune_group (some g) limit result db).0 db' e k' one.0
          (Unfinished-IsKept db db' e one u) in
      (
        k'',
        IsKept-trans e db db'
            (prune_groups sort_groups limits default global gs
              (prune_group (some g) limit result db).0 db').1
            one rest,
      )

  -- In a store whose events and deliveries have distinct ids, pruning keeps every event that is
  -- deferred or has an active current attempt, with each row of the join of its deliveries and
  -- their current attempts, whatever the limits.
  pub prune_keeps_unfinished :
      (db : Db) (e : EventRow)
      → IsKeyed db
      → In e db.events
      → is_terminal db e ≡ false
      → IsKept e db (prune sort_groups limits default global db).1
  unfolding prune
  prune_keeps_unfinished db e k h t =
      let start : PruneResult = record { deleted = 0; event_ids = [] } in
      let u = unfinished db e t in
      let gs = sort_groups (distinct_groups db.events) in
      let (k', one) = prune_groups-Keeps gs start db e k h u in
      let out = prune_groups sort_groups limits default global gs start db in
      let (k'', last) =
        prune_group-Keeps none global out.0 out.1 e k' one.0 (Unfinished-IsKept db out.1 e one u) in
      IsKept-trans e db out.1 (prune_group none global out.0 out.1).1 one last
