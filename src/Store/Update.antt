-- ===== src/Store/Update.antt =====
-- The pattern of most transactions of internal/store: one UPDATE of the current attempt and one of
-- its delivery. Under the invariant both meet one row, and the join changes at that delivery only.
use hookfly.Base.{
  ℕ, Bool, true, false, map, ◌≡◌, ◌≢◌, sym, ap, ◌∙◌, arith, In, if◌then◌else◌, ◌==◌, ==→≡,
  Distinct-unique, map-cong, on, Bool-cases, inl, inr, rows_affected, rows_affected-one,
}
use hookfly.Domain.{Uuid}
use hookfly.Store.Tables.{
  DeliveryRow, AttemptRow, Db, Row, StoreError, ok, update_one, is_current, pair_row, rows,
  occupies,
}
use hookfly.Store.Rows.{KeepsKeys, change_row, rows-map, In-rows}
use hookfly.Store.Invariant.{
  IsSound, IsExclusive, Inv, Changes, IsExclusive-changed, Inv-changed, row_unique,
}

-- The change of the join at one delivery.
abbrev pub at_delivery : Uuid → (Row → Row) → Row → Row
at_delivery id g r = if r.delivery.id == id then g r else r

same_attempt :
    (d : DeliveryRow) (a b : AttemptRow)
    → is_current d a ≡ true
    → is_current d b ≡ true
    → (a.id ≡ b.id) × (a.delivery_id ≡ d.id) × (b.delivery_id ≡ d.id)
same_attempt d a b h k = ground arith

ne_of_test : (a b : ℕ) → (a == b) ≡ false → a ≢ b
ne_of_test a b p q = ground arith

-- A delivery of the join has one current attempt.
pub row-eq :
    (db : Db) (v : Inv db) (r s : Row)
    → In r (rows db)
    → In s (rows db)
    → r.delivery.id ≡ s.delivery.id
    → r ≡ s
row-eq db v r s hr hs e =
    let (dr, cr, ar) = In-rows db r hr in
    let (ds, cs, as') = In-rows db s hs in
    let same : r.delivery ≡ s.delivery = row_unique db v r s hr hs e in
    let ids = same_attempt s.delivery r.attempt s.attempt (rw same at cr) cs in
    let attempts : r.attempt ≡ s.attempt =
      Distinct-unique (λ (a : AttemptRow). a.id) db.attempts v.attempts_distinct r.attempt s.attempt
        ar as' ids.0 in
    λ i. record { delivery = same i; attempt = attempts i }

-- An update of the current attempt and its delivery, by predicates that meet no other row.
pub record RowUpdate (r : Row) : Type 0 where
  pub is_attempt : AttemptRow → Bool
  pub is_delivery : DeliveryRow → Bool
  pub new_attempt : AttemptRow → AttemptRow
  pub new_delivery : DeliveryRow → DeliveryRow
  pub meets_attempt : is_attempt r.attempt ≡ true
  pub meets_delivery : is_delivery r.delivery ≡ true
  pub only_attempt : (a : AttemptRow) → is_attempt a ≡ true → a.id ≡ r.attempt.id
  pub only_delivery : (d : DeliveryRow) → is_delivery d ≡ true → d.id ≡ r.delivery.id
  pub keeps : KeepsKeys (on is_attempt new_attempt) (on is_delivery new_delivery)

module _ (db : Db) (v : Inv db) (r : Row) (hr : In r (rows db)) (u : RowUpdate r) where
  pub attempt_met : rows_affected u.is_attempt db.attempts ≡ 1
  attempt_met =
      rows_affected-one (λ (a : AttemptRow). a.id) u.is_attempt db.attempts r.attempt
        v.attempts_distinct (In-rows db r hr).2 u.meets_attempt u.only_attempt

  pub delivery_met : rows_affected u.is_delivery db.deliveries ≡ 1
  delivery_met =
      rows_affected-one (λ (d : DeliveryRow). d.id) u.is_delivery db.deliveries r.delivery
        v.deliveries_distinct (In-rows db r hr).0 u.meets_delivery u.only_delivery

  -- `update_one` succeeds on both tables.
  pub update_attempts_ok :
      (e : StoreError)
      → update_one e u.is_attempt u.new_attempt db.attempts
        ≡ ok (map (on u.is_attempt u.new_attempt) db.attempts)
  unfolding update_one
  update_attempts_ok e = rw attempt_met

  pub update_deliveries_ok :
      (e : StoreError)
      → update_one e u.is_delivery u.new_delivery db.deliveries
        ≡ ok (map (on u.is_delivery u.new_delivery) db.deliveries)
  unfolding update_one
  update_deliveries_ok e = rw delivery_met

  new_row : Row → Row
  new_row = change_row (on u.is_attempt u.new_attempt) (on u.is_delivery u.new_delivery)

  hit :
      (s : Row)
      → In s (rows db)
      → s.delivery.id ≡ r.delivery.id
      → new_row s ≡ pair_row (u.new_delivery s.delivery) (u.new_attempt s.attempt)
  unfolding new_row
  hit s hs e =
      let same = row-eq db v s r hs hr e in
      let a : u.is_attempt s.attempt ≡ true = rw same u.meets_attempt in
      let d : u.is_delivery s.delivery ≡ true = rw same u.meets_delivery in rw (a, d)

  miss : (s : Row) → In s (rows db) → s.delivery.id ≢ r.delivery.id → new_row s ≡ s
  unfolding new_row
  miss s hs ne = elim (Bool-cases (u.is_delivery s.delivery)) [
    | inl d ↦ absurd (ne (u.only_delivery s.delivery d))
    | inr d ↦ elim (Bool-cases (u.is_attempt s.attempt)) [
      | inl a ↦
          let (ds, cs, as') = In-rows db s hs in
          let (dr, cr, ar) = In-rows db r hr in
          let same : s.attempt ≡ r.attempt =
            Distinct-unique (λ (a : AttemptRow). a.id) db.attempts v.attempts_distinct s.attempt
              r.attempt as' ar (u.only_attempt s.attempt a) in
          absurd (
            ne (
              sym (same_attempt s.delivery s.attempt s.attempt cs cs).1
              ∙ ap (λ (a : AttemptRow). a.delivery_id) same
              ∙ (same_attempt r.delivery r.attempt r.attempt cr cr).1))
      | inr a ↦ rw (d, a)
    ]
  ]

  -- The join changes at the delivery of the row, and nowhere else.
  pub rows-RowUpdate :
      (db' : Db)
      → db'.attempts ≡ map (on u.is_attempt u.new_attempt) db.attempts
      → db'.deliveries ≡ map (on u.is_delivery u.new_delivery) db.deliveries
      → rows db'
        ≡ map (at_delivery r.delivery.id (change_row u.new_attempt u.new_delivery)) (rows db)
  unfolding new_row
  rows-RowUpdate db' ea ed =
      rw (ea, ed)
        (rows-map u.keeps db.attempts db.deliveries
          ∙ map-cong new_row (at_delivery r.delivery.id (change_row u.new_attempt u.new_delivery))
              (rows db)
              (λ s hs. elim (Bool-cases (s.delivery.id == r.delivery.id)) [
                | inl e ↦ rw e (hit s hs (==→≡ _ _ e))
                | inr e ↦ rw e (miss s hs (ne_of_test _ _ e))
              ]))

  change_of :
      (db' : Db)
      → db'.attempts ≡ map (on u.is_attempt u.new_attempt) db.attempts
      → db'.deliveries ≡ map (on u.is_delivery u.new_delivery) db.deliveries
      → Changes db db'
  change_of db' ea ed = record {
    attempt_change = on u.is_attempt u.new_attempt;
    delivery_change = on u.is_delivery u.new_delivery;
    keeps = u.keeps;
    attempts = ea;
    deliveries = ed;
  }

  -- What holds of the new row, and of the others as they were, holds of each row.
  by_row :
      (P : Row → Type 0)
      → P (change_row u.new_attempt u.new_delivery r)
      → (s : Row) → In s (rows db)
      → (s.delivery.id ≢ r.delivery.id → P s)
      → P (new_row s)
  by_row P at_r s hs other = elim (Bool-cases (s.delivery.id == r.delivery.id)) [
    | inl e ↦ rw (hit s hs (==→≡ _ _ e), row-eq db v s r hs hr (==→≡ _ _ e)) at_r
    | inr e ↦ let ne = ne_of_test _ _ e in rw (miss s hs ne) (other ne)
  ]

  -- The invariant is kept where the new row repeats its statuses and exclusion is.
  pub Inv-RowUpdate_with :
      (db' : Db)
      → db'.attempts ≡ map (on u.is_attempt u.new_attempt) db.attempts
      → db'.deliveries ≡ map (on u.is_delivery u.new_delivery) db.deliveries
      → IsSound (change_row u.new_attempt u.new_delivery r)
      → IsExclusive (rows db')
      → Inv db'
  unfolding new_row change_of
  Inv-RowUpdate_with db' ea ed m x =
      Inv-changed db db' (change_of db' ea ed) v (λ s hs ms. by_row IsSound m s hs (λ _. ms)) x

  mono_all :
      (occupies (u.new_attempt r.attempt) ≡ true → occupies r.attempt ≡ true)
      → (s : Row) → In s (rows db)
      → occupies (on u.is_attempt u.new_attempt s.attempt) ≡ true
      → occupies s.attempt ≡ true
  unfolding new_row
  mono_all mono s hs = elim (Bool-cases (s.delivery.id == r.delivery.id)) [
    | inl e ↦ rw (row-eq db v s r hs hr (==→≡ _ _ e)) (rw u.meets_attempt mono)
    | inr e ↦ λ o. rw (ap (λ (x : Row). x.attempt) (miss s hs (ne_of_test _ _ e))) at o
  ]

  -- Exclusion is kept by a change that occupies the resource only if it was occupied before.
  pub Inv-RowUpdate :
      (db' : Db)
      → db'.attempts ≡ map (on u.is_attempt u.new_attempt) db.attempts
      → db'.deliveries ≡ map (on u.is_delivery u.new_delivery) db.deliveries
      → IsSound (change_row u.new_attempt u.new_delivery r)
      → (occupies (u.new_attempt r.attempt) ≡ true → occupies r.attempt ≡ true)
      → Inv db'
  unfolding change_of
  Inv-RowUpdate db' ea ed m mono =
      Inv-RowUpdate_with db' ea ed m
        (IsExclusive-changed db db' (change_of db' ea ed) v.exclusive (mono_all mono))
