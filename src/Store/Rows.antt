-- ===== src/Store/Rows.antt =====
-- How the current-attempt join changes under the updates and the insertions of the store.
use mathlib.Core.Option
use hookfly.Base.{
  Bool, true, Option, none, some, List, map, ◌≡◌, refl, inl, inr, arith, find?, join, In,
  Option-cases, find?-map, find?-true, In-find?, In-join, join-map, rows_affected, on,
}
use hookfly.Store.Tables.{
  DeliveryRow, AttemptRow, Db, StoreError, ok, update_one, Row, is_current, pair_row, current_row,
  rows,
}

-- What a row of the join is: a delivery of the table, and the attempt that it names.
pub In-rows :
    (db : Db) (r : Row)
    → In r (rows db)
    → In r.delivery db.deliveries
      × (is_current r.delivery r.attempt ≡ true)
      × In r.attempt db.attempts
In-rows db r h =
    let (d, m, e) = In-join (current_row db.attempts) db.deliveries r h in
    elim (Option-cases (find? (is_current d) db.attempts)) [
      | inl n ↦ absurd (none≢some (rw n at e))
      | inr (a, f) ↦
          rw (← some_inj (rw f at e)) (m, find?-true _ db.attempts f, In-find? _ db.attempts f)
    ]
  where
    none≢some : ◌≡◌ {A = Option Row} none (some r) → ⊥
    none≢some p = cc

    some_inj : {s : Row} → some s ≡ some r → s ≡ r
    some_inj p = cc

-- The keys of the join stay as they are.
pub record KeepsKeys (ua : AttemptRow → AttemptRow) (ud : DeliveryRow → DeliveryRow) : Type 0 where
  pub attempt_id : (a : AttemptRow) → (ua a).id ≡ a.id
  pub attempt_delivery : (a : AttemptRow) → (ua a).delivery_id ≡ a.delivery_id
  pub delivery_id : (d : DeliveryRow) → (ud d).id ≡ d.id
  pub current : (d : DeliveryRow) → (ud d).current_attempt_id ≡ d.current_attempt_id
  pub target : (d : DeliveryRow) → (ud d).target_id ≡ d.target_id
  pub dispatch : (d : DeliveryRow) → (ud d).dispatch_key ≡ d.dispatch_key

abbrev pub change_row : (AttemptRow → AttemptRow) → (DeliveryRow → DeliveryRow) → Row → Row
change_row ua ud r = pair_row (ud r.delivery) (ua r.attempt)

-- Changes that keep the keys change the join row by row.
pub rows-map :
    {ua : AttemptRow → AttemptRow} {ud : DeliveryRow → DeliveryRow}
    → KeepsKeys ua ud
    → (xs : List AttemptRow) (ds : List DeliveryRow)
    → join (current_row (map ua xs)) (map ud ds) ≡ map (change_row ua ud) (join (current_row xs) ds)
rows-map {ua} {ud} k xs ds =
    join-map (current_row xs) (current_row (map ua xs)) ud (change_row ua ud) same ds
  where
    current_same : (d : DeliveryRow) (a : AttemptRow) → is_current (ud d) (ua a) ≡ is_current d a
    current_same d a = rw (k.attempt_id a, k.attempt_delivery a, k.delivery_id d, k.current d)

    mapped :
        (d : DeliveryRow) (o : Option AttemptRow)
        → Option.map (pair_row (ud d)) (Option.map ua o)
          ≡ Option.map (change_row ua ud) (Option.map (pair_row d) o)
    mapped d none = refl
    mapped d (some a) = refl

    same :
        (d : DeliveryRow)
        → current_row (map ua xs) (ud d) ≡ Option.map (change_row ua ud) (current_row xs d)
    same d =
        rw (find?-map (is_current d) (is_current (ud d)) ua (current_same d) xs)
          (mapped d (find? (is_current d) xs))

-- A successful `update_one` met exactly one row, and changed the table by it.
pub update_one-eq-ok :
    {A : Type 0} (e : StoreError) (p : A → Bool) (f : A → A) (xs ys : List A)
    → update_one e p f xs ≡ ok ys
    → (rows_affected p xs ≡ 1) × (ys ≡ map (on p f) xs)
unfolding update_one
update_one-eq-ok e p f xs ys h = ground (arith)
