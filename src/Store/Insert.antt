-- ===== src/Store/Insert.antt =====
-- The insertions of the store: a delivery with its initial attempt.
use mathlib.Core.Option
use hookfly.Base.{
  ◌⊎◌, cons_if, ℕ, Bool, true, false, ◌&&◌, List, [], ◌∷◌, ◌++◌, ◌≡◌, ◌≢◌, refl, sym, ap, ◌∙◌,
  arith, In, ◌==◌, inl, inr, Option, some, none, join, join-append, join-cong, is_taken,
  not_taken-ne, Distinct-append_one, In-append, find?-append_miss, find?-append_new,
}
use hookfly.Domain.{Uuid}
use hookfly.Store.Tables.{
  DeliveryRow, AttemptRow, Db, Row, rows, is_current, holds, pair_row, current_row, occupies,
}
use hookfly.Store.Invariant.{IsSound, Inv, not_both}

abbrev attempt_taken : Uuid → Db → Bool
attempt_taken id db = is_taken (λ (a : AttemptRow). a.id) id db.attempts

abbrev delivery_taken : Uuid → Db → Bool
delivery_taken id db = is_taken (λ (d : DeliveryRow). d.id) id db.deliveries

-- A new delivery with its new current attempt.
pub record Insertion (db db' : Db) : Type 0 where
  pub delivery : DeliveryRow
  pub attempt : AttemptRow
  pub current : delivery.current_attempt_id ≡ some attempt.id
  pub owner : attempt.delivery_id ≡ delivery.id
  pub delivery_new : delivery_taken delivery.id db ≡ false
  pub attempt_new : attempt_taken attempt.id db ≡ false
  pub sound : IsSound (pair_row delivery attempt)
  pub idle : occupies attempt ≡ false
  pub deliveries : db'.deliveries ≡ db.deliveries ++ delivery ∷ []
  pub attempts : db'.attempts ≡ db.attempts ++ attempt ∷ []

join_one :
    (f : DeliveryRow → Option Row) (d : DeliveryRow) {r : Row}
    → f d ≡ some r
    → join f (d ∷ []) ≡ r ∷ []
unfolding join
join_one f d e = rw (e, cons_if)

module _ (db db' : Db) (n : Insertion db db') where
  not_owner : (d : DeliveryRow) → In d db.deliveries → is_current d n.attempt ≡ false
  not_owner d h = test d.current_attempt_id n.attempt.id n.attempt.delivery_id d.id (λ e.
      not_taken-ne (λ (x : DeliveryRow). x.id) n.delivery.id db.deliveries n.delivery_new d h
        (sym e ∙ n.owner))
    where
      test : (c : Option ℕ) (a o i : ℕ) → (o ≢ i) → (holds c a && o == i) ≡ false
      test none a o i ne = refl
      test (some c) a o i ne = ground arith

  not_old : (a : AttemptRow) → In a db.attempts → is_current n.delivery a ≡ false
  not_old a h = rw n.current (
      test n.attempt.id a.id (a.delivery_id == n.delivery.id) (λ e.
        not_taken-ne (λ (x : AttemptRow). x.id) n.attempt.id db.attempts n.attempt_new a h (sym e)))
    where
      test : (x y : ℕ) (b : Bool) → x ≢ y → (x == y && b) ≡ false
      test x y b ne = ground arith

  is_new : is_current n.delivery n.attempt ≡ true
  is_new = rw (n.current, n.owner) (ground arith)

  -- The join grows by the new row, and the others stay.
  pub rows-Insertion : rows db' ≡ rows db ++ pair_row n.delivery n.attempt ∷ []
  rows-Insertion =
      rw (n.deliveries, n.attempts)
        (join-append (current_row (db.attempts ++ n.attempt ∷ [])) db.deliveries (n.delivery ∷ [])
          ∙ ap
              (λ (l : List Row).
                l ++ join (current_row (db.attempts ++ n.attempt ∷ [])) (n.delivery ∷ []))
              (join-cong (current_row (db.attempts ++ n.attempt ∷ [])) (current_row db.attempts)
                db.deliveries same_old)
          ∙ ap (λ (l : List Row). rows db ++ l) new_found)
    where
      same_old :
          (d : DeliveryRow)
          → In d db.deliveries
          → current_row (db.attempts ++ n.attempt ∷ []) d ≡ current_row db.attempts d
      same_old d h =
          ap (Option.map (pair_row d))
            (find?-append_miss (is_current d) db.attempts n.attempt (not_owner d h))

      new_found :
          join (current_row (db.attempts ++ n.attempt ∷ [])) (n.delivery ∷ [])
          ≡ pair_row n.delivery n.attempt ∷ []
      new_found = join_one (current_row (db.attempts ++ n.attempt ∷ [])) n.delivery (
          ap (Option.map (pair_row n.delivery))
            (find?-append_new (is_current n.delivery) db.attempts n.attempt not_old is_new))

  -- A delivery that waits to be sent may join at any time.
  pub Inv-Insertion : Inv db → Inv db'
  Inv-Insertion v = record {
    deliveries_distinct = rw n.deliveries (
        Distinct-append_one (λ (d : DeliveryRow). d.id) db.deliveries n.delivery
          v.deliveries_distinct n.delivery_new);
    attempts_distinct = rw n.attempts (
        Distinct-append_one (λ (a : AttemptRow). a.id) db.attempts n.attempt v.attempts_distinct
          n.attempt_new);
    mirrored = λ r h. elim (split r h) [ inl m ↦ v.mirrored r m | inr e ↦ rw e n.sound ];
    exclusive = λ r s hr hs ne cf o. elim (split s hs) [
      | inr e ↦ rw e n.idle
      | inl m ↦ elim (split r hr) [
        | inl k ↦ v.exclusive r s k m ne cf o
        | inr e ↦ absurd (not_both _ o (rw e n.idle))
      ]
    ];
  }
    where
      split : (r : Row) → In r (rows db') → In r (rows db) ⊎ (r ≡ pair_row n.delivery n.attempt)
      split r h =
          elim (In-append (rows db) (pair_row n.delivery n.attempt ∷ []) r
            (rw rows-Insertion at h)) [
              | inl m ↦ inl m
              | inr m ↦ elim m [ inl e ↦ inr e | inr k ↦ absurd k ]
            ]
