-- ===== src/Store/Invariant.antt =====
-- What holds of the database between two transactions, and the changes of status that keep it.
use hookfly.Base.{
  Bool, true, false, List, map, ◌≡◌, ◌≢◌, refl, sym, ◌∙◌, In, Distinct, Distinct-unique,
  Distinct-map, In-map, str_eq_sym, String, Option, some, none, Bool-cases, inl, inr, str_eq,
}
use hookfly.Domain.{is_pending}
use hookfly.Store.Tables.{DeliveryRow, AttemptRow, Db, Row, rows, occupies}
use hookfly.Store.Work.{conflicts, key_conflict}
use hookfly.Store.Rows.{KeepsKeys, change_row, rows-map, In-rows}

-- The delivery repeats the statuses of its current attempt, and an attempt that waits to be sent has
-- recorded nothing of a send.
pub record IsSound (r : Row) : Type 0 where
  pub transport : r.delivery.transport_status ≡ r.attempt.transport_status
  pub deployment : r.delivery.deployment_status ≡ r.attempt.deployment_status
  pub fresh :
      is_pending r.attempt.transport_status ≡ true
      → (r.attempt.request_json ≡ none)
        × (r.attempt.request_at ≡ none)
        × (r.attempt.deployment_cursor ≡ none)

-- Two deliveries for one remote resource are never both unbound and under way.
abbrev pub IsExclusive : List Row → Type 0
IsExclusive all =
    (r s : Row)
    → In r all
    → In s all
    → r.delivery.id ≢ s.delivery.id
    → conflicts r.delivery s.delivery ≡ true
    → occupies r.attempt ≡ true
    → occupies s.attempt ≡ false

pub record Inv (db : Db) : Type 0 where
  pub deliveries_distinct : Distinct (λ (d : DeliveryRow). d.id) db.deliveries
  pub attempts_distinct : Distinct (λ (a : AttemptRow). a.id) db.attempts
  pub mirrored : (r : Row) → In r (rows db) → IsSound r
  pub exclusive : IsExclusive (rows db)

key_conflict_sym :
    (k l : Option String) (s t : String)
    → key_conflict k l (str_eq s t) ≡ key_conflict l k (str_eq t s)
key_conflict_sym none none s t = str_eq_sym s t
key_conflict_sym none (some l) s t = str_eq_sym s t
key_conflict_sym (some k) none s t = str_eq_sym s t
key_conflict_sym (some k) (some l) s t = str_eq_sym k l

pub not_both : (b : Bool) → b ≡ true → b ≡ false → ⊥
not_both b p q = cc

pub conflicts_sym : (d e : DeliveryRow) → conflicts d e ≡ conflicts e d
conflicts_sym d e = key_conflict_sym d.dispatch_key e.dispatch_key d.target_id e.target_id

-- The rows of one delivery are one row.
pub row_unique :
    (db : Db)
    → Inv db
    → (r s : Row) → In r (rows db)
    → In s (rows db)
    → r.delivery.id ≡ s.delivery.id
    → r.delivery ≡ s.delivery
row_unique db v r s h k e =
    Distinct-unique (λ (d : DeliveryRow). d.id) db.deliveries v.deliveries_distinct r.delivery
      s.delivery (In-rows db r h).0 (In-rows db s k).0 e

-- A transaction that changes rows in place, with their keys kept.
pub record Changes (db db' : Db) : Type 0 where
  pub attempt_change : AttemptRow → AttemptRow
  pub delivery_change : DeliveryRow → DeliveryRow
  pub keeps : KeepsKeys attempt_change delivery_change
  pub attempts : db'.attempts ≡ map attempt_change db.attempts
  pub deliveries : db'.deliveries ≡ map delivery_change db.deliveries

module _ (db db' : Db) (c : Changes db db') where
  abbrev pub changed : Row → Row
  changed = change_row c.attempt_change c.delivery_change

  pub rows-Changes : rows db' ≡ map changed (rows db)
  rows-Changes = rw (c.attempts, c.deliveries) (rows-map c.keeps db.attempts db.deliveries)

  conflicts-changed :
      (d e : DeliveryRow) → conflicts (c.delivery_change d) (c.delivery_change e) ≡ conflicts d e
  conflicts-changed d e =
      rw (c.keeps.target d, c.keeps.target e, c.keeps.dispatch d, c.keeps.dispatch e) refl

  -- Where no change makes an attempt occupy its resource, exclusion is kept.
  pub IsExclusive-changed :
      IsExclusive (rows db)
      → ((r : Row)
          → In r (rows db)
          → occupies (c.attempt_change r.attempt) ≡ true
          → occupies r.attempt ≡ true)
      → IsExclusive (rows db')
  IsExclusive-changed x mono r s h k ne cf o =
      let (r', hr, er) = In-map changed (rows db) r (rw rows-Changes at h) in
      let (s', hs, es) = In-map changed (rows db) s (rw rows-Changes at k) in
      still r' s' hr hs (rw (er, es) at ne) (rw (er, es) at cf) (rw er at o) es
    where
      still :
          (r' s' : Row)
          → In r' (rows db)
          → In s' (rows db)
          → (changed r').delivery.id ≢ (changed s').delivery.id
          → conflicts (changed r').delivery (changed s').delivery ≡ true
          → occupies (changed r').attempt ≡ true
          → s ≡ changed s'
          → occupies s.attempt ≡ false
      still r' s' hr hs n f t e =
          let before : occupies s'.attempt ≡ false =
            x r' s' hr hs
              (λ q. n (c.keeps.delivery_id r'.delivery ∙ q ∙ sym (c.keeps.delivery_id s'.delivery)))
              (sym (conflicts-changed r'.delivery s'.delivery) ∙ f) (mono r' hr t) in
          rw e (elim (Bool-cases (occupies (changed s').attempt)) [
            | inl q ↦ absurd (not_both _ (mono s' hs q) before)
            | inr q ↦ q
          ])

  pub Inv-changed :
      Inv db
      → ((r : Row) → In r (rows db) → IsSound r → IsSound (changed r))
      → IsExclusive (rows db')
      → Inv db'
  Inv-changed v mirror x = record {
    deliveries_distinct = rw c.deliveries (
        Distinct-map (λ (d : DeliveryRow). d.id) c.delivery_change c.keeps.delivery_id db.deliveries
          v.deliveries_distinct);
    attempts_distinct = rw c.attempts (
        Distinct-map (λ (a : AttemptRow). a.id) c.attempt_change c.keeps.attempt_id db.attempts
          v.attempts_distinct);
    mirrored = λ r h.
        let (r', hr, er) = In-map changed (rows db) r (rw rows-Changes at h) in
        rw er (mirror r' hr (v.mirrored r' hr));
    exclusive = x;
  }
