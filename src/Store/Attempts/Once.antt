-- ===== src/Store/Attempts/Once.antt =====
-- internal/store/attempts.go: a manual attempt is created once for the attempt that it replaces.
use hookfly.Base.{
  ℕ, Bool, true, false, ◌&&◌, List, on, ◌≡◌, ◌≢◌, refl, sym, ap, ◌∙◌, arith, subst, In, In-map,
  In-map_conv, In-find?, find?-true, ◌==◌, ==→≡, ==_self, is_taken, not_taken-ne, Option-cases,
  Bool-cases, inl, inr, if◌then◌else◌,
}
use hookfly.Domain.{Uuid, Millis}
use hookfly.Store.Tables.{
  DeliveryRow, AttemptRow, Db, Row, StatusSnapshot, Result, ok, err, ◌>>=◌, guard, or_fail,
  update_one, current_attempt_changed, constraint_failed, rows, holds, new_uuid, >>=-eq-ok,
  or_fail-eq-ok, guard-eq-ok, insert_audit_as, snapshot,
}
use hookfly.Store.Rows.{In-rows, update_one-eq-ok}
use hookfly.Store.Invariant.{not_both}
use hookfly.Store.Recovery.{is_attempt_of, is_delivery_of, set_delivery}
use hookfly.Store.Attempts.{
  ManualUpdate, current_row_of, is_expected, correct_attempt, corrected, apply_correction,
  replace_current, create_manual, finish_manual, apply_manual_update,
}

second_eq : {i j : Uuid} {x y : Db} → ◌≡◌ {A = Result (Uuid × Db)} (ok (i, x)) (ok (j, y)) → x ≡ y
second_eq p = cc

-- Some attempt of the table has the identifier.
abbrev HasAttempt : Uuid → Db → Type 0
HasAttempt id db = (a : AttemptRow) × In a db.attempts × (a.id ≡ id)

-- No row of the join at the delivery is that of the attempt.
abbrev IsReplaced : Row → Db → Type 0
IsReplaced r db =
    (s : Row) → In s (rows db) → s.delivery.id ≡ r.delivery.id → s.attempt.id ≢ r.attempt.id

apart : (x y : ℕ) → x ≢ y → (x == y) ≡ false
apart x y m = elim (Bool-cases (x == y)) [ inl e ↦ absurd (m (==→≡ x y e)) | inr e ↦ e ]

both : (x y : Bool) → (x && y) ≡ true → (x ≡ true) × (y ≡ true)
both x y h = (ground arith, ground arith)

-- After the replacement, the delivery of the row no longer names its attempt.
not_held :
    (r : Row) (new : Uuid) (at : Millis) (d : DeliveryRow)
    → new ≢ r.attempt.id
    → (on (is_delivery_of r) (replace_current new at) d).id ≡ r.delivery.id
    → holds (on (is_delivery_of r) (replace_current new at) d).current_attempt_id r.attempt.id
      ≡ false
not_held r new at d n q = elim (Bool-cases (is_delivery_of r d)) [
  | inl e ↦ rw e (apart new r.attempt.id n)
  | inr e ↦ rw e (other (d.id == r.delivery.id) _ e (rw (kept e) (==_self r.delivery.id)))
]
  where
    kept : is_delivery_of r d ≡ false → d.id ≡ r.delivery.id
    kept e = rw e at q

    other : (x y : Bool) → (x && y) ≡ false → x ≡ true → y ≡ false
    other x y h k = ground arith

create_manual-IsReplaced :
    (u : ManualUpdate) (before : StatusSnapshot) (r : Row) (db db' : Db) (id : Uuid)
    → HasAttempt r.attempt.id db
    → create_manual u before r db ≡ ok (id, db')
    → IsReplaced r db'
unfolding create_manual insert_audit_as
create_manual-IsReplaced u before r db db' id (a, ha, same) h =
    elim (Bool-cases (is_taken (λ (x : AttemptRow). x.id) (new_uuid db) db.attempts)) [
      | inl t ↦ absurd (err≢ok (rw t at h))
      | inr t ↦
          let (ds, e, k) =
            >>=-eq-ok
              (update_one current_attempt_changed (is_delivery_of r)
                (replace_current (new_uuid db) u.at) db.deliveries)
              _ (rw t at h) in
          let fresh : new_uuid db ≢ r.attempt.id = λ p.
            not_taken-ne (λ (x : AttemptRow). x.id) (new_uuid db) db.attempts t a ha
              (same ∙ sym p) in
          let changed =
            ap (λ (d : Db). d.deliveries) (sym (second_eq k))
            ∙ (update_one-eq-ok current_attempt_changed _ _ db.deliveries ds e).1 in
          λ s hs q p.
            let (m, c, _) = In-rows db' s hs in
            let (d, _, w) =
              In-map _ db.deliveries s.delivery
                (subst (λ (xs : List DeliveryRow). In s.delivery xs) changed m) in
            not_both _
              (subst (λ (i : ℕ). holds s.delivery.current_attempt_id i ≡ true) p (both _ _ c).0)
              (subst (λ (x : DeliveryRow). holds x.current_attempt_id r.attempt.id ≡ false) (sym w)
                (not_held r (new_uuid db) u.at d fresh
                  (ap (λ (x : DeliveryRow). x.id) (sym w) ∙ q)))
    ]
  where
    err≢ok : {x : Uuid × Db} → ◌≡◌ {A = Result (Uuid × Db)} (err constraint_failed) (ok x) → ⊥
    err≢ok p = cc

-- A correction leaves the attempts their identifiers.
apply_correction-HasAttempt :
    (u : ManualUpdate) (r : Row) (db db' : Db)
    → HasAttempt r.attempt.id db
    → apply_correction u r db ≡ ok db'
    → HasAttempt r.attempt.id db'
unfolding apply_correction insert_audit_as
apply_correction-HasAttempt u r db db' (a, ha, same) h =
    let (as', e, k) =
      >>=-eq-ok
        (update_one current_attempt_changed (is_attempt_of r) (correct_attempt u) db.attempts) _
        h in
    let (ds, f, l) =
      >>=-eq-ok
        (update_one current_attempt_changed (is_delivery_of r) (set_delivery (corrected u) u.at)
          db.deliveries)
        _ k in
    let changed =
      ap (λ (d : Db). d.attempts) (sym (ok_inj l))
      ∙ (update_one-eq-ok current_attempt_changed _ _ db.attempts as' e).1 in
    (
      on (is_attempt_of r) (correct_attempt u) a,
      subst (λ (xs : List AttemptRow). In (on (is_attempt_of r) (correct_attempt u) a) xs)
          (sym changed) (In-map_conv (on (is_attempt_of r) (correct_attempt u)) db.attempts a ha),
      kept ∙ same,
    )
  where
    ok_inj : {x y : Db} → ◌≡◌ {A = Result Db} (ok x) (ok y) → x ≡ y
    ok_inj p = cc

    kept : (on (is_attempt_of r) (correct_attempt u) a).id ≡ a.id
    kept = elim (Bool-cases (is_attempt_of r a)) [ inl e ↦ rw e refl | inr e ↦ rw e refl ]

-- The compare-and-swap refuses, where the join has no row of the delivery with the expected attempt.
apply_manual_update-refuses :
    (next : ManualUpdate) (db : Db)
    → ((s : Row)
        → In s (rows db)
        → s.delivery.id ≡ next.expected.delivery_id
        → s.attempt.id ≢ next.expected.attempt_id)
    → apply_manual_update next db ≡ err current_attempt_changed
unfolding apply_manual_update
apply_manual_update-refuses next db gone =
    elim (Option-cases (current_row_of next.expected.delivery_id db)) [
      | inl n ↦ rw n refl
      | inr (s, f) ↦
          let d =
            ==→≡ _ _
              (find?-true (λ (x : Row). x.delivery.id == next.expected.delivery_id) (rows db) f) in
          rw
            (
              f,
              stale (s.attempt.id == next.expected.attempt_id) _
                  (apart s.attempt.id next.expected.attempt_id (gone s (In-find? _ (rows db) f) d)),
            )
            refl
    ]
  where
    stale : (x y : Bool) → x ≡ false → (x && y) ≡ false
    stale x y h = ground arith

created :
    (u : ManualUpdate) (before : StatusSnapshot) (r : Row) (db db' : Db) (id : Uuid)
    → u.create ≡ true
    → HasAttempt r.attempt.id db
    → finish_manual u before r db ≡ ok (id, db')
    → IsReplaced r db'
created u before r db db' id c has h =
    create_manual-IsReplaced u before r db db' id has
      (chosen u.create (create_manual u before r db) (ok (r.attempt.id, db)) c h)
  where
    chosen :
        (b : Bool) (x y : Result (Uuid × Db)) {z : Result (Uuid × Db)}
        → b ≡ true
        → (if b then x else y) ≡ z
        → x ≡ z
    chosen true x y e k = k
    chosen false x y e k = absurd (not_both _ e refl)

-- A manual update that creates an attempt is accepted once: after it has succeeded, every further
-- update that expects the same attempt of the same delivery is refused.
pub apply_manual_update_once :
    (u next : ManualUpdate) (db db' : Db) (id : Uuid)
    → u.create ≡ true
    → next.expected.delivery_id ≡ u.expected.delivery_id
    → next.expected.attempt_id ≡ u.expected.attempt_id
    → apply_manual_update u db ≡ ok (id, db')
    → apply_manual_update next db' ≡ err current_attempt_changed
unfolding apply_manual_update
apply_manual_update_once u next db db' id c same_delivery same_attempt h =
    let (r, e, h1) =
      >>=-eq-ok (or_fail (current_row_of u.expected.delivery_id db) current_attempt_changed) _ h in
    let f = or_fail-eq-ok (current_row_of u.expected.delivery_id db) current_attempt_changed e in
    let (_, g, h2) =
      >>=-eq-ok (guard (is_expected u.expected r.attempt) current_attempt_changed) _ h1 in
    let hr = In-find? _ (rows db) f in
    let d =
      ==→≡ _ _ (find?-true (λ (x : Row). x.delivery.id == u.expected.delivery_id) (rows db) f) in
    let a = ==→≡ _ _ (both _ _ (guard-eq-ok _ current_attempt_changed g)).0 in
    let replaced = by_correction r (r.attempt, (In-rows db r hr).2, refl) u.correct h2 in
    apply_manual_update-refuses next db'
      (λ s hs p q. replaced s hs (p ∙ same_delivery ∙ sym d) (q ∙ same_attempt ∙ sym a))
  where
    by_correction :
        (r : Row)
        → HasAttempt r.attempt.id db
        → (correct : Bool)
        → (if correct
            then apply_correction u r db >>= (λ x. finish_manual u (corrected u) r x)
            else finish_manual u (snapshot r.attempt) r db)
          ≡ ok (id, db')
        → IsReplaced r db'
    by_correction r has true k =
        let (x, e, l) =
          >>=-eq-ok (apply_correction u r db) (λ x. finish_manual u (corrected u) r x) k in
        created u (corrected u) r x db' id c (apply_correction-HasAttempt u r db x has e) l
    by_correction r has false k = created u (snapshot r.attempt) r db db' id c has k
