-- ===== src/Store/Poll/Laws.antt =====
-- Poll claims and completed polls keep the invariant.
use hookfly.Base.{
  ℕ, Bool, true, false, not, ◌&&◌, ◌||◌, List, [], ◌∷◌, map, ◌≡◌, refl, sym, ap, ◌∙◌, arith, In, on,
  find?, Bool-cases, inl, inr, map-same, ◌==◌, find?-true, In-find?,
}
use hookfly.Domain.{Millis, is_pending, same_transport→≡, same_deployment→≡}
use hookfly.Store.Tables.{
  DeliveryRow, AttemptRow, Db, Row, rows, is_current, occupies, Result, ok, poll_not_claimed,
  insert_audit, or_fail-eq-ok, >>=-eq-ok,
}
use hookfly.Store.Rows.{KeepsKeys, In-rows, update_one-eq-ok, change_row}
use hookfly.Store.Invariant.{IsSound, Inv}
use hookfly.Store.Update.{RowUpdate, Inv-RowUpdate}
use hookfly.Store.Touch.{IsTouch, Inv-touch}
use hookfly.Store.Poll.{
  PollWork, PollUpdate, is_poll_target, set_polled, claim_polls, list_due_polls, is_claimed_by,
  complete_attempt, is_polled_delivery, complete_delivery, is_transition, complete_delivery_of,
  complete_poll,
}

set_polled-IsTouch : (now : Millis) (p : AttemptRow → Bool) → IsTouch (on p (set_polled now))
set_polled-IsTouch now p = record {
  id = λ a. split (λ b. b.id ≡ a.id) a refl refl;
  delivery_id = λ a. split (λ b. b.delivery_id ≡ a.delivery_id) a refl refl;
  transport = λ a. split (λ b. b.transport_status ≡ a.transport_status) a refl refl;
  deployment = λ a. split (λ b. b.deployment_status ≡ a.deployment_status) a refl refl;
  bound = λ a. split (λ b. b.deployment_id ≡ a.deployment_id) a refl refl;
  evidence = λ a _. elim (Bool-cases (p a)) [
    | inl e ↦ rw e (refl, refl, refl)
    | inr e ↦ rw e (refl, refl, refl)
  ];
}
  where
    split :
        (P : AttemptRow → Type 0) (a : AttemptRow)
        → P (set_polled now a)
        → P a
        → P (on p (set_polled now) a)
    split P a x y = elim (Bool-cases (p a)) [ inl e ↦ rw e x | inr e ↦ rw e y ]

claim_polls-Inv :
    (now : Millis) (ws : List PollWork) (db : Db) → Inv db → Inv (claim_polls now ws db).1
unfolding claim_polls
claim_polls-Inv now [] db v = v
claim_polls-Inv now (w ∷ ws) db v =
    claim_polls-Inv now ws _
      (Inv-touch db _ _ (set_polled-IsTouch now (is_poll_target now db w)) refl refl v)

-- Claiming the due polls keeps the invariant of the store.
pub list_due_polls-Inv : (now : Millis) (db : Db) → Inv db → Inv (list_due_polls now db).1
unfolding list_due_polls
list_due_polls-Inv now db v = claim_polls-Inv now _ db v

-- What an update may do to the attempt that it completes: it does not put it back to waiting, and it
-- lets it occupy its resource only if it did so before.
pub record IsAdvance (u : PollUpdate) (a : AttemptRow) : Type 0 where
  pub sent : is_pending u.transport_status ≡ true → is_pending a.transport_status ≡ true
  pub occupied : occupies (complete_attempt u a) ≡ true → occupies a ≡ true

abbrev pub Claims : PollWork → Db → Row → Type 0
Claims w db r = In r (rows db) × (is_claimed_by w r.attempt ≡ true)

poll_update_of :
    (w : PollWork) (u : PollUpdate) (g : DeliveryRow → DeliveryRow) (r : Row)
    → is_current r.delivery r.attempt ≡ true
    → is_claimed_by w r.attempt ≡ true
    → KeepsKeys (on (is_claimed_by w) (complete_attempt u)) (on (is_polled_delivery r) g)
    → RowUpdate r
poll_update_of w u g r c t k = record {
  is_attempt = is_claimed_by w;
  is_delivery = is_polled_delivery r;
  new_attempt = complete_attempt u;
  new_delivery = g;
  meets_attempt = t;
  meets_delivery = ground arith;
  only_attempt = λ a h. same_id a.id r.attempt.id w.attempt_id _ _ _ _ h t;
  only_delivery = λ d h. ground arith;
  keeps = k;
}
  where
    same_id :
        (x y k : ℕ) (a b c d : Bool)
        → ((x == k && a) && b) ≡ true
        → ((y == k && c) && d) ≡ true
        → x ≡ y
    same_id x y k a b c d p q = ground arith

keeps_complete :
    (w : PollWork) (u : PollUpdate) (at : Millis) (r : Row)
    → KeepsKeys
        (on (is_claimed_by w) (complete_attempt u))
        (on (is_polled_delivery r) (complete_delivery u at))
keeps_complete w u at r = record {
  attempt_id = λ a. elim (Bool-cases (is_claimed_by w a)) [ inl e ↦ rw e | inr e ↦ rw e ];
  attempt_delivery = λ a. elim (Bool-cases (is_claimed_by w a)) [ inl e ↦ rw e | inr e ↦ rw e ];
  delivery_id = λ d. elim (Bool-cases (is_polled_delivery r d)) [ inl e ↦ rw e | inr e ↦ rw e ];
  current = λ d. elim (Bool-cases (is_polled_delivery r d)) [ inl e ↦ rw e | inr e ↦ rw e ];
  target = λ d. elim (Bool-cases (is_polled_delivery r d)) [ inl e ↦ rw e | inr e ↦ rw e ];
  dispatch = λ d. elim (Bool-cases (is_polled_delivery r d)) [ inl e ↦ rw e | inr e ↦ rw e ];
}

keeps_delivery :
    (w : PollWork) (u : PollUpdate) (r : Row)
    → KeepsKeys (on (is_claimed_by w) (complete_attempt u)) (on (is_polled_delivery r) (λ d. d))
keeps_delivery w u r = record {
  attempt_id = λ a. elim (Bool-cases (is_claimed_by w a)) [ inl e ↦ rw e | inr e ↦ rw e ];
  attempt_delivery = λ a. elim (Bool-cases (is_claimed_by w a)) [ inl e ↦ rw e | inr e ↦ rw e ];
  delivery_id = λ d. elim (Bool-cases (is_polled_delivery r d)) [ inl e ↦ rw e | inr e ↦ rw e ];
  current = λ d. elim (Bool-cases (is_polled_delivery r d)) [ inl e ↦ rw e | inr e ↦ rw e ];
  target = λ d. elim (Bool-cases (is_polled_delivery r d)) [ inl e ↦ rw e | inr e ↦ rw e ];
  dispatch = λ d. elim (Bool-cases (is_polled_delivery r d)) [ inl e ↦ rw e | inr e ↦ rw e ];
}

same_map : (p : DeliveryRow → Bool) (ds : List DeliveryRow) → map (on p (λ d. d)) ds ≡ ds
same_map p ds =
    map-same (on p (λ d. d)) ds (λ d h. elim (Bool-cases (p d)) [ inl e ↦ rw e | inr e ↦ rw e ])

not_transition :
    (u : PollUpdate) (a : AttemptRow)
    → is_transition u a ≡ false
    → (a.transport_status ≡ u.transport_status) × (a.deployment_status ≡ u.deployment_status)
not_transition u a h = (
  same_transport→≡ a.transport_status u.transport_status (first _ _ h),
  same_deployment→≡ a.deployment_status u.deployment_status (second _ _ h),
)
  where
    first : (x y : Bool) → (not x || not y) ≡ false → x ≡ true
    first x y h = ground arith

    second : (x y : Bool) → (not x || not y) ≡ false → y ≡ true
    second x y h = ground arith

module _ (w : PollWork) (u : PollUpdate) (at : Millis) (db : Db) (v : Inv db) (r : Row)
    (hr : In r (rows db)) (t : is_claimed_by w r.attempt ≡ true) (adv : IsAdvance u r.attempt) where
  IsSound-after :
      (s : IsSound r) (g : DeliveryRow → DeliveryRow)
      → (g r.delivery).transport_status ≡ u.transport_status
      → (g r.delivery).deployment_status ≡ u.deployment_status
      → IsSound (change_row (complete_attempt u) g r)
  IsSound-after s g p q = record {
    transport = p;
    deployment = q;
    fresh = λ e. s.fresh (adv.sent e);
  }

  complete_delivery_of-Inv :
      (db' : Db) (changed : Bool)
      → complete_delivery_of r u at (map (on (is_claimed_by w) (complete_attempt u)) db.attempts) db
        ≡ ok (changed, db')
      → Inv db'
  unfolding complete_delivery_of insert_audit poll_update_of
  complete_delivery_of-Inv db' changed h = elim (Bool-cases (is_transition u r.attempt)) [
    | inl e ↦
        let (ds, f, k) = >>=-eq-ok _ _ (rw (e, complete_delivery_of) at h) in
        let same = snd_ok k in
        Inv-RowUpdate db v r hr
          (poll_update_of w u (complete_delivery u at) r (In-rows db r hr).1 t
            (keeps_complete w u at r))
          db' (ap (λ (d : Db). d.attempts) (sym same))
          (ap (λ (d : Db). d.deliveries) (sym same)
            ∙ (update_one-eq-ok poll_not_claimed _ _ db.deliveries ds f).1)
          (IsSound-after (v.mirrored r hr) (complete_delivery u at) refl refl) adv.occupied
    | inr e ↦
        let same = snd_ok (rw (e, complete_delivery_of) at h) in
        let (p, q) = not_transition u r.attempt e in
        let m = v.mirrored r hr in
        Inv-RowUpdate db v r hr
          (poll_update_of w u (λ d. d) r (In-rows db r hr).1 t (keeps_delivery w u r)) db'
          (rw (← same)) (rw (← same) (sym (same_map (is_polled_delivery r) db.deliveries)))
          (IsSound-after m (λ d. d) (m.transport ∙ p) (m.deployment ∙ q)) adv.occupied
  ]
    where
      snd_ok :
          {a b : Bool} {x y : Db} → ◌≡◌ {A = Result (Bool × Db)} (ok (a, x)) (ok (b, y)) → x ≡ y
      snd_ok p = cc

-- A completed poll keeps the invariant, if its update is one for the attempt that it claims.
pub complete_poll-Inv :
    (w : PollWork) (u : PollUpdate) (at : Millis) (db db' : Db) (changed : Bool)
    → Inv db
    → ((r : Row) → Claims w db r → IsAdvance u r.attempt)
    → complete_poll w u at db ≡ ok (changed, db')
    → Inv db'
unfolding complete_poll
complete_poll-Inv w u at db db' changed v adv h =
    let (r, f, k) = >>=-eq-ok _ _ h in
    let (xs, e, l) = >>=-eq-ok _ _ k in
    let found =
      or_fail-eq-ok (find? (λ (s : Row). is_claimed_by w s.attempt) (rows db)) poll_not_claimed f in
    let hr = In-find? _ (rows db) found in
    let t = find?-true (λ (s : Row). is_claimed_by w s.attempt) (rows db) found in
    complete_delivery_of-Inv w u at db v r hr t (adv r (hr, t)) db' changed
      (rw (update_one-eq-ok poll_not_claimed _ _ db.attempts xs e).1 at l)
