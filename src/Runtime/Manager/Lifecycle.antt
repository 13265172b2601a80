-- ===== src/Runtime/Manager/Lifecycle.antt =====
-- internal/runtimecfg/manager.go: what holds in every manager that the gate sections reach.
use hookfly.Base.{
  ℕ, zero, suc, ◌-◌, String, Bool, true, false, ◌||◌, Option, none, some, ◌≡◌, refl, sym,
  Bool-cases, inl, inr, ltb, is_some, arith, ◌==◌, subst, ==→≡,
}
use hookfly.Store.Invariant.{not_both}
use hookfly.Domain.{Millis}
use hookfly.Runtime.Manager.{
  State, Manager, LoadResult, loaded, load_unavailable, load_invalid, is_idle, is_waiting,
  is_draining, leave_waiting, after_publish, new_manager, initialize, start_from, begin_reload,
  finish_reload, advance_waiting, set_draining, set_idle_if_queue_empty,
}
use hookfly.Runtime.Manager.Steps.{
  Step, began, finished, advanced, forced, drained, initialized, can_happen, reloads_after,
  forced_after, Reach, started, stepped,
}

module _ {G : Type 0} (digest : G → String) where
  abbrev pub pending_of : Option G → String
  pending_of none = ""
  pending_of (some g) = digest g

  abbrev pub is_validating : State → Bool
  is_validating State.validating = true
  is_validating _ = false

  abbrev pub is_applying : State → Bool
  is_applying State.applying = true
  is_applying _ = false

  -- What holds between gate sections, with that many reloads between theirs.
  pub record IsCoherent (n : ℕ) (f : Bool) (m : Manager G) : Type 0 where
    pub waits : f ≡ false → is_some m.candidate ≡ true → is_waiting m.state ≡ true
    pub pending : m.pending_digest ≡ pending_of m.candidate
    pub recovers :
        m.recovery ≡ true
        → (m.candidate ≡ none) × ((is_waiting m.state || is_draining m.state) ≡ true) × (n ≡ 0)
    pub validates : is_validating m.state ≡ true → (m.candidate ≡ none) × (ltb 0 n ≡ true)
    pub applies : is_applying m.state ≡ false

  none≢some : {m : Manager G} → ◌≡◌ {A = Option (Manager G)} none (some m) → ⊥
  none≢some p = cc

  some_inj : {m m' : Manager G} → ◌≡◌ {A = Option (Manager G)} (some m) (some m') → m ≡ m'
  some_inj p = cc

  not_zero : (q : ℕ) → (suc q == 0) ≡ false
  not_zero q = ground arith

  positive : (q : ℕ) → ltb 0 (suc q) ≡ true
  positive q = ground arith

  waiting-draining : (s : State) → is_waiting s ≡ true → is_draining s ≡ true → ⊥
  waiting-draining State.waiting p q = not_both _ q refl
  waiting-draining State.idle p q = not_both _ p refl
  waiting-draining State.validating p q = not_both _ p refl
  waiting-draining State.applying p q = not_both _ p refl
  waiting-draining State.draining p q = not_both _ p refl

  -- A settled manager without a candidate that does not recover.
  plain :
      (n : ℕ) (f : Bool) {m : Manager G}
      → m.candidate ≡ none
      → m.pending_digest ≡ ""
      → m.recovery ≡ false
      → is_validating m.state ≡ false
      → is_applying m.state ≡ false
      → IsCoherent n f m
  plain n f p d r v a = record {
    waits = λ w x. absurd (not_both _ x (rw p refl));
    pending = rw (p, d) refl;
    recovers = λ x. absurd (not_both _ x r);
    validates = λ x. absurd (not_both _ x v);
    applies = a;
  }

  initialize-IsCoherent :
      (n : ℕ) (queued active : Option ℕ) (m : Manager G) {m' : Manager G}
      → n ≡ 0
      → initialize queued active m ≡ some m'
      → IsCoherent n false m'
  unfolding initialize
  initialize-IsCoherent n none active m z h = absurd (none≢some h)
  initialize-IsCoherent n (some zero) active m z h =
      subst (IsCoherent n false) (some_inj h) (plain n false refl refl refl refl refl)
  initialize-IsCoherent n (some (suc q)) none m z h = absurd (none≢some h)
  initialize-IsCoherent n (some (suc q)) (some a) m z h =
      subst (IsCoherent n false) (some_inj h) (recovery q a)
    where
      recovery : (q a : ℕ) → IsCoherent n false (start_from (suc q) a m)
      recovery q a = elim (Bool-cases (ltb 0 a)) [
        | inl e ↦
            rw (not_zero q, e)
              (record {
                waits = λ w x. absurd (not_both _ x refl);
                pending = refl;
                recovers = λ x. (refl, refl, z);
                validates = λ x. absurd (not_both _ x refl);
                applies = refl;
              })
        | inr e ↦
            rw (not_zero q, e)
              (record {
                waits = λ w x. absurd (not_both _ x refl);
                pending = refl;
                recovers = λ x. (refl, refl, z);
                validates = λ x. absurd (not_both _ x refl);
                applies = refl;
              })
      ]

  begin-IsCoherent :
      (n : ℕ) (m : Manager G) {m' : Manager G}
      → begin_reload m ≡ some m'
      → IsCoherent (suc n) false m'
  unfolding begin_reload
  begin-IsCoherent n m h = elim (Bool-cases (is_idle m.state)) [
    | inl e ↦ subst (IsCoherent (suc n) false) (some_inj (rw (e, begin_reload) at h)) (record {
      waits = λ w x. absurd (not_both _ x refl);
      pending = refl;
      recovers = λ x. absurd (not_both _ x refl);
      validates = λ x. (refl, positive n);
      applies = refl;
    })
    | inr e ↦ absurd (none≢some (rw (e, begin_reload) at h))
  ]

  -- While a reload is between its sections, recovery is off.
  not_recovering :
      (n : ℕ) (f : Bool) {m : Manager G} → ltb 0 n ≡ true → IsCoherent n f m → m.recovery ≡ false
  not_recovering n f {m} v c = elim (Bool-cases m.recovery) [
    | inr e ↦ e
    | inl e ↦ let (_, _, z) = c.recovers e in absurd (not_both _ v (rw z refl))
  ]

  finish-IsCoherent :
      (n : ℕ) (f : Bool) {m : Manager G} (load : LoadResult G) (active : Option ℕ) (now : Millis)
      → ltb 0 n ≡ true
      → IsCoherent n f m
      → IsCoherent (n - 1) false (finish_reload digest load active now m).1
  unfolding finish_reload
  finish-IsCoherent n f load_unavailable active now v c =
      plain (n - 1) false refl refl (not_recovering n f v c) refl refl
  finish-IsCoherent n f load_invalid active now v c =
      plain (n - 1) false refl refl (not_recovering n f v c) refl refl
  finish-IsCoherent n f (loaded g) none now v c =
      plain (n - 1) false refl refl (not_recovering n f v c) refl refl
  finish-IsCoherent n f (loaded g) (some a) now v c = elim (Bool-cases (ltb 0 a)) [
    | inl e ↦
        rw (e, finish_reload)
          (record {
            waits = λ w x. refl;
            pending = refl;
            recovers = λ x. absurd (not_both _ x (not_recovering n f v c));
            validates = λ x. absurd (not_both _ x refl);
            applies = refl;
          })
    | inr e ↦ rw (e, finish_reload) (plain (n - 1) false refl refl refl refl refl)
  ]

  leave-IsCoherent :
      (n : ℕ) (f : Bool) {m : Manager G} (now : Millis)
      → IsCoherent n f m
      → (o : Option G) → m.candidate ≡ o
      → IsCoherent n f (after_publish (leave_waiting o now m))
  leave-IsCoherent n f now c (some g) e = plain n f refl refl refl refl refl
  leave-IsCoherent n f now c none e = record {
    waits = λ w x. absurd (not_both _ x (rw e refl));
    pending = c.pending;
    recovers = λ x. let (_, _, z) = c.recovers x in (e, refl, z);
    validates = λ x. absurd (not_both _ x refl);
    applies = refl;
  }

  advance-IsCoherent :
      (n : ℕ) (f : Bool) {m : Manager G} (active : Option ℕ) (now : Millis)
      → IsCoherent n f m
      → IsCoherent n f (advance_waiting active now m).1
  unfolding advance_waiting
  advance-IsCoherent n f {m} active now c = elim (Bool-cases (is_waiting m.state)) [
    | inr e ↦ rw (e, advance_waiting) c
    | inl e ↦ waits active e
  ]
    where
      waits :
          (a : Option ℕ) → is_waiting m.state ≡ true → IsCoherent n f (advance_waiting a now m).1
      waits none e =
          rw (e, advance_waiting)
            (record {
              waits = c.waits;
              pending = c.pending;
              recovers = c.recovers;
              validates = c.validates;
              applies = c.applies;
            })
      waits (some a) e = elim (Bool-cases (ltb 0 a)) [
        | inl k ↦ rw (e, k, advance_waiting) c
        | inr k ↦ rw (e, k, advance_waiting) (leave-IsCoherent n f now c m.candidate refl)
      ]

  force-IsCoherent :
      (n : ℕ) (f : Bool) {m : Manager G} → IsCoherent n f m → IsCoherent n true (set_draining m)
  unfolding set_draining
  force-IsCoherent n f c = record {
    waits = λ w x. absurd (not_both _ refl w);
    pending = c.pending;
    recovers = λ x. let (e, _, z) = c.recovers x in (e, refl, z);
    validates = λ x. absurd (not_both _ x refl);
    applies = refl;
  }

  drain-IsCoherent :
      (n : ℕ) (f : Bool) {m : Manager G} (queued : Option ℕ)
      → IsCoherent n f m
      → IsCoherent n f (set_idle_if_queue_empty queued m).1
  unfolding set_idle_if_queue_empty
  drain-IsCoherent n f {m} queued c = elim (Bool-cases (is_draining m.state)) [
    | inr e ↦ rw (e, set_idle_if_queue_empty) c
    | inl e ↦ drains queued e
  ]
    where
      drains :
          (q : Option ℕ)
          → is_draining m.state ≡ true
          → IsCoherent n f (set_idle_if_queue_empty q m).1
      drains none e = rw (e, set_idle_if_queue_empty) c
      drains (some q) e = elim (Bool-cases (q == 0)) [
        | inr k ↦ rw (e, k, set_idle_if_queue_empty) c
        | inl k ↦
            rw (e, k, set_idle_if_queue_empty)
              (record {
                waits = λ w x. absurd (waiting-draining m.state (c.waits w x) e);
                pending = c.pending;
                recovers = λ x. absurd (not_both _ x refl);
                validates = λ x. absurd (not_both _ x refl);
                applies = refl;
              })
      ]

  Step-IsCoherent :
      (n : ℕ) (f : Bool) {m m' : Manager G}
      → IsCoherent n f m
      → (s : Step digest m m') → can_happen digest n s ≡ true
      → IsCoherent (reloads_after digest n s) (forced_after digest f s) m'
  Step-IsCoherent n f c (began h) t = begin-IsCoherent n _ h
  Step-IsCoherent n f c (finished load active now e) t =
      subst (IsCoherent (n - 1) false) (sym e) (finish-IsCoherent n f load active now t c)
  Step-IsCoherent n f c (advanced active now e) t =
      subst (IsCoherent n f) (sym e) (advance-IsCoherent n f active now c)
  Step-IsCoherent n f c (forced e) t = subst (IsCoherent n true) (sym e) (force-IsCoherent n f c)
  Step-IsCoherent n f c (drained queued e) t =
      subst (IsCoherent n f) (sym e) (drain-IsCoherent n f queued c)
  Step-IsCoherent n f c (initialized queued active h) t =
      initialize-IsCoherent n queued active _ (==→≡ n 0 t) h

  -- Every manager that the gate sections reach from a new one, `SetDraining` and a repeated
  -- `Initialize` included, is coherent, where a second section of a reload follows a first one and
  -- `Initialize` runs between reloads. Its pending digest is the candidate's, or empty without one.
  -- A candidate is held only while the manager waits, unless `SetDraining` ran since the last section
  -- of `Reload` or `Initialize`. Recovery is on only while it waits or drains without a candidate and no
  -- reload is between its sections. It validates only with a reload between its sections and no
  -- candidate, and no section leaves it applying.
  pub Reach-IsCoherent : {n : ℕ} {f : Bool} {m : Manager G} → Reach digest n f m → IsCoherent n f m
  unfolding new_manager
  Reach-IsCoherent (started g now) = plain 0 false refl refl refl refl refl
  Reach-IsCoherent (stepped r s t) = Step-IsCoherent _ _ (Reach-IsCoherent r) s t
