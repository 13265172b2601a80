-- ===== src/Runtime/Manager/Swaps.antt =====
-- internal/runtimecfg/manager.go: when a gate section replaces the current generation.
use hookfly.Base.{
  ℕ, zero, suc, String, false, Option, none, some, ◌≡◌, refl, sym, ◌∙◌, Bool-cases, inl, inr, ltb,
  arith, ◌==◌, subst, ap, ◌⊎◌,
}
use hookfly.Domain.{Millis}
use hookfly.Runtime.Manager.{
  State, Manager, LoadResult, loaded, load_unavailable, load_invalid, is_idle, is_waiting,
  is_draining, leave_waiting, begin_reload, finish_reload, advance_waiting, set_idle_if_queue_empty,
  initialize, start_from, set_draining,
}
use hookfly.Runtime.Manager.Steps.{Step, began, finished, advanced, forced, drained, initialized}

module _ {G : Type 0} (digest : G → String) where
  none≢some : {m : Manager G} → ◌≡◌ {A = Option (Manager G)} none (some m) → ⊥
  none≢some p = cc

  some_inj : {m m' : Manager G} → ◌≡◌ {A = Option (Manager G)} (some m) (some m') → m ≡ m'
  some_inj p = cc

  -- The delivery count that a gate section read, if it read one.
  abbrev pub count_of : {m m' : Manager G} → Step digest m m' → Option ℕ
  count_of (began h) = none
  count_of (finished load active now e) = active
  count_of (advanced active now e) = active
  count_of (forced e) = none
  count_of (drained queued e) = none
  count_of (initialized queued active h) = none

  abbrev pub Swaps : Option ℕ → Manager G → Manager G → Type 0
  Swaps count m m' = (m'.current ≡ m.current) ⊎ ((count ≡ some 0) × (m'.state ≡ State.draining))

  begin-Swaps : (m : Manager G) {m' : Manager G} → begin_reload m ≡ some m' → Swaps none m m'
  unfolding begin_reload
  begin-Swaps m h = elim (Bool-cases (is_idle m.state)) [
    | inl e ↦ inl (ap (λ (x : Manager G). x.current) (sym (some_inj (rw (e, begin_reload) at h))))
    | inr e ↦ absurd (none≢some (rw (e, begin_reload) at h))
  ]

  not_positive : (n : ℕ) → ltb 0 n ≡ false → ◌≡◌ {A = Option ℕ} (some n) (some 0)
  not_positive n h = ap some (zero_of n h)
    where
      zero_of : (n : ℕ) → ltb 0 n ≡ false → n ≡ 0
      zero_of n h = ground arith

  finish-Swaps :
      (m : Manager G) (load : LoadResult G) (active : Option ℕ) (now : Millis)
      → Swaps active m (finish_reload digest load active now m).1
  unfolding finish_reload
  finish-Swaps m load_unavailable active now = inl refl
  finish-Swaps m load_invalid active now = inl refl
  finish-Swaps m (loaded g) none now = inl refl
  finish-Swaps m (loaded g) (some n) now = elim (Bool-cases (ltb 0 n)) [
    | inl e ↦ inl (rw (e, finish_reload) refl)
    | inr e ↦ inr (not_positive n e, rw (e, finish_reload) refl)
  ]

  leave-draining :
      (m : Manager G) (now : Millis) (o : Option G) → (leave_waiting o now m).state ≡ State.draining
  leave-draining m now none = refl
  leave-draining m now (some g) = refl

  advance-Swaps :
      (m : Manager G) (active : Option ℕ) (now : Millis)
      → Swaps active m (advance_waiting active now m).1
  unfolding advance_waiting
  advance-Swaps m none now = elim (Bool-cases (is_waiting m.state)) [
    | inl w ↦ inl (rw (w, advance_waiting) refl)
    | inr w ↦ inl (rw (w, advance_waiting) refl)
  ]
  advance-Swaps m (some n) now = elim (Bool-cases (is_waiting m.state)) [
    | inr w ↦ inl (rw (w, advance_waiting) refl)
    | inl w ↦ elim (Bool-cases (ltb 0 n)) [
      | inl e ↦ inl (rw (w, e, advance_waiting) refl)
      | inr e ↦
          inr (not_positive n e, rw (w, e, advance_waiting) (leave-draining m now m.candidate))
    ]
  ]

  drain-current :
      (m : Manager G) (queued : Option ℕ) → (set_idle_if_queue_empty queued m).1.current ≡ m.current
  unfolding set_idle_if_queue_empty
  drain-current m none = elim (Bool-cases (is_draining m.state)) [
    | inl w ↦ rw (w, set_idle_if_queue_empty) refl
    | inr w ↦ rw (w, set_idle_if_queue_empty) refl
  ]
  drain-current m (some n) = elim (Bool-cases (is_draining m.state)) [
    | inr w ↦ rw (w, set_idle_if_queue_empty) refl
    | inl w ↦ elim (Bool-cases (n == 0)) [
      | inl e ↦ rw (w, e, set_idle_if_queue_empty) refl
      | inr e ↦ rw (w, e, set_idle_if_queue_empty) refl
    ]
  ]

  force-current : (m : Manager G) → (set_draining m).current ≡ m.current
  unfolding set_draining
  force-current m = refl

  initialize-current :
      (m : Manager G) (queued active : Option ℕ) {m' : Manager G}
      → initialize queued active m ≡ some m'
      → m'.current ≡ m.current
  unfolding initialize
  initialize-current m none active h = absurd (none≢some h)
  initialize-current m (some zero) active h = ap (λ (x : Manager G). x.current) (sym (some_inj h))
  initialize-current m (some (suc q)) none h = absurd (none≢some h)
  initialize-current m (some (suc q)) (some a) h =
      ap (λ (x : Manager G). x.current) (sym (some_inj h)) ∙ woken q a
    where
      woken : (q a : ℕ) → (start_from (suc q) a m).current ≡ m.current
      woken q a = elim (Bool-cases (ltb 0 a)) [
        | inl e ↦ rw (not_zero q, e) refl
        | inr e ↦ rw (not_zero q, e) refl
      ]
        where
          not_zero : (q : ℕ) → (suc q == 0) ≡ false
          not_zero q = ground arith

  -- A gate section leaves the current generation as it is, unless it read that no delivery is active;
  -- then the manager drains the deferred events.
  pub Step-Swaps : (m m' : Manager G) (s : Step digest m m') → Swaps (count_of s) m m'
  Step-Swaps m m' (began h) = begin-Swaps m h
  Step-Swaps m m' (finished load active now e) =
      subst (Swaps active m) (sym e) (finish-Swaps m load active now)
  Step-Swaps m m' (advanced active now e) =
      subst (Swaps active m) (sym e) (advance-Swaps m active now)
  Step-Swaps m m' (forced e) = inl (ap (λ (x : Manager G). x.current) e ∙ force-current m)
  Step-Swaps m m' (initialized queued active h) = inl (initialize-current m queued active h)
  Step-Swaps m m' (drained queued e) =
      inl (ap (λ (x : Manager G). x.current) e ∙ drain-current m queued)
