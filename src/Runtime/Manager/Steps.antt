-- ===== src/Runtime/Manager/Steps.antt =====
-- internal/runtimecfg/manager.go: the gate sections as a step relation, and the orders of them.
use hookfly.Base.{ℕ, suc, ◌-◌, String, Bool, true, false, Option, some, ◌≡◌, ltb, ◌==◌}
use hookfly.Domain.{Millis}
use hookfly.Runtime.Manager.{
  Manager, LoadResult, new_manager, initialize, begin_reload, finish_reload, advance_waiting,
  set_draining, set_idle_if_queue_empty,
}

module _ {G : Type 0} (digest : G → String) where
  -- One gate section; the delivery and queue counts that it reads are its arguments. The second
  -- section of a reload may meet the manager in any state, since others run between the two.
  pub data Step : Manager G → Manager G → Type 0 where
    began : {m m' : Manager G} → begin_reload m ≡ some m' → Step m m'
    finished :
        {m m' : Manager G} (load : LoadResult G) (active : Option ℕ) (now : Millis)
        → m' ≡ (finish_reload digest load active now m).1
        → Step m m'
    advanced :
        {m m' : Manager G} (active : Option ℕ) (now : Millis)
        → m' ≡ (advance_waiting active now m).1
        → Step m m'
    forced : {m m' : Manager G} → m' ≡ set_draining m → Step m m'
    drained :
        {m m' : Manager G} (queued : Option ℕ)
        → m' ≡ (set_idle_if_queue_empty queued m).1
        → Step m m'
    initialized :
        {m m' : Manager G} (queued active : Option ℕ)
        → initialize queued active m ≡ some m'
        → Step m m'

  -- How many reloads are between their two sections. A second section ends one of them, and
  -- `Initialize` runs before the listeners that reload, so while there are none.
  abbrev pub can_happen : {m m' : Manager G} → ℕ → Step m m' → Bool
  can_happen n (began h) = true
  can_happen n (finished load active now e) = ltb 0 n
  can_happen n (advanced active now e) = true
  can_happen n (forced e) = true
  can_happen n (drained queued e) = true
  can_happen n (initialized queued active h) = n == 0

  abbrev pub reloads_after : {m m' : Manager G} → ℕ → Step m m' → ℕ
  reloads_after n (began h) = suc n
  reloads_after n (finished load active now e) = n - 1
  reloads_after n (advanced active now e) = n
  reloads_after n (forced e) = n
  reloads_after n (drained queued e) = n
  reloads_after n (initialized queued active h) = n

  -- Whether `SetDraining` ran since the last section of `Reload` or `Initialize`.
  abbrev pub forced_after : {m m' : Manager G} → Bool → Step m m' → Bool
  forced_after f (began h) = false
  forced_after f (finished load active now e) = false
  forced_after f (advanced active now e) = f
  forced_after f (forced e) = true
  forced_after f (drained queued e) = f
  forced_after f (initialized queued active h) = false

  -- A new manager and what the gate sections make of it, in any order that can happen.
  pub data Reach : ℕ → Bool → Manager G → Type 0 where
    started : (g : G) (now : Millis) → Reach 0 false (new_manager g now)
    stepped :
        {n : ℕ} {f : Bool} {m m' : Manager G}
        → Reach n f m
        → (s : Step m m') → can_happen n s ≡ true
        → Reach (reloads_after n s) (forced_after f s) m'
