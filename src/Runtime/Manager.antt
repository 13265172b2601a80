-- ===== src/Runtime/Manager.antt =====
-- internal/runtimecfg/manager.go: the reload state machine behind the generation gate. A gate
-- section is one step; the counts that the store is asked for, which may fail, are arguments.
pub mod Steps
pub mod Lifecycle
pub mod Swaps
use hookfly.Base.{
  ℕ, zero, suc, String, Bool, true, false, ◌&&◌, ◌||◌, Option, none, some, ◌==◌, ltb, if◌then◌else◌,
}
use hookfly.Domain.{Millis}

pub data State : Type 0 where
  idle validating waiting applying draining : State

pub data ResultCode : Type 0 where
  unavailable invalid_config waiting_for_active waiting_retry applied recovery_draining : ResultCode

pub data ReloadOutcome : Type 0 where
  applied waiting : ReloadOutcome

pub data ReloadError : Type 0 where
  reload_in_progress invalid_config pre_wait_unavailable : ReloadError

-- `loadGeneration` fails because a file is unavailable, or because the configuration is invalid.
pub data LoadResult (G : Type 0) : Type 0 where
  loaded : G → LoadResult G
  load_unavailable : LoadResult G
  load_invalid : LoadResult G

pub data ReloadResult : Type 0 where
  outcome : ReloadOutcome → ReloadResult
  failed : ReloadError → ReloadResult

pub record LastResult : Type 0 where
  pub code : ResultCode
  pub at : Millis

-- The four wake channels hold one signal at most.
pub record Wakes : Type 0 where
  pub terminal : Bool
  pub drain : Bool
  pub poller : Bool
  pub retention : Bool

pub record Manager (G : Type 0) : Type 0 where
  pub current : G
  pub candidate : Option G
  pub state : State
  pub recovery : Bool
  pub loaded_at : Millis
  pub pending_digest : String
  pub last_result : Option LastResult
  pub wakes : Wakes

abbrev pub is_idle : State → Bool
is_idle State.idle = true
is_idle _ = false

abbrev pub is_waiting : State → Bool
is_waiting State.waiting = true
is_waiting _ = false

abbrev pub is_draining : State → Bool
is_draining State.draining = true
is_draining _ = false

abbrev pub initial_state : ℕ → ℕ → State
initial_state queued active =
    if queued == 0 then State.idle else (if ltb 0 active then State.waiting else State.draining)

module _ {G : Type 0} where
  -- `coalesce` on each channel: a pending signal stays one signal.
  abbrev pub notify_terminal : Manager G → Manager G
  notify_terminal m = record m { wakes = record (m.wakes) { terminal = true } }

  abbrev pub notify_drain : Manager G → Manager G
  notify_drain m = record m { wakes = record (m.wakes) { drain = true } }

  abbrev pub after_publish : Manager G → Manager G
  after_publish m = record m {
    wakes = record (m.wakes) { drain = true; poller = true; retention = true };
  }

  abbrev pub set_last_result : ResultCode → Millis → Manager G → Manager G
  set_last_result code now m = record m { last_result = some (record { code = code; at = now }) }

  unfoldable pub new_manager : G → Millis → Manager G
  new_manager initial now = record {
    current = initial;
    candidate = none;
    state = State.idle;
    recovery = false;
    loaded_at = now;
    pending_digest = "";
    last_result = none;
    wakes = record { terminal = false; drain = false; poller = false; retention = false };
  }

  abbrev wake_initial : Manager G → Manager G
  wake_initial m =
      if is_waiting m.state
      then notify_terminal m
      else (if is_draining m.state then notify_drain m else m)

  -- The lifecycle that the durable counts call for at startup.
  abbrev start_from : ℕ → ℕ → Manager G → Manager G
  start_from queued active m = wake_initial (record m {
    candidate = none;
    pending_digest = "";
    recovery = ltb 0 queued;
    state = initial_state queued active;
  })

  -- `Initialize`; `none` is the error of a count. The active count is asked for only if events wait.
  unfoldable pub initialize : Option ℕ → Option ℕ → Manager G → Option (Manager G)
  initialize none active m = none
  initialize (some zero) active m = some (start_from 0 0 m)
  initialize (some (suc queued)) none m = none
  initialize (some (suc queued)) (some active) m = some (start_from (suc queued) active m)

  -- The first gate section of `Reload`: the lifecycle is won, or the reload is refused.
  unfoldable pub begin_reload : Manager G → Option (Manager G)
  begin_reload m =
      if is_idle m.state
      then some (record m {
        state = State.validating;
        recovery = false;
        candidate = none;
        pending_digest = "";
      })
      else none

  abbrev pub back_to_idle : ResultCode → Millis → Manager G → Manager G
  back_to_idle code now m =
      set_last_result code now
        (record m { candidate = none; pending_digest = ""; state = State.idle })

  -- `publishCandidateLocked`, which is called with a candidate only.
  abbrev pub publish : G → Millis → Manager G → Manager G
  publish g now m = set_last_result ResultCode.applied now (record m {
    current = g;
    candidate = none;
    pending_digest = "";
    loaded_at = now;
    recovery = false;
    state = State.draining;
  })

  -- The candidate is published; without one, startup recovery goes on to drain.
  abbrev pub leave_waiting : Option G → Millis → Manager G → Manager G
  leave_waiting (some g) now m = publish g now m
  leave_waiting none now m =
      set_last_result ResultCode.recovery_draining now (record m { state = State.draining })

  -- `advanceWaiting`: whether it still waits, and the manager. `none` is the error of the count.
  unfoldable pub advance_waiting : Option ℕ → Millis → Manager G → Bool × Manager G
  advance_waiting active now m =
      if is_waiting m.state
      then elim active [
        | none ↦ (true, set_last_result ResultCode.waiting_retry now m)
        | some n ↦
            if ltb 0 n then (true, m) else (false, after_publish (leave_waiting m.candidate now m))
      ]
      else (false, m)

  unfoldable pub set_draining : Manager G → Manager G
  set_draining m = notify_drain (record m { state = State.draining })

  -- `SetIdleIfQueueEmpty`: whether the lifecycle is idle (`none` is the error of the count).
  unfoldable pub set_idle_if_queue_empty : Option ℕ → Manager G → Option Bool × Manager G
  set_idle_if_queue_empty queued m =
      if is_draining m.state
      then elim queued [
        | none ↦ (none, m)
        | some n ↦
            if n == 0
            then (some true, record m { state = State.idle; recovery = false })
            else (some false, m)
      ]
      else (some (is_idle m.state), m)

-- `digest` is the identity of a compiled generation.
module _ {G : Type 0} (digest : G → String) where
  abbrev pub await_active : G → ℕ → Millis → Manager G → ReloadResult × Manager G
  await_active g active now m =
      if ltb 0 active
      then (
        outcome ReloadOutcome.waiting,
        notify_terminal (
            set_last_result ResultCode.waiting_for_active now
              (record m { candidate = some g; pending_digest = digest g; state = State.waiting })),
      )
      else (outcome ReloadOutcome.applied, after_publish (publish g now m))

  -- What follows in `Reload`, after the candidate was loaded outside of the gate.
  unfoldable pub finish_reload :
      LoadResult G → Option ℕ → Millis → Manager G → ReloadResult × Manager G
  finish_reload load_unavailable active now m =
      (failed pre_wait_unavailable, back_to_idle ResultCode.unavailable now m)
  finish_reload load_invalid active now m =
      (failed ReloadError.invalid_config, back_to_idle ResultCode.invalid_config now m)
  finish_reload (loaded g) none now m =
      (failed pre_wait_unavailable, back_to_idle ResultCode.unavailable now m)
  finish_reload (loaded g) (some active) now m = await_active g active now m

  -- `Reload` with no other step between its two gate sections.
  unfoldable pub reload : LoadResult G → Option ℕ → Millis → Manager G → ReloadResult × Manager G
  reload load active now m = elim (begin_reload m) [
    | none ↦ (failed reload_in_progress, m)
    | some m' ↦ finish_reload load active now m'
  ]

-- `Status`: the projection for the management API (`none` is the error of a count).
pub record Status : Type 0 where
  pub state : State
  pub current_digest : String
  pub loaded_at : Millis
  pub pending_digest : String
  pub recovery : Bool
  pub active_deliveries : ℕ
  pub queued_events : ℕ
  pub last_result : Option LastResult

module _ {G : Type 0} (digest : G → String) where
  unfoldable pub status : Option ℕ → Option ℕ → Manager G → Option Status
  status none queued m = none
  status (some active) none m = none
  status (some active) (some queued) m = some (record {
    state = m.state;
    current_digest = digest m.current;
    loaded_at = m.loaded_at;
    pending_digest = m.pending_digest;
    recovery = m.recovery;
    active_deliveries = active;
    queued_events = queued;
    last_result = m.last_result;
  })
