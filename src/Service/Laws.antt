-- ===== src/Service/Laws.antt =====
-- internal/service/attempts.go: when a manual operation creates an attempt, and when it cannot.
use hookfly.Base.{
  String, true, false, none, some, ◌≡◌, refl, ◌==◌, ==_self, ==→≡, Bool-cases, inl, inr, List,
}
use hookfly.Domain.{Uuid, TransportStatus, DeploymentStatus, Operation, same_deployment}
use hookfly.Dokploy.{History, find_deployment}
use hookfly.Store.Tables.{
  Db, no_rows, attempt_not_sending, poll_not_claimed, current_attempt_changed, history_active,
  constraint_failed, invalid_command, Result, ok, err,
}
use hookfly.Store.Invariant.{not_both}
use hookfly.Store.Attempts.{CurrentAttempt, current_attempt}
use hookfly.Runtime.Manager.{State, is_idle}
use hookfly.Runtime.Target.{Target, Binding, compatible, target_changed, target_unavailable}
use hookfly.Service.{
  Request, refused, reconciliation_unavailable, operation_allowed, needs_reconciliation,
  reconcile_then_execute, decide, decide_bound, execute, execute_for, is_busy,
}

-- The operation is one for the expected current attempt in its present state, at a target that the
-- current configuration can reach.
pub record IsPermitted (state : State) (resolve : CurrentAttempt → Binding) (id expected : Uuid)
    (op : Operation) (db : Db) : Type 0 where
  pub idle : is_idle state ≡ true
  pub current : CurrentAttempt
  pub stored : current_attempt id db ≡ ok current
  pub same : current.attempt_id ≡ expected
  pub target : Target
  pub bound : resolve current ≡ compatible target
  pub quiet : is_busy current ≡ false
  pub unfinished : same_deployment current.deployment_status DeploymentStatus.done ≡ false
  pub allowed : operation_allowed current op ≡ true

module _ (fields : String → List String) (token : Uuid → String) where
  decide-allowed :
      (t : Target) (history : History) (c : CurrentAttempt) (q : Request) (db : Db)
      → (decide fields token t history c q db).created ≡ true
      → (is_busy c ≡ false)
        × (same_deployment c.deployment_status DeploymentStatus.done ≡ false)
        × (operation_allowed c q.operation ≡ true)
  unfolding decide
  decide-allowed t history c q db h = elim (Bool-cases (is_busy c)) [
    | inl a ↦ absurd (not_both _ h (rw (a, decide) refl))
    | inr a ↦ elim (Bool-cases (same_deployment c.deployment_status DeploymentStatus.done)) [
      | inl b ↦ absurd (not_both _ h (rw (a, b, decide) refl))
      | inr b ↦ elim (Bool-cases (operation_allowed c q.operation)) [
        | inl d ↦ (a, b, d)
        | inr d ↦ absurd (not_both _ h (rw (a, b, d, decide) refl))
      ]
    ]
  ]

  for-IsPermitted :
      (state : State) (resolve : CurrentAttempt → Binding) (history : History) (id expected : Uuid)
      (q : Request) (db : Db)
      → is_idle state ≡ true
      → (r : Result CurrentAttempt) → current_attempt id db ≡ r
      → (execute_for fields token resolve history expected q r db).created ≡ true
      → IsPermitted state resolve id expected q.operation db
  for-IsPermitted state resolve history id expected q db i (err attempt_not_sending) s h =
      absurd (not_both _ h refl)
  for-IsPermitted state resolve history id expected q db i (err poll_not_claimed) s h =
      absurd (not_both _ h refl)
  for-IsPermitted state resolve history id expected q db i (err current_attempt_changed) s h =
      absurd (not_both _ h refl)
  for-IsPermitted state resolve history id expected q db i (err history_active) s h =
      absurd (not_both _ h refl)
  for-IsPermitted state resolve history id expected q db i (err constraint_failed) s h =
      absurd (not_both _ h refl)
  for-IsPermitted state resolve history id expected q db i (err invalid_command) s h =
      absurd (not_both _ h refl)
  for-IsPermitted state resolve history id expected q db i (err no_rows) s h =
      absurd (not_both _ h refl)
  for-IsPermitted state resolve history id expected q db i (ok c) s h =
      elim (Bool-cases (c.attempt_id == expected)) [
        | inr e ↦ absurd (not_both _ h (rw e refl))
        | inl e ↦ at_binding (resolve c) refl (rw e at h) (==→≡ _ _ e)
      ]
    where
      at_binding :
          (b : Binding)
          → resolve c ≡ b
          → (decide_bound fields token b history c q db).created ≡ true
          → c.attempt_id ≡ expected
          → IsPermitted state resolve id expected q.operation db
      at_binding target_changed f k e = absurd (not_both _ k refl)
      at_binding target_unavailable f k e = absurd (not_both _ k refl)
      at_binding (compatible t) f k e =
          let (quiet, unfinished, allowed) = decide-allowed t history c q db k in
          record {
            idle = i;
            current = c;
            stored = s;
            same = e;
            target = t;
            bound = f;
            quiet = quiet;
            unfinished = unfinished;
            allowed = allowed;
          }

  -- A manual operation creates an attempt only if no reload is under way, the expected attempt is still
  -- the current one, its target is bound to the current configuration, and in its present state its
  -- deployment is not done, it allows the operation, and it is not active unless its transport or its
  -- deployment is unknown.
  pub execute-IsPermitted :
      (state : State) (resolve : CurrentAttempt → Binding) (history : History) (id expected : Uuid)
      (q : Request) (db : Db)
      → (execute fields token state resolve history id expected q db).created ≡ true
      → IsPermitted state resolve id expected q.operation db
  unfolding execute
  execute-IsPermitted state resolve history id expected q db h = elim (Bool-cases (is_idle state)) [
    | inr e ↦ absurd (not_both _ h (rw (e, execute) refl))
    | inl e ↦
        for-IsPermitted state resolve history id expected q db e (current_attempt id db) refl
          (rw (e, execute) at h)
  ]

  -- A current attempt whose outcome is unknown is never retried at a target without a Compose ID, as HTTP
  -- and forward targets are: the retry is allowed, but it ends with the error that reconciliation is
  -- unavailable, and nothing is written.
  pub execute_direct_unavailable :
      (state : State) (resolve : CurrentAttempt → Binding) (history : History) (id : Uuid)
      (q : Request) (db : Db) (c : CurrentAttempt) (t : Target)
      → is_idle state ≡ true
      → current_attempt id db ≡ ok c
      → resolve c ≡ compatible t
      → t.compose_id ≡ ""
      → c.transport_status ≡ TransportStatus.unknown
      → c.deployment_status ≡ DeploymentStatus.unknown
      → q.operation ≡ Operation.retry
      → (operation_allowed c q.operation ≡ true)
        × (execute fields token state resolve history id c.attempt_id q db
            ≡ refused (some c.attempt_id) reconciliation_unavailable db)
  unfolding execute decide reconcile_then_execute find_deployment operation_allowed
      needs_reconciliation
  execute_direct_unavailable state resolve history id q db c t i s b no_id lost unsure op =
      let permitted : operation_allowed c q.operation ≡ true =
        rw (op, lost, operation_allowed) refl in
      (
        permitted,
        rw (i, s, ==_self c.attempt_id, b, execute)
            (decided permitted (rw (lost, unsure) refl) (rw unsure refl)
              (rw (lost, needs_reconciliation) refl)),
      )
    where
      nothing_found :
          find_deployment fields t.compose_id (token c.attempt_id) c.deployment_id history ≡ none
      nothing_found = rw (no_id, find_deployment) refl

      decided :
          operation_allowed c q.operation ≡ true
          → is_busy c ≡ false
          → same_deployment c.deployment_status DeploymentStatus.done ≡ false
          → needs_reconciliation c ≡ true
          → decide fields token t history c q db
            ≡ refused (some c.attempt_id) reconciliation_unavailable db
      decided p x y z = rw (x, y, p, z, decide) (rw (nothing_found, reconcile_then_execute) refl)
