-- ===== src/Examples/Witnesses.antt =====
-- The theorems at concrete inputs.
use hookfly.Base.{
  true, false, none, some, List, [], ◌∷◌, ◌++◌, ◌≡◌, ◌≤◌, ◌↔◌, refl, arith, length, All, In, map,
  ◌⊎◌, str_eq, lex_le,
}
use hookfly.Domain.{is_sending, CanonicalEvent, Operation}
use hookfly.Store.Tables.{
  new_uuid, current_attempt_changed, Db, Row, ok, err, attempt_not_sending, rows,
}
use hookfly.Store.Rows.{change_row}
use hookfly.Store.Invariant.{Inv}
use hookfly.Store.Update.{at_delivery}
use hookfly.Store.Work.{
  WorkRow, claimable, claim_key, pending_attempt, claim_pending_attempt, transition_attempt,
  failed_outcome, enqueued_outcome, finish_attempt, finish_delivery,
}
use hookfly.Store.Work.Claim.{claimed_row, claim_pending_attempt_takes_oldest}
use hookfly.Store.Work.Transition.{transition_attempt_ok}
use hookfly.Store.Work.Once.{transition_attempt_once}
use hookfly.Store.Retention.{prune}
use hookfly.Store.Retention.Kept.{IsKept, prune_keeps_unfinished}
use hookfly.Store.Recovery.Whole.{recover_interrupted_finishes}
use hookfly.Store.Recovery.{StatusChange, recover_interrupted, binding_of}
use hookfly.Store.Recovery.Laws.{terminate_incompatible_active-Inv}
use hookfly.Store.Attempts.{apply_manual_update}
use hookfly.Store.Attempts.Once.{apply_manual_update_once}
use hookfly.Store.Routing.Laws.{ingest-Inv}
use hookfly.Store.Routing.Finalize.{finalize_deferred-Inv, IsHead}
use hookfly.Dokploy.{Deployment, deployment_matches_attempt}
use hookfly.Dokploy.Lookup.{BeforeCursor, IsOnly, find_deployment_after_binds}
use hookfly.Runtime.Target.{compatible, target_changed}
use hookfly.Runtime.Manager.{State, loaded, finish_reload, set_draining}
use hookfly.Runtime.Manager.Steps.{finished}
use hookfly.Runtime.Manager.Lifecycle.{IsCoherent, Reach-IsCoherent}
use hookfly.Runtime.Manager.Swaps.{Swaps, Step-Swaps}
use hookfly.Worker.Dispatcher
use hookfly.Worker.Dispatcher.{Times, World, acknowledged}
use hookfly.Worker.Dispatcher.Laws.{run_once-Inv}
use hookfly.Worker.Poller.{poll_outcome}
use hookfly.Worker.Poller.Laws.{IsSchedule, poll_one-Inv, poll_outcome-IsSchedule}
use hookfly.Worker.Drainer.{next_pause}
use hookfly.Worker.Drainer.Laws.{next_pause-bounded}
use hookfly.Service.{refused, reconciliation_unavailable, execute, operation_allowed}
use hookfly.Service.Laws.{IsPermitted, execute-IsPermitted, execute_direct_unavailable}
use hookfly.Matcher.{Route, overlaps, route_matches}
use hookfly.Matcher.Overlap.{overlaps_iff, first_canonical_first}
use hookfly.Redact.{redacted, json_with_secret}
use hookfly.Redact.Masking.{mask-hides}
use hookfly.Redact.Bounds.{json_with_secret_bounded}
use hookfly.Examples.{
  push_event, push_command, empty_db, empty_db-Inv, sample_codec, first_result, pushed_db,
  pushed_ok, pushed_db-Inv, claimed_db, claimed_db-Inv, sent_row, sent_row-IsSending, polled_db,
  due_work, polled_db-Inv,
}
use hookfly.Examples.Inputs.{
  aged_event, aged_db, aged_db-IsKeyed, pushed_there, waits_still, ended_db, ended_ok,
  terminated_db, terminated_ok, slow_schedule, deferred_db, deferred_db-Inv, head_event,
  deploy_decision, routed_db, routed_ok, no_snapshot, round_times, dokploy_target, http_target,
  to_dokploy, acknowledging_world, one_field, token_of, to_nothing, no_history, due_work-IsUnmoved,
  completed_db, completed_ok, new_deployment, listed, found_after, failed_db, manual_retry,
  retried_db, retried_ok, retry_request, retry_created, unknown_db, unknown_attempt,
  unknown_current, as_digest, validating_manager, applied_manager, applied_ok, drained_early,
  any_push, main_push, push_route, push_routes, push_route_chosen, same_key, secret_document,
  secret_masked, secret_held, as_text, keep_bytes, no_json, no_bytes,
}

claim_pending_attempt_takes_oldest_example :
    ((claimable pushed_db ≡ []) × (claim_pending_attempt 8 pushed_db ≡ ok (none, pushed_db)))
    ⊎ ((w : WorkRow) × (db' : Db) × (claim_pending_attempt 8 pushed_db
          ≡ ok (some (pending_attempt w), db'))
        × In w (claimable pushed_db)
        × ((x : WorkRow) → In x (claimable pushed_db) → lex_le (claim_key w) (claim_key x) ≡ true)
        × (rows db' ≡ map (at_delivery w.row.delivery.id (claimed_row 8)) (rows pushed_db))
        × Inv db')
claim_pending_attempt_takes_oldest_example =
    claim_pending_attempt_takes_oldest 8 pushed_db pushed_db-Inv

run_once-Inv_example :
    Inv (Dispatcher.run_once no_snapshot round_times to_dokploy acknowledging_world pushed_db).db
run_once-Inv_example =
    run_once-Inv no_snapshot round_times to_dokploy acknowledging_world pushed_db pushed_db-Inv

transition_attempt_ok_example :
    (db' : Db) × (transition_attempt 12 (failed_outcome none none 9) claimed_db ≡ ok db')
    × (rows db'
        ≡ map
            (at_delivery 11 (
              change_row
                (finish_attempt (failed_outcome none none 9))
                (finish_delivery (failed_outcome none none 9))))
            (rows claimed_db))
    × Inv db'
transition_attempt_ok_example =
    transition_attempt_ok claimed_db claimed_db-Inv 12 (failed_outcome none none 9) sent_row refl
      sent_row-IsSending

finalize_deferred-Inv_example :
    Inv routed_db
    × (((true ≡ true) × IsHead head_event deferred_db)
        ⊎ ((true ≡ false) × (routed_db ≡ deferred_db)))
finalize_deferred-Inv_example =
    finalize_deferred-Inv head_event deploy_decision "digest" deferred_db routed_db true
      deferred_db-Inv routed_ok

poll_one-Inv_example : Inv completed_db
poll_one-Inv_example =
    poll_one-Inv one_field token_of to_nothing 10 no_history 30 due_work polled_db polled_db-Inv
      refl due_work-IsUnmoved false completed_db completed_ok

poll_outcome-IsSchedule_example :
    IsSchedule due_work 30 (poll_outcome one_field token_of target_changed 10 none due_work 30)
poll_outcome-IsSchedule_example =
    poll_outcome-IsSchedule one_field token_of target_changed 10 none due_work 30 refl

find_deployment_after_binds_example :
    (candidates : List Deployment) × BeforeCursor "old" listed candidates
    × IsOnly (λ x. deployment_matches_attempt one_field x "attempt_id=12") new_deployment candidates
find_deployment_after_binds_example =
    find_deployment_after_binds one_field "attempt_id=12" "compose" "old" listed new_deployment
      found_after

execute-IsPermitted_example :
    IsPermitted State.idle (λ c. compatible dokploy_target) 11 12 Operation.retry failed_db
execute-IsPermitted_example =
    execute-IsPermitted one_field token_of State.idle (λ c. compatible dokploy_target) none 11 12
      retry_request failed_db retry_created

execute_direct_unavailable_example :
    (operation_allowed unknown_attempt Operation.retry ≡ true)
    × (execute one_field token_of State.idle
          (λ c. compatible http_target)
          none
          11
          12
          retry_request
          unknown_db
        ≡ refused (some 12) reconciliation_unavailable unknown_db)
execute_direct_unavailable_example =
    execute_direct_unavailable one_field token_of State.idle (λ c. compatible http_target) none 11
      retry_request unknown_db unknown_attempt http_target refl unknown_current refl refl refl refl
      refl

Reach-IsCoherent_example :
    IsCoherent as_digest 0 true
      (set_draining (finish_reload as_digest (loaded "new") (some 2) 5 validating_manager).1)
Reach-IsCoherent_example = Reach-IsCoherent as_digest drained_early

Step-Swaps_example : Swaps as_digest (some 0) validating_manager applied_manager
Step-Swaps_example =
    Step-Swaps as_digest validating_manager applied_manager
      (finished (loaded "new") (some 0) 5 applied_ok)

ingest-Inv_example : Inv pushed_db
ingest-Inv_example =
    ingest-Inv sample_codec push_command empty_db first_result pushed_db empty_db-Inv pushed_ok

overlaps_iff_example : (overlaps any_push main_push ≡ true) ↔ (
    (e : CanonicalEvent) × (route_matches any_push e ≡ true) × (route_matches main_push e ≡ true))
overlaps_iff_example = overlaps_iff any_push main_push

first_canonical_first_example :
    (before : List Route) × (after : List Route) × (push_routes ≡ before ++ push_route ∷ after)
    × All (λ b. route_matches b.matching push_event ≡ false) before
    × (route_matches push_route.matching push_event ≡ true)
first_canonical_first_example =
    first_canonical_first push_routes push_event push_route push_route_chosen

mask-hides_example : redacted ≡ redacted
mask-hides_example =
    mask-hides same_key str_eq secret_document [] "token" redacted secret_masked secret_held

json_with_secret_bounded_example :
    length
      (json_with_secret same_key str_eq as_text keep_bytes no_json no_bytes (1 ∷ 2 ∷ 3 ∷ []) "" 2).0
    ≤ 2
json_with_secret_bounded_example =
    json_with_secret_bounded same_key str_eq as_text keep_bytes no_json no_bytes (1 ∷ 2 ∷ 3 ∷ []) ""
      2

transition_attempt_once_example :
    transition_attempt 12 (enqueued_outcome none none 9 20 100) ended_db ≡ err attempt_not_sending
transition_attempt_once_example =
    transition_attempt_once claimed_db ended_db 12 (failed_outcome none none 9)
      (enqueued_outcome none none 9 20 100) claimed_db-Inv refl refl ended_ok

apply_manual_update_once_example :
    apply_manual_update manual_retry retried_db ≡ err current_attempt_changed
apply_manual_update_once_example =
    apply_manual_update_once manual_retry manual_retry failed_db retried_db (new_uuid failed_db)
      refl refl refl retried_ok

next_pause-bounded_example :
    (100 ≤ (next_pause true false 4000).retry)
    × ((next_pause true false 4000).retry ≤ 5000)
    × ((next_pause true false 4000).wait ≤ 5000)
next_pause-bounded_example = next_pause-bounded true false 4000 (ground arith) (ground arith)

prune_keeps_unfinished_example :
    IsKept (aged_event 10 7) aged_db (prune (λ gs. gs) (λ g. none) 1 0 aged_db).1
prune_keeps_unfinished_example =
    prune_keeps_unfinished (λ gs. gs) (λ g. none) 1 0 aged_db (aged_event 10 7) aged_db-IsKeyed
      pushed_there waits_still

terminate_incompatible_active-Inv_example : Inv terminated_db
terminate_incompatible_active-Inv_example =
    terminate_incompatible_active-Inv (binding_of sent_row) "target_changed" 15 claimed_db
      terminated_db claimed_db-Inv terminated_ok

recover_interrupted_finishes_example :
    (changes : List StatusChange) × (db' : Db) × (recover_interrupted 20 slow_schedule
        (λ t. none)
        claimed_db
      ≡ ok (changes, db'))
    × Inv db'
    × ((s : Row) → In s (rows db') → is_sending s.attempt.transport_status ≡ false)
recover_interrupted_finishes_example =
    recover_interrupted_finishes 20 slow_schedule (λ t. none) claimed_db claimed_db-Inv
