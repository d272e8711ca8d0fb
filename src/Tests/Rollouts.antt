-- ===== src/Tests/Rollouts.antt =====
-- A rollout in the middle of an update.
use argo_rollouts.Common.{
  ◌≡◌, ◌≢◌, ◌<◌, refl, ap, length, ◌⊎◌, ◌==◌, true, false, none, some, [], ◌∷◌, arith, is_some,
}
use argo_rollouts.Common.Int.{pos, ◌≤ℤ◌}
use argo_rollouts.Float.{fractions}
use argo_rollouts.Api.IntStr.{numbers_only}
use argo_rollouts.Api.Rollout.{Rollout, ReplicaSet, PauseCondition, canary_pause_step}
use argo_rollouts.Defaults.{get_replicas_or_default}
use argo_rollouts.ReplicaSet.Counts.{all_desired_are_available}
use argo_rollouts.ReplicaSet.Steps.{get_current_canary_step, steps_of}
use argo_rollouts.ReplicaSet.TrafficRouted.{replica_progress_threshold_met}
use argo_rollouts.Rollout.Pause.{
  PauseContext, is_aborted, calculate_pause_status, find_condition, has_reason, is_empty,
}
use argo_rollouts.Rollout.Pause.Conditions.{abort_status-agrees, pause_start-kept}
use argo_rollouts.Rollout.Promote.{
  Context, should_full_promote, canary_available, is_fast_rollback, completed_all_steps,
  is_rollback, is_rollback_within_window, phase_is_successful,
}
use argo_rollouts.Rollout.Promote.Safety.{canary_promoted-guarded, blue_green_promoted-guarded}
use argo_rollouts.Rollout.Canary.{skip, completed_current_canary_step, sync_rollout_status_canary}
use argo_rollouts.Rollout.Canary.Index.{
  step_index-advances, step_index-Within, skipped_step-overshoots, Within,
}
use argo_rollouts.Tests.Fixtures.{
  canary_rollout, canary_of, blue_green_rollout, blue_green, header_step, in_update, rs_of,
  pauses_of, context_of,
}

abbrev at_step : PauseCondition
at_step = record { reason = canary_pause_step; start_time = pos 100 }

abbrev paused : PauseContext
paused = pauses_of (
    canary_rollout (header_step ∷ [])
      (record in_update { pause_conditions = at_step ∷ []; controller_pause = true }))

abort_status-agrees_example :
    ((calculate_pause_status (pos 7) paused in_update).abort ≡ is_aborted paused)
    × (is_some (calculate_pause_status (pos 7) paused in_update).aborted_at ≡ is_aborted paused)
abort_status-agrees_example = abort_status-agrees (pos 7) paused in_update refl

pause_start-kept_example :
    find_condition
      (calculate_pause_status (pos 7) paused in_update).pause_conditions
      canary_pause_step
    ≡ some at_step
unfolding find_condition has_reason
pause_start-kept_example =
    pause_start-kept (pos 7) paused in_update canary_pause_step at_step refl refl refl refl

-- The new ReplicaSet is available, and all steps are done.
abbrev last : Context
last =
    context_of (canary_rollout [] in_update) (rs_of "new" (pos 10) (pos 2))
      (rs_of "stable" (pos 0) (pos 1))

canary_promoted-guarded_example :
    (is_aborted last.pause_context ≡ false)
    × ((rs : ReplicaSet) × (last.new_rs ≡ some rs)
        × ((get_replicas_or_default last.rollout.spec.replicas ≤ℤ rs.available_replicas)
            ⊎ (replica_progress_threshold_met fractions
                  (canary_of []).replica_progress_threshold
                  (some rs)
                  (get_replicas_or_default last.rollout.spec.replicas)
                ≡ true)))
    × ((last.rollout.status.promote_full ≡ true)
        ⊎ (is_fast_rollback last ≡ true)
        ⊎ (completed_all_steps last.rollout ≡ true))
unfolding should_full_promote is_aborted canary_available get_replicas_or_default is_fast_rollback
    is_rollback is_rollback_within_window completed_all_steps get_current_canary_step
canary_promoted-guarded_example =
    canary_promoted-guarded fractions last in_update (rs_of "stable" (pos 0) (pos 1)) (canary_of [])
      refl refl refl

abbrev switched : Context
switched =
    context_of (blue_green_rollout in_update) (rs_of "new" (pos 10) (pos 2))
      (rs_of "stable" (pos 10) (pos 1))

blue_green_promoted-guarded_example :
    ((in_update.active_selector == in_update.current_pod_hash) ≡ true)
    × (switched.targets_verified ≡ true)
    × ((switched.rollout.status.promote_full ≡ true)
        ⊎ (is_fast_rollback switched ≡ true)
        ⊎ ((is_aborted switched.pause_context ≡ false)
            × ((blue_green.post_promotion_analysis ≡ false)
                ⊎ (phase_is_successful switched.post_promotion_analysis ≡ true))))
unfolding should_full_promote is_aborted is_fast_rollback is_rollback is_rollback_within_window
blue_green_promoted-guarded_example =
    blue_green_promoted-guarded fractions switched in_update (rs_of "stable" (pos 10) (pos 1))
      blue_green refl refl refl refl refl

-- The new ReplicaSet still has no pods.
abbrev started : Rollout → Context
started ro = context_of ro (rs_of "new" (pos 0) (pos 2)) (rs_of "stable" (pos 10) (pos 1))

abbrev stepping : Context
stepping = started (canary_rollout (header_step ∷ []) in_update)

one_step : steps_of stepping.rollout ≢ []
one_step = λ e. let e' = ap is_empty e in ground arith

step_index-advances_example :
    let next =
      (sync_rollout_status_canary fractions numbers_only
        (pos 7)
        stepping
        in_update).current_step_index in
    let done =
      completed_current_canary_step fractions numbers_only
        (pos 7)
        (skip fractions numbers_only (pos 7) stepping)
        none in
    ((done ≡ true) × (0 < length (steps_of stepping.rollout)) × (next ≡ some 1))
    ⊎ ((done ≡ false) × (next ≡ some 0))
unfolding should_full_promote is_aborted canary_available get_replicas_or_default skip
    is_rollback_within_window replica_progress_threshold_met all_desired_are_available
step_index-advances_example =
    step_index-advances fractions numbers_only (pos 7) stepping in_update 0 refl refl refl refl
      one_step refl

step_index-Within_example :
    Within 1
      (sync_rollout_status_canary fractions numbers_only
        (pos 7)
        stepping
        in_update).current_step_index
unfolding should_full_promote is_aborted canary_available get_replicas_or_default skip
    is_rollback_within_window replica_progress_threshold_met all_desired_are_available
    get_current_canary_step
step_index-Within_example =
    step_index-Within fractions numbers_only (pos 7) stepping in_update refl refl refl refl
      (omega arith)

-- The same with a full promotion requested: the header step counts as completed.
abbrev requested : Context
requested = started (canary_rollout (header_step ∷ []) (record in_update { promote_full = true }))

skipped_step-overshoots_example :
    (sync_rollout_status_canary fractions numbers_only
      (pos 7)
      requested
      in_update).current_step_index
    ≡ some 2
unfolding should_full_promote is_aborted canary_available get_replicas_or_default skip
    is_rollback_within_window replica_progress_threshold_met all_desired_are_available
    get_current_canary_step completed_current_canary_step
skipped_step-overshoots_example =
    skipped_step-overshoots fractions numbers_only (pos 7) requested in_update refl refl refl refl
      refl
