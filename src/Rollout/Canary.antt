-- ===== src/Rollout/Canary.antt =====
-- The canary's steps, rollout/canary.go: pausing, completing a step, and the status that a
-- reconciliation writes. `persistRolloutStatus` is modelled by the pause status that it calculates.
pub mod Index
use argo_rollouts.Common.{
  ◌≡◌, ℕ, zero, suc, ltb, leb, String, Bool, true, false, not, ◌&&◌, ◌||◌, Option, none, some, List,
  [], ◌∷◌, if◌then◌else◌, is_some, is_none, length, ◌==◌,
}
use argo_rollouts.Common.Int.{ℤ}
use argo_rollouts.Float.{Float64}
use argo_rollouts.Api.IntStr.{IntStr}
use argo_rollouts.Api.Analysis.{AnalysisPhase, successful, same_phase}
use argo_rollouts.Api.Rollout.{
  Rollout, RolloutStatus, RolloutSpec, ReplicaSet, CanaryStep, TrafficWeights, RolloutPause,
  canary_pause_step,
}
use argo_rollouts.ReplicaSet.Steps.{get_current_canary_step, steps_of}
use argo_rollouts.ReplicaSet.TrafficRouted.{at_desired_replica_counts_for_canary}
use argo_rollouts.Rollout.Pause.{
  PauseContext, is_aborted, clear_pause_conditions, remove_abort, add_pause_condition,
  remove_pause_condition, get_pause_condition, completed_canary_pause_step, calculate_pause_status,
}
use argo_rollouts.Rollout.Promote.{
  Context, should_full_promote, promote_stable, reset_rollout_status, is_rollback_within_window,
}

pause_at : Context → RolloutPause → PauseContext × Bool
pause_at c pause = elim (get_pause_condition c.rollout canary_pause_step) [
  | some _ ↦ (c.pause_context, true)
  | none ↦
      if c.rollout.status.controller_pause
      then (c.pause_context, true)
      else (add_pause_condition canary_pause_step c.pause_context, true)
]

-- The pause context, and whether the rollout is at a pause step. The work queue is left out.
unfoldable pub reconcile_canary_pause : Context → PauseContext × Bool
unfolding pause_at
reconcile_canary_pause c =
    if c.rollout.spec.paused || c.rollout.status.promote_full
    then (c.pause_context, false)
    else elim (get_current_canary_step c.rollout).0 [
      | none ↦ (c.pause_context, false)
      | some s ↦ elim s.pause [ none ↦ (c.pause_context, false) | some p ↦ pause_at c p ]
    ]

is_unverified : Option TrafficWeights → Bool
is_unverified none = false
is_unverified (some w) = elim w.verified [ none ↦ false | some v ↦ not v ]

ended_well : Option AnalysisPhase → Bool
ended_well none = false
ended_well (some p) = same_phase p successful

module _ (f : Float64) (lib : IntStr) (now : ℤ) where
  abbrev at_desired : Context → Option TrafficWeights → Bool
  at_desired c weights =
      at_desired_replica_counts_for_canary f lib c.rollout c.new_rs c.stable_rs c.other_rss weights

  -- The cases of the source's `switch`, in its order.
  step_completed : Context → Option TrafficWeights → CanaryStep → Bool
  unfolding is_unverified ended_well
  step_completed c weights s = elim s.pause [
    | some p ↦ completed_canary_pause_step now c.pause_context p
    | none ↦ elim s.set_canary_scale [
      | some _ ↦ at_desired c weights
      | none ↦ elim s.set_weight [
        | some _ ↦ at_desired c weights && not (is_unverified weights)
        | none ↦
            if s.experiment
            then ended_well c.experiment
            else if s.analysis
            then ended_well c.step_analysis
            else if s.set_header_route
            then true
            else if s.set_mirror_route
            then true
            else s.plugin && c.step_plugin_completed
      ]
    ]
  ]

  unfoldable pub completed_current_canary_step : Context → Option TrafficWeights → Bool
  unfolding step_completed
  completed_current_canary_step c weights =
      if c.rollout.spec.paused then false else elim (get_current_canary_step c.rollout).0 [
        | none ↦ false
        | some s ↦ step_completed c weights s
      ]

  abbrev last_index : Context → Option ℕ
  last_index c = some (length (steps_of c.rollout))

  abbrev has_steps : Context → Bool
  has_steps c = leb 1 (length (steps_of c.rollout))

  -- The index after a change of the pod template or the steps.
  changed_index : Context → Option ℕ → Option ℕ
  changed_index c index = elim c.new_rs [
    | none ↦ index
    | some new ↦
        if has_steps c
          && ((c.rollout.status.stable_rs == new.pod_template_hash)
              || (is_rollback_within_window c && c.new_rs_is_active))
        then last_index c
        else index
  ]

  after_change : Context → RolloutStatus → PauseContext × RolloutStatus
  unfolding changed_index
  after_change c new =
      let (p, status) = reset_rollout_status c new in
      (p, record status { current_step_index = changed_index c status.current_step_index })

  -- Whether the steps are skipped: on a full promotion and on a rollback within the window.
  abbrev pub skips_steps : Context → Bool
  skips_steps c = c.rollout.status.promote_full || is_rollback_within_window c

  unfoldable pub skip : Context → Context
  skip c =
      if skips_steps c
      then record c { pause_context = remove_abort (clear_pause_conditions c.pause_context) }
      else c

  -- The local variable `currentStepIndex` after that.
  unfoldable pub index_to_go_on : Context → Option ℕ
  index_to_go_on c =
      if skips_steps c && has_steps c then last_index c else (get_current_canary_step c.rollout).1

  aborted_index : Context → RolloutStatus → Option ℕ
  aborted_index c new =
      if has_steps c
      then (if new.stable_rs == new.current_pod_hash then last_index c else some 0)
      else new.current_step_index

  abbrev pub incremented : Option ℕ → Option ℕ
  incremented none = none
  incremented (some i) = some (suc i)

  -- The next step if the current one is completed.
  advance : Context → RolloutStatus → Option ℕ → PauseContext × RolloutStatus
  advance c new index =
      if completed_current_canary_step c new.weights
      then (
        remove_pause_condition canary_pause_step c.pause_context,
        record new { current_step_index = incremented index },
      )
      else (c.pause_context, record new { current_step_index = index })

  update_canary_status : Context → RolloutStatus → PauseContext × RolloutStatus
  unfolding after_change aborted_index advance
  update_canary_status c new =
      if c.template_or_steps_changed
      then after_change c new
      else elim (should_full_promote f (skip c) new) [
        | some _ ↦ promote_stable (skip c) new
        | none ↦
            if is_aborted (skip c).pause_context
            then ((skip c).pause_context, record new { current_step_index = aborted_index c new })
            else advance (skip c) new (index_to_go_on c)
      ]

  -- From the base status to the status that is stored.
  unfoldable pub sync_rollout_status_canary : Context → RolloutStatus → RolloutStatus
  unfolding update_canary_status
  sync_rollout_status_canary c base =
      let (p, new) =
        update_canary_status c (record base { stable_rs = c.rollout.status.stable_rs }) in
      calculate_pause_status now p new
