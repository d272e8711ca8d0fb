-- ===== src/Rollout/Promote.antt =====
-- Promotion and rollback, rollout/sync.go. Of a run or an experiment the model keeps its phase.
-- Events, ping-pong services, the duration metrics and the scaling of a referenced Deployment are
-- left out.
pub mod Safety
use argo_rollouts.Common.{
  ◌≡◌, ℕ, zero, suc, ltb, eqb, String, Bool, true, false, not, ◌&&◌, ◌||◌, Option, none, some, List,
  [], ◌∷◌, ◌++◌, if◌then◌else◌, is_some, is_none, length, ◌==◌,
}
use argo_rollouts.Common.Int.{ℤ, pos, ltb_ℤ, eqb_ℤ, ◌+ℤ◌, int32}
use argo_rollouts.Float.{Float64}
use argo_rollouts.Api.Analysis.{AnalysisPhase, successful, same_phase}
use argo_rollouts.Api.Rollout.{
  Rollout, RolloutStatus, RolloutSpec, ReplicaSet, CanaryStrategy, BlueGreenStrategy,
}
use argo_rollouts.Defaults.{get_replicas_or_default}
use argo_rollouts.ReplicaSet.Steps.{get_current_canary_step, steps_of, reset_current_step_index}
use argo_rollouts.ReplicaSet.TrafficRouted.{replica_progress_threshold_met}
use argo_rollouts.Rollout.Pause.{PauseContext, is_aborted, clear_pause_conditions, remove_abort}

-- What `rolloutContext` holds for one reconciliation. `targets_verified` and `template_or_steps_changed`
-- are the results of `areTargetsVerified` and `PodTemplateOrStepsChanged`, which compare with the
-- load balancer and with hashes; `new_rs_is_active` is the one of `IsActive`, which asks Kubernetes'
-- controller package.
pub record Context : Type 0 where
  pub rollout : Rollout
  pub new_rs : Option ReplicaSet
  pub stable_rs : Option ReplicaSet
  pub other_rss : List (Option ReplicaSet)
  pub all_rss : List ReplicaSet
  pub new_rs_within_delay : Bool
  pub new_rs_is_active : Bool
  pub pause_context : PauseContext
  pub step_analysis : Option AnalysisPhase
  pub post_promotion_analysis : Option AnalysisPhase
  pub experiment : Option AnalysisPhase
  pub step_plugin_completed : Bool
  pub targets_verified : Bool
  pub template_or_steps_changed : Bool

-- `isRollback` and what it builds on, for a new and a stable ReplicaSet.
abbrev rollback_to_stable : Context → ReplicaSet → Bool
rollback_to_stable c new = c.rollout.status.stable_rs == new.pod_template_hash

unfoldable pub is_rollback : Context → Bool
is_rollback c = elim c.new_rs [
  | none ↦ false
  | some new ↦ elim c.stable_rs [
    | none ↦ false
    | some stable ↦
        rollback_to_stable c new || ltb_ℤ new.creation_timestamp stable.creation_timestamp
  ]
]

-- The ReplicaSets strictly between the new and the stable one, experiments left out.
unfoldable pub window_size : ReplicaSet → ReplicaSet → List ReplicaSet → ℕ
window_size new stable [] = 0
window_size new stable (rs ∷ rss) =
    let rest = window_size new stable rss in
    if rs.of_experiment
    then rest
    else if ltb_ℤ rs.creation_timestamp stable.creation_timestamp
        && ltb_ℤ new.creation_timestamp rs.creation_timestamp
    then suc rest
    else rest

unfoldable pub is_rollback_within_window : Context → Bool
is_rollback_within_window c = elim c.new_rs [
  | none ↦ false
  | some new ↦ elim c.stable_rs [
    | none ↦ false
    | some stable ↦
        ltb_ℤ new.creation_timestamp stable.creation_timestamp
        && elim c.rollout.spec.rollback_window [
          | none ↦ false
          | some revisions ↦
              ltb_ℤ (pos 0) revisions && ltb_ℤ (pos (window_size new stable c.all_rss)) revisions
        ]
  ]
]

new_is_stable : Context → Bool
new_is_stable c = elim c.new_rs [ none ↦ false | some new ↦ rollback_to_stable c new ]

unfoldable pub is_fast_rollback : Context → Bool
unfolding new_is_stable
is_fast_rollback c =
    is_rollback c
    && (is_rollback_within_window c
        || (c.new_rs_within_delay && is_some c.rollout.spec.blue_green)
        || new_is_stable c)

pub data PromoteReason : Type 0 where
  initial_deploy full_promotion_requested rollback_within_window fast_rollback : PromoteReason
  completed_blue_green_update : PromoteReason
  completed_all_canary_steps : ℕ → PromoteReason

abbrev is_step_count : ℕ → Option ℕ → Bool
is_step_count n none = false
is_step_count n (some i) = eqb i n

-- The index after the last step, or no steps at all.
unfoldable pub completed_all_steps : Rollout → Bool
completed_all_steps ro =
    eqb (length (steps_of ro)) 0
    || is_step_count (length (steps_of ro)) (get_current_canary_step ro).1

fast_rollback_reason : Context → Option PromoteReason → Option PromoteReason
fast_rollback_reason c otherwise =
    if is_fast_rollback c
    then (if is_rollback_within_window c then some rollback_within_window else some fast_rollback)
    else otherwise

unfoldable pub phase_is_successful : Option AnalysisPhase → Bool
phase_is_successful none = false
phase_is_successful (some p) = same_phase p successful

module _ (f : Float64) where
  -- Whether the new ReplicaSet has the pods that a promotion of the canary asks for.
  unfoldable pub canary_available : Context → CanaryStrategy → Bool
  canary_available c canary = elim c.new_rs [
    | none ↦ false
    | some new ↦ not (
        ltb_ℤ new.available_replicas (get_replicas_or_default c.rollout.spec.replicas)
        && not (
            replica_progress_threshold_met f canary.replica_progress_threshold (some new)
              (get_replicas_or_default c.rollout.spec.replicas)))
  ]

  should_promote_canary : Context → CanaryStrategy → Option PromoteReason
  unfolding fast_rollback_reason
  should_promote_canary c canary =
      if is_aborted c.pause_context
      then none
      else if not (canary_available c canary)
      then none
      else if c.rollout.status.promote_full
      then some full_promotion_requested
      else fast_rollback_reason c (
          if completed_all_steps c.rollout
          then some (completed_all_canary_steps (length (steps_of c.rollout)))
          else none)

  should_promote_blue_green : Context → BlueGreenStrategy → RolloutStatus → Option PromoteReason
  unfolding fast_rollback_reason phase_is_successful
  should_promote_blue_green c b new =
      if new.active_selector == ""
      then some initial_deploy
      else if not (new.active_selector == new.current_pod_hash)
      then none
      else if not c.targets_verified
      then none
      else if c.rollout.status.promote_full
      then some full_promotion_requested
      else fast_rollback_reason c (
          if is_aborted c.pause_context
          then none
          else if b.post_promotion_analysis && not (phase_is_successful c.post_promotion_analysis)
          then none
          else some completed_blue_green_update)

  -- Why the rollout should be promoted in full; none if it is in the middle of an update.
  unfoldable pub should_full_promote : Context → RolloutStatus → Option PromoteReason
  unfolding should_promote_canary should_promote_blue_green
  should_full_promote c new = elim c.stable_rs [
    | none ↦ some initial_deploy
    | some _ ↦ elim c.rollout.spec.canary [
      | some canary ↦ should_promote_canary c canary
      | none ↦ elim c.rollout.spec.blue_green [
        | none ↦ none
        | some b ↦ should_promote_blue_green c b new
      ]
    ]
  ]

promoted_index : Rollout → Option ℕ → Option ℕ
promoted_index ro index = elim ro.spec.canary [
  | none ↦ index
  | some canary ↦ elim canary.steps [ [] ↦ none | s ∷ ss ↦ some (length canary.steps) ]
]

-- The pause context and the new status once the current ReplicaSet is promoted.
unfoldable pub promote_stable : Context → RolloutStatus → PauseContext × RolloutStatus
unfolding promoted_index
promote_stable c new = (
  remove_abort (clear_pause_conditions c.pause_context),
  record new {
    promote_full = false;
    scale_up_preview_check_point = false;
    current_step_index = promoted_index c.rollout new.current_step_index;
    stable_rs = new.current_pod_hash;
  },
)

-- As at the beginning of an update.
unfoldable pub reset_rollout_status : Context → RolloutStatus → PauseContext × RolloutStatus
reset_rollout_status c new = (
  remove_abort (clear_pause_conditions c.pause_context),
  record new {
    promote_full = false;
    scale_up_preview_check_point = false;
    current_step_index = reset_current_step_index c.rollout;
  },
)
