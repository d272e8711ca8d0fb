-- ===== src/Rollout/BlueGreen.antt =====
-- The blue-green strategy, rollout/bluegreen.go, with `completedPrePromotionAnalysis` and
-- `checkEnqueueRolloutDuringWait` of rollout/pause.go. A Service is the hash that its selector asks for, if
-- any; the new ReplicaSet is always there. Times are in seconds. `pre_promotion` is the phase of the
-- pre-promotion analysis; `pod_spec_changed` the result of `CheckPodSpecChange`, which compares hashes.
pub mod Pauses
use argo_rollouts.Common.{
  String, Bool, true, false, not, ◌&&◌, ◌||◌, Option, none, some, List, [], ◌∷◌, if◌then◌else◌,
  is_some, is_none, map, ◌==◌,
}
use argo_rollouts.Common.Int.{ℤ, pos, ltb_ℤ, eqb_ℤ, ◌+ℤ◌, ◌-ℤ◌}
use argo_rollouts.Float.{Float64}
use argo_rollouts.Api.IntStr.{IntStr}
use argo_rollouts.Api.Analysis.{AnalysisPhase}
use argo_rollouts.Api.Rollout.{
  Rollout, RolloutStatus, ReplicaSet, BlueGreenStrategy, PauseCondition, inconclusive_analysis,
  blue_green_pause,
}
use argo_rollouts.ReplicaSet.Counts.{
  get_actual_replica_count_for_replica_sets, get_available_replica_count_for_replica_sets,
}
use argo_rollouts.ReplicaSet.NewReplicas.{ready_for_pause, get_replica_set_by_template_hash}
use argo_rollouts.Rollout.Pause.{
  PauseContext, get_pause_condition, add_pause_condition, remove_pause_condition,
  clear_pause_conditions, remove_abort, completed_blue_green_pause, calculate_pause_status,
}
use argo_rollouts.Rollout.Promote.{
  Context, is_fast_rollback, is_rollback_within_window, phase_is_successful, should_full_promote,
  promote_stable, reset_rollout_status,
}

-- `haltProgress` of rollout/context.go
unfoldable pub halt_progress : Context → Bool
halt_progress c =
    c.rollout.spec.paused || is_some (get_pause_condition c.rollout inconclusive_analysis)

is_disabled : Option Bool → Bool
is_disabled none = false
is_disabled (some enabled) = not enabled

unfoldable pub needs_blue_green_controller_pause : BlueGreenStrategy → Bool
unfolding is_disabled
needs_blue_green_controller_pause b =
    is_disabled b.auto_promotion_enabled || ltb_ℤ (pos 0) b.auto_promotion_seconds

-- The time to the end of a pause, if it ends before the next resync.
unfoldable pub check_enqueue_rollout_during_wait : ℤ → ℤ → ℤ → ℤ → Option ℤ
check_enqueue_rollout_during_wait now resync start seconds =
    if ltb_ℤ (start +ℤ seconds) (now +ℤ resync) && ltb_ℤ now (start +ℤ seconds)
    then some (start +ℤ seconds -ℤ now)
    else none

-- No pre-promotion analysis, or a successful one.
unfoldable pub completed_pre_promotion_analysis : BlueGreenStrategy → Option AnalysisPhase → Bool
completed_pre_promotion_analysis b pre_promotion =
    not b.pre_promotion_analysis || phase_is_successful pre_promotion

unfoldable pub selects : Option String → ReplicaSet → Bool
selects none rs = false
selects (some hash) rs = hash == rs.pod_template_hash

unfoldable pub is_blue_green_fast_tracked : Context → Option String → ReplicaSet → Bool
unfolding selects
is_blue_green_fast_tracked c active new =
    is_fast_rollback c || c.rollout.status.promote_full || is_none active || selects active new

unfoldable pub label_of : Option String → String
label_of none = ""
label_of (some hash) = hash

module _ (f : Float64) (lib : IntStr) (now resync : ℤ) (pre_promotion : Option AnalysisPhase)
    (b : BlueGreenStrategy) where
  -- The controller's own pause: the pause context, and the delay of the next look.
  unfoldable pub own_pause : Context → PauseContext × Option ℤ
  own_pause c = elim (get_pause_condition c.rollout blue_green_pause) [
    | some condition ↦
        if not (completed_blue_green_pause now c.pause_context b)
        then (
          c.pause_context,
          (if ltb_ℤ (pos 0) b.auto_promotion_seconds
              then check_enqueue_rollout_during_wait now resync condition.start_time
                  b.auto_promotion_seconds
              else none),
        )
        else (remove_pause_condition blue_green_pause c.pause_context, none)
    | none ↦
        if c.rollout.status.controller_pause
        then (c.pause_context, none)
        else (add_pause_condition blue_green_pause c.pause_context, none)
  ]

  unfoldable pub reconcile_blue_green_pause :
      Context → Option String → ReplicaSet → PauseContext × Option ℤ
  unfolding own_pause selects
  reconcile_blue_green_pause c active new =
      let resumed = remove_pause_condition blue_green_pause c.pause_context in
      if c.rollout.status.abort
      then (c.pause_context, none)
      else if not (ready_for_pause f lib c.rollout new c.all_rss)
      then (c.pause_context, none)
      else if halt_progress c
      then (c.pause_context, none)
      else if is_blue_green_fast_tracked c active new
      then (resumed, none)
      else if selects active new
      then (resumed, none)
      else if c.rollout.status.scale_up_preview_check_point
      then (resumed, none)
      else if not (needs_blue_green_controller_pause b)
      then (resumed, none)
      else if not (completed_pre_promotion_analysis b pre_promotion)
      then (c.pause_context, none)
      else own_pause c

  unfoldable pub calculate_scale_up_preview_check_point : Context → Bool
  calculate_scale_up_preview_check_point c = elim b.preview_replica_count [
    | none ↦ false
    | some preview ↦
        if c.rollout.status.scale_up_preview_check_point
        then true
        else if not (completed_pre_promotion_analysis b pre_promotion)
            || not (completed_blue_green_pause now c.pause_context b)
        then false
        else eqb_ℤ preview (get_available_replica_count_for_replica_sets (c.new_rs ∷ []))
  ]

  unfoldable pub with_counts_of : Context → Option ReplicaSet → RolloutStatus → RolloutStatus
  with_counts_of c none new = record new {
    hpa_replicas = get_actual_replica_count_for_replica_sets (map some c.all_rss);
    available_replicas = get_available_replica_count_for_replica_sets (map some c.all_rss);
  }
  with_counts_of c (some active) new = record new {
    hpa_replicas = active.status_replicas;
    available_replicas = active.available_replicas;
    ready_replicas = active.ready_replicas;
  }

  -- The status is reset on a change of the pod template; then a request or a rollback lifts pauses and
  -- an abort.
  unfoldable pub reset_if_changed : Bool → Context → RolloutStatus → PauseContext × RolloutStatus
  reset_if_changed pod_spec_changed c new =
      if pod_spec_changed then reset_rollout_status c new else (c.pause_context, new)

  unfoldable pub lifted : Context → PauseContext → PauseContext
  lifted c p =
      if c.rollout.status.promote_full || is_rollback_within_window c
      then remove_abort (clear_pause_conditions p)
      else p

  unfoldable pub update_blue_green_status :
      Bool → Option String → Option String → Context → RolloutStatus → PauseContext × RolloutStatus
  unfolding reset_if_changed lifted label_of
  update_blue_green_status pod_spec_changed preview active c base =
      let (p, status) = reset_if_changed pod_spec_changed c base in
      let d = record c { pause_context = lifted c p } in
      let new = record status {
        preview_selector = label_of preview;
        active_selector = label_of active;
      } in
      elim (should_full_promote f d new) [
        | some _ ↦ promote_stable d new
        | none ↦ (
          d.pause_context,
          record new { scale_up_preview_check_point = calculate_scale_up_preview_check_point d },
        )
      ]

  -- From the base status to the status that is stored.
  unfoldable pub sync_rollout_status_blue_green :
      Bool → Option String → Option String → Context → RolloutStatus → RolloutStatus
  unfolding with_counts_of
  sync_rollout_status_blue_green pod_spec_changed preview active c base =
      let (p, new) =
        update_blue_green_status pod_spec_changed preview active c
          (record base { stable_rs = c.rollout.status.stable_rs }) in
      calculate_pause_status now p
        (with_counts_of c (get_replica_set_by_template_hash c.all_rss new.active_selector) new)
