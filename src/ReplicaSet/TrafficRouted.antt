-- ===== src/ReplicaSet/TrafficRouted.antt =====
-- `CalculateReplicaCountsForTrafficRoutedCanary` and its helpers, utils/replicaset/canary.go.
pub mod Capacity
use argo_rollouts.Common.{Bool, ◌&&◌, ◌||◌, Option, none, some, List, if◌then◌else◌}
use argo_rollouts.Common.Int.{ℤ, pos, ◌-ℤ◌, ltb_ℤ, leb_ℤ, eqb_ℤ, int32}
use argo_rollouts.Float.{Float64}
use argo_rollouts.Api.IntStr.{IntStr}
use argo_rollouts.Api.Rollout.{
  Rollout, ReplicaSet, TrafficWeights, ReplicaProgressThreshold, percentage, pod,
}
use argo_rollouts.Defaults.{get_replicas_or_default, max_traffic_weight}
use argo_rollouts.ReplicaSet.Counts.{
  max, all_desired_are_available, all_desired_are_created,
  get_available_replica_count_for_replica_sets,
}
use argo_rollouts.ReplicaSet.Steps.{is_traffic_routed}
use argo_rollouts.ReplicaSet.Weight.{
  is_dynamic, traffic_weight_to_replicas, get_canary_replicas_or_weight,
}
use argo_rollouts.ReplicaSet.Basic.{Plan, calculate_replica_counts_for_basic_canary}

-- The minimum that the strategy sets, capped by the rollout's replicas, if traffic is routed.
abbrev min_pods : Rollout → Option ℤ
min_pods ro = elim ro.spec.canary [
  | none ↦ none
  | some c ↦ elim c.traffic_routing [ none ↦ none | some _ ↦ c.min_pods_per_replica_set ]
]

abbrev cap : ℤ → ℤ → ℤ
cap limit n = if ltb_ℤ limit n then limit else n

unfoldable pub check_min_pods_per_replica_set : Rollout → ℤ → ℤ
check_min_pods_per_replica_set ro count =
    if eqb_ℤ count (pos 0) then count else elim (min_pods ro) [
      | none ↦ count
      | some n ↦ max count (cap (get_replicas_or_default ro.spec.replicas) n)
    ]

module _ (f : Float64) where
  open f use {of_int, times, over, minus, abs, is_le, epsilon}

  -- The canary count, before the actual weights are looked at.
  unfoldable pub canary_count : Rollout → Option ReplicaSet → Option ReplicaSet → ℤ
  canary_count ro new_rs stable_rs =
      let (set_scale, weight) = get_canary_replicas_or_weight f ro new_rs stable_rs in
      elim set_scale [
        | some n ↦ n
        | none ↦ check_min_pods_per_replica_set ro (
            traffic_weight_to_replicas f (get_replicas_or_default ro.spec.replicas) weight
              (max_traffic_weight ro))
      ]

  -- The two counts with a dynamically scaled stable: the higher of what the desired and what the
  -- actual weights need; the canary's actual weight counts on abort only.
  unfoldable pub dynamic_counts :
      Rollout → Option ReplicaSet → Option ReplicaSet → Option TrafficWeights → Plan
  dynamic_counts ro new_rs stable_rs weights =
      let spec = get_replicas_or_default ro.spec.replicas in
      let top = max_traffic_weight ro in
      let (_, weight) = get_canary_replicas_or_weight f ro new_rs stable_rs in
      let canary = canary_count ro new_rs stable_rs in
      let stable = traffic_weight_to_replicas f spec (int32 (top -ℤ weight)) top in
      elim weights [
        | none ↦ record { new = canary; stable = stable }
        | some w ↦ record {
          new =
              if ro.status.abort
              then max (traffic_weight_to_replicas f spec w.canary.weight top) canary
              else canary;
          stable = max stable (traffic_weight_to_replicas f spec w.stable.weight top);
        }
      ]

  unfoldable pub calculate_replica_counts_for_traffic_routed_canary :
      Rollout → Option ReplicaSet → Option ReplicaSet → Option TrafficWeights → Plan
  calculate_replica_counts_for_traffic_routed_canary ro new_rs stable_rs weights =
      let plan = dynamic_counts ro new_rs stable_rs weights in
      if is_dynamic ro
      then record {
        new = check_min_pods_per_replica_set ro plan.new;
        stable = check_min_pods_per_replica_set ro plan.stable;
      }
      else record {
        new = canary_count ro new_rs stable_rs;
        stable = get_replicas_or_default ro.spec.replicas;
      }

  -- `float64(available) / float64(desired) * 100`
  abbrev current_percentage : ReplicaSet → ℤ → f.Float
  current_percentage rs desired =
      times (over (of_int rs.available_replicas) (of_int desired)) (of_int (pos 100))

  threshold_met : ReplicaProgressThreshold → ReplicaSet → ℤ → Bool
  threshold_met threshold rs desired = elim threshold.type [
    | percentage ↦
        eqb_ℤ desired (pos 0)
        || (is_le (of_int threshold.value) (current_percentage rs desired)
            || is_le (abs (minus (current_percentage rs desired) (of_int threshold.value))) epsilon)
    | pod ↦ leb_ℤ threshold.value rs.available_replicas
  ]

  unfoldable pub replica_progress_threshold_met :
      Option ReplicaProgressThreshold → Option ReplicaSet → ℤ → Bool
  unfolding threshold_met
  replica_progress_threshold_met none rs desired = all_desired_are_available rs desired
  replica_progress_threshold_met (some threshold) none desired =
      all_desired_are_available none desired
  replica_progress_threshold_met (some threshold) (some rs) desired =
      if ltb_ℤ threshold.value (pos 0)
      then all_desired_are_available (some rs) desired
      else threshold_met threshold rs desired

  abbrev pub progress_threshold : Rollout → Option ReplicaProgressThreshold
  progress_threshold ro = elim ro.spec.canary [
    | none ↦ none
    | some c ↦ c.replica_progress_threshold
  ]

  module _ (lib : IntStr) where
    unfoldable pub at_desired_replica_counts_for_canary :
        Rollout
        → Option ReplicaSet
        → Option ReplicaSet
        → List (Option ReplicaSet)
        → Option TrafficWeights
        → Bool
    at_desired_replica_counts_for_canary ro new_rs stable_rs older_rss weights =
        let desired =
          if is_traffic_routed ro
          then calculate_replica_counts_for_traffic_routed_canary ro new_rs stable_rs weights
          else calculate_replica_counts_for_basic_canary f lib ro new_rs stable_rs older_rss in
        replica_progress_threshold_met (progress_threshold ro) new_rs desired.new
        && ((is_traffic_routed ro && is_dynamic ro)
            || all_desired_are_created stable_rs desired.stable)
        && (is_traffic_routed ro
            || eqb_ℤ (get_available_replica_count_for_replica_sets older_rss) (pos 0))
