-- ===== src/Tests/Replicas.antt =====
-- The replica arithmetic on ten replicas.
use argo_rollouts.Common.{◌≡◌, refl, ◌⊎◌, true, some, [], ◌∷◌, arith, false, none}
use argo_rollouts.Common.Int.{pos, ◌+ℤ◌, ◌≤ℤ◌, int32, ◌-ℤ◌}
use argo_rollouts.Float.{fractions}
use argo_rollouts.Api.IntStr.{numbers_only}
use argo_rollouts.Defaults.{
  get_replicas_or_default, max_traffic_weight, get_max_surge_or_default,
  get_max_unavailable_or_default,
}
use argo_rollouts.ReplicaSet.Counts.{get_replica_count_for_replica_sets, sum_from}
use argo_rollouts.ReplicaSet.Steps.{
  get_current_set_weight, get_current_canary_step, use_set_canary_scale, scan_back,
}
use argo_rollouts.ReplicaSet.Weight.{get_canary_replicas_or_weight, get_desired_canary_weight}
use argo_rollouts.ReplicaSet.Fenceposts.{max_surge, max_unavailable, resolve_fenceposts}
use argo_rollouts.ReplicaSet.Approximate.{
  approximate_weighted_canary_stable_replica_counts, floor_ceiling_tied,
}
use argo_rollouts.ReplicaSet.Approximate.Bounds.{counts_split, Splits}
use argo_rollouts.ReplicaSet.Approximate.Shares.{Shared, approximate-Shared, tied_top_starves}
use argo_rollouts.ReplicaSet.Basic.{all_rss, calculate_replica_counts_for_basic_canary}
use argo_rollouts.ReplicaSet.Basic.Limit.{InBounds, pods_within_limit}
use argo_rollouts.ReplicaSet.TrafficRouted.{
  canary_count, calculate_replica_counts_for_traffic_routed_canary,
}
use argo_rollouts.ReplicaSet.TrafficRouted.Capacity.{needed, traffic_weights-backed}
use argo_rollouts.Api.Rollout.{Rollout, TrafficWeights}
use argo_rollouts.Tests.Fixtures.{canary_of, canary_rollout, weight_step, in_update, rs_of}

counts_split_example : Splits 10 (pos 1) (
    approximate_weighted_canary_stable_replica_counts fractions (pos 10) (pos 20) (pos 100) (pos 1))
counts_split_example =
    counts_split fractions 10 20 100 (omega arith) (omega arith) (omega arith) (omega arith) (pos 1)
      (omega arith) (omega arith)

tied_top_starves_example :
    approximate_weighted_canary_stable_replica_counts fractions (pos 2) (pos 75) (pos 100) (pos 0)
    ≡ (pos 0, pos 2)
unfolding floor_ceiling_tied
tied_top_starves_example =
    tied_top_starves fractions 2 75 100 (pos 0) (omega arith) (omega arith) (omega arith)
      (omega arith) (omega arith) (omega arith) refl refl (omega arith)

approximate-Shared_example :
    let r =
      approximate_weighted_canary_stable_replica_counts fractions
        (pos 10)
        (pos 1)
        (pos 100)
        (pos 0) in
    Shared 10 r
    ⊎ ((floor_ceiling_tied fractions (pos 1) (pos 100) (pos 10) ≡ true)
        × (pos 0 ≡ pos 0)
        × (r ≡ (pos 0, pos 10)))
approximate-Shared_example =
    approximate-Shared fractions 10 1 100 (pos 0) (omega arith) (omega arith) (omega arith)
      (omega arith) (omega arith) (omega arith)

ten-InBounds :
    InBounds fractions numbers_only
      (canary_rollout (weight_step ∷ []) in_update)
      (some (rs_of "new" (pos 0) (pos 2)))
      (some (rs_of "stable" (pos 10) (pos 1)))
      []
unfolding get_replicas_or_default get_canary_replicas_or_weight get_desired_canary_weight
    max_traffic_weight get_replica_count_for_replica_sets sum_from get_current_set_weight
    get_current_canary_step max_surge max_unavailable resolve_fenceposts int32 use_set_canary_scale
    get_max_surge_or_default get_max_unavailable_or_default scan_back ◌+ℤ◌
ten-InBounds = record {
  new_sized = (omega arith, omega arith);
  stable_sized = (omega arith, omega arith);
  old_tiny = (omega arith, omega arith);
  spec = 10;
  weight = 20;
  top = 100;
  spec_eq = refl;
  weight_eq = refl;
  top_eq = refl;
  spec_modest = omega arith;
  weight_in_range = omega arith;
  top_positive = omega arith;
  product_in_range = omega arith;
  surge_modest = (omega arith, omega arith);
  unavailable_modest = (omega arith, omega arith);
}

pods_within_limit_example :
    let new_rs = some (rs_of "new" (pos 0) (pos 2)) in
    let stable_rs = some (rs_of "stable" (pos 10) (pos 1)) in
    let ro = canary_rollout (weight_step ∷ []) in_update in
    let plan =
      calculate_replica_counts_for_basic_canary fractions numbers_only ro new_rs stable_rs [] in
    (plan.new +ℤ plan.stable +ℤ get_replica_count_for_replica_sets []
      ≤ℤ get_replicas_or_default ro.spec.replicas +ℤ max_surge numbers_only ro)
    ⊎ (plan.new +ℤ plan.stable +ℤ get_replica_count_for_replica_sets []
        ≤ℤ get_replica_count_for_replica_sets (all_rss new_rs stable_rs []))
pods_within_limit_example =
    pods_within_limit fractions numbers_only (canary_rollout (weight_step ∷ []) in_update)
      (some (rs_of "new" (pos 0) (pos 2))) (some (rs_of "stable" (pos 10) (pos 1))) [] ten-InBounds

-- An aborted canary whose stable side scales dynamically.
abbrev dynamic_rollout : Rollout
dynamic_rollout =
    let ro = canary_rollout (weight_step ∷ []) (record in_update { abort = true }) in
    record ro {
      spec = record ro.spec {
        canary = some (record (canary_of (weight_step ∷ [])) {
          dynamic_stable_scale = true;
          traffic_routing = some (record { max_traffic_weight = none });
        });
      };
    }

abbrev halfway : TrafficWeights
halfway = record {
  canary = record { weight = pos 50; service_name = "canary"; pod_template_hash = "new" };
  stable = record { weight = pos 50; service_name = "stable"; pod_template_hash = "stable" };
  additional = [];
  verified = none;
}

traffic_weights-backed_example :
    let new_rs = some (rs_of "new" (pos 5) (pos 2)) in
    let stable_rs = some (rs_of "stable" (pos 5) (pos 1)) in
    let plan =
      calculate_replica_counts_for_traffic_routed_canary fractions dynamic_rollout new_rs stable_rs
        (some halfway) in
    (needed fractions dynamic_rollout new_rs stable_rs halfway (pos 50) ≤ℤ plan.stable)
    × (needed fractions dynamic_rollout new_rs stable_rs halfway (
          int32 (
            max_traffic_weight dynamic_rollout
            -ℤ (get_canary_replicas_or_weight fractions dynamic_rollout new_rs stable_rs).1))
        ≤ℤ plan.stable)
    × (canary_count fractions dynamic_rollout new_rs stable_rs ≤ℤ plan.new)
    × ((true ≡ false)
        ⊎ (needed fractions dynamic_rollout new_rs stable_rs halfway (pos 50) ≤ℤ plan.new))
traffic_weights-backed_example =
    traffic_weights-backed fractions dynamic_rollout (some (rs_of "new" (pos 5) (pos 2)))
      (some (rs_of "stable" (pos 5) (pos 1))) halfway refl
