-- ===== src/ReplicaSet/Weight.antt =====
-- The weight or the replica count that the canary should have, utils/replicaset/canary.go.
use argo_rollouts.Common.{Bool, false, ◌&&◌, ◌||◌, Option, none, some, if◌then◌else◌, ◌==◌}
use argo_rollouts.Common.Int.{ℤ, pos, ◌-ℤ◌, ltb_ℤ, int32}
use argo_rollouts.Float.{Float64}
use argo_rollouts.Api.Rollout.{Rollout, CanaryStep, ReplicaSet}
use argo_rollouts.Defaults.{
  get_replicas_or_default, has_explicit_abort_scale_down_delay, max_traffic_weight,
}
use argo_rollouts.ReplicaSet.Counts.{max}
use argo_rollouts.ReplicaSet.Steps.{
  steps_of, scan_from_end, get_current_set_weight, use_set_canary_scale,
}

abbrev pub is_dynamic : Rollout → Bool
is_dynamic ro = elim ro.spec.canary [ none ↦ false | some c ↦ c.dynamic_stable_scale ]

abbrev or_nothing : Option ℤ → ℤ
or_nothing none = pos 0
or_nothing (some w) = w

module _ (f : Float64) where
  open f use {of_int, times, over, ceil}

  -- Rounds up if the weight does not divide.
  unfoldable pub traffic_weight_to_replicas : ℤ → ℤ → ℤ → ℤ
  traffic_weight_to_replicas replicas weight max_weight =
      ceil (over (times (of_int weight) (of_int replicas)) (of_int max_weight))

  -- A setWeight step that needs fewer than `canary` replicas.
  unfoldable pub weight_below : ℤ → ℤ → ℤ → CanaryStep → Option ℤ
  weight_below replicas max_weight canary s = elim s.set_weight [
    | none ↦ none
    | some w ↦
        if ltb_ℤ (traffic_weight_to_replicas replicas w max_weight) canary then some w else none
  ]

  -- The replicas that the canary still has to keep while the stable scales back up.
  unfoldable pub canary_replicas_on_abort : Rollout → ReplicaSet → ReplicaSet → ℤ
  canary_replicas_on_abort ro new stable =
      let expected =
        int32 (get_replicas_or_default ro.spec.replicas -ℤ stable.available_replicas) in
      if has_explicit_abort_scale_down_delay ro
      then expected
      else max expected new.available_replicas

  -- The branch for an aborted rollout with a dynamically scaled stable: the steps in reverse.
  unfoldable pub abort_weight : Rollout → ReplicaSet → ReplicaSet → ℤ
  abort_weight ro new stable = or_nothing (
      scan_from_end
        (weight_below (get_replicas_or_default ro.spec.replicas) (max_traffic_weight ro)
          (canary_replicas_on_abort ro new stable))
        (steps_of ro))

  unfoldable pub get_desired_canary_weight : Rollout → Option ReplicaSet → Option ReplicaSet → ℤ
  get_desired_canary_weight ro none stable_rs = get_current_set_weight ro
  get_desired_canary_weight ro (some new) none = get_current_set_weight ro
  get_desired_canary_weight ro (some new) (some stable) =
      if ro.status.abort && is_dynamic ro
      then abort_weight ro new stable
      else get_current_set_weight ro

  -- A count that was set explicitly, or else a weight.
  unfoldable pub get_canary_replicas_or_weight :
      Rollout → Option ReplicaSet → Option ReplicaSet → Option ℤ × ℤ
  get_canary_replicas_or_weight ro new_rs stable_rs =
      let by_weight : Option ℤ × ℤ = (none, get_desired_canary_weight ro new_rs stable_rs) in
      if ro.status.promote_full
        || ro.status.stable_rs == ""
        || ro.status.current_pod_hash == ro.status.stable_rs
      then (none, max_traffic_weight ro)
      else elim (use_set_canary_scale ro) [
        | none ↦ by_weight
        | some scs ↦ elim scs.replicas [
          | some n ↦ (some n, pos 0)
          | none ↦ elim scs.weight [ some w ↦ (none, w) | none ↦ by_weight ]
        ]
      ]
