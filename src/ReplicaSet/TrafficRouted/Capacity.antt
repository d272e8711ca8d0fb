-- ===== src/ReplicaSet/TrafficRouted/Capacity.antt =====
-- The replicas that the traffic needs, in the plan of `CalculateReplicaCountsForTrafficRoutedCanary`.
use argo_rollouts.Common.{
  ◌≡◌, ◌⊎◌, inl, inr, Bool, true, false, Option, some, Bool-cases, Option-cases, arith,
  if◌then◌else◌, refl,
}
use argo_rollouts.Common.Int.{ℤ, pos, ◌≤ℤ◌, ◌-ℤ◌, int32, eqb_ℤ}
use argo_rollouts.Float.{Float64}
use argo_rollouts.Api.Rollout.{Rollout, ReplicaSet, TrafficWeights}
use argo_rollouts.Defaults.{get_replicas_or_default, max_traffic_weight}
use argo_rollouts.ReplicaSet.Counts.{max}
use argo_rollouts.ReplicaSet.Weight.{
  is_dynamic, traffic_weight_to_replicas, get_canary_replicas_or_weight,
}
use argo_rollouts.ReplicaSet.TrafficRouted.{
  check_min_pods_per_replica_set, canary_count, dynamic_counts, min_pods, cap,
  calculate_replica_counts_for_traffic_routed_canary,
}

max_law : (a b : ℤ) → (a ≤ℤ max a b) × (b ≤ℤ max a b)
unfolding max
max_law a b = ground arith

raised_on_abort :
    (abort : Bool) (actual desired : ℤ)
    → let n = if abort then max actual desired else desired in
      (desired ≤ℤ n) × ((abort ≡ false) ⊎ (actual ≤ℤ n))
raised_on_abort true actual desired = ((max_law actual desired).1, inr (max_law actual desired).0)
raised_on_abort false actual desired = (omega arith, inl refl)

-- The minimum of pods for a ReplicaSet only raises a count.
check_min_pods_raises : (ro : Rollout) (n : ℤ) → n ≤ℤ check_min_pods_per_replica_set ro n
unfolding check_min_pods_per_replica_set
check_min_pods_raises ro n = elim (Bool-cases (eqb_ℤ n (pos 0))) [
  | inl z ↦ rw z (omega arith)
  | inr z ↦ rw z (elim (Option-cases (min_pods ro)) [
    | inl e ↦ rw e (omega arith)
    | inr m ↦ rw m.1 (max_law n (cap (get_replicas_or_default ro.spec.replicas) m.0)).0
  ])
]

module _ (f : Float64) (ro : Rollout) (new_rs stable_rs : Option ReplicaSet)
    (w : TrafficWeights) where
  -- The replicas that a traffic weight needs.
  abbrev pub needed : ℤ → ℤ
  needed weight =
      traffic_weight_to_replicas f (get_replicas_or_default ro.spec.replicas) weight
        (max_traffic_weight ro)

  dynamic_counts-bounds :
      let plan = dynamic_counts f ro new_rs stable_rs (some w) in
      (needed w.stable.weight ≤ℤ plan.stable)
      × (needed (
            int32
              (max_traffic_weight ro -ℤ (get_canary_replicas_or_weight f ro new_rs stable_rs).1))
          ≤ℤ plan.stable)
      × (canary_count f ro new_rs stable_rs ≤ℤ plan.new)
      × ((ro.status.abort ≡ false) ⊎ (needed w.canary.weight ≤ℤ plan.new))
  unfolding dynamic_counts
  dynamic_counts-bounds =
      let s =
        max_law
          (needed (
            int32
              (max_traffic_weight ro -ℤ (get_canary_replicas_or_weight f ro new_rs stable_rs).1)))
          (needed w.stable.weight) in
      let c =
        raised_on_abort ro.status.abort (needed w.canary.weight)
          (canary_count f ro new_rs stable_rs) in
      (s.1, s.0, c.0, c.1)

  -- With a dynamically scaled stable and actual weights, the stable count is at least what its actual and
  -- its desired weight need, the canary count at least the desired one, and on an abort the canary
  -- count is also at least what the canary's actual weight needs.
  pub traffic_weights-backed :
      is_dynamic ro ≡ true
      → let plan =
          calculate_replica_counts_for_traffic_routed_canary f ro new_rs stable_rs (some w) in
        (needed w.stable.weight ≤ℤ plan.stable)
        × (needed (
              int32
                (max_traffic_weight ro -ℤ (get_canary_replicas_or_weight f ro new_rs stable_rs).1))
            ≤ℤ plan.stable)
        × (canary_count f ro new_rs stable_rs ≤ℤ plan.new)
        × ((ro.status.abort ≡ false) ⊎ (needed w.canary.weight ≤ℤ plan.new))
  unfolding calculate_replica_counts_for_traffic_routed_canary
  traffic_weights-backed d =
      let (a, b, c, e) = dynamic_counts-bounds in
      let p = dynamic_counts f ro new_rs stable_rs (some w) in
      let s = check_min_pods_raises ro p.stable in
      let n = check_min_pods_raises ro p.new in
      rw d (
        omega arith,
        omega arith,
        omega arith,
        elim e [ inl x ↦ inl x | inr x ↦ inr (omega arith) ],
      )
