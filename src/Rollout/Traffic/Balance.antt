-- ===== src/Rollout/Traffic/Balance.antt =====
-- The weights of a status share out the maximum.
use argo_rollouts.Common.{◌≡◌, ◌+◌, String, List, [], ◌∷◌}
use argo_rollouts.Common.Int.{
  ℤ, pos, pos_part, neg_part, ◌+ℤ◌, ◌-ℤ◌, ◌≤ℤ◌, int32, int_laws, int32_laws, eq_of_parts,
}
use argo_rollouts.Api.Rollout.{Rollout, WeightDestination}
use argo_rollouts.Defaults.{max_traffic_weight}
use argo_rollouts.Rollout.Traffic.{new_weights, weight_left}

-- The weights of the destinations, added without a bound.
abbrev pub total_weight : List WeightDestination → ℤ
total_weight [] = pos 0
total_weight (d ∷ ds) = d.weight +ℤ total_weight ds

abbrev pub AllWeighed : List WeightDestination → Type 0
AllWeighed [] = pos 0 ≤ℤ pos 0
AllWeighed (d ∷ ds) = (pos 0 ≤ℤ d.weight) × (d.weight ≤ℤ pos 2147483647) × AllWeighed ds

total_weight-positive : (ds : List WeightDestination) → AllWeighed ds → pos 0 ≤ℤ total_weight ds
total_weight-positive [] h = omega int_laws
total_weight-positive (d ∷ ds) (lo, hi, h) = let t = total_weight-positive ds h in omega int_laws

weight_left-total :
    (stable : ℤ) (ds : List WeightDestination)
    → AllWeighed ds
    → total_weight ds ≤ℤ stable
    → stable ≤ℤ pos 2147483647
    → (pos 0 ≤ℤ weight_left stable ds)
      × (pos_part (weight_left stable ds +ℤ total_weight ds) + neg_part stable
          ≡ pos_part stable + neg_part (weight_left stable ds +ℤ total_weight ds))
unfolding weight_left
weight_left-total stable [] h le hi = (omega int_laws, omega int_laws)
weight_left-total stable (d ∷ ds) (lo, up, h) le hi =
    let t = total_weight-positive ds h in
    let r =
      weight_left-total (int32 (stable -ℤ d.weight)) ds h (omega int32_laws) (omega int32_laws) in
    (r.0, omega int32_laws)

-- The weights that calculateWeightStatus records, canary, stable and additional, come to the maximum
-- weight, and the stable's is not negative, if the canary's weight and the destinations' are not
-- negative and together at most the maximum, which is an int32.
pub new_weights-balanced :
    (ro : Rollout) (canary_service stable_service canary_hash stable_hash : String) (desired : ℤ)
    (destinations : List WeightDestination)
    → AllWeighed destinations
    → pos 0 ≤ℤ desired
    → desired +ℤ total_weight destinations ≤ℤ max_traffic_weight ro
    → max_traffic_weight ro ≤ℤ pos 2147483647
    → let w =
        new_weights ro canary_service stable_service canary_hash stable_hash desired destinations in
      (w.canary.weight +ℤ w.stable.weight +ℤ total_weight w.additional ≡ max_traffic_weight ro)
      × (pos 0 ≤ℤ w.stable.weight)
unfolding new_weights
new_weights-balanced ro canary_service stable_service canary_hash stable_hash desired destinations h
      lo le hi =
    let t = total_weight-positive destinations h in
    let r =
      weight_left-total (int32 (max_traffic_weight ro -ℤ desired)) destinations h (omega int32_laws)
        (omega int32_laws) in
    (eq_of_parts _ _ (omega int32_laws), r.0)
