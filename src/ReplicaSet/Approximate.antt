-- ===== src/ReplicaSet/Approximate.antt =====
-- `approximateWeightedCanaryStableReplicaCounts` of utils/replicaset/canary.go.
pub mod Bounds
pub mod Shares
use argo_rollouts.Common.{ℕ, Bool, true, false, not, ◌&&◌, ◌||◌, List, [], ◌∷◌, ◌++◌, if◌then◌else◌}
use argo_rollouts.Common.Int.{ℤ, pos, ◌+ℤ◌, ◌-ℤ◌, ◌*ℤ◌, ltb_ℤ, eqb_ℤ, int32}
use argo_rollouts.Float.{Float64}

pub record CanaryOption : Type 0 where
  pub canary : ℤ
  pub total : ℤ

-- Adds the option if the test holds.
abbrev pub when : Bool → CanaryOption → List CanaryOption → List CanaryOption
when true o os = o ∷ os
when false o os = os

-- Whether the canary may have no replica at all.
abbrev pub zero_allowed : ℤ → ℤ → ℤ → ℤ → Bool
zero_allowed spec desired_weight max_weight max_surge =
    eqb_ℤ desired_weight max_weight
    || eqb_ℤ desired_weight (pos 0)
    || (eqb_ℤ spec (pos 1) && eqb_ℤ max_surge (pos 0))

-- The candidates whose tests hold, in the code's order.
abbrev pub candidates : ℤ → ℤ → ℤ → ℤ → Bool → Bool → Bool → Bool → List CanaryOption
candidates up down spec one_more a b c d =
    when a (record { canary = up; total = spec })
      (when b (record { canary = down; total = spec })
        (when c (record { canary = up; total = one_more })
          (when d (record { canary = down; total = one_more }) [])))

module _ (f : Float64) where
  open f use {Float, of_int, times, over, minus, abs, frac, ceil, floor, is_lt, is_eq, half}

  -- Whether the floor and the ceiling are equally far from the weight.
  unfoldable pub floor_ceiling_tied : ℤ → ℤ → ℤ → Bool
  floor_ceiling_tied desired_weight max_weight total =
      is_eq (frac (times (of_int total) (over (of_int desired_weight) (of_int max_weight)))) half

  unfoldable pub weight_delta : ℤ → ℤ → CanaryOption → Float
  weight_delta desired_weight max_weight o = abs (
      minus (over (of_int (int32 (o.canary *ℤ max_weight))) (of_int o.total))
        (of_int desired_weight))

  -- The loop over the options after the first: a later one wins only if it is strictly closer.
  pub best_option : ℤ → ℤ → CanaryOption → List CanaryOption → CanaryOption
  best_option desired_weight max_weight best [] = best
  best_option desired_weight max_weight best (o ∷ os) =
      best_option desired_weight max_weight
        (if is_lt (weight_delta desired_weight max_weight o)
            (weight_delta desired_weight max_weight best)
          then o
          else best)
        os

  pub ceil_weighted : ℤ → ℤ → ℤ → ℤ
  ceil_weighted spec desired_weight max_weight =
      ceil (over (of_int (int32 (spec *ℤ desired_weight))) (of_int max_weight))

  pub floor_weighted : ℤ → ℤ → ℤ → ℤ
  floor_weighted spec desired_weight max_weight =
      floor (over (of_int (int32 (spec *ℤ desired_weight))) (of_int max_weight))

  -- The options in the order in which the code appends them.
  unfoldable pub options : ℤ → ℤ → ℤ → ℤ → List CanaryOption
  options spec desired_weight max_weight max_surge =
      let up = ceil_weighted spec desired_weight max_weight in
      let down = floor_weighted spec desired_weight max_weight in
      let one_more = int32 (spec +ℤ pos 1) in
      let tied = floor_ceiling_tied desired_weight max_weight spec in
      let surge_is_tied = floor_ceiling_tied desired_weight max_weight one_more in
      let zero_ok = zero_allowed spec desired_weight max_weight max_surge in
      let down_ok = not (eqb_ℤ down (pos 0)) || zero_ok in
      let surging = ltb_ℤ (pos 0) max_surge in
      candidates up down spec one_more (ltb_ℤ up spec || zero_ok) (not tied && down_ok) surging
        (surging && (not surge_is_tied && down_ok))

  -- The counts of the first best option: the canary's and the stable's.
  pub counts_of : ℤ → ℤ → ℤ → List CanaryOption → ℤ × ℤ
  counts_of spec desired_weight max_weight [] = (pos 0, spec)
  counts_of spec desired_weight max_weight (o ∷ os) =
      let best = best_option desired_weight max_weight o os in
      (best.canary, int32 (best.total -ℤ best.canary))

  unfoldable pub approximate_weighted_canary_stable_replica_counts : ℤ → ℤ → ℤ → ℤ → ℤ × ℤ
  approximate_weighted_canary_stable_replica_counts spec desired_weight max_weight max_surge =
      if eqb_ℤ spec (pos 0)
      then (pos 0, pos 0)
      else counts_of spec desired_weight max_weight
          (options spec desired_weight max_weight max_surge)
