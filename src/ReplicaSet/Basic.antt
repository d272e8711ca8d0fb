-- ===== src/ReplicaSet/Basic.antt =====
-- `CalculateReplicaCountsForBasicCanary` of utils/replicaset/canary.go, in the stages of its body.
pub mod Bounds
pub mod Surge
pub mod Limit
use argo_rollouts.Common.{
  ℕ, Bool, true, false, not, ◌&&◌, ◌||◌, Option, none, some, List, [], ◌∷◌, ◌++◌, if◌then◌else◌,
}
use argo_rollouts.Common.Int.{ℤ, pos, ◌+ℤ◌, ◌-ℤ◌, ltb_ℤ, leb_ℤ, int32}
use argo_rollouts.Float.{Float64}
use argo_rollouts.Api.IntStr.{IntStr}
use argo_rollouts.Api.Rollout.{Rollout, ReplicaSet}
use argo_rollouts.Defaults.{get_replicas_or_default, max_traffic_weight}
use argo_rollouts.ReplicaSet.Counts.{
  min_value, max_value, get_replica_count_for_replica_sets, check_stable_rs_exists,
  get_replicas_for_scale_down,
}
use argo_rollouts.ReplicaSet.Fenceposts.{max_surge, max_unavailable}
use argo_rollouts.ReplicaSet.Weight.{get_canary_replicas_or_weight}
use argo_rollouts.ReplicaSet.Approximate.{approximate_weighted_canary_stable_replica_counts}

-- `*rs.Spec.Replicas`, or 0 without a ReplicaSet.
abbrev pub replicas_of : Option ReplicaSet → ℤ
replicas_of none = pos 0
replicas_of (some rs) = rs.replicas

abbrev pub available_of : Option ReplicaSet → ℤ
available_of none = pos 0
available_of (some rs) = rs.available_replicas

-- A ReplicaSet that has `current` replicas and wants `desired`, with room for `scale_up` more: its
-- new count, and the room that is left.
unfoldable pub scale_up_stable : Bool → ℤ → ℤ → ℤ → ℤ × ℤ
scale_up_stable exists current desired scale_up =
    if exists && ltb_ℤ current desired && ltb_ℤ (pos 0) scale_up
    then (if ltb_ℤ (int32 (current +ℤ scale_up)) desired
        then (int32 (current +ℤ scale_up), pos 0)
        else (desired, int32 (scale_up -ℤ int32 (desired -ℤ current))))
    else (current, scale_up)

unfoldable pub scale_up_new : Option ReplicaSet → ℤ → ℤ → ℤ
scale_up_new none desired scale_up = pos 0
scale_up_new (some new) desired scale_up =
    if ltb_ℤ new.replicas desired && ltb_ℤ (pos 0) scale_up
    then (if ltb_ℤ (int32 (new.replicas +ℤ scale_up)) desired
        then int32 (new.replicas +ℤ scale_up)
        else desired)
    else new.replicas

unfoldable pub calculate_scale_down_replica_count : Option ReplicaSet → ℤ → ℤ → ℤ → ℤ
calculate_scale_down_replica_count none desired scale_down count = count
calculate_scale_down_replica_count (some drain) desired scale_down count =
    if ltb_ℤ desired drain.replicas
    then max_value desired (int32 (drain.replicas -ℤ scale_down))
    else count

-- How far a total is over its limit.
abbrev over_limit : ℤ → ℤ → ℤ → ℤ
over_limit adjust drain limit = max_value (pos 0) (int32 (int32 (adjust +ℤ drain) -ℤ limit))

-- The available replicas of the drained ReplicaSet that its count keeps.
abbrev kept_available : Option ReplicaSet → ℤ → ℤ
kept_available none count = pos 0
kept_available (some rs) count = int32 (pos 0 +ℤ min_value rs.available_replicas count)

-- The result is the pair of the drained count and the adjusted count.
unfoldable pub adjust_replica_within_limits :
    Option ReplicaSet → Option ReplicaSet → ℤ → ℤ → ℤ → ℤ → ℤ × ℤ
adjust_replica_within_limits drain_rs none drain adjust limit min_available = (drain, adjust)
adjust_replica_within_limits drain_rs (some rs) drain adjust limit min_available =
    let within = int32 (adjust -ℤ over_limit adjust drain limit) in
    let available =
      int32 (kept_available drain_rs drain +ℤ min_value rs.available_replicas within) in
    let extra = max_value (pos 0) (int32 (rs.available_replicas -ℤ within)) in
    let missing = max_value (pos 0) (int32 (min_available -ℤ available)) in
    let adjusted = int32 (within +ℤ min_value extra missing) in
    (int32 (drain -ℤ over_limit adjusted drain limit), adjusted)

-- The counts of the new and of the stable ReplicaSet, at some stage.
pub record Plan : Type 0 where
  pub new : ℤ
  pub stable : ℤ

abbrev drain_new : ℤ × ℤ → Plan
drain_new (drained, adjusted) = record { new = drained; stable = adjusted }

abbrev drain_stable : ℤ × ℤ → Plan
drain_stable (drained, adjusted) = record { new = adjusted; stable = drained }

-- Whether the canary count is meant to grow.
unfoldable pub is_increasing : Option ReplicaSet → ℤ → Bool
is_increasing none desired = true
is_increasing (some new) desired = leb_ℤ new.replicas desired

unfoldable pub replicas_to_scale_down : Bool → Option ReplicaSet → Option ReplicaSet → ℤ
replicas_to_scale_down increasing new_rs stable_rs = int32 (
    get_replicas_for_scale_down new_rs (not increasing)
    +ℤ get_replicas_for_scale_down stable_rs increasing)

-- The scale-down of the new ReplicaSet, or of the stable one if the canary grows, by up to `count`.
unfoldable pub scale_down_by :
    Bool → Option ReplicaSet → Option ReplicaSet → Plan → Plan → ℤ → ℤ → ℤ → Plan
scale_down_by false new_rs stable_rs wanted plan limit min_available count = drain_new (
    adjust_replica_within_limits new_rs stable_rs
      (calculate_scale_down_replica_count new_rs wanted.new count plan.new) plan.stable limit
      min_available)
scale_down_by true new_rs stable_rs wanted plan limit min_available count =
    if check_stable_rs_exists new_rs stable_rs
    then drain_stable (
        adjust_replica_within_limits stable_rs new_rs
          (calculate_scale_down_replica_count stable_rs wanted.stable count plan.stable) plan.new
          limit min_available)
    else plan

-- The end of the body: `wanted` holds the desired counts, `plan` the counts so far. Nothing shrinks
-- unless more replicas count as available than are needed.
unfoldable pub scale_down : Option ReplicaSet → Option ReplicaSet → Plan → Plan → ℤ → ℤ → Plan
scale_down new_rs stable_rs wanted plan limit min_available =
    let increasing = is_increasing new_rs wanted.new in
    let available = replicas_to_scale_down increasing new_rs stable_rs in
    if leb_ℤ available min_available
    then plan
    else scale_down_by increasing new_rs stable_rs wanted plan limit min_available
        (int32 (available -ℤ min_available))

-- The scale-up of the stable, then of the new ReplicaSet.
unfoldable pub scale_up : Option ReplicaSet → Option ReplicaSet → Plan → ℤ → Plan
scale_up new_rs stable_rs wanted room =
    let exists = check_stable_rs_exists new_rs stable_rs in
    let current = if exists then replicas_of stable_rs else pos 0 in
    let (stable, rest) = scale_up_stable exists current wanted.stable room in
    record { new = scale_up_new new_rs wanted.new rest; stable = stable }

-- Every ReplicaSet that counts: the old ones, the new one, and the stable one if it is another.
abbrev pub all_rss :
    Option ReplicaSet → Option ReplicaSet → List (Option ReplicaSet) → List (Option ReplicaSet)
all_rss new_rs stable_rs old_rss =
    old_rss ++ new_rs ∷ (if check_stable_rs_exists new_rs stable_rs then stable_rs ∷ [] else [])

module _ (f : Float64) (lib : IntStr) where
  -- What the weight asks for, before the limits: all for the new one if there is no other stable.
  unfoldable pub desired_counts : Rollout → Option ReplicaSet → Option ReplicaSet → Plan
  desired_counts ro new_rs stable_rs =
      let spec = get_replicas_or_default ro.spec.replicas in
      let (_, weight) = get_canary_replicas_or_weight f ro new_rs stable_rs in
      let (canary, stable) =
        approximate_weighted_canary_stable_replica_counts f spec weight (max_traffic_weight ro)
          (max_surge lib ro) in
      if check_stable_rs_exists new_rs stable_rs
      then record { new = canary; stable = stable }
      else record { new = spec; stable = pos 0 }

  unfoldable pub calculate_replica_counts_for_basic_canary :
      Rollout → Option ReplicaSet → Option ReplicaSet → List (Option ReplicaSet) → Plan
  calculate_replica_counts_for_basic_canary ro new_rs stable_rs old_rss =
      let spec = get_replicas_or_default ro.spec.replicas in
      let wanted = desired_counts ro new_rs stable_rs in
      let limit = int32 (spec +ℤ max_surge lib ro) in
      let total = get_replica_count_for_replica_sets (all_rss new_rs stable_rs old_rss) in
      let plan = scale_up new_rs stable_rs wanted (int32 (limit -ℤ total)) in
      if ltb_ℤ (pos 0) (get_replica_count_for_replica_sets old_rss)
      then plan
      else scale_down new_rs stable_rs wanted plan limit (int32 (spec -ℤ max_unavailable lib ro))
