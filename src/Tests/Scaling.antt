-- ===== src/Tests/Scaling.antt =====
-- Scaling down, pods that are restarted, and deadlines, on the rollout of the fixtures.
use mathlib.Core.List.Permᴰ
use argo_rollouts.Common.{
  ◌≡◌, refl, ◌⊎◌, String, Bool, true, false, none, some, List, [], ◌∷◌, arith, get_elem?,
}
use argo_rollouts.Common.Int.{pos, ◌*ℤ◌, ◌+ℤ◌, ◌-ℤ◌, ◌≤ℤ◌, int32}
use argo_rollouts.Api.IntStr.{numbers_only}
use argo_rollouts.Api.Rollout.{ReplicaSet}
use argo_rollouts.Defaults.{
  get_scale_down_delay_seconds_or_default, get_replicas_or_default, get_max_surge_or_default,
  get_max_unavailable_or_default,
}
use argo_rollouts.ReplicaSet.Counts.{get_available_replica_count_for_replica_sets, sum_from}
use argo_rollouts.ReplicaSet.Fenceposts.{max_unavailable, resolve_fenceposts}
use argo_rollouts.Rollout.Promote.{Context}
use argo_rollouts.Rollout.Scale.{
  add_scale_down_delay, has_scale_down_deadline, get_time_remaining_before_scale_down_deadline,
  is_replica_set_referenced, get_scale_down_revision_limit, write,
}
use argo_rollouts.Rollout.Scale.OldReplicaSets.{
  is_traffic_routed, max_scale_down, scale_down_old_replica_sets_for_canary,
  scale_down_old_replica_sets_for_blue_green,
}
use argo_rollouts.Rollout.Scale.Budget.{KeptWithinRoom, basic_scale_down-WithinBudget}
use argo_rollouts.Rollout.Scale.Deadlines.{ReadBack, add_scale_down_delay-ReadBack}
use argo_rollouts.Rollout.Scale.ZeroDelay.{zero_delay-kept_up}
use argo_rollouts.Rollout.Scale.Kept.{kept_up, blue_green-referenced_kept, blue_green-kept_up}
use argo_rollouts.Tests.Fixtures.{
  canary_rollout, blue_green_rollout, blue_green, in_update, rs_of, context_of,
}

abbrev accepted : ReplicaSet → Bool
accepted rs = true

abbrev not_selected : String → Bool
not_selected hash = false

abbrev as_they_are : List ReplicaSet → List ReplicaSet
as_they_are rss = rss

abbrev four_new : Context
four_new =
    context_of (canary_rollout [] in_update) (rs_of "new" (pos 4) (pos 9))
      (rs_of "stable" (pos 7) (pos 5))

abbrev old_rss : List ReplicaSet
old_rss = rs_of "old" (pos 3) (pos 3) ∷ []

one_to_spare : max_scale_down numbers_only accepted not_selected (pos 0) four_new ≡ pos 1
unfolding max_scale_down get_available_replica_count_for_replica_sets sum_from max_unavailable
    resolve_fenceposts get_replicas_or_default get_max_surge_or_default
    get_max_unavailable_or_default int32 ◌+ℤ◌ ◌-ℤ◌
one_to_spare = refl

-- Eleven pods are available and ten have to be: one of the three old ones goes.
basic_scale_down-WithinBudget_example :
    KeptWithinRoom
      (max_scale_down numbers_only accepted not_selected (pos 0) four_new)
      old_rss
      (scale_down_old_replica_sets_for_canary numbers_only accepted not_selected
        (pos 0)
        four_new
        as_they_are
        as_they_are
        false
        none
        old_rss).0
unfolding is_traffic_routed ◌+ℤ◌
basic_scale_down-WithinBudget_example =
    basic_scale_down-WithinBudget numbers_only accepted not_selected (pos 0) four_new as_they_are
      as_they_are false none old_rss (λ rss. Permᴰ.refl rss) (λ rss. Permᴰ.refl rss) refl
      ((omega arith, omega arith), refl) (omega arith) (rw one_to_spare (omega arith))

-- Read 10.5 seconds after it was written, 30 seconds ahead.
add_scale_down_delay-ReadBack_example :
    let w =
      add_scale_down_delay accepted
        (pos 1500000000)
        (rs_of "old" (pos 3) (pos 3))
        (pos 30000000000) in
    (has_scale_down_deadline w.rs ≡ true)
    × ReadBack
        (pos 30000000000)
        (pos 10500000000)
        (get_time_remaining_before_scale_down_deadline (pos 1500000000 +ℤ pos 10500000000) w.rs)
unfolding add_scale_down_delay write
add_scale_down_delay-ReadBack_example =
    add_scale_down_delay-ReadBack accepted (pos 1500000000) (pos 10500000000) (pos 30000000000)
      (rs_of "old" (pos 3) (pos 3)) refl refl

abbrev switched : Context
switched =
    context_of (blue_green_rollout in_update) (rs_of "new" (pos 10) (pos 9))
      (rs_of "stable" (pos 10) (pos 5))

abbrev two_old : List ReplicaSet
two_old = rs_of "old" (pos 3) (pos 3) ∷ rs_of "stable" (pos 3) (pos 3) ∷ []

blue_green-referenced_kept_example :
    let r =
      scale_down_old_replica_sets_for_blue_green numbers_only accepted not_selected
        (pos 0)
        switched
        as_they_are
        as_they_are
        false
        blue_green
        two_old in
    (r.0 ≡ two_old) ⊎ (get_elem? r.0 1 ≡ some (rs_of "stable" (pos 3) (pos 3)))
unfolding is_replica_set_referenced
blue_green-referenced_kept_example =
    blue_green-referenced_kept numbers_only accepted not_selected (pos 0) switched as_they_are
      as_they_are false blue_green two_old 1 (rs_of "stable" (pos 3) (pos 3)) refl refl

blue_green-kept_up_example :
    let r =
      scale_down_old_replica_sets_for_blue_green numbers_only accepted not_selected
        (pos 0)
        switched
        as_they_are
        as_they_are
        false
        blue_green
        two_old in
    let n = kept_up not_selected switched.rollout two_old r.0 in
    (r.0 ≡ two_old) ⊎ ((n ≡ 0) ⊎ (pos n ≤ℤ get_scale_down_revision_limit switched.rollout))
blue_green-kept_up_example =
    blue_green-kept_up numbers_only accepted not_selected (pos 0) switched as_they_are as_they_are
      false blue_green two_old (λ rs. refl) (omega arith)

abbrev no_delay : Context
no_delay = record switched {
  rollout = record switched.rollout {
    spec = record switched.rollout.spec {
      blue_green = some (record blue_green { scale_down_delay_seconds = some (pos 0) });
    };
  };
}

zero_delay-kept_up_example :
    let r =
      scale_down_old_replica_sets_for_blue_green numbers_only accepted not_selected
        (pos 0)
        no_delay
        as_they_are
        as_they_are
        false
        blue_green
        two_old in
    (r.0 ≡ two_old) ⊎ (r.0 ≡ two_old)
unfolding get_scale_down_delay_seconds_or_default get_scale_down_revision_limit
    has_scale_down_deadline ◌*ℤ◌
zero_delay-kept_up_example =
    zero_delay-kept_up numbers_only accepted not_selected (pos 0) no_delay as_they_are as_they_are
      false blue_green two_old refl (refl, omega arith, (refl, omega arith, refl)) (omega arith)
      (omega arith)
