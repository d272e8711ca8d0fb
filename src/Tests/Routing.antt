-- ===== src/Tests/Routing.antt =====
-- Weights, restarts and blue-green promotions on the rollouts of the fixtures.
use argo_rollouts.Common.{
  ◌≡◌, ◌≢◌, refl, ap, ◌⊎◌, String, true, false, none, some, List, [], ◌∷◌, arith, is_some,
}
use argo_rollouts.Common.Int.{ℤ, pos, ◌+ℤ◌, ◌-ℤ◌, ◌≤ℤ◌, eqb_ℤ, int32}
use argo_rollouts.Float.{fractions}
use argo_rollouts.Api.IntStr.{numbers_only}
use argo_rollouts.Api.Rollout.{
  Rollout, WeightDestination, TrafficWeights, BlueGreenStrategy, blue_green_pause,
}
use argo_rollouts.Defaults.{
  max_traffic_weight, get_replicas_or_default, get_max_surge_or_default,
  get_max_unavailable_or_default,
}
use argo_rollouts.ReplicaSet.Counts.{get_replica_count_for_replica_sets, sum_from}
use argo_rollouts.ReplicaSet.Fenceposts.{max_unavailable, resolve_fenceposts}
use argo_rollouts.ReplicaSet.NewReplicas.{ready_for_pause, new_rs_new_replicas}
use argo_rollouts.Rollout.Pause.{is_aborted, is_empty, find_condition}
use argo_rollouts.Rollout.Promote.{
  Context, is_fast_rollback, is_rollback, is_rollback_within_window,
}
use argo_rollouts.Rollout.Scale.OldReplicaSets.{is_fully_promoted}
use argo_rollouts.Rollout.Traffic.{
  max_int, new_weights, calculate_desired_weight_on_abort_or_stable_rollback, desired_weight,
  available_of, is_dynamically_rolling_back_to_stable,
}
use argo_rollouts.Rollout.Traffic.Balance.{total_weight, new_weights-balanced}
use argo_rollouts.Rollout.Traffic.Guards.{way_back-bounded, canary_weight-guarded}
use argo_rollouts.Rollout.Restart.{
  Pod, Eviction, evicted, reconcile_restart, get_available_pod_count, effective_min_available,
}
use argo_rollouts.Rollout.Restart.Budget.{restart-WithinBudget}
use argo_rollouts.Rollout.BlueGreen.{
  halt_progress, needs_blue_green_controller_pause, completed_pre_promotion_analysis,
  is_blue_green_fast_tracked, selects, own_pause, reconcile_blue_green_pause,
  sync_rollout_status_blue_green,
}
use argo_rollouts.Rollout.BlueGreen.Pauses.{blue_green_pause-guarded, stable-follows_active}
use argo_rollouts.Tests.Fixtures.{
  canary_rollout, canary_of, blue_green_rollout, blue_green, weight_step, in_update, rs_of,
  context_of,
}

abbrev baseline : WeightDestination
baseline = record { weight = pos 5; service_name = "baseline"; pod_template_hash = "base" }

abbrev weighted : Rollout
weighted = canary_rollout (weight_step ∷ []) in_update

new_weights-balanced_example :
    let w =
      new_weights weighted "canary" "stable" "new" "stable" (pos 20) (baseline ∷ baseline ∷ []) in
    (w.canary.weight +ℤ w.stable.weight +ℤ total_weight w.additional ≡ max_traffic_weight weighted)
    × (pos 0 ≤ℤ w.stable.weight)
unfolding max_traffic_weight ◌+ℤ◌
new_weights-balanced_example =
    new_weights-balanced weighted "canary" "stable" "new" "stable" (pos 20)
      (baseline ∷ baseline ∷ []) (omega arith, omega arith, (omega arith, omega arith, omega arith))
      (omega arith) (omega arith) (omega arith)

abbrev halfway : TrafficWeights
halfway = record {
  canary = record { weight = pos 50; service_name = "canary"; pod_template_hash = "new" };
  stable = record { weight = pos 50; service_name = "stable"; pod_template_hash = "stable" };
  additional = [];
  verified = none;
}

-- An abort at half of the traffic, with three pods of the stable.
abbrev aborted : Context
aborted =
    context_of
      (record weighted {
        spec = record weighted.spec {
          canary = some (record (canary_of (weight_step ∷ [])) {
            traffic_routing = some (record { max_traffic_weight = none });
            dynamic_stable_scale = true;
          });
        };
        status = record in_update { abort = true; weights = some halfway };
      })
      (rs_of "new" (pos 5) (pos 9)) (rs_of "stable" (pos 3) (pos 5))

way_back-bounded_example :
    calculate_desired_weight_on_abort_or_stable_rollback fractions aborted ≤ℤ pos 50
way_back-bounded_example = way_back-bounded fractions aborted halfway refl (omega arith)

abbrev ready : Context
ready = context_of weighted (rs_of "new" (pos 2) (pos 9)) (rs_of "stable" (pos 8) (pos 5))

abbrev half_promoted : Context
half_promoted = record ready {
  rollout = record weighted {
    status = record in_update { promote_full = true; weights = some halfway };
  };
}

half_of_it : desired_weight fractions numbers_only half_promoted ≡ pos 50
unfolding desired_weight is_dynamically_rolling_back_to_stable is_fully_promoted is_aborted
half_of_it = refl

canary_weight-guarded_example :
    (is_some (is_dynamically_rolling_back_to_stable half_promoted.rollout half_promoted.new_rs)
      ≡ true)
    ⊎ ((is_fully_promoted half_promoted.rollout ≡ false)
        × ((is_aborted half_promoted.pause_context ≡ true)
            ⊎ ((true ≡ true) × (eqb_ℤ (available_of half_promoted.new_rs) (pos 0) ≡ false))))
canary_weight-guarded_example =
    canary_weight-guarded fractions numbers_only half_promoted (rw half_of_it (ground arith))

abbrev pod_of : String → ℤ → Pod
pod_of name created = record {
  name = name;
  creation_timestamp = created;
  deleted = false;
  available = true;
}

abbrev three_pods : List Pod
three_pods = pod_of "a" (pos 1) ∷ pod_of "b" (pos 2) ∷ pod_of "c" (pos 3) ∷ []

abbrev evicts : Pod → Eviction
evicts p = evicted

-- All the pods of three replicas are older than the restart; one may be unavailable.
abbrev three_wanted : Rollout
three_wanted = record weighted { spec = record weighted.spec { replicas = some (pos 3) } }

one_spare :
    get_available_pod_count three_pods (pos 0)
      -ℤ effective_min_available numbers_only evicts three_wanted []
    ≡ pos 1
unfolding get_available_pod_count effective_min_available get_replica_count_for_replica_sets
    sum_from max_unavailable resolve_fenceposts get_replicas_or_default get_max_surge_or_default
    get_max_unavailable_or_default max_int int32 ◌+ℤ◌ ◌-ℤ◌
one_spare = refl

restart-WithinBudget_example :
    let r =
      reconcile_restart numbers_only evicts
        (pos 9)
        (some (pos 8))
        none
        three_wanted
        []
        three_pods in
    (r.0.restarted ≤ℤ r.0.needs_restart)
    × ((r.0.restarted ≤ℤ pos 0)
        ⊎ (effective_min_available numbers_only evicts three_wanted []
            ≤ℤ get_available_pod_count three_pods (pos 0) -ℤ r.0.restarted))
    × ((r.1 ≡ false) ⊎ (eqb_ℤ (r.0.needs_restart -ℤ r.0.restarted) (pos 0) ≡ true))
restart-WithinBudget_example =
    restart-WithinBudget numbers_only evicts (pos 9) (some (pos 8)) none three_wanted [] three_pods
      (rw one_spare (omega arith)) (rw one_spare (omega arith))

abbrev waiting : BlueGreenStrategy
waiting = record blue_green { auto_promotion_enabled = some false }

abbrev before_switch : Context
before_switch =
    context_of
      (record (blue_green_rollout (record in_update { active_selector = "stable" })) {
        spec = record (blue_green_rollout in_update).spec { blue_green = some waiting };
      })
      (rs_of "new" (pos 10) (pos 9)) (rs_of "stable" (pos 10) (pos 5))

paused_by_controller :
    (reconcile_blue_green_pause fractions numbers_only
      (pos 0)
      (pos 60)
      none
      waiting
      before_switch
      (some "stable")
      (rs_of "new" (pos 10) (pos 9))).0.add_pause_reasons
    ≡ blue_green_pause ∷ []
unfolding reconcile_blue_green_pause ready_for_pause new_rs_new_replicas halt_progress
    find_condition is_blue_green_fast_tracked is_fast_rollback is_rollback is_rollback_within_window
    own_pause selects needs_blue_green_controller_pause completed_pre_promotion_analysis
    get_replicas_or_default
paused_by_controller = refl

a_reason : (blue_green_pause ∷ []) ≢ []
a_reason = λ h. let e = ap is_empty h in ground arith

blue_green_pause-guarded_example :
    (before_switch.rollout.status.abort ≡ false)
    × (ready_for_pause fractions numbers_only before_switch.rollout
          (rs_of "new" (pos 10) (pos 9))
          before_switch.all_rss
        ≡ true)
    × (halt_progress before_switch ≡ false)
    × (is_blue_green_fast_tracked before_switch (some "stable") (rs_of "new" (pos 10) (pos 9))
        ≡ false)
    × (selects (some "stable") (rs_of "new" (pos 10) (pos 9)) ≡ false)
    × (needs_blue_green_controller_pause waiting ≡ true)
    × (completed_pre_promotion_analysis waiting none ≡ true)
    × (before_switch.rollout.status.controller_pause ≡ false)
blue_green_pause-guarded_example =
    blue_green_pause-guarded fractions numbers_only (pos 0) (pos 60) none waiting before_switch
      (some "stable") (rs_of "new" (pos 10) (pos 9)) (rw paused_by_controller a_reason)

stable-follows_active_example :
    let final =
      sync_rollout_status_blue_green fractions numbers_only
        (pos 0)
        (pos 60)
        none
        waiting
        false
        none
        (some "new")
        before_switch
        in_update in
    (final.stable_rs ≡ "stable") ⊎ (final.stable_rs ≡ "new")
stable-follows_active_example =
    stable-follows_active fractions numbers_only (pos 0) (pos 60) none waiting false none "new"
      before_switch in_update (rs_of "stable" (pos 10) (pos 5)) refl refl refl refl
