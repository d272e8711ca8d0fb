-- ===== src/ReplicaSet/NewReplicas.antt =====
-- `NewRSNewReplicas` of utils/replicaset/replicaset.go, and utils/replicaset/bluegreen.go.
use argo_rollouts.Common.{
  String, Bool, true, false, not, ◌&&◌, Option, none, some, List, [], ◌∷◌, if◌then◌else◌, map, ◌==◌,
}
use argo_rollouts.Common.Int.{ℤ, eqb_ℤ}
use argo_rollouts.Float.{Float64}
use argo_rollouts.Api.IntStr.{IntStr}
use argo_rollouts.Api.Rollout.{
  Rollout, ReplicaSet, BlueGreenStrategy, TrafficWeights, PauseCondition,
}
use argo_rollouts.Defaults.{get_replicas_or_default}
use argo_rollouts.ReplicaSet.Counts.{get_other_rss, get_stable_rs}
use argo_rollouts.ReplicaSet.Steps.{is_traffic_routed}
use argo_rollouts.ReplicaSet.Basic.{calculate_replica_counts_for_basic_canary}
use argo_rollouts.ReplicaSet.TrafficRouted.{calculate_replica_counts_for_traffic_routed_canary}

last_with_hash : String → Option ReplicaSet → List ReplicaSet → Option ReplicaSet
last_with_hash hash found [] = found
last_with_hash hash found (rs ∷ rss) =
    last_with_hash hash (if rs.pod_template_hash == hash then some rs else found) rss

-- The last ReplicaSet with this hash. The others, its second result, are left out.
unfoldable pub get_replica_set_by_template_hash : List ReplicaSet → String → Option ReplicaSet
unfolding last_with_hash
get_replica_set_by_template_hash rss hash =
    if hash == "" then none else last_with_hash hash none rss

no_conditions : List PauseCondition → Bool
no_conditions [] = true
no_conditions (c ∷ cs) = false

is_named : Option ReplicaSet → ReplicaSet → Bool
is_named none rs = true
is_named (some other) rs = other.name == rs.name

preview_replicas : Rollout → List ReplicaSet → ReplicaSet → ℤ → ℤ
unfolding no_conditions is_named
preview_replicas ro all_rss new preview =
    let desired = get_replicas_or_default ro.spec.replicas in
    let active = get_replica_set_by_template_hash all_rss ro.status.active_selector in
    let not_paused = not ro.spec.paused && no_conditions ro.status.pause_conditions in
    if is_named active new
    then desired
    else if ro.status.promote_full
    then desired
    else if not (new.pod_template_hash == ro.status.current_pod_hash)
    then preview
    else if not_paused && ro.status.scale_up_preview_check_point
    then desired
    else preview

blue_green_replicas : Rollout → List ReplicaSet → ReplicaSet → BlueGreenStrategy → ℤ
unfolding preview_replicas
blue_green_replicas ro all_rss new b = elim b.preview_replica_count [
  | none ↦ get_replicas_or_default ro.spec.replicas
  | some preview ↦ preview_replicas ro all_rss new preview
]

module _ (f : Float64) (lib : IntStr) where
  canary_replicas : Rollout → List ReplicaSet → ReplicaSet → Option TrafficWeights → ℤ
  canary_replicas ro all_rss new weights =
      let stable = get_stable_rs ro (some new) (map some all_rss) in
      let others = get_other_rss (some new) stable (map some all_rss) in
      if is_traffic_routed ro
      then (calculate_replica_counts_for_traffic_routed_canary f ro (some new) stable weights).new
      else (calculate_replica_counts_for_basic_canary f lib ro (some new) stable others).new

  -- None is the error of a rollout without a strategy.
  unfoldable pub new_rs_new_replicas :
      Rollout → List ReplicaSet → ReplicaSet → Option TrafficWeights → Option ℤ
  unfolding blue_green_replicas canary_replicas
  new_rs_new_replicas ro all_rss new weights = elim ro.spec.blue_green [
    | some b ↦ some (blue_green_replicas ro all_rss new b)
    | none ↦ elim ro.spec.canary [
      | none ↦ none
      | some _ ↦ some (canary_replicas ro all_rss new weights)
    ]
  ]

  unfoldable pub ready_for_pause : Rollout → ReplicaSet → List ReplicaSet → Bool
  ready_for_pause ro new all_rss = elim (new_rs_new_replicas ro all_rss new none) [
    | none ↦ false
    | some n ↦ eqb_ℤ new.replicas n && eqb_ℤ new.available_replicas n
  ]
