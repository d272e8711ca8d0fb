-- ===== src/ReplicaSet/Counts.antt =====
-- Sums and tests over ReplicaSets, utils/replicaset/replicaset.go and canary.go. A nil pointer is
-- `none`; every sum wraps around as an int32.
use argo_rollouts.Common.{
  String, Bool, true, false, ◌&&◌, Option, none, some, List, [], ◌∷◌, if◌then◌else◌, ◌==◌,
}
use argo_rollouts.Common.Int.{ℤ, pos, ◌+ℤ◌, ltb_ℤ, eqb_ℤ, int32}
use argo_rollouts.Api.Rollout.{Rollout, ReplicaSet}

unfoldable pub min_value : ℤ → ℤ → ℤ
min_value a b = if ltb_ℤ b a then b else a

unfoldable pub max_value : ℤ → ℤ → ℤ
max_value a b = if ltb_ℤ a b then b else a

-- `max` of the same file
unfoldable pub max : ℤ → ℤ → ℤ
max left right = if ltb_ℤ right left then left else right

-- The loop of the four sums, over the field `count`.
unfoldable pub sum_from : (ReplicaSet → ℤ) → ℤ → List (Option ReplicaSet) → ℤ
sum_from count total [] = total
sum_from count total (none ∷ rss) = sum_from count total rss
sum_from count total (some rs ∷ rss) = sum_from count (int32 (total +ℤ count rs)) rss

unfoldable pub get_replica_count_for_replica_sets : List (Option ReplicaSet) → ℤ
get_replica_count_for_replica_sets = sum_from (λ rs. rs.replicas) (pos 0)

unfoldable pub get_available_replica_count_for_replica_sets : List (Option ReplicaSet) → ℤ
get_available_replica_count_for_replica_sets = sum_from (λ rs. rs.available_replicas) (pos 0)

unfoldable pub get_actual_replica_count_for_replica_sets : List (Option ReplicaSet) → ℤ
get_actual_replica_count_for_replica_sets = sum_from (λ rs. rs.status_replicas) (pos 0)

unfoldable pub get_ready_replica_count_for_replica_sets : List (Option ReplicaSet) → ℤ
get_ready_replica_count_for_replica_sets = sum_from (λ rs. rs.ready_replicas) (pos 0)

-- Whether there is a stable ReplicaSet that differs from the new one.
unfoldable pub check_stable_rs_exists : Option ReplicaSet → Option ReplicaSet → Bool
check_stable_rs_exists new_rs none = false
check_stable_rs_exists none (some stable) = true
check_stable_rs_exists (some new) (some stable) = if new.name == stable.name then false else true

unfoldable pub get_replicas_for_scale_down : Option ReplicaSet → Bool → ℤ
get_replicas_for_scale_down none ignore_availability = pos 0
get_replicas_for_scale_down (some rs) ignore_availability =
    if ltb_ℤ rs.replicas rs.available_replicas
    then rs.replicas
    else if ignore_availability
    then rs.replicas
    else rs.available_replicas

unfoldable pub all_desired_are_available : Option ReplicaSet → ℤ → Bool
all_desired_are_available none desired = false
all_desired_are_available (some rs) desired =
    eqb_ℤ desired rs.replicas && eqb_ℤ desired rs.available_replicas

unfoldable pub all_desired_are_created : Option ReplicaSet → ℤ → Bool
all_desired_are_created none desired = false
all_desired_are_created (some rs) desired =
    eqb_ℤ desired rs.replicas && eqb_ℤ desired rs.status_replicas

same_name : Option ReplicaSet → ReplicaSet → Bool
same_name none rs = false
same_name (some other) rs = rs.name == other.name

-- The ReplicaSets that are neither the new nor the stable one.
unfoldable pub get_other_rss :
    Option ReplicaSet → Option ReplicaSet → List (Option ReplicaSet) → List (Option ReplicaSet)
unfolding same_name
get_other_rss new_rs stable_rs [] = []
get_other_rss new_rs stable_rs (none ∷ rss) = get_other_rss new_rs stable_rs rss
get_other_rss new_rs stable_rs (some rs ∷ rss) =
    let others = get_other_rss new_rs stable_rs rss in
    if same_name stable_rs rs
    then others
    else if same_name new_rs rs
    then others
    else some rs ∷ others

-- The first ReplicaSet with this pod template hash.
unfoldable pub search_rs_by_hash : String → List (Option ReplicaSet) → Option ReplicaSet
search_rs_by_hash hash [] = none
search_rs_by_hash hash (none ∷ rss) = search_rs_by_hash hash rss
search_rs_by_hash hash (some rs ∷ rss) =
    if rs.pod_template_hash == hash then some rs else search_rs_by_hash hash rss

-- `GetStableRS`: the new ReplicaSet goes first.
unfoldable pub get_stable_rs :
    Rollout → Option ReplicaSet → List (Option ReplicaSet) → Option ReplicaSet
get_stable_rs ro new_rs rss =
    let found = search_rs_by_hash ro.status.stable_rs rss in
    if ro.status.stable_rs == "" then none else elim new_rs [
      | none ↦ found
      | some new ↦ if new.pod_template_hash == ro.status.stable_rs then some new else found
    ]
