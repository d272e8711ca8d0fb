-- ===== src/Rollout/Restart.antt =====
-- The restart of pods: rollout/restart.go. The order of the pods is that of the listing, an answer of the
-- eviction is a parameter. Times are integers.
pub mod Budget
use argo_rollouts.Common.{
  String, Bool, true, false, not, ◌&&◌, Option, none, some, List, [], ◌∷◌, if◌then◌else◌, map,
}
use argo_rollouts.Common.Int.{ℤ, pos, ltb_ℤ, leb_ℤ, eqb_ℤ, ◌+ℤ◌, ◌-ℤ◌, int32}
use argo_rollouts.Api.IntStr.{IntStr}
use argo_rollouts.Api.Rollout.{Rollout, ReplicaSet}
use argo_rollouts.Defaults.{get_replicas_or_default}
use argo_rollouts.ReplicaSet.Counts.{get_replica_count_for_replica_sets}
use argo_rollouts.ReplicaSet.Fenceposts.{max_unavailable}
use argo_rollouts.Rollout.Traffic.{max_int}

-- `available` is what `podutil.IsPodAvailable` of Kubernetes says.
pub record Pod : Type 0 where
  pub name : String
  pub creation_timestamp : ℤ
  pub deleted : Bool
  pub available : Bool

-- A disruption budget refuses an eviction for now.
pub data Eviction : Type 0 where
  evicted too_many_requests eviction_failed : Eviction

-- The variables of the loop; `ended` is an early return with an error.
pub record Restarting : Type 0 where
  pub needs_restart : ℤ
  pub can_restart : ℤ
  pub restarted : ℤ
  pub ended : Bool

unfoldable pub get_available_pod_count : List Pod → ℤ → ℤ
get_available_pod_count [] n = n
get_available_pod_count (p ∷ ps) n =
    get_available_pod_count ps (if p.available && not p.deleted then int32 (n +ℤ pos 1) else n)

abbrev pub no_restart : Restarting
no_restart = record { needs_restart = pos 0; can_restart = pos 0; restarted = pos 0; ended = false }

same_time : ℤ → Option ℤ → Bool
same_time t none = false
same_time t (some u) = eqb_ℤ t u

-- `restart_at` is the spec's time, `restarted_at` the status's.
unfoldable pub needs_restart : ℤ → Option ℤ → Option ℤ → Bool
unfolding same_time
needs_restart now none restarted_at = false
needs_restart now (some t) restarted_at = if same_time t restarted_at then false else ltb_ℤ t now

-- The delay after which the rollout is looked at again, if its restart is due before the next resync.
unfoldable pub check_enqueue_rollout : ℤ → ℤ → Option ℤ → Option ℤ
check_enqueue_rollout now resync none = none
check_enqueue_rollout now resync (some t) =
    if ltb_ℤ t now then none else if ltb_ℤ t (now +ℤ resync) then some (t -ℤ now) else none

after_eviction : Eviction → Restarting → Restarting
after_eviction evicted s = record s {
  can_restart = int32 (s.can_restart -ℤ pos 1);
  restarted = s.restarted +ℤ pos 1;
}
after_eviction too_many_requests s = s
after_eviction eviction_failed s = record s { ended = true }

module _ (lib : IntStr) (evict : Pod → Eviction) where
  -- The body of the loop.
  unfoldable pub restart_pod : ℤ → Pod → Restarting → Restarting
  unfolding after_eviction
  restart_pod restart_at p s =
      let needed = record s { needs_restart = s.needs_restart +ℤ pos 1 } in
      if s.ended
      then s
      else if leb_ℤ restart_at p.creation_timestamp
      then s
      else if leb_ℤ s.can_restart (pos 0)
      then needed
      else if p.deleted
      then needed
      else after_eviction (evict p) needed

  unfoldable pub restart_pods : ℤ → List Pod → Restarting → Restarting
  restart_pods restart_at [] s = s
  restart_pods restart_at (p ∷ ps) s = restart_pods restart_at ps (restart_pod restart_at p s)

  unfoldable pub effective_min_available : Rollout → List ReplicaSet → ℤ
  effective_min_available ro all_rss = int32 (
      max_int (get_replicas_or_default ro.spec.replicas)
        (get_replica_count_for_replica_sets (map some all_rss))
      -ℤ max_int (max_unavailable lib ro) (pos 1))

  unfoldable pub first_restarting : Rollout → List ReplicaSet → List Pod → Restarting
  first_restarting ro all_rss pods = record {
    needs_restart = pos 0;
    can_restart =
        int32 (get_available_pod_count pods (pos 0) -ℤ effective_min_available ro all_rss);
    restarted = pos 0;
    ended = false;
  }

  -- What was restarted, and whether the status takes over the time of the restart.
  unfoldable pub reconcile_restart :
      ℤ → Option ℤ → Option ℤ → Rollout → List ReplicaSet → List Pod → Restarting × Bool
  reconcile_restart now restart_at restarted_at ro all_rss pods = elim restart_at [
    | none ↦ (no_restart, false)
    | some t ↦
        let s = restart_pods t pods (first_restarting ro all_rss pods) in
        if needs_restart now (some t) restarted_at
        then (s, not s.ended && eqb_ℤ (s.needs_restart -ℤ s.restarted) (pos 0))
        else (no_restart, false)
  ]
