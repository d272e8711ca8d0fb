-- ===== src/Rollout/Restart/Budget.antt =====
-- How many pods one reconciliation restarts.
use argo_rollouts.Common.{
  ◌≡◌, refl, Bool, true, false, not, ◌&&◌, Option, none, some, List, [], ◌∷◌, arith, ◌⊎◌, inl, inr,
  Bool-cases, if◌then◌else◌,
}
use argo_rollouts.Common.Int.{
  ℤ, pos, leb_ℤ, eqb_ℤ, ◌+ℤ◌, ◌-ℤ◌, ◌≤ℤ◌, ◌<ℤ◌, int_laws, int32_laws, int32_of_range, negsuc,
}
use argo_rollouts.Api.IntStr.{IntStr}
use argo_rollouts.Api.Rollout.{Rollout, ReplicaSet}
use argo_rollouts.Rollout.Restart.{
  Pod, Eviction, evicted, too_many_requests, eviction_failed, Restarting, after_eviction,
  restart_pod, restart_pods, first_restarting, reconcile_restart, needs_restart,
  effective_min_available, get_available_pod_count,
}

second_of_and : (a b : Bool) → (a && b ≡ false) ⊎ (b ≡ true)
second_of_and a b = ground arith

-- The restarted pods are at most `room`, and at most those that need it.
abbrev pub Budgeted : ℤ → Restarting → Type 0
Budgeted room s =
    (pos 0 ≤ℤ s.restarted)
    × (s.restarted ≤ℤ s.needs_restart)
    × ((s.restarted ≤ℤ pos 0) ⊎ (pos 0 ≤ℤ s.can_restart))
    × (s.restarted +ℤ s.can_restart ≤ℤ room)
    × (s.can_restart ≤ℤ pos 2147483647)

positive : (n : ℤ) → leb_ℤ n (pos 0) ≡ false → pos 0 <ℤ n
positive n h = ground arith

choose :
    (room : ℤ) (a b m d : Bool) (s needed e : Restarting)
    → Budgeted room s
    → Budgeted room needed
    → (m ≡ false → Budgeted room e)
    → Budgeted room
        (if a then s else if b then s else if m then needed else if d then needed else e)
choose room true b m d s needed e hs hn he = hs
choose room false true m d s needed e hs hn he = hs
choose room false false true d s needed e hs hn he = hn
choose room false false false true s needed e hs hn he = hn
choose room false false false false s needed e hs hn he = he refl

module _ (lib : IntStr) (evict : Pod → Eviction) where
  after_eviction-Budgeted :
      (room : ℤ) (e : Eviction) (s : Restarting)
      → Budgeted room s
      → pos 0 <ℤ s.can_restart
      → s.restarted <ℤ s.needs_restart
      → Budgeted room (after_eviction e s)
  unfolding after_eviction
  after_eviction-Budgeted room evicted s (a, b, d, e, u) h k = (
    omega int32_laws,
    omega int32_laws,
    inr (omega int32_laws),
    omega int32_laws,
    omega int32_laws,
  )
  after_eviction-Budgeted room too_many_requests s b h k = b
  after_eviction-Budgeted room eviction_failed s b h k = b

  needed-Budgeted :
      (room : ℤ) (s : Restarting)
      → Budgeted room s
      → Budgeted room (record s { needs_restart = s.needs_restart +ℤ pos 1 })
  needed-Budgeted room s (a, b, d, e, u) = (a, omega int_laws, d, e, u)

  restart_pod-Budgeted :
      (room restart_at : ℤ) (p : Pod) (s : Restarting)
      → Budgeted room s
      → Budgeted room (restart_pod lib evict restart_at p s)
  unfolding restart_pod
  restart_pod-Budgeted room restart_at p s b =
      let needed = record s { needs_restart = s.needs_restart +ℤ pos 1 } in
      let n = needed-Budgeted room s b in
      choose room s.ended (leb_ℤ restart_at p.creation_timestamp) (leb_ℤ s.can_restart (pos 0))
        p.deleted s needed (after_eviction (evict p) needed) b n
        (λ m.
          after_eviction-Budgeted room (evict p) needed n (positive s.can_restart m)
            (omega int_laws))

  restart_pods-Budgeted :
      (room restart_at : ℤ) (ps : List Pod) (s : Restarting)
      → Budgeted room s
      → Budgeted room (restart_pods lib evict restart_at ps s)
  unfolding restart_pods
  restart_pods-Budgeted room restart_at [] s b = b
  restart_pods-Budgeted room restart_at (p ∷ ps) s b =
      restart_pods-Budgeted room restart_at ps (restart_pod lib evict restart_at p s)
        (restart_pod-Budgeted room restart_at p s b)

  room_left :
      (room available least : ℤ) (s : Restarting)
      → room ≡ available -ℤ least
      → Budgeted room s
      → (s.restarted ≤ℤ pos 0) ⊎ (least ≤ℤ available -ℤ s.restarted)
  room_left room available least s e (a, b, inl z, l, u) = inl z
  room_left room available least s e (a, b, inr p, l, u) =
      let l' : s.restarted +ℤ s.can_restart ≤ℤ available -ℤ least = rw⁻¹ e l in inr (omega int_laws)

  first-Budgeted :
      (ro : Rollout) (all_rss : List ReplicaSet) (pods : List Pod)
      → let spare =
          get_available_pod_count pods (pos 0) -ℤ effective_min_available lib evict ro all_rss in
        negsuc 2147483647 ≤ℤ spare
        → spare ≤ℤ pos 2147483647
        → Budgeted spare (first_restarting lib evict ro all_rss pods)
  unfolding first_restarting
  first-Budgeted ro all_rss pods low small =
      let whole = int32_of_range _ low small in
      rw whole (omega arith, omega arith, inl (omega arith), omega int_laws, small)

  -- One reconciliation restarts no more pods than need a restart, and none, or so few that the available
  -- pods less the restarted ones are still the minimum: the larger of the replicas and the pods that the
  -- ReplicaSets have, less the larger of maxUnavailable and 1. It takes over the time of the restart only
  -- if it restarted every pod that needs it. The spare of available pods is an int32.
  pub restart-WithinBudget :
      (now : ℤ) (restart_at restarted_at : Option ℤ) (ro : Rollout) (all_rss : List ReplicaSet)
      (pods : List Pod)
      → let spare =
          get_available_pod_count pods (pos 0) -ℤ effective_min_available lib evict ro all_rss in
        negsuc 2147483647 ≤ℤ spare
        → spare ≤ℤ pos 2147483647
        → let r = reconcile_restart lib evict now restart_at restarted_at ro all_rss pods in
          (r.0.restarted ≤ℤ r.0.needs_restart)
          × ((r.0.restarted ≤ℤ pos 0)
              ⊎ (effective_min_available lib evict ro all_rss
                  ≤ℤ get_available_pod_count pods (pos 0) -ℤ r.0.restarted))
          × ((r.1 ≡ false) ⊎ (eqb_ℤ (r.0.needs_restart -ℤ r.0.restarted) (pos 0) ≡ true))
  unfolding reconcile_restart
  restart-WithinBudget now none restarted_at ro all_rss pods low small =
      (omega arith, inl (omega arith), inl refl)
  restart-WithinBudget now (some t) restarted_at ro all_rss pods low small =
      let s = restart_pods lib evict t pods (first_restarting lib evict ro all_rss pods) in
      let b = restart_pods-Budgeted _ t pods _ (first-Budgeted ro all_rss pods low small) in
      elim (Bool-cases (needs_restart now (some t) restarted_at)) [
        | inr n ↦ rw n (omega arith, inl (omega arith), inl refl)
        | inl n ↦ rw n (
          b.1,
          room_left _ (get_available_pod_count pods (pos 0))
              (effective_min_available lib evict ro all_rss) s refl b,
          second_of_and (not s.ended) (eqb_ℤ (s.needs_restart -ℤ s.restarted) (pos 0)),
        )
      ]
