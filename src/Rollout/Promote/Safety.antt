-- ===== src/Rollout/Promote/Safety.antt =====
-- What has to hold for a promotion or a rollback.
use argo_rollouts.Common.{
  ◌≡◌, refl, ◌⊎◌, inl, inr, Bool, true, false, not, ◌&&◌, ◌||◌, ◌==◌, Option, none, some,
  Bool-cases, Option-cases, arith, if◌then◌else◌, is_some,
}
use argo_rollouts.Common.Int.{ℤ, pos, ltb_ℤ, ◌<ℤ◌, ◌≤ℤ◌}
use argo_rollouts.Float.{Float64}
use argo_rollouts.Api.Rollout.{RolloutStatus, ReplicaSet, CanaryStrategy, BlueGreenStrategy}
use argo_rollouts.Defaults.{get_replicas_or_default}
use argo_rollouts.ReplicaSet.TrafficRouted.{replica_progress_threshold_met}
use argo_rollouts.Rollout.Pause.{is_aborted}
use argo_rollouts.Rollout.Promote.{
  Context, PromoteReason, initial_deploy, full_promotion_requested, completed_blue_green_update,
  should_full_promote, should_promote_canary, should_promote_blue_green, canary_available,
  is_rollback, is_rollback_within_window, is_fast_rollback, window_size, fast_rollback_reason,
  completed_all_steps, phase_is_successful,
}

canary-tests :
    (aborted available : Bool) (rest : Option PromoteReason)
    → is_some (if aborted then none else if not available then none else rest) ≡ true
    → (aborted ≡ false) × (available ≡ true) × (is_some rest ≡ true)
canary-tests aborted available rest h = ground arith

blue_green-tests :
    (initial active verified : Bool) (rest : Option PromoteReason)
    → initial ≡ false
    → is_some (
        if initial
        then some initial_deploy
        else if not active
        then none
        else if not verified
        then none
        else rest)
      ≡ true
    → (active ≡ true) × (verified ≡ true) × (is_some rest ≡ true)
blue_green-tests initial active verified rest i h = ground arith

fast_rollback-tests :
    (c : Context) (rest : Option PromoteReason)
    → is_some (fast_rollback_reason c rest) ≡ true
    → (is_fast_rollback c ≡ true) ⊎ (is_some rest ≡ true)
unfolding fast_rollback_reason
fast_rollback-tests c rest h = elim (Bool-cases (is_fast_rollback c)) [
  | inl e ↦ inl e
  | inr e ↦ let h' = rw e at h in inr h'
]

requested_or :
    (asked : Bool) (rest : Option PromoteReason)
    → is_some (if asked then some full_promotion_requested else rest) ≡ true
    → (asked ≡ true) ⊎ (is_some rest ≡ true)
requested_or asked rest h = ground arith

when-some : (b : Bool) (r : PromoteReason) → is_some (if b then some r else none) ≡ true → b ≡ true
when-some b r h = ground arith

analysis-tests :
    (aborted asks passed : Bool)
    → is_some (
        if aborted
        then none
        else if asks && not passed
        then none
        else some completed_blue_green_update)
      ≡ true
    → (aborted ≡ false) × ((asks ≡ false) ⊎ (passed ≡ true))
analysis-tests aborted asks passed h = ground arith

enough :
    (available wanted : ℤ) (met : Bool)
    → not (ltb_ℤ available wanted && not met) ≡ true
    → (wanted ≤ℤ available) ⊎ (met ≡ true)
enough available wanted met h = ground arith

module _ (f : Float64) (c : Context) (new : RolloutStatus) where
  canary_available-cases :
      (canary : CanaryStrategy)
      → canary_available f c canary ≡ true
      → (rs : ReplicaSet) × (c.new_rs ≡ some rs)
        × ((get_replicas_or_default c.rollout.spec.replicas ≤ℤ rs.available_replicas)
            ⊎ (replica_progress_threshold_met f canary.replica_progress_threshold
                  (some rs)
                  (get_replicas_or_default c.rollout.spec.replicas)
                ≡ true))
  unfolding canary_available
  canary_available-cases canary h = elim (Option-cases c.new_rs) [
    | inl e ↦ let h' = simp (canary_available, e) at h in ground arith
    | inr (rs, e) ↦
        let h' = simp (canary_available, e) at h in
        (rs, e, enough rs.available_replicas (get_replicas_or_default c.rollout.spec.replicas) _ h')
  ]

  -- A canary that has a stable ReplicaSet is promoted in full only if it is not aborted and its new
  -- ReplicaSet has all the rollout's replicas available or meets its replicaProgressThreshold for them,
  -- and only on a request, as a fast rollback, or after the last step.
  pub canary_promoted-guarded :
      (stable : ReplicaSet) (canary : CanaryStrategy)
      → c.stable_rs ≡ some stable
      → c.rollout.spec.canary ≡ some canary
      → is_some (should_full_promote f c new) ≡ true
      → (is_aborted c.pause_context ≡ false)
        × ((rs : ReplicaSet) × (c.new_rs ≡ some rs)
            × ((get_replicas_or_default c.rollout.spec.replicas ≤ℤ rs.available_replicas)
                ⊎ (replica_progress_threshold_met f canary.replica_progress_threshold
                      (some rs)
                      (get_replicas_or_default c.rollout.spec.replicas)
                    ≡ true)))
        × ((c.rollout.status.promote_full ≡ true)
            ⊎ (is_fast_rollback c ≡ true)
            ⊎ (completed_all_steps c.rollout ≡ true))
  unfolding should_full_promote should_promote_canary
  canary_promoted-guarded stable canary s k h =
      let h' = simp (should_full_promote, s, k) at h in
      let (a, v, r) = canary-tests _ _ _ h' in
      (
        a,
        canary_available-cases canary v,
        elim (requested_or _ _ r) [
          | inl p ↦ inl p
          | inr q ↦ elim (fast_rollback-tests c _ q) [
            | inl x ↦ inr (inl x)
            | inr y ↦ inr (inr (when-some _ _ y))
          ]
        ],
      )

  -- A blue-green rollout, without a canary strategy, that has a stable ReplicaSet and whose active service
  -- selects some hash is promoted in full only if that is the hash of the current ReplicaSet and the targets
  -- are verified; without a request or a fast rollback it is moreover not aborted, and a post-promotion
  -- analysis has to be successful.
  pub blue_green_promoted-guarded :
      (stable : ReplicaSet) (b : BlueGreenStrategy)
      → c.stable_rs ≡ some stable
      → c.rollout.spec.canary ≡ none
      → c.rollout.spec.blue_green ≡ some b
      → (new.active_selector == "") ≡ false
      → is_some (should_full_promote f c new) ≡ true
      → ((new.active_selector == new.current_pod_hash) ≡ true)
        × (c.targets_verified ≡ true)
        × ((c.rollout.status.promote_full ≡ true)
            ⊎ (is_fast_rollback c ≡ true)
            ⊎ ((is_aborted c.pause_context ≡ false)
                × ((b.post_promotion_analysis ≡ false)
                    ⊎ (phase_is_successful c.post_promotion_analysis ≡ true))))
  unfolding should_full_promote should_promote_blue_green
  blue_green_promoted-guarded stable b s k g e h =
      let h' = simp (should_full_promote, s, k, g) at h in
      let (a, v, r) = blue_green-tests _ _ _ _ e h' in
      (
        a,
        v,
        elim (requested_or _ _ r) [
          | inl p ↦ inl p
          | inr q ↦ elim (fast_rollback-tests c _ q) [
            | inl x ↦ inr (inl x)
            | inr y ↦ inr (inr (analysis-tests _ _ _ y))
          ]
        ],
      )

window-tests :
    (a b r k : ℤ) → (ltb_ℤ a b && (ltb_ℤ (pos 0) r && ltb_ℤ k r)) ≡ true → (a <ℤ b) × (k <ℤ r)
window-tests a b r k h = ground arith

or-right : (a b : Bool) → b ≡ true → (a || b) ≡ true
or-right true b h = refl
or-right false b h = h

module _ (c : Context) where
  is_rollback-older :
      (new stable : ReplicaSet)
      → c.new_rs ≡ some new
      → c.stable_rs ≡ some stable
      → new.creation_timestamp <ℤ stable.creation_timestamp
      → is_rollback c ≡ true
  unfolding is_rollback
  is_rollback-older new stable n s l =
      simp (is_rollback, n, s)
        (or-right _ (ltb_ℤ new.creation_timestamp stable.creation_timestamp) (ground arith))

  fast_of_window :
      is_rollback c ≡ true → is_rollback_within_window c ≡ true → is_fast_rollback c ≡ true
  unfolding is_fast_rollback
  fast_of_window r w = rw (r, w) refl

  -- A rollback within the window is a rollback, to a ReplicaSet older than the stable one with fewer
  -- ReplicaSets between the two than the window has revisions.
  pub rollback_within_window-is_rollback :
      (new stable : ReplicaSet) (revisions : ℤ)
      → c.new_rs ≡ some new
      → c.stable_rs ≡ some stable
      → c.rollout.spec.rollback_window ≡ some revisions
      → is_rollback_within_window c ≡ true
      → (is_rollback c ≡ true)
        × (is_fast_rollback c ≡ true)
        × (new.creation_timestamp <ℤ stable.creation_timestamp)
        × (pos (window_size new stable c.all_rss) <ℤ revisions)
  unfolding is_rollback_within_window
  rollback_within_window-is_rollback new stable revisions n s w h =
      let h' = simp (is_rollback_within_window, n, s, w) at h in
      let (b, z) =
        window-tests new.creation_timestamp stable.creation_timestamp revisions
          (pos (window_size new stable c.all_rss)) h' in
      let r = is_rollback-older new stable n s b in (r, fast_of_window r h, b, z)
