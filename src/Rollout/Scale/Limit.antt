-- ===== src/Rollout/Scale/Limit.antt =====
-- How the scale-down delay keeps old ReplicaSets scaled up, one by one.
use argo_rollouts.Common.{
  ◌≡◌, refl, ◌∙◌, String, Bool, true, false, not, ◌&&◌, arith, ◌⊎◌, inl, inr, Bool-cases,
  if◌then◌else◌,
}
use argo_rollouts.Common.Int.{
  ℤ, pos, ltb_ℤ-cases, eqb_ℤ-cases, ltb_ℤ, eqb_ℤ, ◌+ℤ◌, ◌≤ℤ◌, ◌<ℤ◌, int32, int32_laws, eq_of_parts,
}
use argo_rollouts.Api.Rollout.{ReplicaSet}
use argo_rollouts.Rollout.Promote.{Context}
use argo_rollouts.Rollout.Scale.{
  write, remove_scale_down_delay, add_scale_down_delay, scale_replica_set,
  scale_replica_set_and_record_event, with_scale, is_replica_set_referenced,
  has_scale_down_deadline, get_scale_down_revision_limit,
}
use argo_rollouts.Rollout.Scale.OldReplicaSets.{
  Progress, Desired, drop_all, scale_to, scale_down_for_blue_green, give_deadline, keep_deadline,
  scale_down_delay_helper,
}
use argo_rollouts.Defaults.{get_replicas_or_default}

-- How the count of kept ReplicaSets and the replicas of one go on: not kept, or kept within the limit.
abbrev pub KeptWithin : ℤ → ℤ → ℤ → ℤ → Type 0
KeptWithin limit a b replicas =
    (a ≤ℤ b) × (b ≤ℤ a +ℤ pos 1) × ((replicas ≡ pos 0) ⊎ ((b ≡ a +ℤ pos 1) × (b ≤ℤ limit)))

three_ways :
    (a b : Bool) (x y z : Desired)
    → let r = if a then x else if b then y else z in (r ≡ x) ⊎ ((r ≡ y) ⊎ (r ≡ z))
three_ways a b x y z = ground arith

module _ (accepts : ReplicaSet → Bool) (looked_up : String → Bool) (now : ℤ) (c : Context)
    (accepted : (rs : ReplicaSet) → accepts rs ≡ true) where
  add_scale_down_delay-written :
      (rs : ReplicaSet) (delay : ℤ)
      → let w = add_scale_down_delay accepts now rs delay in
        (w.failed ≡ false) × (w.rs.replicas ≡ rs.replicas)
  unfolding add_scale_down_delay remove_scale_down_delay write
  add_scale_down_delay-written rs delay = elim (Bool-cases (eqb_ℤ delay (pos 0))) [
    | inr e ↦ rw (e, accepted _) (refl, refl)
    | inl e ↦ elim (Bool-cases (has_scale_down_deadline rs)) [
      | inl h ↦ rw (e, h, accepted _) (refl, refl)
      | inr h ↦ rw (e, h) (refl, refl)
    ]
  ]

  give_deadline-KeptWithin :
      (rs : ReplicaSet) (a : ℤ)
      → pos 0 ≤ℤ a
      → a <ℤ pos 2147483647
      → let d = give_deadline accepts looked_up now c rs a in
        (d.failed ≡ false)
        × (d.rs.replicas ≡ rs.replicas)
        × KeptWithin
            (get_scale_down_revision_limit c.rollout)
            a
            d.annotationed_rss
            d.desired_replica_count
  unfolding give_deadline
  give_deadline-KeptWithin rs a lo hi =
      let x : int32 (a +ℤ pos 1) ≡ a +ℤ pos 1 = eq_of_parts _ _ (omega int32_laws) in
      let w = add_scale_down_delay-written rs _ in
      elim (ltb_ℤ-cases a (get_scale_down_revision_limit c.rollout)) [
        | inl l ↦ rw l.0 (w.0, w.1, (omega int32_laws, omega int32_laws, inr (x, omega int32_laws)))
        | inr l ↦ rw l.0 (refl, refl, (omega int32_laws, omega int32_laws, inl refl))
      ]

  keep_deadline-KeptWithin :
      (rs : ReplicaSet) (a replicas : ℤ)
      → pos 0 ≤ℤ a
      → a <ℤ pos 2147483647
      → let d = keep_deadline accepts looked_up now c rs a replicas in
        (d.failed ≡ false)
        × (d.rs.replicas ≡ rs.replicas)
        × KeptWithin
            (get_scale_down_revision_limit c.rollout)
            a
            d.annotationed_rss
            d.desired_replica_count
  unfolding keep_deadline
  keep_deadline-KeptWithin rs a replicas lo hi =
      let x : int32 (a +ℤ pos 1) ≡ a +ℤ pos 1 = eq_of_parts _ _ (omega int32_laws) in
      elim (ltb_ℤ-cases (get_scale_down_revision_limit c.rollout) (int32 (a +ℤ pos 1))) [
        | inl l ↦ rw l.0 (refl, refl, (omega int32_laws, omega int32_laws, inl refl))
        | inr l ↦ rw l.0 (refl, refl, (omega int32_laws, omega int32_laws, inr (x, l.1)))
      ]

  helper-KeptWithin :
      (rs : ReplicaSet) (a replicas : ℤ)
      → pos 0 ≤ℤ a
      → a <ℤ pos 2147483647
      → let d = scale_down_delay_helper accepts looked_up now c rs a replicas in
        (d.failed ≡ false)
        × (d.rs.replicas ≡ rs.replicas)
        × KeptWithin
            (get_scale_down_revision_limit c.rollout)
            a
            d.annotationed_rss
            d.desired_replica_count
  unfolding scale_down_delay_helper
  helper-KeptWithin rs a replicas lo hi =
      elim (three_ways (not (has_scale_down_deadline rs) && ltb_ℤ (pos 0) rs.replicas)
        (has_scale_down_deadline rs) (give_deadline accepts looked_up now c rs a)
        (keep_deadline accepts looked_up now c rs a replicas) (drop_all rs a)) [
          | inl e ↦ rw e (give_deadline-KeptWithin rs a lo hi)
          | inr (inl e) ↦ rw e (keep_deadline-KeptWithin rs a replicas lo hi)
          | inr (inr e) ↦ rw e (refl, refl, (omega int32_laws, omega int32_laws, inl refl))
        ]

  resized :
      (rs : ReplicaSet) (n : ℤ)
      → eqb_ℤ rs.replicas n ≡ false
      → let w = scale_replica_set_and_record_event accepts c rs n in
        (w.failed ≡ false) × (w.rs.replicas ≡ n)
  unfolding scale_replica_set_and_record_event scale_replica_set write with_scale
  resized rs n e = rw (e, accepted (with_scale accepts c rs n)) (refl, refl)

  scale_to-scaled :
      (d : Desired) (p : Progress)
      → d.failed ≡ false
      → let r = scale_to accepts c d p in
        (r.1.ended ≡ p.ended)
        × (r.1.annotationed_rss ≡ d.annotationed_rss)
        × (r.0.replicas ≡ d.desired_replica_count)
  unfolding scale_to
  scale_to-scaled d p ok = elim (eqb_ℤ-cases d.rs.replicas d.desired_replica_count) [
    | inl e ↦ rw (ok, e.0) (refl, refl, e.1)
    | inr e ↦
        let w = resized d.rs d.desired_replica_count e.0 in rw (ok, e.0, w.0) (refl, refl, w.1)
  ]

  -- What the body of the loop does to a ReplicaSet that nothing refers to.
  pub step-KeptWithin :
      (rs : ReplicaSet) (p : Progress)
      → is_replica_set_referenced looked_up c.rollout rs ≡ false
      → p.ended ≡ false
      → pos 0 ≤ℤ p.annotationed_rss
      → p.annotationed_rss <ℤ pos 2147483647
      → let r = scale_down_for_blue_green accepts looked_up now c rs p in
        (r.1.ended ≡ false)
        × KeptWithin
            (get_scale_down_revision_limit c.rollout)
            p.annotationed_rss
            r.1.annotationed_rss
            r.0.replicas
  unfolding scale_down_for_blue_green
  step-KeptWithin rs p unref go lo hi =
      let d =
        scale_down_delay_helper accepts looked_up now c rs p.annotationed_rss
          (get_replicas_or_default c.rollout.spec.replicas) in
      let k =
        helper-KeptWithin rs p.annotationed_rss (get_replicas_or_default c.rollout.spec.replicas) lo
          hi in
      let s = scale_to-scaled d p k.0 in
      elim (eqb_ℤ-cases rs.replicas (pos 0)) [
        | inl z ↦ simp (go, unref, z.0) (refl, (omega int32_laws, omega int32_laws, inl z.1))
        | inr z ↦ simp (go, unref, z.0) (s.0 ∙ go, rw (s.1, s.2) k.2)
      ]
