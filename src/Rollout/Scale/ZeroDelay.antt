-- ===== src/Rollout/Scale/ZeroDelay.antt =====
-- What a scale-down delay of 0 seconds does to the old ReplicaSets of a blue-green rollout.
use argo_rollouts.Common.{
  ◌≡◌, refl, length, String, Bool, true, false, not, List, [], ◌∷◌, arith, ◌⊎◌, inl, inr,
  Bool-cases, is_none,
}
use argo_rollouts.Common.Int.{
  ℤ, pos, ltb_ℤ-cases, eqb_ℤ, ltb_ℤ, ◌+ℤ◌, ◌≤ℤ◌, int32, int32_laws, eq_of_parts,
}
use argo_rollouts.Api.IntStr.{IntStr}
use argo_rollouts.Api.Rollout.{ReplicaSet, inconclusive_analysis, BlueGreenStrategy}
use argo_rollouts.Defaults.{get_scale_down_delay_seconds_or_default}
use argo_rollouts.Rollout.Pause.{get_pause_condition}
use argo_rollouts.Rollout.Promote.{Context}
use argo_rollouts.Rollout.Scale.{
  remove_scale_down_delay, add_scale_down_delay, is_replica_set_referenced, has_scale_down_deadline,
  get_scale_down_revision_limit,
}
use argo_rollouts.Rollout.Scale.OldReplicaSets.{
  Progress, start_of, scale_to, scale_down_for_blue_green, give_deadline, scale_down_delay_helper,
  each, scale_down_old_replica_sets_for_blue_green, waits_for_analysis,
}
use argo_rollouts.Rollout.Scale.Kept.{three_results}

-- No ReplicaSet has a scale-down deadline, nor a negative size.
abbrev pub AllFresh : List ReplicaSet → Type 0
AllFresh [] = true ≡ true
AllFresh (rs ∷ rss) = (has_scale_down_deadline rs ≡ false) × (pos 0 ≤ℤ rs.replicas) × AllFresh rss

-- The ReplicaSet is as it was, and the loop goes on with at most one more annotated.
abbrev Untouched : ReplicaSet → Progress → ReplicaSet × Progress → Type 0
Untouched rs p r =
    (r.0 ≡ rs)
    × (r.1.ended ≡ false)
    × (pos 0 ≤ℤ r.1.annotationed_rss)
    × (r.1.annotationed_rss ≤ℤ p.annotationed_rss +ℤ pos 1)

positive : (n : ℤ) → pos 0 ≤ℤ n → eqb_ℤ n (pos 0) ≡ false → ltb_ℤ (pos 0) n ≡ true
positive n h e = ground arith

below : (a n limit : ℤ) → pos 0 ≤ℤ n → a +ℤ pos 1 +ℤ n ≤ℤ limit → ltb_ℤ a limit ≡ true
below a n limit h e = elim (ltb_ℤ-cases a limit) [ inl t ↦ t.0 | inr f ↦ absurd (omega int32_laws) ]

same : (n : ℤ) → eqb_ℤ n n ≡ true
same n = ground arith

next_count : (a : ℤ) → pos 0 ≤ℤ a → a +ℤ pos 1 ≤ℤ pos 2147483647 → int32 (a +ℤ pos 1) ≡ a +ℤ pos 1
next_count a lo hi = eq_of_parts _ _ (omega int32_laws)

module _ (accepts : ReplicaSet → Bool) (looked_up : String → Bool) (now : ℤ) (c : Context)
    (zero_delay : get_scale_down_delay_seconds_or_default c.rollout ≡ pos 0) where
  step-Untouched :
      (rs : ReplicaSet) (p : Progress)
      → p.ended ≡ false
      → has_scale_down_deadline rs ≡ false
      → pos 0 ≤ℤ rs.replicas
      → ltb_ℤ p.annotationed_rss (get_scale_down_revision_limit c.rollout) ≡ true
      → pos 0 ≤ℤ p.annotationed_rss
      → p.annotationed_rss +ℤ pos 1 ≤ℤ pos 2147483647
      → Untouched rs p (scale_down_for_blue_green accepts looked_up now c rs p)
  unfolding scale_down_for_blue_green scale_down_delay_helper give_deadline add_scale_down_delay
      remove_scale_down_delay scale_to
  step-Untouched rs p go free size within lo hi =
      elim (Bool-cases (is_replica_set_referenced looked_up c.rollout rs)) [
        | inl r ↦ simp (go, r) (refl, refl, lo, omega int32_laws)
        | inr r ↦ elim (Bool-cases (eqb_ℤ rs.replicas (pos 0))) [
          | inl z ↦ simp (go, r, z) (refl, refl, lo, omega int32_laws)
          | inr z ↦
              simp
                (
                  go,
                  r,
                  z,
                  zero_delay,
                  free,
                  positive rs.replicas size z,
                  within,
                  same rs.replicas,
                  next_count p.annotationed_rss lo hi,
                )
                (refl, refl, omega int32_laws, omega int32_laws)
        ]
      ]

  loop-kept :
      (rss : List ReplicaSet) (p : Progress)
      → p.ended ≡ false
      → AllFresh rss
      → pos 0 ≤ℤ p.annotationed_rss
      → p.annotationed_rss +ℤ pos (length rss) ≤ℤ get_scale_down_revision_limit c.rollout
      → get_scale_down_revision_limit c.rollout ≤ℤ pos 2147483647
      → (each (scale_down_for_blue_green accepts looked_up now c) rss p).0 ≡ rss
  unfolding each
  loop-kept [] p go fresh lo up hi = refl
  loop-kept (rs ∷ rss) p go (free, size, fresh) lo up hi =
      let s =
        step-Untouched rs p go free size
          (below p.annotationed_rss (pos (length rss)) _ (omega arith) (omega int32_laws)) lo
          (omega int32_laws) in
      let rest =
        loop-kept rss (scale_down_for_blue_green accepts looked_up now c rs p).1 s.1 fresh s.2
          (omega int32_laws) hi in
      rw (s.0, rest) refl

module _ (lib : IntStr) (accepts : ReplicaSet → Bool) (looked_up : String → Bool) (now : ℤ)
    (c : Context) (by_creation by_revision : List ReplicaSet → List ReplicaSet) where
  -- With a scale-down delay of 0 seconds, the blue-green scale-down gives back every old ReplicaSet as it
  -- was, in the order it was given or in the one by revision, whichever writes fail, if none of those by
  -- revision has a deadline or a negative size and they are no more than the revision limit, an int32:
  -- those with pods keep them, and none is given a deadline.
  pub zero_delay-kept_up :
      (skip : Bool) (b : BlueGreenStrategy) (old_rss : List ReplicaSet)
      → get_scale_down_delay_seconds_or_default c.rollout ≡ pos 0
      → AllFresh (by_revision old_rss)
      → pos (length (by_revision old_rss)) ≤ℤ get_scale_down_revision_limit c.rollout
      → get_scale_down_revision_limit c.rollout ≤ℤ pos 2147483647
      → let r =
          scale_down_old_replica_sets_for_blue_green lib accepts looked_up now c by_creation
            by_revision skip b old_rss in
        (r.0 ≡ old_rss) ⊎ (r.0 ≡ by_revision old_rss)
  unfolding scale_down_old_replica_sets_for_blue_green
  zero_delay-kept_up skip b old_rss zero_delay fresh few small =
      elim (three_results (not (is_none (get_pause_condition c.rollout inconclusive_analysis)))
        (waits_for_analysis lib accepts looked_up now c by_creation by_revision skip b)
        (old_rss, start_of (pos 0) (pos 0))
        (each (scale_down_for_blue_green accepts looked_up now c) (by_revision old_rss)
          (start_of (pos 0) (pos 0)))) [
            | inl e ↦ rw e (inl refl)
            | inr e ↦ rw e (
                inr (
                  loop-kept accepts looked_up now c zero_delay (by_revision old_rss)
                    (start_of (pos 0) (pos 0)) refl fresh (omega arith) (omega int32_laws) small))
          ]
