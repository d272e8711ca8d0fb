-- ===== src/Rollout/Traffic/Guards.antt =====
-- When the canary gets traffic, and that an abort only takes it away.
use argo_rollouts.Common.{
  ◌≡◌, refl, Bool, true, false, ◌||◌, Option, none, some, arith, ◌⊎◌, inl, inr, if◌then◌else◌,
  is_some, is_none, ◌≢◌,
}
use argo_rollouts.Common.Int.{ℤ, pos, eqb_ℤ, ◌≤ℤ◌}
use argo_rollouts.Float.{Float64}
use argo_rollouts.Api.IntStr.{IntStr}
use argo_rollouts.Api.Rollout.{Rollout, ReplicaSet, TrafficWeights}
use argo_rollouts.Rollout.Pause.{is_aborted}
use argo_rollouts.Rollout.Promote.{Context}
use argo_rollouts.Rollout.Scale.OldReplicaSets.{is_fully_promoted}
use argo_rollouts.Rollout.Traffic.{
  min_int, desired_weight, forward_weight, available_of, is_dynamically_rolling_back_to_stable,
  calculate_desired_weight_on_abort_or_stable_rollback, weight_on_the_way_back,
}

min_int_right : (a b : ℤ) → min_int a b ≤ℤ b
unfolding min_int
min_int_right a b = ground arith

-- The weight of one of the branches, each of them at most `top`.
one_of :
    (a b : Bool) (x y z top : ℤ)
    → x ≤ℤ top
    → y ≤ℤ top
    → z ≤ℤ top
    → (if a then x else if b then y else z) ≤ℤ top
one_of true b x y z top hx hy hz = hx
one_of false true x y z top hx hy hz = hy
one_of false false x y z top hx hy hz = hz

of_both :
    (stable new : Option ReplicaSet) (stop : Bool) (weight : ReplicaSet → ReplicaSet → ℤ) (top : ℤ)
    → pos 0 ≤ℤ top
    → ((n s : ReplicaSet) → weight n s ≤ℤ top)
    → (elim stable [
      | none ↦ pos 0
      | some s ↦ elim new [ none ↦ pos 0 | some n ↦ if stop then pos 0 else weight n s ]
    ])
      ≤ℤ top
of_both none new stop weight top lo h = lo
of_both (some s) none stop weight top lo h = lo
of_both (some s) (some n) true weight top lo h = lo
of_both (some s) (some n) false weight top lo h = h n s

guarded :
    (back promoted aborted missing : Bool) (x y : ℤ)
    → (if back
        then x
        else if promoted
        then pos 0
        else if aborted
        then x
        else if missing
        then pos 0
        else y)
      ≢ pos 0
    → (back ≡ true) ⊎ ((promoted ≡ false) × ((aborted ≡ true) ⊎ (missing ≡ false)))
guarded true promoted aborted missing x y h = inl refl
guarded false true aborted missing x y h = elim (h refl) [ ]
guarded false false true missing x y h = inr (refl, inl refl)
guarded false false false true x y h = elim (h refl) [ ]
guarded false false false false x y h = inr (refl, inr refl)

neither :
    (a : Option ReplicaSet) (b : Bool) → (is_none a || b) ≡ false → (is_some a ≡ true) × (b ≡ false)
neither none b h = ground arith
neither (some _) b h = (refl, h)

module _ (f : Float64) where
  back-bounded :
      (ro : Rollout) (new stable : ReplicaSet) (w : TrafficWeights)
      → weight_on_the_way_back f ro new stable (some w) ≤ℤ w.canary.weight
  unfolding weight_on_the_way_back
  back-bounded ro new stable w =
      one_of _ _ _ w.canary.weight _ w.canary.weight (min_int_right _ w.canary.weight) (omega arith)
        (min_int_right _ w.canary.weight)

  -- On an abort or a rollback to the stable ReplicaSet, the canary's weight is never raised above the one
  -- that the status has, if that one is not negative: a canary that lost traffic does not get it back
  -- when stable pods come and go.
  pub way_back-bounded :
      (c : Context) (w : TrafficWeights)
      → c.rollout.status.weights ≡ some w
      → pos 0 ≤ℤ w.canary.weight
      → calculate_desired_weight_on_abort_or_stable_rollback f c ≤ℤ w.canary.weight
  unfolding calculate_desired_weight_on_abort_or_stable_rollback
  way_back-bounded c w e lo =
      of_both c.stable_rs c.new_rs _
        (λ n s. weight_on_the_way_back f c.rollout n s c.rollout.status.weights) w.canary.weight lo
        (λ n s. simp (e) (back-bounded c.rollout n s w))

  module _ (lib : IntStr) where
    -- The canary gets traffic only on the way back to the stable ReplicaSet or on an abort, or else if
    -- the rollout is in an update and the new ReplicaSet has an available pod.
    pub canary_weight-guarded :
        (c : Context)
        → desired_weight f lib c ≢ pos 0
        → (is_some (is_dynamically_rolling_back_to_stable c.rollout c.new_rs) ≡ true)
          ⊎ ((is_fully_promoted c.rollout ≡ false)
              × ((is_aborted c.pause_context ≡ true)
                  ⊎ ((is_some c.new_rs ≡ true) × (eqb_ℤ (available_of c.new_rs) (pos 0) ≡ false))))
    unfolding desired_weight
    canary_weight-guarded c h =
        elim (guarded (is_some (is_dynamically_rolling_back_to_stable c.rollout c.new_rs))
          (is_fully_promoted c.rollout) (is_aborted c.pause_context)
          (is_none c.new_rs || eqb_ℤ (available_of c.new_rs) (pos 0))
          (calculate_desired_weight_on_abort_or_stable_rollback f c) (forward_weight f lib c) h) [
            | inl b ↦ inl b
            | inr (p, inl a) ↦ inr (p, inl a)
            | inr (p, inr n) ↦ inr (p, inr (neither c.new_rs _ n))
          ]
