-- ===== src/ReplicaSet/Basic/Limit.antt =====
-- The pod limit that the plan of `CalculateReplicaCountsForBasicCanary` of
-- utils/replicaset/canary.go keeps.
use mathlib.Core.Path.{subst}
use argo_rollouts.Common.{
  ℕ, zero, suc, ◌*◌, ◌≤◌, ◌<◌, ◌≡◌, true, Option, none, some, List, arith, ◌⊎◌, inl, inr,
  Bool-cases, if◌then◌else◌,
}
use argo_rollouts.Common.Int.{
  ℤ, pos, negsuc, ltb_ℤ, ltb_ℤ-cases, ◌+ℤ◌, ◌-ℤ◌, ◌≤ℤ◌, int32, int32_laws, eq_of_parts,
}
use argo_rollouts.Float.{Float64}
use argo_rollouts.Api.IntStr.{IntStr}
use argo_rollouts.Api.Rollout.{Rollout, ReplicaSet}
use argo_rollouts.Defaults.{get_replicas_or_default, max_traffic_weight}
use argo_rollouts.ReplicaSet.Counts.{get_replica_count_for_replica_sets, check_stable_rs_exists}
use argo_rollouts.ReplicaSet.Weight.{get_canary_replicas_or_weight}
use argo_rollouts.ReplicaSet.Fenceposts.{max_surge, max_unavailable}
use argo_rollouts.ReplicaSet.Approximate.{approximate_weighted_canary_stable_replica_counts}
use argo_rollouts.ReplicaSet.Approximate.Bounds.{counts_split}
use argo_rollouts.ReplicaSet.Basic.{
  Plan, replicas_of, scale_up, scale_down, desired_counts, all_rss,
  calculate_replica_counts_for_basic_canary,
}
use argo_rollouts.ReplicaSet.Basic.Bounds.{Small, Sized}
use argo_rollouts.ReplicaSet.Basic.Surge.{
  SmallPlan, Grown, stable_now, scale_up-Grown, total_parts, scale_down-within,
}

abbrev Modest : ℤ → Type 0
Modest z = (pos 0 ≤ℤ z) × (z ≤ℤ pos 16777216)

abbrev Tiny : ℤ → Type 0
Tiny z = (negsuc 8388607 ≤ℤ z) × (z ≤ℤ pos 8388608)

abbrev TinySized : Option ReplicaSet → Type 0
TinySized none = Unit {0}
TinySized (some rs) = Tiny rs.replicas × Tiny rs.available_replicas

TinySized-Sized : (rs : Option ReplicaSet) → TinySized rs → Sized rs
TinySized-Sized none h = tt
TinySized-Sized (some rs) h = (omega arith, omega arith)

TinySized-Tiny : (rs : Option ReplicaSet) → TinySized rs → Tiny (replicas_of rs)
TinySized-Tiny none h = omega arith
TinySized-Tiny (some rs) h = h.0

TinySized-now :
    (new_rs stable_rs : Option ReplicaSet)
    → TinySized stable_rs
    → Tiny (stable_now new_rs stable_rs)
TinySized-now new_rs none h = ground arith
TinySized-now new_rs (some rs) h = ground arith

-- Inputs for which no int32 sum of the plan overflows: the rollout's numbers are not negative and at
-- most 2^24, the ReplicaSets' are within 2^23, and the weight lies between 0 and the maximum.
pub record InBounds (f : Float64) (lib : IntStr) (ro : Rollout)
    (new_rs stable_rs : Option ReplicaSet) (old_rss : List (Option ReplicaSet)) : Type 0 where
  pub new_sized : TinySized new_rs
  pub stable_sized : TinySized stable_rs
  pub old_tiny : Tiny (get_replica_count_for_replica_sets old_rss)
  pub spec : ℕ
  pub weight : ℕ
  pub top : ℕ
  pub spec_eq : get_replicas_or_default ro.spec.replicas ≡ pos spec
  pub weight_eq : (get_canary_replicas_or_weight f ro new_rs stable_rs).1 ≡ pos weight
  pub top_eq : max_traffic_weight ro ≡ pos top
  pub spec_modest : spec ≤ 16777216
  pub weight_in_range : weight ≤ top
  pub top_positive : 0 < top
  pub product_in_range : spec * top ≤ 2147483647
  pub surge_modest : Modest (max_surge lib ro)
  pub unavailable_modest : Modest (max_unavailable lib ro)

-- The approximated counts are small for every number of replicas.
approximate-Small :
    (f : Float64) (n w m : ℕ) (surge : ℤ)
    → w ≤ m
    → 0 < m
    → n * m ≤ 2147483647
    → pos 0 ≤ℤ surge
    → n ≤ 16777216
    → let r = approximate_weighted_canary_stable_replica_counts f (pos n) (pos w) (pos m) surge in
      Small r.0 × Small r.1
unfolding approximate_weighted_canary_stable_replica_counts
approximate-Small f zero w m surge hw hm hp hs ht = (omega arith, omega arith)
approximate-Small f (suc n) w m surge hw hm hp hs ht =
    let (c, s, e, sum) = counts_split f (suc n) w m hw hm hp (omega arith) surge hs ht in
    rw e (omega arith, omega arith)

-- The bound on the plan, from the bounds on its stages.
combine :
    (old new0 stable0 room limit total pods before : ℤ)
    → room ≡ limit -ℤ total
    → total ≡ old +ℤ new0 +ℤ stable0
    → (before ≤ℤ new0 +ℤ stable0 +ℤ room) ⊎ (before ≤ℤ new0 +ℤ stable0)
    → pods ≤ℤ before
    → (pods +ℤ old ≤ℤ limit) ⊎ (pods +ℤ old ≤ℤ total)
combine old new0 stable0 room limit total pods before e t (inl g) h =
    let g' = rw (e, t) at g in inl (omega int32_laws)
combine old new0 stable0 room limit total pods before e t (inr g) h = inr (rw t (omega int32_laws))

room_bounds :
    (limit total old new0 now : ℤ)
    → (pos 0 ≤ℤ limit) × (limit ≤ℤ pos 33554432)
    → Tiny old
    → Tiny new0
    → Tiny now
    → total ≡ old +ℤ new0 +ℤ now
    → Small (int32 (limit -ℤ total)) × (int32 (limit -ℤ total) ≡ limit -ℤ total)
room_bounds limit total old new0 now hl ho hn hs e =
    rw e (omega int32_laws, eq_of_parts _ _ (omega int32_laws))

abbrev Kept : ℤ → ℤ → ℤ → Plan → Type 0
Kept old limit total p = (p.new +ℤ p.stable +ℤ old ≤ℤ limit) ⊎ (p.new +ℤ p.stable +ℤ old ≤ℤ total)

module _ (new_rs stable_rs : Option ReplicaSet) (wanted : Plan) (old limit total min_available : ℤ)
    (hn : Sized new_rs) (hs : Sized stable_rs) (hw : SmallPlan wanted) (hl : Small limit)
    (hm : Small min_available) (room : ℤ) (hr : Small room) (e : room ≡ limit -ℤ total)
    (t : total ≡ old +ℤ replicas_of new_rs +ℤ stable_now new_rs stable_rs) where
  abbrev up : Plan
  up = scale_up new_rs stable_rs wanted room

  grown : Grown new_rs (stable_now new_rs stable_rs) room up
  grown = scale_up-Grown new_rs stable_rs wanted room hn hs hw hr

  stable_grown : check_stable_rs_exists new_rs stable_rs ≡ true → replicas_of stable_rs ≤ℤ up.stable
  stable_grown b = let g = grown.2 in rw b at g

  no_old :
      old ≤ℤ pos 0
      → Kept old limit total (scale_down new_rs stable_rs wanted up limit min_available)
  no_old z =
      elim (scale_down-within stable_rs wanted up limit min_available hs hw grown.0 hl hm new_rs hn
        grown.1 stable_grown) [
          | inl h ↦ inl (omega int32_laws)
          | inr h ↦ combine old _ _ room limit total _ _ e t grown.3 h
        ]

  staged-Kept :
      Kept old limit total (
        if ltb_ℤ (pos 0) old then up else scale_down new_rs stable_rs wanted up limit min_available)
  staged-Kept = elim (ltb_ℤ-cases (pos 0) old) [
    | inl o ↦ rw o.0 (combine old _ _ room limit total _ _ e t grown.3 (omega arith))
    | inr o ↦ rw o.0 (no_old o.1)
  ]

module _ (f : Float64) (lib : IntStr) (ro : Rollout) (new_rs stable_rs : Option ReplicaSet)
    (old_rss : List (Option ReplicaSet)) (h : InBounds f lib ro new_rs stable_rs old_rss) where
  open h use {spec, weight, top, spec_eq, weight_eq, top_eq, surge_modest}

  desired-SmallPlan : SmallPlan (desired_counts f lib ro new_rs stable_rs)
  unfolding desired_counts
  desired-SmallPlan = elim (Bool-cases (check_stable_rs_exists new_rs stable_rs)) [
    | inr n ↦ rw (n, spec_eq) (omega (arith, h.spec_modest))
    | inl e ↦
        rw (e, spec_eq, weight_eq, top_eq)
          (approximate-Small f spec weight top (max_surge lib ro) h.weight_in_range h.top_positive
            h.product_in_range surge_modest.0 h.spec_modest)
  ]

  old-Small : Small (get_replica_count_for_replica_sets old_rss)
  old-Small = let o = h.old_tiny in omega arith

  abbrev limit : ℤ
  limit = int32 (get_replicas_or_default ro.spec.replicas +ℤ max_surge lib ro)

  limit_exact : limit ≡ get_replicas_or_default ro.spec.replicas +ℤ max_surge lib ro
  limit_exact = rw spec_eq (eq_of_parts _ _ (omega (int32_laws, h.spec_modest, surge_modest)))

  limit_range : (pos 0 ≤ℤ limit) × (limit ≤ℤ pos 33554432)
  limit_range = rw (limit_exact, spec_eq) (omega (int32_laws, h.spec_modest, surge_modest))

  min_available-Small :
      Small (int32 (get_replicas_or_default ro.spec.replicas -ℤ max_unavailable lib ro))
  min_available-Small = rw spec_eq (omega (int32_laws, h.spec_modest, h.unavailable_modest))

  -- For inputs in bounds, the plan and the old ReplicaSets together have no more pods than the rollout's
  -- replicas and its maxSurge, or no more than all the ReplicaSets have now.
  pub pods_within_limit :
      let plan = calculate_replica_counts_for_basic_canary f lib ro new_rs stable_rs old_rss in
      let old = get_replica_count_for_replica_sets old_rss in
      (plan.new +ℤ plan.stable +ℤ old
        ≤ℤ get_replicas_or_default ro.spec.replicas +ℤ max_surge lib ro)
      ⊎ (plan.new +ℤ plan.stable +ℤ old
          ≤ℤ get_replica_count_for_replica_sets (all_rss new_rs stable_rs old_rss))
  unfolding calculate_replica_counts_for_basic_canary
  pods_within_limit =
      let new_tiny = TinySized-Tiny new_rs h.new_sized in
      let now_tiny = TinySized-now new_rs stable_rs h.stable_sized in
      let stable_size = TinySized-Sized stable_rs h.stable_sized in
      let new_size = TinySized-Sized new_rs h.new_sized in
      let total = total_parts new_rs stable_rs old_rss new_size stable_size old-Small in
      let (room_small, room_exact) =
        room_bounds _ _ _ _ _ limit_range h.old_tiny new_tiny now_tiny total in
      subst
        (λ l.
          Kept (get_replica_count_for_replica_sets old_rss) l
            (get_replica_count_for_replica_sets (all_rss new_rs stable_rs old_rss))
            (calculate_replica_counts_for_basic_canary f lib ro new_rs stable_rs old_rss))
        limit_exact
        (staged-Kept new_rs stable_rs (desired_counts f lib ro new_rs stable_rs) _ _ _ _ new_size
          stable_size desired-SmallPlan (omega (arith, limit_range)) min_available-Small _
          room_small room_exact total)
