-- ===== src/ReplicaSet/Basic/Surge.antt =====
-- How the stages of `CalculateReplicaCountsForBasicCanary` change the number of pods.
use argo_rollouts.Common.{
  ◌≡◌, refl, Bool, true, false, not, Option, none, some, List, [], ◌∷◌, ◌++◌, arith, ◌⊎◌, inl, inr,
  Bool-cases, if◌then◌else◌,
}
use argo_rollouts.Common.Int.{
  ℤ, pos, leb_ℤ-cases, ◌+ℤ◌, ◌-ℤ◌, ◌≤ℤ◌, ◌<ℤ◌, int32, int32_laws, eq_of_parts,
}
use argo_rollouts.Api.Rollout.{ReplicaSet}
use argo_rollouts.ReplicaSet.Counts.{
  sum_from, get_replica_count_for_replica_sets, check_stable_rs_exists,
}
use argo_rollouts.ReplicaSet.Basic.{
  Plan, replicas_of, scale_up_new, calculate_scale_down_replica_count, adjust_replica_within_limits,
  is_increasing, replicas_to_scale_down, scale_down_by, scale_down, scale_up, all_rss,
}
use argo_rollouts.ReplicaSet.Basic.Bounds.{
  Small, Sized, Within, scale_up_stable-Fits, scale_up_new-bound, for_scale_down-Small,
  drained_bounds, adjust-Within,
}

abbrev pub SmallPlan : Plan → Type 0
SmallPlan p = Small p.new × Small p.stable

abbrev pub PlanWithin : ℤ → ℤ → Plan → Type 0
PlanWithin limit before p = (p.new +ℤ p.stable ≤ℤ limit) ⊎ (p.new +ℤ p.stable ≤ℤ before)

-- The room for a scale-down, once there is any.
down_bounds :
    (increasing : Bool) (new_rs stable_rs : Option ReplicaSet) (min_available : ℤ)
    → Sized new_rs
    → Sized stable_rs
    → Small min_available
    → let total = replicas_to_scale_down increasing new_rs stable_rs in
      min_available <ℤ total
      → (pos 0 ≤ℤ int32 (total -ℤ min_available))
        × (int32 (total -ℤ min_available) ≤ℤ pos 536870912)
unfolding replicas_to_scale_down
down_bounds increasing new_rs stable_rs min_available hn hs hm h =
    let n = for_scale_down-Small new_rs (not increasing) hn in
    let s = for_scale_down-Small stable_rs increasing hs in omega int32_laws

swap_within :
    (limit before : ℤ) (r : ℤ × ℤ)
    → Within limit before r
    → (r.1 +ℤ r.0 ≤ℤ limit) ⊎ (r.1 +ℤ r.0 ≤ℤ before)
swap_within limit before r h = omega int32_laws

module _ (stable_rs : Option ReplicaSet) (wanted plan : Plan) (limit min_available : ℤ)
    (hs : Sized stable_rs) (hw : SmallPlan wanted) (hp : SmallPlan plan) (hl : Small limit)
    (hm : Small min_available) where
  drain_new-Within :
      (new_rs : Option ReplicaSet) (down : ℤ)
      → Sized new_rs
      → replicas_of new_rs ≤ℤ plan.new
      → pos 0 ≤ℤ down
      → down ≤ℤ pos 536870912
      → Within limit (plan.new +ℤ plan.stable) (
          adjust_replica_within_limits new_rs stable_rs
            (calculate_scale_down_replica_count new_rs wanted.new down plan.new)
            plan.stable
            limit
            min_available)
  drain_new-Within new_rs down hn le lo hi =
      let d = drained_bounds new_rs wanted.new down plan.new hn hw.0 hp.0 le lo hi in
      adjust-Within new_rs stable_rs _ plan.stable limit min_available (plan.new +ℤ plan.stable) hs
        d.0 hp.1 hl (omega int32_laws)

  drain_stable-Within :
      (new_rs : Option ReplicaSet) (down : ℤ)
      → Sized new_rs
      → replicas_of stable_rs ≤ℤ plan.stable
      → pos 0 ≤ℤ down
      → down ≤ℤ pos 536870912
      → Within limit (plan.new +ℤ plan.stable) (
          adjust_replica_within_limits stable_rs new_rs
            (calculate_scale_down_replica_count stable_rs wanted.stable down plan.stable)
            plan.new
            limit
            min_available)
  drain_stable-Within new_rs down hn le lo hi =
      let d = drained_bounds stable_rs wanted.stable down plan.stable hs hw.1 hp.1 le lo hi in
      adjust-Within stable_rs new_rs _ plan.new limit min_available (plan.new +ℤ plan.stable) hn d.0
        hp.0 hl (omega int32_laws)

  -- What the scale-down makes of a plan is within the limit, or no larger than the plan.
  scale_down_by-within :
      (increasing : Bool) (new_rs : Option ReplicaSet) (down : ℤ)
      → Sized new_rs
      → replicas_of new_rs ≤ℤ plan.new
      → (check_stable_rs_exists new_rs stable_rs ≡ true → replicas_of stable_rs ≤ℤ plan.stable)
      → pos 0 ≤ℤ down
      → down ≤ℤ pos 536870912
      → PlanWithin limit
          (plan.new +ℤ plan.stable)
          (scale_down_by increasing new_rs stable_rs wanted plan limit min_available down)
  unfolding scale_down_by
  scale_down_by-within false new_rs down hn ln ls lo hi = drain_new-Within new_rs down hn ln lo hi
  scale_down_by-within true new_rs down hn ln ls lo hi =
      elim (Bool-cases (check_stable_rs_exists new_rs stable_rs)) [
        | inr n ↦ rw n (inr (omega arith))
        | inl e ↦ rw e (swap_within limit _ _ (drain_stable-Within new_rs down hn (ls e) lo hi))
      ]

  pub scale_down-within :
      (new_rs : Option ReplicaSet)
      → Sized new_rs
      → replicas_of new_rs ≤ℤ plan.new
      → (check_stable_rs_exists new_rs stable_rs ≡ true → replicas_of stable_rs ≤ℤ plan.stable)
      → PlanWithin limit
          (plan.new +ℤ plan.stable)
          (scale_down new_rs stable_rs wanted plan limit min_available)
  unfolding scale_down
  scale_down-within new_rs hn ln ls =
      let increasing = is_increasing new_rs wanted.new in
      elim (leb_ℤ-cases (replicas_to_scale_down increasing new_rs stable_rs) min_available) [
        | inl stop ↦ rw stop.0 (inr (omega arith))
        | inr go ↦
            let d = down_bounds increasing new_rs stable_rs min_available hn hs hm go.1 in
            rw go.0 (scale_down_by-within increasing new_rs _ hn ln ls d.0 d.1)
      ]

-- The scale-up never lowers a count, and the counts together grow by no more than the room.
abbrev pub Grown : Option ReplicaSet → ℤ → ℤ → Plan → Type 0
Grown new_rs stable room p =
    SmallPlan p
    × (replicas_of new_rs ≤ℤ p.new)
    × (stable ≤ℤ p.stable)
    × ((p.new +ℤ p.stable ≤ℤ replicas_of new_rs +ℤ stable +ℤ room)
        ⊎ (p.new +ℤ p.stable ≤ℤ replicas_of new_rs +ℤ stable))

abbrev pub stable_now : Option ReplicaSet → Option ReplicaSet → ℤ
stable_now new_rs stable_rs =
    if check_stable_rs_exists new_rs stable_rs then replicas_of stable_rs else pos 0

stable_now-Small :
    (new_rs stable_rs : Option ReplicaSet) → Sized stable_rs → Small (stable_now new_rs stable_rs)
stable_now-Small new_rs none h = ground arith
stable_now-Small new_rs (some rs) h = ground arith

grown_total :
    (new0 stable0 room new stable rest : ℤ)
    → stable +ℤ rest ≤ℤ stable0 +ℤ room
    → (stable ≤ℤ stable0 +ℤ room) ⊎ (stable ≤ℤ stable0)
    → (new ≤ℤ new0 +ℤ rest) ⊎ (new ≡ new0)
    → (new +ℤ stable ≤ℤ new0 +ℤ stable0 +ℤ room) ⊎ (new +ℤ stable ≤ℤ new0 +ℤ stable0)
grown_total new0 stable0 room new stable rest h k (inl n) = inl (omega int32_laws)
grown_total new0 stable0 room new stable rest h (inl k) (inr n) = rw n (inl (omega int32_laws))
grown_total new0 stable0 room new stable rest h (inr k) (inr n) = rw n (inr (omega int32_laws))

pub scale_up-Grown :
    (new_rs stable_rs : Option ReplicaSet) (wanted : Plan) (room : ℤ)
    → Sized new_rs
    → Sized stable_rs
    → SmallPlan wanted
    → Small room
    → Grown new_rs (stable_now new_rs stable_rs) room (scale_up new_rs stable_rs wanted room)
unfolding scale_up
scale_up-Grown none stable_rs wanted room hn hs hw hr =
    let e = check_stable_rs_exists none stable_rs in
    let s =
      scale_up_stable-Fits e (stable_now none stable_rs) wanted.stable room
        (stable_now-Small none stable_rs hs) hw.1 hr in
    unfold scale_up_new in
    (
      (omega arith, s.3),
      omega arith,
      s.0,
      grown_total (pos 0) _ room (pos 0) _ _ s.1 s.5 (inr refl),
    )
scale_up-Grown (some rs) stable_rs wanted room hn hs hw hr =
    let e = check_stable_rs_exists (some rs) stable_rs in
    let s =
      scale_up_stable-Fits e (stable_now (some rs) stable_rs) wanted.stable room
        (stable_now-Small (some rs) stable_rs hs) hw.1 hr in
    let n = scale_up_new-bound rs wanted.new _ hn.0 hw.0 s.4 in
    ((n.1, s.3), n.0, s.0, grown_total rs.replicas _ room _ _ _ s.1 s.5 n.2)

sum_from-append :
    (count : ReplicaSet → ℤ) (total : ℤ) (xs ys : List (Option ReplicaSet))
    → sum_from count total (xs ++ ys) ≡ sum_from count (sum_from count total xs) ys
unfolding sum_from
sum_from-append count total [] ys = refl
sum_from-append count total (none ∷ xs) ys = sum_from-append count total xs ys
sum_from-append count total (some rs ∷ xs) ys =
    sum_from-append count (int32 (total +ℤ count rs)) xs ys

abbrev pub if_other : Bool → ℤ → ℤ
if_other exists n = if exists then n else pos 0

tail_sum :
    (old : ℤ) (new_rs stable_rs : Option ReplicaSet) (exists : Bool)
    → Small old
    → Sized new_rs
    → Sized stable_rs
    → sum_from (λ rs. rs.replicas) old (new_rs ∷ (if exists then stable_rs ∷ [] else []))
      ≡ old +ℤ replicas_of new_rs +ℤ if_other exists (replicas_of stable_rs)
unfolding sum_from
tail_sum old none stable_rs false ho hn hs = eq_of_parts _ _ (omega int32_laws)
tail_sum old none none true ho hn hs = eq_of_parts _ _ (omega int32_laws)
tail_sum old none (some t) true ho hn hs = eq_of_parts _ _ (omega int32_laws)
tail_sum old (some n) stable_rs false ho hn hs = eq_of_parts _ _ (omega int32_laws)
tail_sum old (some n) none true ho hn hs = eq_of_parts _ _ (omega int32_laws)
tail_sum old (some n) (some t) true ho hn hs = eq_of_parts _ _ (omega int32_laws)

-- The sum over every ReplicaSet, taken apart.
pub total_parts :
    (new_rs stable_rs : Option ReplicaSet) (old_rss : List (Option ReplicaSet))
    → Sized new_rs
    → Sized stable_rs
    → let old = get_replica_count_for_replica_sets old_rss in
      Small old
      → get_replica_count_for_replica_sets (all_rss new_rs stable_rs old_rss)
        ≡ old +ℤ replicas_of new_rs +ℤ stable_now new_rs stable_rs
unfolding get_replica_count_for_replica_sets sum_from
total_parts new_rs stable_rs old_rss hn hs ho =
    rw (sum_from-append (λ rs. rs.replicas) (pos 0) old_rss)
      (tail_sum _ new_rs stable_rs _ ho hn hs)
