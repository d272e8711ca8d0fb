-- ===== src/Rollout/Scale/Budget.antt =====
-- How many pods the scale-down of a basic canary takes away.
use mathlib.Core.Path.{subst}
use mathlib.Core.List.{Permᴰ}
use mathlib.Core.List.Permᴰ
use argo_rollouts.Common.{
  ◌≡◌, refl, ◌∙◌, ◌+◌, String, Bool, true, false, ◌&&◌, Option, none, some, List, [], ◌∷◌, arith,
  ◌⊎◌, inl, inr, Bool-cases, if◌then◌else◌,
}
use argo_rollouts.Common.Int.{
  ℤ, pos, pos_part, neg_part, leb_ℤ-cases, ltb_ℤ-cases, leb_ℤ, eqb_ℤ, ◌+ℤ◌, ◌≤ℤ◌, ◌<ℤ◌, int32_laws,
}
use argo_rollouts.Api.IntStr.{IntStr}
use argo_rollouts.Api.Rollout.{ReplicaSet}
use argo_rollouts.Rollout.Promote.{Context}
use argo_rollouts.Rollout.Scale.{is_replica_set_referenced}
use argo_rollouts.Rollout.Scale.OldReplicaSets.{
  Progress, start_of, clean_up, max_scale_down, cleanup_unhealthy_replicas,
  scale_down_old_replica_sets_for_canary, can_proceed_with_scale_down_annotation, scale_to,
  scale_down_if, canary_desired, is_traffic_routed, scale_down_for_canary, each,
}
use argo_rollouts.Rollout.Scale.Funds.{total, pods, Funded, scale_to-Funded}
use argo_rollouts.Rollout.Scale.Serving.{
  serving, AllCounted, pods-counted, counted-bound, total-perm, AllCounted-perm, clean_up_loop,
  scale_to-serving,
}

-- The four ways through the body of the loop.
branches :
    (a b m z : Bool) (x y w : ReplicaSet × Progress)
    → let r = if a then x else if b then x else if m then y else if z then x else w in
      (r ≡ x) ⊎ ((r ≡ y) ⊎ (r ≡ w))
branches a b m z x y w = ground arith

-- Every size is an int32 that is not negative.
abbrev pub AllSized : List ReplicaSet → Type 0
AllSized [] = true ≡ true
AllSized (rs ∷ rss) = (pos 0 ≤ℤ rs.replicas) × (rs.replicas ≤ℤ pos 2147483647) × AllSized rss

module _ (accepts : ReplicaSet → Bool) (looked_up : String → Bool) (now : ℤ) (c : Context)
    (basic : is_traffic_routed c ≡ false) where
  canary_desired-affordable :
      (rs : ReplicaSet) (p : Progress)
      → pos 0 ≤ℤ p.max_scale_down
      → pos 0 ≤ℤ rs.replicas
      → rs.replicas ≤ℤ pos 2147483647
      → let d = canary_desired accepts looked_up now c rs p in
        (d.failed ≡ false)
        × (d.rs ≡ rs)
        × (pos 0 ≤ℤ d.desired_replica_count)
        × (d.desired_replica_count ≤ℤ d.rs.replicas)
        × (d.rs.replicas ≤ℤ d.desired_replica_count +ℤ p.max_scale_down)
  unfolding canary_desired
  canary_desired-affordable rs p m lo hi = elim (ltb_ℤ-cases p.max_scale_down rs.replicas) [
    | inl more ↦
        rw (basic, more.0) (refl, refl, omega int32_laws, omega int32_laws, omega int32_laws)
    | inr all ↦ rw (basic, all.0) (refl, refl, omega arith, lo, omega int32_laws)
  ]

  step-Funded :
      (rs : ReplicaSet) (p : Progress) (all : ℤ)
      → pos 0 ≤ℤ rs.replicas
      → rs.replicas ≤ℤ pos 2147483647
      → all ≤ℤ pos 1073741824
      → Funded all p
      → let r = scale_down_for_canary accepts looked_up now c rs p in
        Funded all r.1 × (serving rs +ℤ p.total_scaled_down ≤ℤ serving r.0 +ℤ r.1.total_scaled_down)
  unfolding scale_down_for_canary
  step-Funded rs p all lo hi small h =
      let d = canary_desired accepts looked_up now c rs p in
      let a = canary_desired-affordable rs p h.0 lo hi in
      elim (branches p.ended
        (is_traffic_routed c && is_replica_set_referenced looked_up c.rollout rs)
        (leb_ℤ p.max_scale_down (pos 0)) (eqb_ℤ rs.replicas (pos 0)) (rs, p)
        (rs, record p { ended = true }) (scale_to accepts c d p)) [
          | inl e ↦ rw e (h, omega arith)
          | inr (inl e) ↦ rw e (h, omega arith)
          | inr (inr e) ↦
              let f = scale_to-Funded accepts c d p all a.0 a.2 a.3 (rw a.1 hi) a.4 small h in
              let v = scale_to-serving accepts c d p a.0 a.3 f.1 in
              let v' =
                subst
                  (λ (x : ReplicaSet).
                    serving x +ℤ p.total_scaled_down
                    ≤ℤ serving (scale_to accepts c d p).0
                      +ℤ (scale_to accepts c d p).1.total_scaled_down)
                  a.1 v in
              rw e (f.0, v')
        ]

  loop-Funded :
      (rss : List ReplicaSet) (p : Progress) (all : ℤ)
      → AllSized rss
      → all ≤ℤ pos 1073741824
      → Funded all p
      → let r = each (scale_down_for_canary accepts looked_up now c) rss p in
        Funded all r.1
        × (total serving rss +ℤ p.total_scaled_down ≤ℤ total serving r.0 +ℤ r.1.total_scaled_down)
  unfolding each
  loop-Funded [] p all sized small h = (h, omega arith)
  loop-Funded (rs ∷ rss) p all (lo, hi, sized) small h =
      let s = step-Funded rs p all lo hi small h in
      let r = scale_down_for_canary accepts looked_up now c rs p in
      let s1 = s.1 in
      let rest = loop-Funded rss r.1 all sized small s.0 in
      let rest1 = rest.1 in (rest.0, omega int32_laws)

-- What is taken away in the loop is within the room, and so are the available pods that go.
within_room :
    (room t before after max1 t1 : ℤ)
    → pos 0 ≤ℤ max1
    → max1 +ℤ t1 ≡ room +ℤ t
    → before +ℤ t ≤ℤ after +ℤ t1
    → before ≤ℤ after +ℤ room
within_room room t before after max1 t1 m h k =
    let h0 : pos_part (max1 +ℤ t1) + neg_part (room +ℤ t)
        ≡ pos_part (room +ℤ t) + neg_part (max1 +ℤ t1) =
      rw h (omega arith) in
    omega int32_laws

sized_of_counted :
    (rss : List ReplicaSet) → AllCounted rss → pods rss ≤ℤ pos 536870912 → AllSized rss
sized_of_counted [] h small = refl
sized_of_counted (rs ∷ rss) (h, hs) small =
    let b = counted-bound rs rss (pos 536870912) (h, hs) small in
    let b0 = b.0 in
    let b1 = b.1 in
    let h0 = h.0 in (h.0, omega int32_laws, sized_of_counted rss hs (omega int32_laws))

-- The old ReplicaSets keep their available pods, up to the room that there is.
abbrev pub KeptWithinRoom : ℤ → List ReplicaSet → List ReplicaSet → Type 0
KeptWithinRoom room before after =
    (total serving before ≤ℤ total serving after)
    ⊎ ((pos 0 <ℤ room) × (total serving before ≤ℤ total serving after +ℤ room))

module _ (lib : IntStr) (accepts : ReplicaSet → Bool) (looked_up : String → Bool) (now : ℤ)
    (c : Context) (by_creation by_revision : List ReplicaSet → List ReplicaSet) where
  loop_if-KeptWithinRoom :
      (proceed : Option Bool) (sorted : List ReplicaSet) (room t : ℤ)
      → is_traffic_routed c ≡ false
      → AllSized sorted
      → pos 0 ≤ℤ t
      → t ≤ℤ pos 536870912
      → pos 0 <ℤ room
      → room ≤ℤ pos 536870912
      → KeptWithinRoom room sorted
          (scale_down_if lib accepts looked_up now c by_creation by_revision proceed sorted
            (start_of room t)).0
  unfolding scale_down_if
  loop_if-KeptWithinRoom none sorted room t basic sized lo hi up small = inl (omega arith)
  loop_if-KeptWithinRoom (some false) sorted room t basic sized lo hi up small = inl (omega arith)
  loop_if-KeptWithinRoom (some true) sorted room t basic sized lo hi up small =
      let r =
        loop-Funded accepts looked_up now c basic sorted (start_of room t) (room +ℤ t) sized
          (omega int32_laws) (omega int32_laws, lo, refl) in
      inr (up, within_room room t _ _ _ _ r.0.0 r.0.2 r.1)

  -- In a basic canary, scaleDownOldReplicaSetsForCanary, its clean-up included, leaves the old ReplicaSets
  -- all of their available pods, or, if more pods of the rollout are available than the minimum, all but
  -- at most that many more, whichever writes fail. A ReplicaSet's available pods are counted up to its
  -- size. The two sorts only reorder, no count is negative, the old ReplicaSets have at most 2^29 pods, and
  -- at most 2^29 pods are available above the minimum.
  pub basic_scale_down-WithinBudget :
      (is_alb : Bool) (verified : Option Bool) (old_rss : List ReplicaSet)
      → ((rss : List ReplicaSet) → Permᴰ (by_creation rss) rss)
      → ((rss : List ReplicaSet) → Permᴰ (by_revision rss) rss)
      → is_traffic_routed c ≡ false
      → AllCounted old_rss
      → pods old_rss ≤ℤ pos 536870912
      → max_scale_down lib accepts looked_up now c ≤ℤ pos 536870912
      → KeptWithinRoom
          (max_scale_down lib accepts looked_up now c)
          old_rss
          (scale_down_old_replica_sets_for_canary lib accepts looked_up now c by_creation
            by_revision is_alb verified old_rss).0
  unfolding scale_down_old_replica_sets_for_canary cleanup_unhealthy_replicas
  basic_scale_down-WithinBudget is_alb verified old_rss creation revision basic counted few small =
      let first = by_creation old_rss in
      let room = max_scale_down lib accepts looked_up now c in
      let cleaned = each (clean_up accepts c) first (start_of (pos 0) (pos 0)) in
      let sorted = by_revision cleaned.0 in
      let few1 : pods first ≤ℤ pos 536870912 =
        rw (total-perm (λ rs. rs.replicas) (creation old_rss)) few in
      let k =
        clean_up_loop accepts c first (start_of (pos 0) (pos 0))
          (AllCounted-perm (Permᴰ.symm (creation old_rss)) counted) (omega arith)
          (omega int32_laws) in
      let same : total serving cleaned.0 ≡ total serving old_rss =
        k.1 ∙ total-perm serving (creation old_rss) in
      let held : total serving sorted ≡ total serving old_rss =
        total-perm serving (revision cleaned.0) ∙ same in
      let nothing_lost : KeptWithinRoom room old_rss cleaned.0 = inl (rw same (omega arith)) in
      elim (Bool-cases cleaned.1.failed) [
        | inl e ↦ rw e nothing_lost
        | inr e ↦ elim (leb_ℤ-cases room (pos 0)) [
          | inl n ↦ rw (e, n.0) nothing_lost
          | inr n ↦
              let b = pods-counted cleaned.0 k.0 in
              let k2 = k.2 in
              let k3 = k.3 in
              let few2 : pods sorted ≤ℤ pos 536870912 =
                rw (total-perm (λ rs. rs.replicas) (revision cleaned.0)) (omega int32_laws) in
              let w =
                loop_if-KeptWithinRoom
                  (can_proceed_with_scale_down_annotation lib accepts looked_up now c is_alb
                    verified sorted)
                  sorted room cleaned.1.total_scaled_down basic
                  (sized_of_counted sorted (AllCounted-perm (Permᴰ.symm (revision cleaned.0)) k.0)
                    few2)
                  k.2 (omega int32_laws) n.1 small in
              rw (e, n.0) (elim w [ inl x ↦ inl (rw⁻¹ held x) | inr x ↦ inr (x.0, rw⁻¹ held x.1) ])
        ]
      ]
