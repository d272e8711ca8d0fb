-- ===== src/Rollout/Scale/Serving.antt =====
-- The available pods of the old ReplicaSets, through the orders they are taken in and the clean-up.
use mathlib.Core.List.{Permᴰ}
use argo_rollouts.Common.{
  ◌≡◌, refl, sym, ◌∙◌, ◌+◌, Bool, true, false, List, [], ◌∷◌, arith, inl, inr, Bool-cases,
  if◌then◌else◌,
}
use argo_rollouts.Common.Int.{
  ℤ, pos, pos_part, neg_part, ltb_ℤ, ltb_ℤ-cases, eqb_ℤ-cases, eqb_ℤ, ◌+ℤ◌, ◌-ℤ◌, ◌≤ℤ◌, int32,
  int32_laws, eq_of_parts,
}
use argo_rollouts.Api.Rollout.{ReplicaSet}
use argo_rollouts.Rollout.Promote.{Context}
use argo_rollouts.Rollout.Scale.{with_scale}
use argo_rollouts.Rollout.Scale.OldReplicaSets.{Progress, Desired, scale_to, clean_up, each}
use argo_rollouts.Rollout.Scale.Funds.{total, pods, resize-cases}

-- The available pods that fit into the size: those that a ReplicaSet keeps when its pods that are not
-- available go first.
abbrev pub serving : ReplicaSet → ℤ
serving rs = if ltb_ℤ rs.available_replicas rs.replicas then rs.available_replicas else rs.replicas

abbrev pub IsCounted : ReplicaSet → Type 0
IsCounted rs = (pos 0 ≤ℤ rs.replicas) × (pos 0 ≤ℤ rs.available_replicas)

-- No count is negative.
abbrev pub AllCounted : List ReplicaSet → Type 0
AllCounted [] = true ≡ true
AllCounted (rs ∷ rss) = IsCounted rs × AllCounted rss

pub pods-counted : (rss : List ReplicaSet) → AllCounted rss → pos 0 ≤ℤ pods rss
pods-counted [] h = omega arith
pods-counted (rs ∷ rss) (h, hs) = let k = pods-counted rss hs in let l = h.0 in omega int32_laws

-- The sizes of ReplicaSets that have at most so many pods together are bounded by that number.
pub counted-bound :
    (rs : ReplicaSet) (rss : List ReplicaSet) (n : ℤ)
    → AllCounted (rs ∷ rss)
    → pods (rs ∷ rss) ≤ℤ n
    → (rs.replicas ≤ℤ n) × (pos 0 ≤ℤ pods rss)
counted-bound rs rss n (h, hs) b = let k = pods-counted rss hs in (omega int32_laws, k)

swapped : (a b rest : ℤ) → a +ℤ (b +ℤ rest) ≡ b +ℤ (a +ℤ rest)
swapped a b rest = eq_of_parts _ _ (omega int32_laws)

pub total-perm :
    (g : ReplicaSet → ℤ) {xs ys : List ReplicaSet} → Permᴰ xs ys → total g xs ≡ total g ys
total-perm g Permᴰ.nil = refl
total-perm g (Permᴰ.cons e p) = rw (e, total-perm g p) refl
total-perm g (Permᴰ.swap e f) = rw (e, f) (swapped _ _ _)
total-perm g (Permᴰ.trans p q) = total-perm g p ∙ total-perm g q

pub AllCounted-perm : {xs ys : List ReplicaSet} → Permᴰ xs ys → AllCounted xs → AllCounted ys
AllCounted-perm Permᴰ.nil h = h
AllCounted-perm (Permᴰ.cons e p) (h, hs) = (rw⁻¹ e h, AllCounted-perm p hs)
AllCounted-perm (Permᴰ.swap e f) (h, (k, hs)) = (rw⁻¹ f k, (rw⁻¹ e h, hs))
AllCounted-perm (Permᴰ.trans p q) h = AllCounted-perm q (AllCounted-perm p h)

-- Taking `size - n` of the pods away and counting them does not overflow.
shrunk :
    (t size n : ℤ)
    → pos 0 ≤ℤ t
    → pos 0 ≤ℤ n
    → n ≤ℤ size
    → size +ℤ t ≤ℤ pos 536870912
    → let u = int32 (t +ℤ int32 (size -ℤ n)) in (pos 0 ≤ℤ u) × (n +ℤ u ≤ℤ size +ℤ t)
shrunk t size n lo h k small =
    let exact : int32 (size -ℤ n) ≡ size -ℤ n = eq_of_parts _ _ (omega int32_laws) in
    rw exact (omega int32_laws, omega int32_laws)

-- What the clean-up's loop keeps of a ReplicaSet and of the count of pods taken away.
abbrev Cleaned : ReplicaSet → Progress → ReplicaSet × Progress → Type 0
Cleaned rs p r =
    IsCounted r.0
    × (serving r.0 ≡ serving rs)
    × (pos 0 ≤ℤ r.1.total_scaled_down)
    × (r.0.replicas +ℤ r.1.total_scaled_down ≤ℤ rs.replicas +ℤ p.total_scaled_down)

min_drop :
    (size a n t t1 : ℤ)
    → n ≤ℤ size
    → n +ℤ t1 ≡ size +ℤ t
    → (if ltb_ℤ a size then a else size) +ℤ t ≤ℤ (if ltb_ℤ a n then a else n) +ℤ t1
min_drop size a n t t1 le h =
    let k : pos_part (n +ℤ t1) + neg_part (size +ℤ t) ≡ pos_part (size +ℤ t) + neg_part (n +ℤ t1) =
      rw h (omega arith) in
    elim (ltb_ℤ-cases a size) [
      | inl x ↦ elim (ltb_ℤ-cases a n) [
        | inl y ↦ rw (x.0, y.0) (omega int32_laws)
        | inr y ↦ rw (x.0, y.0) (omega int32_laws)
      ]
      | inr x ↦ elim (ltb_ℤ-cases a n) [
        | inl y ↦ rw (x.0, y.0) (omega int32_laws)
        | inr y ↦ rw (x.0, y.0) (omega int32_laws)
      ]
    ]

min_self : (n : ℤ) → (if ltb_ℤ n n then n else n) ≡ n
min_self n = elim (Bool-cases (ltb_ℤ n n)) [ inl e ↦ rw e refl | inr e ↦ rw e refl ]

-- At its available pods, a ReplicaSet keeps all of them.
kept_by_size :
    (rs : ReplicaSet)
    → rs.available_replicas ≤ℤ rs.replicas
    → eqb_ℤ rs.replicas rs.available_replicas ≡ false
    → serving (record rs { replicas = rs.available_replicas }) ≡ serving rs
kept_by_size rs h e = elim (ltb_ℤ-cases rs.available_replicas rs.replicas) [
  | inl l ↦ rw l.0 (min_self rs.available_replicas)
  | inr l ↦ elim (eqb_ℤ-cases rs.replicas rs.available_replicas) [
    | inl q ↦ let bad = sym e ∙ q.0 in ground arith
    | inr q ↦ absurd (q.1 (eq_of_parts _ _ (omega int32_laws)))
  ]
]

module _ (accepts : ReplicaSet → Bool) (c : Context) where
  clean_up-Cleaned :
      (rs : ReplicaSet) (p : Progress)
      → IsCounted rs
      → pos 0 ≤ℤ p.total_scaled_down
      → rs.replicas +ℤ p.total_scaled_down ≤ℤ pos 536870912
      → Cleaned rs p (clean_up accepts c rs p)
  unfolding clean_up scale_to with_scale
  clean_up-Cleaned rs p h lo small =
      let at : rs.replicas +ℤ p.total_scaled_down ≤ℤ rs.replicas +ℤ p.total_scaled_down =
        omega arith in
      elim (Bool-cases p.ended) [
        | inl e ↦ simp (e) (h, refl, lo, at)
        | inr e ↦ elim (Bool-cases (eqb_ℤ rs.replicas (pos 0))) [
          | inl z ↦ simp (e, z) (h, refl, lo, at)
          | inr z ↦ elim (Bool-cases (eqb_ℤ rs.replicas rs.available_replicas)) [
            | inl a ↦ simp (e, z, a) (h, refl, lo, at)
            | inr a ↦ elim (ltb_ℤ-cases rs.replicas rs.available_replicas) [
              | inl more ↦ simp (e, z, a, more.0) (h, refl, omega arith, omega int32_laws)
              | inr less ↦ elim (resize-cases accepts c rs rs.available_replicas a) [
                | inl w ↦ simp (e, z, a, less.0, w.0) (h, refl, lo, at)
                | inr w ↦
                    let s =
                      shrunk p.total_scaled_down rs.replicas rs.available_replicas lo h.1 less.1
                        small in
                    rw (e, z, a, less.0, w.0, w.1) ((h.1, h.1), kept_by_size rs less.1 a, s.0, s.1)
              ]
            ]
          ]
        ]
      ]

  pub clean_up_loop :
      (rss : List ReplicaSet) (p : Progress)
      → AllCounted rss
      → pos 0 ≤ℤ p.total_scaled_down
      → pods rss +ℤ p.total_scaled_down ≤ℤ pos 536870912
      → let r = each (clean_up accepts c) rss p in
        AllCounted r.0
        × (total serving r.0 ≡ total serving rss)
        × (pos 0 ≤ℤ r.1.total_scaled_down)
        × (pods r.0 +ℤ r.1.total_scaled_down ≤ℤ pods rss +ℤ p.total_scaled_down)
  unfolding each
  clean_up_loop [] p h lo small = (refl, refl, lo, omega arith)
  clean_up_loop (rs ∷ rss) p (h, hs) lo small =
      let b = pods-counted rss hs in
      let (n, k, t, u) = clean_up-Cleaned rs p h lo (omega int32_laws) in
      let r = clean_up accepts c rs p in
      let n0 = n.0 in
      let (ns, ks, ts, us) = clean_up_loop rss r.1 hs t (omega int32_laws) in
      ((n, ns), rw (k, ks) refl, ts, omega int32_laws)

  -- The loop takes away what it counts, so that the available pods go down by no more.
  pub scale_to-serving :
      (d : Desired) (p : Progress)
      → d.failed ≡ false
      → d.desired_replica_count ≤ℤ d.rs.replicas
      → let r = scale_to accepts c d p in
        r.0.replicas +ℤ r.1.total_scaled_down ≡ d.rs.replicas +ℤ p.total_scaled_down
        → serving d.rs +ℤ p.total_scaled_down ≤ℤ serving r.0 +ℤ r.1.total_scaled_down
  unfolding scale_to with_scale
  scale_to-serving d p ok le h = elim (Bool-cases (eqb_ℤ d.rs.replicas d.desired_replica_count)) [
    | inl e ↦ rw (ok, e) (omega arith)
    | inr e ↦ elim (resize-cases accepts c d.rs d.desired_replica_count e) [
      | inl w ↦ rw (ok, e, w.0) (omega arith)
      | inr w ↦
          let h' = rw (scale_to, ok, e, w.0, w.1) at h in
          rw (ok, e, w.0, w.1)
            (min_drop d.rs.replicas d.rs.available_replicas d.desired_replica_count
              p.total_scaled_down _ le h')
    ]
  ]
