-- ===== src/Rollout/Scale/Funds.antt =====
-- The pods that a change of size takes away, against those that may still be taken away.
use argo_rollouts.Common.{
  ◌≡◌, refl, ap, ◌+◌, Bool, true, false, List, [], ◌∷◌, arith, ◌⊎◌, inl, inr, Bool-cases,
}
use argo_rollouts.Common.Int.{
  ℤ, pos, pos_part, neg_part, eqb_ℤ, ◌+ℤ◌, ◌-ℤ◌, ◌≤ℤ◌, int32, int32_laws, eq_of_parts,
}
use argo_rollouts.Api.Rollout.{ReplicaSet}
use argo_rollouts.Rollout.Promote.{Context}
use argo_rollouts.Rollout.Scale.{
  write, with_scale, scale_replica_set, scale_replica_set_and_record_event,
}
use argo_rollouts.Rollout.Scale.OldReplicaSets.{Progress, Desired, scale_to}

abbrev pub total : (ReplicaSet → ℤ) → List ReplicaSet → ℤ
total g [] = pos 0
total g (rs ∷ rss) = g rs +ℤ total g rss

-- The pods of all of them, counted without a bound.
abbrev pub pods : List ReplicaSet → ℤ
pods rss = total (λ rs. rs.replicas) rss

module _ (accepts : ReplicaSet → Bool) (c : Context) where
  write-replicas :
      (rs new : ReplicaSet) (scaled : Bool)
      → let w = write accepts rs new scaled in
        ((w.failed ≡ true) × (w.rs ≡ rs)) ⊎ ((w.failed ≡ false) × (w.rs ≡ new))
  unfolding write
  write-replicas rs new scaled = elim (Bool-cases (accepts new)) [
    | inl e ↦ rw e (inr (refl, refl))
    | inr e ↦ rw e (inl (refl, refl))
  ]

  -- A resize either fails, or leaves the size that was asked for.
  pub resize-cases :
      (rs : ReplicaSet) (n : ℤ)
      → eqb_ℤ rs.replicas n ≡ false
      → let w = scale_replica_set_and_record_event accepts c rs n in
        ((w.failed ≡ true) × (w.rs ≡ rs))
        ⊎ ((w.failed ≡ false) × (w.rs ≡ with_scale accepts c rs n))
  unfolding scale_replica_set_and_record_event scale_replica_set
  resize-cases rs n e = rw e (write-replicas rs (with_scale accepts c rs n) true)

-- What is taken away and what may still be taken away come to `all`.
abbrev pub Funded : ℤ → Progress → Type 0
Funded all p =
    (pos 0 ≤ℤ p.max_scale_down)
    × (pos 0 ≤ℤ p.total_scaled_down)
    × (p.max_scale_down +ℤ p.total_scaled_down ≡ all)

-- Counting `size - n` pods as taken away.
take_away :
    (max total all size n : ℤ)
    → pos 0 ≤ℤ n
    → n ≤ℤ size
    → size ≤ℤ pos 2147483647
    → size ≤ℤ n +ℤ max
    → all ≤ℤ pos 1073741824
    → pos 0 ≤ℤ max
    → pos 0 ≤ℤ total
    → max +ℤ total ≡ all
    → let taken = int32 (size -ℤ n) in
      (pos 0 ≤ℤ int32 (max -ℤ taken))
      × (pos 0 ≤ℤ int32 (total +ℤ taken))
      × (int32 (max -ℤ taken) +ℤ int32 (total +ℤ taken) ≡ all)
      × (n +ℤ int32 (total +ℤ taken) ≡ size +ℤ total)
take_away max total all size n lo le hi afford small m t sum =
    let taken = size -ℤ n in
    let exact : int32 taken ≡ taken = eq_of_parts _ _ (omega int32_laws) in
    let a = ap (λ z. pos_part z) sum in
    let b = ap (λ z. neg_part z) sum in
    let e : pos_part (max +ℤ total) + neg_part all ≡ pos_part all + neg_part (max +ℤ total) =
      omega arith in
    rw exact (
      omega int32_laws,
      omega int32_laws,
      eq_of_parts _ _ (omega int32_laws),
      eq_of_parts _ _ (omega int32_laws),
    )

module _ (accepts : ReplicaSet → Bool) (c : Context) where
  pub scale_to-Funded :
      (d : Desired) (p : Progress) (all : ℤ)
      → d.failed ≡ false
      → pos 0 ≤ℤ d.desired_replica_count
      → d.desired_replica_count ≤ℤ d.rs.replicas
      → d.rs.replicas ≤ℤ pos 2147483647
      → d.rs.replicas ≤ℤ d.desired_replica_count +ℤ p.max_scale_down
      → all ≤ℤ pos 1073741824
      → Funded all p
      → let r = scale_to accepts c d p in
        Funded all r.1
        × (r.0.replicas +ℤ r.1.total_scaled_down ≡ d.rs.replicas +ℤ p.total_scaled_down)
  unfolding scale_to with_scale
  scale_to-Funded d p all ok lo le hi afford small h =
      elim (Bool-cases (eqb_ℤ d.rs.replicas d.desired_replica_count)) [
        | inl e ↦ rw (ok, e) (h, refl)
        | inr e ↦ elim (resize-cases accepts c d.rs d.desired_replica_count e) [
          | inl w ↦ rw (ok, e, w.0) (h, refl)
          | inr w ↦
              let t =
                take_away p.max_scale_down p.total_scaled_down all d.rs.replicas
                  d.desired_replica_count lo le hi afford small h.0 h.1 h.2 in
              rw (ok, e, w.0, w.1) ((t.0, t.1, t.2), t.3)
        ]
      ]
