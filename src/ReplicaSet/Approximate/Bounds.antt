-- ===== src/ReplicaSet/Approximate/Bounds.antt =====
-- What `approximateWeightedCanaryStableReplicaCounts` of utils/replicaset/canary.go returns.
use argo_rollouts.Common.{
  ℕ, ◌+◌, ◌-◌, ◌*◌, ◌≤◌, ◌<◌, ◌≡◌, refl, ap, ◌∙◌, ◌⊎◌, inl, inr, Bool, true, false, List, [], ◌∷◌,
  arith, Bool-cases,
}
use argo_rollouts.Common.Int.{
  ℤ, pos, ◌+ℤ◌, ◌-ℤ◌, ◌*ℤ◌, ◌≤ℤ◌, ◌<ℤ◌, eqb_ℤ, int32, int32_of_range, eq_of_parts, int32_laws,
}
use argo_rollouts.Float.{Float64}
use argo_rollouts.ReplicaSet.Approximate.{
  CanaryOption, when, best_option, weight_delta, ceil_weighted, floor_weighted, options, candidates,
  counts_of, approximate_weighted_canary_stable_replica_counts,
}

abbrev pub All : (CanaryOption → Type 0) → List CanaryOption → Type 0
All P [] = Unit {0}
All P (o ∷ os) = P o × All P os

when-All :
    (P : CanaryOption → Type 0) (b : Bool) (o : CanaryOption) (os : List CanaryOption)
    → (b ≡ true → P o)
    → All P os
    → All P (when b o os)
when-All P true o os h hs = (h refl, hs)
when-All P false o os h hs = hs

-- A property of every candidate whose test holds.
pub candidates-All :
    (P : CanaryOption → Type 0) (up down spec more : ℤ) (a b c d : Bool)
    → (a ≡ true → P (record { canary = up; total = spec }))
    → (b ≡ true → P (record { canary = down; total = spec }))
    → (c ≡ true → P (record { canary = up; total = more }))
    → (d ≡ true → P (record { canary = down; total = more }))
    → All P (candidates up down spec more a b c d)
candidates-All P up down spec more a b c d ha hb hc hd =
    let o1 : CanaryOption = record { canary = up; total = spec } in
    let o2 : CanaryOption = record { canary = down; total = spec } in
    let o3 : CanaryOption = record { canary = up; total = more } in
    let o4 : CanaryOption = record { canary = down; total = more } in
    let rest4 = when-All P d o4 [] hd tt in
    let rest3 = when-All P c o3 (when d o4 []) hc rest4 in
    let rest2 = when-All P b o2 (when c o3 (when d o4 [])) hb rest3 in
    when-All P a o1 (when b o2 (when c o3 (when d o4 []))) ha rest2

product : (a b : ℕ) → pos a *ℤ pos b ≡ pos (a * b)
unfolding ◌*ℤ◌
product a b = ground arith

product_int32 : (a b : ℕ) → a * b ≤ 2147483647 → int32 (pos a *ℤ pos b) ≡ pos (a * b)
product_int32 a b h = rw (product a b) (int32_of_range (pos (a * b)) (omega arith) (omega arith))

at_most : (n w m c : ℕ) → w ≤ m → 0 < m → m * c < n * w + m → c ≤ n
at_most n w m c h p l = grind arith

-- A pair of counts that sum to the replicas, or to one more if the surge allows it.
abbrev pub Splits : ℕ → ℤ → ℤ × ℤ → Type 0
Splits n surge r =
    (c : ℕ) × (s : ℕ) × (r ≡ (pos c, pos s)) × ((c + s ≡ n) ⊎ ((pos 0 <ℤ surge) × (c + s ≡ n + 1)))

module _ (f : Float64) where
  pub best_option-All :
      (P : CanaryOption → Type 0) (w m : ℤ) (o : CanaryOption) (os : List CanaryOption)
      → P o
      → All P os
      → P (best_option f w m o os)
  unfolding best_option
  best_option-All P w m o [] h hs = h
  best_option-All P w m o (p ∷ os) h hs =
      elim (Bool-cases (f.is_lt (weight_delta f w m p) (weight_delta f w m o))) [
        | inl closer ↦ rw closer (best_option-All P w m p os hs.0 hs.1)
        | inr not_closer ↦ rw not_closer (best_option-All P w m o os h hs.1)
      ]

  module _ (n w m : ℕ) (hw : w ≤ m) (hm : 0 < m) (hp : n * m ≤ 2147483647) (hn : 0 < n) where
    small_product : n * w ≤ 2147483647
    small_product = grind arith

    small_max : m < 2147483648
    small_max = grind arith

    pub ceil_bounds :
        (c : ℕ) × (ceil_weighted f (pos n) (pos w) (pos m) ≡ pos c)
        × (n * w ≤ m * c)
        × (m * c < n * w + m)
        × (c ≤ n)
    unfolding ceil_weighted
    ceil_bounds =
        let (c, e, lo, hi) =
          f.ceil_law (n * w) m (omega (arith, small_product)) hm small_max
            (omega (arith, small_product)) in
        let same =
          ap (λ x. f.ceil (f.over (f.of_int x) (f.of_int (pos m))))
            (product_int32 n w small_product) in
        (c, same ∙ e, lo, hi, at_most n w m c hw hm hi)

    pub floor_bounds :
        (d : ℕ) × (floor_weighted f (pos n) (pos w) (pos m) ≡ pos d)
        × (m * d ≤ n * w)
        × (n * w < m * d + m)
        × (d ≤ n)
    unfolding floor_weighted
    floor_bounds =
        let (d, e, lo, hi) =
          f.floor_law (n * w) m (omega (arith, small_product)) hm small_max
            (omega (arith, small_product)) in
        let same =
          ap (λ x. f.floor (f.over (f.of_int x) (f.of_int (pos m))))
            (product_int32 n w small_product) in
        (d, same ∙ e, lo, hi, at_most n w m d hw hm (omega arith))

    module _ (surge : ℤ) (hs : pos 0 ≤ℤ surge) (ht : n ≤ 16777216) where
      pub one_more : int32 (pos n +ℤ pos 1) ≡ pos (n + 1)
      one_more = eq_of_parts _ _ (omega int32_laws)

      -- An option that splits the replicas, or one more if the surge allows it.
      abbrev IsSplit : CanaryOption → Type 0
      IsSplit o =
          (c : ℕ) × (o.canary ≡ pos c)
          × (c ≤ n)
          × ((o.total ≡ pos n) ⊎ ((pos 0 <ℤ surge) × (o.total ≡ pos (n + 1))))

      options-IsSplit : All IsSplit (options f (pos n) (pos w) (pos m) surge)
      unfolding options
      options-IsSplit =
          let (c, e, _, _, lc) = ceil_bounds in
          let (d, g, _, _, ld) = floor_bounds in
          candidates-All IsSplit _ _ _ _ _ _ _ _ (λ _. (c, e, lc, inl refl))
            (λ _. (d, g, ld, inl refl)) (λ t. (c, e, lc, inr (ground arith, one_more)))
            (λ t. (d, g, ld, inr (ground arith, one_more)))

      pub difference : (a b : ℕ) → b ≤ a → a ≤ n + 1 → int32 (pos a -ℤ pos b) ≡ pos (a - b)
      difference a b h k = eq_of_parts _ _ (omega int32_laws)

      split-Splits :
          (o : CanaryOption) → IsSplit o → Splits n surge (o.canary, int32 (o.total -ℤ o.canary))
      split-Splits o (c, e, le, inl t) = (
        c,
        n - c,
        rw (e, t) (ap (λ x. (pos c, x)) (difference n c le (omega arith))),
        inl (omega arith),
      )
      split-Splits o (c, e, le, inr (g, t)) = (
        c,
        n + 1 - c,
        rw (e, t) (ap (λ x. (pos c, x)) (difference (n + 1) c (omega arith) (omega arith))),
        inr (g, omega arith),
      )

      counts_of-Splits :
          (os : List CanaryOption)
          → All IsSplit os
          → Splits n surge (counts_of f (pos n) (pos w) (pos m) os)
      unfolding counts_of
      counts_of-Splits [] h = (0, n, refl, inl (omega arith))
      counts_of-Splits (o ∷ os) h =
          split-Splits _ (best_option-All IsSplit (pos w) (pos m) o os h.0 h.1)

      pub positive : eqb_ℤ (pos n) (pos 0) ≡ false
      positive = ground arith

      -- For a weight of at most the maximum, and numbers without overflow, the two counts are not negative
      -- and sum to the replicas, or, only if maxSurge is above 0, to one more.
      pub counts_split :
          Splits n surge
            (approximate_weighted_canary_stable_replica_counts f (pos n) (pos w) (pos m) surge)
      unfolding approximate_weighted_canary_stable_replica_counts
      counts_split = rw positive (counts_of-Splits _ options-IsSplit)
