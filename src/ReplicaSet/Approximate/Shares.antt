-- ===== src/ReplicaSet/Approximate/Shares.antt =====
-- When both sides get a replica: `approximateWeightedCanaryStableReplicaCounts` of
-- utils/replicaset/canary.go at a weight strictly between nothing and everything.
use native.Mathlib.Nat.{lt_of_mul-lt-mul_left}
use mathlib.Core.Path.{subst}
use argo_rollouts.Common.{
  ℕ, ◌+◌, ◌-◌, ◌*◌, ◌≤◌, ◌<◌, ◌≡◌, refl, ap, ◌∙◌, ◌⊎◌, inl, inr, Bool, true, false, not, ◌&&◌, ◌||◌,
  List, [], ◌∷◌, arith,
}
use argo_rollouts.Common.Int.{ℤ, pos, ◌+ℤ◌, ◌-ℤ◌, ◌≤ℤ◌, ltb_ℤ, eqb_ℤ, int32}
use argo_rollouts.Float.{Float64}
use argo_rollouts.ReplicaSet.Approximate.{
  CanaryOption, floor_ceiling_tied, floor_weighted, zero_allowed, candidates, options, counts_of,
  approximate_weighted_canary_stable_replica_counts,
}
use argo_rollouts.ReplicaSet.Approximate.Bounds.{
  All, candidates-All, best_option-All, ceil_bounds, floor_bounds, one_more, difference, positive,
}

List-cases :
    (os : List CanaryOption)
    → (os ≡ []) ⊎ ((o : CanaryOption) × (rest : List CanaryOption) × (os ≡ o ∷ rest))
List-cases [] = inl refl
List-cases (o ∷ os) = inr (o, os, refl)

candidates-empty :
    (up down spec more : ℤ) (a b c d : Bool)
    → candidates up down spec more a b c d ≡ []
    → (a ≡ false) × (b ≡ false) × (c ≡ false)
candidates-empty up down spec more false false false d h = (refl, refl, refl)
candidates-empty up down spec more true b c d h = cc
candidates-empty up down spec more false true c d h = cc
candidates-empty up down spec more false false true d h = cc

less_than : (n w m d : ℕ) → w < m → 0 < n → m * d ≤ n * w → d < n
less_than n w m d h p l = grind arith

at_least_one : (n w m c : ℕ) → 0 < n → 0 < w → n * w ≤ m * c → 1 ≤ c
at_least_one n w m c p q l = grind arith

near : (k m c d : ℕ) → m * c < k + m → k < m * d + m → c < d + 2
near k m c d h l = lt_of_mul-lt-mul_left m (omega arith)

up_less :
    (n c : ℕ) (up : ℤ) (zero_ok : Bool)
    → up ≡ pos c
    → zero_ok ≡ false
    → (ltb_ℤ up (pos n) || zero_ok) ≡ true
    → c < n
up_less n c up zero_ok e z h = ground arith

some_down :
    (d : ℕ) (down : ℤ) (tied zero_ok : Bool)
    → down ≡ pos d
    → zero_ok ≡ false
    → (not tied && (not (eqb_ℤ down (pos 0)) || zero_ok)) ≡ true
    → 1 ≤ d
some_down d down tied zero_ok e z h = ground arith

second : (a b : Bool) → (a && b) ≡ true → b ≡ true
second true b h = h
second false b h = cc

tie_left :
    (n c d : ℕ) (up down surge : ℤ) (tied zero_ok : Bool)
    → up ≡ pos c
    → down ≡ pos d
    → zero_ok ≡ false
    → c < d + 2
    → 1 < n
    → pos 0 ≤ℤ surge
    → (ltb_ℤ up (pos n) || zero_ok) ≡ false
    → (not tied && (not (eqb_ℤ down (pos 0)) || zero_ok)) ≡ false
    → ltb_ℤ (pos 0) surge ≡ false
    → (tied ≡ true) × (surge ≡ pos 0)
tie_left n c d up down surge tied zero_ok e g z h k s x y t = ground arith

top_count : (n w m c : ℕ) → c ≤ n → n * w ≤ m * c → m * n < n * w + m → c ≡ n
top_count n w m c le lo h =
    let up : n < c + 1 = lt_of_mul-lt-mul_left m (omega arith) in omega arith

none_left :
    (n : ℕ) (up down more surge : ℤ) (tied surge_tied zero_ok : Bool)
    → up ≡ pos n
    → tied ≡ true
    → zero_ok ≡ false
    → surge ≡ pos 0
    → candidates up down
        (pos n)
        more
        (ltb_ℤ up (pos n) || zero_ok)
        (not tied && (not (eqb_ℤ down (pos 0)) || zero_ok))
        (ltb_ℤ (pos 0) surge)
        (ltb_ℤ (pos 0) surge && (not surge_tied && (not (eqb_ℤ down (pos 0)) || zero_ok)))
      ≡ []
none_left n up down more surge tied surge_tied zero_ok e t z s = rw (e, t, z, s) (ground arith)

-- Both sides have a replica, and together they are as many as there should be, or one more.
abbrev pub Shared : ℕ → ℤ × ℤ → Type 0
Shared n r = (c : ℕ) × (s : ℕ) × (r ≡ (pos c, pos s)) × (1 ≤ c) × (1 ≤ s) × (c + s ≤ n + 1)

module _ (f : Float64) (n w m : ℕ) (surge : ℤ) (hw : 0 < w) (hm : w < m) (hp : n * m ≤ 2147483647)
    (hn : 1 < n) (hs : pos 0 ≤ℤ surge) (ht : n ≤ 16777216) where
  zero_not_allowed : zero_allowed (pos n) (pos w) (pos m) surge ≡ false
  zero_not_allowed = ground arith

  IsShared : CanaryOption → Type 0
  IsShared o =
      (c : ℕ) × (t : ℕ) × (o.canary ≡ pos c) × (o.total ≡ pos t) × (1 ≤ c) × (c < t) × (t ≤ n + 1)

  options-IsShared : All IsShared (options f (pos n) (pos w) (pos m) surge)
  unfolding options IsShared
  options-IsShared =
      let (c, e, lc, hc, bc) = ceil_bounds f n w m (omega arith) (omega arith) hp (omega arith) in
      let (d, g, ld, hd, bd) = floor_bounds f n w m (omega arith) (omega arith) hp (omega arith) in
      let some_up : 1 ≤ c = at_least_one n w m c (omega arith) hw lc in
      let down : d < n = less_than n w m d hm (omega arith) ld in
      let more = one_more f n w m (omega arith) (omega arith) hp (omega arith) surge hs ht in
      candidates-All IsShared _ _ _ _ _ _ _ _
        (λ t. (c, n, e, refl, some_up, up_less n c _ _ e zero_not_allowed t, omega arith))
        (λ t. (d, n, g, refl, some_down d _ _ _ g zero_not_allowed t, down, omega arith))
        (λ t. (c, n + 1, e, more, some_up, omega arith, omega arith))
        (λ t. (
          d,
          n + 1,
          g,
          more,
          some_down d _ _ _ g zero_not_allowed (second _ _ t),
          omega arith,
          omega arith,
        ))

  pair-Shared : (o : CanaryOption) → IsShared o → Shared n (o.canary, int32 (o.total -ℤ o.canary))
  unfolding IsShared
  pair-Shared o (c, t, e, g, lo, hi, le) =
      let d = difference f n w m (omega arith) (omega arith) hp (omega arith) surge hs ht t c in
      (
        c,
        t - c,
        rw (e, g) (ap (λ x. (pos c, x)) (d (omega arith) le)),
        lo,
        omega arith,
        omega arith,
      )

  -- No option is left only if the ceiling is everything and the floor is as far from the weight.
  no_option :
      options f (pos n) (pos w) (pos m) surge ≡ []
      → (floor_ceiling_tied f (pos w) (pos m) (pos n) ≡ true) × (surge ≡ pos 0)
  unfolding options
  no_option h =
      let (c, e, lc, hc, bc) = ceil_bounds f n w m (omega arith) (omega arith) hp (omega arith) in
      let (d, g, ld, hd, bd) = floor_bounds f n w m (omega arith) (omega arith) hp (omega arith) in
      let (x, y, z) = candidates-empty _ _ _ _ _ _ _ _ h in
      let close = near (n * w) m c d hc hd in
      tie_left n c d _ _ surge _ _ e g zero_not_allowed close hn hs x y z

  -- For two or more replicas and a weight strictly between 0 and the maximum, both sides have a replica,
  -- and together at most one more than the replicas; or else the weight is tied between two counts,
  -- maxSurge is 0, and the canary has none.
  pub approximate-Shared :
      let r = approximate_weighted_canary_stable_replica_counts f (pos n) (pos w) (pos m) surge in
      Shared n r
      ⊎ ((floor_ceiling_tied f (pos w) (pos m) (pos n) ≡ true)
          × (surge ≡ pos 0)
          × (r ≡ (pos 0, pos n)))
  unfolding approximate_weighted_canary_stable_replica_counts counts_of
  approximate-Shared =
      rw (positive f n w m (omega arith) (omega arith) hp (omega arith) surge hs ht)
        (elim (List-cases (options f (pos n) (pos w) (pos m) surge)) [
          | inl e ↦ let (t, z) = no_option e in rw (e, counts_of) (inr (t, z, refl))
          | inr (o, os, e) ↦
              let every = subst (All IsShared) e options-IsShared in
              rw (e, counts_of)
                (inl
                  (pair-Shared _ (best_option-All f IsShared (pos w) (pos m) o os every.0 every.1)))
        ])

  no_option_when_tied :
      floor_ceiling_tied f (pos w) (pos m) (pos n) ≡ true
      → surge ≡ pos 0
      → m * n < n * w + m
      → options f (pos n) (pos w) (pos m) surge ≡ []
  unfolding options
  no_option_when_tied t z h =
      let (c, e, lc, hc, bc) = ceil_bounds f n w m (omega arith) (omega arith) hp (omega arith) in
      let last = top_count n w m c bc lc h in
      none_left n _ (floor_weighted f (pos n) (pos w) (pos m)) (int32 (pos n +ℤ pos 1)) surge _
        (floor_ceiling_tied f (pos w) (pos m) (int32 (pos n +ℤ pos 1))) _ (e ∙ ap pos last) t
        zero_not_allowed z

  -- For two or more replicas and a weight strictly between 0 and the maximum: if the weight is tied, its
  -- ceiling is all the replicas, and maxSurge is 0, then the canary gets no replica at all.
  pub tied_top_starves :
      floor_ceiling_tied f (pos w) (pos m) (pos n) ≡ true
      → surge ≡ pos 0
      → m * n < n * w + m
      → approximate_weighted_canary_stable_replica_counts f (pos n) (pos w) (pos m) surge
        ≡ (pos 0, pos n)
  unfolding approximate_weighted_canary_stable_replica_counts counts_of
  tied_top_starves t z h =
      rw (positive f n w m (omega arith) (omega arith) hp (omega arith) surge hs ht)
        (rw (no_option_when_tied t z h, counts_of) refl)
