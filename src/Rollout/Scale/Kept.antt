-- ===== src/Rollout/Scale/Kept.antt =====
-- Which old ReplicaSets a blue-green rollout keeps scaled up.
use argo_rollouts.Common.{
  ◌≡◌, refl, ap, ℕ, length, suc, get_elem?, zero, String, Bool, true, false, not, ◌||◌, none, some,
  List, [], ◌∷◌, arith, ◌⊎◌, inl, inr, Bool-cases, is_none, if◌then◌else◌, ◌+◌,
}
use argo_rollouts.Common.Int.{ℤ, pos, pos_part, neg_part, eqb_ℤ-cases, eqb_ℤ, ◌+ℤ◌, ◌≤ℤ◌, int_laws}
use argo_rollouts.Api.Rollout.{Rollout, ReplicaSet, inconclusive_analysis, BlueGreenStrategy}
use argo_rollouts.Rollout.Pause.{get_pause_condition}
use argo_rollouts.Rollout.Promote.{Context}
use argo_rollouts.Rollout.Scale.{is_replica_set_referenced, get_scale_down_revision_limit}
use argo_rollouts.Rollout.Scale.OldReplicaSets.{
  Progress, start_of, scale_down_for_blue_green, each, scale_down_old_replica_sets_for_blue_green,
  waits_for_analysis,
}
use argo_rollouts.Api.IntStr.{IntStr}
use argo_rollouts.Rollout.Scale.Limit.{KeptWithin, step-KeptWithin}

pub three_results :
    (a b : Bool) (x z : List ReplicaSet × Progress)
    → let r = if a then x else if b then x else z in (r ≡ x) ⊎ (r ≡ z)
three_results a b x z = ground arith

module _ (accepts : ReplicaSet → Bool) (looked_up : String → Bool) (now : ℤ) (c : Context) where
  referenced-untouched :
      (rs : ReplicaSet) (p : Progress)
      → is_replica_set_referenced looked_up c.rollout rs ≡ true
      → scale_down_for_blue_green accepts looked_up now c rs p ≡ (rs, p)
  unfolding scale_down_for_blue_green
  referenced-untouched rs p r = elim (Bool-cases p.ended) [
    | inl e ↦ simp (e) refl
    | inr e ↦ simp (e, r) refl
  ]

  loop-referenced_kept :
      (rss : List ReplicaSet) (p : Progress) (i : ℕ) (rs : ReplicaSet)
      → get_elem? rss i ≡ some rs
      → is_replica_set_referenced looked_up c.rollout rs ≡ true
      → get_elem? (each (scale_down_for_blue_green accepts looked_up now c) rss p).0 i ≡ some rs
  unfolding each
  loop-referenced_kept [] p i rs h r = h
  loop-referenced_kept (x ∷ rss) p zero rs h r =
      let e : x ≡ rs = ap (λ o. elim o [ none ↦ x | some y ↦ y ]) h in
      rw e (ap (λ t. some t.0) (referenced-untouched rs p r))
  loop-referenced_kept (x ∷ rss) p (suc i) rs h r = loop-referenced_kept rss _ i rs h r

-- The ReplicaSets that nothing refers to and that still have pods, among those before and after.
unfoldable pub kept_up : (String → Bool) → Rollout → List ReplicaSet → List ReplicaSet → ℕ
kept_up looked_up ro (x ∷ xs) (y ∷ ys) =
    let rest = kept_up looked_up ro xs ys in
    if is_replica_set_referenced looked_up ro x || eqb_ℤ y.replicas (pos 0) then rest else suc rest
kept_up looked_up ro _ _ = 0

one_more :
    (limit a b : ℤ) (n : ℕ)
    → b ≡ a +ℤ pos 1
    → b ≤ℤ limit
    → (n ≡ 0) ⊎ (b +ℤ pos n ≤ℤ limit)
    → a +ℤ pos (suc n) ≤ℤ limit
one_more limit a b n e h rest =
    let f : pos_part b + neg_part (a +ℤ pos 1) ≡ pos_part (a +ℤ pos 1) + neg_part b =
      rw e (omega arith) in
    elim rest [ inl z ↦ omega int_laws | inr z ↦ omega int_laws ]

kept_step :
    (limit a b : ℤ) (n : ℕ) (replicas : ℤ)
    → KeptWithin limit a b replicas
    → (n ≡ 0) ⊎ (b +ℤ pos n ≤ℤ limit)
    → let m = if eqb_ℤ replicas (pos 0) then n else suc n in (m ≡ 0) ⊎ (a +ℤ pos m ≤ℤ limit)
kept_step limit a b n replicas (l, u, k) rest = elim (eqb_ℤ-cases replicas (pos 0)) [
  | inl z ↦ rw z.0 (elim rest [ inl e ↦ inl e | inr e ↦ inr (omega int_laws) ])
  | inr z ↦
      rw z.0 (elim k [ inl e ↦ elim (z.1 e) [ ] | inr e ↦ inr (one_more limit a b n e.0 e.1 rest) ])
]

module _ (accepts : ReplicaSet → Bool) (looked_up : String → Bool) (now : ℤ) (c : Context)
    (accepted : (rs : ReplicaSet) → accepts rs ≡ true) where
  loop-kept_up :
      (rss : List ReplicaSet) (p : Progress)
      → p.ended ≡ false
      → pos 0 ≤ℤ p.annotationed_rss
      → p.annotationed_rss +ℤ pos (length rss) ≤ℤ pos 2147483647
      → let n =
          kept_up looked_up c.rollout rss
            (each (scale_down_for_blue_green accepts looked_up now c) rss p).0 in
        (n ≡ 0) ⊎ (p.annotationed_rss +ℤ pos n ≤ℤ get_scale_down_revision_limit c.rollout)
  unfolding each kept_up
  loop-kept_up [] p go lo hi = inl refl
  loop-kept_up (rs ∷ rss) p go lo hi =
      elim (Bool-cases (is_replica_set_referenced looked_up c.rollout rs)) [
        | inl r ↦
            simp (r, referenced-untouched accepts looked_up now c rs p r)
              (loop-kept_up rss p go lo (omega int_laws))
        | inr r ↦
            let q = scale_down_for_blue_green accepts looked_up now c rs p in
            let s =
              step-KeptWithin accepts looked_up now c accepted rs p r go lo (omega int_laws) in
            let rest = loop-kept_up rss q.1 s.0 (omega int_laws) (omega int_laws) in
            simp (r) (kept_step _ _ _ _ q.0.replicas s.1 rest)
      ]

module _ (lib : IntStr) (accepts : ReplicaSet → Bool) (looked_up : String → Bool) (now : ℤ)
    (c : Context) (by_creation by_revision : List ReplicaSet → List ReplicaSet) where
  -- The blue-green scale-down leaves a ReplicaSet that the status, a Service or a DestinationRule still
  -- refers to as it is: the function does nothing at all, or the ReplicaSet stands unchanged in its place
  -- of the order by revision, whichever writes fail.
  pub blue_green-referenced_kept :
      (skip : Bool) (b : BlueGreenStrategy) (old_rss : List ReplicaSet) (i : ℕ) (rs : ReplicaSet)
      → get_elem? (by_revision old_rss) i ≡ some rs
      → is_replica_set_referenced looked_up c.rollout rs ≡ true
      → let r =
          scale_down_old_replica_sets_for_blue_green lib accepts looked_up now c by_creation
            by_revision skip b old_rss in
        (r.0 ≡ old_rss) ⊎ (get_elem? r.0 i ≡ some rs)
  unfolding scale_down_old_replica_sets_for_blue_green
  blue_green-referenced_kept skip b old_rss i rs h r =
      elim (three_results (not (is_none (get_pause_condition c.rollout inconclusive_analysis)))
        (waits_for_analysis lib accepts looked_up now c by_creation by_revision skip b)
        (old_rss, start_of (pos 0) (pos 0))
        (each (scale_down_for_blue_green accepts looked_up now c) (by_revision old_rss)
          (start_of (pos 0) (pos 0)))) [
            | inl e ↦ rw e (inl refl)
            | inr e ↦ rw e (inr (loop-referenced_kept accepts looked_up now c _ _ i rs h r))
          ]

  -- With every write accepted, the blue-green scale-down does nothing at all, or the ReplicaSets that
  -- nothing refers to and that it leaves with pods are at most the revision limit of the delay, or none.
  -- There are fewer than 2^31 ReplicaSets.
  pub blue_green-kept_up :
      (skip : Bool) (b : BlueGreenStrategy) (old_rss : List ReplicaSet)
      → ((rs : ReplicaSet) → accepts rs ≡ true)
      → pos (length (by_revision old_rss)) ≤ℤ pos 2147483647
      → let r =
          scale_down_old_replica_sets_for_blue_green lib accepts looked_up now c by_creation
            by_revision skip b old_rss in
        let n = kept_up looked_up c.rollout (by_revision old_rss) r.0 in
        (r.0 ≡ old_rss) ⊎ ((n ≡ 0) ⊎ (pos n ≤ℤ get_scale_down_revision_limit c.rollout))
  unfolding scale_down_old_replica_sets_for_blue_green
  blue_green-kept_up skip b old_rss accepted small =
      elim (three_results (not (is_none (get_pause_condition c.rollout inconclusive_analysis)))
        (waits_for_analysis lib accepts looked_up now c by_creation by_revision skip b)
        (old_rss, start_of (pos 0) (pos 0))
        (each (scale_down_for_blue_green accepts looked_up now c) (by_revision old_rss)
          (start_of (pos 0) (pos 0)))) [
            | inl e ↦ rw e (inl refl)
            | inr e ↦
                let k =
                  loop-kept_up accepts looked_up now c accepted (by_revision old_rss)
                    (start_of (pos 0) (pos 0)) refl (omega arith) (omega int_laws) in
                rw e (inr (elim k [ inl z ↦ inl z | inr l ↦ inr (omega int_laws) ]))
          ]
