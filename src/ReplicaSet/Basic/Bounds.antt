-- ===== src/ReplicaSet/Basic/Bounds.antt =====
-- The stages of the basic canary plan, `CalculateReplicaCountsForBasicCanary` of
-- utils/replicaset/canary.go: bounds of each.
use argo_rollouts.Common.{◌≡◌, refl, Bool, true, false, Option, none, some, arith, ◌⊎◌, inl, inr}
use argo_rollouts.Common.Int.{ℤ, pos, negsuc, ltb_ℤ-cases, ◌+ℤ◌, ◌-ℤ◌, ◌≤ℤ◌, int32, int32_laws}
use argo_rollouts.Api.Rollout.{ReplicaSet}
use argo_rollouts.ReplicaSet.Counts.{min_value, max_value, get_replicas_for_scale_down}
use argo_rollouts.ReplicaSet.Basic.{
  replicas_of, scale_up_stable, scale_up_new, calculate_scale_down_replica_count,
  adjust_replica_within_limits,
}

-- Numbers small enough that no sum of a few of them leaves the int32 range.
abbrev pub Small : ℤ → Type 0
Small z = (negsuc 67108863 ≤ℤ z) × (z ≤ℤ pos 67108864)

-- A count grew, and with the room that is left takes no more than there was; no room appears.
abbrev pub Fits : ℤ → ℤ → ℤ × ℤ → Type 0
Fits current room r =
    (current ≤ℤ r.0)
    × (r.0 +ℤ r.1 ≤ℤ current +ℤ room)
    × (r.1 ≤ℤ room)
    × Small r.0
    × Small r.1
    × ((r.0 ≤ℤ current +ℤ room) ⊎ (r.0 ≤ℤ current))

pub scale_up_stable-Fits :
    (exists : Bool) (current desired room : ℤ)
    → Small current
    → Small desired
    → Small room
    → Fits current room (scale_up_stable exists current desired room)
unfolding scale_up_stable
scale_up_stable-Fits false current desired room hc hd hr = omega int32_laws
scale_up_stable-Fits true current desired room hc hd hr = elim (ltb_ℤ-cases current desired) [
  | inr n ↦ rw n.0 (omega int32_laws)
  | inl l ↦ rw l.0 (elim (ltb_ℤ-cases (pos 0) room) [
    | inr n ↦ rw n.0 (omega int32_laws)
    | inl r ↦ rw r.0 (elim (ltb_ℤ-cases (int32 (current +ℤ room)) desired) [
      | inr n ↦ rw n.0 (omega int32_laws)
      | inl t ↦ rw t.0 (omega int32_laws)
    ])
  ])
]

pub scale_up_new-bound :
    (rs : ReplicaSet) (desired room : ℤ)
    → Small rs.replicas
    → Small desired
    → Small room
    → (rs.replicas ≤ℤ scale_up_new (some rs) desired room)
      × Small (scale_up_new (some rs) desired room)
      × ((scale_up_new (some rs) desired room ≤ℤ rs.replicas +ℤ room)
          ⊎ (scale_up_new (some rs) desired room ≡ rs.replicas))
unfolding scale_up_new
scale_up_new-bound rs desired room hc hd hr = elim (ltb_ℤ-cases rs.replicas desired) [
  | inr n ↦ rw n.0 (omega arith, hc, inr refl)
  | inl l ↦ rw l.0 (elim (ltb_ℤ-cases (pos 0) room) [
    | inr n ↦ rw n.0 (omega arith, hc, inr refl)
    | inl r ↦ rw r.0 (elim (ltb_ℤ-cases (int32 (rs.replicas +ℤ room)) desired) [
      | inr n ↦ rw n.0 (omega int32_laws)
      | inl t ↦ rw t.0 (omega int32_laws)
    ])
  ])
]

pub max_value_law :
    (a b : ℤ)
    → (a ≤ℤ max_value a b) × (b ≤ℤ max_value a b) × ((max_value a b ≤ℤ a) ⊎ (max_value a b ≤ℤ b))
unfolding max_value
max_value_law a b = ground arith

pub min_value_law :
    (a b : ℤ)
    → (min_value a b ≤ℤ a) × (min_value a b ≤ℤ b) × ((a ≤ℤ min_value a b) ⊎ (b ≤ℤ min_value a b))
unfolding min_value
min_value_law a b = ground arith

-- Taking the excess over the limit off the drained count brings the two within it.
drained_within_limit :
    (adjusted drain limit : ℤ)
    → Small limit
    → Small drain
    → negsuc 536870911 ≤ℤ adjusted
    → adjusted ≤ℤ pos 536870912
    → int32 (drain -ℤ max_value (pos 0) (int32 (int32 (adjusted +ℤ drain) -ℤ limit))) +ℤ adjusted
      ≤ℤ limit
drained_within_limit adjusted drain limit hl hd lo hi =
    let over = max_value_law (pos 0) (int32 (int32 (adjusted +ℤ drain) -ℤ limit)) in
    omega int32_laws

-- The adjusted count stays far from the ends of the int32 range.
adjusted_in_range :
    (drain adjust limit available other min_available : ℤ)
    → Small drain
    → Small adjust
    → Small limit
    → Small available
    → let within = int32 (adjust -ℤ max_value (pos 0) (int32 (int32 (adjust +ℤ drain) -ℤ limit))) in
      let extra = max_value (pos 0) (int32 (available -ℤ within)) in
      (negsuc 536870911 ≤ℤ int32 (within +ℤ min_value extra (max_value (pos 0) other)))
      × (int32 (within +ℤ min_value extra (max_value (pos 0) other)) ≤ℤ pos 536870912)
adjusted_in_range drain adjust limit available other min_available hd ha hl hv =
    let over = max_value_law (pos 0) (int32 (int32 (adjust +ℤ drain) -ℤ limit)) in
    let within = int32 (adjust -ℤ max_value (pos 0) (int32 (int32 (adjust +ℤ drain) -ℤ limit))) in
    let extra = max_value_law (pos 0) (int32 (available -ℤ within)) in
    let missing = max_value_law (pos 0) other in
    let least =
      min_value_law (max_value (pos 0) (int32 (available -ℤ within))) (max_value (pos 0) other) in
    omega int32_laws

abbrev pub Sized : Option ReplicaSet → Type 0
Sized none = Unit {0}
Sized (some rs) = Small rs.replicas × Small rs.available_replicas

pub for_scale_down-Small :
    (rs : Option ReplicaSet) (ignore : Bool)
    → Sized rs
    → Small (get_replicas_for_scale_down rs ignore)
unfolding get_replicas_for_scale_down
for_scale_down-Small none ignore h = omega arith
for_scale_down-Small (some rs) ignore h = ground arith

-- A drained count only falls, and not below what is desired.
pub drained_bounds :
    (rs : Option ReplicaSet) (desired down count : ℤ)
    → Sized rs
    → Small desired
    → Small count
    → replicas_of rs ≤ℤ count
    → pos 0 ≤ℤ down
    → down ≤ℤ pos 536870912
    → Small (calculate_scale_down_replica_count rs desired down count)
      × (calculate_scale_down_replica_count rs desired down count ≤ℤ count)
unfolding calculate_scale_down_replica_count
drained_bounds none desired down count hs hd hc hr lo hi = (hc, omega arith)
drained_bounds (some rs) desired down count hs hd hc hr lo hi =
    let top = max_value_law desired (int32 (rs.replicas -ℤ down)) in
    elim (ltb_ℤ-cases desired rs.replicas) [
      | inr n ↦ rw n.0 (omega int32_laws)
      | inl l ↦ rw l.0 (omega int32_laws)
    ]

-- Two counts are within the limit, or they take no more than before.
abbrev pub Within : ℤ → ℤ → ℤ × ℤ → Type 0
Within limit before r = (r.0 +ℤ r.1 ≤ℤ limit) ⊎ (r.0 +ℤ r.1 ≤ℤ before)

-- For counts and a limit that are small, the adjusted pair is within the limit, or it takes no more
-- than the pair did before.
pub adjust-Within :
    (drain_rs adjust_rs : Option ReplicaSet) (drain adjust limit min_available before : ℤ)
    → Sized adjust_rs
    → Small drain
    → Small adjust
    → Small limit
    → drain +ℤ adjust ≤ℤ before
    → Within limit before
        (adjust_replica_within_limits drain_rs adjust_rs drain adjust limit min_available)
unfolding adjust_replica_within_limits
adjust-Within drain_rs none drain adjust limit min_available before hs hd ha hl hb = inr hb
adjust-Within drain_rs (some rs) drain adjust limit min_available before hs hd ha hl hb =
    let range =
      adjusted_in_range drain adjust limit rs.available_replicas _ min_available hd ha hl hs.1 in
    inl (drained_within_limit _ drain limit hl hd range.0 range.1)
