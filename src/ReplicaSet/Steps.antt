-- ===== src/ReplicaSet/Steps.antt =====
-- The current canary step, and the backward scans over the steps, utils/replicaset/canary.go.
use argo_rollouts.Common.{
  ℕ, zero, suc, Bool, true, false, Option, none, some, List, [], ◌∷◌, if◌then◌else◌, length,
  get_elem?,
}
use argo_rollouts.Common.Int.{ℤ, pos, ltb_ℤ}
use argo_rollouts.Api.Rollout.{Rollout, CanaryStep, SetCanaryScale}
use argo_rollouts.Defaults.{get_abort_scale_down_delay_seconds_or_default, max_traffic_weight}

-- The steps, none if the strategy is not a canary.
abbrev pub steps_of : Rollout → List CanaryStep
steps_of ro = elim ro.spec.canary [ none ↦ [] | some c ↦ c.steps ]

abbrev pub index_or_zero : Option ℕ → ℕ
index_or_zero none = 0
index_or_zero (some i) = i

abbrev pub step_at : List CanaryStep → ℕ → Option CanaryStep × Option ℕ
step_at [] i = (none, none)
step_at (s ∷ ss) i = (get_elem? (s ∷ ss) i, some i)

-- The step and its index: no index without steps, and no step past the last.
unfoldable pub get_current_canary_step : Rollout → Option CanaryStep × Option ℕ
get_current_canary_step ro = step_at (steps_of ro) (index_or_zero ro.status.current_step_index)

-- `for i := start; i >= 0; i--` over the steps, until the body `f` returns.
unfoldable pub scan_back {ℓ} :
    {A : Type ℓ} → (CanaryStep → Option A) → List CanaryStep → ℕ → Option A
scan_back f steps zero = elim (get_elem? steps zero) [ none ↦ none | some s ↦ f s ]
scan_back f steps (suc i) = elim (get_elem? steps (suc i)) [
  | none ↦ scan_back f steps i
  | some s ↦ elim (f s) [ none ↦ scan_back f steps i | some a ↦ some a ]
]

-- The same loop from the last step.
unfoldable pub scan_from_end {ℓ} :
    {A : Type ℓ} → (CanaryStep → Option A) → List CanaryStep → Option A
scan_from_end f steps = elim (length steps) [ zero ↦ none | suc n ↦ scan_back f steps n ]

abbrev pub or_else {ℓ} : {A : Type ℓ} → A → Option A → A
or_else d none = d
or_else d (some a) = a

-- The weight of the nearest setWeight step at or before the current one: 0 before the first, the
-- maximum when no step is left, 0 on abort.
unfoldable pub get_current_set_weight : Rollout → ℤ
unfolding get_current_canary_step
get_current_set_weight ro = if ro.status.abort then pos 0 else elim (get_current_canary_step ro).0 [
  | none ↦ max_traffic_weight ro
  | some _ ↦ elim (get_current_canary_step ro).1 [
    | none ↦ pos 0
    | some i ↦ or_else (pos 0) (scan_back (λ s. s.set_weight) (steps_of ro) i)
  ]
]

-- What a step does to the scan of `UseSetCanaryScale`: nothing, or return nil, or return the scale.
scale_at : CanaryStep → Option (Option SetCanaryScale)
scale_at s = elim s.set_canary_scale [
  | none ↦ none
  | some scs ↦ if scs.match_traffic_weight then some none else some (some scs)
]

abbrev pub is_traffic_routed : Rollout → Bool
is_traffic_routed ro = elim ro.spec.canary [
  | none ↦ false
  | some c ↦ elim c.traffic_routing [ none ↦ false | some _ ↦ true ]
]

abbrev is_delayed : Option ℤ × Bool → Bool
is_delayed (none, _) = false
is_delayed (some _, _) = true

-- Whether an aborted rollout drops the canary scale.
abbrev abort_drops_scale : Rollout → Bool
abort_drops_scale ro =
    if ro.status.abort then is_delayed (get_abort_scale_down_delay_seconds_or_default ro) else false

unfoldable pub use_set_canary_scale : Rollout → Option SetCanaryScale
unfolding get_current_canary_step scale_at
use_set_canary_scale ro =
    if is_traffic_routed ro
    then (if abort_drops_scale ro then none else elim (get_current_canary_step ro).0 [
      | none ↦ none
      | some _ ↦ elim (get_current_canary_step ro).1 [
        | none ↦ none
        | some i ↦ or_else none (scan_back scale_at (steps_of ro) i)
      ]
    ])
    else none

-- Whether the background analysis has to wait for a later step.
unfoldable pub before_starting_step : Rollout → Bool
unfolding get_current_canary_step
before_starting_step ro = elim ro.spec.canary [
  | none ↦ false
  | some c ↦ elim c.starting_step [
    | none ↦ false
    | some start ↦ elim (get_current_canary_step ro).1 [
      | none ↦ false
      | some i ↦ ltb_ℤ (pos i) start
    ]
  ]
]

unfoldable pub reset_current_step_index : Rollout → Option ℕ
reset_current_step_index ro = elim (steps_of ro) [ [] ↦ none | s ∷ ss ↦ some 0 ]
