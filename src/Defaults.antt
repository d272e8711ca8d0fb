-- ===== src/Defaults.antt =====
-- utils/defaults/defaults.go and utils/weightutil/weight.go: a setting of the rollout, or its default.
use argo_rollouts.Common.{Bool, true, false, ◌&&◌, Option, none, some, if◌then◌else◌, is_some}
use argo_rollouts.Common.Int.{ℤ, pos, ◌*ℤ◌, eqb_ℤ, int32}
use argo_rollouts.Api.IntStr.{IntOrString, str_val, IntStr}
use argo_rollouts.Api.Analysis.{Metric}
use argo_rollouts.Api.Rollout.{Rollout, CanaryStrategy, BlueGreenStrategy}

-- Nanoseconds, as a `time.Duration`; no int32 of seconds overflows it.
abbrev pub second : ℤ
second = pos 1000000000

abbrev pub or_default {ℓ} : {A : Type ℓ} → A → Option A → A
or_default d none = d
or_default d (some a) = a

-- `DefaultReplicas` is 1.
unfoldable pub get_replicas_or_default : Option ℤ → ℤ
get_replicas_or_default none = pos 1
get_replicas_or_default (some n) = n

unfoldable pub get_max_surge_or_default : Rollout → IntOrString
get_max_surge_or_default ro = elim ro.spec.canary [
  | none ↦ str_val "25"
  | some c ↦ or_default (str_val "25") c.max_surge
]

canary_max_unavailable : Option CanaryStrategy → IntOrString
canary_max_unavailable none = str_val "25"
canary_max_unavailable (some c) = or_default (str_val "25") c.max_unavailable

unfoldable pub get_max_unavailable_or_default : Rollout → IntOrString
unfolding canary_max_unavailable
get_max_unavailable_or_default ro = elim ro.spec.blue_green [
  | none ↦ canary_max_unavailable ro.spec.canary
  | some b ↦ or_default (canary_max_unavailable ro.spec.canary) b.max_unavailable
]

-- A delay in seconds, as the pair of a duration and whether it was set: 0 means that there is no
-- scale-down at all.
explicit_delay : Option ℤ → Option ℤ × Bool
explicit_delay none = (some (pos 30 *ℤ second), false)
explicit_delay (some s) = if eqb_ℤ s (pos 0) then (none, true) else (some (s *ℤ second), true)

unfoldable pub get_abort_scale_down_delay_seconds_or_default : Rollout → Option ℤ × Bool
unfolding explicit_delay
get_abort_scale_down_delay_seconds_or_default ro = elim ro.spec.blue_green [
  | some b ↦ explicit_delay b.abort_scale_down_delay_seconds
  | none ↦ elim ro.spec.canary [
    | none ↦ (some (pos 0 *ℤ second), false)
    | some c ↦ elim c.traffic_routing [
      | none ↦ (some (pos 0 *ℤ second), false)
      | some _ ↦ explicit_delay c.abort_scale_down_delay_seconds
    ]
  ]
]

unfoldable pub has_explicit_abort_scale_down_delay : Rollout → Bool
has_explicit_abort_scale_down_delay ro =
    let (abort_delay, was_set) = get_abort_scale_down_delay_seconds_or_default ro in
    was_set && is_some abort_delay

blue_green_delay_seconds : Option BlueGreenStrategy → ℤ
blue_green_delay_seconds none = pos 0
blue_green_delay_seconds (some b) = or_default (pos 30) b.scale_down_delay_seconds

-- The canary's setting goes over the blue-green one, but only with traffic routing.
unfoldable pub get_scale_down_delay_seconds_or_default : Rollout → ℤ
unfolding blue_green_delay_seconds
get_scale_down_delay_seconds_or_default ro =
    let blue_green = blue_green_delay_seconds ro.spec.blue_green in
    let seconds : ℤ = elim ro.spec.canary [
      | none ↦ blue_green
      | some c ↦ elim c.traffic_routing [
        | none ↦ blue_green
        | some _ ↦ or_default (pos 30) c.scale_down_delay_seconds
      ]
    ] in
    seconds *ℤ second

-- `weightutil.MaxTrafficWeight`
unfoldable pub max_traffic_weight : Rollout → ℤ
max_traffic_weight ro = elim ro.spec.canary [
  | none ↦ pos 100
  | some c ↦ elim c.traffic_routing [
    | none ↦ pos 100
    | some t ↦ or_default (pos 100) t.max_traffic_weight
  ]
]

module _ (lib : IntStr) where
  unfoldable pub get_consecutive_error_limit_or_default : Metric → ℤ
  get_consecutive_error_limit_or_default m = elim m.consecutive_error_limit [
    | none ↦ pos 4
    | some l ↦ int32 (lib.int_value l)
  ]
