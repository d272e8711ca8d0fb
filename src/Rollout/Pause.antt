-- ===== src/Rollout/Pause.antt =====
-- The pause context of one reconciliation, rollout/pause.go. Times are in seconds.
pub mod Conditions
use argo_rollouts.Common.{
  ◌≡◌, ℕ, ltb, eqb, String, Bool, true, false, not, ◌&&◌, ◌||◌, Option, none, some, List, [], ◌∷◌,
  ◌++◌, if◌then◌else◌, is_some, is_none,
}
use argo_rollouts.Common.Int.{ℤ, pos, ltb_ℤ, eqb_ℤ, ◌+ℤ◌}
use argo_rollouts.Api.Rollout.{
  PauseReason, inconclusive_analysis, inconclusive_experiment, canary_pause_step, blue_green_pause,
  PauseCondition, RolloutPause, Rollout, RolloutStatus, BlueGreenStrategy, CanaryStep,
}
use argo_rollouts.ReplicaSet.Steps.{get_current_canary_step}

abbrev pub reason_code : PauseReason → ℕ
reason_code inconclusive_analysis = 0
reason_code inconclusive_experiment = 1
reason_code canary_pause_step = 2
reason_code blue_green_pause = 3

abbrev pub same_reason : PauseReason → PauseReason → Bool
same_reason a b = eqb (reason_code a) (reason_code b)

-- A map from reasons to `true`, as the list of its keys.
unfoldable pub has_reason : List PauseReason → PauseReason → Bool
has_reason [] r = false
has_reason (x ∷ xs) r = same_reason x r || has_reason xs r

pub record PauseContext : Type 0 where
  pub rollout : Rollout
  pub add_pause_reasons : List PauseReason
  pub remove_pause_reasons : List PauseReason
  pub clear_pause_conditions : Bool
  pub add_abort : Bool
  pub remove_abort : Bool
  pub abort_message : String

unfoldable pub has_add_pause : PauseContext → Bool
has_add_pause p = elim p.add_pause_reasons [ [] ↦ false | x ∷ xs ↦ true ]

unfoldable pub is_aborted : PauseContext → Bool
is_aborted p = if p.remove_abort then false else p.add_abort || p.rollout.status.abort

abbrev pub add_abort : String → PauseContext → PauseContext
add_abort message p = record p { add_abort = true; abort_message = message }

abbrev pub remove_abort : PauseContext → PauseContext
remove_abort p = record p { remove_abort = true }

abbrev pub add_pause_condition : PauseReason → PauseContext → PauseContext
add_pause_condition r p = record p { add_pause_reasons = p.add_pause_reasons ++ (r ∷ []) }

abbrev pub remove_pause_condition : PauseReason → PauseContext → PauseContext
remove_pause_condition r p = record p { remove_pause_reasons = p.remove_pause_reasons ++ (r ∷ []) }

abbrev pub clear_pause_conditions : PauseContext → PauseContext
clear_pause_conditions p = record p { clear_pause_conditions = true }

since : ℤ → Option ℤ → ℤ
since now none = now
since now (some t) = t

-- The new status, and whether it is aborted; the time of an earlier abort is kept.
unfoldable pub calculate_abort_status : ℤ → PauseContext → RolloutStatus → RolloutStatus × Bool
unfolding since
calculate_abort_status now p new =
    if p.add_abort || (not p.remove_abort && p.rollout.status.abort)
    then (
      record new { abort = true; aborted_at = some (since now p.rollout.status.aborted_at) },
      true,
    )
    else (record new { abort = false; aborted_at = none }, false)

-- The old conditions whose reason is not removed.
unfoldable pub kept_conditions : List PauseReason → List PauseCondition → List PauseCondition
kept_conditions removed [] = []
kept_conditions removed (c ∷ cs) =
    if has_reason removed c.reason
    then kept_conditions removed cs
    else c ∷ kept_conditions removed cs

unfoldable pub has_condition : List PauseCondition → PauseReason → Bool
has_condition [] r = false
has_condition (c ∷ cs) r = same_reason c.reason r || has_condition cs r

-- The added reasons that the old conditions do not have, from now on.
unfoldable pub added_conditions : ℤ → List PauseCondition → List PauseReason → List PauseCondition
added_conditions now old [] = []
added_conditions now old (r ∷ rs) =
    if has_condition old r
    then added_conditions now old rs
    else record { reason = r; start_time = now } ∷ added_conditions now old rs

abbrev pub is_empty {ℓ} : {A : Type ℓ} → List A → Bool
is_empty [] = true
is_empty (x ∷ xs) = false

unfoldable pub calculate_pause_conditions : ℤ → PauseContext → RolloutStatus → RolloutStatus
calculate_pause_conditions now p new =
    let old = p.rollout.status.pause_conditions in
    let added = added_conditions now old p.add_pause_reasons in
    let conditions = kept_conditions p.remove_pause_reasons old ++ added in
    if is_empty conditions then new else record new {
      controller_pause = p.rollout.status.controller_pause || not (is_empty added);
      pause_conditions = conditions;
    }

unfoldable pub calculate_pause_status : ℤ → PauseContext → RolloutStatus → RolloutStatus
calculate_pause_status now p new =
    let (status, aborted) = calculate_abort_status now p new in
    if aborted || p.clear_pause_conditions then status else calculate_pause_conditions now p status

unfoldable pub find_condition : List PauseCondition → PauseReason → Option PauseCondition
find_condition [] r = none
find_condition (c ∷ cs) r = if same_reason c.reason r then some c else find_condition cs r

abbrev pub get_pause_condition : Rollout → PauseReason → Option PauseCondition
get_pause_condition ro r = find_condition ro.status.pause_conditions r

is_indefinite : CanaryStep → Bool
is_indefinite s = elim s.pause [ none ↦ false | some p ↦ is_none p.duration ]

is_manual : Option Bool → Bool
is_manual none = false
is_manual (some b) = not b

unfoldable pub requires_manual_action : PauseReason → Rollout → Bool
unfolding is_indefinite is_manual
requires_manual_action inconclusive_analysis ro = true
requires_manual_action inconclusive_experiment ro = true
requires_manual_action canary_pause_step ro = elim ro.spec.canary [
  | none ↦ false
  | some _ ↦ elim (get_current_canary_step ro).0 [ none ↦ false | some s ↦ is_indefinite s ]
]
requires_manual_action blue_green_pause ro = elim ro.spec.blue_green [
  | none ↦ false
  | some b ↦ is_manual b.auto_promotion_enabled
]

-- Whether a deadline, some seconds after the start of a pause, is past.
past : ℤ → Option PauseCondition → ℤ → Bool
past now none seconds = false
past now (some c) seconds = ltb_ℤ (c.start_time +ℤ seconds) now

-- `rollout.Spec.Strategy.BlueGreen` is set wherever the code calls it.
unfoldable pub completed_blue_green_pause : ℤ → PauseContext → BlueGreenStrategy → Bool
unfolding past is_manual
completed_blue_green_pause now p b =
    let condition = get_pause_condition p.rollout blue_green_pause in
    if has_add_pause p
    then false
    else if p.rollout.status.scale_up_preview_check_point
    then true
    else if not (is_manual b.auto_promotion_enabled)
    then (eqb_ℤ b.auto_promotion_seconds (pos 0) || past now condition b.auto_promotion_seconds)
    else p.rollout.status.controller_pause && is_none condition

unfoldable pub completed_canary_pause_step : ℤ → PauseContext → RolloutPause → Bool
unfolding past
completed_canary_pause_step now p pause =
    let condition = get_pause_condition p.rollout canary_pause_step in
    (p.rollout.status.controller_pause && is_none condition)
    || elim pause.duration [ none ↦ false | some d ↦ past now condition d ]
