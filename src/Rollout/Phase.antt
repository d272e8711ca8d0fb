-- ===== src/Rollout/Phase.antt =====
-- The phase of a rollout: utils/rollout/rolloututil.go. The conditions, the times of restarts and the
-- recorded post-promotion analysis are parameters of the functions that read them.
pub mod Settled
use argo_rollouts.Common.{
  String, Bool, true, false, not, ◌&&◌, ◌||◌, Option, none, some, List, [], ◌∷◌, if◌then◌else◌,
  is_none, ◌==◌,
}
use argo_rollouts.Common.Int.{ℤ, ltb_ℤ, eqb_ℤ}
use argo_rollouts.Api.Analysis.{AnalysisPhase, completed}
use argo_rollouts.Api.Rollout.{
  Rollout, BlueGreenStrategy, CanaryStrategy, PauseReason, PauseCondition,
}
use argo_rollouts.Defaults.{get_replicas_or_default, max_traffic_weight}
use argo_rollouts.ReplicaSet.Steps.{get_current_canary_step}
use argo_rollouts.Rollout.Pause.{is_empty}
use argo_rollouts.Rollout.Scale.OldReplicaSets.{is_fully_promoted}

pub data RolloutPhase : Type 0 where
  healthy degraded progressing paused : RolloutPhase

pub data RolloutConditionType : Type 0 where
  invalid_spec available_condition progressing_condition replica_failure paused_condition
        completed_condition healthy_condition :
      RolloutConditionType

-- The reasons that the phase depends on.
pub data ConditionReason : Type 0 where
  rollout_aborted timed_out other_reason : ConditionReason

pub record RolloutCondition : Type 0 where
  pub type : RolloutConditionType
  pub reason : ConditionReason
  pub message : String

-- The messages of the phase; the text of a condition follows its type or reason.
pub data PhaseMessage : Type 0 where
  no_text manually_paused is_restarting needs_updates becoming_available cutover_pending
        awaits_analysis awaits_verification pending_termination awaits_steps not_observed unpausing
        workload_not_observed :
      PhaseMessage
  invalid : String → PhaseMessage
  because : ConditionReason → String → PhaseMessage
  pause_reason : PauseReason → PhaseMessage
  recorded : String → PhaseMessage

is_invalid : RolloutConditionType → Bool
is_invalid invalid_spec = true
is_invalid _ = false

degrades : ConditionReason → Bool
degrades other_reason = false
degrades _ = true

-- The message of the first condition that degrades the rollout.
unfoldable pub degrading : List RolloutCondition → Option PhaseMessage
unfolding is_invalid degrades
degrading [] = none
degrading (c ∷ cs) =
    let rest = degrading cs in
    if is_invalid c.type
    then some (invalid c.message)
    else if degrades c.reason
    then some (because c.reason c.message)
    else rest

abbrev pub first_pause : List PauseCondition → Option PauseReason
first_pause [] = none
first_pause (p ∷ ps) = some p.reason

abbrev same_restart : ℤ → Option ℤ → Bool
same_restart t none = false
same_restart t (some u) = eqb_ℤ t u

-- Whether a restart was asked for that is not recorded as done.
unfoldable pub restart_pending : Option ℤ → Option ℤ → Bool
restart_pending none restarted_at = false
restart_pending (some t) restarted_at = not (same_restart t restarted_at)

unfoldable pub waiting_for_blue_green_post_promotion_analysis :
    BlueGreenStrategy → Option AnalysisPhase → Bool
waiting_for_blue_green_post_promotion_analysis b run =
    let pending : Bool = elim run [ none ↦ true | some phase ↦ not (completed phase) ] in
    b.post_promotion_analysis && pending

abbrev pub not_promoted : Rollout → Bool
not_promoted ro = (ro.status.stable_rs == "") || not (is_fully_promoted ro)

unfoldable pub blue_green_phase :
    Option AnalysisPhase → Rollout → BlueGreenStrategy → RolloutPhase × PhaseMessage
blue_green_phase run ro b =
    let active = ro.status.active_selector in
    if (active == "") || not (active == ro.status.current_pod_hash)
    then (progressing, cutover_pending)
    else if not_promoted ro
    then (if waiting_for_blue_green_post_promotion_analysis b run
        then (progressing, awaits_analysis)
        else (progressing, awaits_verification))
    else (healthy, no_text)

unfoldable pub canary_phase : Rollout → CanaryStrategy → RolloutPhase × PhaseMessage
canary_phase ro canary =
    if is_none canary.traffic_routing && ltb_ℤ ro.status.updated_replicas ro.status.replicas
    then (progressing, pending_termination)
    else if not_promoted ro
    then (progressing, awaits_steps)
    else (healthy, no_text)

unfoldable pub strategy_phase : Option AnalysisPhase → Rollout → RolloutPhase × PhaseMessage
strategy_phase run ro = elim ro.spec.blue_green [
  | some b ↦ blue_green_phase run ro b
  | none ↦ elim ro.spec.canary [ some canary ↦ canary_phase ro canary | none ↦ (healthy, no_text) ]
]

-- The phase of a rollout that is neither degraded nor paused.
unfoldable pub progress_phase :
    Option ℤ → Option ℤ → Option AnalysisPhase → Rollout → RolloutPhase × PhaseMessage
progress_phase restart_at restarted_at run ro =
    let updated = ro.status.updated_replicas in
    if restart_pending restart_at restarted_at
    then (progressing, is_restarting)
    else if ltb_ℤ updated (get_replicas_or_default ro.spec.replicas)
    then (progressing, needs_updates)
    else if ltb_ℤ ro.status.available_replicas updated
    then (progressing, becoming_available)
    else strategy_phase run ro

unfoldable pub calculate_rollout_phase :
    List RolloutCondition
    → Option ℤ
    → Option ℤ
    → Option AnalysisPhase
    → Rollout
    → RolloutPhase × PhaseMessage
calculate_rollout_phase conditions restart_at restarted_at run ro = elim (degrading conditions) [
  | some said ↦ (degraded, said)
  | none ↦
      if ro.spec.paused
      then (paused, manually_paused)
      else elim (first_pause ro.status.pause_conditions) [
        | some reason ↦ (paused, pause_reason reason)
        | none ↦ progress_phase restart_at restarted_at run ro
      ]
]

unfoldable pub is_unpausing : Rollout → Bool
is_unpausing ro = ro.status.controller_pause && is_empty ro.status.pause_conditions

-- What clients see. `observed` and `workload_observed` are whether the controller has seen the latest
-- specification and workload; `in_status` is the phase and the message that it recorded, if any.
unfoldable pub get_rollout_phase :
    Bool
    → Bool
    → Option (RolloutPhase × String)
    → RolloutPhase × PhaseMessage
    → Rollout
    → RolloutPhase × PhaseMessage
get_rollout_phase observed workload_observed in_status calculated ro =
    let answer : RolloutPhase × PhaseMessage = elim in_status [
      | some p ↦ (p.0, recorded p.1)
      | none ↦ calculated
    ] in
    if not observed
    then (progressing, not_observed)
    else if is_unpausing ro
    then (progressing, unpausing)
    else if not workload_observed
    then (progressing, workload_not_observed)
    else answer

-- Whether the weight is verified: at a setWeight step, or at the end of the update.
unfoldable pub should_verify_weight : Rollout → ℤ → Bool
should_verify_weight ro desired =
    let at_step : Bool = elim (get_current_canary_step ro).0 [
      | some step ↦ not (is_none step.set_weight)
      | none ↦ eqb_ℤ desired (max_traffic_weight ro)
    ] in
    not (ro.status.stable_rs == "") && not (is_fully_promoted ro) && at_step
