-- ===== src/Rollout/Phase/Settled.antt =====
-- What holds of a rollout whose phase is Healthy.
use argo_rollouts.Common.{
  ◌≡◌, Bool, true, false, not, ◌||◌, Option, none, List, ◌⊎◌, inl, inr, arith, if◌then◌else◌,
  Option-cases, ◌==◌,
}
use argo_rollouts.Common.Int.{ℤ, ltb_ℤ, ◌≤ℤ◌}
use argo_rollouts.Api.Analysis.{AnalysisPhase}
use argo_rollouts.Api.Rollout.{Rollout}
use argo_rollouts.Defaults.{get_replicas_or_default}
use argo_rollouts.Rollout.Scale.OldReplicaSets.{is_fully_promoted}
use argo_rollouts.Rollout.Phase.{
  RolloutPhase, healthy, degraded, progressing, paused, PhaseMessage, no_text, manually_paused,
  is_restarting, needs_updates, becoming_available, pending_termination, awaits_steps,
  RolloutCondition, calculate_rollout_phase, degrading, first_pause, restart_pending,
  progress_phase, strategy_phase, blue_green_phase, canary_phase,
}

blue_green_gates :
    (e s u p w : Bool) (x y z : PhaseMessage) (ok : PhaseMessage)
    → let r : RolloutPhase × PhaseMessage =
        if e || not s
        then (progressing, x)
        else if u || not p
        then (if w then (progressing, y) else (progressing, z))
        else (healthy, ok) in
      r.0 ≡ healthy → (s ≡ true) × (p ≡ true)
blue_green_gates e s u p w x y z ok h = ground arith

canary_gates :
    (o u p : Bool) (x y ok : PhaseMessage)
    → let r : RolloutPhase × PhaseMessage =
        if o then (progressing, x) else if u || not p then (progressing, y) else (healthy, ok) in
      r.0 ≡ healthy → p ≡ true
canary_gates o u p x y ok h = ground arith

progress_gates :
    (r n v : Bool) (x y z : PhaseMessage) (rest : RolloutPhase × PhaseMessage)
    → (if r
        then (progressing, x)
        else if n
        then (progressing, y)
        else if v
        then (progressing, z)
        else rest).0
      ≡ healthy
    → (r ≡ false) × (n ≡ false) × (v ≡ false) × (rest.0 ≡ healthy)
progress_gates r n v x y z rest h = ground arith

paused_gate :
    (b : Bool) (x : PhaseMessage) (rest : RolloutPhase × PhaseMessage)
    → (if b then (paused, x) else rest).0 ≡ healthy
    → (b ≡ false) × (rest.0 ≡ healthy)
paused_gate b x rest h = ground arith

not_below : (a b : ℤ) → ltb_ℤ a b ≡ false → b ≤ℤ a
not_below a b h = ground arith

degraded-not_healthy : degraded ≡ healthy → ⊥
degraded-not_healthy h = ground arith

paused-not_healthy : paused ≡ healthy → ⊥
paused-not_healthy h = ground arith

-- The rollout's update is over: its stable ReplicaSet is the current one.
abbrev pub Updated : Rollout → Type 0
Updated ro =
    ((ro.spec.blue_green ≡ none) ⊎ (ro.status.active_selector == ro.status.current_pod_hash ≡ true))
    × (((ro.spec.blue_green ≡ none) × (ro.spec.canary ≡ none)) ⊎ (is_fully_promoted ro ≡ true))

strategy_phase-Updated :
    (run : Option AnalysisPhase) (ro : Rollout) → (strategy_phase run ro).0 ≡ healthy → Updated ro
unfolding strategy_phase blue_green_phase canary_phase is_fully_promoted
strategy_phase-Updated run ro h = elim (Option-cases ro.spec.blue_green) [
  | inr (b, e) ↦ let g = blue_green_gates _ _ _ _ _ _ _ _ _ (rw e at h) in (inr g.0, inr g.1)
  | inl e ↦ elim (Option-cases ro.spec.canary) [
    | inr (k, m) ↦
        (inl e, inr (canary_gates _ _ _ pending_termination awaits_steps no_text (rw (e, m) at h)))
    | inl m ↦ (inl e, inl (e, m))
  ]
]

-- A rollout whose phase CalculateRolloutPhase gives as Healthy has no condition that degrades it, is
-- neither paused nor restarting, has at least its replicas updated and as many available, and its
-- update is over: with a strategy the stable ReplicaSet is the current one, and in blue-green the
-- active service selects it.
pub healthy_rollout-Updated :
    (conditions : List RolloutCondition) (restart_at restarted_at : Option ℤ)
    (run : Option AnalysisPhase) (ro : Rollout)
    → (calculate_rollout_phase conditions restart_at restarted_at run ro).0 ≡ healthy
    → (degrading conditions ≡ none)
      × (ro.spec.paused ≡ false)
      × (first_pause ro.status.pause_conditions ≡ none)
      × (restart_pending restart_at restarted_at ≡ false)
      × (get_replicas_or_default ro.spec.replicas ≤ℤ ro.status.updated_replicas)
      × (ro.status.updated_replicas ≤ℤ ro.status.available_replicas)
      × Updated ro
unfolding calculate_rollout_phase progress_phase
healthy_rollout-Updated conditions restart_at restarted_at run ro h =
    elim (Option-cases (degrading conditions)) [
      | inr (said, e) ↦ elim (degraded-not_healthy (rw (calculate_rollout_phase, e) at h)) [ ]
      | inl e ↦
          let g =
            paused_gate ro.spec.paused manually_paused _ (rw (calculate_rollout_phase, e) at h) in
          elim (Option-cases (first_pause ro.status.pause_conditions)) [
            | inr (reason, m) ↦ elim (paused-not_healthy (rw m at g.1)) [ ]
            | inl m ↦
                let q =
                  progress_gates _ _ _ is_restarting needs_updates becoming_available
                    (strategy_phase run ro) (rw m at g.1) in
                (
                  e,
                  g.0,
                  m,
                  q.0,
                  not_below ro.status.updated_replicas (get_replicas_or_default ro.spec.replicas)
                      q.1,
                  not_below ro.status.available_replicas ro.status.updated_replicas q.2,
                  strategy_phase-Updated run ro q.3,
                )
          ]
    ]
