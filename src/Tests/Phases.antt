-- ===== src/Tests/Phases.antt =====
-- A blue-green rollout that has reached its new revision.
use argo_rollouts.Common.{◌≡◌, refl, false, none, some, []}
use argo_rollouts.Common.Int.{pos, ◌≤ℤ◌}
use argo_rollouts.Api.Analysis.{successful}
use argo_rollouts.Api.Rollout.{Rollout}
use argo_rollouts.Defaults.{get_replicas_or_default}
use argo_rollouts.Rollout.Scale.OldReplicaSets.{is_fully_promoted}
use argo_rollouts.Rollout.Phase.{
  calculate_rollout_phase, progress_phase, strategy_phase, blue_green_phase, degrading, first_pause,
  restart_pending,
}
use argo_rollouts.Rollout.Phase.Settled.{Updated, healthy_rollout-Updated}
use argo_rollouts.Tests.Fixtures.{blue_green_rollout, in_update}

abbrev reached : Rollout
reached = blue_green_rollout (record in_update { updated_replicas = pos 10; stable_rs = "new" })

healthy_rollout-Updated_example :
    (degrading [] ≡ none)
    × (reached.spec.paused ≡ false)
    × (first_pause reached.status.pause_conditions ≡ none)
    × (restart_pending (some (pos 60)) (some (pos 60)) ≡ false)
    × (get_replicas_or_default reached.spec.replicas ≤ℤ reached.status.updated_replicas)
    × (reached.status.updated_replicas ≤ℤ reached.status.available_replicas)
    × Updated reached
unfolding calculate_rollout_phase progress_phase strategy_phase blue_green_phase degrading
    restart_pending is_fully_promoted get_replicas_or_default
healthy_rollout-Updated_example =
    healthy_rollout-Updated [] (some (pos 60)) (some (pos 60)) (some successful) reached refl
