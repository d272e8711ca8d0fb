-- ===== src/Tests/Services.antt =====
-- The Services of a blue-green rollout and of a canary.
use argo_rollouts.Common.{◌≡◌, ◌⊎◌, ◌&&◌, ◌||◌, true, false, none, some, [], ◌∷◌}
use argo_rollouts.Common.Int.{pos}
use argo_rollouts.Float.{fractions}
use argo_rollouts.Api.IntStr.{numbers_only}
use argo_rollouts.ReplicaSet.NewReplicas.{ready_for_pause}
use argo_rollouts.Rollout.Pause.{completed_blue_green_pause}
use argo_rollouts.Rollout.Promote.{Context}
use argo_rollouts.Rollout.BlueGreen.{
  halt_progress, is_blue_green_fast_tracked, completed_pre_promotion_analysis,
}
use argo_rollouts.Rollout.Services.{
  Service, service_found, is_saturated, reconcile_active_service,
  reconcile_stable_and_canary_service,
}
use argo_rollouts.Rollout.Services.Switch.{
  Asked, Backed, selector_of, active_service-guarded, canary_services-Backed,
}
use argo_rollouts.Tests.Fixtures.{
  canary_rollout, blue_green_rollout, blue_green, weight_step, in_update, rs_of, context_of,
}

abbrev old_service : Service
old_service = record { selector = some "stable"; managed = true }

abbrev green : Context
green =
    context_of (blue_green_rollout (record in_update { active_selector = "stable" }))
      (rs_of "new" (pos 10) (pos 9)) (rs_of "stable" (pos 10) (pos 5))

active_service-guarded_example :
    let next =
      (reconcile_active_service fractions numbers_only
        (pos 0)
        none
        blue_green
        (λ svc. true)
        green
        (rs_of "new" (pos 10) (pos 9))
        old_service).0.selector in
    (next ≡ some "stable")
    ⊎ ((halt_progress green ≡ false)
        × (ready_for_pause fractions numbers_only green.rollout
              (rs_of "new" (pos 10) (pos 9))
              green.all_rss
            ≡ true)
        × (is_saturated green.rollout (rs_of "new" (pos 10) (pos 9)) ≡ true)
        × Asked false
            (is_blue_green_fast_tracked green (some "stable") (rs_of "new" (pos 10) (pos 9))
              || (completed_blue_green_pause (pos 0) green.pause_context blue_green
                  && completed_pre_promotion_analysis blue_green none))
            next
            "stable"
            "new")
active_service-guarded_example =
    active_service-guarded fractions numbers_only (pos 0) none blue_green (λ svc. true) green
      (rs_of "new" (pos 10) (pos 9)) old_service

abbrev canary : Context
canary =
    context_of (canary_rollout (weight_step ∷ []) in_update) (rs_of "new" (pos 2) (pos 9))
      (rs_of "stable" (pos 10) (pos 5))

canary_services-Backed_example :
    let r =
      reconcile_stable_and_canary_service
        (λ svc. true)
        canary
        (service_found old_service)
        (service_found old_service) in
    Backed canary.stable_rs (some "stable") (selector_of r.0)
    × (Backed canary.stable_rs (some "stable") (selector_of r.1)
        ⊎ Backed canary.new_rs (some "stable") (selector_of r.1))
canary_services-Backed_example =
    canary_services-Backed (λ svc. true) canary (service_found old_service)
      (service_found old_service)
