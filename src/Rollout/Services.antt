-- ===== src/Rollout/Services.antt =====
-- The Services of a rollout: rollout/service.go and `IsSaturated` of utils/annotations. `accepts` says
-- of a Service whether the API server takes the patch that makes it so.
pub mod Switch
use argo_rollouts.Common.{
  String, Bool, true, false, not, ◌&&◌, ◌||◌, Option, none, some, if◌then◌else◌, is_some, is_none,
  ◌==◌,
}
use argo_rollouts.Common.Int.{ℤ, pos, ltb_ℤ, leb_ℤ, eqb_ℤ}
use argo_rollouts.Float.{Float64}
use argo_rollouts.Api.IntStr.{IntStr}
use argo_rollouts.Api.Analysis.{AnalysisPhase}
use argo_rollouts.Api.Rollout.{Rollout, ReplicaSet, BlueGreenStrategy, CanaryStrategy}
use argo_rollouts.Defaults.{get_replicas_or_default}
use argo_rollouts.ReplicaSet.NewReplicas.{ready_for_pause}
use argo_rollouts.Rollout.Pause.{is_aborted, completed_blue_green_pause}
use argo_rollouts.Rollout.Promote.{Context}
use argo_rollouts.Rollout.Traffic.{is_dynamically_rolling_back_to_stable}
use argo_rollouts.Rollout.BlueGreen.{
  halt_progress, is_blue_green_fast_tracked, completed_pre_promotion_analysis, label_of,
}

-- The hash that the selector asks for, if any, and whether the Service has the rollouts' annotation.
pub record Service : Type 0 where
  pub selector : Option String
  pub managed : Bool

-- A Service by a name that the specification may leave out.
pub data ServiceLookup : Type 0 where
  service_unnamed service_missing : ServiceLookup
  service_found : Service → ServiceLookup

unfoldable pub selects_hash : Option String → String → Bool
selects_hash none hash = false
selects_hash (some old) hash = old == hash

unfoldable pub is_saturated : Rollout → ReplicaSet → Bool
is_saturated ro rs =
    let replicas = get_replicas_or_default ro.spec.replicas in
    elim rs.desired_replicas [
      | none ↦ false
      | some desired ↦
          eqb_ℤ rs.replicas replicas
          && eqb_ℤ desired replicas
          && eqb_ℤ rs.available_replicas replicas
    ]

unfoldable pub is_replica_set_available : ReplicaSet → Bool
is_replica_set_available rs =
    not (eqb_ℤ rs.replicas (pos 0))
    && not (eqb_ℤ rs.available_replicas (pos 0))
    && leb_ℤ rs.replicas rs.available_replicas

unfoldable pub is_replica_set_partially_available : ReplicaSet → Bool
is_replica_set_partially_available rs = ltb_ℤ (pos 0) rs.available_replicas

module _ (accepts : Service → Bool) where
  -- The Service, and whether the patch failed.
  unfoldable pub switch_service_selector : Service → String → Service × Bool
  switch_service_selector svc hash =
      let switched : Service = record { selector = some hash; managed = true } in
      if selects_hash svc.selector hash && svc.managed
      then (svc, false)
      else if accepts switched
      then (switched, false)
      else (svc, true)

  unfoldable pub reconcile_preview_service : Context → ReplicaSet → Service → Service × Bool
  reconcile_preview_service c new svc =
      if halt_progress c then (svc, false) else switch_service_selector svc new.pod_template_hash

  -- The switch of a Service to a ReplicaSet; `check` asks for available pods.
  unfoldable pub switch_to : ReplicaSet → Bool → Service → Service × Bool
  switch_to rs check svc =
      if label_of svc.selector == rs.pod_template_hash
      then (svc, false)
      else if not svc.managed && check && not (is_replica_set_available rs)
      then (svc, false)
      else if check && not (is_replica_set_partially_available rs)
      then (svc, false)
      else switch_service_selector svc rs.pod_template_hash

  unfoldable pub ensure_svc_targets :
      Option ReplicaSet → Bool → ServiceLookup → ServiceLookup × Bool
  ensure_svc_targets none check svc = (svc, false)
  ensure_svc_targets (some rs) check service_unnamed = (service_unnamed, false)
  ensure_svc_targets (some rs) check service_missing = (service_missing, true)
  ensure_svc_targets (some rs) check (service_found svc) =
      let r = switch_to rs check svc in (service_found r.0, r.1)

  -- The canary's Service, once the stable one is seen to.
  unfoldable pub target_canary_service :
      CanaryStrategy → Context → ServiceLookup → ServiceLookup × Bool
  target_canary_service canary c svc =
      let to_stable = ensure_svc_targets c.stable_rs true svc in
      let to_new = ensure_svc_targets c.new_rs true svc in
      if is_aborted c.pause_context && is_none canary.traffic_routing
      then to_stable
      else if is_some (is_dynamically_rolling_back_to_stable c.rollout c.new_rs)
      then (svc, false)
      else to_new

  unfoldable pub target_services :
      Option CanaryStrategy
      → Context
      → ServiceLookup
      → ServiceLookup
      → ServiceLookup × ServiceLookup × Bool
  target_services none c stable canary = (stable, canary, false)
  target_services (some strategy) c stable canary =
      let s = ensure_svc_targets c.stable_rs true stable in
      let t = target_canary_service strategy c canary in
      if s.1 then (s.0, canary, true) else (s.0, t.0, t.1)

  -- The stable and the canary Service, which are two, and whether an error ended the function.
  unfoldable pub reconcile_stable_and_canary_service :
      Context → ServiceLookup → ServiceLookup → ServiceLookup × ServiceLookup × Bool
  reconcile_stable_and_canary_service c = target_services c.rollout.spec.canary c

module _ (f : Float64) (lib : IntStr) (now : ℤ) (pre_promotion : Option AnalysisPhase)
    (b : BlueGreenStrategy) (accepts : Service → Bool) where
  -- Whether the new ReplicaSet may have the traffic.
  unfoldable pub may_switch : Context → ReplicaSet → Service → Bool
  may_switch c new svc =
      is_blue_green_fast_tracked c svc.selector new
      || (completed_blue_green_pause now c.pause_context b
          && completed_pre_promotion_analysis b pre_promotion)

  unfoldable pub active_hash : Context → ReplicaSet → Service → String
  active_hash c new svc =
      if c.rollout.status.abort
      then c.rollout.status.stable_rs
      else if may_switch c new svc
      then new.pod_template_hash
      else label_of svc.selector

  unfoldable pub reconcile_active_service : Context → ReplicaSet → Service → Service × Bool
  reconcile_active_service c new svc =
      if halt_progress c
      then (svc, false)
      else if not (ready_for_pause f lib c.rollout new c.all_rss)
          || not (is_saturated c.rollout new)
      then (svc, false)
      else switch_service_selector accepts svc (active_hash c new svc)
