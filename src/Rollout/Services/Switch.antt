-- ===== src/Rollout/Services/Switch.antt =====
-- When a Service is given another ReplicaSet.
use argo_rollouts.Common.{
  ◌≡◌, refl, ap, String, Bool, true, false, not, ◌&&◌, ◌||◌, Option, none, some, ◌⊎◌, inl, inr,
  arith, Bool-cases, if◌then◌else◌, is_some, is_none, ◌==◌,
}
use argo_rollouts.Common.Int.{ℤ}
use argo_rollouts.Float.{Float64}
use argo_rollouts.Api.IntStr.{IntStr}
use argo_rollouts.Api.Analysis.{AnalysisPhase}
use argo_rollouts.Api.Rollout.{ReplicaSet, BlueGreenStrategy, CanaryStrategy}
use argo_rollouts.ReplicaSet.NewReplicas.{ready_for_pause}
use argo_rollouts.Rollout.Pause.{is_aborted, completed_blue_green_pause}
use argo_rollouts.Rollout.Traffic.{is_dynamically_rolling_back_to_stable}
use argo_rollouts.Rollout.Promote.{Context}
use argo_rollouts.Rollout.BlueGreen.{
  completed_pre_promotion_analysis, halt_progress, is_blue_green_fast_tracked, label_of,
}
use argo_rollouts.Rollout.Services.{
  Service, ServiceLookup, service_unnamed, service_missing, service_found, is_saturated,
  is_replica_set_available, is_replica_set_partially_available, switch_service_selector, switch_to,
  ensure_svc_targets, target_canary_service, target_services, reconcile_stable_and_canary_service,
  may_switch, active_hash, reconcile_active_service,
}

switch_or_not :
    (a b : Bool) (svc new : Service)
    → let r : Service × Bool =
        if a then (svc, false) else if b then (new, false) else (svc, true) in
      (r.0 ≡ svc) ⊎ (r.0 ≡ new)
switch_or_not true b svc new = inl refl
switch_or_not false true svc new = inr refl
switch_or_not false false svc new = inl refl

switch_service_selector-target :
    (accepts : Service → Bool) (svc : Service) (hash : String)
    → let r = switch_service_selector accepts svc hash in
      (r.0.selector ≡ svc.selector) ⊎ (r.0.selector ≡ some hash)
unfolding switch_service_selector
switch_service_selector-target accepts svc hash =
    elim (switch_or_not _ _ svc (record { selector = some hash; managed = true })) [
      | inl e ↦ inl (ap (λ (s : Service). s.selector) e)
      | inr e ↦ inr (ap (λ (s : Service). s.selector) e)
    ]

-- The selector is the one before, or asks for a ReplicaSet that has an available pod.
abbrev pub Backed : Option ReplicaSet → Option String → Option String → Type 0
Backed none old next = next ≡ old
Backed (some rs) old next =
    (next ≡ old)
    ⊎ ((next ≡ some rs.pod_template_hash) × (is_replica_set_partially_available rs ≡ true))

switch_to-Backed :
    (accepts : Service → Bool) (rs : ReplicaSet) (svc : Service)
    → Backed (some rs) svc.selector (switch_to accepts rs true svc).0.selector
unfolding switch_to
switch_to-Backed accepts rs svc =
    elim (Bool-cases (label_of svc.selector == rs.pod_template_hash)) [
      | inl e ↦ rw e (inl refl)
      | inr e ↦
          rw e (elim (Bool-cases (not svc.managed && true && not (is_replica_set_available rs))) [
            | inl m ↦ rw m (inl refl)
            | inr m ↦ rw m (elim (Bool-cases (is_replica_set_partially_available rs)) [
              | inr n ↦ rw n (inl refl)
              | inl n ↦
                  rw n (elim (switch_service_selector-target accepts svc rs.pod_template_hash) [
                    | inl s ↦ inl s
                    | inr s ↦ inr (s, refl)
                  ])
            ])
          ])
    ]

abbrev pub selector_of : ServiceLookup → Option String
selector_of (service_found svc) = svc.selector
selector_of _ = none

Backed-same : (rs : Option ReplicaSet) (old : Option String) → Backed rs old old
Backed-same none old = refl
Backed-same (some rs) old = inl refl

ensure_svc_targets-Backed :
    (accepts : Service → Bool) (rs : Option ReplicaSet) (svc : ServiceLookup)
    → Backed rs (selector_of svc) (selector_of (ensure_svc_targets accepts rs true svc).0)
unfolding ensure_svc_targets
ensure_svc_targets-Backed accepts none svc = refl
ensure_svc_targets-Backed accepts (some rs) service_unnamed = inl refl
ensure_svc_targets-Backed accepts (some rs) service_missing = inl refl
ensure_svc_targets-Backed accepts (some rs) (service_found svc) = switch_to-Backed accepts rs svc

target_canary_service-Backed :
    (accepts : Service → Bool) (strategy : CanaryStrategy) (c : Context) (svc : ServiceLookup)
    → let next = selector_of (target_canary_service accepts strategy c svc).0 in
      Backed c.stable_rs (selector_of svc) next ⊎ Backed c.new_rs (selector_of svc) next
unfolding target_canary_service
target_canary_service-Backed accepts strategy c svc =
    elim (Bool-cases (is_aborted c.pause_context && is_none strategy.traffic_routing)) [
      | inl e ↦ rw e (inl (ensure_svc_targets-Backed accepts c.stable_rs svc))
      | inr e ↦
          rw e
            (elim (Bool-cases
              (is_some (is_dynamically_rolling_back_to_stable c.rollout c.new_rs))) [
                | inl m ↦ rw m (inl (Backed-same c.stable_rs (selector_of svc)))
                | inr m ↦ rw m (inr (ensure_svc_targets-Backed accepts c.new_rs svc))
              ])
    ]

target_services-Backed :
    (accepts : Service → Bool) (o : Option CanaryStrategy) (c : Context)
    (stable canary : ServiceLookup)
    → let r = target_services accepts o c stable canary in
      Backed c.stable_rs (selector_of stable) (selector_of r.0)
      × (Backed c.stable_rs (selector_of canary) (selector_of r.1)
          ⊎ Backed c.new_rs (selector_of canary) (selector_of r.1))
unfolding target_services
target_services-Backed accepts none c stable canary = (
  Backed-same c.stable_rs (selector_of stable),
  inl (Backed-same c.stable_rs (selector_of canary)),
)
target_services-Backed accepts (some strategy) c stable canary =
    let first = ensure_svc_targets-Backed accepts c.stable_rs stable in
    elim (Bool-cases (ensure_svc_targets accepts c.stable_rs true stable).1) [
      | inl m ↦ rw m (first, inl (Backed-same c.stable_rs (selector_of canary)))
      | inr m ↦ rw m (first, target_canary_service-Backed accepts strategy c canary)
    ]

-- Whatever the API server answers, reconcileStableAndCanaryService leaves each Service's selector as it
-- is or gives it a ReplicaSet that has an available pod: the stable Service the stable one, the canary
-- Service the stable or the new one.
pub canary_services-Backed :
    (accepts : Service → Bool) (c : Context) (stable canary : ServiceLookup)
    → let r = reconcile_stable_and_canary_service accepts c stable canary in
      Backed c.stable_rs (selector_of stable) (selector_of r.0)
      × (Backed c.stable_rs (selector_of canary) (selector_of r.1)
          ⊎ Backed c.new_rs (selector_of canary) (selector_of r.1))
unfolding reconcile_stable_and_canary_service
canary_services-Backed accepts c = target_services-Backed accepts c.rollout.spec.canary c

-- The selector is what an abort or an update asks for.
abbrev pub Asked : Bool → Bool → Option String → String → String → Type 0
Asked abort may next stable new =
    ((abort ≡ true) × (next ≡ some stable)) ⊎ ((abort ≡ false) × (may ≡ true) × (next ≡ some new))

-- The way through `active_hash`, for the selector that the switch leaves.
active_choice :
    (abort may : Bool) (old next : Option String) (stable new : String)
    → (is_some old ≡ true) ⊎ (may ≡ true)
    → (next ≡ old) ⊎ (next ≡ some (if abort then stable else if may then new else label_of old))
    → (next ≡ old) ⊎ Asked abort may next stable new
unfolding label_of
active_choice abort may old next stable new h (inl e) = inl e
active_choice true may old next stable new h (inr e) = inr (inl (refl, e))
active_choice false true old next stable new h (inr e) = inr (inr (refl, refl, e))
active_choice false false (some old) next stable new h (inr e) = inl e
active_choice false false none next stable new h (inr e) = ground arith

tracked-new :
    (c : Context) (old : Option String) (new : ReplicaSet)
    → (is_some old ≡ true) ⊎ (is_blue_green_fast_tracked c old new ≡ true)
unfolding is_blue_green_fast_tracked
tracked-new c none new = inr (ground arith)
tracked-new c (some h) new = inl refl

or_left : (a b : Bool) → a ≡ true → a || b ≡ true
or_left a b h = ground arith

gated :
    (C : Option String → Type 0) (h r s : Bool) (svc : Service) (rest : Service × Bool)
    → (rest.0.selector ≡ svc.selector) ⊎ C rest.0.selector
    → let t : Service × Bool =
        if h then (svc, false) else if not r || not s then (svc, false) else rest in
      (t.0.selector ≡ svc.selector) ⊎ ((h ≡ false) × (r ≡ true) × (s ≡ true) × C t.0.selector)
gated C true r s svc rest k = inl refl
gated C false false s svc rest k = inl refl
gated C false true false svc rest k = inl refl
gated C false true true svc rest (inl e) = inl e
gated C false true true svc rest (inr e) = inr (refl, refl, refl, e)

-- reconcileActiveService changes the selector of the active Service only if the rollout is not halted and
-- the new ReplicaSet has all its pods, saturated and available: on an abort to the stable hash, and else
-- to the new ReplicaSet, if the update is fast-tracked or its pause and pre-promotion analysis are over.
pub active_service-guarded :
    (f : Float64) (lib : IntStr) (now : ℤ) (pre_promotion : Option AnalysisPhase)
    (b : BlueGreenStrategy) (accepts : Service → Bool) (c : Context) (new : ReplicaSet)
    (svc : Service)
    → let next =
        (reconcile_active_service f lib now pre_promotion b accepts c new svc).0.selector in
      (next ≡ svc.selector)
      ⊎ ((halt_progress c ≡ false)
          × (ready_for_pause f lib c.rollout new c.all_rss ≡ true)
          × (is_saturated c.rollout new ≡ true)
          × Asked c.rollout.status.abort
              (is_blue_green_fast_tracked c svc.selector new
                || (completed_blue_green_pause now c.pause_context b
                    && completed_pre_promotion_analysis b pre_promotion))
              next
              c.rollout.status.stable_rs
              new.pod_template_hash)
unfolding reconcile_active_service active_hash may_switch
active_service-guarded f lib now pre_promotion b accepts c new svc =
    let may = may_switch f lib now pre_promotion b accepts c new svc in
    let hash = active_hash f lib now pre_promotion b accepts c new svc in
    let tracked : (is_some svc.selector ≡ true) ⊎ (may ≡ true) =
      elim (tracked-new c svc.selector new) [ inl e ↦ inl e | inr e ↦ inr (or_left _ _ e) ] in
    gated
      (λ next.
        Asked c.rollout.status.abort may next c.rollout.status.stable_rs new.pod_template_hash)
      (halt_progress c) (ready_for_pause f lib c.rollout new c.all_rss) (is_saturated c.rollout new)
      svc (switch_service_selector accepts svc hash)
      (active_choice c.rollout.status.abort may svc.selector
        (switch_service_selector accepts svc hash).0.selector c.rollout.status.stable_rs
        new.pod_template_hash tracked (switch_service_selector-target accepts svc hash))
