-- ===== src/Rollout/Traffic.antt =====
-- The weights of a traffic-routed canary: rollout/trafficrouting.go, with `maxInt` and `minInt` of
-- rollout/restart.go and the tests of utils/rollout/rolloututil.go. The load balancer is a parameter
-- that says whether a weight is verified; its errors, managed routes and services are left out.
pub mod Balance
pub mod Guards
use argo_rollouts.Common.{
  ◌+◌, ◌/◌, ℕ, zero, suc, eqb, length, String, Bool, true, false, not, ◌&&◌, ◌||◌, Option, none,
  some, List, [], ◌∷◌, if◌then◌else◌, is_some, is_none, ◌==◌,
}
use argo_rollouts.Common.Int.{ℤ, pos, negsuc, ltb_ℤ, leb_ℤ, eqb_ℤ, ◌+ℤ◌, ◌-ℤ◌, ◌*ℤ◌, int32}
use argo_rollouts.Float.{Float64}
use argo_rollouts.Api.IntStr.{IntStr}
use argo_rollouts.Api.Analysis.{AnalysisPhase, running, same_phase}
use argo_rollouts.Api.Rollout.{Rollout, ReplicaSet, WeightDestination, TrafficWeights, CanaryStep}
use argo_rollouts.Api.Experiment.{ExperimentStatus, TemplateStatus}
use argo_rollouts.Defaults.{get_replicas_or_default, max_traffic_weight}
use argo_rollouts.ReplicaSet.Steps.{
  steps_of, scan_back, or_else, get_current_canary_step, get_current_set_weight, is_traffic_routed,
}
use argo_rollouts.ReplicaSet.Weight.{is_dynamic, get_desired_canary_weight}
use argo_rollouts.ReplicaSet.TrafficRouted.{
  replica_progress_threshold_met, progress_threshold, at_desired_replica_counts_for_canary,
}
use argo_rollouts.Rollout.Pause.{is_aborted}
use argo_rollouts.Rollout.Promote.{Context}
use argo_rollouts.Rollout.Scale.OldReplicaSets.{is_fully_promoted}

unfoldable pub max_int : ℤ → ℤ → ℤ
max_int left right = if ltb_ℤ right left then left else right

unfoldable pub min_int : ℤ → ℤ → ℤ
min_int left right = if ltb_ℤ left right then left else right

-- Go's division of integers rounds toward zero; a division by zero, which panics, is 0 here.
unfoldable pub div_ℤ : ℤ → ℤ → ℤ
div_ℤ (pos a) (pos b) = pos (a / b)
div_ℤ (pos a) (negsuc b) = pos 0 -ℤ pos (a / suc b)
div_ℤ (negsuc a) (pos b) = pos 0 -ℤ pos (suc a / b)
div_ℤ (negsuc a) (negsuc b) = pos (suc a / suc b)

unfoldable pub hash_of : Option ReplicaSet → String
hash_of none = ""
hash_of (some rs) = rs.pod_template_hash

unfoldable pub available_of : Option ReplicaSet → ℤ
available_of none = pos 0
available_of (some rs) = rs.available_replicas

-- The previous canary's hash, if the rollout is on its way back to the stable ReplicaSet; the code
-- calls it with a ReplicaSet.
unfoldable pub is_dynamically_rolling_back_to_stable : Rollout → Option ReplicaSet → Option String
unfolding hash_of available_of
is_dynamically_rolling_back_to_stable ro desired_rs =
    if not (is_fully_promoted ro) || not (is_traffic_routed ro) || not (is_dynamic ro)
    then none
    else elim ro.status.weights [
      | none ↦ none
      | some w ↦
          if w.canary.pod_template_hash == hash_of desired_rs
          then none
          else if leb_ℤ (get_replicas_or_default ro.spec.replicas) (available_of desired_rs)
          then none
          else some w.canary.pod_template_hash
    ]

first_with_hash : String → List ReplicaSet → Option ReplicaSet
first_with_hash hash [] = none
first_with_hash hash (rs ∷ rss) =
    if rs.pod_template_hash == hash then some rs else first_with_hash hash rss

unfoldable pub abort_or_dynamic_rollback_to_stable : Rollout → List ReplicaSet → String → Bool
unfolding first_with_hash
abort_or_dynamic_rollback_to_stable ro all_rss stable_hash =
    if ro.status.abort then true else elim (first_with_hash stable_hash all_rss) [
      | none ↦ false
      | some rs ↦ is_some (is_dynamically_rolling_back_to_stable ro (some rs))
    ]

-- A template of an experiment step, with its weight.
pub record RolloutExperimentTemplate : Type 0 where
  pub name : String
  pub weight : Option ℤ

get_template_weight : String → List RolloutExperimentTemplate → Option ℤ
get_template_weight name [] = none
get_template_weight name (t ∷ ts) = if t.name == name then t.weight else get_template_weight name ts

destinations_of : List RolloutExperimentTemplate → List TemplateStatus → List WeightDestination
destinations_of templates [] = []
destinations_of templates (ts ∷ tss) =
    let rest = destinations_of templates tss in
    elim (get_template_weight ts.name templates) [
      | none ↦ rest
      | some w ↦
          record {
            weight = w;
            service_name = ts.service_name;
            pod_template_hash = ts.pod_template_hash;
          }
          ∷ rest
    ]

-- `templates` are those of the current experiment step, if there is one.
unfoldable pub calculate_weight_destinations_from_experiment :
    Option (List RolloutExperimentTemplate) → Option ExperimentStatus → List WeightDestination
unfolding destinations_of get_template_weight
calculate_weight_destinations_from_experiment none ex = []
calculate_weight_destinations_from_experiment (some templates) none = []
calculate_weight_destinations_from_experiment (some templates) (some ex) =
    if same_phase ex.phase running then destinations_of templates ex.template_statuses else []

-- The stable's weight, once every destination has its own.
unfoldable pub weight_left : ℤ → List WeightDestination → ℤ
weight_left stable [] = stable
weight_left stable (d ∷ ds) = weight_left (int32 (stable -ℤ d.weight)) ds

-- The weights of the status; `canary_service` and `stable_service` are the strategy's.
unfoldable pub new_weights :
    Rollout → String → String → String → String → ℤ → List WeightDestination → TrafficWeights
new_weights ro canary_service stable_service canary_hash stable_hash desired destinations = record {
  canary = record {
    weight = desired;
    service_name = canary_service;
    pod_template_hash = canary_hash;
  };
  stable = record {
    weight = weight_left (int32 (max_traffic_weight ro -ℤ desired)) destinations;
    service_name = stable_service;
    pod_template_hash = stable_hash;
  };
  additional = destinations;
  verified = none;
}

same_destination : WeightDestination → WeightDestination → Bool
same_destination a b =
    eqb_ℤ a.weight b.weight
    && a.service_name == b.service_name
    && a.pod_template_hash == b.pod_template_hash

same_destinations : List WeightDestination → List WeightDestination → Bool
same_destinations [] [] = true
same_destinations (a ∷ aa) (b ∷ bs) = same_destination a b && same_destinations aa bs
same_destinations _ _ = false

-- Whether the weights differ from those of the status.
unfoldable pub weights_modified : Option TrafficWeights → TrafficWeights → Bool
unfolding same_destination same_destinations
weights_modified none new = true
weights_modified (some prev) new =
    not (same_destination prev.canary new.canary)
    || not (same_destination prev.stable new.stable)
    || not (same_destinations prev.additional new.additional)

module _ (f : Float64) where
  unfoldable pub check_replicas_available : Rollout → Option ReplicaSet → ℤ → Bool
  check_replicas_available ro none desired_weight = false
  check_replicas_available ro (some rs) desired_weight =
      let total = get_replicas_or_default ro.spec.replicas in
      let desired = div_ℤ (int32 (desired_weight *ℤ total)) (max_traffic_weight ro) in
      not (
        ltb_ℤ rs.available_replicas desired
        && not (replica_progress_threshold_met f (progress_threshold f ro) (some rs) desired))

  -- The weight for a canary that goes back to the stable, which is not nil here.
  unfoldable pub weight_on_the_way_back :
      Rollout → ReplicaSet → ReplicaSet → Option TrafficWeights → ℤ
  weight_on_the_way_back ro new stable weights =
      let top = max_traffic_weight ro in
      let desired = get_desired_canary_weight f ro (some new) (some stable) in
      let stable_weight =
        div_ℤ (int32 (top *ℤ stable.available_replicas))
          (get_replicas_or_default ro.spec.replicas) in
      let expected = max_int (pos 0) (int32 (top -ℤ stable_weight)) in
      elim weights [
        | none ↦ max_int expected desired
        | some w ↦
            if leb_ℤ desired (pos 0)
            then min_int expected w.canary.weight
            else if ltb_ℤ (pos 0) desired && ltb_ℤ stable_weight (int32 (top -ℤ desired))
            then w.canary.weight
            else min_int desired w.canary.weight
      ]

  unfoldable pub calculate_desired_weight_on_abort_or_stable_rollback : Context → ℤ
  calculate_desired_weight_on_abort_or_stable_rollback c = elim c.stable_rs [
    | none ↦ pos 0
    | some stable ↦ elim c.new_rs [
      | none ↦ pos 0
      | some new ↦
          if not (is_dynamic c.rollout)
            || is_none c.rollout.spec.replicas
            || eqb_ℤ (get_replicas_or_default c.rollout.spec.replicas) (pos 0)
          then pos 0
          else weight_on_the_way_back c.rollout new stable c.rollout.status.weights
    ]
  ]

  -- The weight of the setWeight step before the current one.
  unfoldable pub weight_before : Rollout → ℕ → ℤ
  weight_before ro zero = pos 0
  weight_before ro (suc i) = or_else (pos 0) (scan_back (λ s. s.set_weight) (steps_of ro) i)

  -- On a full promotion the weight follows the pods that are available.
  unfoldable pub promotion_weight : Rollout → ℤ → ℤ
  promotion_weight ro available =
      if is_dynamic ro
      then div_ℤ (int32 (max_traffic_weight ro *ℤ available))
          (get_replicas_or_default ro.spec.replicas)
      else elim ro.status.weights [ none ↦ pos 0 | some w ↦ w.canary.weight ]

  module _ (lib : IntStr) where
    unfoldable pub step_weight : Context → ℕ → ℤ
    unfolding weight_before
    step_weight c i =
        if not (
          at_desired_replica_counts_for_canary f lib c.rollout c.new_rs c.stable_rs c.other_rss
            none)
        then weight_before c.rollout i
        else if eqb i (length (steps_of c.rollout))
        then max_traffic_weight c.rollout
        else get_current_set_weight c.rollout

    unfoldable pub forward_weight : Context → ℤ
    unfolding promotion_weight step_weight available_of
    forward_weight c =
        if c.rollout.status.promote_full
        then promotion_weight c.rollout (available_of c.new_rs)
        else elim (get_current_canary_step c.rollout).1 [ none ↦ pos 0 | some i ↦ step_weight c i ]

    -- The canary's weight that `reconcileTrafficRouting` asks for.
    unfoldable pub desired_weight : Context → ℤ
    unfolding forward_weight available_of
    desired_weight c =
        if is_some (is_dynamically_rolling_back_to_stable c.rollout c.new_rs)
        then calculate_desired_weight_on_abort_or_stable_rollback c
        else if is_fully_promoted c.rollout
        then pos 0
        else if is_aborted c.pause_context
        then calculate_desired_weight_on_abort_or_stable_rollback c
        else if is_none c.new_rs || eqb_ℤ (available_of c.new_rs) (pos 0)
        then pos 0
        else forward_weight c

    -- Whether the experiment's destinations are added: on the way forward, but not at the last step.
    unfoldable pub adds_destinations : Context → Bool
    unfolding available_of
    adds_destinations c =
        if is_some (is_dynamically_rolling_back_to_stable c.rollout c.new_rs)
        then false
        else if is_fully_promoted c.rollout || is_aborted c.pause_context
        then false
        else if is_none c.new_rs || eqb_ℤ (available_of c.new_rs) (pos 0)
        then true
        else if c.rollout.status.promote_full
        then false
        else elim (get_current_canary_step c.rollout).1 [
          | none ↦ false
          | some i ↦
              not (
                at_desired_replica_counts_for_canary f lib c.rollout c.new_rs c.stable_rs
                  c.other_rss none)
              || not (eqb i (length (steps_of c.rollout)))
        ]

    canary_hash : Context → String
    unfolding hash_of
    canary_hash c =
        or_else (hash_of c.new_rs) (is_dynamically_rolling_back_to_stable c.rollout c.new_rs)

    -- The weights of the new status: those of the old one if the stable has too few pods. `from_experiment`
    -- are the destinations of the current experiment, `verify` is the load balancer's answer.
    unfoldable pub reconcile_weights :
        (ℤ → List WeightDestination → Option Bool)
        → String
        → String
        → List WeightDestination
        → Context
        → Option TrafficWeights
    unfolding canary_hash hash_of
    reconcile_weights verify canary_service stable_service from_experiment c =
        let desired = desired_weight c in
        let destinations = if adds_destinations c then from_experiment else [] in
        let new =
          new_weights c.rollout canary_service stable_service (canary_hash c) (hash_of c.stable_rs)
            desired destinations in
        let old = c.rollout.status.weights in
        if not (
          check_replicas_available c.rollout c.stable_rs
            (int32 (max_traffic_weight c.rollout -ℤ desired)))
        then old
        else if weights_modified old new
        then some (record new { verified = verify desired destinations })
        else elim old [
          | none ↦ none
          | some w ↦ some (record w { verified = verify desired destinations })
        ]
