-- ===== src/Rollout/Scale.antt =====
-- Scaling one ReplicaSet and its scale-down deadline: rollout/replicaset.go, `scaleReplicaSet` of
-- rollout/sync.go, and what they read of utils/replicaset and utils/annotations. Times are in
-- nanoseconds. `accepts` says of a ReplicaSet whether the API server takes the write that makes it
-- so; an accepted write gives back what was written. The controller fills in the number of replicas.
pub mod Deadlines
pub mod Funds
pub mod Serving
pub mod Budget
pub mod OldReplicaSets
pub mod Limit
pub mod Kept
pub mod ZeroDelay
use argo_rollouts.Common.{
  ◌-◌, ◌%◌, String, Bool, true, false, not, ◌&&◌, ◌||◌, Option, none, some, List, [], ◌∷◌, ◌++◌,
  if◌then◌else◌, is_some, is_none, ◌==◌,
}
use argo_rollouts.Common.Int.{ℤ, pos, negsuc, ltb_ℤ, leb_ℤ, eqb_ℤ, ◌+ℤ◌, ◌-ℤ◌, int32}
use argo_rollouts.Api.Rollout.{Rollout, TrafficWeights, ReplicaSet}
use argo_rollouts.Defaults.{
  or_default, get_replicas_or_default, get_scale_down_delay_seconds_or_default,
  get_abort_scale_down_delay_seconds_or_default, has_explicit_abort_scale_down_delay,
}
use argo_rollouts.ReplicaSet.Weight.{is_dynamic}
use argo_rollouts.Rollout.Pause.{is_aborted}
use argo_rollouts.Rollout.Promote.{Context}

unfoldable pub has_scale_down_deadline : ReplicaSet → Bool
has_scale_down_deadline rs = is_some rs.scale_down_deadline

-- RFC 3339 keeps whole seconds; times are after 1970.
unfoldable pub whole_seconds : ℤ → ℤ
whole_seconds (pos n) = pos (n - n % 1000000000)
whole_seconds (negsuc n) = negsuc n

pub data Remaining : Type 0 where
  unreadable over : Remaining
  time_left : ℤ → Remaining

unfoldable pub time_until : ℤ → ℤ → Remaining
time_until now t = if ltb_ℤ now t then time_left (t -ℤ now) else over

unfoldable pub get_time_remaining_before_scale_down_deadline : ℤ → ReplicaSet → Remaining
get_time_remaining_before_scale_down_deadline now rs = elim rs.scale_down_deadline [
  | none ↦ over
  | some time ↦ elim time [ none ↦ unreadable | some t ↦ time_until now t ]
]

annotated_with : Option ℤ → ℤ → Bool
annotated_with none desired = false
annotated_with (some n) desired = eqb_ℤ n desired

unfoldable pub replicas_annotations_need_update : ReplicaSet → ℤ → Bool
unfolding annotated_with
replicas_annotations_need_update rs desired =
    not (annotated_with rs.desired_replicas desired)
    || (eqb_ℤ desired (pos 0) && has_scale_down_deadline rs)

unfoldable pub should_delay_scale_down_on_abort : Context → Bool
should_delay_scale_down_on_abort c =
    let basic_canary : Bool = elim c.rollout.spec.canary [
      | none ↦ false
      | some canary ↦ is_none canary.traffic_routing
    ] in
    if not (is_aborted c.pause_context)
    then false
    else if is_none c.stable_rs
    then false
    else if basic_canary
    then false
    else if is_none (get_abort_scale_down_delay_seconds_or_default c.rollout).0
    then false
    else not (is_dynamic c.rollout && not (has_explicit_abort_scale_down_delay c.rollout))

unfoldable pub get_scale_down_revision_limit : Rollout → ℤ
get_scale_down_revision_limit ro =
    let of_canary : ℤ = elim ro.spec.canary [
      | none ↦ pos 2147483647
      | some c ↦ or_default (pos 2147483647) c.scale_down_delay_revision_limit
    ] in
    elim ro.spec.blue_green [
      | none ↦ of_canary
      | some b ↦ or_default of_canary b.scale_down_delay_revision_limit
    ]

refers_to : String → List String → Bool
refers_to hash [] = false
refers_to hash (ref ∷ refs) = (ref == hash) || refers_to hash refs

weight_references : Option TrafficWeights → List String
weight_references none = []
weight_references (some w) = w.canary.pod_template_hash ∷ w.stable.pod_template_hash ∷ []

-- `looked_up` is whether a Service or an Istio DestinationRule in the cluster selects the hash.
unfoldable pub is_replica_set_referenced : (String → Bool) → Rollout → ReplicaSet → Bool
unfolding refers_to weight_references
is_replica_set_referenced looked_up ro rs =
    let hash = rs.pod_template_hash in
    let status = ro.status in
    if hash == ""
    then false
    else refers_to hash (
        (status.stable_rs ∷ status.current_pod_hash ∷ status.active_selector
          ∷ status.preview_selector ∷ [])
        ++ weight_references status.weights)
      || looked_up hash

-- What a call left of a ReplicaSet, whether it changed the size, and whether the write failed.
pub record Written : Type 0 where
  pub rs : ReplicaSet
  pub scaled : Bool
  pub failed : Bool

module _ (accepts : ReplicaSet → Bool) where
  unfoldable pub write : ReplicaSet → ReplicaSet → Bool → Written
  write old new scaled =
      if accepts new
      then record { rs = new; scaled = scaled; failed = false }
      else record { rs = old; scaled = false; failed = true }

  abbrev untouched : ReplicaSet → Written
  untouched rs = record { rs = rs; scaled = false; failed = false }

  unfoldable pub remove_scale_down_delay : ReplicaSet → Written
  remove_scale_down_delay rs =
      if has_scale_down_deadline rs
      then write rs (record rs { scale_down_deadline = none }) false
      else untouched rs

  unfoldable pub add_scale_down_delay : ℤ → ReplicaSet → ℤ → Written
  add_scale_down_delay now rs delay =
      if eqb_ℤ delay (pos 0)
      then remove_scale_down_delay rs
      else write rs (record rs { scale_down_deadline = some (some (whole_seconds (now +ℤ delay))) })
          false

  abbrev without_delay : Option ReplicaSet → Option Written
  without_delay none = none
  without_delay (some rs) = some (remove_scale_down_delay rs)

  same_name : Option ReplicaSet → Option ReplicaSet → Bool
  same_name (some a) (some b) = a.name == b.name
  same_name _ _ = false

  -- The new and the stable ReplicaSet after the removal of their deadlines; a failure for the first
  -- ends the call.
  unfoldable pub remove_scale_down_deadlines : Context → Option Written × Option Written
  unfolding same_name
  remove_scale_down_deadlines c =
      let keep = should_delay_scale_down_on_abort c || is_none c.new_rs in
      let new : Option Written =
        if keep
        then (elim c.new_rs [ none ↦ none | some rs ↦ some (untouched rs) ])
        else without_delay c.new_rs in
      let failed : Bool = elim new [ none ↦ false | some w ↦ w.failed ] in
      let stable : Option Written = elim c.stable_rs [
        | none ↦ none
        | some rs ↦ some (untouched rs)
      ] in
      if failed
      then (new, stable)
      else if not keep && same_name c.new_rs c.stable_rs
      then (new, new)
      else (new, without_delay c.stable_rs)

  module _ (c : Context) where
    -- The ReplicaSet as `scaleReplicaSet` writes it; scaled to zero, it loses its deadline.
    unfoldable pub with_scale : ReplicaSet → ℤ → ReplicaSet
    with_scale rs new_scale = record rs {
      replicas = new_scale;
      desired_replicas = some (get_replicas_or_default c.rollout.spec.replicas);
      scale_down_deadline =
          if eqb_ℤ new_scale (pos 0) && not (should_delay_scale_down_on_abort c)
          then none
          else rs.scale_down_deadline;
    }

    unfoldable pub scale_replica_set : ReplicaSet → ℤ → Written
    scale_replica_set rs new_scale =
        let resize = not (eqb_ℤ rs.replicas new_scale) in
        if resize
          || replicas_annotations_need_update rs (get_replicas_or_default c.rollout.spec.replicas)
        then write rs (with_scale rs new_scale) resize
        else untouched rs

    unfoldable pub scale_replica_set_and_record_event : ReplicaSet → ℤ → Written
    scale_replica_set_and_record_event rs new_scale =
        if eqb_ℤ rs.replicas new_scale
          && not (
              replicas_annotations_need_update rs (get_replicas_or_default c.rollout.spec.replicas))
        then untouched rs
        else scale_replica_set rs new_scale

    unfoldable pub sync_new_rs_replicas_annotation : ReplicaSet → Written
    sync_new_rs_replicas_annotation rs =
        if replicas_annotations_need_update rs (get_replicas_or_default c.rollout.spec.replicas)
        then scale_replica_set_and_record_event rs rs.replicas
        else untouched rs

    abbrev unscaled : Written → Written
    unscaled w = record w { scaled = false }

    stable_serves : Bool
    stable_serves = elim c.stable_rs [
      | none ↦ false
      | some stable ↦
          leb_ℤ (get_replicas_or_default c.rollout.spec.replicas) stable.available_replicas
    ]

    -- On an abort with no deadline yet: hold the size, and set the deadline once the stable serves.
    unfoldable pub hold_until_stable : ℤ → ReplicaSet → ℤ → Written
    unfolding stable_serves
    hold_until_stable now new delay =
        let synced = sync_new_rs_replicas_annotation new in
        if synced.failed
        then unscaled synced
        else if stable_serves
        then add_scale_down_delay now synced.rs delay
        else unscaled synced

    -- A delayed scale-down on abort; `resync` is the resync period of the informers.
    scale_down_on_abort : ℤ → ℤ → ReplicaSet → ℤ → Written
    scale_down_on_abort now resync new count = elim new.scale_down_deadline [
      | some time ↦ elim (get_time_remaining_before_scale_down_deadline now new) [
        | unreadable ↦ scale_replica_set_and_record_event new count
        | over ↦ scale_replica_set_and_record_event new (pos 0)
        | time_left left ↦
            if ltb_ℤ left resync
            then unscaled (sync_new_rs_replicas_annotation new)
            else scale_replica_set_and_record_event new count
      ]
      | none ↦ elim (get_abort_scale_down_delay_seconds_or_default c.rollout).0 [
        | some delay ↦ hold_until_stable now new delay
        | none ↦ scale_replica_set_and_record_event new count
      ]
    ]

    -- `count` is what `NewRSNewReplicas` gives. The migration from a Deployment is left out.
    unfoldable pub reconcile_new_replica_set : ℤ → ℤ → ReplicaSet → ℤ → Written
    unfolding scale_down_on_abort
    reconcile_new_replica_set now resync new count =
        if should_delay_scale_down_on_abort c
        then scale_down_on_abort now resync new count
        else scale_replica_set_and_record_event new count
