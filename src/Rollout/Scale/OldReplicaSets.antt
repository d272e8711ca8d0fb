-- ===== src/Rollout/Scale/OldReplicaSets.antt =====
-- The scale-down of the ReplicaSets that are neither new nor stable: rollout/replicaset.go,
-- rollout/canary.go and rollout/bluegreen.go. The functions give back the ReplicaSets as the cluster
-- has them afterwards. `by_creation` and `by_revision` are the orders that Go's sort package makes;
-- the check of AWS target groups is a parameter.
use argo_rollouts.Common.{
  String, Bool, true, false, not, ◌&&◌, ◌||◌, Option, none, some, List, [], ◌∷◌, if◌then◌else◌,
  is_none, map, ◌==◌,
}
use argo_rollouts.Common.Int.{ℤ, pos, ltb_ℤ, leb_ℤ, eqb_ℤ, ◌+ℤ◌, ◌-ℤ◌, int32}
use argo_rollouts.Api.IntStr.{IntStr}
use argo_rollouts.Api.Rollout.{Rollout, ReplicaSet, BlueGreenStrategy, inconclusive_analysis}
use argo_rollouts.Defaults.{get_replicas_or_default, get_scale_down_delay_seconds_or_default}
use argo_rollouts.ReplicaSet.Counts.{
  get_replica_count_for_replica_sets, get_available_replica_count_for_replica_sets,
}
use argo_rollouts.ReplicaSet.Fenceposts.{max_unavailable}
use argo_rollouts.ReplicaSet.Weight.{is_dynamic}
use argo_rollouts.Rollout.Pause.{get_pause_condition}
use argo_rollouts.Rollout.Promote.{Context, phase_is_successful}
use argo_rollouts.Rollout.Scale.{
  Remaining, unreadable, over, time_left, has_scale_down_deadline,
  get_time_remaining_before_scale_down_deadline, get_scale_down_revision_limit,
  is_replica_set_referenced, add_scale_down_delay, scale_replica_set_and_record_event,
}

-- `rolloututil.IsFullyPromoted`
unfoldable pub is_fully_promoted : Rollout → Bool
is_fully_promoted ro = ro.status.stable_rs == ro.status.current_pod_hash

-- The variables of a scale-down loop, and whether it has ended early.
pub record Progress : Type 0 where
  pub max_scale_down : ℤ
  pub annotationed_rss : ℤ
  pub total_scaled_down : ℤ
  pub failed : Bool
  pub ended : Bool

-- What the delay asks for: the ReplicaSet, the replicas it should have, and the annotated ones so far.
pub record Desired : Type 0 where
  pub rs : ReplicaSet
  pub desired_replica_count : ℤ
  pub annotationed_rss : ℤ
  pub failed : Bool

abbrev pub drop_all : ReplicaSet → ℤ → Desired
drop_all rs annotationed = record {
  rs = rs;
  desired_replica_count = pos 0;
  annotationed_rss = annotationed;
  failed = false;
}

abbrev pub start_of : ℤ → ℤ → Progress
start_of max_scale_down total = record {
  max_scale_down = max_scale_down;
  annotationed_rss = pos 0;
  total_scaled_down = total;
  failed = false;
  ended = false;
}

kept_for : Remaining → ℤ → ℤ
kept_for unreadable replicas = pos 0
kept_for over replicas = pos 0
kept_for (time_left t) replicas = replicas

-- A loop over the ReplicaSets.
unfoldable pub each :
    (ReplicaSet → Progress → ReplicaSet × Progress)
    → List ReplicaSet
    → Progress
    → List ReplicaSet × Progress
each body [] p = ([], p)
each body (rs ∷ rss) p =
    let (after, q) = body rs p in let (rest, last) = each body rss q in (after ∷ rest, last)

unfoldable pub is_traffic_routed : Context → Bool
is_traffic_routed c = elim c.rollout.spec.canary [
  | none ↦ false
  | some canary ↦ not (is_none canary.traffic_routing)
]

module _ (accepts : ReplicaSet → Bool) (c : Context) where
  -- Scaling a ReplicaSet to what is desired; only the canary's loop counts what it took away.
  unfoldable pub scale_to : Desired → Progress → ReplicaSet × Progress
  scale_to d p =
      let q = record p { annotationed_rss = d.annotationed_rss } in
      let w = scale_replica_set_and_record_event accepts c d.rs d.desired_replica_count in
      let count = int32 (d.rs.replicas -ℤ d.desired_replica_count) in
      if d.failed
      then (d.rs, record q { failed = true; ended = true })
      else if eqb_ℤ d.rs.replicas d.desired_replica_count
      then (d.rs, q)
      else if w.failed
      then (d.rs, record q { failed = true; ended = true })
      else (
        w.rs,
        record q {
          max_scale_down = int32 (p.max_scale_down -ℤ count);
          total_scaled_down = int32 (p.total_scaled_down +ℤ count);
        },
      )

  -- The body of the clean-up's loop, which only counts what it took away.
  unfoldable pub clean_up : ReplicaSet → Progress → ReplicaSet × Progress
  clean_up rs p =
      if p.ended
      then (rs, p)
      else if eqb_ℤ rs.replicas (pos 0)
      then (rs, p)
      else if eqb_ℤ rs.replicas rs.available_replicas
      then (rs, p)
      else if ltb_ℤ rs.replicas rs.available_replicas
      then (rs, record p { total_scaled_down = pos 0; failed = true; ended = true })
      else scale_to
          (record (drop_all rs p.annotationed_rss) {
            desired_replica_count = rs.available_replicas;
          })
          p

  unfoldable pub cleanup_unhealthy_replicas : List ReplicaSet → List ReplicaSet × Progress
  cleanup_unhealthy_replicas rss = each clean_up rss (start_of (pos 0) (pos 0))

module _ (accepts : ReplicaSet → Bool) (looked_up : String → Bool) (now : ℤ) (c : Context) where
  -- A ReplicaSet that is scaled up and has no deadline gets one.
  unfoldable pub give_deadline : ReplicaSet → ℤ → Desired
  give_deadline rs annotationed =
      let w =
        add_scale_down_delay accepts now rs (get_scale_down_delay_seconds_or_default c.rollout) in
      if ltb_ℤ annotationed (get_scale_down_revision_limit c.rollout)
      then record {
        rs = w.rs;
        desired_replica_count = rs.replicas;
        annotationed_rss = int32 (annotationed +ℤ pos 1);
        failed = w.failed;
      }
      else drop_all rs annotationed

  unfoldable pub keep_deadline : ReplicaSet → ℤ → ℤ → Desired
  unfolding kept_for
  keep_deadline rs annotationed rollout_replicas =
      let next = int32 (annotationed +ℤ pos 1) in
      let left = get_time_remaining_before_scale_down_deadline now rs in
      if ltb_ℤ (get_scale_down_revision_limit c.rollout) next
      then drop_all rs next
      else record (drop_all rs next) { desired_replica_count = kept_for left rollout_replicas }

  unfoldable pub scale_down_delay_helper : ReplicaSet → ℤ → ℤ → Desired
  unfolding give_deadline keep_deadline
  scale_down_delay_helper rs annotationed rollout_replicas =
      if not (has_scale_down_deadline rs) && ltb_ℤ (pos 0) rs.replicas
      then give_deadline rs annotationed
      else if has_scale_down_deadline rs
      then keep_deadline rs annotationed rollout_replicas
      else drop_all rs annotationed

  unfoldable pub canary_desired : ReplicaSet → Progress → Desired
  canary_desired rs p =
      let none_left = drop_all rs p.annotationed_rss in
      if not (is_traffic_routed c)
      then (if ltb_ℤ p.max_scale_down rs.replicas
          then record none_left { desired_replica_count = int32 (rs.replicas -ℤ p.max_scale_down) }
          else none_left)
      else if is_fully_promoted c.rollout || has_scale_down_deadline rs
      then (if is_dynamic c.rollout
          then none_left
          else scale_down_delay_helper rs p.annotationed_rss rs.replicas)
      else none_left

  -- The body of the canary's loop.
  unfoldable pub scale_down_for_canary : ReplicaSet → Progress → ReplicaSet × Progress
  scale_down_for_canary rs p =
      if p.ended
      then (rs, p)
      else if is_traffic_routed c && is_replica_set_referenced looked_up c.rollout rs
      then (rs, p)
      else if leb_ℤ p.max_scale_down (pos 0)
      then (rs, record p { ended = true })
      else if eqb_ℤ rs.replicas (pos 0)
      then (rs, p)
      else scale_to accepts c (canary_desired rs p) p

  -- The body of the blue-green loop.
  unfoldable pub scale_down_for_blue_green : ReplicaSet → Progress → ReplicaSet × Progress
  scale_down_for_blue_green rs p =
      if p.ended
      then (rs, p)
      else if is_replica_set_referenced looked_up c.rollout rs
      then (rs, p)
      else if eqb_ℤ rs.replicas (pos 0)
      then (rs, p)
      else scale_to accepts c
          (scale_down_delay_helper rs p.annotationed_rss
            (get_replicas_or_default c.rollout.spec.replicas))
          p

module _ (lib : IntStr) (accepts : ReplicaSet → Bool) (looked_up : String → Bool) (now : ℤ)
    (c : Context) where
  unfoldable pub max_scale_down : ℤ
  max_scale_down =
      let min_available =
        int32 (get_replicas_or_default c.rollout.spec.replicas -ℤ max_unavailable lib c.rollout) in
      int32 (get_available_replica_count_for_replica_sets (map some c.all_rss) -ℤ min_available)

  -- Whether a ReplicaSet is scaled up and not annotated.
  needs_verification : List ReplicaSet → Bool
  needs_verification [] = false
  needs_verification (rs ∷ rss) =
      (ltb_ℤ (pos 0) rs.replicas && not (has_scale_down_deadline rs)) || needs_verification rss

  -- `verified` is whether the target groups of an ALB canary are verified, and none on an error.
  unfoldable pub can_proceed_with_scale_down_annotation :
      Bool → Option Bool → List ReplicaSet → Option Bool
  unfolding needs_verification
  can_proceed_with_scale_down_annotation is_alb_canary verified rss =
      if not is_alb_canary
      then some true
      else if needs_verification rss
      then verified
      else some true

  module _ (by_creation by_revision : List ReplicaSet → List ReplicaSet) where
    abbrev nothing : Progress → Bool → Progress
    nothing p failed = record p { total_scaled_down = pos 0; failed = failed; ended = true }

    unfoldable pub scale_down_if :
        Option Bool → List ReplicaSet → Progress → List ReplicaSet × Progress
    scale_down_if none rss p = (rss, nothing p true)
    scale_down_if (some false) rss p = (rss, nothing p false)
    scale_down_if (some true) rss p = each (scale_down_for_canary accepts looked_up now c) rss p

    -- A failed clean-up is not an error of the function.
    unfoldable pub scale_down_old_replica_sets_for_canary :
        Bool → Option Bool → List ReplicaSet → List ReplicaSet × Progress
    unfolding scale_down_if
    scale_down_old_replica_sets_for_canary is_alb_canary verified old_rss =
        let (cleaned, p) = cleanup_unhealthy_replicas accepts c (by_creation old_rss) in
        let sorted = by_revision cleaned in
        if p.failed
        then (cleaned, record p { failed = false })
        else if leb_ℤ max_scale_down (pos 0)
        then (cleaned, nothing p false)
        else scale_down_if (can_proceed_with_scale_down_annotation is_alb_canary verified sorted)
            sorted (start_of max_scale_down p.total_scaled_down)

    -- `skip` is the result of `skipPostPromotionAnalysisRun`.
    unfoldable pub waits_for_analysis : Bool → BlueGreenStrategy → Bool
    unfolding phase_is_successful
    waits_for_analysis skip b =
        b.post_promotion_analysis
        && is_none b.scale_down_delay_seconds
        && not skip
        && not (phase_is_successful c.post_promotion_analysis)

    unfoldable pub scale_down_old_replica_sets_for_blue_green :
        Bool → BlueGreenStrategy → List ReplicaSet → List ReplicaSet × Progress
    unfolding waits_for_analysis
    scale_down_old_replica_sets_for_blue_green skip b old_rss =
        if not (is_none (get_pause_condition c.rollout inconclusive_analysis))
        then (old_rss, start_of (pos 0) (pos 0))
        else if waits_for_analysis skip b
        then (old_rss, start_of (pos 0) (pos 0))
        else each (scale_down_for_blue_green accepts looked_up now c) (by_revision old_rss)
            (start_of (pos 0) (pos 0))

    -- `active` are the other ReplicaSets that have pods. An error leaves the work for the next time.
    unfoldable pub reconcile_other_replica_sets :
        Bool → Option Bool → Bool → List ReplicaSet → List ReplicaSet
    reconcile_other_replica_sets is_alb_canary verified skip active =
        let by_canary : List ReplicaSet = elim c.rollout.spec.canary [
          | none ↦ active
          | some _ ↦ (scale_down_old_replica_sets_for_canary is_alb_canary verified active).0
        ] in
        if eqb_ℤ (get_replica_count_for_replica_sets (map some active)) (pos 0)
        then active
        else elim c.rollout.spec.blue_green [
          | none ↦ by_canary
          | some b ↦ (scale_down_old_replica_sets_for_blue_green skip b by_canary).0
        ]
