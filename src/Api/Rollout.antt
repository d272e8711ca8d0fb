-- ===== src/Api/Rollout.antt =====
-- pkg/apis/rollouts/v1alpha1/types.go, and the fields of a ReplicaSet that the controllers read.
-- Integers are Go's int32 or int64; a pointer to a field is an `Option`. Of a step's payload that
-- only an external system reads, the model keeps whether it is there.
use argo_rollouts.Common.{ℕ, String, Bool, List, Option}
use argo_rollouts.Common.Int.{ℤ}
use argo_rollouts.Api.IntStr.{IntOrString}

pub data PauseReason : Type 0 where
  inconclusive_analysis inconclusive_experiment canary_pause_step blue_green_pause : PauseReason

pub record PauseCondition : Type 0 where
  pub reason : PauseReason
  pub start_time : ℤ

-- `duration` is in seconds; none is an indefinite pause.
pub record RolloutPause : Type 0 where
  pub duration : Option ℤ

pub record SetCanaryScale : Type 0 where
  pub weight : Option ℤ
  pub replicas : Option ℤ
  pub match_traffic_weight : Bool

pub record CanaryStep : Type 0 where
  pub set_weight : Option ℤ
  pub pause : Option RolloutPause
  pub experiment : Bool
  pub analysis : Bool
  pub set_canary_scale : Option SetCanaryScale
  pub set_header_route : Bool
  pub set_mirror_route : Bool
  pub plugin : Bool

pub data ProgressType : Type 0 where
  percentage pod : ProgressType

pub record ReplicaProgressThreshold : Type 0 where
  pub type : ProgressType
  pub value : ℤ

pub record RolloutTrafficRouting : Type 0 where
  pub max_traffic_weight : Option ℤ

pub record CanaryStrategy : Type 0 where
  pub steps : List CanaryStep
  pub traffic_routing : Option RolloutTrafficRouting
  pub max_unavailable : Option IntOrString
  pub max_surge : Option IntOrString
  -- `analysis.startingStep` of the background analysis, if both are set.
  pub starting_step : Option ℤ
  pub scale_down_delay_seconds : Option ℤ
  pub scale_down_delay_revision_limit : Option ℤ
  pub abort_scale_down_delay_seconds : Option ℤ
  pub dynamic_stable_scale : Bool
  pub min_pods_per_replica_set : Option ℤ
  pub replica_progress_threshold : Option ReplicaProgressThreshold

pub record BlueGreenStrategy : Type 0 where
  pub preview_replica_count : Option ℤ
  pub auto_promotion_enabled : Option Bool
  pub auto_promotion_seconds : ℤ
  pub max_unavailable : Option IntOrString
  pub scale_down_delay_seconds : Option ℤ
  pub scale_down_delay_revision_limit : Option ℤ
  pub abort_scale_down_delay_seconds : Option ℤ
  pub pre_promotion_analysis : Bool
  pub post_promotion_analysis : Bool

pub record WeightDestination : Type 0 where
  pub weight : ℤ
  pub service_name : String
  pub pod_template_hash : String

pub record TrafficWeights : Type 0 where
  pub canary : WeightDestination
  pub stable : WeightDestination
  pub additional : List WeightDestination
  pub verified : Option Bool

pub record RolloutSpec : Type 0 where
  pub replicas : Option ℤ
  pub paused : Bool
  -- `rollbackWindow.revisions`, if the window is set.
  pub rollback_window : Option ℤ
  pub canary : Option CanaryStrategy
  pub blue_green : Option BlueGreenStrategy

pub record RolloutStatus : Type 0 where
  pub abort : Bool
  pub pause_conditions : List PauseCondition
  pub controller_pause : Bool
  pub aborted_at : Option ℤ
  pub current_pod_hash : String
  pub current_step_hash : String
  pub replicas : ℤ
  pub updated_replicas : ℤ
  pub ready_replicas : ℤ
  pub available_replicas : ℤ
  pub hpa_replicas : ℤ
  -- The controller writes 0, the number of steps, and increments only, so it is never negative.
  pub current_step_index : Option ℕ
  pub stable_rs : String
  pub promote_full : Bool
  pub weights : Option TrafficWeights
  pub preview_selector : String
  pub active_selector : String
  pub scale_up_preview_check_point : Bool

pub record Rollout : Type 0 where
  pub spec : RolloutSpec
  pub status : RolloutStatus

-- `replicas` is `*rs.Spec.Replicas`, which the API server always fills in; `pod_template_hash` is the
-- rollouts-pod-template-hash label, the empty text if there is none.
pub record ReplicaSet : Type 0 where
  pub name : String
  pub pod_template_hash : String
  pub replicas : ℤ
  pub status_replicas : ℤ
  pub ready_replicas : ℤ
  pub available_replicas : ℤ
  pub creation_timestamp : ℤ
  -- The scale-down-deadline annotation, if it is not empty: its time in nanoseconds, or none inside if it
  -- does not parse.
  pub scale_down_deadline : Option (Option ℤ)
  -- The desired-replicas annotation, if it is there and is a number in Go's format.
  pub desired_replicas : Option ℤ
  -- Whether the annotation that names an experiment is set.
  pub of_experiment : Bool
