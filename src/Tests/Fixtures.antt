-- ===== src/Tests/Fixtures.antt =====
-- A rollout of ten replicas at its first step, and the ReplicaSets of an update.
use argo_rollouts.Common.{String, Bool, true, false, Option, none, some, List, [], ◌∷◌}
use argo_rollouts.Common.Int.{ℤ, pos}
use argo_rollouts.Api.IntStr.{int_val}
use argo_rollouts.Api.Analysis.{
  AnalysisPhase, running, successful, empty, Metric, Measurement, MetricResult, RunSummary,
  AnalysisRun,
}
use argo_rollouts.Api.Rollout.{
  Rollout, RolloutStatus, CanaryStrategy, CanaryStep, BlueGreenStrategy, ReplicaSet,
}
use argo_rollouts.Rollout.Pause.{PauseContext}
use argo_rollouts.Rollout.Promote.{Context}

abbrev no_step : CanaryStep
no_step = record {
  set_weight = none;
  pause = none;
  experiment = false;
  analysis = false;
  set_canary_scale = none;
  set_header_route = false;
  set_mirror_route = false;
  plugin = false;
}

abbrev pub header_step : CanaryStep
header_step = record no_step { set_header_route = true }

abbrev pub weight_step : CanaryStep
weight_step = record no_step { set_weight = some (pos 20) }

abbrev pub canary_of : List CanaryStep → CanaryStrategy
canary_of steps = record {
  steps = steps;
  traffic_routing = none;
  max_unavailable = some (int_val (pos 0));
  max_surge = some (int_val (pos 1));
  starting_step = none;
  scale_down_delay_seconds = none;
  scale_down_delay_revision_limit = none;
  abort_scale_down_delay_seconds = none;
  dynamic_stable_scale = false;
  min_pods_per_replica_set = none;
  replica_progress_threshold = none;
}

abbrev pub blue_green : BlueGreenStrategy
blue_green = record {
  preview_replica_count = none;
  auto_promotion_enabled = none;
  auto_promotion_seconds = pos 0;
  max_unavailable = none;
  scale_down_delay_seconds = none;
  scale_down_delay_revision_limit = none;
  abort_scale_down_delay_seconds = none;
  pre_promotion_analysis = false;
  post_promotion_analysis = true;
}

abbrev pub in_update : RolloutStatus
in_update = record {
  abort = false;
  pause_conditions = [];
  controller_pause = false;
  aborted_at = none;
  current_pod_hash = "new";
  current_step_hash = "steps";
  replicas = pos 10;
  updated_replicas = pos 0;
  ready_replicas = pos 10;
  available_replicas = pos 10;
  hpa_replicas = pos 10;
  current_step_index = some 0;
  stable_rs = "stable";
  promote_full = false;
  weights = none;
  preview_selector = "";
  active_selector = "new";
  scale_up_preview_check_point = false;
}

abbrev pub canary_rollout : List CanaryStep → RolloutStatus → Rollout
canary_rollout steps status = record {
  spec = record {
    replicas = some (pos 10);
    paused = false;
    rollback_window = some (pos 3);
    canary = some (canary_of steps);
    blue_green = none;
  };
  status = status;
}

abbrev pub blue_green_rollout : RolloutStatus → Rollout
blue_green_rollout status = record {
  spec = record {
    replicas = some (pos 10);
    paused = false;
    rollback_window = none;
    canary = none;
    blue_green = some blue_green;
  };
  status = status;
}

abbrev pub rs_of : String → ℤ → ℤ → ReplicaSet
rs_of name count created = record {
  name = name;
  pod_template_hash = name;
  replicas = count;
  status_replicas = count;
  ready_replicas = count;
  available_replicas = count;
  creation_timestamp = created;
  scale_down_deadline = none;
  desired_replicas = some (pos 10);
  of_experiment = false;
}

abbrev pub pauses_of : Rollout → PauseContext
pauses_of ro = record {
  rollout = ro;
  add_pause_reasons = [];
  remove_pause_reasons = [];
  clear_pause_conditions = false;
  add_abort = false;
  remove_abort = false;
  abort_message = "";
}

abbrev pub context_of : Rollout → ReplicaSet → ReplicaSet → Context
context_of ro new stable = record {
  rollout = ro;
  new_rs = some new;
  stable_rs = some stable;
  other_rss = [];
  all_rss = new ∷ stable ∷ [];
  new_rs_within_delay = false;
  new_rs_is_active = true;
  pause_context = pauses_of ro;
  step_analysis = none;
  post_promotion_analysis = some successful;
  experiment = none;
  step_plugin_completed = false;
  targets_verified = true;
  template_or_steps_changed = false;
}

-- One minute after its start: the times are in nanoseconds.
abbrev pub metric : Metric
metric = record {
  name = "errors";
  interval = "1m";
  initial_delay = "";
  count = some (int_val (pos 3));
  failure_limit = some (int_val (pos 1));
  inconclusive_limit = none;
  consecutive_error_limit = none;
  consecutive_success_limit = none;
}

abbrev pub minute : String → Option ℤ
minute s = some (pos 60000000000)

abbrev pub measured : AnalysisPhase → Measurement
measured phase = record {
  phase = phase;
  message = empty;
  started_at = some (pos 0);
  finished_at = some (pos 1);
  value = "";
  resume_at = none;
}

abbrev pub in_flight : Measurement
in_flight = record (measured running) { finished_at = none; resume_at = some (pos 5000) }

abbrev pub result_of : String → AnalysisPhase → List Measurement → ℤ → MetricResult
result_of name phase ms count = record {
  name = name;
  phase = phase;
  measurements = ms;
  message = empty;
  count = count;
  successful = count;
  failed = pos 0;
  inconclusive = pos 0;
  error = pos 0;
  consecutive_error = pos 0;
  dry_run = false;
  consecutive_success = count;
}

abbrev no_summary : RunSummary
no_summary = record {
  count = pos 0;
  successful = pos 0;
  failed = pos 0;
  inconclusive = pos 0;
  error = pos 0;
}

abbrev pub run_of : Bool → List MetricResult → AnalysisRun
run_of terminate results = record {
  metrics = metric ∷ [];
  terminate = terminate;
  status = record {
    phase = running;
    message = empty;
    metric_results = results;
    started_at = some (pos 0);
    run_summary = no_summary;
    dry_run_summary = none;
    completed_at = none;
  };
}
