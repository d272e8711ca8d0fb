-- ===== src/Analysis/Tasks.antt =====
-- `generateMetricTasks` and `calculateNextReconcileTime` of analysis/analysis.go. Times are in
-- nanoseconds, as durations are; parsing a duration (`time.ParseDuration`) is a parameter. The spec's
-- metrics and the resolved ones are the same list here.
pub mod Guards
pub mod Others
pub mod Terminate
pub mod Wakeup
use argo_rollouts.Common.{
  ◌≡◌, String, Bool, true, false, not, ◌&&◌, ◌||◌, Option, none, some, List, [], ◌∷◌, if◌then◌else◌,
  ◌==◌, last?,
}
use argo_rollouts.Common.Int.{ℤ, pos, ltb_ℤ, leb_ℤ, ◌+ℤ◌, int32}
use argo_rollouts.Api.IntStr.{IntStr}
use argo_rollouts.Api.Analysis.{
  AnalysisPhase, error, same_phase, Metric, Measurement, MetricResult, AnalysisRun, effective_count,
}
use argo_rollouts.Analysis.Results.{get_result, metric_completed, last_measurement, is_terminating}
use argo_rollouts.Analysis.Assess.{count_reached}
use argo_rollouts.Analysis.Measure.{MetricTask}

-- `DefaultErrorRetryInterval`, 10 seconds.
abbrev pub default_error_retry_interval : ℤ
default_error_retry_interval = pos 10000000000

abbrev later : Option ℤ → ℤ → Bool
later none now = false
later (some t) now = ltb_ℤ now t

-- The count is read from the metric's result; without one there is no measurement either.
abbrev pub reached : IntStr → Metric → Option MetricResult → Bool
reached lib metric none = false
reached lib metric (some r) = count_reached lib metric r

abbrev pub new_task : Metric → Option MetricTask
new_task metric = some (record { metric = metric; incomplete_measurement = none })

abbrev pub resume_task : Metric → Measurement → Option MetricTask
resume_task metric m = some (record { metric = metric; incomplete_measurement = some m })

-- The earlier of the time so far and a metric's.
abbrev pub earlier : Option ℤ → Option ℤ → Option ℤ
earlier t none = t
earlier none (some u) = some u
earlier (some t) (some u) = if ltb_ℤ u t then some u else some t

module _ (lib : IntStr) (duration : String → Option ℤ) (now : ℤ) where
  -- Whether the start delay of a metric that was never measured is over.
  delay_over : Option ℤ → Metric → Bool
  delay_over started metric = (metric.initial_delay == "") || elim started [
    | none ↦ false
    | some t ↦ elim (duration metric.initial_delay) [
      | none ↦ false
      | some d ↦ not (ltb_ℤ now (t +ℤ d))
    ]
  ]

  -- The interval to wait after a finished measurement; none if it does not parse.
  interval_after : Metric → Measurement → Option ℤ
  interval_after metric m =
      if same_phase m.phase error || (metric.interval == "")
      then some default_error_retry_interval
      else duration metric.interval

  overdue : Metric → Measurement → ℤ → Bool
  unfolding interval_after
  overdue metric m finished_at = elim (interval_after metric m) [
    | none ↦ false
    | some i ↦ ltb_ℤ (finished_at +ℤ i) now
  ]

  -- A measurement in flight is resumed once its time has come, and at once if the run terminates.
  task_after : AnalysisRun → Metric → Measurement → Option MetricTask
  unfolding overdue
  task_after run metric m = elim m.finished_at [
    | none ↦
        if not (is_terminating run) && later m.resume_at now then none else resume_task metric m
    | some t ↦
        if is_terminating run
        then none
        else if reached lib metric (get_result run.status.metric_results metric.name)
        then none
        else if overdue metric m t
        then new_task metric
        else none
  ]

  -- The loop's body: the metric's task, if it has one now.
  unfoldable pub metric_task : AnalysisRun → Metric → Option MetricTask
  unfolding task_after delay_over
  metric_task run metric =
      if metric_completed run.status.metric_results metric.name
      then none
      else elim (last_measurement run.status.metric_results metric.name) [
        | some m ↦ task_after run metric m
        | none ↦
            if is_terminating run
            then none
            else if delay_over run.status.started_at metric
            then new_task metric
            else none
      ]

  cons_task : Option MetricTask → List MetricTask → List MetricTask
  cons_task none ts = ts
  cons_task (some t) ts = t ∷ ts

  unfoldable pub generate_metric_tasks : AnalysisRun → List Metric → List MetricTask
  unfolding cons_task
  generate_metric_tasks run [] = []
  generate_metric_tasks run (m ∷ ms) = cons_task (metric_task run m) (generate_metric_tasks run ms)

  interval_or_error : Metric → Measurement → Option ℤ
  interval_or_error metric m =
      if same_phase m.phase error
      then some default_error_retry_interval
      else if metric.interval == ""
      then none
      else duration metric.interval

  delay_end : Option ℤ → Metric → Option ℤ
  delay_end started metric = elim (duration metric.initial_delay) [
    | none ↦ none
    | some d ↦ elim started [ none ↦ some (now +ℤ d) | some t ↦ some (t +ℤ d) ]
  ]

  -- When a metric asks for the next reconciliation; none if it does not.
  unfoldable pub metric_reconcile_time : AnalysisRun → Metric → Option ℤ
  unfolding interval_or_error delay_end
  metric_reconcile_time run metric =
      if metric_completed run.status.metric_results metric.name
      then none
      else elim (last_measurement run.status.metric_results metric.name) [
        | none ↦ if metric.initial_delay == "" then none else delay_end run.status.started_at metric
        | some m ↦ elim m.finished_at [
          | none ↦ m.resume_at
          | some t ↦
              if reached lib metric (get_result run.status.metric_results metric.name)
              then none
              else elim (interval_or_error metric m) [ none ↦ none | some i ↦ some (t +ℤ i) ]
        ]
      ]

  next_time_from : AnalysisRun → Option ℤ → List Metric → Option ℤ
  next_time_from run t [] = t
  next_time_from run t (m ∷ ms) = next_time_from run (earlier t (metric_reconcile_time run m)) ms

  unfoldable pub calculate_next_reconcile_time : AnalysisRun → List Metric → Option ℤ
  unfolding next_time_from
  calculate_next_reconcile_time run metrics = next_time_from run none metrics
