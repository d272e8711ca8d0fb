-- ===== src/Analysis/Tasks/Guards.antt =====
-- When a metric is measured, and when the run is looked at again.
use argo_rollouts.Common.{
  ◌≡◌, ◌⊎◌, inl, inr, String, Bool, true, false, not, ◌&&◌, Option, none, some, Bool-cases,
  Option-cases, arith, if◌then◌else◌, is_none,
}
use argo_rollouts.Common.Int.{ℤ}
use argo_rollouts.Api.IntStr.{IntStr}
use argo_rollouts.Api.Analysis.{Metric, Measurement, AnalysisRun}
use argo_rollouts.Analysis.Results.{get_result, metric_completed, last_measurement, is_terminating}
use argo_rollouts.Analysis.Measure.{MetricTask}
use argo_rollouts.Analysis.Tasks.{
  reached, metric_task, task_after, overdue, resume_task, later, new_task,
}

-- Whether the task takes a new measurement.
abbrev pub starts_new : Option MetricTask → Bool
starts_new none = false
starts_new (some t) = is_none t.incomplete_measurement

in_flight-not_new :
    (wait : Bool) (metric : Metric) (m : Measurement)
    → starts_new (if wait then none else resume_task metric m) ≡ false
in_flight-not_new wait metric m = ground arith

finished-tests :
    (terminating is_reached is_overdue : Bool) (metric : Metric)
    → starts_new (
        if terminating
        then none
        else if is_reached
        then none
        else if is_overdue
        then new_task metric
        else none)
      ≡ true
    → (terminating ≡ false) × (is_reached ≡ false)
finished-tests t r o metric h = ground arith

first-tests :
    (terminating is_over : Bool) (metric : Metric)
    → starts_new (if terminating then none else if is_over then new_task metric else none) ≡ true
    → terminating ≡ false
first-tests t o metric h = ground arith

module _ (lib : IntStr) (duration : String → Option ℤ) (now : ℤ) (run : AnalysisRun)
    (metric : Metric) where
  after-new :
      (m : Measurement)
      → starts_new (task_after lib duration now run metric m) ≡ true
      → (is_terminating run ≡ false)
        × (reached lib metric (get_result run.status.metric_results metric.name) ≡ false)
  unfolding task_after
  after-new m h = elim (Option-cases m.finished_at) [
    | inl e ↦
        let h' = rw e at h in
        let n = in_flight-not_new (not (is_terminating run) && later m.resume_at now) metric m in
        ground arith
    | inr s ↦
        let h' = rw s.1 at h in finished-tests _ _ (overdue lib duration now metric m s.0) metric h'
  ]

  -- A metric's new measurement is only started if the run is not terminating, the metric is not
  -- completed, and, unless it is the first one, its count is not reached.
  pub new_measurement-guarded :
      starts_new (metric_task lib duration now run metric) ≡ true
      → (is_terminating run ≡ false)
        × (metric_completed run.status.metric_results metric.name ≡ false)
        × ((last_measurement run.status.metric_results metric.name ≡ none)
            ⊎ (reached lib metric (get_result run.status.metric_results metric.name) ≡ false))
  unfolding metric_task
  new_measurement-guarded h =
      elim (Bool-cases (metric_completed run.status.metric_results metric.name)) [
        | inl e ↦ let h' = rw e at h in ground arith
        | inr e ↦
            let h' = rw e at h in
            elim (Option-cases (last_measurement run.status.metric_results metric.name)) [
              | inl n ↦ let h2 = rw n at h' in (first-tests _ _ metric h2, e, inl n)
              | inr s ↦ let h2 = rw s.1 at h' in let (t, r) = after-new s.0 h2 in (t, e, inr r)
            ]
      ]
