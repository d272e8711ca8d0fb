-- ===== src/Analysis/Tasks/Terminate.antt =====
-- How a terminating run winds up its metrics: the tasks, their workers and the assessment after them.
use argo_rollouts.Common.{
  ◌≡◌, refl, ◌∙◌, String, Bool, true, Option, none, some, List, [], ◌∷◌, ◌++◌, ap, ◌⊎◌, inl, inr,
  Bool-cases, Option-cases, last?, is_some,
}
use argo_rollouts.Common.Int.{ℤ}
use argo_rollouts.Api.IntStr.{IntStr}
use argo_rollouts.Api.Analysis.{completed, Metric, Measurement, MetricResult, AnalysisRun}
use argo_rollouts.Analysis.Results.{get_result, metric_completed, last_measurement, is_terminating}
use argo_rollouts.Analysis.Measure.{MetricTask, NewProvider, Provider, provider, run_measurements}
use argo_rollouts.Analysis.Measure.Counts.{written, run_task-own}
use argo_rollouts.Analysis.Measure.Terminate.{terminated-completed}
use argo_rollouts.Analysis.Assess.{assess_metric_status}
use argo_rollouts.Analysis.Assess.Outcomes.{terminating-completed}
use argo_rollouts.Analysis.Tasks.Others.{
  AllOther, after_task, after_task-other, run_measurements-first, run_measurements-other,
}
use argo_rollouts.Analysis.Tasks.{metric_task, task_after, resume_task, generate_metric_tasks}

-- A measurement that has a finish time is completed.
abbrev pub EndsCompleted : MetricResult → Type 0
EndsCompleted r =
    (m : Measurement)
    → last? r.measurements ≡ some m
    → is_some m.finished_at ≡ true
    → completed m.phase ≡ true

-- Nothing is left to do for the metric: it is completed, was never measured, or its last measurement is
-- completed.
abbrev WoundUp : MetricResult → Type 0
WoundUp r =
    (completed r.phase ≡ true)
    ⊎ (last? r.measurements ≡ none)
    ⊎ ((m : Measurement) × (last? r.measurements ≡ some m) × (completed m.phase ≡ true))

assess_completed :
    (lib : IntStr) (metric : Metric) (r : MetricResult)
    → WoundUp r
    → completed (assess_metric_status lib metric r true) ≡ true
unfolding assess_metric_status
assess_completed lib metric r (inl e) = rw (e, e) refl
assess_completed lib metric r (inr h) = terminating-completed lib metric r h

module _ (lib : IntStr) (duration : String → Option ℤ) (now : ℤ) (run : AnalysisRun)
    (metric : Metric) (terminating : is_terminating run ≡ true) (result : MetricResult)
    (at : get_result run.status.metric_results metric.name ≡ some result) where
  completed-at : metric_completed run.status.metric_results metric.name ≡ completed result.phase
  unfolding metric_completed
  completed-at = rw (metric_completed, at) refl

  last-at : last_measurement run.status.metric_results metric.name ≡ last? result.measurements
  unfolding last_measurement
  last-at = rw (last_measurement, at) refl

  task_cases :
      EndsCompleted result
      → (metric_task lib duration now run metric ≡ none × WoundUp result)
        ⊎ ((m : Measurement) × (last? result.measurements ≡ some m)
            × (m.finished_at ≡ none)
            × (metric_task lib duration now run metric ≡ resume_task metric m))
  unfolding metric_task task_after
  task_cases ends = elim (Bool-cases (completed result.phase)) [
    | inl e ↦ inl (rw (completed-at, e) refl, inl e)
    | inr e ↦ elim (Option-cases (last? result.measurements)) [
      | inl n ↦ inl (rw (completed-at, last-at, e, n, terminating) refl, inr (inl n))
      | inr (m, l) ↦ elim (Option-cases m.finished_at) [
        | inl f ↦ inr (m, l, f, rw (completed-at, last-at, e, l, f, terminating) refl)
        | inr (t, f) ↦ inl (
          rw (completed-at, last-at, e, l, f, terminating) refl,
          inr (inr (m, l, ends m l (rw f refl))),
        )
      ]
    ]
  ]

  module _ (new_provider : AnalysisRun → Metric → NewProvider) (dry_run : String → Bool)
      (ends : EndsCompleted result)
      (stops : (p : Provider) (m : Measurement)
        → last? result.measurements ≡ some m
        → m.finished_at ≡ none
        → new_provider run metric ≡ provider p
        → completed (p.terminate run metric m).phase ≡ true) where
    abbrev Settled : List MetricResult → Type 0
    Settled results =
        (r : MetricResult) × (get_result results metric.name ≡ some r)
        × (completed (assess_metric_status lib metric r true) ≡ true)

    resumed-WoundUp :
        (results : List MetricResult) (m : Measurement)
        → get_result results metric.name ≡ some result
        → last? result.measurements ≡ some m
        → m.finished_at ≡ none
        → WoundUp (
            written new_provider dry_run now run
              (record { metric = metric; incomplete_measurement = some m })
              results)
    resumed-WoundUp results m now_at l f =
        let task : MetricTask = record { metric = metric; incomplete_measurement = some m } in
        rw now_at (
          inr (
            inr (
              terminated-completed (new_provider run metric) now run task m result terminating refl
                l (λ p. stops p m l f))))

    own_task-Settled :
        (results : List MetricResult)
        → get_result results metric.name ≡ some result
        → Settled (
            after_task new_provider dry_run now run
              (metric_task lib duration now run metric)
              results)
    own_task-Settled results now_at = elim (task_cases ends) [
      | inl (e, w) ↦ (result, rw e now_at, assess_completed lib metric result w)
      | inr (m, l, f, e) ↦
          let task : MetricTask = record { metric = metric; incomplete_measurement = some m } in
          (
            written new_provider dry_run now run task results,
            rw e (run_task-own new_provider dry_run now run task results),
            assess_completed lib metric _ (resumed-WoundUp results m now_at l f),
          )
    ]

    all_tasks-Settled :
        (before after : List Metric) (results : List MetricResult)
        → AllOther metric.name before
        → AllOther metric.name after
        → get_result results metric.name ≡ some result
        → Settled (
            run_measurements new_provider dry_run now run
              (generate_metric_tasks lib duration now run (before ++ metric ∷ after))
              results)
    all_tasks-Settled [] after results hb ha now_at =
        let (r, e, c) = own_task-Settled results now_at in
        (
          r,
          ap (λ rs. get_result rs metric.name)
                (run_measurements-first lib duration new_provider dry_run now run metric after
                  results)
              ∙ run_measurements-other lib duration new_provider dry_run now run after _ metric.name
                  ha
              ∙ e,
          c,
        )
    all_tasks-Settled (b ∷ bs) after results (h, hb) ha now_at =
        rw
          (run_measurements-first lib duration new_provider dry_run now run b (bs ++ metric ∷ after)
            results)
          (all_tasks-Settled bs after _ hb ha (
            after_task-other lib duration new_provider dry_run now run b results metric.name h
            ∙ now_at))

    -- In a terminating run, the reconciliation that generates the tasks of the run's metrics and lets their
    -- workers finish in that order leaves a metric, which no other has the name of and which has a result,
    -- with a result that is assessed as completed, if the metric's last measurement is completed when it has
    -- a finish time, and when it has none, the provider that there is for the metric, if any, terminates it
    -- to a completed one. The resume time of the measurement does not matter.
    pub terminating-settled :
        (before after : List Metric)
        → AllOther metric.name before
        → AllOther metric.name after
        → let results =
            run_measurements new_provider dry_run now run
              (generate_metric_tasks lib duration now run (before ++ metric ∷ after))
              run.status.metric_results in
          (r : MetricResult) × (get_result results metric.name ≡ some r)
          × (completed (assess_metric_status lib metric r true) ≡ true)
    terminating-settled before after hb ha =
        all_tasks-Settled before after run.status.metric_results hb ha at
