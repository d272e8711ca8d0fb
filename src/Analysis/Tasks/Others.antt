-- ===== src/Analysis/Tasks/Others.antt =====
-- What the tasks of a reconciliation and their workers leave of the other metrics' results.
use argo_rollouts.Common.{
  ◌≡◌, refl, ◌∙◌, String, Bool, true, false, Option, none, some, List, [], ◌∷◌, ◌==◌, ap, inl, inr,
  Bool-cases, Option-cases, if◌then◌else◌,
}
use argo_rollouts.Common.Int.{ℤ}
use argo_rollouts.Api.IntStr.{IntStr}
use argo_rollouts.Api.Analysis.{Metric, Measurement, MetricResult, AnalysisRun}
use argo_rollouts.Analysis.Results.{get_result, metric_completed, last_measurement, is_terminating}
use argo_rollouts.Analysis.Measure.{MetricTask, NewProvider, run_task, run_measurements}
use argo_rollouts.Analysis.Measure.Counts.{run_task-other}
use argo_rollouts.Analysis.Tasks.{
  metric_task, task_after, resume_task, new_task, reached, overdue, generate_metric_tasks,
  cons_task,
}

-- The results after the worker of a task, if there is one.
abbrev pub after_task :
    (AnalysisRun → Metric → NewProvider)
    → (String → Bool)
    → ℤ
    → AnalysisRun
    → Option MetricTask
    → List MetricResult
    → List MetricResult
after_task new_provider dry_run now run none results = results
after_task new_provider dry_run now run (some task) results =
    run_task new_provider dry_run now run task results

keep_if :
    (P : Option MetricTask → Type 0) (b : Bool) (x y : Option MetricTask)
    → P x
    → P y
    → P (if b then x else y)
keep_if P true x y p q = p
keep_if P false x y p q = q

-- A metric's task is none, a new one or one of its last measurement.
metric_task-elim :
    (lib : IntStr) (duration : String → Option ℤ) (now : ℤ) (run : AnalysisRun) (metric : Metric)
    (P : Option MetricTask → Type 0)
    → P none
    → P (new_task metric)
    → ((m : Measurement) → P (resume_task metric m))
    → P (metric_task lib duration now run metric)
unfolding metric_task task_after
metric_task-elim lib duration now run metric P n t r =
    elim (Bool-cases (metric_completed run.status.metric_results metric.name)) [
      | inl c ↦ rw c n
      | inr c ↦ rw c (elim (Option-cases (last_measurement run.status.metric_results metric.name)) [
        | inl e ↦ rw e (keep_if P _ _ _ n (keep_if P _ _ _ t n))
        | inr (m, e) ↦ rw e (elim (Option-cases m.finished_at) [
          | inl f ↦ rw (task_after, f) (keep_if P _ _ _ n (r m))
          | inr (s, f) ↦
              rw (task_after, f)
                (keep_if P (is_terminating run) _ _ n (
                  keep_if P (reached lib metric (get_result run.status.metric_results metric.name))
                    _ _ n (keep_if P (overdue lib duration now metric m s) _ _ t n)))
        ])
      ])
    ]

-- No metric has the name.
abbrev pub AllOther : String → List Metric → Type 0
AllOther name [] = true ≡ true
AllOther name (m ∷ ms) = ((m.name == name) ≡ false) × AllOther name ms

module _ (lib : IntStr) (duration : String → Option ℤ)
    (new_provider : AnalysisRun → Metric → NewProvider) (dry_run : String → Bool) (now : ℤ)
    (run : AnalysisRun) where
  pub after_task-other :
      (metric : Metric) (results : List MetricResult) (name : String)
      → (metric.name == name) ≡ false
      → get_result
          (after_task new_provider dry_run now run
            (metric_task lib duration now run metric)
            results)
          name
        ≡ get_result results name
  after_task-other metric results name h =
      metric_task-elim lib duration now run metric
        (λ o.
          get_result (after_task new_provider dry_run now run o results) name
          ≡ get_result results name)
        refl (run_task-other new_provider dry_run now run _ results name h)
        (λ m. run_task-other new_provider dry_run now run _ results name h)

  -- The first metric's worker goes first.
  pub run_measurements-first :
      (metric : Metric) (metrics : List Metric) (results : List MetricResult)
      → run_measurements new_provider dry_run now run
          (generate_metric_tasks lib duration now run (metric ∷ metrics))
          results
        ≡ run_measurements new_provider dry_run now run
            (generate_metric_tasks lib duration now run metrics)
            (after_task new_provider dry_run now run
              (metric_task lib duration now run metric)
              results)
  unfolding generate_metric_tasks cons_task run_measurements
  run_measurements-first metric metrics results =
      elim (Option-cases (metric_task lib duration now run metric)) [
        | inl e ↦ rw e refl
        | inr s ↦ rw s.1 refl
      ]

  -- A name that no metric has keeps its result.
  pub run_measurements-other :
      (metrics : List Metric) (results : List MetricResult) (name : String)
      → AllOther name metrics
      → get_result
          (run_measurements new_provider dry_run now run
            (generate_metric_tasks lib duration now run metrics)
            results)
          name
        ≡ get_result results name
  unfolding run_measurements generate_metric_tasks
  run_measurements-other [] results name h = refl
  run_measurements-other (m ∷ ms) results name (h, hs) =
      ap (λ rs. get_result rs name) (run_measurements-first m ms results)
      ∙ run_measurements-other ms _ name hs
      ∙ after_task-other m results name h
