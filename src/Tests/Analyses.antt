-- ===== src/Tests/Analyses.antt =====
-- An analysis run of one metric, which is measured three times a minute apart.
use argo_rollouts.Common.{
  ◌≡◌, ◌≤◌, refl, sym, ap, ◌⊎◌, String, Bool, true, false, none, some, List, [], ◌∷◌, ◌++◌, arith,
  is_some,
}
use argo_rollouts.Common.Int.{pos, ◌+ℤ◌, int32}
use argo_rollouts.Api.IntStr.{numbers_only}
use argo_rollouts.Api.Analysis.{
  running, successful, failed, completed, MetricResult, AnalysisRun, effective_count, Metric,
}
use argo_rollouts.Defaults.{get_consecutive_error_limit_or_default}
use argo_rollouts.Analysis.Phases.{is_worse, badness}
use argo_rollouts.Analysis.Results.{
  get_result, set_result, is_terminating, metric_completed, last_measurement,
}
use argo_rollouts.Analysis.Assess.{
  assess_metric_status, assess_metric_failure_inconclusive_or_error, failure_limit_of,
  inconclusive_limit_of, count_reached,
}
use argo_rollouts.Analysis.Assess.Outcomes.{WithinLimits, successful-WithinLimits}
use argo_rollouts.Analysis.Measure.{
  MetricTask, NewProvider, Provider, provider, provider_error, record_measurement, first_result,
  run_task, run_measurements,
}
use argo_rollouts.Analysis.Measure.Counts.{
  Tallied, first-Tallied, record_measurement-Tallied, workers_commute,
}
use argo_rollouts.Analysis.Run.{
  assess_run_status, assess_metrics, assess_metric, overall, summarize,
}
use argo_rollouts.Analysis.Run.Verdict.{terminating_run-completed, completed_run-worst}
use argo_rollouts.Analysis.Tasks.{
  reached, metric_task, metric_reconcile_time, generate_metric_tasks,
}
use argo_rollouts.Analysis.Tasks.Guards.{new_measurement-guarded}
use argo_rollouts.Analysis.Tasks.Terminate.{EndsCompleted, terminating-settled}
use argo_rollouts.Analysis.Tasks.Wakeup.{wakeup-has_task}
use argo_rollouts.Tests.Fixtures.{metric, minute, measured, in_flight, result_of, run_of}

abbrev done : MetricResult
done = result_of "errors" running (measured successful ∷ []) (pos 3)

abbrev never_dry : String → Bool
never_dry name = false

successful-WithinLimits_example : WithinLimits numbers_only metric done
unfolding assess_metric_status assess_metric_failure_inconclusive_or_error failure_limit_of
    inconclusive_limit_of count_reached effective_count get_consecutive_error_limit_or_default int32
successful-WithinLimits_example =
    successful-WithinLimits numbers_only metric done false (measured successful) refl refl refl

abbrev new_task : MetricTask
new_task = record { metric = metric; incomplete_measurement = none }

record_measurement-Tallied_example :
    Tallied (record_measurement (pos 7) new_task (measured failed) (first_result "errors" false))
record_measurement-Tallied_example =
    record_measurement-Tallied (pos 7) new_task (measured failed) (first_result "errors" false)
      (omega arith) (first-Tallied "errors" false)

abbrev no_provider : AnalysisRun → Metric → NewProvider
no_provider run m = provider_error "no provider"

abbrev latency_task : MetricTask
latency_task = record { metric = record metric { name = "latency" }; incomplete_measurement = none }

workers_commute_example :
    get_result
      (run_task no_provider never_dry
        (pos 7)
        (run_of true [])
        latency_task
        (run_task no_provider never_dry (pos 7) (run_of false []) new_task []))
      "errors"
    ≡ get_result
        (run_task no_provider never_dry
          (pos 7)
          (run_of false [])
          new_task
          (run_task no_provider never_dry (pos 7) (run_of true []) latency_task []))
        "errors"
workers_commute_example =
    workers_commute no_provider never_dry (pos 7) (run_of false []) (run_of true []) new_task
      latency_task [] "errors" refl

terminating_run-completed_example :
    completed
      (assess_run_status numbers_only never_dry (pos 7) (run_of true (done ∷ [])) (metric ∷ [])).0.0
    ≡ true
unfolding is_terminating
terminating_run-completed_example =
    terminating_run-completed numbers_only never_dry (pos 7) (run_of true (done ∷ [])) (metric ∷ [])
      refl

completed_run-worst_example :
    let run = run_of false (done ∷ []) in
    let phase = (assess_run_status numbers_only never_dry (pos 7) run ([] ++ (metric ∷ []))).0.0 in
    let p = assess_metric_status numbers_only metric done (is_terminating run) in
    ((is_terminating run ≡ true) ⊎ (completed p ≡ true))
    × ((never_dry "errors" ≡ true) ⊎ (completed p ≡ false) ⊎ (badness p ≤ badness phase))
unfolding assess_run_status assess_metrics assess_metric overall is_terminating get_result
    set_result summarize last_measurement assess_metric_status
    assess_metric_failure_inconclusive_or_error failure_limit_of inconclusive_limit_of count_reached
    effective_count get_consecutive_error_limit_or_default int32 is_worse
completed_run-worst_example =
    completed_run-worst numbers_only never_dry (pos 7) (run_of false (done ∷ [])) [] [] metric done
      refl refl

-- Two of three measurements are taken, the last of them at 1.
abbrev partly : MetricResult
partly = result_of "errors" running (measured successful ∷ []) (pos 2)

new_measurement-guarded_example :
    let run = run_of false (partly ∷ []) in
    (is_terminating run ≡ false)
    × (metric_completed run.status.metric_results "errors" ≡ false)
    × ((last_measurement run.status.metric_results "errors" ≡ none)
        ⊎ (reached numbers_only metric (get_result run.status.metric_results "errors") ≡ false))
unfolding metric_task is_terminating metric_completed last_measurement get_result count_reached
    effective_count int32 ◌+ℤ◌
new_measurement-guarded_example =
    new_measurement-guarded numbers_only minute (pos 60000000002) (run_of false (partly ∷ []))
      metric refl

abbrev flying : MetricResult
flying = result_of "errors" running (in_flight ∷ []) (pos 0)

-- A provider whose measurements are terminated as Successful, the job provider's way.
abbrev stopping : Provider
stopping = record {
  run = λ _ _. in_flight;
  resume = λ _ _ m. m;
  terminate = λ _ _ m. record m { phase = successful };
}

abbrev always_stopping : AnalysisRun → Metric → NewProvider
always_stopping run m = provider stopping

abbrev or_stopping : NewProvider → Provider
or_stopping (provider p) = p
or_stopping (provider_error why) = stopping

flying-EndsCompleted : EndsCompleted flying
flying-EndsCompleted m l f = ground arith

abbrev others : List Metric
others = record metric { name = "latency" } ∷ []

terminating-settled_example :
    let run = run_of true (flying ∷ []) in
    let results =
      run_measurements always_stopping never_dry
        (pos 7)
        run
        (generate_metric_tasks numbers_only minute (pos 7) run (others ++ metric ∷ []))
        run.status.metric_results in
    (r : MetricResult) × (get_result results "errors" ≡ some r)
    × (completed (assess_metric_status numbers_only metric r true) ≡ true)
unfolding is_terminating get_result
terminating-settled_example =
    terminating-settled numbers_only minute (pos 7) (run_of true (flying ∷ [])) metric refl flying
      refl always_stopping never_dry flying-EndsCompleted
      (λ p m l f e. sym (
        ap (λ n. completed ((or_stopping n).terminate (run_of true (flying ∷ [])) metric m).phase)
          e))
      others [] (refl, refl) refl

wakeup-has_task_example :
    is_some (metric_task numbers_only minute (pos 60000000002) (run_of false (partly ∷ [])) metric)
    ≡ true
unfolding metric_reconcile_time is_terminating metric_completed last_measurement get_result
    count_reached effective_count int32 ◌+ℤ◌
wakeup-has_task_example =
    wakeup-has_task numbers_only minute (pos 7) (pos 60000000002) (pos 60000000001)
      (run_of false (partly ∷ [])) metric (omega arith) (pos 0) refl refl refl
