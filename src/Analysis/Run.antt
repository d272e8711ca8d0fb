-- ===== src/Analysis/Run.antt =====
-- `assessRunStatus` of analysis/analysis.go, and what `reconcileAnalysisRun` does with its result. The
-- order in which a run's completed metrics are seen is that of the resolved metrics.
pub mod Loop
pub mod Verdict
use argo_rollouts.Common.{
  ◌≡◌, String, Bool, true, false, not, ◌&&◌, ◌||◌, Option, none, some, List, [], ◌∷◌, if◌then◌else◌,
}
use argo_rollouts.Common.Int.{ℤ, pos}
use argo_rollouts.Api.IntStr.{IntStr}
use argo_rollouts.Api.Analysis.{
  AnalysisPhase, unset, pending, running, successful, failed, error, inconclusive, completed,
  same_phase, Message, empty, run_terminated, assessed, metric_assessed, Reason, Metric,
  Measurement, MetricResult, RunSummary, AnalysisRun, AnalysisRunStatus,
}
use argo_rollouts.Analysis.Phases.{is_worse}
use argo_rollouts.Analysis.Results.{get_result, set_result, is_terminating, last_measurement}
use argo_rollouts.Analysis.Assess.{
  assess_metric_status, assess_metric_failure_inconclusive_or_error,
}
use argo_rollouts.Analysis.Measure.{inc}

abbrev pub no_runs : RunSummary
no_runs = record {
  count = pos 0;
  successful = pos 0;
  failed = pos 0;
  inconclusive = pos 0;
  error = pos 0;
}

-- The loop's variables, and the run's results that it writes.
pub record Assessment : Type 0 where
  pub worst_status : AnalysisPhase
  pub worst_message : Message
  pub everything_completed : Bool
  pub run_summary : RunSummary
  pub dry_run_summary : RunSummary
  pub results : List MetricResult

-- A phase that is none of the four counts as successful.
unfoldable pub summarize : AnalysisPhase → RunSummary → RunSummary
summarize error s = record s { error = inc s.error }
summarize failed s = record s { failed = inc s.failed }
summarize inconclusive s = record s { inconclusive = inc s.inconclusive }
summarize _ s = record s { successful = inc s.successful }

message_or : Message → Option Measurement → Message
message_or old none = old
message_or old (some m) = m.message

-- A metric that changes its phase takes its last measurement's message.
abbrev transitioned : List MetricResult → MetricResult → AnalysisPhase → MetricResult
transitioned results r status = if same_phase r.phase status then r else record r {
  phase = status;
  message = message_or r.message (last_measurement results r.name);
}

abbrev with_transition : List MetricResult → MetricResult → AnalysisPhase → List MetricResult
with_transition results r status =
    if same_phase r.phase status
    then results
    else set_result results (transitioned results r status)

-- A completed metric that counts: the worst status so far, with its message.
see_status : String → AnalysisPhase → Option Reason → Message → Assessment → Assessment
see_status name status why message a =
    if same_phase a.worst_status unset || is_worse a.worst_status status
    then record a {
      worst_status = status;
      worst_message = elim why [
        | none ↦ a.worst_message
        | some reason ↦ metric_assessed name status reason message
      ];
    }
    else a

-- A completed metric in dry-run mode: no phase is taken as successful.
see_dry_run : MetricResult → AnalysisPhase → Option Reason → Assessment → Assessment
see_dry_run r status why a = record a {
  worst_status = if same_phase a.worst_status unset then successful else a.worst_status;
  results = elim why [
    | none ↦ a.results
    | some reason ↦ set_result a.results (record r { message = assessed status reason })
  ];
}

module _ (lib : IntStr) (dry_run : String → Bool) (terminating : Bool) where
  count_metric : Metric → Assessment → Assessment
  count_metric metric a =
      if dry_run metric.name
      then record a {
        dry_run_summary = record a.dry_run_summary { count = inc a.dry_run_summary.count };
      }
      else record a { run_summary = record a.run_summary { count = inc a.run_summary.count } }

  see_completed : Metric → MetricResult → AnalysisPhase → Assessment → Assessment
  unfolding see_status see_dry_run
  see_completed metric r status a =
      let (phase, why) = assess_metric_failure_inconclusive_or_error lib metric r in
      let dry = see_dry_run r status why a in
      let counting = see_status metric.name status why r.message a in
      if dry_run metric.name
      then record dry { dry_run_summary = summarize phase dry.dry_run_summary }
      else record counting { run_summary = summarize phase counting.run_summary }

  see_result : Metric → MetricResult → Assessment → Assessment
  unfolding see_completed message_or
  see_result metric r a =
      let status = assess_metric_status lib metric r terminating in
      let b = record a { results = with_transition a.results r status } in
      if completed status
      then see_completed metric (transitioned a.results r status) status b
      else record b { everything_completed = false }

  -- The loop's body.
  unfoldable pub assess_metric : Metric → Assessment → Assessment
  unfolding count_metric see_result
  assess_metric metric a =
      let b = count_metric metric a in
      elim (get_result b.results metric.name) [
        | none ↦ record b { everything_completed = false }
        | some r ↦ see_result metric r b
      ]

  unfoldable pub assess_metrics : List Metric → Assessment → Assessment
  assess_metrics [] a = a
  assess_metrics (metric ∷ metrics) a = assess_metrics metrics (assess_metric metric a)

abbrev pub initial : AnalysisRun → Assessment
initial run = record {
  worst_status = unset;
  worst_message = if run.terminate then run_terminated else empty;
  everything_completed = true;
  run_summary = no_runs;
  dry_run_summary = no_runs;
  results = run.status.metric_results;
}

-- What the function returns once the loop is done.
unfoldable pub overall : Bool → Assessment → AnalysisPhase × Message
overall terminating a =
    if terminating
    then (if same_phase a.worst_status unset
        then (successful, a.worst_message)
        else (a.worst_status, a.worst_message))
    else if not a.everything_completed || same_phase a.worst_status unset
    then (running, empty)
    else (a.worst_status, a.worst_message)

or_time : ℤ → Option ℤ → Option ℤ
or_time now none = some now
or_time now (some t) = some t

module _ (lib : IntStr) (dry_run : String → Bool) (now : ℤ) where
  -- The phase, the message, and the run with what the function writes to it.
  unfoldable pub assess_run_status :
      AnalysisRun → List Metric → (AnalysisPhase × Message) × AnalysisRun
  unfolding or_time
  assess_run_status run metrics =
      let a = assess_metrics lib dry_run (is_terminating run) metrics (initial run) in
      (
        overall (is_terminating run) a,
        record run {
          status = record run.status {
            metric_results = a.results;
            started_at = or_time now run.status.started_at;
            run_summary = a.run_summary;
            dry_run_summary = some a.dry_run_summary;
          };
        },
      )

  abbrev completed_at : AnalysisPhase → Option ℤ → Option ℤ
  completed_at phase t = if completed phase then or_time now t else t

  -- The run after its assessment: a new phase is stored with its message and completion time.
  unfoldable pub update_status : AnalysisRun → List Metric → AnalysisRun
  unfolding or_time
  update_status run metrics =
      let ((phase, message), seen) = assess_run_status run metrics in
      if same_phase phase seen.status.phase then seen else record seen {
        status = record seen.status {
          phase = phase;
          message = message;
          completed_at = completed_at phase seen.status.completed_at;
        };
      }
