-- ===== src/Analysis/Assess.antt =====
-- The assessment of one metric: `assessMetricStatus` and `assessMetricFailureInconclusiveOrError` of
-- analysis/analysis.go.
pub mod Outcomes
use argo_rollouts.Common.{
  ◌≡◌, refl, ◌⊎◌, inl, inr, Bool, true, false, ◌&&◌, Option, none, some, if◌then◌else◌, Bool-cases,
  arith, last?,
}
use argo_rollouts.Common.Int.{ℤ, pos, ltb_ℤ, leb_ℤ, int32, ◌<ℤ◌, ◌≤ℤ◌}
use argo_rollouts.Api.IntStr.{IntStr, IntOrString}
use argo_rollouts.Api.Analysis.{
  AnalysisPhase, unset, pending, running, successful, failed, error, inconclusive, completed,
  Measurement, Reason, failure_limit, inconclusive_limit, consecutive_error_limit, Metric,
  MetricResult, effective_count,
}
use argo_rollouts.Defaults.{get_consecutive_error_limit_or_default}

-- A phase with the reason of it, `unset` without one if no limit is passed.
abbrev pub Verdict : Type 0
Verdict = AnalysisPhase × Option Reason

module _ (lib : IntStr) where
  open lib use {int_value}

  limit_or_zero : Option IntOrString → ℤ
  limit_or_zero none = pos 0
  limit_or_zero (some l) = int32 (int_value l)

  unfoldable pub failure_limit_of : Metric → ℤ
  unfolding limit_or_zero
  failure_limit_of metric = limit_or_zero metric.failure_limit

  unfoldable pub inconclusive_limit_of : Metric → ℤ
  unfolding limit_or_zero
  inconclusive_limit_of metric = limit_or_zero metric.inconclusive_limit

  check_failed : ℤ → MetricResult → Verdict → Verdict
  check_failed limit result v =
      if leb_ℤ (pos 0) limit && ltb_ℤ limit result.failed
      then (failed, some (failure_limit result.failed limit))
      else v

  check_inconclusive : ℤ → MetricResult → Verdict → Verdict
  check_inconclusive limit result v =
      if ltb_ℤ limit result.inconclusive
      then (inconclusive, some (inconclusive_limit result.inconclusive limit))
      else v

  check_error : ℤ → MetricResult → Verdict → Verdict
  check_error limit result v =
      if ltb_ℤ limit result.consecutive_error
      then (error, some (consecutive_error_limit result.consecutive_error limit))
      else v

  -- A later check overwrites an earlier one.
  unfoldable pub assess_metric_failure_inconclusive_or_error : Metric → MetricResult → Verdict
  unfolding check_failed check_inconclusive check_error
  assess_metric_failure_inconclusive_or_error metric result =
      check_error (get_consecutive_error_limit_or_default lib metric) result (
        check_inconclusive (inconclusive_limit_of metric) result
          (check_failed (failure_limit_of metric) result (unset, none)))

  -- Whether the metric has a positive consecutiveSuccessLimit.
  abbrev success_applicable : Metric → Bool
  success_applicable metric = elim metric.consecutive_success_limit [
    | none ↦ false
    | some l ↦ ltb_ℤ (pos 0) (int_value l)
  ]

  abbrev success_limit_reached : Metric → MetricResult → Bool
  success_limit_reached metric result = elim metric.consecutive_success_limit [
    | none ↦ false
    | some l ↦ ltb_ℤ (pos 0) (int_value l) && leb_ℤ (int32 (int_value l)) result.consecutive_success
  ]

  abbrev failure_applicable : Metric → Bool
  failure_applicable metric = elim metric.failure_limit [
    | none ↦ true
    | some l ↦ leb_ℤ (pos 0) (int_value l)
  ]

  -- Whether the metric has a count and the result has reached it.
  unfoldable pub count_reached : Metric → MetricResult → Bool
  count_reached metric result = elim (effective_count lib metric) [
    | none ↦ false
    | some c ↦ leb_ℤ (int32 (int_value c)) result.count
  ]

  -- The phase of a metric whose count is reached.
  phase_at_count : Metric → AnalysisPhase
  phase_at_count metric =
      if success_applicable metric
      then (if failure_applicable metric then inconclusive else failed)
      else successful

  -- The phase when no limit is passed.
  phase_within_limits : Metric → MetricResult → Bool → AnalysisPhase
  phase_within_limits metric result terminating =
      if success_limit_reached metric result
      then successful
      else if count_reached metric result
      then phase_at_count metric
      else if terminating
      then successful
      else running

  phase_measured : Metric → MetricResult → Bool → Verdict → AnalysisPhase
  phase_measured metric result terminating (unset, why) =
      phase_within_limits metric result terminating
  phase_measured metric result terminating (phase, why) = phase

  unfoldable pub assess_metric_status : Metric → MetricResult → Bool → AnalysisPhase
  unfolding phase_measured phase_within_limits phase_at_count
  assess_metric_status metric result terminating =
      if completed result.phase then result.phase else elim (last? result.measurements) [
        | none ↦ if terminating then successful else pending
        | some m ↦
            if completed m.phase
            then phase_measured metric result terminating
                (assess_metric_failure_inconclusive_or_error metric result)
            else running
      ]
