-- ===== src/Analysis/Assess/Outcomes.antt =====
-- What the assessment of one metric guarantees.
use argo_rollouts.Common.{
  ◌≡◌, refl, ◌⊎◌, inl, inr, Bool, true, false, none, some, Bool-cases, arith, last?,
}
use argo_rollouts.Common.Int.{ℤ, pos, ◌<ℤ◌, ◌≤ℤ◌}
use argo_rollouts.Api.IntStr.{IntStr}
use argo_rollouts.Api.Analysis.{
  unset, pending, running, successful, failed, error, inconclusive, completed, Measurement, Metric,
  MetricResult,
}
use argo_rollouts.Defaults.{get_consecutive_error_limit_or_default}
use argo_rollouts.Analysis.Assess.{
  Verdict, phase_measured, phase_within_limits, phase_at_count, check_error, check_inconclusive,
  check_failed, assess_metric_failure_inconclusive_or_error, assess_metric_status, count_reached,
  failure_limit_of, inconclusive_limit_of,
}

module _ (lib : IntStr) where
  -- The last verdict that applies, from the three limits and the three counts.
  check-cases :
      (metric : Metric) (result : MetricResult) (fl il el : ℤ)
      → let v =
          check_error lib el result
            (check_inconclusive lib il result (check_failed lib fl result (unset, none))) in
        ((v.0 ≡ error) × (el <ℤ result.consecutive_error))
        ⊎ ((v.0 ≡ inconclusive) × (il <ℤ result.inconclusive))
        ⊎ ((v.0 ≡ failed) × (pos 0 ≤ℤ fl) × (fl <ℤ result.failed))
        ⊎ ((v.0 ≡ unset)
            × (result.consecutive_error ≤ℤ el)
            × (result.inconclusive ≤ℤ il)
            × ((fl <ℤ pos 0) ⊎ (result.failed ≤ℤ fl)))
  unfolding check_failed check_inconclusive check_error
  check-cases metric result fl il el = ground arith

  measured-successful :
      (metric : Metric) (result : MetricResult) (terminating : Bool) (v : Verdict)
      → phase_measured lib metric result terminating v ≡ successful
      → (v.0 ≡ unset) ⊎ (v.0 ≡ successful)
  unfolding phase_measured
  measured-successful metric result terminating (unset, why) h = inl refl
  measured-successful metric result terminating (pending, why) h = ground arith
  measured-successful metric result terminating (running, why) h = ground arith
  measured-successful metric result terminating (successful, why) h = inr refl
  measured-successful metric result terminating (failed, why) h = ground arith
  measured-successful metric result terminating (error, why) h = ground arith
  measured-successful metric result terminating (inconclusive, why) h = ground arith

  -- The counts of a result are within the metric's limits; a negative failure limit is none.
  abbrev pub WithinLimits : Metric → MetricResult → Type 0
  WithinLimits metric result =
      (result.consecutive_error ≤ℤ get_consecutive_error_limit_or_default lib metric)
      × (result.inconclusive ≤ℤ inconclusive_limit_of lib metric)
      × ((failure_limit_of lib metric <ℤ pos 0) ⊎ (result.failed ≤ℤ failure_limit_of lib metric))

  within_of_verdict :
      (metric : Metric) (result : MetricResult)
      → let v = assess_metric_failure_inconclusive_or_error lib metric result in
        (v.0 ≡ unset) ⊎ (v.0 ≡ successful) → WithinLimits metric result
  unfolding assess_metric_failure_inconclusive_or_error
  within_of_verdict metric result h =
      let cs =
        check-cases metric result (failure_limit_of lib metric) (inconclusive_limit_of lib metric)
          (get_consecutive_error_limit_or_default lib metric) in
      ground arith

  -- A metric that was not completed, was measured, and is now assessed Successful has its consecutive
  -- errors, inconclusive and failed counts within its limits.
  pub successful-WithinLimits :
      (metric : Metric) (result : MetricResult) (terminating : Bool) (m : Measurement)
      → completed result.phase ≡ false
      → last? result.measurements ≡ some m
      → assess_metric_status lib metric result terminating ≡ successful
      → WithinLimits metric result
  unfolding assess_metric_status
  successful-WithinLimits metric result terminating m p q h =
      let h' = rw (p, q) at h in
      elim (Bool-cases (completed m.phase)) [
        | inl c ↦
            let h2 = rw c at h' in
            within_of_verdict metric result (measured-successful metric result terminating _ h2)
        | inr c ↦ let h2 = rw c at h' in ground arith
      ]

  within_limits-completed :
      (metric : Metric) (result : MetricResult) (terminating : Bool)
      → (count_reached lib metric result ≡ true) ⊎ (terminating ≡ true)
      → completed (phase_within_limits lib metric result terminating) ≡ true
  unfolding phase_within_limits phase_at_count
  within_limits-completed metric result terminating (inl h) = rw h (ground arith)
  within_limits-completed metric result terminating (inr h) = rw h (ground arith)

  measured-completed :
      (metric : Metric) (result : MetricResult) (terminating : Bool) (v : Verdict)
      → (count_reached lib metric result ≡ true) ⊎ (terminating ≡ true)
      → (v.0 ≡ unset) ⊎ (completed v.0 ≡ true)
      → completed (phase_measured lib metric result terminating v) ≡ true
  unfolding phase_measured
  measured-completed metric result terminating (unset, why) d h =
      within_limits-completed metric result terminating d
  measured-completed metric result terminating (pending, why) d h = ground arith
  measured-completed metric result terminating (running, why) d h = ground arith
  measured-completed metric result terminating (successful, why) d h = refl
  measured-completed metric result terminating (failed, why) d h = refl
  measured-completed metric result terminating (error, why) d h = refl
  measured-completed metric result terminating (inconclusive, why) d h = refl

  verdict-unset_or_completed :
      (metric : Metric) (result : MetricResult)
      → let v = assess_metric_failure_inconclusive_or_error lib metric result in
        (v.0 ≡ unset) ⊎ (completed v.0 ≡ true)
  unfolding assess_metric_failure_inconclusive_or_error check_failed check_inconclusive check_error
  verdict-unset_or_completed metric result = ground arith

  -- With the run terminating, a metric that has no measurement, or whose last measurement is completed,
  -- is assessed a completed phase.
  pub terminating-completed :
      (metric : Metric) (result : MetricResult)
      → (last? result.measurements ≡ none)
        ⊎ ((m : Measurement) × (last? result.measurements ≡ some m) × (completed m.phase ≡ true))
      → completed (assess_metric_status lib metric result true) ≡ true
  unfolding assess_metric_status
  terminating-completed metric result h = elim (Bool-cases (completed result.phase)) [
    | inl p ↦ rw (p, p) refl
    | inr p ↦ rw p (elim h [
      | inl e ↦ rw e refl
      | inr s ↦
          rw (s.1, s.2)
            (measured-completed metric result true _ (inr refl)
              (verdict-unset_or_completed metric result))
    ])
  ]

  -- A metric whose last measurement is completed and whose count is reached is assessed a completed
  -- phase, whether or not the run is terminating: it does not run on.
  pub count_reached-completed :
      (metric : Metric) (result : MetricResult) (terminating : Bool) (m : Measurement)
      → last? result.measurements ≡ some m
      → completed m.phase ≡ true
      → count_reached lib metric result ≡ true
      → completed (assess_metric_status lib metric result terminating) ≡ true
  unfolding assess_metric_status
  count_reached-completed metric result terminating m e c r =
      elim (Bool-cases (completed result.phase)) [
        | inl p ↦ rw (p, p) refl
        | inr p ↦
            rw (p, e, c)
              (measured-completed metric result terminating _ (inl r)
                (verdict-unset_or_completed metric result))
      ]
