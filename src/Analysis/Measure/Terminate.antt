-- ===== src/Analysis/Measure/Terminate.antt =====
-- What a worker of `runMeasurements` records of a measurement that it terminates.
use argo_rollouts.Common.{
  ◌≡◌, refl, true, some, List, [], ◌∷◌, ◌||◌, Bool-cases, inl, inr, arith, last?,
}
use argo_rollouts.Common.Int.{ℤ}
use argo_rollouts.Api.Analysis.{
  AnalysisPhase, unset, pending, running, successful, failed, error, inconclusive, completed,
  same_phase, Measurement, MetricResult, AnalysisRun,
}
use argo_rollouts.Analysis.Results.{is_terminating}
use argo_rollouts.Analysis.Measure.{
  MetricTask, NewProvider, provider, provider_error, Provider, record_measurement,
  count_measurement, new_measurement, measurement_of_provider, measurement_on_error, terminated,
  finished, replace_last,
}

last?-cons :
    (x m : Measurement) (ms : List Measurement) → last? ms ≡ some m → last? (x ∷ ms) ≡ some m
last?-cons x m [] h = ground arith
last?-cons x m (y ∷ ys) h = h

last?-replace_last :
    (m x : Measurement) (ms : List Measurement)
    → last? ms ≡ some x
    → last? (replace_last m ms) ≡ some m
unfolding replace_last
last?-replace_last m x [] h = ground arith
last?-replace_last m x (y ∷ []) h = refl
last?-replace_last m x (y ∷ z ∷ ms) h =
    last?-cons y m (replace_last m (z ∷ ms)) (last?-replace_last m x (z ∷ ms) h)

count_measurement-measurements :
    (p : AnalysisPhase) (r : MetricResult) → (count_measurement p r).measurements ≡ r.measurements
unfolding count_measurement
count_measurement-measurements unset r = refl
count_measurement-measurements pending r = refl
count_measurement-measurements running r = refl
count_measurement-measurements successful r = refl
count_measurement-measurements failed r = refl
count_measurement-measurements error r = refl
count_measurement-measurements inconclusive r = refl

-- The last measurement of a result whose last one was taken up again is the new one, finished.
record_measurement-last :
    (now : ℤ) (task : MetricTask) (m x y : Measurement) (r : MetricResult)
    → task.incomplete_measurement ≡ some x
    → last? r.measurements ≡ some y
    → last? (record_measurement now task m r).measurements ≡ some (finished now m)
unfolding record_measurement
record_measurement-last now task m x y r e l = rw e (
    last?-replace_last (finished now m) y (count_measurement m.phase r).measurements
      (rw (count_measurement-measurements m.phase r) l))

finished-phase : (now : ℤ) (m : Measurement) → (finished now m).phase ≡ m.phase
finished-phase now m = elim (Bool-cases (completed m.phase)) [
  | inl e ↦ rw e refl
  | inr e ↦ rw e refl
]

terminated-phase : (m : Measurement) → (terminated m).phase ≡ m.phase
unfolding terminated
terminated-phase m =
    elim (Bool-cases (same_phase m.phase successful || same_phase m.phase inconclusive)) [
      | inl e ↦ rw e refl
      | inr e ↦ rw e refl
    ]

new_measurement-completed :
    (n : NewProvider) (now : ℤ) (run : AnalysisRun) (task : MetricTask) (m : Measurement)
    → is_terminating run ≡ true
    → task.incomplete_measurement ≡ some m
    → ((p : Provider) → n ≡ provider p → completed (p.terminate run task.metric m).phase ≡ true)
    → completed (new_measurement n now run task).phase ≡ true
unfolding new_measurement measurement_of_provider measurement_on_error
new_measurement-completed (provider p) now run task m t e h =
    rw (e, t, terminated-phase (p.terminate run task.metric m)) (h p refl)
new_measurement-completed (provider_error why) now run task m t e h = rw e refl

-- A terminating run's worker of a measurement in flight leaves a completed last measurement, if the
-- provider's Terminate returns one.
pub terminated-completed :
    (n : NewProvider) (now : ℤ) (run : AnalysisRun) (task : MetricTask) (m : Measurement)
    (r : MetricResult)
    → is_terminating run ≡ true
    → task.incomplete_measurement ≡ some m
    → last? r.measurements ≡ some m
    → ((p : Provider) → n ≡ provider p → completed (p.terminate run task.metric m).phase ≡ true)
    → (k : Measurement) × (last?
          (record_measurement now task (new_measurement n now run task) r).measurements
        ≡ some k)
      × (completed k.phase ≡ true)
terminated-completed n now run task m r t e l stops =
    let k = new_measurement n now run task in
    (
      finished now k,
      record_measurement-last now task k m m r e l,
      rw (finished-phase now k) (new_measurement-completed n now run task m t e stops),
    )
