-- ===== src/Analysis/Measure.antt =====
-- `runMeasurements` of analysis/analysis.go: each task's provider call and the bookkeeping of its
-- result. A provider's answers are a parameter. Resolving arguments, and redacting secrets from a
-- message, are left out.
pub mod Counts
pub mod Terminate
use argo_rollouts.Common.{
  ℕ, zero, suc, ◌+◌, ◌≡◌, refl, String, Bool, true, false, ◌||◌, Option, none, some, List, [], ◌∷◌,
  ◌++◌, if◌then◌else◌, last?, length, arith,
}
use argo_rollouts.Common.Int.{ℤ, pos, ◌+ℤ◌, int32}
use argo_rollouts.Api.Analysis.{
  AnalysisPhase, unset, pending, running, successful, failed, error, inconclusive, completed,
  same_phase, Message, empty, text, Metric, Measurement, MetricResult, AnalysisRun,
  AnalysisRunStatus,
}
use argo_rollouts.Analysis.Results.{get_result, set_result, is_terminating}

-- What `newProvider` returns: the metric's provider, or the text of an error.
pub record Provider : Type 0 where
  pub run : AnalysisRun → Metric → Measurement
  pub resume : AnalysisRun → Metric → Measurement → Measurement
  pub terminate : AnalysisRun → Metric → Measurement → Measurement

pub data NewProvider : Type 0 where
  provider : Provider → NewProvider
  provider_error : String → NewProvider

pub record MetricTask : Type 0 where
  pub metric : Metric
  pub incomplete_measurement : Option Measurement

-- A measurement that nothing has set yet.
abbrev no_measurement : Measurement
no_measurement = record {
  phase = unset;
  message = empty;
  started_at = none;
  finished_at = none;
  value = "";
  resume_at = none;
}

-- The message of a terminated measurement that is Successful or Inconclusive is replaced.
terminated : Measurement → Measurement
terminated m =
    if same_phase m.phase successful || same_phase m.phase inconclusive
    then record m { message = text "Metric Terminated" }
    else m

measurement_on_error : ℤ → String → Option Measurement → Measurement
measurement_on_error now why none = record no_measurement {
  phase = error;
  message = text why;
  started_at = some now;
}
measurement_on_error now why (some m) = record m { phase = error; message = text why }

measurement_of_provider : Provider → AnalysisRun → MetricTask → Measurement
unfolding terminated
measurement_of_provider p run task = elim task.incomplete_measurement [
  | none ↦ p.run run task.metric
  | some m ↦
      if is_terminating run
      then terminated (p.terminate run task.metric m)
      else p.resume run task.metric m
]

-- The measurement that a task takes, resumes or terminates.
unfoldable pub new_measurement : NewProvider → ℤ → AnalysisRun → MetricTask → Measurement
unfolding measurement_on_error measurement_of_provider
new_measurement (provider p) now run task = measurement_of_provider p run task
new_measurement (provider_error why) now run task =
    measurement_on_error now why task.incomplete_measurement

-- A metric's first result.
abbrev pub first_result : String → Bool → MetricResult
first_result name dry_run = record {
  name = name;
  phase = running;
  measurements = [];
  message = empty;
  count = pos 0;
  successful = pos 0;
  failed = pos 0;
  inconclusive = pos 0;
  error = pos 0;
  consecutive_error = pos 0;
  dry_run = dry_run;
  consecutive_success = pos 0;
}

-- `++` on an int32.
abbrev pub inc : ℤ → ℤ
inc n = int32 (n +ℤ pos 1)

-- The counters after a completed measurement.
unfoldable pub count_measurement : AnalysisPhase → MetricResult → MetricResult
count_measurement successful r = record r {
  successful = inc r.successful;
  count = inc r.count;
  consecutive_error = pos 0;
  consecutive_success = inc r.consecutive_success;
}
count_measurement failed r = record r {
  failed = inc r.failed;
  count = inc r.count;
  consecutive_error = pos 0;
  consecutive_success = pos 0;
}
count_measurement inconclusive r = record r {
  inconclusive = inc r.inconclusive;
  count = inc r.count;
  consecutive_error = pos 0;
  consecutive_success = pos 0;
}
count_measurement error r = record r {
  error = inc r.error;
  consecutive_error = inc r.consecutive_error;
  consecutive_success = pos 0;
}
count_measurement _ r = r

or_now : ℤ → Option ℤ → Option ℤ
or_now now none = some now
or_now now (some t) = some t

-- A completed measurement is finished now, unless it says when.
abbrev finished : ℤ → Measurement → Measurement
finished now m =
    if completed m.phase then record m { finished_at = or_now now m.finished_at } else m

-- `measurements[len-1] = m`; the source only does it when there is one.
replace_last : Measurement → List Measurement → List Measurement
replace_last m [] = []
replace_last m (x ∷ []) = m ∷ []
replace_last m (x ∷ y ∷ ms) = x ∷ replace_last m (y ∷ ms)

-- What a worker does to its metric's result once the measurement is there.
unfoldable pub record_measurement : ℤ → MetricTask → Measurement → MetricResult → MetricResult
unfolding or_now replace_last
record_measurement now task m r =
    let counted = count_measurement m.phase r in
    elim task.incomplete_measurement [
      | none ↦ record counted { measurements = counted.measurements ++ (finished now m ∷ []) }
      | some _ ↦ record counted {
        measurements = replace_last (finished now m) counted.measurements;
      }
    ]

abbrev pub or_first : Option MetricResult → String → Bool → MetricResult
or_first none name dry_run = first_result name dry_run
or_first (some r) name dry_run = r

module _ (new_provider : AnalysisRun → Metric → NewProvider) (dry_run : String → Bool)
    (now : ℤ) where
  -- One worker, from its provider call to its write, with the run that the call saw.
  unfoldable pub run_task : AnalysisRun → MetricTask → List MetricResult → List MetricResult
  run_task run task results = set_result results (
      record_measurement now task (new_measurement (new_provider run task.metric) now run task) (
        or_first (get_result results task.metric.name) task.metric.name (dry_run task.metric.name)))

  -- The workers in the order in which they finish. Each touches its own metric's result only.
  unfoldable pub run_measurements :
      AnalysisRun → List MetricTask → List MetricResult → List MetricResult
  run_measurements run [] results = results
  run_measurements run (task ∷ tasks) results =
      run_measurements run tasks (run_task run task results)
