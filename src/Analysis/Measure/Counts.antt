-- ===== src/Analysis/Measure/Counts.antt =====
-- The counters that `runMeasurements` keeps, and its workers' independence.
use argo_rollouts.Common.{
  ◌≡◌, refl, sym, ap, ◌∙◌, String, Bool, false, Option, none, some, List, [], ◌∷◌, ◌==◌, eq_iff,
  Option-cases, Bool-cases, inl, inr, arith,
}
use argo_rollouts.Common.Int.{ℤ, pos, ◌+ℤ◌, ◌≤ℤ◌, ◌<ℤ◌, int32, int32_laws, eq_of_parts}
use argo_rollouts.Api.Analysis.{
  AnalysisPhase, unset, pending, running, successful, failed, error, inconclusive, Metric,
  Measurement, MetricResult, AnalysisRun,
}
use argo_rollouts.Analysis.Results.{
  get_result, set_result, get_result-set_result_other, set_result-swap, read-named,
}
use argo_rollouts.Analysis.Measure.{
  MetricTask, NewProvider, record_measurement, count_measurement, run_task, new_measurement,
  first_result, or_first,
}

-- The count is the sum of the outcomes that it counts, and no counter is negative.
pub record Tallied (r : MetricResult) : Type 0 where
  pub successful_nonneg : pos 0 ≤ℤ r.successful
  pub failed_nonneg : pos 0 ≤ℤ r.failed
  pub inconclusive_nonneg : pos 0 ≤ℤ r.inconclusive
  pub count_eq : r.count ≡ r.successful +ℤ r.failed +ℤ r.inconclusive

pub first-Tallied : (name : String) (dry_run : Bool) → Tallied (first_result name dry_run)
unfolding ◌+ℤ◌
first-Tallied name dry_run = record {
  successful_nonneg = omega arith;
  failed_nonneg = omega arith;
  inconclusive_nonneg = omega arith;
  count_eq = refl;
}

inc_exact :
    (a b c t : ℤ)
    → t <ℤ pos 2147483647
    → pos 0 ≤ℤ a
    → pos 0 ≤ℤ b
    → pos 0 ≤ℤ c
    → t ≡ a +ℤ b +ℤ c
    → (pos 0 ≤ℤ int32 (a +ℤ pos 1))
      × (int32 (t +ℤ pos 1) ≡ int32 (a +ℤ pos 1) +ℤ b +ℤ c)
      × (int32 (t +ℤ pos 1) ≡ b +ℤ int32 (a +ℤ pos 1) +ℤ c)
      × (int32 (t +ℤ pos 1) ≡ b +ℤ c +ℤ int32 (a +ℤ pos 1))
inc_exact a b c t ht ha hb hc e =
    let ht' = rw e at ht in
    rw e (
      omega int32_laws,
      eq_of_parts _ _ (omega int32_laws),
      eq_of_parts _ _ (omega int32_laws),
      eq_of_parts _ _ (omega int32_laws),
    )

reorder : (a b c t : ℤ) → t ≡ a +ℤ b +ℤ c → (t ≡ b +ℤ a +ℤ c) × (t ≡ c +ℤ a +ℤ b)
reorder a b c t e = rw e (eq_of_parts _ _ (omega int32_laws), eq_of_parts _ _ (omega int32_laws))

count-Tallied :
    (phase : AnalysisPhase) (r : MetricResult)
    → r.count <ℤ pos 2147483647
    → Tallied r
    → Tallied (count_measurement phase r)
unfolding count_measurement
count-Tallied unset r h t = t
count-Tallied pending r h t = t
count-Tallied running r h t = t
count-Tallied error r h t = record {
  successful_nonneg = t.successful_nonneg;
  failed_nonneg = t.failed_nonneg;
  inconclusive_nonneg = t.inconclusive_nonneg;
  count_eq = t.count_eq;
}
count-Tallied successful r h t =
    let x =
      inc_exact _ _ _ _ h t.successful_nonneg t.failed_nonneg t.inconclusive_nonneg t.count_eq in
    record {
      successful_nonneg = x.0;
      failed_nonneg = t.failed_nonneg;
      inconclusive_nonneg = t.inconclusive_nonneg;
      count_eq = x.1;
    }
count-Tallied failed r h t =
    let x =
      inc_exact r.failed r.successful r.inconclusive _ h t.failed_nonneg t.successful_nonneg
        t.inconclusive_nonneg (reorder _ _ _ _ t.count_eq).0 in
    record {
      successful_nonneg = t.successful_nonneg;
      failed_nonneg = x.0;
      inconclusive_nonneg = t.inconclusive_nonneg;
      count_eq = x.2;
    }
count-Tallied inconclusive r h t =
    let x =
      inc_exact r.inconclusive r.successful r.failed _ h t.inconclusive_nonneg t.successful_nonneg
        t.failed_nonneg (reorder _ _ _ _ t.count_eq).1 in
    record {
      successful_nonneg = t.successful_nonneg;
      failed_nonneg = t.failed_nonneg;
      inconclusive_nonneg = x.0;
      count_eq = x.3;
    }

with_measurements :
    (r : MetricResult) (ms : List Measurement)
    → Tallied r
    → Tallied (record r { measurements = ms })
with_measurements r ms t = record {
  successful_nonneg = t.successful_nonneg;
  failed_nonneg = t.failed_nonneg;
  inconclusive_nonneg = t.inconclusive_nonneg;
  count_eq = t.count_eq;
}

-- Recording a measurement keeps the tally: the count is the sum of the successful, failed and
-- inconclusive ones, and none is negative, as long as the count is below the largest int32.
pub record_measurement-Tallied :
    (now : ℤ) (task : MetricTask) (m : Measurement) (r : MetricResult)
    → r.count <ℤ pos 2147483647
    → Tallied r
    → Tallied (record_measurement now task m r)
unfolding record_measurement
record_measurement-Tallied now task m r h t = elim (Option-cases task.incomplete_measurement) [
  | inl e ↦ rw e (with_measurements _ _ (count-Tallied m.phase r h t))
  | inr s ↦ rw s.1 (with_measurements _ _ (count-Tallied m.phase r h t))
]

count_measurement-name :
    (phase : AnalysisPhase) (r : MetricResult) → (count_measurement phase r).name ≡ r.name
unfolding count_measurement
count_measurement-name phase r = ground arith

record_measurement-name :
    (now : ℤ) (task : MetricTask) (m : Measurement) (r : MetricResult)
    → (record_measurement now task m r).name ≡ r.name
unfolding record_measurement
record_measurement-name now task m r = elim (Option-cases task.incomplete_measurement) [
  | inl e ↦ rw e (count_measurement-name m.phase r)
  | inr s ↦ rw s.1 (count_measurement-name m.phase r)
]

get_result-name :
    (results : List MetricResult) (name : String) (r : MetricResult)
    → get_result results name ≡ some r
    → r.name ≡ name
unfolding get_result
get_result-name [] name r h = ground arith
get_result-name (x ∷ xs) name r h = elim (Bool-cases (x.name == name)) [
  | inl e ↦
      let h' = rw e at h in
      sym (ap (λ o. (or_first o name false).name) h') ∙ (eq_iff x.name name).0 e
  | inr n ↦ let h' = rw n at h in get_result-name xs name r h'
]

or_first-name :
    (o : Option MetricResult) (name : String) (d : Bool)
    → ((r : MetricResult) → o ≡ some r → r.name ≡ name)
    → (or_first o name d).name ≡ name
or_first-name none name d h = refl
or_first-name (some r) name d h = h r refl

not_same-sym : (a b : String) → (a == b) ≡ false → (b == a) ≡ false
not_same-sym a b h = elim (Bool-cases (b == a)) [
  | inr n ↦ n
  | inl e ↦ let e' = (eq_iff a b).1 (sym ((eq_iff b a).0 e)) in ground arith
]

module _ (new_provider : AnalysisRun → Metric → NewProvider) (dry_run : String → Bool)
    (now : ℤ) where
  abbrev pub written : AnalysisRun → MetricTask → List MetricResult → MetricResult
  written run task results =
      record_measurement now task (new_measurement (new_provider run task.metric) now run task)
        (or_first (get_result results task.metric.name) task.metric.name (dry_run task.metric.name))

  written-name :
      (run : AnalysisRun) (task : MetricTask) (results : List MetricResult)
      → (written run task results).name ≡ task.metric.name
  written-name run task results =
      record_measurement-name now task _ _
      ∙ or_first-name (get_result results task.metric.name) task.metric.name _
          (get_result-name results task.metric.name)

  -- A worker's result is read back under its metric's name.
  pub run_task-own :
      (run : AnalysisRun) (task : MetricTask) (results : List MetricResult)
      → get_result (run_task new_provider dry_run now run task results) task.metric.name
        ≡ some (written run task results)
  unfolding run_task
  run_task-own run task results =
      read-named results (written run task results) task.metric.name (written-name run task results)

  -- A worker leaves every other metric's result as it is.
  pub run_task-other :
      (run : AnalysisRun) (task : MetricTask) (results : List MetricResult) (name : String)
      → (task.metric.name == name) ≡ false
      → get_result (run_task new_provider dry_run now run task results) name
        ≡ get_result results name
  unfolding run_task
  run_task-other run task results name h =
      get_result-set_result_other results (written run task results) name
        (rw (written-name run task results) h)

  written-after :
      (run : AnalysisRun) (task : MetricTask) (results : List MetricResult) (r : MetricResult)
      → (r.name == task.metric.name) ≡ false
      → written run task (set_result results r) ≡ written run task results
  written-after run task results r h =
      ap
        (λ o.
          record_measurement now task (new_measurement (new_provider run task.metric) now run task)
            (or_first o task.metric.name (dry_run task.metric.name)))
        (get_result-set_result_other results r task.metric.name h)

  -- Whatever the order in which two workers of different metrics finish, and whatever each saw of the
  -- run, every name's result is the same afterwards.
  pub workers_commute :
      (run seen : AnalysisRun) (s t : MetricTask) (results : List MetricResult) (name : String)
      → (s.metric.name == t.metric.name) ≡ false
      → get_result
          (run_task new_provider dry_run now seen t
            (run_task new_provider dry_run now run s results))
          name
        ≡ get_result
            (run_task new_provider dry_run now run s
              (run_task new_provider dry_run now seen t results))
            name
  unfolding run_task
  workers_commute run seen s t results name h =
      let hs : ((written run s results).name == t.metric.name) ≡ false =
        rw (written-name run s results) h in
      let ht : ((written seen t results).name == s.metric.name) ≡ false =
        rw (written-name seen t results) (not_same-sym _ _ h) in
      ap (λ r. get_result (set_result (set_result results (written run s results)) r) name)
        (written-after seen t results (written run s results) hs)
      ∙ set_result-swap results (written run s results) (written seen t results) name
          (rw (written-name seen t results) hs)
      ∙ sym (
          ap (λ r. get_result (set_result (set_result results (written seen t results)) r) name)
            (written-after run s results (written seen t results) ht))
