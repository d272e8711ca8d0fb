-- ===== src/Analysis/Tasks/Wakeup.antt =====
-- The time of the next reconciliation is the earliest that a metric asks for, and is not in vain.
use argo_rollouts.Common.{
  ◌≡◌, refl, ap, ◌∙◌, inl, inr, String, Bool, true, false, not, ◌||◌, ◌==◌, Option, none, some,
  List, [], ◌∷◌, ◌++◌, Bool-cases, Option-cases, arith, if◌then◌else◌, is_some,
}
use argo_rollouts.Common.Int.{ℤ, ltb_ℤ, ◌≤ℤ◌, ◌<ℤ◌, ◌+ℤ◌}
use argo_rollouts.Api.IntStr.{IntStr}
use argo_rollouts.Api.Analysis.{Metric, Measurement, AnalysisRun, error, same_phase}
use argo_rollouts.Analysis.Results.{get_result, metric_completed, last_measurement, is_terminating}
use argo_rollouts.Analysis.Tasks.{
  reached, metric_task, metric_reconcile_time, task_after, earlier, next_time_from,
  calculate_next_reconcile_time, interval_after, interval_or_error, overdue, delay_over, delay_end,
  default_error_retry_interval,
}

interval_agrees :
    (e q : Bool) (d : Option ℤ) (x i : ℤ)
    → (if e then some x else if q then none else d) ≡ some i
    → (if e || q then some x else d) ≡ some i
interval_agrees true q d x i h = h
interval_agrees false false d x i h = h
interval_agrees false true d x i h = ground arith

overdue_then :
    (o : Option ℤ) (f t now : ℤ)
    → elim o [ none ↦ none | some i ↦ some (f +ℤ i) ] ≡ some t
    → t <ℤ now
    → (i : ℤ) × (o ≡ some i) × (ltb_ℤ (f +ℤ i) now ≡ true)
overdue_then none f t now h l = ground arith
overdue_then (some i) f t now h l = (i, refl, ground arith)

over_then :
    (o : Option ℤ) (s t now : ℤ)
    → elim o [ none ↦ none | some d ↦ some (s +ℤ d) ] ≡ some t
    → t <ℤ now
    → elim o [ none ↦ false | some d ↦ not (ltb_ℤ now (s +ℤ d)) ] ≡ true
over_then none s t now h l = ground arith
over_then (some d) s t now h l = ground arith

module _ (lib : IntStr) (duration : String → Option ℤ) (now after t : ℤ) (run : AnalysisRun)
    (metric : Metric) (l : t <ℤ after) where
  finished-due :
      (m : Measurement) (f : ℤ)
      → elim (interval_or_error lib duration now metric m) [ none ↦ none | some i ↦ some (f +ℤ i) ]
        ≡ some t
      → overdue lib duration after metric m f ≡ true
  unfolding interval_or_error overdue interval_after
  finished-due m f h =
      let (i, e, d) = overdue_then _ f t after h l in
      ap (λ o. elim o [ none ↦ false | some x ↦ ltb_ℤ (f +ℤ x) after ])
        (interval_agrees (same_phase m.phase error) (metric.interval == "")
          (duration metric.interval) default_error_retry_interval i e)
      ∙ d

  unfinished-due :
      (m : Measurement)
      → m.finished_at ≡ none
      → m.resume_at ≡ some t
      → is_terminating run ≡ false
      → is_some (task_after lib duration after run metric m) ≡ true
  unfolding task_after
  unfinished-due m f r n = let b : ltb_ℤ after t ≡ false = ground arith in rw (f, n, r, b) refl

  after-due :
      (m : Measurement) (f : ℤ)
      → m.finished_at ≡ some f
      → is_terminating run ≡ false
      → (if reached lib metric (get_result run.status.metric_results metric.name)
          then none
          else elim (interval_or_error lib duration now metric m) [
            | none ↦ none
            | some i ↦ some (f +ℤ i)
          ])
        ≡ some t
      → is_some (task_after lib duration after run metric m) ≡ true
  unfolding task_after
  after-due m f e n h =
      elim (Bool-cases (reached lib metric (get_result run.status.metric_results metric.name))) [
        | inl r ↦ let h' = rw r at h in ground arith
        | inr r ↦ let h' = rw r at h in rw (e, n, r, finished-due m f h') refl
      ]

  delay-due :
      (s : ℤ)
      → run.status.started_at ≡ some s
      → (if metric.initial_delay == ""
          then none
          else delay_end lib duration now run.status.started_at metric)
        ≡ some t
      → delay_over lib duration after run.status.started_at metric ≡ true
  unfolding delay_end delay_over
  delay-due s e h = elim (Bool-cases (metric.initial_delay == "")) [
    | inl b ↦ let h' = rw b at h in ground arith
    | inr b ↦
        let h' = rw (b, e) at h in
        rw (b, e) (over_then (duration metric.initial_delay) s t after h' l)
  ]

  -- Once the time that a metric asks for is past, the metric has a task, if the run has started and is
  -- not terminating: the reconciliation finds work to do.
  pub wakeup-has_task :
      (s : ℤ)
      → run.status.started_at ≡ some s
      → is_terminating run ≡ false
      → metric_reconcile_time lib duration now run metric ≡ some t
      → is_some (metric_task lib duration after run metric) ≡ true
  unfolding metric_reconcile_time metric_task
  wakeup-has_task s e n h =
      elim (Bool-cases (metric_completed run.status.metric_results metric.name)) [
        | inl c ↦ let h' = rw c at h in ground arith
        | inr c ↦
            let h' = rw c at h in
            elim (Option-cases (last_measurement run.status.metric_results metric.name)) [
              | inl x ↦ let h2 = rw x at h' in rw (c, x, n, delay-due s e h2) refl
              | inr m ↦
                  let h2 = rw m.1 at h' in
                  rw (c, m.1)
                    (elim (Option-cases m.0.finished_at) [
                      | inl f ↦ let h3 = rw f at h2 in unfinished-due m.0 f h3 n
                      | inr f ↦ let h3 = rw f.1 at h2 in after-due m.0 f.0 f.1 n h3
                    ])
            ]
      ]

-- No time so far, or one that is not after `u`.
abbrev pub NotAfter : Option ℤ → ℤ → Type 0
NotAfter none u = ⊥
NotAfter (some t) u = t ≤ℤ u

earlier-left : (t o : Option ℤ) (u : ℤ) → NotAfter t u → NotAfter (earlier t o) u
earlier-left none o u h = ground arith
earlier-left (some t) none u h = h
earlier-left (some t) (some v) u h = ground arith

earlier-right : (t : Option ℤ) (u : ℤ) → NotAfter (earlier t (some u)) u
earlier-right none u = omega arith
earlier-right (some t) u = ground arith

module _ (lib : IntStr) (duration : String → Option ℤ) (now : ℤ) (run : AnalysisRun) where
  next_time-keeps :
      (metrics : List Metric) (t : Option ℤ) (u : ℤ)
      → NotAfter t u
      → NotAfter (next_time_from lib duration now run t metrics) u
  unfolding next_time_from
  next_time-keeps [] t u h = h
  next_time-keeps (m ∷ ms) t u h =
      next_time-keeps ms (earlier t (metric_reconcile_time lib duration now run m)) u
        (earlier-left t (metric_reconcile_time lib duration now run m) u h)

  next_time-earliest :
      (before after : List Metric) (m : Metric) (t : Option ℤ) (u : ℤ)
      → metric_reconcile_time lib duration now run m ≡ some u
      → NotAfter (next_time_from lib duration now run t (before ++ (m ∷ after))) u
  unfolding next_time_from
  next_time-earliest [] after m t u h =
      next_time-keeps after (earlier t (metric_reconcile_time lib duration now run m)) u
        (rw h (earlier-right t u))
  next_time-earliest (b ∷ bs) after m t u h =
      next_time-earliest bs after m (earlier t (metric_reconcile_time lib duration now run b)) u h

  -- The next reconciliation is not after the time that any of the metrics asks for.
  pub calculate_next_reconcile_time-earliest :
      (before after : List Metric) (m : Metric) (u : ℤ)
      → metric_reconcile_time lib duration now run m ≡ some u
      → NotAfter (calculate_next_reconcile_time lib duration now run (before ++ (m ∷ after))) u
  unfolding calculate_next_reconcile_time
  calculate_next_reconcile_time-earliest before after m u h =
      next_time-earliest before after m none u h
