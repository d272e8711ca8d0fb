-- ===== src/Analysis/Run/Verdict.antt =====
-- The phase that `assessRunStatus` gives a run.
use argo_rollouts.Common.{
  ◌≡◌, refl, sym, ◌∙◌, ◌≤◌, Bool, true, false, none, some, List, ◌∷◌, ◌++◌, inl, inr, ◌⊎◌, String,
  not, ◌||◌, Bool-cases, arith,
}
use argo_rollouts.Common.Int.{ℤ}
use argo_rollouts.Api.IntStr.{IntStr}
use argo_rollouts.Api.Analysis.{
  unset, running, completed, same_phase, Metric, MetricResult, AnalysisRun,
}
use argo_rollouts.Analysis.Phases.{badness}
use argo_rollouts.Analysis.Results.{get_result, is_terminating}
use argo_rollouts.Analysis.Assess.{assess_metric_status}
use argo_rollouts.Analysis.Run.{
  Assessment, assess_metric, assess_metrics, overall, initial, assess_run_status,
}
use argo_rollouts.Analysis.Run.Loop.{
  assess_metrics-rises, assess_metrics-append, assess_metric-unread, assessed-in_worst,
}

overall-terminating :
    (a : Assessment)
    → (a.worst_status ≡ unset) ⊎ (completed a.worst_status ≡ true)
    → completed (overall true a).0 ≡ true
unfolding overall
overall-terminating a h = elim (Bool-cases (same_phase a.worst_status unset)) [
  | inl e ↦ rw e refl
  | inr e ↦ rw e (ground arith)
]

overall-unfinished :
    (terminating : Bool) (a : Assessment)
    → terminating ≡ false
    → a.everything_completed ≡ false
    → (overall terminating a).0 ≡ running
unfolding overall
overall-unfinished terminating a t e = rw (t, e) refl

false_of : (a b : Bool) → a ≡ false → (b ≡ true → a ≡ true) → b ≡ false
false_of a false h f = refl
false_of a true h f = sym (f refl) ∙ h

-- A completed phase is at least as bad as the worst status, and either the run is terminating or
-- every metric is completed.
overall-completed :
    (terminating : Bool) (a : Assessment)
    → completed (overall terminating a).0 ≡ true
    → (badness a.worst_status ≤ badness (overall terminating a).0)
      × ((terminating ≡ true) ⊎ (a.everything_completed ≡ true))
unfolding overall
overall-completed true a h = elim (Bool-cases (same_phase a.worst_status unset)) [
  | inl e ↦ rw e (ground arith)
  | inr e ↦ rw e (omega arith, inl refl)
]
overall-completed false a h =
    elim (Bool-cases (not a.everything_completed || same_phase a.worst_status unset)) [
      | inl e ↦ let h' = rw e at h in ground arith
      | inr e ↦ rw e (omega arith, inr (ground arith))
    ]

module _ (lib : IntStr) (dry_run : String → Bool) (now : ℤ) (run : AnalysisRun) where
  -- A terminating run is assessed a completed phase, whatever its metrics measured: it ends.
  pub terminating_run-completed :
      (metrics : List Metric)
      → is_terminating run ≡ true
      → completed (assess_run_status lib dry_run now run metrics).0.0 ≡ true
  unfolding assess_run_status
  terminating_run-completed metrics t = rw t (
      overall-terminating _
        ((assess_metrics-rises lib dry_run true metrics (initial run)).1 (inl refl)))

  -- When a run is assessed a completed phase, each metric with a result was assessed a completed phase
  -- or the run is terminating, and the run's phase is not better than the phase of a completed
  -- metric that is not in dry-run mode.
  pub completed_run-worst :
      (before after : List Metric) (metric : Metric) (result : MetricResult)
      → let terminating = is_terminating run in
        let seen = assess_metrics lib dry_run terminating before (initial run) in
        get_result seen.results metric.name ≡ some result
        → let phase = (assess_run_status lib dry_run now run (before ++ (metric ∷ after))).0.0 in
          let p = assess_metric_status lib metric result terminating in
          completed phase ≡ true
          → ((is_terminating run ≡ true) ⊎ (completed p ≡ true))
            × ((dry_run metric.name ≡ true) ⊎ (completed p ≡ false) ⊎ (badness p ≤ badness phase))
  unfolding assess_run_status
  completed_run-worst before after metric result h c =
      let (w, e) =
        assessed-in_worst lib dry_run (is_terminating run) before after metric result (initial run)
          h in
      let (o, d) = overall-completed (is_terminating run) _ c in
      (
        elim d [ inl t ↦ inl t | inr all ↦ inr (e all) ],
        elim w [
          | inl x ↦ inl x
          | inr (inl x) ↦ inr (inl x)
          | inr (inr x) ↦ inr (inr (omega arith))
        ],
      )

  -- If the run is not terminating and a metric has no result when its turn comes, the run is assessed
  -- Running.
  pub unmeasured-running :
      (before after : List Metric) (metric : Metric)
      → is_terminating run ≡ false
      → get_result
          (assess_metrics lib dry_run (is_terminating run) before (initial run)).results
          metric.name
        ≡ none
      → (assess_run_status lib dry_run now run (before ++ (metric ∷ after))).0.0 ≡ running
  unfolding assess_run_status assess_metrics
  unmeasured-running before after metric t h =
      let seen = assess_metrics lib dry_run (is_terminating run) before (initial run) in
      let next = assess_metric lib dry_run (is_terminating run) metric seen in
      let (w, e) = assess_metric-unread lib dry_run (is_terminating run) metric seen h in
      let (rise, s, all) = assess_metrics-rises lib dry_run (is_terminating run) after next in
      rw
        (assess_metrics-append lib dry_run (is_terminating run) before (metric ∷ after)
          (initial run))
        (overall-unfinished (is_terminating run)
          (assess_metrics lib dry_run (is_terminating run) (metric ∷ after) seen) t
          (false_of next.everything_completed
            (assess_metrics lib dry_run (is_terminating run) after next).everything_completed e
            all))
