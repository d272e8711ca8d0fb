-- ===== src/Analysis/Run/Loop.antt =====
-- What the loop of `assessRunStatus` does to its variables, metric by metric.
use argo_rollouts.Common.{
  ◌≡◌, refl, sym, ap, ◌∙◌, ◌≤◌, Bool, true, false, Option, none, some, List, [], ◌∷◌, ◌++◌, inl,
  inr, ◌⊎◌, String, ◌||◌, if◌then◌else◌, Bool-cases, Option-cases, arith,
}
use argo_rollouts.Api.IntStr.{IntStr}
use argo_rollouts.Api.Analysis.{
  AnalysisPhase, unset, successful, completed, same_phase, Metric, MetricResult, Reason, Message,
}
use argo_rollouts.Analysis.Phases.{is_worse, is_worse-badness, badness}
use argo_rollouts.Analysis.Results.{get_result}
use argo_rollouts.Analysis.Assess.{assess_metric_status}
use argo_rollouts.Analysis.Run.{
  Assessment, assess_metric, assess_metrics, see_status, see_dry_run, see_completed, see_result,
  count_metric,
}

-- No worst phase yet, or a completed one.
abbrev Sound : Assessment → Type 0
Sound a = (a.worst_status ≡ unset) ⊎ (completed a.worst_status ≡ true)

-- The worst status after a completed metric, alone.
abbrev next_worst : Bool → AnalysisPhase → AnalysisPhase → AnalysisPhase
next_worst true old new = if same_phase old unset then successful else old
next_worst false old new = if same_phase old unset || is_worse old new then new else old

next_worst-rises :
    (dry : Bool) (old new : AnalysisPhase)
    → (badness old ≤ badness (next_worst dry old new))
      × ((dry ≡ true) ⊎ (badness new ≤ badness (next_worst dry old new)))
next_worst-rises true old new = (ground arith, inl refl)
next_worst-rises false old new = rw (is_worse-badness old new) (ground arith)

next_worst-completed :
    (dry : Bool) (old new : AnalysisPhase)
    → completed new ≡ true
    → (old ≡ unset) ⊎ (completed old ≡ true)
    → completed (next_worst dry old new) ≡ true
next_worst-completed dry old new h g = ground arith

step_rises :
    (dry : Bool) (old p : AnalysisPhase) (all : Bool)
    → let new = if completed p then next_worst dry old p else old in
      (badness old ≤ badness new)
      × ((old ≡ unset) ⊎ (completed old ≡ true) → (new ≡ unset) ⊎ (completed new ≡ true))
      × ((if completed p then all else false) ≡ true → all ≡ true)
step_rises dry old p all = elim (Bool-cases (completed p)) [
  | inl c ↦
      rw c ((next_worst-rises dry old p).0, λ h. inr (next_worst-completed dry old p c h), λ h. h)
  | inr c ↦ rw c (omega arith, λ h. h, λ h. ground arith)
]

completed_of_step : (c all : Bool) → (if c then all else false) ≡ true → c ≡ true
completed_of_step c all h = ground arith

in_step :
    (dry : Bool) (old p out last : AnalysisPhase)
    → out ≡ (if completed p then next_worst dry old p else old)
    → badness out ≤ badness last
    → (dry ≡ true) ⊎ (completed p ≡ false) ⊎ (badness p ≤ badness last)
in_step dry old p out last e h = elim (Bool-cases (completed p)) [
  | inr c ↦ inr (inl c)
  | inl c ↦
      let e' = rw c at e in
      let h' = rw e' at h in
      elim (next_worst-rises dry old p).1 [ inl d ↦ inl d | inr k ↦ inr (inr (omega arith)) ]
]

see_status-fields :
    (name : String) (status : AnalysisPhase) (why : Option Reason) (m : Message) (a : Assessment)
    → ((see_status name status why m a).worst_status ≡ next_worst false a.worst_status status)
      × ((see_status name status why m a).everything_completed ≡ a.everything_completed)
unfolding see_status
see_status-fields name status why m a =
    elim (Bool-cases (same_phase a.worst_status unset || is_worse a.worst_status status)) [
      | inl e ↦ rw e (refl, refl)
      | inr e ↦ rw e (refl, refl)
    ]

module _ (lib : IntStr) (dry_run : String → Bool) (terminating : Bool) where
  see_completed-fields :
      (metric : Metric) (r : MetricResult) (status : AnalysisPhase) (a : Assessment)
      → let b = see_completed lib dry_run terminating metric r status a in
        (b.worst_status ≡ next_worst (dry_run metric.name) a.worst_status status)
        × (b.everything_completed ≡ a.everything_completed)
  unfolding see_completed see_dry_run
  see_completed-fields metric r status a = elim (Bool-cases (dry_run metric.name)) [
    | inl e ↦ rw e (refl, refl)
    | inr e ↦ rw e (see_status-fields metric.name status _ r.message a)
  ]

  count_metric-fields :
      (metric : Metric) (a : Assessment)
      → let b = count_metric lib dry_run terminating metric a in
        (b.worst_status ≡ a.worst_status)
        × (b.everything_completed ≡ a.everything_completed)
        × (b.results ≡ a.results)
  unfolding count_metric
  count_metric-fields metric a = elim (Bool-cases (dry_run metric.name)) [
    | inl e ↦ rw e (refl, refl, refl)
    | inr e ↦ rw e (refl, refl, refl)
  ]

  -- The loop's body on the two variables that decide the outcome.
  abbrev step_worst : Metric → Assessment → AnalysisPhase → AnalysisPhase
  step_worst metric a p =
      if completed p then next_worst (dry_run metric.name) a.worst_status p else a.worst_status

  see_result-fields :
      (metric : Metric) (r : MetricResult) (a : Assessment)
      → let b = see_result lib dry_run terminating metric r a in
        let p = assess_metric_status lib metric r terminating in
        (b.worst_status ≡ step_worst metric a p)
        × (b.everything_completed ≡ (if completed p then a.everything_completed else false))
  unfolding see_result
  see_result-fields metric r a =
      elim (Bool-cases (completed (assess_metric_status lib metric r terminating))) [
        | inl e ↦ rw e (see_completed-fields metric _ _ _)
        | inr e ↦ rw e (refl, refl)
      ]

  pub assess_metric-unread :
      (metric : Metric) (a : Assessment)
      → get_result a.results metric.name ≡ none
      → let b = assess_metric lib dry_run terminating metric a in
        (b.worst_status ≡ a.worst_status) × (b.everything_completed ≡ false)
  unfolding assess_metric
  assess_metric-unread metric a n =
      let (w, e, r) = count_metric-fields metric a in rw (assess_metric, r, n) (w, refl)

  assess_metric-read :
      (metric : Metric) (a : Assessment) (result : MetricResult)
      → get_result a.results metric.name ≡ some result
      → let b = assess_metric lib dry_run terminating metric a in
        let p = assess_metric_status lib metric result terminating in
        (b.worst_status ≡ step_worst metric a p)
        × (b.everything_completed ≡ (if completed p then a.everything_completed else false))
  unfolding assess_metric
  assess_metric-read metric a result n =
      let (w, e, r) = count_metric-fields metric a in
      let (w2, e2) =
        see_result-fields metric result (count_metric lib dry_run terminating metric a) in
      let p = assess_metric_status lib metric result terminating in
      rw (assess_metric, r, n)
        (
          w2 ∙ ap (λ x. if completed p then next_worst (dry_run metric.name) x p else x) w,
          e2 ∙ ap (λ x. if completed p then x else false) e,
        )

  -- One metric: the worst status does not get better, stays sound, and the flag does not come back.
  pub assess_metric-rises :
      (metric : Metric) (a : Assessment)
      → let b = assess_metric lib dry_run terminating metric a in
        (badness a.worst_status ≤ badness b.worst_status)
        × ((a.worst_status ≡ unset) ⊎ (completed a.worst_status ≡ true)
            → (b.worst_status ≡ unset) ⊎ (completed b.worst_status ≡ true))
        × (b.everything_completed ≡ true → a.everything_completed ≡ true)
  assess_metric-rises metric a = elim (Option-cases (get_result a.results metric.name)) [
    | inl n ↦
        let (w, e) = assess_metric-unread metric a n in
        rw (w, e) (omega arith, λ h. h, λ h. ground arith)
    | inr s ↦
        let (w, e) = assess_metric-read metric a s.0 s.1 in
        rw (w, e) (step_rises (dry_run metric.name) a.worst_status _ a.everything_completed)
  ]

  pub assess_metrics-rises :
      (metrics : List Metric) (a : Assessment)
      → let b = assess_metrics lib dry_run terminating metrics a in
        (badness a.worst_status ≤ badness b.worst_status)
        × ((a.worst_status ≡ unset) ⊎ (completed a.worst_status ≡ true)
            → (b.worst_status ≡ unset) ⊎ (completed b.worst_status ≡ true))
        × (b.everything_completed ≡ true → a.everything_completed ≡ true)
  unfolding assess_metrics
  assess_metrics-rises [] a = (omega arith, λ h. h, λ h. h)
  assess_metrics-rises (m ∷ ms) a =
      let (w, s, e) = assess_metrics-rises ms (assess_metric lib dry_run terminating m a) in
      let (w1, s1, e1) = assess_metric-rises m a in (omega arith, λ h. s (s1 h), λ h. e1 (e h))

  pub assess_metrics-append :
      (before after : List Metric) (a : Assessment)
      → assess_metrics lib dry_run terminating (before ++ after) a
        ≡ assess_metrics lib dry_run terminating after
            (assess_metrics lib dry_run terminating before a)
  unfolding assess_metrics
  assess_metrics-append [] after a = refl
  assess_metrics-append (m ∷ ms) after a =
      assess_metrics-append ms after (assess_metric lib dry_run terminating m a)

  -- A metric, once it was assessed: its phase counts in the worst status, and if the phase is not
  -- completed, or there is none, then not everything is completed.
  pub assessed-in_worst :
      (before after : List Metric) (metric : Metric) (result : MetricResult) (a : Assessment)
      → let seen = assess_metrics lib dry_run terminating before a in
        get_result seen.results metric.name ≡ some result
        → let p = assess_metric_status lib metric result terminating in
          let b = assess_metrics lib dry_run terminating (before ++ (metric ∷ after)) a in
          ((dry_run metric.name ≡ true)
            ⊎ (completed p ≡ false)
            ⊎ (badness p ≤ badness b.worst_status))
          × (b.everything_completed ≡ true → completed p ≡ true)
  unfolding assess_metrics
  assessed-in_worst before after metric result a h =
      let seen = assess_metrics lib dry_run terminating before a in
      let (w, e) = assess_metric-read metric seen result h in
      let (rise, s, all) =
        assess_metrics-rises after (assess_metric lib dry_run terminating metric seen) in
      let p = assess_metric_status lib metric result terminating in
      rw (assess_metrics-append before (metric ∷ after) a) (
        in_step (dry_run metric.name) seen.worst_status p _ _ w rise,
        λ f. completed_of_step (completed p) seen.everything_completed (sym e ∙ all f),
      )
