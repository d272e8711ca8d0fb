-- ===== src/Experiment/Phase.antt =====
-- The phase of an experiment: `assessTemplates`, `assessAnalysisRuns`, `calculateStatus` and
-- `calculateEnqueueDuration` of experiments/experiment.go. The conditions are left out.
use argo_rollouts.Common.{
  Bool, true, false, not, ◌&&◌, ◌||◌, Option, none, some, List, [], ◌∷◌, if◌then◌else◌, is_none,
}
use argo_rollouts.Common.Int.{ℤ, pos, ltb_ℤ, eqb_ℤ, ◌+ℤ◌, ◌-ℤ◌, ◌*ℤ◌}
use argo_rollouts.Api.Analysis.{
  AnalysisPhase, unset, pending, running, successful, failed, error, completed, same_phase,
}
use argo_rollouts.Api.Experiment.{
  Experiment, ExperimentStatus, ExperimentAnalysisTemplateRef, ExperimentAnalysisRunStatus,
  ExperimentMessage, no_message, required_analysis_completed, TemplateSpec, TemplateStatus,
  TemplateStatusCode, template_progressing, template_running, template_successful, template_failed,
  template_error, same_code,
}
use argo_rollouts.Defaults.{second, or_default}
use argo_rollouts.Analysis.Phases.{is_worse}
use argo_rollouts.Experiment.Status.{
  get_template_status, get_analysis_run_status, has_required_analysis_runs,
  required_analysis_runs_successful, experiment_is_terminating, passed_durations,
  calculate_template_replicas_count, template_is_worse, worst,
}

-- A template that has no status yet counts as progressing.
worse_template :
    Option TemplateStatus
    → TemplateStatusCode × ExperimentMessage
    → TemplateStatusCode × ExperimentMessage
worse_template none (code, said) = (worst code template_progressing, said)
worse_template (some ts) (code, said) =
    if template_is_worse code ts.status then (ts.status, ts.message) else (code, said)

unfoldable pub worst_template :
    ExperimentStatus
    → List TemplateSpec
    → TemplateStatusCode × ExperimentMessage
    → TemplateStatusCode × ExperimentMessage
unfolding worse_template
worst_template new [] acc = acc
worst_template new (t ∷ ts) acc =
    worst_template new ts (worse_template (get_template_status new t.name) acc)

abbrev pub phase_of_template : TemplateStatusCode → AnalysisPhase
phase_of_template template_progressing = pending
phase_of_template template_failed = failed
phase_of_template template_error = error
phase_of_template template_successful = successful
phase_of_template _ = running

unfoldable pub assess_templates : Experiment → ExperimentStatus → AnalysisPhase × ExperimentMessage
assess_templates ex new =
    let (code, said) = worst_template new ex.spec.templates (template_successful, no_message) in
    (phase_of_template code, said)

-- None stands for the nil dereference of a run without a status.
worse_run :
    ExperimentAnalysisRunStatus
    → AnalysisPhase × ExperimentMessage
    → AnalysisPhase × ExperimentMessage
worse_run r (phase, said) = if is_worse phase r.phase then (r.phase, r.message) else (phase, said)

unfoldable pub worst_run :
    ExperimentStatus
    → List ExperimentAnalysisTemplateRef
    → AnalysisPhase × ExperimentMessage
    → Option (AnalysisPhase × ExperimentMessage)
unfolding worse_run
worst_run new [] acc = some acc
worst_run new (a ∷ refs) acc = elim (get_analysis_run_status new a.name) [
  | none ↦ none
  | some r ↦ worst_run new refs (worse_run r acc)
]

unfoldable pub overall_of_runs :
    Experiment
    → ExperimentStatus
    → AnalysisPhase × ExperimentMessage
    → AnalysisPhase × ExperimentMessage
overall_of_runs ex new (phase, said) =
    if required_analysis_runs_successful ex new && is_worse phase running
    then (successful, required_analysis_completed)
    else if same_phase phase pending
    then (running, said)
    else (phase, said)

unfoldable pub assess_analysis_runs :
    Experiment → ExperimentStatus → Option (AnalysisPhase × ExperimentMessage)
assess_analysis_runs ex new = elim (worst_run new ex.spec.analyses (successful, no_message)) [
  | none ↦ none
  | some w ↦ some (overall_of_runs ex new w)
]

abbrev with_phase : ExperimentStatus → AnalysisPhase × ExperimentMessage → ExperimentStatus
with_phase new p = record new { phase = p.0; message = p.1 }

-- Which of the two decides, the templates or the analyses.
unfoldable pub deciding :
    Experiment
    → ExperimentStatus
    → AnalysisPhase × ExperimentMessage
    → AnalysisPhase × ExperimentMessage
    → AnalysisPhase × ExperimentMessage
deciding ex new templates analyses =
    if completed templates.0
    then (if same_phase templates.0 successful
          && (completed analyses.0 || has_required_analysis_runs ex)
        then analyses
        else templates)
    else if completed analyses.0 && not (same_phase analyses.0 successful)
    then analyses
    else if required_analysis_runs_successful ex new
    then analyses
    else templates

abbrev pub is_open : AnalysisPhase → Bool
is_open pending = true
is_open running = true
is_open _ = false

mark_available : ℤ → AnalysisPhase → ExperimentStatus → ExperimentStatus
mark_available now templates new =
    if same_phase templates running && is_none new.available_at
    then record new { available_at = some now }
    else new

unfoldable pub decided : ℤ → Experiment → ExperimentStatus → Option ExperimentStatus
unfolding mark_available
decided now ex new =
    let templates = assess_templates ex new in
    elim (assess_analysis_runs ex new) [
      | none ↦ none
      | some analyses ↦
          some
            (with_phase (mark_available now templates.0 new) (deciding ex new templates analyses))
    ]

unfoldable pub calculate_status : ℤ → Experiment → ExperimentStatus → Option ExperimentStatus
calculate_status now ex new =
    if same_phase new.phase unset
    then some (record new { phase = pending })
    else if is_open new.phase
    then decided now ex new
    else some new

-- The sooner of a candidate and a time.
sooner : Option ℤ → ℤ → Option ℤ
sooner none d = some d
sooner (some c) d = if ltb_ℤ d c then some d else some c

-- `GetExperimentProgressDeadlineSecondsOrDefault`, as a duration.
unfoldable pub get_experiment_progress_deadline : Experiment → ℤ
get_experiment_progress_deadline ex =
    or_default (pos 600) ex.spec.progress_deadline_seconds *ℤ second

progress_candidate : ℤ → Experiment → TemplateSpec → Option TemplateStatus → Option ℤ → Option ℤ
unfolding sooner
progress_candidate now ex t none c = c
progress_candidate now ex t (some ts) c =
    if same_code ts.status template_progressing || same_code ts.status template_running
    then (if eqb_ℤ ts.available_replicas (calculate_template_replicas_count ex t)
        then c
        else elim ts.last_transition_time [
          | none ↦ c
          | some from ↦ sooner c (from +ℤ get_experiment_progress_deadline ex -ℤ now)
        ])
    else c

progress_candidates : ℤ → Experiment → List TemplateSpec → Option ℤ → Option ℤ
progress_candidates now ex [] c = c
progress_candidates now ex (t ∷ ts) c =
    progress_candidates now ex ts
      (progress_candidate now ex t (get_template_status ex.status t.name) c)

-- `ex` has its new status.
unfoldable pub calculate_enqueue_duration : ℤ → Experiment → Option ℤ
unfolding progress_candidates progress_candidate
calculate_enqueue_duration now ex =
    let (passed, left) = passed_durations now ex in
    let first : Option ℤ =
      if is_none ex.status.available_at || is_none ex.spec.duration || passed
      then none
      else some left in
    if experiment_is_terminating ex
    then none
    else progress_candidates now ex ex.spec.templates first
