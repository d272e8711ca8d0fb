-- ===== src/Experiment/Status.antt =====
-- utils/experiment/experiment.go: the status of an experiment, its templates and its analysis runs.
use argo_rollouts.Common.{
  ℕ, suc, String, Bool, true, false, not, ◌&&◌, ◌||◌, Option, none, some, List, [], ◌∷◌, ltb,
  if◌then◌else◌, ◌==◌,
}
use argo_rollouts.Common.Int.{ℤ, pos, ltb_ℤ, ◌+ℤ◌, ◌-ℤ◌}
use argo_rollouts.Api.Analysis.{
  AnalysisPhase, successful, failed, error, inconclusive, completed, same_phase,
}
use argo_rollouts.Api.Experiment.{
  Experiment, ExperimentStatus, ExperimentAnalysisTemplateRef, ExperimentAnalysisRunStatus,
  TemplateSpec, TemplateStatus, TemplateStatusCode, template_progressing, template_running,
  template_successful, template_failed, template_error, same_code, template_completed,
}
use argo_rollouts.Defaults.{get_replicas_or_default}

unfoldable pub find_template : List TemplateStatus → String → Option TemplateStatus
find_template [] name = none
find_template (ts ∷ tss) name = if ts.name == name then some ts else find_template tss name

abbrev pub get_template_status : ExperimentStatus → String → Option TemplateStatus
get_template_status status name = find_template status.template_statuses name

-- The first status of that name is replaced, or the status is added.
unfoldable pub put_template : List TemplateStatus → TemplateStatus → List TemplateStatus
put_template [] new = new ∷ []
put_template (ts ∷ tss) new =
    let rest = put_template tss new in if ts.name == new.name then new ∷ tss else ts ∷ rest

abbrev pub set_template_status : ExperimentStatus → TemplateStatus → ExperimentStatus
set_template_status status new = record status {
  template_statuses = put_template status.template_statuses new;
}

unfoldable pub find_run :
    List ExperimentAnalysisRunStatus → String → Option ExperimentAnalysisRunStatus
find_run [] name = none
find_run (r ∷ rs) name = if r.name == name then some r else find_run rs name

abbrev pub get_analysis_run_status : ExperimentStatus → String → Option ExperimentAnalysisRunStatus
get_analysis_run_status status name = find_run status.analysis_runs name

unfoldable pub put_run :
    List ExperimentAnalysisRunStatus
    → ExperimentAnalysisRunStatus
    → List ExperimentAnalysisRunStatus
put_run [] new = new ∷ []
put_run (r ∷ rs) new =
    let rest = put_run rs new in if r.name == new.name then new ∷ rs else r ∷ rest

abbrev pub set_analysis_run_status :
    ExperimentStatus → ExperimentAnalysisRunStatus → ExperimentStatus
set_analysis_run_status status new = record status {
  analysis_runs = put_run status.analysis_runs new;
}

abbrev pub has_finished : Experiment → Bool
has_finished ex = completed ex.status.phase

unfoldable pub any_required : List ExperimentAnalysisTemplateRef → Bool
any_required [] = false
any_required (a ∷ refs) = a.required_for_completion || any_required refs

unfoldable pub has_required_analysis_runs : Experiment → Bool
has_required_analysis_runs ex = any_required ex.spec.analyses

is_successful : Option ExperimentAnalysisRunStatus → Bool
is_successful none = false
is_successful (some r) = same_phase r.phase successful

unfoldable pub all_required_successful :
    ExperimentStatus → List ExperimentAnalysisTemplateRef → Bool
unfolding is_successful
all_required_successful status [] = true
all_required_successful status (a ∷ refs) =
    (not a.required_for_completion || is_successful (get_analysis_run_status status a.name))
    && all_required_successful status refs

-- At least one run is required, and all that are were successful.
unfoldable pub required_analysis_runs_successful : Experiment → ExperimentStatus → Bool
required_analysis_runs_successful ex status =
    any_required ex.spec.analyses && all_required_successful status ex.spec.analyses

abbrev is_bad_template : TemplateStatusCode → Bool
is_bad_template template_failed = true
is_bad_template template_error = true
is_bad_template _ = false

abbrev is_bad_run : AnalysisPhase → Bool
is_bad_run failed = true
is_bad_run error = true
is_bad_run inconclusive = true
is_bad_run _ = false

unfoldable pub any_bad_template : List TemplateStatus → Bool
any_bad_template [] = false
any_bad_template (ts ∷ tss) = is_bad_template ts.status || any_bad_template tss

unfoldable pub any_bad_run : List ExperimentAnalysisRunStatus → Bool
any_bad_run [] = false
any_bad_run (r ∷ rs) = is_bad_run r.phase || any_bad_run rs

unfoldable pub experiment_is_terminating : Experiment → Bool
experiment_is_terminating ex =
    ex.spec.terminate
    || has_finished ex
    || any_bad_template ex.status.template_statuses
    || any_bad_run ex.status.analysis_runs
    || required_analysis_runs_successful ex ex.status

-- Whether the duration is over, and the time that is left of it.
unfoldable pub passed_durations : ℤ → Experiment → Bool × ℤ
passed_durations now ex = elim ex.spec.duration [
  | none ↦ (false, pos 0)
  | some parsed ↦ elim ex.status.available_at [
    | none ↦ (false, pos 0)
    | some since ↦ elim parsed [
      | none ↦ (false, pos 0)
      | some d ↦ (ltb_ℤ (since +ℤ d) now, since +ℤ d -ℤ now)
    ]
  ]
]

is_completed : Option TemplateStatus → Bool
is_completed none = false
is_completed (some ts) = template_completed ts.status

unfoldable pub calculate_template_replicas_count : Experiment → TemplateSpec → ℤ
unfolding is_completed
calculate_template_replicas_count ex template =
    if has_finished ex || experiment_is_terminating ex
    then pos 0
    else if is_completed (get_template_status ex.status template.name)
    then pos 0
    else get_replicas_or_default template.replicas

-- From the best to the worst.
abbrev template_status_order : List TemplateStatusCode
template_status_order =
    template_successful ∷ template_running ∷ template_progressing ∷ template_error ∷ template_failed
    ∷ []

-- The index of the code in the order, and the loop's zero if it is not of the order.
code_index : ℕ → ℕ → TemplateStatusCode → List TemplateStatusCode → ℕ
code_index i found p [] = found
code_index i found p (q ∷ qs) = code_index (suc i) (if same_code p q then i else found) p qs

unfoldable pub template_is_worse : TemplateStatusCode → TemplateStatusCode → Bool
unfolding code_index
template_is_worse current new =
    ltb (code_index 0 0 current template_status_order) (code_index 0 0 new template_status_order)

unfoldable pub worst : TemplateStatusCode → TemplateStatusCode → TemplateStatusCode
worst left right = if template_is_worse left right then right else left
