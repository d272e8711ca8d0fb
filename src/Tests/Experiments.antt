-- ===== src/Tests/Experiments.antt =====
-- An experiment of one template and one analysis that it requires.
use argo_rollouts.Common.{◌≡◌, refl, inr, true, false, none, some, [], ◌∷◌, is_some}
use argo_rollouts.Common.Int.{pos}
use argo_rollouts.Api.Analysis.{AnalysisPhase, running, successful, failed}
use argo_rollouts.Api.Experiment.{
  Experiment, ExperimentStatus, ExperimentAnalysisTemplateRef, ExperimentAnalysisRunStatus,
  TemplateSpec, template_completed, template_running, template_successful, no_message,
  required_analysis_completed,
}
use argo_rollouts.Analysis.Phases.{is_worse}
use argo_rollouts.Experiment.Status.{
  required_analysis_runs_successful, all_required_successful, any_required,
  has_required_analysis_runs, experiment_is_terminating, calculate_template_replicas_count,
  find_run, find_template, template_is_worse, any_bad_run, any_bad_template,
}
use argo_rollouts.Experiment.Templates.{
  TemplateServer, service_refused, refused, first_template_status, next_template_status,
}
use argo_rollouts.Experiment.Runs.{
  RunServer, run_refused, run_found, run_missing, reconcile_analysis_runs, next_run_status,
}
use argo_rollouts.Experiment.Phase.{
  assess_templates, assess_analysis_runs, worst_run, worst_template, overall_of_runs,
  calculate_status, deciding, decided,
}
use argo_rollouts.Experiment.Ends.{
  Succeeded, phase_of_status, experiment_success-guarded, reconciled_status-calculated,
}
use argo_rollouts.Experiment.Stuck.{Frozen, terminating-Frozen, required_done-running}
use argo_rollouts.Experiment.Kept.{completed_template-Done, terminating-winds_down}
use argo_rollouts.Tests.Fixtures.{rs_of}

abbrev template : TemplateSpec
template = record { name = "baseline"; replicas = some (pos 2); service = true }

abbrev required : ExperimentAnalysisTemplateRef
required = record { name = "errors"; required_for_completion = true }

abbrev run_of_phase : AnalysisPhase → ExperimentAnalysisRunStatus
run_of_phase phase = record {
  name = "errors";
  analysis_run = "ex-errors";
  phase = phase;
  message = no_message;
}

abbrev status_of : AnalysisPhase → ExperimentStatus
status_of phase = record {
  phase = running;
  message = no_message;
  template_statuses = record (first_template_status "baseline") { status = template_running } ∷ [];
  available_at = some (pos 5);
  analysis_runs = run_of_phase phase ∷ [];
}

abbrev experiment : ExperimentStatus → Experiment
experiment status = record {
  spec = record {
    templates = template ∷ [];
    duration = none;
    progress_deadline_seconds = none;
    terminate = false;
    analyses = required ∷ [];
    scale_down_delay_seconds = none;
  };
  status = status;
}

-- Every answer is an error.
abbrev broken_runs : RunServer
broken_runs = record {
  verify_template = λ ref. some "no template";
  create_run = λ ref. run_refused "refused";
  get_run = λ name. run_missing "gone";
  terminate_run = λ name. some "conflict";
}

abbrev broken_templates : TemplateServer
broken_templates = record {
  create_replica_set = λ t. (none, true);
  create_service = λ t rs. service_refused;
  delete_service = λ t. service_refused;
  accepts = λ rs. false;
  read = λ rs. rs;
  update = λ rs. refused;
}

experiment_success-guarded_example :
    Succeeded running successful
      (required_analysis_runs_successful (experiment (status_of running)) (status_of successful))
      (has_required_analysis_runs (experiment (status_of running)))
unfolding assess_templates assess_analysis_runs worst_run worst_template overall_of_runs
    calculate_status decided deciding required_analysis_runs_successful all_required_successful
    any_required find_run find_template template_is_worse is_worse
experiment_success-guarded_example =
    experiment_success-guarded (pos 9) (experiment (status_of running)) (status_of successful)
      (successful, required_analysis_completed) refl refl refl

reconciled_status-calculated_example :
    is_some (
      calculate_status (pos 9) (experiment (status_of running)) (
        reconcile_analysis_runs broken_runs
          (experiment (status_of running))
          (required ∷ [])
          (record (status_of running) { analysis_runs = [] })))
    ≡ true
reconciled_status-calculated_example =
    reconciled_status-calculated broken_runs (pos 9) (experiment (status_of running))
      (record (status_of running) { analysis_runs = [] })

completed_template-Done_example :
    template_completed
      (next_template_status broken_templates
        (pos 9)
        (experiment (status_of running))
        (some (rs_of "baseline" (pos 2) (pos 1)))
        template
        (record (first_template_status "baseline") { status = template_successful })).status
    ≡ true
completed_template-Done_example =
    completed_template-Done broken_templates (pos 9) (experiment (status_of running))
      (some (rs_of "baseline" (pos 2) (pos 1))) template
      (record (first_template_status "baseline") { status = template_successful }) refl

terminating-winds_down_example :
    (calculate_template_replicas_count (experiment (status_of failed)) template ≡ pos 0)
    × ((next_run_status broken_runs true
          (experiment_is_terminating (experiment (status_of failed)))
          required
          (run_of_phase failed)).analysis_run
        ≡ "ex-errors")
unfolding experiment_is_terminating any_bad_run any_bad_template
terminating-winds_down_example =
    terminating-winds_down broken_runs (experiment (status_of failed)) template required true
      (run_of_phase failed) refl

abbrev still_running : ExperimentAnalysisRunStatus
still_running = record {
  name = "latency";
  analysis_run = "ex-latency";
  phase = running;
  message = no_message;
}

abbrev optional : ExperimentAnalysisTemplateRef
optional = record { name = "latency"; required_for_completion = false }

abbrev half_done : ExperimentStatus
half_done = record (status_of successful) {
  analysis_runs = run_of_phase successful ∷ still_running ∷ [];
}

abbrev two_analyses : Experiment
two_analyses = record (experiment half_done) {
  spec = record (experiment half_done).spec { analyses = required ∷ optional ∷ [] };
}

-- The run itself has ended well.
abbrev done_runs : RunServer
done_runs = record broken_runs { get_run = λ name. run_found successful no_message true }

terminating-Frozen_example :
    Frozen still_running (next_run_status done_runs true true optional still_running)
terminating-Frozen_example = terminating-Frozen done_runs optional still_running

required_done-running_example :
    phase_of_status (calculate_status (pos 9) two_analyses half_done) ≡ running
unfolding assess_templates worst_run worst_template required_analysis_runs_successful
    all_required_successful any_required find_run find_template template_is_worse is_worse
required_done-running_example =
    required_done-running (pos 9) two_analyses half_done no_message refl (inr refl) refl refl
