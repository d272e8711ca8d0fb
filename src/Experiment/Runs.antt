-- ===== src/Experiment/Runs.antt =====
-- `reconcileAnalysisRun` of experiments/experiment.go. What the API server answers is a parameter: the
-- check of an analysis template, the creation of a run, the look-up of one by its name and its
-- termination.
use argo_rollouts.Common.{
  String, Bool, true, false, not, ◌&&◌, Option, none, some, List, [], ◌∷◌, if◌then◌else◌, is_none,
  ◌==◌,
}
use argo_rollouts.Api.Analysis.{AnalysisPhase, unset, pending, error, completed}
use argo_rollouts.Api.Experiment.{
  Experiment, ExperimentStatus, ExperimentAnalysisTemplateRef, ExperimentAnalysisRunStatus,
  ExperimentMessage, no_message, message_text,
}
use argo_rollouts.Experiment.Status.{
  get_analysis_run_status, set_analysis_run_status, experiment_is_terminating,
}

pub data RunCreation : Type 0 where
  run_created run_refused : String → RunCreation

-- The run's phase and message, and whether its termination was asked for.
pub data RunLookup : Type 0 where
  run_found : AnalysisPhase → ExperimentMessage → Bool → RunLookup
  run_missing : String → RunLookup

pub record RunServer : Type 0 where
  -- None if the template verifies, or the error.
  pub verify_template : ExperimentAnalysisTemplateRef → Option String
  pub create_run : ExperimentAnalysisTemplateRef → RunCreation
  pub get_run : String → RunLookup
  -- None if the run could be asked to terminate, or the error.
  pub terminate_run : String → Option String

abbrev pub first_run_status : String → ExperimentAnalysisRunStatus
first_run_status name = record {
  name = name;
  analysis_run = "";
  phase = unset;
  message = no_message;
}

abbrev pub run_or_first : String → Option ExperimentAnalysisRunStatus → ExperimentAnalysisRunStatus
run_or_first name none = first_run_status name
run_or_first name (some r) = r

abbrev fail_with : String → ExperimentAnalysisRunStatus → ExperimentAnalysisRunStatus
fail_with text r = record r { phase = error; message = message_text text }

unfoldable pub fail_if : Option String → ExperimentAnalysisRunStatus → ExperimentAnalysisRunStatus
fail_if none r = r
fail_if (some text) r = fail_with text r

unfoldable pub after_creation :
    RunCreation → ExperimentAnalysisRunStatus → ExperimentAnalysisRunStatus
after_creation (run_created name) r = record r { phase = pending; analysis_run = name }
after_creation (run_refused text) r = fail_with text r

module _ (server : RunServer) where
  -- A run that was created and is not completed: it is ended, or its state is taken over.
  unfoldable pub follow_run :
      Bool → RunLookup → ExperimentAnalysisRunStatus → ExperimentAnalysisRunStatus
  unfolding fail_if
  follow_run terminating (run_missing text) r = fail_with text r
  follow_run false (run_found phase said asked) r = record r { phase = phase; message = said }
  follow_run true (run_found phase said asked) r =
      if not (completed phase) && not asked
      then fail_if (server.terminate_run r.analysis_run) r
      else r

  -- The next status of a run, from the one before.
  unfoldable pub next_run_status :
      Bool
      → Bool
      → ExperimentAnalysisTemplateRef
      → ExperimentAnalysisRunStatus
      → ExperimentAnalysisRunStatus
  unfolding fail_if after_creation follow_run
  next_run_status available terminating ref prev =
      if not available
      then fail_if (server.verify_template ref) prev
      else if prev.analysis_run == ""
      then (if terminating then prev else after_creation (server.create_run ref) prev)
      else if completed prev.phase
      then prev
      else follow_run terminating (server.get_run prev.analysis_run) prev

  unfoldable pub reconcile_analysis_run :
      Experiment → ExperimentAnalysisTemplateRef → ExperimentStatus → ExperimentStatus
  reconcile_analysis_run ex ref new = set_analysis_run_status new (
      next_run_status (not (is_none ex.status.available_at)) (experiment_is_terminating ex) ref
        (run_or_first ref.name (get_analysis_run_status ex.status ref.name)))

  unfoldable pub reconcile_analysis_runs :
      Experiment → List ExperimentAnalysisTemplateRef → ExperimentStatus → ExperimentStatus
  reconcile_analysis_runs ex [] new = new
  reconcile_analysis_runs ex (ref ∷ refs) new =
      reconcile_analysis_runs ex refs (reconcile_analysis_run ex ref new)
