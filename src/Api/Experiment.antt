-- ===== src/Api/Experiment.antt =====
-- pkg/apis/rollouts/v1alpha1/experiment_types.go. Pod templates, selectors, conditions and what only
-- the API server reads are left out; a duration is what its text parses to, in nanoseconds.
use argo_rollouts.Common.{ℕ, String, Bool, true, false, List, Option, eqb}
use argo_rollouts.Common.Int.{ℤ}
use argo_rollouts.Api.Analysis.{AnalysisPhase}

-- `template_unset` is the empty string, the zero value of the type.
pub data TemplateStatusCode : Type 0 where
  template_unset template_progressing template_running template_successful : TemplateStatusCode
  template_failed template_error : TemplateStatusCode

abbrev pub code_of : TemplateStatusCode → ℕ
code_of template_unset = 0
code_of template_progressing = 1
code_of template_running = 2
code_of template_successful = 3
code_of template_failed = 4
code_of template_error = 5

-- `==` on codes.
abbrev pub same_code : TemplateStatusCode → TemplateStatusCode → Bool
same_code a b = eqb (code_of a) (code_of b)

-- The method `Completed`.
abbrev pub template_completed : TemplateStatusCode → Bool
template_completed template_successful = true
template_completed template_failed = true
template_completed template_error = true
template_completed _ = false

-- `service` is whether the template asks for a Service.
pub record TemplateSpec : Type 0 where
  pub name : String
  pub replicas : Option ℤ
  pub service : Bool

pub record ExperimentAnalysisTemplateRef : Type 0 where
  pub name : String
  pub required_for_completion : Bool

-- `duration` is none if the text is empty, and none inside if it does not parse.
pub record ExperimentSpec : Type 0 where
  pub templates : List TemplateSpec
  pub duration : Option (Option ℤ)
  pub progress_deadline_seconds : Option ℤ
  pub terminate : Bool
  pub analyses : List ExperimentAnalysisTemplateRef
  pub scale_down_delay_seconds : Option ℤ

-- Why a template or an experiment is in its state, in place of the formatted text.
pub data ExperimentMessage : Type 0 where
  no_message required_analysis_completed progress_deadline_exceeded : ExperimentMessage
  not_created not_scaled service_failed : ExperimentMessage
  message_text : String → ExperimentMessage

pub record TemplateStatus : Type 0 where
  pub name : String
  pub replicas : ℤ
  pub updated_replicas : ℤ
  pub ready_replicas : ℤ
  pub available_replicas : ℤ
  pub status : TemplateStatusCode
  pub message : ExperimentMessage
  pub last_transition_time : Option ℤ
  pub service_name : String
  pub pod_template_hash : String

pub record ExperimentAnalysisRunStatus : Type 0 where
  pub name : String
  pub analysis_run : String
  pub phase : AnalysisPhase
  pub message : ExperimentMessage

pub record ExperimentStatus : Type 0 where
  pub phase : AnalysisPhase
  pub message : ExperimentMessage
  pub template_statuses : List TemplateStatus
  pub available_at : Option ℤ
  pub analysis_runs : List ExperimentAnalysisRunStatus

pub record Experiment : Type 0 where
  pub spec : ExperimentSpec
  pub status : ExperimentStatus
