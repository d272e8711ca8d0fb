-- ===== src/Api/Analysis.antt =====
-- pkg/apis/rollouts/v1alpha1/analysis_types.go. Times are integers; maps of provider metadata and
-- the provider's configuration are left out. A message that the controller composes is kept as its
-- parts instead of the formatted text.
use argo_rollouts.Common.{
  ℕ, String, Bool, true, false, List, Option, none, some, ◌≡◌, arith, eqb, if◌then◌else◌, ◌==◌,
}
use argo_rollouts.Common.Int.{ℤ, pos, eqb_ℤ}
use argo_rollouts.Api.IntStr.{IntOrString, int_val, IntStr}

-- `unset` is the empty string, the zero value of the type.
pub data AnalysisPhase : Type 0 where
  unset pending running successful failed error inconclusive : AnalysisPhase

pub Phase-discrete : Discrete AnalysisPhase
Phase-discrete = hlevel

abbrev pub phase_code : AnalysisPhase → ℕ
phase_code unset = 0
phase_code pending = 1
phase_code running = 2
phase_code successful = 3
phase_code failed = 4
phase_code error = 5
phase_code inconclusive = 6

-- `==` on phases.
abbrev pub same_phase : AnalysisPhase → AnalysisPhase → Bool
same_phase a b = eqb (phase_code a) (phase_code b)

pub same_phase→eq : (a b : AnalysisPhase) → same_phase a b ≡ true → a ≡ b
same_phase→eq a b h = ground arith

abbrev pub completed : AnalysisPhase → Bool
completed successful = true
completed failed = true
completed error = true
completed inconclusive = true
completed _ = false

-- Why a metric failed: the count that was passed, and its limit.
pub data Reason : Type 0 where
  failure_limit inconclusive_limit consecutive_error_limit : ℤ → ℤ → Reason

pub data Message : Type 0 where
  empty run_terminated : Message
  text : String → Message
  assessed : AnalysisPhase → Reason → Message
  metric_assessed : String → AnalysisPhase → Reason → Message → Message

pub record Metric : Type 0 where
  pub name : String
  pub interval : String
  pub initial_delay : String
  pub count : Option IntOrString
  pub failure_limit : Option IntOrString
  pub inconclusive_limit : Option IntOrString
  pub consecutive_error_limit : Option IntOrString
  pub consecutive_success_limit : Option IntOrString

pub record Measurement : Type 0 where
  pub phase : AnalysisPhase
  pub message : Message
  pub started_at : Option ℤ
  pub finished_at : Option ℤ
  pub value : String
  pub resume_at : Option ℤ

pub record MetricResult : Type 0 where
  pub name : String
  pub phase : AnalysisPhase
  pub measurements : List Measurement
  pub message : Message
  pub count : ℤ
  pub successful : ℤ
  pub failed : ℤ
  pub inconclusive : ℤ
  pub error : ℤ
  pub consecutive_error : ℤ
  pub dry_run : Bool
  pub consecutive_success : ℤ

pub record RunSummary : Type 0 where
  pub count : ℤ
  pub successful : ℤ
  pub failed : ℤ
  pub inconclusive : ℤ
  pub error : ℤ

pub record AnalysisRunStatus : Type 0 where
  pub phase : AnalysisPhase
  pub message : Message
  pub metric_results : List MetricResult
  pub started_at : Option ℤ
  pub run_summary : RunSummary
  pub dry_run_summary : Option RunSummary
  pub completed_at : Option ℤ

-- `metrics` and `terminate` are the spec's.
pub record AnalysisRun : Type 0 where
  pub metrics : List Metric
  pub terminate : Bool
  pub status : AnalysisRunStatus

module _ (lib : IntStr) where
  -- `EffectiveCount`: without a count a metric runs once, or forever if it has an interval.
  unfoldable pub effective_count : Metric → Option IntOrString
  effective_count m = elim m.count [
    | none ↦ if m.interval == "" then some (int_val (pos 1)) else none
    | some c ↦
        if eqb_ℤ (lib.int_value c) (pos 0)
        then (if m.interval == "" then some (int_val (pos 1)) else none)
        else some c
  ]
