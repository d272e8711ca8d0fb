-- ===== src/Experiment/Ends.antt =====
-- How an experiment ends, and that its status can always be calculated.
use argo_rollouts.Common.{
  ◌≡◌, refl, ◌∙◌, Bool, true, false, not, ◌&&◌, ◌||◌, Option, none, some, List, [], ◌∷◌, arith, ◌⊎◌,
  inl, inr, Option-cases, if◌then◌else◌, is_some,
}
use argo_rollouts.Common.Int.{ℤ}
use argo_rollouts.Api.Analysis.{AnalysisPhase, unset, successful, completed, same_phase}
use argo_rollouts.Api.Experiment.{
  Experiment, ExperimentStatus, ExperimentAnalysisTemplateRef, ExperimentMessage, no_message,
}
use argo_rollouts.Experiment.Status.{
  find_run, has_required_analysis_runs, required_analysis_runs_successful,
}
use argo_rollouts.Experiment.Runs.{RunServer, reconcile_analysis_runs}
use argo_rollouts.Experiment.Phase.{
  assess_templates, assess_analysis_runs, worst_run, deciding, decided, calculate_status, is_open,
}
use argo_rollouts.Experiment.Present.{AllPresent, reconcile_analysis_runs-AllPresent}

-- What the phase of the templates, that of the analyses and the required runs say of a success.
abbrev pub Succeeded : AnalysisPhase → AnalysisPhase → Bool → Bool → Type 0
Succeeded templates analyses required_done has_required =
    ((templates ≡ successful) ⊎ (required_done ≡ true))
    × ((analyses ≡ successful) ⊎ ((completed analyses ≡ false) × (has_required ≡ false)))

deciding_success :
    (templates analyses : AnalysisPhase × ExperimentMessage) (required_done has_required : Bool)
    → (required_done ≡ true → has_required ≡ true)
    → let r =
        if completed templates.0
        then (if same_phase templates.0 successful && (completed analyses.0 || has_required)
            then analyses
            else templates)
        else if completed analyses.0 && not (same_phase analyses.0 successful)
        then analyses
        else if required_done
        then analyses
        else templates in
      r.0 ≡ successful → Succeeded templates.0 analyses.0 required_done has_required
deciding_success (t, _) (a, _) required_done has_required h e = ground arith

pub left_of_and : (a b : Bool) → a && b ≡ true → a ≡ true
left_of_and a b h = ground arith

pub open-set : (p : AnalysisPhase) → is_open p ≡ true → same_phase p unset ≡ false
open-set p h = ground arith

-- The phase of a calculated status, and unset if the calculation fails.
abbrev pub phase_of_status : Option ExperimentStatus → AnalysisPhase
phase_of_status none = unset
phase_of_status (some s) = s.phase

pub decided-phase :
    (now : ℤ) (ex : Experiment) (new : ExperimentStatus)
    (analyses : AnalysisPhase × ExperimentMessage)
    → assess_analysis_runs ex new ≡ some analyses
    → (deciding ex new (assess_templates ex new) analyses).0 ≡ phase_of_status (decided now ex new)
unfolding decided
decided-phase now ex new analyses a = rw (phase_of_status, a) refl

-- When calculateStatus makes an experiment that is pending or running successful, its templates are
-- successful or all the required analyses are, and the analyses are assessed successful, or are not
-- completed and none of them is required.
pub experiment_success-guarded :
    (now : ℤ) (ex : Experiment) (new : ExperimentStatus)
    (analyses : AnalysisPhase × ExperimentMessage)
    → is_open new.phase ≡ true
    → assess_analysis_runs ex new ≡ some analyses
    → phase_of_status (calculate_status now ex new) ≡ successful
    → Succeeded
        (assess_templates ex new).0
        analyses.0
        (required_analysis_runs_successful ex new)
        (has_required_analysis_runs ex)
unfolding calculate_status deciding required_analysis_runs_successful has_required_analysis_runs
experiment_success-guarded now ex new analyses h a e =
    deciding_success (assess_templates ex new) analyses _ _ (λ r. left_of_and _ _ r)
      (decided-phase now ex new analyses a ∙ (simp (open-set new.phase h, h) at e))

calculated :
    (a b : Bool) (x y : ExperimentStatus) (o : Option ExperimentStatus)
    → is_some o ≡ true
    → is_some (if a then some x else if b then o else some y) ≡ true
calculated a b x y o h = ground arith

module _ (server : RunServer) where
  worst_run-found :
      (new : ExperimentStatus) (refs : List ExperimentAnalysisTemplateRef)
      (acc : AnalysisPhase × ExperimentMessage)
      → AllPresent server new refs
      → is_some (worst_run new refs acc) ≡ true
  unfolding worst_run
  worst_run-found new [] acc h = refl
  worst_run-found new (ref ∷ refs) acc (h, hs) =
      elim (Option-cases (find_run new.analysis_runs ref.name)) [
        | inl e ↦ let h' = rw e at h in ground arith
        | inr e ↦ rw (is_some, e.1) (worst_run-found new refs _ hs)
      ]

  decided-found :
      (now : ℤ) (ex : Experiment) (new : ExperimentStatus)
      → is_some (worst_run new ex.spec.analyses (successful, no_message)) ≡ true
      → is_some (decided now ex new) ≡ true
  unfolding decided assess_analysis_runs
  decided-found now ex new h =
      elim (Option-cases (worst_run new ex.spec.analyses (successful, no_message))) [
        | inl e ↦ let h' = rw e at h in ground arith
        | inr e ↦ rw (is_some, e.1) refl
      ]

  -- Once the analysis runs of an experiment are reconciled, none of them lacks a status: calculateStatus
  -- gives a status and does not dereference nil, whatever the API server answered.
  pub reconciled_status-calculated :
      (now : ℤ) (ex : Experiment) (new : ExperimentStatus)
      → is_some (calculate_status now ex (reconcile_analysis_runs server ex ex.spec.analyses new))
        ≡ true
  unfolding calculate_status
  reconciled_status-calculated now ex new =
      let after = reconcile_analysis_runs server ex ex.spec.analyses new in
      calculated (same_phase after.phase unset) (is_open after.phase) _ after (decided now ex after)
        (decided-found now ex after (
          worst_run-found after ex.spec.analyses _
            (reconcile_analysis_runs-AllPresent server ex ex.spec.analyses new)))
