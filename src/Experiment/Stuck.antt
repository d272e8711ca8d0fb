-- ===== src/Experiment/Stuck.antt =====
-- An experiment whose required analyses are done while another one still runs.
use argo_rollouts.Common.{
  ◌≡◌, refl, sym, ap, ◌∙◌, String, Bool, true, false, not, ◌&&◌, ◌||◌, Option, none, some, ◌⊎◌, inl,
  inr, Bool-cases, if◌then◌else◌, ◌==◌, arith,
}
use argo_rollouts.Common.Int.{ℤ}
use argo_rollouts.Analysis.Phases.{is_worse}
use argo_rollouts.Api.Analysis.{AnalysisPhase, running, successful, error, completed, same_phase}
use argo_rollouts.Api.Experiment.{
  Experiment, ExperimentStatus, ExperimentAnalysisTemplateRef, ExperimentAnalysisRunStatus,
  ExperimentMessage, no_message,
}
use argo_rollouts.Experiment.Status.{has_required_analysis_runs, required_analysis_runs_successful}
use argo_rollouts.Experiment.Runs.{
  RunServer, next_run_status, fail_if, follow_run, RunLookup, run_found, run_missing,
}
use argo_rollouts.Experiment.Phase.{
  assess_templates, assess_analysis_runs, overall_of_runs, worst_run, deciding, calculate_status,
  is_open,
}
use argo_rollouts.Experiment.Ends.{left_of_and, open-set, phase_of_status, decided-phase}

-- The phase is the one before, or Error.
abbrev pub Frozen : ExperimentAnalysisRunStatus → ExperimentAnalysisRunStatus → Type 0
Frozen prev next = (next.phase ≡ prev.phase) ⊎ (next.phase ≡ error)

fail_if-Frozen : (o : Option String) (r : ExperimentAnalysisRunStatus) → Frozen r (fail_if o r)
unfolding fail_if
fail_if-Frozen none r = inl refl
fail_if-Frozen (some text) r = inr refl

if-Frozen :
    (b : Bool) (prev x y : ExperimentAnalysisRunStatus)
    → Frozen prev x
    → Frozen prev y
    → Frozen prev (if b then x else y)
if-Frozen true prev x y hx hy = hx
if-Frozen false prev x y hx hy = hy

follow_run-Frozen :
    (server : RunServer) (l : RunLookup) (r : ExperimentAnalysisRunStatus)
    → Frozen r (follow_run server true l r)
unfolding follow_run
follow_run-Frozen server (run_missing text) r = inr refl
follow_run-Frozen server (run_found phase said asked) r =
    if-Frozen _ r (fail_if (server.terminate_run r.analysis_run) r) r
      (fail_if-Frozen (server.terminate_run r.analysis_run) r) (inl refl)

-- While an experiment that has become available is terminating, the phase that it records of an
-- analysis run stays as it is or becomes Error, whatever phase the run itself has.
pub terminating-Frozen :
    (server : RunServer) (ref : ExperimentAnalysisTemplateRef) (prev : ExperimentAnalysisRunStatus)
    → Frozen prev (next_run_status server true true ref prev)
unfolding next_run_status
terminating-Frozen server ref prev =
    if-Frozen (prev.analysis_run == "") prev prev
      (if completed prev.phase
        then prev
        else follow_run server true (server.get_run prev.analysis_run) prev)
      (inl refl)
      (if-Frozen (completed prev.phase) prev prev
        (follow_run server true (server.get_run prev.analysis_run) prev) (inl refl)
        (follow_run-Frozen server (server.get_run prev.analysis_run) prev))

running_decides :
    (t : AnalysisPhase × ExperimentMessage) (said : ExperimentMessage) (has_required : Bool)
    → (t.0 ≡ successful) ⊎ (completed t.0 ≡ false)
    → has_required ≡ true
    → (if completed t.0
        then (if same_phase t.0 successful && (completed running || has_required)
            then (running, said)
            else t)
        else if completed running && not (same_phase running successful)
        then (running, said)
        else (running, said)).0
      ≡ running
running_decides (t, _) said has_required h r = ground arith

overall-running :
    (ex : Experiment) (new : ExperimentStatus) (said : ExperimentMessage)
    → overall_of_runs ex new (running, said) ≡ (running, said)
unfolding overall_of_runs is_worse
overall-running ex new said = elim (Bool-cases (required_analysis_runs_successful ex new)) [
  | inl e ↦ rw e refl
  | inr e ↦ rw e refl
]

required-some :
    (ex : Experiment) (new : ExperimentStatus)
    → required_analysis_runs_successful ex new ≡ true
    → has_required_analysis_runs ex ≡ true
unfolding required_analysis_runs_successful has_required_analysis_runs
required-some ex new h = left_of_and _ _ h

-- For an experiment that is pending or running, whose templates have not failed and whose required
-- analyses are all successful while the worst of its analyses is Running, calculateStatus gives the
-- phase Running.
pub required_done-running :
    (now : ℤ) (ex : Experiment) (new : ExperimentStatus) (said : ExperimentMessage)
    → is_open new.phase ≡ true
    → ((assess_templates ex new).0 ≡ successful) ⊎ (completed (assess_templates ex new).0 ≡ false)
    → required_analysis_runs_successful ex new ≡ true
    → worst_run new ex.spec.analyses (successful, no_message) ≡ some (running, said)
    → phase_of_status (calculate_status now ex new) ≡ running
unfolding calculate_status deciding assess_analysis_runs
required_done-running now ex new said is_live templates done w =
    let assessed : assess_analysis_runs ex new ≡ some (running, said) =
      rw (assess_analysis_runs, w) (ap some (overall-running ex new said)) in
    let by = decided-phase now ex new (running, said) assessed in
    let r =
      running_decides (assess_templates ex new) said _ templates (required-some ex new done) in
    rw (open-set new.phase is_live, is_live) (sym by ∙ (rw done r))
