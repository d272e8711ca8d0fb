-- ===== src/Experiment/Present.antt =====
-- Every analysis run of an experiment has a status once the runs are reconciled.
use argo_rollouts.Common.{
  ◌≡◌, refl, ap, ◌∙◌, String, Bool, true, false, not, ◌&&◌, Option, none, some, List, [], ◌∷◌,
  arith, ◌⊎◌, inl, inr, Bool-cases, if◌then◌else◌, is_some, is_none, ◌==◌, eq_iff, eq_refl,
}
use argo_rollouts.Api.Analysis.{completed}
use argo_rollouts.Api.Experiment.{
  Experiment, ExperimentStatus, ExperimentAnalysisTemplateRef, ExperimentAnalysisRunStatus,
}
use argo_rollouts.Experiment.Status.{
  find_run, put_run, get_analysis_run_status, experiment_is_terminating,
}
use argo_rollouts.Experiment.Runs.{
  RunServer, reconcile_analysis_run, reconcile_analysis_runs, next_run_status, run_or_first,
  fail_if, after_creation, follow_run, RunCreation, run_created, run_refused, RunLookup, run_found,
  run_missing,
}

found :
    (b : Bool) (o : Option ExperimentAnalysisRunStatus) (x y : ExperimentAnalysisRunStatus)
    → (b ≡ true) ⊎ (is_some (if b then some x else o) ≡ true)
    → is_some (if b then some y else o) ≡ true
found b o x y h = ground arith

-- A status that was put under its name, or was there before, is found.
put_run-present :
    (rs : List ExperimentAnalysisRunStatus) (new : ExperimentAnalysisRunStatus) (name : String)
    → (new.name == name ≡ true) ⊎ (is_some (find_run rs name) ≡ true)
    → is_some (find_run (put_run rs new) name) ≡ true
unfolding find_run put_run
put_run-present [] new name h =
    found (new.name == name) none new new (elim h [ inl e ↦ inl e | inr e ↦ ground arith ])
put_run-present (r ∷ rs) new name h = elim (Bool-cases (r.name == new.name)) [
  | inl e ↦
      let same = (eq_iff r.name new.name).0 e in
      let h' = rw same at h in
      rw e (found (new.name == name) (find_run rs name) (record r { name = new.name }) new h')
  | inr n ↦ rw n (elim (Bool-cases (r.name == name)) [
    | inl e ↦ rw e refl
    | inr m ↦ let h' = rw m at h in rw m (put_run-present rs new name h')
  ])
]

run_or_first-name :
    (rs : List ExperimentAnalysisRunStatus) (name : String)
    → (run_or_first name (find_run rs name)).name ≡ name
unfolding find_run
run_or_first-name [] name = refl
run_or_first-name (r ∷ rs) name = elim (Bool-cases (r.name == name)) [
  | inl e ↦ rw e ((eq_iff r.name name).0 e)
  | inr n ↦ rw n (run_or_first-name rs name)
]

fail_if-name : (o : Option String) (r : ExperimentAnalysisRunStatus) → (fail_if o r).name ≡ r.name
unfolding fail_if
fail_if-name none r = refl
fail_if-name (some text) r = refl

after_creation-name :
    (a : RunCreation) (r : ExperimentAnalysisRunStatus) → (after_creation a r).name ≡ r.name
unfolding after_creation
after_creation-name (run_created _) r = refl
after_creation-name (run_refused _) r = refl

named :
    (a b c d : Bool) (prev x y z : ExperimentAnalysisRunStatus)
    → x.name ≡ prev.name
    → y.name ≡ prev.name
    → z.name ≡ prev.name
    → (if a then x else if b then (if c then prev else y) else if d then prev else z).name
      ≡ prev.name
named true b c d prev x y z hx hy hz = hx
named false true true d prev x y z hx hy hz = refl
named false true false d prev x y z hx hy hz = hy
named false false c true prev x y z hx hy hz = refl
named false false c false prev x y z hx hy hz = hz

module _ (server : RunServer) where
  follow_run-name :
      (terminating : Bool) (l : RunLookup) (r : ExperimentAnalysisRunStatus)
      → (follow_run server terminating l r).name ≡ r.name
  unfolding follow_run
  follow_run-name terminating (run_missing _) r = refl
  follow_run-name false (run_found phase said asked) r = refl
  follow_run-name true (run_found phase said asked) r =
      elim (Bool-cases (not (completed phase) && not asked)) [
        | inl e ↦ rw e (fail_if-name (server.terminate_run r.analysis_run) r)
        | inr e ↦ rw e refl
      ]

  next_run_status-name :
      (available terminating : Bool) (ref : ExperimentAnalysisTemplateRef)
      (prev : ExperimentAnalysisRunStatus)
      → (next_run_status server available terminating ref prev).name ≡ prev.name
  unfolding next_run_status
  next_run_status-name available terminating ref prev =
      named (not available) (prev.analysis_run == "") terminating (completed prev.phase) prev
        (fail_if (server.verify_template ref) prev) (after_creation (server.create_run ref) prev)
        (follow_run server terminating (server.get_run prev.analysis_run) prev)
        (fail_if-name (server.verify_template ref) prev)
        (after_creation-name (server.create_run ref) prev)
        (follow_run-name terminating (server.get_run prev.analysis_run) prev)

  -- Reconciling a run leaves it with a status, and takes none away.
  reconcile-present :
      (ex : Experiment) (ref : ExperimentAnalysisTemplateRef) (new : ExperimentStatus)
      (name : String)
      → (ref.name == name ≡ true) ⊎ (is_some (get_analysis_run_status new name) ≡ true)
      → is_some (get_analysis_run_status (reconcile_analysis_run server ex ref new) name) ≡ true
  unfolding reconcile_analysis_run
  reconcile-present ex ref new name h =
      let prev = run_or_first ref.name (get_analysis_run_status ex.status ref.name) in
      let next =
        next_run_status server (not (is_none ex.status.available_at)) (experiment_is_terminating ex)
          ref prev in
      let e : next.name ≡ ref.name =
        next_run_status-name _ _ ref prev ∙ run_or_first-name ex.status.analysis_runs ref.name in
      put_run-present new.analysis_runs next name
        (elim h [ inl k ↦ inl (ap (λ n. n == name) e ∙ k) | inr k ↦ inr k ])

  reconcile_analysis_runs-kept :
      (ex : Experiment) (refs : List ExperimentAnalysisTemplateRef) (new : ExperimentStatus)
      (name : String)
      → is_some (get_analysis_run_status new name) ≡ true
      → is_some (get_analysis_run_status (reconcile_analysis_runs server ex refs new) name) ≡ true
  unfolding reconcile_analysis_runs
  reconcile_analysis_runs-kept ex [] new name h = h
  reconcile_analysis_runs-kept ex (ref ∷ refs) new name h =
      reconcile_analysis_runs-kept ex refs _ name (reconcile-present ex ref new name (inr h))

  -- Every one of the references has a status.
  abbrev pub AllPresent : ExperimentStatus → List ExperimentAnalysisTemplateRef → Type 0
  AllPresent new [] = true ≡ true
  AllPresent new (ref ∷ refs) =
      (is_some (get_analysis_run_status new ref.name) ≡ true) × AllPresent new refs

  pub reconcile_analysis_runs-AllPresent :
      (ex : Experiment) (refs : List ExperimentAnalysisTemplateRef) (new : ExperimentStatus)
      → AllPresent (reconcile_analysis_runs server ex refs new) refs
  unfolding reconcile_analysis_runs
  reconcile_analysis_runs-AllPresent ex [] new = refl
  reconcile_analysis_runs-AllPresent ex (ref ∷ refs) new = (
    reconcile_analysis_runs-kept ex refs _ ref.name
        (reconcile-present ex ref new ref.name (inl (eq_refl ref.name))),
    reconcile_analysis_runs-AllPresent ex refs _,
  )
