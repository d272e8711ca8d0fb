-- ===== src/Experiment/Kept.antt =====
-- What reconciling an experiment keeps: completed templates, and the runs and pods of one that is
-- terminating.
use argo_rollouts.Common.{
  ◌≡◌, refl, String, Bool, true, false, not, ◌&&◌, Option, none, some, inl, inr, Bool-cases,
  if◌then◌else◌, is_none, ◌==◌,
}
use argo_rollouts.Common.Int.{ℤ, pos, eqb_ℤ}
use argo_rollouts.Api.Rollout.{ReplicaSet}
use argo_rollouts.Api.Analysis.{completed}
use argo_rollouts.Api.Experiment.{
  Experiment, ExperimentAnalysisTemplateRef, ExperimentAnalysisRunStatus, TemplateSpec,
  TemplateStatus, template_completed,
}
use argo_rollouts.Defaults.{get_replicas_or_default}
use argo_rollouts.Experiment.Status.{experiment_is_terminating, calculate_template_replicas_count}
use argo_rollouts.Experiment.Templates.{
  TemplateServer, ServiceAnswer, UpdateAnswer, updated, conflict, refused, service_kept,
  service_deleted, service_refused, service_created, after_service, after_update,
  after_template_creation, touch_service, touch_existing, update_to, with_counts, after_progress,
  assess_template, touched, next_template_status, scale_template_rs, scale_down_target,
  add_scale_down_delay_to_template_rs,
}
use argo_rollouts.Experiment.Runs.{
  RunServer, RunLookup, run_found, run_missing, next_run_status, fail_if, follow_run,
}

abbrev pub Done : TemplateStatus → Type 0
Done ts = template_completed ts.status ≡ true

after_service-Done : (a : ServiceAnswer) (ts : TemplateStatus) → Done ts → Done (after_service a ts)
unfolding after_service
after_service-Done service_kept ts h = h
after_service-Done service_deleted ts h = h
after_service-Done service_refused ts h = refl
after_service-Done (service_created n m) ts h = h

after_update-Done : (a : UpdateAnswer) (ts : TemplateStatus) → Done ts → Done (after_update a ts)
unfolding after_update
after_update-Done updated ts h = h
after_update-Done conflict ts h = h
after_update-Done refused ts h = refl

if-Done : (b : Bool) (x y : TemplateStatus) → Done x → Done y → Done (if b then x else y)
if-Done true x y hx hy = hx
if-Done false x y hx hy = hy

with_counts-Done :
    (rs : Option ReplicaSet) (ts : TemplateStatus) → Done ts → Done (with_counts rs ts)
unfolding with_counts
with_counts-Done none ts h = h
with_counts-Done (some rs) ts h = h

after_progress-Done :
    (now : ℤ) (prev ts : TemplateStatus) → Done ts → Done (after_progress now prev ts)
unfolding after_progress
after_progress-Done now prev ts h = if-Done _ ts (record ts { last_transition_time = some now }) h h

module _ (server : TemplateServer) (now : ℤ) (ex : Experiment) where
  update_to-Done :
      (rs : ReplicaSet) (n : ℤ) (ts : TemplateStatus)
      → Done ts
      → Done (update_to server now ex rs n ts)
  unfolding update_to
  update_to-Done rs n ts h =
      if-Done _ ts (after_update (server.update (record rs { replicas = n })) ts) h
        (after_update-Done (server.update (record rs { replicas = n })) ts h)

  scale_template_rs-Done :
      (rs : ReplicaSet) (template : TemplateSpec) (desired : ℤ) (ts : TemplateStatus)
      → Done ts
      → Done (scale_template_rs server now ex rs template desired ts)
  unfolding scale_template_rs
  scale_template_rs-Done rs template desired ts h = elim (Bool-cases (eqb_ℤ desired (pos 0))) [
    | inl e ↦ rw e (
        update_to-Done rs
          (scale_down_target server now ex rs (get_replicas_or_default template.replicas)) ts h)
    | inr e ↦ rw e (update_to-Done (server.read rs) desired ts h)
  ]

  touch_service-Done :
      (rs : ReplicaSet) (template : TemplateSpec) (desired : ℤ) (ts : TemplateStatus)
      → Done ts
      → Done (touch_service server now ex rs template desired ts)
  unfolding touch_service
  touch_service-Done rs template desired ts h =
      let deleted = after_service-Done (server.delete_service template) ts h in
      let created = after_service-Done (server.create_service template rs) ts h in
      elim (Bool-cases template.service) [
        | inr e ↦ simp (e) deleted
        | inl e ↦ simp (e) (elim (Bool-cases (eqb_ℤ desired (pos 0))) [
          | inr d ↦ rw d created
          | inl d ↦ rw d (elim (Bool-cases (eqb_ℤ rs.available_replicas (pos 0))) [
            | inl z ↦ rw z deleted
            | inr z ↦ rw z h
          ])
        ])
      ]

  touched-Done :
      (rs : Option ReplicaSet) (template : TemplateSpec) (desired : ℤ) (ts : TemplateStatus)
      → Done ts
      → Done (touched server now ex rs template desired ts).1
  unfolding touched touch_existing after_template_creation
  touched-Done none template desired ts h =
      elim (Bool-cases (server.create_replica_set template).1) [
        | inl e ↦ elim (Bool-cases (is_none (server.create_replica_set template).0)) [
          | inl f ↦ rw (e, f) refl
          | inr f ↦ rw (e, f) refl
        ]
        | inr e ↦ elim (Bool-cases (is_none (server.create_replica_set template).0)) [
          | inl f ↦ rw (e, f) h
          | inr f ↦ rw (e, f) h
        ]
      ]
  touched-Done (some rs) template desired ts h =
      let served = touch_service server now ex rs template desired ts in
      let kept =
        if eqb_ℤ desired (pos 0)
        then add_scale_down_delay_to_template_rs server now ex rs
        else rs in
      let done = touch_service-Done rs template desired ts h in
      elim (Bool-cases (eqb_ℤ kept.replicas desired)) [
        | inl e ↦ rw e done
        | inr e ↦ rw e (scale_template_rs-Done kept template desired served done)
      ]

  -- Reconciling a template whose status is completed leaves it completed, whatever the API server
  -- answers and however many pods it has.
  pub completed_template-Done :
      (rs : Option ReplicaSet) (template : TemplateSpec) (prev : TemplateStatus)
      → Done prev
      → Done (next_template_status server now ex rs template prev)
  unfolding next_template_status assess_template
  completed_template-Done rs template prev h =
      let desired = calculate_template_replicas_count ex template in
      let (seen_rs, seen) = touched server now ex rs template desired prev in
      let counted = with_counts-Done seen_rs seen (touched-Done rs template desired prev h) in
      let done = after_progress-Done now prev (with_counts seen_rs seen) counted in rw done done

fail_if-run :
    (o : Option String) (r : ExperimentAnalysisRunStatus)
    → (fail_if o r).analysis_run ≡ r.analysis_run
unfolding fail_if
fail_if-run none r = refl
fail_if-run (some text) r = refl

module _ (server : RunServer) where
  follow_run-run :
      (terminating : Bool) (l : RunLookup) (r : ExperimentAnalysisRunStatus)
      → (follow_run server terminating l r).analysis_run ≡ r.analysis_run
  unfolding follow_run
  follow_run-run terminating (run_missing _) r = refl
  follow_run-run false (run_found phase said asked) r = refl
  follow_run-run true (run_found phase said asked) r =
      elim (Bool-cases (not (completed phase) && not asked)) [
        | inl e ↦ rw e (fail_if-run (server.terminate_run r.analysis_run) r)
        | inr e ↦ rw e refl
      ]

  terminating_run_kept :
      (available : Bool) (ref : ExperimentAnalysisTemplateRef) (prev : ExperimentAnalysisRunStatus)
      → (next_run_status server available true ref prev).analysis_run ≡ prev.analysis_run
  unfolding next_run_status
  terminating_run_kept available ref prev = elim (Bool-cases available) [
    | inr a ↦ rw a (fail_if-run (server.verify_template ref) prev)
    | inl a ↦ rw a (elim (Bool-cases (prev.analysis_run == "")) [
      | inl e ↦ rw e refl
      | inr e ↦ rw e (elim (Bool-cases (completed prev.phase)) [
        | inl d ↦ rw d refl
        | inr d ↦ rw d (follow_run-run true (server.get_run prev.analysis_run) prev)
      ])
    ])
  ]

  -- A terminating experiment wants no pods of any template, and starts no analysis run: the run that a
  -- reference has stays the one it had, or none.
  pub terminating-winds_down :
      (ex : Experiment) (template : TemplateSpec) (ref : ExperimentAnalysisTemplateRef)
      (available : Bool) (prev : ExperimentAnalysisRunStatus)
      → experiment_is_terminating ex ≡ true
      → (calculate_template_replicas_count ex template ≡ pos 0)
        × ((next_run_status server available (experiment_is_terminating ex) ref prev).analysis_run
            ≡ prev.analysis_run)
  unfolding calculate_template_replicas_count
  terminating-winds_down ex template ref available prev t =
      let pods : calculate_template_replicas_count ex template ≡ pos 0 =
        elim (Bool-cases (completed ex.status.phase)) [
          | inl f ↦ simp (f) refl
          | inr f ↦ simp (f, t) refl
        ] in
      (pods, rw t (terminating_run_kept available ref prev))
