-- ===== src/Experiment/Templates.antt =====
-- `reconcileTemplate` of experiments/experiment.go and the scaling of experiments/replicaset.go. What
-- the API server answers is a parameter; a read of a ReplicaSet that fails is left out.
use argo_rollouts.Common.{
  String, Bool, not, ◌&&◌, Option, none, some, List, [], ◌∷◌, if◌then◌else◌, is_none,
}
use argo_rollouts.Common.Int.{ℤ, pos, ltb_ℤ, eqb_ℤ, ◌+ℤ◌, ◌*ℤ◌}
use argo_rollouts.Api.Rollout.{ReplicaSet}
use argo_rollouts.Api.Experiment.{
  Experiment, ExperimentStatus, TemplateSpec, TemplateStatus, template_unset, template_progressing,
  template_running, template_successful, template_failed, template_error, template_completed,
  no_message, not_created, not_scaled, service_failed, progress_deadline_exceeded,
}
use argo_rollouts.Defaults.{or_default, get_replicas_or_default, second}
use argo_rollouts.ReplicaSet.Counts.{
  get_actual_replica_count_for_replica_sets, get_ready_replica_count_for_replica_sets,
  get_available_replica_count_for_replica_sets,
}
use argo_rollouts.Rollout.Scale.{
  whole_seconds, has_scale_down_deadline, unreadable, over, time_left,
  get_time_remaining_before_scale_down_deadline,
}
use argo_rollouts.Experiment.Status.{
  get_template_status, set_template_status, experiment_is_terminating, passed_durations,
  calculate_template_replicas_count,
}
use argo_rollouts.Experiment.Phase.{get_experiment_progress_deadline}

-- What became of a template's Service.
pub data ServiceAnswer : Type 0 where
  service_kept service_deleted service_refused : ServiceAnswer
  service_created : String → String → ServiceAnswer

-- `conflict` is an update of an outdated copy, which is tried again later.
pub data UpdateAnswer : Type 0 where
  updated conflict refused : UpdateAnswer

pub record TemplateServer : Type 0 where
  -- The ReplicaSet, if there is one, and whether its creation failed.
  pub create_replica_set : TemplateSpec → Option ReplicaSet × Bool
  pub create_service : TemplateSpec → ReplicaSet → ServiceAnswer
  pub delete_service : TemplateSpec → ServiceAnswer
  -- Whether a patch that makes the ReplicaSet so is taken.
  pub accepts : ReplicaSet → Bool
  pub read : ReplicaSet → ReplicaSet
  pub update : ReplicaSet → UpdateAnswer

abbrev pub first_template_status : String → TemplateStatus
first_template_status name = record {
  name = name;
  replicas = pos 0;
  updated_replicas = pos 0;
  ready_replicas = pos 0;
  available_replicas = pos 0;
  status = template_unset;
  message = no_message;
  last_transition_time = none;
  service_name = "";
  pod_template_hash = "";
}

abbrev pub template_or_first : String → Option TemplateStatus → TemplateStatus
template_or_first name none = first_template_status name
template_or_first name (some ts) = ts

unfoldable pub after_service : ServiceAnswer → TemplateStatus → TemplateStatus
after_service service_kept ts = ts
after_service service_deleted ts = record ts { service_name = ""; pod_template_hash = "" }
after_service service_refused ts = record ts { status = template_error; message = service_failed }
after_service (service_created name hash) ts = record ts {
  service_name = name;
  pod_template_hash = hash;
}

unfoldable pub after_update : UpdateAnswer → TemplateStatus → TemplateStatus
after_update updated ts = ts
after_update conflict ts = ts
after_update refused ts = record ts { status = template_error; message = not_scaled }

-- The counts of the ReplicaSet, or zeros.
unfoldable pub with_counts : Option ReplicaSet → TemplateStatus → TemplateStatus
with_counts none ts = record ts {
  replicas = pos 0;
  updated_replicas = pos 0;
  ready_replicas = pos 0;
  available_replicas = pos 0;
}
with_counts (some rs) ts = record ts {
  replicas = get_actual_replica_count_for_replica_sets (some rs ∷ []);
  updated_replicas = get_actual_replica_count_for_replica_sets (some rs ∷ []);
  ready_replicas = get_ready_replica_count_for_replica_sets (some rs ∷ []);
  available_replicas = get_available_replica_count_for_replica_sets (some rs ∷ []);
}

same_counts : TemplateStatus → TemplateStatus → Bool
same_counts a b =
    eqb_ℤ a.replicas b.replicas
    && eqb_ℤ a.updated_replicas b.updated_replicas
    && eqb_ℤ a.ready_replicas b.ready_replicas
    && eqb_ℤ a.available_replicas b.available_replicas

unfoldable pub after_progress : ℤ → TemplateStatus → TemplateStatus → TemplateStatus
unfolding same_counts
after_progress now prev ts =
    if same_counts prev ts then ts else record ts { last_transition_time = some now }

-- The status of a template that is not completed.
unfoldable pub assessed_template : ℤ → Experiment → ℤ → TemplateStatus → TemplateStatus
assessed_template now ex desired ts =
    let from = or_default now ts.last_transition_time in
    if eqb_ℤ desired ts.available_replicas
    then (if (passed_durations now ex).0
        then record ts { status = template_successful }
        else if experiment_is_terminating ex
        then record ts { status = template_successful }
        else record ts { status = template_running })
    else if ltb_ℤ (from +ℤ get_experiment_progress_deadline ex) now
    then record ts { status = template_failed; message = progress_deadline_exceeded }
    else if experiment_is_terminating ex
    then record ts { status = template_successful }
    else record ts { status = template_progressing }

unfoldable pub assess_template : ℤ → Experiment → ℤ → TemplateStatus → TemplateStatus
assess_template now ex desired ts =
    if template_completed ts.status then ts else assessed_template now ex desired ts

module _ (server : TemplateServer) (now : ℤ) (ex : Experiment) where
  delay : ℤ
  delay = or_default (pos 30) ex.spec.scale_down_delay_seconds

  -- The ReplicaSet with a deadline, unless it has one; a delay of 0 takes it away.
  with_deadline : ReplicaSet → ReplicaSet
  unfolding delay
  with_deadline rs =
      if eqb_ℤ delay (pos 0)
      then record rs { scale_down_deadline = none }
      else if has_scale_down_deadline rs
      then rs
      else record rs { scale_down_deadline = some (some (whole_seconds (now +ℤ delay *ℤ second))) }

  unfoldable pub add_scale_down_delay_to_template_rs : ReplicaSet → ReplicaSet
  unfolding with_deadline
  add_scale_down_delay_to_template_rs rs =
      if server.accepts (with_deadline rs) then with_deadline rs else rs

  unfoldable pub update_to : ReplicaSet → ℤ → TemplateStatus → TemplateStatus
  unfolding after_update
  update_to rs n ts =
      if eqb_ℤ rs.replicas n
      then ts
      else after_update (server.update (record rs { replicas = n })) ts

  -- Until its deadline a ReplicaSet keeps the template's replicas.
  unfoldable pub scale_down_target : ReplicaSet → ℤ → ℤ
  scale_down_target rs replicas = elim (get_time_remaining_before_scale_down_deadline now rs) [
    | unreadable ↦ pos 0
    | over ↦ pos 0
    | time_left t ↦ replicas
  ]

  unfoldable pub scale_template_rs : ReplicaSet → TemplateSpec → ℤ → TemplateStatus → TemplateStatus
  unfolding update_to
  scale_template_rs rs template desired ts =
      if eqb_ℤ desired (pos 0)
      then update_to rs (scale_down_target rs (get_replicas_or_default template.replicas)) ts
      else update_to (server.read rs) desired ts

  unfoldable pub touch_service : ReplicaSet → TemplateSpec → ℤ → TemplateStatus → TemplateStatus
  unfolding after_service
  touch_service rs template desired ts =
      if not template.service
      then after_service (server.delete_service template) ts
      else if not (eqb_ℤ desired (pos 0))
      then after_service (server.create_service template rs) ts
      else if eqb_ℤ rs.available_replicas (pos 0)
      then after_service (server.delete_service template) ts
      else ts

  unfoldable pub touch_existing :
      ReplicaSet → TemplateSpec → ℤ → TemplateStatus → ReplicaSet × TemplateStatus
  unfolding touch_service
  touch_existing rs template desired ts =
      let served = touch_service rs template desired ts in
      let kept = if eqb_ℤ desired (pos 0) then add_scale_down_delay_to_template_rs rs else rs in
      if eqb_ℤ kept.replicas desired then (kept, served) else (
        kept,
        record (scale_template_rs kept template desired served) { last_transition_time = some now },
      )

  unfoldable pub after_template_creation :
      Option ReplicaSet × Bool → TemplateStatus → TemplateStatus
  after_template_creation (rs, failed) ts =
      let seen =
        if failed then record ts { status = template_error; message = not_created } else ts in
      if is_none rs then seen else record seen { last_transition_time = some now }

  -- The ReplicaSet that the template has, and its status once services and replicas are seen to.
  unfoldable pub touched :
      Option ReplicaSet → TemplateSpec → ℤ → TemplateStatus → Option ReplicaSet × TemplateStatus
  unfolding touch_existing after_template_creation
  touched none template desired ts =
      let created = server.create_replica_set template in
      (created.0, after_template_creation created ts)
  touched (some rs) template desired ts =
      let (kept, seen) = touch_existing rs template desired ts in (some kept, seen)

  unfoldable pub next_template_status :
      Option ReplicaSet → TemplateSpec → TemplateStatus → TemplateStatus
  next_template_status rs template prev =
      let desired = calculate_template_replicas_count ex template in
      let (seen_rs, seen) = touched rs template desired prev in
      assess_template now ex desired (after_progress now prev (with_counts seen_rs seen))

  unfoldable pub reconcile_template :
      Option ReplicaSet → TemplateSpec → ExperimentStatus → ExperimentStatus
  reconcile_template rs template new = set_template_status new (
      next_template_status rs template
        (template_or_first template.name (get_template_status ex.status template.name)))

  unfoldable pub reconcile_templates :
      (String → Option ReplicaSet) → List TemplateSpec → ExperimentStatus → ExperimentStatus
  reconcile_templates rss [] new = new
  reconcile_templates rss (t ∷ ts) new =
      reconcile_templates rss ts (reconcile_template (rss t.name) t new)
