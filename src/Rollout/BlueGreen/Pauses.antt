-- ===== src/Rollout/BlueGreen/Pauses.antt =====
-- When a blue-green rollout is paused, and which ReplicaSet becomes its stable one.
use argo_rollouts.Common.{
  ◌≡◌, refl, sym, ◌∙◌, String, Bool, true, false, not, ◌&&◌, ◌||◌, Option, none, some, List, ◌++◌,
  ◌⊎◌, inl, inr, Bool-cases, if◌then◌else◌, is_some, ◌≢◌, ◌==◌, eq_iff,
}
use argo_rollouts.Common.Int.{ℤ, pos, ltb_ℤ}
use argo_rollouts.Float.{Float64}
use argo_rollouts.Api.IntStr.{IntStr}
use argo_rollouts.Api.Analysis.{AnalysisPhase}
use argo_rollouts.Api.Rollout.{
  RolloutStatus, ReplicaSet, BlueGreenStrategy, PauseReason, PauseCondition, blue_green_pause,
}
use argo_rollouts.ReplicaSet.NewReplicas.{ready_for_pause, get_replica_set_by_template_hash}
use argo_rollouts.Rollout.Pause.{
  PauseContext, get_pause_condition, add_pause_condition, remove_pause_condition,
  completed_blue_green_pause, calculate_pause_status, calculate_pause_conditions,
  calculate_abort_status, kept_conditions, added_conditions, is_empty,
}
use argo_rollouts.Rollout.Promote.{
  Context, PromoteReason, should_full_promote, promote_stable, reset_rollout_status,
}
use argo_rollouts.Rollout.Promote.Safety.{blue_green_promoted-guarded}
use argo_rollouts.Rollout.BlueGreen.{
  calculate_scale_up_preview_check_point, halt_progress, needs_blue_green_controller_pause,
  completed_pre_promotion_analysis, is_blue_green_fast_tracked, selects, own_pause,
  reconcile_blue_green_pause, with_counts_of, lifted, reset_if_changed, label_of,
  check_enqueue_rollout_during_wait, update_blue_green_status, sync_rollout_status_blue_green,
}

-- The ways through `reconcileBlueGreenPause` that leave the added reasons alone, and the last one.
gates :
    (a r h t s k n q : Bool) (x y o : PauseContext × Option ℤ) (old : List PauseReason)
    → x.0.add_pause_reasons ≡ old
    → y.0.add_pause_reasons ≡ old
    → (if a
        then x
        else if not r
        then x
        else if h
        then x
        else if t
        then y
        else if s
        then y
        else if k
        then y
        else if not n
        then y
        else if not q
        then x
        else o).0.add_pause_reasons
      ≢ old
    → (a ≡ false)
      × (r ≡ true)
      × (h ≡ false)
      × (t ≡ false)
      × (s ≡ false)
      × (n ≡ true)
      × (q ≡ true)
      × (o.0.add_pause_reasons ≢ old)
gates true r h t s k n q x y o old hx hy e = elim (e hx) [ ]
gates false false h t s k n q x y o old hx hy e = elim (e hx) [ ]
gates false true true t s k n q x y o old hx hy e = elim (e hx) [ ]
gates false true false true s k n q x y o old hx hy e = elim (e hy) [ ]
gates false true false false true k n q x y o old hx hy e = elim (e hy) [ ]
gates false true false false false true n q x y o old hx hy e = elim (e hy) [ ]
gates false true false false false false false q x y o old hx hy e = elim (e hy) [ ]
gates false true false false false false true false x y o old hx hy e = elim (e hx) [ ]
gates false true false false false false true true x y o old hx hy e =
    (refl, refl, refl, refl, refl, refl, refl, e)

-- The last of them adds a reason only if the controller has not paused before.
own_gates :
    (condition : Option PauseCondition) (over paused : Bool) (wait : PauseCondition → Option ℤ)
    (p resumed added : PauseContext)
    → resumed.add_pause_reasons ≡ p.add_pause_reasons
    → let r : PauseContext × Option ℤ = elim condition [
      | some k ↦ if not over then (p, wait k) else (resumed, none)
      | none ↦ if paused then (p, none) else (added, none)
    ] in
      r.0.add_pause_reasons ≢ p.add_pause_reasons → paused ≡ false
own_gates (some k) true paused wait p resumed added h e = elim (e h) [ ]
own_gates (some k) false paused wait p resumed added h e = elim (e refl) [ ]
own_gates none over true wait p resumed added h e = elim (e refl) [ ]
own_gates none over false wait p resumed added h e = refl

conditions-stable_rs :
    (now : ℤ) (p : PauseContext) (new : RolloutStatus)
    → (calculate_pause_conditions now p new).stable_rs ≡ new.stable_rs
unfolding calculate_pause_conditions
conditions-stable_rs now p new =
    elim (Bool-cases (
      is_empty (
        kept_conditions p.remove_pause_reasons p.rollout.status.pause_conditions
        ++ added_conditions now p.rollout.status.pause_conditions p.add_pause_reasons))) [
          | inl e ↦ rw e refl
          | inr e ↦ rw e refl
        ]

pause_status-stable_rs :
    (now : ℤ) (p : PauseContext) (new : RolloutStatus)
    → (calculate_pause_status now p new).stable_rs ≡ new.stable_rs
unfolding calculate_pause_status calculate_abort_status
pause_status-stable_rs now p new =
    let (s, aborted) = calculate_abort_status now p new in
    let kept : s.stable_rs ≡ new.stable_rs =
      elim (Bool-cases (p.add_abort || (not p.remove_abort && p.rollout.status.abort))) [
        | inl e ↦ rw e refl
        | inr e ↦ rw e refl
      ] in
    elim (Bool-cases (aborted || p.clear_pause_conditions)) [
      | inl e ↦ rw e kept
      | inr e ↦ rw e (conditions-stable_rs now p s ∙ kept)
    ]

-- The status after a promotion, or without one.
settled :
    (o : Option PromoteReason) (x y : PauseContext × RolloutStatus) (old hash : String)
    → y.1.stable_rs ≡ old
    → (is_some o ≡ true → x.1.stable_rs ≡ hash)
    → let r : PauseContext × RolloutStatus = elim o [ some _ ↦ x | none ↦ y ] in
      (r.1.stable_rs ≡ old) ⊎ (r.1.stable_rs ≡ hash)
settled none x y old hash hy hx = inl hy
settled (some _) x y old hash hy hx = inr (hx refl)

module _ (f : Float64) (lib : IntStr) (now resync : ℤ) (pre_promotion : Option AnalysisPhase)
    (b : BlueGreenStrategy) where
  own_pause-added :
      (c : Context)
      → (own_pause f lib now resync pre_promotion b c).0.add_pause_reasons
        ≢ c.pause_context.add_pause_reasons
      → c.rollout.status.controller_pause ≡ false
  unfolding own_pause
  own_pause-added c h =
      own_gates (get_pause_condition c.rollout blue_green_pause)
        (completed_blue_green_pause now c.pause_context b) c.rollout.status.controller_pause
        (λ k.
          if ltb_ℤ (pos 0) b.auto_promotion_seconds
          then check_enqueue_rollout_during_wait now resync k.start_time b.auto_promotion_seconds
          else none)
        c.pause_context (remove_pause_condition blue_green_pause c.pause_context)
        (add_pause_condition blue_green_pause c.pause_context) refl h

  -- The controller adds a pause to a blue-green rollout only if the rollout is neither aborted nor halted by
  -- its user or an inconclusive analysis, the new ReplicaSet has the pods that it should have, all available,
  -- the active service does not select it yet and the update is not fast-tracked, automatic promotion is off
  -- or delayed, the pre-promotion analysis is done, and the controller has not paused the rollout before.
  pub blue_green_pause-guarded :
      (c : Context) (active : Option String) (new : ReplicaSet)
      → (reconcile_blue_green_pause f lib now resync pre_promotion b c active
          new).0.add_pause_reasons
        ≢ c.pause_context.add_pause_reasons
      → (c.rollout.status.abort ≡ false)
        × (ready_for_pause f lib c.rollout new c.all_rss ≡ true)
        × (halt_progress c ≡ false)
        × (is_blue_green_fast_tracked c active new ≡ false)
        × (selects active new ≡ false)
        × (needs_blue_green_controller_pause b ≡ true)
        × (completed_pre_promotion_analysis b pre_promotion ≡ true)
        × (c.rollout.status.controller_pause ≡ false)
  unfolding reconcile_blue_green_pause
  blue_green_pause-guarded c active new h =
      let (a, r, k, t, s, n, q, o) =
        gates c.rollout.status.abort (ready_for_pause f lib c.rollout new c.all_rss)
          (halt_progress c) (is_blue_green_fast_tracked c active new) (selects active new)
          c.rollout.status.scale_up_preview_check_point (needs_blue_green_controller_pause b)
          (completed_pre_promotion_analysis b pre_promotion) (c.pause_context, none)
          (remove_pause_condition blue_green_pause c.pause_context, none)
          (own_pause f lib now resync pre_promotion b c) c.pause_context.add_pause_reasons refl refl
          h in
      (a, r, k, t, s, n, q, own_pause-added c o)

  counts-stable_rs :
      (c : Context) (o : Option ReplicaSet) (new : RolloutStatus)
      → (with_counts_of f lib now resync pre_promotion b c o new).stable_rs ≡ new.stable_rs
  unfolding with_counts_of
  counts-stable_rs c none new = refl
  counts-stable_rs c (some active) new = refl

  reset-stable_rs :
      (changed : Bool) (c : Context) (new : RolloutStatus)
      → let r = reset_if_changed f lib now resync pre_promotion b changed c new in
        (r.1.stable_rs ≡ new.stable_rs) × (r.1.current_pod_hash ≡ new.current_pod_hash)
  unfolding reset_if_changed reset_rollout_status
  reset-stable_rs true c new = (refl, refl)
  reset-stable_rs false c new = (refl, refl)

  update-stable_rs :
      (changed : Bool) (preview : Option String) (active : String) (c : Context)
      (base : RolloutStatus) (stable : ReplicaSet)
      → c.stable_rs ≡ some stable
      → c.rollout.spec.canary ≡ none
      → c.rollout.spec.blue_green ≡ some b
      → (active == "") ≡ false
      → let new =
          update_blue_green_status f lib now resync pre_promotion b changed preview
            (some active)
            c
            base in
        (new.1.stable_rs ≡ base.stable_rs) ⊎ (new.1.stable_rs ≡ active)
  unfolding update_blue_green_status promote_stable label_of
  update-stable_rs changed preview active c base stable s k g e =
      let (p, status) = reset_if_changed f lib now resync pre_promotion b changed c base in
      let d = record c { pause_context = lifted f lib now resync pre_promotion b c p } in
      let new = record status { preview_selector = label_of preview; active_selector = active } in
      settled (should_full_promote f d new) (promote_stable d new)
        (
          d.pause_context,
          record new {
            scale_up_preview_check_point =
                calculate_scale_up_preview_check_point f lib now resync pre_promotion b d;
          },
        )
        base.stable_rs active (reset-stable_rs changed c base).0
        (λ promoted.
          let (same, _, _) = blue_green_promoted-guarded f d new stable b s k g e promoted in
          sym ((eq_iff active new.current_pod_hash).0 same))

  -- When a blue-green rollout without a canary strategy has a stable ReplicaSet and its active service
  -- selects some hash, syncRolloutStatusBlueGreen keeps the stable hash, or makes the hash that the service
  -- selects the stable one.
  pub stable-follows_active :
      (changed : Bool) (preview : Option String) (active : String) (c : Context)
      (base : RolloutStatus) (stable : ReplicaSet)
      → c.stable_rs ≡ some stable
      → c.rollout.spec.canary ≡ none
      → c.rollout.spec.blue_green ≡ some b
      → (active == "") ≡ false
      → let final =
          sync_rollout_status_blue_green f lib now resync pre_promotion b changed preview
            (some active)
            c
            base in
        (final.stable_rs ≡ c.rollout.status.stable_rs) ⊎ (final.stable_rs ≡ active)
  unfolding sync_rollout_status_blue_green
  stable-follows_active changed preview active c base stable s k g e =
      let r =
        update_blue_green_status f lib now resync pre_promotion b changed preview (some active) c
          (record base { stable_rs = c.rollout.status.stable_rs }) in
      let found = get_replica_set_by_template_hash c.all_rss r.1.active_selector in
      let kept =
        pause_status-stable_rs now r.0 (with_counts_of f lib now resync pre_promotion b c found r.1)
        ∙ counts-stable_rs c found r.1 in
      elim (update-stable_rs changed preview active c
        (record base { stable_rs = c.rollout.status.stable_rs }) stable s k g e) [
          | inl h ↦ inl (kept ∙ h)
          | inr h ↦ inr (kept ∙ h)
        ]
