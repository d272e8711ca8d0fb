-- ===== src/Rollout/Canary/Index.antt =====
-- The step index that `syncRolloutStatusCanary` stores.
use mathlib.Core.Path.{subst}
use argo_rollouts.Common.{
  ℕ, zero, suc, ◌≤◌, ◌<◌, ◌≡◌, ◌≢◌, ◌⊎◌, refl, ◌∙◌, inl, inr, Bool, true, false, not, ◌&&◌, ◌||◌,
  Option, none, some, List, [], ◌∷◌, ◌++◌, length, get_elem?, Bool-cases, Option-cases, arith,
  if◌then◌else◌, is_some,
}
use argo_rollouts.Common.Int.{ℤ}
use argo_rollouts.Float.{Float64}
use argo_rollouts.Api.IntStr.{IntStr}
use argo_rollouts.Api.Rollout.{Rollout, RolloutStatus, CanaryStep, TrafficWeights}
use argo_rollouts.ReplicaSet.Steps.{get_current_canary_step, steps_of, index_or_zero, step_at}
use argo_rollouts.Rollout.Pause.{
  PauseContext, is_aborted, calculate_pause_status, calculate_pause_conditions,
  calculate_abort_status, kept_conditions, added_conditions, is_empty,
}
use argo_rollouts.Rollout.Promote.{Context, should_full_promote}
use argo_rollouts.Rollout.Canary.{
  skip, skips_steps, index_to_go_on, completed_current_canary_step, sync_rollout_status_canary,
  update_canary_status, advance, incremented, has_steps,
}

conditions-index :
    (now : ℤ) (p : PauseContext) (new : RolloutStatus)
    → (calculate_pause_conditions now p new).current_step_index ≡ new.current_step_index
unfolding calculate_pause_conditions
conditions-index now p new =
    elim (Bool-cases (
      is_empty (
        kept_conditions p.remove_pause_reasons p.rollout.status.pause_conditions
        ++ added_conditions now p.rollout.status.pause_conditions p.add_pause_reasons))) [
          | inl e ↦ rw e refl
          | inr e ↦ rw e refl
        ]

abort_status-index :
    (now : ℤ) (p : PauseContext) (new : RolloutStatus)
    → (calculate_abort_status now p new).0.current_step_index ≡ new.current_step_index
unfolding calculate_abort_status
abort_status-index now p new =
    elim (Bool-cases (p.add_abort || (not p.remove_abort && p.rollout.status.abort))) [
      | inl e ↦ rw e refl
      | inr e ↦ rw e refl
    ]

pause_status-index :
    (now : ℤ) (p : PauseContext) (new : RolloutStatus)
    → (calculate_pause_status now p new).current_step_index ≡ new.current_step_index
unfolding calculate_pause_status
pause_status-index now p new =
    let (s, aborted) = calculate_abort_status now p new in
    elim (Bool-cases (aborted || p.clear_pause_conditions)) [
      | inl e ↦ rw e (abort_status-index now p new)
      | inr e ↦ rw e (conditions-index now p s ∙ abort_status-index now p new)
    ]

advance-index :
    (f : Float64) (lib : IntStr) (now : ℤ) (c : Context) (new : RolloutStatus) (index : Option ℕ)
    → (advance f lib now c new index).1.current_step_index ≡ (
        if completed_current_canary_step f lib now c new.weights
        then incremented f lib now index
        else index)
unfolding advance
advance-index f lib now c new index =
    elim (Bool-cases (completed_current_canary_step f lib now c new.weights)) [
      | inl e ↦ rw e refl
      | inr e ↦ rw e refl
    ]

abbrev next_index : Option ℕ → Option ℕ
next_index none = none
next_index (some i) = some (suc i)

abbrev pub Within : ℕ → Option ℕ → Type 0
Within n none = Unit {0}
Within n (some i) = i ≤ n

get_elem?-range : (ss : List CanaryStep) (i : ℕ) → is_some (get_elem? ss i) ≡ true → i < length ss
get_elem?-range [] i h = ground arith
get_elem?-range (s ∷ ss) zero h = omega arith
get_elem?-range (s ∷ ss) (suc i) h = omega (arith, get_elem?-range ss i h)

step_at-range :
    (ss : List CanaryStep) (i : ℕ)
    → is_some (step_at ss i).0 ≡ true
    → Within (length ss) (next_index (step_at ss i).1)
step_at-range [] i h = tt
step_at-range (s ∷ ss) i h = omega (arith, get_elem?-range (s ∷ ss) i h)

step_at-index : (ss : List CanaryStep) (i : ℕ) → ss ≢ [] → (step_at ss i).1 ≡ some i
step_at-index [] i h = absurd (h refl)
step_at-index (s ∷ ss) i h = refl

step_at-inside : (ss : List CanaryStep) (i : ℕ) → is_some (step_at ss i).0 ≡ true → i < length ss
step_at-inside [] i h = ground arith
step_at-inside (s ∷ ss) i h = get_elem?-range (s ∷ ss) i h

module _ (f : Float64) (lib : IntStr) (now : ℤ) (c : Context) (base : RolloutStatus) where
  abbrev with_stable : RolloutStatus
  with_stable = record base { stable_rs = c.rollout.status.stable_rs }

  sync_index :
      c.template_or_steps_changed ≡ false
      → should_full_promote f (skip f lib now c) with_stable ≡ none
      → is_aborted (skip f lib now c).pause_context ≡ false
      → (sync_rollout_status_canary f lib now c base).current_step_index ≡ (
          if completed_current_canary_step f lib now (skip f lib now c) base.weights
          then incremented f lib now (index_to_go_on f lib now c)
          else index_to_go_on f lib now c)
  unfolding sync_rollout_status_canary update_canary_status
  sync_index t p a =
      simp (t, p, a)
        (pause_status-index now _ _
          ∙ advance-index f lib now (skip f lib now c) with_stable (index_to_go_on f lib now c))

  skip-not_aborted :
      skips_steps f lib now c ≡ true → is_aborted (skip f lib now c).pause_context ≡ false
  unfolding skip is_aborted
  skip-not_aborted s = rw s refl

  -- If neither the pod template nor the steps changed, a full promotion is requested or a rollback is
  -- within the window, the rollout is not promoted yet, it has steps, and its current step is
  -- completed, then the stored index is one more than the number of steps.
  pub skipped_step-overshoots :
      c.template_or_steps_changed ≡ false
      → should_full_promote f (skip f lib now c) with_stable ≡ none
      → skips_steps f lib now c ≡ true
      → has_steps f lib now c ≡ true
      → completed_current_canary_step f lib now (skip f lib now c) base.weights ≡ true
      → (sync_rollout_status_canary f lib now c base).current_step_index
        ≡ some (suc (length (steps_of c.rollout)))
  unfolding index_to_go_on
  skipped_step-overshoots t p s h d = sync_index t p (skip-not_aborted s) ∙ rw (d, s, h) refl

  current_step-advances :
      (ro : Rollout)
      → Within (length (steps_of ro)) (get_current_canary_step ro).1
      → (done : Bool) → (done ≡ true → is_some (get_current_canary_step ro).0 ≡ true)
      → Within (length (steps_of ro)) (
          if done
          then incremented f lib now (get_current_canary_step ro).1
          else (get_current_canary_step ro).1)
  unfolding get_current_canary_step
  current_step-advances ro w false h = w
  current_step-advances ro w true h =
      step_at-range (steps_of ro) (index_or_zero ro.status.current_step_index) (h refl)

  skip-rollout : (skip f lib now c).rollout ≡ c.rollout
  unfolding skip
  skip-rollout = elim (Bool-cases (skips_steps f lib now c)) [
    | inl s ↦ rw s refl
    | inr s ↦ rw s refl
  ]

  completed-has_step :
      (x : Context) (weights : Option TrafficWeights)
      → completed_current_canary_step f lib now x weights ≡ true
      → is_some (get_current_canary_step x.rollout).0 ≡ true
  unfolding completed_current_canary_step
  completed-has_step x weights h = elim (Bool-cases x.rollout.spec.paused) [
    | inl e ↦ let h' = rw e at h in ground arith
    | inr e ↦ elim (Option-cases (get_current_canary_step x.rollout).0) [
      | inl n ↦ let h' = simp (completed_current_canary_step, e, n) at h in ground arith
      | inr s ↦ rw s.1 refl
    ]
  ]

  skip-has_step :
      (weights : Option TrafficWeights)
      → completed_current_canary_step f lib now (skip f lib now c) weights ≡ true
      → is_some (get_current_canary_step c.rollout).0 ≡ true
  skip-has_step weights d =
      subst (λ r. is_some (get_current_canary_step r).0 ≡ true) skip-rollout
        (completed-has_step (skip f lib now c) weights d)

  current_index :
      (i : ℕ)
      → steps_of c.rollout ≢ []
      → c.rollout.status.current_step_index ≡ some i
      → (get_current_canary_step c.rollout).1 ≡ some i
  unfolding get_current_canary_step
  current_index i some_steps at =
      simp (get_current_canary_step, at) (step_at-index (steps_of c.rollout) i some_steps)

  in_range :
      (i : ℕ)
      → c.rollout.status.current_step_index ≡ some i
      → is_some (get_current_canary_step c.rollout).0 ≡ true
      → i < length (steps_of c.rollout)
  unfolding get_current_canary_step
  in_range i at h =
      let h' = simp (get_current_canary_step, at) at h in step_at-inside (steps_of c.rollout) i h'

  -- If neither the pod template nor the steps changed, the rollout is neither promoted nor aborted, and
  -- it skips no steps, then an index of at most the number of steps stays so.
  pub step_index-Within :
      c.template_or_steps_changed ≡ false
      → should_full_promote f (skip f lib now c) with_stable ≡ none
      → is_aborted (skip f lib now c).pause_context ≡ false
      → skips_steps f lib now c ≡ false
      → Within (length (steps_of c.rollout)) (get_current_canary_step c.rollout).1
      → Within
          (length (steps_of c.rollout))
          (sync_rollout_status_canary f lib now c base).current_step_index
  unfolding index_to_go_on
  step_index-Within t p a s w =
      rw (sync_index t p a, s)
        (current_step-advances c.rollout w
          (completed_current_canary_step f lib now (skip f lib now c) base.weights)
          (λ d. skip-has_step base.weights d))

  -- If neither the pod template nor the steps changed, the rollout has steps, is neither promoted nor
  -- aborted, and skips no steps, then the index that the status has is stored with exactly one added if
  -- the current step is completed, which happens only below the number of steps, and as it is if not.
  pub step_index-advances :
      (i : ℕ)
      → c.template_or_steps_changed ≡ false
      → should_full_promote f (skip f lib now c) with_stable ≡ none
      → is_aborted (skip f lib now c).pause_context ≡ false
      → skips_steps f lib now c ≡ false
      → steps_of c.rollout ≢ []
      → c.rollout.status.current_step_index ≡ some i
      → let next = (sync_rollout_status_canary f lib now c base).current_step_index in
        let done = completed_current_canary_step f lib now (skip f lib now c) base.weights in
        ((done ≡ true) × (i < length (steps_of c.rollout)) × (next ≡ some (suc i)))
        ⊎ ((done ≡ false) × (next ≡ some i))
  unfolding index_to_go_on get_current_canary_step
  step_index-advances i t p a s some_steps at =
      let here = current_index i some_steps at in
      elim (Bool-cases (completed_current_canary_step f lib now (skip f lib now c) base.weights)) [
        | inl d ↦ inl (
          d,
          in_range i at (skip-has_step base.weights d),
          sync_index t p a ∙ rw (d, s, here) refl,
        )
        | inr d ↦ inr (d, sync_index t p a ∙ rw (d, s, here) refl)
      ]
