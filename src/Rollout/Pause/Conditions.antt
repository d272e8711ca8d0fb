-- ===== src/Rollout/Pause/Conditions.antt =====
-- What the pause context makes of the pause conditions and the abort.
use argo_rollouts.Common.{
  ◌≡◌, refl, sym, ◌∙◌, Bool, true, false, not, ◌&&◌, ◌||◌, Option, none, some, List, [], ◌∷◌, ◌++◌,
  inl, inr, ◌⊎◌, Bool-cases, arith, if◌then◌else◌, is_some, is_none,
}
use argo_rollouts.Common.Int.{ℤ, ◌+ℤ◌, ◌<ℤ◌}
use argo_rollouts.Api.Rollout.{
  PauseReason, PauseCondition, RolloutPause, RolloutStatus, canary_pause_step,
}
use argo_rollouts.Rollout.Pause.{
  PauseContext, is_aborted, calculate_abort_status, calculate_pause_conditions,
  calculate_pause_status, kept_conditions, added_conditions, has_reason, find_condition,
  same_reason, is_empty, get_pause_condition, completed_canary_pause_step, past,
}

conditions-abort :
    (now : ℤ) (p : PauseContext) (new : RolloutStatus)
    → ((calculate_pause_conditions now p new).abort ≡ new.abort)
      × ((calculate_pause_conditions now p new).aborted_at ≡ new.aborted_at)
unfolding calculate_pause_conditions
conditions-abort now p new =
    elim (Bool-cases (
      is_empty (
        kept_conditions p.remove_pause_reasons p.rollout.status.pause_conditions
        ++ added_conditions now p.rollout.status.pause_conditions p.add_pause_reasons))) [
          | inl e ↦ rw e (refl, refl)
          | inr e ↦ rw e (refl, refl)
        ]

pause_status-abort :
    (now : ℤ) (p : PauseContext) (new : RolloutStatus)
    → let s = (calculate_abort_status now p new).0 in
      ((calculate_pause_status now p new).abort ≡ s.abort)
      × ((calculate_pause_status now p new).aborted_at ≡ s.aborted_at)
unfolding calculate_pause_status
pause_status-abort now p new =
    let (s, aborted) = calculate_abort_status now p new in
    elim (Bool-cases (aborted || p.clear_pause_conditions)) [
      | inl e ↦ rw e (refl, refl)
      | inr e ↦ rw e (conditions-abort now p s)
    ]

abort_tests :
    (added removed old : Bool)
    → (added && removed) ≡ false
    → (added || (not removed && old)) ≡ (if removed then false else added || old)
abort_tests added removed old h = ground arith

abort_status-fields :
    (now : ℤ) (p : PauseContext) (new : RolloutStatus)
    → (p.add_abort && p.remove_abort) ≡ false
    → let s = (calculate_abort_status now p new).0 in
      (s.abort ≡ is_aborted p) × (is_some s.aborted_at ≡ is_aborted p)
unfolding calculate_abort_status is_aborted
abort_status-fields now p new h =
    let g = abort_tests p.add_abort p.remove_abort p.rollout.status.abort h in
    elim (Bool-cases (p.add_abort || (not p.remove_abort && p.rollout.status.abort))) [
      | inl e ↦ rw e (sym e ∙ g, sym e ∙ g)
      | inr e ↦ rw e (sym e ∙ g, sym e ∙ g)
    ]

-- The new status is aborted exactly when the context says so, unless an abort was both added and
-- removed; and it has a time of the abort exactly when it is aborted.
pub abort_status-agrees :
    (now : ℤ) (p : PauseContext) (new : RolloutStatus)
    → (p.add_abort && p.remove_abort) ≡ false
    → ((calculate_pause_status now p new).abort ≡ is_aborted p)
      × (is_some (calculate_pause_status now p new).aborted_at ≡ is_aborted p)
abort_status-agrees now p new h =
    let (a, t) = pause_status-abort now p new in
    let (a2, t2) = abort_status-fields now p new h in rw (a, t) (a2, t2)

same_reason-eq : (a b : PauseReason) → same_reason a b ≡ true → a ≡ b
same_reason-eq a b h = ground arith

find-kept :
    (removed : List PauseReason) (cs : List PauseCondition) (r : PauseReason)
    → has_reason removed r ≡ false
    → find_condition (kept_conditions removed cs) r ≡ find_condition cs r
unfolding find_condition kept_conditions
find-kept removed [] r h = refl
find-kept removed (c ∷ cs) r h = elim (Bool-cases (same_reason c.reason r)) [
  | inl e ↦
      let k : has_reason removed c.reason ≡ false = rw (same_reason-eq c.reason r e) h in
      rw (k, e) refl
  | inr e ↦ elim (Bool-cases (has_reason removed c.reason)) [
    | inl k ↦ rw (k, e) (find-kept removed cs r h)
    | inr k ↦ rw (k, e) (find-kept removed cs r h)
  ]
]

find-append :
    (cs ds : List PauseCondition) (r : PauseReason) (c : PauseCondition)
    → find_condition cs r ≡ some c
    → find_condition (cs ++ ds) r ≡ some c
unfolding find_condition
find-append [] ds r c h = ground arith
find-append (x ∷ xs) ds r c h = elim (Bool-cases (same_reason x.reason r)) [
  | inl e ↦ let h' = rw e at h in rw e h'
  | inr e ↦ let h' = rw e at h in rw e (find-append xs ds r c h')
]

find-not_empty :
    (cs : List PauseCondition) (r : PauseReason) (c : PauseCondition)
    → find_condition cs r ≡ some c
    → is_empty cs ≡ false
unfolding find_condition
find-not_empty [] r c h = ground arith
find-not_empty (x ∷ xs) r c h = refl

stored_conditions :
    (now : ℤ) (p : PauseContext) (new : RolloutStatus) (r : PauseReason) (c : PauseCondition)
    → find_condition
        (kept_conditions p.remove_pause_reasons p.rollout.status.pause_conditions
          ++ added_conditions now p.rollout.status.pause_conditions p.add_pause_reasons)
        r
      ≡ some c
    → find_condition (calculate_pause_conditions now p new).pause_conditions r ≡ some c
unfolding calculate_pause_conditions
stored_conditions now p new r c h =
    rw
      (find-not_empty
        (kept_conditions p.remove_pause_reasons p.rollout.status.pause_conditions
          ++ added_conditions now p.rollout.status.pause_conditions p.add_pause_reasons)
        r c h)
      h

not_aborting :
    (added removed old : Bool) → (added || old) ≡ false → (added || (not removed && old)) ≡ false
not_aborting added removed old h = ground arith

step_over-tests :
    (paused : Bool) (o : Option PauseCondition) (d : Option ℤ) (now : ℤ)
    → ((paused && is_none o) || elim d [ none ↦ false | some x ↦ past now o x ]) ≡ true
    → ((paused ≡ true) × (o ≡ none))
      ⊎ ((c : PauseCondition) × (x : ℤ) × (o ≡ some c) × (d ≡ some x) × (c.start_time +ℤ x <ℤ now))
unfolding past
step_over-tests paused none none now h = inl (ground arith, refl)
step_over-tests paused none (some x) now h = inl (ground arith, refl)
step_over-tests paused (some c) none now h = ground arith
step_over-tests paused (some c) (some x) now h = inr (c, x, refl, refl, ground arith)

-- The condition of a pause reason that is not removed stays, with the time at which it started, if the
-- conditions are not cleared and the rollout was not and is not being aborted.
pub pause_start-kept :
    (now : ℤ) (p : PauseContext) (new : RolloutStatus) (r : PauseReason) (c : PauseCondition)
    → get_pause_condition p.rollout r ≡ some c
    → has_reason p.remove_pause_reasons r ≡ false
    → p.clear_pause_conditions ≡ false
    → (p.add_abort || p.rollout.status.abort) ≡ false
    → find_condition (calculate_pause_status now p new).pause_conditions r ≡ some c
unfolding calculate_pause_status calculate_abort_status
pause_start-kept now p new r c h k cl ab =
    let e = not_aborting p.add_abort p.remove_abort p.rollout.status.abort ab in
    simp (e, cl)
      (stored_conditions now p (record new { abort = false; aborted_at = none }) r c
        (find-append (kept_conditions p.remove_pause_reasons p.rollout.status.pause_conditions) _ r
          c (find-kept p.remove_pause_reasons p.rollout.status.pause_conditions r k ∙ h)))

-- A pause step only counts as completed if the controller had paused the rollout and the pause
-- condition was taken away, or if the step has a duration and more time than that is past since the
-- condition's start.
pub pause_step-over :
    (now : ℤ) (p : PauseContext) (pause : RolloutPause)
    → completed_canary_pause_step now p pause ≡ true
    → ((p.rollout.status.controller_pause ≡ true)
        × (get_pause_condition p.rollout canary_pause_step ≡ none))
      ⊎ ((c : PauseCondition) × (d : ℤ) × (get_pause_condition p.rollout canary_pause_step ≡ some c)
          × (pause.duration ≡ some d)
          × (c.start_time +ℤ d <ℤ now))
unfolding completed_canary_pause_step past
pause_step-over now p pause h = step_over-tests _ _ _ now h
