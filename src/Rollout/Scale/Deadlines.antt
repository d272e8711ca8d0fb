-- ===== src/Rollout/Scale/Deadlines.antt =====
-- What a scale-down deadline that was written says when it is read.
use argo_rollouts.Common.{◌≡◌, refl, Bool, true, false, some, arith, inl, inr, Bool-cases}
use argo_rollouts.Common.Int.{ℤ, pos, negsuc, eqb_ℤ, ltb_ℤ-cases, ◌+ℤ◌, ◌-ℤ◌, ◌≤ℤ◌, ◌<ℤ◌, int_laws}
use argo_rollouts.Api.Rollout.{ReplicaSet}
use argo_rollouts.Rollout.Scale.{
  Remaining, unreadable, over, time_left, whole_seconds, time_until, add_scale_down_delay, write,
  has_scale_down_deadline, get_time_remaining_before_scale_down_deadline,
}

whole_seconds_bounds : (t : ℤ) → (whole_seconds t ≤ℤ t) × (t <ℤ whole_seconds t +ℤ pos 1000000000)
unfolding whole_seconds
whole_seconds_bounds (pos n) = omega int_laws
whole_seconds_bounds (negsuc n) = omega int_laws

-- A deadline that is read `later` after it was written, in nanoseconds.
abbrev pub ReadBack : ℤ → ℤ → Remaining → Type 0
ReadBack delay later (time_left t) = (t ≤ℤ delay -ℤ later) × (delay -ℤ later <ℤ t +ℤ pos 1000000000)
ReadBack delay later over = delay ≤ℤ later +ℤ pos 1000000000
ReadBack delay later unreadable = true ≡ false

time_until-ReadBack :
    (now delay later : ℤ)
    → ReadBack delay later (time_until (now +ℤ later) (whole_seconds (now +ℤ delay)))
unfolding time_until
time_until-ReadBack now delay later =
    let w = whole_seconds_bounds (now +ℤ delay) in
    elim (ltb_ℤ-cases (now +ℤ later) (whole_seconds (now +ℤ delay))) [
      | inl e ↦ rw e.0 (omega int_laws, omega int_laws)
      | inr e ↦ rw e.0 (omega int_laws)
    ]

-- Once `addScaleDownDelay` has written the deadline of a delay other than 0, the time that
-- `GetTimeRemainingBeforeScaleDownDeadline` reads some time later is what is left of the delay, less
-- under a second; it reads that the deadline is over only when less than a second of it is left.
pub add_scale_down_delay-ReadBack :
    (accepts : ReplicaSet → Bool) (now later delay : ℤ) (rs : ReplicaSet)
    → eqb_ℤ delay (pos 0) ≡ false
    → let w = add_scale_down_delay accepts now rs delay in
      w.failed ≡ false
      → (has_scale_down_deadline w.rs ≡ true)
        × ReadBack delay later (get_time_remaining_before_scale_down_deadline (now +ℤ later) w.rs)
unfolding add_scale_down_delay write has_scale_down_deadline
    get_time_remaining_before_scale_down_deadline
add_scale_down_delay-ReadBack accepts now later delay rs nonzero =
    let dated = record rs { scale_down_deadline = some (some (whole_seconds (now +ℤ delay))) } in
    elim (Bool-cases (accepts dated)) [
      | inl a ↦ rw (nonzero, a) (λ ok. (refl, time_until-ReadBack now delay later))
      | inr a ↦ rw (nonzero, a) (λ ok. ground arith)
    ]
