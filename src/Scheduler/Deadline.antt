-- ===== src/Scheduler/Deadline.antt =====
-- When src/scheduler.c waits, it still paints in time.
use hayward.Common.{
  ◌⊎◌, ==_iff, ℕ, ◌+◌, ◌-◌, ◌*◌, ◌≤◌, ◌<◌, ◌≡◌, refl, sym, ◌∙◌, ap, List, some, some-injective,
  true, false, leb, ◌==◌, ltb, ℤ, pos, negsuc, arith, inl, inr, Bool-cases,
}
use hayward.Scheduler.{
  Timespec, SchedulerOutput, nsec_in_seconds, difference, predicted_refresh, msec_until_refresh,
  delay_of, Scheduled, now, in_msec, schedule, SceneBuffer, Frame, handle_output_frame,
}

abbrev pub nsec_of : Timespec → ℕ
nsec_of t = t.tv_sec * nsec_in_seconds + t.tv_nsec

predicted_refresh_lem :
    (s : SchedulerOutput)
    → nsec_of (predicted_refresh s) ≡ nsec_of s.last_presentation + s.refresh_nsec
unfolding predicted_refresh
predicted_refresh_lem s = ground arith

now-in_msec : (d : ℕ) → ¬ (now ≡ in_msec d)
now-in_msec d h = ground (arith, h)

in_msec-injective : (a b : ℕ) → in_msec a ≡ in_msec b → a ≡ b
in_msec-injective a b h = ground (arith, h)

in_msec_of :
    (a max : ℕ)
    → leb max a ≡ true
    → ltb (a - max) 1 ≡ false
    → schedule (delay_of (pos a) max) ≡ in_msec (a - max)
unfolding schedule delay_of difference
in_msec_of a max t u = rw (t, u) refl

-- A positive delay is what is left of the milliseconds.
schedule-in :
    (msec : ℤ) (max d : ℕ)
    → schedule (delay_of msec max) ≡ in_msec d
    → (msec ≡ pos (d + max)) × (1 ≤ d)
unfolding schedule delay_of difference
schedule-in (pos a) max d h = elim (Bool-cases (leb max a)) [
  | inl t ↦ elim (Bool-cases (ltb (a - max) 1)) [
    | inl u ↦ absurd (now-in_msec d (sym (rw (t, u) refl) ∙ h))
    | inr u ↦
        let e = in_msec-injective (a - max) d (sym (in_msec_of a max t u) ∙ h) in
        ground (arith, e, t, u)
  ]
  | inr t ↦ ground (arith, t, h)
]
schedule-in (negsuc a) max d h = ground (arith, h)

until-pos :
    (clock : Timespec) (s : SchedulerOutput) (m : ℕ)
    → msec_until_refresh clock s ≡ pos m
    → 1 ≤ m
    → (nsec_of clock + m * 1000000 ≤ nsec_of (predicted_refresh s))
      × (nsec_of (predicted_refresh s) < nsec_of clock + (m + 1) * 1000000)
unfolding msec_until_refresh difference
until-pos clock s m h k = ground (arith, h, k)

-- The predicted refresh is less than a millisecond and max_render_time away.
abbrev pub IsNear : Timespec → SchedulerOutput → Type 0
IsNear clock s =
    nsec_of s.last_presentation + s.refresh_nsec < nsec_of clock + (s.max_render_time + 1) * 1000000

predicted-nsec :
    (s : SchedulerOutput)
    → s.last_presentation.tv_nsec < nsec_in_seconds
    → (predicted_refresh s).tv_nsec < nsec_in_seconds
unfolding predicted_refresh
predicted-nsec s h = ground (arith, h)

schedule-now : (m max : ℕ) → schedule (delay_of (pos m) max) ≡ now → m < max + 1
unfolding schedule delay_of difference
schedule-now m max h = elim (Bool-cases (leb max m)) [
  | inl t ↦ ground (arith, t, h)
  | inr t ↦ ground (arith, t)
]

until-near :
    (clock : Timespec) (s : SchedulerOutput) (m : ℕ)
    → s.last_presentation.tv_nsec < nsec_in_seconds
    → (s.max_render_time == 0) ≡ false
    → msec_until_refresh clock s ≡ pos m
    → m < s.max_render_time + 1
    → nsec_of (predicted_refresh s) < nsec_of clock + (s.max_render_time + 1) * 1000000
unfolding msec_until_refresh difference
until-near clock s m n z h k = let p = predicted-nsec s n in ground (arith, h, k, p)

until-past :
    (clock : Timespec) (s : SchedulerOutput) (m : ℕ)
    → msec_until_refresh clock s ≡ negsuc m
    → nsec_of (predicted_refresh s) < nsec_of clock + (s.max_render_time + 1) * 1000000
unfolding msec_until_refresh difference
until-past clock s m h = ground (arith, h)

-- When an output is painted: at once where max_render_time is 0 or the predicted refresh is near,
-- and else after some milliseconds, as late as leaves max_render_time before the refresh.
abbrev pub IsTimely : Timespec → SchedulerOutput → Scheduled → Type 0
IsTimely clock s now = (s.max_render_time ≡ 0) ⊎ IsNear clock s
IsTimely clock s (in_msec d) =
    (¬ (s.max_render_time ≡ 0))
    × (1 ≤ d)
    × (nsec_of clock + (d + s.max_render_time) * 1000000
        ≤ nsec_of s.last_presentation + s.refresh_nsec)
    × (nsec_of s.last_presentation + s.refresh_nsec
        < nsec_of clock + (d + s.max_render_time + 1) * 1000000)

no_time-now :
    (clock : Timespec) (s : SchedulerOutput)
    → s.max_render_time ≡ 0
    → msec_until_refresh clock s ≡ pos 0
unfolding msec_until_refresh
no_time-now clock s z = rw (z) refl

now-IsNear :
    (clock : Timespec) (s : SchedulerOutput) (msec : ℤ)
    → s.last_presentation.tv_nsec < nsec_in_seconds
    → (s.max_render_time == 0) ≡ false
    → msec_until_refresh clock s ≡ msec
    → schedule (delay_of msec s.max_render_time) ≡ now
    → IsNear clock s
now-IsNear clock s (pos m) n z e h =
    let near = until-near clock s m n z e (schedule-now m s.max_render_time h) in
    omega (arith, near, predicted_refresh_lem s)
now-IsNear clock s (negsuc m) n z e h =
    omega (arith, until-past clock s m e, predicted_refresh_lem s)

schedule-IsTimely :
    (clock : Timespec) (s : SchedulerOutput) (r : Scheduled)
    → s.last_presentation.tv_nsec < nsec_in_seconds
    → schedule (delay_of (msec_until_refresh clock s) s.max_render_time) ≡ r
    → IsTimely clock s r
schedule-IsTimely clock s now n h = elim (Bool-cases (s.max_render_time == 0)) [
  | inl t ↦ inl ((==_iff s.max_render_time 0).0 t)
  | inr t ↦ inr (now-IsNear clock s (msec_until_refresh clock s) n t refl h)
]
schedule-IsTimely clock s (in_msec d) n h =
    let (is_pos, one) = schedule-in (msec_until_refresh clock s) s.max_render_time d h in
    let (before, after) = until-pos clock s (d + s.max_render_time) is_pos (omega (arith, one)) in
    let lands = predicted_refresh_lem s in
    (
      (λ z. let m = sym (no_time-now clock s z) ∙ is_pos in ground (arith, m, one, z)),
      one,
      omega (arith, before, lands),
      omega (arith, after, lands),
    )

-- An output that is enabled is painted at once where max_render_time is 0, as nothing in the program
-- sets it. Were it set, the output would be painted at once only where less than a millisecond more
-- than max_render_time is left to the predicted refresh, and else after at least one millisecond, so
-- that max_render_time is left before the refresh, and a millisecond later it would not be. The
-- nanoseconds of the last presentation must be less than a second.
pub handle_output_frame-IsTimely :
    (clock : Timespec) (buffers : List SceneBuffer) (s : SchedulerOutput) (frame : Frame)
    → s.last_presentation.tv_nsec < nsec_in_seconds
    → handle_output_frame true clock buffers s ≡ some frame
    → IsTimely clock s frame.repaint
unfolding handle_output_frame
handle_output_frame-IsTimely clock buffers s frame n h =
    schedule-IsTimely clock s frame.repaint n (ap Frame.repaint (some-injective _ frame h))
