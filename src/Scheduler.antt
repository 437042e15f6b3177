-- ===== src/Scheduler.antt =====
-- src/scheduler.c: when an output is painted and when its clients are told to draw. Times are
-- those of a monotonic clock, the time between refreshes and max_render_time are not negative.
pub mod Deadline
use hayward.Common.{
  ℕ, ◌+◌, ◌-◌, ◌*◌, ◌/◌, ◌%◌, ◌≡◌, refl, List, [], ◌∷◌, map, Option, none, some, Bool, true, false,
  leb, ltb, ◌==◌, ℤ, pos, negsuc, if◌then◌else◌,
}

pub record Timespec : Type 0 where
  pub tv_sec : ℕ
  pub tv_nsec : ℕ

-- `struct hwd_scene_output_scheduler`, with max_render_time in milliseconds.
pub record SchedulerOutput : Type 0 where
  pub max_render_time : ℕ
  pub last_presentation : Timespec
  pub refresh_nsec : ℕ

pub record OutputEventPresent : Type 0 where
  pub presented : Bool
  pub when : Timespec
  pub refresh : ℕ

unfoldable pub handle_output_present : OutputEventPresent → SchedulerOutput → SchedulerOutput
handle_output_present event s =
    if event.presented
    then record s { last_presentation = event.when; refresh_nsec = event.refresh }
    else s

abbrev pub nsec_in_seconds : ℕ
nsec_in_seconds = 1000000000

-- a - b
unfoldable pub difference : ℕ → ℕ → ℤ
difference a b = if leb b a then pos (a - b) else negsuc (b - a - 1)

unfoldable pub predicted_refresh : SchedulerOutput → Timespec
predicted_refresh s =
    let nsec = s.last_presentation.tv_nsec + s.refresh_nsec % nsec_in_seconds in
    let sec = s.last_presentation.tv_sec + s.refresh_nsec / nsec_in_seconds in
    if leb nsec_in_seconds nsec
    then record { tv_sec = sec + 1; tv_nsec = nsec - nsec_in_seconds }
    else record { tv_sec = sec; tv_nsec = nsec }

-- Division by a million, towards 0.
abbrev to_msec : ℤ → ℤ
to_msec (pos a) = pos (a / 1000000)
to_msec (negsuc a) = difference 0 ((a + 1) / 1000000)

unfoldable pub msec_until_refresh : (now : Timespec) → SchedulerOutput → ℤ
unfolding predicted_refresh difference
msec_until_refresh now s =
    let predicted = predicted_refresh s in
    if s.max_render_time == 0
    then pos 0
    else if leb now.tv_sec predicted.tv_sec
    then to_msec (
        difference ((predicted.tv_sec - now.tv_sec) * nsec_in_seconds + predicted.tv_nsec)
          now.tv_nsec)
    else pos 0

-- msec_until_refresh - max_render_time
unfoldable pub delay_of : ℤ → ℕ → ℤ
unfolding difference
delay_of (pos a) max_render_time = difference a max_render_time
delay_of (negsuc a) max_render_time = negsuc (a + max_render_time)

-- What is done at once, or by a timer in so many milliseconds.
pub data Scheduled : Type 0 where
  now : Scheduled
  in_msec : (delay : ℕ) → Scheduled

-- Less than a millisecond is now.
unfoldable pub schedule : ℤ → Scheduled
schedule (pos delay) = if ltb delay 1 then now else in_msec delay
schedule (negsuc delay) = now

-- A buffer of the scene: its address, and the output that it is mostly on.
pub record SceneBuffer : Type 0 where
  pub address : ℕ
  pub primary_output : Option ℕ

-- When wlr_scene_buffer_send_frame_done is called for a buffer, if it is.
unfoldable pub send_frame_done_iterator :
    (msec : ℤ) → SchedulerOutput → SceneBuffer → Option Scheduled
unfolding delay_of schedule
send_frame_done_iterator msec s buffer = elim buffer.primary_output [
  | none ↦ none
  | some output ↦ some (schedule (delay_of msec s.max_render_time))
]

-- When the output is painted, and when the clients of its buffers are told.
pub record Frame : Type 0 where
  pub repaint : Scheduled
  pub frame_done : List (Option Scheduled)

unfoldable pub handle_output_frame :
    (enabled : Bool) → (now : Timespec) → List SceneBuffer → SchedulerOutput → Option Frame
unfolding msec_until_refresh send_frame_done_iterator
handle_output_frame enabled clock buffers s =
    let msec = msec_until_refresh clock s in
    if enabled
    then some (record {
      repaint = schedule (delay_of msec s.max_render_time);
      frame_done = map (send_frame_done_iterator msec s) buffers;
    })
    else none
