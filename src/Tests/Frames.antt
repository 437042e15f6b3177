-- ===== src/Tests/Frames.antt =====
-- A screen with 60 refreshes a second, painted four milliseconds ahead of the next one.
use hayward.Common.{◌≡◌, refl, [], some, true, arith}
use hayward.Scheduler.{Timespec, SchedulerOutput, Frame, now, in_msec, handle_output_frame}
use hayward.Scheduler.Deadline.{handle_output_frame-IsTimely, IsTimely}

abbrev screen : SchedulerOutput
screen = record {
  max_render_time = 4;
  last_presentation = record { tv_sec = 10; tv_nsec = 990000000 };
  refresh_nsec = 16666667;
}

abbrev just_after : Timespec
just_after = record { tv_sec = 10; tv_nsec = 991000000 }

abbrev waiting : Frame
waiting = record { repaint = in_msec 11; frame_done = [] }

waits : handle_output_frame true just_after [] screen ≡ some waiting
unfolding handle_output_frame
waits = refl

handle_output_frame-IsTimely_example : IsTimely just_after screen (in_msec 11)
handle_output_frame-IsTimely_example =
    handle_output_frame-IsTimely just_after [] screen waiting (omega arith) waits

-- As the program has it, there is no waiting.
at_once :
    handle_output_frame true just_after [] (record screen { max_render_time = 0 })
    ≡ some (record { repaint = now; frame_done = [] })
unfolding handle_output_frame
at_once = refl
