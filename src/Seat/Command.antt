-- ===== src/Seat/Command.antt =====
-- What the command `seat` of src/commands/seat.c leaves stored: timeouts within their bounds, and
-- nothing new where it fails.
use hayward.Common.{
  ℕ, ◌≡◌, refl, sym, subst, List, length, drop, Option, none, some, Bool, true, false, ℤ,
  if◌then◌else◌,
}
use hayward.Text.{CString, codes, strcmp, strcasecmp}
use hayward.Seat.{SeatConfig}
use hayward.Commands.Args.{Status, failure, at_least, checkarg, arg}
use hayward.Commands.Library.{Parsed}
use hayward.Seat.Commands.{
  SeatState, SeatHandler, unless, seat_cmd_attach, seat_cmd_fallback, seat_cmd_hide_cursor,
  seat_cmd_idle_inhibit, seat_cmd_idle_wake, seat_cmd_keyboard_grouping,
  seat_cmd_pointer_constraint, seat_cmd_xcursor_theme, find_seat_handler, run_handler, is_done,
  keep_seat, config_handlers, for_seat, cmd_seat,
}
use hayward.Seat.Stored.{AllTimely, new_seat_config-IsTimely, store_seat_config-AllTimely}
use hayward.Seat.Handled.{
  HasTimely, Handled, Handles, untouched, seat_cmd_attach-Handles, seat_cmd_fallback-Handles,
  seat_cmd_hide_cursor-Handles, seat_cmd_idle_inhibit-Handles, seat_cmd_idle_wake-Handles,
  seat_cmd_keyboard_grouping-Handles, seat_cmd_pointer_constraint-Handles,
  seat_cmd_xcursor_theme-Handles,
}

-- The stored configurations, and what has been applied.
pub record Unchanged (st after : SeatState) : Type 0 where
  pub configs : after.seat_configs ≡ st.seat_configs
  pub applied : after.applied ≡ st.applied

if-any :
    (Q : Status × SeatState → Type 0) (b : Bool) (x y : Status × SeatState)
    → Q x
    → Q y
    → Q (if b then x else y)
if-any Q true x y h k = h
if-any Q false x y h k = k

unless-any :
    (Q : Status × SeatState → Type 0) (o : Option Status) (st : SeatState) (r : Status × SeatState)
    → ((status : Status) → Q (status, st))
    → Q r
    → Q (unless o (λ e. (e, st)) r)
unless-any Q none st r h k = k
unless-any Q (some e) st r h k = h e

module _ (strtol : CString → Parsed ℤ) (strtoul : CString → Parsed ℕ) where
  run-Handled :
      (b : Bool) (handle : SeatHandler) (o : Option SeatHandler) (st : SeatState)
      (argv : List CString)
      → HasTimely st.seat_config
      → Handles strtol strtoul handle
      → Handled st (run_handler strtol strtoul o st argv).1
      → Handled st (run_handler strtol strtoul (if b then some handle else o) st argv).1
  run-Handled true handle o st argv v h k = h st argv v
  run-Handled false handle o st argv v h k = k

  found-Handled :
      (name : CString) (st : SeatState) (argv : List CString)
      → HasTimely st.seat_config
      → Handled st (run_handler strtol strtoul (find_seat_handler strtol strtoul name) st argv).1
  unfolding find_seat_handler
  found-Handled name st argv v =
      run-Handled (strcasecmp name (codes "attach")) (seat_cmd_attach strtol strtoul) _ st argv v
        (seat_cmd_attach-Handles strtol strtoul)
        (run-Handled (strcasecmp name (codes "fallback")) (seat_cmd_fallback strtol strtoul) _ st
          argv v (seat_cmd_fallback-Handles strtol strtoul)
          (run-Handled (strcasecmp name (codes "hide_cursor")) (seat_cmd_hide_cursor strtol strtoul)
            _ st argv v (seat_cmd_hide_cursor-Handles strtol strtoul)
            (run-Handled (strcasecmp name (codes "idle_inhibit"))
              (seat_cmd_idle_inhibit strtol strtoul) _ st argv v
              (seat_cmd_idle_inhibit-Handles strtol strtoul)
              (run-Handled (strcasecmp name (codes "idle_wake")) (seat_cmd_idle_wake strtol strtoul)
                _ st argv v (seat_cmd_idle_wake-Handles strtol strtoul)
                (run-Handled (strcasecmp name (codes "keyboard_grouping"))
                  (seat_cmd_keyboard_grouping strtol strtoul) _ st argv v
                  (seat_cmd_keyboard_grouping-Handles strtol strtoul)
                  (run-Handled (strcasecmp name (codes "pointer_constraint"))
                    (seat_cmd_pointer_constraint strtol strtoul) _ st argv v
                    (seat_cmd_pointer_constraint-Handles strtol strtoul)
                    (run-Handled (strcasecmp name (codes "xcursor_theme"))
                      (seat_cmd_xcursor_theme strtol strtoul) _ st argv v
                      (seat_cmd_xcursor_theme-Handles strtol strtoul) (untouched st v))))))))

  keep-AllTimely :
      (b : Bool) (o : Option SeatConfig) (st : SeatState)
      → HasTimely o
      → AllTimely st.seat_configs
      → AllTimely (if b then keep_seat strtol strtoul o st else st).seat_configs
  keep-AllTimely false o st v h = h
  keep-AllTimely true none st v h = h
  keep-AllTimely true (some sc) st v h = store_seat_config-AllTimely st.seat_configs sc h v

  config_handlers-AllTimely :
      (st : SeatState) (argv : List CString)
      → HasTimely st.seat_config
      → AllTimely st.seat_configs
      → AllTimely (config_handlers strtol strtoul st argv).1.seat_configs
  unfolding config_handlers
  config_handlers-AllTimely st argv v h =
      let r =
        run_handler strtol strtoul (find_seat_handler strtol strtoul (arg argv 0)) st
          (drop 1 argv) in
      let handled = found-Handled (arg argv 0) st (drop 1 argv) v in
      keep-AllTimely (is_done strtol strtoul r.0) r.1.seat_config r.1 handled.at_hand
        (subst AllTimely (sym handled.configs) h)

  kept-Unchanged :
      (b : Bool) (o : Option SeatConfig) (st after : SeatState)
      → b ≡ false
      → Unchanged st after
      → Unchanged st
          (record (if b then keep_seat strtol strtoul o after else after) { seat_config = none })
  kept-Unchanged false o st after e u = record { configs = u.configs; applied = u.applied }
  kept-Unchanged true o st after e u = absurd (cc)

  config_handlers-Unchanged :
      (st : SeatState) (argv : List CString)
      → HasTimely st.seat_config
      → is_done strtol strtoul (config_handlers strtol strtoul st argv).0 ≡ false
      → Unchanged st (config_handlers strtol strtoul st argv).1
  unfolding config_handlers
  config_handlers-Unchanged st argv v e =
      let r =
        run_handler strtol strtoul (find_seat_handler strtol strtoul (arg argv 0)) st
          (drop 1 argv) in
      let handled = found-Handled (arg argv 0) st (drop 1 argv) v in
      kept-Unchanged (is_done strtol strtoul r.0) r.1.seat_config st r.1 e
        (record { configs = handled.configs; applied = handled.applied })

  again :
      {st after : SeatState} (name : CString)
      → Unchanged (for_seat strtol strtoul st name) after
      → Unchanged st after
  again name u = record { configs = u.configs; applied = u.applied }

  -- Every stored timeout is 0, at least 100 or not set after the command `seat`, whatever its
  -- arguments are, where all of them were before.
  pub cmd_seat-AllTimely :
      (st : SeatState) (argv : List CString)
      → AllTimely st.seat_configs
      → AllTimely (cmd_seat strtol strtoul st argv).1.seat_configs
  unfolding cmd_seat
  cmd_seat-AllTimely st argv h =
      let Q : Status × SeatState → Type 0 = λ r. AllTimely r.1.seat_configs in
      unless-any Q (checkarg (length argv) at_least 2) st _ (λ status. h)
        (if-any Q (strcmp (arg argv 0) (codes "-")) _ _
          (if-any Q st.reading (failure, st) _ h
            (config_handlers-AllTimely (for_seat strtol strtoul st st.current_seat) (drop 1 argv)
              (new_seat_config-IsTimely st.current_seat) h))
          (config_handlers-AllTimely (for_seat strtol strtoul st (arg argv 0)) (drop 1 argv)
            (new_seat_config-IsTimely (arg argv 0)) h))

  -- The command `seat` that does not succeed leaves the stored configurations as they are, and no
  -- configuration is applied.
  pub cmd_seat-fails :
      (st : SeatState) (argv : List CString)
      → is_done strtol strtoul (cmd_seat strtol strtoul st argv).0 ≡ false
      → Unchanged st (cmd_seat strtol strtoul st argv).1
  unfolding cmd_seat
  cmd_seat-fails st argv =
      let Q : Status × SeatState → Type 0 =
        λ r. is_done strtol strtoul r.0 ≡ false → Unchanged st r.1 in
      let none_yet : Unchanged st st = record { configs = refl; applied = refl } in
      unless-any Q (checkarg (length argv) at_least 2) st _ (λ status e. none_yet)
        (if-any Q (strcmp (arg argv 0) (codes "-")) _ _
          (if-any Q st.reading (failure, st) _ (λ e. none_yet)
            (λ e. again st.current_seat (
              config_handlers-Unchanged (for_seat strtol strtoul st st.current_seat) (drop 1 argv)
                (new_seat_config-IsTimely st.current_seat) e)))
          (λ e. again (arg argv 0) (
            config_handlers-Unchanged (for_seat strtol strtoul st (arg argv 0)) (drop 1 argv)
              (new_seat_config-IsTimely (arg argv 0)) e)))
