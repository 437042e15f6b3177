-- ===== src/Seat/Handled.antt =====
-- What every handler of src/commands/seat/ leaves: the same stored configurations, and a timeout
-- within the bounds.
use hayward.Common.{
  ℕ, ◌≡◌, refl, List, length, Option, none, some, true, ℤ, to_int32, pos, negsuc, arith,
}
use hayward.Text.{CString}
use hayward.Seat.{SeatConfig}
use hayward.Commands.Args.{Status, at_least, at_most, equal_to, checkarg, arg}
use hayward.Commands.Library.{Parsed}
use hayward.Seat.Commands.{
  SeatState, SeatHandler, on_seat, unless, seat_cmd_attach, seat_cmd_fallback, seat_cmd_hide_cursor,
  seat_cmd_idle_inhibit, seat_cmd_idle_wake, seat_cmd_keyboard_grouping,
  seat_cmd_pointer_constraint, seat_cmd_xcursor_theme, at_least_100,
}
use hayward.Seat.Stored.{IsTimely, is_timeout}

abbrev pub HasTimely : Option SeatConfig → Type 0
HasTimely none = Unit
HasTimely (some sc) = IsTimely sc

-- A state after a handler: the stored configurations are the same, and the timeout of the one at
-- hand is within the bounds.
pub record Handled (st after : SeatState) : Type 0 where
  pub configs : after.seat_configs ≡ st.seat_configs
  pub applied : after.applied ≡ st.applied
  pub at_hand : HasTimely after.seat_config

unless-Handled :
    (o : Option Status) (st before : SeatState) (r : Status × SeatState)
    → Handled st before
    → Handled st r.1
    → Handled st (unless o (λ e. (e, before)) r).1
unless-Handled none st before r h k = k
unless-Handled (some e) st before r h k = h

on_seat-Handled :
    (o : Option SeatConfig) (run : SeatConfig → Status × SeatState) (status : Status)
    (st before : SeatState)
    → Handled st before
    → HasTimely o
    → ((sc : SeatConfig) → IsTimely sc → Handled st (run sc).1)
    → Handled st (on_seat o run status before).1
on_seat-Handled none run status st before h v k = h
on_seat-Handled (some sc) run status st before h v k = k sc v

pub untouched : (st : SeatState) → HasTimely st.seat_config → Handled st st
untouched st v = record { configs = refl; applied = refl; at_hand = v }

module _ (strtol : CString → Parsed ℤ) (strtoul : CString → Parsed ℕ) where
  at_least_100-timeout : (v : ℤ) → is_timeout (at_least_100 strtol strtoul v) ≡ true
  unfolding at_least_100
  at_least_100-timeout (pos a) = ground arith
  at_least_100-timeout (negsuc a) = refl

  abbrev pub Handles : SeatHandler → Type 0
  Handles handle =
      (st : SeatState) (argv : List CString)
      → HasTimely st.seat_config
      → Handled st (handle st argv).1

  pub seat_cmd_attach-Handles : Handles (seat_cmd_attach strtol strtoul)
  unfolding seat_cmd_attach
  seat_cmd_attach-Handles st argv v =
      let same = untouched st v in
      unless-Handled (checkarg (length argv) at_least 1) st st _ same
        (on_seat-Handled st.seat_config _ _ st st same v (λ sc u. ground arith))

  pub seat_cmd_fallback-Handles : Handles (seat_cmd_fallback strtol strtoul)
  unfolding seat_cmd_fallback
  seat_cmd_fallback-Handles st argv v =
      let same = untouched st v in
      unless-Handled (checkarg (length argv) equal_to 1) st st _ same
        (on_seat-Handled st.seat_config _ _ st st same v (λ sc u. ground arith))

  pub seat_cmd_hide_cursor-Handles : Handles (seat_cmd_hide_cursor strtol strtoul)
  unfolding seat_cmd_hide_cursor
  seat_cmd_hide_cursor-Handles st argv v =
      let same = untouched st v in
      unless-Handled (checkarg (length argv) at_least 1) st st _ same (
        unless-Handled (checkarg (length argv) at_most 2) st st _ same (
          on_seat-Handled st.seat_config _ _ st st same v (λ sc u.
            let clamped = at_least_100-timeout (to_int32 (strtol (arg argv 0)).value) in
            ground arith)))

  pub seat_cmd_idle_inhibit-Handles : Handles (seat_cmd_idle_inhibit strtol strtoul)
  unfolding seat_cmd_idle_inhibit
  seat_cmd_idle_inhibit-Handles st argv v =
      let same = untouched st v in
      unless-Handled (checkarg (length argv) at_least 1) st st _ same
        (on_seat-Handled st.seat_config _ _ st st same v (λ sc u. ground arith))

  pub seat_cmd_idle_wake-Handles : Handles (seat_cmd_idle_wake strtol strtoul)
  unfolding seat_cmd_idle_wake
  seat_cmd_idle_wake-Handles st argv v =
      let same = untouched st v in
      unless-Handled (checkarg (length argv) at_least 1) st st _ same
        (on_seat-Handled st.seat_config _ _ st st same v (λ sc u. ground arith))

  pub seat_cmd_keyboard_grouping-Handles : Handles (seat_cmd_keyboard_grouping strtol strtoul)
  unfolding seat_cmd_keyboard_grouping
  seat_cmd_keyboard_grouping-Handles st argv v =
      let same = untouched st v in
      unless-Handled (checkarg (length argv) equal_to 1) st st _ same
        (on_seat-Handled st.seat_config _ _ st st same v (λ sc u. ground arith))

  pub seat_cmd_pointer_constraint-Handles : Handles (seat_cmd_pointer_constraint strtol strtoul)
  unfolding seat_cmd_pointer_constraint
  seat_cmd_pointer_constraint-Handles st argv v =
      let same = untouched st v in
      unless-Handled (checkarg (length argv) equal_to 1) st st _ same
        (on_seat-Handled st.seat_config _ _ st st same v (λ sc u. ground arith))

  pub seat_cmd_xcursor_theme-Handles : Handles (seat_cmd_xcursor_theme strtol strtoul)
  unfolding seat_cmd_xcursor_theme
  seat_cmd_xcursor_theme-Handles st argv v =
      let same = untouched st v in
      unless-Handled (checkarg (length argv) at_least 1) st st _ same (
        unless-Handled (checkarg (length argv) at_most 2) st st _ same
          (on_seat-Handled st.seat_config _ _ st st same v (λ sc u. ground arith)))
