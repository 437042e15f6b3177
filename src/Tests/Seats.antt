-- ===== src/Tests/Seats.antt =====
-- Seat commands on a configuration for all seats.
use hayward.Common.{refl, List, [], ◌∷◌, none, true, false, ℤ, ℕ, pos}
use hayward.Text.{CString, codes}
use hayward.Commands.Library.{Parsed}
use hayward.Seat.{new_seat_config}
use hayward.Seat.Commands.{SeatState, seat_cmd_pointer_constraint, cmd_seat}
use hayward.Seat.Stored.{AllTimely, new_seat_config-IsTimely}
use hayward.Seat.Command.{Unchanged, cmd_seat-AllTimely, cmd_seat-fails}

-- Parsers that read every text as the same number.
abbrev read_fifty : CString → Parsed ℤ
read_fifty s = record { value = pos 50; rest = []; is_out_of_range = false }

abbrev read_size : CString → Parsed ℕ
read_size s = record { value = 32; rest = []; is_out_of_range = false }

abbrev one_seat : SeatState
one_seat = record {
  reading = true;
  active = false;
  current_seat = codes "seat0";
  seat_config = none;
  seat_configs = new_seat_config (codes "*") ∷ [];
  seats = [];
  applied = [];
}

abbrev hide_soon : List CString
hide_soon = codes "seat0" ∷ codes "hide_cursor" ∷ codes "50" ∷ []

abbrev escape_early : List CString
escape_early = codes "seat0" ∷ codes "pointer_constraint" ∷ codes "escape" ∷ []

cmd_seat-AllTimely_example :
    AllTimely (cmd_seat read_fifty read_size one_seat hide_soon).1.seat_configs
cmd_seat-AllTimely_example =
    cmd_seat-AllTimely read_fifty read_size one_seat hide_soon
      (new_seat_config-IsTimely (codes "*"), tt)

cmd_seat-fails_example : Unchanged one_seat (cmd_seat read_fifty read_size one_seat escape_early).1
unfolding cmd_seat seat_cmd_pointer_constraint
cmd_seat-fails_example = cmd_seat-fails read_fifty read_size one_seat escape_early refl
