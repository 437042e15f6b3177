-- ===== src/Commands/Amounts.antt =====
-- src/util.c: amounts of a movement, such as "10 px" or "10ppt".
use hayward.Common.{ℕ, List, [], ◌∷◌, Bool, true, false, ℤ, to_int32, if◌then◌else◌}
use hayward.Text.{CString, codes, strcasecmp}
use hayward.Config.Input.{Floats}
use hayward.Commands.Library.{Library}

pub data MovementUnit : Type 0 where
  px ppt default invalid_unit : MovementUnit

pub record MovementAmount : Type 0 where
  pub amount : ℤ
  pub unit : MovementUnit

unfoldable pub parse_movement_unit : CString → MovementUnit
unfolding strcasecmp
parse_movement_unit unit =
    if strcasecmp unit (codes "px")
    then px
    else if strcasecmp unit (codes "ppt")
    then ppt
    else if strcasecmp unit (codes "default")
    then default
    else invalid_unit

abbrev is_valid_unit : MovementUnit → Bool
is_valid_unit invalid_unit = false
is_valid_unit _ = true

module _ (n : Floats) (lib : Library n) where
  abbrev without_unit : List CString → ℤ → MovementAmount × ℕ
  without_unit [] amount = (record { amount = amount; unit = default }, 1)
  without_unit (next ∷ argv) amount =
      let unit = parse_movement_unit next in
      if is_valid_unit unit
      then (record { amount = amount; unit = unit }, 2)
      else (record { amount = amount; unit = default }, 1)

  -- The amount, and how many of the arguments it has taken. There is an argument.
  unfoldable pub parse_movement_amount :
      (first : CString) → (others : List CString) → MovementAmount × ℕ
  unfolding parse_movement_unit to_int32
  parse_movement_amount first others =
      let parsed = lib.strtol first in
      elim parsed.rest [
        | [] ↦ without_unit others (to_int32 parsed.value)
        | c ∷ err ↦
            (record { amount = to_int32 parsed.value; unit = parse_movement_unit (c ∷ err) }, 1)
      ]
