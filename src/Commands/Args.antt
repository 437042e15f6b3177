-- ===== src/Commands/Args.antt =====
-- src/commands.c: the number of a command's arguments; src/util.c: truth values.
use hayward.Common.{
  ℕ, List, [], Option, none, some, Bool, true, false, not, ◌||◌, ◌==◌, ltb, get_elem?,
  if◌then◌else◌,
}
use hayward.Text.{CString, codes, strcasecmp}

pub data Status : Type 0 where
  success failure invalid defer block block_commands block_end : Status

pub data ExpectedArgs : Type 0 where
  at_least at_most equal_to : ExpectedArgs

-- The result NULL is `none`; the text of an error is left out.
unfoldable pub checkarg : (argc : ℕ) → ExpectedArgs → (val : ℕ) → Option Status
checkarg argc at_least val = if ltb argc val then some invalid else none
checkarg argc at_most val = if ltb val argc then some invalid else none
checkarg argc equal_to val = if argc == val then none else some invalid

-- argv[i]
unfoldable pub arg : List CString → ℕ → CString
arg argv i = elim (get_elem? argv i) [ some a ↦ a | none ↦ [] ]

unfoldable pub parse_boolean : CString → (current : Bool) → Bool
unfolding strcasecmp
parse_boolean boolean current =
    if strcasecmp boolean (codes "1")
      || strcasecmp boolean (codes "yes")
      || strcasecmp boolean (codes "on")
      || strcasecmp boolean (codes "true")
      || strcasecmp boolean (codes "enable")
      || strcasecmp boolean (codes "enabled")
      || strcasecmp boolean (codes "active")
    then true
    else if strcasecmp boolean (codes "toggle")
    then not current
    else false
