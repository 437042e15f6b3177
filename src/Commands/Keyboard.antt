-- ===== src/Commands/Keyboard.antt =====
-- The input commands of src/commands/input/ for keyboards.
use hayward.Common.{
  [], ◌∷◌, Option, none, some, Bool, true, false, ◌&&◌, ◌==◌, ℤ, pos, negsuc, if◌then◌else◌,
}
use hayward.Text.{CString, codes, strcmp}
use hayward.Strings.{join_args}
use hayward.Config.Input.{Floats}
use hayward.Commands.Args.{success, invalid, at_least, equal_to, arg, parse_boolean}
use hayward.Commands.Library.{Library, Handler, changing}
use hayward.Commands.Pointer.{int_of}

-- The loop in front: a backslash goes between two spaces.
unfoldable pub escape_spaces : CString → CString
escape_spaces [] = []
escape_spaces (c ∷ []) = c ∷ []
escape_spaces (c ∷ d ∷ r) =
    let rest = escape_spaces (d ∷ r) in
    if c == b' ' && d == b' ' then c ∷ b'\\' ∷ rest else c ∷ rest

abbrev pub is_negative : ℤ → Bool
is_negative (pos a) = false
is_negative (negsuc a) = true

module _ (n : Floats) (lib : Library n) where
  -- The path afterwards, where the result is true.
  unfoldable pub expand_path : CString → Option CString
  unfolding escape_spaces join_args
  expand_path path = elim (lib.wordexp (escape_spaces path)) [
    | none ↦ none
    | some words ↦ elim words [ [] ↦ none | w ∷ ws ↦ some (join_args (w ∷ ws)) ]
  ]

  unfoldable pub input_cmd_repeat_delay : Handler n
  unfolding changing arg
  input_cmd_repeat_delay config argv =
      changing n equal_to 1
        (λ ic.
          let v = lib.atoi (arg argv 0) in
          if is_negative v then (invalid, ic) else (success, record ic { repeat_delay = v }))
        config argv

  unfoldable pub input_cmd_repeat_rate : Handler n
  unfolding changing arg
  input_cmd_repeat_rate config argv =
      changing n equal_to 1
        (λ ic.
          let v = lib.atoi (arg argv 0) in
          if is_negative v then (invalid, ic) else (success, record ic { repeat_rate = v }))
        config argv

  unfoldable pub input_cmd_xkb_capslock : Handler n
  unfolding changing parse_boolean arg
  input_cmd_xkb_capslock config argv =
      changing n at_least 1
        (λ ic. (success, record ic { xkb_capslock = int_of (parse_boolean (arg argv 0) false) }))
        config argv

  unfoldable pub input_cmd_xkb_file : Handler n
  unfolding changing arg expand_path strcmp
  input_cmd_xkb_file config argv =
      changing n equal_to 1
        (λ ic.
          if strcmp (arg argv 0) (codes "-")
          then (success, record ic { xkb_file = none; xkb_file_is_set = true })
          else elim (expand_path (arg argv 0)) [
            | none ↦ (invalid, record ic { xkb_file = none })
            | some path ↦ (success, record ic { xkb_file = some path; xkb_file_is_set = true })
          ])
        config argv

  unfoldable pub input_cmd_xkb_layout : Handler n
  unfolding changing arg
  input_cmd_xkb_layout config argv =
      changing n equal_to 1 (λ ic. (success, record ic { xkb_layout = some (arg argv 0) })) config
        argv

  unfoldable pub input_cmd_xkb_model : Handler n
  unfolding changing arg
  input_cmd_xkb_model config argv =
      changing n equal_to 1 (λ ic. (success, record ic { xkb_model = some (arg argv 0) })) config
        argv

  unfoldable pub input_cmd_xkb_options : Handler n
  unfolding changing arg
  input_cmd_xkb_options config argv =
      changing n equal_to 1 (λ ic. (success, record ic { xkb_options = some (arg argv 0) })) config
        argv

  unfoldable pub input_cmd_xkb_rules : Handler n
  unfolding changing arg
  input_cmd_xkb_rules config argv =
      changing n equal_to 1 (λ ic. (success, record ic { xkb_rules = some (arg argv 0) })) config
        argv

  unfoldable pub input_cmd_xkb_variant : Handler n
  unfolding changing arg
  input_cmd_xkb_variant config argv =
      changing n equal_to 1 (λ ic. (success, record ic { xkb_variant = some (arg argv 0) })) config
        argv

  unfoldable pub input_cmd_xkb_numlock : Handler n
  unfolding changing parse_boolean arg
  input_cmd_xkb_numlock config argv =
      changing n at_least 1
        (λ ic. (success, record ic { xkb_numlock = int_of (parse_boolean (arg argv 0) false) }))
        config argv
