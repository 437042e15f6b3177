-- ===== src/Commands/Mapping.antt =====
-- The input commands of src/commands/input/ that map devices to outputs and regions, and the modes
-- of tablet tools.
use hayward.Common.{
  ℕ, List, [], ◌∷◌, length, Option, none, some, Bool, true, false, not, ◌||◌, ◌&&◌, ◌==◌, ltb, ℤ,
  to_int32, pos, negsuc, if◌then◌else◌,
}
use hayward.Text.{CString, codes, strcasecmp}
use hayward.Config.Input.{
  Floats, InputConfig, Box, MappedFromRegion, ToolType, ToolMode, put_tool, mapped_to_output,
  mapped_to_region, pen, eraser, brush, pencil, airbrush, absolute, relative,
}
use hayward.Commands.Args.{success, failure, invalid, at_least, equal_to, arg}
use hayward.Common.Chains.{◌>>=◌}
use hayward.Commands.Library.{Library, Handler, changing}

abbrev pub is_size : ℤ → Bool
is_size (pos a) = ltb 0 a
is_size (negsuc a) = false

module _ (n : Floats) (lib : Library n) where
  unfoldable pub input_cmd_map_to_output : Handler n
  unfolding changing arg
  input_cmd_map_to_output config argv =
      changing n equal_to 1
        (λ ic. (
          success,
          record ic { mapped_to = mapped_to_output; mapped_to_output = some (arg argv 0) },
        ))
        config argv

  -- strtol of an argument: the number, where nothing is left of the text.
  unfoldable pub parse_whole : CString → Option ℤ
  unfolding to_int32
  parse_whole text =
      let parsed = lib.strtol text in
      if length parsed.rest == 0 then some (to_int32 parsed.value) else none

  abbrev pub parse_size : CString → Option ℤ
  parse_size text = do size ← parse_whole text; if is_size size then some size else none

  unfoldable pub parse_region : List CString → Option Box
  unfolding parse_whole arg
  parse_region argv = do
    x ← parse_whole (arg argv 0)
    y ← parse_whole (arg argv 1)
    width ← parse_size (arg argv 2)
    height ← parse_size (arg argv 3)
    some (record { x = x; y = y; width = width; height = height })

  -- The mapping is changed whether or not the region is one.
  unfoldable pub input_cmd_map_to_region : Handler n
  unfolding changing parse_region
  input_cmd_map_to_region config argv =
      changing n equal_to 4
        (λ ic.
          let region = parse_region argv in
          let changed = record ic { mapped_to = mapped_to_region; mapped_to_region = region } in
          elim region [ none ↦ (failure, changed) | some box ↦ (success, changed) ])
        config argv

  -- The character at the end pointer, and what is behind it.
  abbrev pub after_char : ℕ → CString → Option CString
  after_char c [] = none
  after_char c (d ∷ r) = if d == c then some r else none

  -- The unit at the end of coordinates: none, or "mm".
  abbrev pub parse_unit : CString → Option Bool
  parse_unit [] = some false
  parse_unit (a ∷ b ∷ []) = if a == b'm' && b == b'm' then some true else none
  parse_unit _ = none

  -- "<x>x<y>" or "<x>x<y>mm"
  unfoldable pub parse_coords : CString → Option (n.Double × n.Double × Bool)
  parse_coords text = do
    let x = lib.strtod text
    second ← after_char b'x' x.rest
    let y = lib.strtod second
    mm ← parse_unit y.rest
    some (x.value, y.value, mm)

  abbrev pub same_unit : Bool → Bool → Bool
  same_unit true b = b
  same_unit false b = not b

  unfoldable pub parse_rectangle : List CString → Option (MappedFromRegion n)
  unfolding parse_coords arg
  parse_rectangle argv = do
    (x1, y1, mm1) ← parse_coords (arg argv 0)
    (x2, y2, mm2) ← parse_coords (arg argv 1)
    let region : MappedFromRegion n = record { x1 = x1; y1 = y1; x2 = x2; y2 = y2; mm = mm1 }
    (if lib.exceeds x1 x2 || lib.exceeds y1 y2
        then none
        else if same_unit mm1 mm2
        then some region
        else none)

  unfoldable pub input_cmd_map_from_region : Handler n
  unfolding changing parse_rectangle
  input_cmd_map_from_region config argv =
      changing n equal_to 2
        (λ ic.
          let region = parse_rectangle argv in
          let changed = record ic { mapped_from_region = region } in
          elim region [ none ↦ (failure, changed) | some r ↦ (success, changed) ])
        config argv

  unfoldable pub set_tool_mode : InputConfig n → ToolType → ToolMode → InputConfig n
  unfolding put_tool
  set_tool_mode ic type mode = record ic {
    tools = put_tool ic.tools (record { type = type; mode = mode });
  }

  abbrev pub mode_of : CString → Option ToolMode
  mode_of text =
      if strcasecmp text (codes "absolute")
      then some absolute
      else if strcasecmp text (codes "relative")
      then some relative
      else none

  abbrev pub tool_of : CString → Option ToolType
  tool_of text =
      if strcasecmp text (codes "pen")
      then some pen
      else if strcasecmp text (codes "eraser")
      then some eraser
      else if strcasecmp text (codes "brush")
      then some brush
      else if strcasecmp text (codes "pencil")
      then some pencil
      else if strcasecmp text (codes "airbrush")
      then some airbrush
      else none

  abbrev pub set_all_tools : InputConfig n → List ToolType → ToolMode → InputConfig n
  set_all_tools ic [] mode = ic
  set_all_tools ic (type ∷ types) mode = set_all_tools (set_tool_mode ic type mode) types mode

  unfoldable pub input_cmd_tool_mode : Handler n
  unfolding changing set_tool_mode arg strcasecmp
  input_cmd_tool_mode config argv =
      changing n at_least 2
        (λ ic. elim (mode_of (arg argv 1)) [
          | none ↦ (invalid, ic)
          | some mode ↦
              if strcasecmp (arg argv 0) (codes "*")
              then (success, set_all_tools ic (pen ∷ eraser ∷ brush ∷ pencil ∷ airbrush ∷ []) mode)
              else elim (tool_of (arg argv 0)) [
                | none ↦ (invalid, ic)
                | some type ↦ (success, set_tool_mode ic type mode)
              ]
        ])
        config argv
