-- ===== src/Commands/Pointer.antt =====
-- The input commands of src/commands/input/ for pointers and touchpads.
use hayward.Common.{
  List, [], ◌∷◌, Option, none, some, Bool, true, false, ◌||◌, ℤ, pos, negsuc, same_int,
  if◌then◌else◌,
}
use hayward.Text.{CString, codes, strcmp, strcasecmp}
use hayward.Config.Input.{Floats, InputConfig}
use hayward.Commands.Args.{
  Status, success, failure, invalid, at_least, equal_to, arg, parse_boolean,
}
use hayward.Commands.Library.{Library, Handler, changing}
use hayward.Commands.Numbers.{parse_float, get_mouse_button, scroll_code}

-- A `bool` that is stored in an `int`.
abbrev pub int_of : Bool → ℤ
int_of b = if b then pos 1 else pos 0

module _ (n : Floats) (lib : Library n) where
  unfoldable pub input_cmd_accel_profile : Handler n
  unfolding changing strcasecmp arg
  input_cmd_accel_profile config argv =
      changing n at_least 1
        (λ ic.
          if strcasecmp (arg argv 0) (codes "adaptive")
          then (success, record ic { accel_profile = lib.constants.accel_profile_adaptive })
          else if strcasecmp (arg argv 0) (codes "flat")
          then (success, record ic { accel_profile = lib.constants.accel_profile_flat })
          else (invalid, ic))
        config argv

  -- The loop over the arguments: none when one of them is not a number.
  unfoldable pub parse_matrix : List CString → Option (List n.Float)
  unfolding parse_float
  parse_matrix [] = some []
  parse_matrix (item ∷ items) =
      let x = parse_float n lib item in
      let rest = parse_matrix items in
      if lib.isnan x then none else elim rest [ none ↦ none | some xs ↦ some (x ∷ xs) ]

  unfoldable pub input_cmd_calibration_matrix : Handler n
  unfolding changing parse_matrix
  input_cmd_calibration_matrix config argv =
      changing n equal_to 6
        (λ ic. elim (parse_matrix argv) [
          | none ↦ (failure, ic)
          | some matrix ↦ (success, record ic { calibration_matrix = some matrix })
        ])
        config argv

  unfoldable pub input_cmd_click_method : Handler n
  unfolding changing strcasecmp arg
  input_cmd_click_method config argv =
      changing n at_least 1
        (λ ic.
          if strcasecmp (arg argv 0) (codes "none")
          then (success, record ic { click_method = lib.constants.click_method_none })
          else if strcasecmp (arg argv 0) (codes "button_areas")
          then (success, record ic { click_method = lib.constants.click_method_button_areas })
          else if strcasecmp (arg argv 0) (codes "clickfinger")
          then (success, record ic { click_method = lib.constants.click_method_clickfinger })
          else (invalid, ic))
        config argv

  unfoldable pub input_cmd_drag : Handler n
  unfolding changing parse_boolean arg
  input_cmd_drag config argv =
      changing n at_least 1
        (λ ic.
          if parse_boolean (arg argv 0) true
          then (success, record ic { drag = lib.constants.drag_enabled })
          else (success, record ic { drag = lib.constants.drag_disabled }))
        config argv

  unfoldable pub input_cmd_drag_lock : Handler n
  unfolding changing parse_boolean arg
  input_cmd_drag_lock config argv =
      changing n at_least 1
        (λ ic.
          if parse_boolean (arg argv 0) true
          then (success, record ic { drag_lock = lib.constants.drag_lock_enabled })
          else (success, record ic { drag_lock = lib.constants.drag_lock_disabled }))
        config argv

  unfoldable pub input_cmd_dwt : Handler n
  unfolding changing parse_boolean arg
  input_cmd_dwt config argv =
      changing n at_least 1
        (λ ic.
          if parse_boolean (arg argv 0) true
          then (success, record ic { dwt = lib.constants.dwt_enabled })
          else (success, record ic { dwt = lib.constants.dwt_disabled }))
        config argv

  unfoldable pub input_cmd_left_handed : Handler n
  unfolding changing parse_boolean arg
  input_cmd_left_handed config argv =
      changing n at_least 1
        (λ ic. (success, record ic { left_handed = int_of (parse_boolean (arg argv 0) true) }))
        config argv

  unfoldable pub input_cmd_middle_emulation : Handler n
  unfolding changing parse_boolean arg
  input_cmd_middle_emulation config argv =
      changing n at_least 1
        (λ ic.
          if parse_boolean (arg argv 0) true
          then (success, record ic { middle_emulation = lib.constants.middle_emulation_enabled })
          else (success, record ic { middle_emulation = lib.constants.middle_emulation_disabled }))
        config argv

  unfoldable pub input_cmd_natural_scroll : Handler n
  unfolding changing parse_boolean arg
  input_cmd_natural_scroll config argv =
      changing n at_least 1
        (λ ic. (success, record ic { natural_scroll = int_of (parse_boolean (arg argv 0) true) }))
        config argv

  unfoldable pub input_cmd_pointer_accel : Handler n
  unfolding changing parse_float arg
  input_cmd_pointer_accel config argv =
      changing n at_least 1
        (λ ic.
          let v = parse_float n lib (arg argv 0) in
          if lib.isnan v
          then (invalid, ic)
          else if lib.is_below v (negsuc 0) || lib.is_above v (pos 1)
          then (invalid, ic)
          else (success, record ic { pointer_accel = v }))
        config argv

  -- The codes that stand for scrolling, and 0, are refused.
  unfoldable pub scrolling_button : CString → Option ℤ
  unfolding get_mouse_button
  scrolling_button name =
      let button = get_mouse_button n lib name in
      let code = button.code in
      if button.is_error
      then none
      else if same_int code (scroll_code n lib 1)
          || same_int code (scroll_code n lib 2)
          || same_int code (scroll_code n lib 3)
          || same_int code (scroll_code n lib 4)
      then none
      else if same_int code (pos 0)
      then none
      else some code

  -- "disable", or the button that is asked for.
  abbrev pub with_button : Bool → Option ℤ → InputConfig n → Status × InputConfig n
  with_button true button ic = (success, record ic { scroll_button = pos 0 })
  with_button false none ic = (invalid, ic)
  with_button false (some code) ic = (success, record ic { scroll_button = code })

  unfoldable pub input_cmd_scroll_button : Handler n
  unfolding changing scrolling_button arg strcmp
  input_cmd_scroll_button config argv =
      changing n at_least 1
        (with_button (strcmp (arg argv 0) (codes "disable")) (scrolling_button (arg argv 0))) config
        argv

  unfoldable pub input_cmd_scroll_factor : Handler n
  unfolding changing parse_float arg
  input_cmd_scroll_factor config argv =
      changing n at_least 1
        (λ ic.
          let v = parse_float n lib (arg argv 0) in
          if lib.isnan v
          then (invalid, ic)
          else if lib.is_below v (pos 0)
          then (invalid, ic)
          else (success, record ic { scroll_factor = v }))
        config argv

  unfoldable pub input_cmd_scroll_method : Handler n
  unfolding changing strcasecmp arg
  input_cmd_scroll_method config argv =
      changing n at_least 1
        (λ ic.
          if strcasecmp (arg argv 0) (codes "none")
          then (success, record ic { scroll_method = lib.constants.scroll_no_scroll })
          else if strcasecmp (arg argv 0) (codes "two_finger")
          then (success, record ic { scroll_method = lib.constants.scroll_2fg })
          else if strcasecmp (arg argv 0) (codes "edge")
          then (success, record ic { scroll_method = lib.constants.scroll_edge })
          else if strcasecmp (arg argv 0) (codes "on_button_down")
          then (success, record ic { scroll_method = lib.constants.scroll_on_button_down })
          else (invalid, ic))
        config argv

  unfoldable pub input_cmd_tap : Handler n
  unfolding changing parse_boolean arg
  input_cmd_tap config argv =
      changing n at_least 1
        (λ ic.
          if parse_boolean (arg argv 0) true
          then (success, record ic { tap = lib.constants.tap_enabled })
          else (success, record ic { tap = lib.constants.tap_disabled }))
        config argv

  unfoldable pub input_cmd_tap_button_map : Handler n
  unfolding changing strcasecmp arg
  input_cmd_tap_button_map config argv =
      changing n at_least 1
        (λ ic.
          if strcasecmp (arg argv 0) (codes "lrm")
          then (success, record ic { tap_button_map = lib.constants.tap_map_lrm })
          else if strcasecmp (arg argv 0) (codes "lmr")
          then (success, record ic { tap_button_map = lib.constants.tap_map_lmr })
          else (invalid, ic))
        config argv
