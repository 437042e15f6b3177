-- ===== src/Commands/Valid/Pointer.antt =====
-- The input commands for pointers and touchpads keep to the bounds.
use hayward.Common.{Option, none, some, Bool, true, false, ℤ, arith}
use hayward.Text.{codes, strcmp}
use hayward.Config.Input.{Floats, InputConfig}
use hayward.Commands.Args.{at_least, equal_to, arg}
use hayward.Commands.Library.{Library}
use hayward.Commands.Pointer.{
  input_cmd_accel_profile, input_cmd_calibration_matrix, input_cmd_click_method, input_cmd_drag,
  input_cmd_drag_lock, input_cmd_dwt, input_cmd_left_handed, input_cmd_middle_emulation,
  input_cmd_natural_scroll, input_cmd_pointer_accel, input_cmd_scroll_button, scrolling_button,
  with_button, input_cmd_scroll_factor, input_cmd_scroll_method, input_cmd_tap,
  input_cmd_tap_button_map,
}
use hayward.Commands.Valid.{IsValid, Keeps, changing-IsSound}

module _ (n : Floats) (lib : Library n) where
  pub input_cmd_accel_profile-Keeps : Keeps n lib (input_cmd_accel_profile n lib)
  unfolding input_cmd_accel_profile
  input_cmd_accel_profile-Keeps config argv =
      changing-IsSound n lib at_least 1 _ config argv (λ ic v. ground arith)

  pub input_cmd_click_method-Keeps : Keeps n lib (input_cmd_click_method n lib)
  unfolding input_cmd_click_method
  input_cmd_click_method-Keeps config argv =
      changing-IsSound n lib at_least 1 _ config argv (λ ic v. ground arith)

  pub input_cmd_drag-Keeps : Keeps n lib (input_cmd_drag n lib)
  unfolding input_cmd_drag
  input_cmd_drag-Keeps config argv =
      changing-IsSound n lib at_least 1 _ config argv (λ ic v. ground arith)

  pub input_cmd_drag_lock-Keeps : Keeps n lib (input_cmd_drag_lock n lib)
  unfolding input_cmd_drag_lock
  input_cmd_drag_lock-Keeps config argv =
      changing-IsSound n lib at_least 1 _ config argv (λ ic v. ground arith)

  pub input_cmd_dwt-Keeps : Keeps n lib (input_cmd_dwt n lib)
  unfolding input_cmd_dwt
  input_cmd_dwt-Keeps config argv =
      changing-IsSound n lib at_least 1 _ config argv (λ ic v. ground arith)

  pub input_cmd_left_handed-Keeps : Keeps n lib (input_cmd_left_handed n lib)
  unfolding input_cmd_left_handed
  input_cmd_left_handed-Keeps config argv =
      changing-IsSound n lib at_least 1 _ config argv (λ ic v. ground arith)

  pub input_cmd_middle_emulation-Keeps : Keeps n lib (input_cmd_middle_emulation n lib)
  unfolding input_cmd_middle_emulation
  input_cmd_middle_emulation-Keeps config argv =
      changing-IsSound n lib at_least 1 _ config argv (λ ic v. ground arith)

  pub input_cmd_natural_scroll-Keeps : Keeps n lib (input_cmd_natural_scroll n lib)
  unfolding input_cmd_natural_scroll
  input_cmd_natural_scroll-Keeps config argv =
      changing-IsSound n lib at_least 1 _ config argv (λ ic v. ground arith)

  pub input_cmd_pointer_accel-Keeps : Keeps n lib (input_cmd_pointer_accel n lib)
  unfolding input_cmd_pointer_accel
  input_cmd_pointer_accel-Keeps config argv =
      changing-IsSound n lib at_least 1 _ config argv (λ ic v. ground arith)

  with_button-IsValid :
      (b : Bool) (o : Option ℤ) (ic : InputConfig n)
      → IsValid n lib ic
      → IsValid n lib (with_button n lib b o ic).1
  with_button-IsValid true o ic v = v
  with_button-IsValid false none ic v = v
  with_button-IsValid false (some code) ic v = v

  pub input_cmd_scroll_button-Keeps : Keeps n lib (input_cmd_scroll_button n lib)
  unfolding input_cmd_scroll_button
  input_cmd_scroll_button-Keeps config argv = changing-IsSound n lib at_least 1 _ config argv (
      with_button-IsValid (strcmp (arg argv 0) (codes "disable"))
        (scrolling_button n lib (arg argv 0)))

  pub input_cmd_scroll_factor-Keeps : Keeps n lib (input_cmd_scroll_factor n lib)
  unfolding input_cmd_scroll_factor
  input_cmd_scroll_factor-Keeps config argv =
      changing-IsSound n lib at_least 1 _ config argv (λ ic v. ground arith)

  pub input_cmd_scroll_method-Keeps : Keeps n lib (input_cmd_scroll_method n lib)
  unfolding input_cmd_scroll_method
  input_cmd_scroll_method-Keeps config argv =
      changing-IsSound n lib at_least 1 _ config argv (λ ic v. ground arith)

  pub input_cmd_tap-Keeps : Keeps n lib (input_cmd_tap n lib)
  unfolding input_cmd_tap
  input_cmd_tap-Keeps config argv =
      changing-IsSound n lib at_least 1 _ config argv (λ ic v. ground arith)

  pub input_cmd_tap_button_map-Keeps : Keeps n lib (input_cmd_tap_button_map n lib)
  unfolding input_cmd_tap_button_map
  input_cmd_tap_button_map-Keeps config argv =
      changing-IsSound n lib at_least 1 _ config argv (λ ic v. ground arith)

  pub input_cmd_calibration_matrix-Keeps : Keeps n lib (input_cmd_calibration_matrix n lib)
  unfolding input_cmd_calibration_matrix
  input_cmd_calibration_matrix-Keeps config argv =
      changing-IsSound n lib equal_to 6 _ config argv (λ ic v. ground arith)
