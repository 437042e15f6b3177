-- ===== src/Commands/Valid/Keyboard.antt =====
-- The input commands for keyboards keep to the bounds.
use hayward.Common.{arith}
use hayward.Config.Input.{Floats}
use hayward.Commands.Args.{at_least, equal_to}
use hayward.Commands.Library.{Library}
use hayward.Commands.Keyboard.{
  input_cmd_repeat_delay, input_cmd_repeat_rate, input_cmd_xkb_capslock, input_cmd_xkb_file,
  input_cmd_xkb_layout, input_cmd_xkb_model, input_cmd_xkb_options, input_cmd_xkb_rules,
  input_cmd_xkb_variant, input_cmd_xkb_numlock,
}
use hayward.Commands.Valid.{Keeps, changing-IsSound}

module _ (n : Floats) (lib : Library n) where
  pub input_cmd_repeat_delay-Keeps : Keeps n lib (input_cmd_repeat_delay n lib)
  unfolding input_cmd_repeat_delay
  input_cmd_repeat_delay-Keeps config argv =
      changing-IsSound n lib equal_to 1 _ config argv (λ ic v. ground arith)

  pub input_cmd_repeat_rate-Keeps : Keeps n lib (input_cmd_repeat_rate n lib)
  unfolding input_cmd_repeat_rate
  input_cmd_repeat_rate-Keeps config argv =
      changing-IsSound n lib equal_to 1 _ config argv (λ ic v. ground arith)

  pub input_cmd_xkb_capslock-Keeps : Keeps n lib (input_cmd_xkb_capslock n lib)
  unfolding input_cmd_xkb_capslock
  input_cmd_xkb_capslock-Keeps config argv =
      changing-IsSound n lib at_least 1 _ config argv (λ ic v. ground arith)

  pub input_cmd_xkb_file-Keeps : Keeps n lib (input_cmd_xkb_file n lib)
  unfolding input_cmd_xkb_file
  input_cmd_xkb_file-Keeps config argv =
      changing-IsSound n lib equal_to 1 _ config argv (λ ic v. ground arith)

  pub input_cmd_xkb_layout-Keeps : Keeps n lib (input_cmd_xkb_layout n lib)
  unfolding input_cmd_xkb_layout
  input_cmd_xkb_layout-Keeps config argv =
      changing-IsSound n lib equal_to 1 _ config argv (λ ic v. ground arith)

  pub input_cmd_xkb_model-Keeps : Keeps n lib (input_cmd_xkb_model n lib)
  unfolding input_cmd_xkb_model
  input_cmd_xkb_model-Keeps config argv =
      changing-IsSound n lib equal_to 1 _ config argv (λ ic v. ground arith)

  pub input_cmd_xkb_options-Keeps : Keeps n lib (input_cmd_xkb_options n lib)
  unfolding input_cmd_xkb_options
  input_cmd_xkb_options-Keeps config argv =
      changing-IsSound n lib equal_to 1 _ config argv (λ ic v. ground arith)

  pub input_cmd_xkb_rules-Keeps : Keeps n lib (input_cmd_xkb_rules n lib)
  unfolding input_cmd_xkb_rules
  input_cmd_xkb_rules-Keeps config argv =
      changing-IsSound n lib equal_to 1 _ config argv (λ ic v. ground arith)

  pub input_cmd_xkb_variant-Keeps : Keeps n lib (input_cmd_xkb_variant n lib)
  unfolding input_cmd_xkb_variant
  input_cmd_xkb_variant-Keeps config argv =
      changing-IsSound n lib equal_to 1 _ config argv (λ ic v. ground arith)

  pub input_cmd_xkb_numlock-Keeps : Keeps n lib (input_cmd_xkb_numlock n lib)
  unfolding input_cmd_xkb_numlock
  input_cmd_xkb_numlock-Keeps config argv =
      changing-IsSound n lib at_least 1 _ config argv (λ ic v. ground arith)
