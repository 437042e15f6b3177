-- ===== src/Commands/Valid/Mapping.antt =====
-- The input commands that map devices, and the modes of tools, keep to the bounds.
use hayward.Common.{arith}
use hayward.Config.Input.{Floats}
use hayward.Commands.Args.{at_least, equal_to}
use hayward.Commands.Library.{Library}
use hayward.Commands.Mapping.{
  input_cmd_map_to_output, input_cmd_map_to_region, input_cmd_map_from_region, input_cmd_tool_mode,
}
use hayward.Commands.Valid.{Keeps, changing-IsSound}

module _ (n : Floats) (lib : Library n) where
  pub input_cmd_map_to_output-Keeps : Keeps n lib (input_cmd_map_to_output n lib)
  unfolding input_cmd_map_to_output
  input_cmd_map_to_output-Keeps config argv =
      changing-IsSound n lib equal_to 1 _ config argv (λ ic v. ground arith)

  pub input_cmd_map_to_region-Keeps : Keeps n lib (input_cmd_map_to_region n lib)
  unfolding input_cmd_map_to_region
  input_cmd_map_to_region-Keeps config argv =
      changing-IsSound n lib equal_to 4 _ config argv (λ ic v. ground arith)

  pub input_cmd_map_from_region-Keeps : Keeps n lib (input_cmd_map_from_region n lib)
  unfolding input_cmd_map_from_region
  input_cmd_map_from_region-Keeps config argv =
      changing-IsSound n lib equal_to 2 _ config argv (λ ic v. ground arith)

  pub input_cmd_tool_mode-Keeps : Keeps n lib (input_cmd_tool_mode n lib)
  unfolding input_cmd_tool_mode
  input_cmd_tool_mode-Keeps config argv =
      changing-IsSound n lib at_least 2 _ config argv (λ ic v. ground arith)
