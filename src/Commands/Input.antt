-- ===== src/Commands/Input.antt =====
-- src/commands/input.c: the tables of the input commands, and the command `input`, which collects a
-- setting in a new configuration and stores it. The tables are searched from their start: they are
-- sorted and have no name twice, so that bsearch finds the same entry.
use hayward.Common.{
  List, [], ◌∷◌, ◌++◌, length, drop, Option, none, some, Bool, true, false, not, ◌&&◌,
  if◌then◌else◌,
}
use hayward.Text.{CString, codes, strcmp, strcasecmp}
use hayward.Config.Input.{Floats, InputConfig, new_input_config, is_set}
use hayward.Config.Store.{World, store_input_config}
use hayward.Commands.Args.{Status, success, failure, invalid, at_least, checkarg, arg}
use hayward.Commands.Library.{Library, Config, Handler}
use hayward.Commands.Pointer.{
  input_cmd_accel_profile, input_cmd_calibration_matrix, input_cmd_click_method, input_cmd_drag,
  input_cmd_drag_lock, input_cmd_dwt, input_cmd_left_handed, input_cmd_middle_emulation,
  input_cmd_natural_scroll, input_cmd_pointer_accel, input_cmd_scroll_button,
  input_cmd_scroll_factor, input_cmd_scroll_method, input_cmd_tap, input_cmd_tap_button_map,
}
use hayward.Commands.Keyboard.{
  input_cmd_repeat_delay, input_cmd_repeat_rate, input_cmd_xkb_capslock, input_cmd_xkb_file,
  input_cmd_xkb_layout, input_cmd_xkb_model, input_cmd_xkb_options, input_cmd_xkb_rules,
  input_cmd_xkb_variant, input_cmd_xkb_numlock,
}
use hayward.Commands.Mapping.{
  input_cmd_map_to_output, input_cmd_map_to_region, input_cmd_map_from_region, input_cmd_tool_mode,
}
use hayward.Commands.Events.{input_cmd_events}
use hayward.Commands.SwitchLayout.{input_cmd_xkb_switch_layout}

module _ (n : Floats) (lib : Library n) (w : World) where
  pub record InputHandler : Type 0 where
    pub command : CString
    pub handle : Handler n

  abbrev entry : CString → Handler n → InputHandler
  entry command handle = record { command = command; handle = handle }

  unfoldable pub input_handlers : List InputHandler
  input_handlers =
      entry (codes "accel_profile") (input_cmd_accel_profile n lib)
      ∷ entry (codes "calibration_matrix") (input_cmd_calibration_matrix n lib)
      ∷ entry (codes "click_method") (input_cmd_click_method n lib)
      ∷ entry (codes "drag") (input_cmd_drag n lib)
      ∷ entry (codes "drag_lock") (input_cmd_drag_lock n lib)
      ∷ entry (codes "dwt") (input_cmd_dwt n lib)
      ∷ entry (codes "events") (input_cmd_events n lib w)
      ∷ entry (codes "left_handed") (input_cmd_left_handed n lib)
      ∷ entry (codes "map_from_region") (input_cmd_map_from_region n lib)
      ∷ entry (codes "map_to_output") (input_cmd_map_to_output n lib)
      ∷ entry (codes "map_to_region") (input_cmd_map_to_region n lib)
      ∷ entry (codes "middle_emulation") (input_cmd_middle_emulation n lib)
      ∷ entry (codes "natural_scroll") (input_cmd_natural_scroll n lib)
      ∷ entry (codes "pointer_accel") (input_cmd_pointer_accel n lib)
      ∷ entry (codes "repeat_delay") (input_cmd_repeat_delay n lib)
      ∷ entry (codes "repeat_rate") (input_cmd_repeat_rate n lib)
      ∷ entry (codes "scroll_button") (input_cmd_scroll_button n lib)
      ∷ entry (codes "scroll_factor") (input_cmd_scroll_factor n lib)
      ∷ entry (codes "scroll_method") (input_cmd_scroll_method n lib)
      ∷ entry (codes "tap") (input_cmd_tap n lib)
      ∷ entry (codes "tap_button_map") (input_cmd_tap_button_map n lib)
      ∷ entry (codes "tool_mode") (input_cmd_tool_mode n lib)
      ∷ entry (codes "xkb_file") (input_cmd_xkb_file n lib)
      ∷ entry (codes "xkb_layout") (input_cmd_xkb_layout n lib)
      ∷ entry (codes "xkb_model") (input_cmd_xkb_model n lib)
      ∷ entry (codes "xkb_options") (input_cmd_xkb_options n lib)
      ∷ entry (codes "xkb_rules") (input_cmd_xkb_rules n lib)
      ∷ entry (codes "xkb_switch_layout") (input_cmd_xkb_switch_layout n lib)
      ∷ entry (codes "xkb_variant") (input_cmd_xkb_variant n lib)
      ∷ []

  unfoldable pub input_config_handlers : List InputHandler
  input_config_handlers =
      entry (codes "xkb_capslock") (input_cmd_xkb_capslock n lib)
      ∷ entry (codes "xkb_numlock") (input_cmd_xkb_numlock n lib)
      ∷ []

  unfoldable pub find_handler : CString → List InputHandler → Option (Handler n)
  unfolding strcasecmp
  find_handler line [] = none
  find_handler line (h ∷ hs) =
      if strcasecmp line h.command then some h.handle else find_handler line hs

  unfoldable pub config_subcommand : Config n → List CString → List InputHandler → Status × Config n
  unfolding find_handler arg
  config_subcommand config argv handlers = elim (find_handler (arg argv 0) handlers) [
    | none ↦ (invalid, config)
    | some handle ↦ handle config (drop 1 argv)
  ]

  -- Some commands are for the configuration file only.
  unfoldable pub run_subcommand : Config n → List CString → Status × Config n
  unfolding config_subcommand input_handlers input_config_handlers
  run_subcommand config argv =
      if is_set (find_handler (arg argv 0) input_config_handlers)
      then if config.reading
        then config_subcommand config argv input_config_handlers
        else (failure, config)
      else config_subcommand config argv input_handlers

  abbrev pub is_success : Status → Bool
  is_success success = true
  is_success _ = false

  -- What follows a subcommand that succeeded, with its status.
  unfoldable pub keep_result : Status → Config n → InputConfig n → Status × Config n
  unfolding store_input_config
  keep_result status config ic = elim (store_input_config n w true config.configs ic) [
    | none ↦ (failure, config)
    | some (stored, configs) ↦ (
      status,
      record config {
        configs = configs;
        applied = if config.reloading then config.applied else config.applied ++ stored ∷ [];
        input_config = none;
      },
    )
  ]

  -- The end of the command: what the subcommand left is stored, or freed.
  unfoldable pub store_or_free : (stores : Bool) → Status → Config n → Status × Config n
  unfolding keep_result
  store_or_free stores status after =
      let left : Status × Config n = (status, record after { input_config = none }) in
      if stores
      then elim after.input_config [ none ↦ left | some ic ↦ keep_result status after ic ]
      else left

  abbrev pub entered : Config n → CString → Config n
  entered config id = record config { input_config = some (new_input_config n id) }

  unfoldable pub cmd_input : Config n → List CString → Status × Config n
  unfolding checkarg new_input_config run_subcommand store_or_free strcmp arg
  cmd_input config argv = elim (checkarg (length argv) at_least 2) [
    | some status ↦ (status, config)
    | none ↦
        let r = run_subcommand (entered config (arg argv 0)) (drop 1 argv) in
        store_or_free (is_success r.0 && not (strcmp (arg argv 1) (codes "xkb_switch_layout"))) r.0
          r.1
  ]
