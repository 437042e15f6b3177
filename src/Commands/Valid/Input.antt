-- ===== src/Commands/Valid/Input.antt =====
-- The command `input` of src/commands/input.c keeps all stored configurations within the bounds.
use hayward.Common.{
  ◌≡◌, subst, List, length, drop, Bool, true, false, Option-cases, inl, inr, not, ◌&&◌,
}
use hayward.Text.{CString, codes, strcmp}
use hayward.Config.Input.{Floats, InputConfig}
use hayward.Config.Store.{World, store_input_config}
use hayward.Config.Store.Lists.{AllConfigs}
use hayward.Config.Store.Closed.{store_input_config-closed}
use hayward.Commands.Args.{Status, at_least, checkarg, arg}
use hayward.Commands.Library.{Library, Config}
use hayward.Commands.Input.{
  input_handlers, input_config_handlers, run_subcommand, keep_result, is_success, store_or_free,
  entered, cmd_input,
}
use hayward.Commands.Run.{◌&◌, AllHold, run_subcommand-holds}
use hayward.Commands.Valid.{IsValid, IsSound, HasValid, IsValid-IsClosed, new-IsValid}
use hayward.Commands.Valid.Pointer.{
  input_cmd_accel_profile-Keeps, input_cmd_calibration_matrix-Keeps, input_cmd_click_method-Keeps,
  input_cmd_drag-Keeps, input_cmd_drag_lock-Keeps, input_cmd_dwt-Keeps, input_cmd_left_handed-Keeps,
  input_cmd_middle_emulation-Keeps, input_cmd_natural_scroll-Keeps, input_cmd_pointer_accel-Keeps,
  input_cmd_scroll_button-Keeps, input_cmd_scroll_factor-Keeps, input_cmd_scroll_method-Keeps,
  input_cmd_tap-Keeps, input_cmd_tap_button_map-Keeps,
}
use hayward.Commands.Valid.Keyboard.{
  input_cmd_repeat_delay-Keeps, input_cmd_repeat_rate-Keeps, input_cmd_xkb_capslock-Keeps,
  input_cmd_xkb_file-Keeps, input_cmd_xkb_layout-Keeps, input_cmd_xkb_model-Keeps,
  input_cmd_xkb_options-Keeps, input_cmd_xkb_rules-Keeps, input_cmd_xkb_variant-Keeps,
  input_cmd_xkb_numlock-Keeps,
}
use hayward.Commands.Valid.Mapping.{
  input_cmd_map_to_output-Keeps, input_cmd_map_to_region-Keeps, input_cmd_map_from_region-Keeps,
  input_cmd_tool_mode-Keeps,
}
use hayward.Commands.Valid.Events.{input_cmd_events-Keeps, input_cmd_xkb_switch_layout-Keeps}

module _ (n : Floats) (lib : Library n) (w : World)
    (e : n.same_float n.flt_min n.flt_min ≡ true) where
  abbrev pub StaysSound : Config n → Config n → Type 0
  StaysSound before after = IsSound n lib before → IsSound n lib after

  pub input_handlers-hold : AllHold n lib w StaysSound (input_handlers n lib w)
  unfolding input_handlers
  input_handlers-hold =
      input_cmd_accel_profile-Keeps n lib
      & input_cmd_calibration_matrix-Keeps n lib
      & input_cmd_click_method-Keeps n lib
      & input_cmd_drag-Keeps n lib
      & input_cmd_drag_lock-Keeps n lib
      & input_cmd_dwt-Keeps n lib
      & input_cmd_events-Keeps n lib w e
      & input_cmd_left_handed-Keeps n lib
      & input_cmd_map_from_region-Keeps n lib
      & input_cmd_map_to_output-Keeps n lib
      & input_cmd_map_to_region-Keeps n lib
      & input_cmd_middle_emulation-Keeps n lib
      & input_cmd_natural_scroll-Keeps n lib
      & input_cmd_pointer_accel-Keeps n lib
      & input_cmd_repeat_delay-Keeps n lib
      & input_cmd_repeat_rate-Keeps n lib
      & input_cmd_scroll_button-Keeps n lib
      & input_cmd_scroll_factor-Keeps n lib
      & input_cmd_scroll_method-Keeps n lib
      & input_cmd_tap-Keeps n lib
      & input_cmd_tap_button_map-Keeps n lib
      & input_cmd_tool_mode-Keeps n lib
      & input_cmd_xkb_file-Keeps n lib
      & input_cmd_xkb_layout-Keeps n lib
      & input_cmd_xkb_model-Keeps n lib
      & input_cmd_xkb_options-Keeps n lib
      & input_cmd_xkb_rules-Keeps n lib
      & input_cmd_xkb_switch_layout-Keeps n lib
      & input_cmd_xkb_variant-Keeps n lib
      & tt

  pub input_config_handlers-hold : AllHold n lib w StaysSound (input_config_handlers n lib w)
  unfolding input_config_handlers
  input_config_handlers-hold =
      input_cmd_xkb_capslock-Keeps n lib & input_cmd_xkb_numlock-Keeps n lib & tt

  keep_result-AllConfigs :
      (status : Status) (config : Config n) (ic : InputConfig n)
      → AllConfigs n (IsValid n lib) config.configs
      → IsValid n lib ic
      → AllConfigs n (IsValid n lib) (keep_result n lib w status config ic).1.configs
  unfolding keep_result
  keep_result-AllConfigs status config ic h v =
      elim (Option-cases (store_input_config n w true config.configs ic)) [
        | inl f ↦ rw (f, keep_result) h
        | inr ((stored, after), f) ↦
            rw (f, keep_result)
              (store_input_config-closed n w (IsValid n lib) (IsValid-IsClosed n lib e) true
                config.configs ic stored after h v f).1
      ]

  store_or_free-AllConfigs :
      (stores : Bool) (status : Status) (after : Config n)
      → IsSound n lib after
      → AllConfigs n (IsValid n lib) (store_or_free n lib w stores status after).1.configs
  unfolding store_or_free
  store_or_free-AllConfigs false status after h = h.stored
  store_or_free-AllConfigs true status after h = elim (Option-cases after.input_config) [
    | inl f ↦ rw (f, store_or_free) h.stored
    | inr (ic, f) ↦
        rw (f, store_or_free)
          (keep_result-AllConfigs status after ic h.stored (subst (HasValid n lib) f h.at_hand))
  ]

  -- All that is stored keeps to the bounds after the command `input`, whatever its arguments are and
  -- whether or not it succeeds, where all that was stored did: repeat delay and rate are not
  -- negative, the acceleration is from -1 to 1, the scroll factor is not negative, regions are not
  -- empty, rectangles are in order and keymap files are marked as set, or nothing of the kind is
  -- set. FLT_MIN is equal to itself.
  pub cmd_input-IsValid :
      (config : Config n) (argv : List CString)
      → AllConfigs n (IsValid n lib) config.configs
      → AllConfigs n (IsValid n lib) (cmd_input n lib w config argv).1.configs
  unfolding cmd_input
  cmd_input-IsValid config argv h = elim (Option-cases (checkarg (length argv) at_least 2)) [
    | inr (status, f) ↦ rw (f, cmd_input) h
    | inl f ↦
        let id = arg argv 0 in
        let r = run_subcommand n lib w (entered n lib w config id) (drop 1 argv) in
        rw (f, cmd_input)
          (store_or_free-AllConfigs
            (is_success n lib w r.0 && not (strcmp (arg argv 1) (codes "xkb_switch_layout"))) r.0
            r.1
            (run_subcommand-holds n lib w StaysSound (entered n lib w config id) (drop 1 argv)
              (λ k. k) input_handlers-hold input_config_handlers-hold
              (record { at_hand = new-IsValid n lib id e; stored = h })))
  ]
