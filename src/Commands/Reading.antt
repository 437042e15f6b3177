-- ===== src/Commands/Reading.antt =====
-- While the configuration file is read, the handlers of src/commands/input/ leave the stored
-- configurations alone, and the command `input` changes them only where it succeeds.
use hayward.Common.{
  ◌≡◌, refl, sym, subst, ◌∙◌, List, length, drop, Option, none, some, Bool, true, false, ℕ,
  Option-cases, inl, inr, arith, not, ◌&&◌,
}
use hayward.Text.{CString, codes, strcmp}
use hayward.Config.Input.{Floats, InputConfig}
use hayward.Config.Store.{World, store_input_config}
use hayward.Config.Store.Lists.{AllConfigs}
use hayward.Config.Store.Keymaps.{HasKeymaps}
use hayward.Config.Store.Kept.{store_input_config-HasKeymaps}
use hayward.Commands.Args.{Status, ExpectedArgs, at_least, equal_to, checkarg, arg}
use hayward.Commands.Library.{Library, Config, on_hand, guarded, changing}
use hayward.Commands.Pointer.{
  input_cmd_accel_profile, input_cmd_calibration_matrix, input_cmd_click_method, input_cmd_drag,
  input_cmd_drag_lock, input_cmd_dwt, input_cmd_left_handed, input_cmd_middle_emulation,
  input_cmd_natural_scroll, input_cmd_pointer_accel, input_cmd_scroll_button,
  input_cmd_scroll_factor, input_cmd_scroll_method, input_cmd_tap, input_cmd_tap_button_map,
}
use hayward.Commands.Keyboard.{
  input_cmd_repeat_delay, input_cmd_repeat_rate, input_cmd_xkb_capslock, input_cmd_xkb_file,
  input_cmd_xkb_layout, input_cmd_xkb_model, input_cmd_xkb_options, input_cmd_xkb_rules,
  input_cmd_xkb_variant, input_cmd_xkb_numlock,
}
use hayward.Commands.Mapping.{
  input_cmd_map_to_output, input_cmd_map_to_region, input_cmd_map_from_region, input_cmd_tool_mode,
}
use hayward.Commands.Events.{input_cmd_events}
use hayward.Commands.SwitchLayout.{input_cmd_xkb_switch_layout}
use hayward.Commands.Input.{
  input_handlers, input_config_handlers, run_subcommand, keep_result, is_success, store_or_free,
  entered, cmd_input,
}
use hayward.Commands.Run.{◌&◌, AllHold, run_subcommand-holds}
use hayward.Commands.Valid.{IsValid, IsSound, HasValid, new-IsValid}
use hayward.Commands.Valid.Input.{StaysSound, input_handlers-hold, input_config_handlers-hold}

module _ (n : Floats) where
  -- What is stored, and what devices have been told, is the same.
  pub record Same (before after : Config n) : Type 0 where
    pub configs : after.configs ≡ before.configs
    pub applied : after.applied ≡ before.applied

  abbrev Stays : Config n → Config n → Type 0
  Stays before after = before.reading ≡ true → Same before after

  run-Same :
      (o : Option (InputConfig n)) (run : InputConfig n → Status × Config n) (config : Config n)
      → ((ic : InputConfig n) → Same config (run ic).1)
      → Same config (on_hand n o run config).1
  run-Same none run config same = record { configs = refl; applied = refl }
  run-Same (some ic) run config same = same ic

  guarded-Same :
      (type : ExpectedArgs) (val : ℕ) (run : InputConfig n → Status × Config n) (config : Config n)
      (argv : List CString)
      → ((ic : InputConfig n) → Same config (run ic).1)
      → Same config (guarded n type val run config argv).1
  unfolding guarded
  guarded-Same type val run config argv same =
      elim (Option-cases (checkarg (length argv) type val)) [
        | inr (status, e) ↦ rw (e, guarded) (record { configs = refl; applied = refl })
        | inl e ↦ rw (e, guarded) (run-Same config.input_config run config same)
      ]

  changing-Stays :
      (type : ExpectedArgs) (val : ℕ) (run : InputConfig n → Status × InputConfig n)
      (config : Config n) (argv : List CString)
      → Stays config (changing n type val run config argv).1
  unfolding changing
  changing-Stays type val run config argv h =
      guarded-Same type val
        (λ ic.
          let (status, changed) = run ic in (status, record config { input_config = some changed }))
        config argv (λ ic. record { configs = refl; applied = refl })

  input_cmd_events-Stays :
      (lib : Library n) (w : World) (config : Config n) (argv : List CString)
      → Stays config (input_cmd_events n lib w config argv).1
  unfolding input_cmd_events
  input_cmd_events-Stays lib w config argv h =
      guarded-Same at_least 1 _ config argv (λ ic. ground arith)

  input_cmd_xkb_switch_layout-Stays :
      (lib : Library n) (config : Config n) (argv : List CString)
      → Stays config (input_cmd_xkb_switch_layout n lib config argv).1
  unfolding input_cmd_xkb_switch_layout
  input_cmd_xkb_switch_layout-Stays lib config argv h =
      guarded-Same equal_to 1 _ config argv (λ ic. ground arith)

module _ (n : Floats) (lib : Library n) (w : World) where
  input_handlers-Stay : AllHold n lib w (Stays n) (input_handlers n lib w)
  unfolding input_handlers input_cmd_accel_profile input_cmd_calibration_matrix
      input_cmd_click_method input_cmd_drag input_cmd_drag_lock input_cmd_dwt input_cmd_left_handed
      input_cmd_map_from_region input_cmd_map_to_output input_cmd_map_to_region
      input_cmd_middle_emulation input_cmd_natural_scroll input_cmd_pointer_accel
      input_cmd_repeat_delay input_cmd_repeat_rate input_cmd_scroll_button input_cmd_scroll_factor
      input_cmd_scroll_method input_cmd_tap input_cmd_tap_button_map input_cmd_tool_mode
      input_cmd_xkb_file input_cmd_xkb_layout input_cmd_xkb_model input_cmd_xkb_options
      input_cmd_xkb_rules input_cmd_xkb_variant
  input_handlers-Stay =
      (λ config argv. changing-Stays n at_least 1 _ config argv)
      & (λ config argv. changing-Stays n equal_to 6 _ config argv)
      & (λ config argv. changing-Stays n at_least 1 _ config argv)
      & (λ config argv. changing-Stays n at_least 1 _ config argv)
      & (λ config argv. changing-Stays n at_least 1 _ config argv)
      & (λ config argv. changing-Stays n at_least 1 _ config argv)
      & input_cmd_events-Stays n lib w
      & (λ config argv. changing-Stays n at_least 1 _ config argv)
      & (λ config argv. changing-Stays n equal_to 2 _ config argv)
      & (λ config argv. changing-Stays n equal_to 1 _ config argv)
      & (λ config argv. changing-Stays n equal_to 4 _ config argv)
      & (λ config argv. changing-Stays n at_least 1 _ config argv)
      & (λ config argv. changing-Stays n at_least 1 _ config argv)
      & (λ config argv. changing-Stays n at_least 1 _ config argv)
      & (λ config argv. changing-Stays n equal_to 1 _ config argv)
      & (λ config argv. changing-Stays n equal_to 1 _ config argv)
      & (λ config argv. changing-Stays n at_least 1 _ config argv)
      & (λ config argv. changing-Stays n at_least 1 _ config argv)
      & (λ config argv. changing-Stays n at_least 1 _ config argv)
      & (λ config argv. changing-Stays n at_least 1 _ config argv)
      & (λ config argv. changing-Stays n at_least 1 _ config argv)
      & (λ config argv. changing-Stays n at_least 2 _ config argv)
      & (λ config argv. changing-Stays n equal_to 1 _ config argv)
      & (λ config argv. changing-Stays n equal_to 1 _ config argv)
      & (λ config argv. changing-Stays n equal_to 1 _ config argv)
      & (λ config argv. changing-Stays n equal_to 1 _ config argv)
      & (λ config argv. changing-Stays n equal_to 1 _ config argv)
      & input_cmd_xkb_switch_layout-Stays n lib
      & (λ config argv. changing-Stays n equal_to 1 _ config argv)
      & tt

  input_config_handlers-Stay : AllHold n lib w (Stays n) (input_config_handlers n lib w)
  unfolding input_config_handlers input_cmd_xkb_capslock input_cmd_xkb_numlock
  input_config_handlers-Stay =
      (λ config argv. changing-Stays n at_least 1 _ config argv)
      & (λ config argv. changing-Stays n at_least 1 _ config argv)
      & tt

  store_or_free-Same :
      (stores : Bool) (status : Status) (after : Config n)
      → (stores ≡ true → is_success n lib w status ≡ true)
      → is_success n lib w (store_or_free n lib w stores status after).0 ≡ false
      → Same n after (store_or_free n lib w stores status after).1
  unfolding store_or_free keep_result
  store_or_free-Same false status after s h = ground arith
  store_or_free-Same true status after s h = let done = s refl in ground (arith, done)

  both_true : (a b : Bool) → (a && b) ≡ true → a ≡ true
  both_true true b h = refl
  both_true false b h = h

  -- While the configuration file is read, the command `input` that does not succeed leaves the
  -- stored configurations as they are, and no configuration is applied.
  pub cmd_input-fails :
      (config : Config n) (argv : List CString)
      → config.reading ≡ true
      → is_success n lib w (cmd_input n lib w config argv).0 ≡ false
      → Same n config (cmd_input n lib w config argv).1
  unfolding cmd_input
  cmd_input-fails config argv h f = elim (Option-cases (checkarg (length argv) at_least 2)) [
    | inr (status, g) ↦ rw (g, cmd_input) (record { configs = refl; applied = refl })
    | inl g ↦
        let id = arg argv 0 in
        let r = run_subcommand n lib w (entered n lib w config id) (drop 1 argv) in
        let stores =
          is_success n lib w r.0 && not (strcmp (arg argv 1) (codes "xkb_switch_layout")) in
        let ran =
          run_subcommand-holds n lib w (Stays n) (entered n lib w config id) (drop 1 argv)
            (λ _. record { configs = refl; applied = refl }) input_handlers-Stay
            input_config_handlers-Stay h in
        let last =
          store_or_free-Same stores r.0 r.1 (both_true _ _) (sym (rw (g, cmd_input) refl) ∙ f) in
        rw (g, cmd_input)
          (record { configs = last.configs ∙ ran.configs; applied = last.applied ∙ ran.applied })
  ]

  keep_result-HasKeymaps :
      (status : Status) (config : Config n) (ic : InputConfig n)
      → HasKeymaps n w config.configs
      → IsValid n lib ic
      → HasKeymaps n w (keep_result n lib w status config ic).1.configs
  unfolding keep_result
  keep_result-HasKeymaps status config ic k v =
      elim (Option-cases (store_input_config n w true config.configs ic)) [
        | inl f ↦ rw (f, keep_result) k
        | inr ((stored, after), f) ↦
            rw (f, keep_result)
              (store_input_config-HasKeymaps n w config.configs ic stored after k v.is_settled f).1
      ]

  store_or_free-HasKeymaps :
      (stores : Bool) (status : Status) (after : Config n)
      → IsSound n lib after
      → HasKeymaps n w after.configs
      → HasKeymaps n w (store_or_free n lib w stores status after).1.configs
  unfolding store_or_free keep_result
  store_or_free-HasKeymaps false status after h k = k
  store_or_free-HasKeymaps true status after h k = elim (Option-cases after.input_config) [
    | inl f ↦ rw (f, store_or_free) k
    | inr (ic, f) ↦
        rw (f, store_or_free)
          (keep_result-HasKeymaps status after ic k (subst (HasValid n lib) f h.at_hand))
  ]

  -- While the configuration file is read, every stored configuration goes on to make a keymap
  -- whatever the arguments of the command `input` are, where all that was stored did and was within
  -- the bounds. FLT_MIN is equal to itself.
  pub cmd_input-HasKeymaps :
      (config : Config n) (argv : List CString)
      → n.same_float n.flt_min n.flt_min ≡ true
      → config.reading ≡ true
      → AllConfigs n (IsValid n lib) config.configs
      → HasKeymaps n w config.configs
      → HasKeymaps n w (cmd_input n lib w config argv).1.configs
  unfolding cmd_input
  cmd_input-HasKeymaps config argv e h v k =
      elim (Option-cases (checkarg (length argv) at_least 2)) [
        | inr (status, g) ↦ rw (g, cmd_input) k
        | inl g ↦
            let id = arg argv 0 in
            let r = run_subcommand n lib w (entered n lib w config id) (drop 1 argv) in
            let stores =
              is_success n lib w r.0 && not (strcmp (arg argv 1) (codes "xkb_switch_layout")) in
            let ran =
              run_subcommand-holds n lib w (Stays n) (entered n lib w config id) (drop 1 argv)
                (λ _. record { configs = refl; applied = refl }) input_handlers-Stay
                input_config_handlers-Stay h in
            let sound =
              run_subcommand-holds n lib w (StaysSound n lib w e) (entered n lib w config id)
                (drop 1 argv) (λ s. s) (input_handlers-hold n lib w e)
                (input_config_handlers-hold n lib w e)
                (record { at_hand = new-IsValid n lib id e; stored = v }) in
            rw (g, cmd_input)
              (store_or_free-HasKeymaps stores r.0 r.1 sound
                (subst (HasKeymaps n w) (sym ran.configs) k))
      ]
