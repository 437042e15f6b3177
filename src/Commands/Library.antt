-- ===== src/Commands/Library.antt =====
-- What the input commands are built on: the libraries they call, as parameters, the part of the
-- global `config` that they read and write, and the checks that every one of them starts with.
use hayward.Common.{ℕ, List, length, Option, none, some, Bool, ℤ}
use hayward.Text.{CString}
use hayward.Config.Input.{Floats, InputConfig}
use hayward.Config.Store.{Configs, Device}
use hayward.Commands.Args.{Status, ExpectedArgs, failure, checkarg}

-- What strtol, strtod and strtof return: the value, the rest of the text, and whether errno says
-- that the value is out of range.
pub record Parsed (A : Type 0) : Type 0 where
  pub value : A
  pub rest : CString
  pub is_out_of_range : Bool

-- libinput_device_config_send_events_get_mode, and the modes that _get_modes has a bit of.
pub record SendEvents : Type 0 where
  pub mode : ℤ
  pub is_possible : ℤ → Bool

-- The values of libinput's enumerations, and the codes of the buttons of the kernel.
pub record Constants : Type 0 where
  pub accel_profile_flat : ℤ
  pub accel_profile_adaptive : ℤ
  pub click_method_none : ℤ
  pub click_method_button_areas : ℤ
  pub click_method_clickfinger : ℤ
  pub drag_disabled : ℤ
  pub drag_enabled : ℤ
  pub drag_lock_disabled : ℤ
  pub drag_lock_enabled : ℤ
  pub dwt_disabled : ℤ
  pub dwt_enabled : ℤ
  pub middle_emulation_disabled : ℤ
  pub middle_emulation_enabled : ℤ
  pub scroll_no_scroll : ℤ
  pub scroll_2fg : ℤ
  pub scroll_edge : ℤ
  pub scroll_on_button_down : ℤ
  pub send_events_enabled : ℤ
  pub send_events_disabled : ℤ
  pub send_events_disabled_on_external_mouse : ℤ
  pub tap_disabled : ℤ
  pub tap_enabled : ℤ
  pub tap_map_lrm : ℤ
  pub tap_map_lmr : ℤ
  pub btn_left : ℤ
  pub btn_middle : ℤ
  pub btn_right : ℤ
  pub btn_side : ℤ
  pub btn_extra : ℤ
  pub key_max : ℕ

-- A keyboard: xkb_keymap_num_layouts of its keymap, and xkb_state_layout_index_is_active.
pub record Keyboard : Type 0 where
  pub identifier : CString
  pub num_layouts : ℕ
  pub is_active : ℕ → Bool

-- The layout that a keyboard is to get.
pub record Action : Type 0 where
  pub keyboard : Keyboard
  pub layout : ℕ

pub record Library (n : Floats) : Type 0 where
  pub constants : Constants
  pub nan : n.Float
  pub isnan : n.Float → Bool
  pub is_below : n.Float → ℤ → Bool
  pub is_above : n.Float → ℤ → Bool
  pub exceeds : n.Double → n.Double → Bool
  pub strtof : CString → Parsed n.Float
  pub strtod : CString → Parsed n.Double
  pub strtol : CString → Parsed ℤ
  pub atoi : CString → ℤ
  -- wordexp, where it succeeds and gives a word
  pub wordexp : CString → Option (List CString)
  pub event_code_from_name : CString → Option ℤ
  pub event_code_get_name : ℤ → Option CString
  -- a device of libinput
  pub send_events : Device → Option SendEvents
  -- those of server.input->devices that are keyboards
  pub keyboards : List Keyboard

-- config->reading, config->active, config->reloading, config->handler_context.input_config and the
-- lists; `applied` are the calls of input_manager_apply_input_config and `switched` those of
-- wlr_keyboard_notify_modifiers.
pub record Config (n : Floats) : Type 0 where
  pub reading : Bool
  pub active : Bool
  pub reloading : Bool
  pub input_config : Option (InputConfig n)
  pub configs : Configs n
  pub applied : List (InputConfig n)
  pub switched : List Action

module _ (n : Floats) where
  abbrev pub Handler : Type 0
  Handler = Config n → List CString → Status × Config n

  abbrev pub on_hand :
      Option (InputConfig n) → (InputConfig n → Status × Config n) → Config n → Status × Config n
  on_hand none run config = (failure, config)
  on_hand (some ic) run config = run ic

  -- The number of the arguments is checked, then that there is a configuration to change.
  unfoldable pub guarded :
      ExpectedArgs
      → ℕ
      → (InputConfig n → Status × Config n)
      → Config n
      → List CString
      → Status × Config n
  unfolding checkarg
  guarded type val run config argv = elim (checkarg (length argv) type val) [
    | some status ↦ (status, config)
    | none ↦ on_hand config.input_config run config
  ]

  -- A handler that changes nothing but the configuration at hand.
  unfoldable pub changing :
      ExpectedArgs
      → ℕ
      → (InputConfig n → Status × InputConfig n)
      → Config n
      → List CString
      → Status × Config n
  unfolding guarded
  changing type val run config argv =
      guarded type val
        (λ ic.
          let (status, changed) = run ic in (status, record config { input_config = some changed }))
        config argv
