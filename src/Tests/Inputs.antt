-- ===== src/Tests/Inputs.antt =====
-- Input commands on a configuration for all devices and one for a keyboard that is plugged in.
use hayward.Common.{
  refl, ℕ, ◌+◌, ◌*◌, ◌-◌, List, [], ◌∷◌, none, some, Bool, true, false, ◌==◌, ◌&&◌, leb, ltb, not,
  ℤ, pos, negsuc, if◌then◌else◌,
}
use hayward.Text.{CString, codes, strcmp, starts_with}
use hayward.Config.Input.{Floats, InputConfig, new_input_config}
use hayward.Config.Store.{World, Configs, store_input_config, hwd_keyboard_compile_keymap}
use hayward.Config.Store.Lists.{AllConfigs}
use hayward.Config.Store.Keymaps.{HasKeymap, HasKeymaps}
use hayward.Config.Store.Kept.{store_input_config-HasKeymaps}
use hayward.Commands.Library.{Library, Parsed, Config, Keyboard}
use hayward.Commands.Keyboard.{input_cmd_repeat_rate}
use hayward.Commands.Input.{cmd_input}
use hayward.Commands.Valid.{IsValid, new-IsValid}
use hayward.Commands.Valid.Input.{cmd_input-IsValid}
use hayward.Commands.Reading.{Same, cmd_input-fails, cmd_input-HasKeymaps}

-- Floating-point numbers without fractions.
abbrev pub whole_numbers : Floats
whole_numbers = record {
  Float = ℤ;
  Double = ℤ;
  flt_min = pos 1000;
  same_float = λ a b. elim a [
    | pos x ↦ elim b [ pos y ↦ x == y | negsuc y ↦ false ]
    | negsuc x ↦ elim b [ pos y ↦ false | negsuc y ↦ x == y ]
  ];
}

-- The digits at the start of a text, after `n` that were read.
abbrev read_digits : ℕ → CString → Parsed ℤ
read_digits n [] = record { value = pos n; rest = []; is_out_of_range = false }
read_digits n (c ∷ s) =
    let further = read_digits (n * 10 + (c - b'0')) s in
    if leb b'0' c && leb c b'9'
    then further
    else record { value = pos n; rest = c ∷ s; is_out_of_range = false }

abbrev read_number : CString → Parsed ℤ
read_number [] = read_digits 0 []
read_number (c ∷ s) =
    let parsed = read_digits 0 s in
    if c == b'-'
    then record {
      value = elim parsed.value [ pos a ↦ negsuc (a - 1) | negsuc a ↦ pos 0 ];
      rest = parsed.rest;
      is_out_of_range = false;
    }
    else read_digits 0 (c ∷ s)

abbrev is_less : ℤ → ℤ → Bool
is_less (pos a) (pos b) = ltb a b
is_less (pos a) (negsuc b) = false
is_less (negsuc a) (pos b) = true
is_less (negsuc a) (negsuc b) = ltb b a

abbrev keyboard : Keyboard
keyboard = record { identifier = codes "1:1:keys"; num_layouts = 3; is_active = λ i. i == 2 }

abbrev pub tools : Library whole_numbers
tools = record {
  constants = record {
    accel_profile_flat = pos 1;
    accel_profile_adaptive = pos 2;
    click_method_none = pos 0;
    click_method_button_areas = pos 1;
    click_method_clickfinger = pos 2;
    drag_disabled = pos 0;
    drag_enabled = pos 1;
    drag_lock_disabled = pos 0;
    drag_lock_enabled = pos 1;
    dwt_disabled = pos 0;
    dwt_enabled = pos 1;
    middle_emulation_disabled = pos 0;
    middle_emulation_enabled = pos 1;
    scroll_no_scroll = pos 0;
    scroll_2fg = pos 1;
    scroll_edge = pos 2;
    scroll_on_button_down = pos 4;
    send_events_enabled = pos 0;
    send_events_disabled = pos 1;
    send_events_disabled_on_external_mouse = pos 2;
    tap_disabled = pos 0;
    tap_enabled = pos 1;
    tap_map_lrm = pos 0;
    tap_map_lmr = pos 1;
    btn_left = pos 272;
    btn_middle = pos 274;
    btn_right = pos 273;
    btn_side = pos 275;
    btn_extra = pos 276;
    key_max = 767;
  };
  nan = pos 9999;
  isnan = λ v. whole_numbers.same_float v (pos 9999);
  is_below = is_less;
  is_above = λ v i. is_less i v;
  exceeds = λ a b. is_less b a;
  strtof = read_number;
  strtod = read_number;
  strtol = read_number;
  atoi = λ s. (read_number s).value;
  wordexp = λ s. some (s ∷ []);
  event_code_from_name = λ s. none;
  event_code_get_name = λ code. none;
  send_events = λ d. none;
  keyboards = keyboard ∷ [];
}

-- Rule names make a keymap unless the layout is "none".
abbrev one_keyboard : World
one_keyboard = record {
  keymap_from_file = λ file. true;
  keymap_from_names =
      λ names. elim names.layout [ none ↦ true | some l ↦ not (strcmp l (codes "none")) ];
  devices = (record { identifier = codes "1:1:keys"; type = some (codes "keyboard") }) ∷ [];
}

abbrev two_configs : Configs whole_numbers
two_configs = record {
  input_configs =
      new_input_config whole_numbers (codes "*")
      ∷ new_input_config whole_numbers (codes "1:1:keys")
      ∷ [];
  input_type_configs = [];
}

abbrev at_start : Config whole_numbers
at_start = record {
  reading = true;
  active = false;
  reloading = false;
  input_config = none;
  configs = two_configs;
  applied = [];
  switched = [];
}

two_configs-IsValid : AllConfigs whole_numbers (IsValid whole_numbers tools) two_configs
two_configs-IsValid = record {
  inputs = (
    new-IsValid whole_numbers tools (codes "*") refl,
    (new-IsValid whole_numbers tools (codes "1:1:keys") refl, tt),
  );
  types = tt;
}

two_configs-HasKeymaps : HasKeymaps whole_numbers one_keyboard two_configs
unfolding new_input_config hwd_keyboard_compile_keymap
two_configs-HasKeymaps = record {
  inputs = (
    record { is_settled = refl; compiles = refl },
    (record { is_settled = refl; compiles = refl }, tt),
  );
  types = tt;
}

abbrev set_rate : List CString
set_rate = codes "*" ∷ codes "repeat_rate" ∷ codes "20" ∷ []

abbrev set_bad_rate : List CString
set_bad_rate = codes "*" ∷ codes "repeat_rate" ∷ codes "-5" ∷ []

abbrev set_layout : List CString
set_layout = codes "*" ∷ codes "xkb_layout" ∷ codes "de" ∷ []

cmd_input-IsValid_example :
    AllConfigs whole_numbers
      (IsValid whole_numbers tools)
      (cmd_input whole_numbers tools one_keyboard at_start set_rate).1.configs
cmd_input-IsValid_example =
    cmd_input-IsValid whole_numbers tools one_keyboard refl at_start set_rate two_configs-IsValid

cmd_input-fails_example :
    Same whole_numbers at_start (cmd_input whole_numbers tools one_keyboard at_start set_bad_rate).1
unfolding cmd_input input_cmd_repeat_rate
cmd_input-fails_example =
    cmd_input-fails whole_numbers tools one_keyboard at_start set_bad_rate refl refl

cmd_input-HasKeymaps_example :
    HasKeymaps whole_numbers one_keyboard
      (cmd_input whole_numbers tools one_keyboard at_start set_layout).1.configs
cmd_input-HasKeymaps_example =
    cmd_input-HasKeymaps whole_numbers tools one_keyboard at_start set_layout refl refl
      two_configs-IsValid two_configs-HasKeymaps

-- A layout for all devices, on the configuration of all of them.
abbrev german : InputConfig whole_numbers
german = record (new_input_config whole_numbers (codes "*")) { xkb_layout = some (codes "de") }

abbrev german_first : Configs whole_numbers
german_first = record {
  input_configs =
      german
      ∷ (record (new_input_config whole_numbers (codes "1:1:keys")) {
        xkb_layout = some (codes "de");
      })
      ∷ [];
  input_type_configs = [];
}

store_input_config-HasKeymaps_example :
    HasKeymap whole_numbers one_keyboard german × HasKeymaps whole_numbers one_keyboard german_first
unfolding store_input_config new_input_config starts_with
store_input_config-HasKeymaps_example =
    store_input_config-HasKeymaps whole_numbers one_keyboard two_configs german german german_first
      two_configs-HasKeymaps refl refl
