-- ===== src/Config/Input.antt =====
-- src/config/input.c: the configurations of input devices, of all devices of a type, and of all
-- devices ("*"), and how one is merged on another. An `int` is an integer, INT_MIN where nothing
-- is set; a floating-point number is a value of a type that is a parameter, with FLT_MIN and C's
-- test for equality. Whether the keyboard library makes a keymap of a file or of rule names is a
-- parameter too, and so are the devices that are plugged in. The two lists hold the
-- configurations themselves, as each is in one list and is changed there.
pub mod Merge
use hayward.Common.{
  ℕ, zero, suc, List, [], ◌∷◌, ◌++◌, Option, none, some, Bool, true, false, not, ◌&&◌, ℤ, pos,
  negsuc, same_int, int_min, drop, set, if◌then◌else◌,
}
use hayward.Text.{CString, codes, strcmp, starts_with}

pub record Floats : Type 1 where
  pub Float : Type 0
  pub Double : Type 0
  pub flt_min : Float
  pub same_float : Float → Float → Bool

pub data ToolType : Type 0 where
  pen eraser brush pencil airbrush : ToolType

pub data ToolMode : Type 0 where
  absolute relative : ToolMode

pub record Tool : Type 0 where
  pub type : ToolType
  pub mode : ToolMode

pub data MappedTo : Type 0 where
  mapped_to_default mapped_to_output mapped_to_region : MappedTo

pub record Box : Type 0 where
  pub x : ℤ
  pub y : ℤ
  pub width : ℤ
  pub height : ℤ

pub record MappedFromRegion (n : Floats) : Type 0 where
  pub x1 : n.Double
  pub y1 : n.Double
  pub x2 : n.Double
  pub y2 : n.Double
  pub mm : Bool

-- The members `capturable` and `region`, which nothing uses, are left out.
pub record InputConfig (n : Floats) : Type 0 where
  pub identifier : CString
  pub input_type : Option CString
  pub accel_profile : ℤ
  pub calibration_matrix : Option (List n.Float)
  pub click_method : ℤ
  pub drag : ℤ
  pub drag_lock : ℤ
  pub dwt : ℤ
  pub left_handed : ℤ
  pub middle_emulation : ℤ
  pub natural_scroll : ℤ
  pub pointer_accel : n.Float
  pub scroll_factor : n.Float
  pub repeat_delay : ℤ
  pub repeat_rate : ℤ
  pub scroll_button : ℤ
  pub scroll_method : ℤ
  pub send_events : ℤ
  pub tap : ℤ
  pub tap_button_map : ℤ
  pub xkb_layout : Option CString
  pub xkb_model : Option CString
  pub xkb_options : Option CString
  pub xkb_rules : Option CString
  pub xkb_variant : Option CString
  pub xkb_file : Option CString
  pub xkb_file_is_set : Bool
  pub xkb_numlock : ℤ
  pub xkb_capslock : ℤ
  pub mapped_from_region : Option (MappedFromRegion n)
  pub mapped_to : MappedTo
  pub mapped_to_output : Option CString
  pub mapped_to_region : Option Box
  pub tools : List Tool

-- `if (src != INT_MIN) dst = src`, and the same for a pointer that is not NULL.
unfoldable pub override : ℤ → ℤ → ℤ
override dst src = if same_int src int_min then dst else src

unfoldable pub replace {ℓ} : {A : Type ℓ} → Option A → Option A → Option A
replace dst none = dst
replace dst (some v) = some v

unfoldable pub replace_mapped : MappedTo → MappedTo → MappedTo
replace_mapped dst mapped_to_default = dst
replace_mapped dst mapped_to_output = mapped_to_output
replace_mapped dst mapped_to_region = mapped_to_region

abbrev pub same_tool : ToolType → ToolType → Bool
same_tool pen pen = true
same_tool eraser eraser = true
same_tool brush brush = true
same_tool pencil pencil = true
same_tool airbrush airbrush = true
same_tool _ _ = false

-- The first tool of the type gets the mode; a tool of a new type comes last.
unfoldable pub put_tool : List Tool → Tool → List Tool
put_tool [] t = t ∷ []
put_tool (u ∷ us) t =
    if same_tool u.type t.type then record u { mode = t.mode } ∷ us else u ∷ put_tool us t

unfoldable pub merge_tools : List Tool → List Tool → List Tool
unfolding put_tool
merge_tools dst [] = dst
merge_tools dst (t ∷ ts) = merge_tools (put_tool dst t) ts

abbrev pub is_set {ℓ} : {A : Type ℓ} → Option A → Bool
is_set none = false
is_set (some v) = true

module _ (n : Floats) where
  unfoldable pub override_float : n.Float → n.Float → n.Float
  override_float dst src = if n.same_float src n.flt_min then dst else src

  unfoldable pub new_input_config : CString → InputConfig n
  new_input_config identifier = record {
    identifier = identifier;
    input_type = none;
    accel_profile = int_min;
    calibration_matrix = none;
    click_method = int_min;
    drag = int_min;
    drag_lock = int_min;
    dwt = int_min;
    left_handed = int_min;
    middle_emulation = int_min;
    natural_scroll = int_min;
    pointer_accel = n.flt_min;
    scroll_factor = n.flt_min;
    repeat_delay = int_min;
    repeat_rate = int_min;
    scroll_button = int_min;
    scroll_method = int_min;
    send_events = int_min;
    tap = int_min;
    tap_button_map = int_min;
    xkb_layout = none;
    xkb_model = none;
    xkb_options = none;
    xkb_rules = none;
    xkb_variant = none;
    xkb_file = none;
    xkb_file_is_set = false;
    xkb_numlock = int_min;
    xkb_capslock = int_min;
    mapped_from_region = none;
    mapped_to = mapped_to_default;
    mapped_to_output = none;
    mapped_to_region = none;
    tools = [];
  }

  unfoldable pub merge_input_config : (dst src : InputConfig n) → InputConfig n
  unfolding override replace replace_mapped override_float merge_tools
  merge_input_config dst src = record dst {
    accel_profile = override dst.accel_profile src.accel_profile;
    click_method = override dst.click_method src.click_method;
    drag = override dst.drag src.drag;
    drag_lock = override dst.drag_lock src.drag_lock;
    dwt = override dst.dwt src.dwt;
    left_handed = override dst.left_handed src.left_handed;
    middle_emulation = override dst.middle_emulation src.middle_emulation;
    natural_scroll = override dst.natural_scroll src.natural_scroll;
    pointer_accel = override_float dst.pointer_accel src.pointer_accel;
    scroll_factor = override_float dst.scroll_factor src.scroll_factor;
    repeat_delay = override dst.repeat_delay src.repeat_delay;
    repeat_rate = override dst.repeat_rate src.repeat_rate;
    scroll_method = override dst.scroll_method src.scroll_method;
    scroll_button = override dst.scroll_button src.scroll_button;
    send_events = override dst.send_events src.send_events;
    tap = override dst.tap src.tap;
    tap_button_map = override dst.tap_button_map src.tap_button_map;
    xkb_file = if src.xkb_file_is_set then src.xkb_file else dst.xkb_file;
    xkb_file_is_set = if src.xkb_file_is_set then is_set src.xkb_file else dst.xkb_file_is_set;
    xkb_layout = replace dst.xkb_layout src.xkb_layout;
    xkb_model = replace dst.xkb_model src.xkb_model;
    xkb_options = replace dst.xkb_options src.xkb_options;
    xkb_rules = replace dst.xkb_rules src.xkb_rules;
    xkb_variant = replace dst.xkb_variant src.xkb_variant;
    xkb_numlock = override dst.xkb_numlock src.xkb_numlock;
    xkb_capslock = override dst.xkb_capslock src.xkb_capslock;
    mapped_from_region = replace dst.mapped_from_region src.mapped_from_region;
    mapped_to = replace_mapped dst.mapped_to src.mapped_to;
    mapped_to_output = replace dst.mapped_to_output src.mapped_to_output;
    mapped_to_region = replace dst.mapped_to_region src.mapped_to_region;
    calibration_matrix = replace dst.calibration_matrix src.calibration_matrix;
    tools = merge_tools dst.tools src.tools;
  }
