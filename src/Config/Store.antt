-- ===== src/Config/Store.antt =====
-- src/config/input.c: store_input_config, which puts a configuration into the lists, merged on what
-- is there, after it has been tried whether keymaps can still be made. `none` is the result NULL.
pub mod Lists
pub mod Keymaps
pub mod Kept
pub mod Closed
use hayward.Common.{
  ℕ, zero, suc, List, [], ◌∷◌, ◌++◌, Option, none, some, Bool, true, false, not, ◌&&◌, ◌||◌, drop,
  if◌then◌else◌,
}
use hayward.Text.{CString, codes, strcmp, starts_with}
use hayward.Config.Input.{Floats, InputConfig, new_input_config, merge_input_config, is_set}

-- What the keyboard library is asked to make a keymap of.
pub record RuleNames : Type 0 where
  pub layout : Option CString
  pub model : Option CString
  pub options : Option CString
  pub rules : Option CString
  pub variant : Option CString

-- An input device that is plugged in: its identifier and input_device_get_type of it.
pub record Device : Type 0 where
  pub identifier : CString
  pub type : Option CString

-- The libraries and the devices: xkb_keymap_new_from_file after the file is opened,
-- xkb_keymap_new_from_names, and server.input->devices.
pub record World : Type 0 where
  pub keymap_from_file : CString → Bool
  pub keymap_from_names : RuleNames → Bool
  pub devices : List Device

abbrev pub wildcard_name : CString
wildcard_name = codes "*"

abbrev pub type_prefix : CString
type_prefix = codes "type:"

abbrev pub is_wildcard : CString → Bool
is_wildcard id = strcmp id wildcard_name

abbrev pub is_type : CString → Bool
is_type id = starts_with id type_prefix

-- strcmp(input_type, identifier + 5) == 0, for a type that is not NULL.
abbrev pub has_type : Option CString → CString → Bool
has_type none id = false
has_type (some type) id = strcmp type (drop 5 id)

-- The first device of the identifier says the type.
unfoldable pub set_input_type : List Device → CString → Option CString → Option CString
unfolding strcmp
set_input_type [] id type = type
set_input_type (d ∷ ds) id type =
    if strcmp d.identifier id then d.type else set_input_type ds id type

module _ (n : Floats) where
  -- The lists config->input_configs and config->input_type_configs.
  pub record Configs : Type 0 where
    pub input_configs : List (InputConfig n)
    pub input_type_configs : List (InputConfig n)

  -- The configuration to merge on: none, one that is in the list, or a new one.
  pub data Base : Type 0 where
    absent : Base
    existing fresh : InputConfig n → Base

  unfoldable pub input_config_fill_rule_names : InputConfig n → RuleNames
  input_config_fill_rule_names ic = record {
    layout = ic.xkb_layout;
    model = ic.xkb_model;
    options = ic.xkb_options;
    rules = ic.xkb_rules;
    variant = ic.xkb_variant;
  }

  unfoldable pub hwd_keyboard_compile_keymap : World → InputConfig n → Bool
  unfolding input_config_fill_rule_names
  hwd_keyboard_compile_keymap w ic = elim ic.xkb_file [
    | some file ↦ w.keymap_from_file file
    | none ↦ w.keymap_from_names (input_config_fill_rule_names ic)
  ]

  -- The configuration of an identifier (list_seq_find with input_identifier_cmp).
  unfoldable pub find_config : List (InputConfig n) → CString → Option (InputConfig n)
  unfolding strcmp
  find_config [] id = none
  find_config (c ∷ cs) id = if strcmp c.identifier id then some c else find_config cs id

  -- The configuration that list_seq_find finds is changed in its place.
  unfoldable pub put_config : List (InputConfig n) → CString → InputConfig n → List (InputConfig n)
  unfolding strcmp
  put_config [] id v = []
  put_config (c ∷ cs) id v = if strcmp c.identifier id then v ∷ cs else c ∷ put_config cs id v

  abbrev pub merged_on : Base → InputConfig n → InputConfig n
  merged_on absent src = src
  merged_on (existing dst) src = merge_input_config n dst src
  merged_on (fresh dst) src = merge_input_config n dst src

  unfoldable pub validate_xkb_merge : World → Base → InputConfig n → Bool
  unfolding hwd_keyboard_compile_keymap new_input_config merge_input_config
  validate_xkb_merge w base src =
      let temp = new_input_config n (codes "temp") in
      let dest : InputConfig n = elim base [
        | absent ↦ temp
        | existing c ↦ merge_input_config n temp c
        | fresh c ↦ merge_input_config n temp c
      ] in
      hwd_keyboard_compile_keymap w (merge_input_config n dest src)

  -- The loops over a list, over those of its members that pass a test.
  unfoldable pub validate_on :
      World → (InputConfig n → Bool) → InputConfig n → List (InputConfig n) → Bool
  unfolding validate_xkb_merge
  validate_on w test src [] = true
  validate_on w test src (c ∷ cs) =
      (if test c then validate_xkb_merge w (existing c) src else true) && validate_on w test src cs

  unfoldable pub merge_on :
      (InputConfig n → Bool) → InputConfig n → List (InputConfig n) → List (InputConfig n)
  unfolding merge_input_config
  merge_on test src [] = []
  merge_on test src (c ∷ cs) =
      (if test c then merge_input_config n c src else c) ∷ merge_on test src cs

  abbrev pub is_other : InputConfig n → InputConfig n → Bool
  is_other src c = not (strcmp src.identifier c.identifier)

  abbrev pub every : InputConfig n → Bool
  every c = true

  abbrev pub of_type : InputConfig n → InputConfig n → Bool
  of_type src c = has_type c.input_type src.identifier

  unfoldable pub validate_wildcard_on_all : World → Configs → InputConfig n → Bool
  unfolding validate_on
  validate_wildcard_on_all w cs src =
      validate_on w (is_other src) src cs.input_configs
      && validate_on w every src cs.input_type_configs

  unfoldable pub merge_wildcard_on_all : Configs → InputConfig n → Configs
  unfolding merge_on
  merge_wildcard_on_all cs src = record {
    input_configs = merge_on (is_other src) src cs.input_configs;
    input_type_configs = merge_on every src cs.input_type_configs;
  }

  unfoldable pub validate_type_on_existing : World → Configs → InputConfig n → Bool
  unfolding validate_on
  validate_type_on_existing w cs src = validate_on w (of_type src) src cs.input_configs

  unfoldable pub merge_type_on_existing : Configs → InputConfig n → Configs
  unfolding merge_on
  merge_type_on_existing cs src = record cs {
    input_configs = merge_on (of_type src) src cs.input_configs;
  }

  -- The configuration of the type `type`.
  unfoldable pub find_type : List (InputConfig n) → Option CString → Option (InputConfig n)
  find_type [] type = none
  find_type (c ∷ cs) type = if has_type type c.identifier then some c else find_type cs type

  abbrev pub typed : Option CString → InputConfig n → InputConfig n
  typed type ic = record ic { input_type = type }

  -- A new configuration on top of that of the device's type.
  unfoldable pub base_of_type : World → Configs → InputConfig n → Base
  unfolding set_input_type find_type new_input_config merge_input_config
  base_of_type w cs ic =
      let type = set_input_type w.devices ic.identifier ic.input_type in
      elim (find_type cs.input_type_configs type) [
        | none ↦ absent
        | some tc ↦ fresh (merge_input_config n (typed type (new_input_config n ic.identifier)) tc)
      ]

  -- A new configuration on top of that of all devices.
  unfoldable pub base_of_wildcard : Configs → InputConfig n → Base
  unfolding find_config new_input_config merge_input_config
  base_of_wildcard cs ic = elim (find_config cs.input_configs wildcard_name) [
    | none ↦ absent
    | some all ↦ fresh (merge_input_config n (new_input_config n ic.identifier) all)
  ]

  abbrev pub config_list : Configs → CString → List (InputConfig n)
  config_list cs id = if is_type id then cs.input_type_configs else cs.input_configs

  unfoldable pub or_else : Base → Base → Base
  or_else absent other = other
  or_else (existing c) other = existing c
  or_else (fresh c) other = fresh c

  unfoldable pub base_of : World → Configs → InputConfig n → Base
  unfolding base_of_type base_of_wildcard find_config or_else
  base_of w cs ic = elim (find_config (config_list cs ic.identifier) ic.identifier) [
    | some current ↦ existing current
    | none ↦
        or_else
          (if is_wildcard ic.identifier || is_type ic.identifier
            then absent
            else base_of_type w cs ic)
          (base_of_wildcard cs ic)
  ]

  -- The configuration goes into its list: in the place of the one that it was merged on, or last.
  abbrev pub placed : Base → List (InputConfig n) → InputConfig n → List (InputConfig n)
  placed (existing c) list ic = put_config list c.identifier ic
  placed absent list ic = list ++ ic ∷ []
  placed (fresh c) list ic = list ++ ic ∷ []

  abbrev pub put_list : Configs → CString → List (InputConfig n) → Configs
  put_list cs id list =
      if is_type id
      then record cs { input_type_configs = list }
      else record cs { input_configs = list }

  abbrev pub settled : InputConfig n → InputConfig n
  settled ic = record ic { xkb_file_is_set = is_set ic.xkb_file }

  -- A configuration that is stored as it is has got the type of its device.
  abbrev pub with_type : World → Base → InputConfig n → InputConfig n
  with_type w absent ic =
      if is_wildcard ic.identifier || is_type ic.identifier
      then ic
      else typed (set_input_type w.devices ic.identifier ic.input_type) ic
  with_type w (existing c) ic = ic
  with_type w (fresh c) ic = ic

  -- `checked` says that the caller wants to be told of errors.
  unfoldable pub validate_store : World → (checked : Bool) → Configs → InputConfig n → Base → Bool
  unfolding validate_wildcard_on_all validate_type_on_existing validate_xkb_merge
  validate_store w checked cs ic base =
      if checked
      then (if is_wildcard ic.identifier then validate_wildcard_on_all w cs ic else true)
        && (if is_type ic.identifier then validate_type_on_existing w cs ic else true)
        && validate_xkb_merge w base ic
      else true

  unfoldable pub spread : Configs → InputConfig n → Configs
  unfolding merge_wildcard_on_all merge_type_on_existing
  spread cs ic =
      let cs = if is_wildcard ic.identifier then merge_wildcard_on_all cs ic else cs in
      if is_type ic.identifier then merge_type_on_existing cs ic else cs

  unfoldable pub store_input_config :
      World → (checked : Bool) → Configs → InputConfig n → Option (InputConfig n × Configs)
  unfolding base_of validate_store spread put_config
  store_input_config w checked cs ic =
      let base = base_of w cs ic in
      let stored = settled (merged_on base (with_type w base ic)) in
      let after = spread cs ic in
      let list = placed base (config_list after ic.identifier) stored in
      if validate_store w checked cs ic base
      then some (stored, put_list after ic.identifier list)
      else none
