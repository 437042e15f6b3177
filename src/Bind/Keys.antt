-- ===== src/Bind/Keys.antt =====
-- src/commands/bind.c: the options of a binding, its keys, and their translation into keycodes. The
-- keyboard library is a parameter.
use Prim.Native.Nat.{bit_or}
use hayward.Common.{
  ℕ, ◌+◌, ◌-◌, ◌^◌, List, [], ◌∷◌, ◌++◌, length, drop, Option, none, some, Bool, true, false, not,
  ◌&&◌, ◌||◌, ◌==◌, ltb, ℤ, to_uint32, pos, same_int, if◌then◌else◌,
}
use hayward.Text.{CString, codes, strcmp, strcasecmp, starts_with}
use hayward.Config.Input.{Floats}
use hayward.Commands.Args.{Status, failure, invalid}
use hayward.Commands.Library.{Library}
use hayward.Commands.Numbers.{get_mouse_bindsym, get_mouse_bindcode}
use hayward.Bind.{
  BindingInputType, keycode, keysym, mousecode, mousesym, switch, BindingFlags, HwdBinding, HwdMode,
  key_qsort_cmp,
}

-- What the keyboard library and the compositor library say, the keymap that symbols are translated
-- by, and qsort of the C library for keys.
pub record Keyboards : Type 0 where
  pub xkb_keycode_is_legal_ext : ℕ → Bool
  pub xkb_keysym_from_name : CString → ℕ
  -- XKB_MOD_NAME_SHIFT and so on, and the WLR_MODIFIER of each, in the order of the table
  pub modifiers : List (CString × ℕ)
  -- the keycodes of the keymap, each with its symbol, 0 for none
  pub keymap : List (ℕ × ℕ)
  pub qsort : (ℕ → ℕ → ℤ) → List ℕ → List ℕ

-- The bindings of the current mode, and the number of the next one.
pub record Binds : Type 0 where
  pub mode : HwdMode
  pub binding_order : ℕ

-- An error, or the binding so far.
pub data Parsing : Type 0 where
  refused : Status → Parsing
  parsed : HwdBinding → Parsing

unfoldable pub find_modifier : List (CString × ℕ) → CString → ℕ
unfolding strcasecmp
find_modifier [] name = 0
find_modifier ((known, mask) ∷ rest) name =
    let later = find_modifier rest name in if strcasecmp known name then mask else later

-- What an option changes: the flags and the input, exclude_titlebar; none where it is no option.
abbrev raise : (BindingFlags → BindingFlags) → HwdBinding × Bool → Option (HwdBinding × Bool)
raise f (binding, exclude) = some (record binding { flags = f binding.flags }, exclude)

unfoldable pub take_option :
    (bindcode : Bool) → CString → HwdBinding × Bool → Option (HwdBinding × Bool)
unfolding strcmp starts_with
take_option bindcode option r =
    if strcmp (codes "--release") option
    then raise (λ f. record f { release = true }) r
    else if strcmp (codes "--locked") option
    then raise (λ f. record f { locked = true }) r
    else if strcmp (codes "--inhibited") option
    then raise (λ f. record f { inhibited = true }) r
    else if strcmp (codes "--whole-window") option
    then raise (λ f. record f { border = true; contents = true; titlebar = true }) r
    else if strcmp (codes "--border") option
    then raise (λ f. record f { border = true }) r
    else if strcmp (codes "--to-code") option
    then (if bindcode then some r else raise (λ f. record f { code = true }) r)
    else if strcmp (codes "--exclude-titlebar") option
    then some (r.0, true)
    else if starts_with option (codes "--input-device=")
    then some (record r.0 { input = drop 15 option }, r.1)
    else if strcmp (codes "--no-warn") option
    then some r
    else if strcmp (codes "--no-repeat") option
    then raise (λ f. record f { norepeat = true }) r
    else none

-- The options in front, and the arguments that are left.
unfoldable pub take_options :
    (bindcode : Bool) → List CString → HwdBinding × Bool → (HwdBinding × Bool) × List CString
unfolding take_option
take_options bindcode [] r = (r, [])
take_options bindcode (a ∷ argv) r = elim (take_option bindcode a r) [
  | none ↦ (r, a ∷ argv)
  | some changed ↦ take_options bindcode argv changed
]

abbrev pub is_mouse : BindingInputType → Bool
is_mouse mousecode = true
is_mouse mousesym = true
is_mouse _ = false

-- A binding of the mouse, by the code or the symbol of its button.
abbrev pub of_mouse : BindingInputType → BindingInputType
of_mouse keycode = mousecode
of_mouse _ = mousesym

abbrev is_group_set : Option ℕ → Bool
is_group_set none = false
is_group_set (some g) = true

module _ (n : Floats) (lib : Library n) (k : Keyboards) where
  unfoldable pub get_modifier_mask_by_name : CString → ℕ
  unfolding find_modifier
  get_modifier_mask_by_name name = find_modifier k.modifiers name

  abbrev pub is_button : ℤ → Bool
  is_button code = not (same_int code (pos 0))

  -- The key and the type of the binding, or none for CMD_INVALID.
  unfoldable pub identify_key :
      (name : CString) → (first_key : Bool) → BindingInputType → Option (ℕ × BindingInputType)
  unfolding get_mouse_bindcode get_mouse_bindsym
  identify_key name first_key type =
      let code = get_mouse_bindcode n lib name in
      let sym = get_mouse_bindsym n lib name in
      let number = to_uint32 (lib.strtol name).value in
      let named = k.xkb_keysym_from_name name in
      elim type [
        | mousecode ↦ if is_button code.code then some (to_uint32 code.code, mousecode) else none
        | mousesym ↦ if is_button sym.code then some (to_uint32 sym.code, mousesym) else none
        | keycode ↦
            if first_key && is_button code.code
            then some (to_uint32 code.code, mousecode)
            else if k.xkb_keycode_is_legal_ext number
            then some (number, keycode)
            else none
        | keysym ↦
            if first_key && sym.is_error
            then none
            else if first_key && is_button sym.code
            then some (to_uint32 sym.code, mousesym)
            else if named == 0
            then none
            else some (named, keysym)
        | switch ↦
            if first_key && sym.is_error
            then none
            else if first_key && is_button sym.code
            then some (to_uint32 sym.code, mousesym)
            else if named == 0
            then none
            else some (named, switch)
      ]

  -- The part of the loop behind the tests for a group.
  unfoldable pub read_key : CString → HwdBinding → Parsing
  unfolding get_modifier_mask_by_name identify_key
  read_key name binding =
      let mask = get_modifier_mask_by_name name in
      if ltb 0 mask
      then parsed (record binding { modifiers = bit_or binding.modifiers mask })
      else elim (identify_key name (length binding.keys == 0) binding.type) [
        | none ↦ refused invalid
        | some (key, type) ↦
            parsed (record binding { type = type; keys = binding.keys ++ key ∷ [] })
      ]

  -- Group1 to Group4. Behind Mode_switch the loop goes on to look for a key of that name.
  unfoldable pub read_name : CString → HwdBinding → Parsing
  unfolding strcmp starts_with read_key
  read_name name binding =
      if starts_with name (codes "Group")
      then (if is_group_set binding.group
          then refused failure
          else (let number = lib.strtol (drop 5 name) in
              let g = to_uint32 number.value in
              if ltb g 1 || ltb 4 g || not (length number.rest == 0)
              then refused failure
              else parsed (record binding { group = some (g - 1) })))
      else if strcmp name (codes "Mode_switch")
      then (if is_group_set binding.group
          then refused failure
          else read_key name (record binding { group = some 1 }))
      else read_key name binding

  unfoldable pub read_names : List CString → HwdBinding → Parsing
  unfolding read_name
  read_names [] binding = parsed binding
  read_names (name ∷ names) binding = elim (read_name name binding) [
    | refused status ↦ refused status
    | parsed further ↦ read_names names further
  ]

  -- struct keycode_matches: the last keycode that is found, and how many.
  unfoldable pub get_keycode_for_keysym : List (ℕ × ℕ) → (wanted : ℕ) → ℕ × ℕ → ℕ × ℕ
  get_keycode_for_keysym [] wanted matches = matches
  get_keycode_for_keysym ((code, sym) ∷ keymap) wanted matches =
      get_keycode_for_keysym keymap wanted
        (if not (sym == 0) && wanted == sym then (code, matches.1 + 1) else matches)

  -- The keycodes of all symbols, none where one does not have exactly one.
  unfoldable pub translate_syms : List ℕ → Option (List ℕ)
  unfolding get_keycode_for_keysym
  translate_syms [] = some []
  translate_syms (sym ∷ syms) =
      let (code, count) = get_keycode_for_keysym k.keymap sym (2 ^ 32 - 1, 0) in
      elim (translate_syms syms) [
        | none ↦ none
        | some rest ↦ if count == 1 then some (code ∷ rest) else none
      ]

  abbrev pub of_syms : List ℕ → HwdBinding → Bool × HwdBinding
  of_syms syms binding = elim (translate_syms syms) [
    | none ↦ (false, record binding { type = keysym; keys = syms; syms = [] })
    | some keys ↦
        (true, record binding { type = keycode; keys = k.qsort key_qsort_cmp keys; syms = syms })
  ]

  unfoldable pub translate_binding : HwdBinding → Bool × HwdBinding
  unfolding translate_syms key_qsort_cmp
  translate_binding binding =
      if not binding.flags.code then (true, binding) else elim binding.type [
        | keysym ↦ of_syms binding.keys binding
        | keycode ↦ of_syms binding.syms binding
        | mousecode ↦ (true, binding)
        | mousesym ↦ (true, binding)
        | switch ↦ (true, binding)
      ]
