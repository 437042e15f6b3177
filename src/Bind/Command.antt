-- ===== src/Bind/Command.antt =====
-- src/commands/bind.c: the commands that bind and unbind keys, buttons and switches. The warning
-- about what is overwritten is left out.
use hayward.Common.{
  ℕ, ◌+◌, List, [], ◌∷◌, length, drop, Option, none, some, Bool, true, false, ◌||◌, ltb,
  if◌then◌else◌,
}
use hayward.Common.Chains.{◌>>=◌}
use hayward.Text.{CString, codes, strcmp}
use hayward.Strings.{split_string, join_args}
use hayward.Config.Input.{Floats}
use hayward.Commands.Args.{Status, failure, at_least, checkarg, arg}
use hayward.Commands.Library.{Library}
use hayward.Bind.{
  BindingInputType, keycode, keysym, BindingFlags, no_flags, HwdBinding, SwitchType, lid,
  tablet_mode, SwitchTrigger, off, on, toggle, HwdSwitchBinding, HwdMode, key_qsort_cmp,
  binding_add, binding_remove, switch_binding_add, switch_binding_remove,
}
use hayward.Bind.Keys.{
  Keyboards, Binds, Parsing, refused, parsed, take_options, is_mouse, of_mouse, read_names,
  translate_binding,
}

-- minargs
abbrev pub min_args : (unbind : Bool) → ℕ
min_args true = 1
min_args false = 2

-- The error of checkarg, or what follows.
abbrev pub checked : Option Status → Status × Binds → Binds → Status × Binds
checked none r b = r
checked (some status) r b = (status, b)

module _ (n : Floats) (lib : Library n) (k : Keyboards) where
  abbrev pub new_binding : (bindcode : Bool) → HwdBinding
  new_binding bindcode = record {
    type = if bindcode then keycode else keysym;
    order = 0;
    input = codes "*";
    flags = no_flags;
    keys = [];
    syms = [];
    modifiers = 0;
    group = none;
    command = [];
  }

  -- The type that the options about parts of a window ask for.
  abbrev pub type_for : Bool → HwdBinding → BindingInputType
  type_for exclude binding =
      let f = binding.flags in
      if f.border || f.contents || f.titlebar || exclude
      then of_mouse binding.type
      else binding.type

  -- The part of the title bar, once it is certain what the type is.
  abbrev with_titlebar : Bool → HwdBinding → HwdBinding
  with_titlebar exclude binding =
      if exclude
      then record binding { flags = record binding.flags { titlebar = false } }
      else if is_mouse binding.type
      then record binding { flags = record binding.flags { titlebar = true } }
      else binding

  -- The list of the mode that a type of binding stands in.
  abbrev pub bindings_of : BindingInputType → HwdMode → List HwdBinding
  bindings_of keycode mode = mode.keycode_bindings
  bindings_of keysym mode = mode.keysym_bindings
  bindings_of _ mode = mode.mouse_bindings

  abbrev pub put_bindings : BindingInputType → List HwdBinding → HwdMode → HwdMode
  put_bindings keycode bs mode = record mode { keycode_bindings = bs }
  put_bindings keysym bs mode = record mode { keysym_bindings = bs }
  put_bindings _ bs mode = record mode { mouse_bindings = bs }

  -- A binding that is complete goes into its list or out of it.
  unfoldable pub finish_binding :
      (unbind : Bool) → (argv : List CString) → HwdBinding → Binds → Status × Binds
  unfolding binding_add binding_remove join_args
  finish_binding unbind argv binding b =
      if unbind
      then (let (status, left) = binding_remove binding (bindings_of binding.type b.mode) in
          (status, record b { mode = put_bindings binding.type left b.mode }))
      else (let named = record binding {
        command = join_args (drop 1 argv);
        order = b.binding_order;
      } in
          let (status, more) = binding_add named (bindings_of binding.type b.mode) in
          (
            status,
            record b {
              mode = put_bindings binding.type more b.mode;
              binding_order = b.binding_order + 1;
            },
          ))

  -- A binding whose keys have been read, sorted and translated.
  unfoldable pub complete : (exclude : Bool) → HwdBinding → HwdBinding
  unfolding key_qsort_cmp translate_binding
  complete exclude read =
      let placed = with_titlebar exclude read in
      (translate_binding n lib k (record placed { keys = k.qsort key_qsort_cmp placed.keys })).1

  unfoldable pub bind_parsed :
      (unbind exclude : Bool) → (argv : List CString) → Parsing → Binds → Status × Binds
  unfolding complete finish_binding
  bind_parsed unbind exclude argv (refused status) b = (status, b)
  bind_parsed unbind exclude argv (parsed read) b =
      finish_binding unbind argv (complete exclude read) b

  -- The part behind the options.
  unfoldable pub bind_keys :
      (unbind : Bool) → (HwdBinding × Bool) × List CString → Binds → Status × Binds
  unfolding read_names split_string bind_parsed arg
  bind_keys unbind ((binding, exclude), argv) b =
      if ltb (length argv) (min_args unbind)
      then (failure, b)
      else bind_parsed unbind exclude argv
          (read_names n lib k (split_string (arg argv 0) b'+')
            (record binding { type = type_for exclude binding }))
          b

  unfoldable pub cmd_bindsym_or_bindcode :
      (argv : List CString) → (bindcode unbind : Bool) → Binds → Status × Binds
  unfolding checkarg take_options bind_keys
  cmd_bindsym_or_bindcode argv bindcode unbind b =
      checked (checkarg (length argv) at_least (min_args unbind))
        (bind_keys unbind (take_options bindcode argv (new_binding bindcode, false)) b) b

unfoldable pub take_switch_option : CString → BindingFlags → Option BindingFlags
unfolding strcmp
take_switch_option option f =
    if strcmp (codes "--locked") option
    then some (record f { locked = true })
    else if strcmp (codes "--no-warn") option
    then some f
    else if strcmp (codes "--reload") option
    then some (record f { reload = true })
    else none

-- The flags of a switch and the arguments that are left.
unfoldable pub take_switch_options : List CString → BindingFlags → BindingFlags × List CString
unfolding take_switch_option
take_switch_options [] f = (f, [])
take_switch_options (a ∷ argv) f = elim (take_switch_option a f) [
  | none ↦ (f, a ∷ argv)
  | some changed ↦ take_switch_options argv changed
]

unfoldable pub switch_type_of : CString → Option SwitchType
unfolding strcmp
switch_type_of s =
    if strcmp s (codes "tablet")
    then some tablet_mode
    else if strcmp s (codes "lid")
    then some lid
    else none

unfoldable pub trigger_of : CString → Option SwitchTrigger
unfolding strcmp
trigger_of s =
    if strcmp s (codes "on")
    then some on
    else if strcmp s (codes "off")
    then some off
    else if strcmp s (codes "toggle")
    then some toggle
    else none

-- "<switch>:<state>"
abbrev switch_of : List CString → Option (SwitchType × SwitchTrigger)
switch_of (s ∷ t ∷ []) =
    switch_type_of s >>= λ type. trigger_of t >>= λ trigger. some (type, trigger)
switch_of _ = none

unfoldable pub switch_with :
    (unbind : Bool)
    → (argv : List CString) → SwitchType
    → SwitchTrigger
    → BindingFlags
    → Binds
    → Status × Binds
unfolding switch_binding_add switch_binding_remove join_args
switch_with unbind argv type trigger flags b =
    let binding : HwdSwitchBinding = record {
      type = type;
      trigger = trigger;
      flags = flags;
      command = join_args (drop 1 argv);
    } in
    let bs = b.mode.switch_bindings in
    let (status, changed) =
      if unbind then switch_binding_remove binding bs else switch_binding_add binding bs in
    (status, record b { mode = record b.mode { switch_bindings = changed } })

unfoldable pub cmd_bind_or_unbind_switch :
    (argv : List CString) → (unbind : Bool) → Binds → Status × Binds
unfolding checkarg take_switch_options split_string switch_type_of trigger_of switch_with arg
cmd_bind_or_unbind_switch argv unbind b =
    checked (checkarg (length argv) at_least (min_args unbind))
      (let (flags, rest) = take_switch_options argv no_flags in
        if ltb (length rest) (min_args unbind)
        then (failure, b)
        else elim (switch_of (split_string (arg rest 0) b':')) [
          | none ↦ (failure, b)
          | some (type, trigger) ↦ switch_with unbind rest type trigger flags b
        ])
      b
