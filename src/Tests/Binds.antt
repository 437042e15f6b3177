-- ===== src/Tests/Binds.antt =====
-- Bindings that are made and taken back, with a keyboard of three keys.
use hayward.Common.{
  ℕ, ◌≡◌, refl, List, [], ◌∷◌, none, some, true, false, leb, if◌then◌else◌, ℤ, is_nonpos, arith,
}
use hayward.Text.{CString, codes}
use hayward.Commands.Args.{success, failure}
use hayward.Bind.{BindingInputType, keysym, keycode, HwdBinding, HwdMode, no_flags}
use hayward.Bind.Keys.{Keyboards, Binds, translate_binding}
use hayward.Bind.Translate.{translate_keysyms}
use hayward.Bind.Typed.{IsTypedMode, cmd_bindsym_or_bindcode-IsTyped}
use hayward.Bind.Keymap.{AllRetranslated, translate_keysyms_lem, translate_binding-again}
use hayward.Bind.Command.{cmd_bindsym_or_bindcode}
use hayward.Bind.Modes.{IsDistinctMode, cmd_bindsym_or_bindcode-IsDistinct}
use hayward.Bind.Undone.{cmd_bindsym_or_bindcode-undone}
use hayward.Tests.Inputs.{whole_numbers, tools}

abbrev insert_key : (ℕ → ℕ → ℤ) → ℕ → List ℕ → List ℕ
insert_key cmp a [] = a ∷ []
insert_key cmp a (b ∷ r) =
    let rest = insert_key cmp a r in if is_nonpos (cmp a b) then a ∷ b ∷ r else b ∷ rest

abbrev sort_keys : (ℕ → ℕ → ℤ) → List ℕ → List ℕ
sort_keys cmp [] = []
sort_keys cmp (a ∷ r) = insert_key cmp a (sort_keys cmp r)

-- The symbol of a name of one character is the character.
abbrev first_char : CString → ℕ
first_char [] = 0
first_char (c ∷ []) = c
first_char (c ∷ d ∷ r) = 0

abbrev three_keys : Keyboards
three_keys = record {
  xkb_keycode_is_legal_ext = λ code. leb 8 code;
  xkb_keysym_from_name = first_char;
  modifiers = (codes "Shift", 1) ∷ (codes "Control", 4) ∷ [];
  keymap = (38, b'a') ∷ (56, b'b') ∷ (54, b'c') ∷ [];
  qsort = sort_keys;
}

abbrev no_binds : Binds
no_binds = record {
  mode = record {
    name = codes "default";
    keysym_bindings = [];
    keycode_bindings = [];
    mouse_bindings = [];
    switch_bindings = [];
  };
  binding_order = 0;
}

abbrev bind_exit : List CString
bind_exit = codes "--to-code" ∷ codes "Shift+b+a" ∷ codes "exit" ∷ []

bind_exit-success :
    (cmd_bindsym_or_bindcode whole_numbers tools three_keys bind_exit false false no_binds).0
    ≡ success
unfolding cmd_bindsym_or_bindcode
bind_exit-success = refl

bind_exit-failure :
    (cmd_bindsym_or_bindcode whole_numbers tools three_keys bind_exit false true no_binds).0
    ≡ failure
unfolding cmd_bindsym_or_bindcode
bind_exit-failure = refl

no_binds-IsDistinct : IsDistinctMode no_binds.mode
no_binds-IsDistinct = record {
  keysyms = λ c. omega arith;
  keycodes = λ c. omega arith;
  mouse = λ c. omega arith;
}

cmd_bindsym_or_bindcode-IsDistinct_example :
    IsDistinctMode
      (cmd_bindsym_or_bindcode whole_numbers tools three_keys bind_exit false false no_binds).1.mode
cmd_bindsym_or_bindcode-IsDistinct_example =
    cmd_bindsym_or_bindcode-IsDistinct whole_numbers tools three_keys bind_exit false false no_binds
      no_binds-IsDistinct

cmd_bindsym_or_bindcode-undone_example :
    cmd_bindsym_or_bindcode whole_numbers tools three_keys bind_exit false true
      (cmd_bindsym_or_bindcode whole_numbers tools three_keys bind_exit false false no_binds).1
    ≡ (success, record no_binds { binding_order = 1 })
cmd_bindsym_or_bindcode-undone_example =
    cmd_bindsym_or_bindcode-undone whole_numbers tools three_keys bind_exit false no_binds
      bind_exit-success bind_exit-failure

-- The keymap of another layout, which has no `b`.
abbrev other_keys : Keyboards
other_keys = record three_keys { keymap = (24, b'a') ∷ (54, b'c') ∷ [] }

abbrev key_binding : BindingInputType → (keys syms : List ℕ) → (command : CString) → HwdBinding
key_binding t keys syms command = record {
  type = t;
  order = 0;
  input = codes "*";
  flags = record no_flags { code = true };
  keys = keys;
  syms = syms;
  modifiers = 0;
  group = none;
  command = command;
}

abbrev ab_binding : HwdBinding
ab_binding = key_binding keycode (38 ∷ 56 ∷ []) (b'a' ∷ b'b' ∷ []) (codes "exit")

abbrev some_keys : HwdMode
some_keys = record no_binds.mode {
  keysym_bindings = key_binding keysym (b'c' ∷ []) [] (codes "kill") ∷ [];
  keycode_bindings = ab_binding ∷ key_binding keycode (38 ∷ []) (b'a' ∷ []) (codes "nop") ∷ [];
}

cmd_bindsym_or_bindcode-IsTyped_example :
    IsTypedMode
      (cmd_bindsym_or_bindcode whole_numbers tools three_keys bind_exit false false
        (record { mode = some_keys; binding_order = 3 })).1.mode
cmd_bindsym_or_bindcode-IsTyped_example =
    cmd_bindsym_or_bindcode-IsTyped whole_numbers tools three_keys bind_exit false false
      (record { mode = some_keys; binding_order = 3 })
      (record { keysyms = (refl, tt); keycodes = (refl, (refl, tt)) })

translate_keysyms_lem_example :
    (ms : List HwdMode) × (translate_keysyms whole_numbers tools other_keys (some_keys ∷ [])
      ≡ some ms)
    × AllRetranslated whole_numbers tools other_keys (some_keys ∷ []) ms
translate_keysyms_lem_example =
    translate_keysyms_lem whole_numbers tools other_keys (some_keys ∷ [])
      (record { keysyms = (refl, tt); keycodes = (refl, (refl, tt)) }, tt)

-- Without its `b` the binding goes back to the list of symbols.
translate_binding-again_example :
    (translate_binding whole_numbers tools three_keys
      (translate_binding whole_numbers tools other_keys ab_binding).1).1
    ≡ (translate_binding whole_numbers tools three_keys ab_binding).1
translate_binding-again_example =
    translate_binding-again whole_numbers tools other_keys three_keys ab_binding
