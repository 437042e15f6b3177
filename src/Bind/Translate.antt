-- ===== src/Bind/Translate.antt =====
-- Another keymap: translate_keysyms and translate_binding_list of src/config.c, and
-- binding_add_translated of src/commands/bind.c. The lists of keys of a mode are made anew.
use hayward.Common.{List, [], ◌∷◌, Option, none, some}
use hayward.Common.Chains.{◌>>=◌}
use hayward.Config.Input.{Floats}
use hayward.Commands.Library.{Library}
use hayward.Bind.{keycode, keysym, mousecode, mousesym, switch, HwdBinding, HwdMode, binding_upsert}
use hayward.Bind.Keys.{Keyboards, translate_binding}

-- The message about what is overwritten is left out.
unfoldable pub binding_add_translated :
    HwdBinding → (mode_bindings : List HwdBinding) → List HwdBinding
unfolding binding_upsert
binding_add_translated binding mode_bindings = (binding_upsert binding mode_bindings).0

module _ (n : Floats) (lib : Library n) (k : Keyboards) where
  abbrev pub translated : HwdBinding → HwdBinding
  translated binding = (translate_binding n lib k binding).1

  -- bindsyms and bindcodes afterwards; none where the assertion fails.
  unfoldable pub translate_binding_list :
      (bindings : List HwdBinding)
      → List HwdBinding × List HwdBinding
      → Option (List HwdBinding × List HwdBinding)
  unfolding translate_binding binding_add_translated
  translate_binding_list [] (bindsyms, bindcodes) = some (bindsyms, bindcodes)
  translate_binding_list (binding ∷ bindings) (bindsyms, bindcodes) =
      let after = translated binding in
      elim after.type [
        | keysym ↦
            translate_binding_list bindings (binding_add_translated after bindsyms, bindcodes)
        | keycode ↦
            translate_binding_list bindings (bindsyms, binding_add_translated after bindcodes)
        | mousecode ↦ none
        | mousesym ↦ none
        | switch ↦ none
      ]

  -- One round of the loop.
  unfoldable pub translate_mode : HwdMode → Option HwdMode
  unfolding translate_binding_list
  translate_mode mode = translate_binding_list mode.keysym_bindings ([], []) >>= λ r.
      translate_binding_list mode.keycode_bindings r >>= λ s.
      some (record mode { keysym_bindings = s.0; keycode_bindings = s.1 })

  -- The modes of `config`, with the keymap of `k`.
  unfoldable pub translate_keysyms : (modes : List HwdMode) → Option (List HwdMode)
  unfolding translate_mode
  translate_keysyms [] = some []
  translate_keysyms (mode ∷ modes) =
      translate_mode mode >>= λ m. translate_keysyms modes >>= λ ms. some (m ∷ ms)
