-- ===== src/Bind/Typed.antt =====
-- Bindings of src/commands/bind.c stand in the list for their type, before and after the keymap is
-- changed by translate_keysyms of src/config.c.
use hayward.Common.{◌≡◌, refl, List, [], ◌∷◌, drop, Bool, true, false, inl, inr, Bool-cases}
use hayward.ListT.Sort.Order.{All}
use hayward.Text.{CString}
use hayward.Strings.{join_args}
use hayward.Config.Input.{Floats}
use hayward.Commands.Library.{Library}
use hayward.Bind.{
  BindingInputType, keycode, keysym, mousecode, mousesym, switch, HwdBinding, HwdMode,
  binding_key_compare, binding_upsert, binding_add, binding_remove,
}
use hayward.Bind.Keys.{Keyboards, Binds}
use hayward.Bind.Command.{bindings_of, put_bindings, finish_binding, cmd_bindsym_or_bindcode}
use hayward.Bind.Kept.{cmd_bindsym_or_bindcode-keeps}

-- A binding may stand in the list for this type.
abbrev pub Stands : BindingInputType → HwdBinding → Type 0
Stands keysym b = b.type ≡ keysym
Stands keycode b = b.type ≡ keycode
Stands mousecode b = Unit
Stands mousesym b = Unit
Stands switch b = Unit

pub record IsTypedMode (mode : HwdMode) : Type 0 where
  pub keysyms : All (Stands keysym) mode.keysym_bindings
  pub keycodes : All (Stands keycode) mode.keycode_bindings

stands : (t : BindingInputType) (b : HwdBinding) → b.type ≡ t → Stands t b
stands keysym b h = h
stands keycode b h = h
stands mousecode b h = tt
stands mousesym b h = tt
stands switch b h = tt

pub All-upsert :
    (P : HwdBinding → Type 0) (b : HwdBinding) (bs : List HwdBinding)
    → P b
    → All P bs
    → All P (binding_upsert b bs).0
unfolding binding_upsert
All-upsert P b [] h a = (h, tt)
All-upsert P b (x ∷ bs) h (i, a) = elim (Bool-cases (binding_key_compare b x)) [
  | inl t ↦ rw (t) (h, a)
  | inr t ↦ rw (t) (i, All-upsert P b bs h a)
]

All-remove :
    (P : HwdBinding → Type 0) (b : HwdBinding) (bs : List HwdBinding)
    → All P bs
    → All P (binding_remove b bs).1
unfolding binding_remove
All-remove P b [] a = tt
All-remove P b (x ∷ bs) (i, a) = elim (Bool-cases (binding_key_compare b x)) [
  | inl t ↦ rw (t) a
  | inr t ↦ rw (t) (i, All-remove P b bs a)
]

All-unit : (bs : List HwdBinding) → All (λ b. Unit {0}) bs
All-unit [] = tt
All-unit (b ∷ bs) = (tt, All-unit bs)

module _ (n : Floats) (lib : Library n) (k : Keyboards) where
  bindings_of-Stands :
      (t : BindingInputType) (mode : HwdMode)
      → IsTypedMode mode
      → All (Stands t) (bindings_of n lib k t mode)
  bindings_of-Stands keysym mode d = d.keysyms
  bindings_of-Stands keycode mode d = d.keycodes
  bindings_of-Stands mousecode mode d = All-unit mode.mouse_bindings
  bindings_of-Stands mousesym mode d = All-unit mode.mouse_bindings
  bindings_of-Stands switch mode d = All-unit mode.mouse_bindings

  put_bindings-IsTyped :
      (t : BindingInputType) (bs : List HwdBinding) (mode : HwdMode)
      → All (Stands t) bs
      → IsTypedMode mode
      → IsTypedMode (put_bindings n lib k t bs mode)
  put_bindings-IsTyped keysym bs mode h d = record { keysyms = h; keycodes = d.keycodes }
  put_bindings-IsTyped keycode bs mode h d = record { keysyms = d.keysyms; keycodes = h }
  put_bindings-IsTyped mousecode bs mode h d = record { keysyms = d.keysyms; keycodes = d.keycodes }
  put_bindings-IsTyped mousesym bs mode h d = record { keysyms = d.keysyms; keycodes = d.keycodes }
  put_bindings-IsTyped switch bs mode h d = record { keysyms = d.keysyms; keycodes = d.keycodes }

  finish_binding-IsTyped :
      (unbind : Bool) (argv : List CString) (binding : HwdBinding) (b : Binds)
      → IsTypedMode b.mode
      → IsTypedMode (finish_binding n lib k unbind argv binding b).1.mode
  unfolding finish_binding binding_add
  finish_binding-IsTyped true argv binding b d =
      let list = bindings_of n lib k binding.type b.mode in
      put_bindings-IsTyped binding.type (binding_remove binding list).1 b.mode
        (All-remove (Stands binding.type) binding list (bindings_of-Stands binding.type b.mode d)) d
  finish_binding-IsTyped false argv binding b d =
      let named = record binding { command = join_args (drop 1 argv); order = b.binding_order } in
      let list = bindings_of n lib k binding.type b.mode in
      put_bindings-IsTyped binding.type (binding_upsert named list).0 b.mode
        (All-upsert (Stands binding.type) named list (stands binding.type named refl)
          (bindings_of-Stands binding.type b.mode d))
        d

  -- bindsym, bindcode, unbindsym and unbindcode keep symbols and codes in the lists for them,
  -- whatever their arguments are.
  pub cmd_bindsym_or_bindcode-IsTyped :
      (argv : List CString) (bindcode unbind : Bool) (b : Binds)
      → IsTypedMode b.mode
      → IsTypedMode (cmd_bindsym_or_bindcode n lib k argv bindcode unbind b).1.mode
  cmd_bindsym_or_bindcode-IsTyped =
      cmd_bindsym_or_bindcode-keeps n lib k IsTypedMode finish_binding-IsTyped
