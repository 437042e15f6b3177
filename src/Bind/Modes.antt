-- ===== src/Bind/Modes.antt =====
-- The commands of src/commands/bind.c on the lists of a mode.
use hayward.Common.{List, drop, Bool, true, false}
use hayward.Text.{CString}
use hayward.Strings.{join_args}
use hayward.Config.Input.{Floats}
use hayward.Commands.Library.{Library}
use hayward.Bind.{
  BindingInputType, keycode, keysym, mousecode, mousesym, switch, HwdBinding, HwdMode,
  binding_upsert, binding_add, binding_remove,
}
use hayward.Bind.Keys.{Keyboards, Binds}
use hayward.Bind.Command.{bindings_of, put_bindings, finish_binding, cmd_bindsym_or_bindcode}
use hayward.Bind.Kept.{cmd_bindsym_or_bindcode-keeps}
use hayward.Bind.Distinct.{IsDistinct, binding_upsert-IsDistinct, binding_remove-IsDistinct}

-- The lists of keys and buttons of a mode.
pub record IsDistinctMode (mode : HwdMode) : Type 0 where
  pub keysyms : IsDistinct mode.keysym_bindings
  pub keycodes : IsDistinct mode.keycode_bindings
  pub mouse : IsDistinct mode.mouse_bindings

module _ (n : Floats) (lib : Library n) (k : Keyboards) where
  bindings_of-IsDistinct :
      (t : BindingInputType) (mode : HwdMode)
      → IsDistinctMode mode
      → IsDistinct (bindings_of n lib k t mode)
  bindings_of-IsDistinct keycode mode d = d.keycodes
  bindings_of-IsDistinct keysym mode d = d.keysyms
  bindings_of-IsDistinct mousecode mode d = d.mouse
  bindings_of-IsDistinct mousesym mode d = d.mouse
  bindings_of-IsDistinct switch mode d = d.mouse

  put_bindings-IsDistinct :
      (t : BindingInputType) (bs : List HwdBinding) (mode : HwdMode)
      → IsDistinct bs
      → IsDistinctMode mode
      → IsDistinctMode (put_bindings n lib k t bs mode)
  put_bindings-IsDistinct keycode bs mode h d = record {
    keysyms = d.keysyms;
    keycodes = h;
    mouse = d.mouse;
  }
  put_bindings-IsDistinct keysym bs mode h d = record {
    keysyms = h;
    keycodes = d.keycodes;
    mouse = d.mouse;
  }
  put_bindings-IsDistinct mousecode bs mode h d = record {
    keysyms = d.keysyms;
    keycodes = d.keycodes;
    mouse = h;
  }
  put_bindings-IsDistinct mousesym bs mode h d = record {
    keysyms = d.keysyms;
    keycodes = d.keycodes;
    mouse = h;
  }
  put_bindings-IsDistinct switch bs mode h d = record {
    keysyms = d.keysyms;
    keycodes = d.keycodes;
    mouse = h;
  }

  finish_binding-IsDistinct :
      (unbind : Bool) (argv : List CString) (binding : HwdBinding) (b : Binds)
      → IsDistinctMode b.mode
      → IsDistinctMode (finish_binding n lib k unbind argv binding b).1.mode
  unfolding finish_binding binding_add
  finish_binding-IsDistinct true argv binding b d =
      put_bindings-IsDistinct binding.type
        (binding_remove binding (bindings_of n lib k binding.type b.mode)).1 b.mode
        (binding_remove-IsDistinct binding (bindings_of n lib k binding.type b.mode)
          (bindings_of-IsDistinct binding.type b.mode d))
        d
  finish_binding-IsDistinct false argv binding b d =
      let named = record binding { command = join_args (drop 1 argv); order = b.binding_order } in
      put_bindings-IsDistinct binding.type
        (binding_upsert named (bindings_of n lib k binding.type b.mode)).0 b.mode
        (binding_upsert-IsDistinct named (bindings_of n lib k binding.type b.mode)
          (bindings_of-IsDistinct binding.type b.mode d))
        d

  -- bindsym, bindcode, unbindsym and unbindcode keep the lists of the mode free of two bindings
  -- with the same keys, flags and device, whatever their arguments are.
  pub cmd_bindsym_or_bindcode-IsDistinct :
      (argv : List CString) (bindcode unbind : Bool) (b : Binds)
      → IsDistinctMode b.mode
      → IsDistinctMode (cmd_bindsym_or_bindcode n lib k argv bindcode unbind b).1.mode
  cmd_bindsym_or_bindcode-IsDistinct =
      cmd_bindsym_or_bindcode-keeps n lib k IsDistinctMode finish_binding-IsDistinct
