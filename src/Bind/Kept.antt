-- ===== src/Bind/Kept.antt =====
-- The commands of src/commands/bind.c, and what they keep of the current mode if putting a binding
-- that is complete into its list, or taking it out, keeps it.
use hayward.Common.{List, length, Option, none, some, Bool, false, ltb, inl, inr, Bool-cases}
use hayward.Text.{CString}
use hayward.Config.Input.{Floats}
use hayward.Commands.Args.{Status, at_least, checkarg}
use hayward.Commands.Library.{Library}
use hayward.Bind.{HwdBinding, HwdMode}
use hayward.Bind.Keys.{Keyboards, Binds, Parsing, refused, parsed, take_options}
use hayward.Bind.Command.{
  min_args, checked, complete, bind_parsed, finish_binding, new_binding, bind_keys,
  cmd_bindsym_or_bindcode,
}

module _ (n : Floats) (lib : Library n) (k : Keyboards) (P : HwdMode → Type 0)
    (kept : (unbind : Bool) (argv : List CString) (binding : HwdBinding) (b : Binds)
      → P b.mode
      → P (finish_binding n lib k unbind argv binding b).1.mode) where
  bind_parsed-keeps :
      (unbind exclude : Bool) (argv : List CString) (p : Parsing) (b : Binds)
      → P b.mode
      → P (bind_parsed n lib k unbind exclude argv p b).1.mode
  unfolding bind_parsed
  bind_parsed-keeps unbind exclude argv (refused status) b d = d
  bind_parsed-keeps unbind exclude argv (parsed read) b d =
      kept unbind argv (complete n lib k exclude read) b d

  bind_keys-keeps :
      (unbind : Bool) (r : (HwdBinding × Bool) × List CString) (b : Binds)
      → P b.mode
      → P (bind_keys n lib k unbind r b).1.mode
  unfolding bind_keys
  bind_keys-keeps unbind ((binding, exclude), argv) b d =
      elim (Bool-cases (ltb (length argv) (min_args unbind))) [
        | inl t ↦ rw (t) d
        | inr t ↦ rw (t) (bind_parsed-keeps unbind exclude argv _ b d)
      ]

  checked-keeps :
      (o : Option Status) (r : Status × Binds) (b : Binds)
      → P b.mode
      → P r.1.mode
      → P (checked o r b).1.mode
  checked-keeps none r b d h = h
  checked-keeps (some status) r b d h = d

  pub cmd_bindsym_or_bindcode-keeps :
      (argv : List CString) (bindcode unbind : Bool) (b : Binds)
      → P b.mode
      → P (cmd_bindsym_or_bindcode n lib k argv bindcode unbind b).1.mode
  unfolding cmd_bindsym_or_bindcode
  cmd_bindsym_or_bindcode-keeps argv bindcode unbind b d =
      let r = take_options bindcode argv (new_binding n lib k bindcode, false) in
      checked-keeps (checkarg (length argv) at_least (min_args unbind))
        (bind_keys n lib k unbind r b) b d (bind_keys-keeps unbind r b d)
