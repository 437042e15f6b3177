-- ===== src/Bind.antt =====
-- src/commands/bind.c: bindings, how they are compared, and the lists of a mode that they are put
-- in. An `hwd_binding` is its contents, as each is owned by one list; `qsort` is that of the C
-- library.
pub mod Keys
pub mod Command
pub mod Translate
pub mod Distinct
pub mod Kept
pub mod Modes
pub mod Undone
pub mod Typed
pub mod Retranslated
pub mod Keymap
use Prim.Native.Nat.{bit_or}
use hayward.Common.{
  ℕ, ◌≡◌, refl, List, [], ◌∷◌, ◌++◌, length, Option, none, some, Bool, true, false, not, ◌&&◌, ◌||◌,
  ◌==◌, ltb, ℤ, pos, negsuc, if◌then◌else◌,
}
use hayward.Text.{CString, codes, strcmp}
use hayward.Commands.Args.{Status, success, failure}

pub data BindingInputType : Type 0 where
  keycode keysym mousecode mousesym switch : BindingInputType

-- A bit for each enumerator of binding_flags.
pub record BindingFlags : Type 0 where
  pub release : Bool
  pub locked : Bool
  pub border : Bool
  pub contents : Bool
  pub titlebar : Bool
  pub code : Bool
  pub reload : Bool
  pub inhibited : Bool
  pub norepeat : Bool

pub record HwdBinding : Type 0 where
  pub type : BindingInputType
  pub order : ℕ
  pub input : CString
  pub flags : BindingFlags
  pub keys : List ℕ
  -- [] for NULL
  pub syms : List ℕ
  pub modifiers : ℕ
  -- none for XKB_LAYOUT_INVALID
  pub group : Option ℕ
  pub command : CString

pub data SwitchType : Type 0 where
  lid tablet_mode : SwitchType

pub data SwitchTrigger : Type 0 where
  off on toggle : SwitchTrigger

pub record HwdSwitchBinding : Type 0 where
  pub type : SwitchType
  pub trigger : SwitchTrigger
  pub flags : BindingFlags
  pub command : CString

pub record HwdMode : Type 0 where
  pub name : CString
  pub keysym_bindings : List HwdBinding
  pub keycode_bindings : List HwdBinding
  pub mouse_bindings : List HwdBinding
  pub switch_bindings : List HwdSwitchBinding

abbrev pub no_flags : BindingFlags
no_flags = record {
  release = false;
  locked = false;
  border = false;
  contents = false;
  titlebar = false;
  code = false;
  reload = false;
  inhibited = false;
  norepeat = false;
}

unfoldable pub same_bool : Bool → Bool → Bool
same_bool true b = b
same_bool false b = not b

abbrev pub number_of : BindingInputType → ℕ
number_of keycode = 0
number_of keysym = 1
number_of mousecode = 2
number_of mousesym = 3
number_of switch = 4

unfoldable pub same_type : BindingInputType → BindingInputType → Bool
same_type a b = number_of a == number_of b

unfoldable pub same_group : Option ℕ → Option ℕ → Bool
same_group none none = true
same_group none (some b) = false
same_group (some a) none = false
same_group (some a) (some b) = a == b

-- The flags that make a difference.
unfoldable pub same_flags : BindingFlags → BindingFlags → Bool
unfolding same_bool
same_flags a b =
    same_bool a.release b.release
    && same_bool a.border b.border
    && same_bool a.contents b.contents
    && same_bool a.titlebar b.titlebar
    && same_bool a.locked b.locked
    && same_bool a.inhibited b.inhibited

-- The lengths and the loop over the keys.
unfoldable pub same_keys_of : List ℕ → List ℕ → Bool
same_keys_of [] [] = true
same_keys_of [] (b ∷ bs) = false
same_keys_of (a ∷ as_) [] = false
same_keys_of (a ∷ as_) (b ∷ bs) = if a == b then same_keys_of as_ bs else false

unfoldable pub binding_key_compare : HwdBinding → HwdBinding → Bool
unfolding strcmp same_type same_flags same_group same_keys_of
binding_key_compare a b =
    strcmp a.input b.input
    && same_type a.type b.type
    && same_flags a.flags b.flags
    && same_group a.group b.group
    && a.modifiers == b.modifiers
    && same_keys_of a.keys b.keys

abbrev switch_number : SwitchType → ℕ
switch_number lid = 1
switch_number tablet_mode = 2

abbrev trigger_number : SwitchTrigger → ℕ
trigger_number off = 0
trigger_number on = 1
trigger_number toggle = 2

unfoldable pub binding_switch_compare : HwdSwitchBinding → HwdSwitchBinding → Bool
unfolding same_bool
binding_switch_compare a b =
    switch_number a.type == switch_number b.type
    && trigger_number a.trigger == trigger_number b.trigger
    && same_bool a.flags.locked b.flags.locked

unfoldable pub key_qsort_cmp : ℕ → ℕ → ℤ
key_qsort_cmp a b = if ltb a b then negsuc 0 else if ltb b a then pos 1 else pos 0

-- The list afterwards, and the binding that is replaced.
unfoldable pub binding_upsert : HwdBinding → List HwdBinding → List HwdBinding × Option HwdBinding
unfolding binding_key_compare
binding_upsert binding [] = (binding ∷ [], none)
binding_upsert binding (config_binding ∷ rest) =
    let (later, replaced) = binding_upsert binding rest in
    if binding_key_compare binding config_binding
    then (binding ∷ rest, some config_binding)
    else (config_binding ∷ later, replaced)

-- Warnings are left out.
unfoldable pub binding_add : HwdBinding → List HwdBinding → Status × List HwdBinding
unfolding binding_upsert
binding_add binding mode_bindings = (success, (binding_upsert binding mode_bindings).0)

unfoldable pub binding_remove : HwdBinding → List HwdBinding → Status × List HwdBinding
unfolding binding_key_compare
binding_remove binding [] = (failure, [])
binding_remove binding (config_binding ∷ rest) =
    let (status, later) = binding_remove binding rest in
    if binding_key_compare binding config_binding
    then (success, rest)
    else (status, config_binding ∷ later)

-- The loop goes on behind a binding that it has overwritten.
unfoldable pub switch_overwrite :
    HwdSwitchBinding → List HwdSwitchBinding → List HwdSwitchBinding × Bool
unfolding binding_switch_compare
switch_overwrite binding [] = ([], false)
switch_overwrite binding (config_binding ∷ rest) =
    let (later, overwritten) = switch_overwrite binding rest in
    if binding_switch_compare binding config_binding
    then (binding ∷ later, true)
    else (config_binding ∷ later, overwritten)

unfoldable pub switch_binding_add :
    HwdSwitchBinding → List HwdSwitchBinding → Status × List HwdSwitchBinding
unfolding switch_overwrite
switch_binding_add binding mode_bindings =
    let (changed, overwritten) = switch_overwrite binding mode_bindings in
    (success, if overwritten then changed else changed ++ binding ∷ [])

unfoldable pub switch_binding_remove :
    HwdSwitchBinding → List HwdSwitchBinding → Status × List HwdSwitchBinding
unfolding binding_switch_compare
switch_binding_remove binding [] = (failure, [])
switch_binding_remove binding (config_binding ∷ rest) =
    let (status, later) = switch_binding_remove binding rest in
    if binding_switch_compare binding config_binding
    then (success, rest)
    else (status, config_binding ∷ later)
