-- ===== src/Keyboard/Bindings.antt =====
-- src/input/keyboard.c: get_active_binding, the choice of the binding for the keys that are held.
use hayward.Common.{
  ℕ, List, [], ◌∷◌, length, Option, none, some, Bool, true, false, not, ◌&&◌, ◌||◌, ◌==◌,
  if◌then◌else◌,
}
use hayward.Text.{CString, codes, strcmp}
use hayward.Keyboard.{Slot, ShortcutState}

-- `struct hwd_binding`: its address, and the flags that are looked at.
pub record Binding : Type 0 where
  pub address : ℕ
  pub input : CString
  pub is_release : Bool
  pub is_locked : Bool
  pub is_inhibited : Bool
  pub keys : List ℕ
  pub modifiers : ℕ
  -- none for XKB_LAYOUT_INVALID
  pub group : Option ℕ

-- The arguments of get_active_binding.
pub record Query : Type 0 where
  pub state : ShortcutState
  pub modifiers : ℕ
  pub release : Bool
  pub locked : Bool
  pub inhibited : Bool
  pub input : CString
  pub exact_input : Bool
  pub group : ℕ

abbrev pub same : Bool → Bool → Bool
same true b = b
same false b = not b

abbrev pub is_group : Option ℕ → ℕ → Bool
is_group none g = false
is_group (some h) g = h == g

abbrev pub is_group_set : Option ℕ → Bool
is_group_set none = false
is_group_set (some h) = true

-- The loop over the keys of a binding, against the first slots of the array.
unfoldable pub same_keys : List ℕ → List Slot → Bool
same_keys [] slots = true
same_keys (k ∷ ks) [] = false
same_keys (k ∷ ks) (s ∷ slots) = if k == s.key then same_keys ks slots else false

-- All keys, or the one that has just been pressed.
unfoldable pub keys_match : ShortcutState → List ℕ → Bool
unfolding same_keys
keys_match state keys =
    if state.npressed == length keys
    then same_keys keys state.pressed
    else elim keys [ [] ↦ false | k ∷ ks ↦ elim ks [ [] ↦ state.current_key == k | _ ∷ _ ↦ false ] ]

unfoldable pub is_candidate : Query → Binding → Bool
unfolding strcmp
is_candidate q b =
    (q.modifiers == b.modifiers)
    && same q.release b.is_release
    && not (q.locked && not b.is_locked)
    && not (q.inhibited && not b.is_inhibited)
    && (not (is_group_set b.group) || is_group b.group q.group)
    && (strcmp b.input q.input || strcmp b.input (codes "*") && not q.exact_input)

unfoldable pub is_match : Query → Binding → Bool
unfolding is_candidate keys_match
is_match q b = is_candidate q b && keys_match q.state b.keys

-- Whether the current binding stays in place of another one that matches.
unfoldable pub stays : Query → (current binding : Binding) → Bool
unfolding strcmp
stays q c b =
    let current_input = strcmp c.input q.input in
    let binding_input = strcmp b.input q.input in
    let same_input = same current_input binding_input in
    let same_group = same (is_group_set c.group) (is_group_set b.group) in
    let same_locked = same c.is_locked b.is_locked in
    let same_inhibited = same c.is_inhibited b.is_inhibited in
    (c.address == b.address)
    || same_input && same_locked && same_inhibited && same_group
    || current_input && not binding_input
    || same_input && is_group c.group q.group
    || same_input && same_group && same c.is_locked q.locked
    || same_input && same_group && same_locked && same c.is_inhibited q.inhibited

-- A flag is compared as it stands in the mask, so that only an unset one is ever equal to a `bool`.
unfoldable pub is_perfect : Query → Binding → Bool
unfolding strcmp
is_perfect q b =
    strcmp b.input q.input
    && not b.is_locked
    && not q.locked
    && not b.is_inhibited
    && not q.inhibited
    && is_group b.group q.group

-- The binding after one round, and whether it is a new one.
abbrev pub choose : Query → Option Binding → Binding → Option Binding × Bool
choose q none b = if is_match q b then (some b, true) else (none, false)
choose q (some c) b = if is_match q b && not (stays q c b) then (some b, true) else (some c, false)

unfoldable pub get_active_binding : Query → List Binding → Option Binding → Option Binding
unfolding is_match stays is_perfect
get_active_binding q [] current = current
get_active_binding q (b ∷ bs) current =
    let (next, is_new) = choose q current b in
    let rest = get_active_binding q bs next in if is_new && is_perfect q b then next else rest
