-- ===== src/Keyboard.antt =====
-- src/input/keyboard.c: the keys that are held, as the shortcuts see them. The arrays pressed_keys
-- and pressed_keycodes, which are always written together, are one array of pairs.
pub mod Held
pub mod Clear
pub mod Erase
pub mod Add
pub mod Order
pub mod Bindings
pub mod Match
pub mod Rank
pub mod Active
use hayward.Common.{
  ℕ, zero, suc, ◌+◌, ◌-◌, List, [], ◌∷◌, Option, none, some, Bool, true, false, not, ◌&&◌, ◌==◌,
  ltb, leb, get_elem?, set, replicate, if◌then◌else◌,
}

-- HWD_KEYBOARD_PRESSED_KEYS_CAP
abbrev pub cap : ℕ
cap = 32

pub record Slot : Type 0 where
  pub key : ℕ
  pub keycode : ℕ

abbrev pub no_slot : Slot
no_slot = record { key = 0; keycode = 0 }

pub record ShortcutState : Type 0 where
  pub pressed : List Slot
  pub last_keycode : ℕ
  pub last_raw_modifiers : ℕ
  pub npressed : ℕ
  pub current_key : ℕ

-- slots[to] = slots[from]
abbrev pub copy_slot : List Slot → (to from : ℕ) → List Slot
copy_slot slots to from = elim (get_elem? slots from) [ none ↦ slots | some s ↦ set slots to s ]

abbrev pub has_keycode : List Slot → ℕ → ℕ → Bool
has_keycode slots i keycode = elim (get_elem? slots i) [
  | none ↦ false
  | some s ↦ s.keycode == keycode
]

-- The loop that closes the gaps, from index `i` on, of `left` slots: the slots, `j` and `found`.
unfoldable pub erase_loop :
    (keycode left i j : ℕ) → List Slot → (found : Bool) → List Slot × ℕ × Bool
erase_loop keycode zero i j slots found = (slots, j, found)
erase_loop keycode (suc left) i j slots found =
    let moved = if ltb j i then copy_slot slots j i else slots in
    let erased = has_keycode moved i keycode in
    erase_loop keycode left (suc i) (if erased then j else suc j) moved
      (if erased then true else found)

-- The loop that clears the slots behind the first `j`.
unfoldable pub clear_loop : (j npressed : ℕ) → List Slot → ℕ × List Slot
clear_loop j zero slots = (0, slots)
clear_loop j (suc n) slots =
    let rest = clear_loop j n (set slots n no_slot) in
    if ltb j (suc n) then rest else (suc n, slots)

unfoldable pub state_erase_key : ShortcutState → (keycode : ℕ) → ShortcutState × Bool
unfolding erase_loop clear_loop
state_erase_key st keycode =
    let (slots, j, found) = erase_loop keycode st.npressed 0 0 st.pressed false in
    let (npressed, cleared) = clear_loop j st.npressed slots in
    (record st { pressed = cleared; npressed = npressed; current_key = 0 }, found)

-- The first index from `i` on, of `left`, whose key is not less than `key_id`.
unfoldable pub place_loop : (key_id left i : ℕ) → List Slot → ℕ
place_loop key_id zero i slots = i
place_loop key_id (suc left) i slots =
    let rest = place_loop key_id left (suc i) slots in
    elim (get_elem? slots i) [ none ↦ i | some s ↦ if ltb s.key key_id then rest else i ]

-- while (j > i): the slots from `i` on move up by one, of which there are `left`.
unfoldable pub shift_loop : (left i : ℕ) → List Slot → List Slot
shift_loop zero i slots = slots
shift_loop (suc left) i slots = shift_loop left i (copy_slot slots (suc (i + left)) (i + left))

unfoldable pub state_add_key : ShortcutState → (keycode key_id : ℕ) → ShortcutState
unfolding place_loop shift_loop
state_add_key st keycode key_id =
    if leb cap st.npressed
    then st
    else let i = place_loop key_id st.npressed 0 st.pressed in
      let shifted = shift_loop (st.npressed - i) i st.pressed in
      record st {
        pressed = set shifted i (record { key = key_id; keycode = keycode });
        npressed = suc st.npressed;
        current_key = key_id;
      }

-- The result says whether a key was erased.
unfoldable pub update_shortcut_state :
    ShortcutState
    → (keycode : ℕ) → (is_pressed : Bool) → (new_key raw_modifiers : ℕ) → ShortcutState × Bool
unfolding state_erase_key state_add_key
update_shortcut_state st keycode is_pressed new_key raw_modifiers =
    let last_was_a_modifier = not (raw_modifiers == st.last_raw_modifiers) in
    let noted = record st { last_raw_modifiers = raw_modifiers } in
    let st =
      if last_was_a_modifier && not (st.last_keycode == 0)
      then (state_erase_key noted st.last_keycode).0
      else noted in
    if is_pressed
    then (record (state_add_key st keycode new_key) { last_keycode = keycode }, false)
    else state_erase_key st keycode
