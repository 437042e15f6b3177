-- ===== src/Tests/Keys.antt =====
-- Keys that go down and up, and bindings for them.
use hayward.Common.{
  ℕ, ◌==◌, if◌then◌else◌, ◌≡◌, refl, List, [], ◌∷◌, ◌++◌, none, some, true, false, replicate,
}
use hayward.Text.{codes}
use hayward.Keyboard.{Slot, no_slot, ShortcutState, state_erase_key, state_add_key}
use hayward.Keyboard.Held.{Holds, without, is_held, insert_slot}
use hayward.Keyboard.Erase.{state_erase_key_lem}
use hayward.Keyboard.Add.{state_add_key_lem}
use hayward.Keyboard.Order.{KeyEvent, IsOrderly, at_first, after_events, after_events-IsOrderly}
use hayward.Keyboard.Bindings.{Binding, Query, get_active_binding}

-- Two keys, the first of which gives two ids.
abbrev three_ids : List Slot
three_ids =
    (record { key = 97; keycode = 30 })
    ∷ (record { key = 98; keycode = 48 })
    ∷ (record { key = 99; keycode = 30 })
    ∷ []

abbrev holding : ShortcutState
holding = record {
  pressed = three_ids ++ replicate 29 no_slot;
  last_keycode = 48;
  last_raw_modifiers = 0;
  npressed = 3;
  current_key = 98;
}

holding-Holds : Holds holding three_ids
holding-Holds = record { spare = 29; slots = refl; count = refl; room = refl }

state_erase_key_lem_example :
    Holds (state_erase_key holding 30).0 (without 30 three_ids)
    × ((state_erase_key holding 30).1 ≡ is_held 30 three_ids)
state_erase_key_lem_example = state_erase_key_lem holding three_ids 30 holding-Holds

state_add_key_lem_example :
    Holds (state_add_key holding 31 98) (insert_slot (record { key = 98; keycode = 31 }) three_ids)
    × ((state_add_key holding 31 98).current_key ≡ 98)
state_add_key_lem_example = state_add_key_lem holding three_ids 31 98 holding-Holds refl

abbrev down_and_up : List KeyEvent
down_and_up =
    (record { keycode = 30; is_pressed = true; new_key = 97; raw_modifiers = 0 })
    ∷ (record { keycode = 42; is_pressed = true; new_key = 65505; raw_modifiers = 0 })
    ∷ (record { keycode = 48; is_pressed = true; new_key = 98; raw_modifiers = 1 })
    ∷ (record { keycode = 30; is_pressed = false; new_key = 97; raw_modifiers = 1 })
    ∷ []

after_events-IsOrderly_example : IsOrderly (after_events at_first down_and_up)
after_events-IsOrderly_example = after_events-IsOrderly down_and_up

abbrev for_all : Binding
for_all = record {
  address = 1;
  input = codes "*";
  is_release = false;
  is_locked = false;
  is_inhibited = false;
  keys = 98 ∷ [];
  modifiers = 64;
  group = none;
}

abbrev for_one : Binding
for_one = record for_all { address = 2; input = codes "1:1:keys" }

abbrev asked : Query
asked = record {
  state = holding;
  modifiers = 64;
  release = false;
  locked = false;
  inhibited = false;
  input = codes "1:1:keys";
  exact_input = false;
  group = 0;
}

abbrev binding_at : ℕ → Binding
binding_at address = if address == 1 then for_all else for_one

-- The binding for the device is preferred.
get_active_binding-exact : get_active_binding asked (for_all ∷ for_one ∷ []) none ≡ some for_one
unfolding get_active_binding
get_active_binding-exact = refl
