-- ===== src/Keyboard/Order.antt =====
-- Whatever keys go down and up, what src/input/keyboard.c holds of them is in order.
use hayward.Common.{
  ℕ, ◌≤◌, ◌≡◌, refl, sym, subst, inl, inr, List, [], ◌∷◌, length, replicate, Bool, true, false, not,
  ◌&&◌, ◌==◌, ltb, leb, if◌then◌else◌, arith, Bool-cases,
}
use hayward.Keyboard.{
  Slot, no_slot, ShortcutState, cap, state_erase_key, state_add_key, update_shortcut_state,
}
use hayward.Keyboard.Held.{Holds, without, insert_slot}
use hayward.Keyboard.Erase.{state_erase_key_lem}
use hayward.Keyboard.Add.{state_add_key_lem}

abbrev AllFrom : ℕ → List Slot → Type 0
AllFrom k [] = Unit
AllFrom k (x ∷ xs) = (k ≤ x.key) × AllFrom k xs

abbrev pub IsOrdered : List Slot → Type 0
IsOrdered [] = Unit
IsOrdered (x ∷ xs) = AllFrom x.key xs × IsOrdered xs

without-AllFrom : (k keycode : ℕ) (xs : List Slot) → AllFrom k xs → AllFrom k (without keycode xs)
without-AllFrom k keycode [] a = tt
without-AllFrom k keycode (x ∷ xs) (h, a) = elim (Bool-cases (x.keycode == keycode)) [
  | inl t ↦ rw (t) (without-AllFrom k keycode xs a)
  | inr f ↦ rw (f) (h, without-AllFrom k keycode xs a)
]

without-IsOrdered : (keycode : ℕ) (xs : List Slot) → IsOrdered xs → IsOrdered (without keycode xs)
without-IsOrdered keycode [] o = tt
without-IsOrdered keycode (x ∷ xs) (a, o) = elim (Bool-cases (x.keycode == keycode)) [
  | inl t ↦ rw (t) (without-IsOrdered keycode xs o)
  | inr f ↦ rw (f) (without-AllFrom x.key keycode xs a, without-IsOrdered keycode xs o)
]

AllFrom-trans : (k l : ℕ) (xs : List Slot) → k ≤ l → AllFrom l xs → AllFrom k xs
AllFrom-trans k l [] h a = tt
AllFrom-trans k l (x ∷ xs) h (b, a) = (omega (arith, h, b), AllFrom-trans k l xs h a)

insert_slot-AllFrom :
    (k : ℕ) (s : Slot) (xs : List Slot) → k ≤ s.key → AllFrom k xs → AllFrom k (insert_slot s xs)
insert_slot-AllFrom k s [] h a = (h, tt)
insert_slot-AllFrom k s (x ∷ xs) h (b, a) = elim (Bool-cases (ltb x.key s.key)) [
  | inl t ↦ rw (t) (b, insert_slot-AllFrom k s xs h a)
  | inr f ↦ rw (f) (h, (b, a))
]

insert_slot-IsOrdered : (s : Slot) (xs : List Slot) → IsOrdered xs → IsOrdered (insert_slot s xs)
insert_slot-IsOrdered s [] o = (tt, tt)
insert_slot-IsOrdered s (x ∷ xs) (a, o) = elim (Bool-cases (ltb x.key s.key)) [
  | inl t ↦ rw (t) (insert_slot-AllFrom x.key s xs (ground arith) a, insert_slot-IsOrdered s xs o)
  | inr f ↦
      let le : s.key ≤ x.key = ground arith in
      rw (f) ((le, AllFrom-trans s.key x.key xs le a), (a, o))
]

-- The arrays hold some keys, in order of their ids.
pub record IsOrderly (st : ShortcutState) : Type 0 where
  pub held : List Slot
  pub holds : Holds st held
  pub is_ordered : IsOrdered held

erase-IsOrderly :
    (st : ShortcutState) (keycode : ℕ) → IsOrderly st → IsOrderly (state_erase_key st keycode).0
erase-IsOrderly st keycode h = record {
  held = without keycode h.held;
  holds = (state_erase_key_lem st h.held keycode h.holds).0;
  is_ordered = without-IsOrdered keycode h.held h.is_ordered;
}

add-IsOrderly :
    (st : ShortcutState) (keycode key_id : ℕ)
    → IsOrderly st
    → IsOrderly (state_add_key st keycode key_id)
unfolding state_add_key
add-IsOrderly st keycode key_id h = elim (Bool-cases (ltb (length h.held) cap)) [
  | inl t ↦ record {
    held = insert_slot (record { key = key_id; keycode = keycode }) h.held;
    holds = (state_add_key_lem st h.held keycode key_id h.holds t).0;
    is_ordered =
        insert_slot-IsOrdered (record { key = key_id; keycode = keycode }) h.held h.is_ordered;
  }
  | inr f ↦
      let full : leb cap st.npressed ≡ true = ground (arith, h.holds.count) in
      rw (full, state_add_key) h
]

relabel :
    (st : ShortcutState) (last_keycode last_raw_modifiers : ℕ)
    → IsOrderly st
    → IsOrderly (record st { last_keycode = last_keycode; last_raw_modifiers = last_raw_modifiers })
relabel st last_keycode last_raw_modifiers h = record {
  held = h.held;
  holds = record {
    spare = h.holds.spare;
    slots = h.holds.slots;
    count = h.holds.count;
    room = h.holds.room;
  };
  is_ordered = h.is_ordered;
}

if-IsOrderly :
    (b : Bool) (x y : ShortcutState) → IsOrderly x → IsOrderly y → IsOrderly (if b then x else y)
if-IsOrderly true x y h k = h
if-IsOrderly false x y h k = k

either-IsOrderly :
    (b : Bool) (x y : ShortcutState × Bool)
    → IsOrderly x.0
    → IsOrderly y.0
    → (r : ShortcutState × Bool) → r ≡ (if b then x else y)
    → IsOrderly r.0
either-IsOrderly true x y h k r e = subst (λ r. IsOrderly r.0) (sym e) h
either-IsOrderly false x y h k r e = subst (λ r. IsOrderly r.0) (sym e) k

-- A key event: its keycode, whether the key went down, its id and the modifiers.
pub record KeyEvent : Type 0 where
  pub keycode : ℕ
  pub is_pressed : Bool
  pub new_key : ℕ
  pub raw_modifiers : ℕ

abbrev pub at_first : ShortcutState
at_first = record {
  pressed = replicate cap no_slot;
  last_keycode = 0;
  last_raw_modifiers = 0;
  npressed = 0;
  current_key = 0;
}

abbrev pub after_event : ShortcutState → KeyEvent → ShortcutState
after_event st e = (update_shortcut_state st e.keycode e.is_pressed e.new_key e.raw_modifiers).0

abbrev pub after_events : ShortcutState → List KeyEvent → ShortcutState
after_events st [] = st
after_events st (e ∷ es) = after_events (after_event st e) es

after_event-IsOrderly :
    (st : ShortcutState) (e : KeyEvent) → IsOrderly st → IsOrderly (after_event st e)
unfolding update_shortcut_state
after_event-IsOrderly st e h =
    let noted = record st { last_raw_modifiers = e.raw_modifiers } in
    let noted_orderly = relabel st st.last_keycode e.raw_modifiers h in
    let modified = not (e.raw_modifiers == st.last_raw_modifiers) && not (st.last_keycode == 0) in
    let cleaned = if modified then (state_erase_key noted st.last_keycode).0 else noted in
    let cleaned_orderly =
      if-IsOrderly modified (state_erase_key noted st.last_keycode).0 noted
        (erase-IsOrderly noted st.last_keycode noted_orderly) noted_orderly in
    let added = state_add_key cleaned e.keycode e.new_key in
    either-IsOrderly e.is_pressed (record added { last_keycode = e.keycode }, false)
      (state_erase_key cleaned e.keycode)
      (relabel added e.keycode added.last_raw_modifiers
        (add-IsOrderly cleaned e.keycode e.new_key cleaned_orderly))
      (erase-IsOrderly cleaned e.keycode cleaned_orderly)
      (update_shortcut_state st e.keycode e.is_pressed e.new_key e.raw_modifiers) refl

from_IsOrderly :
    (st : ShortcutState) (es : List KeyEvent) → IsOrderly st → IsOrderly (after_events st es)
from_IsOrderly st [] h = h
from_IsOrderly st (e ∷ es) h = from_IsOrderly (after_event st e) es (after_event-IsOrderly st e h)

-- After any sequence of key events the arrays hold at most 32 keys, in ascending order of their
-- ids, with zeros behind them.
pub after_events-IsOrderly : (es : List KeyEvent) → IsOrderly (after_events at_first es)
after_events-IsOrderly es = from_IsOrderly at_first es (record {
  held = [];
  holds = record { spare = cap; slots = refl; count = refl; room = refl };
  is_ordered = tt;
})
