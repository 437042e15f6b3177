-- ===== src/Keyboard/Held.antt =====
-- The keys that are held, as a list: what the arrays of src/input/keyboard.c stand for.
use hayward.Common.{
  ℕ, ◌+◌, ◌≡◌, List, [], ◌∷◌, ◌++◌, length, replicate, Bool, true, false, ◌==◌, ltb, if◌then◌else◌,
}
use hayward.Keyboard.{Slot, no_slot, ShortcutState, cap}

-- The keys that are held, in the order of the array, and zeros behind them.
pub record Holds (st : ShortcutState) (held : List Slot) : Type 0 where
  pub spare : ℕ
  pub slots : st.pressed ≡ held ++ replicate spare no_slot
  pub count : st.npressed ≡ length held
  pub room : length held + spare ≡ cap

-- What remains without the keys of a keycode.
abbrev pub without : ℕ → List Slot → List Slot
without keycode [] = []
without keycode (s ∷ ss) =
    if s.keycode == keycode then without keycode ss else s ∷ without keycode ss

abbrev pub is_held : ℕ → List Slot → Bool
is_held keycode [] = false
is_held keycode (s ∷ ss) = if s.keycode == keycode then true else is_held keycode ss

-- A key goes in front of the first one that is not less.
abbrev pub insert_slot : Slot → List Slot → List Slot
insert_slot s [] = s ∷ []
insert_slot s (x ∷ xs) = if ltb x.key s.key then x ∷ insert_slot s xs else s ∷ x ∷ xs
