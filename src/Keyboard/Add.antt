-- ===== src/Keyboard/Add.antt =====
-- state_add_key of src/input/keyboard.c inserts a key where it belongs.
use hayward.Common.{
  ℕ, zero, suc, ◌+◌, ◌-◌, ◌≡◌, refl, sym, ap, ◌∙◌, inl, inr, List, [], ◌∷◌, ◌++◌, length, set,
  replicate, get_elem?, some, true, false, ltb, leb, arith, Bool-cases, length-append,
  get_elem?-append, set-append,
}
use mathlib.Core.List.{append_assoc}
use hayward.Keyboard.{
  Slot, no_slot, ShortcutState, cap, copy_slot, place_loop, shift_loop, state_add_key,
}
use hayward.Keyboard.Held.{Holds, insert_slot}
use hayward.Keyboard.Clear.{split_last}

-- The keys that are less, and the others.
record Split (s : Slot) (held : List Slot) : Type 0 where
  less : List Slot
  others : List Slot
  held_is : held ≡ less ++ others
  inserted : insert_slot s held ≡ less ++ s ∷ others
  place :
      (before after : List Slot) (i : ℕ)
      → i ≡ length before
      → place_loop s.key (length held) i (before ++ (held ++ after)) ≡ i + length less

held-Split : (s : Slot) (held : List Slot) → Split s held
unfolding place_loop
held-Split s [] = record {
  less = [];
  others = [];
  held_is = refl;
  inserted = refl;
  place = λ before after i e. omega arith;
}
held-Split s (x ∷ held) =
    let rest = held-Split s held in
    elim (Bool-cases (ltb x.key s.key)) [
      | inl t ↦ record {
        less = x ∷ rest.less;
        others = rest.others;
        held_is = ap (◌∷◌ x) rest.held_is;
        inserted = rw (t) (ap (◌∷◌ x) rest.inserted);
        place = λ before after i e.
            let here : get_elem? (before ++ x ∷ (held ++ after)) i ≡ some x =
              get_elem?-append before (held ++ after) x i e in
            let slots_are = append_assoc before (x ∷ []) (held ++ after) in
            let further =
              rest.place (before ++ x ∷ []) after (suc i)
                (omega (arith, e, length-append before (x ∷ []))) in
            rw (here, t, place_loop)
              (ap (place_loop s.key (length held) (suc i)) (sym slots_are) ∙ further ∙ omega arith);
      }
      | inr f ↦ record {
        less = [];
        others = x ∷ held;
        held_is = refl;
        inserted = rw (f) refl;
        place = λ before after i e.
            let here : get_elem? (before ++ x ∷ (held ++ after)) i ≡ some x =
              get_elem?-append before (held ++ after) x i e in
            rw (here, f, place_loop) (omega arith);
      }
    ]

-- A gap opens in front of `others`.
shift_loop_lem :
    (n : ℕ) (less others after : List Slot) (z : Slot)
    → length others ≡ n
    → (y : Slot) × (shift_loop n (length less) (less ++ (others ++ z ∷ after))
        ≡ less ++ y ∷ (others ++ after))
unfolding shift_loop
shift_loop_lem zero less [] after z h = (z, refl)
shift_loop_lem zero less (x ∷ others) after z h = absurd (omega arith)
shift_loop_lem (suc n) less others after z h =
    let (front, x, e, l) = split_last others n h in
    let at = length less + n in
    let slots = less ++ (others ++ z ∷ after) in
    let gap : slots ≡ (less ++ front) ++ x ∷ (z ∷ after) =
      ap (λ m. less ++ (m ++ z ∷ after)) e
      ∙ ap (λ m. less ++ m) (append_assoc front (x ∷ []) (z ∷ after))
      ∙ sym (append_assoc less front (x ∷ (z ∷ after))) in
    let found : get_elem? slots at ≡ some x =
      ap (λ m. get_elem? m at) gap
      ∙ get_elem?-append (less ++ front) (z ∷ after) x at
          (omega (arith, length-append less front, l)) in
    let wider : slots ≡ ((less ++ front) ++ x ∷ []) ++ z ∷ after =
      gap ∙ sym (append_assoc (less ++ front) (x ∷ []) (z ∷ after)) in
    let written : set slots (suc at) x ≡ less ++ (front ++ x ∷ (x ∷ after)) =
      ap (λ m. set m (suc at) x) wider
      ∙ set-append ((less ++ front) ++ x ∷ []) after z x (suc at)
          (omega (arith, length-append (less ++ front) (x ∷ []), length-append less front, l))
      ∙ append_assoc (less ++ front) (x ∷ []) (x ∷ after)
      ∙ append_assoc less front (x ∷ (x ∷ after)) in
    let copied : copy_slot slots (suc at) at ≡ less ++ (front ++ x ∷ (x ∷ after)) =
      rw (found, copy_slot) written in
    let (y, further) = shift_loop_lem n less front (x ∷ after) x l in
    let back : front ++ x ∷ after ≡ others ++ after =
      sym (append_assoc front (x ∷ []) after) ∙ ap (λ m. m ++ after) (sym e) in
    (y, ap (shift_loop n (length less)) copied ∙ further ∙ ap (λ m. less ++ y ∷ m) back)

-- Pressing a key while there is room puts it where it belongs among the keys that are held, and
-- changes nothing else of them; its code is noted with it, and it is the current key.
pub state_add_key_lem :
    (st : ShortcutState) (held : List Slot) (keycode key_id : ℕ)
    → Holds st held
    → ltb (length held) cap ≡ true
    → Holds
        (state_add_key st keycode key_id)
        (insert_slot (record { key = key_id; keycode = keycode }) held)
      × ((state_add_key st keycode key_id).current_key ≡ key_id)
unfolding state_add_key
state_add_key_lem st held keycode key_id h room =
    let s : Slot = record { key = key_id; keycode = keycode } in
    let split = held-Split s held in
    let less = split.less in
    let others = split.others in
    let spare = h.spare - 1 in
    let has_room : h.spare ≡ suc spare = ground (arith, h.room) in
    let zeros = replicate spare no_slot in
    let allowed : leb cap st.npressed ≡ false = ground (arith, h.count) in
    let slots_are : st.pressed ≡ held ++ no_slot ∷ zeros =
      h.slots ∙ ap (λ m. held ++ replicate m no_slot) has_room in
    let parts : length held ≡ length less + length others =
      ap length split.held_is ∙ length-append less others in
    let place : place_loop key_id st.npressed 0 st.pressed ≡ length less =
      ap (λ m. place_loop key_id m 0 st.pressed) h.count
      ∙ ap (place_loop key_id (length held) 0) slots_are
      ∙ split.place [] (no_slot ∷ zeros) 0 refl
      ∙ omega arith in
    let number : st.npressed - length less ≡ length others = omega (arith, h.count, parts) in
    let start : st.pressed ≡ less ++ (others ++ no_slot ∷ zeros) =
      slots_are
      ∙ ap (λ m. m ++ no_slot ∷ zeros) split.held_is
      ∙ append_assoc less others (no_slot ∷ zeros) in
    let (y, moved) = shift_loop_lem (length others) less others zeros no_slot refl in
    let shifted : shift_loop (st.npressed - length less) (length less) st.pressed
        ≡ less ++ y ∷ (others ++ zeros) =
      ap (λ m. shift_loop m (length less) st.pressed) number
      ∙ ap (shift_loop (length others) (length less)) start
      ∙ moved in
    let written : set (shift_loop (st.npressed - length less) (length less) st.pressed)
          (length less) s
        ≡ insert_slot s held ++ zeros =
      ap (λ m. set m (length less) s) shifted
      ∙ set-append less (others ++ zeros) y s (length less) refl
      ∙ sym (append_assoc less (s ∷ others) zeros)
      ∙ ap (λ m. m ++ zeros) (sym split.inserted) in
    let grown : suc (length held) ≡ length (insert_slot s held) =
      let e : suc (length held) ≡ length less + suc (length others) = omega (arith, parts) in
      e ∙ sym (length-append less (s ∷ others)) ∙ ap length (sym split.inserted) in
    rw (allowed, state_add_key)
      (
        record {
          spare = spare;
          slots = ap (λ i. set (shift_loop (st.npressed - i) i st.pressed) i s) place ∙ written;
          count = ap suc h.count ∙ grown;
          room = omega (arith, h.room, has_room, grown);
        },
        refl,
      )
