-- ===== src/Keyboard/Erase.antt =====
-- state_erase_key of src/input/keyboard.c filters the keys that are held.
use hayward.Common.{
  ℕ, zero, suc, ◌+◌, ◌≡◌, refl, sym, ap, subst, ◌∙◌, inl, inr, List, [], ◌∷◌, ◌++◌, length, set,
  replicate, get_elem?, Option, none, some, Bool, true, false, ◌==◌, ltb, if◌then◌else◌, arith,
  Bool-cases, length-append, get_elem?-append, set-append,
}
use mathlib.Core.List.{append_assoc}
use hayward.Keyboard.Held.{Holds, without, is_held}
use hayward.Keyboard.Clear.{clear_loop_lem}
use hayward.Keyboard.{
  Slot, no_slot, ShortcutState, copy_slot, has_keycode, erase_loop, clear_loop, state_erase_key,
}

-- What the loop over the slots `rest` leaves of the array `kept ++ gap ++ rest ++ tail`, where
-- `kept` is what has been kept and `gap` what may be written over.
record Erased (keycode : ℕ) (rest kept gap tail : List Slot) (found : Bool)
    (r : List Slot × ℕ × Bool) : Type 0 where
  left_over : List Slot
  count : length left_over + length (without keycode rest) ≡ length gap + length rest
  result : r ≡ (
    kept ++ (without keycode rest ++ (left_over ++ tail)),
    length kept + length (without keycode rest),
    if is_held keycode rest then true else found,
  )

-- The slot at `i` moves to `j`.
record Moved (slots : List Slot) (i : ℕ) (x : Slot) (kept gap after : List Slot) (moved : List Slot)
    : Type 0 where
  gap2 : List Slot
  same_length : length gap2 ≡ length gap
  moved_is : moved ≡ kept ++ x ∷ (gap2 ++ after)
  still_there : get_elem? (kept ++ x ∷ (gap2 ++ after)) i ≡ some x

move_slot :
    (kept gap after : List Slot) (x : Slot) (i j : ℕ)
    → i ≡ length kept + length gap
    → j ≡ length kept
    → Moved
        (kept ++ (gap ++ x ∷ after))
        i
        x
        kept
        gap
        after
        (if ltb j i then copy_slot (kept ++ (gap ++ x ∷ after)) j i else kept ++ (gap ++ x ∷ after))
move_slot kept [] after x i j e f =
    let stays : ltb j i ≡ false = ground arith in
    record {
      gap2 = [];
      same_length = refl;
      moved_is = rw (stays) refl;
      still_there = get_elem?-append kept after x i (omega arith);
    }
move_slot kept (g ∷ gap) after x i j e f =
    let slots = kept ++ (g ∷ (gap ++ x ∷ after)) in
    let moves : ltb j i ≡ true = ground arith in
    let found : get_elem? slots i ≡ some x =
      ap (λ l. get_elem? l i) (sym (append_assoc kept (g ∷ gap) (x ∷ after)))
      ∙ get_elem?-append (kept ++ (g ∷ gap)) after x i
          (omega (arith, length-append kept (g ∷ gap))) in
    let written : set slots j x ≡ kept ++ x ∷ (gap ++ x ∷ after) =
      set-append kept (gap ++ x ∷ after) g x j f in
    let again : gap ++ x ∷ after ≡ (gap ++ x ∷ []) ++ after =
      sym (append_assoc gap (x ∷ []) after) in
    record {
      gap2 = gap ++ x ∷ [];
      same_length = omega (arith, length-append gap (x ∷ []));
      moved_is = rw (moves, found, copy_slot) (written ∙ ap (λ l. kept ++ x ∷ l) again);
      still_there =
          ap (λ l. get_elem? (kept ++ x ∷ l) i) (sym again)
          ∙ ap (λ l. get_elem? l i) (sym (append_assoc kept (x ∷ gap) (x ∷ after)))
          ∙ get_elem?-append (kept ++ (x ∷ gap)) after x i
              (omega (arith, length-append kept (x ∷ gap)));
    }

as_is : (b : Bool) → (if b then true else false) ≡ b
as_is true = refl
as_is false = refl

always : (b : Bool) → (if b then true else true) ≡ true
always true = refl
always false = refl

erase_loop_lem :
    (keycode : ℕ) (rest kept gap tail : List Slot) (i j : ℕ) (found : Bool)
    → i ≡ length kept + length gap
    → j ≡ length kept
    → Erased keycode rest kept gap tail found
        (erase_loop keycode (length rest) i j (kept ++ (gap ++ (rest ++ tail))) found)
unfolding erase_loop
erase_loop_lem keycode [] kept gap tail i j found e f = record {
  left_over = gap;
  count = refl;
  result = ap (λ m. (kept ++ (gap ++ tail), m, found)) (omega arith);
}
erase_loop_lem keycode (x ∷ rest) kept gap tail i j found e f =
    let after = rest ++ tail in
    let slots = kept ++ (gap ++ x ∷ after) in
    let step = move_slot kept gap after x i j e f in
    let gap2 = step.gap2 in
    let moved = kept ++ x ∷ (gap2 ++ after) in
    let run : List Slot → Bool → List Slot × ℕ × Bool = λ m erased.
      erase_loop keycode (length rest) (suc i) (if erased then j else suc j) m
        (if erased then true else found) in
    let one : has_keycode moved i keycode ≡ (x.keycode == keycode) =
      ap (λ (o : Option Slot). elim o [ none ↦ false | some s ↦ s.keycode == keycode ])
        step.still_there in
    let path : run (if ltb j i then copy_slot slots j i else slots)
          (has_keycode (if ltb j i then copy_slot slots j i else slots) i keycode)
        ≡ run moved (x.keycode == keycode) =
      ap (λ m. run m (has_keycode m i keycode)) step.moved_is ∙ ap (run moved) one in
    subst (Erased keycode (x ∷ rest) kept gap tail found) (sym path)
      (elim (Bool-cases (x.keycode == keycode)) [
        | inl t ↦
            let further =
              erase_loop_lem keycode rest kept (x ∷ gap2) tail (suc i) j true
                (omega (arith, e, step.same_length)) f in
            subst (Erased keycode (x ∷ rest) kept gap tail found) (ap (run moved) (sym t)) (record {
              left_over = further.left_over;
              count = rw (t) (omega (arith, further.count, step.same_length));
              result = rw (t) (
                  further.result
                  ∙ ap
                      (λ b. (
                        kept ++ (without keycode rest ++ (further.left_over ++ tail)),
                        length kept + length (without keycode rest),
                        b,
                      ))
                      (always (is_held keycode rest)));
            })
        | inr u ↦
            let snoc = kept ++ x ∷ [] in
            let further =
              erase_loop_lem keycode rest snoc gap2 tail (suc i) (suc j) found
                (omega (arith, e, step.same_length, length-append kept (x ∷ [])))
                (omega (arith, f, length-append kept (x ∷ []))) in
            let longer : length snoc + length (without keycode rest)
                ≡ length kept + suc (length (without keycode rest)) =
              omega (arith, length-append kept (x ∷ [])) in
            let order = append_assoc kept (x ∷ []) (gap2 ++ after) in
            subst (Erased keycode (x ∷ rest) kept gap tail found) (ap (run moved) (sym u)) (record {
              left_over = further.left_over;
              count = rw (u) (omega (arith, further.count, step.same_length));
              result = rw (u) (
                  ap (λ m. run m false) (sym order)
                  ∙ further.result
                  ∙ ap
                      (λ l. (
                        snoc ++ (without keycode rest ++ (further.left_over ++ tail)),
                        l,
                        if is_held keycode rest then true else found,
                      ))
                      longer
                  ∙ ap
                      (λ l. (
                        l,
                        length kept + suc (length (without keycode rest)),
                        if is_held keycode rest then true else found,
                      ))
                      (append_assoc kept (x ∷ [])
                        (without keycode rest ++ (further.left_over ++ tail))));
            })
      ])

replicate-append :
    (a b : ℕ) → replicate a no_slot ++ replicate b no_slot ≡ replicate (a + b) no_slot
replicate-append zero b = ap (λ m. replicate m no_slot) (omega arith)
replicate-append (suc a) b =
    let e : suc (a + b) ≡ suc a + b = omega arith in
    ap (◌∷◌ no_slot) (replicate-append a b) ∙ ap (λ m. replicate m no_slot) e

-- Releasing a key erases exactly the keys that were pressed with its code, keeps the others in
-- their order, clears the slots that become free, and says whether there was one.
pub state_erase_key_lem :
    (st : ShortcutState) (held : List Slot) (keycode : ℕ)
    → Holds st held
    → Holds (state_erase_key st keycode).0 (without keycode held)
      × ((state_erase_key st keycode).1 ≡ is_held keycode held)
unfolding state_erase_key
state_erase_key_lem st held keycode h =
    let zeros = replicate h.spare no_slot in
    let rest = without keycode held in
    let erased = erase_loop_lem keycode held [] [] zeros 0 0 false refl refl in
    let over = erased.left_over in
    let loop : erase_loop keycode st.npressed 0 0 st.pressed false
        ≡ (rest ++ (over ++ zeros), 0 + length rest, if is_held keycode held then true else false) =
      ap (λ m. erase_loop keycode m 0 0 st.pressed false) h.count
      ∙ ap (λ m. erase_loop keycode (length held) 0 0 m false) h.slots
      ∙ erased.result in
    let number : st.npressed ≡ length rest + length over = omega (arith, h.count, erased.count) in
    let cleared : clear_loop (0 + length rest) st.npressed (rest ++ (over ++ zeros))
        ≡ (length rest, rest ++ (replicate (length over) no_slot ++ zeros)) =
      ap (λ m. clear_loop m st.npressed (rest ++ (over ++ zeros))) (omega arith)
      ∙ ap (λ m. clear_loop (length rest) m (rest ++ (over ++ zeros))) number
      ∙ clear_loop_lem (length over) rest over zeros refl in
    let both = ap (λ r. clear_loop r.1 st.npressed r.0) loop ∙ cleared in
    (
      record {
        spare = length over + h.spare;
        slots = ap (λ r. r.1) both ∙ ap (λ m. rest ++ m) (replicate-append (length over) h.spare);
        count = ap (λ r. r.0) both;
        room = omega (arith, h.room, erased.count);
      },
      ap (λ r. r.2) loop ∙ as_is (is_held keycode held),
    )
