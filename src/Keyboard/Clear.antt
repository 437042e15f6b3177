-- ===== src/Keyboard/Clear.antt =====
-- The loop of state_erase_key of src/input/keyboard.c that clears the slots behind the keys.
use hayward.Common.{
  ℕ, zero, suc, ◌+◌, ◌≡◌, refl, sym, ap, subst, ◌∙◌, List, [], ◌∷◌, ◌++◌, length, set, replicate,
  true, ltb, if◌then◌else◌, arith, length-append, set-append,
}
use mathlib.Core.List.{append_assoc}
use hayward.Keyboard.{Slot, no_slot, clear_loop}

clear_stop : (j : ℕ) (s : List Slot) → clear_loop j j s ≡ (j, s)
unfolding clear_loop
clear_stop zero s = refl
clear_stop (suc j) s = ground arith

replicate_snoc :
    (k : ℕ) (c : List Slot)
    → replicate k no_slot ++ no_slot ∷ c ≡ no_slot ∷ (replicate k no_slot ++ c)
replicate_snoc zero c = refl
replicate_snoc (suc k) c = ap (◌∷◌ no_slot) (replicate_snoc k c)

pub split_last :
    (b : List Slot) (k : ℕ)
    → length b ≡ suc k
    → (b' : List Slot) × (x : Slot) × (b ≡ b' ++ x ∷ []) × (length b' ≡ k)
split_last [] k h = absurd (omega arith)
split_last (y ∷ []) k h = ([], y, refl, omega arith)
split_last (y ∷ z ∷ b) zero h = absurd (omega arith)
split_last (y ∷ z ∷ b) (suc k) h =
    let (b', x, e, l) = split_last (z ∷ b) k (omega arith) in (y ∷ b', x, ap (◌∷◌ y) e, ap suc l)

pub clear_loop_lem :
    (k : ℕ) (a b c : List Slot)
    → length b ≡ k
    → clear_loop (length a) (length a + k) (a ++ (b ++ c))
      ≡ (length a, a ++ (replicate k no_slot ++ c))
unfolding clear_loop
clear_loop_lem zero a [] c h =
    subst (λ m. clear_loop (length a) m (a ++ c) ≡ (length a, a ++ c))
      (let e : length a ≡ length a + 0 = omega arith in e) (clear_stop (length a) (a ++ c))
clear_loop_lem zero a (x ∷ b) c h = absurd (omega arith)
clear_loop_lem (suc k) a b c h =
    let (b', x, e, l) = split_last b k h in
    let n = length a + k in
    let same : length a + suc k ≡ suc n = omega arith in
    let go : ltb (length a) (suc n) ≡ true = ground arith in
    let rearranged : a ++ (b ++ c) ≡ (a ++ b') ++ x ∷ c =
      ap (λ m. a ++ (m ++ c)) e
      ∙ ap (λ m. a ++ m) (append_assoc b' (x ∷ []) c)
      ∙ sym (append_assoc a b' (x ∷ c)) in
    let cleared : set (a ++ (b ++ c)) n no_slot ≡ a ++ (b' ++ no_slot ∷ c) =
      ap (λ m. set m n no_slot) rearranged
      ∙ set-append (a ++ b') c x no_slot n (omega (arith, length-append a b', l))
      ∙ append_assoc a b' (no_slot ∷ c) in
    ap (λ m. clear_loop (length a) m (a ++ (b ++ c))) same
    ∙ ap
        (λ t.
          if t
          then clear_loop (length a) n (set (a ++ (b ++ c)) n no_slot)
          else (suc n, a ++ (b ++ c)))
        go
    ∙ ap (clear_loop (length a) n) cleared
    ∙ clear_loop_lem k a b' (no_slot ∷ c) l
    ∙ ap (λ m. (length a, a ++ m)) (replicate_snoc k c)
