-- ===== src/Strings/Words.antt =====
-- split_args of src/stringop.c on a line that join_args made: what a word is, and that the words
-- come back.
use hayward.Common.{
  ℕ, some-injective, ◌≡◌, refl, sym, ◌∙◌, ap, List, [], ◌∷◌, ◌++◌, Option, none, some, true, false,
  if◌then◌else◌, arith, inl, inr, Bool-cases,
}
use mathlib.Core.List.{append_assoc, append-nil}
use hayward.ListT.Sort.Order.{All}
use hayward.Text.{CString}
use hayward.Strings.{
  is_blank, is_space, Flags, neutral, flags_after, ends_token, split_loop, split_args, join_args,
}

-- The flags after a text no character of which ends a token.
unfoldable pub scan : Flags → CString → Option Flags
unfolding flags_after ends_token
scan f [] = some f
scan f (c ∷ s) = let rest = scan (flags_after f c) s in if ends_token f c then none else rest

-- A text that is one token, and after which the next one may begin.
pub record IsWord (w : CString) : Type 0 where
  pub nonempty : is_blank w ≡ false
  pub is_whole : scan neutral w ≡ some neutral

split_loop-scan :
    (s rest token : CString) (f g : Flags)
    → scan f s ≡ some g
    → split_loop (s ++ rest) true token f ≡ split_loop rest true (token ++ s) g
unfolding split_loop scan
split_loop-scan [] rest token f g h =
    rw (append-nil token) (ap (split_loop rest true token) (some-injective f g h))
split_loop-scan (c ∷ s) rest token f g h = elim (Bool-cases (ends_token f c)) [
  | inl t ↦ ground (arith, t, h)
  | inr t ↦
      let k : scan (flags_after f c) s ≡ some g = sym (rw (t, scan) refl) ∙ h in
      rw (t) (
        split_loop-scan s rest (token ++ c ∷ []) (flags_after f c) g k
        ∙ ap (λ x. split_loop rest true x g) (append_assoc token (c ∷ []) s))
]

scan-first : (f g : Flags) (c : ℕ) (s : CString) → scan f (c ∷ s) ≡ some g → ends_token f c ≡ false
unfolding scan
scan-first f g c s h = ground (arith, h)

split_loop-begin :
    (c : ℕ) (s : CString) (f : Flags)
    → is_space c ≡ false
    → split_loop (c ∷ s) false [] f ≡ split_loop (c ∷ s) true [] f
unfolding split_loop
split_loop-begin c s f t = rw (t) refl

split_loop-space :
    (s token : CString)
    → is_blank token ≡ false
    → split_loop (b' ' ∷ s) true token neutral ≡ token ∷ split_loop s false [] neutral
unfolding split_loop ends_token
split_loop-space s token h = rw (h) refl

pub is_space-first : (c : ℕ) (w : CString) → IsWord (c ∷ w) → is_space c ≡ false
unfolding ends_token
is_space-first c w h = let k = scan-first neutral neutral c w h.is_whole in ground (arith, k)

-- A word in front of the rest of the line.
split_loop-IsWord :
    (w rest : CString)
    → IsWord w
    → split_loop (w ++ rest) false [] neutral ≡ split_loop rest true w neutral
unfolding split_loop
split_loop-IsWord [] rest h = ground (arith, h.nonempty)
split_loop-IsWord (c ∷ w) rest h =
    split_loop-begin c (w ++ rest) neutral (is_space-first c w h)
    ∙ split_loop-scan (c ∷ w) rest [] neutral neutral h.is_whole

split_loop-end :
    (token : CString) → is_blank token ≡ false → split_loop [] true token neutral ≡ token ∷ []
unfolding split_loop
split_loop-end token h = rw (h) refl

-- What join_args joins, split_args splits again, where all texts are words.
pub split_args-join_args :
    (argv : List CString) → All IsWord argv → split_args (join_args argv) ≡ argv
unfolding split_args join_args
split_args-join_args [] h = refl
split_args-join_args (a ∷ []) (h, k) =
    sym (ap (λ x. split_loop x false [] neutral) (append-nil a))
    ∙ split_loop-IsWord a [] h
    ∙ split_loop-end a h.nonempty
split_args-join_args (a ∷ b ∷ r) (h, k) =
    split_loop-IsWord a (b' ' ∷ join_args (b ∷ r)) h
    ∙ split_loop-space (join_args (b ∷ r)) a h.nonempty
    ∙ ap (◌∷◌ a) (split_args-join_args (b ∷ r) k)
