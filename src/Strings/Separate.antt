-- ===== src/Strings/Separate.antt =====
-- argsep of src/stringop.c on a text with a separator behind its first part.
use hayward.Common.{
  ℕ, ◌≡◌, refl, sym, ◌∙◌, ap, [], ◌∷◌, ◌++◌, Option, none, some, Bool, false, arith, inl, inr,
  Option-cases, some-injective,
}
use mathlib.Core.List.{append_assoc, append-nil}
use hayward.Text.{CString}
use hayward.Strings.{is_blank, Quoting, unquoted, argsep_step, argsep_loop, argsep}

-- The quoting behind a text that has no separator in it.
unfoldable pub read_over : (ℕ → Bool) → Quoting → CString → Option Quoting
unfolding argsep_step
read_over is_delim q [] = some q
read_over is_delim q (c ∷ s) = elim (argsep_step is_delim q c) [
  | none ↦ none
  | some further ↦ read_over is_delim further s
]

-- A part that argsep splits off: it is not empty, and nothing is open behind it.
pub record IsPart (is_delim : ℕ → Bool) (s : CString) : Type 0 where
  pub nonempty : is_blank s ≡ false
  pub closed : read_over is_delim unquoted s ≡ some unquoted

argsep_loop-read_over :
    (is_delim : ℕ → Bool) (s rest read : CString) (q r : Quoting)
    → read_over is_delim q s ≡ some r
    → argsep_loop is_delim (s ++ rest) read q ≡ argsep_loop is_delim rest (read ++ s) r
unfolding argsep_loop read_over
argsep_loop-read_over is_delim [] rest read q r h =
    rw (append-nil read) (ap (argsep_loop is_delim rest read) (some-injective q r h))
argsep_loop-read_over is_delim (c ∷ s) rest read q r h =
    elim (Option-cases (argsep_step is_delim q c)) [
      | inl t ↦ ground (arith, t, h)
      | inr (further, t) ↦
          let k : read_over is_delim further s ≡ some r = sym (rw (t, read_over) refl) ∙ h in
          rw (t, argsep_loop)
            (argsep_loop-read_over is_delim s rest (read ++ c ∷ []) further r k
              ∙ ap (λ x. argsep_loop is_delim rest x r) (append_assoc read (c ∷ []) s))
    ]

-- A part with a separator behind it is split off, and the text behind the separator is left.
pub argsep-IsPart :
    (is_delim : ℕ → Bool) (s rest : CString) (c : ℕ)
    → IsPart is_delim s
    → argsep_step is_delim unquoted c ≡ none
    → argsep is_delim (s ++ c ∷ rest) ≡ record { start = s; left = some rest; matched = c }
unfolding argsep argsep_loop
argsep-IsPart is_delim s rest c h k =
    argsep_loop-read_over is_delim s (c ∷ rest) [] unquoted unquoted h.closed
    ∙ rw (argsep_loop, k, h.nonempty) refl

-- A part with nothing behind it is all there is.
pub argsep-last :
    (is_delim : ℕ → Bool) (s : CString)
    → IsPart is_delim s
    → argsep is_delim s ≡ record { start = s; left = none; matched = 0 }
unfolding argsep argsep_loop
argsep-last is_delim s h =
    sym (ap (argsep is_delim) (append-nil s))
    ∙ argsep_loop-read_over is_delim s [] [] unquoted unquoted h.closed
