-- ===== src/Execute/Nested/Layout.antt =====
-- The lines of a file of commands and blocks, as getline_with_cont, strip_whitespace and detect_brace
-- of src/config.c see them.
use hayward.Common.{
  ◌≡◌, refl, sym, ◌∙◌, ap, ℕ, zero, suc, List, [], ◌∷◌, ◌++◌, none, some, true, false, Bool-cases,
  inl, inr, arith,
}
use mathlib.Core.List.{append_assoc}
use hayward.Text.{CString, codes, strcmp}
use hayward.Strings.{is_space, is_blank, skip_space, strip_end, strip_whitespace}
use hayward.Execute.{starts_as}
use hayward.Execute.Line.{begins, skip_space-begins, begins-append}
use hayward.Execute.File.{
  ends_continued, getline_with_cont, detect_brace, without_newline, is_closed_by_brace,
}
use hayward.Execute.Nested.{indent, line_of, ends_plainly}

without_newline-append : (s : CString) → without_newline (s ++ 10 ∷ []) ≡ s
without_newline-append [] = refl
without_newline-append (a ∷ []) = refl
without_newline-append (a ∷ b ∷ r) = ap (◌∷◌ a) (without_newline-append (b ∷ r))

ends_continued-plainly :
    (s : CString) → ends_plainly s ≡ true → ends_continued (s ++ 10 ∷ []) ≡ false
ends_continued-plainly [] h = refl
ends_continued-plainly (a ∷ []) h = ground (arith, h)
ends_continued-plainly (a ∷ b ∷ []) h = ends_continued-plainly (b ∷ []) h
ends_continued-plainly (a ∷ b ∷ c ∷ r) h = ends_continued-plainly (b ∷ c ∷ r) h

ends_plainly-append :
    (s : CString) (a : ℕ) (t : CString) → ends_plainly (s ++ a ∷ t) ≡ ends_plainly (a ∷ t)
ends_plainly-append [] a t = refl
ends_plainly-append (b ∷ []) a t = refl
ends_plainly-append (b ∷ c ∷ s) a t = ends_plainly-append (c ∷ s) a t

ends_plainly-append_any : (s t : CString) → ends_plainly t ≡ true → ends_plainly (s ++ t) ≡ true
ends_plainly-append_any s [] h = ground (arith, h)
ends_plainly-append_any s (a ∷ t) h = ends_plainly-append s a t ∙ h

strip_end-keeps : (a b : ℕ) (r s : CString) → strip_end s ≡ b ∷ r → strip_end (a ∷ s) ≡ a ∷ b ∷ r
unfolding strip_end
strip_end-keeps a b r s h = elim (Bool-cases (is_space a)) [
  | inl t ↦ rw (h, t) refl
  | inr t ↦ rw (h, t) refl
]

strip_end-plainly : (s : CString) → ends_plainly s ≡ true → strip_end s ≡ s
unfolding strip_end
strip_end-plainly [] h = refl
strip_end-plainly (a ∷ []) h = ground (arith, h)
strip_end-plainly (a ∷ b ∷ r) h = strip_end-keeps a b r (b ∷ r) (strip_end-plainly (b ∷ r) h)

strip_end-newline : (s : CString) → ends_plainly s ≡ true → strip_end (s ++ 10 ∷ []) ≡ s
unfolding strip_end
strip_end-newline [] h = ground (arith, h)
strip_end-newline (a ∷ []) h = ground (arith, h)
strip_end-newline (a ∷ b ∷ r) h =
    strip_end-keeps a b r (b ∷ r ++ 10 ∷ []) (strip_end-newline (b ∷ r) h)

skip_space-indent : (depth : ℕ) (s : CString) → skip_space (indent depth ++ s) ≡ skip_space s
unfolding skip_space
skip_space-indent zero s = refl
skip_space-indent (suc depth) s = skip_space-indent depth s

-- A text that a line can have behind its spaces.
pub record IsStripped (text : CString) : Type 0 where
  pub starts : begins text ≡ true
  pub ends : ends_plainly text ≡ true

strip_whitespace-indent :
    (depth : ℕ) (s : CString) → begins s ≡ true → strip_whitespace (indent depth ++ s) ≡ strip_end s
unfolding strip_whitespace
strip_whitespace-indent depth s h = ap strip_end (skip_space-indent depth s ∙ skip_space-begins s h)

pub strip_whitespace-without_newline :
    (depth : ℕ) (text : CString)
    → IsStripped text
    → strip_whitespace (without_newline (line_of depth text)) ≡ text
strip_whitespace-without_newline depth text h =
    ap (λ x. strip_whitespace (without_newline x))
      (sym (append_assoc (indent depth) text (10 ∷ [])))
    ∙ ap strip_whitespace (without_newline-append (indent depth ++ text))
    ∙ strip_whitespace-indent depth text h.starts
    ∙ strip_end-plainly text h.ends

strip_whitespace-line_of :
    (depth : ℕ) (text : CString) → IsStripped text → strip_whitespace (line_of depth text) ≡ text
strip_whitespace-line_of depth text h =
    strip_whitespace-indent depth (text ++ 10 ∷ []) (begins-append text (10 ∷ []) h.starts)
    ∙ strip_end-newline text h.ends

-- A line with such a text is not continued.
pub getline_with_cont-line_of :
    (depth : ℕ) (text : CString) (file : List CString)
    → ends_plainly text ≡ true
    → getline_with_cont (line_of depth text) file ≡ (line_of depth text, file)
unfolding getline_with_cont
getline_with_cont-line_of depth text [] h = refl
getline_with_cont-line_of depth text (next ∷ file) h =
    let c : ends_continued (line_of depth text) ≡ false =
      ap ends_continued (sym (append_assoc (indent depth) text (10 ∷ [])))
      ∙ ends_continued-plainly (indent depth ++ text)
          (ends_plainly-append_any (indent depth) text h) in
    elim (Bool-cases (starts_as (line_of depth text) b'#')) [
      | inl t ↦ rw (t) refl
      | inr t ↦ rw (t, c) refl
    ]

pub is_blank-begins : (s : CString) → begins s ≡ true → is_blank s ≡ false
is_blank-begins [] h = ground (arith, h)
is_blank-begins (c ∷ s) h = refl

-- The brace of a block is looked for behind blank lines only.
pub detect_brace-other :
    (depth : ℕ) (text : CString) (file : List CString)
    → IsStripped text
    → strcmp text (codes "{") ≡ false
    → detect_brace (line_of depth text ∷ file) ≡ none
unfolding detect_brace
detect_brace-other depth text file h k =
    rw (strip_whitespace-line_of depth text h, is_blank-begins text h.starts, k) refl

pub detect_brace-below :
    (depth : ℕ) (file : List CString) → detect_brace (line_of depth (codes "{") ∷ file) ≡ some file
unfolding detect_brace strcmp
detect_brace-below depth file =
    rw (strip_whitespace-line_of depth (codes "{") (record { starts = refl; ends = refl })) refl

-- Blank lines are passed over.
pub detect_brace-blank : (file : List CString) → detect_brace ((10 ∷ []) ∷ file) ≡ detect_brace file
unfolding detect_brace strip_whitespace skip_space strip_end
detect_brace-blank file = refl

-- A text of two characters at least is no brace.
pub strcmp-longer :
    (c : ℕ) (s : CString) (d : ℕ) (t : CString) → strcmp (c ∷ (s ++ d ∷ t)) (codes "{") ≡ false
unfolding strcmp
strcmp-longer c [] d t = ground arith
strcmp-longer c (b ∷ s) d t = ground arith

pub strcmp-is_closed_by_brace :
    (s : CString) → is_closed_by_brace s ≡ false → strcmp s (codes "{") ≡ false
unfolding strcmp
strcmp-is_closed_by_brace [] h = refl
strcmp-is_closed_by_brace (a ∷ []) h = ground (arith, h)
strcmp-is_closed_by_brace (a ∷ b ∷ r) h = ground arith

-- The line of a block whose brace is on it.
pub opening-IsStripped : (text : CString) → IsStripped text → IsStripped (text ++ codes " {")
opening-IsStripped text h = record {
  starts = begins-append text (codes " {") h.starts;
  ends = ends_plainly-append text b' ' (codes "{");
}

pub strcmp-opening : (text : CString) → strcmp (text ++ codes " {") (codes "{") ≡ false
unfolding strcmp
strcmp-opening [] = refl
strcmp-opening (c ∷ s) = strcmp-longer c s b' ' (codes "{")

pub is_closed_by_brace-append :
    (s : CString) (a : ℕ) (t : CString)
    → is_closed_by_brace (s ++ a ∷ t) ≡ is_closed_by_brace (a ∷ t)
is_closed_by_brace-append [] a t = refl
is_closed_by_brace-append (b ∷ []) a t = refl
is_closed_by_brace-append (b ∷ c ∷ s) a t = is_closed_by_brace-append (c ∷ s) a t
