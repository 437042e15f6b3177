-- ===== src/Execute/Rounds.antt =====
-- The loop of read_config of src/config.c ends: every round takes a line off the file.
use hayward.Common.{
  ◌≡◌, refl, sym, ◌∙◌, subst, ℕ, zero, suc, ◌≤◌, length, List, [], ◌∷◌, ◌++◌, Option, none, some,
  Bool, true, false, ◌||◌, Option-cases, Bool-cases, inl, inr, arith, if◌then◌else◌, some-injective,
}
use hayward.Common.Chains.{◌>>=◌}
use hayward.Text.{CString, codes, strcmp}
use hayward.Strings.{is_blank, strip_whitespace}
use hayward.Execute.{starts_as}
use hayward.Execute.Command.{Surroundings}
use hayward.Execute.File.{
  is_continued, without_two, getline_with_cont, detect_brace, is_found, rest_of, head_of,
  expand_line, run_expanded, on_status, is_closed_by_brace, without_newline, Read, read_line,
  read_loop,
}

length-getline :
    (line : CString) (file : List CString) → length (getline_with_cont line file).1 ≤ length file
unfolding getline_with_cont
length-getline line [] = omega arith
length-getline line (next ∷ file) = elim (Bool-cases (is_continued line)) [
  | inl t ↦
      rw (t, getline_with_cont) (omega (arith, length-getline (without_two line ++ next) file))
  | inr t ↦ rw (t, getline_with_cont) (omega arith)
]

none-some : {A : Type 0} (a : A) → ¬ (none ≡ some a)
none-some a h = ground (arith, h)

detect_brace_le :
    (file rest : List CString) → detect_brace file ≡ some rest → length rest ≤ length file
unfolding detect_brace
detect_brace_le [] rest e = ground (arith, e)
detect_brace_le (line ∷ file) rest e = elim (Bool-cases (is_blank (strip_whitespace line))) [
  | inl t ↦ omega (arith, detect_brace_le file rest (sym (rw (t, detect_brace) refl) ∙ e))
  | inr t ↦ elim (Bool-cases (strcmp (strip_whitespace line) (codes "{"))) [
    | inl u ↦
        subst (λ x. length x ≤ length (line ∷ file))
          (some-injective file rest (sym (rw (t, u, detect_brace) refl) ∙ e)) (omega arith)
    | inr u ↦ absurd (none-some rest (sym (rw (t, u, detect_brace) refl) ∙ e))
  ]
]

rest_of_le :
    (closed : Bool) (file : List CString)
    → length (rest_of (if closed then none else detect_brace file) file) ≤ length file
rest_of_le true file = omega arith
rest_of_le false file = elim (Option-cases (detect_brace file)) [
  | inl n ↦ rw (n) (omega arith)
  | inr (rest, n) ↦ rw (n) (detect_brace_le file rest n)
]

pub bind_inverse :
    {A B : Type 0} (m : Option A) (f : A → Option B) (b : B)
    → (m >>= f) ≡ some b
    → (a : A) × (f a ≡ some b)
bind_inverse none f b h = ground (arith, h)
bind_inverse (some a) f b h = (a, h)

pub bind-same :
    {A B : Type 0} (m : Option A) (f g : A → Option B)
    → ((a : A) → m ≡ some a → f a ≡ g a)
    → (m >>= f) ≡ (m >>= g)
bind-same none f g h = refl
bind-same (some a) f g h = h a refl

module _ {S : Type 0} (e : Surroundings S) where
  pub length-read_line :
      (line : CString) (file : List CString) (s : Read S) (r : List CString × Read S)
      → read_line e line file s ≡ some r
      → length r.0 ≤ length file
  unfolding read_line
  length-read_line line file s r h = elim (Bool-cases (is_blank line || starts_as line b'#')) [
    | inl t ↦
        subst (λ x. length x.0 ≤ length file)
          (some-injective (file, s) r (sym (rw (t, read_line) refl) ∙ h)) (omega arith)
    | inr t ↦
        let found = if is_closed_by_brace line then none else detect_brace file in
        let expanded = expand_line (head_of s.stack) line (is_found found) in
        let (a, q) =
          bind_inverse (run_expanded e (head_of s.stack) expanded s.globals)
            (λ x. some (rest_of found file, on_status expanded x s)) r
            (sym (rw (t, read_line) refl) ∙ h) in
        subst (λ x. length x.0 ≤ length file)
          (some-injective (rest_of found file, on_status expanded a s) r q)
          (rest_of_le (is_closed_by_brace line) file)
  ]

  -- The loop ends within as many rounds as the file has lines: with any two numbers of rounds not
  -- below that it gives the same, whatever running out of rounds would give.
  pub read_loop_enough :
      (out out' : Option (Read S)) (fuel fuel' : ℕ) (file : List CString) (s : Read S)
      → length file ≤ fuel
      → length file ≤ fuel'
      → read_loop e out fuel file s ≡ read_loop e out' fuel' file s
  unfolding read_loop
  read_loop_enough out out' fuel fuel' [] s h k = refl
  read_loop_enough out out' zero fuel' (line ∷ file) s h k = absurd (omega (arith, h))
  read_loop_enough out out' (suc fuel) zero (line ∷ file) s h k = absurd (omega (arith, k))
  read_loop_enough out out' (suc fuel) (suc fuel') (line ∷ file) s h k =
      let got = getline_with_cont line file in
      bind-same (read_line e (strip_whitespace (without_newline got.0)) got.1 s)
        (λ r. read_loop e out fuel r.0 r.1) (λ r. read_loop e out' fuel' r.0 r.1)
        (λ r q.
          let short = length-read_line (strip_whitespace (without_newline got.0)) got.1 s r q in
          read_loop_enough out out' fuel fuel' r.0 r.1
            (omega (arith, h, short, length-getline line file))
            (omega (arith, k, short, length-getline line file)))
