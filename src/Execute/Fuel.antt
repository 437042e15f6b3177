-- ===== src/Execute/Fuel.antt =====
-- The loop of execute_command of src/commands.c ends: every round takes a character off the line.
use hayward.Common.{
  ℕ, Bool, zero, suc, ◌≡◌, refl, ◌<◌, ◌≤◌, [], ◌∷◌, ◌++◌, length, Option, none, some, arith, inl,
  inr, Option-cases, Bool-cases,
}
use hayward.Text.{CString}
use hayward.Strings.{
  is_blank, is_space, skip_space, Quoting, unquoted, argsep_step, argsep_loop, argsep, split_args,
}
use hayward.Execute.Command.{
  Globals, Surroundings, Going, is_separator, strip_arguments, run_part, go_behind, execute_loop,
}
use hayward.Execute.Runs.{run_command-same}

-- Less of the text is left.
abbrev Shorter : CString → Option CString → Type 0
Shorter s none = Unit
Shorter s (some rest) = length rest < length s

Shorter-suc : (c : ℕ) (s : CString) (left : Option CString) → Shorter s left → Shorter (c ∷ s) left
Shorter-suc c s none h = tt
Shorter-suc c s (some rest) h = omega (arith, h)

Shorter-le :
    (s t : CString) (left : Option CString) → length s ≤ length t → Shorter s left → Shorter t left
Shorter-le s t none h k = tt
Shorter-le s t (some rest) h k = omega (arith, h, k)

argsep_loop-Shorter :
    (is_delim : ℕ → Bool) (s read : CString) (q : Quoting)
    → Shorter s (argsep_loop is_delim s read q).left
unfolding argsep_loop
argsep_loop-Shorter is_delim [] read q = tt
argsep_loop-Shorter is_delim (c ∷ s) read q = elim (Option-cases (argsep_step is_delim q c)) [
  | inr (next, f) ↦
      rw (f, argsep_loop)
        (Shorter-suc c s (argsep_loop is_delim s (read ++ c ∷ []) next).left
          (argsep_loop-Shorter is_delim s (read ++ c ∷ []) next))
  | inl f ↦ elim (Bool-cases (is_blank read)) [
    | inl t ↦
        rw (f, argsep_loop, t)
          (Shorter-suc c s (argsep_loop is_delim s [] q).left (argsep_loop-Shorter is_delim s [] q))
    | inr t ↦ rw (f, argsep_loop, t) (omega arith)
  ]
]

length-skip_space : (s : CString) → length (skip_space s) ≤ length s
unfolding skip_space
length-skip_space [] = omega arith
length-skip_space (c ∷ s) = elim (Bool-cases (is_space c)) [
  | inl t ↦ rw (t, skip_space) (omega (arith, length-skip_space s))
  | inr t ↦ rw (t, skip_space) (omega arith)
]

module _ {S : Type 0} (e : Surroundings S) where
  run_part-same :
      (go go' : Going e)
      → ((w : Option ℕ) (h : Globals S) → go w h ≡ go' w h)
      → (text : CString) (window : Option ℕ) (g : Globals S)
      → run_part e go text window g ≡ run_part e go' text window g
  run_part-same go go' same [] window g = same window g
  run_part-same go go' same (c ∷ s) window g =
      run_command-same e go go' same (strip_arguments (split_args (c ∷ s))) window g

  go_behind-same :
      (loop loop' : CString → Going e) (s : CString) (left : Option CString)
      → Shorter s left
      → ((rest : CString)
          → length rest < length s
          → (w : Option ℕ) (h : Globals S) → loop rest w h ≡ loop' rest w h)
      → (window : Option ℕ) (g : Globals S)
      → go_behind e loop left window g ≡ go_behind e loop' left window g
  go_behind-same loop loop' s none short same window g = refl
  go_behind-same loop loop' s (some rest) short same window g = same rest short window g

  -- The loop ends within as many rounds as the line has characters, and one: with any two numbers
  -- of rounds above the length it gives the same, whatever running out of rounds would give.
  pub execute_loop_enough :
      (out out' : Going e) (fuel fuel' : ℕ) (head : CString) (window : Option ℕ) (g : Globals S)
      → length head < fuel
      → length head < fuel'
      → execute_loop e out fuel head window g ≡ execute_loop e out' fuel' head window g
  unfolding execute_loop argsep
  execute_loop_enough out out' zero fuel' head window g h k = absurd (omega (arith, h))
  execute_loop_enough out out' (suc fuel) zero head window g h k = absurd (omega (arith, k))
  execute_loop_enough out out' (suc fuel) (suc fuel') head window g h k =
      let s = skip_space head in
      let separated = argsep is_separator s in
      run_part-same (go_behind e (execute_loop e out fuel) separated.left)
        (go_behind e (execute_loop e out' fuel') separated.left)
        (go_behind-same (execute_loop e out fuel) (execute_loop e out' fuel') s separated.left
          (argsep_loop-Shorter is_separator s [] unquoted)
          (λ rest short w g'.
            execute_loop_enough out out' fuel fuel' rest w g'
              (omega (arith, h, short, length-skip_space head))
              (omega (arith, k, short, length-skip_space head))))
        (skip_space separated.start) window g
