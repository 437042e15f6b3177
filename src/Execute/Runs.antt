-- ===== src/Execute/Runs.antt =====
-- The loop of execute_command of src/commands.c on a line of commands.
use hayward.Common.{
  ℕ, zero, suc, Option-cases, Bool-cases, inl, inr, ◌≡◌, refl, ◌∙◌, ap, ◌<◌, List, [], ◌∷◌, length,
  Option, none, some, true, arith, length-append,
}
use hayward.ListT.Sort.Order.{All}
use hayward.Text.{CString}
use hayward.Strings.{skip_space, split_args, argsep}
use hayward.Strings.Separate.{argsep-IsPart, argsep-last}
use hayward.Commands.Args.{Status, arg}
use hayward.Execute.Command.{
  Going, with_seat, after_result, run_part, run_separated, go_behind, or_other, replace_arguments,
  set_context, is_invalid, find_core_handler, Globals, Surroundings, is_separator, strip_arguments,
  run_command, execute_loop, execute_command,
}
use hayward.Execute.Line.{
  Written, text_of, line, IsWritten, begins, skip_space-begins, begins-append, arguments-text_of,
  text_of-IsPart, text_of-begins, semicolon_separates,
}

module _ {S : Type 0} (e : Surroundings S) where
  -- The commands one after another, until one is unknown or says that it is invalid.
  unfoldable pub run_all : List Written → (window : Option ℕ) → Globals S → List Status × Globals S
  run_all [] window g = ([], g)
  run_all (c ∷ cs) window g = run_command e (run_all cs) (c.name ∷ c.texts) window g

  after_result-same :
      (go go' : Going e)
      → ((w : Option ℕ) (h : Globals S) → go w h ≡ go' w h)
      → (window : Option ℕ) (r : Status × Globals S)
      → after_result e go window r ≡ after_result e go' window r
  after_result-same go go' same window (status, g) = elim (Bool-cases (is_invalid status)) [
    | inl t ↦ rw (t) refl
    | inr t ↦ rw (t, same window g) refl
  ]

  pub run_command-same :
      (go go' : Going e)
      → ((w : Option ℕ) (h : Globals S) → go w h ≡ go' w h)
      → (argv : List CString) (window : Option ℕ) (g : Globals S)
      → run_command e go argv window g ≡ run_command e go' argv window g
  unfolding run_command
  run_command-same go go' same argv window g =
      elim (Option-cases (find_core_handler e g (arg argv 0))) [
        | inl f ↦ rw (f, run_command) refl
        | inr (handler, f) ↦
            let chosen = or_other window (e.root_get_focused_window g.others) in
            rw (f, run_command)
              (after_result-same go go' same chosen (
                handler.handle (replace_arguments g.symbols handler.function argv)
                  (set_context e chosen g)))
      ]

  pub run_part-nonempty :
      (go : Going e) (text : CString)
      → begins text ≡ true
      → (window : Option ℕ) (g : Globals S)
      → run_part e go (skip_space text) window g
        ≡ run_command e go (strip_arguments (split_args text)) window g
  run_part-nonempty go [] h window g = ground (arith, h)
  run_part-nonempty go (c ∷ s) h window g = rw (skip_space-begins (c ∷ s) h) refl

  execute_loop-part :
      (out : Going e) (fuel : ℕ) (c : Written) (head : CString) (left : Option CString)
      (matched : ℕ)
      → IsWritten c
      → begins head ≡ true
      → argsep is_separator head ≡ record { start = text_of c; left = left; matched = matched }
      → (window : Option ℕ) (g : Globals S)
      → execute_loop e out (suc fuel) head window g
        ≡ run_command e (go_behind e (execute_loop e out fuel) left) (c.name ∷ c.texts) window g
  unfolding execute_loop
  execute_loop-part out fuel c head left matched h b k window g =
      ap (λ x. run_separated e (execute_loop e out fuel) (argsep is_separator x) window g)
        (skip_space-begins head b)
      ∙ ap (λ x. run_separated e (execute_loop e out fuel) x window g) k
      ∙ run_part-nonempty (go_behind e (execute_loop e out fuel) left) (text_of c)
          (text_of-begins c h) window g
      ∙ ap (λ x. run_command e (go_behind e (execute_loop e out fuel) left) x window g)
          (arguments-text_of c h)

  execute_loop-line :
      (out : Going e) (c : Written) (cs : List Written)
      → IsWritten c
      → All IsWritten cs
      → (fuel : ℕ) → length (line (c ∷ cs)) < fuel
      → (window : Option ℕ) (g : Globals S)
      → execute_loop e out fuel (line (c ∷ cs)) window g ≡ run_all (c ∷ cs) window g
  unfolding run_all
  execute_loop-line out c [] h k zero few window g = absurd (omega (arith, few))
  execute_loop-line out c (d ∷ r) h (k, l) zero few window g = absurd (omega (arith, few))
  execute_loop-line out c [] h k (suc fuel) few window g =
      execute_loop-part out fuel c (text_of c) none 0 h (text_of-begins c h)
        (argsep-last is_separator (text_of c) (text_of-IsPart c h)) window g
      ∙ run_command-same (go_behind e (execute_loop e out fuel) none) (run_all []) (λ w g. refl)
          (c.name ∷ c.texts) window g
  execute_loop-line out c (d ∷ r) h (k, l) (suc fuel) few window g =
      execute_loop-part out fuel c (line (c ∷ d ∷ r)) (some (line (d ∷ r))) b';' h
        (begins-append (text_of c) (b';' ∷ line (d ∷ r)) (text_of-begins c h))
        (argsep-IsPart is_separator (text_of c) (line (d ∷ r)) b';' (text_of-IsPart c h)
          semicolon_separates)
        window g
      ∙ run_command-same (go_behind e (execute_loop e out fuel) (some (line (d ∷ r))))
          (run_all (d ∷ r))
          (λ w g.
            execute_loop-line out d r k l fuel
              (omega (arith, few, length-append (text_of c) (b';' ∷ line (d ∷ r)))) w g)
          (c.name ∷ c.texts) window g

  -- A line of commands with quoted arguments, joined by semicolons, runs these commands with these
  -- arguments one after another, until one is unknown or says that it is invalid.
  pub execute_command-line :
      (c : Written) (cs : List Written)
      → IsWritten c
      → All IsWritten cs
      → (seat window : Option ℕ) (g : Globals S)
      → execute_command e (line (c ∷ cs)) seat window g
        ≡ run_all (c ∷ cs) window (with_seat e seat g)
  unfolding execute_command
  execute_command-line c cs h k seat window g =
      execute_loop-line (λ window g. ([], g)) c cs h k (suc (length (line (c ∷ cs)))) (omega arith)
        window (with_seat e seat g)
