-- ===== src/Execute/Nested/Steps.antt =====
-- The rounds of read_config of src/config.c on the lines of a file of commands and blocks.
use hayward.Common.{
  ◌≡◌, refl, sym, ◌∙◌, ap, ℕ, List, [], ◌∷◌, ◌++◌, length, Option, none, some, Bool, true, false,
  arith, if◌then◌else◌,
}
use hayward.Common.Chains.{◌>>=◌}
use hayward.ListT.Sort.Order.{All}
use hayward.Text.{CString, codes}
use hayward.Strings.{join_args, strip_whitespace}
use hayward.Strings.Words.{IsWord}
use hayward.Execute.{starts_as}
use hayward.Execute.Line.{begins}
use hayward.Execute.Command.{Surroundings}
use hayward.Execute.Reading.{Ended, run_line}
use hayward.Execute.File.{
  Read, head_of, is_found, rest_of, is_closed_by_brace, without_newline, detect_brace, expand_line,
  run_expanded, on_status, read_line, read_loop,
}
use hayward.Execute.Rounds.{bind-same, read_loop_enough, length-read_line}
use hayward.Execute.Nested.{
  line_of, opening, IsLine, IsCommand, IsName, Outcome, forget_context, opened,
}
use hayward.Execute.Nested.Layout.{
  IsStripped, strip_whitespace-without_newline, getline_with_cont-line_of, is_blank-begins,
  detect_brace-below, opening-IsStripped, is_closed_by_brace-append,
}
use hayward.Execute.Nested.Words.{
  IsHead, name_of, IsLine-IsStripped, starts_as-join_args, expand_line-words, expand_line-opening,
  expand_line-below, run_expanded-command, run_expanded-block, run_expanded-closes,
}

found_none :
    (closed : Bool) (found : Option (List CString))
    → found ≡ none
    → (if closed then none else found) ≡ none
found_none true found h = refl
found_none false found h = h

no_comment :
    (name : CString) (argv : List CString)
    → IsLine name argv
    → starts_as (join_args (name ∷ argv)) b'#' ≡ false
no_comment name argv h = starts_as-join_args name argv b'#' h.words.0 ∙ h.no_comment

starts_as-append : (s t : CString) (c : ℕ) → begins s ≡ true → starts_as (s ++ t) c ≡ starts_as s c
starts_as-append [] t c h = ground (arith, h)
starts_as-append (a ∷ s) t c h = refl

module _ {S : Type 0} (e : Surroundings S) where
  -- The loop, with a round for each line.
  unfoldable pub read_all : (file : List CString) → Read S → Option (Read S)
  unfolding read_loop
  read_all file s = read_loop e none (length file) file s

  -- A line that is not continued, and all that is behind it.
  pub read_all-line_of :
      (depth : ℕ) (text : CString) (file : List CString) (s : Read S)
      → IsStripped text
      → read_all (line_of depth text ∷ file) s ≡ (read_line e text file s >>= λ r. read_all r.0 r.1)
  unfolding read_all
  read_all-line_of depth text file s h =
      ap
        (λ got. read_line e (strip_whitespace (without_newline got.0)) got.1 s >>= λ r.
          read_loop e none (length file) r.0 r.1)
        (getline_with_cont-line_of depth text file h.ends)
      ∙ ap (λ x. read_line e x file s >>= λ r. read_loop e none (length file) r.0 r.1)
          (strip_whitespace-without_newline depth text h)
      ∙ bind-same (read_line e text file s) (λ r. read_loop e none (length file) r.0 r.1)
          (λ r. read_all r.0 r.1)
          (λ r q.
            read_loop_enough e none none (length file) (length r.0) r.0 r.1
              (length-read_line e text file s r q) (omega arith))

  abbrev go_on : Option (List CString × Read S) → Option (Read S)
  go_on m = m >>= λ r. read_all r.0 r.1

  -- What read_line does with the result of a line.
  abbrev pub going_on :
      (file : List CString) → Read S → CString → Option (Ended S) → Option (List CString × Read S)
  going_on file s expanded m = m >>= λ r. some (file, on_status expanded r s)

  read_line-found :
      (text : CString) (file : List CString) (s : Read S) (inner : Option CString)
      (found : Option (List CString))
      → IsStripped text
      → starts_as text b'#' ≡ false
      → head_of s.stack ≡ inner
      → (if is_closed_by_brace text then none else detect_brace file) ≡ found
      → let expanded = expand_line inner text (is_found found) in
        read_line e text file s
        ≡ going_on (rest_of found file) s expanded (run_expanded e inner expanded s.globals)
  unfolding read_line
  read_line-found text file s inner found h k n f = rw (is_blank-begins text h.starts, k, n, f) refl

  -- A command, where no brace is behind it.
  pub read_line-command :
      (head : List CString) (name : CString) (argv : List CString) (file stack : List CString)
      (o : Outcome S)
      → IsHead head
      → IsCommand head name argv
      → head_of stack ≡ name_of head
      → detect_brace file ≡ none
      → read_line e (join_args (name ∷ argv)) file (opened stack o)
        ≡ going_on file
            (opened stack o)
            (join_args (head ++ name ∷ argv))
            (run_line e (head ++ name ∷ argv) o.globals)
  read_line-command head name argv file stack o h c n d =
      let text = join_args (name ∷ argv) in
      read_line-found text file (opened stack o) (name_of head) none
        (IsLine-IsStripped name argv c.line) (no_comment name argv c.line) n
        (found_none (is_closed_by_brace text) (detect_brace file) d)
      ∙ ap (going_on file (opened stack o) (expand_line (name_of head) text false))
          (run_expanded-command e head name argv o.globals h c)
      ∙ ap (λ x. going_on file (opened stack o) x (run_line e (head ++ name ∷ argv) o.globals))
          (expand_line-words head name argv)

  -- The line that opens a block, behind which `file` is left.
  read_line-opens :
      (head : List CString) (name : CString) (argv : List CString) (text : CString)
      (file stack : List CString) (o : Outcome S) (found : Option (List CString))
      → IsHead head
      → All IsWord (name ∷ argv)
      → IsStripped text
      → starts_as text b'#' ≡ false
      → head_of stack ≡ name_of head
      → (if is_closed_by_brace text then none else detect_brace file) ≡ found
      → expand_line (name_of head) text (is_found found)
        ≡ join_args (head ++ name ∷ (argv ++ codes "{" ∷ []))
      → read_line e text file (opened stack o)
        ≡ some (rest_of found file, opened (join_args (head ++ name ∷ argv) ∷ stack) o)
  unfolding on_status
  read_line-opens head name argv text file stack o found h w t k n f x =
      read_line-found text file (opened stack o) (name_of head) found t k n f
      ∙ ap
          (λ y.
            going_on (rest_of found file) (opened stack o) y
              (run_expanded e (name_of head) y o.globals))
          x
      ∙ ap
          (going_on (rest_of found file) (opened stack o)
            (join_args (head ++ name ∷ (argv ++ codes "{" ∷ []))))
          (run_expanded-block e head name argv o.globals h w)

  pub read_all-opens :
      (head : List CString) (name : CString) (argv : List CString) (is_below : Bool) (depth : ℕ)
      (file stack : List CString) (o : Outcome S)
      → IsHead head
      → IsName head name argv is_below
      → head_of stack ≡ name_of head
      → read_all (opening depth (join_args (name ∷ argv)) is_below ++ file) (opened stack o)
        ≡ read_all file (opened (join_args (head ++ name ∷ argv) ∷ stack) o)
  read_all-opens head name argv false depth file stack o h c n =
      let text = join_args (name ∷ argv) in
      let stripped = IsLine-IsStripped name argv c.line in
      read_all-line_of depth (text ++ codes " {") file (opened stack o)
        (opening-IsStripped text stripped)
      ∙ ap go_on (
          read_line-opens head name argv (text ++ codes " {") file stack o none h c.line.words
            (opening-IsStripped text stripped)
            (starts_as-append text (codes " {") b'#' stripped.starts ∙ no_comment name argv c.line)
            n (rw (is_closed_by_brace-append text b' ' (codes "{")) refl)
            (expand_line-opening head name argv))
  read_all-opens head name argv true depth file stack o h c n =
      let text = join_args (name ∷ argv) in
      let stripped = IsLine-IsStripped name argv c.line in
      read_all-line_of depth text (line_of depth (codes "{") ∷ file) (opened stack o) stripped
      ∙ ap go_on (
          read_line-opens head name argv text (line_of depth (codes "{") ∷ file) stack o (some file)
            h c.line.words stripped (no_comment name argv c.line) n
            (rw (c.no_brace) (detect_brace-below depth file)) (expand_line-below head name argv))

  -- The line that closes a block.
  pub read_all-closes :
      (head : List CString) (top : CString) (depth : ℕ) (file stack : List CString) (o : Outcome S)
      → IsHead head
      → name_of head ≡ some top
      → read_all (line_of depth (codes "}") ∷ file) (opened (top ∷ stack) o)
        ≡ read_all file (opened stack (forget_context o))
  unfolding on_status
  read_all-closes [] top depth file stack o h n = ground (arith, n)
  read_all-closes (b ∷ r) top depth file stack o h n =
      read_all-line_of depth (codes "}") file (opened (top ∷ stack) o)
        (record { starts = refl; ends = refl })
      ∙ ap go_on (
          read_line-found (codes "}") file (opened (top ∷ stack) o) (name_of (b ∷ r)) none
            (record { starts = refl; ends = refl }) refl (sym n) refl
          ∙ ap
              (going_on file (opened (top ∷ stack) o)
                (expand_line (name_of (b ∷ r)) (codes "}") false))
              (run_expanded-closes e b r o.globals h))
