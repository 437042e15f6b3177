-- ===== src/Execute/Nested/Refine.antt =====
-- read_config of src/config.c on the lines of a file of commands and blocks: its stack of open blocks
-- does what running each command within its blocks does.
use hayward.Common.{
  ◌≡◌, refl, sym, ◌∙◌, ap, ℕ, suc, List, [], ◌∷◌, ◌++◌, Option, none, some, Bool, true,
}
use mathlib.Core.List.{append_assoc, append-nil}
use hayward.Common.Chains.{◌>>=◌}
use hayward.ListT.Sort.Merge.{All-append}
use hayward.Text.{CString, codes, strcmp}
use hayward.Strings.{join_args, strip_whitespace, skip_space, strip_end}
use hayward.Strings.Words.{IsWord}
use hayward.Execute.Command.{Globals, Surroundings}
use hayward.Execute.Reading.{run_line}
use hayward.Execute.File.{
  Read, head_of, getline_with_cont, detect_brace, on_status, read_line, read_config,
}
use hayward.Execute.Rounds.{bind-same}
use hayward.Execute.Nested.{
  Items, done, blank, comment, command, within, line_of, lines_of, opening, IsCommand, IsName, Fits,
  Outcome, account, forget_context, opened, run_items,
}
use hayward.Execute.Nested.Layout.{detect_brace-other}
use hayward.Execute.Nested.Words.{IsHead, name_of, IsLine-IsStripped}
use hayward.Execute.Nested.Braces.{detect_brace-lines_of}
use hayward.Execute.Nested.Plain.{HandlersArePlain, on_status-plain, run_line-plain}
use hayward.Execute.Nested.Steps.{
  read_all, read_all-line_of, read_line-command, read_all-opens, read_all-closes,
}

bind_assoc :
    {A B C : Type 0} (m : Option A) (f : A → Option B) (g : B → Option C)
    → ((m >>= f) >>= g) ≡ (m >>= λ a. f a >>= g)
bind_assoc none f g = refl
bind_assoc (some a) f g = refl

name_of-append :
    (head : List CString) (name : CString) (argv : List CString)
    → name_of (head ++ name ∷ argv) ≡ some (join_args (head ++ name ∷ argv))
name_of-append [] name argv = refl
name_of-append (h ∷ hs) name argv = refl

IsHead-append :
    (head : List CString) (name : CString) (argv : List CString) (is_below : Bool)
    → IsHead head
    → IsName head name argv is_below
    → IsHead (head ++ name ∷ argv)
IsHead-append head name argv is_below h c = record {
  words = All-append IsWord head (name ∷ argv) h.words c.line.words;
  no_mode = c.no_mode;
}

no_brace_behind :
    (depth : ℕ) (file : List CString) → detect_brace (line_of depth (codes "}") ∷ file) ≡ none
unfolding strcmp
no_brace_behind depth file =
    detect_brace-other depth (codes "}") file (record { starts = refl; ends = refl }) refl

module _ {S : Type 0} (e : Surroundings S) (p : HandlersArePlain e) where
  read_all-blank :
      (file : List CString) (s : Read S) → read_all e ((10 ∷ []) ∷ file) s ≡ read_all e file s
  unfolding read_all getline_with_cont strip_whitespace skip_space strip_end read_line
  read_all-blank [] s = refl
  read_all-blank (line ∷ file) s = refl

  read_line-comment :
      (text : CString) (file : List CString) (s : Read S)
      → read_line e (b'#' ∷ text) file s ≡ some (file, s)
  unfolding read_line
  read_line-comment text file s = refl

  read_all-command :
      (head : List CString) (name : CString) (argv : List CString) (depth : ℕ)
      (file stack : List CString) (o : Outcome S)
      → IsHead head
      → IsCommand head name argv
      → head_of stack ≡ name_of head
      → detect_brace file ≡ none
      → read_all e (line_of depth (join_args (name ∷ argv)) ∷ file) (opened stack o) ≡ (
          run_line e (head ++ name ∷ argv) o.globals >>= λ r.
          read_all e file (opened stack (account (join_args (head ++ name ∷ argv)) r o)))
  read_all-command head name argv depth file stack o h c n d =
      let all = head ++ name ∷ argv in
      read_all-line_of e depth (join_args (name ∷ argv)) file (opened stack o)
        (IsLine-IsStripped name argv c.line)
      ∙ ap (λ m. m >>= λ r. read_all e r.0 r.1)
          (read_line-command e head name argv file stack o h c n d)
      ∙ bind_assoc (run_line e all o.globals)
          (λ r. some (file, on_status (join_args all) r (opened stack o))) (λ r. read_all e r.0 r.1)
      ∙ bind-same (run_line e all o.globals)
          (λ r. read_all e file (on_status (join_args all) r (opened stack o)))
          (λ r. read_all e file (opened stack (account (join_args all) r o)))
          (λ r q. ap (read_all e file) (
            on_status-plain r.status r.new_block r.globals (join_args all) stack o
              (run_line-plain e p all o.globals r q)))

  -- The items are read as they are run, and the blocks that were open are open behind them.
  read_all-Items :
      (items : Items) (depth : ℕ) (head stack file : List CString) (o : Outcome S)
      → IsHead head
      → Fits head items
      → head_of stack ≡ name_of head
      → detect_brace file ≡ none
      → read_all e (lines_of depth items ++ file) (opened stack o)
        ≡ (run_items e head items o >>= λ t. read_all e file (opened stack t))
  unfolding lines_of Fits run_items
  read_all-Items done depth head stack file o h f n d = refl
  read_all-Items (blank rest) depth head stack file o h f n d =
      read_all-blank (lines_of depth rest ++ file) (opened stack o)
      ∙ read_all-Items rest depth head stack file o h f n d
  read_all-Items (comment text rest) depth head stack file o h (c, f) n d =
      let after = lines_of depth rest ++ file in
      read_all-line_of e depth (b'#' ∷ text) after (opened stack o)
        (record { starts = refl; ends = c })
      ∙ ap (λ m. m >>= λ r. read_all e r.0 r.1) (read_line-comment text after (opened stack o))
      ∙ read_all-Items rest depth head stack file o h f n d
  read_all-Items (command name argv rest) depth head stack file o h (c, f) n d =
      let all = head ++ name ∷ argv in
      let go = λ (t : Outcome S). read_all e file (opened stack t) in
      read_all-command head name argv depth (lines_of depth rest ++ file) stack o h c n
        (detect_brace-lines_of rest depth head file f d)
      ∙ bind-same (run_line e all o.globals)
          (λ r.
            read_all e (lines_of depth rest ++ file) (opened stack (account (join_args all) r o)))
          (λ r. run_items e head rest (account (join_args all) r o) >>= go)
          (λ r q. read_all-Items rest depth head stack file (account (join_args all) r o) h f n d)
      ∙ sym (
          bind_assoc (run_line e all o.globals)
            (λ r. run_items e head rest (account (join_args all) r o)) go)
  read_all-Items (within name argv is_below body rest) depth head stack file o h (c, f, g) n d =
      let all = head ++ name ∷ argv in
      let inner = IsHead-append head name argv is_below h c in
      let close = line_of depth (codes "}") in
      let after = lines_of depth rest ++ file in
      let go = λ (t : Outcome S). read_all e file (opened stack t) in
      let in_block = λ (x : List CString). read_all e x (opened (join_args all ∷ stack) o) in
      ap (λ x. read_all e x (opened stack o))
        (append_assoc (opening depth (join_args (name ∷ argv)) is_below)
          (lines_of (suc depth) body ++ close ∷ lines_of depth rest) file)
      ∙ read_all-opens e head name argv is_below depth
          ((lines_of (suc depth) body ++ close ∷ lines_of depth rest) ++ file) stack o h c n
      ∙ ap in_block (append_assoc (lines_of (suc depth) body) (close ∷ lines_of depth rest) file)
      ∙ read_all-Items body (suc depth) all (join_args all ∷ stack) (close ∷ after) o inner f
          (sym (name_of-append head name argv)) (no_brace_behind depth after)
      ∙ bind-same (run_items e all body o)
          (λ t. read_all e (close ∷ after) (opened (join_args all ∷ stack) t))
          (λ t. run_items e head rest (forget_context t) >>= go)
          (λ t q.
            read_all-closes e all (join_args all) depth after stack t inner
              (name_of-append head name argv)
            ∙ read_all-Items rest depth head stack file (forget_context t) h g n d)
      ∙ sym (bind_assoc (run_items e all body o) (λ t. run_items e head rest (forget_context t)) go)

  -- Reading a file of commands and blocks, with its comments, its blank lines and its braces on the
  -- lines of the names or below, leaves what running each command with the names of its blocks in
  -- front of it leaves, and no block is open. The handlers must open and close no block themselves,
  -- and the items must be such that they can be written.
  pub read_config-Items :
      (items : Items) (cmd_queue : List CString) (g : Globals S)
      → Fits [] items
      → read_config e (lines_of 0 items) cmd_queue g ≡ (
          run_items e [] items (record { cmd_queue = cmd_queue; success = true; globals = g })
          >>= λ o. some (opened [] o))
  unfolding read_config read_all detect_brace
  read_config-Items items cmd_queue g f =
      let start : Outcome S = record { cmd_queue = cmd_queue; success = true; globals = g } in
      ap (λ x. read_all e x (opened [] start)) (sym (append-nil (lines_of 0 items)))
      ∙ read_all-Items items 0 [] [] [] start (record { words = tt; no_mode = refl }) f refl refl
