-- ===== src/Tests/Files.antt =====
-- Files of commands and blocks.
use hayward.Common.{
  ◌≡◌, refl, sym, ◌∙◌, subst, List, [], ◌∷◌, Option, none, some, Bool, true, false, inl, inr, arith,
  Bool-cases, some-injective, if◌then◌else◌,
}
use hayward.Common.Chains.{◌>>=◌}
use hayward.ListT.Sort.Order.{All}
use hayward.Text.{CString, codes, strcmp}
use hayward.Strings.{join_args}
use hayward.Strings.Words.{IsWord, scan}
use hayward.Commands.Run.{◌&◌}
use hayward.Execute.Command.{CmdHandler, Globals, or_other, find_core_handler}
use hayward.Execute.File.{read_config}
use hayward.Execute.Nested.{
  Items, done, blank, comment, command, within, lines_of, IsLine, IsCommand, Fits, is_plain, opened,
  run_items,
}
use hayward.Execute.Nested.Plain.{HandlersArePlain}
use hayward.Execute.Nested.Refine.{read_config-Items}
use hayward.Tests.Lines.{
  Log, first_named, surroundings, running, seat-IsWord, s-IsWord, attach-IsWord, k-IsWord,
}

abbrev LogsOnly : CmdHandler Log → Type 0
LogsOnly handler =
    (args : List CString) (g : Globals Log) → is_plain (handler.handle args g).0 ≡ true

first_named-LogsOnly :
    (name : CString) (hs : List (CmdHandler Log)) (handler : CmdHandler Log)
    → All LogsOnly hs
    → first_named name hs ≡ some handler
    → LogsOnly handler
first_named-LogsOnly name [] handler a n = ground (arith, n)
first_named-LogsOnly name (h ∷ hs) handler (b, a) n = elim (Bool-cases (strcmp name h.command)) [
  | inl t ↦ subst LogsOnly (some-injective h handler (sym (rw (t) refl) ∙ n)) b
  | inr t ↦ first_named-LogsOnly name hs handler a (sym (rw (t) refl) ∙ n)
]

or_other-LogsOnly :
    (a b : Option (CmdHandler Log)) (handler : CmdHandler Log)
    → ((h : CmdHandler Log) → a ≡ some h → LogsOnly h)
    → ((h : CmdHandler Log) → b ≡ some h → LogsOnly h)
    → or_other a b ≡ some handler
    → LogsOnly handler
or_other-LogsOnly none b handler p q n = q handler n
or_other-LogsOnly (some a) b handler p q n = p handler n

core-LogsOnly :
    (reading active : Bool) (name : CString) (handler : CmdHandler Log)
    → (if reading
        then none
        else if active
        then first_named name surroundings.command_handlers
        else none)
      ≡ some handler
    → LogsOnly handler
core-LogsOnly true active name handler n = ground (arith, n)
core-LogsOnly false true name handler n =
    first_named-LogsOnly name surroundings.command_handlers handler
      ((λ args g. refl) & (λ args g. refl) & tt) n
core-LogsOnly false false name handler n = ground (arith, n)

surroundings-plain : HandlersArePlain surroundings
unfolding find_core_handler
surroundings-plain g name handler n =
    or_other-LogsOnly
      (if g.reading
        then none
        else if g.active
        then first_named name surroundings.command_handlers
        else none)
      (first_named name surroundings.handlers) handler
      (λ h. core-LogsOnly g.reading g.active name h)
      (λ h.
        first_named-LogsOnly name surroundings.handlers h
          ((λ args g. refl) & (λ args g. refl) & tt))
      n

-- # seats
-- seat s {
--     attach k
--
-- }
-- seat
-- {
--     s k
-- }
-- mode k
abbrev a_file : Items
a_file = comment (codes " seats") (
    within (codes "seat") (codes "s" ∷ []) false
      (command (codes "attach") (codes "k" ∷ []) (blank done))
      (within (codes "seat") [] true (command (codes "s") (codes "k" ∷ []) done)
        (command (codes "mode") (codes "k" ∷ []) done)))

mode-IsWord : IsWord (codes "mode")
unfolding scan
mode-IsWord = record { nonempty = refl; is_whole = refl }

seat_s-IsLine : IsLine (codes "seat") (codes "s" ∷ [])
unfolding join_args
seat_s-IsLine = record { words = seat-IsWord & s-IsWord & tt; no_comment = refl; ends = refl }

seat-IsLine : IsLine (codes "seat") []
unfolding join_args
seat-IsLine = record { words = (seat-IsWord, tt); no_comment = refl; ends = refl }

attach_k-IsCommand : IsCommand (codes "seat" ∷ codes "s" ∷ []) (codes "attach") (codes "k" ∷ [])
unfolding join_args strcmp
attach_k-IsCommand = record {
  line = record { words = attach-IsWord & k-IsWord & tt; no_comment = refl; ends = refl };
  no_variable = refl;
  no_open = refl;
  no_close = refl;
}

s_k-IsCommand : IsCommand (codes "seat" ∷ []) (codes "s") (codes "k" ∷ [])
unfolding join_args strcmp
s_k-IsCommand = record {
  line = record { words = s-IsWord & k-IsWord & tt; no_comment = refl; ends = refl };
  no_variable = refl;
  no_open = refl;
  no_close = refl;
}

mode_k-IsCommand : IsCommand [] (codes "mode") (codes "k" ∷ [])
unfolding join_args strcmp
mode_k-IsCommand = record {
  line = record { words = mode-IsWord & k-IsWord & tt; no_comment = refl; ends = refl };
  no_variable = refl;
  no_open = refl;
  no_close = refl;
}

a_file-Fits : Fits [] a_file
unfolding Fits join_args
a_file-Fits = (
  refl,
  (
    record { line = seat_s-IsLine; no_mode = refl; no_brace = refl },
    (attach_k-IsCommand, tt),
    (
      record { line = seat-IsLine; no_mode = refl; no_brace = refl },
      (s_k-IsCommand, tt),
      (mode_k-IsCommand, tt),
    ),
  ),
)

read_config-Items_example : read_config surroundings (lines_of 0 a_file) [] running ≡ (
    run_items surroundings [] a_file (record { cmd_queue = []; success = true; globals = running })
    >>= λ o. some (opened [] o))
read_config-Items_example =
    read_config-Items surroundings surroundings-plain a_file [] running a_file-Fits
