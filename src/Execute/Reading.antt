-- ===== src/Execute/Reading.antt =====
-- config_command and config_commands_command of src/commands.c.
use hayward.Common.{
  List, [], ◌∷◌, drop, Option, none, some, Bool, true, false, not, ◌&&◌, if◌then◌else◌,
}
use hayward.Common.Chains.{◌>>=◌}
use hayward.Text.{CString, codes, strcmp}
use hayward.Strings.{split_args, strip_quotes, join_args, unescape_string}
use hayward.Commands.Args.{Status, success, invalid, block, block_end, arg}
use hayward.Execute.{starts_as, do_var_replacement}
use hayward.Execute.Command.{
  Globals, Function, Surroundings, another, is_set, is_quoted, find_core_handler,
}

-- The result, with *new_block where it is set.
pub record Ended (S : Type 0) : Type 0 where
  pub status : Status
  pub new_block : Option CString
  pub globals : Globals S

abbrev pub ending : {S : Type 0} → Status → Globals S → Ended S
ending status g = record { status = status; new_block = none; globals = g }

-- The last of some texts, and those in front of it.
abbrev pub last_of : List CString → CString
last_of [] = []
last_of (a ∷ []) = a
last_of (a ∷ b ∷ r) = last_of (b ∷ r)

abbrev pub but_last : List CString → List CString
but_last [] = []
but_last (a ∷ []) = []
but_last (a ∷ b ∷ r) = a ∷ but_last (b ∷ r)

abbrev pub is_many : List CString → Bool
is_many [] = false
is_many (a ∷ []) = false
is_many (a ∷ b ∷ r) = true

-- The handlers that get their quotes.
abbrev pub gets_quotes : Function → Bool
gets_quotes another = false
gets_quotes _ = true

-- The text that unescape_string leaves, none where it reads on behind the end.
unfoldable pub strip_argument : Function → CString → Option CString
unfolding strip_quotes unescape_string
strip_argument f a =
    unescape_string (if not (gets_quotes f) && is_quoted a then strip_quotes a else a) >>= λ r.
    some r.0

unfoldable pub strip_all : Function → List CString → Option (List CString)
unfolding strip_argument
strip_all f [] = some []
strip_all f (a ∷ r) = strip_argument f a >>= λ b. strip_all f r >>= λ s. some (b ∷ s)

-- From the first argument on, or the second; `argv` is without the command.
unfoldable pub strip_from : Function → List CString → Option (List CString)
unfolding strip_all
strip_from f [] = some []
strip_from f (a ∷ r) =
    if is_set f then (strip_all f r >>= λ s. some (a ∷ s)) else strip_all f (a ∷ r)

-- The name of the variable to set is kept from replacement by another dollar.
abbrev pub keep_name : Function → List CString → List CString
keep_name f [] = []
keep_name f (a ∷ []) = a ∷ []
keep_name f (a ∷ b ∷ r) = if is_set f && starts_as b b'$' then a ∷ (b'$' ∷ b) ∷ r else a ∷ b ∷ r

module _ {S : Type 0} (e : Surroundings S) where
  -- The part of config_command behind the tests for blocks.
  unfoldable pub run_line : List CString → Globals S → Option (Ended S)
  unfolding find_core_handler do_var_replacement split_args join_args strip_from arg
  run_line argv g = elim argv [
    | [] ↦ some (ending success g)
    | a ∷ r ↦ elim (find_core_handler e g a) [
      | none ↦ some (ending invalid g)
      | some handler ↦
          let command =
            do_var_replacement g.symbols (join_args (keep_name handler.function (a ∷ r))) in
          strip_from handler.function (drop 1 (split_args command)) >>= λ args.
          (let (status, after) = handler.handle args g in some (ending status after))
    ]
  ]

  -- config_command behind its call of split_args.
  unfoldable pub run_split : List CString → Globals S → Option (Ended S)
  unfolding split_args strcmp join_args run_line do_var_replacement
  run_split [] g = some (ending success g)
  run_split (a ∷ r) g =
      if is_many (a ∷ r) && strcmp (last_of (a ∷ r)) (codes "{")
      then some
          (record { status = block; new_block = some (join_args (but_last (a ∷ r))); globals = g })
      else if strcmp (last_of (a ∷ r)) (codes "}")
      then some (ending block_end g)
      else if starts_as a b'$'
      then run_line (split_args (join_args (do_var_replacement g.symbols a ∷ r))) g
      else run_line (a ∷ r) g

  unfoldable pub config_command : (exec : CString) → Globals S → Option (Ended S)
  unfolding run_split split_args
  config_command exec g = run_split (split_args exec) g

-- find_handler finds nothing here, as it is given no handlers.
unfoldable pub config_commands_command : (exec : CString) → Status
unfolding split_args strcmp
config_commands_command exec = elim (split_args exec) [
  | [] ↦ success
  | cmd ∷ r ↦
      if strcmp cmd (codes "}")
      then block_end
      else if strcmp cmd (codes "*")
      then success
      else invalid
]
