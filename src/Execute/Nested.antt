-- ===== src/Execute/Nested.antt =====
-- What a configuration file is for its author: commands and blocks within one another, as
-- read_config of src/config.c reads them. The lines they are written as, and what reading them does,
-- without a stack of open blocks.
pub mod Layout
pub mod Words
pub mod Braces
pub mod Plain
pub mod Steps
pub mod Refine
use hayward.Common.{
  ◌≡◌, ℕ, zero, suc, List, [], ◌∷◌, ◌++◌, Option, none, some, Bool, true, false, not, ◌&&◌, ◌||◌,
  ◌==◌, if◌then◌else◌,
}
use hayward.Common.Chains.{◌>>=◌}
use hayward.ListT.Sort.Order.{All}
use hayward.Text.{CString, codes, strcmp}
use hayward.Strings.{is_space, join_args}
use hayward.Strings.Words.{IsWord}
use hayward.Commands.Args.{
  Status, success, failure, invalid, defer, block, block_commands, block_end,
}
use hayward.Execute.{starts_as}
use hayward.Execute.Command.{Globals, Surroundings}
use hayward.Execute.Reading.{Ended, last_of, run_line}
use hayward.Execute.File.{Read, no_context, is_closed_by_brace}

-- The brace of a block is on the line of its name or on the line below.
pub data Items : Type 0 where
  done : Items
  blank : (rest : Items) → Items
  comment : (text : CString) → (rest : Items) → Items
  command : (name : CString) → (argv : List CString) → (rest : Items) → Items
  within :
      (name : CString) → (argv : List CString) → (is_below : Bool) → (body rest : Items) → Items

abbrev pub indent : ℕ → CString
indent zero = []
indent (suc depth) = b' ' ∷ b' ' ∷ b' ' ∷ b' ' ∷ indent depth

abbrev pub line_of : ℕ → CString → CString
line_of depth text = indent depth ++ (text ++ 10 ∷ [])

abbrev pub opening : ℕ → CString → (is_below : Bool) → List CString
opening depth text false = line_of depth (text ++ codes " {") ∷ []
opening depth text true = line_of depth text ∷ line_of depth (codes "{") ∷ []

-- The lines of a file, each with its newline.
unfoldable pub lines_of : ℕ → Items → List CString
unfolding join_args
lines_of depth done = []
lines_of depth (blank rest) = (10 ∷ []) ∷ lines_of depth rest
lines_of depth (comment text rest) = line_of depth (b'#' ∷ text) ∷ lines_of depth rest
lines_of depth (command name argv rest) =
    line_of depth (join_args (name ∷ argv)) ∷ lines_of depth rest
lines_of depth (within name argv is_below body rest) =
    opening depth (join_args (name ∷ argv)) is_below
    ++ (lines_of (suc depth) body ++ line_of depth (codes "}") ∷ lines_of depth rest)

-- The end of a line that is neither stripped nor continued.
abbrev pub ends_plainly : CString → Bool
ends_plainly [] = false
ends_plainly (a ∷ []) = not (is_space a) && not (a == b'\\')
ends_plainly (a ∷ b ∷ r) = ends_plainly (b ∷ r)

abbrev pub first_of : List CString → CString
first_of [] = []
first_of (a ∷ r) = a

-- The words of a line, which is no comment.
pub record IsLine (name : CString) (argv : List CString) : Type 0 where
  pub words : All IsWord (name ∷ argv)
  pub no_comment : starts_as name b'#' ≡ false
  pub ends : ends_plainly (join_args (name ∷ argv)) ≡ true

-- A command in the blocks `head`, whose last word is no brace; a variable may begin it in a block
-- only.
pub record IsCommand (head : List CString) (name : CString) (argv : List CString) : Type 0 where
  pub line : IsLine name argv
  pub no_variable : starts_as (first_of (head ++ name ∷ argv)) b'$' ≡ false
  pub no_open : strcmp (last_of (name ∷ argv)) (codes "{") ≡ false
  pub no_close : strcmp (last_of (name ∷ argv)) (codes "}") ≡ false

-- The name of a block. It is not taken for the block of `<commands>`, nor for one whose brace is
-- there already where it comes on the line below.
pub record IsName (head : List CString) (name : CString) (argv : List CString) (is_below : Bool)
    : Type 0 where
  pub line : IsLine name argv
  pub no_mode : starts_as (first_of (head ++ name ∷ argv)) b'<' ≡ false
  pub no_brace : is_below && is_closed_by_brace (join_args (name ∷ argv)) ≡ false

-- What can be written within the blocks whose names are the words of `head`.
unfoldable pub Fits : (head : List CString) → Items → Type 0
Fits head done = Unit
Fits head (blank rest) = Fits head rest
Fits head (comment text rest) = (ends_plainly (b'#' ∷ text) ≡ true) × Fits head rest
Fits head (command name argv rest) = IsCommand head name argv × Fits head rest
Fits head (within name argv is_below body rest) =
    IsName head name argv is_below × Fits (head ++ name ∷ argv) body × Fits head rest

-- What reading a file leaves.
pub record Outcome (S : Type 0) : Type 0 where
  pub cmd_queue : List CString
  pub success : Bool
  pub globals : Globals S

-- A handler opens and closes no block.
abbrev pub is_plain : Status → Bool
is_plain block = false
is_plain block_commands = false
is_plain block_end = false
is_plain _ = true

module _ {S : Type 0} where
  -- What the result of a command changes; `exec` is its line.
  unfoldable pub account : (exec : CString) → Ended S → Outcome S → Outcome S
  account exec r o = elim r.status [
    | failure ↦ record o { globals = r.globals; success = false }
    | invalid ↦ record o { globals = r.globals; success = false }
    | defer ↦ record o { globals = r.globals; cmd_queue = o.cmd_queue ++ exec ∷ [] }
    | success ↦ record o { globals = r.globals }
    | block ↦ record o { globals = r.globals }
    | block_commands ↦ record o { globals = r.globals }
    | block_end ↦ record o { globals = r.globals }
  ]

  abbrev pub forget_context : Outcome S → Outcome S
  forget_context o = record o { globals = record o.globals { context = no_context } }

  -- With the blocks that are open.
  abbrev pub opened : (stack : List CString) → Outcome S → Read S
  opened stack o = record {
    stack = stack;
    cmd_queue = o.cmd_queue;
    success = o.success;
    globals = o.globals;
  }

module _ {S : Type 0} (e : Surroundings S) where
  -- Each command is run with the words of all the blocks it is in, in front of its own; the
  -- configuration that a block has been about is forgotten behind it.
  unfoldable pub run_items : (head : List CString) → Items → Outcome S → Option (Outcome S)
  unfolding run_line account
  run_items head done o = some o
  run_items head (blank rest) o = run_items head rest o
  run_items head (comment text rest) o = run_items head rest o
  run_items head (command name argv rest) o = run_line e (head ++ name ∷ argv) o.globals >>= λ r.
      run_items head rest (account (join_args (head ++ name ∷ argv)) r o)
  run_items head (within name argv is_below body rest) o =
      run_items (head ++ name ∷ argv) body o >>= λ t. run_items head rest (forget_context t)
