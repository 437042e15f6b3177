-- ===== src/Execute/File.antt =====
-- The loop of read_config of src/config.c. The file is the list of what getline returns, line by
-- line, and stays as it is while it is read.
use hayward.Common.{
  ℕ, zero, suc, List, [], ◌∷◌, ◌++◌, length, Option, none, some, Bool, true, false, not, ◌&&◌, ◌||◌,
  ◌==◌, if◌then◌else◌,
}
use hayward.Common.Chains.{◌>>=◌}
use hayward.Text.{CString, codes, strcmp}
use hayward.Strings.{is_blank, strip_whitespace}
use hayward.Commands.Args.{success, failure, invalid, defer, block, block_commands, block_end}
use hayward.Execute.{starts_as}
use hayward.Execute.Command.{Context, Globals, Surroundings}
use hayward.Execute.Reading.{Ended, ending, config_command, config_commands_command}

abbrev pub ends_continued : CString → Bool
ends_continued [] = false
ends_continued (a ∷ []) = false
ends_continued (a ∷ b ∷ []) = a == b'\\' && b == 10
ends_continued (a ∷ b ∷ c ∷ r) = ends_continued (b ∷ c ∷ r)

-- Whether a line is continued, and the line without its last two characters.
abbrev pub is_continued : CString → Bool
is_continued line = not (starts_as line b'#') && ends_continued line

abbrev pub without_two : CString → CString
without_two [] = []
without_two (a ∷ []) = []
without_two (a ∷ b ∷ []) = []
without_two (a ∷ b ∷ c ∷ r) = a ∷ without_two (b ∷ c ∷ r)

unfoldable pub getline_with_cont : (line : CString) → (file : List CString) → CString × List CString
getline_with_cont line [] = (line, [])
getline_with_cont line (next ∷ file) =
    let joined = getline_with_cont (without_two line ++ next) file in
    if is_continued line then joined else (line, next ∷ file)

-- The rest of the file behind a line with an open brace only.
unfoldable pub detect_brace : (file : List CString) → Option (List CString)
unfolding strip_whitespace strcmp
detect_brace [] = none
detect_brace (line ∷ file) =
    let rest = detect_brace file in
    let stripped = strip_whitespace line in
    if is_blank stripped then rest else if strcmp stripped (codes "{") then some file else none

unfoldable pub expand_line :
    (within : Option CString) → (line : CString) → (add_brace : Bool) → CString
expand_line none line add_brace = line ++ (if add_brace then codes " {" else [])
expand_line (some b) line add_brace = b ++ b' ' ∷ (line ++ (if add_brace then codes " {" else []))

abbrev pub is_found : Option (List CString) → Bool
is_found none = false
is_found (some file) = true

abbrev pub rest_of : Option (List CString) → List CString → List CString
rest_of none file = file
rest_of (some rest) file = rest

-- What read_config keeps: the stack of the blocks that are open, the deferred commands, whether all
-- has gone well, and `config`.
pub record Read (S : Type 0) : Type 0 where
  pub stack : List CString
  pub cmd_queue : List CString
  pub success : Bool
  pub globals : Globals S

abbrev pub no_context : Context
no_context = record {
  input_config = none;
  seat_config = none;
  seat = none;
  workspace = none;
  window = none;
}

abbrev pub head_of : List CString → Option CString
head_of [] = none
head_of (b ∷ stack) = some b

-- A line without the newline at its end.
abbrev pub without_newline : CString → CString
without_newline [] = []
without_newline (a ∷ []) = if a == 10 then [] else a ∷ []
without_newline (a ∷ b ∷ r) = a ∷ without_newline (b ∷ r)

abbrev pub is_closed_by_brace : CString → Bool
is_closed_by_brace [] = false
is_closed_by_brace (a ∷ []) = a == b'{' || a == b'}'
is_closed_by_brace (a ∷ b ∷ r) = is_closed_by_brace (b ∷ r)

module _ {S : Type 0} where
  abbrev pub close_block : List CString → Read S → Read S
  close_block [] s = record s { success = false }
  close_block (b ∷ rest) s = record s {
    stack = rest;
    globals = record s.globals { context = no_context };
  }

  -- What the status of a line changes; `expanded` is the line.
  unfoldable pub on_status : (expanded : CString) → Ended S → Read S → Read S
  on_status expanded r s = elim r.status [
    | failure ↦ record s { globals = r.globals; success = false }
    | invalid ↦ record s { globals = r.globals; success = false }
    | defer ↦ record s { globals = r.globals; cmd_queue = s.cmd_queue ++ expanded ∷ [] }
    | block_commands ↦ record s { globals = r.globals; stack = codes "<commands>" ∷ s.stack }
    | block ↦ elim r.new_block [
      | none ↦ record s { globals = r.globals }
      | some b ↦ record s { globals = r.globals; stack = b ∷ s.stack }
    ]
    | block_end ↦ close_block s.stack (record s { globals = r.globals })
    | success ↦ record s { globals = r.globals }
  ]

module _ {S : Type 0} (e : Surroundings S) where
  -- A line that is expanded, in the innermost block that is open.
  unfoldable pub run_expanded : (within : Option CString) → CString → Globals S → Option (Ended S)
  unfolding config_command config_commands_command strcmp
  run_expanded none expanded g = config_command e expanded g
  run_expanded (some b) expanded g =
      if strcmp b (codes "<commands>")
      then some (ending (config_commands_command expanded) g)
      else config_command e expanded g

  -- A line of the file, stripped, and the rest of the file behind it and a brace.
  unfoldable pub read_line :
      CString → (file : List CString) → Read S → Option (List CString × Read S)
  unfolding detect_brace expand_line run_expanded on_status
  read_line line file s =
      if is_blank line || starts_as line b'#'
      then some (file, s)
      else (let found = if is_closed_by_brace line then none else detect_brace file in
          let expanded = expand_line (head_of s.stack) line (is_found found) in
          run_expanded (head_of s.stack) expanded s.globals >>= λ r.
          some (rest_of found file, on_status expanded r s))

  -- The loop over the lines; `exhausted` is what running out of rounds gives.
  unfoldable pub read_loop :
      (exhausted : Option (Read S)) → (fuel : ℕ) → (file : List CString) → Read S → Option (Read S)
  unfolding getline_with_cont strip_whitespace read_line
  read_loop exhausted fuel [] s = some s
  read_loop exhausted zero (line ∷ file) s = exhausted
  read_loop exhausted (suc fuel) (line ∷ file) s =
      let (whole, rest) = getline_with_cont line file in
      read_line (strip_whitespace (without_newline whole)) rest s >>= λ r.
      read_loop exhausted fuel r.0 r.1

  -- The deferred commands, the globals and whether all lines went well.
  unfoldable pub read_config :
      (file : List CString) → (cmd_queue : List CString) → Globals S → Option (Read S)
  unfolding read_loop
  read_config file cmd_queue g =
      read_loop none (length file) file
        (record { stack = []; cmd_queue = cmd_queue; success = true; globals = g })
