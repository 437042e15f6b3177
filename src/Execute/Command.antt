-- ===== src/Execute/Command.antt =====
-- execute_command of src/commands.c. A pointer to a seat, a workspace or a window is a number.
use hayward.Common.{
  ℕ, zero, suc, List, [], ◌∷◌, length, map, Option, none, some, Bool, true, false, ◌||◌, ◌==◌,
  if◌then◌else◌,
}
use hayward.Text.{CString, codes, strcmp}
use hayward.Strings.{Separated, skip_space, split_args, strip_quotes, argsep}
use hayward.Commands.Args.{Status, invalid, arg}
use hayward.Execute.{Variable, starts_as, do_var_replacement}

-- The part of config->handler_context that is set here, and the configurations of the block. Its
-- `leftovers`, which no function reads or sets but by clearing the whole, are left out.
pub record Context : Type 0 where
  pub input_config : Option ℕ
  pub seat_config : Option ℕ
  pub seat : Option ℕ
  pub workspace : Option ℕ
  pub window : Option ℕ

-- `config`, with all else that the handlers know.
pub record Globals (S : Type 0) : Type 0 where
  pub reading : Bool
  pub active : Bool
  pub symbols : List Variable
  pub context : Context
  pub others : S

-- The functions that handlers are compared with.
pub data Function : Type 0 where
  cmd_set cmd_exec cmd_exec_always cmd_mode cmd_bindsym cmd_bindcode cmd_bindswitch : Function
  another : Function

pub record CmdHandler (S : Type 0) : Type 0 where
  pub command : CString
  pub function : Function
  pub handle : List CString → Globals S → Status × Globals S

-- The three tables, bsearch in them, and what the seats and the tree say.
pub record Surroundings (S : Type 0) : Type 0 where
  pub bsearch : CString → List (CmdHandler S) → Option (CmdHandler S)
  pub handlers : List (CmdHandler S)
  pub config_handlers : List (CmdHandler S)
  pub command_handlers : List (CmdHandler S)
  pub input_manager_get_default_seat : S → ℕ
  pub root_get_focused_window : S → Option ℕ
  pub root_get_active_workspace : S → Option ℕ
  pub workspace_of : S → ℕ → Option ℕ

abbrev pub or_other {ℓ} : {A : Type ℓ} → Option A → Option A → Option A
or_other none b = b
or_other (some a) b = some a

abbrev pub is_set : Function → Bool
is_set cmd_set = true
is_set _ = false

abbrev pub is_invalid : Status → Bool
is_invalid invalid = true
is_invalid _ = false

abbrev pub is_separator : ℕ → Bool
is_separator c = c == b';' || c == b','

abbrev pub is_quoted : CString → Bool
is_quoted a = starts_as a b'"' || starts_as a b'\''

unfoldable pub unquote : CString → CString
unquote a = if is_quoted a then strip_quotes a else a

abbrev tail_map : (CString → CString) → List CString → List CString
tail_map f [] = []
tail_map f (a ∷ r) = a ∷ map f r

-- The quotes of the arguments are stripped, but for those of three commands.
unfoldable pub strip_arguments : List CString → List CString
unfolding strcmp unquote
strip_arguments argv =
    if strcmp (arg argv 0) (codes "exec")
      || strcmp (arg argv 0) (codes "exec_always")
      || strcmp (arg argv 0) (codes "mode")
    then argv
    else tail_map unquote argv

-- argv + 1 with its variables replaced: all, or all but the first.
unfoldable pub replace_arguments : List Variable → Function → List CString → List CString
replace_arguments symbols f [] = []
replace_arguments symbols f (a ∷ r) =
    if is_set f then tail_map (do_var_replacement symbols) r else map (do_var_replacement symbols) r

module _ {S : Type 0} (e : Surroundings S) where
  unfoldable pub find_core_handler : Globals S → CString → Option (CmdHandler S)
  find_core_handler g line =
      or_other
        (if g.reading
          then e.bsearch line e.config_handlers
          else if g.active
          then e.bsearch line e.command_handlers
          else none)
        (e.bsearch line e.handlers)

  -- The context of a command, where `window` is that of the caller or the focused one.
  unfoldable pub set_context : Option ℕ → Globals S → Globals S
  set_context none g = record g {
    context = record g.context { workspace = e.root_get_active_workspace g.others; window = none };
  }
  set_context (some w) g = record g {
    context = record g.context { workspace = e.workspace_of g.others w; window = some w };
  }

  abbrev pub Going : Type 0
  Going = Option ℕ → Globals S → List Status × Globals S

  abbrev pub with_first : Status → List Status × Globals S → List Status × Globals S
  with_first status (statuses, g) = (status ∷ statuses, g)

  -- What follows the result of a handler.
  abbrev pub after_result : Going → Option ℕ → Status × Globals S → List Status × Globals S
  after_result go_on window (status, g) =
      if is_invalid status then (status ∷ [], g) else with_first status (go_on window g)

  -- One command; `go_on` runs those behind it.
  unfoldable pub run_command : (go_on : Going) → (argv : List CString) → Going
  unfolding find_core_handler set_context replace_arguments
  run_command go_on argv window g = elim (find_core_handler g (arg argv 0)) [
    | none ↦ (invalid ∷ [], g)
    | some handler ↦
        let chosen = or_other window (e.root_get_focused_window g.others) in
        after_result go_on chosen (
          handler.handle (replace_arguments g.symbols handler.function argv) (set_context chosen g))
  ]

  abbrev pub go_behind : (CString → Going) → Option CString → Going
  go_behind loop none window g = ([], g)
  go_behind loop (some rest) window g = loop rest window g

  -- A part of the line, unless it is empty.
  abbrev pub run_part : (go_on : Going) → (cmd : CString) → Going
  run_part go_on [] window g = go_on window g
  run_part go_on (c ∷ s) window g =
      run_command go_on (strip_arguments (split_args (c ∷ s))) window g

  abbrev pub run_separated : (CString → Going) → Separated → Going
  run_separated loop separated window g =
      run_part (go_behind loop separated.left) (skip_space separated.start) window g

  -- The loop over the commands, one round for each; `exhausted` is what running out of rounds gives.
  unfoldable pub execute_loop : (exhausted : Going) → (fuel : ℕ) → (head : CString) → Going
  unfolding run_command strip_arguments argsep split_args
  execute_loop exhausted zero head window g = exhausted window g
  execute_loop exhausted (suc fuel) head window g =
      run_separated (execute_loop exhausted fuel) (argsep is_separator (skip_space head)) window g

  abbrev pub with_seat : Option ℕ → Globals S → Globals S
  with_seat seat g = record g {
    context = record g.context {
      seat = or_other seat (some (e.input_manager_get_default_seat g.others));
    };
  }

  unfoldable pub execute_command :
      (exec : CString) → (seat window : Option ℕ) → Globals S → List Status × Globals S
  unfolding execute_loop
  execute_command exec seat window g =
      execute_loop (λ window g. ([], g)) (suc (length exec)) exec window (with_seat seat g)
