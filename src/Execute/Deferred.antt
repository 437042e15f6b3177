-- ===== src/Execute/Deferred.antt =====
-- Commands that wait: run_deferred_commands of src/config.c and seat_execute_command of
-- src/commands/bind.c. Running a command adds none to the queue of commands.
use hayward.Common.{ℕ, zero, suc, drop, List, [], ◌∷◌, ◌++◌, Option, none, some, if◌then◌else◌}
use hayward.Text.{CString}
use hayward.Execute.Command.{Globals, Surroundings, execute_command}
use hayward.Bind.{HwdBinding, BindingInputType, keycode, keysym, mousecode, mousesym, switch}

module _ {S : Type 0} (e : Surroundings S) where
  -- The results of the commands are only logged.
  unfoldable pub run_deferred_commands : (cmd_queue : List CString) → Globals S → Globals S
  unfolding execute_command
  run_deferred_commands [] g = g
  run_deferred_commands (line ∷ cmd_queue) g =
      run_deferred_commands cmd_queue (execute_command e line none none g).1

  -- A binding of the mouse is for the window under the cursor of the seat.
  abbrev pub target : (seat_get_target_at : S → ℕ → Option ℕ) → ℕ → BindingInputType → S → Option ℕ
  target seat_get_target_at seat mousecode s = seat_get_target_at s seat
  target seat_get_target_at seat mousesym s = seat_get_target_at s seat
  target seat_get_target_at seat keycode s = none
  target seat_get_target_at seat keysym s = none
  target seat_get_target_at seat switch s = none

  -- The deferred bindings of the seat afterwards, and `config`.
  unfoldable pub seat_execute_command :
      (seat_get_target_at : S → ℕ → Option ℕ)
      → (seat : ℕ) → HwdBinding
      → List HwdBinding × Globals S
      → List HwdBinding × Globals S
  unfolding execute_command
  seat_execute_command seat_get_target_at seat binding (deferred_bindings, g) =
      if g.active
      then (
        deferred_bindings,
        (execute_command e binding.command (some seat)
            (target seat_get_target_at seat binding.type g.others) g).1,
      )
      else (deferred_bindings ++ binding ∷ [], g)

  -- run_deferred_bindings of src/config.c for one seat, round by round.
  unfoldable pub run_deferred_loop :
      (fuel : ℕ)
      → (seat_get_target_at : S → ℕ → Option ℕ) → (seat : ℕ) → List HwdBinding × Globals S
      → List HwdBinding × Globals S
  unfolding seat_execute_command
  run_deferred_loop zero target_at seat (queue, g) = (queue, g)
  run_deferred_loop (suc fuel) target_at seat ([], g) = ([], g)
  run_deferred_loop (suc fuel) target_at seat (binding ∷ queue, g) =
      let (waiting, after) = seat_execute_command target_at seat binding (binding ∷ queue, g) in
      run_deferred_loop fuel target_at seat (drop 1 waiting, after)
