-- ===== src/Execute/Waiting.antt =====
-- The bindings that wait for src/config.c to become active are run in their order.
use hayward.Common.{
  ◌⊎◌, ℕ, zero, suc, ◌≡◌, refl, ◌∙◌, ap, List, [], ◌∷◌, drop, length, Option, none, some, Bool,
  true, false, if◌then◌else◌, inl, inr, Bool-cases, Option-cases,
}
use hayward.Text.{CString}
use hayward.Strings.{skip_space, split_args, argsep}
use hayward.Commands.Args.{Status, arg}
use hayward.Execute.Command.{
  Globals, CmdHandler, Surroundings, Going, or_other, is_invalid, is_separator, strip_arguments,
  replace_arguments, find_core_handler, set_context, after_result, run_command, go_behind, run_part,
  execute_loop, with_seat, execute_command,
}
use hayward.Execute.Deferred.{target, seat_execute_command, run_deferred_loop}
use hayward.Bind.{HwdBinding}

or_other-some :
    {A : Type 0} (reading active : Bool) (x y z : Option A) (h : A)
    → or_other (if reading then x else if active then y else none) z ≡ some h
    → (x ≡ some h) ⊎ ((y ≡ some h) ⊎ (z ≡ some h))
or_other-some true active none y z h k = inr (inr k)
or_other-some true active (some a) y z h k = inl k
or_other-some false true x none z h k = inr (inr k)
or_other-some false true x (some a) z h k = inr (inl k)
or_other-some false false x y z h k = inr (inr k)

module _ {S : Type 0} (e : Surroundings S) where
  abbrev pub Keep : List (CmdHandler S) → Type 0
  Keep table =
      (line : CString) (h : CmdHandler S)
      → e.bsearch line table ≡ some h
      → (argv : List CString) (g : Globals S) → g.active ≡ true
      → (h.handle argv g).1.active ≡ true

  -- No handler of the tables makes `config` inactive.
  pub record KeepActive : Type 0 where
    pub config_handlers : Keep e.config_handlers
    pub command_handlers : Keep e.command_handlers
    pub handlers : Keep e.handlers

  abbrev Stays : Going e → Type 0
  Stays go = (w : Option ℕ) (g : Globals S) → g.active ≡ true → (go w g).1.active ≡ true

  set_context-active : (w : Option ℕ) (g : Globals S) → (set_context e w g).active ≡ g.active
  unfolding set_context
  set_context-active none g = refl
  set_context-active (some w) g = refl

  found-active :
      KeepActive
      → (g : Globals S) (line : CString) (h : CmdHandler S) → find_core_handler e g line ≡ some h
      → (argv : List CString) (f : Globals S) → f.active ≡ true
      → (h.handle argv f).1.active ≡ true
  unfolding find_core_handler
  found-active keep g line h k argv f a =
      elim (or_other-some g.reading g.active (e.bsearch line e.config_handlers)
        (e.bsearch line e.command_handlers) (e.bsearch line e.handlers) h k) [
          | inl found ↦ keep.config_handlers line h found argv f a
          | inr rest ↦ elim rest [
            | inl found ↦ keep.command_handlers line h found argv f a
            | inr found ↦ keep.handlers line h found argv f a
          ]
        ]

  after_result-active :
      (go : Going e)
      → Stays go
      → (w : Option ℕ) (r : Status × Globals S) → r.1.active ≡ true
      → (after_result e go w r).1.active ≡ true
  after_result-active go stays w (status, g) a = elim (Bool-cases (is_invalid status)) [
    | inl t ↦ rw (t) a
    | inr t ↦ rw (t) (stays w g a)
  ]

  run_command-active :
      KeepActive → (go : Going e) → Stays go → (argv : List CString) → Stays (run_command e go argv)
  unfolding run_command
  run_command-active keep go stays argv w g a =
      elim (Option-cases (find_core_handler e g (arg argv 0))) [
        | inl f ↦ rw (f, run_command) a
        | inr (h, f) ↦
            let chosen = or_other w (e.root_get_focused_window g.others) in
            let args = replace_arguments g.symbols h.function argv in
            rw (f, run_command)
              (after_result-active go stays chosen (h.handle args (set_context e chosen g)) (
                found-active keep g (arg argv 0) h f args (set_context e chosen g)
                  (set_context-active chosen g ∙ a)))
      ]

  go_behind-active :
      (loop : CString → Going e) (left : Option CString)
      → ((rest : CString) → Stays (loop rest))
      → Stays (go_behind e loop left)
  go_behind-active loop none stays w g a = a
  go_behind-active loop (some rest) stays w g a = stays rest w g a

  run_part-active :
      KeepActive → (go : Going e) → Stays go → (text : CString) → Stays (run_part e go text)
  run_part-active keep go stays [] w g a = stays w g a
  run_part-active keep go stays (c ∷ s) w g a =
      run_command-active keep go stays (strip_arguments (split_args (c ∷ s))) w g a

  execute_loop-active :
      KeepActive
      → (fuel : ℕ) (head : CString) → Stays (execute_loop e (λ window g. ([], g)) fuel head)
  unfolding execute_loop
  execute_loop-active keep zero head w g a = a
  execute_loop-active keep (suc fuel) head w g a =
      let separated = argsep is_separator (skip_space head) in
      run_part-active keep (go_behind e (execute_loop e (λ window g. ([], g)) fuel) separated.left)
        (go_behind-active (execute_loop e (λ window g. ([], g)) fuel) separated.left
          (execute_loop-active keep fuel))
        (skip_space separated.start) w g a

  -- The bindings one after another.
  abbrev pub run_each :
      (seat_get_target_at : S → ℕ → Option ℕ) → (seat : ℕ) → List HwdBinding → Globals S → Globals S
  run_each target_at seat [] g = g
  run_each target_at seat (b ∷ bs) g =
      run_each target_at seat bs
        (execute_command e b.command (some seat) (target e target_at seat b.type g.others) g).1

  seat_execute_command-active :
      (target_at : S → ℕ → Option ℕ) (seat : ℕ) (b : HwdBinding) (queue : List HwdBinding)
      → (g : Globals S) → g.active ≡ true
      → seat_execute_command e target_at seat b (queue, g) ≡ (
        queue,
        (execute_command e b.command (some seat) (target e target_at seat b.type g.others) g).1,
      )
  unfolding seat_execute_command
  seat_execute_command-active target_at seat b queue g a = rw (a) refl

  -- Once `config` is active, and no handler makes it inactive, the bindings that a seat has put off
  -- are run in the order in which they came, each once, and none is left.
  pub run_deferred_loop_lem :
      KeepActive
      → (target_at : S → ℕ → Option ℕ) (seat : ℕ) (queue : List HwdBinding) (g : Globals S)
      → g.active ≡ true
      → run_deferred_loop e (length queue) target_at seat (queue, g)
        ≡ ([], run_each target_at seat queue g)
  unfolding run_deferred_loop execute_command
  run_deferred_loop_lem keep target_at seat [] g a = refl
  run_deferred_loop_lem keep target_at seat (b ∷ queue) g a =
      let after =
        (execute_command e b.command (some seat) (target e target_at seat b.type g.others) g).1 in
      ap (λ r. run_deferred_loop e (length queue) target_at seat (drop 1 r.0, r.1))
        (seat_execute_command-active target_at seat b (b ∷ queue) g a)
      ∙ run_deferred_loop_lem keep target_at seat queue after (
          execute_loop-active keep (suc (length b.command)) b.command
            (target e target_at seat b.type g.others) (with_seat e (some seat) g) a)
