-- ===== src/Execute/Nested/Plain.antt =====
-- Handlers that open and close no block: what run_line and the results of such lines do in
-- read_config of src/config.c.
use hayward.Common.{
  drop, some-injective, ◌≡◌, refl, sym, ◌∙◌, ap, List, [], ◌∷◌, Option, some, true, Option-cases,
  inl, inr, arith,
}
use hayward.Text.{CString}
use hayward.Strings.{split_args, join_args}
use hayward.Commands.Args.{
  Status, success, failure, invalid, defer, block, block_commands, block_end,
}
use hayward.Execute.{do_var_replacement}
use hayward.Execute.Command.{Globals, CmdHandler, Surroundings, find_core_handler}
use hayward.Execute.Reading.{Ended, ending, run_line, strip_from, keep_name}
use hayward.Execute.File.{on_status}
use hayward.Execute.Rounds.{bind_inverse}
use hayward.Execute.Nested.{Outcome, is_plain, account, opened}

pub on_status-plain :
    {S : Type 0} (status : Status) (new_block : Option CString) (g : Globals S) (exec : CString)
    (stack : List CString) (o : Outcome S)
    → is_plain status ≡ true
    → let r : Ended S = record { status = status; new_block = new_block; globals = g } in
      on_status exec r (opened stack o) ≡ opened stack (account exec r o)
unfolding on_status account
on_status-plain success new_block g exec stack o h = refl
on_status-plain failure new_block g exec stack o h = refl
on_status-plain invalid new_block g exec stack o h = refl
on_status-plain defer new_block g exec stack o h = refl
on_status-plain block new_block g exec stack o h = ground (arith, h)
on_status-plain block_commands new_block g exec stack o h = ground (arith, h)
on_status-plain block_end new_block g exec stack o h = ground (arith, h)

module _ {S : Type 0} (e : Surroundings S) where
  -- A handler that is found opens and closes no block.
  abbrev pub HandlersArePlain : Type 0
  HandlersArePlain =
      (g : Globals S) (name : CString) (handler : CmdHandler S)
      → find_core_handler e g name ≡ some handler
      → (args : List CString) (g' : Globals S) → is_plain (handler.handle args g').0 ≡ true

  pub run_line-plain :
      HandlersArePlain
      → (argv : List CString) (g : Globals S) (r : Ended S) → run_line e argv g ≡ some r
      → is_plain r.status ≡ true
  unfolding run_line
  run_line-plain p [] g r h =
      ap (λ x. is_plain x.status) (sym (some-injective (ending success g) r h))
  run_line-plain p (a ∷ argv) g r h = elim (Option-cases (find_core_handler e g a)) [
    | inl n ↦
        ap (λ x. is_plain x.status)
          (sym (some-injective (ending invalid g) r (sym (rw (n, run_line) refl) ∙ h)))
    | inr (handler, n) ↦
        let argv' = drop 1 (
          split_args
            (do_var_replacement g.symbols (join_args (keep_name handler.function (a ∷ argv))))) in
        let (args, q) =
          bind_inverse (strip_from handler.function argv')
            (λ args. let (status, after) = handler.handle args g in some (ending status after)) r
            (sym (rw (n, run_line) refl) ∙ h) in
        let result = handler.handle args g in
        ap (λ x. is_plain x.status) (sym (some-injective (ending result.0 result.1) r q))
        ∙ p g a handler n args g
  ]
