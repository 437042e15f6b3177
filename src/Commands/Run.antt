-- ===== src/Commands/Run.antt =====
-- What holds between the state before and the state after every handler in the tables of
-- src/commands/input.c holds of run_subcommand.
use hayward.Common.{
  ◌≡◌, refl, sym, subst, some-injective, ◌∙◌, List, [], ◌∷◌, drop, some, Bool, true, false,
  Bool-cases, Option-cases, inl, inr, arith, if◌then◌else◌,
}
use hayward.Text.{CString, strcasecmp}
use hayward.Config.Input.{Floats, is_set}
use hayward.Config.Store.{World}
use hayward.Commands.Args.{Status, failure, arg}
use hayward.Commands.Library.{Library, Config, Handler}
use hayward.Commands.Input.{
  InputHandler, find_handler, config_subcommand, run_subcommand, input_handlers,
  input_config_handlers,
}

-- The handlers' proofs, one after the other.
infixr 4 ◌&◌
abbrev pub ◌&◌ {ℓ κ} : {A : Type ℓ} {B : Type κ} → A → B → A × B
a & b = (a, b)

module _ (n : Floats) where
  abbrev either : Bool → Bool → (x y z : Status × Config n) → Status × Config n
  either b r x y z = if b then if r then x else y else z

module _ (n : Floats) (lib : Library n) (w : World) (R : Config n → Config n → Type 0) where
  abbrev pub Holds : Handler n → Type 0
  Holds handle = (config : Config n) (argv : List CString) → R config (handle config argv).1

  abbrev pub AllHold : List (InputHandler n lib w) → Type 0
  AllHold [] = Unit
  AllHold (h ∷ hs) = Holds h.handle × AllHold hs

  find_handler-Holds :
      (line : CString) (hs : List (InputHandler n lib w)) (handle : Handler n)
      → AllHold hs
      → find_handler n lib w line hs ≡ some handle
      → Holds handle
  unfolding find_handler
  find_handler-Holds line [] handle a e = absurd (cc)
  find_handler-Holds line (h ∷ hs) handle (k, a) e = elim (Bool-cases (strcasecmp line h.command)) [
    | inl t ↦ subst Holds (some-injective h.handle handle (sym (rw (t, find_handler) refl) ∙ e)) k
    | inr f ↦ find_handler-Holds line hs handle a (ground arith)
  ]

  config_subcommand-holds :
      (config : Config n) (argv : List CString) (hs : List (InputHandler n lib w))
      → R config config
      → AllHold hs
      → R config (config_subcommand n lib w config argv hs).1
  unfolding config_subcommand
  config_subcommand-holds config argv hs same a =
      elim (Option-cases (find_handler n lib w (arg argv 0) hs)) [
        | inl e ↦ rw (e, config_subcommand) same
        | inr (handle, e) ↦
            rw (e, config_subcommand)
              (find_handler-Holds (arg argv 0) hs handle a e config (drop 1 argv))
      ]

  if_allowed :
      (b r : Bool) (x y z : Status × Config n) (config : Config n)
      → R config x.1
      → R config y.1
      → R config z.1
      → R config (either n b r x y z).1
  if_allowed true true x y z config h k l = h
  if_allowed true false x y z config h k l = k
  if_allowed false r x y z config h k l = l

  pub run_subcommand-holds :
      (config : Config n) (argv : List CString)
      → R config config
      → AllHold (input_handlers n lib w)
      → AllHold (input_config_handlers n lib w)
      → R config (run_subcommand n lib w config argv).1
  unfolding run_subcommand
  run_subcommand-holds config argv same a b =
      if_allowed (is_set (find_handler n lib w (arg argv 0) (input_config_handlers n lib w)))
        config.reading (config_subcommand n lib w config argv (input_config_handlers n lib w))
        (failure, config) (config_subcommand n lib w config argv (input_handlers n lib w)) config
        (config_subcommand-holds config argv (input_config_handlers n lib w) same b) same
        (config_subcommand-holds config argv (input_handlers n lib w) same a)
