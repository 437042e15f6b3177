-- ===== src/Commands/Events.antt =====
-- src/commands/input/events.c: whether a device sends events, and the toggle, which stores
-- configurations of its own for every device that "*" or a type stands for.
use hayward.Common.{
  ℕ, suc, ◌%◌, List, [], ◌∷◌, length, drop, none, some, Bool, true, false, not, ◌||◌, ◌&&◌, ℤ,
  negsuc, same_int, int_min, if◌then◌else◌,
}
use hayward.Text.{CString, codes, strcmp, strcasecmp}
use hayward.Config.Input.{Floats, InputConfig, new_input_config}
use hayward.Config.Store.{
  World, Device, Configs, is_wildcard, is_type, has_type, store_input_config,
}
use hayward.Commands.Args.{Status, success, invalid, at_least, arg}
use hayward.Commands.Library.{Library, SendEvents, Config, Handler, guarded}

module _ (n : Floats) (lib : Library n) where
  abbrev sent : InputConfig n → ℤ → InputConfig n
  sent ic mode = record ic { send_events = mode }

  abbrev enabled : ℤ
  enabled = lib.constants.send_events_enabled

  abbrev disabled : ℤ
  disabled = lib.constants.send_events_disabled

  abbrev disabled_on_external_mouse : ℤ
  disabled_on_external_mouse = lib.constants.send_events_disabled_on_external_mouse

  -- The switch, whose cases fall through: the next mode that the device supports.
  unfoldable pub next_mode : SendEvents → ℤ
  next_mode s =
      let from_external = if s.is_possible disabled then disabled else enabled in
      if same_int s.mode enabled
      then if s.is_possible disabled_on_external_mouse
        then disabled_on_external_mouse
        else from_external
      else if same_int s.mode disabled_on_external_mouse
      then from_external
      else enabled

  unfoldable pub toggle_supported_send_events_for_device : InputConfig n → Device → InputConfig n
  unfolding next_mode
  toggle_supported_send_events_for_device ic d = elim (lib.send_events d) [
    | none ↦ ic
    | some s ↦ sent ic (next_mode s)
  ]

  unfoldable pub mode_for_name : CString → ℤ
  unfolding strcmp
  mode_for_name name =
      if strcmp name (codes "enabled")
      then enabled
      else if strcmp name (codes "disabled_on_external_mouse")
      then disabled_on_external_mouse
      else if strcmp name (codes "disabled")
      then disabled
      else negsuc 0

  -- The index behind the first name of the mode, or the number of names.
  unfoldable pub after_mode : List CString → ℤ → ℕ
  unfolding mode_for_name
  after_mode [] mode = 0
  after_mode (name ∷ names) mode =
      let rest = after_mode names mode in if same_int (mode_for_name name) mode then 1 else suc rest

  unfoldable pub toggle_select_send_events_for_device :
      InputConfig n → Device → (argv : List CString) → InputConfig n
  unfolding mode_for_name after_mode arg
  toggle_select_send_events_for_device ic d argv = elim (lib.send_events d) [
    | none ↦ ic
    | some s ↦ sent ic (mode_for_name (arg argv (after_mode argv s.mode % length argv)))
  ]

  unfoldable pub toggle_on_device : InputConfig n → Device → (argv : List CString) → InputConfig n
  unfolding toggle_supported_send_events_for_device toggle_select_send_events_for_device
  toggle_on_device ic d [] = toggle_supported_send_events_for_device ic d
  toggle_on_device ic d (name ∷ names) = toggle_select_send_events_for_device ic d (name ∷ names)

  module _ (w : World) where
    -- The loop, for "*" and for a type: `id` is the identifier of the command.
    unfoldable pub toggle_on_all : CString → List Device → Configs n → List CString → Configs n
    unfolding toggle_on_device new_input_config store_input_config
    toggle_on_all id [] cs argv = cs
    toggle_on_all id (d ∷ ds) cs argv =
        let ic = toggle_on_device (new_input_config n d.identifier) d argv in
        let after : Configs n = elim (store_input_config n w false cs ic) [
          | none ↦ cs
          | some r ↦ r.1
        ] in
        let next = if is_wildcard id || has_type d.type id then after else cs in
        toggle_on_all id ds next argv

    -- The loop, for one device.
    unfoldable pub toggle_on_own : InputConfig n → List Device → List CString → InputConfig n
    unfolding toggle_on_device strcmp
    toggle_on_own ic [] argv = ic
    toggle_on_own ic (d ∷ ds) argv =
        let rest = toggle_on_own ic ds argv in
        if strcmp ic.identifier d.identifier then toggle_on_device ic d argv else rest

    unfoldable pub toggle_send_events : Config n → InputConfig n → List CString → Config n
    unfolding toggle_on_all toggle_on_own
    toggle_send_events config ic argv =
        if is_wildcard ic.identifier || is_type ic.identifier
        then record config {
          configs = toggle_on_all ic.identifier w.devices config.configs argv;
          input_config = some (sent ic int_min);
        }
        else record config { input_config = some (toggle_on_own ic w.devices argv) }

    unfoldable pub are_modes : List CString → Bool
    unfolding mode_for_name
    are_modes [] = true
    are_modes (name ∷ names) = not (same_int (mode_for_name name) (negsuc 0)) && are_modes names

    abbrev set_events : Config n → InputConfig n → ℤ → Status × Config n
    set_events config ic mode = (success, record config { input_config = some (sent ic mode) })

    unfoldable pub input_cmd_events : Handler n
    unfolding guarded toggle_send_events are_modes strcasecmp arg
    input_cmd_events config argv =
        guarded n at_least 1
          (λ ic.
            if strcasecmp (arg argv 0) (codes "enabled")
            then set_events config ic enabled
            else if strcasecmp (arg argv 0) (codes "disabled")
            then set_events config ic disabled
            else if strcasecmp (arg argv 0) (codes "disabled_on_external_mouse")
            then set_events config ic disabled_on_external_mouse
            else if config.reading
            then (invalid, config)
            else if strcasecmp (arg argv 0) (codes "toggle")
            then if are_modes (drop 1 argv)
              then (success, toggle_send_events config ic (drop 1 argv))
              else (invalid, config)
            else (invalid, config))
          config argv
