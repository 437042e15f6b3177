-- ===== src/Seat/Commands.antt =====
-- src/commands/seat.c and the seat commands of src/commands/seat/. The bits of the idle sources are
-- added up as a mask; the seats are those of server.input->seats.
use hayward.Common.{
  ℕ, List, [], ◌∷◌, ◌++◌, length, drop, map, Option, none, some, Bool, true, false, not, ◌&&◌, ◌||◌,
  ◌==◌, ltb, ℤ, to_int32, pos, negsuc, if◌then◌else◌,
}
use Prim.Native.Nat.{bit_or}
use hayward.Text.{CString, codes, strcmp, strcasecmp}
use hayward.Seat.{
  SeatConfig, HideWhenTyping, hide_default, hide_enable, hide_disable, constrain_enable,
  constrain_disable, group_none, group_smart, all_sources, new_seat_config, store_seat_config,
}
use hayward.Commands.Args.{
  Status, success, failure, invalid, defer, at_least, at_most, equal_to, checkarg, arg,
  parse_boolean,
}
use hayward.Commands.Library.{Parsed}

-- A seat: its name, the cursor's copy of hide_when_typing, and whether its pointer is constrained.
pub record Seat : Type 0 where
  pub name : CString
  pub hide_when_typing : HideWhenTyping
  pub is_constrained : Bool

-- The part of `config` and `server` that the commands change; strtol and strtoul are of the C
-- library. `applied` are the calls of input_manager_apply_seat_config.
pub record SeatState : Type 0 where
  pub reading : Bool
  pub active : Bool
  pub current_seat : CString
  pub seat_config : Option SeatConfig
  pub seat_configs : List SeatConfig
  pub seats : List Seat
  pub applied : List SeatConfig

abbrev pub SeatHandler : Type 0
SeatHandler = SeatState → List CString → Status × SeatState

abbrev pub on_seat :
    Option SeatConfig → (SeatConfig → Status × SeatState) → Status → SeatState → Status × SeatState
on_seat none run otherwise st = (otherwise, st)
on_seat (some sc) run otherwise st = run sc

abbrev pub keep_config : SeatState → SeatConfig → SeatState
keep_config st sc = record st { seat_config = some sc }

abbrev pub unless {ℓ} : {A : Type ℓ} → Option Status → (Status → A) → A → A
unless none fail go = go
unless (some e) fail go = fail e

module _ (strtol : CString → Parsed ℤ) (strtoul : CString → Parsed ℕ) where
  abbrev is_empty : CString → Bool
  is_empty s = length s == 0

  unfoldable pub seat_cmd_attach : SeatHandler
  unfolding checkarg arg
  seat_cmd_attach st argv =
      unless (checkarg (length argv) at_least 1) (λ e. (e, st))
        (on_seat st.seat_config
          (λ sc. if not st.active then (defer, st) else (
            success,
            keep_config st (record sc { attachments = sc.attachments ++ arg argv 0 ∷ [] }),
          ))
          failure st)

  unfoldable pub seat_cmd_fallback : SeatHandler
  unfolding checkarg arg parse_boolean
  seat_cmd_fallback st argv =
      unless (checkarg (length argv) equal_to 1) (λ e. (e, st))
        (on_seat st.seat_config
          (λ sc. (
            success,
            keep_config st (record sc {
              fallback = if parse_boolean (arg argv 0) false then pos 1 else pos 0;
            }),
          ))
          failure st)

  -- A timeout below 100 is 0 or becomes 100.
  unfoldable pub at_least_100 : ℤ → ℤ
  at_least_100 (pos a) = if ltb a 100 && not (a == 0) then pos 100 else pos a
  at_least_100 (negsuc a) = pos 100

  abbrev uncached : Seat → Seat
  uncached s = record s { hide_when_typing = hide_default }

  unfoldable pub seat_cmd_hide_cursor : SeatHandler
  unfolding checkarg arg parse_boolean at_least_100 to_int32 strcmp
  seat_cmd_hide_cursor st argv =
      unless (checkarg (length argv) at_least 1) (λ e. (e, st))
        (unless (checkarg (length argv) at_most 2) (λ e. (e, st))
          (on_seat st.seat_config
            (λ sc.
              if length argv == 1
              then (let parsed = strtol (arg argv 0) in
                  if not (is_empty parsed.rest) then (invalid, st) else (
                    success,
                    keep_config st
                        (record sc { hide_cursor_timeout = at_least_100 (to_int32 parsed.value) }),
                  ))
              else if not (strcmp (arg argv 0) (codes "when-typing"))
              then (invalid, st)
              else (
                success,
                record st {
                  seat_config = some (record sc {
                    hide_cursor_when_typing =
                        if parse_boolean (arg argv 1) true then hide_enable else hide_disable;
                  });
                  seats = map uncached st.seats;
                },
              ))
            failure st))

  -- The value of a name of the table, or 0.
  unfoldable pub source_value : CString → ℕ
  unfolding strcasecmp
  source_value name =
      if strcasecmp (codes "keyboard") name
      then 1
      else if strcasecmp (codes "pointer") name
      then 2
      else if strcasecmp (codes "touch") name
      then 4
      else if strcasecmp (codes "tablet_pad") name
      then 8
      else if strcasecmp (codes "tablet_tool") name
      then 16
      else if strcasecmp (codes "switch") name
      then 32
      else 0

  unfoldable pub parse_sources : List CString → (sources : ℕ) → ℕ
  unfolding source_value
  parse_sources [] sources = sources
  parse_sources (name ∷ names) sources =
      let value = source_value name in
      let rest = parse_sources names (bit_or sources value) in
      if value == 0 then all_sources else rest

  unfoldable pub seat_cmd_idle_inhibit : SeatHandler
  unfolding checkarg parse_sources
  seat_cmd_idle_inhibit st argv =
      unless (checkarg (length argv) at_least 1) (λ e. (e, st))
        (on_seat st.seat_config
          (λ sc.
            let sources = parse_sources argv 0 in
            if sources == all_sources
            then (failure, st)
            else (success, keep_config st (record sc { idle_inhibit_sources = sources })))
          failure st)

  unfoldable pub seat_cmd_idle_wake : SeatHandler
  unfolding checkarg parse_sources
  seat_cmd_idle_wake st argv =
      unless (checkarg (length argv) at_least 1) (λ e. (e, st))
        (on_seat st.seat_config
          (λ sc.
            let sources = parse_sources argv 0 in
            if sources == all_sources
            then (failure, st)
            else (success, keep_config st (record sc { idle_wake_sources = sources })))
          failure st)

  unfoldable pub seat_cmd_keyboard_grouping : SeatHandler
  unfolding checkarg arg strcmp
  seat_cmd_keyboard_grouping st argv =
      unless (checkarg (length argv) equal_to 1) (λ e. (e, st))
        (on_seat st.seat_config
          (λ sc.
            if strcmp (arg argv 0) (codes "none")
            then (success, keep_config st (record sc { keyboard_grouping = group_none }))
            else if strcmp (arg argv 0) (codes "smart")
            then (success, keep_config st (record sc { keyboard_grouping = group_smart }))
            else (invalid, st))
          invalid st)

  -- hwd_cursor_constrain(seat->cursor, NULL) for the seats of the name.
  unfoldable pub release_seats : CString → List Seat → List Seat
  unfolding strcmp
  release_seats name [] = []
  release_seats name (s ∷ ss) =
      (if strcmp name (codes "*") || strcmp s.name name
        then record s { is_constrained = false }
        else s)
      ∷ release_seats name ss

  unfoldable pub seat_cmd_pointer_constraint : SeatHandler
  unfolding checkarg arg strcmp release_seats
  seat_cmd_pointer_constraint st argv =
      unless (checkarg (length argv) equal_to 1) (λ e. (e, st))
        (on_seat st.seat_config
          (λ sc.
            if strcmp (arg argv 0) (codes "enable")
            then (success, keep_config st (record sc { allow_constrain = constrain_enable }))
            else if strcmp (arg argv 0) (codes "disable")
            then (
              success,
              record st {
                seat_config = some (record sc { allow_constrain = constrain_disable });
                seats = release_seats sc.name st.seats;
              },
            )
            else if strcmp (arg argv 0) (codes "escape")
            then if st.reading
              then (failure, st)
              else (success, record st { seats = release_seats sc.name st.seats })
            else (failure, st))
          failure st)

  unfoldable pub seat_cmd_xcursor_theme : SeatHandler
  unfolding checkarg arg
  seat_cmd_xcursor_theme st argv =
      unless (checkarg (length argv) at_least 1) (λ e. (e, st))
        (unless (checkarg (length argv) at_most 2) (λ e. (e, st))
          (on_seat st.seat_config
            (λ sc.
              let parsed = strtoul (arg argv 1) in
              let has_size = length argv == 2 in
              if has_size && not (is_empty parsed.rest) then (invalid, st) else (
                success,
                keep_config st (record sc {
                  xcursor_theme_name = some (arg argv 0);
                  xcursor_theme_size = if has_size then parsed.value else 24;
                }),
              ))
            failure st))

  -- The table of the seat commands, searched as the input commands' tables are.
  unfoldable pub find_seat_handler : CString → Option SeatHandler
  unfolding strcasecmp
  find_seat_handler name =
      if strcasecmp name (codes "attach")
      then some seat_cmd_attach
      else if strcasecmp name (codes "fallback")
      then some seat_cmd_fallback
      else if strcasecmp name (codes "hide_cursor")
      then some seat_cmd_hide_cursor
      else if strcasecmp name (codes "idle_inhibit")
      then some seat_cmd_idle_inhibit
      else if strcasecmp name (codes "idle_wake")
      then some seat_cmd_idle_wake
      else if strcasecmp name (codes "keyboard_grouping")
      then some seat_cmd_keyboard_grouping
      else if strcasecmp name (codes "pointer_constraint")
      then some seat_cmd_pointer_constraint
      else if strcasecmp name (codes "xcursor_theme")
      then some seat_cmd_xcursor_theme
      else none

  abbrev pub run_handler : Option SeatHandler → SeatState → List CString → Status × SeatState
  run_handler none st argv = (invalid, st)
  run_handler (some handle) st argv = handle st argv

  abbrev pub is_done : Status → Bool
  is_done success = true
  is_done _ = false

  abbrev pub keep_seat : Option SeatConfig → SeatState → SeatState
  keep_seat none st = st
  keep_seat (some sc) st =
      let (stored, configs) = store_seat_config st.seat_configs sc in
      record st {
        seat_configs = configs;
        applied = if st.reading then st.applied else st.applied ++ stored ∷ [];
      }

  unfoldable pub config_handlers : SeatState → List CString → Status × SeatState
  unfolding find_seat_handler store_seat_config arg
  config_handlers st argv =
      let r = run_handler (find_seat_handler (arg argv 0)) st (drop 1 argv) in
      let kept = if is_done r.0 then keep_seat r.1.seat_config r.1 else r.1 in
      (r.0, record kept { seat_config = none })

  abbrev pub for_seat : SeatState → CString → SeatState
  for_seat st name = record st { seat_config = some (new_seat_config name) }

  unfoldable pub cmd_seat : SeatState → List CString → Status × SeatState
  unfolding checkarg config_handlers new_seat_config arg strcmp
  cmd_seat st argv =
      unless (checkarg (length argv) at_least 2) (λ e. (e, st))
        (if strcmp (arg argv 0) (codes "-")
          then (if st.reading
              then (failure, st)
              else config_handlers (for_seat st st.current_seat) (drop 1 argv))
          else config_handlers (for_seat st (arg argv 0)) (drop 1 argv))
