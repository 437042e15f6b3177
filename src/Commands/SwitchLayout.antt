-- ===== src/Commands/SwitchLayout.antt =====
-- src/commands/input/xkb_switch_layout.c: the keyboards whose layout is changed, and the index of
-- the new one. The keyboard library's parts are parameters: how many layouts a keymap has, and
-- which are active.
use hayward.Common.{
  ℕ, zero, suc, ◌+◌, ◌-◌, ◌%◌, ◌^◌, List, [], ◌∷◌, ◌++◌, length, Option, none, some, Bool, not,
  ◌||◌, ◌==◌, ltb, to_int32, pos, negsuc, if◌then◌else◌,
}
use hayward.Text.{CString, codes, strcmp}
use hayward.Config.Input.{Floats}
use hayward.Config.Store.{is_wildcard}
use hayward.Commands.Args.{success, failure, defer, equal_to, arg}
use hayward.Commands.Library.{Library, Handler, Keyboard, Action, guarded}

-- The first active index from `layout_idx` on, of `left` that are left.
unfoldable pub active_from : (ℕ → Bool) → (left layout_idx : ℕ) → ℕ
active_from is_active zero i = i
active_from is_active (suc left) i =
    let rest = active_from is_active left (suc i) in if is_active i then i else rest

unfoldable pub get_current_layout_index : Keyboard → ℕ
unfolding active_from
get_current_layout_index kbd = active_from kbd.is_active kbd.num_layouts 0

pub data Direction : Type 0 where
  next prev : Direction

-- (idx + num_layouts + dir) % num_layouts, on 32 bits
unfoldable pub get_layout_relative : Keyboard → Direction → ℕ
unfolding get_current_layout_index
get_layout_relative kbd next =
    ((get_current_layout_index kbd + kbd.num_layouts + 1) % 2 ^ 32) % kbd.num_layouts
get_layout_relative kbd prev =
    ((get_current_layout_index kbd + kbd.num_layouts + (2 ^ 32 - 1)) % 2 ^ 32) % kbd.num_layouts

-- The call of wlr_keyboard_notify_modifiers, where there is one.
unfoldable pub switch_layout : Action → List Action
switch_layout a = if ltb a.layout a.keyboard.num_layouts then a ∷ [] else []

-- The layout that is asked for.
pub data Request : Type 0 where
  relative : Direction → Request
  index : ℕ → Request

unfoldable pub action_on : Request → Keyboard → Action
unfolding get_layout_relative
action_on (relative dir) kbd = record { keyboard = kbd; layout = get_layout_relative kbd dir }
action_on (index layout) kbd = record { keyboard = kbd; layout = layout }

-- The actions for the keyboards that the identifier stands for.
unfoldable pub actions_on : CString → Request → List Keyboard → List Action
unfolding action_on strcmp
actions_on id request [] = []
actions_on id request (kbd ∷ kbds) =
    let rest = actions_on id request kbds in
    if is_wildcard id || strcmp id (codes "type:keyboard") || strcmp id kbd.identifier
    then action_on request kbd ∷ rest
    else rest

unfoldable pub switch_all : List Action → List Action
unfolding switch_layout
switch_all [] = []
switch_all (a ∷ as') = switch_layout a ++ switch_all as'

module _ (n : Floats) (lib : Library n) where
  -- "next", "prev" or a number that is not negative
  unfoldable pub parse_layout : CString → Option Request
  unfolding strcmp to_int32
  parse_layout text =
      let parsed = lib.strtol text in
      if strcmp text (codes "next")
      then some (relative next)
      else if strcmp text (codes "prev")
      then some (relative prev)
      else if length text == 0 || not (length parsed.rest == 0)
      then none
      else elim (to_int32 parsed.value) [ pos a ↦ some (index a) | negsuc a ↦ none ]

  unfoldable pub input_cmd_xkb_switch_layout : Handler n
  unfolding guarded parse_layout actions_on switch_all arg
  input_cmd_xkb_switch_layout config argv =
      guarded n equal_to 1
        (λ ic.
          if config.reading || not config.active
          then (defer, config)
          else elim (parse_layout (arg argv 0)) [
            | none ↦ (failure, config)
            | some request ↦ (
              success,
              record config {
                switched =
                    config.switched ++ switch_all (actions_on ic.identifier request lib.keyboards);
              },
            )
          ])
        config argv
