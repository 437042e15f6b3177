-- ===== src/Commands/Numbers.antt =====
-- src/util.c: floating-point arguments; src/input/cursor.c: names and codes of mouse buttons.
use hayward.Common.{
  ℕ, ◌+◌, ◌-◌, List, [], ◌∷◌, length, map, get_elem?, none, some, Bool, true, false, not, ◌||◌,
  ◌&&◌, ◌==◌, leb, ℤ, to_int32, pos, is_nonpos, same_int, if◌then◌else◌,
}
use hayward.Text.{CString, codes, starts_with, tolower}
use hayward.Config.Input.{Floats}
use hayward.Commands.Library.{Library}

-- An uint32_t that is a button, and whether an error was written.
pub record Button : Type 0 where
  pub code : ℤ
  pub is_error : Bool

abbrev pub no_button : Button
no_button = record { code = pos 0; is_error = false }

abbrev pub button_error : Button
button_error = record { code = pos 0; is_error = true }

abbrev pub button_of : ℤ → Button
button_of code = record { code = code; is_error = false }

module _ (n : Floats) (lib : Library n) where
  unfoldable pub parse_float : CString → n.Float
  parse_float text =
      let parsed = lib.strtof text in
      if not (length parsed.rest == 0) || parsed.is_out_of_range then lib.nan else parsed.value

  -- HWD_SCROLL_UP and the others, by their distance from KEY_MAX.
  abbrev pub scroll_code : ℕ → ℤ
  scroll_code i = pos (lib.constants.key_max + i)

  abbrev pub x11_buttons : List ℤ
  x11_buttons =
      lib.constants.btn_left
      ∷ lib.constants.btn_middle
      ∷ lib.constants.btn_right
      ∷ scroll_code 1
      ∷ scroll_code 2
      ∷ scroll_code 3
      ∷ scroll_code 4
      ∷ lib.constants.btn_side
      ∷ lib.constants.btn_extra
      ∷ []

  -- "button1" to "button9"; name[strlen("button")] is the terminating NUL of a shorter name.
  unfoldable pub get_mouse_bindsym : CString → Button
  unfolding starts_with tolower
  get_mouse_bindsym name =
      if starts_with (map tolower name) (codes "button")
      then elim (get_elem? name 6) [
        | none ↦ button_error
        | some c ↦
            if leb b'1' c && leb c b'9' && leb (length name) 7
            then elim (get_elem? x11_buttons (c - b'1')) [
              | some code ↦ button_of code
              | none ↦ button_error
            ]
            else button_error
      ]
      else if starts_with name (codes "BTN_")
      then elim (lib.event_code_from_name name) [ none ↦ button_error | some code ↦ button_of code ]
      else no_button

  unfoldable pub get_mouse_bindcode : CString → Button
  unfolding starts_with to_int32
  get_mouse_bindcode name =
      let parsed = lib.strtol name in
      let code = to_int32 parsed.value in
      if (length parsed.rest == length name) && is_nonpos code || parsed.is_out_of_range
      then button_error
      else elim (lib.event_code_get_name code) [
        | none ↦ button_error
        | some event ↦ if starts_with event (codes "BTN_") then button_of code else button_error
      ]

  unfoldable pub get_mouse_button : CString → Button
  unfolding get_mouse_bindsym get_mouse_bindcode
  get_mouse_button name =
      let button = get_mouse_bindsym name in
      if same_int button.code (pos 0) && not button.is_error
      then get_mouse_bindcode name
      else button
