-- ===== src/Seat.antt =====
-- src/config/seat.c: the configurations of seats, their merging and their list.
pub mod Commands
pub mod Stored
pub mod Handled
pub mod Command
use hayward.Common.{
  ℕ, List, [], ◌∷◌, ◌++◌, Option, none, some, Bool, true, false, not, ◌==◌, ℤ, pos, negsuc,
  same_int, if◌then◌else◌,
}
use hayward.Text.{CString, codes, strcmp}

pub data HideWhenTyping : Type 0 where
  hide_default hide_enable hide_disable : HideWhenTyping

pub data AllowConstrain : Type 0 where
  constrain_default constrain_enable constrain_disable : AllowConstrain

pub data KeyboardGrouping : Type 0 where
  group_default group_none group_smart : KeyboardGrouping

-- An attachment is its identifier. A theme without a name is none.
pub record SeatConfig : Type 0 where
  pub name : CString
  pub fallback : ℤ
  pub attachments : List CString
  pub hide_cursor_timeout : ℤ
  pub hide_cursor_when_typing : HideWhenTyping
  pub allow_constrain : AllowConstrain
  pub keyboard_grouping : KeyboardGrouping
  pub idle_inhibit_sources : ℕ
  pub idle_wake_sources : ℕ
  pub xcursor_theme_name : Option CString
  pub xcursor_theme_size : ℕ

-- UINT32_MAX
abbrev pub all_sources : ℕ
all_sources = 4294967295

unfoldable pub new_seat_config : CString → SeatConfig
new_seat_config name = record {
  name = name;
  fallback = negsuc 0;
  attachments = [];
  hide_cursor_timeout = negsuc 0;
  hide_cursor_when_typing = hide_default;
  allow_constrain = constrain_default;
  keyboard_grouping = group_default;
  idle_inhibit_sources = all_sources;
  idle_wake_sources = all_sources;
  xcursor_theme_name = none;
  xcursor_theme_size = 24;
}

-- `if (src != -1) dst = src`
unfoldable pub override_signed : ℤ → ℤ → ℤ
override_signed dst src = if same_int src (negsuc 0) then dst else src

-- `if (src != UINT32_MAX) dst = src`
unfoldable pub override_sources : ℕ → ℕ → ℕ
override_sources dst src = if src == all_sources then dst else src

unfoldable pub has_attachment : List CString → CString → Bool
unfolding strcmp
has_attachment [] id = false
has_attachment (a ∷ as') id = if strcmp id a then true else has_attachment as' id

unfoldable pub merge_attachments : List CString → List CString → List CString
unfolding has_attachment
merge_attachments dst [] = dst
merge_attachments dst (a ∷ as') =
    merge_attachments (if has_attachment dst a then dst else dst ++ a ∷ []) as'

unfoldable pub merge_seat_config : (dest source : SeatConfig) → SeatConfig
unfolding override_signed override_sources merge_attachments
merge_seat_config d s = record d {
  fallback = override_signed d.fallback s.fallback;
  attachments = merge_attachments d.attachments s.attachments;
  hide_cursor_timeout = override_signed d.hide_cursor_timeout s.hide_cursor_timeout;
  hide_cursor_when_typing = elim s.hide_cursor_when_typing [
    | hide_default ↦ d.hide_cursor_when_typing
    | hide_enable ↦ hide_enable
    | hide_disable ↦ hide_disable
  ];
  allow_constrain = elim s.allow_constrain [
    | constrain_default ↦ d.allow_constrain
    | constrain_enable ↦ constrain_enable
    | constrain_disable ↦ constrain_disable
  ];
  keyboard_grouping = elim s.keyboard_grouping [
    | group_default ↦ d.keyboard_grouping
    | group_none ↦ group_none
    | group_smart ↦ group_smart
  ];
  idle_inhibit_sources = override_sources d.idle_inhibit_sources s.idle_inhibit_sources;
  idle_wake_sources = override_sources d.idle_wake_sources s.idle_wake_sources;
  xcursor_theme_name = elim s.xcursor_theme_name [
    | none ↦ d.xcursor_theme_name
    | some name ↦ some name
  ];
  xcursor_theme_size = elim s.xcursor_theme_name [
    | none ↦ d.xcursor_theme_size
    | some name ↦ s.xcursor_theme_size
  ];
}

-- The loop, over the configurations of other names.
unfoldable pub merge_wildcard_on_seats : SeatConfig → List SeatConfig → List SeatConfig
unfolding strcmp merge_seat_config
merge_wildcard_on_seats w [] = []
merge_wildcard_on_seats w (c ∷ cs) =
    (if strcmp w.name c.name then c else merge_seat_config c w) ∷ merge_wildcard_on_seats w cs

unfoldable pub find_seat : List SeatConfig → CString → Option SeatConfig
unfolding strcmp
find_seat [] name = none
find_seat (c ∷ cs) name = if strcmp c.name name then some c else find_seat cs name

unfoldable pub put_seat : List SeatConfig → CString → SeatConfig → List SeatConfig
unfolding strcmp
put_seat [] name v = []
put_seat (c ∷ cs) name v = if strcmp c.name name then v ∷ cs else c ∷ put_seat cs name v

-- A new configuration, on top of that of all seats.
unfoldable pub on_wildcard : List SeatConfig → SeatConfig → SeatConfig
unfolding find_seat new_seat_config merge_seat_config
on_wildcard cs sc = elim (find_seat cs (codes "*")) [
  | none ↦ sc
  | some all ↦ merge_seat_config (merge_seat_config (new_seat_config sc.name) all) sc
]

unfoldable pub store_seat_config : List SeatConfig → SeatConfig → SeatConfig × List SeatConfig
unfolding merge_wildcard_on_seats find_seat put_seat on_wildcard strcmp
store_seat_config cs sc =
    let wildcard = strcmp sc.name (codes "*") in
    let cs = if wildcard then merge_wildcard_on_seats sc cs else cs in
    elim (find_seat cs sc.name) [
      | some current ↦
          let merged = merge_seat_config current sc in (merged, put_seat cs sc.name merged)
      | none ↦ let new = if wildcard then sc else on_wildcard cs sc in (new, cs ++ new ∷ [])
    ]
