-- ===== src/Seat/Stored.antt =====
-- The timeouts that src/config/seat.c merges and stores stay within their bounds.
use hayward.Common.{
  ◌≡◌, refl, sym, subst, ◌∙◌, some-injective, List, [], ◌∷◌, ◌++◌, some, Bool, true, false, ◌||◌,
  ◌==◌, leb, ℤ, pos, negsuc, same_int, if◌then◌else◌, arith, inl, inr, Bool-cases, Option-cases,
}
use hayward.Text.{CString, codes, strcmp}
use hayward.Seat.{
  SeatConfig, new_seat_config, override_signed, merge_seat_config, merge_wildcard_on_seats,
  find_seat, put_seat, on_wildcard, store_seat_config,
}

-- 0, at least 100, or not set.
abbrev pub is_timeout : ℤ → Bool
is_timeout (pos a) = a == 0 || leb 100 a
is_timeout (negsuc a) = a == 0

abbrev pub IsTimely : SeatConfig → Type 0
IsTimely sc = is_timeout sc.hide_cursor_timeout ≡ true

abbrev pub AllTimely : List SeatConfig → Type 0
AllTimely [] = Unit
AllTimely (c ∷ cs) = IsTimely c × AllTimely cs

override_signed-timeout :
    (d s : ℤ) → is_timeout d ≡ true → is_timeout s ≡ true → is_timeout (override_signed d s) ≡ true
unfolding override_signed
override_signed-timeout d s h k = elim (Bool-cases (same_int s (negsuc 0))) [
  | inl t ↦ rw (t, override_signed) h
  | inr f ↦ rw (f, override_signed) k
]

merge_seat_config-IsTimely :
    (d s : SeatConfig) → IsTimely d → IsTimely s → IsTimely (merge_seat_config d s)
unfolding merge_seat_config
merge_seat_config-IsTimely d s h k =
    override_signed-timeout d.hide_cursor_timeout s.hide_cursor_timeout h k

pub new_seat_config-IsTimely : (name : CString) → IsTimely (new_seat_config name)
unfolding new_seat_config
new_seat_config-IsTimely name = refl

merge_wildcard_on_seats-AllTimely :
    (w : SeatConfig) (cs : List SeatConfig)
    → IsTimely w
    → AllTimely cs
    → AllTimely (merge_wildcard_on_seats w cs)
unfolding merge_wildcard_on_seats
merge_wildcard_on_seats-AllTimely w [] h a = tt
merge_wildcard_on_seats-AllTimely w (c ∷ cs) h (k, a) = elim (Bool-cases (strcmp w.name c.name)) [
  | inl t ↦ rw (t, merge_wildcard_on_seats) (k, merge_wildcard_on_seats-AllTimely w cs h a)
  | inr f ↦
      rw (f, merge_wildcard_on_seats)
        (merge_seat_config-IsTimely c w k h, merge_wildcard_on_seats-AllTimely w cs h a)
]

find_seat-IsTimely :
    (cs : List SeatConfig) (name : CString) (c : SeatConfig)
    → AllTimely cs
    → find_seat cs name ≡ some c
    → IsTimely c
unfolding find_seat
find_seat-IsTimely [] name c a e = absurd (cc)
find_seat-IsTimely (d ∷ cs) name c (k, a) e = elim (Bool-cases (strcmp d.name name)) [
  | inl t ↦ subst IsTimely (some-injective d c (sym (rw (t, find_seat) refl) ∙ e)) k
  | inr f ↦ find_seat-IsTimely cs name c a (ground arith)
]

put_seat-AllTimely :
    (cs : List SeatConfig) (name : CString) (v : SeatConfig)
    → AllTimely cs
    → IsTimely v
    → AllTimely (put_seat cs name v)
unfolding put_seat
put_seat-AllTimely [] name v a h = tt
put_seat-AllTimely (c ∷ cs) name v (k, a) h = elim (Bool-cases (strcmp c.name name)) [
  | inl t ↦ rw (t, put_seat) (h, a)
  | inr f ↦ rw (f, put_seat) (k, put_seat-AllTimely cs name v a h)
]

append-AllTimely :
    (cs : List SeatConfig) (v : SeatConfig) → AllTimely cs → IsTimely v → AllTimely (cs ++ v ∷ [])
append-AllTimely [] v a h = (h, tt)
append-AllTimely (c ∷ cs) v (k, a) h = (k, append-AllTimely cs v a h)

on_wildcard-IsTimely :
    (cs : List SeatConfig) (sc : SeatConfig)
    → AllTimely cs
    → IsTimely sc
    → IsTimely (on_wildcard cs sc)
unfolding on_wildcard
on_wildcard-IsTimely cs sc a h = elim (Option-cases (find_seat cs (codes "*"))) [
  | inl e ↦ rw (e, on_wildcard) h
  | inr (all, e) ↦
      rw (e, on_wildcard)
        (merge_seat_config-IsTimely (merge_seat_config (new_seat_config sc.name) all) sc
          (merge_seat_config-IsTimely (new_seat_config sc.name) all
            (new_seat_config-IsTimely sc.name) (find_seat-IsTimely cs (codes "*") all a e))
          h)
]

if-AllTimely :
    (b : Bool) (xs ys : List SeatConfig)
    → AllTimely xs
    → AllTimely ys
    → AllTimely (if b then xs else ys)
if-AllTimely true xs ys h k = h
if-AllTimely false xs ys h k = k

if-IsTimely :
    (b : Bool) (x y : SeatConfig) → IsTimely x → IsTimely y → IsTimely (if b then x else y)
if-IsTimely true x y h k = h
if-IsTimely false x y h k = k

pub store_seat_config-AllTimely :
    (cs : List SeatConfig) (sc : SeatConfig)
    → AllTimely cs
    → IsTimely sc
    → AllTimely (store_seat_config cs sc).1
unfolding store_seat_config
store_seat_config-AllTimely cs sc a h =
    let wildcard = strcmp sc.name (codes "*") in
    let spread = if wildcard then merge_wildcard_on_seats sc cs else cs in
    let all =
      if-AllTimely wildcard (merge_wildcard_on_seats sc cs) cs
        (merge_wildcard_on_seats-AllTimely sc cs h a) a in
    elim (Option-cases (find_seat spread sc.name)) [
      | inr (current, e) ↦
          rw (e, store_seat_config)
            (put_seat-AllTimely spread sc.name (merge_seat_config current sc) all (
              merge_seat_config-IsTimely current sc
                (find_seat-IsTimely spread sc.name current all e) h))
      | inl e ↦
          rw (e, store_seat_config)
            (append-AllTimely spread (if wildcard then sc else on_wildcard spread sc) all (
              if-IsTimely wildcard sc (on_wildcard spread sc) h
                (on_wildcard-IsTimely spread sc all h)))
    ]
