-- ===== src/Commands/Layouts.antt =====
-- The layouts that src/commands/input/xkb_switch_layout.c goes to.
use hayward.Common.{
  ℕ, zero, suc, ◌+◌, ◌-◌, ◌%◌, ◌^◌, ◌≤◌, ◌<◌, ◌≡◌, ap, ◌∙◌, inl, inr, List, [], ◌∷◌, Bool, ltb,
  ◌==◌, if◌then◌else◌, Bool-cases, arith,
}
use native.Mathlib.Nat.{add-mod_right, mod-eq_of_lt, mod_self}
use hayward.Commands.Library.{Keyboard, Action}
use hayward.Commands.SwitchLayout.{
  active_from, get_current_layout_index, get_layout_relative, next, prev, switch_layout, switch_all,
}

-- Every action is for a layout that the keyboard has.
abbrev pub AllInRange : List Action → Type 0
AllInRange [] = Unit
AllInRange (a ∷ as') = (a.layout < a.keyboard.num_layouts) × AllInRange as'

-- A keyboard is told of layouts that its keymap has only, whatever index was asked for.
pub switch_all-AllInRange : (actions : List Action) → AllInRange (switch_all actions)
unfolding switch_all switch_layout
switch_all-AllInRange [] = tt
switch_all-AllInRange (a ∷ as') = elim (Bool-cases (ltb a.layout a.keyboard.num_layouts)) [
  | inl t ↦ rw (t, switch_all) (ground arith, switch_all-AllInRange as')
  | inr f ↦ rw (f, switch_all) (switch_all-AllInRange as')
]

active_from-at_most : (is_active : ℕ → Bool) (left i : ℕ) → active_from is_active left i ≤ i + left
unfolding active_from
active_from-at_most is_active zero i = omega arith
active_from-at_most is_active (suc left) i =
    let rest = active_from-at_most is_active left (suc i) in ground arith

mod_once : (c n : ℕ) → c < n → (c + n) % n ≡ c
mod_once c n h = add-mod_right c n ∙ mod-eq_of_lt h

twice : (n : ℕ) → (n + n) % n ≡ 0
twice n = add-mod_right n n ∙ mod_self n

on_32_bits : (a : ℕ) → a < 2 ^ 32 → a % 2 ^ 32 ≡ a
on_32_bits a h = omega arith

next_from :
    (c n : ℕ) → n < 2 ^ 31 → c < n → ((c + n + 1) % 2 ^ 32) % n ≡ (if suc c == n then 0 else suc c)
next_from c n h k =
    ap (λ a. a % n) (on_32_bits (c + n + 1) (omega arith)) ∙ elim (Bool-cases (suc c == n)) [
      | inl t ↦ let e : c + n + 1 ≡ n + n = ground arith in rw (t) (ap (λ a. a % n) e ∙ twice n)
      | inr f ↦
          let e : c + n + 1 ≡ suc c + n = omega arith in
          let l : suc c < n = ground arith in rw (f) (ap (λ a. a % n) e ∙ mod_once (suc c) n l)
    ]

prev_from :
    (c n : ℕ)
    → n < 2 ^ 31
    → c < n
    → ((c + n + (2 ^ 32 - 1)) % 2 ^ 32) % n ≡ (if c == 0 then n - 1 else c - 1)
prev_from zero n h k =
    let e : (zero + n + (2 ^ 32 - 1)) % 2 ^ 32 ≡ n - 1 = omega arith in
    ap (λ a. a % n) e ∙ mod-eq_of_lt (omega arith)
prev_from (suc c) n h k =
    let e : (suc c + n + (2 ^ 32 - 1)) % 2 ^ 32 ≡ c + n = omega arith in
    let last : c ≡ (if suc c == 0 then n - 1 else suc c - 1) = ground arith in
    ap (λ a. a % n) e ∙ mod_once c n (omega arith) ∙ last

-- Where a layout is active, "next" goes to the one behind it and from the last to the first, and
-- "prev" goes the other way.
pub get_layout_relative_lem :
    (kbd : Keyboard)
    → kbd.num_layouts < 2 ^ 31
    → get_current_layout_index kbd < kbd.num_layouts
    → (get_layout_relative kbd next ≡ (
        if suc (get_current_layout_index kbd) == kbd.num_layouts
        then 0
        else suc (get_current_layout_index kbd)))
      × (get_layout_relative kbd prev ≡ (
          if get_current_layout_index kbd == 0
          then kbd.num_layouts - 1
          else get_current_layout_index kbd - 1))
unfolding get_layout_relative
get_layout_relative_lem kbd h k =
    let c = get_current_layout_index kbd in
    (next_from c kbd.num_layouts h k, prev_from c kbd.num_layouts h k)
