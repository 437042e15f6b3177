-- ===== src/Execute/Variables.antt =====
-- The variables of src/commands/set.c, and their replacement in src/config.c.
use hayward.Common.{
  ==_iff, ℕ, ◌≡◌, refl, sym, ◌∙◌, ap, subst, ◌-◌, List, [], ◌∷◌, ◌++◌, length, some, arith, inl,
  inr, Bool-cases, if◌then◌else◌, true, false, ◌==◌,
}
use hayward.ListT.Sort.Order.{All}
use hayward.Text.{CString}
use mathlib.Core.List.{append-nil}
use hayward.Strings.{join_args}
use hayward.Execute.Table.{IsSort, IsTable}
use hayward.Execute.Setting.{find_variable-set, cmd_set-sets}
use hayward.Execute.{
  last_two, starts_as, find_variable, set_variable, cmd_set, Variable, replace_loop,
  do_var_replacement,
}

-- Dollars written twice.
abbrev pub doubled : CString → CString
doubled [] = []
doubled (c ∷ s) = if c == b'$' then c ∷ c ∷ doubled s else c ∷ doubled s

abbrev pub IsUnescaped : ℕ → Type 0
IsUnescaped c = (c == b'\\') ≡ false

replace_loop-dollars :
    (symbols : List Variable) (c : ℕ) (s : CString) (p q : ℕ)
    → IsUnescaped q
    → (c == b'$') ≡ true
    → replace_loop symbols p q 0 (c ∷ c ∷ s) ≡ c ∷ replace_loop symbols q c 0 s
unfolding replace_loop
replace_loop-dollars symbols c s p q h t =
    subst (λ x. replace_loop symbols p q 0 (x ∷ x ∷ s) ≡ x ∷ replace_loop symbols q x 0 s)
      (sym ((==_iff c b'$').0 t)) (rw (h) refl)

replace_loop-other :
    (symbols : List Variable) (c : ℕ) (s : CString) (p q : ℕ)
    → (c == b'$') ≡ false
    → replace_loop symbols p q 0 (c ∷ s) ≡ c ∷ replace_loop symbols q c 0 s
unfolding replace_loop
replace_loop-other symbols c s p q t = rw (t) refl

pub replace_loop-nil :
    (symbols : List Variable) (p q skipped : ℕ) → replace_loop symbols p q skipped [] ≡ []
unfolding replace_loop
replace_loop-nil symbols p q skipped = refl

replace_loop-doubled :
    (symbols : List Variable) (s : CString) (p q : ℕ)
    → IsUnescaped q
    → All IsUnescaped s
    → replace_loop symbols p q 0 (doubled s) ≡ s
replace_loop-doubled symbols [] p q h k = replace_loop-nil symbols p q 0
replace_loop-doubled symbols (c ∷ s) p q h (k, l) = elim (Bool-cases (c == b'$')) [
  | inl t ↦ rw (t) (
      replace_loop-dollars symbols c (doubled s) p q h t
      ∙ ap (◌∷◌ c) (replace_loop-doubled symbols s q c k l))
  | inr t ↦ rw (t) (
      replace_loop-other symbols c (doubled s) p q t
      ∙ ap (◌∷◌ c) (replace_loop-doubled symbols s q c k l))
]

-- A text without backslashes whose dollars are doubled is replaced by the text, whatever is set.
pub do_var_replacement-doubled :
    (symbols : List Variable) (s : CString)
    → All IsUnescaped s
    → do_var_replacement symbols (doubled s) ≡ s
unfolding do_var_replacement
do_var_replacement-doubled symbols s h = replace_loop-doubled symbols s 0 0 refl h

replace_loop-skipped :
    (symbols : List Variable) (p q : ℕ) (s : CString) → replace_loop symbols p q (length s) s ≡ []
unfolding replace_loop
replace_loop-skipped symbols p q [] = refl
replace_loop-skipped symbols p q (c ∷ s) = replace_loop-skipped symbols p q s

do_var_replacement-name :
    (symbols : List Variable) (s value : CString)
    → starts_as s b'$' ≡ false
    → find_variable symbols (b'$' ∷ s) ≡ some (record { name = b'$' ∷ s; value = value })
    → do_var_replacement symbols (b'$' ∷ s) ≡ value
unfolding do_var_replacement replace_loop
do_var_replacement-name symbols s value h k =
    let rest : length (b'$' ∷ s) - 1 ≡ length s = omega arith in
    rw (h, k, rest)
      (ap (◌++◌ value)
          (replace_loop-skipped symbols (last_two 0 0 value).0 (last_two 0 0 value).1 s)
        ∙ append-nil value)

-- A name behind a dollar is replaced by what cmd_set has set it to, where it does not begin with
-- another dollar.
pub do_var_replacement-cmd_set :
    (qsort : List Variable → List Variable)
    → IsSort qsort
    → (s v : CString) (vs : List CString) (symbols : List Variable) → starts_as s b'$' ≡ false
    → IsTable symbols
    → do_var_replacement (cmd_set qsort ((b'$' ∷ s) ∷ v ∷ vs) symbols).1 (b'$' ∷ s)
      ≡ join_args (v ∷ vs)
do_var_replacement-cmd_set qsort q s v vs symbols h t =
    rw (cmd_set-sets qsort q (b'$' ∷ s) v vs symbols refl) (
      do_var_replacement-name (set_variable qsort (b'$' ∷ s) (join_args (v ∷ vs)) symbols) s
        (join_args (v ∷ vs)) h
        (find_variable-set qsort q (b'$' ∷ s) (join_args (v ∷ vs)) symbols t))
