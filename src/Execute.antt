-- ===== src/Execute.antt =====
-- How src/commands.c runs lines of commands, with the variables of src/commands/set.c and
-- src/config.c. The functions of the handlers, bsearch of the C library and what the tree says of
-- the focus are parameters; what the handlers know beyond `config` is a state of any type.
pub mod Command
pub mod Reading
pub mod File
pub mod Blocks
pub mod Rounds
pub mod Variables
pub mod Table
pub mod Setting
pub mod Line
pub mod Runs
pub mod Deferred
pub mod Waiting
pub mod Fuel
pub mod Nested
use hayward.Common.{
  ℕ, zero, suc, ◌+◌, ◌-◌, List, [], ◌∷◌, ◌++◌, length, drop, map, Option, none, some, Bool, true,
  false, not, ◌&&◌, ◌||◌, ◌==◌, ltb, leb, ℤ, pos, negsuc, if◌then◌else◌,
}
use hayward.Common.Chains.{◌>>=◌}
use hayward.Text.{CString, codes, strcmp, starts_with}
use hayward.Strings.{
  skip_space, is_blank, split_args, strip_quotes, join_args, argsep, unescape_string,
}
use hayward.Commands.Args.{
  Status, ExpectedArgs, success, invalid, block, block_end, at_least, checkarg, arg,
}

pub record Variable : Type 0 where
  pub name : CString
  pub value : CString

abbrev pub starts_as : CString → ℕ → Bool
starts_as [] c = false
starts_as (a ∷ s) c = a == c

-- The variable that the text starts with, the first of the list. No name is empty.
unfoldable pub find_variable : List Variable → CString → Option Variable
unfolding starts_with
find_variable [] find = none
find_variable (var ∷ vars) find =
    let later = find_variable vars find in if starts_with find var.name then some var else later

-- The last two characters of a text that stands behind two others.
abbrev pub last_two : ℕ → ℕ → CString → ℕ × ℕ
last_two p q [] = (p, q)
last_two p q (c ∷ s) = last_two q c s

-- The text from `find` on, afterwards: p and q are the two characters in front of it, 0 where there
-- is none, and `skipped` is how much of it has been replaced.
unfoldable pub replace_loop :
    (symbols : List Variable) → (p q : ℕ) → (skipped : ℕ) → (find : CString) → CString
unfolding find_variable
replace_loop symbols p q skipped [] = []
replace_loop symbols p q (suc skipped) (c ∷ find) = replace_loop symbols p q skipped find
replace_loop symbols p q zero (c ∷ find) =
    if not (c == b'$') || q == b'\\' && not (p == b'\\')
    then c ∷ replace_loop symbols q c 0 find
    else if starts_as find b'$'
    then c ∷ replace_loop symbols q c 1 find
    else elim (find_variable symbols (c ∷ find)) [
      | none ↦ c ∷ replace_loop symbols q c 0 find
      | some var ↦
          let (p', q') = last_two p q var.value in
          var.value ++ replace_loop symbols p' q' (length var.name - 1) find
    ]

unfoldable pub do_var_replacement : List Variable → CString → CString
unfolding replace_loop
do_var_replacement symbols str = replace_loop symbols 0 0 0 str

-- strlen(r->name) - strlen(l->name)
unfoldable pub compare_set_qsort : Variable → Variable → ℤ
compare_set_qsort l r =
    if leb (length l.name) (length r.name)
    then pos (length r.name - length l.name)
    else negsuc (length l.name - length r.name - 1)

-- The list with the value of the variable of that name replaced, if there is one.
unfoldable pub put_value : CString → CString → List Variable → Option (List Variable)
unfolding strcmp
put_value name value [] = none
put_value name value (var ∷ vars) =
    let later = put_value name value vars in
    if strcmp var.name name
    then some (record var { value = value } ∷ vars)
    else later >>= λ rest. some (var ∷ rest)

module _ (qsort : List Variable → List Variable) where
  -- The part of cmd_set behind the tests of its arguments, with qsort of the C library.
  unfoldable pub set_variable : CString → CString → List Variable → List Variable
  unfolding put_value
  set_variable name value symbols = elim (put_value name value symbols) [
    | some changed ↦ changed
    | none ↦ qsort (symbols ++ record { name = name; value = value } ∷ [])
  ]

  unfoldable pub cmd_set : List CString → List Variable → Status × List Variable
  unfolding checkarg arg set_variable join_args
  cmd_set argv symbols = elim (checkarg (length argv) at_least 2) [
    | some status ↦ (status, symbols)
    | none ↦
        if starts_as (arg argv 0) b'$'
        then (success, set_variable (arg argv 0) (join_args (drop 1 argv)) symbols)
        else (invalid, symbols)
  ]
