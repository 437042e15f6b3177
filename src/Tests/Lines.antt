-- ===== src/Tests/Lines.antt =====
-- Lines of commands, quoted texts and variables.
use hayward.Common.{
  subst, ◌≡◌, refl, ◌≤◌, List, [], ◌∷◌, ◌++◌, length, Option, none, some, Bool, true, false, leb,
  arith, inl, inr, Bool-cases, if◌then◌else◌, leb→le,
}
use hayward.Text.{CString, codes, strcmp, strcmp-equal}
use hayward.ListT.Sort.Order.{All, Le, IsSorted}
use hayward.Strings.{split_args, join_args, unescape_string}
use hayward.Strings.Words.{IsWord, scan, split_args-join_args}
use hayward.Strings.Unescape.{ended_text, plain, escape, unescape_string-Spells}
use hayward.Commands.Run.{◌&◌}
use hayward.Commands.Args.{success, invalid}
use hayward.Execute.{Variable, compare_set_qsort, cmd_set, do_var_replacement}
use hayward.Execute.Table.{count, IsSort, IsTable}
use hayward.Execute.Setting.{cmd_set-IsTable}
use hayward.Execute.Variables.{do_var_replacement-cmd_set}
use hayward.Execute.Command.{
  Globals, CmdHandler, Surroundings, another, with_seat, execute_loop, execute_command,
}
use hayward.Execute.Line.{Written, line, IsWritten, keeps_quotes}
use hayward.Execute.Runs.{run_all, execute_command-line}
use hayward.Execute.Fuel.{execute_loop_enough}
use hayward.Execute.File.{Read, no_context, read_loop}
use hayward.Execute.Rounds.{read_loop_enough}

-- Handlers that write down what they get.
abbrev pub Log : Type 0
Log = List (List CString)

abbrev pub logging : CString → CmdHandler Log
logging name = record {
  command = name;
  function = another;
  handle = λ argv g. (success, record g { others = g.others ++ argv ∷ [] });
}

abbrev pub first_named : CString → List (CmdHandler Log) → Option (CmdHandler Log)
first_named name [] = none
first_named name (h ∷ hs) = if strcmp name h.command then some h else first_named name hs

abbrev pub surroundings : Surroundings Log
surroundings = record {
  bsearch = first_named;
  handlers = logging (codes "mode") ∷ logging (codes "seat") ∷ [];
  config_handlers = [];
  command_handlers = logging (codes "kill") ∷ logging (codes "nop") ∷ [];
  input_manager_get_default_seat = λ s. 1;
  root_get_focused_window = λ s. some 7;
  root_get_active_workspace = λ s. some 3;
  workspace_of = λ s w. some 4;
}

abbrev pub running : Globals Log
running = record { reading = false; active = true; symbols = []; context = no_context; others = [] }

abbrev kill : Written
kill = record { name = codes "kill"; texts = [] }

strips_nop : keeps_quotes (codes "nop") ≡ false
unfolding strcmp
strips_nop = refl

kill-IsWritten : IsWritten kill
unfolding strcmp
kill-IsWritten = record {
  named = refl;
  ordinary = (refl & refl & refl & refl & tt);
  strips = refl;
  plain = tt;
}

abbrev nop_and_kill : List Written
nop_and_kill = (record { name = codes "nop"; texts = codes "a; b" ∷ codes "" ∷ [] }) ∷ kill ∷ []

execute_command-line_example :
    execute_command surroundings (line nop_and_kill) none none running
    ≡ run_all surroundings nop_and_kill none (with_seat surroundings none running)
execute_command-line_example =
    execute_command-line surroundings
      (record { name = codes "nop"; texts = codes "a; b" ∷ codes "" ∷ [] }) (kill ∷ [])
      (record {
        named = refl;
        ordinary = (refl & refl & refl & tt);
        strips = strips_nop;
        plain = (refl & refl & refl & refl & tt) & tt & tt;
      })
      (kill-IsWritten, tt) none none running

execute_loop_enough_example :
    execute_loop surroundings (λ window g. ([], g)) 12 (codes "nop;;kill") none running
    ≡ execute_loop surroundings (λ window g. (invalid ∷ [], g)) 10 (codes "nop;;kill") none running
execute_loop_enough_example =
    execute_loop_enough surroundings (λ window g. ([], g)) (λ window g. (invalid ∷ [], g)) 12 10
      (codes "nop;;kill") none running (omega arith) (omega arith)

move-IsWord : IsWord (codes "move")
unfolding scan
move-IsWord = record { nonempty = refl; is_whole = refl }

to-IsWord : IsWord (codes "'to [x'")
unfolding scan
to-IsWord = record { nonempty = refl; is_whole = refl }

app_id-IsWord : IsWord (codes "[app_id=foo bar]")
unfolding scan
app_id-IsWord = record { nonempty = refl; is_whole = refl }

pub seat-IsWord : IsWord (codes "seat")
unfolding scan
seat-IsWord = record { nonempty = refl; is_whole = refl }

pub s-IsWord : IsWord (codes "s")
unfolding scan
s-IsWord = record { nonempty = refl; is_whole = refl }

pub attach-IsWord : IsWord (codes "attach")
unfolding scan
attach-IsWord = record { nonempty = refl; is_whole = refl }

pub k-IsWord : IsWord (codes "k")
unfolding scan
k-IsWord = record { nonempty = refl; is_whole = refl }

split_args-join_args_example :
    split_args (join_args (codes "move" ∷ codes "'to [x'" ∷ codes "[app_id=foo bar]" ∷ []))
    ≡ codes "move" ∷ codes "'to [x'" ∷ codes "[app_id=foo bar]" ∷ []
split_args-join_args_example =
    split_args-join_args (codes "move" ∷ codes "'to [x'" ∷ codes "[app_id=foo bar]" ∷ [])
      (move-IsWord & to-IsWord & app_id-IsWord & tt)

unescape_string-Spells_example :
    unescape_string (codes "a\\n\\\\") ≡ some (b'a' ∷ 10 ∷ b'\\' ∷ [], 3)
unescape_string-Spells_example =
    unescape_string-Spells (codes "a\\n\\\\") (b'a' ∷ 10 ∷ b'\\' ∷ [])
      (plain refl refl (escape refl refl (escape refl refl ended_text)))

-- A sort, longest names first.
abbrev is_longer : Variable → Variable → Bool
is_longer v x = leb (length x.name) (length v.name)

abbrev insert : Variable → List Variable → List Variable
insert v [] = v ∷ []
insert v (x ∷ xs) = if is_longer v x then v ∷ x ∷ xs else x ∷ insert v xs

abbrev sort : List Variable → List Variable
sort [] = []
sort (v ∷ vars) = insert v (sort vars)

Le-of : (v x : Variable) → length x.name ≤ length v.name → Le compare_set_qsort v x
unfolding compare_set_qsort
Le-of v x h = ground (arith, h)

Le-trans :
    (v x y : Variable)
    → length x.name ≤ length v.name
    → Le compare_set_qsort x y
    → Le compare_set_qsort v y
unfolding compare_set_qsort
Le-trans v x y h k = ground (arith, h, k)

All-trans :
    (v x : Variable) (xs : List Variable)
    → length x.name ≤ length v.name
    → All (Le compare_set_qsort x) xs
    → All (Le compare_set_qsort v) xs
All-trans v x [] h a = tt
All-trans v x (y ∷ xs) h (k, a) = (Le-trans v x y h k, All-trans v x xs h a)

insert-All :
    (v x : Variable) (xs : List Variable)
    → Le compare_set_qsort x v
    → All (Le compare_set_qsort x) xs
    → All (Le compare_set_qsort x) (insert v xs)
insert-All v x [] h a = (h, tt)
insert-All v x (y ∷ xs) h (k, a) = elim (Bool-cases (is_longer v y)) [
  | inl t ↦ rw (t) (h & k & a)
  | inr t ↦ rw (t) (k, insert-All v x xs h a)
]

insert-IsSorted :
    (v : Variable) (xs : List Variable)
    → IsSorted compare_set_qsort xs
    → IsSorted compare_set_qsort (insert v xs)
insert-IsSorted v [] o = (tt, tt)
insert-IsSorted v (x ∷ xs) (a, o) = elim (Bool-cases (is_longer v x)) [
  | inl t ↦
      let h = leb→le (length x.name) (length v.name) t in
      rw (t) ((Le-of v x h, All-trans v x xs h a) & a & o)
  | inr t ↦ rw (t) (insert-All v x xs (Le-of x v (ground (arith, t))) a, insert-IsSorted v xs o)
]

insert-count :
    (p : Variable → Bool) (v : Variable) (xs : List Variable)
    → count p (insert v xs) ≡ count p (v ∷ xs)
insert-count p v [] = refl
insert-count p v (x ∷ xs) = let r = insert-count p v xs in ground (arith, r)

sort-IsSorted : (vars : List Variable) → IsSorted compare_set_qsort (sort vars)
sort-IsSorted [] = tt
sort-IsSorted (v ∷ vars) = insert-IsSorted v (sort vars) (sort-IsSorted vars)

sort-count : (vars : List Variable) (p : Variable → Bool) → count p (sort vars) ≡ count p vars
sort-count [] p = refl
sort-count (v ∷ vars) p =
    let r = sort-count vars p in let q = insert-count p v (sort vars) in ground (arith, r, q)

sort-IsSort : IsSort sort
sort-IsSort = record { sorted = sort-IsSorted; same_items = sort-count }

abbrev two_variables : List Variable
two_variables =
    (record { name = codes "$ab"; value = codes "1" })
    ∷ (record { name = codes "$a"; value = codes "2" })
    ∷ []

two_variables-once : (name : CString) → count (λ var. strcmp var.name name) two_variables ≤ 1
unfolding strcmp
two_variables-once name = elim (Bool-cases (strcmp (codes "$ab") name)) [
  | inl t ↦
      subst (λ x. count (λ var. strcmp var.name x) two_variables ≤ 1)
        (strcmp-equal (codes "$ab") name t) (omega arith)
  | inr t ↦ ground (arith, t)
]

two_variables-IsTable : IsTable two_variables
unfolding compare_set_qsort
two_variables-IsTable = record { sorted = (refl & tt) & tt & tt; once = two_variables-once }

do_var_replacement-cmd_set_example :
    do_var_replacement
      (cmd_set sort (codes "$ab" ∷ codes "x" ∷ codes "y" ∷ []) two_variables).1
      (codes "$ab")
    ≡ codes "x y"
unfolding join_args
do_var_replacement-cmd_set_example =
    do_var_replacement-cmd_set sort sort-IsSort (codes "ab") (codes "x") (codes "y" ∷ [])
      two_variables refl two_variables-IsTable

cmd_set-IsTable_example : IsTable (cmd_set sort (codes "$abc" ∷ codes "x" ∷ []) two_variables).1
cmd_set-IsTable_example =
    cmd_set-IsTable sort sort-IsSort (codes "$abc" ∷ codes "x" ∷ []) two_variables
      two_variables-IsTable

abbrev two_lines : List CString
two_lines = (codes "seat s \\" ++ 10 ∷ []) ∷ (codes "x" ++ 10 ∷ []) ∷ []

abbrev nothing_read : Read Log
nothing_read = record { stack = []; cmd_queue = []; success = true; globals = running }

read_loop_enough_example :
    read_loop surroundings none 2 two_lines nothing_read
    ≡ read_loop surroundings (some nothing_read) 5 two_lines nothing_read
read_loop_enough_example =
    read_loop_enough surroundings none (some nothing_read) 2 5 two_lines nothing_read (omega arith)
      (omega arith)
