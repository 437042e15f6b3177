-- ===== src/Execute/Setting.antt =====
-- What cmd_set of src/commands/set.c does to the list of variables.
use hayward.Common.{
  ℕ, suc, ◌≡◌, refl, sym, ◌∙◌, subst, ◌≤◌, ◌+◌, List, [], ◌∷◌, ◌++◌, length, none, some,
  some-injective, arith, inl, inr, Option-cases, Bool-cases, Bool, true, false,
}
use hayward.ListT.Sort.Order.{All, Le, IsSorted}
use hayward.Text.{CString, strcmp, strcmp_refl, strcmp-equal}
use hayward.Execute.{Variable, find_variable, compare_set_qsort, put_value, set_variable}
use hayward.Strings.{join_args}
use hayward.Commands.Args.{at_least, success, invalid, checkarg, arg}
use hayward.Execute.{starts_as, cmd_set}
use hayward.Execute.Table.{count, named, valued, IsSort, IsTable, find_variable-valued}

-- How put_value gets its result: by the first variable, or behind it.
data Put (name value : CString) (var : Variable) (vars vars' : List Variable) : Type 0 where
  first :
      strcmp var.name name ≡ true
      → record var { value = value } ∷ vars ≡ vars'
      → Put name value var vars vars'
  behind :
      (rest : List Variable)
      → strcmp var.name name ≡ false
      → put_value name value vars ≡ some rest
      → var ∷ rest ≡ vars'
      → Put name value var vars vars'

put_value-Put :
    (name value : CString) (var : Variable) (vars vars' : List Variable)
    → put_value name value (var ∷ vars) ≡ some vars'
    → Put name value var vars vars'
unfolding put_value
put_value-Put name value var vars vars' e = elim (Bool-cases (strcmp var.name name)) [
  | inl t ↦ first t (some-injective _ _ (sym (rw (t, put_value) refl) ∙ e))
  | inr t ↦ elim (Option-cases (put_value name value vars)) [
    | inl n ↦ ground (arith, t, n, e)
    | inr (rest, n) ↦ behind rest t n (some-injective _ _ (sym (rw (t, put_value, n) refl) ∙ e))
  ]
]

put_value-All :
    (name value : CString) (v : Variable) (vars vars' : List Variable)
    → put_value name value vars ≡ some vars'
    → All (Le compare_set_qsort v) vars
    → All (Le compare_set_qsort v) vars'
unfolding put_value compare_set_qsort
put_value-All name value v [] vars' e a = ground (arith, e)
put_value-All name value v (var ∷ vars) vars' e (h, a) =
    elim (put_value-Put name value var vars vars' e) [
      | first t p ↦ subst (All (Le compare_set_qsort v)) p (h, a)
      | behind rest t n p ↦
          subst (All (Le compare_set_qsort v)) p (h, put_value-All name value v vars rest n a)
    ]

-- A value changes, and the names stay.
record IsPut (name value : CString) (vars vars' : List Variable) : Type 0 where
  sorted : IsSorted compare_set_qsort vars → IsSorted compare_set_qsort vars'
  same_names : (n : CString) → count (named n) vars' ≡ count (named n) vars
  there : 1 ≤ count (valued name value) vars'

same_names-cons :
    (name : CString) (var : Variable) (vars vars' : List Variable)
    → count (named name) vars ≡ count (named name) vars'
    → count (named name) (var ∷ vars) ≡ count (named name) (var ∷ vars')
same_names-cons name var vars vars' h = ground (arith, h)

All-Le-value :
    (var : Variable) (value : CString) (vars : List Variable)
    → All (Le compare_set_qsort var) vars
    → All (Le compare_set_qsort (record var { value = value })) vars
unfolding compare_set_qsort
All-Le-value var value [] a = tt
All-Le-value var value (v ∷ vars) (h, a) = (h, All-Le-value var value vars a)

same_names-value :
    (name : CString) (var : Variable) (value : CString) (vars : List Variable)
    → count (named name) (record var { value = value } ∷ vars) ≡ count (named name) (var ∷ vars)
same_names-value name var value vars = ground arith

put_value-IsPut :
    (name value : CString) (vars vars' : List Variable)
    → put_value name value vars ≡ some vars'
    → IsPut name value vars vars'
unfolding put_value
put_value-IsPut name value [] vars' e = ground (arith, e)
put_value-IsPut name value (var ∷ vars) vars' e = elim (put_value-Put name value var vars vars' e) [
  | first t p ↦ subst (IsPut name value (var ∷ vars)) p (record {
    sorted = λ (a, h). (All-Le-value var value vars a, h);
    same_names = λ n. same_names-value n var value vars;
    there = rw (t, strcmp_refl value) (omega arith);
  })
  | behind rest t n p ↦
      let r = put_value-IsPut name value vars rest n in
      subst (IsPut name value (var ∷ vars)) p (record {
        sorted = λ (a, h). (put_value-All name value var vars rest n a, r.sorted h);
        same_names = λ m. same_names-cons m var rest vars (r.same_names m);
        there = rw (t) r.there;
      })
]

put_value-none :
    (name value : CString) (vars : List Variable)
    → put_value name value vars ≡ none
    → count (named name) vars ≡ 0
unfolding put_value
put_value-none name value [] e = refl
put_value-none name value (var ∷ vars) e = elim (Bool-cases (strcmp var.name name)) [
  | inl t ↦ ground (arith, t, e)
  | inr t ↦ elim (Option-cases (put_value name value vars)) [
    | inl n ↦ rw (t) (put_value-none name value vars n)
    | inr (rest, n) ↦ ground (arith, t, n, e)
  ]
]

count-append :
    (p : Variable → Bool) (xs ys : List Variable) → count p (xs ++ ys) ≡ count p xs + count p ys
count-append p [] ys = omega arith
count-append p (x ∷ xs) ys = let r = count-append p xs ys in ground (arith, r)

appended_once :
    (name value : CString) (vars : List Variable) (n : CString)
    → put_value name value vars ≡ none
    → count (named n) vars ≤ 1
    → count (named n) (vars ++ record { name = name; value = value } ∷ []) ≤ 1
appended_once name value vars n e h =
    let added = count-append (named n) vars (record { name = name; value = value } ∷ []) in
    elim (Bool-cases (strcmp name n)) [
      | inl t ↦
          let absent : count (named n) vars ≡ 0 =
            subst (λ m. count (named m) vars ≡ 0) (strcmp-equal name n t)
              (put_value-none name value vars e) in
          ground (arith, added, absent)
      | inr t ↦ ground (arith, added, t, h)
    ]

appended_there :
    (name value : CString) (vars : List Variable)
    → 1 ≤ count (valued name value) (vars ++ record { name = name; value = value } ∷ [])
appended_there name value vars = ground (
  arith,
  count-append (valued name value) vars (record { name = name; value = value } ∷ []),
  strcmp_refl name,
  strcmp_refl value,
)

two_arguments : (n : ℕ) → checkarg (suc (suc n)) at_least 2 ≡ none
unfolding checkarg
two_arguments n = ground arith

module _ (qsort : List Variable → List Variable) (s : IsSort qsort) where
  -- Setting a variable keeps the table sorted, without a name twice.
  pub set_variable-IsTable :
      (name value : CString) (vars : List Variable)
      → IsTable vars
      → IsTable (set_variable qsort name value vars)
  unfolding set_variable
  set_variable-IsTable name value vars t = elim (Option-cases (put_value name value vars)) [
    | inr (vars', e) ↦
        let r = put_value-IsPut name value vars vars' e in
        rw (e, set_variable)
          (record { sorted = r.sorted t.sorted; once = λ n. rw (r.same_names n) (t.once n) })
    | inl e ↦
        rw (e, set_variable)
          (record {
            sorted = s.sorted (vars ++ record { name = name; value = value } ∷ []);
            once = λ n.
                rw (s.same_items (vars ++ record { name = name; value = value } ∷ []) (named n))
                  (appended_once name value vars n e (t.once n));
          })
  ]

  -- It then has the value once.
  set_variable-there :
      (name value : CString) (vars : List Variable)
      → 1 ≤ count (valued name value) (set_variable qsort name value vars)
  unfolding set_variable
  set_variable-there name value vars = elim (Option-cases (put_value name value vars)) [
    | inr (vars', e) ↦ rw (e, set_variable) (put_value-IsPut name value vars vars' e).there
    | inl e ↦
        rw
          (
            e,
            set_variable,
            s.same_items (vars ++ record { name = name; value = value } ∷ []) (valued name value),
          )
          (appended_there name value vars)
  ]

  pub find_variable-set :
      (name value : CString) (vars : List Variable)
      → IsTable vars
      → find_variable (set_variable qsort name value vars) name
        ≡ some (record { name = name; value = value })
  find_variable-set name value vars t =
      let u = set_variable-IsTable name value vars t in
      find_variable-valued (set_variable qsort name value vars) name value u.sorted (u.once name)
        (set_variable-there name value vars)

  pub cmd_set-sets :
      (name v : CString) (vs : List CString) (symbols : List Variable)
      → starts_as name b'$' ≡ true
      → cmd_set qsort (name ∷ v ∷ vs) symbols
        ≡ (success, set_variable qsort name (join_args (v ∷ vs)) symbols)
  unfolding cmd_set arg
  cmd_set-sets name v vs symbols u = rw (cmd_set, two_arguments (length vs), u) refl

  cmd_set-refuses :
      (name v : CString) (vs : List CString) (symbols : List Variable)
      → starts_as name b'$' ≡ false
      → cmd_set qsort (name ∷ v ∷ vs) symbols ≡ (invalid, symbols)
  unfolding cmd_set arg
  cmd_set-refuses name v vs symbols u = rw (cmd_set, two_arguments (length vs), u) refl

  -- cmd_set keeps the list of variables sorted, longest names first, and without a name twice,
  -- whatever its arguments are.
  pub cmd_set-IsTable :
      (argv : List CString) (symbols : List Variable)
      → IsTable symbols
      → IsTable (cmd_set qsort argv symbols).1
  unfolding cmd_set checkarg
  cmd_set-IsTable [] symbols t = t
  cmd_set-IsTable (name ∷ []) symbols t = t
  cmd_set-IsTable (name ∷ v ∷ vs) symbols t = elim (Bool-cases (starts_as name b'$')) [
    | inl u ↦
        rw (cmd_set-sets name v vs symbols u)
          (set_variable-IsTable name (join_args (v ∷ vs)) symbols t)
    | inr u ↦ rw (cmd_set-refuses name v vs symbols u) t
  ]
