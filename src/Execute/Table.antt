-- ===== src/Execute/Table.antt =====
-- The list of variables that cmd_set of src/commands/set.c keeps, longest names first, and what the
-- replacement of src/config.c finds in it.
use hayward.Common.{
  ℕ, ◌≡◌, refl, sym, ◌∙◌, ap, subst, ◌≤◌, List, [], ◌∷◌, length, some, arith, inl, inr, Bool-cases,
  Bool, true, ◌&&◌, ◌==◌, ==_refl,
}
use hayward.ListT.Sort.Order.{All, filter_by, Le, IsSorted}
use hayward.Text.{CString, strcmp, starts_with, strcmp-equal}
use hayward.Execute.{Variable, find_variable, compare_set_qsort}

-- How many variables pass a test.
abbrev pub count : (Variable → Bool) → List Variable → ℕ
count p vars = length (filter_by p vars)

abbrev pub named : CString → Variable → Bool
named name var = strcmp var.name name

abbrev pub valued : CString → CString → Variable → Bool
valued name value var = strcmp var.name name && strcmp var.value value

-- What qsort of the C library promises.
pub record IsSort (qsort : List Variable → List Variable) : Type 0 where
  pub sorted : (vars : List Variable) → IsSorted compare_set_qsort (qsort vars)
  pub same_items :
      (vars : List Variable) (p : Variable → Bool) → count p (qsort vars) ≡ count p vars

pub record IsTable (vars : List Variable) : Type 0 where
  pub sorted : IsSorted compare_set_qsort vars
  pub once : (name : CString) → count (named name) vars ≤ 1

starts_with-longer :
    (s p : CString) → starts_with s p ≡ true → length s ≤ length p → strcmp p s ≡ true
unfolding starts_with strcmp
starts_with-longer [] [] h k = refl
starts_with-longer (c ∷ s) [] h k = absurd (omega (arith, k))
starts_with-longer [] (p ∷ ps) h k = ground (arith, h)
starts_with-longer (c ∷ s) (p ∷ ps) h k = elim (Bool-cases (c == p)) [
  | inl t ↦
      let r = starts_with-longer s ps (sym (rw (t, starts_with) refl) ∙ h) (omega (arith, k)) in
      ground (arith, t, r)
  | inr t ↦ ground (arith, t, h)
]

starts_with_refl : (s : CString) → starts_with s s ≡ true
unfolding starts_with
starts_with_refl [] = refl
starts_with_refl (c ∷ s) = rw (==_refl c) (starts_with_refl s)

valued-named :
    (name value : CString) (vars : List Variable)
    → count (valued name value) vars ≤ count (named name) vars
valued-named name value [] = omega arith
valued-named name value (var ∷ vars) = let r = valued-named name value vars in ground (arith, r)

-- A variable that comes later in the list has a name that is no longer.
later-length :
    (var : Variable) (vars : List Variable) (name value : CString)
    → All (Le compare_set_qsort var) vars
    → 1 ≤ count (valued name value) vars
    → length name ≤ length var.name
unfolding compare_set_qsort
later-length var [] name value h k = absurd (omega (arith, k))
later-length var (v ∷ vars) name value (h, l) k = elim (Bool-cases (strcmp v.name name)) [
  | inl t ↦
      let same : length v.name ≡ length name = ap length (strcmp-equal v.name name t) in
      ground (arith, same, h)
  | inr t ↦ later-length var vars name value l (ground (arith, t, k))
]

Variable-equal :
    (var : Variable) (name value : CString)
    → var.name ≡ name
    → var.value ≡ value
    → var ≡ record { name = name; value = value }
Variable-equal var name value h k = rw (sym h, sym k) refl

valued-equal :
    (var : Variable) (name value : CString)
    → valued name value var ≡ true
    → var ≡ record { name = name; value = value }
valued-equal var name value h =
    Variable-equal var name value (strcmp-equal var.name name (ground (arith, h)))
      (strcmp-equal var.value value (ground (arith, h)))

valued-starts :
    (var : Variable) (name value : CString)
    → valued name value var ≡ true
    → starts_with name var.name ≡ true
valued-starts var name value h =
    subst (λ x. starts_with name x ≡ true) (sym (strcmp-equal var.name name (ground (arith, h))))
      (starts_with_refl name)

-- In front of the variable that is looked for stands no other that matches.
pub find_variable-valued :
    (vars : List Variable) (name value : CString)
    → IsSorted compare_set_qsort vars
    → count (named name) vars ≤ 1
    → 1 ≤ count (valued name value) vars
    → find_variable vars name ≡ some (record { name = name; value = value })
unfolding find_variable
find_variable-valued [] name value h k l = absurd (omega (arith, l))
find_variable-valued (var ∷ vars) name value (a, h) k l =
    elim (Bool-cases (valued name value var)) [
      | inl t ↦ rw (valued-starts var name value t) (ap some (valued-equal var name value t))
      | inr t ↦ elim (Bool-cases (starts_with name var.name)) [
        | inl u ↦
            let later : 1 ≤ count (valued name value) vars = ground (arith, l, t) in
            let same =
              starts_with-longer name var.name u (later-length var vars name value a later) in
            absurd (ground (arith, k, later, same, valued-named name value vars))
        | inr u ↦
            rw (u)
              (find_variable-valued vars name value h (ground (arith, k)) (ground (arith, l, t)))
      ]
    ]
