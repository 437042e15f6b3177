-- ===== src/Tree/Naming.antt =====
-- src/tree/workspace.c: the order of the workspaces by name. What the C library says of a name is
-- a parameter: whether its first character is a digit, and the number that strtol reads.
use hayward.Common.{
  ◌≡◌, refl, inl, inr, Bool, true, false, ℤ, pos, negsuc, arith, ltb, ◌&&◌, if◌then◌else◌,
  Bool-cases, is_nonpos,
}
use hayward.ListT.Sort.Order.{IsPreorder}

abbrev pub less_int : ℤ → ℤ → Bool
less_int (pos a) (pos b) = ltb a b
less_int (pos a) (negsuc b) = false
less_int (negsuc a) (pos b) = true
less_int (negsuc a) (negsuc b) = ltb b a

less_int_asym : (a b : ℤ) → less_int a b ≡ true → less_int b a ≡ false
less_int_asym (pos a) (pos b) h = ground arith
less_int_asym (pos a) (negsuc b) h = ground arith
less_int_asym (negsuc a) (pos b) h = refl
less_int_asym (negsuc a) (negsuc b) h = ground arith

less_int_trans : (a b c : ℤ) → less_int b a ≡ false → less_int c b ≡ false → less_int c a ≡ false
less_int_trans (pos a) (pos b) (pos c) h k = ground arith
less_int_trans (pos a) (pos b) (negsuc c) h k = ground arith
less_int_trans (pos a) (negsuc b) c h k = ground arith
less_int_trans (negsuc a) (pos b) (pos c) h k = refl
less_int_trans (negsuc a) (pos b) (negsuc c) h k = ground arith
less_int_trans (negsuc a) (negsuc b) (pos c) h k = refl
less_int_trans (negsuc a) (negsuc b) (negsuc c) h k = ground arith

module _ {ℓ} {Name : Type ℓ} (isdigit : Name → Bool) (strtol : Name → ℤ) where
  unfoldable pub sort_workspace_cmp_qsort : Name → Name → ℤ
  sort_workspace_cmp_qsort a b =
      if isdigit a && isdigit b
      then (if less_int (strtol a) (strtol b)
          then negsuc 0
          else if less_int (strtol b) (strtol a)
          then pos 1
          else pos 0)
      else if isdigit a
      then negsuc 0
      else if isdigit b
      then pos 1
      else pos 0

  -- The comparison of workspaces is a total preorder, whatever the C library says of their names.
  pub sort_workspace_cmp_qsort-IsPreorder : IsPreorder sort_workspace_cmp_qsort
  unfolding sort_workspace_cmp_qsort
  sort_workspace_cmp_qsort-IsPreorder = record {
    total = λ a b. elim (Bool-cases (is_nonpos (sort_workspace_cmp_qsort a b))) [
      | inl h ↦ inl h
      | inr h ↦ inr (ground (arith, less_int_asym (strtol b) (strtol a)))
    ];
    trans = λ a b c h k. ground (arith, less_int_trans (strtol a) (strtol b) (strtol c));
  }
