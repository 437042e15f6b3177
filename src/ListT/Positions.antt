-- ===== src/ListT/Positions.antt =====
-- How the sequence operations on positions and on items fit together.
use hayward.Common.{
  ℕ, suc, ◌<◌, ◌≡◌, refl, ap, ◌⊎◌, inl, inr, List, [], ◌∷◌, none, some, true, false, arith, length,
  ◌==◌, Bool-cases,
}
use hayward.ListT.Seq.{index_of, erase_at, remove, contains}

-- An item is at its position, or it has none.
pub index_of-cases :
    (x : ℕ) (xs : List ℕ)
    → ((index_of x xs ≡ none) × (remove x xs ≡ xs) × (contains x xs ≡ false))
      ⊎ ((i : ℕ) × (index_of x xs ≡ some i)
          × (i < length xs)
          × (erase_at xs i ≡ remove x xs)
          × (contains x xs ≡ true))
unfolding index_of remove contains erase_at
index_of-cases x [] = inl (refl, refl, refl)
index_of-cases x (y ∷ ys) = elim (Bool-cases (y == x)) [
  | inl e ↦ inr (0, rw e, omega arith, rw e, rw e)
  | inr e ↦ elim (index_of-cases x ys) [
    | inl (n, r, c) ↦ inl (rw (e, n), rw e (ap (◌∷◌ y) r), rw e c)
    | inr (i, s, l, r, c) ↦ inr (suc i, rw (e, s), omega arith, rw e (ap (◌∷◌ y) r), rw e c)
  ]
]
