-- ===== src/ListT/Seq.antt =====
-- What list.c promises, on plain lists: the sequence operations that every list of the tree
-- (children, columns, workspaces, floating windows) is put through.
use mathlib.Core.Option
use hayward.Common.{
  ℕ, suc, List, [], ◌∷◌, ◌++◌, Option, none, some, take, drop, Bool, true, false, ◌==◌,
  if◌then◌else◌,
}

-- The position of the first occurrence.
unfoldable pub index_of : ℕ → List ℕ → Option ℕ
index_of x [] = none
index_of x (y ∷ ys) = if y == x then some 0 else Option.map suc (index_of x ys)

module _ {ℓ} {A : Type ℓ} where
  unfoldable pub insert_at : List A → ℕ → A → List A
  insert_at xs i x = take i xs ++ x ∷ drop i xs

  unfoldable pub erase_at : List A → ℕ → List A
  erase_at xs i = take i xs ++ drop (suc i) xs

-- Without the first occurrence.
unfoldable pub remove : ℕ → List ℕ → List ℕ
remove x [] = []
remove x (y ∷ ys) = if y == x then ys else y ∷ remove x ys

unfoldable pub contains : ℕ → List ℕ → Bool
contains x [] = false
contains x (y ∷ ys) = if y == x then true else contains x ys
