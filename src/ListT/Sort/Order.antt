-- ===== src/ListT/Sort/Order.antt =====
-- Comparison functions in C's sense: what makes one a total preorder, ascending lists, and what
-- a stable sort returns.
use mathlib.Core.List.{Perm}
use hayward.Common.{◌≡◌, List, [], ◌∷◌, Bool, true, ◌&&◌, ◌⊎◌, ℤ, is_nonpos, if◌then◌else◌}

abbrev pub All {ℓ κ} : {A : Type ℓ} → (A → Type κ) → List A → Type κ
All P [] = Unit
All P (x ∷ xs) = P x × All P xs

abbrev pub filter_by {ℓ} : {A : Type ℓ} → (A → Bool) → List A → List A
filter_by p [] = []
filter_by p (x ∷ xs) = if p x then x ∷ filter_by p xs else filter_by p xs

module _ {ℓ} {A : Type ℓ} (compare : A → A → ℤ) where
  -- compare(a, b) <= 0
  abbrev pub Le : A → A → Type 0
  Le a b = is_nonpos (compare a b) ≡ true

  pub record IsPreorder : Type ℓ where
    pub total : (a b : A) → Le a b ⊎ Le b a
    pub trans : (a b c : A) → Le a b → Le b c → Le a c

  abbrev pub IsSorted : List A → Type 0
  IsSorted [] = Unit
  IsSorted (x ∷ xs) = All (Le x) xs × IsSorted xs

  -- compare is 0 or less both ways.
  abbrev pub same_key : A → A → Bool
  same_key a b = is_nonpos (compare a b) && is_nonpos (compare b a)

  -- The items of `xs` in ascending order, those of equal keys in the order that they had.
  pub record IsStableSort (xs ys : List A) : Type ℓ where
    pub sorted : IsSorted ys
    pub perm : Perm xs ys
    pub stable : (a : A) → filter_by (same_key a) ys ≡ filter_by (same_key a) xs
