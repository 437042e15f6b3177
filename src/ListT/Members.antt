-- ===== src/ListT/Members.antt =====
-- Which items a sequence operation leaves in a list, and that it makes no item occur twice.
use hayward.Common.{
  length, none, ◌≤◌, zero, suc, some, get_elem?, ℕ, ◌≡◌, refl, ◌∙◌, ap, List, [], ◌∷◌, ◌++◌, true,
  false, ◌||◌, arith, take, drop, ◌==◌, if◌then◌else◌, take-append-drop,
}
use hayward.ListT.Seq.{insert_at, remove, contains}

-- No item occurs twice.
abbrev pub IsNodup : List ℕ → Type 0
IsNodup [] = Unit
IsNodup (x ∷ xs) = (contains x xs ≡ false) × IsNodup xs

pub contains-append :
    (y : ℕ) (xs ys : List ℕ) → contains y (xs ++ ys) ≡ (contains y xs || contains y ys)
unfolding contains
contains-append y [] ys = refl
contains-append y (x ∷ xs) ys = ground (arith, contains-append y xs ys)

contains-middle :
    (y x : ℕ) (xs ys : List ℕ)
    → contains y (xs ++ (x ∷ ys)) ≡ (if x == y then true else contains y (xs ++ ys))
unfolding contains
contains-middle y x xs ys = ground (arith, contains-append y xs (x ∷ ys), contains-append y xs ys)

pub contains-insert_at :
    (y x : ℕ) (xs : List ℕ) (i : ℕ)
    → contains y (insert_at xs i x) ≡ (if x == y then true else contains y xs)
unfolding insert_at
contains-insert_at y x xs i =
    contains-middle y x (take i xs) (drop i xs)
    ∙ ap (λ l. if x == y then true else contains y l) (take-append-drop i xs)

pub contains-snoc :
    (y x : ℕ) (xs : List ℕ) → contains y (xs ++ x ∷ []) ≡ (if x == y then true else contains y xs)
unfolding contains
contains-snoc y x [] = refl
contains-snoc y x (z ∷ xs) = ground (arith, contains-snoc y x xs)

IsNodup-middle :
    (x : ℕ) (xs ys : List ℕ)
    → IsNodup (xs ++ ys)
    → contains x (xs ++ ys) ≡ false
    → IsNodup (xs ++ (x ∷ ys))
unfolding contains
IsNodup-middle x [] ys h c = (c, h)
IsNodup-middle x (z ∷ xs) ys h c =
    (ground (arith, contains-middle z x xs ys), IsNodup-middle x xs ys h.1 (ground arith))

pub IsNodup-insert_at :
    (x : ℕ) (xs : List ℕ) (i : ℕ) → IsNodup xs → contains x xs ≡ false → IsNodup (insert_at xs i x)
unfolding insert_at
IsNodup-insert_at x xs i h c =
    IsNodup-middle x (take i xs) (drop i xs) (rw take-append-drop h) (rw take-append-drop c)

pub IsNodup-snoc :
    (x : ℕ) (xs : List ℕ) → IsNodup xs → contains x xs ≡ false → IsNodup (xs ++ x ∷ [])
unfolding contains
IsNodup-snoc x [] h c = (refl, tt)
IsNodup-snoc x (z ∷ xs) h c =
    (ground (arith, contains-snoc z x xs), IsNodup-snoc x xs h.1 (ground arith))

pub contains-remove :
    (y x : ℕ) (xs : List ℕ)
    → IsNodup xs
    → contains y (remove x xs) ≡ (if x == y then false else contains y xs)
unfolding contains remove
contains-remove y x [] h = ground arith
contains-remove y x (z ∷ xs) h = ground (arith, contains-remove y x xs h.1, h.0)

pub IsNodup-remove : (x : ℕ) (xs : List ℕ) → IsNodup xs → IsNodup (remove x xs)
unfolding remove
IsNodup-remove x [] h = tt
IsNodup-remove x (z ∷ xs) h =
    ground (arith, IsNodup-remove x xs h.1, contains-remove z x xs h.1, h.0)

-- An item that a position of a list holds is in the list.
pub get_elem?-contains : (xs : List ℕ) (i a : ℕ) → get_elem? xs i ≡ some a → contains a xs ≡ true
unfolding contains
get_elem?-contains [] i a h = ground arith
get_elem?-contains (x ∷ xs) zero a h = ground arith
get_elem?-contains (x ∷ xs) (suc i) a h = ground (arith, get_elem?-contains xs i a h)

pub get_elem?-none : (xs : List ℕ) (i : ℕ) → get_elem? xs i ≡ none → length xs ≤ i
get_elem?-none [] i h = omega arith
get_elem?-none (x ∷ xs) zero h = cc
get_elem?-none (x ∷ xs) (suc i) h = omega (arith, get_elem?-none xs i h)
