-- ===== src/ListT/Sort/Merge.antt =====
-- The merge of two ascending lists, apart from any buffer, and what it keeps.
use mathlib.Core.List.{Perm, perm_middle, append-nil}
use mathlib.Core.List.Perm
use hayward.Common.{
  ◌≡◌, refl, inl, inr, ◌∙◌, sym, ap, List, [], ◌∷◌, ◌++◌, Bool, true, false, ◌&&◌, ℤ, is_nonpos,
  arith, Bool-cases,
}
use hayward.ListT.Sort.Order.{All, filter_by, Le, IsPreorder, IsSorted, same_key}

module _ {ℓ κ} {A : Type ℓ} (P : A → Type κ) where
  pub All-append : (xs ys : List A) → All P xs → All P ys → All P (xs ++ ys)
  All-append [] ys h k = k
  All-append (x ∷ xs) ys h k = (h.0, All-append xs ys h.1 k)

  pub All-map {μ} : (Q : A → Type μ) (f : (a : A) → P a → Q a) (xs : List A) → All P xs → All Q xs
  All-map Q f [] h = tt
  All-map Q f (x ∷ xs) h = (f x h.0, All-map Q f xs h.1)

pub filter_by-append {ℓ} :
    {A : Type ℓ} (p : A → Bool) (xs ys : List A)
    → filter_by p (xs ++ ys) ≡ filter_by p xs ++ filter_by p ys
filter_by-append p [] ys = refl
filter_by-append p (x ∷ xs) ys = elim (Bool-cases (p x)) [
  | inl e ↦ rw (e, filter_by-append p xs ys)
  | inr e ↦ rw (e, filter_by-append p xs ys)
]

pub filter_by-nil {ℓ} :
    {A : Type ℓ} (p : A → Bool) (xs : List A) → All (λ x. p x ≡ false) xs → filter_by p xs ≡ []
filter_by-nil p [] h = refl
filter_by-nil p (x ∷ xs) h = rw h.0 (filter_by-nil p xs h.1)

both : (b c : Bool) → (b && c) ≡ true → (b ≡ true) × (c ≡ true)
both b c h = ground arith

module _ {ℓ} {A : Type ℓ} (p : A → Bool) where
  step_left :
      (x : A) (zs xs ys : List A)
      → filter_by p zs ≡ filter_by p xs ++ filter_by p ys
      → filter_by p (x ∷ zs) ≡ filter_by p (x ∷ xs) ++ filter_by p ys
  step_left x zs xs ys ih = elim (Bool-cases (p x)) [
    | inl t ↦ rw (t, filter_by, ih)
    | inr t ↦ rw (t, filter_by, ih)
  ]

  step_right :
      (y : A) (zs xs ys : List A)
      → (p y ≡ true → filter_by p xs ≡ [])
      → filter_by p zs ≡ filter_by p xs ++ filter_by p ys
      → filter_by p (y ∷ zs) ≡ filter_by p xs ++ filter_by p (y ∷ ys)
  step_right y zs xs ys none_left ih = elim (Bool-cases (p y)) [
    | inl t ↦ rw (t, none_left t) (ap (◌∷◌ y) (ih ∙ ap (λ l. l ++ filter_by p ys) (none_left t)))
    | inr t ↦ rw (t, filter_by) ih
  ]

module _ {ℓ} {A : Type ℓ} (compare : A → A → ℤ) where
  -- Ties are taken from the left list.
  unfoldable pub merge : List A → List A → List A
  merge [] ys = ys
  merge (x ∷ xs) [] = x ∷ xs
  merge (x ∷ xs) (y ∷ ys) = elim (is_nonpos (compare x y)) [
    | true ↦ x ∷ merge xs (y ∷ ys)
    | false ↦ y ∷ merge (x ∷ xs) ys
  ]

  merge-All {κ} : (P : A → Type κ) (xs ys : List A) → All P xs → All P ys → All P (merge xs ys)
  unfolding merge
  merge-All P [] ys h k = k
  merge-All P (x ∷ xs) [] h k = h
  merge-All P (x ∷ xs) (y ∷ ys) h k = elim (Bool-cases (is_nonpos (compare x y))) [
    | inl e ↦ rw (e, merge) (h.0, merge-All P xs (y ∷ ys) h.1 k)
    | inr e ↦ rw (e, merge) (k.0, merge-All P (x ∷ xs) ys h k.1)
  ]

  pub merge-perm : (xs ys : List A) → Perm (xs ++ ys) (merge xs ys)
  unfolding merge
  merge-perm [] ys = Perm.refl ys
  merge-perm (x ∷ xs) [] = rw append-nil (Perm.refl (x ∷ xs))
  merge-perm (x ∷ xs) (y ∷ ys) = elim (Bool-cases (is_nonpos (compare x y))) [
    | inl e ↦ rw (e, merge) (Perm.cons x (merge-perm xs (y ∷ ys)))
    | inr e ↦
        rw (e, merge) (Perm.trans (perm_middle (x ∷ xs) ys) (Perm.cons y (merge-perm (x ∷ xs) ys)))
  ]

  module _ (o : IsPreorder compare) where
    above : (x y : A) → is_nonpos (compare x y) ≡ false → Le compare y x
    above x y e = elim (o.total x y) [ inl h ↦ cc | inr h ↦ h ]

    pub merge-IsSorted :
        (xs ys : List A)
        → IsSorted compare xs
        → IsSorted compare ys
        → IsSorted compare (merge xs ys)
    unfolding merge
    merge-IsSorted [] ys h k = k
    merge-IsSorted (x ∷ xs) [] h k = h
    merge-IsSorted (x ∷ xs) (y ∷ ys) h k = elim (Bool-cases (is_nonpos (compare x y))) [
      | inl e ↦
          rw (e, merge)
            (
              merge-All (Le compare x) xs (y ∷ ys) h.0
                  (e, All-map _ _ (λ z l. o.trans x y z e l) ys k.0),
              merge-IsSorted xs (y ∷ ys) h.1 k,
            )
      | inr e ↦
          rw (e, merge)
            (
              merge-All (Le compare y) (x ∷ xs) ys
                  (above x y e, All-map _ _ (λ z l. o.trans y x z (above x y e) l) xs h.0) k.0,
              merge-IsSorted (x ∷ xs) ys h k.1,
            )
    ]

    refl_of : (x : A) → Le compare x x
    refl_of x = elim (o.total x x) [ inl h ↦ h | inr h ↦ h ]

    -- An item above `y` is not of a key that `y` is of.
    other_key :
        (a x y z : A)
        → is_nonpos (compare x y) ≡ false
        → same_key compare a y ≡ true
        → Le compare x z
        → same_key compare a z ≡ false
    other_key a x y z e s l = elim (Bool-cases (same_key compare a z)) [
      | inl t ↦
          let below : Le compare z y = o.trans z a y (both _ _ t).1 (both _ _ s).0 in
          cc (o.trans x z y l below)
      | inr t ↦ t
    ]

    pub merge-stable :
        (a : A) (xs ys : List A)
        → IsSorted compare xs
        → filter_by (same_key compare a) (merge xs ys)
          ≡ filter_by (same_key compare a) xs ++ filter_by (same_key compare a) ys
    unfolding merge
    merge-stable a [] ys h = refl
    merge-stable a (x ∷ xs) [] h = sym (append-nil _)
    merge-stable a (x ∷ xs) (y ∷ ys) h = elim (Bool-cases (is_nonpos (compare x y))) [
      | inl e ↦
          rw (e, merge)
            (step_left (same_key compare a) x _ xs (y ∷ ys) (merge-stable a xs (y ∷ ys) h.1))
      | inr e ↦
          rw (e, merge)
            (step_right (same_key compare a) y _ (x ∷ xs) ys
              (λ s. filter_by-nil _ (x ∷ xs) (
                other_key a x y x e s (refl_of x),
                All-map _ _ (λ z. other_key a x y z e s) xs h.0,
              ))
              (merge-stable a (x ∷ xs) ys h))
    ]
