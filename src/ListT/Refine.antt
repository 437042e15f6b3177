-- ===== src/ListT/Refine.antt =====
-- list.c keeps its promises: each operation on the buffer does to the contents what the sequence
-- operation of the same purpose does.
use mathlib.Core.List.{append_assoc, map-append, append-nil}
use hayward.Common.{
  ℕ, zero, suc, ◌+◌, ◌-◌, ◌≤◌, ◌<◌, ◌≡◌, refl, sym, ◌∙◌, List, [], ◌∷◌, ◌++◌, map, Option, none,
  some, false, arith, take, drop, length, replicate, length-append, length-replicate, length-map,
  set-append, take-append-drop, length-take, length-drop, ==_iff, ◌==◌,
}
use hayward.ListT.Gap.{open_gap_between, close_gap}
use hayward.ListT.{ListT, create_list, list_resize, list_add, list_insert, list_del}
use hayward.ListT.Seq.{insert_at, erase_at}

-- The first `length` slots hold the items, and the buffer has `capacity` slots.
pub record Represents {ℓ} {A : Type ℓ} (l : ListT A) (xs : List A) : Type ℓ where
  pub rest : List (Option A)
  pub filled : l.items ≡ map some xs ++ rest
  pub counted : l.length ≡ length xs
  pub sized : l.capacity ≡ length xs + length rest
  pub roomy : 0 < l.capacity

-- The same with a slot to spare.
record HasRoom {ℓ} {A : Type ℓ} (l : ListT A) (xs : List A) : Type ℓ where
  spare : Option A
  others : List (Option A)
  filled : l.items ≡ map some xs ++ spare ∷ others
  counted : l.length ≡ length xs
  sized : l.capacity ≡ length xs + suc (length others)

module _ {ℓ} {A : Type ℓ} where
  pub create_list-Represents : Represents {A = A} create_list []
  unfolding create_list
  create_list-Represents = record {
    rest = replicate 10 none;
    filled = refl;
    counted = refl;
    sized = refl;
    roomy = omega arith;
  }

  map_snoc :
      (xs : List A) (x : A) (rest : List (Option A))
      → map some (xs ++ x ∷ []) ++ rest ≡ map some xs ++ some x ∷ rest
  map_snoc xs x rest = rw (map-append, append_assoc)

  grown-HasRoom :
      (l : ListT A) (xs : List A) (n : ℕ)
      → l.items ≡ map some xs ++ []
      → l.length ≡ length xs
      → l.capacity ≡ suc n
      → l.length ≡ l.capacity
      → HasRoom (list_resize l) xs
  unfolding list_resize
  grown-HasRoom l xs n filled counted sized full =
      rw ((==_iff l.length l.capacity).1 full, list_resize)
        (record {
          spare = none;
          others = replicate n none;
          filled = rw (filled, sized, append-nil);
          counted = counted;
          sized = omega (arith, length-replicate {ℓ} {A = Option A} n none);
        })

  spare-HasRoom :
      (l : ListT A) (xs : List A) (rest : List (Option A)) (n : ℕ)
      → l.items ≡ map some xs ++ rest
      → l.length ≡ length xs
      → l.capacity ≡ length xs + length rest
      → l.capacity ≡ suc n
      → HasRoom (list_resize l) xs
  unfolding list_resize
  spare-HasRoom l xs [] n filled counted sized cap =
      grown-HasRoom l xs n filled counted cap (omega arith)
  spare-HasRoom l xs (o ∷ rest) n filled counted sized cap =
      let free : (l.length == l.capacity) ≡ false = ground arith in
      rw (free, list_resize)
        (record { spare = o; others = rest; filled = filled; counted = counted; sized = sized })

  resize-HasRoom : (l : ListT A) (xs : List A) → Represents l xs → HasRoom (list_resize l) xs
  resize-HasRoom l xs r =
      spare-HasRoom l xs r.rest (l.capacity - 1) r.filled r.counted r.sized (omega (arith, r.roomy))

  -- Appending an item to the array appends it to the contents.
  pub list_add-Represents :
      (l : ListT A) (xs : List A) (x : A)
      → Represents l xs
      → Represents (list_add l x) (xs ++ x ∷ [])
  unfolding list_add
  list_add-Represents l xs x r =
      let h = resize-HasRoom l xs r in
      record {
        rest = h.others;
        filled = rw h.filled (
            set-append (map some xs) h.others h.spare (some x) _
              (h.counted ∙ sym (length-map some xs))
            ∙ sym (map_snoc xs x h.others));
        counted = omega (arith, h.counted, length-append xs (x ∷ []));
        sized = omega (arith, h.sized, length-append xs (x ∷ []));
        roomy = omega (arith, h.sized);
      }

  map_split :
      (pre post : List A) (tail : List (Option A))
      → map some (pre ++ post) ++ tail ≡ map some pre ++ (map some post ++ tail)
  map_split pre post tail = rw (map-append, append_assoc)

  insert_between :
      (l : ListT A) (pre post : List A) (x : A) (i : ℕ)
      → i ≡ length pre
      → Represents l (pre ++ post)
      → Represents (list_insert l i x) (pre ++ (x ∷ post))
  unfolding list_insert
  insert_between l pre post x i hi r =
      let h = resize-HasRoom l (pre ++ post) r in
      record {
        rest = h.others;
        filled =
            rw (h.filled, map_split pre post (h.spare ∷ h.others))
              (open_gap_between (map some pre) (map some post) h.others h.spare (some x) i _
                  (omega (arith, length-map {ℓ, ℓ} some pre))
                  (omega (arith, h.counted, length-append pre post, length-map some post))
                ∙ sym (map_split pre (x ∷ post) h.others));
        counted = omega (arith, h.counted, length-append pre post, length-append pre (x ∷ post));
        sized = omega (arith, h.sized, length-append pre post, length-append pre (x ∷ post));
        roomy = omega (arith, h.sized);
      }

  delete_between :
      (l : ListT A) (pre post : List A) (x : A) (i : ℕ)
      → i ≡ length pre
      → Represents l (pre ++ (x ∷ post))
      → Represents (list_del l i) (pre ++ post)
  unfolding list_del
  delete_between l pre post x i hi r = record {
    rest = drop (l.length - 1 - i) (some x ∷ (map some post ++ r.rest));
    filled =
        rw (r.filled, map_split pre (x ∷ post) r.rest)
          (close_gap (map some pre) (map some post) r.rest (some x) i _
              (omega (arith, length-map some pre))
              (omega (arith, r.counted, length-append pre (x ∷ post), length-map some post))
            ∙ sym (map_split pre post _));
    counted = omega (arith, r.counted, length-append pre post, length-append pre (x ∷ post));
    sized = omega (
      arith,
      r.sized,
      r.counted,
      length-append pre post,
      length-append pre (x ∷ post),
      length-drop (l.length - 1 - i) (some x ∷ (map some post ++ r.rest)),
      length-append (map some post) r.rest,
      length-map some post,
    );
    roomy = r.roomy;
  }

  -- Inserting at a position up to the length moves the items from there on by one.
  pub list_insert-Represents :
      (l : ListT A) (xs : List A) (i : ℕ) (x : A)
      → Represents l xs
      → i ≤ length xs
      → Represents (list_insert l i x) (insert_at xs i x)
  unfolding insert_at
  list_insert-Represents l xs i x r h =
      insert_between l (take i xs) (drop i xs) x i (omega (arith, length-take i xs))
        (rw take-append-drop r)

  drop-suc : (xs : List A) (i : ℕ) → i < length xs → (x : A) × (drop i xs ≡ x ∷ drop (suc i) xs)
  drop-suc [] i h = absurd (omega arith)
  drop-suc (x ∷ xs) zero h = (x, refl)
  drop-suc (x ∷ xs) (suc i) h = drop-suc xs i (omega arith)

  -- Deleting a position in range drops that item and keeps the others in order.
  pub list_del-Represents :
      (l : ListT A) (xs : List A) (i : ℕ)
      → Represents l xs
      → i < length xs
      → Represents (list_del l i) (erase_at xs i)
  unfolding erase_at
  list_del-Represents l xs i r h =
      let (x, e) = drop-suc xs i h in
      delete_between l (take i xs) (drop (suc i) xs) x i (omega (arith, length-take i xs))
        (rw (← e, take-append-drop) r)
