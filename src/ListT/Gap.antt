-- ===== src/ListT/Gap.antt =====
-- The two memmove calls of list.c on a buffer in parts: opening a gap and closing one.
use mathlib.Core.Path.{ap₂}
use mathlib.Core.List.{append_assoc, append-nil}
use native.Mathlib.Nat.{zero-add}
use hayward.Common.{
  ℕ, zero, suc, ◌+◌, ◌≡◌, ap, List, [], ◌∷◌, ◌++◌, Option, arith, take, drop, set, length,
  take-append, set-append,
}
use hayward.ListT.{memmove}

module _ {ℓ} {A : Type ℓ} where
  -- Buffers in three parts, addressed by the length of the first.
  take_past :
      (us vs : List (Option A)) (n k : ℕ) → n ≡ length us + k → take n (us ++ vs) ≡ us ++ take k vs
  take_past [] vs n k h = rw (h, zero-add)
  take_past (u ∷ us) vs zero k h = absurd (omega arith)
  take_past (u ∷ us) vs (suc n) k h = ap (◌∷◌ u) (take_past us vs n k (omega arith))

  drop_past :
      (us vs : List (Option A)) (n k : ℕ) → n ≡ length us + k → drop n (us ++ vs) ≡ drop k vs
  drop_past [] vs n k h = rw (h, zero-add)
  drop_past (u ∷ us) vs zero k h = absurd (omega arith)
  drop_past (u ∷ us) vs (suc n) k h = drop_past us vs n k (omega arith)

  -- Opening a gap at `i`: memmove by one to the right, then a write into the gap.
  open_gap :
      (us : List (Option A)) (y : Option A) (ys : List (Option A)) (new : Option A) (i n : ℕ)
      → i ≡ length us
      → set (memmove (us ++ (y ∷ ys)) (i + 1) i n) i new
        ≡ us ++ (new ∷ (take n (y ∷ ys) ++ drop n ys))
  unfolding memmove
  open_gap us y ys new i n hi =
      rw
        (
          take_past us (y ∷ ys) (i + 1) 1 (omega arith),
          drop_past us (y ∷ ys) i 0 (omega arith),
          drop_past us (y ∷ ys) (i + 1 + n) (suc n) (omega arith),
          append_assoc,
        )
        (set-append us (take n (y ∷ ys) ++ drop n ys) y new i hi)

  -- Closing a gap at `i`: memmove by one to the left. The last slot keeps what it held.
  pub close_gap :
      (us vs rest : List (Option A)) (old : Option A) (i n : ℕ)
      → i ≡ length us
      → n ≡ length vs
      → memmove (us ++ (old ∷ (vs ++ rest))) i (i + 1) n ≡ us ++ (vs ++ drop n (old ∷ (vs ++ rest)))
  unfolding memmove
  close_gap us vs rest old i n hi hn = rw (
    take_past us (old ∷ (vs ++ rest)) i 0 (omega arith),
    drop_past us (old ∷ (vs ++ rest)) (i + 1) 1 (omega arith),
    drop_past us (old ∷ (vs ++ rest)) (i + n) n (omega arith),
    take-append vs rest n hn,
    append-nil,
  )

  pub open_gap_between :
      (us vs rest : List (Option A)) (o new : Option A) (i n : ℕ)
      → i ≡ length us
      → n ≡ length vs
      → set (memmove (us ++ (vs ++ (o ∷ rest))) (i + 1) i n) i new ≡ us ++ (new ∷ (vs ++ rest))
  open_gap_between us [] rest o new i n hi hn = rw hn (open_gap us o rest new i 0 hi)
  open_gap_between us (v ∷ vs) rest o new i n hi hn =
      rw (open_gap us v (vs ++ (o ∷ rest)) new i n hi) (
        ap₂ (λ a b. us ++ (new ∷ (a ++ b))) (take-append (v ∷ vs) (o ∷ rest) n hn)
          (drop_past vs (o ∷ rest) n 1 (omega arith)))
