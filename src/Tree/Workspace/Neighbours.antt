-- ===== src/Tree/Workspace/Neighbours.antt =====
-- workspace_get_column_before and workspace_get_column_after of workspace.c undo each other.
use hayward.Common.{
  ℕ, zero, suc, ◌+◌, ◌-◌, ◌≤◌, ◌<◌, ◌≡◌, refl, sym, ap, ◌∙◌, inl, inr, List, [], ◌∷◌, Option, none,
  some, Bool, true, false, arith, length, drop, ◌==◌, ◌==?◌, Bool-cases, Option-cases, get_elem?,
}
use hayward.ListT.Seq.{index_of, contains}
use hayward.ListT.Members.{IsNodup, get_elem?-contains}
use hayward.Tree.State.{Tree}
use hayward.Tree.Column.{find_in}
use hayward.Tree.Workspace.{
  find_down, position_down, on_output, workspace_get_column_after, workspace_get_column_before,
}

index_of-get_elem? :
    (x : ℕ) (xs : List ℕ) (i : ℕ) → index_of x xs ≡ some i → get_elem? xs i ≡ some x
unfolding index_of
index_of-get_elem? x [] i h = ground arith
index_of-get_elem? x (y ∷ ys) zero h = elim (Option-cases (index_of x ys)) [
  | inl n ↦ ground arith
  | inr (j, e) ↦ ground arith
]
index_of-get_elem? x (y ∷ ys) (suc i) h = ground (arith, index_of-get_elem? x ys i)

the_sum : (m n : ℕ) → suc (m + n) ≡ suc m + n
the_sum m n = omega arith

the_rest : (i k : ℕ) → i < k → suc i + (k - suc i) ≡ k
the_rest i k h = omega arith

get_elem?-drop : (m : ℕ) (xs : List ℕ) (n : ℕ) → get_elem? (drop m xs) n ≡ get_elem? xs (m + n)
get_elem?-drop zero xs n = ap (get_elem? xs) (omega arith)
get_elem?-drop (suc m) [] n = refl
get_elem?-drop (suc m) (x ∷ xs) n = get_elem?-drop m xs n ∙ ap (get_elem? (x ∷ xs)) (the_sum m n)

-- No item is at two positions.
nodup_positions :
    (xs : List ℕ) (i k d : ℕ)
    → IsNodup xs
    → get_elem? xs i ≡ some d
    → get_elem? xs k ≡ some d
    → i ≡ k
unfolding contains
nodup_positions [] i k d nd a b = ground arith
nodup_positions (x ∷ xs) zero zero d nd a b = refl
nodup_positions (x ∷ xs) zero (suc k) d nd a b = ground (arith, get_elem?-contains xs k d b)
nodup_positions (x ∷ xs) (suc i) zero d nd a b = ground (arith, get_elem?-contains xs i d a)
nodup_positions (x ∷ xs) (suc i) (suc k) d nd a b = ap suc (nodup_positions xs i k d nd.1 a b)

later_fails :
    (test : ℕ → Bool) (x : ℕ) (xs : List ℕ) (n : ℕ)
    → test x ≡ false
    → ((k y : ℕ) → k < n → get_elem? xs k ≡ some y → test y ≡ false)
    → (k y : ℕ) → k < suc n
    → get_elem? (x ∷ xs) k ≡ some y
    → test y ≡ false
later_fails test x xs n e before zero y l g = ground arith
later_fails test x xs n e before (suc k) y l g = before k y (omega arith) g

-- The upward search stops at the first item that passes.
find_in-first :
    (test : ℕ → Bool) (xs : List ℕ) (d : ℕ)
    → find_in test xs ≡ some d
    → (n : ℕ) × (get_elem? xs n ≡ some d)
      × (test d ≡ true)
      × ((k y : ℕ) → k < n → get_elem? xs k ≡ some y → test y ≡ false)
unfolding find_in
find_in-first test [] d h = ground arith
find_in-first test (x ∷ xs) d h = elim (Bool-cases (test x)) [
  | inl e ↦ (0, ground arith, ground arith, λ k y l g. absurd (omega arith))
  | inr e ↦
      let (n, there, passes, before) = find_in-first test xs d (ground arith) in
      (suc n, there, passes, later_fails test x xs n e before)
]

get_elem?-some : (xs : List ℕ) (m : ℕ) → m < length xs → (y : ℕ) × (get_elem? xs m ≡ some y)
get_elem?-some [] m l = absurd (omega arith)
get_elem?-some (x ∷ xs) zero l = (x, refl)
get_elem?-some (x ∷ xs) (suc m) l = get_elem?-some xs m (omega arith)

get_elem?-within : (xs : List ℕ) (m y : ℕ) → get_elem? xs m ≡ some y → m < length xs
get_elem?-within [] m y h = ground arith
get_elem?-within (x ∷ xs) zero y h = omega arith
get_elem?-within (x ∷ xs) (suc m) y h = omega (arith, get_elem?-within xs m y h)

-- Counting down past items that fail the test reaches the one that passes.
find_down-reaches :
    (test : ℕ → Bool) (xs : List ℕ) (i c m : ℕ)
    → get_elem? xs i ≡ some c
    → test c ≡ true
    → i < m
    → m ≤ length xs
    → ((k y : ℕ) → i < k → k < m → get_elem? xs k ≡ some y → test y ≡ false)
    → find_down test xs m ≡ some c
unfolding find_down
find_down-reaches test xs i c zero at passes lt l between = absurd (omega arith)
find_down-reaches test xs i c (suc m) at passes lt l between = elim (Bool-cases (m == i)) [
  | inl e ↦ ground arith
  | inr e ↦
      let (y, g) = get_elem?-some xs m (omega arith) in
      let fails = between m y (ground arith) (omega arith) g in
      let below =
        find_down-reaches test xs i c m at passes (ground arith) (omega arith)
          (λ k z a b. between k z a (omega arith)) in
      ground (arith, fails, below, g)
]

position_down-reaches :
    (d : ℕ) (xs : List ℕ) (i m : ℕ)
    → IsNodup xs
    → get_elem? xs i ≡ some d
    → i < m
    → m ≤ length xs
    → position_down d xs m ≡ some i
unfolding position_down
position_down-reaches d xs i zero nd at lt l = absurd (omega arith)
position_down-reaches d xs i (suc m) nd at lt l = elim (Bool-cases (m == i)) [
  | inl e ↦ ground arith
  | inr e ↦
      let (y, g) = get_elem?-some xs m (omega arith) in
      let below = position_down-reaches d xs i m nd at (ground arith) (omega arith) in
      ground (arith, below, g, nodup_positions xs i m d nd at)
]

same_output : (a b : Option ℕ) → (a ==? b) ≡ true → a ≡ b
same_output none none h = refl
same_output none (some b) h = ground arith
same_output (some a) none h = ground arith
same_output (some a) (some b) h = ground arith

same_output_refl : (a : Option ℕ) → (a ==? a) ≡ true
same_output_refl none = refl
same_output_refl (some a) = ground arith

module _ (t : Tree) (s c d : ℕ) (nd : IsNodup (t.workspaces s).columns) where
  abbrev columns : List ℕ
  columns = (t.workspaces s).columns

  before_run :
      (i n : ℕ)
      → (t.columns d).workspace ≡ some s
      → get_elem? columns i ≡ some c
      → get_elem? (drop (suc i) columns) n ≡ some d
      → on_output t (t.columns c).output d ≡ true
      → ((k y : ℕ)
          → k < n
          → get_elem? (drop (suc i) columns) k ≡ some y
          → on_output t (t.columns c).output y ≡ false)
      → workspace_get_column_before t s d ≡ some (some c)
  unfolding workspace_get_column_before
  before_run i n here at there passes before =
      let m = suc i + n in
      let there' : get_elem? columns m ≡ some d = sym (get_elem?-drop (suc i) columns n) ∙ there in
      let within = get_elem?-within columns m d there' in
      let place =
        position_down-reaches d columns m (length columns) nd there' within (omega arith) in
      let down =
        find_down-reaches (on_output t (t.columns c).output) columns i c m at
          (same_output_refl (t.columns c).output) (omega arith) (omega (arith, within))
          (λ k y a b g. before (k - suc i) y (omega arith) (
            get_elem?-drop (suc i) columns (k - suc i)
            ∙ ap (get_elem? columns) (the_rest i k a)
            ∙ g)) in
      let same = same_output (t.columns d).output (t.columns c).output passes in
      rw (place, same) (ground (arith, down))

  -- If one column is the next on its output after another, the other is the previous on its
  -- output before it, if no column is listed twice.
  pub workspace_get_column_before-after :
      (t.columns d).workspace ≡ some s
      → workspace_get_column_after t s c ≡ some (some d)
      → workspace_get_column_before t s d ≡ some (some c)
  unfolding workspace_get_column_after
  workspace_get_column_before-after here h = elim (Option-cases (index_of c columns)) [
    | inl n ↦ absurd (ground arith)
    | inr (i, e) ↦
        let (n, there, passes, before) =
          find_in-first (on_output t (t.columns c).output) (drop (suc i) columns) d
            (ground arith) in
        before_run i n here (index_of-get_elem? c columns i e) there passes before
  ]
