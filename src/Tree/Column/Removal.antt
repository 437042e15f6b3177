-- ===== src/Tree/Column/Removal.antt =====
-- column_remove_child of column.c, in a well-formed tree.
use hayward.Common.{
  ℕ, suc, ◌-◌, ◌≡◌, refl, ap, inl, inr, List, [], ◌∷◌, Option, none, some, true, false, arith,
  length, ◌==◌, ◌==?◌, if◌then◌else◌, Bool-cases, Option-cases, get_elem?,
}
use hayward.ListT.Seq.{index_of, erase_at, contains, remove}
use hayward.ListT.Members.{get_elem?-none, get_elem?-contains, contains-remove, IsNodup-remove}
use hayward.ListT.Positions.{index_of-cases}
use hayward.Tree.State.{Tree, Column, column_node, window_node, is_detached, put_column}
use hayward.Tree.Window.{tiled, window_set_dirty, window_reconcile_detached}
use hayward.Tree.Inv.{IsWellFormed}
use hayward.Tree.Links.{detach-Inv, relink-Inv}
use hayward.Tree.Column.{column_set_dirty, column_remove_child, neighbour}

nil_of_length : (xs : List ℕ) → length xs ≡ 0 → xs ≡ []
nil_of_length [] h = refl
nil_of_length (x ∷ xs) h = absurd (omega arith)

length-remove :
    (x : ℕ) (xs : List ℕ) → contains x xs ≡ true → suc (length (remove x xs)) ≡ length xs
unfolding contains remove
length-remove x [] h = cc
length-remove x (y ∷ ys) h = ground (arith, length-remove x ys)

-- The window `w` has left the column `c`, which has `next` as its active child.
pub record IsRemoved (t t' : Tree) (c w : ℕ) (next : Option ℕ) : Type 0 where
  pub well_formed : IsWellFormed t'
  pub children_now : (t'.columns c).children ≡ remove w (t.columns c).children
  pub active_now : (t'.columns c).active_child ≡ next
  pub detached : is_detached (t'.windows w) ≡ true
  pub other_columns : (b : ℕ) → (c == b) ≡ false → t'.columns b ≡ t.columns b
  pub marked : (t'.dirty (column_node c) ≡ true) × (t'.dirty (window_node w) ≡ true)

-- The column with what is left of its children, and the tree after the removal: the active child
-- was another, the only one, or one whose place `a` takes.
abbrev trimmed : Column → List ℕ → Option ℕ → Column
trimmed col l next = record col { children = l; active_child = next }

abbrev after_removal : Tree → (c w : ℕ) → List ℕ → Option ℕ → Tree
after_removal t c w l next =
    column_set_dirty (window_reconcile_detached (put_column t c (trimmed (t.columns c) l next)) w) c

abbrev after_exchange : Tree → (c w : ℕ) → List ℕ → ℕ → Tree
after_exchange t c w l a =
    column_set_dirty
      (window_reconcile_detached (tiled (put_column t c (trimmed (t.columns c) l (some a))) a c) w)
      c

module _ (t : Tree) (v : IsWellFormed t) (c w : ℕ) (here : (t.windows w).column ≡ some c) where
  module _ (l : List ℕ) (gone : l ≡ remove w (t.columns c).children) where
    left : (y : ℕ) → contains y l ≡ (if w == y then false else contains y (t.columns c).children)
    left y = rw gone (contains-remove y w (t.columns c).children (v.children_nodup c))

    alive_left : (a : ℕ) → contains a l ≡ true → (t.windows a).dead ≡ false
    alive_left a h = ground (arith, left a, v.child_column c a, v.attached_alive a)

    -- The active child was another: it stays.
    other-IsRemoved :
        ((t.columns c).active_child ==? some w) ≡ false
        → IsRemoved t
            (after_removal t c w l (t.columns c).active_child)
            c
            w
            (t.columns c).active_child
    unfolding window_reconcile_detached column_set_dirty contains
    other-IsRemoved other = record {
      well_formed =
          detach-Inv t.windows t.columns t.workspaces v c w
            (trimmed (t.columns c) l (t.columns c).active_child) _ here left
            (rw gone (IsNodup-remove w (t.columns c).children (v.children_nodup c))) refl refl refl
            (λ a e. ground (arith, left a, v.active_in c a))
            (λ e. ground (arith, v.active_some c, v.column_child c w here));
      children_now = ground arith;
      active_now = ground arith;
      detached = ground arith;
      other_columns = λ b e. ground arith;
      marked = (ground arith, ground arith);
    }

    -- It was alone: there is no active child any more.
    last-IsRemoved : l ≡ [] → IsRemoved t (after_removal t c w l none) c w none
    unfolding window_reconcile_detached column_set_dirty contains
    last-IsRemoved empty = record {
      well_formed =
          detach-Inv t.windows t.columns t.workspaces v c w (trimmed (t.columns c) l none) _ here
            left (rw gone (IsNodup-remove w (t.columns c).children (v.children_nodup c))) refl refl
            refl (λ a e. cc) (λ e. empty);
      children_now = ground arith;
      active_now = ground arith;
      detached = ground arith;
      other_columns = λ b e. ground arith;
      marked = (ground arith, ground arith);
    }

    -- Another child takes its place.
    active-IsRemoved :
        (a : ℕ) → contains a l ≡ true → IsRemoved t (after_exchange t c w l a) c w (some a)
    unfolding window_reconcile_detached column_set_dirty window_set_dirty contains
    active-IsRemoved a held =
        let a_here : (t.windows a).column ≡ some c = ground (arith, left a, v.child_column c a) in
        let apart : (w == a) ≡ false = ground (arith, left a) in
        record {
          well_formed =
              detach-Inv _ t.columns t.workspaces
                (relink-Inv t.windows t.columns t.workspaces v c a _ a_here refl (ground arith)
                  refl)
                c w (trimmed (t.columns c) l (some a)) _ (ground arith) left
                (rw gone (IsNodup-remove w (t.columns c).children (v.children_nodup c))) refl refl
                refl (λ b e. ground arith) (λ e. cc);
          children_now = ground arith;
          active_now = ground arith;
          detached = ground arith;
          other_columns = λ b e. ground arith;
          marked = (ground arith, ground arith);
        }

  module _ (i : ℕ) (found : index_of w (t.columns c).children ≡ some i) where
    run_other :
        ((t.columns c).active_child ==? some w) ≡ false
        → column_remove_child t c w
          ≡ some
              (after_removal t c w (erase_at (t.columns c).children i) (t.columns c).active_child)
    unfolding column_remove_child
    run_other h = ground arith

    run_last :
        ((t.columns c).active_child ==? some w) ≡ true
        → neighbour (erase_at (t.columns c).children i) i ≡ none
        → column_remove_child t c w
          ≡ some (after_removal t c w (erase_at (t.columns c).children i) none)
    unfolding column_remove_child
    run_last h n = ground arith

    run_active :
        (a : ℕ)
        → ((t.columns c).active_child ==? some w) ≡ true
        → neighbour (erase_at (t.columns c).children i) i ≡ some a
        → (t.windows a).dead ≡ false
        → column_remove_child t c w
          ≡ some (after_exchange t c w (erase_at (t.columns c).children i) a)
    unfolding column_remove_child
    run_active a h n alive = ground arith

  -- A child that is removed leaves the others in their order, and belongs nowhere. If it was the
  -- active one, the child before it is now, or the first if it was the first itself.
  pub column_remove_child_lem :
      (i : ℕ) × (t' : Tree) × (index_of w (t.columns c).children ≡ some i)
      × (column_remove_child t c w ≡ some t')
      × IsRemoved t t' c w (
          if (t.columns c).active_child ==? some w
          then get_elem? (remove w (t.columns c).children) (i - 1)
          else (t.columns c).active_child)
  column_remove_child_lem = elim (index_of-cases w (t.columns c).children) [
    | inl (_, _, out) ↦ absurd (ground (arith, v.column_child c w here))
    | inr (i, e, within, erased, held) ↦
        let l = erase_at (t.columns c).children i in
        let shorter = length-remove w (t.columns c).children held in
        elim (Bool-cases ((t.columns c).active_child ==? some w)) [
          | inr other ↦ (
            i,
            after_removal t c w l (t.columns c).active_child,
            e,
            run_other i e other,
            rw other (other-IsRemoved l erased other),
          )
          | inl active ↦ elim (Option-cases (neighbour l i)) [
            | inl alone ↦
                let empty : l ≡ [] =
                  nil_of_length l
                    (omega (arith, get_elem?-none l (i - 1) alone, ap length erased, shorter)) in
                (
                  i,
                  after_removal t c w l none,
                  e,
                  run_last i e active alone,
                  rw (active, ← erased, alone) (last-IsRemoved l erased empty),
                )
            | inr (a, next) ↦
                let in_rest = get_elem?-contains l (i - 1) a next in
                (
                  i,
                  after_exchange t c w l a,
                  e,
                  run_active i e a active next (alive_left l erased a in_rest),
                  rw (active, ← erased, next) (active-IsRemoved l erased a in_rest),
                )
          ]
        ]
  ]
