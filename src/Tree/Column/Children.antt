-- ===== src/Tree/Column/Children.antt =====
-- The operations of column.c on the children of a column, in a well-formed tree.
use hayward.Common.{
  ℕ, suc, ◌≤◌, ◌≡◌, refl, inl, inr, List, [], ◌∷◌, ◌++◌, none, some, Bool, true, false, arith,
  length, ◌==◌, if◌then◌else◌, Bool-cases,
}
use hayward.ListT.Seq.{index_of, insert_at, contains}
use hayward.ListT.Members.{
  IsNodup, contains-insert_at, contains-snoc, IsNodup-insert_at, IsNodup-snoc,
}
use hayward.ListT.Positions.{index_of-cases}
use hayward.Tree.State.{Tree, column_node, window_node, is_detached, put_column}
use hayward.Tree.Window.{tiled, window_set_dirty, window_is_alive, window_reconcile_tiling}
use hayward.Tree.Inv.{IsWellFormed}
use hayward.Tree.Links.{attach-Inv, relink-Inv}
use hayward.Tree.Column.{
  adopt, column_set_dirty, column_insert_child, column_add_child, column_add_sibling,
}

-- The window `w` has become a child of `c`, whose children are `children` now.
pub record IsPlaced (t t' : Tree) (c w : ℕ) (children : List ℕ) : Type 0 where
  pub well_formed : IsWellFormed t'
  pub children_now : (t'.columns c).children ≡ children
  pub back_link : (t'.windows w).column ≡ some c
  pub other_columns : (b : ℕ) → (c == b) ≡ false → t'.columns b ≡ t.columns b
  pub marked : (t'.dirty (column_node c) ≡ true) × (t'.dirty (window_node w) ≡ true)

module _ (t : Tree) (v : IsWellFormed t) (c w : ℕ) (d : is_detached (t.windows w) ≡ true) where
  not_child : contains w (t.columns c).children ≡ false
  not_child = elim (Bool-cases (contains w (t.columns c).children)) [
    | inl h ↦ ground (arith, v.child_column c w h)
    | inr h ↦ h
  ]

  adopt_active :
      (l : List ℕ)
      → ((y : ℕ) → contains y l ≡ (if w == y then true else contains y (t.columns c).children))
      → ((a : ℕ) → (adopt (t.columns c) w l).active_child ≡ some a → contains a l ≡ true)
        × ((adopt (t.columns c) w l).active_child ≡ none → l ≡ [])
  adopt_active l members =
      (λ a h. ground (arith, members a, v.active_in c a), λ h. ground (arith, v.active_some c))

  module _ (alive : (t.windows w).dead ≡ false) where
    adopted-IsPlaced :
        (l : List ℕ)
        → ((y : ℕ) → contains y l ≡ (if w == y then true else contains y (t.columns c).children))
        → IsNodup l
        → IsPlaced t
            (column_set_dirty (tiled (put_column t c (adopt (t.columns c) w l)) w c) c)
            c
            w
            l
    unfolding column_set_dirty window_set_dirty
    adopted-IsPlaced l members nd = record {
      well_formed =
          attach-Inv t.windows t.columns t.workspaces v c w (adopt (t.columns c) w l) _ d members nd
            refl refl (ground arith) alive (adopt_active l members).0 (adopt_active l members).1;
      children_now = ground arith;
      back_link = ground arith;
      other_columns = λ b h. ground arith;
      marked = (ground arith, ground arith);
    }

    -- A window put at a position in range is there.
    pub column_insert_child_lem :
        (i : ℕ)
        → i ≤ length (t.columns c).children
        → (t' : Tree) × (column_insert_child t c w i ≡ some t')
          × IsPlaced t t' c w (insert_at (t.columns c).children i w)
    unfolding column_insert_child
    column_insert_child_lem i h =
        let l = insert_at (t.columns c).children i w in
        (
          column_set_dirty (tiled (put_column t c (adopt (t.columns c) w l)) w c) c,
          ground arith,
          adopted-IsPlaced l (λ y. contains-insert_at y w (t.columns c).children i)
              (IsNodup-insert_at w (t.columns c).children i (v.children_nodup c) not_child),
        )

    -- A window that is added comes last.
    pub column_add_child_lem :
        (t' : Tree) × (column_add_child t c w ≡ some t')
        × IsPlaced t t' c w ((t.columns c).children ++ w ∷ [])
    unfolding column_add_child
    column_add_child_lem =
        let l = (t.columns c).children ++ w ∷ [] in
        (
          column_set_dirty (tiled (put_column t c (adopt (t.columns c) w l)) w c) c,
          ground arith,
          adopted-IsPlaced l (λ y. contains-snoc y w (t.columns c).children)
              (IsNodup-snoc w (t.columns c).children (v.children_nodup c) not_child),
        )

    module _ (fixed : ℕ) (h : (t.windows fixed).column ≡ some c) (l : List ℕ) where
      abbrev beside : Tree
      beside =
          column_set_dirty
            (tiled (tiled (put_column t c (record (t.columns c) { children = l })) fixed c) w c) c

      beside-IsPlaced :
          ((y : ℕ) → contains y l ≡ (if w == y then true else contains y (t.columns c).children))
          → IsNodup l
          → IsPlaced t beside c w l
      unfolding column_set_dirty window_set_dirty contains
      beside-IsPlaced members nd = record {
        well_formed =
            attach-Inv _ t.columns t.workspaces
              (relink-Inv t.windows t.columns t.workspaces v c fixed _ h refl (ground arith) refl) c
              w (record (t.columns c) { children = l }) _ (ground arith) members nd refl refl
              (ground arith) (ground arith) (λ a e. ground (arith, members a, v.active_in c a))
              (λ e. ground (arith, v.active_some c, v.column_child c fixed h));
        children_now = ground arith;
        back_link = ground arith;
        other_columns = λ b e. ground arith;
        marked = (ground arith, ground arith);
      }

    -- A window put beside another stands right before or right after it.
    pub column_add_sibling_lem :
        (fixed : ℕ) (after : Bool)
        → (t.windows fixed).column ≡ some c
        → (i : ℕ) × (t' : Tree) × (index_of fixed (t.columns c).children ≡ some i)
          × (column_add_sibling t fixed w after ≡ some t')
          × IsPlaced t t' c w (insert_at (t.columns c).children (if after then suc i else i) w)
    unfolding window_reconcile_tiling window_is_alive column_add_sibling
    column_add_sibling_lem fixed after h = elim (index_of-cases fixed (t.columns c).children) [
      | inl (_, _, out) ↦ absurd (ground (arith, v.column_child c fixed h))
      | inr (i, e, _, _, _) ↦
          let place : ℕ = if after then suc i else i in
          let l = insert_at (t.columns c).children place w in
          (
            i,
            beside fixed h l,
            e,
            ground (arith, v.attached_alive fixed),
            beside-IsPlaced fixed h l (λ y. contains-insert_at y w (t.columns c).children place)
                (IsNodup-insert_at w (t.columns c).children place (v.children_nodup c) not_child),
          )
    ]
