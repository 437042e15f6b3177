-- ===== src/Tree/Window.antt =====
-- src/tree/window.c: the back links of a window and the tests on them.
use hayward.Common.{ℕ, [], ◌∷◌, Option, none, some, Bool, true, false, not, ◌||◌, if◌then◌else◌}
use hayward.Tree.State.{Tree, Window, window_node, put_window, set_dirty, ◌>>◌, assert, is_null}

unfoldable pub window_set_dirty : Tree → ℕ → Tree
unfolding set_dirty
window_set_dirty t w = set_dirty t (window_node w)

unfoldable pub window_is_alive : Tree → ℕ → Bool
window_is_alive t w = not (t.windows w).dead

unfoldable pub window_is_floating : Tree → ℕ → Bool
window_is_floating t w =
    if is_null (t.windows w).workspace then false else is_null (t.windows w).column

unfoldable pub window_is_tiling : Tree → ℕ → Bool
window_is_tiling t w = not (is_null (t.windows w).column)

unfoldable pub window_is_fullscreen : Tree → ℕ → Bool
window_is_fullscreen t w = (t.windows w).fullscreen

-- A window whose back links say that it floats in `ws` and that has a size, and one whose links say that it is in `c`
-- and where `c` is.
abbrev pub floated : Tree → (window workspace : ℕ) → Tree
floated t w ws =
    window_set_dirty
      (put_window t w
        (record (t.windows w) { workspace = some ws; column = none; is_sized = true }))
      w

abbrev pub tiled : Tree → (window column : ℕ) → Tree
tiled t w c =
    window_set_dirty
      (put_window t w (record (t.windows w) {
        workspace = (t.columns c).workspace;
        column = some c;
        output_history = (t.columns c).output ∷ [];
        output = (t.columns c).output;
      }))
      w

-- The default size, which is positive in both directions, is computed from the box of the output of
-- the window: NULL is dereferenced where the window has no size yet.
abbrev pub can_float : Window → Bool
can_float w = w.is_sized || not (is_null w.output)

-- The numbers of the size and the position are left out.
unfoldable pub window_reconcile_floating : Tree → (window workspace : ℕ) → Option Tree
unfolding window_is_alive window_set_dirty
window_reconcile_floating t w ws = do
  assert (window_is_alive t w)
  assert (can_float (t.windows w))
  some (floated t w ws)

unfoldable pub window_reconcile_tiling : Tree → (window column : ℕ) → Option Tree
unfolding window_is_alive window_set_dirty
window_reconcile_tiling t w c = do assert (window_is_alive t w); some (tiled t w c)

unfoldable pub window_reconcile_detached : Tree → ℕ → Tree
unfolding window_set_dirty
window_reconcile_detached t w =
    window_set_dirty (put_window t w (record (t.windows w) { workspace = none; column = none })) w
