-- ===== src/Tree/Lifecycle/Successor.antt =====
-- Which column becomes the active one when column_consider_destroy of column.c removes it.
use hayward.Common.{
  ℕ, zero, suc, ◌+◌, ◌≤◌, ◌≡◌, refl, List, [], ◌∷◌, Option, none, some, Bool, true, false, arith,
  take, drop, if◌then◌else◌, inl, inr, ◌≢◌, ◌∙◌, ◌==?◌, Option-cases,
}
use hayward.Tree.Column.{find_in, column_set_dirty}
use hayward.Tree.Lifecycle.{
  next_active, replace_active, workspace_consider_destroy, column_consider_destroy, destroy_column,
}
use hayward.Tree.Lifecycle.Kept.{
  IsKept, kept-IsWellFormed, IsKept-after, workspace_consider_destroy-IsKept, replace_active-IsKept,
  replace_active_lem, workspace_consider_destroy_same,
}
use hayward.ListT.Seq.{index_of, erase_at, remove, contains}
use hayward.ListT.Positions.{index_of-cases}
use hayward.Tree.State.{Tree, put_workspace}
use hayward.Tree.Inv.{IsWellFormed}
use hayward.Tree.Workspace.{on_output, workspace_set_dirty}

-- The last item that passes, or `next` if none does.
unfoldable pub last_from : (ℕ → Bool) → Option ℕ → List ℕ → Option ℕ
last_from same next [] = next
last_from same next (c ∷ cs) = if same c then last_from same (some c) cs else last_from same next cs

abbrev pub or_later : Option ℕ → Option ℕ → Option ℕ
or_later none later = later
or_later (some c) later = some c

past_some :
    (same : ℕ → Bool) (index pos n : ℕ) (cs : List ℕ)
    → index ≤ pos
    → next_active same index pos (some n) cs ≡ some n
unfolding next_active
past_some same index pos n [] h = refl
past_some same index pos n (c ∷ cs) h = ground (arith, past_some same index (suc pos) n cs)

past_none :
    (same : ℕ → Bool) (index pos : ℕ) (cs : List ℕ)
    → index ≤ pos
    → next_active same index pos none cs ≡ find_in same cs
unfolding next_active find_in
past_none same index pos [] h = refl
past_none same index pos (c ∷ cs) h =
    ground (arith, past_some same index (suc pos) c cs, past_none same index (suc pos) cs)

past_lem :
    (same : ℕ → Bool) (index pos : ℕ) (next : Option ℕ) (cs : List ℕ)
    → index ≤ pos
    → next_active same index pos next cs ≡ or_later next (find_in same cs)
past_lem same index pos none cs h = past_none same index pos cs h
past_lem same index pos (some n) cs h = past_some same index pos n cs h

walk_lem :
    (same : ℕ → Bool) (index pos k : ℕ) (next : Option ℕ) (cs : List ℕ)
    → index ≡ pos + k
    → next_active same index pos next cs
      ≡ or_later (last_from same next (take k cs)) (find_in same (drop k cs))
unfolding last_from next_active find_in
walk_lem same index pos zero next cs h = past_lem same index pos next cs (omega arith)
walk_lem same index pos (suc k) none [] h = refl
walk_lem same index pos (suc k) (some n) [] h = refl
walk_lem same index pos (suc k) none (c ∷ cs) h =
    ground
      (arith, walk_lem same index (suc pos) k (some c) cs, walk_lem same index (suc pos) k none cs)
walk_lem same index pos (suc k) (some n) (c ∷ cs) h = ground (
  arith,
  walk_lem same index (suc pos) k (some c) cs,
  walk_lem same index (suc pos) k (some n) cs,
)

-- The successor is the last column on the same output in front of the position of the one that is
-- gone, or the first one after it if there is none in front.
pub next_active_lem :
    (same : ℕ → Bool) (index : ℕ) (cs : List ℕ)
    → next_active same index 0 none cs
      ≡ or_later (last_from same none (take index cs)) (find_in same (drop index cs))
next_active_lem same index cs = walk_lem same index 0 index none cs (omega arith)

-- The empty column `c` is off its workspace, in which `next` is the active column.
pub record IsGone (t t' : Tree) (s c : ℕ) (next : Option ℕ) : Type 0 where
  pub well_formed : IsWellFormed t'
  pub columns_now : (t'.workspaces s).columns ≡ remove c (t.workspaces s).columns
  pub active_now :
      (t'.workspaces s).active_column
      ≡ (if (t.workspaces s).active_column ==? some c then next else (t.workspaces s).active_column)
  pub same_windows : t'.windows ≡ t.windows

module _ (t : Tree) (v : IsWellFormed t) (s c : ℕ) (alive : (t.columns c).dead ≡ false)
    (empty : (t.columns c).children ≡ []) (here : (t.columns c).workspace ≡ some s)
    (shown : (t.columns c).output ≢ none)
    (listed : contains c (t.workspaces s).columns ≡ true) where
  abbrev gone : Tree
  gone = put_workspace t s (record (t.workspaces s) { columns = remove c (t.workspaces s).columns })

  gone-IsKept : IsKept t gone
  gone-IsKept = record {
    same_windows = refl;
    same_columns = refl;
    same_floating = λ k. ground arith;
  }

  abbrev destroyed : ℕ → Tree
  destroyed i =
      workspace_set_dirty
        (column_set_dirty (workspace_consider_destroy (replace_active gone s c i) s) c) s

  destroyed-IsKept : (i : ℕ) → IsKept t (destroyed i)
  unfolding workspace_set_dirty column_set_dirty
  destroyed-IsKept i =
      let k =
        IsKept-after (IsKept-after gone-IsKept (replace_active-IsKept gone s c i))
          (workspace_consider_destroy-IsKept (replace_active gone s c i) s) in
      record {
        same_windows = k.same_windows;
        same_columns = k.same_columns;
        same_floating = k.same_floating;
      }

  destroyed_run :
      (i : ℕ)
      → index_of c (t.workspaces s).columns ≡ some i
      → erase_at (t.workspaces s).columns i ≡ remove c (t.workspaces s).columns
      → column_consider_destroy t c ≡ some (destroyed i)
  unfolding column_consider_destroy destroy_column
  destroyed_run i found erased = elim (Option-cases (t.columns c).output) [
    | inl n ↦ absurd (shown n)
    | inr (o, eo) ↦ ground arith
  ]

  -- An empty column that is considered for destruction leaves its workspace. If it was the active
  -- one, the last column on its output in front of it is now, or the first one after it, or none
  -- if it was alone on its output.
  pub column_consider_destroy_lem :
      (i : ℕ) × (t' : Tree) × (index_of c (t.workspaces s).columns ≡ some i)
      × (column_consider_destroy t c ≡ some t')
      × IsGone t t' s c (
          or_later
            (last_from
              (on_output t (t.columns c).output)
              none
              (take i (remove c (t.workspaces s).columns)))
            (find_in
              (on_output t (t.columns c).output)
              (drop i (remove c (t.workspaces s).columns))))
  unfolding workspace_set_dirty column_set_dirty
  column_consider_destroy_lem = elim (index_of-cases c (t.workspaces s).columns) [
    | inl (_, _, out) ↦ absurd (ground arith)
    | inr (i, found, _, erased, _) ↦
        let u = replace_active gone s c i in
        let (cs, active) = replace_active_lem gone s c i in
        let (cs', active') = workspace_consider_destroy_same u s s in
        let next =
          next_active_lem (on_output t (t.columns c).output) i
            (remove c (t.workspaces s).columns) in
        (
          i,
          destroyed i,
          found,
          destroyed_run i found erased,
          record {
            well_formed = kept-IsWellFormed (destroyed-IsKept i) v;
            columns_now = cs' ∙ cs ∙ ground arith;
            active_now = active' ∙ active ∙ ground (arith, next);
            same_windows = (destroyed-IsKept i).same_windows;
          },
        )
  ]
