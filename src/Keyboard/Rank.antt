-- ===== src/Keyboard/Rank.antt =====
-- Which of two bindings get_active_binding of src/input/keyboard.c prefers, as a number.
use hayward.Common.{
  ℕ, ◌≡◌, refl, ◌+◌, ◌≤◌, Option, none, some, Bool, true, false, not, ◌&&◌, ◌||◌, ◌==◌, leb, arith,
}
use hayward.Text.{strcmp}
use hayward.Keyboard.Bindings.{
  Binding, Query, same, is_group, is_group_set, is_candidate, is_match, stays, is_perfect,
}

-- A group that is set counts more than the right locked state, and that more than the right
-- inhibited state.
abbrev pub value : (group locked inhibited : Bool) → ℕ
value true locked inhibited = 3
value false true inhibited = 2
value false false true = 1
value false false false = 0

abbrev pub with_input : Bool → ℕ → ℕ
with_input true n = 4 + n
with_input false n = n

-- The input that is asked for counts most.
unfoldable pub rank : Query → Binding → ℕ
unfolding strcmp
rank q b =
    with_input (strcmp b.input q.input)
      (value (is_group_set b.group) (same b.is_locked q.locked) (same b.is_inhibited q.inhibited))

-- stays, for two bindings at different addresses, whose group is the one asked for if it is set.
abbrev stays_by : (ci bi cg bg cl bl ch bh ql qh : Bool) → Bool
stays_by ci bi cg bg cl bl ch bh ql qh =
    same ci bi && same cl bl && same ch bh && same cg bg
    || ci && not bi
    || same ci bi && cg
    || same ci bi && same cg bg && same cl ql
    || same ci bi && same cg bg && same cl bl && same ch qh

stays_by-unset :
    (cl bl ch bh ql qh : Bool)
    → (same cl bl && same ch bh && true || false || same cl ql || same cl bl && same ch qh)
      ≡ leb (value false (same bl ql) (same bh qh)) (value false (same cl ql) (same ch qh))
stays_by-unset cl bl ch bh ql qh = ground arith

stays_by-rank :
    (ci bi cg bg cl bl ch bh ql qh : Bool)
    → stays_by ci bi cg bg cl bl ch bh ql qh
      ≡ leb
          (with_input bi (value bg (same bl ql) (same bh qh)))
          (with_input ci (value cg (same cl ql) (same ch qh)))
stays_by-rank true false cg bg cl bl ch bh ql qh = ground arith
stays_by-rank false true cg bg cl bl ch bh ql qh = ground arith
stays_by-rank true true true bg cl bl ch bh ql qh = ground arith
stays_by-rank true true false true cl bl ch bh ql qh = ground arith
stays_by-rank true true false false cl bl ch bh ql qh = ground arith
stays_by-rank false false true bg cl bl ch bh ql qh = ground arith
stays_by-rank false false false true cl bl ch bh ql qh = ground arith
stays_by-rank false false false false cl bl ch bh ql qh = ground arith

-- What is left of the conditions of a match for the group.
is_group-set :
    (g : Option ℕ) (wanted : ℕ)
    → (not (is_group_set g) || is_group g wanted) ≡ true
    → is_group g wanted ≡ is_group_set g
is_group-set none wanted h = refl
is_group-set (some g) wanted h = h

pub is_group-is_match :
    (q : Query) (b : Binding)
    → is_match q b ≡ true
    → is_group b.group q.group ≡ is_group_set b.group
unfolding is_match is_candidate
is_group-is_match q b h = is_group-set b.group q.group (ground (arith, h))

-- A binding that matches stays unless the other one that matches counts more.
pub stays-rank :
    (q : Query) (c b : Binding)
    → is_match q c ≡ true
    → (c.address == b.address) ≡ false
    → stays q c b ≡ leb (rank q b) (rank q c)
unfolding stays rank
stays-rank q c b m a =
    rw (a, is_group-is_match q c m)
      (stays_by-rank (strcmp c.input q.input) (strcmp b.input q.input) (is_group_set c.group)
        (is_group_set b.group) c.is_locked b.is_locked c.is_inhibited b.is_inhibited q.locked
        q.inhibited)

pub rank_le : (q : Query) (b : Binding) → rank q b ≤ 7
unfolding rank
rank_le q b = ground arith

-- Nothing counts more than a perfect match.
pub is_perfect-rank : (q : Query) (b : Binding) → is_perfect q b ≡ true → rank q b ≡ 7
unfolding rank is_perfect
is_perfect-rank q b h = ground (arith, h)
