-- ===== src/Bind/Distinct.antt =====
-- src/commands/bind.c: no list of bindings has two that compare equal.
use hayward.Common.{
  ℕ, ◌≡◌, refl, sym, ◌∙◌, ap, ◌≤◌, ◌⊎◌, ◌+◌, List, [], ◌∷◌, length, Option, none, some, Bool, true,
  false, ◌==◌, arith, inl, inr, Bool-cases, ==_iff, ==_refl,
}
use hayward.ListT.Sort.Order.{filter_by}
use hayward.Text.{CString, strcmp_refl, strcmp-equal}
use hayward.Commands.Args.{success}
use hayward.Bind.{
  number_of, HwdBinding, BindingFlags, same_bool, same_type, same_flags, same_group, same_keys_of,
  binding_key_compare, binding_upsert, binding_remove,
}

-- How many bindings have the keys of this one.
abbrev pub equals : HwdBinding → List HwdBinding → ℕ
equals c bs = length (filter_by (binding_key_compare c) bs)

abbrev pub IsDistinct : List HwdBinding → Type 0
IsDistinct bs = (c : HwdBinding) → equals c bs ≤ 1

same_bool-equal : (a b : Bool) → same_bool a b ≡ true → a ≡ b
unfolding same_bool
same_bool-equal true b h = sym h
same_bool-equal false true h = h
same_bool-equal false false h = refl

same_bool_refl : (a : Bool) → same_bool a a ≡ true
unfolding same_bool
same_bool_refl true = refl
same_bool_refl false = refl

same_group-equal : (a b : Option ℕ) → same_group a b ≡ true → a ≡ b
unfolding same_group
same_group-equal none none h = refl
same_group-equal none (some b) h = ground (arith, h)
same_group-equal (some a) none h = ground (arith, h)
same_group-equal (some a) (some b) h = ap some ((==_iff a b).0 h)

same_group_refl : (a : Option ℕ) → same_group a a ≡ true
unfolding same_group
same_group_refl none = refl
same_group_refl (some a) = ==_refl a

same_keys_of-equal : (a b : List ℕ) → same_keys_of a b ≡ true → a ≡ b
unfolding same_keys_of
same_keys_of-equal [] [] h = refl
same_keys_of-equal [] (b ∷ bs) h = ground (arith, h)
same_keys_of-equal (a ∷ r) [] h = ground (arith, h)
same_keys_of-equal (a ∷ r) (b ∷ s) h = elim (Bool-cases (a == b)) [
  | inl t ↦ rw ((==_iff a b).0 t, same_keys_of-equal r s (sym (rw (t, same_keys_of) refl) ∙ h)) refl
  | inr t ↦ ground (arith, t, h)
]

same_keys_of_refl : (a : List ℕ) → same_keys_of a a ≡ true
unfolding same_keys_of
same_keys_of_refl [] = refl
same_keys_of_refl (a ∷ r) = rw (==_refl a) (same_keys_of_refl r)

-- What two bindings have in common that compare equal.
record IsSame (a b : HwdBinding) : Type 0 where
  input : a.input ≡ b.input
  type : number_of a.type ≡ number_of b.type
  release : a.flags.release ≡ b.flags.release
  border : a.flags.border ≡ b.flags.border
  contents : a.flags.contents ≡ b.flags.contents
  titlebar : a.flags.titlebar ≡ b.flags.titlebar
  locked : a.flags.locked ≡ b.flags.locked
  inhibited : a.flags.inhibited ≡ b.flags.inhibited
  group : a.group ≡ b.group
  modifiers : a.modifiers ≡ b.modifiers
  keys : a.keys ≡ b.keys

flags-parts :
    (a b : BindingFlags)
    → same_flags a b ≡ true
    → (a.release ≡ b.release)
      × (a.border ≡ b.border)
      × (a.contents ≡ b.contents)
      × (a.titlebar ≡ b.titlebar)
      × (a.locked ≡ b.locked)
      × (a.inhibited ≡ b.inhibited)
unfolding same_flags
flags-parts a b h = (
  same_bool-equal a.release b.release (ground (arith, h)),
  same_bool-equal a.border b.border (ground (arith, h)),
  same_bool-equal a.contents b.contents (ground (arith, h)),
  same_bool-equal a.titlebar b.titlebar (ground (arith, h)),
  same_bool-equal a.locked b.locked (ground (arith, h)),
  same_bool-equal a.inhibited b.inhibited (ground (arith, h)),
)

compare-IsSame : (a b : HwdBinding) → binding_key_compare a b ≡ true → IsSame a b
unfolding binding_key_compare same_type
compare-IsSame a b h =
    let f = flags-parts a.flags b.flags (ground (arith, h)) in
    record {
      input = strcmp-equal a.input b.input (ground (arith, h));
      type = ground (arith, h);
      release = f.0;
      border = f.1;
      contents = f.2;
      titlebar = f.3;
      locked = f.4;
      inhibited = f.5;
      group = same_group-equal a.group b.group (ground (arith, h));
      modifiers = ground (arith, h);
      keys = same_keys_of-equal a.keys b.keys (ground (arith, h));
    }

-- Bindings that compare equal compare alike with all others.
pub compare-left :
    (a b x : HwdBinding)
    → binding_key_compare a b ≡ true
    → binding_key_compare a x ≡ binding_key_compare b x
unfolding binding_key_compare same_type same_flags
compare-left a b x h =
    let s = compare-IsSame a b h in
    rw
      (
        s.input, s.type, s.release, s.border, s.contents, s.titlebar, s.locked, s.inhibited,
        s.group, s.modifiers, s.keys,
      )
      refl

pub compare-right :
    (a b x : HwdBinding)
    → binding_key_compare a b ≡ true
    → binding_key_compare x a ≡ binding_key_compare x b
unfolding binding_key_compare same_type same_flags
compare-right a b x h =
    let s = compare-IsSame a b h in
    rw
      (
        s.input, s.type, s.release, s.border, s.contents, s.titlebar, s.locked, s.inhibited,
        s.group, s.modifiers, s.keys,
      )
      refl

-- A binding compares equal to itself, whatever its command and its number become.
pub compare_same :
    (b : HwdBinding) (order : ℕ) (command : CString)
    → binding_key_compare b (record b { order = order; command = command }) ≡ true
unfolding binding_key_compare same_type same_flags
compare_same b order command =
    rw
      (
        strcmp_refl b.input,
        ==_refl (number_of b.type),
        same_bool_refl b.flags.release,
        same_bool_refl b.flags.border,
        same_bool_refl b.flags.contents,
        same_bool_refl b.flags.titlebar,
        same_bool_refl b.flags.locked,
        same_bool_refl b.flags.inhibited,
        same_group_refl b.group,
        ==_refl b.modifiers,
        same_keys_of_refl b.keys,
      )
      refl

equals-left :
    (b c : HwdBinding) (bs : List HwdBinding)
    → binding_key_compare c b ≡ true
    → equals c bs ≡ equals b bs
equals-left b c [] h = refl
equals-left b c (x ∷ bs) h =
    let k = compare-left c b x h in let r = equals-left b c bs h in ground (arith, k, r)

equals-cons :
    (c x : HwdBinding) (xs ys : List HwdBinding)
    → equals c xs ≡ equals c ys
    → equals c (x ∷ xs) ≡ equals c (x ∷ ys)
equals-cons c x xs ys h = ground (arith, h)

equals-cons_add :
    (c x : HwdBinding) (xs ys : List HwdBinding) (k : ℕ)
    → equals c xs ≡ equals c ys + k
    → equals c (x ∷ xs) ≡ equals c (x ∷ ys) + k
equals-cons_add c x xs ys k h = ground (arith, h)

equals-cons_le :
    (c x : HwdBinding) (xs ys : List HwdBinding)
    → equals c xs ≤ equals c ys
    → equals c (x ∷ xs) ≤ equals c (x ∷ ys)
equals-cons_le c x xs ys h = ground (arith, h)

equals-head :
    (c b x : HwdBinding) (bs : List HwdBinding)
    → binding_key_compare c b ≡ binding_key_compare c x
    → equals c (b ∷ bs) ≡ equals c (x ∷ bs)
equals-head c b x bs h = ground (arith, h)

pub equals-tail : (c x : HwdBinding) (xs : List HwdBinding) → equals c xs ≤ equals c (x ∷ xs)
equals-tail c x xs = ground arith

-- A binding takes the place of one with its keys, or there was none and it is added.
pub upsert-equals :
    (b c : HwdBinding) (bs : List HwdBinding)
    → (equals c (binding_upsert b bs).0 ≡ equals c bs)
      ⊎ ((equals b bs ≡ 0) × (equals c (binding_upsert b bs).0 ≡ equals c bs + equals c (b ∷ [])))
unfolding binding_upsert
upsert-equals b c [] = inr (refl, omega arith)
upsert-equals b c (x ∷ bs) = elim (Bool-cases (binding_key_compare b x)) [
  | inl t ↦ let k = compare-right b x c t in inl (rw (t) (equals-head c b x bs k))
  | inr t ↦ elim (upsert-equals b c bs) [
    | inl r ↦ inl (rw (t) (equals-cons c x (binding_upsert b bs).0 bs r))
    | inr (z, r) ↦
        inr
          (rw (t) z, rw (t) (equals-cons_add c x (binding_upsert b bs).0 bs (equals c (b ∷ [])) r))
  ]
]

-- Adding a binding keeps the list free of two that compare equal.
pub binding_upsert-IsDistinct :
    (b : HwdBinding) (bs : List HwdBinding) → IsDistinct bs → IsDistinct (binding_upsert b bs).0
binding_upsert-IsDistinct b bs d c = elim (upsert-equals b c bs) [
  | inl r ↦ omega (arith, r, d c)
  | inr (z, r) ↦ elim (Bool-cases (binding_key_compare c b)) [
    | inl t ↦
        let k = equals-left b c bs t in
        let one : equals c (b ∷ []) ≡ 1 = rw (t) refl in omega (arith, r, k, z, one)
    | inr t ↦ let none : equals c (b ∷ []) ≡ 0 = rw (t) refl in omega (arith, r, d c, none)
  ]
]

remove-equals :
    (b c : HwdBinding) (bs : List HwdBinding) → equals c (binding_remove b bs).1 ≤ equals c bs
unfolding binding_remove
remove-equals b c [] = omega arith
remove-equals b c (x ∷ bs) = elim (Bool-cases (binding_key_compare b x)) [
  | inl t ↦ rw (t) (equals-tail c x bs)
  | inr t ↦ rw (t) (equals-cons_le c x (binding_remove b bs).1 bs (remove-equals b c bs))
]

pub binding_remove-IsDistinct :
    (b : HwdBinding) (bs : List HwdBinding) → IsDistinct bs → IsDistinct (binding_remove b bs).1
binding_remove-IsDistinct b bs d c = omega (arith, remove-equals b c bs, d c)

upsert-other :
    (b x : HwdBinding) (bs : List HwdBinding)
    → binding_key_compare b x ≡ false
    → (binding_upsert b (x ∷ bs)).0 ≡ x ∷ (binding_upsert b bs).0
unfolding binding_upsert
upsert-other b x bs t = rw (t) refl

remove-other :
    (b x : HwdBinding) (bs : List HwdBinding)
    → binding_key_compare b x ≡ false
    → binding_remove b (x ∷ bs) ≡ ((binding_remove b bs).0, x ∷ (binding_remove b bs).1)
unfolding binding_remove
remove-other b x bs t = rw (t) refl

remove-one :
    (b : HwdBinding) (order : ℕ) (command : CString)
    → binding_remove b (binding_upsert (record b { order = order; command = command }) []).0
      ≡ (success, [])
unfolding binding_remove binding_upsert
remove-one b order command = rw (compare_same b order command) refl

-- Taking a binding out again, by its keys, leaves the list as it was, if none had its keys.
pub binding_remove-upsert :
    (b : HwdBinding) (order : ℕ) (command : CString) (bs : List HwdBinding)
    → equals b bs ≡ 0
    → binding_remove b (binding_upsert (record b { order = order; command = command }) bs).0
      ≡ (success, bs)
binding_remove-upsert b order command [] h = remove-one b order command
binding_remove-upsert b order command (x ∷ bs) h =
    let named = record b { order = order; command = command } in
    let t : binding_key_compare b x ≡ false = ground (arith, h) in
    let u : binding_key_compare named x ≡ false =
      sym (compare-left b named x (compare_same b order command)) ∙ t in
    let rest = binding_remove-upsert b order command bs (ground (arith, h)) in
    ap (binding_remove b) (upsert-other named x bs u)
    ∙ remove-other b x (binding_upsert named bs).0 t
    ∙ ap (λ r. (r.0, x ∷ r.1)) rest
