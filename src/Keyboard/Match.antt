-- ===== src/Keyboard/Match.antt =====
-- What the tests of get_active_binding of src/input/keyboard.c on a single binding mean.
use hayward.Common.{
  ℕ, ◌≡◌, refl, sym, ◌∙◌, ap, ◌⊎◌, List, [], ◌∷◌, length, map, take, ==_iff, ==_refl, Option, none,
  some, Bool, true, false, not, ◌&&◌, ◌||◌, ◌==◌, arith, inl, inr, Bool-cases,
}
use hayward.Text.{CString, codes, strcmp, strcmp_refl, strcmp-equal}
use hayward.Keyboard.{Slot, ShortcutState}
use hayward.Keyboard.Bindings.{
  Binding, Query, same, is_group, is_group_set, is_candidate, is_match, same_keys, keys_match,
}

-- The keys that are held are those of the binding, or there is only one, and it has just been pressed.
abbrev pub HasKeys : ShortcutState → List ℕ → Type 0
HasKeys state keys =
    ((state.npressed ≡ length keys) × (keys ≡ take (length keys) (map Slot.key state.pressed)))
    ⊎ (¬ (state.npressed ≡ 1)) × (keys ≡ state.current_key ∷ [])

-- A binding that may be run. One that is for no group is for all of them.
pub record Matches (q : Query) (b : Binding) : Type 0 where
  pub modifiers : q.modifiers ≡ b.modifiers
  pub release : q.release ≡ b.is_release
  pub locked : q.locked ≡ true → b.is_locked ≡ true
  pub inhibited : q.inhibited ≡ true → b.is_inhibited ≡ true
  pub group : (b.group ≡ none) ⊎ (b.group ≡ some q.group)
  pub input : (b.input ≡ q.input) ⊎ (b.input ≡ codes "*") × (q.exact_input ≡ false)
  pub keys : HasKeys q.state b.keys

same-equal : (a b : Bool) → same a b ≡ true → a ≡ b
same-equal true b h = sym h
same-equal false true h = h
same-equal false false h = refl

same_refl : (a : Bool) → same a a ≡ true
same_refl true = refl
same_refl false = refl

same_keys-take :
    (ks : List ℕ) (slots : List Slot)
    → same_keys ks slots ≡ true
    → ks ≡ take (length ks) (map Slot.key slots)
unfolding same_keys
same_keys-take [] slots h = refl
same_keys-take (k ∷ ks) [] h = ground (arith, h)
same_keys-take (k ∷ ks) (s ∷ slots) h = ground (arith, h, same_keys-take ks slots)

take-same_keys :
    (ks : List ℕ) (slots : List Slot)
    → ks ≡ take (length ks) (map Slot.key slots)
    → same_keys ks slots ≡ true
unfolding same_keys
take-same_keys [] slots h = refl
take-same_keys (k ∷ ks) [] h = ground (arith, h)
take-same_keys (k ∷ ks) (s ∷ slots) h = ground (arith, h, take-same_keys ks slots)

-- The keys are not as many as are held.
alone-HasKeys :
    (state : ShortcutState) (keys : List ℕ)
    → (state.npressed == length keys) ≡ false
    → elim keys [ [] ↦ false | k ∷ ks ↦ elim ks [ [] ↦ state.current_key == k | _ ∷ _ ↦ false ] ]
      ≡ true
    → HasKeys state keys
alone-HasKeys state [] t h = ground (arith, h)
alone-HasKeys state (k ∷ []) t h =
    inr ((λ n. ground (arith, n, t)), ap (λ x. x ∷ []) (sym ((==_iff state.current_key k).0 h)))
alone-HasKeys state (k ∷ l ∷ r) t h = ground (arith, h)

keys_match-HasKeys :
    (state : ShortcutState) (keys : List ℕ) → keys_match state keys ≡ true → HasKeys state keys
unfolding keys_match
keys_match-HasKeys state keys h = elim (Bool-cases (state.npressed == length keys)) [
  | inl t ↦ inl (
    (==_iff state.npressed (length keys)).0 t,
    same_keys-take keys state.pressed (sym (rw (t, keys_match) refl) ∙ h),
  )
  | inr t ↦ alone-HasKeys state keys t (sym (rw (t, keys_match) refl) ∙ h)
]

HasKeys-keys_match :
    (state : ShortcutState) (keys : List ℕ) → HasKeys state keys → keys_match state keys ≡ true
unfolding keys_match
HasKeys-keys_match state keys (inl (n, h)) =
    rw (n, ==_refl (length keys)) (take-same_keys keys state.pressed h)
HasKeys-keys_match state keys (inr (n, h)) = rw (h) (ground (arith, n))

none_or_wanted :
    (g : Option ℕ) (wanted : ℕ)
    → (not (is_group_set g) || is_group g wanted) ≡ true
    → (g ≡ none) ⊎ (g ≡ some wanted)
none_or_wanted none wanted h = inl refl
none_or_wanted (some g) wanted h = inr (ap some ((==_iff g wanted).0 h))

wanted_or_any :
    (input wanted : CString) (exact : Bool)
    → (strcmp input wanted || strcmp input (codes "*") && not exact) ≡ true
    → (input ≡ wanted) ⊎ (input ≡ codes "*") × (exact ≡ false)
wanted_or_any input wanted exact h = elim (Bool-cases (strcmp input wanted)) [
  | inl t ↦ inl (strcmp-equal input wanted t)
  | inr t ↦ inr (strcmp-equal input (codes "*") (ground (arith, t, h)), ground (arith, t, h))
]

-- What is_match tests is what a match is.
pub is_match-Matches : (q : Query) (b : Binding) → is_match q b ≡ true → Matches q b
unfolding is_match is_candidate
is_match-Matches q b h = record {
  modifiers = ground (arith, h);
  release = same-equal q.release b.is_release (ground (arith, h));
  locked = λ l. ground (arith, h);
  inhibited = λ l. ground (arith, h);
  group = none_or_wanted b.group q.group (ground (arith, h));
  input = wanted_or_any b.input q.input q.exact_input (ground (arith, h));
  keys = keys_match-HasKeys q.state b.keys (ground (arith, h));
}

candidate_group :
    (g : Option ℕ) (wanted : ℕ)
    → (g ≡ none) ⊎ (g ≡ some wanted)
    → (not (is_group_set g) || is_group g wanted) ≡ true
candidate_group g wanted (inl e) = rw (e) refl
candidate_group g wanted (inr e) = rw (e) (==_refl wanted)

candidate_input :
    (input wanted : CString) (exact : Bool)
    → (input ≡ wanted) ⊎ (input ≡ codes "*") × (exact ≡ false)
    → (strcmp input wanted || strcmp input (codes "*") && not exact) ≡ true
candidate_input input wanted exact (inl e) = rw (e, strcmp_refl wanted) refl
candidate_input input wanted exact (inr (e, f)) =
    let s : strcmp input (codes "*") ≡ true = rw (e) (strcmp_refl (codes "*")) in
    ground (arith, s, f)

candidate_flag : (asked set_ : Bool) → (asked ≡ true → set_ ≡ true) → not (asked && not set_) ≡ true
candidate_flag true set_ h = rw (h refl) refl
candidate_flag false set_ h = refl

pub Matches-is_match : (q : Query) (b : Binding) → Matches q b → is_match q b ≡ true
unfolding is_match is_candidate
Matches-is_match q b m =
    rw
      (
        m.modifiers,
        ==_refl b.modifiers,
        m.release,
        same_refl b.is_release,
        candidate_flag q.locked b.is_locked m.locked,
        candidate_flag q.inhibited b.is_inhibited m.inhibited,
        candidate_group b.group q.group m.group,
        candidate_input b.input q.input q.exact_input m.input,
        HasKeys-keys_match q.state b.keys m.keys,
      )
      refl
