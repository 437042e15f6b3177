-- ===== src/Bind/Keymap.antt =====
-- translate_keysyms of src/config.c on all modes, and translate_binding of src/commands/bind.c from
-- one keymap to another.
use hayward.Common.{
  ◌++◌, Option, none, if◌then◌else◌, ℕ, ◌≡◌, refl, sym, ◌∙◌, ap, List, [], ◌∷◌, some, Bool, true,
  false, arith, inl, inr, Option-cases,
}
use hayward.ListT.Sort.Order.{All}
use hayward.ListT.Sort.Merge.{All-map}
use hayward.Config.Input.{Floats}
use hayward.Commands.Library.{Library}
use hayward.Bind.{
  binding_key_compare, BindingInputType, keycode, keysym, mousecode, mousesym, switch, HwdBinding,
  HwdMode, key_qsort_cmp,
}
use hayward.Bind.Keys.{Keyboards, translate_syms, of_syms, translate_binding}
use hayward.Bind.Translate.{translated, translate_mode, translate_keysyms}
use hayward.Bind.Distinct.{IsDistinct}
use hayward.Bind.Typed.{Stands, IsTypedMode}
use hayward.Bind.Retranslated.{
  IsKey, AreKept, lookup, prefer, prefer-none, latest, IsSameBut, translated-IsSameBut,
  translate_by, translate_binding_list_lem,
}

prefer_assoc : {A : Type 0} (a b c : Option A) → prefer (prefer a b) c ≡ prefer a (prefer b c)
prefer_assoc none b c = refl
prefer_assoc (some x) b c = refl

no_lists-AreKept : AreKept ([], [])
no_lists-AreKept = record {
  keysyms = tt;
  keycodes = tt;
  keysyms_distinct = λ c. omega arith;
  keycodes_distinct = λ c. omega arith;
}

module _ (n : Floats) (lib : Library n) (k : Keyboards) where
  latest-append :
      (c : HwdBinding) (bs ds : List HwdBinding)
      → latest n lib k c (bs ++ ds) ≡ prefer (latest n lib k c ds) (latest n lib k c bs)
  latest-append c [] ds = sym (prefer-none (latest n lib k c ds))
  latest-append c (b ∷ bs) ds =
      let t = translated n lib k b in
      let own = if binding_key_compare c t then some t else none in
      ap (λ m. prefer m own) (latest-append c bs ds)
      ∙ prefer_assoc (latest n lib k c ds) (latest n lib k c bs) own

  -- A list that is made of the first list and then of the second.
  both_found :
      (c : HwdBinding) (keysyms keycodes list final : List HwdBinding)
      → lookup c list ≡ prefer (latest n lib k c keysyms) none
      → lookup c final ≡ prefer (latest n lib k c keycodes) (lookup c list)
      → lookup c final ≡ latest n lib k c (keysyms ++ keycodes)
  both_found c keysyms keycodes list final h k' =
      k'
      ∙ ap (prefer (latest n lib k c keycodes)) (h ∙ prefer-none (latest n lib k c keysyms))
      ∙ sym (latest-append c keysyms keycodes)

  -- What a mode becomes.
  pub record IsRetranslated (mode after : HwdMode) : Type 0 where
    pub typed : IsTypedMode after
    pub keysyms : IsDistinct after.keysym_bindings
    pub keycodes : IsDistinct after.keycode_bindings
    pub found_keysym :
        (c : HwdBinding)
        → c.type ≡ keysym
        → lookup c after.keysym_bindings
          ≡ latest n lib k c (mode.keysym_bindings ++ mode.keycode_bindings)
    pub found_keycode :
        (c : HwdBinding)
        → c.type ≡ keycode
        → lookup c after.keycode_bindings
          ≡ latest n lib k c (mode.keysym_bindings ++ mode.keycode_bindings)
    pub same_but : (b : HwdBinding) → IsSameBut b (translated n lib k b)
    pub name : after.name ≡ mode.name
    pub mouse : after.mouse_bindings ≡ mode.mouse_bindings
    pub switches : after.switch_bindings ≡ mode.switch_bindings

  abbrev pub AllRetranslated : (modes ms : List HwdMode) → Type 0
  AllRetranslated [] [] = Unit
  AllRetranslated [] (m ∷ ms) = ⊥
  AllRetranslated (mode ∷ modes) [] = ⊥
  AllRetranslated (mode ∷ modes) (m ∷ ms) = IsRetranslated mode m × AllRetranslated modes ms

  translate_mode_lem :
      (mode : HwdMode)
      → IsTypedMode mode
      → (m : HwdMode) × (translate_mode n lib k mode ≡ some m) × IsRetranslated mode m
  unfolding translate_mode
  translate_mode_lem mode h =
      let (r, q, a) =
        translate_binding_list_lem n lib k mode.keysym_bindings ([], [])
          (All-map (Stands keysym) (λ b. IsKey b.type) (λ b e. inl e) mode.keysym_bindings
            h.keysyms)
          no_lists-AreKept in
      let (s, p, c) =
        translate_binding_list_lem n lib k mode.keycode_bindings r
          (All-map (Stands keycode) (λ b. IsKey b.type) (λ b e. inr e) mode.keycode_bindings
            h.keycodes)
          a.kept in
      (
        record mode { keysym_bindings = s.0; keycode_bindings = s.1 },
        rw (q, p) refl,
        record {
          typed = record { keysyms = c.kept.keysyms; keycodes = c.kept.keycodes };
          keysyms = c.kept.keysyms_distinct;
          keycodes = c.kept.keycodes_distinct;
          found_keysym = λ f h.
              both_found f mode.keysym_bindings mode.keycode_bindings r.0 s.0 (a.found_keysym f h)
                (c.found_keysym f h);
          found_keycode = λ f h.
              both_found f mode.keysym_bindings mode.keycode_bindings r.1 s.1 (a.found_keycode f h)
                (c.found_keycode f h);
          same_but = translated-IsSameBut n lib k;
          name = refl;
          mouse = refl;
          switches = refl;
        },
      )

  -- With another keymap every mode keeps its name, buttons and switches. Its symbols and codes are in
  -- the lists for them, no two of a list with the same keys, and what is found there for any keys is
  -- the last of its bindings that, as it is translated, has these keys; none is found where none has
  -- them. A translation keeps the command, the order, the input, the flags, the modifiers, the group
  -- and the symbols. No assertion fails. Before, symbols and codes must be in the lists for them.
  pub translate_keysyms_lem :
      (modes : List HwdMode)
      → All IsTypedMode modes
      → (ms : List HwdMode) × (translate_keysyms n lib k modes ≡ some ms) × AllRetranslated modes ms
  unfolding translate_keysyms
  translate_keysyms_lem [] h = ([], refl, tt)
  translate_keysyms_lem (mode ∷ modes) (h, hs) =
      let (m, q, a) = translate_mode_lem mode h in
      let (ms, p, b) = translate_keysyms_lem modes hs in (m ∷ ms, rw (q, p) refl, (a, b))

module _ (n : Floats) (lib : Library n) (k k' : Keyboards) where
  translated-keysym :
      (b : HwdBinding)
      → b.flags.code ≡ true
      → b.type ≡ keysym
      → translated n lib k' b ≡ (of_syms n lib k' b.keys b).1
  unfolding translate_binding
  translated-keysym b c e =
      ap (λ x. (translate_by n lib k' x b.type b).1) c
      ∙ ap (λ x. (translate_by n lib k' true x b).1) e

  translated-keycode :
      (b : HwdBinding)
      → b.flags.code ≡ true
      → b.type ≡ keycode
      → translated n lib k' b ≡ (of_syms n lib k' b.syms b).1
  unfolding translate_binding
  translated-keycode b c e =
      ap (λ x. (translate_by n lib k' x b.type b).1) c
      ∙ ap (λ x. (translate_by n lib k' true x b).1) e

  -- What was translated before does not matter.
  of_syms-overwrites :
      (syms keys' syms' : List ℕ) (t : BindingInputType) (b : HwdBinding)
      → (of_syms n lib k' syms (record b { type = t; keys = keys'; syms = syms' })).1
        ≡ (of_syms n lib k' syms b).1
  of_syms-overwrites syms keys' syms' t b = elim (Option-cases (translate_syms n lib k' syms)) [
    | inl e ↦ rw (e, of_syms) refl
    | inr (keys, e) ↦ rw (e, of_syms) refl
  ]

  again-of_syms :
      (syms : List ℕ) (b : HwdBinding)
      → b.flags.code ≡ true
      → translated n lib k' (of_syms n lib k syms b).1 ≡ (of_syms n lib k' syms b).1
  again-of_syms syms b c = elim (Option-cases (translate_syms n lib k syms)) [
    | inl e ↦
        let before = record b { type = keysym; keys = syms; syms = [] } in
        let is_before : (of_syms n lib k syms b).1 ≡ before = rw (e, of_syms) refl in
        ap (translated n lib k') is_before
        ∙ translated-keysym before c refl
        ∙ of_syms-overwrites syms syms [] keysym b
    | inr (keys, e) ↦
        let sorted = k.qsort key_qsort_cmp keys in
        let before = record b { type = keycode; keys = sorted; syms = syms } in
        let is_before : (of_syms n lib k syms b).1 ≡ before = rw (e, of_syms) refl in
        ap (translated n lib k') is_before
        ∙ translated-keycode before c refl
        ∙ of_syms-overwrites syms sorted syms keycode b
  ]

  again-translate_by :
      (code : Bool) (t : BindingInputType) (b : HwdBinding)
      → b.flags.code ≡ code
      → b.type ≡ t
      → translated n lib k' (translate_by n lib k code t b).1 ≡ translated n lib k' b
  again-translate_by false t b c e = refl
  again-translate_by true keysym b c e = again-of_syms b.keys b c ∙ sym (translated-keysym b c e)
  again-translate_by true keycode b c e = again-of_syms b.syms b c ∙ sym (translated-keycode b c e)
  again-translate_by true mousecode b c e = refl
  again-translate_by true mousesym b c e = refl
  again-translate_by true switch b c e = refl

  -- A binding that is translated by one keymap and then by another is what the second alone makes
  -- of it.
  pub translate_binding-again :
      (b : HwdBinding)
      → (translate_binding n lib k' (translate_binding n lib k b).1).1
        ≡ (translate_binding n lib k' b).1
  unfolding translate_binding
  translate_binding-again b = again-translate_by b.flags.code b.type b refl refl
