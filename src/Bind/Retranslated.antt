-- ===== src/Bind/Retranslated.antt =====
-- translate_binding_list of src/config.c: every binding of a list gets into one of the two new lists.
use hayward.Common.{
  subst, none, ap, sym, Option, ℕ, ◌≡◌, refl, ◌∙◌, ◌⊎◌, List, [], ◌∷◌, some, Bool, true, false, not,
  arith, inl, inr, Bool-cases, Option-cases, if◌then◌else◌,
}
use hayward.ListT.Sort.Order.{All}
use hayward.Config.Input.{Floats}
use hayward.Commands.Library.{Library}
use hayward.Bind.{
  key_qsort_cmp, same_type, BindingInputType, keycode, keysym, mousecode, mousesym, switch,
  HwdBinding, binding_key_compare, binding_upsert,
}
use hayward.Bind.Keys.{Keyboards, translate_syms, of_syms, translate_binding}
use hayward.Bind.Translate.{binding_add_translated, translated, translate_binding_list}
use hayward.Bind.Distinct.{IsDistinct, compare-left, compare-right, binding_upsert-IsDistinct}
use hayward.Bind.Typed.{Stands, All-upsert}

-- The binding of a list that has the keys of `c`.
abbrev pub lookup : HwdBinding → List HwdBinding → Option HwdBinding
lookup c [] = none
lookup c (b ∷ bs) = if binding_key_compare c b then some b else lookup c bs

abbrev pub prefer {ℓ} : {A : Type ℓ} → Option A → Option A → Option A
prefer none b = b
prefer (some a) b = some a

lookup-same :
    (b : HwdBinding) (k : Bool) (x : HwdBinding) (r : Option HwdBinding)
    → (if k then some b else r) ≡ (if k then some b else if k then some x else r)
lookup-same b true x r = refl
lookup-same b false x r = refl

lookup-upsert :
    (b c : HwdBinding) (bs : List HwdBinding)
    → lookup c (binding_upsert b bs).0 ≡ (if binding_key_compare c b then some b else lookup c bs)
unfolding binding_upsert
lookup-upsert b c [] = refl
lookup-upsert b c (x ∷ bs) = elim (Bool-cases (binding_key_compare b x)) [
  | inl t ↦ rw (t, compare-right b x c t) (lookup-same b (binding_key_compare c x) x (lookup c bs))
  | inr f ↦ elim (Bool-cases (binding_key_compare c b)) [
    | inl u ↦
        let k : binding_key_compare c x ≡ false = compare-left c b x u ∙ f in
        rw (f, u, k) (lookup-upsert b c bs ∙ rw (u) refl)
    | inr u ↦
        rw (f, u)
          (ap (λ r. if binding_key_compare c x then some x else r)
            (lookup-upsert b c bs ∙ rw (u) refl))
  ]
]

prefer-if :
    {A : Type 0} (m : Option A) (k : Bool) (t : A) (r : Option A)
    → prefer m (if k then some t else r) ≡ prefer (prefer m (if k then some t else none)) r
prefer-if none true t r = refl
prefer-if none false t r = refl
prefer-if (some a) k t r = refl

pub prefer-none : {A : Type 0} (m : Option A) → prefer m none ≡ m
prefer-none none = refl
prefer-none (some a) = refl

-- A symbol never has the keys of a code.
other_type :
    (c b : HwdBinding) (x y : BindingInputType)
    → c.type ≡ x
    → b.type ≡ y
    → same_type x y ≡ false
    → binding_key_compare c b ≡ false
unfolding binding_key_compare
other_type c b x y h k d =
    let s : same_type c.type b.type ≡ false = rw (h, k) d in ground (arith, s)

abbrev pub IsKey : BindingInputType → Type 0
IsKey t = (t ≡ keysym) ⊎ (t ≡ keycode)

-- The lists of keys, as translate_binding_list makes them.
pub record AreKept (lists : List HwdBinding × List HwdBinding) : Type 0 where
  pub keysyms : All (Stands keysym) lists.0
  pub keycodes : All (Stands keycode) lists.1
  pub keysyms_distinct : IsDistinct lists.0
  pub keycodes_distinct : IsDistinct lists.1

-- The symbols that a binding was made for.
abbrev pub symbols : HwdBinding → List ℕ
symbols b = elim b.type [
  | keysym ↦ b.keys
  | keycode ↦ b.syms
  | mousecode ↦ b.keys
  | mousesym ↦ b.keys
  | switch ↦ b.keys
]

-- What a translation leaves as it is: all but the type, the keys and where the symbols are kept.
pub record IsSameBut (b after : HwdBinding) : Type 0 where
  pub command : after.command ≡ b.command
  pub order : after.order ≡ b.order
  pub input : after.input ≡ b.input
  pub flags : after.flags ≡ b.flags
  pub modifiers : after.modifiers ≡ b.modifiers
  pub group : after.group ≡ b.group
  pub same_symbols : symbols after ≡ symbols b

same_but :
    (b : HwdBinding) (t : BindingInputType) (keys syms : List ℕ)
    → symbols (record b { type = t; keys = keys; syms = syms }) ≡ symbols b
    → IsSameBut b (record b { type = t; keys = keys; syms = syms })
same_but b t keys syms h = record {
  command = refl;
  order = refl;
  input = refl;
  flags = refl;
  modifiers = refl;
  group = refl;
  same_symbols = h;
}

IsSameBut-refl : (b : HwdBinding) → IsSameBut b b
IsSameBut-refl b = same_but b b.type b.keys b.syms refl

module _ (n : Floats) (lib : Library n) (k : Keyboards) where
  of_syms-IsKey : (syms : List ℕ) (b : HwdBinding) → IsKey (of_syms n lib k syms b).1.type
  of_syms-IsKey syms b = elim (Option-cases (translate_syms n lib k syms)) [
    | inl t ↦ inl (rw (t, of_syms) refl)
    | inr (keys, t) ↦ inr (rw (t, of_syms) refl)
  ]

  -- translate_binding, with the flag and the type that it looks at.
  abbrev pub translate_by : (code : Bool) → BindingInputType → HwdBinding → Bool × HwdBinding
  translate_by code t b = if not code then (true, b) else elim t [
    | keysym ↦ of_syms n lib k b.keys b
    | keycode ↦ of_syms n lib k b.syms b
    | mousecode ↦ (true, b)
    | mousesym ↦ (true, b)
    | switch ↦ (true, b)
  ]

  symbols-of_syms :
      (syms : List ℕ) (b : HwdBinding) → symbols b ≡ syms → IsSameBut b (of_syms n lib k syms b).1
  symbols-of_syms syms b h = elim (Option-cases (translate_syms n lib k syms)) [
    | inl t ↦
        let t' : (of_syms n lib k syms b).1 ≡ record b { type = keysym; keys = syms; syms = [] } =
          rw (t, of_syms) refl in
        subst (IsSameBut b) (sym t') (same_but b keysym syms [] (sym h))
    | inr (keys, t) ↦
        let sorted = k.qsort key_qsort_cmp keys in
        let t' : (of_syms n lib k syms b).1
            ≡ record b { type = keycode; keys = sorted; syms = syms } =
          rw (t, of_syms) refl in
        subst (IsSameBut b) (sym t') (same_but b keycode sorted syms (sym h))
  ]

  translate_by-IsSameBut :
      (code : Bool) (t : BindingInputType) (b : HwdBinding)
      → b.type ≡ t
      → IsSameBut b (translate_by code t b).1
  translate_by-IsSameBut false t b e = IsSameBut-refl b
  translate_by-IsSameBut true keysym b e = symbols-of_syms b.keys b (rw (e) refl)
  translate_by-IsSameBut true keycode b e = symbols-of_syms b.syms b (rw (e) refl)
  translate_by-IsSameBut true mousecode b e = IsSameBut-refl b
  translate_by-IsSameBut true mousesym b e = IsSameBut-refl b
  translate_by-IsSameBut true switch b e = IsSameBut-refl b

  pub translated-IsSameBut : (b : HwdBinding) → IsSameBut b (translated n lib k b)
  unfolding translate_binding
  translated-IsSameBut b = translate_by-IsSameBut b.flags.code b.type b refl

  translate_by-IsKey :
      (code : Bool) (t : BindingInputType) (b : HwdBinding)
      → IsKey t
      → IsKey b.type
      → IsKey (translate_by code t b).1.type
  translate_by-IsKey false t b h i = i
  translate_by-IsKey true t b (inl e) i = rw (e) (of_syms-IsKey b.keys b)
  translate_by-IsKey true t b (inr e) i = rw (e) (of_syms-IsKey b.syms b)

  translated-IsKey : (b : HwdBinding) → IsKey b.type → IsKey (translated n lib k b).type
  unfolding translate_binding
  translated-IsKey b h = translate_by-IsKey b.flags.code b.type b h h

  -- The last of the bindings that, as it is translated, has the keys of `c`.
  abbrev pub latest : HwdBinding → List HwdBinding → Option HwdBinding
  latest c [] = none
  latest c (b ∷ bs) =
      prefer (latest c bs)
        (if binding_key_compare c (translated n lib k b) then some (translated n lib k b) else none)

  -- What a list of bindings becomes, where there were bindings in the two lists.
  pub record IsTranslation (bs : List HwdBinding) (from lists : List HwdBinding × List HwdBinding)
      : Type 0 where
    pub kept : AreKept lists
    pub found_keysym :
        (c : HwdBinding)
        → c.type ≡ keysym
        → lookup c lists.0 ≡ prefer (latest c bs) (lookup c from.0)
    pub found_keycode :
        (c : HwdBinding)
        → c.type ≡ keycode
        → lookup c lists.1 ≡ prefer (latest c bs) (lookup c from.1)

  list-keysym :
      (b : HwdBinding) (bs syms codes : List HwdBinding)
      → (translated n lib k b).type ≡ keysym
      → translate_binding_list n lib k (b ∷ bs) (syms, codes)
        ≡ translate_binding_list n lib k bs ((binding_upsert (translated n lib k b) syms).0, codes)
  unfolding translate_binding_list binding_add_translated
  list-keysym b bs syms codes e = rw (e, translate_binding_list) refl

  list-keycode :
      (b : HwdBinding) (bs syms codes : List HwdBinding)
      → (translated n lib k b).type ≡ keycode
      → translate_binding_list n lib k (b ∷ bs) (syms, codes)
        ≡ translate_binding_list n lib k bs (syms, (binding_upsert (translated n lib k b) codes).0)
  unfolding translate_binding_list binding_add_translated
  list-keycode b bs syms codes e = rw (e, translate_binding_list) refl

  -- A binding that has the keys of `c` hides those in front of it.
  latest-found :
      (c b : HwdBinding) (bs list : List HwdBinding)
      → prefer (latest c bs) (lookup c (binding_upsert (translated n lib k b) list).0)
        ≡ prefer (latest c (b ∷ bs)) (lookup c list)
  latest-found c b bs list =
      let t = translated n lib k b in
      ap (prefer (latest c bs)) (lookup-upsert t c list)
      ∙ prefer-if (latest c bs) (binding_key_compare c t) t (lookup c list)

  latest-other :
      (c b : HwdBinding) (bs : List HwdBinding) (r : Option HwdBinding)
      → binding_key_compare c (translated n lib k b) ≡ false
      → prefer (latest c bs) r ≡ prefer (latest c (b ∷ bs)) r
  latest-other c b bs r h = rw (h) (ap (λ m. prefer m r) (sym (prefer-none (latest c bs))))

  IsTranslation-keysym :
      (b : HwdBinding) (bs syms codes : List HwdBinding) (lists : List HwdBinding × List HwdBinding)
      → (translated n lib k b).type ≡ keysym
      → IsTranslation bs ((binding_upsert (translated n lib k b) syms).0, codes) lists
      → IsTranslation (b ∷ bs) (syms, codes) lists
  unfolding same_type
  IsTranslation-keysym b bs syms codes lists e r = record {
    kept = r.kept;
    found_keysym = λ c h. r.found_keysym c h ∙ latest-found c b bs syms;
    found_keycode = λ c h.
        r.found_keycode c h
        ∙ latest-other c b bs (lookup c codes)
            (other_type c (translated n lib k b) keycode keysym h e refl);
  }

  IsTranslation-keycode :
      (b : HwdBinding) (bs syms codes : List HwdBinding) (lists : List HwdBinding × List HwdBinding)
      → (translated n lib k b).type ≡ keycode
      → IsTranslation bs (syms, (binding_upsert (translated n lib k b) codes).0) lists
      → IsTranslation (b ∷ bs) (syms, codes) lists
  unfolding same_type
  IsTranslation-keycode b bs syms codes lists e r = record {
    kept = r.kept;
    found_keysym = λ c h.
        r.found_keysym c h
        ∙ latest-other c b bs (lookup c syms)
            (other_type c (translated n lib k b) keysym keycode h e refl);
    found_keycode = λ c h. r.found_keycode c h ∙ latest-found c b bs codes;
  }

  pub translate_binding_list_lem :
      (bs : List HwdBinding) (from : List HwdBinding × List HwdBinding)
      → All (λ b. IsKey b.type) bs
      → AreKept from
      → (lists : List HwdBinding × List HwdBinding) × (translate_binding_list n lib k bs from
          ≡ some lists)
        × IsTranslation bs from lists
  unfolding translate_binding_list
  translate_binding_list_lem [] from h a =
      (from, refl, record { kept = a; found_keysym = λ c h. refl; found_keycode = λ c h. refl })
  translate_binding_list_lem (b ∷ bs) (syms, codes) (h, hs) a =
      let t = translated n lib k b in
      elim (translated-IsKey b h) [
        | inl e ↦
            let (lists, q, r) =
              translate_binding_list_lem bs ((binding_upsert t syms).0, codes) hs
                (record {
                  keysyms = All-upsert (Stands keysym) t syms e a.keysyms;
                  keycodes = a.keycodes;
                  keysyms_distinct = binding_upsert-IsDistinct t syms a.keysyms_distinct;
                  keycodes_distinct = a.keycodes_distinct;
                }) in
            (
              lists,
              list-keysym b bs syms codes e ∙ q,
              IsTranslation-keysym b bs syms codes lists e r,
            )
        | inr e ↦
            let (lists, q, r) =
              translate_binding_list_lem bs (syms, (binding_upsert t codes).0) hs
                (record {
                  keysyms = a.keysyms;
                  keycodes = All-upsert (Stands keycode) t codes e a.keycodes;
                  keysyms_distinct = a.keysyms_distinct;
                  keycodes_distinct = binding_upsert-IsDistinct t codes a.keycodes_distinct;
                }) in
            (
              lists,
              list-keycode b bs syms codes e ∙ q,
              IsTranslation-keycode b bs syms codes lists e r,
            )
      ]
