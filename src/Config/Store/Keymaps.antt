-- ===== src/Config/Store/Keymaps.antt =====
-- What validate_xkb_merge of src/config/input.c tries out is what merge_input_config then makes,
-- and what that says of the loops over a list of configurations.
use hayward.Common.{
  ◌≡◌, refl, sym, ap, ◌∙◌, inl, inr, List, [], ◌∷◌, none, some, Bool, true, arith, Bool-cases,
}
use hayward.Text.{codes}
use hayward.Config.Input.{Floats, InputConfig, new_input_config, merge_input_config}
use hayward.Config.Input.Merge.{
  Keymap, keymap_of, IsSettled, keymap_of-new, keymap_of-merge, merge-IsSettled,
}
use hayward.Config.Store.{
  World, Configs, Base, absent, existing, fresh, merged_on, hwd_keyboard_compile_keymap,
  validate_xkb_merge, validate_on, merge_on,
}
use hayward.Config.Store.Lists.{All, AllConfigs}

module _ (n : Floats) (w : World) where
  -- The keyboard library makes a keymap of the configuration.
  pub record HasKeymap (ic : InputConfig n) : Type 0 where
    pub is_settled : IsSettled n ic
    pub compiles : hwd_keyboard_compile_keymap n w ic ≡ true

  abbrev pub HasKeymaps : Configs n → Type 0
  HasKeymaps cs = AllConfigs n HasKeymap cs

  abbrev makes : Keymap → Bool
  makes k = elim k.file [
    | some file ↦ w.keymap_from_file file
    | none ↦ w.keymap_from_names (record {
      layout = k.layout;
      model = k.model;
      options = k.options;
      rules = k.rules;
      variant = k.variant;
    })
  ]

  compiles_lem : (ic : InputConfig n) → hwd_keyboard_compile_keymap n w ic ≡ makes (keymap_of n ic)
  unfolding hwd_keyboard_compile_keymap
  compiles_lem ic = refl

  abbrev pub BaseIsSettled : Base n → Type 0
  BaseIsSettled absent = Unit
  BaseIsSettled (existing c) = IsSettled n c
  BaseIsSettled (fresh c) = IsSettled n c

  merged_keymap :
      (c src : InputConfig n)
      → IsSettled n c
      → keymap_of n
          (merge_input_config n (merge_input_config n (new_input_config n (codes "temp")) c) src)
        ≡ keymap_of n (merge_input_config n c src)
  merged_keymap c src h =
      keymap_of-merge n (merge_input_config n (new_input_config n (codes "temp")) c) c src
        (keymap_of-new n (codes "temp") c h)

  -- What is tried out is what comes out.
  validated :
      (base : Base n) (src : InputConfig n)
      → BaseIsSettled base
      → IsSettled n src
      → validate_xkb_merge n w base src ≡ hwd_keyboard_compile_keymap n w (merged_on n base src)
  unfolding validate_xkb_merge
  validated absent src h k =
      compiles_lem (merge_input_config n (new_input_config n (codes "temp")) src)
      ∙ ap makes (keymap_of-new n (codes "temp") src k)
      ∙ sym (compiles_lem src)
  validated (existing c) src h k =
      compiles_lem
        (merge_input_config n (merge_input_config n (new_input_config n (codes "temp")) c) src)
      ∙ ap makes (merged_keymap c src h)
      ∙ sym (compiles_lem (merge_input_config n c src))
  validated (fresh c) src h k =
      compiles_lem
        (merge_input_config n (merge_input_config n (new_input_config n (codes "temp")) c) src)
      ∙ ap makes (merged_keymap c src h)
      ∙ sym (compiles_lem (merge_input_config n c src))

  pub merged-HasKeymap :
      (base : Base n) (src : InputConfig n)
      → BaseIsSettled base
      → IsSettled n src
      → validate_xkb_merge n w base src ≡ true
      → HasKeymap (merged_on n base src)
  merged-HasKeymap absent src h k e = record {
    is_settled = k;
    compiles = sym (validated absent src h k) ∙ e;
  }
  merged-HasKeymap (existing c) src h k e = record {
    is_settled = merge-IsSettled n c src h;
    compiles = sym (validated (existing c) src h k) ∙ e;
  }
  merged-HasKeymap (fresh c) src h k e = record {
    is_settled = merge-IsSettled n c src h;
    compiles = sym (validated (fresh c) src h k) ∙ e;
  }

  pub merge_on-All :
      (test : InputConfig n → Bool) (src : InputConfig n) (cs : List (InputConfig n))
      → IsSettled n src
      → All n HasKeymap cs
      → validate_on n w test src cs ≡ true
      → All n HasKeymap (merge_on n test src cs)
  unfolding merge_on validate_on
  merge_on-All test src [] k a e = tt
  merge_on-All test src (c ∷ cs) k (h, a) e = elim (Bool-cases (test c)) [
    | inl t ↦
        rw (t, merge_on)
          (
            merged-HasKeymap (existing c) src h.is_settled k (ground arith),
            merge_on-All test src cs k a (ground arith),
          )
    | inr f ↦ rw (f, merge_on) (h, merge_on-All test src cs k a (ground arith))
  ]
