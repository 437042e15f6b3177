-- ===== src/Config/Input/Merge.antt =====
-- What merge_input_config of src/config/input.c does to the settings that a keymap is made of.
use hayward.Common.{
  ◌≡◌, refl, ap, Option, none, some, Bool, true, false, not, ◌&&◌, arith, if◌then◌else◌,
}
use hayward.Text.{CString}
use hayward.Config.Input.{
  Floats, InputConfig, new_input_config, merge_input_config, replace, is_set,
}

-- The keymap file and the rule names.
pub record Keymap : Type 0 where
  pub file : Option CString
  pub layout : Option CString
  pub model : Option CString
  pub options : Option CString
  pub rules : Option CString
  pub variant : Option CString

replace-none : (o : Option CString) → replace none o ≡ o
unfolding replace
replace-none none = refl
replace-none (some v) = refl

file_taken :
    (b : Bool) (o : Option CString) → (is_set o && not b) ≡ false → (if b then o else none) ≡ o
file_taken true o h = refl
file_taken false none h = refl
file_taken false (some v) h = ground arith

module _ (n : Floats) where
  abbrev pub keymap_of : InputConfig n → Keymap
  keymap_of ic = record {
    file = ic.xkb_file;
    layout = ic.xkb_layout;
    model = ic.xkb_model;
    options = ic.xkb_options;
    rules = ic.xkb_rules;
    variant = ic.xkb_variant;
  }

  -- A keymap file that is there is marked as set.
  abbrev pub IsSettled : InputConfig n → Type 0
  IsSettled ic = (is_set ic.xkb_file && not ic.xkb_file_is_set) ≡ false

  -- A new configuration takes over the keymap settings of another.
  pub keymap_of-new :
      (id : CString) (src : InputConfig n)
      → IsSettled src
      → keymap_of (merge_input_config n (new_input_config n id) src) ≡ keymap_of src
  unfolding merge_input_config new_input_config
  keymap_of-new id src h =
      rw
        (
          file_taken src.xkb_file_is_set src.xkb_file h,
          replace-none src.xkb_layout,
          replace-none src.xkb_model,
          replace-none src.xkb_options,
          replace-none src.xkb_rules,
          replace-none src.xkb_variant,
        )
        refl

  pub keymap_of-merge :
      (dst dst' src : InputConfig n)
      → keymap_of dst ≡ keymap_of dst'
      → keymap_of (merge_input_config n dst src) ≡ keymap_of (merge_input_config n dst' src)
  unfolding merge_input_config
  keymap_of-merge dst dst' src e =
      ap
        (λ k. record {
          file = if src.xkb_file_is_set then src.xkb_file else k.file;
          layout = replace k.layout src.xkb_layout;
          model = replace k.model src.xkb_model;
          options = replace k.options src.xkb_options;
          rules = replace k.rules src.xkb_rules;
          variant = replace k.variant src.xkb_variant;
        })
        e

  pub merge-IsSettled :
      (dst src : InputConfig n) → IsSettled dst → IsSettled (merge_input_config n dst src)
  unfolding merge_input_config
  merge-IsSettled dst src h = ground arith

  pub new-IsSettled : (id : CString) → IsSettled (new_input_config n id)
  unfolding new_input_config
  new-IsSettled id = refl
