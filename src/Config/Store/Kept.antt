-- ===== src/Config/Store/Kept.antt =====
-- No stored configuration loses its keymap: what store_input_config of src/config/input.c tries
-- out before it changes the lists is what comes out of the change.
use hayward.Common.{
  ◌≡◌, refl, sym, subst, some-injective, ◌∙◌, inl, inr, [], ◌∷◌, Option, some, Bool, true, false,
  ◌&&◌, ◌||◌, arith, if◌then◌else◌, Bool-cases, Option-cases,
}
use hayward.Text.{CString, strcmp, starts_with}
use hayward.Config.Input.{Floats, InputConfig, new_input_config}
use hayward.Config.Input.Merge.{IsSettled, merge-IsSettled, new-IsSettled}
use hayward.Config.Store.Lists.{config_list-All, placed-All, put_list-All, find_config-All}
use hayward.Config.Store.Keymaps.{
  HasKeymap, HasKeymaps, BaseIsSettled, merged-HasKeymap, merge_on-All,
}
use hayward.Config.Store.{
  World, Configs, Base, absent, existing, fresh, merged_on, placed, config_list, settled, with_type,
  typed, is_type, is_wildcard, wildcard_name, is_other, every, of_type, hwd_keyboard_compile_keymap,
  find_config, find_type, validate_xkb_merge, validate_store, spread, base_of, base_of_type,
  base_of_wildcard, store_input_config, merge_wildcard_on_all, merge_type_on_existing,
  validate_wildcard_on_all, validate_type_on_existing, set_input_type, or_else,
}

all_three : (a b c : Bool) → (a && b && c) ≡ true → (a ≡ true) × (b ≡ true) × (c ≡ true)
all_three true true true h = (refl, refl, refl)
all_three true true false h = absurd (ground arith)
all_three true false c h = absurd (ground arith)
all_three false b c h = absurd (ground arith)

-- "*" is no type.
not_both : (id : CString) → is_wildcard id ≡ true → is_type id ≡ false
unfolding strcmp starts_with
not_both [] h = refl
not_both (c ∷ id) h = ground arith

module _ (n : Floats) (w : World) where
  base_of_wildcard-settled :
      (cs : Configs n) (ic : InputConfig n)
      → HasKeymaps n w cs
      → BaseIsSettled n w (base_of_wildcard n cs ic)
  unfolding base_of_wildcard
  base_of_wildcard-settled cs ic h =
      elim (Option-cases (find_config n cs.input_configs wildcard_name)) [
        | inl e ↦ rw (e, base_of_wildcard) tt
        | inr (c, e) ↦
            rw (e, base_of_wildcard)
              (merge-IsSettled n (new_input_config n ic.identifier) c
                (new-IsSettled n ic.identifier))
      ]

  base_of_type-settled :
      (cs : Configs n) (ic : InputConfig n) → BaseIsSettled n w (base_of_type n w cs ic)
  unfolding base_of_type
  base_of_type-settled cs ic =
      let type = set_input_type w.devices ic.identifier ic.input_type in
      elim (Option-cases (find_type n cs.input_type_configs type)) [
        | inl e ↦ rw (e, base_of_type) tt
        | inr (c, e) ↦
            rw (e, base_of_type)
              (merge-IsSettled n (typed n type (new_input_config n ic.identifier)) c
                (new-IsSettled n ic.identifier))
      ]

  if_settled :
      (b : Bool) (base other : Base n)
      → BaseIsSettled n w base
      → BaseIsSettled n w other
      → BaseIsSettled n w (if b then base else other)
  if_settled true base other h k = h
  if_settled false base other h k = k

  or_wildcard-settled :
      (base other : Base n)
      → BaseIsSettled n w base
      → BaseIsSettled n w other
      → BaseIsSettled n w (or_else n base other)
  unfolding or_else
  or_wildcard-settled absent other h k = k
  or_wildcard-settled (existing c) other h k = h
  or_wildcard-settled (fresh c) other h k = h

  base_of-settled :
      (cs : Configs n) (ic : InputConfig n)
      → HasKeymaps n w cs
      → BaseIsSettled n w (base_of n w cs ic)
  unfolding base_of
  base_of-settled cs ic h =
      let id = ic.identifier in
      elim (Option-cases (find_config n (config_list n cs id) id)) [
        | inl e ↦
            rw (e, base_of)
              (or_wildcard-settled
                (if is_wildcard id || is_type id then absent else base_of_type n w cs ic)
                (base_of_wildcard n cs ic)
                (if_settled (is_wildcard id || is_type id) absent (base_of_type n w cs ic) tt
                  (base_of_type-settled cs ic))
                (base_of_wildcard-settled cs ic h))
        | inr (c, e) ↦
            rw (e, base_of)
              (find_config-All n (HasKeymap n w) (config_list n cs id) id c
                (config_list-All n (HasKeymap n w) cs id h) e).is_settled
      ]

  settled-HasKeymap : (ic : InputConfig n) → HasKeymap n w ic → HasKeymap n w (settled n ic)
  unfolding hwd_keyboard_compile_keymap
  settled-HasKeymap ic h = record { is_settled = ground arith; compiles = h.compiles }

  typed-HasKeymap :
      (type : Option CString) (ic : InputConfig n)
      → HasKeymap n w ic
      → HasKeymap n w (typed n type ic)
  unfolding hwd_keyboard_compile_keymap
  typed-HasKeymap type ic h = record { is_settled = h.is_settled; compiles = h.compiles }

  stored-HasKeymap :
      (base : Base n) (ic : InputConfig n)
      → BaseIsSettled n w base
      → IsSettled n ic
      → validate_xkb_merge n w base ic ≡ true
      → HasKeymap n w (merged_on n base (with_type n w base ic))
  stored-HasKeymap absent ic h k e =
      elim (Bool-cases (is_wildcard ic.identifier || is_type ic.identifier)) [
        | inl t ↦ rw (t) (merged-HasKeymap n w absent ic h k e)
        | inr f ↦ rw (f) (
            typed-HasKeymap (set_input_type w.devices ic.identifier ic.input_type) ic
              (merged-HasKeymap n w absent ic h k e))
      ]
  stored-HasKeymap (existing c) ic h k e = merged-HasKeymap n w (existing c) ic h k e
  stored-HasKeymap (fresh c) ic h k e = merged-HasKeymap n w (fresh c) ic h k e

  if_wildcard :
      (b : Bool) (cs : Configs n) (ic : InputConfig n)
      → HasKeymaps n w cs
      → IsSettled n ic
      → (if b then validate_wildcard_on_all n w cs ic else true) ≡ true
      → HasKeymaps n w (if b then merge_wildcard_on_all n cs ic else cs)
  unfolding validate_wildcard_on_all merge_wildcard_on_all
  if_wildcard false cs ic h k e = h
  if_wildcard true cs ic h k e = record {
    inputs = merge_on-All n w (is_other n ic) ic cs.input_configs k h.inputs (ground arith);
    types = merge_on-All n w (every n) ic cs.input_type_configs k h.types (ground arith);
  }

  if_type :
      (b : Bool) (cs : Configs n) (ic : InputConfig n)
      → HasKeymaps n w cs
      → IsSettled n ic
      → (if b then validate_type_on_existing n w cs ic else true) ≡ true
      → HasKeymaps n w (if b then merge_type_on_existing n cs ic else cs)
  unfolding validate_type_on_existing merge_type_on_existing
  if_type false cs ic h k e = h
  if_type true cs ic h k e = record {
    inputs = merge_on-All n w (of_type n ic) ic cs.input_configs k h.inputs e;
    types = h.types;
  }

  spread-HasKeymaps :
      (cs : Configs n) (ic : InputConfig n) (base : Base n)
      → HasKeymaps n w cs
      → IsSettled n ic
      → validate_store n w true cs ic base ≡ true
      → HasKeymaps n w (spread n cs ic)
  unfolding validate_store spread
  spread-HasKeymaps cs ic base h k e =
      let id = ic.identifier in
      let (all, some_type, one) =
        all_three (if is_wildcard id then validate_wildcard_on_all n w cs ic else true)
          (if is_type id then validate_type_on_existing n w cs ic else true)
          (validate_xkb_merge n w base ic) e in
      elim (Bool-cases (is_wildcard id)) [
        | inl t ↦ rw (t, not_both id t, spread) (if_wildcard true cs ic h k (ground arith))
        | inr f ↦ rw (f, spread) (if_type (is_type id) cs ic h k some_type)
      ]

  one_of :
      (cs : Configs n) (ic : InputConfig n) (base : Base n)
      → validate_store n w true cs ic base ≡ true
      → validate_xkb_merge n w base ic ≡ true
  unfolding validate_store
  one_of cs ic base e =
      (all_three (if is_wildcard ic.identifier then validate_wildcard_on_all n w cs ic else true)
        (if is_type ic.identifier then validate_type_on_existing n w cs ic else true)
        (validate_xkb_merge n w base ic) e).2

  -- Where every stored configuration makes a keymap and a keymap file of the new one is marked as
  -- set, storing it for a caller that wants to be told of errors either fails or leaves every
  -- configuration, the stored one among them, one that makes a keymap.
  pub store_input_config-HasKeymaps :
      (cs : Configs n) (ic stored : InputConfig n) (after : Configs n)
      → HasKeymaps n w cs
      → IsSettled n ic
      → store_input_config n w true cs ic ≡ some (stored, after)
      → HasKeymap n w stored × HasKeymaps n w after
  unfolding store_input_config
  store_input_config-HasKeymaps cs ic stored after h k e =
      let base = base_of n w cs ic in
      let settled_base = base_of-settled cs ic h in
      let id = ic.identifier in
      elim (Bool-cases (validate_store n w true cs ic base)) [
        | inl t ↦
            let new = settled n (merged_on n base (with_type n w base ic)) in
            let rest = spread n cs ic in
            let made : HasKeymap n w new =
              settled-HasKeymap (merged_on n base (with_type n w base ic))
                (stored-HasKeymap base ic settled_base k (one_of cs ic base t)) in
            let kept = spread-HasKeymaps cs ic base h k t in
            let list = placed n base (config_list n rest id) new in
            let all =
              placed-All n (HasKeymap n w) base (config_list n rest id) new
                (config_list-All n (HasKeymap n w) rest id kept) made in
            let same = some-injective _ _ (sym (rw (t, store_input_config) refl) ∙ e) in
            subst (λ r. HasKeymap n w r.0 × HasKeymaps n w r.1) same
              (made, put_list-All n (HasKeymap n w) rest id list kept all)
        | inr f ↦ absurd (ground arith)
      ]
