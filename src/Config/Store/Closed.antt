-- ===== src/Config/Store/Closed.antt =====
-- A property that new configurations have, that merging keeps, and that does not depend on the type
-- of the device and on the mark of the keymap file, holds of everything that store_input_config of
-- src/config/input.c leaves in the lists.
use hayward.Common.{
  ◌≡◌, refl, sym, subst, some-injective, ◌∙◌, inl, inr, List, [], ◌∷◌, Option, some, Bool-cases,
  Option-cases, arith, Bool, true, false, if◌then◌else◌, ◌||◌,
}
use hayward.Text.{CString}
use hayward.Config.Input.{Floats, InputConfig, new_input_config, merge_input_config}
use hayward.Config.Store.Lists.{
  All, AllConfigs, config_list-All, placed-All, put_list-All, find_config-All,
}
use hayward.Config.Store.{
  World, Configs, Base, absent, existing, fresh, find_config, find_type, config_list, placed,
  is_type, is_wildcard, is_other, every, of_type, has_type, typed, settled, with_type, merged_on,
  wildcard_name, merge_on, merge_wildcard_on_all, merge_type_on_existing, spread, or_else, base_of,
  base_of_type, base_of_wildcard, set_input_type, store_input_config, validate_store,
}

pub record IsClosed (n : Floats) (P : InputConfig n → Type 0) : Type 0 where
  pub new : (id : CString) → P (new_input_config n id)
  pub merged : (dst src : InputConfig n) → P dst → P src → P (merge_input_config n dst src)
  pub typed_too : (type : Option CString) (ic : InputConfig n) → P ic → P (typed n type ic)
  pub settled_too : (ic : InputConfig n) → P ic → P (settled n ic)

module _ (n : Floats) (w : World) (P : InputConfig n → Type 0) (closed : IsClosed n P) where
  merge_on-closed :
      (test : InputConfig n → Bool) (src : InputConfig n) (cs : List (InputConfig n))
      → P src
      → All n P cs
      → All n P (merge_on n test src cs)
  unfolding merge_on
  merge_on-closed test src [] k a = tt
  merge_on-closed test src (c ∷ cs) k (h, a) = elim (Bool-cases (test c)) [
    | inl t ↦ rw (t, merge_on) (closed.merged c src h k, merge_on-closed test src cs k a)
    | inr f ↦ rw (f, merge_on) (h, merge_on-closed test src cs k a)
  ]

  abbrev BaseHas : Base n → Type 0
  BaseHas absent = Unit
  BaseHas (existing c) = P c
  BaseHas (fresh c) = P c

  find_type-All :
      (cs : List (InputConfig n)) (type : Option CString) (c : InputConfig n)
      → All n P cs
      → find_type n cs type ≡ some c
      → P c
  unfolding find_type
  find_type-All [] type c a e = absurd (cc)
  find_type-All (d ∷ cs) type c (k, a) e = elim (Bool-cases (has_type type d.identifier)) [
    | inl t ↦ subst P (some-injective _ _ (sym (rw (t, find_type) refl) ∙ e)) k
    | inr f ↦ find_type-All cs type c a (ground arith)
  ]

  base_of_wildcard-closed :
      (cs : Configs n) (ic : InputConfig n) → AllConfigs n P cs → BaseHas (base_of_wildcard n cs ic)
  unfolding base_of_wildcard
  base_of_wildcard-closed cs ic h =
      elim (Option-cases (find_config n cs.input_configs wildcard_name)) [
        | inl e ↦ rw (e, base_of_wildcard) tt
        | inr (c, e) ↦
            rw (e, base_of_wildcard)
              (closed.merged (new_input_config n ic.identifier) c (closed.new ic.identifier)
                (find_config-All n P cs.input_configs wildcard_name c h.inputs e))
      ]

  base_of_type-closed :
      (cs : Configs n) (ic : InputConfig n) → AllConfigs n P cs → BaseHas (base_of_type n w cs ic)
  unfolding base_of_type
  base_of_type-closed cs ic h =
      let type = set_input_type w.devices ic.identifier ic.input_type in
      let new = new_input_config n ic.identifier in
      elim (Option-cases (find_type n cs.input_type_configs type)) [
        | inl e ↦ rw (e, base_of_type) tt
        | inr (c, e) ↦
            rw (e, base_of_type)
              (closed.merged (typed n type new) c
                (closed.typed_too type new (closed.new ic.identifier))
                (find_type-All cs.input_type_configs type c h.types e))
      ]

  or_else-closed :
      (b : Bool) (base other : Base n)
      → BaseHas base
      → BaseHas other
      → BaseHas (or_else n (if b then absent else base) other)
  unfolding or_else
  or_else-closed true base other h k = k
  or_else-closed false absent other h k = k
  or_else-closed false (existing c) other h k = h
  or_else-closed false (fresh c) other h k = h

  base_of-closed :
      (cs : Configs n) (ic : InputConfig n) → AllConfigs n P cs → BaseHas (base_of n w cs ic)
  unfolding base_of
  base_of-closed cs ic h =
      let id = ic.identifier in
      elim (Option-cases (find_config n (config_list n cs id) id)) [
        | inl e ↦
            rw (e, base_of)
              (or_else-closed (is_wildcard id || is_type id) (base_of_type n w cs ic)
                (base_of_wildcard n cs ic) (base_of_type-closed cs ic h)
                (base_of_wildcard-closed cs ic h))
        | inr (c, e) ↦
            rw (e, base_of)
              (find_config-All n P (config_list n cs id) id c (config_list-All n P cs id h) e)
      ]

  with_type-closed :
      (base : Base n) (ic : InputConfig n)
      → BaseHas base
      → P ic
      → P (merged_on n base (with_type n w base ic))
  with_type-closed absent ic h k =
      elim (Bool-cases (is_wildcard ic.identifier || is_type ic.identifier)) [
        | inl t ↦ rw (t) k
        | inr f ↦
            rw (f) (closed.typed_too (set_input_type w.devices ic.identifier ic.input_type) ic k)
      ]
  with_type-closed (existing c) ic h k = closed.merged c ic h k
  with_type-closed (fresh c) ic h k = closed.merged c ic h k

  if_wildcard-closed :
      (b : Bool) (cs : Configs n) (ic : InputConfig n)
      → AllConfigs n P cs
      → P ic
      → AllConfigs n P (if b then merge_wildcard_on_all n cs ic else cs)
  unfolding merge_wildcard_on_all
  if_wildcard-closed false cs ic h k = h
  if_wildcard-closed true cs ic h k = record {
    inputs = merge_on-closed (is_other n ic) ic cs.input_configs k h.inputs;
    types = merge_on-closed (every n) ic cs.input_type_configs k h.types;
  }

  if_type-closed :
      (b : Bool) (cs : Configs n) (ic : InputConfig n)
      → AllConfigs n P cs
      → P ic
      → AllConfigs n P (if b then merge_type_on_existing n cs ic else cs)
  unfolding merge_type_on_existing
  if_type-closed false cs ic h k = h
  if_type-closed true cs ic h k = record {
    inputs = merge_on-closed (of_type n ic) ic cs.input_configs k h.inputs;
    types = h.types;
  }

  pub store_input_config-closed :
      (checked : Bool) (cs : Configs n) (ic stored : InputConfig n) (after : Configs n)
      → AllConfigs n P cs
      → P ic
      → store_input_config n w checked cs ic ≡ some (stored, after)
      → P stored × AllConfigs n P after
  unfolding store_input_config spread
  store_input_config-closed checked cs ic stored after h k e =
      let base = base_of n w cs ic in
      let id = ic.identifier in
      let new = settled n (merged_on n base (with_type n w base ic)) in
      let rest = spread n cs ic in
      let made =
        closed.settled_too (merged_on n base (with_type n w base ic))
          (with_type-closed base ic (base_of-closed cs ic h) k) in
      let kept : AllConfigs n P rest =
        if_type-closed (is_type id) (if is_wildcard id then merge_wildcard_on_all n cs ic else cs)
          ic (if_wildcard-closed (is_wildcard id) cs ic h k) k in
      let list = placed n base (config_list n rest id) new in
      let all =
        placed-All n P base (config_list n rest id) new (config_list-All n P rest id kept) made in
      elim (Bool-cases (validate_store n w checked cs ic base)) [
        | inl t ↦
            subst (λ r. P r.0 × AllConfigs n P r.1)
              (some-injective _ _ (sym (rw (t, store_input_config) refl) ∙ e))
              (made, put_list-All n P rest id list kept all)
        | inr f ↦ absurd (ground arith)
      ]
