-- ===== src/Config/Store/Lists.antt =====
-- A property of all the configurations of a list, and the list operations of src/config/input.c.
use hayward.Common.{
  ◌≡◌, refl, sym, subst, some-injective, ◌∙◌, inl, inr, List, [], ◌∷◌, ◌++◌, some, Bool-cases,
  arith,
}
use hayward.Text.{CString, strcmp}
use hayward.Config.Input.{Floats, InputConfig}
use hayward.Config.Store.{
  Configs, Base, absent, existing, fresh, find_config, put_config, config_list, put_list, placed,
  is_type,
}

module _ (n : Floats) (P : InputConfig n → Type 0) where
  abbrev pub All : List (InputConfig n) → Type 0
  All [] = Unit
  All (c ∷ cs) = P c × All cs

  pub put_config-All :
      (cs : List (InputConfig n)) (id : CString) (v : InputConfig n)
      → All cs
      → P v
      → All (put_config n cs id v)
  unfolding put_config
  put_config-All [] id v a h = tt
  put_config-All (c ∷ cs) id v (k, a) h = elim (Bool-cases (strcmp c.identifier id)) [
    | inl t ↦ rw (t, put_config) (h, a)
    | inr f ↦ rw (f, put_config) (k, put_config-All cs id v a h)
  ]

  pub append-All :
      (cs : List (InputConfig n)) (v : InputConfig n) → All cs → P v → All (cs ++ v ∷ [])
  append-All [] v a h = (h, tt)
  append-All (c ∷ cs) v (k, a) h = (k, append-All cs v a h)

  pub find_config-All :
      (cs : List (InputConfig n)) (id : CString) (c : InputConfig n)
      → All cs
      → find_config n cs id ≡ some c
      → P c
  unfolding find_config
  find_config-All [] id c a e = absurd (cc)
  find_config-All (d ∷ cs) id c (k, a) e = elim (Bool-cases (strcmp d.identifier id)) [
    | inl t ↦ subst P (some-injective _ _ (sym (rw (t, find_config) refl) ∙ e)) k
    | inr f ↦ find_config-All cs id c a (ground arith)
  ]

  -- Both lists.
  pub record AllConfigs (cs : Configs n) : Type 0 where
    pub inputs : All cs.input_configs
    pub types : All cs.input_type_configs

  pub config_list-All : (cs : Configs n) (id : CString) → AllConfigs cs → All (config_list n cs id)
  config_list-All cs id h = elim (Bool-cases (is_type id)) [
    | inl t ↦ rw (t) h.types
    | inr f ↦ rw (f) h.inputs
  ]

  pub placed-All :
      (base : Base n) (list : List (InputConfig n)) (v : InputConfig n)
      → All list
      → P v
      → All (placed n base list v)
  placed-All absent list v a h = append-All list v a h
  placed-All (existing c) list v a h = put_config-All list c.identifier v a h
  placed-All (fresh c) list v a h = append-All list v a h

  pub put_list-All :
      (cs : Configs n) (id : CString) (list : List (InputConfig n))
      → AllConfigs cs
      → All list
      → AllConfigs (put_list n cs id list)
  put_list-All cs id list h a = elim (Bool-cases (is_type id)) [
    | inl t ↦ rw (t) (record { inputs = h.inputs; types = a })
    | inr f ↦ rw (f) (record { inputs = a; types = h.types })
  ]
