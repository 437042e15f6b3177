-- ===== src/Bind/Undone.antt =====
-- The commands of src/commands/bind.c that unbind keys, behind those that bind them.
use hayward.Common.{
  ℕ, ◌≡◌, refl, sym, ◌∙◌, ap, ◌+◌, List, [], ◌∷◌, length, drop, Bool, true, false, ltb, arith, inl,
  inr, Bool-cases,
}
use hayward.Text.{CString}
use hayward.Strings.{split_string, join_args}
use hayward.Config.Input.{Floats}
use hayward.Commands.Args.{success, failure, invalid, checkarg, arg}
use hayward.Commands.Library.{Library}
use hayward.Bind.{
  BindingInputType, keycode, keysym, mousecode, mousesym, switch, HwdBinding, HwdMode,
  binding_key_compare, binding_upsert, binding_add, binding_remove,
}
use hayward.Bind.Keys.{Keyboards, Binds, Parsing, refused, parsed, read_names, take_options}
use hayward.Bind.Command.{
  bindings_of, type_for, min_args, complete, bind_parsed, put_bindings, finish_binding, new_binding,
  bind_keys, cmd_bindsym_or_bindcode,
}
use hayward.Bind.Distinct.{equals, binding_remove-upsert}

success-failure : ¬ (success ≡ failure)
success-failure h = ground (arith, h)

success-invalid : ¬ (success ≡ invalid)
success-invalid h = ground (arith, h)

at_least_one : (m : ℕ) → ltb m 2 ≡ false → ltb m 1 ≡ false
at_least_one m h = ground (arith, h)

module _ (n : Floats) (lib : Library n) (k : Keyboards) where
  -- Whether a list of bindings has none with the keys of this one.
  binding_remove-failure :
      (binding : HwdBinding) (bs : List HwdBinding)
      → (binding_remove binding bs).0 ≡ failure
      → equals binding bs ≡ 0
  unfolding binding_remove
  binding_remove-failure binding [] h = refl
  binding_remove-failure binding (x ∷ bs) h = elim (Bool-cases (binding_key_compare binding x)) [
    | inl t ↦ ground (arith, t, h)
    | inr t ↦ rw (t) (binding_remove-failure binding bs (sym (rw (t, binding_remove) refl) ∙ h))
  ]

  put_bindings-twice :
      (t : BindingInputType) (bs cs : List HwdBinding) (mode : HwdMode)
      → put_bindings n lib k t bs (put_bindings n lib k t cs mode) ≡ put_bindings n lib k t bs mode
  put_bindings-twice keycode bs cs mode = refl
  put_bindings-twice keysym bs cs mode = refl
  put_bindings-twice mousecode bs cs mode = refl
  put_bindings-twice mousesym bs cs mode = refl
  put_bindings-twice switch bs cs mode = refl

  put_bindings-same :
      (t : BindingInputType) (mode : HwdMode)
      → put_bindings n lib k t (bindings_of n lib k t mode) mode ≡ mode
  put_bindings-same keycode mode = refl
  put_bindings-same keysym mode = refl
  put_bindings-same mousecode mode = refl
  put_bindings-same mousesym mode = refl
  put_bindings-same switch mode = refl

  bindings_of-put :
      (t : BindingInputType) (bs : List HwdBinding) (mode : HwdMode)
      → bindings_of n lib k t (put_bindings n lib k t bs mode) ≡ bs
  bindings_of-put keycode bs mode = refl
  bindings_of-put keysym bs mode = refl
  bindings_of-put mousecode bs mode = refl
  bindings_of-put mousesym bs mode = refl
  bindings_of-put switch bs mode = refl

  abbrev numbered : Binds → Binds
  numbered b = record b { binding_order = b.binding_order + 1 }

  finish_binding-undone :
      (argv : List CString) (binding : HwdBinding) (b : Binds)
      → (finish_binding n lib k true argv binding b).0 ≡ failure
      → finish_binding n lib k true argv binding (finish_binding n lib k false argv binding b).1
        ≡ (success, numbered b)
  unfolding finish_binding binding_add
  finish_binding-undone argv binding b h =
      let t = binding.type in
      let bs = bindings_of n lib k t b.mode in
      let named = record binding { command = join_args (drop 1 argv); order = b.binding_order } in
      let removed =
        binding_remove-upsert binding b.binding_order (join_args (drop 1 argv)) bs
          (binding_remove-failure binding bs h) in
      ap
        (λ cs. (
          (binding_remove binding cs).0,
          record (numbered b) {
            mode =
                put_bindings n lib k t (binding_remove binding cs).1
                  (put_bindings n lib k t (binding_upsert named bs).0 b.mode);
          },
        ))
        (bindings_of-put t (binding_upsert named bs).0 b.mode)
      ∙ ap
          (λ r. (
            r.0,
            record (numbered b) {
              mode =
                  put_bindings n lib k t r.1
                    (put_bindings n lib k t (binding_upsert named bs).0 b.mode);
            },
          ))
          removed
      ∙ ap (λ m. (success, record (numbered b) { mode = m }))
          (put_bindings-twice t bs (binding_upsert named bs).0 b.mode ∙ put_bindings-same t b.mode)

  bind_parsed-undone :
      (exclude : Bool) (argv : List CString) (p : Parsing) (b : Binds)
      → (bind_parsed n lib k false exclude argv p b).0 ≡ success
      → (bind_parsed n lib k true exclude argv p b).0 ≡ failure
      → bind_parsed n lib k true exclude argv p (bind_parsed n lib k false exclude argv p b).1
        ≡ (success, numbered b)
  unfolding bind_parsed
  bind_parsed-undone exclude argv (refused status) b h g = absurd (success-failure (sym h ∙ g))
  bind_parsed-undone exclude argv (parsed read) b h g =
      finish_binding-undone argv (complete n lib k exclude read) b g

  abbrev keys_of : Bool → List CString → HwdBinding → Parsing
  keys_of exclude argv binding =
      read_names n lib k (split_string (arg argv 0) b'+')
        (record binding { type = type_for n lib k exclude binding })

  bind_keys-long :
      (unbind exclude : Bool) (argv : List CString) (binding : HwdBinding)
      → ltb (length argv) (min_args unbind) ≡ false
      → (b : Binds)
      → bind_keys n lib k unbind ((binding, exclude), argv) b
        ≡ bind_parsed n lib k unbind exclude argv (keys_of exclude argv binding) b
  unfolding bind_keys
  bind_keys-long unbind exclude argv binding t b = rw (t) refl

  bind_keys-short :
      (exclude : Bool) (argv : List CString) (binding : HwdBinding) (b : Binds)
      → ltb (length argv) 2 ≡ true
      → (bind_keys n lib k false ((binding, exclude), argv) b).0 ≡ failure
  unfolding bind_keys
  bind_keys-short exclude argv binding b t = rw (t) refl

  bind_keys-undone :
      (r : (HwdBinding × Bool) × List CString) (b : Binds)
      → (bind_keys n lib k false r b).0 ≡ success
      → (bind_keys n lib k true r b).0 ≡ failure
      → bind_keys n lib k true r (bind_keys n lib k false r b).1 ≡ (success, numbered b)
  bind_keys-undone ((binding, exclude), argv) b h g = elim (Bool-cases (ltb (length argv) 2)) [
    | inl t ↦ absurd (success-failure (sym h ∙ bind_keys-short exclude argv binding b t))
    | inr t ↦
        let p = keys_of exclude argv binding in
        let bound = bind_keys-long false exclude argv binding t b in
        let out = bind_keys-long true exclude argv binding (at_least_one (length argv) t) in
        out (bind_keys n lib k false ((binding, exclude), argv) b).1
        ∙ ap (λ q. bind_parsed n lib k true exclude argv p q.1) bound
        ∙ bind_parsed-undone exclude argv p b (sym (ap (λ q. q.0) bound) ∙ h)
            (sym (ap (λ q. q.0) (out b)) ∙ g)
  ]

  enough_arguments :
      (argv : List CString) (bindcode unbind : Bool) (b : Binds)
      → ltb (length argv) (min_args unbind) ≡ false
      → cmd_bindsym_or_bindcode n lib k argv bindcode unbind b
        ≡ bind_keys n lib k unbind
            (take_options bindcode argv (new_binding n lib k bindcode, false))
            b
  unfolding cmd_bindsym_or_bindcode checkarg
  enough_arguments argv bindcode unbind b t = rw (t) refl

  too_few_arguments :
      (argv : List CString) (bindcode : Bool) (b : Binds)
      → ltb (length argv) 2 ≡ true
      → (cmd_bindsym_or_bindcode n lib k argv bindcode false b).0 ≡ invalid
  unfolding cmd_bindsym_or_bindcode checkarg
  too_few_arguments argv bindcode b t = rw (t) refl

  -- Where a binding command succeeds, and the unbinding command with the same arguments would have
  -- failed before, it succeeds afterwards, and the mode is as it was.
  pub cmd_bindsym_or_bindcode-undone :
      (argv : List CString) (bindcode : Bool) (b : Binds)
      → (cmd_bindsym_or_bindcode n lib k argv bindcode false b).0 ≡ success
      → (cmd_bindsym_or_bindcode n lib k argv bindcode true b).0 ≡ failure
      → cmd_bindsym_or_bindcode n lib k argv bindcode true
          (cmd_bindsym_or_bindcode n lib k argv bindcode false b).1
        ≡ (success, record b { binding_order = b.binding_order + 1 })
  cmd_bindsym_or_bindcode-undone argv bindcode b h g = elim (Bool-cases (ltb (length argv) 2)) [
    | inl t ↦ absurd (success-invalid (sym h ∙ too_few_arguments argv bindcode b t))
    | inr t ↦
        let r = take_options bindcode argv (new_binding n lib k bindcode, false) in
        let bound = enough_arguments argv bindcode false b t in
        enough_arguments argv bindcode true
          (cmd_bindsym_or_bindcode n lib k argv bindcode false b).1 (at_least_one (length argv) t)
        ∙ ap (λ q. bind_keys n lib k true r q.1) bound
        ∙ bind_keys-undone r b (sym (ap (λ q. q.0) bound) ∙ h) (
            sym
              (ap (λ q. q.0) (enough_arguments argv bindcode true b (at_least_one (length argv) t)))
            ∙ g)
  ]
