-- ===== src/Tests/Waiting.antt =====
-- Two bindings that have waited.
use hayward.Common.{
  ◌≡◌, refl, sym, subst, ◌∙◌, some-injective, List, [], ◌∷◌, map, none, some, true, inl, inr,
  Bool-cases, arith,
}
use hayward.Text.{CString, codes, strcmp}
use hayward.Bind.{HwdBinding, no_flags, keysym, mousesym}
use hayward.Execute.Deferred.{run_deferred_loop}
use hayward.Execute.Waiting.{Keep, KeepActive, run_each, run_deferred_loop_lem}
use hayward.Tests.Lines.{logging, surroundings, running}

first_named-Keep : (names : List CString) → Keep surroundings (map logging names)
first_named-Keep [] line h e argv g a = ground (arith, e)
first_named-Keep (name ∷ names) line h e argv g a = elim (Bool-cases (strcmp line name)) [
  | inl t ↦
      subst (λ x. (x.handle argv g).1.active ≡ true)
        (some-injective (logging name) h (sym (rw (t) refl) ∙ e)) a
  | inr t ↦ first_named-Keep names line h (sym (rw (t) refl) ∙ e) argv g a
]

surroundings-KeepActive : KeepActive surroundings
surroundings-KeepActive = record {
  config_handlers = first_named-Keep [];
  command_handlers = first_named-Keep (codes "kill" ∷ codes "nop" ∷ []);
  handlers = first_named-Keep (codes "mode" ∷ codes "seat" ∷ []);
}

abbrev killing : HwdBinding
killing = record {
  type = keysym;
  order = 0;
  input = codes "*";
  flags = no_flags;
  keys = 107 ∷ [];
  syms = [];
  modifiers = 4;
  group = none;
  command = codes "kill";
}

abbrev two_bindings : List HwdBinding
two_bindings = killing ∷ (record killing { type = mousesym; command = codes "nop a, kill" }) ∷ []

run_deferred_loop_lem_example :
    run_deferred_loop surroundings 2 (λ s seat. some 5) 1 (two_bindings, running)
    ≡ ([], run_each surroundings (λ s seat. some 5) 1 two_bindings running)
run_deferred_loop_lem_example =
    run_deferred_loop_lem surroundings surroundings-KeepActive (λ s seat. some 5) 1 two_bindings
      running refl
