-- ===== src/Commands/Valid/Events.antt =====
-- The toggle of events and the change of the layout keep to the bounds.
use hayward.Common.{
  ◌≡◌, refl, ◌%◌, length, List, [], ◌∷◌, drop, Option, none, some, true, false, arith, Bool-cases,
  inl, inr, ℤ, ◌||◌,
}
use hayward.Text.{CString, strcmp}
use hayward.Config.Input.{Floats, InputConfig, new_input_config}
use hayward.Config.Store.{
  World, Device, Configs, is_wildcard, is_type, has_type, store_input_config,
}
use hayward.Config.Store.Lists.{AllConfigs}
use hayward.Config.Store.Closed.{store_input_config-closed}
use hayward.Commands.Args.{at_least, equal_to, arg}
use hayward.Commands.Library.{Library, SendEvents, Config}
use hayward.Commands.Events.{
  toggle_on_device, toggle_on_all, toggle_on_own, toggle_send_events, input_cmd_events,
  toggle_supported_send_events_for_device, toggle_select_send_events_for_device, next_mode,
  mode_for_name, after_mode,
}
use hayward.Commands.SwitchLayout.{input_cmd_xkb_switch_layout}
use hayward.Commands.Valid.{IsValid, IsSound, Keeps, guarded-IsSound, IsValid-IsClosed, new-IsValid}

module _ (n : Floats) (lib : Library n) where
  sent_or_not :
      (o : Option SendEvents) (f : SendEvents → ℤ) (ic : InputConfig n)
      → IsValid n lib ic
      → IsValid n lib (elim o [ none ↦ ic | some s ↦ record ic { send_events = f s } ])
  sent_or_not none f ic v = v
  sent_or_not (some s) f ic v = v

  toggle_on_device-IsValid :
      (ic : InputConfig n) (d : Device) (argv : List CString)
      → IsValid n lib ic
      → IsValid n lib (toggle_on_device n lib ic d argv)
  unfolding toggle_on_device toggle_supported_send_events_for_device
      toggle_select_send_events_for_device
  toggle_on_device-IsValid ic d [] v = sent_or_not (lib.send_events d) (next_mode n lib) ic v
  toggle_on_device-IsValid ic d (name ∷ names) v =
      sent_or_not (lib.send_events d)
        (λ s.
          mode_for_name n lib
            (arg (name ∷ names) (after_mode n lib (name ∷ names) s.mode % length (name ∷ names))))
        ic v

  pub input_cmd_xkb_switch_layout-Keeps : Keeps n lib (input_cmd_xkb_switch_layout n lib)
  unfolding input_cmd_xkb_switch_layout
  input_cmd_xkb_switch_layout-Keeps config argv h =
      guarded-IsSound n lib equal_to 1 _ config argv (λ ic v. ground arith) h

  module _ (w : World) (e : n.same_float n.flt_min n.flt_min ≡ true) where
    stored_or_same :
        (cs : Configs n) (r : Option (InputConfig n × Configs n))
        → AllConfigs n (IsValid n lib) cs
        → ((stored : InputConfig n) (after : Configs n)
            → r ≡ some (stored, after)
            → AllConfigs n (IsValid n lib) after)
        → AllConfigs n (IsValid n lib) (elim r [ none ↦ cs | some p ↦ p.1 ])
    stored_or_same cs none h k = h
    stored_or_same cs (some (stored, after)) h k = k stored after refl

    toggle_on_all-AllConfigs :
        (id : CString) (ds : List Device) (cs : Configs n) (argv : List CString)
        → AllConfigs n (IsValid n lib) cs
        → AllConfigs n (IsValid n lib) (toggle_on_all n lib w id ds cs argv)
    unfolding toggle_on_all
    toggle_on_all-AllConfigs id [] cs argv h = h
    toggle_on_all-AllConfigs id (d ∷ ds) cs argv h =
        let ic = toggle_on_device n lib (new_input_config n d.identifier) d argv in
        let valid =
          toggle_on_device-IsValid (new_input_config n d.identifier) d argv
            (new-IsValid n lib d.identifier e) in
        let after = stored_or_same cs (store_input_config n w false cs ic) h (λ stored after f.
          (store_input_config-closed n w (IsValid n lib) (IsValid-IsClosed n lib e) false cs ic
            stored after h valid f).1) in
        elim (Bool-cases (is_wildcard id || has_type d.type id)) [
          | inl t ↦ rw (t, toggle_on_all) (toggle_on_all-AllConfigs id ds _ argv after)
          | inr f ↦ rw (f, toggle_on_all) (toggle_on_all-AllConfigs id ds cs argv h)
        ]

    toggle_on_own-IsValid :
        (ic : InputConfig n) (ds : List Device) (argv : List CString)
        → IsValid n lib ic
        → IsValid n lib (toggle_on_own n lib w ic ds argv)
    unfolding toggle_on_own
    toggle_on_own-IsValid ic [] argv v = v
    toggle_on_own-IsValid ic (d ∷ ds) argv v =
        elim (Bool-cases (strcmp ic.identifier d.identifier)) [
          | inl t ↦ rw (t, toggle_on_own) (toggle_on_device-IsValid ic d argv v)
          | inr f ↦ rw (f, toggle_on_own) (toggle_on_own-IsValid ic ds argv v)
        ]

    toggle_send_events-IsSound :
        (config : Config n) (ic : InputConfig n) (argv : List CString)
        → IsValid n lib ic
        → AllConfigs n (IsValid n lib) config.configs
        → IsSound n lib (toggle_send_events n lib w config ic argv)
    unfolding toggle_send_events
    toggle_send_events-IsSound config ic argv v h =
        elim (Bool-cases (is_wildcard ic.identifier || is_type ic.identifier)) [
          | inl t ↦
              rw (t, toggle_send_events)
                (record {
                  at_hand = v;
                  stored = toggle_on_all-AllConfigs ic.identifier w.devices config.configs argv h;
                })
          | inr f ↦
              rw (f, toggle_send_events)
                (record { at_hand = toggle_on_own-IsValid ic w.devices argv v; stored = h })
        ]

    pub input_cmd_events-Keeps : Keeps n lib (input_cmd_events n lib w)
    unfolding input_cmd_events
    input_cmd_events-Keeps config argv h =
        guarded-IsSound n lib at_least 1 _ config argv
          (λ ic v.
            let toggled = toggle_send_events-IsSound config ic (drop 1 argv) v h.stored in
            ground arith)
          h
