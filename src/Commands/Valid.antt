-- ===== src/Commands/Valid.antt =====
-- What every configuration that is made and stored keeps to: the bounds that the commands of
-- src/commands/input/ check, and a keymap file that is marked as set.
pub mod Pointer
pub mod Keyboard
pub mod Mapping
pub mod Events
pub mod Input
use hayward.Common.{
  ℕ, zero, suc, List, [], ◌∷◌, length, Option, none, some, Bool, true, false, not, ◌||◌, ◌&&◌, ltb,
  ◌≡◌, refl, ap, sym, ◌∙◌, ℤ, pos, negsuc, same_int, int_min, if◌then◌else◌, arith, Bool-cases,
  Option-cases, inl, inr, subst,
}
use hayward.Config.Input.{
  Floats, InputConfig, Box, MappedFromRegion, override, override_float, replace, new_input_config,
  merge_input_config, is_set,
}
use hayward.Config.Input.Merge.{IsSettled, merge-IsSettled, new-IsSettled}
use hayward.Config.Store.Lists.{AllConfigs}
use hayward.Config.Store.Closed.{IsClosed}
use hayward.Commands.Args.{Status, ExpectedArgs, checkarg}
use hayward.Commands.Library.{Library, Config, Handler, changing, on_hand, guarded}
use hayward.Commands.Keyboard.{is_negative}
use hayward.Commands.Mapping.{is_size}

-- Not negative, or not set.
abbrev pub is_count : ℤ → Bool
is_count v = not (is_negative v) || same_int v int_min

override-count :
    (dst src : ℤ) → is_count dst ≡ true → is_count src ≡ true → is_count (override dst src) ≡ true
unfolding override
override-count dst src h k = elim (Bool-cases (same_int src int_min)) [
  | inl t ↦ rw (t, override) h
  | inr f ↦ rw (f, override) k
]

-- Of a region, width and height are at least 1.
abbrev pub is_region : Option Box → Bool
is_region none = true
is_region (some b) = is_size b.width && is_size b.height

replace-holds {ℓ} :
    {A : Type ℓ} (test : Option A → Bool) (dst src : Option A)
    → test dst ≡ true
    → test src ≡ true
    → test (replace dst src) ≡ true
unfolding replace
replace-holds test dst none h k = h
replace-holds test dst (some v) h k = k

module _ (n : Floats) (lib : Library n) where
  -- From -1 to 1, or not set.
  abbrev pub is_accel : n.Float → Bool
  is_accel v = not (lib.is_below v (negsuc 0) || lib.is_above v (pos 1)) || n.same_float v n.flt_min

  abbrev pub is_factor : n.Float → Bool
  is_factor v = not (lib.is_below v (pos 0)) || n.same_float v n.flt_min

  -- The top left corner is not behind the bottom right one.
  abbrev pub is_rectangle : Option (MappedFromRegion n) → Bool
  is_rectangle none = true
  is_rectangle (some r) = not (lib.exceeds r.x1 r.x2 || lib.exceeds r.y1 r.y2)

  -- The settings that have bounds.
  pub record Bounds : Type 0 where
    pub repeat_delay : ℤ
    pub repeat_rate : ℤ
    pub pointer_accel : n.Float
    pub scroll_factor : n.Float
    pub region : Option Box
    pub rectangle : Option (MappedFromRegion n)
    pub file : Option (List ℕ)
    pub file_is_set : Bool

  abbrev pub bounds_of : InputConfig n → Bounds
  bounds_of ic = record {
    repeat_delay = ic.repeat_delay;
    repeat_rate = ic.repeat_rate;
    pointer_accel = ic.pointer_accel;
    scroll_factor = ic.scroll_factor;
    region = ic.mapped_to_region;
    rectangle = ic.mapped_from_region;
    file = ic.xkb_file;
    file_is_set = ic.xkb_file_is_set;
  }

  pub record AreValid (b : Bounds) : Type 0 where
    pub delay : is_count b.repeat_delay ≡ true
    pub rate : is_count b.repeat_rate ≡ true
    pub accel : is_accel b.pointer_accel ≡ true
    pub factor : is_factor b.scroll_factor ≡ true
    pub region : is_region b.region ≡ true
    pub rectangle : is_rectangle b.rectangle ≡ true
    pub is_settled : (is_set b.file && not b.file_is_set) ≡ false

  abbrev pub IsValid : InputConfig n → Type 0
  IsValid ic = AreValid (bounds_of ic)

  override_float-holds :
      (test : n.Float → Bool) (dst src : n.Float)
      → test dst ≡ true
      → test src ≡ true
      → test (override_float n dst src) ≡ true
  unfolding override_float
  override_float-holds test dst src h k = elim (Bool-cases (n.same_float src n.flt_min)) [
    | inl t ↦ rw (t, override_float) h
    | inr f ↦ rw (f, override_float) k
  ]

  pub merge-IsValid :
      (dst src : InputConfig n) → IsValid dst → IsValid src → IsValid (merge_input_config n dst src)
  unfolding merge_input_config
  merge-IsValid dst src h k = record {
    delay = override-count dst.repeat_delay src.repeat_delay h.delay k.delay;
    rate = override-count dst.repeat_rate src.repeat_rate h.rate k.rate;
    accel = override_float-holds is_accel dst.pointer_accel src.pointer_accel h.accel k.accel;
    factor = override_float-holds is_factor dst.scroll_factor src.scroll_factor h.factor k.factor;
    region = replace-holds is_region dst.mapped_to_region src.mapped_to_region h.region k.region;
    rectangle =
        replace-holds is_rectangle dst.mapped_from_region src.mapped_from_region h.rectangle
          k.rectangle;
    is_settled = merge-IsSettled n dst src h.is_settled;
  }

  pub new-IsValid :
      (id : List ℕ) → n.same_float n.flt_min n.flt_min ≡ true → IsValid (new_input_config n id)
  unfolding new_input_config
  new-IsValid id e = record {
    delay = refl;
    rate = refl;
    accel = ground (arith, e);
    factor = ground (arith, e);
    region = refl;
    rectangle = refl;
    is_settled = refl;
  }

  -- The configuration at hand, if there is one.
  abbrev pub HasValid : Option (InputConfig n) → Type 0
  HasValid none = Unit
  HasValid (some ic) = IsValid ic

  pub IsValid-IsClosed : n.same_float n.flt_min n.flt_min ≡ true → IsClosed n IsValid
  IsValid-IsClosed e = record {
    new = λ id. new-IsValid id e;
    merged = merge-IsValid;
    typed_too = λ type ic v. v;
    settled_too = λ ic v. record {
      delay = v.delay;
      rate = v.rate;
      accel = v.accel;
      factor = v.factor;
      region = v.region;
      rectangle = v.rectangle;
      is_settled = ground arith;
    };
  }

  pub record IsSound (config : Config n) : Type 0 where
    pub at_hand : HasValid config.input_config
    pub stored : AllConfigs n IsValid config.configs

  -- A handler that keeps to the bounds.
  abbrev pub Keeps : Handler n → Type 0
  Keeps handle =
      (config : Config n) (argv : List (List ℕ)) → IsSound config → IsSound (handle config argv).1

  on_hand-IsSound :
      (o : Option (InputConfig n)) (run : InputConfig n → Status × Config n) (config : Config n)
      → ((ic : InputConfig n) → IsValid ic → IsSound (run ic).1)
      → HasValid o
      → IsSound config
      → IsSound (on_hand n o run config).1
  on_hand-IsSound none run config keeps v h = h
  on_hand-IsSound (some ic) run config keeps v h = keeps ic v

  pub guarded-IsSound :
      (type : ExpectedArgs) (val : ℕ) (run : InputConfig n → Status × Config n) (config : Config n)
      (argv : List (List ℕ))
      → ((ic : InputConfig n) → IsValid ic → IsSound (run ic).1)
      → IsSound config
      → IsSound (guarded n type val run config argv).1
  unfolding guarded
  guarded-IsSound type val run config argv keeps h =
      elim (Option-cases (checkarg (length argv) type val)) [
        | inr (status, e) ↦ rw (e, guarded) h
        | inl e ↦ rw (e, guarded) (on_hand-IsSound config.input_config run config keeps h.at_hand h)
      ]

  pub changing-IsSound :
      (type : ExpectedArgs) (val : ℕ) (run : InputConfig n → Status × InputConfig n)
      (config : Config n) (argv : List (List ℕ))
      → ((ic : InputConfig n) → IsValid ic → IsValid (run ic).1)
      → IsSound config
      → IsSound (changing n type val run config argv).1
  unfolding changing
  changing-IsSound type val run config argv keeps h =
      guarded-IsSound type val
        (λ ic.
          let (status, changed) = run ic in (status, record config { input_config = some changed }))
        config argv (λ ic v. record { at_hand = keeps ic v; stored = h.stored }) h
