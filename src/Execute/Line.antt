-- ===== src/Execute/Line.antt =====
-- What execute_command of src/commands.c makes of a line of commands whose arguments are quoted.
use hayward.Common.{
  ℕ, some-injective, Option-cases, inl, inr, ◌≡◌, refl, sym, ◌∙◌, ap, List, [], ◌∷◌, ◌++◌, map,
  none, some, Bool, true, false, not, ◌||◌, ◌==◌, arith,
}
use hayward.ListT.Sort.Order.{All}
use hayward.Text.{CString, codes, strcmp}
use hayward.Strings.{
  is_space, is_blank, skip_space, neutral, flags_after, ends_token, split_args, join_args, Quoting,
  unquoted, argsep_step,
}
use hayward.Strings.Words.{scan, IsWord, split_args-join_args}
use hayward.Strings.Quotes.{quote, IsPlain, quote-IsWord, strip_quotes-quote}
use hayward.Strings.Separate.{read_over, IsPart}
use hayward.Commands.Args.{arg}
use hayward.Execute.Command.{is_separator, unquote, strip_arguments}

-- A command and its arguments.
pub record Written : Type 0 where
  pub name : CString
  pub texts : List CString

abbrev pub text_of : Written → CString
text_of c = join_args (c.name ∷ map quote c.texts)

abbrev pub line : List Written → CString
line [] = []
line (c ∷ []) = text_of c
line (c ∷ d ∷ r) = text_of c ++ b';' ∷ line (d ∷ r)

abbrev pub is_special : ℕ → Bool
is_special c =
    is_space c
    || is_separator c
    || (c == b'"' || c == b'\'' || c == b'\\')
    || (c == b'[' || c == b']')

abbrev pub IsOrdinary : ℕ → Type 0
IsOrdinary c = is_special c ≡ false

-- The arguments of exec, exec_always and mode stay quoted.
abbrev pub keeps_quotes : CString → Bool
keeps_quotes name =
    strcmp name (codes "exec") || strcmp name (codes "exec_always") || strcmp name (codes "mode")

pub record IsWritten (c : Written) : Type 0 where
  pub named : is_blank c.name ≡ false
  pub ordinary : All IsOrdinary c.name
  pub strips : keeps_quotes c.name ≡ false
  pub plain : All (All IsPlain) c.texts

ordinary_step :
    (c : ℕ) → IsOrdinary c → (ends_token neutral c ≡ false) × (flags_after neutral c ≡ neutral)
unfolding ends_token flags_after
ordinary_step c h = (ground (arith, h), ground (arith, h))

scan-ordinary : (s : CString) → All IsOrdinary s → scan neutral s ≡ some neutral
unfolding scan
scan-ordinary [] h = refl
scan-ordinary (c ∷ s) (h, k) = let (k1, k2) = ordinary_step c h in rw (k1, k2) (scan-ordinary s k)

name-IsWord : (c : Written) → IsWritten c → IsWord c.name
name-IsWord c h = record { nonempty = h.named; is_whole = scan-ordinary c.name h.ordinary }

map-quote-All : (ts : List CString) → All (All IsPlain) ts → All IsWord (map quote ts)
map-quote-All [] h = tt
map-quote-All (t ∷ ts) (h, k) = (quote-IsWord t h, map-quote-All ts k)

unquote-quote : (ts : List CString) → All (All IsPlain) ts → map unquote (map quote ts) ≡ ts
unfolding unquote
unquote-quote [] h = refl
unquote-quote (t ∷ ts) (h, k) = rw (strip_quotes-quote t h, unquote-quote ts k) refl

-- The arguments that a command's text is split into, unquoted.
pub arguments-text_of :
    (c : Written) → IsWritten c → strip_arguments (split_args (text_of c)) ≡ c.name ∷ c.texts
unfolding strip_arguments arg
arguments-text_of c h =
    rw
      (
        split_args-join_args (c.name ∷ map quote c.texts)
            (name-IsWord c h, map-quote-All c.texts h.plain),
        h.strips,
      )
      (ap (◌∷◌ c.name) (unquote-quote c.texts h.plain))

read_over-append :
    (q r : Quoting) (s t : CString)
    → read_over is_separator q s ≡ some r
    → read_over is_separator q (s ++ t) ≡ read_over is_separator r t
unfolding read_over
read_over-append q r [] t h = ap (λ x. read_over is_separator x t) (some-injective q r h)
read_over-append q r (c ∷ s) t h = elim (Option-cases (argsep_step is_separator q c)) [
  | inl f ↦ ground (arith, f, h)
  | inr (next, f) ↦
      rw (f, read_over) (read_over-append next r s t (sym (rw (f, read_over) refl) ∙ h))
]

separator_step : (c : ℕ) → IsOrdinary c → argsep_step is_separator unquoted c ≡ some unquoted
unfolding argsep_step
separator_step c h = ground (arith, h)

read_over-ordinary :
    (s : CString) → All IsOrdinary s → read_over is_separator unquoted s ≡ some unquoted
unfolding read_over
read_over-ordinary [] h = refl
read_over-ordinary (c ∷ s) (h, k) = rw (separator_step c h, read_over) (read_over-ordinary s k)

abbrev inside : Quoting
inside = record unquoted { in_string = true }

inside_separator_step : (c : ℕ) → IsPlain c → argsep_step is_separator inside c ≡ some inside
unfolding argsep_step
inside_separator_step c h = ground (arith, h)

read_over-inside :
    (t : CString) → All IsPlain t → read_over is_separator inside (t ++ b'"' ∷ []) ≡ some unquoted
unfolding read_over argsep_step
read_over-inside [] h = refl
read_over-inside (c ∷ t) (h, k) = rw (inside_separator_step c h, read_over) (read_over-inside t k)

read_over-quote :
    (t : CString) → All IsPlain t → read_over is_separator unquoted (quote t) ≡ some unquoted
unfolding read_over argsep_step
read_over-quote t h = read_over-inside t h

abbrev IsOver : CString → Type 0
IsOver w = read_over is_separator unquoted w ≡ some unquoted

join_args-IsOver : (ws : List CString) → All IsOver ws → IsOver (join_args ws)
unfolding join_args read_over argsep_step
join_args-IsOver [] h = refl
join_args-IsOver (w ∷ []) (h, k) = h
join_args-IsOver (w ∷ v ∷ r) (h, k) =
    read_over-append unquoted unquoted w (b' ' ∷ join_args (v ∷ r)) h ∙ join_args-IsOver (v ∷ r) k

quotes-IsOver : (ts : List CString) → All (All IsPlain) ts → All IsOver (map quote ts)
quotes-IsOver [] h = tt
quotes-IsOver (t ∷ ts) (h, k) = (read_over-quote t h, quotes-IsOver ts k)

text_of-nonempty :
    (w : CString) (ws : List CString) → is_blank w ≡ false → is_blank (join_args (w ∷ ws)) ≡ false
unfolding join_args
text_of-nonempty [] ws h = ground (arith, h)
text_of-nonempty (c ∷ w) [] h = refl
text_of-nonempty (c ∷ w) (v ∷ r) h = refl

pub text_of-IsPart : (c : Written) → IsWritten c → IsPart is_separator (text_of c)
text_of-IsPart c h = record {
  nonempty = text_of-nonempty c.name (map quote c.texts) h.named;
  closed =
      join_args-IsOver (c.name ∷ map quote c.texts)
        (read_over-ordinary c.name h.ordinary, quotes-IsOver c.texts h.plain);
}

abbrev pub begins : CString → Bool
begins [] = false
begins (c ∷ s) = not (is_space c)

pub skip_space-begins : (s : CString) → begins s ≡ true → skip_space s ≡ s
unfolding skip_space
skip_space-begins [] h = refl
skip_space-begins (c ∷ s) h = ground (arith, h)

pub begins-append : (s t : CString) → begins s ≡ true → begins (s ++ t) ≡ true
begins-append [] t h = ground (arith, h)
begins-append (c ∷ s) t h = h

pub join_args-begins :
    (w : CString) (ws : List CString) → begins w ≡ true → begins (join_args (w ∷ ws)) ≡ true
unfolding join_args
join_args-begins w [] h = h
join_args-begins w (v ∷ r) h = begins-append w (b' ' ∷ join_args (v ∷ r)) h

ordinary-begins : (s : CString) → is_blank s ≡ false → All IsOrdinary s → begins s ≡ true
ordinary-begins [] h k = ground (arith, h)
ordinary-begins (c ∷ s) h (k, l) = ground (arith, k)

pub text_of-begins : (c : Written) → IsWritten c → begins (text_of c) ≡ true
text_of-begins c h =
    join_args-begins c.name (map quote c.texts) (ordinary-begins c.name h.named h.ordinary)

pub semicolon_separates : argsep_step is_separator unquoted b';' ≡ none
unfolding argsep_step
semicolon_separates = refl
