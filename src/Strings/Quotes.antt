-- ===== src/Strings/Quotes.antt =====
-- Texts in double quotes, as split_args and strip_quotes of src/stringop.c take them.
use hayward.Common.{ℕ, ◌≡◌, refl, [], ◌∷◌, ◌++◌, some, true, false, ◌||◌, ◌==◌, arith}
use hayward.ListT.Sort.Order.{All}
use hayward.Text.{CString}
use hayward.Strings.{Flags, neutral, flags_after, ends_token, strip_loop, strip_quotes}
use hayward.Strings.Words.{scan, IsWord}

abbrev pub quote : CString → CString
quote t = b'"' ∷ t ++ b'"' ∷ []

-- A character that means itself between double quotes.
abbrev pub IsPlain : ℕ → Type 0
IsPlain c = (c == b'"' || c == b'\\') ≡ false

abbrev inside : Flags
inside = record neutral { in_string = true }

inside_step : (c : ℕ) → IsPlain c → (ends_token inside c ≡ false) × (flags_after inside c ≡ inside)
unfolding ends_token flags_after
inside_step c h = (ground (arith, h), ground (arith, h))

scan-inside : (t : CString) → All IsPlain t → scan inside (t ++ b'"' ∷ []) ≡ some neutral
unfolding scan flags_after ends_token
scan-inside [] h = refl
scan-inside (c ∷ t) (h, k) = let (k1, k2) = inside_step c h in rw (k1, k2) (scan-inside t k)

pub quote-IsWord : (t : CString) → All IsPlain t → IsWord (quote t)
unfolding scan flags_after ends_token
quote-IsWord t h = record { nonempty = refl; is_whole = scan-inside t h }

strip_loop-inside : (t : CString) → All IsPlain t → strip_loop (t ++ b'"' ∷ []) true false false ≡ t
unfolding strip_loop
strip_loop-inside [] h = refl
strip_loop-inside (c ∷ t) (h, k) = let r = strip_loop-inside t k in ground (arith, h, r)

-- Stripping the quotes of a quoted text gives the text, where it has no quotes and no backslashes.
pub strip_quotes-quote : (t : CString) → All IsPlain t → strip_quotes (quote t) ≡ t
unfolding strip_quotes strip_loop
strip_quotes-quote t h = strip_loop-inside t h
