-- ===== src/Strings.antt =====
-- src/stringop.c: a pointer into a text is the text that is behind it, with what has been read since
-- a token began. Every loop goes over the text once, and is recursion on it.
pub mod Words
pub mod Quotes
pub mod Separate
pub mod Unescape
use hayward.Common.{
  ℕ, ◌+◌, ◌-◌, ◌*◌, List, [], ◌∷◌, ◌++◌, Option, none, some, Bool, true, false, not, ◌&&◌, ◌||◌,
  ◌==◌, leb, if◌then◌else◌, length,
}
use hayward.Common.Chains.{◌>>=◌}
use hayward.Text.{CString}

-- The bytes of `whitespace`, which are those of isspace in the C locale too.
abbrev pub is_space : ℕ → Bool
is_space c = c == 32 || leb 9 c && leb c 13

abbrev pub is_blank : CString → Bool
is_blank [] = true
is_blank (c ∷ s) = false

unfoldable pub skip_space : CString → CString
skip_space [] = []
skip_space (c ∷ s) = let rest = skip_space s in if is_space c then rest else c ∷ s

unfoldable pub strip_end : CString → CString
strip_end [] = []
strip_end (c ∷ s) = let rest = strip_end s in if is_space c && is_blank rest then [] else c ∷ rest

unfoldable pub strip_whitespace : CString → CString
unfolding skip_space strip_end
strip_whitespace str = strip_end (skip_space str)

-- join_args(argv, argc)
unfoldable pub join_args : List CString → CString
join_args [] = []
join_args (a ∷ []) = a
join_args (a ∷ b ∷ r) = a ++ b' ' ∷ join_args (b ∷ r)

-- strtok, with the token that has been read of the text
unfoldable pub tokens : (ℕ → Bool) → CString → (token : CString) → List CString
tokens is_delim [] token = if is_blank token then [] else token ∷ []
tokens is_delim (c ∷ s) token =
    let begun = tokens is_delim s [] in
    let longer = tokens is_delim s (token ++ c ∷ []) in
    if is_delim c then (if is_blank token then begun else token ∷ begun) else longer

unfoldable pub split_string : CString → (delim : ℕ) → List CString
unfolding tokens
split_string str delim = tokens (λ c. c == delim) str []

-- What quotes, brackets and a backslash have opened.
pub record Flags : Type 0 where
  pub in_string : Bool
  pub in_char : Bool
  pub in_brackets : Bool
  pub escaped : Bool

abbrev pub neutral : Flags
neutral = record { in_string = false; in_char = false; in_brackets = false; escaped = false }

unfoldable pub flags_after : Flags → ℕ → Flags
flags_after f c =
    if c == b'"' && not f.in_char && not f.escaped
    then record f { in_string = not f.in_string; escaped = false }
    else if c == b'\'' && not f.in_string && not f.escaped
    then record f { in_char = not f.in_char; escaped = false }
    else if c == b'[' && not f.in_string && not f.in_char && not f.in_brackets && not f.escaped
    then record f { in_brackets = true; escaped = false }
    else if c == b']' && not f.in_string && not f.in_char && f.in_brackets && not f.escaped
    then record f { in_brackets = false; escaped = false }
    else if c == b'\\'
    then record f { escaped = not f.escaped }
    else record f { escaped = false }

-- Whitespace that ends a token.
unfoldable pub ends_token : Flags → ℕ → Bool
ends_token f c =
    is_space c && not f.in_string && not f.in_char && not f.in_brackets && not f.escaped

-- `end` is the text that is left; at its end the last token is added, unless it is empty.
unfoldable pub split_loop :
    (end : CString) → (in_token : Bool) → (token : CString) → Flags → List CString
unfolding flags_after ends_token
split_loop [] in_token token f = if is_blank token then [] else token ∷ []
split_loop (c ∷ end) in_token token f =
    let skipped = split_loop end false [] f in
    let added = split_loop end false [] (record f { escaped = false }) in
    let further = split_loop end true (token ++ c ∷ []) (flags_after f c) in
    if not in_token && is_space c
    then skipped
    else if ends_token f c
    then (if is_blank token then added else token ∷ added)
    else further

unfoldable pub split_args : CString → List CString
unfolding split_loop
split_args start = split_loop start false [] neutral

-- The rest of the text, and what quotes and a backslash have opened.
unfoldable pub strip_loop : CString → (in_str in_chr escaped : Bool) → CString
strip_loop [] in_str in_chr escaped = []
strip_loop (c ∷ s) in_str in_chr escaped =
    if c == b'\'' && not in_str && not escaped
    then strip_loop s in_str (not in_chr) escaped
    else if c == b'"' && not in_chr && not escaped
    then strip_loop s (not in_str) in_chr escaped
    else if c == b'\\'
    then c ∷ strip_loop s in_str in_chr (not escaped)
    else c ∷ strip_loop s in_str in_chr false

unfoldable pub strip_quotes : CString → CString
unfolding strip_loop
strip_quotes str = strip_loop str false false false

-- What argsep returns, where *stringp is afterwards (none for NULL), and *matched (0 at the end).
pub record Separated : Type 0 where
  pub start : CString
  pub left : Option CString
  pub matched : ℕ

-- The quotes and the backslash that argsep is behind.
pub record Quoting : Type 0 where
  pub in_string : Bool
  pub in_char : Bool
  pub escaped : Bool

abbrev pub unquoted : Quoting
unquoted = record { in_string = false; in_char = false; escaped = false }

-- none for a separator. A backslash stays in force as long as special characters follow one another.
unfoldable pub argsep_step : (is_delim : ℕ → Bool) → Quoting → ℕ → Option Quoting
argsep_step is_delim q c =
    if not (c == b'"' || c == b'\'' || c == b'\\' || is_delim c)
    then some (record q { escaped = false })
    else if c == b'"' && not q.in_char && not q.escaped
    then some (record q { in_string = not q.in_string })
    else if c == b'\'' && not q.in_string && not q.escaped
    then some (record q { in_char = not q.in_char })
    else if c == b'\\'
    then some (record q { escaped = not q.escaped })
    else if not q.in_string && not q.in_char && not q.escaped
    then none
    else some q

-- With what has been read since *stringp.
unfoldable pub argsep_loop :
    (is_delim : ℕ → Bool) → CString → (read : CString) → Quoting → Separated
unfolding argsep_step
argsep_loop is_delim [] read q = record { start = read; left = none; matched = 0 }
argsep_loop is_delim (c ∷ s) read q = elim (argsep_step is_delim q c) [
  | none ↦
      if is_blank read
      then argsep_loop is_delim s [] q
      else record { start = read; left = some s; matched = c }
  | some further ↦ argsep_loop is_delim s (read ++ c ∷ []) further
]

unfoldable pub argsep : (is_delim : ℕ → Bool) → CString → Separated
unfolding argsep_loop
argsep is_delim string = argsep_loop is_delim string [] unquoted

abbrev is_digit : ℕ → Bool
is_digit c = leb b'0' c && leb c b'9'

-- The byte that a character behind a backslash stands for.
abbrev pub escape_of : ℕ → Option ℕ
escape_of c =
    if c == b'a'
    then some 7
    else if c == b'b'
    then some 8
    else if c == b'f'
    then some 12
    else if c == b'n'
    then some 10
    else if c == b'r'
    then some 13
    else if c == b't'
    then some 9
    else if c == b'v'
    then some 11
    else if c == b'\\' || c == b'\'' || c == b'"' || c == b'?'
    then some c
    else none

-- The bytes afterwards, and whether the function has returned at "\0".
pub record Unescaped : Type 0 where
  pub bytes : CString
  pub has_returned : Bool

abbrev pub in_front : CString → Option Unescaped → Option Unescaped
in_front bytes none = none
in_front bytes (some u) = some (record u { bytes = bytes ++ u.bytes })

-- The digits behind "\x" and what is written over them. The loop ends at the zero that is written
-- over the first digit.
abbrev hex : CString → Option CString
hex [] = none
hex (d ∷ []) = if is_digit d then some ((d - b'0') ∷ 0 ∷ 0 ∷ []) else none
hex (d ∷ e ∷ s) =
    if is_digit d
    then (if is_digit e
        then some (((d - b'0') * 16 + (e - b'0')) ∷ 0 ∷ 0 ∷ 0 ∷ s)
        else some ((d - b'0') ∷ 0 ∷ 0 ∷ e ∷ s))
    else none

-- Behind a backslash or not; none where the loop goes over the terminating NUL.
unfoldable pub unescape_loop : CString → (behind : Bool) → Option Unescaped
unescape_loop [] false = some (record { bytes = []; has_returned = false })
unescape_loop [] true = none
unescape_loop (c ∷ string) false =
    if c == b'\\' then unescape_loop string true else in_front (c ∷ []) (unescape_loop string false)
unescape_loop (c ∷ string) true =
    let rest = unescape_loop string false in
    if c == b'0'
    then some (record { bytes = []; has_returned = true })
    else if c == b'x'
    then elim (hex string) [
      | none ↦ in_front (0 ∷ 0 ∷ []) rest
      | some written ↦ some (record { bytes = written; has_returned = false })
    ]
    else elim (escape_of c) [
      | none ↦ in_front (b'\\' ∷ c ∷ []) rest
      | some e ↦ in_front (e ∷ 0 ∷ []) rest
    ]

unfoldable pub before_nul : CString → CString
before_nul [] = []
before_nul (c ∷ s) = let rest = before_nul s in if c == 0 then [] else c ∷ rest

unfoldable pub without_nul : CString → CString
without_nul [] = []
without_nul (c ∷ s) = let rest = without_nul s in if c == 0 then rest else c ∷ rest

-- The text afterwards and the length that is returned.
abbrev pub ended : Unescaped → CString × ℕ
ended u =
    if u.has_returned
    then (before_nul u.bytes, length u.bytes)
    else (without_nul u.bytes, length (without_nul u.bytes))

unfoldable pub unescape_string : CString → Option (CString × ℕ)
unfolding unescape_loop before_nul without_nul
unescape_string string = unescape_loop string false >>= λ u. some (ended u)
