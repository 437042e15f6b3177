-- ===== src/Text.antt =====
-- C strings: their bytes, without the terminating NUL, and the functions of the C library on them
-- that the program calls. A literal is written as a native text and taken apart.
use Prim.Native.Char.{code}
use Prim.Native.String.{String}
use hayward.Common.{
  ==_iff, Bool-cases, inl, inr, sym, ◌∙◌, ℕ, ◌+◌, ◌≡◌, refl, List, [], ◌∷◌, map, Bool, true, false,
  ◌==◌, ◌&&◌, leb, if◌then◌else◌, arith,
}

abbrev pub CString : Type 0
CString = List ℕ

abbrev pub codes : String → CString
codes String.[] = []
codes (String.◌∷◌ c s) = code c ∷ codes s

-- strcmp(a, b) == 0
unfoldable pub strcmp : CString → CString → Bool
strcmp [] [] = true
strcmp [] (b ∷ r) = false
strcmp (a ∷ s) [] = false
strcmp (a ∷ s) (b ∷ r) = if a == b then strcmp s r else false

-- tolower in the C locale
unfoldable pub tolower : ℕ → ℕ
tolower c = if leb b'A' c && leb c b'Z' then c + 32 else c

-- strcasecmp(a, b) == 0
unfoldable pub strcasecmp : CString → CString → Bool
unfolding strcmp tolower
strcasecmp a b = strcmp (map tolower a) (map tolower b)

-- strncmp(s, prefix, strlen(prefix)) == 0
unfoldable pub starts_with : CString → CString → Bool
starts_with s [] = true
starts_with [] (p ∷ ps) = false
starts_with (c ∷ s) (p ∷ ps) = if c == p then starts_with s ps else false

pub strcmp_refl : (a : CString) → strcmp a a ≡ true
unfolding strcmp
strcmp_refl [] = refl
strcmp_refl (a ∷ s) = ground (arith, strcmp_refl s)

pub strcmp-equal : (a b : CString) → strcmp a b ≡ true → a ≡ b
unfolding strcmp
strcmp-equal [] [] h = refl
strcmp-equal [] (b ∷ r) h = ground (arith, h)
strcmp-equal (a ∷ s) [] h = ground (arith, h)
strcmp-equal (a ∷ s) (b ∷ r) h = elim (Bool-cases (a == b)) [
  | inl t ↦ rw ((==_iff a b).0 t, strcmp-equal s r (sym (rw (t, strcmp) refl) ∙ h)) refl
  | inr t ↦ ground (arith, t, h)
]
