-- ===== src/Strings/Unescape.antt =====
-- unescape_string of src/stringop.c on texts that are spelt with escapes.
use hayward.Common.{ℕ, ◌≡◌, refl, ap, [], ◌∷◌, some, false, ◌==◌, arith, length}
use hayward.Text.{CString}
use hayward.Strings.{
  Unescaped, in_front, escape_of, unescape_loop, without_nul, ended, unescape_string,
}

-- `Spells t s`: t is s, with backslashes in front of the characters that stand for others.
pub data Spells : CString → CString → Type 0 where
  ended_text : Spells [] []
  plain :
      {c : ℕ} {t s : CString}
      → (c == b'\\') ≡ false
      → (c == 0) ≡ false
      → Spells t s
      → Spells (c ∷ t) (c ∷ s)
  escape :
      {e c : ℕ} {t s : CString}
      → escape_of e ≡ some c
      → (c == 0) ≡ false
      → Spells t s
      → Spells (b'\\' ∷ e ∷ t) (c ∷ s)

record Raw (t s : CString) : Type 0 where
  unescaped : Unescaped
  made : unescape_loop t false ≡ some unescaped
  goes_on : unescaped.has_returned ≡ false
  kept : without_nul unescaped.bytes ≡ s

escape_of-0 : (e c : ℕ) → escape_of e ≡ some c → (e == b'0') ≡ false
escape_of-0 e c h = ground (arith, h)

escape_of-x : (e c : ℕ) → escape_of e ≡ some c → (e == b'x') ≡ false
escape_of-x e c h = ground (arith, h)

Spells-Raw : {t s : CString} → Spells t s → Raw t s
unfolding unescape_loop without_nul
Spells-Raw ended_text = record {
  unescaped = record { bytes = []; has_returned = false };
  made = refl;
  goes_on = refl;
  kept = refl;
}
Spells-Raw (plain {c} {t} {s} h k p) =
    let r = Spells-Raw p in
    record {
      unescaped = record r.unescaped { bytes = c ∷ r.unescaped.bytes };
      made = rw (h) (ap (in_front (c ∷ [])) r.made);
      goes_on = r.goes_on;
      kept = rw (k) (ap (◌∷◌ c) r.kept);
    }
Spells-Raw (escape {e} {c} {t} {s} h k p) =
    let r = Spells-Raw p in
    record {
      unescaped = record r.unescaped { bytes = c ∷ 0 ∷ r.unescaped.bytes };
      made = rw (escape_of-0 e c h, escape_of-x e c h, h) (ap (in_front (c ∷ 0 ∷ [])) r.made);
      goes_on = r.goes_on;
      kept = rw (k) (ap (◌∷◌ c) r.kept);
    }

ended-kept :
    (u : Unescaped) (s : CString)
    → u.has_returned ≡ false
    → without_nul u.bytes ≡ s
    → ended u ≡ (s, length s)
ended-kept u s h k = rw (h, k) refl

-- A text that is spelt with escapes is unescaped to the text, and its length is returned.
pub unescape_string-Spells : (t s : CString) → Spells t s → unescape_string t ≡ some (s, length s)
unfolding unescape_string
unescape_string-Spells t s p =
    let r = Spells-Raw p in rw (r.made) (ap some (ended-kept r.unescaped s r.goes_on r.kept))
