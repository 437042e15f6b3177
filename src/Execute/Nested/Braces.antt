-- ===== src/Execute/Nested/Braces.antt =====
-- detect_brace of src/config.c on the lines of a file of commands and blocks: it finds the brace of
-- the block whose name is in front, and no other.
use hayward.Common.{◌≡◌, refl, ◌∙◌, ℕ, List, ◌∷◌, ◌++◌, none, true, false}
use hayward.Text.{CString, codes, strcmp}
use hayward.Strings.{join_args}
use hayward.Execute.File.{detect_brace}
use hayward.Execute.Nested.{Items, done, blank, comment, command, within, lines_of, Fits}
use hayward.Execute.Nested.Layout.{
  detect_brace-other, detect_brace-blank, opening-IsStripped, strcmp-opening,
  strcmp-is_closed_by_brace,
}
use hayward.Execute.Nested.Words.{IsLine-IsStripped, strcmp-command}

comment-other : (text : CString) → strcmp (b'#' ∷ text) (codes "{") ≡ false
unfolding strcmp
comment-other text = refl

-- Where no brace follows the items, none is at their beginning.
pub detect_brace-lines_of :
    (items : Items) (depth : ℕ) (head : List CString) (file : List CString)
    → Fits head items
    → detect_brace file ≡ none
    → detect_brace (lines_of depth items ++ file) ≡ none
unfolding lines_of Fits
detect_brace-lines_of done depth head file h n = n
detect_brace-lines_of (blank rest) depth head file h n =
    detect_brace-blank (lines_of depth rest ++ file)
    ∙ detect_brace-lines_of rest depth head file h n
detect_brace-lines_of (comment text rest) depth head file (h, k) n =
    detect_brace-other depth (b'#' ∷ text) (lines_of depth rest ++ file)
      (record { starts = refl; ends = h }) (comment-other text)
detect_brace-lines_of (command name argv rest) depth head file (h, k) n =
    detect_brace-other depth (join_args (name ∷ argv)) (lines_of depth rest ++ file)
      (IsLine-IsStripped name argv h.line) (strcmp-command head name argv h)
detect_brace-lines_of (within name argv false body rest) depth head file (h, k, l) n =
    detect_brace-other depth (join_args (name ∷ argv) ++ codes " {") _
      (opening-IsStripped (join_args (name ∷ argv)) (IsLine-IsStripped name argv h.line))
      (strcmp-opening (join_args (name ∷ argv)))
detect_brace-lines_of (within name argv true body rest) depth head file (h, k, l) n =
    detect_brace-other depth (join_args (name ∷ argv)) _ (IsLine-IsStripped name argv h.line)
      (strcmp-is_closed_by_brace (join_args (name ∷ argv)) h.no_brace)
