-- ===== src/Execute/Blocks.antt =====
-- What config_command of src/commands.c makes of the lines of a block, which read_config of
-- src/config.c puts the name of the block in front of.
use hayward.Common.{◌≡◌, refl, sym, ◌∙◌, ap, List, [], ◌∷◌, ◌++◌, some, true, false}
use mathlib.Core.List.{append_assoc, append-nil}
use hayward.ListT.Sort.Order.{All}
use hayward.ListT.Sort.Merge.{All-append}
use hayward.Text.{CString, codes, strcmp}
use hayward.Strings.{join_args}
use hayward.Strings.Words.{scan, IsWord, split_args-join_args}
use hayward.Commands.Args.{block}
use hayward.Execute.{starts_as}
use hayward.Execute.Command.{Globals, Surroundings}
use hayward.Execute.Reading.{last_of, but_last, run_split, run_line, config_command}
use hayward.Execute.File.{expand_line}

pub join_args-append :
    (a : CString) (ws : List CString) (b : CString) (vs : List CString)
    → join_args (a ∷ ws) ++ b' ' ∷ join_args (b ∷ vs) ≡ join_args (a ∷ ws ++ b ∷ vs)
unfolding join_args
join_args-append a [] b vs = refl
join_args-append a (c ∷ ws) b vs =
    append_assoc a (b' ' ∷ join_args (c ∷ ws)) (b' ' ∷ join_args (b ∷ vs))
    ∙ ap (λ x. a ++ b' ' ∷ x) (join_args-append c ws b vs)

pub last_of-append :
    (ws : List CString) (b : CString) (vs : List CString)
    → last_of (ws ++ b ∷ vs) ≡ last_of (b ∷ vs)
last_of-append [] b vs = refl
last_of-append (a ∷ []) b vs = refl
last_of-append (a ∷ c ∷ ws) b vs = last_of-append (c ∷ ws) b vs

but_last-append : (ws : List CString) (b : CString) → but_last (ws ++ b ∷ []) ≡ ws
but_last-append [] b = refl
but_last-append (a ∷ []) b = refl
but_last-append (a ∷ c ∷ ws) b = ap (◌∷◌ a) (but_last-append (c ∷ ws) b)

pub brace-IsWord : IsWord (codes "{")
unfolding scan
brace-IsWord = record { nonempty = refl; is_whole = refl }

module _ {S : Type 0} (e : Surroundings S) where
  run_split-words :
      (a : CString) (ws : List CString) (g : Globals S)
      → strcmp (last_of (a ∷ ws)) (codes "{") ≡ false
      → strcmp (last_of (a ∷ ws)) (codes "}") ≡ false
      → starts_as a b'$' ≡ false
      → run_split e (a ∷ ws) g ≡ run_line e (a ∷ ws) g
  unfolding run_split
  run_split-words a [] g h k l = rw (k, l) refl
  run_split-words a (b ∷ ws) g h k l = rw (h, k, l) refl

  pub run_split-opens :
      (a : CString) (ws : List CString) (g : Globals S)
      → run_split e (a ∷ ws ++ codes "{" ∷ []) g
        ≡ some (record { status = block; new_block = some (join_args (a ∷ ws)); globals = g })
  unfolding run_split
  run_split-opens a [] g = refl
  run_split-opens a (b ∷ ws) g =
      rw (last_of-append (b ∷ ws) (codes "{") [], but_last-append (b ∷ ws) (codes "{")) refl

  pub config_command-words :
      (a : CString) (ws : List CString) (g : Globals S)
      → All IsWord (a ∷ ws)
      → strcmp (last_of (a ∷ ws)) (codes "{") ≡ false
      → strcmp (last_of (a ∷ ws)) (codes "}") ≡ false
      → starts_as a b'$' ≡ false
      → config_command e (join_args (a ∷ ws)) g ≡ run_line e (a ∷ ws) g
  unfolding config_command
  config_command-words a ws g w h k l =
      ap (λ x. run_split e x g) (split_args-join_args (a ∷ ws) w) ∙ run_split-words a ws g h k l

  -- A line of a block runs as the words of the block and of the line, where it ends with no brace.
  config_command-within :
      (a : CString) (ws : List CString) (b : CString) (vs : List CString) (g : Globals S)
      → All IsWord (a ∷ ws)
      → All IsWord (b ∷ vs)
      → strcmp (last_of (b ∷ vs)) (codes "{") ≡ false
      → strcmp (last_of (b ∷ vs)) (codes "}") ≡ false
      → starts_as a b'$' ≡ false
      → config_command e (expand_line (some (join_args (a ∷ ws))) (join_args (b ∷ vs)) false) g
        ≡ run_line e (a ∷ ws ++ b ∷ vs) g
  unfolding expand_line
  config_command-within a ws b vs g w v h k l =
      ap (λ x. config_command e (join_args (a ∷ ws) ++ b' ' ∷ x) g)
        (append-nil (join_args (b ∷ vs)))
      ∙ ap (λ x. config_command e x g) (join_args-append a ws b vs)
      ∙ config_command-words a (ws ++ b ∷ vs) g (All-append IsWord (a ∷ ws) (b ∷ vs) w v)
          (rw (last_of-append (a ∷ ws) b vs) h) (rw (last_of-append (a ∷ ws) b vs) k) l

  -- A line with a brace behind it opens a block whose name is the line, within the block it is in.
  config_command-opens :
      (a : CString) (ws : List CString) (b : CString) (vs : List CString) (g : Globals S)
      → All IsWord (a ∷ ws)
      → All IsWord (b ∷ vs)
      → config_command e (expand_line (some (join_args (a ∷ ws))) (join_args (b ∷ vs)) true) g
        ≡ some (record {
          status = block;
          new_block = some (join_args (a ∷ ws ++ b ∷ vs));
          globals = g;
        })
  unfolding expand_line config_command
  config_command-opens a ws b vs g w v =
      ap (λ x. config_command e x g)
        (ap (λ x. join_args (a ∷ ws) ++ b' ' ∷ x) (join_args-append b vs (codes "{") [])
          ∙ join_args-append a ws b (vs ++ codes "{" ∷ [])
          ∙ ap (λ x. join_args (a ∷ x)) (sym (append_assoc ws (b ∷ vs) (codes "{" ∷ []))))
      ∙ ap (λ x. run_split e x g)
          (split_args-join_args (a ∷ (ws ++ b ∷ vs) ++ codes "{" ∷ []) (
            All-append IsWord (a ∷ ws ++ b ∷ vs) (codes "{" ∷ [])
              (All-append IsWord (a ∷ ws) (b ∷ vs) w v) (brace-IsWord, tt)))
      ∙ run_split-opens a (ws ++ b ∷ vs) g
