-- ===== src/Execute/Nested/Words.antt =====
-- The lines of a file of commands and blocks as config_command of src/commands.c takes them, behind
-- expand_line of src/config.c.
use hayward.Common.{
  ◌≡◌, refl, sym, ◌∙◌, ap, ℕ, List, [], ◌∷◌, ◌++◌, Option, none, some, true, false, arith, ◌==◌,
}
use mathlib.Core.List.{append_assoc, append-nil}
use hayward.ListT.Sort.Order.{All}
use hayward.ListT.Sort.Merge.{All-append}
use hayward.Text.{CString, codes, strcmp}
use hayward.Strings.{join_args}
use hayward.Strings.Words.{IsWord, scan, is_space-first, split_args-join_args}
use hayward.Commands.Args.{block, block_end}
use hayward.Execute.{starts_as}
use hayward.Execute.Line.{begins, join_args-begins}
use hayward.Execute.Command.{Globals, Surroundings}
use hayward.Execute.Reading.{ending, run_split, run_line, config_command}
use hayward.Execute.Blocks.{
  join_args-append, last_of-append, brace-IsWord, run_split-opens, config_command-words,
}
use hayward.Execute.File.{expand_line, run_expanded}
use hayward.Execute.Nested.{first_of, IsLine, IsCommand}
use hayward.Execute.Nested.Layout.{IsStripped, strcmp-longer}

begins-IsWord : (w : CString) → IsWord w → begins w ≡ true
begins-IsWord [] h = ground (arith, h.nonempty)
begins-IsWord (c ∷ w) h = let k = is_space-first c w h in ground (arith, k)

pub IsLine-IsStripped :
    (name : CString) (argv : List CString) → IsLine name argv → IsStripped (join_args (name ∷ argv))
IsLine-IsStripped name argv h = record {
  starts = join_args-begins name argv (begins-IsWord name h.words.0);
  ends = h.ends;
}

pub starts_as-join_args :
    (a : CString) (ws : List CString) (c : ℕ)
    → IsWord a
    → starts_as (join_args (a ∷ ws)) c ≡ starts_as a c
unfolding join_args
starts_as-join_args [] ws c h = ground (arith, h.nonempty)
starts_as-join_args (b ∷ a) [] c h = refl
starts_as-join_args (b ∷ a) (w ∷ ws) c h = refl

pub strcmp-command :
    (head : List CString) (name : CString) (argv : List CString)
    → IsCommand head name argv
    → strcmp (join_args (name ∷ argv)) (codes "{") ≡ false
unfolding join_args
strcmp-command head name [] h = h.no_open
strcmp-command head [] (b ∷ r) h = ground (arith, h.line.words.0.nonempty)
strcmp-command head (c ∷ w) (b ∷ r) h = strcmp-longer c w b' ' (join_args (b ∷ r))

-- The innermost of the blocks whose names are the words of `head`.
abbrev pub name_of : (head : List CString) → Option CString
name_of [] = none
name_of (h ∷ hs) = some (join_args (h ∷ hs))

pub record IsHead (head : List CString) : Type 0 where
  pub words : All IsWord head
  pub no_mode : starts_as (first_of head) b'<' ≡ false

pub expand_line-words :
    (head : List CString) (name : CString) (argv : List CString)
    → expand_line (name_of head) (join_args (name ∷ argv)) false ≡ join_args (head ++ name ∷ argv)
unfolding expand_line
expand_line-words [] name argv = append-nil (join_args (name ∷ argv))
expand_line-words (h ∷ hs) name argv =
    ap (λ x. join_args (h ∷ hs) ++ b' ' ∷ x) (append-nil (join_args (name ∷ argv)))
    ∙ join_args-append h hs name argv

-- The brace behind the name of a block is a word of its own, whoever puts it there.
pub expand_line-opening :
    (head : List CString) (name : CString) (argv : List CString)
    → expand_line (name_of head) (join_args (name ∷ argv) ++ codes " {") false
      ≡ join_args (head ++ name ∷ (argv ++ codes "{" ∷ []))
unfolding join_args
expand_line-opening head name argv =
    ap (λ x. expand_line (name_of head) x false) (join_args-append name argv (codes "{") [])
    ∙ expand_line-words head name (argv ++ codes "{" ∷ [])

pub expand_line-below :
    (head : List CString) (name : CString) (argv : List CString)
    → expand_line (name_of head) (join_args (name ∷ argv)) true
      ≡ join_args (head ++ name ∷ (argv ++ codes "{" ∷ []))
unfolding expand_line join_args
expand_line-below [] name argv = join_args-append name argv (codes "{") []
expand_line-below (h ∷ hs) name argv =
    ap (λ x. join_args (h ∷ hs) ++ b' ' ∷ x) (join_args-append name argv (codes "{") [])
    ∙ join_args-append h hs name (argv ++ codes "{" ∷ [])

strcmp-first : (a b : ℕ) (s t : CString) → (a == b) ≡ false → strcmp (a ∷ s) (b ∷ t) ≡ false
unfolding strcmp
strcmp-first a b s t h = rw (h) refl

no_commands :
    (h : CString) (hs : List CString)
    → IsHead (h ∷ hs)
    → strcmp (join_args (h ∷ hs)) (codes "<commands>") ≡ false
unfolding join_args
no_commands [] hs k = ground (arith, k.words.0.nonempty)
no_commands (a ∷ h) [] k = strcmp-first a b'<' h (codes "commands>") k.no_mode
no_commands (a ∷ h) (b ∷ hs) k =
    strcmp-first a b'<' (h ++ b' ' ∷ join_args (b ∷ hs)) (codes "commands>") k.no_mode

brace_closes-IsWord : IsWord (codes "}")
unfolding scan
brace_closes-IsWord = record { nonempty = refl; is_whole = refl }

module _ {S : Type 0} (e : Surroundings S) where
  run_expanded-IsHead :
      (head : List CString) (expanded : CString) (g : Globals S)
      → IsHead head
      → run_expanded e (name_of head) expanded g ≡ config_command e expanded g
  unfolding run_expanded
  run_expanded-IsHead [] expanded g h = refl
  run_expanded-IsHead (b ∷ r) expanded g h = rw (no_commands b r h) refl

  config_command-command :
      (head : List CString) (name : CString) (argv : List CString) (g : Globals S)
      → IsHead head
      → IsCommand head name argv
      → config_command e (join_args (head ++ name ∷ argv)) g ≡ run_line e (head ++ name ∷ argv) g
  config_command-command [] name argv g h c =
      config_command-words e name argv g c.line.words c.no_open c.no_close c.no_variable
  config_command-command (b ∷ r) name argv g h c =
      config_command-words e b (r ++ name ∷ argv) g
        (All-append IsWord (b ∷ r) (name ∷ argv) h.words c.line.words)
        (rw (last_of-append (b ∷ r) name argv) c.no_open)
        (rw (last_of-append (b ∷ r) name argv) c.no_close) c.no_variable

  -- Within the blocks whose names are the words of `head`, a command runs with these in front of it.
  pub run_expanded-command :
      (head : List CString) (name : CString) (argv : List CString) (g : Globals S)
      → IsHead head
      → IsCommand head name argv
      → run_expanded e (name_of head) (expand_line (name_of head) (join_args (name ∷ argv)) false) g
        ≡ run_line e (head ++ name ∷ argv) g
  run_expanded-command head name argv g h c =
      run_expanded-IsHead head (expand_line (name_of head) (join_args (name ∷ argv)) false) g h
      ∙ ap (λ x. config_command e x g) (expand_line-words head name argv)
      ∙ config_command-command head name argv g h c

  config_command-block :
      (a : CString) (ws : List CString) (g : Globals S)
      → All IsWord (a ∷ ws)
      → config_command e (join_args (a ∷ (ws ++ codes "{" ∷ []))) g
        ≡ some (record { status = block; new_block = some (join_args (a ∷ ws)); globals = g })
  unfolding config_command
  config_command-block a ws g w =
      ap (λ x. run_split e x g)
        (split_args-join_args (a ∷ (ws ++ codes "{" ∷ []))
          (All-append IsWord (a ∷ ws) (codes "{" ∷ []) w (brace-IsWord, tt)))
      ∙ run_split-opens e a ws g

  -- A name with a brace behind it opens a block whose name is that of the blocks it is in, and this
  -- one.
  pub run_expanded-block :
      (head : List CString) (name : CString) (argv : List CString) (g : Globals S)
      → IsHead head
      → All IsWord (name ∷ argv)
      → run_expanded e (name_of head) (join_args (head ++ name ∷ (argv ++ codes "{" ∷ []))) g
        ≡ some (record {
          status = block;
          new_block = some (join_args (head ++ name ∷ argv));
          globals = g;
        })
  run_expanded-block [] name argv g h w =
      run_expanded-IsHead [] (join_args (name ∷ (argv ++ codes "{" ∷ []))) g h
      ∙ config_command-block name argv g w
  run_expanded-block (b ∷ r) name argv g h w =
      run_expanded-IsHead (b ∷ r) (join_args (b ∷ (r ++ name ∷ (argv ++ codes "{" ∷ [])))) g h
      ∙ ap (λ x. config_command e (join_args (b ∷ x)) g)
          (sym (append_assoc r (name ∷ argv) (codes "{" ∷ [])))
      ∙ config_command-block b (r ++ name ∷ argv) g
          (All-append IsWord (b ∷ r) (name ∷ argv) h.words w)

  run_split-closes :
      (b : CString) (r : List CString) (g : Globals S)
      → run_split e (b ∷ (r ++ codes "}" ∷ [])) g ≡ some (ending block_end g)
  unfolding run_split strcmp
  run_split-closes b [] g = refl
  run_split-closes b (c ∷ r) g = rw (last_of-append (c ∷ r) (codes "}") []) refl

  pub run_expanded-closes :
      (b : CString) (r : List CString) (g : Globals S)
      → IsHead (b ∷ r)
      → run_expanded e (name_of (b ∷ r)) (expand_line (name_of (b ∷ r)) (codes "}") false) g
        ≡ some (ending block_end g)
  unfolding config_command
  run_expanded-closes b r g h =
      run_expanded-IsHead (b ∷ r) (expand_line (name_of (b ∷ r)) (codes "}") false) g h
      ∙ ap (λ x. config_command e x g) (expand_line-words (b ∷ r) (codes "}") [])
      ∙ ap (λ x. run_split e x g)
          (split_args-join_args (b ∷ (r ++ codes "}" ∷ []))
            (All-append IsWord (b ∷ r) (codes "}" ∷ []) h.words (brace_closes-IsWord, tt)))
      ∙ run_split-closes b r g
