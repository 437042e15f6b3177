-- ===== src/Keyboard/Active.antt =====
-- What get_active_binding of src/input/keyboard.c finds.
use hayward.Common.{◌≡◌, ◌⊎◌, ℕ, ◌<◌, ◌≤◌, List, ◌∷◌, ◌++◌, Option, none, some}
use hayward.ListT.Sort.Order.{All}
use hayward.Keyboard.Bindings.{Binding, Query}
use hayward.Keyboard.Match.{Matches}
use hayward.Keyboard.Rank.{rank}

-- The binding is the first of those that match and count most.
pub record IsChosen (q : Query) (bs : List Binding) (b : Binding) : Type 0 where
  pub before : List Binding
  pub after : List Binding
  pub split : bs ≡ before ++ b ∷ after
  pub matches : Matches q b
  pub better : All (λ c. Matches q c → rank q c < rank q b) before
  pub best : All (λ c. Matches q c → rank q c ≤ rank q b) after

abbrev pub Outcome : Query → List Binding → Option Binding → Type 0
Outcome q bs none = All (λ c. ¬ Matches q c) bs
Outcome q bs (some b) = IsChosen q bs b

-- The bindings are those at their addresses.
abbrev pub AreAt : (heap : ℕ → Binding) → List Binding → Type 0
AreAt heap = All (λ b. b ≡ heap b.address)

module _ (q : Query) (heap : ℕ → Binding) where
  -- The binding that is chosen already stays, or one that counts more is found.
  abbrev Continued : List Binding → Binding → Option Binding → Type 0
  Continued bs c r =
      ((r ≡ some c) × All (λ d. Matches q d → rank q d ≤ rank q c) bs)
      ⊎ (b : Binding) × (r ≡ some b) × (rank q c < rank q b) × IsChosen q bs b
