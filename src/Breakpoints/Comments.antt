-- ===== src/Breakpoints/Comments.antt =====
-- Where a line is cut: the text before the first comment marker.
use mcp_debugger.Base.{ℕ, ◌≡◌, true, false, List, [], ◌∷◌, ◌⊎◌}
use mcp_debugger.Base.Text.{includes, starts_with}

-- Neither of two markers is left where the line is cut at the first of them.
module _ (p q : ℕ) (ps qs line : List ℕ) where
  abbrev Clear : List ℕ → Type 0
  Clear text = (includes (p ∷ ps) text ≡ false) × (includes (q ∷ qs) text ≡ false)

  -- What may follow the part that is kept.
  abbrev Ends : List ℕ → Type 0
  Ends rest =
      (rest ≡ []) ⊎ ((starts_with (p ∷ ps) rest ≡ true) ⊎ (starts_with (q ∷ qs) rest ≡ true))
