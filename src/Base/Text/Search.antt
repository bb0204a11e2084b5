-- ===== src/Base/Text/Search.antt =====
-- Where a separator stands behind a text that cannot hold its beginning.
use Prim.Native.Nat.{ℕ, ◌+◌, ◌≤◌}
use mathlib.Core.Path.{◌≡◌, refl}
use mathlib.Core.Logic.{◌≢◌, inl, inr}
use mathlib.Core.Bool.{true}
use mathlib.Core.List.{List, [], ◌∷◌, ◌++◌}
use mathlib.Core.Option.{none, some}
use native.Mathlib.Omega.{arith}
use mcp_debugger.Base.Tests.{Bool-cases, Option-cases}
use mcp_debugger.Base.Lists.{length, drop, All}
use mcp_debugger.Base.Text.{index_of, starts_with}

module _ {ℓ} {A : Type ℓ} where
  -- Two ways to cut one list, at the end of the shorter front part.
  pub append-split :
      (xs ys front back : List A)
      → xs ++ ys ≡ front ++ back
      → length front ≤ length xs
      → (xs ≡ front ++ drop (length front) xs) × (drop (length front) xs ++ ys ≡ back)
  append-split xs ys [] back e h = (refl, e)
  append-split [] ys (f ∷ front) back e h = absurd (omega arith)
  append-split (x ∷ xs) ys (f ∷ front) back e h =
      let rest : xs ++ ys ≡ front ++ back = cc in
      let ih = append-split xs ys front back rest (omega arith) in
      let same : x ≡ f = cc in (cc (ih.0, same), ih.1)

abbrev pub Lacks : ℕ → List ℕ → Type 0
Lacks p = All (λ c. c ≢ p)

-- The separator is found right behind a text without its first element.
pub index_of-append :
    (p : ℕ) (ps text rest : List ℕ)
    → Lacks p text
    → starts_with ps (ps ++ rest) ≡ true
    → index_of (p ∷ ps) (text ++ (p ∷ ps) ++ rest) ≡ some (length text)
unfolding index_of
index_of-append p ps [] rest h s = ground (arith, s)
index_of-append p ps (c ∷ text) rest h s = ground (arith, index_of-append p ps text rest h.1 s)

nothing-after : (start rest : List ℕ) → start ++ rest ≡ [] → rest ≡ []
nothing-after [] rest e = e
nothing-after (s ∷ start) rest e = cc

-- Nothing is found in what is shorter than such a text with its separator.
pub two_lines-none :
    (text start rest : List ℕ)
    → Lacks 13 text
    → start ++ rest ≡ text ++ 13 ∷ 10 ∷ 13 ∷ 10 ∷ []
    → rest ≢ []
    → index_of (13 ∷ 10 ∷ 13 ∷ 10 ∷ []) start ≡ none
unfolding index_of
two_lines-none text [] rest h e more = refl
two_lines-none (c ∷ text) (d ∷ start) rest h e more =
    let tails : start ++ rest ≡ text ++ 13 ∷ 10 ∷ 13 ∷ 10 ∷ [] = cc in
    ground (arith, two_lines-none text start rest h.1 tails more)
two_lines-none [] (d ∷ []) rest h e more = ground arith
two_lines-none [] (d ∷ c ∷ []) rest h e more = ground arith
two_lines-none [] (d ∷ c ∷ b ∷ []) rest h e more = ground arith
two_lines-none [] (d ∷ c ∷ b ∷ a ∷ start) rest h e more =
    absurd (more (nothing-after start rest (cc)))

starts_with-le : (pat cs : List ℕ) → starts_with pat cs ≡ true → length pat ≤ length cs
starts_with-le [] cs h = omega arith
starts_with-le (p ∷ pat) [] h = cc
starts_with-le (p ∷ pat) (c ∷ cs) h = ground (arith, starts_with-le pat cs)

-- What is found lies inside.
pub index_of-le :
    (pat cs : List ℕ) (at : ℕ) → index_of pat cs ≡ some at → at + length pat ≤ length cs
unfolding index_of
index_of-le pat [] at h = ground (arith, starts_with-le pat [])
index_of-le pat (c ∷ cs) at h = elim (Bool-cases (starts_with pat (c ∷ cs))) [
  | inl here ↦ ground (arith, here, starts_with-le pat (c ∷ cs) here)
  | inr later ↦ elim (Option-cases (index_of pat cs)) [
    | inl missing ↦ absurd (ground (arith, missing, later))
    | inr (k, found) ↦ ground (arith, found, later, index_of-le pat cs k found)
  ]
]
