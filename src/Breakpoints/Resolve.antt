-- ===== src/Breakpoints/Resolve.antt =====
-- What a resolved statement says about the lines.
use mcp_debugger.Base.{
  ℕ, ◌<◌, ◌≡◌, refl, subst, ◌⊎◌, Bool, false, Option, none, some, List, [], ◌∷◌, arith, All, length,
  inl, inr,
}
use mcp_debugger.Base.Number.{trim}
use mcp_debugger.Base.Text.{includes}
use mcp_debugger.Breakpoints.{
  matches_from, is_exact, contains_code, is_comment_or_blank, StatementResolution, resolved,
  ambiguous, not_found, not_a_single_line, not_executable, resolve_matches, decide, resolve_target,
  resolve_statement,
}
use mcp_debugger.Breakpoints.Matches.{
  IsMatch, matches_from-All, matches_from-nil, nearest-All, matches_from-Occurs, Occurs, Ascending,
  matches_from-Ascending, Beats, nearest-Beats,
}

abbrev pub NearestOf : Option ℕ → ℕ → List ℕ → Type 0
NearestOf none n candidates = Unit
NearestOf (some near) n candidates = All (Beats near n) candidates

-- The numbers that satisfy `P`, all of them and no others.
abbrev pub Lists : (ℕ → Type 0) → List ℕ → Type 0
Lists P ns = All P ns × ((m : ℕ) → P m → Occurs m ns)

-- What an outcome says of the lines whose numbers satisfy `P`, where `Q` says that there are none.
abbrev pub Explains : (ℕ → Type 0) → Type 0 → Option ℕ → StatementResolution → Type 0
Explains P Q near_line (resolved n none) = Lists P (n ∷ [])
Explains P Q near_line (resolved n (some candidates)) =
    P n × (Lists P candidates × NearestOf near_line n candidates)
Explains P Q near_line (ambiguous candidates) =
    Lists P candidates × ((near_line ≡ none) × (1 < length candidates))
Explains P Q near_line (not_found target) = Q
Explains P Q near_line not_a_single_line = ⊥
Explains P Q near_line not_executable = ⊥

resolve_matches-Explains :
    (P : ℕ → Type 0) (Q : Type 0) (first : ℕ) (others : List ℕ) (near_line : Option ℕ)
    → Lists P (first ∷ others)
    → Ascending 1 (first ∷ others)
    → Explains P Q near_line (resolve_matches first others near_line)
unfolding resolve_matches
resolve_matches-Explains P Q first [] near_line h a = h
resolve_matches-Explains P Q first (second ∷ others) (some near) h a =
    let candidates = first ∷ second ∷ others in
    let beats = nearest-Beats near first first candidates (omega arith) (omega arith, a.1) in
    (nearest-All P near first candidates h.0.0 h.0, (h, beats.1))
resolve_matches-Explains P Q first (second ∷ others) none h a = (h, (refl, omega arith))

matches-Explains :
    (test : List ℕ → Bool) (lines : List (List ℕ)) (Q : Type 0) (first : ℕ) (others : List ℕ)
    (near_line : Option ℕ)
    → matches_from test 1 lines ≡ first ∷ others
    → Explains (IsMatch test 1 lines) Q near_line (resolve_matches first others near_line)
matches-Explains test lines Q first others near_line e =
    resolve_matches-Explains (IsMatch test 1 lines) Q first others near_line
      (subst (Lists (IsMatch test 1 lines)) e
        (matches_from-All test 1 lines, λ m here. matches_from-Occurs test 1 m lines here))
      (subst (Ascending 1) e (matches_from-Ascending test 1 lines))

-- A line, addressed by its number, whose trimmed text is the target.
abbrev pub IsExact : List ℕ → List (List ℕ) → ℕ → Type 0
IsExact target lines n = IsMatch (is_exact target) 1 lines n

-- A line with code that contains the target, a trailing comment left aside.
abbrev pub IsPartial : List ℕ → List (List ℕ) → ℕ → Type 0
IsPartial target lines n = IsMatch (contains_code target) 1 lines n

abbrev pub NoExact : List ℕ → List (List ℕ) → Type 0
NoExact target lines = All (λ line. is_exact target line ≡ false) lines

abbrev pub NoPartial : List ℕ → List (List ℕ) → Type 0
NoPartial target lines = All (λ line. contains_code target line ≡ false) lines

-- An outcome is about the exact lines, or, where there are none, about the partial ones.
abbrev pub IsResolution : List (List ℕ) → List ℕ → Option ℕ → StatementResolution → Type 0
IsResolution lines target near_line outcome =
    Explains (IsExact target lines) ⊥ near_line outcome
    ⊎ (NoExact target lines
        × Explains (IsPartial target lines) (NoPartial target lines) near_line outcome)

decide-IsPartial :
    (lines : List (List ℕ)) (target : List ℕ) (near_line : Option ℕ) (found : List ℕ)
    → matches_from (contains_code target) 1 lines ≡ found
    → Explains
        (IsPartial target lines)
        (NoPartial target lines)
        near_line
        (decide found near_line (not_found target))
unfolding decide
decide-IsPartial lines target near_line [] e = matches_from-nil (contains_code target) 1 lines e
decide-IsPartial lines target near_line (first ∷ others) e =
    matches-Explains (contains_code target) lines (NoPartial target lines) first others near_line e

decide-IsResolution :
    (lines : List (List ℕ)) (target : List ℕ) (near_line : Option ℕ) (found : List ℕ)
    (otherwise : StatementResolution)
    → matches_from (is_exact target) 1 lines ≡ found
    → Explains (IsPartial target lines) (NoPartial target lines) near_line otherwise
    → IsResolution lines target near_line (decide found near_line otherwise)
unfolding decide
decide-IsResolution lines target near_line [] otherwise e h =
    inr (matches_from-nil (is_exact target) 1 lines e, h)
decide-IsResolution lines target near_line (first ∷ others) otherwise e h =
    inl (matches-Explains (is_exact target) lines ⊥ first others near_line e)

resolve_target-IsResolution :
    (lines : List (List ℕ)) (target : List ℕ) (near_line : Option ℕ)
    → IsResolution lines target near_line (resolve_target lines target near_line)
unfolding resolve_target
resolve_target-IsResolution lines target near_line =
    decide-IsResolution lines target near_line _ _ refl
      (decide-IsPartial lines target near_line _ refl)

-- For a statement that is one line and no comment, the outcome is about the lines whose trimmed
-- text is the trimmed statement or, only where there is no such line, about the lines of code
-- that contain it once a trailing comment is cut. A line given without candidates is the only such
-- line; a line given with candidates is such a line, the candidates are all such lines, and none of
-- them is nearer to the near line, nor as near and lower; an ambiguity lists all such lines, at
-- least two, and no near line was given; not found means that no line matches either way.
pub resolve_statement-IsResolution :
    (lines : List (List ℕ)) (statement : List ℕ) (near_line : Option ℕ)
    → includes (10 ∷ []) statement ≡ false
    → is_comment_or_blank statement ≡ false
    → IsResolution lines (trim statement) near_line (resolve_statement lines statement near_line)
unfolding resolve_statement
resolve_statement-IsResolution lines statement near_line single code =
    rw (single, code) (resolve_target-IsResolution lines (trim statement) near_line)
