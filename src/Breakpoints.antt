-- ===== src/Breakpoints.antt =====
-- src/utils/breakpoint-resolver.ts: breakpoints addressed by a line's content. Texts are lists of
-- code units. A failure keeps what its message is made from instead of the prose around it. Line
-- numbers are natural; negative and fractional ones are left out.
pub mod Matches
pub mod Comments
pub mod Resolve
pub mod Content
pub mod Tests
use mcp_debugger.Base.{
  ℕ, zero, suc, ◌+◌, ◌-◌, min, max, Bool, true, false, not, ◌&&◌, ◌||◌, Option, none, some, List,
  [], ◌∷◌, ◌++◌, ltb, leb, ◌==◌, length, take, if◌then◌else◌,
}
use mcp_debugger.Base.Number.{trim}
use mcp_debugger.Base.Text.{
  codes, is_empty, starts_with, index_of, includes, same_text, decimal, pad_start,
}

abbrev pub context_lines : ℕ
context_lines = 2

-- How an assertion matched.
pub data ContentMatchQuality : Type 0 where
  exact comment_stripped_exact substring comment_stripped : ContentMatchQuality

pub data LineContentAssertion : Type 0 where
  ok : ContentMatchQuality → (actual : List ℕ) → LineContentAssertion
  empty_expectation : LineContentAssertion
  no_such_line : (line count : ℕ) → LineContentAssertion
  mismatch : (expected actual : List ℕ) (context : List (List ℕ)) → LineContentAssertion

-- `lines[n - 1]`, for a line that is there.
abbrev pub line_at : List (List ℕ) → ℕ → List ℕ
line_at [] n = []
line_at (l ∷ ls) zero = l
line_at (l ∷ ls) (suc n) = line_at ls n

-- One line of the context: the marker, the padded number and the text.
unfoldable pub context_line : List (List ℕ) → ℕ → ℕ → ℕ → List ℕ
context_line lines line width n =
    (if n == line then b'>' else 32)
    ∷ 32
    ∷ (pad_start (width - length (decimal n)) (decimal n) ++ (codes " | " ++ line_at lines (n - 1)))

-- The lines from `n` on, as many as are left.
unfoldable pub context_from : List (List ℕ) → ℕ → ℕ → ℕ → ℕ → List (List ℕ)
unfolding context_line
context_from lines line width zero n = []
context_from lines line width (suc left) n =
    context_line lines line width n ∷ context_from lines line width left (suc n)

-- The window around a line, line by line.
unfoldable pub format_context : List (List ℕ) → ℕ → List (List ℕ)
unfolding context_from
format_context lines line =
    let start = max 1 (line - context_lines) in
    let last = min (length lines) (line + context_lines) in
    context_from lines line (length (decimal last)) (last + 1 - start) start

abbrev pub comment_cut : Option ℕ → Option ℕ → Option ℕ
comment_cut (some slashes) (some hash) = some (min slashes hash)
comment_cut (some slashes) none = some slashes
comment_cut none hash = hash

abbrev pub cut_at : Option ℕ → List ℕ → List ℕ
cut_at none line = line
cut_at (some cut) line = take cut line

unfoldable pub strip_trailing_comment : List ℕ → List ℕ
strip_trailing_comment line =
    cut_at (comment_cut (index_of (codes "//") line) (index_of (codes "#") line)) line

-- The comparisons of `assertLineContent`, in their order, on a line that is there.
unfoldable pub assert_text : List (List ℕ) → ℕ → List ℕ → List ℕ → LineContentAssertion
assert_text lines line expected_content text =
    let expected = trim expected_content in
    let actual = trim text in
    let stripped = trim (strip_trailing_comment text) in
    let stripped_expected = trim (strip_trailing_comment expected_content) in
    if same_text actual expected
    then ok exact actual
    else if same_text stripped_expected expected && same_text stripped expected
    then ok comment_stripped_exact actual
    else if includes expected actual
    then ok substring actual
    else if not (is_empty stripped_expected) && includes stripped_expected stripped
    then ok comment_stripped actual
    else mismatch expected actual (format_context lines line)

unfoldable pub assert_line_content : List (List ℕ) → ℕ → List ℕ → LineContentAssertion
assert_line_content lines line expected_content =
    if is_empty (trim expected_content)
    then empty_expectation
    else if ltb line 1 || ltb (length lines) line
    then no_such_line line (length lines)
    else assert_text lines line expected_content (line_at lines (line - 1))

unfoldable pub is_comment_or_blank : List ℕ → Bool
is_comment_or_blank statement =
    let trimmed = trim statement in
    is_empty trimmed
    || starts_with (codes "#") trimmed
    || starts_with (codes "//") trimmed
    || starts_with (codes "/*") trimmed

pub data StatementResolution : Type 0 where
  resolved : (line : ℕ) (candidates : Option (List ℕ)) → StatementResolution
  ambiguous : (matches : List ℕ) → StatementResolution
  not_a_single_line : StatementResolution
  not_executable : StatementResolution
  not_found : (target : List ℕ) → StatementResolution

-- `Math.abs(a - b)`
unfoldable pub distance : ℕ → ℕ → ℕ
distance a b = if leb a b then b - a else a - b

-- The loop that keeps the best match so far.
unfoldable pub nearest : ℕ → ℕ → List ℕ → ℕ
nearest near best [] = best
nearest near best (line ∷ lines) =
    nearest near (if ltb (distance line near) (distance best near) then line else best) lines

-- `resolveMatches` on a list of matches that is not empty.
unfoldable pub resolve_matches : ℕ → List ℕ → Option ℕ → StatementResolution
resolve_matches first [] near_line = resolved first none
resolve_matches first (second ∷ others) (some near) =
    resolved (nearest near first (first ∷ second ∷ others)) (some (first ∷ second ∷ others))
resolve_matches first (second ∷ others) none = ambiguous (first ∷ second ∷ others)

-- The numbers, from `i` on, of the lines that pass a test.
unfoldable pub matches_from : (List ℕ → Bool) → ℕ → List (List ℕ) → List ℕ
matches_from test i [] = []
matches_from test i (line ∷ lines) =
    let others = matches_from test (suc i) lines in if test line then i ∷ others else others

abbrev pub is_exact : List ℕ → List ℕ → Bool
is_exact target line = same_text (trim line) target

abbrev pub contains_code : List ℕ → List ℕ → Bool
contains_code target line =
    if is_comment_or_blank line then false else includes target (trim (strip_trailing_comment line))

-- A pass that found lines decides; otherwise the outcome is the one given.
unfoldable pub decide : List ℕ → Option ℕ → StatementResolution → StatementResolution
decide [] near_line otherwise = otherwise
decide (first ∷ others) near_line otherwise = resolve_matches first others near_line

-- The two passes.
unfoldable pub resolve_target : List (List ℕ) → List ℕ → Option ℕ → StatementResolution
resolve_target lines target near_line =
    let exact_matches = matches_from (is_exact target) 1 lines in
    let substring_matches = matches_from (contains_code target) 1 lines in
    decide exact_matches near_line (decide substring_matches near_line (not_found target))

unfoldable pub resolve_statement : List (List ℕ) → List ℕ → Option ℕ → StatementResolution
resolve_statement lines statement near_line =
    if includes (10 ∷ []) statement
    then not_a_single_line
    else if is_comment_or_blank statement
    then not_executable
    else resolve_target lines (trim statement) near_line
