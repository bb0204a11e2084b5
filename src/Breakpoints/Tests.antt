-- ===== src/Breakpoints/Tests.antt =====
-- The resolver on a small file.
use mcp_debugger.Base.{ℕ, ◌≡◌, refl, false, none, some, List, [], ◌∷◌}
use mcp_debugger.Base.Number.{trim}
use mcp_debugger.Base.Text.{codes, index_of, includes, same_text, decimal, digits_of, pad_start}
use mcp_debugger.Breakpoints.{
  comment_stripped_exact, ok, mismatch, context_line, context_from, format_context,
  strip_trailing_comment, assert_text, assert_line_content, is_comment_or_blank, resolved,
  ambiguous, distance, nearest, resolve_matches, matches_from, decide, resolve_target,
  resolve_statement,
}
use mcp_debugger.Breakpoints.Content.{IsAssertion, assert_line_content-IsAssertion}
use mcp_debugger.Breakpoints.Resolve.{IsResolution, resolve_statement-IsResolution}

abbrev file : List (List ℕ)
file =
    codes "x = 1" ∷ codes "# x = 2" ∷ codes "  y = 2 # two" ∷ codes "x = 1" ∷ codes "print(y)" ∷ []

nearest_of_two : resolve_statement file (codes "x = 1") (some 3) ≡ resolved 4 (some (1 ∷ 4 ∷ []))
unfolding resolve_statement resolve_target decide matches_from resolve_matches nearest distance
    is_comment_or_blank includes same_text trim strip_trailing_comment index_of
nearest_of_two = refl

two_matches : resolve_statement file (codes "x = 1") none ≡ ambiguous (1 ∷ 4 ∷ [])
unfolding resolve_statement resolve_target decide matches_from resolve_matches nearest distance
    is_comment_or_blank includes same_text trim strip_trailing_comment index_of
two_matches = refl

without_comment : resolve_statement file (codes "y = 2") none ≡ resolved 3 none
unfolding resolve_statement resolve_target decide matches_from resolve_matches nearest distance
    is_comment_or_blank includes same_text trim strip_trailing_comment index_of
without_comment = refl

whole_code :
    assert_line_content file 3 (codes "y = 2") ≡ ok comment_stripped_exact (codes "y = 2 # two")
unfolding assert_line_content assert_text trim same_text includes strip_trailing_comment index_of
whole_code = refl

marked :
    assert_line_content file 1 (codes "z")
    ≡ mismatch
        (codes "z")
        (codes "x = 1")
        (codes "> 1 | x = 1" ∷ codes "  2 | # x = 2" ∷ codes "  3 |   y = 2 # two" ∷ [])
unfolding assert_line_content assert_text trim same_text includes strip_trailing_comment index_of
    format_context context_from context_line decimal digits_of pad_start
marked = refl

single_line : includes (10 ∷ []) (codes "x = 1") ≡ false
unfolding includes
single_line = refl

code_line : is_comment_or_blank (codes "x = 1") ≡ false
unfolding is_comment_or_blank trim
code_line = refl

resolve_statement-IsResolution_example :
    IsResolution file
      (trim (codes "x = 1"))
      (some 3)
      (resolve_statement file (codes "x = 1") (some 3))
resolve_statement-IsResolution_example =
    resolve_statement-IsResolution file (codes "x = 1") (some 3) single_line code_line

assert_line_content-IsAssertion_example :
    IsAssertion file 3 (codes "y = 2") (assert_line_content file 3 (codes "y = 2"))
assert_line_content-IsAssertion_example = assert_line_content-IsAssertion file 3 (codes "y = 2")
