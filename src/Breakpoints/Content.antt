-- ===== src/Breakpoints/Content.antt =====
-- What an assertion of a line's content says.
use mcp_debugger.Base.{
  ℕ, zero, suc, ◌+◌, ◌-◌, ◌≤◌, ◌<◌, ◌≡◌, ◌≢◌, ◌⊎◌, refl, ap, min, max, Bool, true, false, not, ◌&&◌,
  ◌||◌, List, [], ◌∷◌, arith, length, ltb, Bool-cases, inl, inr,
}
use mcp_debugger.Base.Number.{trim}
use mcp_debugger.Base.Text.{decimal, is_empty, includes, same_text, same_text_iff}
use mcp_debugger.Breakpoints.{
  ContentMatchQuality, exact, comment_stripped_exact, substring, comment_stripped,
  LineContentAssertion, ok, empty_expectation, no_such_line, mismatch, line_at, context_from,
  format_context, strip_trailing_comment, assert_text, assert_line_content,
}

-- What each quality says of the expectation and of the line.
abbrev pub IsQuality : List ℕ → List ℕ → ContentMatchQuality → Type 0
IsQuality expected_content text exact = trim text ≡ trim expected_content
IsQuality expected_content text comment_stripped_exact =
    (trim text ≢ trim expected_content)
    × (trim (strip_trailing_comment text) ≡ trim expected_content)
IsQuality expected_content text substring =
    (trim text ≢ trim expected_content) × (includes (trim expected_content) (trim text) ≡ true)
IsQuality expected_content text comment_stripped =
    (includes (trim expected_content) (trim text) ≡ false)
    × ((trim (strip_trailing_comment expected_content) ≢ [])
        × (includes (trim (strip_trailing_comment expected_content))
              (trim (strip_trailing_comment text))
            ≡ true))

length-context_from :
    (lines : List (List ℕ)) (line width left n : ℕ)
    → length (context_from lines line width left n) ≡ left
unfolding context_from
length-context_from lines line width zero n = refl
length-context_from lines line width (suc left) n =
    ap suc (length-context_from lines line width left (suc n))

-- The window of a line that is there has at most five lines.
length-format_context_le :
    (lines : List (List ℕ)) (line : ℕ)
    → 1 ≤ line
    → line ≤ length lines
    → (1 ≤ length (format_context lines line)) × (length (format_context lines line) ≤ 5)
unfolding format_context
length-format_context_le lines line low high =
    let start = max 1 (line - 2) in
    let last = min (length lines) (line + 2) in
    let e = length-context_from lines line (length (decimal last)) (last + 1 - start) start in
    (omega (arith, e), omega (arith, e))

abbrev pub IsAssertion : List (List ℕ) → ℕ → List ℕ → LineContentAssertion → Type 0
IsAssertion lines line expected_content (ok quality actual) =
    ((1 ≤ line) × (line ≤ length lines))
    × ((actual ≡ trim (line_at lines (line - 1)))
        × IsQuality expected_content (line_at lines (line - 1)) quality)
IsAssertion lines line expected_content empty_expectation = trim expected_content ≡ []
IsAssertion lines line expected_content (no_such_line wanted count) =
    (line ≡ 0) ⊎ (length lines < line)
IsAssertion lines line expected_content (mismatch expected actual context) =
    (includes (trim expected_content) (trim (line_at lines (line - 1))) ≡ false)
    × ((1 ≤ length context) × (length context ≤ 5))

same_text-true : (cs ds : List ℕ) → same_text cs ds ≡ true → cs ≡ ds
same_text-true cs ds h = (same_text_iff cs ds).0 h

same_text-false : (cs ds : List ℕ) → same_text cs ds ≡ false → cs ≢ ds
same_text-false cs ds h e = grind (arith, h, (same_text_iff cs ds).1 e)

and_true : (a b : Bool) → a && b ≡ true → (a ≡ true) × (b ≡ true)
and_true true b h = (refl, h)
and_true false b h = absurd (ground (arith, h))

is_empty-false : (cs : List ℕ) → not (is_empty cs) ≡ true → cs ≢ []
is_empty-false [] h e = absurd (ground (arith, h))
is_empty-false (c ∷ cs) h e = absurd (ground (arith, e))

assert_text-IsAssertion :
    (lines : List (List ℕ)) (line : ℕ) (expected_content : List ℕ)
    → 1 ≤ line
    → line ≤ length lines
    → IsAssertion lines line expected_content
        (assert_text lines line expected_content (line_at lines (line - 1)))
unfolding assert_text
assert_text-IsAssertion lines line expected_content low high =
    let text = line_at lines (line - 1) in
    let expected = trim expected_content in
    let code = trim (strip_trailing_comment text) in
    let expected_code = trim (strip_trailing_comment expected_content) in
    elim (Bool-cases (same_text (trim text) expected)) [
      | inl same ↦ rw (same, assert_text) ((low, high), (refl, same_text-true _ _ same))
      | inr other ↦
          elim (Bool-cases (same_text expected_code expected && same_text code expected)) [
            | inl both ↦
                rw (other, both, assert_text)
                  (
                    (low, high),
                    (refl, (same_text-false _ _ other, same_text-true _ _ (and_true _ _ both).1)),
                  )
            | inr split ↦ elim (Bool-cases (includes expected (trim text))) [
              | inl within ↦
                  rw (other, split, within, assert_text)
                    ((low, high), (refl, (same_text-false _ _ other, within)))
              | inr without ↦
                  elim (Bool-cases (not (is_empty expected_code) && includes expected_code code)) [
                    | inl code_within ↦
                        let parts = and_true _ _ code_within in
                        rw (other, split, without, code_within, assert_text)
                          ((low, high), (refl, (without, (is_empty-false _ parts.0, parts.1))))
                    | inr neither ↦
                        rw (other, split, without, neither, assert_text)
                          (without, length-format_context_le lines line low high)
                  ]
            ]
          ]
    ]

is_empty-true : (cs : List ℕ) → is_empty cs ≡ true → cs ≡ []
is_empty-true [] h = refl
is_empty-true (c ∷ cs) h = absurd (ground (arith, h))

-- An accepted assertion is about a line that is there, and gives its trimmed text. The quality is
-- exact where that text is the trimmed expectation; otherwise it says that the expectation is the
-- line without its comment, or part of the line, or, where it is not even that, that the two
-- without their comments match, the expected one not being empty. A refusal means that the
-- expectation is blank, that there is no such line, or that the line does not contain
-- it, and then the context has one to five lines.
pub assert_line_content-IsAssertion :
    (lines : List (List ℕ)) (line : ℕ) (expected_content : List ℕ)
    → IsAssertion lines line expected_content (assert_line_content lines line expected_content)
unfolding assert_line_content
assert_line_content-IsAssertion lines line expected_content =
    elim (Bool-cases (is_empty (trim expected_content))) [
      | inl blank ↦ rw (blank, assert_line_content) (is_empty-true _ blank)
      | inr filled ↦ elim (Bool-cases (ltb line 1 || ltb (length lines) line)) [
        | inl outside ↦ rw (filled, outside, assert_line_content) (ground (arith, outside))
        | inr inside ↦
            rw (filled, inside, assert_line_content)
              (assert_text-IsAssertion lines line expected_content (ground (arith, inside))
                (ground (arith, inside)))
      ]
    ]
