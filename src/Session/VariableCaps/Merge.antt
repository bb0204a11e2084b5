-- ===== src/Session/VariableCaps/Merge.antt =====
-- Merging truncation summaries: the sums that the merged summary has to show.
use mcp_debugger.Base.{
  ℕ, ◌≤◌, ◌+◌, ◌≡◌, refl, ◌&&◌, ◌==◌, ltb, if◌then◌else◌, Option, none, some, List, [], ◌∷◌, arith,
  Bool-cases, inl, inr,
}
use mcp_debugger.Session.VariableCaps.{
  VariableTruncationSummary, Totals, no_totals, add_summary, add_summaries, to_summary,
  merge_truncation_summaries,
}

-- A count, summed over the summaries that are there.
unfoldable pub sum_of :
    (VariableTruncationSummary → ℕ) → List (Option VariableTruncationSummary) → ℕ
sum_of count [] = 0
sum_of count (none ∷ ss) = sum_of count ss
sum_of count (some s ∷ ss) = count s + sum_of count ss

-- A summary without a count of scopes skipped none.
abbrev count_or_zero : Option ℕ → ℕ
count_or_zero none = 0
count_or_zero (some n) = n

abbrev pub scopes_of : VariableTruncationSummary → ℕ
scopes_of s = count_or_zero s.scopes_skipped

-- A count that is shown only where it is positive.
abbrev pub ShowsPositive : ℕ → Option ℕ → Type 0
ShowsPositive total none = total ≡ 0
ShowsPositive total (some n) = (n ≡ total) × (1 ≤ total)

-- What is to be reported of three sums: nothing when nothing was truncated, else each of them.
abbrev pub Reports : ℕ → ℕ → ℕ → Option VariableTruncationSummary → Type 0
Reports omitted value_truncated skipped none =
    (omitted ≡ 0) × ((value_truncated ≡ 0) × (skipped ≡ 0))
Reports omitted value_truncated skipped (some s) =
    (1 ≤ omitted + value_truncated + skipped)
    × ((s.omitted_count ≡ omitted)
        × ((s.value_truncated_count ≡ value_truncated) × ShowsPositive skipped s.scopes_skipped))

abbrev IsSum : Totals → Totals → List (Option VariableTruncationSummary) → Type 0
IsSum t u ss =
    (u.omitted ≡ t.omitted + sum_of (λ s. s.omitted_count) ss)
    × ((u.value_truncated ≡ t.value_truncated + sum_of (λ s. s.value_truncated_count) ss)
        × (u.skipped ≡ t.skipped + sum_of scopes_of ss))

count_or_zero_lem :
    (t : Totals) (s : VariableTruncationSummary)
    → (add_summary t (some s)).skipped ≡ t.skipped + scopes_of s
unfolding add_summary
count_or_zero_lem t s = ground arith

add_summaries-IsSum :
    (t : Totals) (ss : List (Option VariableTruncationSummary)) → IsSum t (add_summaries t ss) ss
unfolding add_summaries add_summary sum_of
add_summaries-IsSum t [] = (omega arith, (omega arith, omega arith))
add_summaries-IsSum t (none ∷ ss) = add_summaries-IsSum t ss
add_summaries-IsSum t (some s ∷ ss) =
    let (omitted, (cut, skipped)) = add_summaries-IsSum (add_summary t (some s)) ss in
    let more = count_or_zero_lem t s in
    (omega (arith, omitted), (omega (arith, cut), omega (arith, skipped, more)))

positive_shown : (n : ℕ) → ShowsPositive n (if ltb 0 n then some n else none)
positive_shown n = elim (Bool-cases (ltb 0 n)) [
  | inl above ↦ rw above (refl, ground (arith, above))
  | inr below ↦ rw below (ground (arith, below))
]

to_summary-Reports :
    (o v s : ℕ)
    → Reports o v s (to_summary (record { omitted = o; value_truncated = v; skipped = s }))
unfolding to_summary
to_summary-Reports o v s = elim (Bool-cases (o == 0 && (v == 0 && s == 0))) [
  | inl nothing ↦
      rw nothing (ground (arith, nothing), (ground (arith, nothing), ground (arith, nothing)))
  | inr something ↦ rw something (ground (arith, something), (refl, (refl, positive_shown s)))
]

add_summaries-totals :
    (ss : List (Option VariableTruncationSummary))
    → let t = add_summaries no_totals ss in
      (t.omitted ≡ sum_of (λ s. s.omitted_count) ss)
      × ((t.value_truncated ≡ sum_of (λ s. s.value_truncated_count) ss)
          × (t.skipped ≡ sum_of scopes_of ss))
add_summaries-totals ss =
    let (omitted, (cut, skipped)) = add_summaries-IsSum no_totals ss in
    (omega (arith, omitted), (omega (arith, cut), omega (arith, skipped)))

-- Merging summaries reports the sums of their three counts: nothing when all three are 0; else a
-- summary with the sum of the omitted variables, the sum of the cut values, and the sum of the
-- skipped scopes if that is positive. Summaries that are not there, and counts of scopes that are
-- not there, add nothing.
pub merge_truncation_summaries_lem :
    (ss : List (Option VariableTruncationSummary))
    → Reports
        (sum_of (λ s. s.omitted_count) ss)
        (sum_of (λ s. s.value_truncated_count) ss)
        (sum_of scopes_of ss)
        (merge_truncation_summaries ss)
unfolding merge_truncation_summaries
merge_truncation_summaries_lem ss =
    let t = add_summaries no_totals ss in
    let (omitted, (cut, skipped)) = add_summaries-totals ss in
    rw (← omitted, ← cut, ← skipped) (to_summary-Reports t.omitted t.value_truncated t.skipped)
