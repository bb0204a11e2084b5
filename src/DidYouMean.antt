-- ===== src/DidYouMean.antt =====
-- src/utils/did-you-mean.ts: the suggestion for a misspelt key. Texts are lists of code units, and
-- `toLowerCase` is an argument.
pub mod Distance
pub mod Closest
pub mod Tests
use mcp_debugger.Base.{
  ℕ, zero, suc, ◌+◌, min, Bool, true, false, ◌&&◌, Option, none, some, List, [], ◌∷◌, length, ltb,
  leb, ◌==◌, if◌then◌else◌,
}

-- `a[i - 1] === b[j - 1] ? 0 : 1`
abbrev pub cost : ℕ → ℕ → ℕ
cost c d = if c == d then 0 else 1

abbrev pub cell : ℕ → ℕ → ℕ → ℕ → ℕ → ℕ
cell c d above left diagonal = min (min (above + 1) (left + 1)) (diagonal + cost c d)

-- A row of the matrix behind its first cell, from the row above it: `diagonal` and the row's start
-- are the cells before it, `left` is the cell that was filled last.
unfoldable pub fill_row : ℕ → List ℕ → ℕ → List ℕ → ℕ → List ℕ
fill_row c [] diagonal above left = []
fill_row c (d ∷ ds) diagonal [] left = []
fill_row c (d ∷ ds) diagonal (a ∷ above) left =
    cell c d a left diagonal ∷ fill_row c ds a above (cell c d a left diagonal)

-- The first row: the numbers above `n`, one for each unit.
unfoldable pub count_from : ℕ → List ℕ → List ℕ
count_from n [] = []
count_from n (d ∷ ds) = suc n ∷ count_from (suc n) ds

-- The rows from row `i` on; the last one is left.
unfoldable pub fill_rows : ℕ → List ℕ → List ℕ → List ℕ → List ℕ
fill_rows i [] ds row = row
fill_rows i (c ∷ cs) ds row = fill_rows (suc i) cs ds (fill_row c ds i row (suc i))

abbrev pub last_or : ℕ → List ℕ → ℕ
last_or n [] = n
last_or n (m ∷ ms) = last_or m ms

unfoldable pub levenshtein : List ℕ → List ℕ → ℕ
levenshtein [] b = length b
levenshtein (c ∷ a) [] = suc (length a)
levenshtein (c ∷ a) (d ∷ b) =
    last_or (suc (length a)) (fill_rows 0 (c ∷ a) (d ∷ b) (count_from 0 (d ∷ b)))

abbrev pub closer : ℕ → ℕ → Option (ℕ × List ℕ) → List ℕ → Option (ℕ × List ℕ)
closer threshold distance none valid =
    if leb distance threshold then some (distance, valid) else none
closer threshold distance (some (best, closest)) valid =
    if leb distance threshold && ltb distance best
    then some (distance, valid)
    else some (best, closest)

-- The loop, with the closest match so far and its distance.
unfoldable pub closest_of :
    (List ℕ → ℕ) → ℕ → Option (ℕ × List ℕ) → List (List ℕ) → Option (ℕ × List ℕ)
closest_of distance threshold best [] = best
closest_of distance threshold best (valid ∷ others) =
    closest_of distance threshold (closer threshold (distance valid) best valid) others

abbrev pub text_of : Option (ℕ × List ℕ) → Option (List ℕ)
text_of none = none
text_of (some (distance, text)) = some text

abbrev pub threshold_for : List ℕ → ℕ → ℕ
threshold_for target threshold = if leb (length target) 4 then 1 else threshold

unfoldable pub did_you_mean : (List ℕ → List ℕ) → List ℕ → List (List ℕ) → ℕ → Option (List ℕ)
unfolding closest_of
did_you_mean to_lower_case target valid_strings threshold = text_of (
    closest_of (λ valid. levenshtein (to_lower_case target) (to_lower_case valid))
      (threshold_for target threshold) none valid_strings)
