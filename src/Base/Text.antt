-- ===== src/Base/Text.antt =====
-- Searching a text or a buffer, given as a list of code units or bytes, and printing a number.
pub mod Search
pub mod Decimal
use Prim.Native.Nat.{ℕ, zero, suc, ◌+◌, ◌%◌, ◌/◌}
use Prim.Native.Char.{code}
use Prim.Native.String.{String}
use mathlib.Core.Path.{◌≡◌}
use mathlib.Core.Logic.{◌↔◌}
use native.Mathlib.Omega.{arith}
use mathlib.Core.Bool.{Bool, true, false, ◌&&◌}
use mathlib.Core.List.{List, [], ◌∷◌, ◌++◌}
use mathlib.Core.Option
use mathlib.Core.Option.{Option, none, some}
use mcp_debugger.Base.Tests.{◌==◌, ltb, leb, if◌then◌else◌}

abbrev pub codes : String → List ℕ
codes String.[] = []
codes (String.◌∷◌ c s) = code c ∷ codes s

abbrev pub is_empty : List ℕ → Bool
is_empty [] = true
is_empty (c ∷ cs) = false

-- Whether the second list starts with the first.
abbrev pub starts_with : List ℕ → List ℕ → Bool
starts_with [] cs = true
starts_with (p ∷ ps) [] = false
starts_with (p ∷ ps) (c ∷ cs) = p == c && starts_with ps cs

-- `text.indexOf(pattern)`, where -1 is `none`.
unfoldable pub index_of : List ℕ → List ℕ → Option ℕ
index_of pat [] = if starts_with pat [] then some 0 else none
index_of pat (c ∷ cs) =
    if starts_with pat (c ∷ cs) then some 0 else Option.map suc (index_of pat cs)

-- `text.includes(pattern)`
unfoldable pub includes : List ℕ → List ℕ → Bool
includes pat [] = starts_with pat []
includes pat (c ∷ cs) = if starts_with pat (c ∷ cs) then true else includes pat cs

-- `toLowerCase` on ASCII letters.
unfoldable pub lower : ℕ → ℕ
lower c = if leb b'A' c && leb c b'Z' then c + 32 else c

-- A number in decimal digits, without leading zeros.
unfoldable pub digits_of : ℕ → ℕ → List ℕ
digits_of zero n = []
digits_of (suc fuel) n =
    let rest = digits_of fuel (n / 10) in
    if ltb n 10 then (b'0' + n) ∷ [] else rest ++ (b'0' + n % 10) ∷ []

unfoldable pub decimal : ℕ → List ℕ
unfolding digits_of
decimal n = digits_of (suc n) n

-- `a === b` on texts.
unfoldable pub same_text : List ℕ → List ℕ → Bool
same_text [] [] = true
same_text [] (d ∷ ds) = false
same_text (c ∷ cs) [] = false
same_text (c ∷ cs) (d ∷ ds) = c == d && same_text cs ds

pub same_text_iff : (cs ds : List ℕ) → (same_text cs ds ≡ true) ↔ (cs ≡ ds)
unfolding same_text
same_text_iff [] [] = ground arith
same_text_iff [] (d ∷ ds) = ground arith
same_text_iff (c ∷ cs) [] = ground arith
same_text_iff (c ∷ cs) (d ∷ ds) = ground (arith, same_text_iff cs ds)

-- `text.padStart(width)`
unfoldable pub pad_start : ℕ → List ℕ → List ℕ
pad_start zero cs = cs
pad_start (suc missing) cs = 32 ∷ pad_start missing cs
