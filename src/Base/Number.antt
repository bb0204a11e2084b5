-- ===== src/Base/Number.antt =====
-- `Number.parseInt(text, 10)` and `trim` on a text given by its code units.
-- A value is exact below 2^53; past the largest double it is Infinity.
use Prim.Native.Nat.{ℕ, ◌+◌, ◌-◌, ◌*◌, ◌^◌, zero, suc}
use mathlib.Core.Bool.{Bool, true, false, ◌&&◌, ◌||◌}
use mathlib.Core.List.{List, [], ◌∷◌, reverse}
use mcp_debugger.Base.Tests.{leb, ◌==◌, if◌then◌else◌}
use mcp_debugger.Base.Int.{ℤ, pos, negsuc}

-- The white space and line terminators of ECMAScript.
unfoldable pub is_space : ℕ → Bool
is_space c =
    (leb 9 c && leb c 13)
    || c == 32
    || c == 0xA0
    || c == 0x1680
    || (leb 0x2000 c && leb c 0x200A)
    || c == 0x2028
    || c == 0x2029
    || c == 0x202F
    || c == 0x205F
    || c == 0x3000
    || c == 0xFEFF

unfoldable pub trim_start : List ℕ → List ℕ
unfolding is_space
trim_start [] = []
trim_start (c ∷ cs) = if is_space c then trim_start cs else c ∷ cs

unfoldable pub trim : List ℕ → List ℕ
unfolding trim_start
trim cs = reverse (trim_start (reverse (trim_start cs)))

unfoldable pub is_digit : ℕ → Bool
is_digit c = leb b'0' c && leb c b'9'

pub data Parsed : Type 0 where
  nan : Parsed
  infinite : Parsed
  finite : ℤ → Parsed

-- The least natural number that rounds to Infinity.
unfoldable pub infinity_bound : ℕ
infinity_bound = 2 ^ 1024 - 2 ^ 970

-- The digits at the front, after `acc`.
unfoldable pub digits_value : ℕ → List ℕ → ℕ
unfolding is_digit
digits_value acc [] = acc
digits_value acc (c ∷ cs) =
    let rest = digits_value (acc * 10 + (c - b'0')) cs in if is_digit c then rest else acc

abbrev negate : ℕ → ℤ
negate zero = pos 0
negate (suc n) = negsuc n

abbrev sized : Bool → ℕ → Parsed
sized negative n =
    if leb infinity_bound n then infinite else finite (if negative then negate n else pos n)

-- The digits after the sign; at least one is needed.
unfoldable pub parse_digits : Bool → List ℕ → Parsed
unfolding is_digit digits_value infinity_bound
parse_digits negative [] = nan
parse_digits negative (c ∷ cs) =
    if is_digit c then sized negative (digits_value 0 (c ∷ cs)) else nan

abbrev signed : List ℕ → Parsed
signed [] = nan
signed (c ∷ cs) =
    if c == b'-'
    then parse_digits true cs
    else if c == b'+'
    then parse_digits false cs
    else parse_digits false (c ∷ cs)

unfoldable pub parse_int : List ℕ → Parsed
unfolding trim_start parse_digits
parse_int cs = signed (trim_start cs)
