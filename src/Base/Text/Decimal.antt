-- ===== src/Base/Text/Decimal.antt =====
-- Printed numbers are read back, and their length is known.
use Prim.Native.Nat.{ℕ, zero, suc, ◌+◌, ◌-◌, ◌*◌, ◌/◌, ◌%◌, ◌^◌, ◌≤◌, ◌<◌}
use mathlib.Core.Path.{◌≡◌, refl, ap, ◌∙◌}
use mathlib.Core.Logic.{◌≢◌, inl, inr}
use mathlib.Core.List.{List, [], ◌∷◌, ◌++◌, reverse, reverse-reverse, reverse_aux}
use native.Mathlib.Omega.{arith}
use native.Mathlib.Nat.{pow-suc}
use mcp_debugger.Base.Tests.{ltb, Bool-cases}
use mcp_debugger.Base.Lists.{length, length-append, All, All-append}
use mcp_debugger.Base.Int.{pos}
use mcp_debugger.Base.Number.{
  is_space, trim_start, trim, is_digit, digits_value, parse_digits, parse_int, finite,
  infinity_bound,
}
use mcp_debugger.Base.Text.{digits_of, decimal}

abbrev pub IsDigit : ℕ → Type 0
IsDigit c = (48 ≤ c) × (c ≤ 57)

digits_of-IsDigit : (fuel n : ℕ) → All IsDigit (digits_of fuel n)
unfolding digits_of
digits_of-IsDigit zero n = tt
digits_of-IsDigit (suc fuel) n = elim (Bool-cases (ltb n 10)) [
  | inl small ↦ rw small (ground arith, tt)
  | inr large ↦ rw large (
      All-append IsDigit (digits_of fuel (n / 10)) _ (digits_of-IsDigit fuel (n / 10))
        (omega arith, tt))
]

digits_value-append :
    (acc : ℕ) (xs ys : List ℕ)
    → All IsDigit xs
    → digits_value acc (xs ++ ys) ≡ digits_value (digits_value acc xs) ys
unfolding digits_value is_digit
digits_value-append acc [] ys h = refl
digits_value-append acc (x ∷ xs) ys h =
    ground (arith, digits_value-append (acc * 10 + (x - 48)) xs ys h.1)

last_digit : (acc d : ℕ) → d < 10 → digits_value acc ((48 + d) ∷ []) ≡ acc * 10 + d
unfolding digits_value is_digit
last_digit acc d h = ground arith

one_digit : (d : ℕ) → d < 10 → digits_value 0 ((48 + d) ∷ []) ≡ d
one_digit d h = last_digit 0 d h ∙ omega arith

digits_value-digits_of : (fuel n : ℕ) → n < fuel → digits_value 0 (digits_of fuel n) ≡ n
unfolding digits_of
digits_value-digits_of zero n h = absurd (omega arith)
digits_value-digits_of (suc fuel) n h = elim (Bool-cases (ltb n 10)) [
  | inl small ↦ rw small (one_digit n (ground arith))
  | inr large ↦
      rw
        (
          large,
          digits_value-append 0 (digits_of fuel (n / 10)) ((48 + n % 10) ∷ [])
              (digits_of-IsDigit fuel (n / 10)),
          digits_value-digits_of fuel (n / 10) (ground arith),
        )
        (last_digit (n / 10) (n % 10) (omega arith) ∙ omega arith)
]

length-digits_of : (k fuel n : ℕ) → n < 10 ^ k → length (digits_of fuel n) ≤ k + 1
unfolding digits_of
length-digits_of k zero n h = omega arith
length-digits_of zero (suc fuel) n h = ground arith
length-digits_of (suc k) (suc fuel) n h =
    let shorter : n / 10 < 10 ^ k = omega (arith, pow-suc 10 k) in
    ground (
      arith,
      length-digits_of k fuel (n / 10) shorter,
      length-append (digits_of fuel (n / 10)) ((48 + n % 10) ∷ []),
    )

trim_start-digits : (ds : List ℕ) → All IsDigit ds → trim_start ds ≡ ds
unfolding trim_start is_space
trim_start-digits [] h = refl
trim_start-digits (d ∷ ds) h = ground arith

All-reverse_aux :
    (xs ys : List ℕ) → All IsDigit xs → All IsDigit ys → All IsDigit (reverse_aux xs ys)
All-reverse_aux [] ys h k = k
All-reverse_aux (x ∷ xs) ys h k = All-reverse_aux xs (x ∷ ys) h.1 (h.0, k)

trim-space_digits : (ds : List ℕ) → All IsDigit ds → trim (32 ∷ ds) ≡ ds
unfolding trim trim_start is_space
trim-space_digits ds h =
    rw (trim_start-digits ds h, trim_start-digits (reverse ds) (All-reverse_aux ds [] h tt))
      (reverse-reverse ds)

parse_int-digits :
    (ds : List ℕ)
    → All IsDigit ds
    → ds ≢ []
    → digits_value 0 ds < infinity_bound
    → parse_int ds ≡ finite (pos (digits_value 0 ds))
unfolding parse_int parse_digits is_digit
parse_int-digits [] h e small = absurd (e refl)
parse_int-digits (d ∷ ds) h e small = rw (trim_start-digits (d ∷ ds) h) (ground arith)

snoc-ne-nil : (xs : List ℕ) (x : ℕ) → xs ++ x ∷ [] ≢ []
snoc-ne-nil [] x e = cc
snoc-ne-nil (y ∷ xs) x e = cc

module _ (n : ℕ) where
  pub decimal-IsDigit : All IsDigit (decimal n)
  unfolding decimal
  decimal-IsDigit = digits_of-IsDigit (suc n) n

  pub digits_value-decimal : digits_value 0 (decimal n) ≡ n
  unfolding decimal
  digits_value-decimal = digits_value-digits_of (suc n) n (omega arith)

  decimal-ne-nil : decimal n ≢ []
  unfolding decimal digits_of
  decimal-ne-nil e = ground (arith, snoc-ne-nil (digits_of n (n / 10)) (48 + n % 10))

  pub length-decimal : (k : ℕ) → n < 10 ^ k → length (decimal n) ≤ k + 1
  unfolding decimal
  length-decimal k h = length-digits_of k (suc n) n h

  -- A number printed after one space is read back.
  pub parse_int-decimal : n < infinity_bound → parse_int (trim (32 ∷ decimal n)) ≡ finite (pos n)
  parse_int-decimal h = rw (trim-space_digits (decimal n) decimal-IsDigit) (
      parse_int-digits (decimal n) decimal-IsDigit decimal-ne-nil (rw digits_value-decimal h)
      ∙ ap (λ m. finite (pos m)) digits_value-decimal)
