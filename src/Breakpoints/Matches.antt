-- ===== src/Breakpoints/Matches.antt =====
-- The lists of matching lines, and the choice of the nearest.
use mcp_debugger.Base.{
  ℕ, zero, suc, ◌+◌, ◌-◌, ◌≤◌, ◌≡◌, ◌⊎◌, refl, sym, ap, subst, ◌∙◌, Bool, true, false, some, List,
  [], ◌∷◌, arith, All, get_elem?, ltb, ltb→lt, Bool-cases, inl, inr,
}
use mcp_debugger.Breakpoints.{distance, nearest, matches_from}

-- A match, counted from `i`: the line is there and passes the test.
abbrev pub IsMatch : (List ℕ → Bool) → ℕ → List (List ℕ) → ℕ → Type 0
IsMatch test i lines n =
    (i ≤ n) × ((text : List ℕ) × (get_elem? lines (n - i) ≡ some text) × (test text ≡ true))

IsMatch-later :
    (test : List ℕ → Bool) (i : ℕ) (line : List ℕ) (lines : List (List ℕ)) (n : ℕ)
    → IsMatch test (suc i) lines n
    → IsMatch test i (line ∷ lines) n
IsMatch-later test i line lines n (above, (text, there, passes)) =
    let e : n - i ≡ suc (n - suc i) = omega arith in (omega arith, (text, rw e there, passes))

All-IsMatch-later :
    (test : List ℕ → Bool) (i : ℕ) (line : List ℕ) (lines : List (List ℕ)) (ns : List ℕ)
    → All (IsMatch test (suc i) lines) ns
    → All (IsMatch test i (line ∷ lines)) ns
All-IsMatch-later test i line lines [] h = tt
All-IsMatch-later test i line lines (n ∷ ns) (m, h) =
    (IsMatch-later test i line lines n m, All-IsMatch-later test i line lines ns h)

pub matches_from-All :
    (test : List ℕ → Bool) (i : ℕ) (lines : List (List ℕ))
    → All (IsMatch test i lines) (matches_from test i lines)
unfolding matches_from
matches_from-All test i [] = tt
matches_from-All test i (line ∷ lines) =
    let later = All-IsMatch-later test i line lines _ (matches_from-All test (suc i) lines) in
    elim (Bool-cases (test line)) [
      | inl passes ↦
          let e : i - i ≡ 0 = omega arith in
          rw passes ((omega arith, (line, rw e refl, passes)), later)
      | inr fails ↦ rw fails later
    ]

pub matches_from-nil :
    (test : List ℕ → Bool) (i : ℕ) (lines : List (List ℕ))
    → matches_from test i lines ≡ []
    → All (λ line. test line ≡ false) lines
unfolding matches_from
matches_from-nil test i [] h = tt
matches_from-nil test i (line ∷ lines) h = ground (arith, matches_from-nil test (suc i) lines)

-- What holds of every number of the list holds of the number of each line that passes.
matches_from_covers :
    (P : ℕ → Type 0) (test : List ℕ → Bool) (i d : ℕ) (lines : List (List ℕ)) (text : List ℕ)
    → get_elem? lines d ≡ some text
    → test text ≡ true
    → All P (matches_from test i lines)
    → P (d + i)
unfolding matches_from
matches_from_covers P test i d [] text there passes h = absurd (grind (arith, there))
matches_from_covers P test i zero (line ∷ lines) text there passes h =
    let e : line ≡ text = grind (arith, there) in
    let passes' : test line ≡ true = ap test e ∙ passes in
    let unit : i ≡ zero + i = omega arith in subst P unit (simp passes' at h).0
matches_from_covers P test i (suc d) (line ∷ lines) text there passes h =
    let e : d + suc i ≡ suc d + i = omega arith in
    let later = matches_from_covers P test (suc i) d lines text there passes in
    elim (Bool-cases (test line)) [
      | inl found ↦ subst P e (later (simp found at h).1)
      | inr lost ↦ subst P e (later (simp lost at h))
    ]

IsMatch-All :
    (P : ℕ → Type 0) (test : List ℕ → Bool) (i n : ℕ) (lines : List (List ℕ))
    → IsMatch test i lines n
    → All P (matches_from test i lines)
    → P n
IsMatch-All P test i n lines (above, (text, there, passes)) h =
    let e : (n - i) + i ≡ n = omega arith in
    subst P e (matches_from_covers P test i (n - i) lines text there passes h)

-- The numbers rise.
abbrev pub Ascending : ℕ → List ℕ → Type 0
Ascending low [] = Unit {0}
Ascending low (n ∷ ns) = (low ≤ n) × Ascending (suc n) ns

Ascending-mono : (low high : ℕ) (ns : List ℕ) → low ≤ high → Ascending high ns → Ascending low ns
Ascending-mono low high [] h a = tt
Ascending-mono low high (n ∷ ns) h a = (omega arith, a.1)

pub matches_from-Ascending :
    (test : List ℕ → Bool) (i : ℕ) (lines : List (List ℕ)) → Ascending i (matches_from test i lines)
unfolding matches_from
matches_from-Ascending test i [] = tt
matches_from-Ascending test i (line ∷ lines) =
    let later = matches_from-Ascending test (suc i) lines in
    elim (Bool-cases (test line)) [
      | inl passes ↦ rw passes (omega arith, later)
      | inr fails ↦ rw fails (Ascending-mono i (suc i) _ (omega arith) later)
    ]

nearest-closer :
    (near best n : ℕ) (ns : List ℕ)
    → ltb (distance n near) (distance best near) ≡ true
    → nearest near best (n ∷ ns) ≡ nearest near n ns
unfolding nearest
nearest-closer near best n ns h = rw h refl

nearest-farther :
    (near best n : ℕ) (ns : List ℕ)
    → ltb (distance n near) (distance best near) ≡ false
    → nearest near best (n ∷ ns) ≡ nearest near best ns
unfolding nearest
nearest-farther near best n ns h = rw h refl

-- The nearest match is one of the matches.
pub nearest-All :
    (P : ℕ → Type 0) (near best : ℕ) (ns : List ℕ) → P best → All P ns → P (nearest near best ns)
unfolding nearest
nearest-All P near best [] b h = b
nearest-All P near best (n ∷ ns) b h =
    elim (Bool-cases (ltb (distance n near) (distance best near))) [
      | inl closer ↦
          subst P (sym (nearest-closer near best n ns closer)) (nearest-All P near n ns h.0 h.1)
      | inr farther ↦
          subst P (sym (nearest-farther near best n ns farther)) (nearest-All P near best ns b h.1)
    ]

not_ltb→le : (a b : ℕ) → ltb a b ≡ false → b ≤ a
not_ltb→le a b h = ground arith

-- No match is nearer, and of those as near it is the lowest.
abbrev pub Beats : ℕ → ℕ → ℕ → Type 0
Beats near best n =
    (distance best near ≤ distance n near) × (distance n near ≡ distance best near → best ≤ n)

abbrev BeatsAll : ℕ → ℕ → List ℕ → ℕ → Type 0
BeatsAll near best ns r = Beats near r best × All (Beats near r) ns

nearest-Beats_nil : (near best : ℕ) → BeatsAll near best [] (nearest near best [])
unfolding nearest
nearest-Beats_nil near best = ((omega arith, λ e. omega arith), tt)

farther_tie :
    (near r best n : ℕ)
    → Beats near r best
    → distance best near ≤ distance n near
    → distance n near ≡ distance r near
    → best ≤ n
    → r ≤ n
farther_tie near r best n (nearer, lowest) le e before =
    let first = lowest (omega (arith, nearer, le, e)) in omega arith

-- The best so far lies before the lines to come.
pub nearest-Beats :
    (near best low : ℕ) (ns : List ℕ)
    → best ≤ low
    → Ascending low ns
    → BeatsAll near best ns (nearest near best ns)
nearest-Beats near best low [] h a = nearest-Beats_nil near best
nearest-Beats near best low (n ∷ ns) h a =
    elim (Bool-cases (ltb (distance n near) (distance best near))) [
      | inl closer ↦
          let later = nearest-Beats near n (suc n) ns (omega arith) a.1 in
          let lt = ltb→lt (distance n near) (distance best near) closer in
          subst (BeatsAll near best (n ∷ ns)) (sym (nearest-closer near best n ns closer))
            ((omega (arith, later.0.0, lt), λ e. absurd (omega (arith, e, later.0.0, lt))), later)
      | inr farther ↦
          let later = nearest-Beats near best (suc n) ns (omega arith) a.1 in
          let le = not_ltb→le (distance n near) (distance best near) farther in
          subst (BeatsAll near best (n ∷ ns)) (sym (nearest-farther near best n ns farther)) (
            later.0,
            (
              (
                omega (arith, later.0.0, le),
                λ e. farther_tie near _ best n later.0 le e (omega arith),
              ),
              later.1,
            ),
          )
    ]

abbrev pub Occurs : ℕ → List ℕ → Type 0
Occurs m [] = ⊥
Occurs m (n ∷ ns) = (m ≡ n) ⊎ Occurs m ns

All-Occurs : (xs ys : List ℕ) → ((m : ℕ) → Occurs m ys → Occurs m xs) → All (λ m. Occurs m xs) ys
All-Occurs xs [] within = tt
All-Occurs xs (y ∷ ys) within =
    (within y (inl refl), All-Occurs xs ys (λ m later. within m (inr later)))

-- Every match is listed.
pub matches_from-Occurs :
    (test : List ℕ → Bool) (i m : ℕ) (lines : List (List ℕ))
    → IsMatch test i lines m
    → Occurs m (matches_from test i lines)
matches_from-Occurs test i m lines here =
    IsMatch-All (λ k. Occurs k (matches_from test i lines)) test i m lines here
      (All-Occurs _ _ (λ k occurs. occurs))
