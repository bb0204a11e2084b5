-- ===== src/DidYouMean/Distance.antt =====
-- The matrix computes the least number of edits. Both texts are read from their end here.
use mcp_debugger.Base.{
  ℕ, suc, ◌+◌, ◌≤◌, ◌≡◌, refl, sym, ap, subst, ◌∙◌, List, [], ◌∷◌, length, ◌==◌, ==_iff, arith, ◌⊎◌,
  inl, inr, Bool-cases,
}
use mcp_debugger.DidYouMean.{cost, cell, fill_row, count_from, fill_rows, last_or, levenshtein}

-- Turning one text into another by edits, a kept unit being free.
pub data Edits : List ℕ → List ℕ → ℕ → Type 0 where
  done : Edits [] [] 0
  keep : {a b : List ℕ} {n : ℕ} (c : ℕ) → Edits a b n → Edits (c ∷ a) (c ∷ b) n
  change : {a b : List ℕ} {n : ℕ} (c d : ℕ) → Edits a b n → Edits (c ∷ a) (d ∷ b) (suc n)
  insert : {a b : List ℕ} {n : ℕ} (d : ℕ) → Edits a b n → Edits a (d ∷ b) (suc n)
  drop : {a b : List ℕ} {n : ℕ} (c : ℕ) → Edits a b n → Edits (c ∷ a) b (suc n)

-- The distance by recursion on the two texts.
abbrev pub edit_distance : List ℕ → List ℕ → ℕ
edit_distance [] b = length b
edit_distance (c ∷ a) [] = suc (length a)
edit_distance (c ∷ a) (d ∷ b) =
    cell c d (edit_distance a (d ∷ b)) (edit_distance (c ∷ a) b) (edit_distance a b)

edit_distance-nil : (a : List ℕ) → edit_distance a [] ≡ length a
edit_distance-nil [] = refl
edit_distance-nil (c ∷ a) = refl

cost_self : (c : ℕ) → cost c c ≡ 0
cost_self c = ground arith

edit_distance-drop : (c : ℕ) (a b : List ℕ) → edit_distance (c ∷ a) b ≤ edit_distance a b + 1
edit_distance-drop c a [] = omega (arith, edit_distance-nil a)
edit_distance-drop c a (d ∷ b) = omega arith

edit_distance-insert : (d : ℕ) (a b : List ℕ) → edit_distance a (d ∷ b) ≤ edit_distance a b + 1
edit_distance-insert d [] b = omega arith
edit_distance-insert d (c ∷ a) b = omega arith

edit_distance-change :
    (c d : ℕ) (a b : List ℕ) → edit_distance (c ∷ a) (d ∷ b) ≤ edit_distance a b + cost c d
edit_distance-change c d a b = omega arith

cost_le : (c d : ℕ) → cost c d ≤ 1
cost_le c d = ground arith

-- No sequence of edits is shorter.
edit_distance_le : {a b : List ℕ} {n : ℕ} → Edits a b n → edit_distance a b ≤ n
edit_distance_le done = omega arith
edit_distance_le (keep {a} {b} {n} c e) =
    omega (arith, edit_distance_le e, edit_distance-change c c a b, cost_self c)
edit_distance_le (change {a} {b} {n} c d e) =
    omega (arith, edit_distance_le e, edit_distance-change c d a b, cost_le c d)
edit_distance_le (insert {a} {b} {n} d e) =
    omega (arith, edit_distance_le e, edit_distance-insert d a b)
edit_distance_le (drop {a} {b} {n} c e) =
    omega (arith, edit_distance_le e, edit_distance-drop c a b)

insert_all : (b : List ℕ) → Edits [] b (length b)
insert_all [] = done
insert_all (d ∷ b) = insert d (insert_all b)

drop_all : (a : List ℕ) → Edits a [] (length a)
drop_all [] = done
drop_all (c ∷ a) = drop c (drop_all a)

Edits-diagonal :
    (c d diagonal : ℕ) (a b : List ℕ)
    → Edits a b diagonal
    → Edits (c ∷ a) (d ∷ b) (diagonal + cost c d)
Edits-diagonal c d diagonal a b slant = elim (Bool-cases (c == d)) [
  | inl same ↦
      let kept : Edits (c ∷ a) (d ∷ b) diagonal =
        subst (λ u. Edits (c ∷ a) (u ∷ b) diagonal) ((==_iff c d).0 same) (keep c slant) in
      let e : diagonal ≡ diagonal + 0 = omega arith in
      rw same (subst (Edits (c ∷ a) (d ∷ b)) e kept)
  | inr other ↦
      let e : suc diagonal ≡ diagonal + 1 = omega arith in
      rw other (subst (Edits (c ∷ a) (d ∷ b)) e (change c d slant))
]

cell-cases :
    (c d above left diagonal : ℕ)
    → (suc above ≡ cell c d above left diagonal)
      ⊎ ((suc left ≡ cell c d above left diagonal)
          ⊎ (diagonal + cost c d ≡ cell c d above left diagonal))
cell-cases c d above left diagonal = ground arith

-- The cheapest of three ways on.
Edits-cell :
    (c d above left diagonal : ℕ) (a b : List ℕ)
    → Edits a (d ∷ b) above
    → Edits (c ∷ a) b left
    → Edits a b diagonal
    → Edits (c ∷ a) (d ∷ b) (cell c d above left diagonal)
Edits-cell c d above left diagonal a b up back slant = elim (cell-cases c d above left diagonal) [
  | inl e ↦ subst (Edits (c ∷ a) (d ∷ b)) e (drop c up)
  | inr (inl e) ↦ subst (Edits (c ∷ a) (d ∷ b)) e (insert d back)
  | inr (inr e) ↦ subst (Edits (c ∷ a) (d ∷ b)) e (Edits-diagonal c d diagonal a b slant)
]

edit_distance-Edits : (a b : List ℕ) → Edits a b (edit_distance a b)
edit_distance-Edits [] b = insert_all b
edit_distance-Edits (c ∷ a) [] = drop_all (c ∷ a)
edit_distance-Edits (c ∷ a) (d ∷ b) =
    Edits-cell c d _ _ _ a b (edit_distance-Edits a (d ∷ b)) (edit_distance-Edits (c ∷ a) b)
      (edit_distance-Edits a b)

-- The row of a text `a` behind the cell of `b`: the distances to `b` with ever more units of `ds`.
abbrev row_of : List ℕ → List ℕ → List ℕ → List ℕ
row_of a b [] = []
row_of a b (d ∷ ds) = edit_distance a (d ∷ b) ∷ row_of a (d ∷ b) ds

fill_row-row_of :
    (c : ℕ) (a b ds : List ℕ)
    → fill_row c ds (edit_distance a b) (row_of a b ds) (edit_distance (c ∷ a) b)
      ≡ row_of (c ∷ a) b ds
unfolding fill_row
fill_row-row_of c a b [] = refl
fill_row-row_of c a b (d ∷ ds) =
    ap (λ row. edit_distance (c ∷ a) (d ∷ b) ∷ row) (fill_row-row_of c a (d ∷ b) ds)

count_from-row_of : (b ds : List ℕ) → count_from (length b) ds ≡ row_of [] b ds
unfolding count_from
count_from-row_of b [] = refl
count_from-row_of b (d ∷ ds) = ap (λ row. suc (length b) ∷ row) (count_from-row_of (d ∷ b) ds)

abbrev pub reverse_onto : List ℕ → List ℕ → List ℕ
reverse_onto a [] = a
reverse_onto a (c ∷ cs) = reverse_onto (c ∷ a) cs

fill_rows-row_of :
    (a cs ds : List ℕ)
    → fill_rows (length a) cs ds (row_of a [] ds) ≡ row_of (reverse_onto a cs) [] ds
unfolding fill_rows
fill_rows-row_of a [] ds = refl
fill_rows-row_of a (c ∷ cs) ds =
    let row =
      subst (λ n. fill_row c ds n (row_of a [] ds) (suc (length a)) ≡ row_of (c ∷ a) [] ds)
        (edit_distance-nil a) (fill_row-row_of c a [] ds) in
    ap (fill_rows (suc (length a)) cs ds) row ∙ fill_rows-row_of (c ∷ a) cs ds

last_or-row_of :
    (a b ds : List ℕ)
    → last_or (edit_distance a b) (row_of a b ds) ≡ edit_distance a (reverse_onto b ds)
last_or-row_of a b [] = refl
last_or-row_of a b (d ∷ ds) = last_or-row_of a (d ∷ b) ds

length-reverse_onto : (a cs : List ℕ) → length (reverse_onto a cs) ≡ length a + length cs
length-reverse_onto a [] = omega arith
length-reverse_onto a (c ∷ cs) = omega (arith, length-reverse_onto (c ∷ a) cs)

levenshtein-edit_distance :
    (a b : List ℕ) → levenshtein a b ≡ edit_distance (reverse_onto [] a) (reverse_onto [] b)
unfolding levenshtein
levenshtein-edit_distance [] b = omega (arith, length-reverse_onto [] b)
levenshtein-edit_distance (c ∷ a) [] =
    omega (arith, edit_distance-nil (reverse_onto (c ∷ []) a), length-reverse_onto (c ∷ []) a)
levenshtein-edit_distance (c ∷ a) (d ∷ b) =
    ap (λ row. last_or (suc (length a)) (fill_rows 0 (c ∷ a) (d ∷ b) row))
      (count_from-row_of [] (d ∷ b))
    ∙ (ap (last_or (suc (length a))) (fill_rows-row_of [] (c ∷ a) (d ∷ b))
        ∙ last_or-row_of (reverse_onto (c ∷ []) a) (d ∷ []) b)

-- The matrix gives a number of edits that turn the one text into the other, both read from their
-- end, and no sequence of edits that does so is shorter.
pub levenshtein_lem :
    (a b : List ℕ) (n : ℕ)
    → Edits (reverse_onto [] a) (reverse_onto [] b) n
    → Edits (reverse_onto [] a) (reverse_onto [] b) (levenshtein a b) × (levenshtein a b ≤ n)
levenshtein_lem a b n edits =
    let e = sym (levenshtein-edit_distance a b) in
    (
      subst (Edits (reverse_onto [] a) (reverse_onto [] b)) e
          (edit_distance-Edits (reverse_onto [] a) (reverse_onto [] b)),
      subst (λ m. m ≤ n) e (edit_distance_le edits),
    )
