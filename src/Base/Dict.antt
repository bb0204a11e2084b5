-- ===== src/Base/Dict.antt =====
-- JavaScript's `Map`: entries in insertion order; writing a key that is there keeps its place.
use Prim.Native.Nat.{ℕ, ◌≤◌, ◌+◌, ◌-◌}
use mathlib.Core.Path.{◌≡◌, refl}
use mathlib.Core.Bool.{Bool, true, false}
use mathlib.Core.List.{List, [], ◌∷◌}
use mathlib.Core.Option.{Option, none, some}
use native.Mathlib.Omega.{arith}
use mcp_debugger.Base.Tests.{if◌then◌else◌, Bool-cases, Option-cases}
use mathlib.Core.Logic.{inl, inr}
use mcp_debugger.Base.Lists.{length}
use mcp_debugger.Base.Eq.{Eq, beq_refl}

abbrev pub Dict {ℓ κ} : Type ℓ → Type κ → Type (ℓ ⊔ κ)
Dict K V = List (K × V)

module _ {ℓ κ} {K : Type ℓ} {V : Type κ} ⦃e : Eq K⦄ where
  unfoldable pub get : K → Dict K V → Option V
  get k [] = none
  get k ((j, v) ∷ m) = if e.beq j k then some v else get k m

  unfoldable pub put : K → V → Dict K V → Dict K V
  put k v [] = (k, v) ∷ []
  put k v ((j, w) ∷ m) = if e.beq j k then (k, v) ∷ m else (j, w) ∷ put k v m

  unfoldable pub delete : K → Dict K V → Dict K V
  delete k [] = []
  delete k ((j, v) ∷ m) = if e.beq j k then delete k m else (j, v) ∷ delete k m

  unfoldable pub has : K → Dict K V → Bool
  has k [] = false
  has k ((j, v) ∷ m) = if e.beq j k then true else has k m

  pub get-put :
      (k j : K) (v : V) (m : Dict K V) → get j (put k v m) ≡ (if e.beq k j then some v else get j m)
  unfolding get put
  get-put k j v [] = refl
  get-put k j v ((i, w) ∷ m) =
      ground (arith, e.beq_iff k j, e.beq_iff i k, e.beq_iff i j, get-put k j v m)

  pub get-delete :
      (k j : K) (m : Dict K V) → get j (delete k m) ≡ (if e.beq k j then none else get j m)
  unfolding get delete
  get-delete k j [] = ground arith
  get-delete k j ((i, w) ∷ m) =
      ground (arith, e.beq_iff k j, e.beq_iff i k, e.beq_iff i j, get-delete k j m)

  pub get-put_self : (k : K) (v : V) (m : Dict K V) → get k (put k v m) ≡ some v
  get-put_self k v m = rw (get-put, beq_refl)

  pub get-delete_self : (k : K) (m : Dict K V) → get k (delete k m) ≡ none
  get-delete_self k m = rw (get-delete, beq_refl)

  pub length-delete_le : (k : K) (m : Dict K V) → length (delete k m) ≤ length m
  unfolding delete
  length-delete_le k [] = omega arith
  length-delete_le k ((j, v) ∷ m) = ground (arith, length-delete_le k m)

  pub delete_absent : (k : K) (m : Dict K V) → get k m ≡ none → delete k m ≡ m
  unfolding get delete
  delete_absent k [] h = refl
  delete_absent k ((j, v) ∷ m) h = ground (arith, delete_absent k m)

-- How often a key stands in a list of entries.
module _ {ℓ κ} {K : Type ℓ} {V : Type κ} ⦃e : Eq K⦄ where
  abbrev pub count : K → Dict K V → ℕ
  count k [] = 0
  count k ((j, v) ∷ m) = (if e.beq j k then 1 else 0) + count k m

  pub count-get-none : (k : K) (m : Dict K V) → get k m ≡ none → count k m ≡ 0
  unfolding get
  count-get-none k [] h = omega arith
  count-get-none k ((j, v) ∷ m) h = ground (arith, count-get-none k m)

  pub count-get-some : (k : K) (v : V) (m : Dict K V) → get k m ≡ some v → 1 ≤ count k m
  unfolding get
  count-get-some k v [] h = absurd (ground (arith, h))
  count-get-some k v ((j, w) ∷ m) h = ground (arith, count-get-some k v m)

  pub count-delete :
      (k j : K) (m : Dict K V) → count k (delete j m) ≡ (if e.beq j k then 0 else count k m)
  unfolding delete
  count-delete k j [] = ground arith
  count-delete k j ((i, v) ∷ m) =
      ground (arith, e.beq_iff j k, e.beq_iff i j, e.beq_iff i k, count-delete k j m)

  -- A key that is not there is added once.
  pub count-put :
      (k j : K) (v : V) (m : Dict K V)
      → count k (put j v m) ≡ (if e.beq j k then 1 - count k m else 0) + count k m
  unfolding put
  count-put k j v [] = ground arith
  count-put k j v ((i, w) ∷ m) =
      ground (arith, e.beq_iff j k, e.beq_iff i j, e.beq_iff i k, count-put k j v m)

-- The keys that the values of one dictionary name are deleted from another.
module _ {ℓ κ μ ν} {K : Type ℓ} {V : Type κ} {I : Type μ} {T : Type ν} ⦃e : Eq K⦄ ⦃d : Eq I⦄
    (key_of : V → I) where
  abbrev pub delete_each : Dict K V → Dict I T → Dict I T
  delete_each [] m = m
  delete_each ((j, v) ∷ vs) m = delete_each vs (delete (key_of v) m)

  pub delete_each-some :
      (vs : Dict K V) (m : Dict I T) (i : I) (t : T)
      → get i (delete_each vs m) ≡ some t
      → get i m ≡ some t
  delete_each-some [] m i t h = h
  delete_each-some ((j, v) ∷ vs) m i t h =
      let kept = delete_each-some vs (delete (key_of v) m) i t h in
      ground (arith, kept, get-delete (key_of v) i m)

  pub delete_each-none :
      (vs : Dict K V) (m : Dict I T) (k : K) (v : V)
      → get k vs ≡ some v
      → get (key_of v) (delete_each vs m) ≡ none
  unfolding get
  delete_each-none [] m k v h = absurd (ground (arith, h))
  delete_each-none ((j, w) ∷ vs) m k v h = elim (Bool-cases (e.beq j k)) [
    | inl same ↦
        let here : w ≡ v = ground arith in
        elim (Option-cases (get (key_of v) (delete_each vs (delete (key_of w) m)))) [
          | inl gone ↦ gone
          | inr (t, left) ↦
              let kept = delete_each-some vs (delete (key_of w) m) (key_of v) t left in
              absurd (
                ground (
                  arith,
                  here,
                  kept,
                  get-delete (key_of w) (key_of v) m,
                  d.beq_iff (key_of w) (key_of v),
                ))
        ]
    | inr other ↦ delete_each-none vs (delete (key_of w) m) k v (ground arith)
  ]
