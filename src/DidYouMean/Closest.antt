-- ===== src/DidYouMean/Closest.antt =====
-- The suggestion is one of the nearest keys.
use mcp_debugger.Base.{
  ℕ, ◌≤◌, ◌<◌, ◌≡◌, refl, subst, inl, inr, ◌&&◌, Option, none, some, List, [], ◌∷◌, All, ltb, leb,
  arith, Bool-cases,
}
use mcp_debugger.DidYouMean.{closer, closest_of, text_of, threshold_for, did_you_mean, levenshtein}

module _ (P : List ℕ → Type 0) (distance : List ℕ → ℕ) (threshold : ℕ) where
  -- No key that was read is within the threshold, or the kept key is, and none is nearer.
  abbrev Keeps : Option (ℕ × List ℕ) → List ℕ → Type 0
  Keeps none key = threshold < distance key
  Keeps (some (best, text)) key = best ≤ distance key

  abbrev IsSound : Option (ℕ × List ℕ) → Type 0
  IsSound none = Unit {0}
  IsSound (some (best, text)) = P text × ((best ≡ distance text) × (best ≤ threshold))

  closer-IsSound :
      (best : Option (ℕ × List ℕ)) (key : List ℕ)
      → P key
      → IsSound best
      → IsSound (closer threshold (distance key) best key)
  closer-IsSound none key p h = elim (Bool-cases (leb (distance key) threshold)) [
    | inl near ↦ rw near (p, (refl, ground (arith, near)))
    | inr far ↦ rw far tt
  ]
  closer-IsSound (some (best, text)) key p h =
      elim (Bool-cases (leb (distance key) threshold && ltb (distance key) best)) [
        | inl near ↦ rw near (p, (refl, ground (arith, near)))
        | inr far ↦ rw far h
      ]

  closer-Keeps :
      (best : Option (ℕ × List ℕ)) (key : List ℕ)
      → IsSound best
      → Keeps (closer threshold (distance key) best key) key
  closer-Keeps none key h = elim (Bool-cases (leb (distance key) threshold)) [
    | inl near ↦ rw near (omega arith)
    | inr far ↦ rw far (ground (arith, far))
  ]
  closer-Keeps (some (best, text)) key h =
      elim (Bool-cases (leb (distance key) threshold && ltb (distance key) best)) [
        | inl near ↦ rw near (omega arith)
        | inr far ↦ rw far (ground (arith, far, h.1.1))
      ]

  -- A key that was read before stays accounted for.
  closer_mono :
      (best : Option (ℕ × List ℕ)) (key other : List ℕ)
      → Keeps best other
      → Keeps (closer threshold (distance key) best key) other
  closer_mono none key other k = elim (Bool-cases (leb (distance key) threshold)) [
    | inl near ↦ rw near (ground (arith, near, k))
    | inr far ↦ rw far k
  ]
  closer_mono (some (best, text)) key other k =
      elim (Bool-cases (leb (distance key) threshold && ltb (distance key) best)) [
        | inl near ↦ rw near (ground (arith, near, k))
        | inr far ↦ rw far k
      ]

  closest_of_mono :
      (best : Option (ℕ × List ℕ)) (keys : List (List ℕ)) (other : List ℕ)
      → Keeps best other
      → Keeps (closest_of distance threshold best keys) other
  unfolding closest_of
  closest_of_mono best [] other k = k
  closest_of_mono best (key ∷ keys) other k =
      closest_of_mono (closer threshold (distance key) best key) keys other
        (closer_mono best key other k)

  closest_of-IsSound :
      (best : Option (ℕ × List ℕ)) (keys : List (List ℕ))
      → All P keys
      → IsSound best
      → IsSound (closest_of distance threshold best keys)
        × All (Keeps (closest_of distance threshold best keys)) keys
  unfolding closest_of
  closest_of-IsSound best [] p h = (h, tt)
  closest_of-IsSound best (key ∷ keys) p h =
      let next = closer threshold (distance key) best key in
      let later = closest_of-IsSound next keys p.1 (closer-IsSound best key p.0 h) in
      (later.0, (closest_of_mono next keys key (closer-Keeps best key h), later.1))

  -- What a suggestion says.
  abbrev pub IsSuggestion : List (List ℕ) → Option (List ℕ) → Type 0
  IsSuggestion keys none = All (λ key. threshold < distance key) keys
  IsSuggestion keys (some text) =
      P text × ((distance text ≤ threshold) × All (λ key. distance text ≤ distance key) keys)

  text_of-IsSuggestion :
      (keys : List (List ℕ)) (best : Option (ℕ × List ℕ))
      → IsSound best
      → All (Keeps best) keys
      → IsSuggestion keys (text_of best)
  text_of-IsSuggestion keys none h k = k
  text_of-IsSuggestion keys (some (best, text)) h k = (
    h.0,
    (
      subst (λ n. n ≤ threshold) h.1.0 h.1.1,
      subst (λ n. All (λ key. n ≤ distance key) keys) h.1.0 k,
    ),
  )

-- Whatever holds of all valid keys holds of the suggestion; it is within the threshold, which is one
-- for a text of at most four units, and no valid key is nearer. Without a suggestion, all valid keys
-- are beyond the threshold.
pub did_you_mean-IsSuggestion :
    (P : List ℕ → Type 0) (to_lower_case : List ℕ → List ℕ) (target : List ℕ)
    (valid_strings : List (List ℕ)) (threshold : ℕ)
    → All P valid_strings
    → IsSuggestion P
        (λ valid. levenshtein (to_lower_case target) (to_lower_case valid))
        (threshold_for target threshold)
        valid_strings
        (did_you_mean to_lower_case target valid_strings threshold)
unfolding did_you_mean
did_you_mean-IsSuggestion P to_lower_case target valid_strings threshold p =
    let distance = λ (valid : List ℕ). levenshtein (to_lower_case target) (to_lower_case valid) in
    let limit = threshold_for target threshold in
    let sound = closest_of-IsSound P distance limit none valid_strings p tt in
    text_of-IsSuggestion P distance limit valid_strings _ sound.0 sound.1
