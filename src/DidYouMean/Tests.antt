-- ===== src/DidYouMean/Tests.antt =====
-- Suggestions for concrete keys.
use mcp_debugger.Base.{ℕ, ◌≡◌, ◌≤◌, ◌≢◌, refl, none, some, List, [], ◌∷◌, map, All}
use mcp_debugger.Base.Text.{codes, lower}
use mcp_debugger.DidYouMean.{
  levenshtein, fill_row, count_from, fill_rows, did_you_mean, closest_of, threshold_for,
}
use mcp_debugger.DidYouMean.Distance.{Edits, keep, drop, done, reverse_onto, levenshtein_lem}
use mcp_debugger.DidYouMean.Closest.{IsSuggestion, did_you_mean-IsSuggestion}

abbrev keys : List (List ℕ)
keys = codes "port" ∷ codes "hosts" ∷ codes "program" ∷ []

suggests_hosts : did_you_mean (map lower) (codes "Host") keys 2 ≡ some (codes "hosts")
unfolding did_you_mean closest_of levenshtein fill_row count_from fill_rows lower
suggests_hosts = refl

nothing_near : did_you_mean (map lower) (codes "cwd") keys 2 ≡ none
unfolding did_you_mean closest_of levenshtein fill_row count_from fill_rows lower
nothing_near = refl

keys_filled : All (λ key. key ≢ []) keys
keys_filled = ((λ e. absurd (cc e)), ((λ e. absurd (cc e)), ((λ e. absurd (cc e)), tt)))

levenshtein_example :
    Edits
      (reverse_onto [] (codes "ab"))
      (reverse_onto [] (codes "b"))
      (levenshtein (codes "ab") (codes "b"))
    × (levenshtein (codes "ab") (codes "b") ≤ 1)
levenshtein_example = levenshtein_lem (codes "ab") (codes "b") 1 (keep b'b' (drop b'a' done))

did_you_mean-IsSuggestion_example :
    IsSuggestion
      (λ key. key ≢ [])
      (λ valid. levenshtein (map lower (codes "Host")) (map lower valid))
      (threshold_for (codes "Host") 2)
      keys
      (did_you_mean (map lower) (codes "Host") keys 2)
did_you_mean-IsSuggestion_example =
    did_you_mean-IsSuggestion (λ key. key ≢ []) (map lower) (codes "Host") keys 2 keys_filled
