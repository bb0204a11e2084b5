-- ===== src/Session/VariableCaps/Tests.antt =====
-- The caps at concrete lists.
use mcp_debugger.Base.{ℕ, ◌≡◌, refl, false, true, none, some, List, [], ◌∷◌, Option}
use mcp_debugger.Base.Int.{pos, negsuc}
use mcp_debugger.Base.Number.{finite, nan, parse_int}
use mcp_debugger.Session.VariableCaps.{
  Env, Variable, CappedVariables, VariableTruncationSummary, caps_of, env_int, cap_loop, cap_step,
  cut, summarise, apply_variable_caps, merge_truncation_summaries,
}
use mcp_debugger.Session.VariableCaps.Prefix.{
  IsCapped, apply_variable_caps-IsCapped, apply_variable_caps-throws,
}
use mcp_debugger.Session.VariableCaps.Merge.{sum_of, Reports, merge_truncation_summaries_lem}

parse_tests :
    (parse_int (32 ∷ b'4' ∷ b'2' ∷ b'x' ∷ []) ≡ finite (pos 42))
    × (parse_int (b'-' ∷ b'7' ∷ []) ≡ finite (negsuc 6))
    × (parse_int (b'a' ∷ []) ≡ nan)
unfolding parse_int
parse_tests = (refl, refl, refl)

abbrev env : Env
env = record {
  max_variable_value_chars = some (b'2' ∷ []);
  max_variables = some (b'2' ∷ []);
  max_variables_total_chars = none;
}

abbrev var : Option (List ℕ) → Variable
var value = record {
  name = b'x' ∷ [];
  value = value;
  type_name = [];
  expandable = false;
  redacted = false;
  truncated = false;
}

abbrev three : List Variable
three = var (some (1 ∷ 2 ∷ 3 ∷ [])) ∷ var (some (1 ∷ [])) ∷ var (some []) ∷ []

capped : Option CappedVariables
unfolding apply_variable_caps caps_of cap_loop cap_step cut summarise env_int parse_int
capped = apply_variable_caps env three

capped_three :
    capped
    ≡ some (record {
      variables = record (var (some (1 ∷ 2 ∷ []))) { truncated = true } ∷ var (some (1 ∷ [])) ∷ [];
      truncation =
          some (record { omitted_count = 1; value_truncated_count = 1; scopes_skipped = none });
    })
unfolding capped
capped_three = refl

apply_variable_caps-IsCapped_example :
    (r : CappedVariables) × (apply_variable_caps env three ≡ some r)
    × IsCapped (caps_of env) three r
apply_variable_caps-IsCapped_example =
    apply_variable_caps-IsCapped env three (λ e. cc, (λ e. cc, (λ e. cc, tt)))

apply_variable_caps-throws_example : apply_variable_caps env (var none ∷ three) ≡ none
apply_variable_caps-throws_example = apply_variable_caps-throws env (var none) three refl

abbrev summary : VariableTruncationSummary
summary = record { omitted_count = 3; value_truncated_count = 1; scopes_skipped = some 2 }

merge_truncation_summaries_example :
    Reports 6 2 4 (merge_truncation_summaries (some summary ∷ none ∷ some summary ∷ []))
unfolding sum_of
merge_truncation_summaries_example =
    merge_truncation_summaries_lem (some summary ∷ none ∷ some summary ∷ [])
