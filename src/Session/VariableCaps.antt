-- ===== src/Session/VariableCaps.antt =====
-- src/session/variable-caps.ts: the size guards on lists of variables. Text is a list of UTF-16
-- code units. The environment's settings are arguments. A variable's children are carried along
-- unread, and left out. Reading `length` of a missing value throws, which is `none`.
pub mod Prefix
pub mod Merge
pub mod Notice
pub mod Tests
use mcp_debugger.Base.{
  ℕ, zero, suc, ◌+◌, ◌*◌, Bool, true, false, ◌&&◌, ◌||◌, Option, none, some, List, [], ◌∷◌, ◌++◌,
  ltb, leb, ◌==◌, length, take, if◌then◌else◌,
}
use mcp_debugger.Base.Int.{ℤ, pos, negsuc}
use mcp_debugger.Base.Number.{Parsed, nan, infinite, finite, parse_int}

abbrev pub default_max_variable_value_chars : ℕ
default_max_variable_value_chars = 1024

abbrev pub default_max_variables_per_call : ℕ
default_max_variables_per_call = 300

abbrev pub default_max_variables_total_chars : ℕ
default_max_variables_total_chars = 262144

abbrev positive_or : ℕ → Parsed → ℕ
positive_or fallback (finite (pos zero)) = fallback
positive_or fallback (finite (pos (suc n))) = suc n
positive_or fallback _ = fallback

-- A setting of the environment; `none` is an unset variable.
unfoldable pub env_int : Option (List ℕ) → ℕ → ℕ
env_int none fallback = fallback
env_int (some []) fallback = fallback
env_int (some (c ∷ raw)) fallback = positive_or fallback (parse_int (c ∷ raw))

pub record Env : Type 0 where
  pub max_variable_value_chars : Option (List ℕ)
  pub max_variables : Option (List ℕ)
  pub max_variables_total_chars : Option (List ℕ)

pub record Caps : Type 0 where
  pub value_cap : ℕ
  pub count_cap : ℕ
  pub total_cap : ℕ

unfoldable pub caps_of : Env → Caps
unfolding env_int
caps_of env = record {
  value_cap = env_int env.max_variable_value_chars default_max_variable_value_chars;
  count_cap = env_int env.max_variables default_max_variables_per_call;
  total_cap = env_int env.max_variables_total_chars default_max_variables_total_chars;
}

pub record Variable : Type 0 where
  pub name : List ℕ
  pub value : Option (List ℕ)
  pub type_name : List ℕ
  pub expandable : Bool
  pub redacted : Bool
  pub truncated : Bool

pub record VariableTruncationSummary : Type 0 where
  pub omitted_count : ℕ
  pub value_truncated_count : ℕ
  pub scopes_skipped : Option ℕ

pub record CappedVariables : Type 0 where
  pub variables : List Variable
  pub truncation : Option VariableTruncationSummary

pub record Progress : Type 0 where
  pub kept : List Variable
  pub value_truncated_count : ℕ
  pub total_chars : ℕ
  pub omitted_count : ℕ

-- `variable.value ?? ''`
abbrev pub value_or_empty : Option (List ℕ) → List ℕ
value_or_empty none = []
value_or_empty (some value) = value

abbrev pub is_long : Caps → Variable → Bool
is_long caps v = ltb caps.value_cap (length (value_or_empty v.value))

-- The variable as it is kept: cut at the cap and flagged, or as it is.
unfoldable pub cut : Caps → Variable → Variable
cut caps v =
    if is_long caps v
    then record v { value = some (take caps.value_cap (value_or_empty v.value)); truncated = true }
    else v

abbrev pub is_full : Caps → Progress → Bool
is_full caps p = leb caps.count_cap (length p.kept) || leb caps.total_cap p.total_chars

abbrev add_kept : Caps → Progress → Variable → Variable → Option (List ℕ) → Option Progress
add_kept caps p v next none = none
add_kept caps p v next (some value) = some (record p {
  kept = p.kept ++ next ∷ [];
  value_truncated_count =
      if is_long caps v then p.value_truncated_count + 1 else p.value_truncated_count;
  total_chars = p.total_chars + length value;
})

-- One round of the loop.
unfoldable pub cap_step : Caps → Progress → Variable → Option Progress
unfolding cut
cap_step caps p v =
    if is_full caps p
    then some (record p { omitted_count = p.omitted_count + 1 })
    else add_kept caps p v (cut caps v) (cut caps v).value

unfoldable pub cap_loop : Caps → Progress → List Variable → Option Progress
cap_loop caps p [] = some p
cap_loop caps p (v ∷ vars) = elim (cap_step caps p v) [
  | none ↦ none
  | some next ↦ cap_loop caps next vars
]

abbrev pub no_progress : Progress
no_progress = record { kept = []; value_truncated_count = 0; total_chars = 0; omitted_count = 0 }

unfoldable pub summarise : Progress → CappedVariables
summarise p =
    if p.omitted_count == 0 && p.value_truncated_count == 0
    then record { variables = p.kept; truncation = none }
    else record {
      variables = p.kept;
      truncation = some (record {
        omitted_count = p.omitted_count;
        value_truncated_count = p.value_truncated_count;
        scopes_skipped = none;
      });
    }

unfoldable pub apply_variable_caps : Env → List Variable → Option CappedVariables
unfolding caps_of summarise
apply_variable_caps env vars = elim (cap_loop (caps_of env) no_progress vars) [
  | none ↦ none
  | some p ↦ some (summarise p)
]

abbrev pub or_zero : Option ℕ → ℕ
or_zero none = 0
or_zero (some n) = n

pub record Totals : Type 0 where
  pub omitted : ℕ
  pub value_truncated : ℕ
  pub skipped : ℕ

abbrev pub no_totals : Totals
no_totals = record { omitted = 0; value_truncated = 0; skipped = 0 }

unfoldable pub add_summary : Totals → Option VariableTruncationSummary → Totals
add_summary t none = t
add_summary t (some s) = record {
  omitted = t.omitted + s.omitted_count;
  value_truncated = t.value_truncated + s.value_truncated_count;
  skipped = t.skipped + or_zero s.scopes_skipped;
}

unfoldable pub add_summaries : Totals → List (Option VariableTruncationSummary) → Totals
unfolding add_summary
add_summaries t [] = t
add_summaries t (s ∷ ss) = add_summaries (add_summary t s) ss

unfoldable pub to_summary : Totals → Option VariableTruncationSummary
to_summary t =
    if t.omitted == 0 && (t.value_truncated == 0 && t.skipped == 0)
    then none
    else some (record {
      omitted_count = t.omitted;
      value_truncated_count = t.value_truncated;
      scopes_skipped = if ltb 0 t.skipped then some t.skipped else none;
    })

unfoldable pub merge_truncation_summaries :
    List (Option VariableTruncationSummary) → Option VariableTruncationSummary
unfolding add_summaries to_summary
merge_truncation_summaries ss = to_summary (add_summaries no_totals ss)
