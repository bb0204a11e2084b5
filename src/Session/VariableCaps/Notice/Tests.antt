-- ===== src/Session/VariableCaps/Notice/Tests.antt =====
-- The advisory for a concrete response.
use mcp_debugger.Base.{ℕ, ◌≡◌, refl, true, false, none, List, [], ◌∷◌}
use mcp_debugger.Base.Text.{codes, decimal, digits_of}
use mcp_debugger.Session.VariableCaps.{Env, Variable, caps_of, env_int}
use mcp_debugger.Session.VariableCaps.Notice.{
  flagged, examples, join, parts, build_truncation_notice,
}

abbrev unset : Env
unset = record {
  max_variable_value_chars = none;
  max_variables = none;
  max_variables_total_chars = none;
}

abbrev plain : List ℕ → Variable
plain name = record {
  name = name;
  value = none;
  type_name = [];
  expandable = false;
  redacted = false;
  truncated = false;
}

notice :
    build_truncation_notice unset
      (λ t. t)
      (record { omitted_count = 3; value_truncated_count = 1; scopes_skipped = none })
      (plain (codes "a") ∷ plain (codes "b") ∷ record (plain (codes "c")) { truncated = true } ∷ [])
    ≡ codes
        "Response size-guarded: 3 variable(s) omitted; 1 value(s) cut at 1024 chars (flagged truncated:true). Pass names: [c,a] to fetch specific variables in full, or raise DEBUG_MCP_MAX_VARIABLES / DEBUG_MCP_MAX_VARIABLE_VALUE_CHARS."
unfolding build_truncation_notice parts examples flagged join caps_of env_int decimal digits_of
notice = refl
