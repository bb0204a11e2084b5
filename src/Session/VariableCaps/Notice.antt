-- ===== src/Session/VariableCaps/Notice.antt =====
-- `buildTruncationNotice`: the advisory for a truncated response. JSON.stringify is an argument.
mod Tests
use mcp_debugger.Base.{
  ℕ, Bool, true, false, not, Option, none, some, List, [], ◌∷◌, ◌++◌, String, take, map, ltb,
  if◌then◌else◌,
}
use mcp_debugger.Base.Text.{codes, decimal}
use mcp_debugger.Session.VariableCaps.{Env, caps_of, Variable, VariableTruncationSummary, or_zero}

-- The variables that are flagged as truncated, or those that are not.
unfoldable pub flagged : Bool → List Variable → List Variable
flagged wanted [] = []
flagged wanted (v ∷ vars) =
    let rest = flagged wanted vars in
    if (if wanted then v.truncated else not v.truncated) then v ∷ rest else rest

unfoldable pub examples : (List ℕ → List ℕ) → List Variable → List (List ℕ)
examples stringify vars =
    map (λ v. stringify v.name) (take 2 (flagged true vars ++ flagged false vars))

-- `texts.join(separator)`
unfoldable pub join : List ℕ → List (List ℕ) → List ℕ
join separator [] = []
join separator (t ∷ []) = t
join separator (t ∷ u ∷ ts) = t ++ (separator ++ join separator (u ∷ ts))

abbrev part : ℕ → List ℕ → List (List ℕ)
part count text = if ltb 0 count then (decimal count ++ text) ∷ [] else []

unfoldable pub parts : Env → VariableTruncationSummary → List (List ℕ)
parts env summary =
    part summary.omitted_count (codes " variable(s) omitted")
    ++ (part summary.value_truncated_count (
          codes " value(s) cut at "
          ++ (decimal (caps_of env).value_cap ++ codes " chars (flagged truncated:true)"))
        ++ part (or_zero summary.scopes_skipped) (
            codes " scope(s) not fetched after the "
            ++ (decimal (caps_of env).count_cap ++ codes "-variable budget")))

abbrev names_hint : List (List ℕ) → List ℕ
names_hint [] = codes "Pass names: [...] (exact variable names) to fetch specific variables in full"
names_hint (name ∷ names) =
    codes "Pass names: ["
    ++ (join (codes ",") (name ∷ names) ++ codes "] to fetch specific variables in full")

unfoldable pub build_truncation_notice :
    Env → (List ℕ → List ℕ) → VariableTruncationSummary → List Variable → List ℕ
build_truncation_notice env stringify summary vars =
    codes "Response size-guarded: "
    ++ (join (codes "; ") (parts env summary)
        ++ (codes ". "
            ++ (names_hint (examples stringify vars)
                ++ codes
                    ", or raise DEBUG_MCP_MAX_VARIABLES / DEBUG_MCP_MAX_VARIABLE_VALUE_CHARS.")))
