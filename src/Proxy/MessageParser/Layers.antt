-- ===== src/Proxy/MessageParser/Layers.antt =====
-- However many texts stand in texts, the parser comes to an end.
use mcp_debugger.Base.{ℕ, zero, suc, ◌+◌, ◌<◌, ◌≡◌, refl, String, Option, none, some, arith}
use mcp_debugger.Base.Json.{Json, null, bool, num, str, arr, obj}
use mcp_debugger.Proxy.MessageParser.{
  Checked, failed, ParentCommand, Builtins, not_json, parse_value, rethrown, rethrown_from, parsed,
  parse_command,
}

unfoldable pub text_length : String → ℕ
text_length String.[] = 0
text_length (String.◌∷◌ c s) = text_length s + 1

-- A text in JSON stands in quotes, so it is shorter than its JSON.
abbrev pub IsQuoted : Builtins → Type 0
IsQuoted b = (s t : String) → b.json_parse s ≡ some (str t) → text_length t < text_length s

abbrev pub depth : Json → ℕ
depth (str s) = text_length s + 1
depth v = 0

abbrev Returns : Option (Checked ParentCommand) → Type 0
Returns result = (checked : Checked ParentCommand) × (result ≡ some checked)

rethrown_from-Returns :
    (result : Option (Checked ParentCommand)) → Returns result → Returns (rethrown_from result)
rethrown_from-Returns none (checked, e) = absurd cc
rethrown_from-Returns (some found) (checked, e) = (rethrown found, refl)

parsed-Returns :
    (parse : Json → Option (Checked ParentCommand)) (v : Option Json)
    → ((w : Json) → v ≡ some w → Returns (parse w))
    → Returns (parsed parse v)
parsed-Returns parse none returns = (failed not_json, refl)
parsed-Returns parse (some w) returns = rethrown_from-Returns (parse w) (returns w refl)

module _ (b : Builtins) (quoted : IsQuoted b) where
  shallower : (s : String) (w : Json) → b.json_parse s ≡ some w → depth w < text_length s + 1
  shallower s (str t) e = omega (arith, quoted s t e)
  shallower s null e = omega arith
  shallower s (bool x) e = omega arith
  shallower s (num n) e = omega arith
  shallower s (arr x) e = omega arith
  shallower s (obj x) e = omega arith

  -- When JSON.parse gives no text that is as long as its JSON, the parser returns or throws for every
  -- message, with more fuel than the message has characters.
  pub parse_command_returns :
      (fuel : ℕ) (v : Json)
      → depth v < fuel
      → (checked : Checked ParentCommand) × (parse_command b fuel v ≡ some checked)
  unfolding parse_command
  parse_command_returns zero v enough = absurd (omega (arith, enough))
  parse_command_returns (suc fuel) (str s) enough =
      parsed-Returns (parse_command b fuel) (b.json_parse s)
        (λ w e. parse_command_returns fuel w (omega (arith, enough, shallower s w e)))
  parse_command_returns (suc fuel) null enough = (parse_value b null, refl)
  parse_command_returns (suc fuel) (bool x) enough = (parse_value b (bool x), refl)
  parse_command_returns (suc fuel) (num n) enough = (parse_value b (num n), refl)
  parse_command_returns (suc fuel) (arr x) enough = (parse_value b (arr x), refl)
  parse_command_returns (suc fuel) (obj x) enough = (parse_value b (obj x), refl)
