-- ===== src/Proxy/MessageParser/Tests.antt =====
-- The parser at concrete messages.
use mcp_debugger.Base.{
  ◌≡◌, ◌↔◌, refl, String, true, Option, none, some, str_eq, str_eq_iff, if◌then◌else◌, arith,
  Bool-cases, inl, inr,
}
use mcp_debugger.Base.Int.{pos}
use mcp_debugger.Base.Json.{
  Json, Fields, null, bool, num, str, arr, obj, nil, cons, end, field, field_of, truthy,
  has_type_string,
}
use mcp_debugger.Proxy.MessageParser.{
  Checked, ok, failed, ParentCommand, init, dap, Builtins, invalid_field, set, remove, guarded,
  coerce_number, coerce_flag, check_breakpoint, check_items, check_breakpoints,
  validate_init_payload, validate_dap_payload, parse_value, parse_command,
}
use mcp_debugger.Proxy.MessageParser.Typed.{IsCommand, parse_command-IsCommand}
use mcp_debugger.Proxy.MessageParser.Exact.{parse_value-payload_of_iff}
use mcp_debugger.Proxy.MessageParser.Layers.{text_length, IsQuoted, parse_command_returns}

abbrev terminate_fields : Fields
terminate_fields = field "cmd" (str "terminate") end

-- Two layers of text around an object.
abbrev parse : String → Option Json
parse s =
    if str_eq s "'t'"
    then some (str "t")
    else if str_eq s "t"
    then some (obj terminate_fields)
    else none

abbrev builtins : Builtins
builtins = record {
  json_parse = parse;
  to_number = λ s. if str_eq s "8080" then some (pos 8080) else none;
}

abbrev init_with : Json → Json → Json → Fields
init_with port_value stop line_value = field "cmd" (str "init") (
    field "sessionId" (str "s1") (
      field "executablePath" (str "python") (
        field "adapterHost" (str "127.0.0.1") (
          field "logDir" (str "logs") (
            field "scriptPath" (str "a.py") (
              field "adapterPort" port_value (
                field "stopOnEntry" stop (
                  field "initialBreakpoints"
                    (arr (cons (obj (field "file" (str "a.py") (field "line" line_value end))) nil))
                    end))))))))

-- A message whose numbers and flags were made texts.
abbrev stringified : Json
stringified = obj (init_with (str "8080") (str "true") (str "8080"))

abbrev coerced : Fields
coerced = init_with (num (pos 8080)) (bool true) (num (pos 8080))

stringified_parses : parse_command builtins 1 stringified ≡ some (ok (init coerced))
unfolding parse_command parse_value validate_init_payload guarded coerce_number coerce_flag
    check_breakpoints check_breakpoint check_items set field_of truthy has_type_string
stringified_parses = refl

no_port_fails :
    parse_command builtins 1 (obj (init_with (num (pos 0)) (bool true) null))
    ≡ some (failed (invalid_field "init" "adapterPort"))
unfolding parse_command parse_value validate_init_payload guarded coerce_number coerce_flag
    check_breakpoints check_breakpoint check_items set field_of truthy has_type_string
no_port_fails = refl

no_timeout :
    parse_value builtins (
      obj (
        field "cmd" (str "dap") (
          field "sessionId" (str "s1") (
            field "requestId"
              (str "r1")
              (field "dapCommand" (str "next") (field "timeoutMs" (num (pos 0)) end))))))
    ≡ ok (
        dap (
          field "cmd" (str "dap") (
            field "sessionId"
              (str "s1")
              (field "requestId" (str "r1") (field "dapCommand" (str "next") end)))))
unfolding parse_value validate_dap_payload guarded remove field_of truthy has_type_string
no_timeout = refl

parse_command-IsCommand_example : IsCommand (init coerced)
parse_command-IsCommand_example =
    parse_command-IsCommand builtins 1 stringified (init coerced) stringified_parses

parse_value-payload_of_iff_example :
    (parse_value builtins (obj coerced) ≡ ok (init coerced)) ↔ IsCommand (init coerced)
parse_value-payload_of_iff_example = parse_value-payload_of_iff builtins (init coerced)

builtins-IsQuoted : IsQuoted builtins
unfolding text_length
builtins-IsQuoted s t e = elim (Bool-cases (str_eq s "'t'")) [
  | inl outer ↦
      let whole : s ≡ "'t'" = (str_eq_iff s "'t'").0 outer in
      let inner : t ≡ "t" = ground (arith, e, outer) in rw (whole, inner) (omega arith)
  | inr other ↦ absurd (ground (arith, e, other))
]

parse_command_returns_example :
    (checked : Checked ParentCommand) × (parse_command builtins 5 (str "'t'") ≡ some checked)
unfolding text_length
parse_command_returns_example =
    parse_command_returns builtins builtins-IsQuoted 5 (str "'t'") (omega arith)
