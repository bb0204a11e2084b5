-- ===== src/Proxy/MessageParser/Shapes.antt =====
-- The payload types of src/proxy/dap-proxy-interfaces.ts, as far as the parser checks them.
use mcp_debugger.Base.{
  String, str_eq, leb, if◌then◌else◌, Bool, true, false, ◌&&◌, Option, none, some, List, [], ◌∷◌,
}
use mcp_debugger.Base.Int.{pos}
use mcp_debugger.Base.Json.{
  Json, null, Items, Fields, bool, num, str, arr, obj, nil, cons, field_of,
}
use mcp_debugger.Proxy.MessageParser.{ParentCommand, init, dap, terminate}

-- A type of TypeScript, read as a test of values, with the ranges that the parser adds: text is not
-- empty, a port lies between 1 and 65535.
mutual
  pub data Shape : Type 0 where
    anything not_null string text number port positive boolean : Shape
    literal : List String → Shape
    items : Shape → Shape
    object : Members → Shape

  pub data Members : Type 0 where
    none_more : Members
    required optional : String → Shape → Members → Members

abbrev pub present : (Json → Bool) → Option Json → Bool
present test none = false
present test (some v) = test v

abbrev pub absent_or : (Json → Bool) → Option Json → Bool
absent_or test none = true
absent_or test (some v) = test v

abbrev pub is_among : String → List String → Bool
is_among s [] = false
is_among s (t ∷ ts) = if str_eq s t then true else is_among s ts

unfoldable pub all_items : (Json → Bool) → Items → Bool
all_items test nil = true
all_items test (cons v vs) = test v && all_items test vs

unfoldable mutual
  pub conforms : Shape → Json → Bool
  conforms anything v = true
  conforms string (str s) = true
  conforms text (str String.[]) = false
  conforms text (str (String.◌∷◌ c s)) = true
  conforms not_null null = false
  conforms not_null v = true
  conforms number (num n) = true
  conforms port (num (pos n)) = leb 1 n && leb n 65535
  conforms positive (num (pos n)) = leb 1 n
  conforms boolean (bool b) = true
  conforms (literal ts) (str s) = is_among s ts
  conforms (items shape) (arr vs) = all_items (λ v. conforms shape v) vs
  conforms (object members) (obj fs) = conforms_members members fs
  conforms shape v = false

  pub conforms_members : Members → Fields → Bool
  conforms_members none_more fs = true
  conforms_members (required k shape members) fs =
      present (λ v. conforms shape v) (field_of k fs) && conforms_members members fs
  conforms_members (optional k shape members) fs =
      absent_or (λ v. conforms shape v) (field_of k fs) && conforms_members members fs

abbrev pub breakpoint_members : Members
breakpoint_members = required "file" string (
    required "line" number (
      optional "condition" string (
        optional "logMessage" string (
          optional "suspendPolicy" (literal ("all" ∷ "thread" ∷ []))
            (optional "id" string none_more)))))

abbrev pub breakpoint : Shape
breakpoint = object breakpoint_members

abbrev pub function_breakpoint_members : Members
function_breakpoint_members = required "name" text (optional "condition" string none_more)

abbrev pub function_breakpoint : Shape
function_breakpoint = object function_breakpoint_members

-- `ProxyInitPayload`; the script's arguments are checked to be an array, and the log level, the
-- launch configuration and the adapter's command not at all.
abbrev pub init_payload_members : Members
init_payload_members = required "cmd" (literal ("init" ∷ [])) (
    required "sessionId" text (
      required "executablePath" text (
        required "adapterHost" text (
          required "logDir" text (
            required "scriptPath" text (
              required "adapterPort" port (
                optional "language" string (
                  optional "scriptArgs" (items anything) (
                    optional "stopOnEntry" boolean (
                      optional "justMyCode" boolean (
                        optional "dryRunSpawn" boolean (
                          optional "breakOnExceptions" (literal ("uncaught" ∷ "all" ∷ "none" ∷ []))
                            (optional "initialBreakpoints" (items breakpoint) (
                              optional "initialFunctionBreakpoints" (items function_breakpoint)
                                none_more))))))))))))))

abbrev pub init_payload : Shape
init_payload = object init_payload_members

abbrev pub dap_payload_members : Members
dap_payload_members = required "cmd" (literal ("dap" ∷ [])) (
    required "sessionId" text (
      required "requestId" text (
        required "dapCommand" text
          (optional "dapArgs" not_null (optional "timeoutMs" positive none_more)))))

abbrev pub dap_payload : Shape
dap_payload = object dap_payload_members

abbrev pub terminate_payload_members : Members
terminate_payload_members =
    required "cmd" (literal ("terminate" ∷ [])) (optional "sessionId" string none_more)

abbrev pub terminate_payload : Shape
terminate_payload = object terminate_payload_members

-- What the parser checks of a payload, which is not all of its type.
abbrev pub type_of : ParentCommand → Shape
type_of (init fs) = init_payload
type_of (dap fs) = dap_payload
type_of (terminate fs) = terminate_payload

abbrev pub payload_of : ParentCommand → Json
payload_of (init fs) = obj fs
payload_of (dap fs) = obj fs
payload_of (terminate fs) = obj fs
