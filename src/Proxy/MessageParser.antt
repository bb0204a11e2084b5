-- ===== src/Proxy/MessageParser.antt =====
-- src/proxy/dap-proxy-message-parser.ts: what the worker takes for a command of its parent process.
-- JSON.parse and Number are parameters. Numbers are whole, as in Base/Json.
pub mod Shapes
pub mod Steps
pub mod Readings
pub mod Arrays
pub mod Init
pub mod Payloads
pub mod Typed
pub mod Accepted
pub mod Exact
pub mod Layers
mod Tests
use mcp_debugger.Base.{
  ℕ, zero, suc, ◌+◌, String, Bool, true, false, not, ◌&&◌, ◌||◌, Option, none, some, List, [], ◌∷◌,
  ◌++◌, if◌then◌else◌, str_eq, leb,
}
use mcp_debugger.Base.Int.{ℤ, pos, negsuc}
use mcp_debugger.Base.Json.{
  Json, Items, Fields, null, bool, num, str, arr, obj, nil, cons, end, field, field_of, truthy,
  has_type_string,
}

-- Which check threw, with what its text names.
pub data ParseError : Type 0 where
  not_json : ParseError
  again : ParseError → ParseError
  no_object : ParseError
  no_cmd : ParseError
  unknown_command : String → ParseError
  invalid_field : (payload name : String) → ParseError
  invalid_breakpoint : ParseError
  invalid_breakpoint_field : (name : String) → ParseError

pub data Checked {ℓ} (A : Type ℓ) : Type ℓ where
  ok : A → Checked A
  failed : ParseError → Checked A

pub data ParentCommand : Type 0 where
  init dap terminate : Fields → ParentCommand

-- `JSON.parse`, `none` where it throws, and `Number`, `none` for NaN.
pub record Builtins : Type 0 where
  pub json_parse : String → Option Json
  pub to_number : String → Option ℤ

-- `obj.name = value`
unfoldable pub set : String → Json → Fields → Fields
set k v end = field k v end
set k v (field j w fs) = if str_eq j k then field j v fs else field j w (set k v fs)

-- `delete obj.name`
unfoldable pub remove : String → Fields → Fields
remove k end = end
remove k (field j w fs) = if str_eq j k then remove k fs else field j w (remove k fs)

-- A row of `if (!test) throw error`.
unfoldable pub guarded {ℓ} : {A : Type ℓ} → List (Bool × ParseError) → Checked A → Checked A
guarded [] next = next
guarded ((true, e) ∷ guards) next = guarded guards next
guarded ((false, e) ∷ guards) next = failed e

abbrev pub and_then {ℓ κ} : {A : Type ℓ} {B : Type κ} → Checked A → (A → Checked B) → Checked B
and_then (ok a) f = f a
and_then (failed e) f = failed e

-- `!value || typeof value !== 'string'`, negated.
abbrev pub is_text : Option Json → Bool
is_text v = truthy v && has_type_string v

abbrev pub is_string : Option Json → Bool
is_string v = has_type_string v

abbrev pub is_optional : (Option Json → Bool) → Option Json → Bool
is_optional test none = true
is_optional test (some v) = test (some v)

abbrev pub is_array : Option Json → Bool
is_array (some (arr xs)) = true
is_array v = false

abbrev pub is_bool : Option Json → Bool
is_bool (some (bool b)) = true
is_bool v = false

abbrev pub is_number : Option Json → Bool
is_number (some (num n)) = true
is_number v = false

abbrev pub is_port : Option Json → Bool
is_port (some (num (pos n))) = leb 1 n && leb n 65535
is_port v = false

abbrev pub one_of : List String → String → Bool
one_of [] s = false
one_of (t ∷ ts) s = str_eq s t || one_of ts s

abbrev pub is_literal : List String → Option Json → Bool
is_literal ts (some (str s)) = one_of ts s
is_literal ts v = false

abbrev pub require_texts : String → List String → Fields → List (Bool × ParseError)
require_texts payload [] fs = []
require_texts payload (k ∷ ks) fs =
    (is_text (field_of k fs), invalid_field payload k) ∷ require_texts payload ks fs

abbrev pub put_number : String → Option ℤ → Fields → Fields
put_number k none fs = fs
put_number k (some n) fs = set k (num n) fs

-- A string that reads as a number becomes one.
abbrev pub coerced_number : Builtins → String → Option Json → Fields → Fields
coerced_number b k (some (str s)) fs = put_number k (b.to_number s) fs
coerced_number b k v fs = fs

unfoldable pub coerce_number : Builtins → String → Fields → Fields
coerce_number b k fs = coerced_number b k (field_of k fs) fs

abbrev pub coerced_flag : String → Option Json → Fields → Fields
coerced_flag k (some (str s)) fs =
    if str_eq s "true"
    then set k (bool true) fs
    else if str_eq s "false"
    then set k (bool false) fs
    else fs
coerced_flag k v fs = fs

unfoldable pub coerce_flag : String → Fields → Fields
coerce_flag k fs = coerced_flag k (field_of k fs) fs

abbrev pub coerce_flags : Fields → Fields
coerce_flags fs =
    coerce_flag "dryRunSpawn" (coerce_flag "justMyCode" (coerce_flag "stopOnEntry" fs))

abbrev pub breakpoint_guards : Fields → List (Bool × ParseError)
breakpoint_guards fs =
    (
      is_string (field_of "file" fs) && is_number (field_of "line" fs),
      invalid_breakpoint_field "file",
    )
    ∷ (is_optional is_string (field_of "condition" fs), invalid_breakpoint_field "condition")
    ∷ (is_optional is_string (field_of "logMessage" fs), invalid_breakpoint_field "logMessage")
    ∷ (
      is_optional (is_literal ("all" ∷ "thread" ∷ [])) (field_of "suspendPolicy" fs),
      invalid_breakpoint_field "suspendPolicy",
    )
    ∷ (is_optional is_string (field_of "id" fs), invalid_breakpoint_field "id")
    ∷ []

-- An array is an object, but one without a file.
unfoldable pub check_breakpoint : Builtins → Json → Checked Json
check_breakpoint b (obj fs) =
    let coerced = coerce_number b "line" fs in
    guarded (breakpoint_guards coerced) (ok (obj coerced))
check_breakpoint b (arr xs) = failed (invalid_breakpoint_field "file")
check_breakpoint b v = failed invalid_breakpoint

unfoldable pub check_items : (Json → Checked Json) → Items → Checked Items
check_items check nil = ok nil
check_items check (cons v vs) =
    let rest = check_items check vs in
    and_then (check v) (λ w. and_then rest (λ ws. ok (cons w ws)))

abbrev pub function_guards : Fields → List (Bool × ParseError)
function_guards fs =
    (is_text (field_of "name" fs), invalid_breakpoint_field "name")
    ∷ (is_optional is_string (field_of "condition" fs), invalid_breakpoint_field "condition")
    ∷ []

unfoldable pub check_function_breakpoint : Json → Checked Json
check_function_breakpoint (obj fs) = guarded (function_guards fs) (ok (obj fs))
check_function_breakpoint (arr xs) = failed (invalid_breakpoint_field "name")
check_function_breakpoint v = failed invalid_breakpoint

-- An optional array, with each of its items checked.
abbrev pub check_array : String → (Json → Checked Json) → Option Json → Fields → Checked Fields
check_array k check none fs = ok fs
check_array k check (some (arr xs)) fs =
    and_then (check_items check xs) (λ ys. ok (set k (arr ys) fs))
check_array k check (some v) fs = failed (invalid_field "init" k)

unfoldable pub check_breakpoints : Builtins → Fields → Checked Fields
check_breakpoints b fs =
    and_then
      (check_array "initialBreakpoints" (check_breakpoint b) (field_of "initialBreakpoints" fs) fs)
      (λ gs.
        check_array "initialFunctionBreakpoints" check_function_breakpoint
          (field_of "initialFunctionBreakpoints" gs) gs)

abbrev pub init_texts : List String
init_texts = "sessionId" ∷ "executablePath" ∷ "adapterHost" ∷ "logDir" ∷ "scriptPath" ∷ []

abbrev pub break_modes : List String
break_modes = "uncaught" ∷ "all" ∷ "none" ∷ []

abbrev pub port_guards : Fields → List (Bool × ParseError)
port_guards fs =
    (is_port (field_of "adapterPort" fs), invalid_field "init" "adapterPort")
    ∷ (is_optional is_string (field_of "language" fs), invalid_field "init" "language")
    ∷ (is_optional is_array (field_of "scriptArgs" fs), invalid_field "init" "scriptArgs")
    ∷ []

abbrev pub flag_guards : Fields → List (Bool × ParseError)
flag_guards fs =
    (is_optional is_bool (field_of "stopOnEntry" fs), invalid_field "init" "stopOnEntry")
    ∷ (is_optional is_bool (field_of "justMyCode" fs), invalid_field "init" "justMyCode")
    ∷ (is_optional is_bool (field_of "dryRunSpawn" fs), invalid_field "init" "dryRunSpawn")
    ∷ (
      is_optional (is_literal break_modes) (field_of "breakOnExceptions" fs),
      invalid_field "init" "breakOnExceptions",
    )
    ∷ []

unfoldable pub validate_init_payload : Builtins → Fields → Checked Fields
validate_init_payload b fs =
    let ported = coerce_number b "adapterPort" fs in
    let flagged = coerce_flags ported in
    guarded (require_texts "init" init_texts fs)
      (guarded (port_guards ported) (guarded (flag_guards flagged) (check_breakpoints b flagged)))

abbrev pub dap_texts : List String
dap_texts = "sessionId" ∷ "requestId" ∷ "dapCommand" ∷ []

abbrev pub is_null : Option Json → Bool
is_null (some null) = true
is_null v = false

-- A number above zero; what is sent as JSON is finite.
abbrev pub is_timeout : Option Json → Bool
is_timeout none = true
is_timeout (some (num (pos n))) = leb 1 n
is_timeout v = false

unfoldable pub validate_dap_payload : Fields → Checked Fields
validate_dap_payload fs =
    guarded
      (require_texts "dap" dap_texts fs
        ++ (not (is_null (field_of "dapArgs" fs)), invalid_field "dap" "dapArgs") ∷ [])
      (ok (if is_timeout (field_of "timeoutMs" fs) then fs else remove "timeoutMs" fs))

unfoldable pub validate_terminate_payload : Fields → Checked Fields
validate_terminate_payload fs =
    guarded
      ((is_optional is_string (field_of "sessionId" fs), invalid_field "terminate" "sessionId")
        ∷ [])
      (ok fs)

abbrev pub to_command : (Fields → ParentCommand) → Checked Fields → Checked ParentCommand
to_command as_command checked = and_then checked (λ fs. ok (as_command fs))

abbrev pub by_cmd : Builtins → String → Fields → Checked ParentCommand
by_cmd b cmd fs =
    if str_eq cmd "init"
    then to_command init (validate_init_payload b fs)
    else if str_eq cmd "dap"
    then to_command dap (validate_dap_payload fs)
    else if str_eq cmd "terminate"
    then to_command terminate (validate_terminate_payload fs)
    else failed (unknown_command cmd)

abbrev pub route : Builtins → Option Json → Fields → Checked ParentCommand
route b (some (str cmd)) fs = if str_eq cmd "" then failed no_cmd else by_cmd b cmd fs
route b v fs = failed no_cmd

-- What is no string.
unfoldable pub parse_value : Builtins → Json → Checked ParentCommand
parse_value b (obj fs) = route b (field_of "cmd" fs) fs
parse_value b (arr xs) = failed no_cmd
parse_value b v = failed no_object

-- An error of the call inside is thrown again, as one of the parse.
abbrev pub rethrown : Checked ParentCommand → Checked ParentCommand
rethrown (ok command) = ok command
rethrown (failed e) = failed (again e)

abbrev pub rethrown_from : Option (Checked ParentCommand) → Option (Checked ParentCommand)
rethrown_from none = none
rethrown_from (some checked) = some (rethrown checked)

abbrev pub parsed :
    (Json → Option (Checked ParentCommand)) → Option Json → Option (Checked ParentCommand)
parsed parse none = some (failed not_json)
parsed parse (some v) = rethrown_from (parse v)

abbrev pub by_kind :
    (Json → Option (Checked ParentCommand)) → Builtins → Json → Option (Checked ParentCommand)
by_kind parse b (str s) = parsed parse (b.json_parse s)
by_kind parse b v = some (parse_value b v)

-- `parseCommand` on fuel, for the texts in texts; `none` is out of fuel.
unfoldable pub parse_command : Builtins → ℕ → Json → Option (Checked ParentCommand)
parse_command b zero v = none
parse_command b (suc fuel) v = by_kind (parse_command b fuel) b v
