-- ===== src/Proxy/MessageParser/Exact.antt =====
-- The parser leaves exactly the payloads that pass its checks as they are.
use mcp_debugger.Base.{
  ◌≡◌, ◌↔◌, refl, ap, ◌∙◌, String, true, not, Option, none, some, [], ◌∷◌, ◌++◌, str_eq_iff, arith,
}
use mcp_debugger.Base.Json.{Json, Fields, null, bool, num, str, arr, obj, field_of}
use mcp_debugger.Proxy.MessageParser.{
  ok, Builtins, ParentCommand, init, dap, terminate, coerce_flags, is_string, is_optional, is_bool,
  is_number, is_port, break_modes, check_breakpoint, check_function_breakpoint, check_breakpoints,
  require_texts, init_texts, port_guards, flag_guards, validate_init_payload, validate_dap_payload,
  validate_terminate_payload, dap_texts, is_null, parse_value,
}
use mcp_debugger.Proxy.MessageParser.Shapes.{
  anything, literal, items, present, conforms, init_payload_members, dap_payload_members,
  terminate_payload_members, breakpoint, function_breakpoint, init_payload, dap_payload,
  terminate_payload, payload_of,
}
use mcp_debugger.Proxy.MessageParser.Steps.{Passes-guarded}
use mcp_debugger.Proxy.MessageParser.Readings.{MayHaveMember}
use mcp_debugger.Proxy.MessageParser.Typed.{IsCommand, parse_value-IsCommand}
use mcp_debugger.Proxy.MessageParser.Accepted.{
  object-Holds, present-text, present-port, absent_or-string, absent_or-positive,
  absent_or-not_null, absent_or-boolean, absent_or-items, absent_or-literal, coerce_number_same,
  coerce_flag_same, check_array-Accepts, check_breakpoint-Accepts,
  check_function_breakpoint-Accepts,
}

check_breakpoints-accepts :
    (b : Builtins) (fs : Fields)
    → MayHaveMember "initialBreakpoints" (items breakpoint) fs
    → MayHaveMember "initialFunctionBreakpoints" (items function_breakpoint) fs
    → check_breakpoints b fs ≡ ok fs
unfolding check_breakpoints
check_breakpoints-accepts b fs breakpoints functions =
    let first =
      check_array-Accepts "initialBreakpoints" breakpoint (check_breakpoint b)
        (field_of "initialBreakpoints" fs) fs refl (check_breakpoint-Accepts b) breakpoints in
    let second =
      check_array-Accepts "initialFunctionBreakpoints" function_breakpoint check_function_breakpoint
        (field_of "initialFunctionBreakpoints" fs) fs refl check_function_breakpoint-Accepts
        functions in
    rw first second

coerce_flags_same :
    (fs : Fields)
    → is_optional is_bool (field_of "stopOnEntry" fs) ≡ true
    → is_optional is_bool (field_of "justMyCode" fs) ≡ true
    → is_optional is_bool (field_of "dryRunSpawn" fs) ≡ true
    → coerce_flags fs ≡ fs
coerce_flags_same fs stop mine dry =
    rw (coerce_flag_same "stopOnEntry" fs stop, coerce_flag_same "justMyCode" fs mine)
      (coerce_flag_same "dryRunSpawn" fs dry)

is_port-number : (v : Option Json) → is_port v ≡ true → is_number v ≡ true
is_port-number v h = ground arith

validate_init_payload-accepts :
    (b : Builtins) (fs : Fields)
    → conforms init_payload (obj fs) ≡ true
    → validate_init_payload b fs ≡ ok fs
unfolding validate_init_payload
validate_init_payload-accepts b fs h =
    let (
      cmd,
      (
        session_id,
        (
          executable,
          (
            host,
            (
              log_dir,
              (
                script,
                (
                  numbered,
                  (
                    language,
                    (arguments, (stop, (mine, (dry, (breaks, (breakpoints, (functions, _))))))),
                  ),
                ),
              ),
            ),
          ),
        ),
      ),
    ) =
      object-Holds init_payload_members fs h in
    let at_port = present-port (field_of "adapterPort" fs) numbered in
    let stops = absent_or-boolean (field_of "stopOnEntry" fs) stop in
    let mines = absent_or-boolean (field_of "justMyCode" fs) mine in
    let dries = absent_or-boolean (field_of "dryRunSpawn" fs) dry in
    rw
      (
        coerce_number_same b "adapterPort" fs (is_port-number (field_of "adapterPort" fs) at_port),
        coerce_flags_same fs stops mines dries,
      )
      (Passes-guarded (require_texts "init" init_texts fs) _ (
        present-text _ session_id,
        (
          present-text _ executable,
          (present-text _ host, (present-text _ log_dir, (present-text _ script, tt))),
        ),
      )
        ∙ (Passes-guarded (port_guards fs) _ (
          at_port,
          (
            absent_or-string _ language,
            (absent_or-items (field_of "scriptArgs" fs) anything arguments, tt),
          ),
        )
            ∙ (Passes-guarded (flag_guards fs) _ (
              stops,
              (
                mines,
                (
                  dries,
                  (absent_or-literal (field_of "breakOnExceptions" fs) break_modes breaks, tt),
                ),
              ),
            )
                ∙ check_breakpoints-accepts b fs breakpoints functions)))

validate_dap_payload-accepts :
    (fs : Fields) → conforms dap_payload (obj fs) ≡ true → validate_dap_payload fs ≡ ok fs
unfolding validate_dap_payload
validate_dap_payload-accepts fs h =
    let (cmd, (session_id, (request_id, (command, (arguments, (timeout, _)))))) =
      object-Holds dap_payload_members fs h in
    rw (absent_or-positive (field_of "timeoutMs" fs) timeout) (
      Passes-guarded
        (require_texts "dap" dap_texts fs ++ (not (is_null (field_of "dapArgs" fs)), _) ∷ []) _
        (
          present-text _ session_id,
          (
            present-text _ request_id,
            (present-text _ command, (absent_or-not_null _ arguments, tt)),
          ),
        ))

validate_terminate_payload-accepts :
    (fs : Fields)
    → conforms terminate_payload (obj fs) ≡ true
    → validate_terminate_payload fs ≡ ok fs
unfolding validate_terminate_payload
validate_terminate_payload-accepts fs h =
    let (cmd, (session_id, _)) = object-Holds terminate_payload_members fs h in
    Passes-guarded ((is_optional is_string (field_of "sessionId" fs), _) ∷ []) _
      (absent_or-string _ session_id, tt)

-- The one text that a literal type of one text leaves.
only_text :
    (t : String) (v : Option Json)
    → present (conforms (literal (t ∷ []))) v ≡ true
    → v ≡ some (str t)
unfolding conforms
only_text t (some (str s)) h = ap (λ x. some (str x)) ((str_eq_iff s t).0 (ground arith))
only_text t (some null) h = absurd cc
only_text t (some (bool x)) h = absurd cc
only_text t (some (num n)) h = absurd cc
only_text t (some (arr x)) h = absurd cc
only_text t (some (obj x)) h = absurd cc
only_text t none h = absurd cc

parse_value-accepts :
    (b : Builtins) (command : ParentCommand)
    → IsCommand command
    → parse_value b (payload_of command) ≡ ok command
unfolding parse_value
parse_value-accepts b (init fs) h =
    let at = only_text "init" (field_of "cmd" fs) (object-Holds init_payload_members fs h).0 in
    rw (at, validate_init_payload-accepts b fs h) refl
parse_value-accepts b (dap fs) h =
    let at = only_text "dap" (field_of "cmd" fs) (object-Holds dap_payload_members fs h).0 in
    rw (at, validate_dap_payload-accepts fs h) refl
parse_value-accepts b (terminate fs) h =
    let at =
      only_text "terminate" (field_of "cmd" fs) (object-Holds terminate_payload_members fs h).0 in
    rw (at, validate_terminate_payload-accepts fs h) refl

-- The parser returns a payload as it is, for the command of its cmd, exactly when it passes the checks
-- that stand in Shapes for that command. These are not its whole type, and ask for more in places: an
-- init payload's five required texts are not empty, its port is a number between 1 and 65535, its
-- language, flags, break mode and breakpoints have their types if they are there, and its scriptArgs
-- is an array; a dap payload's three texts are not empty, its dapArgs is not null, and its timeoutMs
-- is a number above zero if it is there; a terminate payload's sessionId is a text if it is there.
-- Nothing is asked of logLevel, launchConfig, adapterCommand and the elements of scriptArgs.
pub parse_value-payload_of_iff :
    (b : Builtins) (command : ParentCommand)
    → (parse_value b (payload_of command) ≡ ok command) ↔ IsCommand command
parse_value-payload_of_iff b command =
    (parse_value-IsCommand b (payload_of command) command, parse_value-accepts b command)
