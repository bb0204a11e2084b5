-- ===== src/Proxy/MessageParser/Typed.antt =====
-- What the parser returns has the checked part of the type that it asserts.
use mcp_debugger.Base.{
  ℕ, zero, suc, ◌≡◌, refl, subst, String, true, Option, none, some, if◌then◌else◌, str_eq,
  str_eq_iff, arith, if-true, if-false, Bool-cases, inl, inr,
}
use mcp_debugger.Base.Json.{Json, Fields, null, bool, num, str, arr, obj, field_of}
use mcp_debugger.Proxy.MessageParser.{
  Checked, ok, failed, Builtins, ParentCommand, init, dap, terminate, validate_init_payload,
  validate_dap_payload, validate_terminate_payload, to_command, by_cmd, route, parse_value, no_cmd,
  unknown_command, rethrown_from, parsed, by_kind, parse_command,
}
use mcp_debugger.Proxy.MessageParser.Shapes.{conforms, type_of, payload_of}
use mcp_debugger.Proxy.MessageParser.Steps.{and_then-ok, ok-inj}
use mcp_debugger.Proxy.MessageParser.Init.{validate_init_payload-conforms}
use mcp_debugger.Proxy.MessageParser.Payloads.{
  validate_dap_payload-conforms, validate_terminate_payload-conforms,
}

-- A command with the checked part of the type that its cmd says: it fits the shape of its cmd.
abbrev pub IsCommand : ParentCommand → Type 0
IsCommand command = conforms (type_of command) (payload_of command) ≡ true

to_command-ok :
    (as_command : Fields → ParentCommand) (checked : Checked Fields) (command : ParentCommand)
    → to_command as_command checked ≡ ok command
    → (out : Fields) × (checked ≡ ok out) × (as_command out ≡ command)
to_command-ok as_command checked command h =
    let (out, first, second) = and_then-ok checked (λ fs. ok (as_command fs)) command h in
    (out, first, ok-inj (as_command out) command second)

module _ (b : Builtins) (cmd : String) (fs : Fields) (command : ParentCommand)
    (there : field_of "cmd" fs ≡ some (str cmd)) where
  is_cmd : (name : String) → str_eq cmd name ≡ true → field_of "cmd" fs ≡ some (str name)
  is_cmd name e = ground (arith, there, e, str_eq_iff cmd name)

  by_terminate-IsCommand :
      (if str_eq cmd "terminate"
          then to_command terminate (validate_terminate_payload fs)
          else failed (unknown_command cmd))
        ≡ ok command
      → IsCommand command
  by_terminate-IsCommand h = elim (Bool-cases (str_eq cmd "terminate")) [
    | inl e ↦
        let (out, valid, same) =
          to_command-ok terminate (validate_terminate_payload fs) command
            (if-true (str_eq cmd "terminate") _ _ (ok command) e h) in
        subst IsCommand same
          (validate_terminate_payload-conforms fs out (is_cmd "terminate" e) valid)
    | inr e ↦
        let wrong : failed (unknown_command cmd) ≡ ok command =
          if-false (str_eq cmd "terminate") _ _ (ok command) e h in
        absurd cc
  ]

  by_dap-IsCommand :
      (if str_eq cmd "dap"
          then to_command dap (validate_dap_payload fs)
          else if str_eq cmd "terminate"
          then to_command terminate (validate_terminate_payload fs)
          else failed (unknown_command cmd))
        ≡ ok command
      → IsCommand command
  by_dap-IsCommand h = elim (Bool-cases (str_eq cmd "dap")) [
    | inl e ↦
        let (out, valid, same) =
          to_command-ok dap (validate_dap_payload fs) command
            (if-true (str_eq cmd "dap") _ _ (ok command) e h) in
        subst IsCommand same (validate_dap_payload-conforms fs out (is_cmd "dap" e) valid)
    | inr e ↦ by_terminate-IsCommand (if-false (str_eq cmd "dap") _ _ (ok command) e h)
  ]

  by_cmd-IsCommand : by_cmd b cmd fs ≡ ok command → IsCommand command
  by_cmd-IsCommand h = elim (Bool-cases (str_eq cmd "init")) [
    | inl e ↦
        let (out, valid, same) =
          to_command-ok init (validate_init_payload b fs) command
            (if-true (str_eq cmd "init") _ _ (ok command) e h) in
        subst IsCommand same (validate_init_payload-conforms b fs out (is_cmd "init" e) valid)
    | inr e ↦ by_dap-IsCommand (if-false (str_eq cmd "init") _ _ (ok command) e h)
  ]

route-IsCommand :
    (b : Builtins) (v : Option Json) (fs : Fields) (command : ParentCommand)
    → field_of "cmd" fs ≡ v
    → route b v fs ≡ ok command
    → IsCommand command
route-IsCommand b (some (str cmd)) fs command there h = elim (Bool-cases (str_eq cmd "")) [
  | inl e ↦
      let wrong : failed no_cmd ≡ ok command = if-true (str_eq cmd "") _ _ (ok command) e h in
      absurd cc
  | inr e ↦ by_cmd-IsCommand b cmd fs command there (if-false (str_eq cmd "") _ _ (ok command) e h)
]
route-IsCommand b (some null) fs command there h = absurd cc
route-IsCommand b (some (bool x)) fs command there h = absurd cc
route-IsCommand b (some (num n)) fs command there h = absurd cc
route-IsCommand b (some (arr vs)) fs command there h = absurd cc
route-IsCommand b (some (obj gs)) fs command there h = absurd cc
route-IsCommand b none fs command there h = absurd cc

pub parse_value-IsCommand :
    (b : Builtins) (v : Json) (command : ParentCommand)
    → parse_value b v ≡ ok command
    → IsCommand command
unfolding parse_value
parse_value-IsCommand b (obj fs) command h = route-IsCommand b (field_of "cmd" fs) fs command refl h
parse_value-IsCommand b (arr vs) command h = absurd cc
parse_value-IsCommand b null command h = absurd cc
parse_value-IsCommand b (bool x) command h = absurd cc
parse_value-IsCommand b (num n) command h = absurd cc
parse_value-IsCommand b (str s) command h = absurd cc

rethrown_from-ok :
    (result : Option (Checked ParentCommand)) (command : ParentCommand)
    → rethrown_from result ≡ some (ok command)
    → result ≡ some (ok command)
rethrown_from-ok none command h = absurd cc
rethrown_from-ok (some (ok c)) command h = h
rethrown_from-ok (some (failed e)) command h = absurd cc

some-inj {ℓ} : {A : Type ℓ} (x y : A) → some x ≡ some y → x ≡ y
some-inj x y e = cc

by_kind-IsCommand :
    (parse : Json → Option (Checked ParentCommand)) (b : Builtins) (v : Json)
    (command : ParentCommand)
    → ((w : Json) → parse w ≡ some (ok command) → IsCommand command)
    → by_kind parse b v ≡ some (ok command)
    → IsCommand command
by_kind-IsCommand parse b (str s) command sound h = parsed-IsCommand (b.json_parse s) h
  where
    parsed-IsCommand : (v : Option Json) → parsed parse v ≡ some (ok command) → IsCommand command
    parsed-IsCommand none h = absurd cc
    parsed-IsCommand (some w) h = sound w (rethrown_from-ok (parse w) command h)
by_kind-IsCommand parse b (obj fs) command sound h =
    parse_value-IsCommand b (obj fs) command (some-inj _ _ h)
by_kind-IsCommand parse b (arr vs) command sound h =
    parse_value-IsCommand b (arr vs) command (some-inj _ _ h)
by_kind-IsCommand parse b null command sound h =
    parse_value-IsCommand b null command (some-inj _ _ h)
by_kind-IsCommand parse b (bool x) command sound h =
    parse_value-IsCommand b (bool x) command (some-inj _ _ h)
by_kind-IsCommand parse b (num n) command sound h =
    parse_value-IsCommand b (num n) command (some-inj _ _ h)

-- A command that the parser returns, for any value or text, has the checked part of the type that it is
-- asserted to have, by its own cmd: the required texts are there and not empty, the port of an init
-- command lies between 1 and 65535, the other fields have their types, in every breakpoint too, and a
-- time-out that a request still has is above zero.
pub parse_command-IsCommand :
    (b : Builtins) (fuel : ℕ) (v : Json) (command : ParentCommand)
    → parse_command b fuel v ≡ some (ok command)
    → IsCommand command
unfolding parse_command
parse_command-IsCommand b zero v command h = absurd cc
parse_command-IsCommand b (suc fuel) v command h =
    by_kind-IsCommand (parse_command b fuel) b v command
      (λ w. parse_command-IsCommand b fuel w command) h
