-- ===== src/Proxy/MessageParser/Init.antt =====
-- What `validate_init_payload` returns has the type of an init payload.
use mcp_debugger.Base.{◌≡◌, refl, ap, ◌∙◌, sym, subst, String, true, false, some, str_eq}
use mcp_debugger.Base.Json.{Fields, str, obj, field_of}
use mcp_debugger.Proxy.MessageParser.{
  ok, Builtins, coerce_number, coerce_flags, is_text, is_string, is_optional, is_array, is_bool,
  is_port, is_literal, break_modes, check_breakpoints, require_texts, init_texts, port_guards,
  flag_guards, validate_init_payload,
}
use mcp_debugger.Proxy.MessageParser.Shapes.{
  text, present, conforms, init_payload_members, init_payload,
}
use mcp_debugger.Proxy.MessageParser.Steps.{
  Passes, guarded-ok, coerce_number_else, coerce_flag_else,
}
use mcp_debugger.Proxy.MessageParser.Readings.{
  HasMember, conforms-object, text-text, optional-string, port-port, optional-boolean,
  optional-literal, optional-array,
}
use mcp_debugger.Proxy.MessageParser.Arrays.{check_breakpoints_else, check_breakpoints-ok}

-- A field that no step coerces.
coerce_flags_else :
    (k : String) (fs : Fields)
    → str_eq "stopOnEntry" k ≡ false
    → str_eq "justMyCode" k ≡ false
    → str_eq "dryRunSpawn" k ≡ false
    → field_of k (coerce_flags fs) ≡ field_of k fs
coerce_flags_else k fs a b c =
    coerce_flag_else k "dryRunSpawn" _ c
    ∙ (coerce_flag_else k "justMyCode" _ b ∙ coerce_flag_else k "stopOnEntry" fs a)

module _ (b : Builtins) (fs out : Fields) (cmd : field_of "cmd" fs ≡ some (str "init"))
    (h : validate_init_payload b fs ≡ ok out) where
  abbrev ported : Fields
  ported = coerce_number b "adapterPort" fs

  abbrev flagged : Fields
  flagged = coerce_flags ported

  passed :
      Passes (require_texts "init" init_texts fs)
      × Passes (port_guards ported)
      × Passes (flag_guards flagged)
      × (check_breakpoints b flagged ≡ ok out)
  unfolding validate_init_payload
  passed =
      let (texts, after_texts) = guarded-ok (require_texts "init" init_texts fs) _ out h in
      let (numbered, after_port) = guarded-ok (port_guards ported) _ out after_texts in
      let (flags, after_flags) = guarded-ok (flag_guards flagged) _ out after_port in
      (texts, numbered, flags, after_flags)

  from_flagged :
      (k : String)
      → str_eq "initialBreakpoints" k ≡ false
      → str_eq "initialFunctionBreakpoints" k ≡ false
      → field_of k out ≡ field_of k flagged
  from_flagged k a c = check_breakpoints_else b k flagged out a c passed.3

  from_ported :
      (k : String)
      → str_eq "initialBreakpoints" k ≡ false
      → str_eq "initialFunctionBreakpoints" k ≡ false
      → str_eq "stopOnEntry" k ≡ false
      → str_eq "justMyCode" k ≡ false
      → str_eq "dryRunSpawn" k ≡ false
      → field_of k out ≡ field_of k ported
  from_ported k a c d e f = from_flagged k a c ∙ coerce_flags_else k ported d e f

  from_start :
      (k : String)
      → str_eq "initialBreakpoints" k ≡ false
      → str_eq "initialFunctionBreakpoints" k ≡ false
      → str_eq "stopOnEntry" k ≡ false
      → str_eq "justMyCode" k ≡ false
      → str_eq "dryRunSpawn" k ≡ false
      → str_eq "adapterPort" k ≡ false
      → field_of k out ≡ field_of k fs
  from_start k a c d e f g = from_ported k a c d e f ∙ coerce_number_else b k "adapterPort" fs g

  text_member :
      (k : String)
      → is_text (field_of k fs) ≡ true
      → field_of k out ≡ field_of k fs
      → HasMember k text out
  text_member k given kept =
      subst (λ v. present (conforms text) v ≡ true) (sym kept) (text-text (field_of k fs) given)

  pub validate_init_payload-conforms : conforms init_payload (obj out) ≡ true
  unfolding conforms
  validate_init_payload-conforms =
      let (
        (session_id, (executable, (host, (log_dir, (script, _))))),
        (numbered, (language, (arguments, _))),
        (stop, (mine, (dry, (breaks, _)))),
        checked,
      ) =
        passed in
      let (breakpoints, functions) = check_breakpoints-ok b flagged out checked in
      let kept_cmd = from_start "cmd" refl refl refl refl refl refl ∙ cmd in
      conforms-object init_payload_members out (
        rw kept_cmd refl,
        (
          text_member "sessionId" session_id (from_start "sessionId" refl refl refl refl refl refl),
          (
            text_member "executablePath" executable
                (from_start "executablePath" refl refl refl refl refl refl),
            (
              text_member "adapterHost" host
                  (from_start "adapterHost" refl refl refl refl refl refl),
              (
                text_member "logDir" log_dir (from_start "logDir" refl refl refl refl refl refl),
                (
                  text_member "scriptPath" script
                      (from_start "scriptPath" refl refl refl refl refl refl),
                  (
                    port-port (field_of "adapterPort" out) (
                        ap is_port (from_ported "adapterPort" refl refl refl refl refl) ∙ numbered),
                    (
                      optional-string (field_of "language" out) (
                          ap (is_optional is_string)
                            (from_ported "language" refl refl refl refl refl)
                          ∙ language),
                      (
                        optional-array (field_of "scriptArgs" out) (
                            ap (is_optional is_array)
                              (from_ported "scriptArgs" refl refl refl refl refl)
                            ∙ arguments),
                        (
                          optional-boolean (field_of "stopOnEntry" out) (
                              ap (is_optional is_bool) (from_flagged "stopOnEntry" refl refl)
                              ∙ stop),
                          (
                            optional-boolean (field_of "justMyCode" out) (
                                ap (is_optional is_bool) (from_flagged "justMyCode" refl refl)
                                ∙ mine),
                            (
                              optional-boolean (field_of "dryRunSpawn" out) (
                                  ap (is_optional is_bool) (from_flagged "dryRunSpawn" refl refl)
                                  ∙ dry),
                              (
                                optional-literal (field_of "breakOnExceptions" out) break_modes (
                                    ap (is_optional (is_literal break_modes))
                                      (from_flagged "breakOnExceptions" refl refl)
                                    ∙ breaks),
                                (breakpoints, (functions, tt)),
                              ),
                            ),
                          ),
                        ),
                      ),
                    ),
                  ),
                ),
              ),
            ),
          ),
        ),
      )
