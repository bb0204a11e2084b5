-- ===== src/Proxy/MessageParser/Payloads.antt =====
-- What the other validators return has its type.
use mcp_debugger.Base.{
  ◌≡◌, refl, ap, ◌∙◌, subst, String, true, false, not, some, [], ◌∷◌, ◌++◌, if◌then◌else◌, str_eq,
  arith, if-cases,
}
use mcp_debugger.Base.Json.{Fields, str, obj, field_of}
use mcp_debugger.Proxy.MessageParser.{
  ok, remove, is_text, is_timeout, require_texts, validate_dap_payload, validate_terminate_payload,
  dap_texts, is_null,
}
use mcp_debugger.Proxy.MessageParser.Shapes.{
  text, conforms, dap_payload_members, terminate_payload_members, dap_payload, terminate_payload,
}
use mcp_debugger.Proxy.MessageParser.Steps.{Passes, guarded-ok, ok-inj, field_of-remove}
use mcp_debugger.Proxy.MessageParser.Readings.{
  HasMember, conforms-object, text-text, optional-string, timeout-positive, not_null_lem,
}

module _ (fs out : Fields) where
  validate_dap_payload-cases :
      validate_dap_payload fs ≡ ok out
      → Passes (require_texts "dap" dap_texts fs)
        × (not (is_null (field_of "dapArgs" fs)) ≡ true)
        × (is_timeout (field_of "timeoutMs" out) ≡ true)
        × ((k : String) → str_eq "timeoutMs" k ≡ false → field_of k out ≡ field_of k fs)
  unfolding validate_dap_payload
  validate_dap_payload-cases h =
      let kept = if is_timeout (field_of "timeoutMs" fs) then fs else remove "timeoutMs" fs in
      let ((session_id, (request_id, (command, (arguments, _)))), done) =
        guarded-ok (require_texts "dap" dap_texts fs ++ _ ∷ []) (ok kept) out h in
      let same : kept ≡ out = ok-inj kept out done in
      (
        (session_id, (request_id, (command, tt))),
        arguments,
        subst (λ x. is_timeout (field_of "timeoutMs" x) ≡ true) same
            (if-cases (λ x. is_timeout (field_of "timeoutMs" x) ≡ true)
              (is_timeout (field_of "timeoutMs" fs)) fs (remove "timeoutMs" fs) (λ e. e)
              (λ e. ap is_timeout (field_of-remove "timeoutMs" "timeoutMs" fs))),
        λ k apart.
            subst (λ x. field_of k x ≡ field_of k fs) same
              (if-cases (λ x. field_of k x ≡ field_of k fs) (is_timeout (field_of "timeoutMs" fs))
                fs (remove "timeoutMs" fs) (λ e. refl)
                (λ e. ground (arith, apart, field_of-remove k "timeoutMs" fs))),
      )

  pub validate_dap_payload-conforms :
      field_of "cmd" fs ≡ some (str "dap")
      → validate_dap_payload fs ≡ ok out
      → conforms dap_payload (obj out) ≡ true
  unfolding conforms
  validate_dap_payload-conforms cmd h =
      let ((session_id, (request_id, (command, _))), arguments, timeout, kept) =
        validate_dap_payload-cases h in
      let is_kept : (k : String)
          → is_text (field_of k fs) ≡ true
          → str_eq "timeoutMs" k ≡ false
          → HasMember k text out =
        λ k is apart. text-text (field_of k out) (ap is_text (kept k apart) ∙ is) in
      let e = kept "cmd" refl ∙ cmd in
      let given = ap (λ v. not (is_null v)) (kept "dapArgs" refl) ∙ arguments in
      conforms-object dap_payload_members out (
        rw e refl,
        (
          is_kept "sessionId" session_id refl,
          (
            is_kept "requestId" request_id refl,
            (
              is_kept "dapCommand" command refl,
              (
                not_null_lem (field_of "dapArgs" out) given,
                (timeout-positive (field_of "timeoutMs" out) timeout, tt),
              ),
            ),
          ),
        ),
      )

  pub validate_terminate_payload-conforms :
      field_of "cmd" fs ≡ some (str "terminate")
      → validate_terminate_payload fs ≡ ok out
      → conforms terminate_payload (obj out) ≡ true
  unfolding validate_terminate_payload conforms
  validate_terminate_payload-conforms cmd h =
      let ((session_id, _), done) = guarded-ok (_ ∷ []) (ok fs) out h in
      subst (λ x. conforms terminate_payload (obj x) ≡ true) (ok-inj fs out done)
        (conforms-object terminate_payload_members fs
          (rw cmd refl, (optional-string (field_of "sessionId" fs) session_id, tt)))
