-- ===== src/DapCore/Handlers.antt =====
-- src/dap-core/handlers.ts, with the message and command types of src/dap-core/types.ts.
-- A status that the handler's switch does not name is `other_status`; a message whose `type` is
-- none of the four is `unknown`.
use Prim.Native.String.{◌++◌}
use mcp_debugger.Base.{
  String, Bool, true, Option, none, some, List, [], ◌∷◌, if◌then◌else◌, str_eq, not, ◌&&◌,
}
use mcp_debugger.Base.Json.{Json, null, str, member, truthy, has_type_string, is_object}
use mcp_debugger.DapCore.State.{
  DapSessionState, set_initialized, set_adapter_configured, set_current_thread_id,
  get_pending_request, remove_pending_request,
}

-- The statuses that close the connection share one case, and their name is logged.
pub data ClosingStatus : Type 0 where
  adapter_exited dap_connection_closed terminated : ClosingStatus

pub data Status : Type 0 where
  proxy_minimal_ran_ipc_test : Status
  init_received : Status
  dry_run_complete : (command script : String) → Status
  adapter_connected : Status
  adapter_configured_and_launched : Status
  closing : ClosingStatus → (code signal expected : Option Json) → Status
  other_status : String → Status

pub data Content : Type 0 where
  status : Status → Content
  failure : String → Content
  dap_event : (event : String) (body : Option Json) → Content
  dap_response : (request_id : String) → Content
  unknown : Option Json → Content

pub record ProxyMessage : Type 0 where
  pub session_id : String
  pub content : Content

pub data Level : Type 0 where
  info error warn debug : Level

-- What `log` carries as its data: nothing, the body of an event, or the whole message.
pub data LogData : Type 0 where
  absent : LogData
  body : Option Json → LogData
  whole : ProxyMessage → LogData

-- An argument of an emitted event: a value, `undefined` as `none`, or `new Error(text)`.
pub data Arg : Type 0 where
  value : Option Json → Arg
  error_of : String → Arg

pub data DapCommand : Type 0 where
  send_to_client : Json → DapCommand
  send_to_proxy : Json → DapCommand
  log : Level → String → LogData → DapCommand
  emit_event : String → List Arg → DapCommand
  kill_process : DapCommand

pub record DapProcessingResult : Type 0 where
  pub commands : List DapCommand
  pub new_state : Option DapSessionState

abbrev only : List DapCommand → DapProcessingResult
only commands = record { commands = commands; new_state = none }

abbrev closing_name : ClosingStatus → String
closing_name adapter_exited = "adapter_exited"
closing_name dap_connection_closed = "dap_connection_closed"
closing_name terminated = "terminated"

-- `v ?? null`
abbrev or_null : Option Json → Option Json
or_null none = some null
or_null (some v) = some v

-- `v || undefined`
abbrev or_undefined : Option Json → Option Json
or_undefined v = if truthy v then v else none

abbrev note : String → DapCommand
note text = log info text absent

unfoldable pub handle_status_message : DapSessionState → Status → DapProcessingResult
handle_status_message state proxy_minimal_ran_ipc_test =
    only (note "[ProxyManager] IPC test message received" ∷ kill_process ∷ [])
handle_status_message state init_received =
    only (
      note "[ProxyManager] Init command acknowledged by proxy" ∷ emit_event "init-received" [] ∷ [])
handle_status_message state (dry_run_complete command script) = only (
    note "[ProxyManager] Dry run complete"
    ∷ emit_event "dry-run-complete" (value (some (str command)) ∷ value (some (str script)) ∷ [])
    ∷ [])
handle_status_message state adapter_connected = record {
  commands = note "[ProxyManager] Adapter transport connected" ∷ emit_event "initialized" [] ∷ [];
  new_state = some (set_initialized state true);
}
handle_status_message state adapter_configured_and_launched =
    let configured = set_adapter_configured state true in
    if not state.initialized
    then record {
      commands =
          note "[ProxyManager] Adapter configured and launched"
          ∷ emit_event "adapter-configured" []
          ∷ emit_event "initialized" []
          ∷ [];
      new_state = some (set_initialized configured true);
    }
    else record {
      commands =
          note "[ProxyManager] Adapter configured and launched"
          ∷ emit_event "adapter-configured" []
          ∷ [];
      new_state = some configured;
    }
handle_status_message state (closing name code signal expected) = only (
    note ("[ProxyManager] Status: " ++ closing_name name)
    ∷ emit_event "exit" (value (or_null code) ∷ value (or_undefined signal) ∷ value expected ∷ [])
    ∷ [])
handle_status_message state (other_status name) = only []

unfoldable pub handle_error_message : DapSessionState → String → DapProcessingResult
handle_error_message state text = only (
    log error ("[ProxyManager] Proxy error: " ++ text) absent
    ∷ emit_event "error" (error_of text ∷ [])
    ∷ [])

-- `body?.reason || 'unknown'`
abbrev stop_reason : Option Json → Option Json
stop_reason event_body =
    let reason = member "reason" event_body in
    if truthy reason then reason else some (str "unknown")

-- The command that an event is forwarded as.
unfoldable pub forward : String → Option Json → DapCommand
forward event event_body =
    if str_eq event "stopped"
    then emit_event "stopped" (
        value (member "threadId" event_body)
        ∷ value (stop_reason event_body)
        ∷ value event_body
        ∷ [])
    else if str_eq event "continued"
    then emit_event "continued" []
    else if str_eq event "terminated"
    then emit_event "terminated" []
    else if str_eq event "exited"
    then emit_event "exited" []
    else if str_eq event "output"
    then emit_event "output" (value event_body ∷ [])
    else emit_event "dap-event" (value (some (str event)) ∷ value event_body ∷ [])

-- The state after an event: only a `stopped` event with a thread changes it.
unfoldable pub state_after_event : DapSessionState → String → Option Json → DapSessionState
state_after_event state event event_body =
    let thread_id = member "threadId" event_body in
    if str_eq event "stopped"
    then (if truthy thread_id then set_current_thread_id state thread_id else state)
    else state

unfoldable pub handle_dap_event : DapSessionState → String → Option Json → DapProcessingResult
unfolding forward state_after_event
handle_dap_event state event event_body = record {
  commands =
      log info ("[ProxyManager] DAP event: " ++ event) (body event_body)
      ∷ forward event event_body
      ∷ [];
  new_state = some (state_after_event state event event_body);
}

unfoldable pub handle_dap_response : DapSessionState → String → DapProcessingResult
handle_dap_response state request_id = elim (get_pending_request state request_id) [
  | none ↦ only (
      log debug ("[ProxyManager] Received response for unknown request: " ++ request_id) absent
      ∷ [])
  | some pending ↦ record {
    commands = [];
    new_state = some (remove_pending_request state request_id);
  }
]

-- The switch on the message's type.
unfoldable pub handle_content : DapSessionState → ProxyMessage → Content → DapProcessingResult
handle_content state message (status s) = handle_status_message state s
handle_content state message (failure text) = handle_error_message state text
handle_content state message (dap_event event event_body) = handle_dap_event state event event_body
handle_content state message (dap_response request_id) = handle_dap_response state request_id
handle_content state message (unknown raw) =
    only (log warn "Unknown message type" (whole message) ∷ [])

abbrev mismatch_text : String → String → String
mismatch_text expected got = "Session ID mismatch. Expected " ++ expected ++ ", got " ++ got

unfoldable pub handle_proxy_message : DapSessionState → ProxyMessage → DapProcessingResult
unfolding handle_content
handle_proxy_message state message =
    if str_eq message.session_id state.session_id
    then handle_content state message message.content
    else only (log warn (mismatch_text state.session_id message.session_id) absent ∷ [])

-- `typeof message === 'object'`, with `sessionId` and `type` both strings.
unfoldable pub is_valid_proxy_message : Option Json → Bool
unfolding has_type_string is_object member
is_valid_proxy_message message =
    is_object message
    && (has_type_string (member "sessionId" message) && has_type_string (member "type" message))
