-- ===== src/Proxy/Manager/Messages.antt =====
-- What the manager does with a message of its proxy process, beside the functional core.
use mcp_debugger.Base.{
  ℕ, String, Bool, true, false, ◌&&◌, ◌||◌, Option, none, some, List, [], ◌∷◌, if◌then◌else◌,
  str_eq, string_eq,
}
use mcp_debugger.Base.Int.{ℤ}
use mcp_debugger.Base.Dict
use mcp_debugger.Base.Json.{Json, null, num, arr, cons, str, member, truthy}
use mcp_debugger.DapCore.State.{DapSessionState, set_current_thread_id}
use mcp_debugger.DapCore.Handlers.{
  Status, proxy_minimal_ran_ipc_test, init_received, dry_run_complete, adapter_connected,
  adapter_configured_and_launched, closing, other_status, ClosingStatus, adapter_exited,
  dap_connection_closed, terminated, Content, status, dap_event, dap_response, ProxyMessage, Arg,
  value, DapCommand, send_to_client, send_to_proxy, log, emit_event, kill_process,
  handle_proxy_message as handle_by_core,
}
use mcp_debugger.Proxy.Manager.{
  ProxyManager, PendingDapRequest, BarrierCall, proxy_status, resolved, rejected, failed_response,
  emit, tell, on_mirror, settle_request, clear_timeout, forget_request, clear_owned_barrier,
}

-- A message with what the functional core does not read of it: of a response, whether it is a
-- success, its `response || body` and its error; of a status, the value that its event carries.
pub record Incoming : Type 0 where
  pub message : ProxyMessage
  pub success : Bool
  pub response : Option Json
  pub error : Option String
  pub detail : Option Json

pub data Received : Type 0 where
  heartbeat : Received
  invalid : Received
  valid : Incoming → Received

abbrev pub tell_active : BarrierCall → Option (ℕ × String) → ProxyManager → ProxyManager
tell_active call none m = m
tell_active call (some (active, owner)) m = tell active call m

-- `typeof v === 'number'`
abbrev pub number_of : Option Json → Option ℤ
number_of (some (num n)) = some n
number_of v = none

abbrev pub or_thread : Option ℤ → Option ℤ → Option ℤ
or_thread none old = old
or_thread (some n) old = some n

abbrev pub number_arg : Option ℤ → Arg
number_arg none = value none
number_arg (some n) = value (some (num n))

-- `body?.reason || 'unknown'`
abbrev pub reason_of : Option Json → Option Json
reason_of body =
    if truthy (member "reason" body) then member "reason" body else some (str "unknown")

unfoldable pub handle_dap_event : String → Option Json → ProxyManager → ProxyManager
handle_dap_event event body m =
    let told = tell_active (BarrierCall.dap_event event body) m.active_launch_barrier m in
    let thread_id = number_of (member "threadId" body) in
    if str_eq event "stopped"
    then emit "stopped" (number_arg thread_id ∷ value (reason_of body) ∷ value body ∷ [])
        (record told { current_thread_id = or_thread thread_id told.current_thread_id })
    else if str_eq event "continued"
    then emit "continued" [] told
    else if str_eq event "terminated"
    then emit "terminated" [] told
    else if str_eq event "exited"
    then emit "exited" (number_arg (number_of (member "exitCode" body)) ∷ []) told
    else if str_eq event "output"
    then emit "output" (value body ∷ []) told
    else if str_eq event "breakpoint"
    then emit "breakpoint" (value body ∷ []) told
    else emit "dap-event" (value (some (str event)) ∷ value body ∷ []) told

abbrev pub mark_initialized : ProxyManager → ProxyManager
mark_initialized m =
    if m.is_initialized
    then m
    else emit "initialized" [] (record m { is_initialized = true; ever_initialized = true })

-- `v ?? null` and `v || undefined`
abbrev or_null : Option Json → Option Json
or_null none = some null
or_null (some v) = some v

abbrev or_undefined : Option Json → Option Json
or_undefined v = if truthy v then v else none

abbrev emit_exit : List Arg → ProxyManager → ProxyManager
emit_exit args m = if m.exit_emitted then m else emit "exit" args (record m { exit_emitted = true })

abbrev pub closing_text : ClosingStatus → String
closing_text adapter_exited = "adapter_exited"
closing_text dap_connection_closed = "dap_connection_closed"
closing_text terminated = "terminated"

abbrev pub status_text : Status → String
status_text proxy_minimal_ran_ipc_test = "proxy_minimal_ran_ipc_test"
status_text init_received = "init_received"
status_text (dry_run_complete command script) = "dry_run_complete"
status_text adapter_connected = "adapter_connected"
status_text adapter_configured_and_launched = "adapter_configured_and_launched"
status_text (closing name code signal expected) = closing_text name
status_text (other_status name) = name

-- The statuses that only the manager knows; the progress of the handshake is left out.
abbrev pub handle_other_status : String → Option Json → ProxyManager → ProxyManager
handle_other_status name detail m =
    if str_eq name "adapter_capabilities"
    then emit "adapter-capabilities" (value detail ∷ []) m
    else if str_eq name "function_breakpoints_synced"
    then emit "function-breakpoints-synced" (value detail ∷ []) m
    else if str_eq name "breakpoints_synced"
    then emit "breakpoints-synced" (value detail ∷ []) m
    else m

abbrev pub handle_status : Status → Option Json → ProxyManager → ProxyManager
handle_status proxy_minimal_ran_ipc_test detail m = m
handle_status init_received detail m = emit "init-received" [] m
handle_status (dry_run_complete command script) detail m =
    emit "dry-run-complete" (value (some (str command)) ∷ value (some (str script)) ∷ [])
      (record m { dry_run_complete_received = true })
handle_status adapter_configured_and_launched detail m =
    mark_initialized (emit "adapter-configured" [] (record m { adapter_configured = true }))
handle_status adapter_connected detail m = mark_initialized m
handle_status (closing name code signal expected) detail m =
    emit_exit (value (or_null code) ∷ value (or_undefined signal) ∷ value expected ∷ []) m
handle_status (other_status name) detail m = handle_other_status name detail m

-- The kill for the IPC test status is left to the process.
unfoldable pub handle_status_message : Status → Option Json → ProxyManager → ProxyManager
handle_status_message s detail m =
    handle_status s detail (tell_active (proxy_status (status_text s)) m.active_launch_barrier m)

-- The first thread of a `threads` response.
abbrev pub first_item : Option Json → Option Json
first_item (some (arr (cons v rest))) = some v
first_item v = none

abbrev pub first_thread : Option Json → Option ℤ
first_thread response =
    number_of (member "id" (first_item (member "threads" (member "body" response))))

abbrev pub adopt_thread : Option ℤ → ProxyManager → ProxyManager
adopt_thread none m = m
adopt_thread (some n) m = record m {
  current_thread_id = some n;
  dap_state = on_mirror (λ state. set_current_thread_id state (some (num n))) m.dap_state;
}

-- A thread is taken over only where there is none.
abbrev pub capture_thread : String → Option ℤ → Option Json → ProxyManager → ProxyManager
capture_thread command none response m =
    if str_eq command "threads" then adopt_thread (first_thread response) m else m
capture_thread command (some anchored) response m = m

abbrev pub answer : String → PendingDapRequest → Incoming → ProxyManager → ProxyManager
answer request_id pending incoming m =
    if incoming.success
    then settle_request request_id (resolved incoming.response)
        (capture_thread pending.command m.current_thread_id incoming.response m)
    else settle_request request_id (rejected (failed_response pending.command incoming.error)) m

abbrev pub respond : String → Option PendingDapRequest → Incoming → ProxyManager → ProxyManager
respond request_id none incoming m = m
respond request_id (some pending) incoming m =
    answer request_id pending incoming
      (clear_owned_barrier request_id (forget_request request_id (clear_timeout pending.timer m)))

unfoldable pub handle_dap_response : String → Incoming → ProxyManager → ProxyManager
handle_dap_response request_id incoming m =
    respond request_id (Dict.get request_id m.pending_dap_requests) incoming m

abbrev pub is_dap_event : Content → Bool
is_dap_event (dap_event event body) = true
is_dap_event content = false

-- A command of the functional core. What it emits for an event of the adapter, or for an exit that was
-- announced, is dropped; it logs, kills, or sends nothing that this state shows.
abbrev pub run_command : Bool → DapCommand → ProxyManager → ProxyManager
run_command is_event (emit_event event args) m =
    if is_event then m else if str_eq event "exit" && m.exit_emitted then m else emit event args m
run_command is_event (send_to_client command) m = m
run_command is_event (send_to_proxy command) m = m
run_command is_event (log level text data_of_log) m = m
run_command is_event kill_process m = m

unfoldable pub run_commands : Bool → List DapCommand → ProxyManager → ProxyManager
run_commands is_event [] m = m
run_commands is_event (command ∷ commands) m =
    run_commands is_event commands (run_command is_event command m)

-- The core's new state is taken over, and two of its flags with it.
abbrev pub take_core_state : Option DapSessionState → ProxyManager → ProxyManager
take_core_state none m = m
take_core_state (some state) m = record m {
  dap_state = some state;
  is_initialized = state.initialized;
  ever_initialized = state.initialized || m.ever_initialized;
  adapter_configured = state.adapter_configured;
}

abbrev pub after_core : Content → Incoming → ProxyManager → ProxyManager
after_core (dap_response request_id) incoming m = handle_dap_response request_id incoming m
after_core content incoming m = m

abbrev pub through_core : Option DapSessionState → Incoming → ProxyManager → ProxyManager
through_core none incoming m = m
through_core (some state) incoming m =
    let result = handle_by_core state incoming.message in
    let content = incoming.message.content in
    after_core content incoming
      (take_core_state result.new_state (run_commands (is_dap_event content) result.commands m))

-- What is done at once, before the core is asked.
abbrev pub fast_path : Content → Option Json → ProxyManager → ProxyManager
fast_path (dap_event event body) detail m = handle_dap_event event body m
fast_path (status s) detail m = handle_status_message s detail m
fast_path content detail m = m

abbrev pub receive_valid : Incoming → ProxyManager → ProxyManager
receive_valid incoming m =
    let handled = fast_path incoming.message.content incoming.detail m in
    through_core handled.dap_state incoming handled

abbrev pub receive : Received → ProxyManager → ProxyManager
receive heartbeat m = m
receive invalid m = m
receive (valid incoming) m = receive_valid incoming m

-- `handleProxyMessage`; the counter of messages, for the log, is left out.
unfoldable pub handle_proxy_message : Received → ProxyManager → ProxyManager
handle_proxy_message received m = if m.is_stopped then m else receive received m
