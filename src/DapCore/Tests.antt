-- ===== src/DapCore/Tests.antt =====
-- The core at concrete messages.
use mcp_debugger.Base.{String, ◌≡◌, refl, ◌≢◌, ◌↔◌, true, none, some, List, [], ◌∷◌}
use mcp_debugger.Base.Int.{pos}
use mcp_debugger.Base.Json.{Json, num, str, obj, end, field}
use mcp_debugger.Base.Dict
use mcp_debugger.DapCore.State.{
  PendingRequest, DapSessionState, create_initial_state, get_pending_request, add_pending_request,
}
use mcp_debugger.DapCore.Handlers.{
  ProxyMessage, Content, dap_response, dap_event, status, adapter_connected,
  adapter_configured_and_launched, proxy_minimal_ran_ipc_test, handle_proxy_message,
}
use mcp_debugger.DapCore.Session.{Action, receive, send, step, run, kills}
use mcp_debugger.DapCore.Lifecycle.{
  IsOrdered, Announced, IsIpcTest, run-create_initial_state-IsOrdered,
  handle_proxy_message-Announced, kills-handle_proxy_message_iff,
}
use mcp_debugger.DapCore.Pending.{latest_of, run-get_pending_request, answer_once}

abbrev from_proxy : Content → ProxyMessage
from_proxy c = record { session_id = "s1"; content = c }

abbrev threads_request : PendingRequest
threads_request = record { request_id = "r1"; command = "threads"; seq = 0; timestamp = 5 }

abbrev stop_body : Json
stop_body = obj (field "threadId" (num (pos 7)) (field "reason" (str "step") end))

abbrev history : List Action
history =
    receive (from_proxy (status adapter_connected))
    ∷ receive (from_proxy (status adapter_configured_and_launched))
    ∷ send threads_request
    ∷ receive (from_proxy (dap_event "stopped" (some stop_body)))
    ∷ []

core : Unit {0}
unfolding create_initial_state get_pending_request add_pending_request run step handle_proxy_message
    Dict.get
core = tt

abbrev waiting : DapSessionState
waiting = record {
  session_id = "s1";
  initialized = true;
  adapter_configured = true;
  current_thread_id = some (num (pos 7));
  pending_requests = ("r1", threads_request) ∷ [];
}

run-create_initial_state-IsOrdered_example :
    IsOrdered "s1" (run (create_initial_state "s1") history)
run-create_initial_state-IsOrdered_example = run-create_initial_state-IsOrdered "s1" history

handle_proxy_message-Announced_example :
    Announced
      (create_initial_state "s1")
      (handle_proxy_message (create_initial_state "s1") (from_proxy (status adapter_connected)))
handle_proxy_message-Announced_example =
    handle_proxy_message-Announced (create_initial_state "s1")
      (from_proxy (status adapter_connected))

kills-handle_proxy_message_iff_example :
    (kills (handle_proxy_message waiting (from_proxy (status proxy_minimal_ran_ipc_test))).commands
      ≡ true)
    ↔ IsIpcTest "s1" (from_proxy (status proxy_minimal_ran_ipc_test))
kills-handle_proxy_message_iff_example =
    kills-handle_proxy_message_iff waiting (from_proxy (status proxy_minimal_ran_ipc_test))

run-get_pending_request_example :
    get_pending_request (run (create_initial_state "s1") history) "r1"
    ≡ latest_of "s1" "r1" none history
unfolding create_initial_state get_pending_request Dict.get
run-get_pending_request_example = run-get_pending_request (create_initial_state "s1") "r1" history

answer_once_example :
    let t = step waiting (receive (from_proxy (dap_response "r1"))) in
    (get_pending_request t "r1" ≡ none)
    × ((j : String) → j ≢ "r1" → get_pending_request t j ≡ get_pending_request waiting j)
    × (step t (receive (from_proxy (dap_response "r1"))) ≡ t)
answer_once_example = answer_once waiting (from_proxy (dap_response "r1")) "r1" refl refl
