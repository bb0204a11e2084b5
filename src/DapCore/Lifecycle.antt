-- ===== src/DapCore/Lifecycle.antt =====
-- The flags `initialized` and `adapterConfigured` over the life of a session, the events that
-- announce them, and the one message that kills the proxy.
use mcp_debugger.Base.{String, ◌≡◌, ◌↔◌, true, false, List, [], ◌∷◌, arith, str_eq_iff}
use mcp_debugger.DapCore.State.{
  DapSessionState, create_initial_state, set_initialized, set_adapter_configured,
  set_current_thread_id, add_pending_request, remove_pending_request, clear_pending_requests,
}
use mcp_debugger.DapCore.Handlers.{
  status, proxy_minimal_ran_ipc_test, Content, ProxyMessage, DapProcessingResult,
  handle_status_message, handle_error_message, forward, state_after_event, handle_dap_event,
  handle_dap_response, handle_content, handle_proxy_message,
}
use mcp_debugger.DapCore.Session.{take_state, Action, receive, step, run, announces, kills}

-- A configured adapter belongs to an initialized session of the same id.
pub record IsOrdered (session_id : String) (s : DapSessionState) : Type 0 where
  pub same_session : s.session_id ≡ session_id
  pub configured_after : s.adapter_configured ≡ true → s.initialized ≡ true

-- What a handler says about `initialized`: it is kept once true, and where it was false it becomes
-- true exactly if the commands announce it.
pub record Announced (s : DapSessionState) (r : DapProcessingResult) : Type 0 where
  pub kept : s.initialized ≡ true → (take_state s r).initialized ≡ true
  pub told :
      s.initialized ≡ false → (take_state s r).initialized ≡ announces "initialized" r.commands

-- A message that can kill the proxy: the status of its IPC test, for this very session.
abbrev pub IsIpcTest : String → ProxyMessage → Type 0
IsIpcTest session_id m =
    (m.session_id ≡ session_id) × (m.content ≡ status proxy_minimal_ran_ipc_test)

all_handlers : Unit {0}
unfolding take_state handle_content handle_status_message handle_error_message handle_dap_response
    handle_dap_event forward state_after_event set_initialized set_adapter_configured
    remove_pending_request set_current_thread_id add_pending_request clear_pending_requests
all_handlers = tt

module _ (s : DapSessionState) where
  content-IsOrdered :
      (id : String) (m : ProxyMessage) (c : Content)
      → IsOrdered id s
      → IsOrdered id (take_state s (handle_content s m c))
  unfolding all_handlers
  content-IsOrdered id m (status proxy_minimal_ran_ipc_test) v = v
  content-IsOrdered id m c v = ground arith

  content-Announced : (m : ProxyMessage) (c : Content) → Announced s (handle_content s m c)
  unfolding all_handlers
  content-Announced m (status proxy_minimal_ran_ipc_test) = ground arith
  content-Announced m c = ground arith

  content-kills :
      (m : ProxyMessage) (c : Content)
      → (kills (handle_content s m c).commands ≡ true) ↔ (c ≡ status proxy_minimal_ran_ipc_test)
  unfolding all_handlers
  content-kills m (status proxy_minimal_ran_ipc_test) = ground arith
  content-kills m c = ground arith

  step-IsOrdered : (id : String) (a : Action) → IsOrdered id s → IsOrdered id (step s a)
  unfolding step handle_proxy_message all_handlers
  step-IsOrdered id (receive m) v = ground (arith, content-IsOrdered id m m.content v)
  step-IsOrdered id a v = ground arith

-- After any sequence of messages, requests and clean-ups, the session has the id that it was created
-- with, and it is never marked as configured without being marked as initialized.
pub run-create_initial_state-IsOrdered :
    (id : String) (actions : List Action) → IsOrdered id (run (create_initial_state id) actions)
unfolding create_initial_state run
run-create_initial_state-IsOrdered id actions = go (create_initial_state id) actions (ground arith)
  where
    go : (s : DapSessionState) (as' : List Action) → IsOrdered id s → IsOrdered id (run s as')
    go s [] v = v
    go s (a ∷ as') v = go (step s a) as' (step-IsOrdered s id a v)

-- Every message keeps `initialized` once it is true; where it was false, the state after the message
-- is initialized exactly if the commands emit the event `initialized`.
pub handle_proxy_message-Announced :
    (s : DapSessionState) (m : ProxyMessage) → Announced s (handle_proxy_message s m)
unfolding handle_proxy_message take_state
handle_proxy_message-Announced s m = ground (arith, content-Announced s m m.content)

-- The handler asks to kill the proxy process exactly for the status of the proxy's IPC test, sent
-- under the session's own id.
pub kills-handle_proxy_message_iff :
    (s : DapSessionState) (m : ProxyMessage)
    → (kills (handle_proxy_message s m).commands ≡ true) ↔ IsIpcTest s.session_id m
unfolding handle_proxy_message
kills-handle_proxy_message_iff s m =
    ground (arith, str_eq_iff m.session_id s.session_id, content-kills s m m.content)
