-- ===== src/DapCore/Session.antt =====
-- How src/proxy/proxy-manager.ts drives the core: it keeps one state, hands it every message that
-- passed validation, takes the new state when there is one, and mirrors its own requests into it.
use mcp_debugger.Base.{String, Bool, false, none, some, List, [], ◌∷◌, ◌||◌, str_eq}
use mcp_debugger.Base.Json.{Json}
use mcp_debugger.DapCore.State.{
  PendingRequest, DapSessionState, set_current_thread_id, add_pending_request,
  remove_pending_request, clear_pending_requests,
}
use mcp_debugger.DapCore.Handlers.{
  ProxyMessage, DapCommand, emit_event, kill_process, DapProcessingResult, handle_proxy_message,
}

-- `if (result.newState) this.dapState = result.newState`
unfoldable pub take_state : DapSessionState → DapProcessingResult → DapSessionState
take_state state result = elim result.new_state [ none ↦ state | some next ↦ next ]

pub data Action : Type 0 where
  receive : ProxyMessage → Action
  send : PendingRequest → Action
  give_up : (request_id : String) → Action
  adopt_thread : Json → Action
  clean_up : Action

unfoldable pub step : DapSessionState → Action → DapSessionState
step state (receive message) = take_state state (handle_proxy_message state message)
step state (send request) = add_pending_request state request
step state (give_up request_id) = remove_pending_request state request_id
step state (adopt_thread thread_id) = set_current_thread_id state (some thread_id)
step state clean_up = clear_pending_requests state

unfoldable pub run : DapSessionState → List Action → DapSessionState
run state [] = state
run state (a ∷ actions) = run (step state a) actions

-- Whether the commands emit an event of that name, and whether they kill the process.
abbrev pub announces : String → List DapCommand → Bool
announces name [] = false
announces name (emit_event event args ∷ rest) = str_eq event name || announces name rest
announces name (_ ∷ rest) = announces name rest

abbrev pub kills : List DapCommand → Bool
kills [] = false
kills (kill_process ∷ rest) = Bool.true
kills (_ ∷ rest) = kills rest
