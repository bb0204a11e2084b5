-- ===== src/DapCore/State.antt =====
-- src/dap-core/state.ts, with the state's types from src/dap-core/types.ts.
-- `currentThreadId` is whatever value the `stopped` event carried, so a JSON value.
use mcp_debugger.Base.{ℕ, String, Bool, false, Option, none, some, [], string_eq}
use mcp_debugger.Base.Dict
use mcp_debugger.Base.Dict.{Dict}
use mcp_debugger.Base.Json.{Json}

pub record PendingRequest : Type 0 where
  pub request_id : String
  pub command : String
  pub seq : ℕ
  pub timestamp : ℕ

pub record DapSessionState : Type 0 where
  pub session_id : String
  pub initialized : Bool
  pub adapter_configured : Bool
  pub current_thread_id : Option Json
  pub pending_requests : Dict String PendingRequest

unfoldable pub create_initial_state : String → DapSessionState
create_initial_state session_id = record {
  session_id = session_id;
  initialized = false;
  adapter_configured = false;
  current_thread_id = none;
  pending_requests = [];
}

unfoldable pub set_initialized : DapSessionState → Bool → DapSessionState
set_initialized state initialized = record state { initialized = initialized }

unfoldable pub set_adapter_configured : DapSessionState → Bool → DapSessionState
set_adapter_configured state configured = record state { adapter_configured = configured }

unfoldable pub set_current_thread_id : DapSessionState → Option Json → DapSessionState
set_current_thread_id state thread_id = record state { current_thread_id = thread_id }

unfoldable pub add_pending_request : DapSessionState → PendingRequest → DapSessionState
add_pending_request state request = record state {
  pending_requests = Dict.put request.request_id request state.pending_requests;
}

unfoldable pub remove_pending_request : DapSessionState → String → DapSessionState
remove_pending_request state request_id = record state {
  pending_requests = Dict.delete request_id state.pending_requests;
}

unfoldable pub get_pending_request : DapSessionState → String → Option PendingRequest
get_pending_request state request_id = Dict.get request_id state.pending_requests

unfoldable pub clear_pending_requests : DapSessionState → DapSessionState
clear_pending_requests state = record state { pending_requests = [] }

-- `Partial<...>`: a field that is absent is `none`, and `currentThreadId: undefined` is `some none`.
pub record StateUpdates : Type 0 where
  pub initialized : Option Bool
  pub adapter_configured : Option Bool
  pub current_thread_id : Option (Option Json)

abbrev overlay {ℓ} : {A : Type ℓ} → Option A → A → A
overlay none old = old
overlay (some new) old = new

unfoldable pub update_state : DapSessionState → StateUpdates → DapSessionState
update_state state updates = record state {
  initialized = overlay updates.initialized state.initialized;
  adapter_configured = overlay updates.adapter_configured state.adapter_configured;
  current_thread_id = overlay updates.current_thread_id state.current_thread_id;
}
