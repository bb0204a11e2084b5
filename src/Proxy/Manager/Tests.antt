-- ===== src/Proxy/Manager/Tests.antt =====
-- The manager over a concrete session.
use mcp_debugger.Base.{
  ◌+◌, ◌≤◌, ◌≡◌, refl, String, true, false, Option, none, some, List, [], ◌∷◌, arith, str_eq,
  str_eq_iff, string_eq, nat_eq, Bool-cases, inl, inr,
}
use mcp_debugger.Base.Int.{pos}
use mcp_debugger.Base.Dict
use mcp_debugger.Base.Dict.{count}
use mcp_debugger.Base.Json.{Json, num, obj, arr, cons, nil, end, field, member, field_of, truthy}
use mcp_debugger.DapCore.State.{
  DapSessionState, create_initial_state, get_pending_request, set_initialized,
  set_adapter_configured, add_pending_request, remove_pending_request, set_current_thread_id,
}
use mcp_debugger.DapCore.Handlers.{
  handle_content, handle_status_message as core_status, handle_dap_response as core_response,
  Content, dap_response, status, adapter_configured_and_launched,
  handle_proxy_message as handle_by_core,
}
use mcp_debugger.Proxy.Manager.{
  ProxyManager, resolved, rejected, request_timeout, not_initialized, no_barrier,
  barrier_and_response, barrier_only, new_manager, send_dap_request, settle_request, emit,
  enter_request, request_response, request_barrier, set_active_launch_barrier, fire,
  on_request_timeout, barrier_settles, waiting_for, waiting_else, release_waiting, settle_all,
  forget_request, clear_owned_barrier, clear_active_launch_barrier, dispose_barrier,
}
use mcp_debugger.Proxy.Manager.Messages.{
  valid, handle_proxy_message, handle_status_message, run_commands, handle_dap_response,
}
use mcp_debugger.Proxy.Manager.Lifecycle.{
  spawned, Action, starts, sends, receives, timer_fires, barrier_settled, process_exits, step, run,
  start,
}
use mcp_debugger.Proxy.Manager.Totals.{hit}
use mcp_debugger.Proxy.Manager.Settled.{sends_in, run-new_manager_total}
use mcp_debugger.Proxy.Manager.Linked.{IsLinked}
use mcp_debugger.Proxy.Manager.Histories.{run-new_manager-IsLinked}
use mcp_debugger.Proxy.Manager.Ended.{IsIdle, run-step_ends}
use mcp_debugger.Proxy.Manager.Mirror.{Rejects, Leaves, send_dap_request-Leaves}

abbrev from_proxy : Content → Option Json → Action
from_proxy content response = receives (
    valid (record {
      message = record { session_id = "s1"; content = content };
      success = true;
      response = response;
      error = none;
      detail = none;
    }))

abbrev session : List Action
session =
    sends no_barrier "early" "threads" 1 true
    ∷ starts "s1" false spawned
    ∷ from_proxy (status adapter_configured_and_launched) none
    ∷ sends no_barrier "r1" "threads" 2 true
    ∷ sends no_barrier "r2" "evaluate" 3 true
    ∷ sends (barrier_only 9) "r3" "launch" 4 true
    ∷ []

abbrev threads_body : Json
threads_body = obj (
    field "body" (obj (field "threads" (arr (cons (obj (field "id" (num (pos 7)) end)) nil)) end))
      end)

abbrev replies : List Action
replies =
    from_proxy (dap_response "r1") (some threads_body)
    ∷ timer_fires 0
    ∷ timer_fires 1
    ∷ barrier_settled 9 true
    ∷ []

abbrev launched : ProxyManager
launched = run session new_manager

session_settlements : (launched.settlements) ≡ ("early", rejected not_initialized) ∷ []
unfolding run step send_dap_request handle_proxy_message start new_manager settle_request
    handle_status_message emit handle_by_core create_initial_state core_status run_commands
    set_initialized set_adapter_configured Dict.get Dict.put Dict.delete enter_request
    request_response request_barrier set_active_launch_barrier add_pending_request
session_settlements = refl

session_timers : (launched.timers) ≡ (1, "r2") ∷ (0, "r1") ∷ []
unfolding run step send_dap_request handle_proxy_message start new_manager settle_request
    handle_status_message emit handle_by_core create_initial_state core_status run_commands
    set_initialized set_adapter_configured Dict.get Dict.put Dict.delete enter_request
    request_response request_barrier set_active_launch_barrier add_pending_request
session_timers = refl

replies_settlements :
    (run replies launched).settlements
    ≡ ("r3", resolved (some (obj end)))
      ∷ ("r2", rejected (request_timeout "evaluate"))
      ∷ ("r1", resolved (some threads_body))
      ∷ ("early", rejected not_initialized)
      ∷ []
unfolding run step send_dap_request handle_proxy_message start new_manager settle_request
    handle_status_message emit handle_by_core create_initial_state core_status run_commands
    set_initialized set_adapter_configured Dict.get Dict.put Dict.delete enter_request
    request_response request_barrier set_active_launch_barrier add_pending_request fire
    on_request_timeout barrier_settles waiting_for waiting_else release_waiting settle_all
    forget_request clear_owned_barrier clear_active_launch_barrier dispose_barrier handle_content
    handle_dap_response core_response remove_pending_request get_pending_request member field_of
    truthy set_current_thread_id
replies_settlements = refl

replies_thread : (run replies launched).current_thread_id ≡ some (pos 7)
unfolding run step send_dap_request handle_proxy_message start new_manager settle_request
    handle_status_message emit handle_by_core create_initial_state core_status run_commands
    set_initialized set_adapter_configured Dict.get Dict.put Dict.delete enter_request
    request_response request_barrier set_active_launch_barrier add_pending_request fire
    on_request_timeout barrier_settles waiting_for waiting_else release_waiting settle_all
    forget_request clear_owned_barrier clear_active_launch_barrier dispose_barrier handle_content
    handle_dap_response core_response remove_pending_request get_pending_request member field_of
    truthy set_current_thread_id
replies_thread = refl

hit_apart : (i j k : String) → str_eq i j ≡ false → hit i k + hit j k ≤ 1
hit_apart i j k e = elim (Bool-cases (str_eq i k)) [
  | inl same ↦ ground (arith, str_eq_iff i k, str_eq_iff j k, str_eq_iff i j, e)
  | inr other ↦ ground (arith, other)
]

used_once : (k : String) → sends_in k session ≤ 1
used_once k = omega (
  arith,
  hit_apart "early" "r1" k refl,
  hit_apart "early" "r2" k refl,
  hit_apart "early" "r3" k refl,
  hit_apart "r1" "r2" k refl,
  hit_apart "r1" "r3" k refl,
  hit_apart "r2" "r3" k refl,
)

run-new_manager_total_example :
    count "r2" launched.settlements
      + (count "r2" launched.pending_dap_requests + count "r2" launched.waiting)
    ≡ sends_in "r2" session
run-new_manager_total_example = run-new_manager_total "r2" session (used_once "r2")

run-new_manager-IsLinked_example : IsLinked launched
run-new_manager-IsLinked_example = run-new_manager-IsLinked session used_once

run-step_ends_example :
    let m = step (process_exits (some (pos 1)) none "" "") launched in
    IsIdle m × ((k : String) → count k m.settlements ≡ sends_in k session)
run-step_ends_example =
    run-step_ends session (process_exits (some (pos 1)) none "" "") used_once refl

abbrev mirrored : DapSessionState
mirrored = record {
  session_id = "s1";
  initialized = true;
  adapter_configured = true;
  current_thread_id = none;
  pending_requests =
      ("r1", record { request_id = "r1"; command = "threads"; seq = 0; timestamp = 2 })
      ∷ ("r2", record { request_id = "r2"; command = "evaluate"; seq = 0; timestamp = 3 })
      ∷ [];
}

send_dap_request-Leaves_example :
    Rejects "r4" (send_dap_request (barrier_and_response 5) "r4" "next" 5 false launched)
    × Leaves (barrier_and_response 5) "r4" "next" 5 launched
unfolding run step send_dap_request handle_proxy_message start new_manager settle_request
    handle_status_message emit handle_by_core create_initial_state core_status run_commands
    set_initialized set_adapter_configured Dict.get Dict.put Dict.delete enter_request
    request_response request_barrier set_active_launch_barrier add_pending_request
send_dap_request-Leaves_example =
    send_dap_request-Leaves (barrier_and_response 5) "r4" "next" 5 launched mirrored refl refl refl
