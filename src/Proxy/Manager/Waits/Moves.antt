-- ===== src/Proxy/Manager/Waits/Moves.antt =====
-- Every operation of the manager leaves its requests waiting for the active barrier alone.
use mcp_debugger.Base.{
  ℕ, ◌≡◌, String, Bool, not, ◌||◌, Option, none, some, [], string_eq, nat_eq, if-cases,
}
use mcp_debugger.Base.Dict
use mcp_debugger.Base.Dict.{Dict}
use mcp_debugger.DapCore.State.{DapSessionState}
use mcp_debugger.DapCore.Handlers.{
  Content, status, failure, dap_event, dap_response, unknown,
  handle_proxy_message as handle_by_core,
}
use mcp_debugger.Proxy.Manager.{
  ProxyManager, PendingDapRequest, Barrier, no_barrier, barrier_and_response, barrier_only,
  clear_mirror, cancel_pending, settle_request, clear_timeout, forget_request, clear_owned_barrier,
  set_active_launch_barrier, on_request_timeout, fire_as, fire, enter_request, withdraw_request,
  arm_barrier, arm, disarm, request_response, request_barrier, request_by, send_dap_request,
  release_waiting, barrier_settles, barrier_outcome, waiting_for, reject_pending, cleanup,
}
use mcp_debugger.Proxy.Manager.Messages.{
  Incoming, Received, heartbeat, invalid, valid, capture_thread, answer, respond,
  handle_dap_response, is_dap_event, after_core, through_core, fast_path, receive,
  handle_proxy_message,
}
use mcp_debugger.Proxy.Manager.Books.{
  books-capture_thread, books-fast_path, follow_core, books-follow_core,
}
use mcp_debugger.Proxy.Manager.Waits.{
  IsWaiting, books-IsWaiting, clear_active_launch_barrier-IsWaiting, clear_owned_barrier-IsWaiting,
  leave_wait-IsWaiting, set_active_launch_barrier-waiting, release_waiting-IsWaiting,
  wait-IsWaiting, clear_active_launch_barrier-waiting,
}

answer-IsWaiting :
    (id : String) (pending : PendingDapRequest) (incoming : Incoming) (m : ProxyManager)
    → IsWaiting m
    → IsWaiting (answer id pending incoming m)
unfolding settle_request
answer-IsWaiting id pending incoming m v =
    let captured = capture_thread pending.command m.current_thread_id incoming.response m in
    let e = books-capture_thread pending.command m.current_thread_id incoming.response m in
    if-cases IsWaiting incoming.success _ _ (λ _. books-IsWaiting captured m e v) (λ _. v)

respond-IsWaiting :
    (id : String) (pending : Option PendingDapRequest) (incoming : Incoming) (m : ProxyManager)
    → IsWaiting m
    → IsWaiting (respond id pending incoming m)
unfolding forget_request
respond-IsWaiting id none incoming m v = v
respond-IsWaiting id (some p) incoming m v =
    let taken = forget_request id (clear_timeout p.timer m) in
    answer-IsWaiting id p incoming (clear_owned_barrier id taken)
      (clear_owned_barrier-IsWaiting id taken v)

after_core-IsWaiting :
    (content : Content) (incoming : Incoming) (m : ProxyManager)
    → IsWaiting m
    → IsWaiting (after_core content incoming m)
unfolding handle_dap_response
after_core-IsWaiting (dap_response id) incoming m v =
    respond-IsWaiting id (Dict.get id m.pending_dap_requests) incoming m v
after_core-IsWaiting (status s) incoming m v = v
after_core-IsWaiting (failure text) incoming m v = v
after_core-IsWaiting (dap_event event body) incoming m v = v
after_core-IsWaiting (unknown raw) incoming m v = v

through_core-IsWaiting :
    (state : Option DapSessionState) (incoming : Incoming) (m : ProxyManager)
    → IsWaiting m
    → IsWaiting (through_core state incoming m)
through_core-IsWaiting none incoming m v = v
through_core-IsWaiting (some state) incoming m v =
    let result = handle_by_core state incoming.message in
    let is_event = is_dap_event incoming.message.content in
    let followed = follow_core result is_event m in
    after_core-IsWaiting incoming.message.content incoming followed
      (books-IsWaiting followed m (books-follow_core result is_event m) v)

receive-IsWaiting :
    (received : Received) (m : ProxyManager) → IsWaiting m → IsWaiting (receive received m)
receive-IsWaiting heartbeat m v = v
receive-IsWaiting invalid m v = v
receive-IsWaiting (valid incoming) m v =
    let handled = fast_path incoming.message.content incoming.detail m in
    through_core-IsWaiting handled.dap_state incoming handled
      (books-IsWaiting handled m (books-fast_path incoming.message.content incoming.detail m) v)

pub handle_proxy_message-IsWaiting :
    (received : Received) (m : ProxyManager)
    → IsWaiting m
    → IsWaiting (handle_proxy_message received m)
unfolding handle_proxy_message
handle_proxy_message-IsWaiting received m v =
    if-cases IsWaiting m.is_stopped _ _ (λ _. v) (λ _. receive-IsWaiting received m v)

on_request_timeout-IsWaiting :
    (id : String) (pending : Option PendingDapRequest) (m : ProxyManager)
    → IsWaiting m
    → IsWaiting (on_request_timeout id pending m)
unfolding on_request_timeout settle_request forget_request
on_request_timeout-IsWaiting id none m v = v
on_request_timeout-IsWaiting id (some p) m v =
    clear_owned_barrier-IsWaiting id (forget_request id m) v

fire_as-IsWaiting :
    (i : ℕ) (owner : Option String) (m : ProxyManager) → IsWaiting m → IsWaiting (fire_as i owner m)
fire_as-IsWaiting i none m v = v
fire_as-IsWaiting i (some id) m v =
    on_request_timeout-IsWaiting id (Dict.get id m.pending_dap_requests) (clear_timeout i m) v

pub fire-IsWaiting : (i : ℕ) (m : ProxyManager) → IsWaiting m → IsWaiting (fire i m)
unfolding fire
fire-IsWaiting i m v = fire_as-IsWaiting i (Dict.get i m.timers) m v

disarm-IsWaiting :
    (barrier : Barrier) (m : ProxyManager) → IsWaiting m → IsWaiting (disarm barrier m)
disarm-IsWaiting no_barrier m v = v
disarm-IsWaiting (barrier_and_response barrier) m v =
    clear_active_launch_barrier-IsWaiting (some barrier) m v
disarm-IsWaiting (barrier_only barrier) m v =
    clear_active_launch_barrier-IsWaiting (some barrier) m v

request_response-IsWaiting :
    (barrier : Barrier) (id command : String) (now : ℕ) (sent : Bool) (m : ProxyManager)
    → IsWaiting m
    → IsWaiting (request_response barrier id command now sent m)
unfolding request_response enter_request withdraw_request settle_request
request_response-IsWaiting barrier id command now sent m v =
    let withdrawn = withdraw_request id m.next_timer (enter_request id command now m) in
    if-cases IsWaiting sent _ _ (λ _. v) (λ _. disarm-IsWaiting barrier withdrawn v)

arm_barrier-IsWaiting :
    (barrier : ℕ) (id : String) (m : ProxyManager)
    → IsWaiting m
    → IsWaiting (arm_barrier barrier id m)
unfolding set_active_launch_barrier
arm_barrier-IsWaiting barrier id m v = set_active_launch_barrier-waiting barrier id m v

request_barrier-IsWaiting :
    (barrier : ℕ) (id : String) (sent : Bool) (m : ProxyManager)
    → IsWaiting m
    → IsWaiting (request_barrier barrier id sent (arm_barrier barrier id m))
unfolding request_barrier settle_request set_active_launch_barrier
request_barrier-IsWaiting barrier id sent m v =
    let armed = arm_barrier barrier id m in
    let w = arm_barrier-IsWaiting barrier id m v in
    if-cases IsWaiting sent _ _ (λ _. wait-IsWaiting barrier id id armed.waiting w)
      (λ _. clear_active_launch_barrier-IsWaiting (some barrier) armed w)

request_by-IsWaiting :
    (barrier : Barrier) (id command : String) (now : ℕ) (sent : Bool) (m : ProxyManager)
    → IsWaiting m
    → IsWaiting (request_by barrier id command now sent (arm barrier id m))
request_by-IsWaiting no_barrier id command now sent m v =
    request_response-IsWaiting no_barrier id command now sent m v
request_by-IsWaiting (barrier_and_response barrier) id command now sent m v =
    request_response-IsWaiting (barrier_and_response barrier) id command now sent
      (arm_barrier barrier id m) (arm_barrier-IsWaiting barrier id m v)
request_by-IsWaiting (barrier_only barrier) id command now sent m v =
    request_barrier-IsWaiting barrier id sent m v

pub send_dap_request-IsWaiting :
    (barrier : Barrier) (id command : String) (now : ℕ) (sent : Bool) (m : ProxyManager)
    → IsWaiting m
    → IsWaiting (send_dap_request barrier id command now sent m)
unfolding send_dap_request settle_request
send_dap_request-IsWaiting barrier id command now sent m v =
    if-cases IsWaiting (not m.proxy_process || not m.is_initialized) _ _ (λ _. v)
      (λ _. request_by-IsWaiting barrier id command now sent m v)

pub barrier_settles-IsWaiting :
    (barrier : ℕ) (opened : Bool) (m : ProxyManager)
    → IsWaiting m
    → IsWaiting (barrier_settles barrier opened m)
unfolding barrier_settles
barrier_settles-IsWaiting barrier opened m v =
    let outcome = barrier_outcome opened in
    leave_wait-IsWaiting barrier (waiting_for barrier m.waiting) (release_waiting barrier outcome m)
      (release_waiting-IsWaiting barrier outcome m v)

pub cleanup-waiting : (m : ProxyManager) → IsWaiting m → (cleanup m).waiting ≡ []
unfolding cleanup reject_pending
cleanup-waiting m v = clear_active_launch_barrier-waiting (clear_mirror (cancel_pending m)) v

pub cleanup-IsWaiting : (m : ProxyManager) → IsWaiting m → IsWaiting (cleanup m)
unfolding cleanup reject_pending
cleanup-IsWaiting m v =
    clear_active_launch_barrier-IsWaiting none (clear_mirror (cancel_pending m)) v
