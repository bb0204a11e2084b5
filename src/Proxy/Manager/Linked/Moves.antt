-- ===== src/Proxy/Manager/Linked/Moves.antt =====
-- Every operation of the manager keeps its requests and timers linked.
use mcp_debugger.Base.{
  ℕ, ◌≡◌, refl, subst, sym, ap, ◌∙◌, String, Bool, not, ◌||◌, Option, none, some, string_eq, nat_eq,
  if-cases,
}
use mcp_debugger.Base.Int.{ℤ}
use mcp_debugger.Base.Dict
use mcp_debugger.Base.Dict.{Dict, get-put_self}
use mcp_debugger.DapCore.State.{DapSessionState}
use mcp_debugger.DapCore.Handlers.{
  Content, status, failure, dap_event, dap_response, unknown,
  handle_proxy_message as handle_by_core,
}
use mcp_debugger.Proxy.Manager.{
  ProxyManager, PendingDapRequest, Failure, BarrierCall, Barrier, no_barrier, barrier_and_response,
  barrier_only, proxy_exited, cancelled, clear_mirror, cancel_pending, settle_request,
  clear_timeout, forget_request, clear_owned_barrier, clear_active_launch_barrier,
  on_request_timeout, fire_as, fire, enter_request, withdraw_request, arm, disarm, request_response,
  request_barrier, request_by, send_dap_request, reject_pending, cleanup,
}
use mcp_debugger.Proxy.Manager.Messages.{
  Incoming, Received, heartbeat, invalid, valid, tell_active, capture_thread, answer, respond,
  handle_dap_response, is_dap_event, after_core, through_core, fast_path, receive,
  handle_proxy_message,
}
use mcp_debugger.Proxy.Manager.Lifecycle.{
  exited, handle_proxy_exit, announce_dry_run, announce_exit,
}
use mcp_debugger.Proxy.Manager.Books.{
  books-capture_thread, books-tell_active, books-announce_exit, books-announce_dry_run,
  books-fast_path, follow_core, books-follow_core,
}
use mcp_debugger.Proxy.Manager.Slots.{
  slots, slots-books, slots-clear_active_launch_barrier, slots-clear_owned_barrier, slots-arm,
  slots-disarm,
}
use mcp_debugger.Proxy.Manager.Linked.{
  IsLinked, slots-IsLinked, delete-Linked, put-Linked, delete_each-Linked,
}

slots-answer :
    (id : String) (pending : PendingDapRequest) (incoming : Incoming) (m : ProxyManager)
    → slots (answer id pending incoming m) ≡ slots m
unfolding settle_request
slots-answer id pending incoming m =
    let captured = capture_thread pending.command m.current_thread_id incoming.response m in
    if-cases (λ x. slots x ≡ slots m) incoming.success _ _
      (λ _.
        slots-books captured m
          (books-capture_thread pending.command m.current_thread_id incoming.response m))
      (λ _. refl)

-- A request that is there goes with its timer, its launch barrier and its answer.
take-IsLinked :
    (id : String) (p : PendingDapRequest) (m : ProxyManager)
    → Dict.get id m.pending_dap_requests ≡ some p
    → IsLinked m
    → IsLinked (clear_owned_barrier id (forget_request id (clear_timeout p.timer m)))
unfolding forget_request
take-IsLinked id p m there v =
    let taken = forget_request id (clear_timeout p.timer m) in
    slots-IsLinked (clear_owned_barrier id taken) taken (slots-clear_owned_barrier id taken)
      (delete-Linked m.pending_dap_requests m.timers m.next_timer v id p there)

respond-IsLinked :
    (id : String) (pending : Option PendingDapRequest) (incoming : Incoming) (m : ProxyManager)
    → Dict.get id m.pending_dap_requests ≡ pending
    → IsLinked m
    → IsLinked (respond id pending incoming m)
respond-IsLinked id none incoming m there v = v
respond-IsLinked id (some p) incoming m there v =
    let taken = clear_owned_barrier id (forget_request id (clear_timeout p.timer m)) in
    slots-IsLinked (answer id p incoming taken) taken (slots-answer id p incoming taken)
      (take-IsLinked id p m there v)

after_core-IsLinked :
    (content : Content) (incoming : Incoming) (m : ProxyManager)
    → IsLinked m
    → IsLinked (after_core content incoming m)
unfolding handle_dap_response
after_core-IsLinked (dap_response id) incoming m v =
    respond-IsLinked id (Dict.get id m.pending_dap_requests) incoming m refl v
after_core-IsLinked (status s) incoming m v = v
after_core-IsLinked (failure text) incoming m v = v
after_core-IsLinked (dap_event event body) incoming m v = v
after_core-IsLinked (unknown raw) incoming m v = v

through_core-IsLinked :
    (state : Option DapSessionState) (incoming : Incoming) (m : ProxyManager)
    → IsLinked m
    → IsLinked (through_core state incoming m)
through_core-IsLinked none incoming m v = v
through_core-IsLinked (some state) incoming m v =
    let result = handle_by_core state incoming.message in
    let is_event = is_dap_event incoming.message.content in
    let followed = follow_core result is_event m in
    after_core-IsLinked incoming.message.content incoming followed
      (slots-IsLinked followed m (slots-books followed m (books-follow_core result is_event m)) v)

receive-IsLinked :
    (received : Received) (m : ProxyManager) → IsLinked m → IsLinked (receive received m)
receive-IsLinked heartbeat m v = v
receive-IsLinked invalid m v = v
receive-IsLinked (valid incoming) m v =
    let handled = fast_path incoming.message.content incoming.detail m in
    through_core-IsLinked handled.dap_state incoming handled (
      slots-IsLinked handled m
        (slots-books handled m (books-fast_path incoming.message.content incoming.detail m)) v)

pub handle_proxy_message-IsLinked :
    (received : Received) (m : ProxyManager)
    → IsLinked m
    → IsLinked (handle_proxy_message received m)
unfolding handle_proxy_message
handle_proxy_message-IsLinked received m v =
    if-cases IsLinked m.is_stopped _ _ (λ _. v) (λ _. receive-IsLinked received m v)

-- The timer that fires is the one its request stands under.
fire_as-IsLinked :
    (i : ℕ) (owner : Option String) (m : ProxyManager)
    → Dict.get i m.timers ≡ owner
    → IsLinked m
    → IsLinked (fire_as i owner m)
unfolding on_request_timeout settle_request
fire_as-IsLinked i none m owned v = v
fire_as-IsLinked i (some id) m owned v =
    let (p, there, timed) = v.pending i id owned in
    let taken = take-IsLinked id p m there v in
    let timed_out =
      subst (λ n. IsLinked (clear_owned_barrier id (forget_request id (clear_timeout n m)))) timed
        taken in
    subst (λ o. IsLinked (on_request_timeout id o (clear_timeout i m))) (sym there) timed_out

pub fire-IsLinked : (i : ℕ) (m : ProxyManager) → IsLinked m → IsLinked (fire i m)
unfolding fire
fire-IsLinked i m v = fire_as-IsLinked i (Dict.get i m.timers) m refl v

request_response-IsLinked :
    (barrier : Barrier) (id command : String) (now : ℕ) (sent : Bool) (m : ProxyManager)
    → Dict.get id m.pending_dap_requests ≡ none
    → IsLinked m
    → IsLinked (request_response barrier id command now sent m)
unfolding request_response enter_request withdraw_request settle_request
request_response-IsLinked barrier id command now sent m absent v =
    let p : PendingDapRequest = record { command = command; timer = m.next_timer } in
    let entered = enter_request id command now m in
    let linked : IsLinked entered =
      put-Linked m.pending_dap_requests m.timers m.next_timer v id p refl absent in
    let withdrawn = withdraw_request id m.next_timer entered in
    if-cases IsLinked sent _ _ (λ _. linked)
      (λ _. slots-IsLinked (disarm barrier withdrawn) withdrawn (slots-disarm barrier withdrawn) (
        delete-Linked entered.pending_dap_requests entered.timers entered.next_timer linked id p
          (get-put_self id p m.pending_dap_requests)))

request_barrier-IsLinked :
    (barrier : ℕ) (id : String) (sent : Bool) (m : ProxyManager)
    → IsLinked m
    → IsLinked (request_barrier barrier id sent m)
unfolding request_barrier settle_request
request_barrier-IsLinked barrier id sent m v =
    let cleared = clear_active_launch_barrier (some barrier) m in
    if-cases IsLinked sent _ _ (λ _. v)
      (λ _. slots-IsLinked cleared m (slots-clear_active_launch_barrier (some barrier) m) v)

request_by-IsLinked :
    (barrier : Barrier) (id command : String) (now : ℕ) (sent : Bool) (m : ProxyManager)
    → Dict.get id m.pending_dap_requests ≡ none
    → IsLinked m
    → IsLinked (request_by barrier id command now sent m)
request_by-IsLinked no_barrier id command now sent m absent v =
    request_response-IsLinked no_barrier id command now sent m absent v
request_by-IsLinked (barrier_and_response barrier) id command now sent m absent v =
    request_response-IsLinked (barrier_and_response barrier) id command now sent m absent v
request_by-IsLinked (barrier_only barrier) id command now sent m absent v =
    request_barrier-IsLinked barrier id sent m v

pub send_dap_request-IsLinked :
    (barrier : Barrier) (id command : String) (now : ℕ) (sent : Bool) (m : ProxyManager)
    → Dict.get id m.pending_dap_requests ≡ none
    → IsLinked m
    → IsLinked (send_dap_request barrier id command now sent m)
unfolding send_dap_request settle_request
send_dap_request-IsLinked barrier id command now sent m absent v =
    let e = slots-arm barrier id m in
    let armed = arm barrier id m in
    if-cases IsLinked (not m.proxy_process || not m.is_initialized) _ _ (λ _. v)
      (λ _.
        request_by-IsLinked barrier id command now sent armed (ap (λ s. Dict.get id s.0) e ∙ absent)
          (slots-IsLinked armed m e v))

pub reject_pending-IsLinked :
    (why : PendingDapRequest → Failure) (m : ProxyManager)
    → IsLinked m
    → IsLinked (reject_pending why m)
unfolding reject_pending
reject_pending-IsLinked why m v = delete_each-Linked m.pending_dap_requests m.timers m.next_timer v

pub cleanup-IsLinked : (m : ProxyManager) → IsLinked m → IsLinked (cleanup m)
unfolding cleanup
cleanup-IsLinked m v =
    let rejected = clear_mirror (cancel_pending m) in
    slots-IsLinked (clear_active_launch_barrier none rejected) rejected
      (slots-clear_active_launch_barrier none rejected)
      (reject_pending-IsLinked (λ pending. cancelled pending.command) m v)

pub exited-IsLinked :
    (code : Option ℤ) (signal : Option String) (command script : String) (m : ProxyManager)
    → IsLinked m
    → IsLinked (exited code signal command script m)
exited-IsLinked code signal command script m v =
    let told = tell_active (BarrierCall.proxy_exit code signal) m.active_launch_barrier m in
    let cleared = clear_active_launch_barrier none told in
    let announced = announce_dry_run code command script cleared in
    let rejected = reject_pending (λ pending. proxy_exited) announced in
    let before : slots announced ≡ slots m =
      slots-books announced cleared (books-announce_dry_run code command script cleared)
      ∙ (slots-clear_active_launch_barrier none told
          ∙ slots-books told m
              (books-tell_active (BarrierCall.proxy_exit code signal) m.active_launch_barrier m)) in
    slots-IsLinked (announce_exit code signal rejected) rejected
      (slots-books (announce_exit code signal rejected) rejected
        (books-announce_exit code signal rejected))
      (reject_pending-IsLinked (λ pending. proxy_exited) announced
        (slots-IsLinked announced m before v))

pub handle_proxy_exit-IsLinked :
    (code : Option ℤ) (signal : Option String) (command script : String) (m : ProxyManager)
    → IsLinked m
    → IsLinked (handle_proxy_exit code signal command script m)
unfolding handle_proxy_exit
handle_proxy_exit-IsLinked code signal command script m v =
    cleanup-IsLinked (exited code signal command script m)
      (exited-IsLinked code signal command script m v)
