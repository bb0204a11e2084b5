-- ===== src/Proxy/Manager/Replies.antt =====
-- Messages and time-outs, and the promises they settle.
use mcp_debugger.Base.{
  ℕ, ◌+◌, ◌≤◌, ◌≡◌, refl, ap, ◌∙◌, String, Option, none, some, string_eq, nat_eq, arith, if-cases,
}
use mcp_debugger.Base.Dict
use mcp_debugger.Base.Dict.{Dict, count, count-delete, count-put}
use mcp_debugger.DapCore.State.{DapSessionState}
use mcp_debugger.DapCore.Handlers.{
  Content, status, failure, dap_event, dap_response, unknown,
  handle_proxy_message as handle_by_core,
}
use mcp_debugger.Proxy.Manager.{
  ProxyManager, PendingDapRequest, resolved, rejected, request_timeout, failed_response,
  clear_timeout, forget_request, clear_owned_barrier, on_request_timeout, fire_as, fire,
}
use mcp_debugger.Proxy.Manager.Messages.{
  Incoming, Received, heartbeat, invalid, valid, capture_thread, answer, respond,
  handle_dap_response, is_dap_event, after_core, through_core, fast_path, receive,
  handle_proxy_message,
}
use mcp_debugger.Proxy.Manager.Totals.{
  total, hit, total-settle_request, total-forget_request, total-clear_owned_barrier,
}
use mcp_debugger.Proxy.Manager.Books.{
  total-books, books-capture_thread, books-fast_path, follow_core, books-follow_core,
}

total-answer :
    (k id : String) (pending : PendingDapRequest) (incoming : Incoming) (m : ProxyManager)
    → total k (answer id pending incoming m) ≡ hit id k + total k m
total-answer k id pending incoming m =
    if-cases (λ x. total k x ≡ hit id k + total k m) incoming.success _ _
      (λ _.
        let captured = capture_thread pending.command m.current_thread_id incoming.response m in
        total-settle_request k id (resolved incoming.response) captured
        ∙ ap (λ n. hit id k + n)
            (total-books k captured m
              (books-capture_thread pending.command m.current_thread_id incoming.response m)))
      (λ _. total-settle_request k id (rejected (failed_response pending.command incoming.error)) m)

total-respond :
    (k id : String) (pending : Option PendingDapRequest) (incoming : Incoming) (m : ProxyManager)
    → Dict.get id m.pending_dap_requests ≡ pending
    → total k m ≤ 1
    → total k (respond id pending incoming m) ≡ total k m
total-respond k id none incoming m there once = refl
total-respond k id (some pending) incoming m there once =
    let cleared = clear_timeout pending.timer m in
    let taken = forget_request id cleared in
    omega (
      arith,
      total-answer k id pending incoming (clear_owned_barrier id taken),
      total-clear_owned_barrier k id taken,
      total-forget_request k id pending cleared there once,
    )

total-after_core :
    (k : String) (content : Content) (incoming : Incoming) (m : ProxyManager)
    → total k m ≤ 1
    → total k (after_core content incoming m) ≡ total k m
unfolding handle_dap_response
total-after_core k (dap_response id) incoming m once =
    total-respond k id (Dict.get id m.pending_dap_requests) incoming m refl once
total-after_core k (status s) incoming m once = refl
total-after_core k (failure text) incoming m once = refl
total-after_core k (dap_event event body) incoming m once = refl
total-after_core k (unknown raw) incoming m once = refl

total-through_core :
    (k : String) (state : Option DapSessionState) (incoming : Incoming) (m : ProxyManager)
    → total k m ≤ 1
    → total k (through_core state incoming m) ≡ total k m
total-through_core k none incoming m once = refl
total-through_core k (some state) incoming m once =
    let result = handle_by_core state incoming.message in
    let is_event = is_dap_event incoming.message.content in
    let followed = follow_core result is_event m in
    let e = total-books k followed m (books-follow_core result is_event m) in
    total-after_core k incoming.message.content incoming followed (omega (arith, e, once)) ∙ e

total-receive :
    (k : String) (received : Received) (m : ProxyManager)
    → total k m ≤ 1
    → total k (receive received m) ≡ total k m
total-receive k heartbeat m once = refl
total-receive k invalid m once = refl
total-receive k (valid incoming) m once =
    let handled = fast_path incoming.message.content incoming.detail m in
    let e = total-books k handled m (books-fast_path incoming.message.content incoming.detail m) in
    total-through_core k handled.dap_state incoming handled (omega (arith, e, once)) ∙ e

pub total-handle_proxy_message :
    (k : String) (received : Received) (m : ProxyManager)
    → total k m ≤ 1
    → total k (handle_proxy_message received m) ≡ total k m
unfolding handle_proxy_message
total-handle_proxy_message k received m once =
    if-cases (λ x. total k x ≡ total k m) m.is_stopped _ _ (λ _. refl)
      (λ _. total-receive k received m once)

total-on_request_timeout :
    (k id : String) (pending : Option PendingDapRequest) (m : ProxyManager)
    → Dict.get id m.pending_dap_requests ≡ pending
    → total k m ≤ 1
    → total k (on_request_timeout id pending m) ≡ total k m
unfolding on_request_timeout
total-on_request_timeout k id none m there once = refl
total-on_request_timeout k id (some pending) m there once =
    let taken = forget_request id m in
    omega (
      arith,
      total-settle_request k id (rejected (request_timeout pending.command))
          (clear_owned_barrier id taken),
      total-clear_owned_barrier k id taken,
      total-forget_request k id pending m there once,
    )

total-fire_as :
    (k : String) (timer : ℕ) (id : Option String) (m : ProxyManager)
    → total k m ≤ 1
    → total k (fire_as timer id m) ≡ total k m
total-fire_as k timer none m once = refl
total-fire_as k timer (some id) m once =
    total-on_request_timeout k id (Dict.get id m.pending_dap_requests) (clear_timeout timer m) refl
      once

pub total-fire :
    (k : String) (timer : ℕ) (m : ProxyManager) → total k m ≤ 1 → total k (fire timer m) ≡ total k m
unfolding fire
total-fire k timer m once = total-fire_as k timer (Dict.get timer m.timers) m once
