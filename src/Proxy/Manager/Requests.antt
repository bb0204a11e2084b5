-- ===== src/Proxy/Manager/Requests.antt =====
-- A call of `sendDapRequest`, and the promise it makes.
use mcp_debugger.Base.{
  ℕ, ◌+◌, ◌≤◌, ◌≡◌, refl, String, Bool, not, ◌||◌, some, string_eq, nat_eq, arith, if-cases,
}
use mcp_debugger.Base.Dict
use mcp_debugger.Base.Dict.{Dict, count, count-delete, count-put}
use mcp_debugger.Proxy.Manager.{
  ProxyManager, PendingDapRequest, rejected, not_sent, not_initialized, enter_request,
  withdraw_request, Barrier, no_barrier, barrier_and_response, barrier_only, arm, disarm,
  request_response, request_barrier, request_by, send_dap_request, clear_active_launch_barrier,
}
use mcp_debugger.Proxy.Manager.Totals.{
  total, hit, total-settle_request, total-clear_active_launch_barrier,
  total-set_active_launch_barrier,
}

-- A request that is under an id which is not in use.
total-enter_request :
    (k id command : String) (now : ℕ) (m : ProxyManager)
    → hit id k + total k m ≤ 1
    → total k (enter_request id command now m) ≡ hit id k + total k m
unfolding enter_request
total-enter_request k id command now m once = ground (
  arith,
  count-put k id (record { command = command; timer = m.next_timer }) m.pending_dap_requests,
)

total-withdraw-enter_request :
    (k id command : String) (now timer : ℕ) (m : ProxyManager)
    → hit id k + total k m ≤ 1
    → total k (withdraw_request id timer (enter_request id command now m)) ≡ total k m
unfolding withdraw_request enter_request
total-withdraw-enter_request k id command now timer m once =
    let pending : PendingDapRequest = record { command = command; timer = m.next_timer } in
    ground (
      arith,
      count-delete k id (Dict.put id pending m.pending_dap_requests),
      count-put k id pending m.pending_dap_requests,
    )

total-arm :
    (k id : String) (barrier : Barrier) (m : ProxyManager) → total k (arm barrier id m) ≡ total k m
total-arm k id no_barrier m = refl
total-arm k id (barrier_and_response barrier) m = total-set_active_launch_barrier k barrier id m
total-arm k id (barrier_only barrier) m = total-set_active_launch_barrier k barrier id m

total-disarm :
    (k : String) (barrier : Barrier) (m : ProxyManager) → total k (disarm barrier m) ≡ total k m
total-disarm k no_barrier m = refl
total-disarm k (barrier_and_response barrier) m =
    total-clear_active_launch_barrier k (some barrier) m
total-disarm k (barrier_only barrier) m = total-clear_active_launch_barrier k (some barrier) m

total-request_response :
    (k id command : String) (barrier : Barrier) (now : ℕ) (sent : Bool) (m : ProxyManager)
    → hit id k + total k m ≤ 1
    → total k (request_response barrier id command now sent m) ≡ hit id k + total k m
unfolding request_response
total-request_response k id command barrier now sent m once =
    let entered = enter_request id command now m in
    let withdrawn = withdraw_request id m.next_timer entered in
    if-cases (λ x. total k x ≡ hit id k + total k m) sent _ _
      (λ _. total-enter_request k id command now m once)
      (λ _. omega (
        arith,
        total-settle_request k id (rejected not_sent) (disarm barrier withdrawn),
        total-disarm k barrier withdrawn,
        total-withdraw-enter_request k id command now m.next_timer m once,
      ))

total-request_barrier :
    (k id : String) (barrier : ℕ) (sent : Bool) (m : ProxyManager)
    → hit id k + total k m ≤ 1
    → total k (request_barrier barrier id sent m) ≡ hit id k + total k m
unfolding request_barrier
total-request_barrier k id barrier sent m once =
    if-cases (λ x. total k x ≡ hit id k + total k m) sent _ _
      (λ _. ground (arith, count-put k id barrier m.waiting))
      (λ _. omega (
        arith,
        total-settle_request k id (rejected not_sent)
            (clear_active_launch_barrier (some barrier) m),
        total-clear_active_launch_barrier k (some barrier) m,
      ))

total-request_by :
    (k id command : String) (barrier : Barrier) (now : ℕ) (sent : Bool) (m : ProxyManager)
    → hit id k + total k m ≤ 1
    → total k (request_by barrier id command now sent m) ≡ hit id k + total k m
total-request_by k id command no_barrier now sent m once =
    total-request_response k id command no_barrier now sent m once
total-request_by k id command (barrier_and_response barrier) now sent m once =
    total-request_response k id command (barrier_and_response barrier) now sent m once
total-request_by k id command (barrier_only barrier) now sent m once =
    total-request_barrier k id barrier sent m once

pub total-send_dap_request :
    (k id command : String) (barrier : Barrier) (now : ℕ) (sent : Bool) (m : ProxyManager)
    → hit id k + total k m ≤ 1
    → total k (send_dap_request barrier id command now sent m) ≡ hit id k + total k m
unfolding send_dap_request
total-send_dap_request k id command barrier now sent m once =
    let e = total-arm k id barrier m in
    if-cases (λ x. total k x ≡ hit id k + total k m) (not m.proxy_process || not m.is_initialized) _
      _ (λ _. total-settle_request k id (rejected not_initialized) m)
      (λ _. omega (
        arith,
        e,
        total-request_by k id command barrier now sent (arm barrier id m) (omega (arith, e, once)),
      ))
