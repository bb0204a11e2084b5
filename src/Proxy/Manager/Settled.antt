-- ===== src/Proxy/Manager/Settled.antt =====
-- Every promise is settled once or still stands in one place.
use mcp_debugger.Base.{
  ℕ, ◌+◌, ◌≤◌, ◌≡◌, ◌∙◌, String, true, Option, none, List, [], ◌∷◌, string_eq, nat_eq, arith,
  if-cases,
}
use mcp_debugger.Base.Int.{ℤ}
use mcp_debugger.Base.Dict.{count}
use mcp_debugger.DapCore.Handlers.{error_of}
use mcp_debugger.Proxy.Manager.{
  ProxyManager, proxy_exited, BarrierCall, emit, barrier_settles, release_waiting, waiting_for,
  barrier_outcome, clear_active_launch_barrier, reject_pending, new_manager,
}
use mcp_debugger.Proxy.Manager.Messages.{tell_active}
use mcp_debugger.Proxy.Manager.Lifecycle.{
  announce_dry_run, exited, handle_proxy_exit, handle_process_error, stop, stop_drained,
  set_current_thread, Action, starts, sends, receives, timer_fires, barrier_settled, thread_set,
  process_exits, process_fails, stops, stop_resumes, step, run,
}
use mcp_debugger.Proxy.Manager.Totals.{
  total, hit, total-clear_active_launch_barrier, total-leave_wait, total-release_waiting,
  total-reject_pending, total-cleanup,
}
use mcp_debugger.Proxy.Manager.Books.{
  total-books, books-tell_active, books-announce_exit, books-announce_dry_run, books-start,
}
use mcp_debugger.Proxy.Manager.Replies.{total-handle_proxy_message, total-fire}
use mcp_debugger.Proxy.Manager.Requests.{total-send_dap_request}

total-handle_proxy_exit :
    (k : String) (code : Option ℤ) (signal : Option String) (command script : String)
    (m : ProxyManager)
    → total k (handle_proxy_exit code signal command script m) ≡ total k m
unfolding handle_proxy_exit
total-handle_proxy_exit k code signal command script m =
    let told = tell_active (BarrierCall.proxy_exit code signal) m.active_launch_barrier m in
    let cleared = clear_active_launch_barrier none told in
    let announced = announce_dry_run code command script cleared in
    let rejected_all = reject_pending (λ pending. proxy_exited) announced in
    let last = exited code signal command script m in
    omega (
      arith,
      total-cleanup k last,
      total-books k last rejected_all (books-announce_exit code signal rejected_all),
      total-reject_pending k (λ pending. proxy_exited) announced,
      total-books k announced cleared (books-announce_dry_run code command script cleared),
      total-clear_active_launch_barrier k none told,
      total-books k told m
          (books-tell_active (BarrierCall.proxy_exit code signal) m.active_launch_barrier m),
    )

-- How often the actions ask for a request under an id.
abbrev pub sends_of : String → Action → ℕ
sends_of k (sends plan id command now sent) = hit id k
sends_of k action = 0

abbrev pub sends_in : String → List Action → ℕ
sends_in k [] = 0
sends_in k (a ∷ actions) = sends_of k a + sends_in k actions

pub total-step :
    (k : String) (a : Action) (m : ProxyManager)
    → sends_of k a + total k m ≤ 1
    → total k (step a m) ≡ sends_of k a + total k m
unfolding step handle_process_error stop stop_drained set_current_thread barrier_settles emit
total-step k (sends plan id command now sent) m once =
    total-send_dap_request k id command plan now sent m once
total-step k (starts session_id dry_run launch) m once = omega (
  arith,
  total-books k (step (starts session_id dry_run launch) m) m
      (books-start session_id dry_run launch m),
)
total-step k (receives received) m once =
    omega (arith, total-handle_proxy_message k received m (omega (arith, once)))
total-step k (timer_fires timer) m once = omega (arith, total-fire k timer m (omega (arith, once)))
total-step k (barrier_settled barrier opened) m once =
    let outcome = barrier_outcome opened in
    let released = release_waiting barrier outcome m in
    omega (
      arith,
      total-leave_wait k barrier (waiting_for barrier m.waiting) released,
      total-release_waiting k barrier outcome m,
    )
total-step k (thread_set thread_id) m once = omega arith
total-step k (process_exits code signal command script) m once =
    omega (arith, total-handle_proxy_exit k code signal command script m)
total-step k (process_fails text) m once =
    omega (arith, total-cleanup k (emit "error" (error_of text ∷ []) m))
total-step k stops m once =
    if-cases (λ x. total k x ≡ 0 + total k m) m.proxy_process _ _ (λ _. omega arith)
      (λ _. omega (arith, total-cleanup k m))
total-step k stop_resumes m once = omega (arith, total-cleanup k (record m { is_stopped = true }))

pub run_total :
    (k : String) (actions : List Action) (m : ProxyManager)
    → sends_in k actions + total k m ≤ 1
    → total k (run actions m) ≡ sends_in k actions + total k m
unfolding run
run_total k [] m once = omega arith
run_total k (a ∷ actions) m once =
    let e = total-step k a m (omega (arith, once)) in
    omega (arith, e, run_total k actions (step a m) (omega (arith, e, once)))

add-zero_right : (n : ℕ) → n + 0 ≡ n
add-zero_right n = omega arith

-- A request that is asked for once, in any history of a new manager, has its promise settled exactly
-- once, or not yet, and then it stands exactly once in the table of pending requests or with its
-- launch barrier. A request that is never asked for is nowhere.
pub run-new_manager_total :
    (k : String) (actions : List Action)
    → sends_in k actions ≤ 1
    → let m = run actions new_manager in
      count k m.settlements + (count k m.pending_dap_requests + count k m.waiting)
      ≡ sends_in k actions
unfolding new_manager
run-new_manager_total k actions once =
    run_total k actions new_manager (omega (arith, once)) ∙ add-zero_right (sends_in k actions)
