-- ===== src/Proxy/Manager/Ended.antt =====
-- What the end of the proxy process settles.
use mcp_debugger.Base.{
  ℕ, ◌+◌, ◌≤◌, ◌≡◌, refl, ap, ◌∙◌, String, Bool, true, false, none, List, [], ◌∷◌, arith, string_eq,
  nat_eq,
}
use mcp_debugger.Base.Dict
use mcp_debugger.Base.Dict.{Dict, count}
use mcp_debugger.DapCore.Handlers.{error_of}
use mcp_debugger.Proxy.Manager.{
  ProxyManager, emit, clear_mirror, cancel_pending, reject_pending, cleanup, new_manager,
}
use mcp_debugger.Proxy.Manager.Lifecycle.{
  exited, handle_proxy_exit, handle_process_error, stop_drained, Action, starts, sends, receives,
  timer_fires, barrier_settled, thread_set, process_exits, process_fails, stops, stop_resumes, step,
  run,
}
use mcp_debugger.Proxy.Manager.Totals.{total}
use mcp_debugger.Proxy.Manager.Settled.{sends_of, sends_in, total-step, run-new_manager_total}
use mcp_debugger.Proxy.Manager.Slots.{slots, slots-clear_active_launch_barrier}
use mcp_debugger.Proxy.Manager.Linked.{IsLinked, delete_each-timer}
use mcp_debugger.Proxy.Manager.Linked.Moves.{exited-IsLinked}
use mcp_debugger.Proxy.Manager.Waits.{IsWaiting}
use mcp_debugger.Proxy.Manager.Waits.Moves.{cleanup-waiting}
use mcp_debugger.Proxy.Manager.Histories.{exited-IsWaiting, run-IsWaiting, run-new_manager-IsLinked}

-- The ways in which the manager gets rid of its process.
abbrev pub ends : Action → Bool
ends (process_exits code signal command script) = true
ends (process_fails text) = true
ends stop_resumes = true
ends action = false

-- Nothing is under way.
pub record IsIdle (m : ProxyManager) : Type 0 where
  pub no_pending : m.pending_dap_requests ≡ []
  pub no_waiting : m.waiting ≡ []
  pub no_timer : (i : ℕ) → Dict.get i m.timers ≡ none
  pub no_process : m.proxy_process ≡ false

slots-cleanup :
    (m : ProxyManager)
    → slots (cleanup m)
      ≡ ([], Dict.delete_each (λ p. p.timer) m.pending_dap_requests m.timers, m.next_timer)
unfolding cleanup reject_pending
slots-cleanup m = slots-clear_active_launch_barrier none (clear_mirror (cancel_pending m))

cleanup-IsIdle : (m : ProxyManager) → IsLinked m → IsWaiting m → IsIdle (cleanup m)
unfolding cleanup
cleanup-IsIdle m v w = record {
  no_pending = ap (λ s. s.0) (slots-cleanup m);
  no_waiting = cleanup-waiting m w;
  no_timer = λ i.
      ap (λ s. Dict.get i s.1) (slots-cleanup m)
      ∙ delete_each-timer m.pending_dap_requests m.timers m.next_timer v i;
  no_process = refl;
}

step-IsIdle :
    (a : Action) (m : ProxyManager) → ends a ≡ true → IsLinked m → IsWaiting m → IsIdle (step a m)
unfolding step handle_proxy_exit handle_process_error stop_drained emit
step-IsIdle (process_exits code signal command script) m e v w =
    cleanup-IsIdle (exited code signal command script m)
      (exited-IsLinked code signal command script m v)
      (exited-IsWaiting code signal command script m w)
step-IsIdle (process_fails text) m e v w = cleanup-IsIdle (emit "error" (error_of text ∷ []) m) v w
step-IsIdle stop_resumes m e v w = cleanup-IsIdle (record m { is_stopped = true }) v w
step-IsIdle (starts session_id dry_run launch) m e v w = absurd cc
step-IsIdle (sends plan id command now sent) m e v w = absurd cc
step-IsIdle (receives received) m e v w = absurd cc
step-IsIdle (timer_fires timer) m e v w = absurd cc
step-IsIdle (barrier_settled barrier opened) m e v w = absurd cc
step-IsIdle (thread_set thread_id) m e v w = absurd cc
step-IsIdle stops m e v w = absurd cc

ends_sends : (k : String) (a : Action) → ends a ≡ true → sends_of k a ≡ 0
ends_sends k a e = ground arith

-- When the process of a manager exits or fails, or a stop cleans up, after any history in which no
-- request id is used twice: every request of the history has its promise settled exactly once,
-- nothing is pending, waits for a barrier or is timed any more, and there is no process.
pub run-step_ends :
    (actions : List Action) (a : Action)
    → ((k : String) → sends_in k actions ≤ 1)
    → ends a ≡ true
    → let m = step a (run actions new_manager) in
      IsIdle m × ((k : String) → count k m.settlements ≡ sends_in k actions)
unfolding new_manager
run-step_ends actions a once e =
    let before = run actions new_manager in
    let after = step a before in
    let idle : IsIdle after =
      step-IsIdle a before e (run-new_manager-IsLinked actions once)
        (run-IsWaiting actions new_manager refl) in
    (
      idle,
      λ k.
          let t : total k before ≡ sends_in k actions = run-new_manager_total k actions (once k) in
          let s : total k after ≡ sends_of k a + total k before =
            total-step k a before (omega (arith, t, once k, ends_sends k a e)) in
          let p : count k after.pending_dap_requests ≡ 0 = ap (count k) idle.no_pending in
          let w : count k after.waiting ≡ 0 = ap (count k) idle.no_waiting in
          omega (arith, t, s, p, w, ends_sends k a e),
    )
