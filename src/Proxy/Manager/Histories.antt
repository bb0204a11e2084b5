-- ===== src/Proxy/Manager/Histories.antt =====
-- What a history of the manager keeps.
use mcp_debugger.Base.{
  ◌+◌, ◌≤◌, ◌≡◌, ◌∙◌, String, true, Option, none, List, [], ◌∷◌, arith, string_eq, nat_eq, if-cases,
  Option-cases, inl, inr, beq_refl,
}
use mcp_debugger.Base.Int.{ℤ}
use mcp_debugger.Base.Dict
use mcp_debugger.Base.Dict.{Dict, count, count-get-some}
use mcp_debugger.DapCore.Handlers.{error_of}
use mcp_debugger.Proxy.Manager.{
  ProxyManager, BarrierCall, proxy_exited, emit, clear_active_launch_barrier, release_waiting,
  waiting_for, leave_wait, barrier_outcome, barrier_settles, reject_pending, new_manager,
}
use mcp_debugger.Proxy.Manager.Messages.{tell_active}
use mcp_debugger.Proxy.Manager.Lifecycle.{
  announce_dry_run, announce_exit, exited, handle_proxy_exit, handle_process_error, stop,
  stop_drained, set_current_thread, Action, starts, sends, receives, timer_fires, barrier_settled,
  thread_set, process_exits, process_fails, stops, stop_resumes, step, run,
}
use mcp_debugger.Proxy.Manager.Totals.{total, hit}
use mcp_debugger.Proxy.Manager.Books.{
  books-tell_active, books-announce_exit, books-announce_dry_run, books-start,
}
use mcp_debugger.Proxy.Manager.Settled.{sends_of, sends_in, total-step}
use mcp_debugger.Proxy.Manager.Slots.{slots-books, slots-release_waiting, slots-leave_wait}
use mcp_debugger.Proxy.Manager.Linked.{IsLinked, slots-IsLinked}
use mcp_debugger.Proxy.Manager.Linked.Moves.{
  handle_proxy_message-IsLinked, fire-IsLinked, send_dap_request-IsLinked, cleanup-IsLinked,
  handle_proxy_exit-IsLinked,
}
use mcp_debugger.Proxy.Manager.Waits.{
  IsWaiting, books-IsWaiting, clear_active_launch_barrier-IsWaiting,
}
use mcp_debugger.Proxy.Manager.Waits.Moves.{
  handle_proxy_message-IsWaiting, fire-IsWaiting, send_dap_request-IsWaiting,
  barrier_settles-IsWaiting, cleanup-IsWaiting,
}

pub exited-IsWaiting :
    (code : Option ℤ) (signal : Option String) (command script : String) (m : ProxyManager)
    → IsWaiting m
    → IsWaiting (exited code signal command script m)
unfolding reject_pending
exited-IsWaiting code signal command script m v =
    let told = tell_active (BarrierCall.proxy_exit code signal) m.active_launch_barrier m in
    let cleared = clear_active_launch_barrier none told in
    let announced = announce_dry_run code command script cleared in
    let rejected = reject_pending (λ pending. proxy_exited) announced in
    books-IsWaiting (announce_exit code signal rejected) rejected
      (books-announce_exit code signal rejected)
      (books-IsWaiting announced cleared (books-announce_dry_run code command script cleared) (
        clear_active_launch_barrier-IsWaiting none told (
          books-IsWaiting told m
            (books-tell_active (BarrierCall.proxy_exit code signal) m.active_launch_barrier m) v)))

step-IsWaiting : (a : Action) (m : ProxyManager) → IsWaiting m → IsWaiting (step a m)
unfolding step handle_proxy_exit handle_process_error stop stop_drained set_current_thread emit
step-IsWaiting (starts session_id dry_run launch) m v =
    books-IsWaiting (step (starts session_id dry_run launch) m) m
      (books-start session_id dry_run launch m) v
step-IsWaiting (sends plan id command now sent) m v =
    send_dap_request-IsWaiting plan id command now sent m v
step-IsWaiting (receives received) m v = handle_proxy_message-IsWaiting received m v
step-IsWaiting (timer_fires timer) m v = fire-IsWaiting timer m v
step-IsWaiting (barrier_settled barrier opened) m v = barrier_settles-IsWaiting barrier opened m v
step-IsWaiting (thread_set thread_id) m v = v
step-IsWaiting (process_exits code signal command script) m v =
    cleanup-IsWaiting (exited code signal command script m)
      (exited-IsWaiting code signal command script m v)
step-IsWaiting (process_fails text) m v = cleanup-IsWaiting (emit "error" (error_of text ∷ []) m) v
step-IsWaiting stops m v =
    if-cases IsWaiting m.proxy_process _ _ (λ _. v) (λ _. cleanup-IsWaiting m v)
step-IsWaiting stop_resumes m v = cleanup-IsWaiting (record m { is_stopped = true }) v

-- An id that may still be asked for stands nowhere.
unused_lem :
    (id : String) (m : ProxyManager)
    → hit id id + total id m ≤ 1
    → Dict.get id m.pending_dap_requests ≡ none
unused_lem id m once = elim (Option-cases (Dict.get id m.pending_dap_requests)) [
  | inl absent ↦ absent
  | inr (p, there) ↦
      absurd (ground (arith, beq_refl id, once, count-get-some id p m.pending_dap_requests there))
]

step-IsLinked :
    (a : Action) (m : ProxyManager)
    → ((k : String) → sends_of k a + total k m ≤ 1)
    → IsLinked m
    → IsLinked (step a m)
unfolding step handle_process_error stop stop_drained set_current_thread barrier_settles emit
step-IsLinked (starts session_id dry_run launch) m once v =
    let started = step (starts session_id dry_run launch) m in
    slots-IsLinked started m (slots-books started m (books-start session_id dry_run launch m)) v
step-IsLinked (sends plan id command now sent) m once v =
    send_dap_request-IsLinked plan id command now sent m (unused_lem id m (once id)) v
step-IsLinked (receives received) m once v = handle_proxy_message-IsLinked received m v
step-IsLinked (timer_fires timer) m once v = fire-IsLinked timer m v
step-IsLinked (barrier_settled barrier opened) m once v =
    let outcome = barrier_outcome opened in
    let released = release_waiting barrier outcome m in
    let ids = waiting_for barrier m.waiting in
    slots-IsLinked (leave_wait barrier ids released) m
      (slots-leave_wait barrier ids released ∙ slots-release_waiting barrier outcome m) v
step-IsLinked (thread_set thread_id) m once v = v
step-IsLinked (process_exits code signal command script) m once v =
    handle_proxy_exit-IsLinked code signal command script m v
step-IsLinked (process_fails text) m once v =
    cleanup-IsLinked (emit "error" (error_of text ∷ []) m) v
step-IsLinked stops m once v =
    if-cases IsLinked m.proxy_process _ _ (λ _. v) (λ _. cleanup-IsLinked m v)
step-IsLinked stop_resumes m once v = cleanup-IsLinked (record m { is_stopped = true }) v

pub run-IsWaiting :
    (actions : List Action) (m : ProxyManager) → IsWaiting m → IsWaiting (run actions m)
unfolding run
run-IsWaiting [] m v = v
run-IsWaiting (a ∷ actions) m v = run-IsWaiting actions (step a m) (step-IsWaiting a m v)

run-IsLinked :
    (actions : List Action) (m : ProxyManager)
    → ((k : String) → sends_in k actions + total k m ≤ 1)
    → IsLinked m
    → IsLinked (run actions m)
unfolding run
run-IsLinked [] m once v = v
run-IsLinked (a ∷ actions) m once v =
    run-IsLinked actions (step a m)
      (λ k. let e = total-step k a m (omega (arith, once k)) in omega (arith, e, once k))
      (step-IsLinked a m (λ k. omega (arith, once k)) v)

-- Over any history of a new manager in which no request id is used twice, every pending request has a
-- live timer of its own, every live timer stands for a request that is pending under it, and no live
-- timer has the number of a later one.
pub run-new_manager-IsLinked :
    (actions : List Action)
    → ((k : String) → sends_in k actions ≤ 1)
    → IsLinked (run actions new_manager)
unfolding new_manager Dict.get
run-new_manager-IsLinked actions once =
    run-IsLinked actions new_manager (λ k. omega (arith, once k))
      (record {
        live = λ id p h. absurd (cc);
        pending = λ i id h. absurd (cc);
        fresh = λ i id h. absurd (cc);
      })
