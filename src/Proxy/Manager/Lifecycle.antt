-- ===== src/Proxy/Manager/Lifecycle.antt =====
-- The start, the stop and the end of the proxy process, and the manager over any history.
use mcp_debugger.Base.{
  ℕ, zero, String, Bool, true, false, not, ◌&&◌, Option, none, some, List, [], ◌∷◌, if◌then◌else◌,
  str_eq, string_eq,
}
use mcp_debugger.Base.Int.{ℤ, pos}
use mcp_debugger.Base.Json.{Json, num, str}
use mcp_debugger.DapCore.State.{create_initial_state, set_current_thread_id}
use mcp_debugger.DapCore.Handlers.{Arg, value, error_of}
use mcp_debugger.Proxy.Manager.{
  ProxyManager, BarrierCall, proxy_exited, Barrier, emit, on_mirror, clear_active_launch_barrier,
  send_dap_request, fire, barrier_settles, reject_pending, cleanup,
}
use mcp_debugger.Proxy.Manager.Messages.{Received, tell_active, handle_proxy_message}

abbrev pub is_zero : Option ℤ → Bool
is_zero (some (pos zero)) = true
is_zero code = false

-- A dry run that ended well without a word is announced all the same; the command is a snapshot, given
-- as an argument.
unfoldable pub announce_dry_run : Option ℤ → (command script : String) → ProxyManager → ProxyManager
announce_dry_run code command script m =
    if m.is_dry_run && (is_zero code && not m.dry_run_complete_received)
    then emit "dry-run-complete" (value (some (str command)) ∷ value (some (str script)) ∷ [])
        (record m { dry_run_complete_received = true })
    else m

abbrev code_arg : Option ℤ → Arg
code_arg none = value (some Json.null)
code_arg (some n) = value (some (num n))

-- `signal || undefined`
abbrev signal_arg : Option String → Arg
signal_arg none = value none
signal_arg (some signal) = if str_eq signal "" then value none else value (some (str signal))

unfoldable pub announce_exit : Option ℤ → Option String → ProxyManager → ProxyManager
announce_exit code signal m =
    if m.exit_emitted
    then m
    else emit "exit" (code_arg code ∷ signal_arg signal ∷ []) (record m { exit_emitted = true })

-- The manager that the exit handler cleans up at last.
abbrev pub exited :
    Option ℤ → Option String → (command script : String) → ProxyManager → ProxyManager
exited code signal command script m =
    let told = tell_active (BarrierCall.proxy_exit code signal) m.active_launch_barrier m in
    let announced = announce_dry_run code command script (clear_active_launch_barrier none told) in
    announce_exit code signal (reject_pending (λ pending. proxy_exited) announced)

unfoldable pub handle_proxy_exit :
    Option ℤ → Option String → (command script : String) → ProxyManager → ProxyManager
handle_proxy_exit code signal command script m = cleanup (exited code signal command script m)

-- The 'error' event of the process.
unfoldable pub handle_process_error : String → ProxyManager → ProxyManager
handle_process_error text m = cleanup (emit "error" (error_of text ∷ []) m)

-- `stop()` up to its first wait: without a process it only cleans up.
unfoldable pub stop : ProxyManager → ProxyManager
stop m = if m.proxy_process then m else cleanup m

-- `stop()` after the requests under way had their time; the kill is left to the process.
unfoldable pub stop_drained : ProxyManager → ProxyManager
stop_drained m = cleanup (record m { is_stopped = true })

-- How a launch goes: the environment or the launcher refuses, the process has no pid, or it runs.
pub data Launch : Type 0 where
  refused no_pid spawned : Launch

abbrev launched : Launch → ProxyManager → ProxyManager
launched spawned m = record m { proxy_process = true }
launched launch m = m

-- `start()` up to the first command; `none` is the error for a process that runs already. The texts
-- for a dry run are left out.
unfoldable pub start : String → Bool → Launch → ProxyManager → Option ProxyManager
start session_id dry_run launch m =
    if m.proxy_process
    then none
    else some (
        launched launch (record m {
          session_id = some session_id;
          is_stopped = false;
          ever_initialized = false;
          is_dry_run = dry_run;
          dry_run_complete_received = false;
          dap_state = some (create_initial_state session_id);
        }))

unfoldable pub set_current_thread : ℤ → ProxyManager → ProxyManager
set_current_thread thread_id m = record m {
  current_thread_id = some thread_id;
  dap_state = on_mirror (λ state. set_current_thread_id state (some (num thread_id))) m.dap_state;
}

-- What can happen to a manager, in any order.
pub data Action : Type 0 where
  starts : (session_id : String) (dry_run : Bool) → Launch → Action
  sends : Barrier → (request_id command : String) (now : ℕ) (sent : Bool) → Action
  receives : Received → Action
  timer_fires : ℕ → Action
  barrier_settled : ℕ → (opened : Bool) → Action
  thread_set : ℤ → Action
  process_exits : (code : Option ℤ) (signal : Option String) (command script : String) → Action
  process_fails : String → Action
  stops : Action
  stop_resumes : Action

abbrev started_or : Option ProxyManager → ProxyManager → ProxyManager
started_or none m = m
started_or (some started) m = started

unfoldable pub step : Action → ProxyManager → ProxyManager
step (starts session_id dry_run launch) m = started_or (start session_id dry_run launch m) m
step (sends barrier request_id command now sent) m =
    send_dap_request barrier request_id command now sent m
step (receives received) m = handle_proxy_message received m
step (timer_fires timer) m = fire timer m
step (barrier_settled barrier opened) m = barrier_settles barrier opened m
step (thread_set thread_id) m = set_current_thread thread_id m
step (process_exits code signal command script) m = handle_proxy_exit code signal command script m
step (process_fails text) m = handle_process_error text m
step stops m = stop m
step stop_resumes m = stop_drained m

unfoldable pub run : List Action → ProxyManager → ProxyManager
run [] m = m
run (a ∷ actions) m = run actions (step a m)
