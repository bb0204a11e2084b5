-- ===== src/Proxy/Manager/Books.antt =====
-- What leaves the promises and the timers alone.
use mcp_debugger.Base.{
  ℕ, ◌+◌, ◌≡◌, refl, ap, ◌∙◌, String, Bool, not, ◌&&◌, Option, none, some, List, [], ◌∷◌, string_eq,
  nat_eq, arith, if-cases,
}
use mcp_debugger.Base.Int.{ℤ}
use mcp_debugger.Base.Dict.{Dict, count}
use mcp_debugger.Base.Json.{Json}
use mcp_debugger.DapCore.State.{DapSessionState}
use mcp_debugger.DapCore.Handlers.{
  Status, Content, status, failure, dap_event, dap_response, unknown, DapCommand,
  DapProcessingResult, emit_event, send_to_client, send_to_proxy, log, kill_process,
}
use mcp_debugger.Proxy.Manager.{ProxyManager, PendingDapRequest, Outcome, BarrierCall, emit}
use mcp_debugger.Proxy.Manager.Messages.{
  tell_active, handle_dap_event, handle_status, handle_status_message, capture_thread, run_command,
  run_commands, take_core_state, fast_path,
}
use mcp_debugger.Proxy.Manager.Lifecycle.{
  announce_dry_run, announce_exit, is_zero, Launch, refused, no_pid, spawned, start, step, starts,
}
use mcp_debugger.Proxy.Manager.Totals.{total}

abbrev pub Books : Type 0
Books =
    List (String × Outcome)
    × Dict String PendingDapRequest
    × Dict String ℕ
    × Dict ℕ String
    × ℕ
    × Option (ℕ × String)

-- The settlements, the table, the waiting requests, the timers and the active barrier.
abbrev pub books : ProxyManager → Books
books m = (
  m.settlements, m.pending_dap_requests, m.waiting, m.timers, m.next_timer, m.active_launch_barrier,
)

pub books-tell_active :
    (call : BarrierCall) (active : Option (ℕ × String)) (m : ProxyManager)
    → books (tell_active call active m) ≡ books m
books-tell_active call none m = refl
books-tell_active call (some (active, owner)) m = refl

books-handle_dap_event :
    (event : String) (body : Option Json) (m : ProxyManager)
    → books (handle_dap_event event body m) ≡ books m
unfolding handle_dap_event emit
books-handle_dap_event event body m =
    ground (arith, books-tell_active (BarrierCall.dap_event event body) m.active_launch_barrier m)

books-handle_status :
    (s : Status) (detail : Option Json) (m : ProxyManager)
    → books (handle_status s detail m) ≡ books m
unfolding emit
books-handle_status s detail m = ground arith

books-handle_status_message :
    (s : Status) (detail : Option Json) (m : ProxyManager)
    → books (handle_status_message s detail m) ≡ books m
unfolding handle_status_message
books-handle_status_message s detail m =
    books-handle_status s detail _ ∙ books-tell_active _ m.active_launch_barrier m

books-run_command :
    (is_event : Bool) (command : DapCommand) (m : ProxyManager)
    → books (run_command is_event command m) ≡ books m
unfolding emit
books-run_command is_event (emit_event event args) m = ground arith
books-run_command is_event (send_to_client c) m = refl
books-run_command is_event (send_to_proxy c) m = refl
books-run_command is_event (log level text data_of_log) m = refl
books-run_command is_event kill_process m = refl

books-run_commands :
    (is_event : Bool) (commands : List DapCommand) (m : ProxyManager)
    → books (run_commands is_event commands m) ≡ books m
unfolding run_commands
books-run_commands is_event [] m = refl
books-run_commands is_event (c ∷ commands) m =
    books-run_commands is_event commands (run_command is_event c m) ∙ books-run_command is_event c m

books-take_core_state :
    (state : Option DapSessionState) (m : ProxyManager) → books (take_core_state state m) ≡ books m
books-take_core_state none m = refl
books-take_core_state (some state) m = refl

pub books-capture_thread :
    (command : String) (current : Option ℤ) (response : Option Json) (m : ProxyManager)
    → books (capture_thread command current response m) ≡ books m
books-capture_thread command (some n) response m = refl
books-capture_thread command none response m = ground arith

pub books-fast_path :
    (content : Content) (detail : Option Json) (m : ProxyManager)
    → books (fast_path content detail m) ≡ books m
books-fast_path (dap_event event body) detail m = books-handle_dap_event event body m
books-fast_path (status s) detail m = books-handle_status_message s detail m
books-fast_path (failure text) detail m = refl
books-fast_path (dap_response request_id) detail m = refl
books-fast_path (unknown raw) detail m = refl

-- What the functional core's answer changes of the manager.
abbrev pub follow_core : DapProcessingResult → Bool → ProxyManager → ProxyManager
follow_core result is_event m =
    take_core_state result.new_state (run_commands is_event result.commands m)

pub books-follow_core :
    (result : DapProcessingResult) (is_event : Bool) (m : ProxyManager)
    → books (follow_core result is_event m) ≡ books m
books-follow_core result is_event m =
    books-take_core_state result.new_state (run_commands is_event result.commands m)
    ∙ books-run_commands is_event result.commands m

pub books-announce_dry_run :
    (code : Option ℤ) (command script : String) (m : ProxyManager)
    → books (announce_dry_run code command script m) ≡ books m
unfolding announce_dry_run emit
books-announce_dry_run code command script m =
    if-cases (λ x. books x ≡ books m)
      (m.is_dry_run && (is_zero code && not m.dry_run_complete_received)) _ _ (λ _. refl)
      (λ _. refl)

pub books-announce_exit :
    (code : Option ℤ) (signal : Option String) (m : ProxyManager)
    → books (announce_exit code signal m) ≡ books m
unfolding announce_exit emit
books-announce_exit code signal m =
    if-cases (λ x. books x ≡ books m) m.exit_emitted _ _ (λ _. refl) (λ _. refl)

pub books-start :
    (session_id : String) (dry_run : Bool) (launch : Launch) (m : ProxyManager)
    → books (step (starts session_id dry_run launch) m) ≡ books m
unfolding step start
books-start session_id dry_run refused m = ground arith
books-start session_id dry_run no_pid m = ground arith
books-start session_id dry_run spawned m = ground arith

abbrev pub total_of : String → Books → ℕ
total_of k (settlements, pending, waiting, timers, next_timer, active) =
    count k settlements + (count k pending + count k waiting)

pub total-books : (k : String) (m m' : ProxyManager) → books m ≡ books m' → total k m ≡ total k m'
total-books k m m' e = ap (total_of k) e
