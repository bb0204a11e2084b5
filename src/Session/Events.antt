-- ===== src/Session/Events.antt =====
-- src/session/session-manager-core.ts: what a session does on the events of its proxy manager. A
-- handler takes the session that the store holds and gives the session after it, with what it starts
-- besides. Breakpoint, output and capability notices are left out, and so are the reset for a new
-- launch and the reply to an exception request.
pub mod Consistent
pub mod Settled
pub mod Stops
pub mod Tests
use mcp_debugger.Base.{
  ℕ, zero, Bool, true, false, not, ◌&&◌, ◌||◌, Option, none, some, List, [], ◌∷◌, ◌++◌,
  if◌then◌else◌, String, str_eq,
}
use mcp_debugger.Base.Int.{ℤ, pos, negsuc}
use mcp_debugger.Session.States.{SessionState, same_state}
use mcp_debugger.Session.Store.{ManagedSession, LastStop, change_state}

-- What the handlers of one launch close over; `pid` is what the proxy manager tells of its process.
pub record Launch : Type 0 where
  pub proxy : ℕ
  pub pid : Option ℕ
  pub request_is_attach : Bool
  pub attach_mode : Bool
  pub stop_on_entry : Bool
  pub first_stop_may_be_non_entry : Bool
  pub dry_run_handler_setup : Bool

pub data Effect : Type 0 where
  auto_continue : Effect
  request_exception_info : (thread_id : ℤ) → Effect

-- A session under a launch: whether the launch's handlers are still registered, and what was started.
pub record Watched : Type 0 where
  pub session : ManagedSession
  pub listening : Bool
  pub started : List Effect

pub data ProxyEvent : Type 0 where
  stopped :
      (thread_id : Option ℤ) (raw_reason : String) (normalized : Option String)
      (description text : Option String)
      → ProxyEvent
  continued terminated adapter_configured dry_run_complete failed : ProxyEvent
  exited : (exit_code : Option ℤ) → ProxyEvent
  exit : (code : Option ℤ) (signal : Option String) (expected : Option Bool) → ProxyEvent

abbrev pub is_zero : Option ℤ → Bool
is_zero (some (pos zero)) = true
is_zero code = false

-- A text that is there and not empty.
abbrev pub given : Option String → Bool
given none = false
given (some s) = not (str_eq s "")

abbrev pub if_given : Option String → Option String
if_given s = if given s then s else none

-- `normalized` is what the policy's `normalizeStopReason` answers, if it does.
abbrev pub stop_reason : String → Option String → String
stop_reason raw_reason none = raw_reason
stop_reason raw_reason (some normalized) = if str_eq normalized "" then raw_reason else normalized

abbrev pub is_user_break : String → Bool
is_user_break reason =
    str_eq reason "breakpoint"
    || (str_eq reason "function breakpoint"
        || (str_eq reason "data breakpoint"
            || (str_eq reason "instruction breakpoint" || str_eq reason "exception")))

abbrev pub is_attach : Launch → Bool
is_attach launch = launch.request_is_attach || launch.attach_mode

abbrev pub should_auto_continue : Launch → Bool → String → Bool
should_auto_continue launch is_first_stop reason =
    not (is_attach launch)
    && (not launch.stop_on_entry
        && (str_eq reason "entry"
            || (launch.first_stop_may_be_non_entry
                && (is_first_stop && not (is_user_break reason)))))

abbrev pub last_stop_of : Option ℤ → String → String → Option String → Option String → ℕ → LastStop
last_stop_of thread_id raw_reason reason description text now = record {
  reason = reason;
  raw_reason = if str_eq reason raw_reason then none else some raw_reason;
  thread_id = thread_id;
  timestamp = now;
  description = if_given description;
  text = if_given text;
}

-- The request for the exception's details.
abbrev pub exception_request : Option ℤ → String → String → Bool → List Effect
exception_request none raw_reason reason supported = []
exception_request (some thread_id) raw_reason reason supported =
    if str_eq reason "exception" && (str_eq raw_reason "exception" && supported)
    then request_exception_info thread_id ∷ []
    else []

-- A stop that is passed over leaves the session paused here: that it is continued is recorded among
-- what is started, and what continuing does to the session (it is running again before the handler
-- ends) is left to the operations.
unfoldable pub handle_stopped :
    Launch
    → ℕ
    → Option ℤ
    → String
    → Option String
    → Option String
    → Option String
    → Watched
    → Watched
handle_stopped launch now thread_id raw_reason normalized description text w =
    let reason = stop_reason raw_reason normalized in
    let session = record (w.session) { pause_pending = false } in
    let recorded = record session {
      last_stop = some (last_stop_of thread_id raw_reason reason description text now);
    } in
    let supported = session.supports_exception_info_request in
    if should_auto_continue launch (not session.first_stop_handled) reason
    then record w {
      session = record (change_state SessionState.paused now session) { first_stop_handled = true };
      started = w.started ++ auto_continue ∷ [];
    }
    else record w {
      session = record (change_state SessionState.paused now recorded) {
        first_stop_handled = true;
      };
      started = w.started ++ exception_request thread_id raw_reason reason supported;
    }

unfoldable pub handle_continued : ℕ → ManagedSession → ManagedSession
handle_continued now s =
    if same_state s.state SessionState.paused then s else change_state SessionState.running now s

unfoldable pub handle_adapter_configured : Launch → ℕ → ManagedSession → ManagedSession
handle_adapter_configured launch now s =
    if launch.stop_on_entry then s else change_state SessionState.running now s

-- `a ?? b`
abbrev pub or_else {ℓ} : {A : Type ℓ} → Option A → Option A → Option A
or_else none b = b
or_else (some a) b = some a

-- The proxy manager is let go; `reap` tells whether its stop is started too.
unfoldable pub release : Launch → Bool → ManagedSession → ManagedSession
release launch reap s = record s {
  last_proxy_pid = or_else launch.pid s.last_proxy_pid;
  proxy_manager = none;
  pending_proxy_stop = if reap then some launch.proxy else s.pending_proxy_stop;
}

unfoldable pub handle_terminated : Launch → ℕ → ManagedSession → ManagedSession
handle_terminated launch now s = release launch true (change_state SessionState.stopped now s)

unfoldable pub handle_exited : Launch → ℕ → Option ℤ → ManagedSession → ManagedSession
handle_exited launch now exit_code s =
    release launch true (
      change_state SessionState.stopped now
        (record s { exit_code = or_else exit_code s.exit_code }))

unfoldable pub handle_error : Launch → ℕ → ManagedSession → ManagedSession
handle_error launch now s = release launch true (change_state SessionState.error now s)

unfoldable pub handle_dry_run_complete : Launch → ℕ → ManagedSession → ManagedSession
handle_dry_run_complete launch now s =
    let stopped_session = change_state SessionState.stopped now s in
    if launch.dry_run_handler_setup
    then stopped_session
    else record stopped_session { proxy_manager = none }

-- The state that an exit leads to, where the session is not over already.
unfoldable pub exit_state : Option ℤ → Option String → Option Bool → SessionState
exit_state code signal (some true) = SessionState.stopped
exit_state code signal (some false) =
    if is_zero code then SessionState.stopped else SessionState.error
exit_state none signal none = if given signal then SessionState.error else SessionState.stopped
exit_state (some code) signal none =
    if is_zero (some code) then SessionState.stopped else SessionState.error

-- The exit code is recorded for an expected exit, unless there is one.
abbrev pub exit_code_after : Option ℤ → Option Bool → Option ℤ → Option ℤ
exit_code_after recorded (some true) code = or_else recorded code
exit_code_after recorded expected code = recorded

abbrev pub is_defined : Option Bool → Bool
is_defined none = false
is_defined (some b) = true

unfoldable pub handle_exit :
    Launch → ℕ → Option ℤ → Option String → Option Bool → ManagedSession → ManagedSession
unfolding exit_state
handle_exit launch now code signal expected s =
    if same_state s.state SessionState.stopped || same_state s.state SessionState.error
    then release launch (is_defined expected) s
    else release launch (is_defined expected) (
        change_state (exit_state code signal expected) now
          (record s { exit_code = exit_code_after s.exit_code expected code }))

-- The handlers that remove all of the launch's handlers.
abbrev over : Watched → ManagedSession → Watched
over w session = record w { session = session; listening = false }

abbrev kept : Watched → ManagedSession → Watched
kept w session = record w { session = session }

unfoldable pub handle : Launch → ℕ → ProxyEvent → Watched → Watched
handle launch now (stopped thread_id raw_reason normalized description text) w =
    handle_stopped launch now thread_id raw_reason normalized description text w
handle launch now continued w = kept w (handle_continued now w.session)
handle launch now adapter_configured w = kept w (handle_adapter_configured launch now w.session)
handle launch now dry_run_complete w = kept w (handle_dry_run_complete launch now w.session)
handle launch now terminated w = over w (handle_terminated launch now w.session)
handle launch now (exited exit_code) w = over w (handle_exited launch now exit_code w.session)
handle launch now failed w = over w (handle_error launch now w.session)
handle launch now (exit code signal expected) w =
    over w (handle_exit launch now code signal expected w.session)

-- Events, each with its time, as long as the handlers are registered.
unfoldable pub deliver : Launch → List (ℕ × ProxyEvent) → Watched → Watched
unfolding handle
deliver launch [] w = w
deliver launch ((now, e) ∷ es) w =
    deliver launch es (if w.listening then handle launch now e w else w)
