-- ===== src/Proxy/Manager.antt =====
-- src/proxy/proxy-manager.ts: one proxy process and the requests that are under way to it. The
-- promises of requests, the event loop's timers, the emitted events and the calls of launch barriers
-- are part of the state, the latest first. A listener is taken to run after the handler that emits.
pub mod Messages
pub mod Lifecycle
pub mod Totals
pub mod Books
pub mod Replies
pub mod Requests
pub mod Settled
pub mod Slots
pub mod Linked
pub mod Waits
pub mod Histories
pub mod Ended
pub mod Mirror
pub mod InitRetry
mod Tests
use mcp_debugger.Base.{
  ℕ, suc, String, Bool, true, false, not, ◌&&◌, ◌||◌, ◌==◌, Option, none, some, List, [], ◌∷◌, ◌++◌,
  if◌then◌else◌, str_eq, nat_eq, string_eq,
}
use mcp_debugger.Base.Int.{ℤ}
use mcp_debugger.Base.Dict
use mcp_debugger.Base.Dict.{Dict}
use mcp_debugger.Base.Json.{Json, Fields, Items, num, arr, obj, cons, nil, end, member, truthy}
use mcp_debugger.DapCore.State.{
  PendingRequest, DapSessionState, add_pending_request, remove_pending_request,
  clear_pending_requests, set_current_thread_id,
}
use mcp_debugger.DapCore.Handlers.{Arg}

-- Why a request's promise is rejected.
pub data Failure : Type 0 where
  not_initialized : Failure
  request_timeout : (command : String) → Failure
  not_sent : Failure
  failed_response : (command : String) (error : Option String) → Failure
  proxy_exited : Failure
  cancelled : (command : String) → Failure
  barrier_failed : Failure

pub data Outcome : Type 0 where
  resolved : Option Json → Outcome
  rejected : Failure → Outcome

pub record PendingDapRequest : Type 0 where
  pub command : String
  pub timer : ℕ

-- What a barrier is told.
pub data BarrierCall : Type 0 where
  request_sent : (request_id : String) → BarrierCall
  proxy_status : (status : String) → BarrierCall
  dap_event : (event : String) (body : Option Json) → BarrierCall
  proxy_exit : (code : Option ℤ) (signal : Option String) → BarrierCall
  dispose : BarrierCall

-- `waiting` has the requests that wait for a barrier in place of a response.
pub record ProxyManager : Type 0 where
  pub proxy_process : Bool
  pub session_id : Option String
  pub current_thread_id : Option ℤ
  pub pending_dap_requests : Dict String PendingDapRequest
  pub waiting : Dict String ℕ
  pub timers : Dict ℕ String
  pub next_timer : ℕ
  pub is_initialized : Bool
  pub ever_initialized : Bool
  pub is_stopped : Bool
  pub is_dry_run : Bool
  pub dry_run_complete_received : Bool
  pub adapter_configured : Bool
  pub dap_state : Option DapSessionState
  pub active_launch_barrier : Option (ℕ × String)
  pub exit_emitted : Bool
  pub settlements : List (String × Outcome)
  pub emitted : List (String × List Arg)
  pub barrier_log : List (ℕ × BarrierCall)

unfoldable pub new_manager : ProxyManager
new_manager = record {
  proxy_process = false;
  session_id = none;
  current_thread_id = none;
  pending_dap_requests = [];
  waiting = [];
  timers = [];
  next_timer = 0;
  is_initialized = false;
  ever_initialized = false;
  is_stopped = false;
  is_dry_run = false;
  dry_run_complete_received = false;
  adapter_configured = false;
  dap_state = none;
  active_launch_barrier = none;
  exit_emitted = false;
  settlements = [];
  emitted = [];
  barrier_log = [];
}

unfoldable pub emit : String → List Arg → ProxyManager → ProxyManager
emit event args m = record m { emitted = (event, args) ∷ m.emitted }

unfoldable pub settle_request : String → Outcome → ProxyManager → ProxyManager
settle_request request_id outcome m = record m {
  settlements = (request_id, outcome) ∷ m.settlements;
}

-- `if (this.dapState) this.dapState = f(this.dapState)`
abbrev pub on_mirror :
    (DapSessionState → DapSessionState) → Option DapSessionState → Option DapSessionState
on_mirror f none = none
on_mirror f (some state) = some (f state)

-- The requests that wait for a barrier, and the others.
unfoldable pub waiting_for : ℕ → Dict String ℕ → List String
waiting_for barrier [] = []
waiting_for barrier ((id, b) ∷ rest) =
    if b == barrier then id ∷ waiting_for barrier rest else waiting_for barrier rest

unfoldable pub waiting_else : ℕ → Dict String ℕ → Dict String ℕ
waiting_else barrier [] = []
waiting_else barrier ((id, b) ∷ rest) =
    if b == barrier then waiting_else barrier rest else (id, b) ∷ waiting_else barrier rest

unfoldable pub settle_all :
    List String → Outcome → List (String × Outcome) → List (String × Outcome)
settle_all [] outcome settlements = settlements
settle_all (id ∷ ids) outcome settlements = (id, outcome) ∷ settle_all ids outcome settlements

-- A barrier's promise settles, and with it the requests that wait for it.
unfoldable pub release_waiting : ℕ → Outcome → ProxyManager → ProxyManager
release_waiting barrier outcome m = record m {
  waiting = waiting_else barrier m.waiting;
  settlements = settle_all (waiting_for barrier m.waiting) outcome m.settlements;
}

abbrev pub tell : ℕ → BarrierCall → ProxyManager → ProxyManager
tell barrier call m = record m { barrier_log = (barrier, call) ∷ m.barrier_log }

-- `dispose()`: by its contract it rejects a promise that is still open.
unfoldable pub dispose_barrier : ℕ → ProxyManager → ProxyManager
unfolding release_waiting
dispose_barrier barrier m =
    release_waiting barrier (rejected barrier_failed) (tell barrier dispose m)

-- Another active barrier is disposed of first.
abbrev pub replace_barrier : ℕ → Option (ℕ × String) → ProxyManager → ProxyManager
replace_barrier barrier none m = m
replace_barrier barrier (some (active, owner)) m =
    if active == barrier then m else dispose_barrier active m

unfoldable pub set_active_launch_barrier : ℕ → String → ProxyManager → ProxyManager
set_active_launch_barrier barrier request_id m =
    record (replace_barrier barrier m.active_launch_barrier m) {
      active_launch_barrier = some (barrier, request_id);
    }

abbrev pub drop_barrier : ℕ → ProxyManager → ProxyManager
drop_barrier active m = record (dispose_barrier active m) { active_launch_barrier = none }

abbrev pub clear_barrier : Option ℕ → Option (ℕ × String) → ProxyManager → ProxyManager
clear_barrier wanted none m = m
clear_barrier none (some (active, owner)) m = drop_barrier active m
clear_barrier (some barrier) (some (active, owner)) m =
    if active == barrier then drop_barrier active m else m

-- Without a barrier given, whichever is active is cleared.
unfoldable pub clear_active_launch_barrier : Option ℕ → ProxyManager → ProxyManager
clear_active_launch_barrier wanted m = clear_barrier wanted m.active_launch_barrier m

-- Whether the active barrier stands for a request.
abbrev pub owns : Option (ℕ × String) → String → Bool
owns none request_id = false
owns (some (active, owner)) request_id = str_eq owner request_id

unfoldable pub clear_owned_barrier : String → ProxyManager → ProxyManager
clear_owned_barrier request_id m =
    if owns m.active_launch_barrier request_id then clear_active_launch_barrier none m else m

-- A request leaves the table, and the functional core's mirror of it.
unfoldable pub forget_request : String → ProxyManager → ProxyManager
forget_request request_id m = record m {
  pending_dap_requests = Dict.delete request_id m.pending_dap_requests;
  dap_state = on_mirror (λ state. remove_pending_request state request_id) m.dap_state;
}

abbrev pub clear_timeout : ℕ → ProxyManager → ProxyManager
clear_timeout timer m = record m { timers = Dict.delete timer m.timers }

-- The callback of a request's timer.
unfoldable pub on_request_timeout : String → Option PendingDapRequest → ProxyManager → ProxyManager
on_request_timeout request_id none m = m
on_request_timeout request_id (some pending) m =
    settle_request request_id (rejected (request_timeout pending.command))
      (clear_owned_barrier request_id (forget_request request_id m))

abbrev pub fire_as : ℕ → Option String → ProxyManager → ProxyManager
fire_as timer none m = m
fire_as timer (some request_id) m =
    on_request_timeout request_id (Dict.get request_id m.pending_dap_requests)
      (clear_timeout timer m)

-- The event loop runs a timer that is set, once.
unfoldable pub fire : ℕ → ProxyManager → ProxyManager
fire timer m = fire_as timer (Dict.get timer m.timers) m

-- The request's promise is made: it stands in the table with its timer, and in the mirror.
unfoldable pub enter_request : String → String → ℕ → ProxyManager → ProxyManager
enter_request request_id command now m =
    let pending : PendingDapRequest = record { command = command; timer = m.next_timer } in
    let mirrored : PendingRequest = record {
      request_id = request_id;
      command = command;
      seq = 0;
      timestamp = now;
    } in
    record m {
      timers = (m.next_timer, request_id) ∷ m.timers;
      next_timer = suc m.next_timer;
      pending_dap_requests = Dict.put request_id pending m.pending_dap_requests;
      dap_state = on_mirror (λ state. add_pending_request state mirrored) m.dap_state;
    }

-- `sendCommand` threw: the entry and its timer go, the mirror's entry stays.
unfoldable pub withdraw_request : String → ℕ → ProxyManager → ProxyManager
withdraw_request request_id timer m =
    let cleared = clear_timeout timer m in
    record cleared { pending_dap_requests = Dict.delete request_id cleared.pending_dap_requests }

-- What the adapter's `createLaunchBarrier` gives: no barrier, or a new one that does or does not
-- leave the wait to the response.
pub data Barrier : Type 0 where
  no_barrier : Barrier
  barrier_and_response : ℕ → Barrier
  barrier_only : ℕ → Barrier

abbrev pub arm_barrier : ℕ → String → ProxyManager → ProxyManager
arm_barrier barrier request_id m =
    tell barrier (request_sent request_id) (set_active_launch_barrier barrier request_id m)

abbrev pub arm : Barrier → String → ProxyManager → ProxyManager
arm no_barrier request_id m = m
arm (barrier_and_response barrier) request_id m = arm_barrier barrier request_id m
arm (barrier_only barrier) request_id m = arm_barrier barrier request_id m

-- A failed send clears the request's own barrier, if it has one.
abbrev pub disarm : Barrier → ProxyManager → ProxyManager
disarm no_barrier m = m
disarm (barrier_and_response barrier) m = clear_active_launch_barrier (some barrier) m
disarm (barrier_only barrier) m = clear_active_launch_barrier (some barrier) m

-- The promise of a request with a response; `sent` is whether `sendCommand` returned.
unfoldable pub request_response : Barrier → String → String → ℕ → Bool → ProxyManager → ProxyManager
request_response barrier request_id command now sent m =
    let entered = enter_request request_id command now m in
    if sent
    then entered
    else settle_request request_id (rejected not_sent)
        (disarm barrier (withdraw_request request_id m.next_timer entered))

-- A request that only waits for its barrier.
unfoldable pub request_barrier : ℕ → String → Bool → ProxyManager → ProxyManager
request_barrier barrier request_id sent m =
    if sent
    then record m { waiting = Dict.put request_id barrier m.waiting }
    else settle_request request_id (rejected not_sent)
        (clear_active_launch_barrier (some barrier) m)

abbrev pub request_by : Barrier → String → String → ℕ → Bool → ProxyManager → ProxyManager
request_by no_barrier request_id command now sent m =
    request_response no_barrier request_id command now sent m
request_by (barrier_and_response barrier) request_id command now sent m =
    request_response (barrier_and_response barrier) request_id command now sent m
request_by (barrier_only barrier) request_id command now sent m =
    request_barrier barrier request_id sent m

-- `sendDapRequest`; a call that is refused at once is given its id all the same.
unfoldable pub send_dap_request : Barrier → String → String → ℕ → Bool → ProxyManager → ProxyManager
send_dap_request barrier request_id command now sent m =
    if not m.proxy_process || not m.is_initialized
    then settle_request request_id (rejected not_initialized) m
    else request_by barrier request_id command now sent (arm barrier request_id m)

abbrev pub barrier_outcome : Bool → Outcome
barrier_outcome true = resolved (some (obj end))
barrier_outcome false = rejected barrier_failed

-- The requests that waited clear the barrier; with a response to come, none waits.
abbrev pub leave_wait : ℕ → List String → ProxyManager → ProxyManager
leave_wait barrier [] m = m
leave_wait barrier (id ∷ ids) m = clear_active_launch_barrier (some barrier) m

-- The barrier's promise settles.
unfoldable pub barrier_settles : ℕ → Bool → ProxyManager → ProxyManager
barrier_settles barrier opened m =
    leave_wait barrier (waiting_for barrier m.waiting)
      (release_waiting barrier (barrier_outcome opened) m)

-- Every entry of a table is rejected, and its timer is cleared.
unfoldable pub reject_all :
    (PendingDapRequest → Failure)
    → Dict String PendingDapRequest
    → List (String × Outcome)
    → List (String × Outcome)
reject_all why [] settlements = settlements
reject_all why ((id, pending) ∷ rest) settlements =
    (id, rejected (why pending)) ∷ reject_all why rest settlements

abbrev pub clear_timeouts : Dict String PendingDapRequest → Dict ℕ String → Dict ℕ String
clear_timeouts pending timers = Dict.delete_each (λ p. p.timer) pending timers

unfoldable pub reject_pending : (PendingDapRequest → Failure) → ProxyManager → ProxyManager
reject_pending why m = record m {
  pending_dap_requests = [];
  timers = clear_timeouts m.pending_dap_requests m.timers;
  settlements = reject_all why m.pending_dap_requests m.settlements;
}

abbrev pub clear_mirror : ProxyManager → ProxyManager
clear_mirror m = record m { dap_state = on_mirror clear_pending_requests m.dap_state }

abbrev pub cancel_pending : ProxyManager → ProxyManager
cancel_pending m = reject_pending (λ pending. cancelled pending.command) m

-- `cleanup()`; the adapter, the captured output and the texts of logs are left out.
unfoldable pub cleanup : ProxyManager → ProxyManager
cleanup m = record (clear_active_launch_barrier none (clear_mirror (cancel_pending m))) {
  proxy_process = false;
  is_initialized = false;
  adapter_configured = false;
  current_thread_id = none;
  session_id = none;
  exit_emitted = false;
}
