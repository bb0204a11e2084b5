-- ===== src/Proxy/RequestTracker.antt =====
-- src/proxy/dap-proxy-request-tracker.ts: pending requests and their time-outs. The event loop's
-- timers are part of the state: `setTimeout` enters one under a fresh number, `clearTimeout` takes
-- it out, and only a timer that is still there can fire. `reports` tells the class with a time-out
-- callback from its base class; the calls of the callback are recorded in `reported`.
pub mod Linked
pub mod Timeouts
pub mod Tests
use mcp_debugger.Base.{
  ℕ, suc, ◌+◌, ◌-◌, String, Bool, Option, none, some, List, [], ◌∷◌, ◌++◌, if◌then◌else◌, length,
  leb, nat_eq, string_eq,
}
use mcp_debugger.Base.Int.{ℤ, pos, negsuc}
use mcp_debugger.Base.Dict
use mcp_debugger.Base.Dict.{Dict}

pub record TrackedRequest : Type 0 where
  pub request_id : String
  pub command : String
  pub timer : ℕ
  pub timestamp : ℕ

-- What the closure handed to `setTimeout` holds.
pub record Timer : Type 0 where
  pub request_id : String
  pub command : String
  pub timeout : ℕ

pub record RequestTracker : Type 0 where
  pub pending_requests : Dict String TrackedRequest
  pub default_timeout_ms : ℕ
  pub timers : Dict ℕ Timer
  pub next_timer : ℕ
  pub reports : Bool
  pub reported : List Timer

abbrev pub default_timeout : ℕ
default_timeout = 30000

unfoldable pub new_tracker : Bool → ℕ → RequestTracker
new_tracker reports default_timeout_ms = record {
  pending_requests = [];
  default_timeout_ms = default_timeout_ms;
  timers = [];
  next_timer = 0;
  reports = reports;
  reported = [];
}

abbrev clear_timeout : RequestTracker → ℕ → RequestTracker
clear_timeout s timer = record s { timers = Dict.delete timer s.timers }

abbrev drop_request : RequestTracker → String → RequestTracker
drop_request s request_id = record s {
  pending_requests = Dict.delete request_id s.pending_requests;
}

unfoldable pub complete : RequestTracker → String → RequestTracker
complete s request_id = elim (Dict.get request_id s.pending_requests) [
  | none ↦ s
  | some request ↦ drop_request (clear_timeout s request.timer) request_id
]

abbrev given_or : Option ℕ → ℕ → ℕ
given_or none default = default
given_or (some timeout) default = timeout

-- `now` is the clock's reading.
unfoldable pub track : RequestTracker → String → String → Option ℕ → ℕ → RequestTracker
track s request_id command timeout_ms now =
    let cleared = complete s request_id in
    let timer : Timer = record {
      request_id = request_id;
      command = command;
      timeout = given_or timeout_ms cleared.default_timeout_ms;
    } in
    let request : TrackedRequest = record {
      request_id = request_id;
      command = command;
      timer = cleared.next_timer;
      timestamp = now;
    } in
    record cleared {
      timers = Dict.put cleared.next_timer timer cleared.timers;
      next_timer = cleared.next_timer + 1;
      pending_requests = Dict.put request_id request cleared.pending_requests;
    }

-- The closure: it looks its request up again, and the callback is called if it is there.
unfoldable pub on_timer : RequestTracker → Timer → RequestTracker
on_timer s timer = elim (Dict.get timer.request_id s.pending_requests) [
  | none ↦ s
  | some request ↦ record (drop_request s timer.request_id) {
    reported = if s.reports then s.reported ++ timer ∷ [] else s.reported;
  }
]

-- The event loop fires a timer: it runs once, if it was not cleared.
unfoldable pub fire : RequestTracker → ℕ → RequestTracker
fire s i = elim (Dict.get i s.timers) [ none ↦ s | some timer ↦ on_timer (clear_timeout s i) timer ]

unfoldable pub clear_all : Dict String TrackedRequest → Dict ℕ Timer → Dict ℕ Timer
clear_all [] timers = timers
clear_all ((id, request) ∷ rest) timers = clear_all rest (Dict.delete request.timer timers)

unfoldable pub clear : RequestTracker → RequestTracker
unfolding clear_all
clear s = record s { timers = clear_all s.pending_requests s.timers; pending_requests = [] }

unfoldable pub get_pending_count : RequestTracker → ℕ
get_pending_count s = length s.pending_requests

unfoldable pub is_pending : RequestTracker → String → Bool
is_pending s request_id = Dict.has request_id s.pending_requests

unfoldable pub get_pending : RequestTracker → Dict String TrackedRequest
get_pending s = s.pending_requests

-- `Date.now() - timestamp`, which is negative if the clock was set back.
abbrev since : ℕ → ℕ → ℤ
since now timestamp =
    if leb timestamp now then pos (now - timestamp) else negsuc (timestamp - now - 1)

unfoldable pub get_elapsed_time : RequestTracker → String → ℕ → Option ℤ
get_elapsed_time s request_id now = elim (Dict.get request_id s.pending_requests) [
  | none ↦ none
  | some request ↦ some (since now request.timestamp)
]

pub data Action : Type 0 where
  track_request : (request_id command : String) (timeout_ms : Option ℕ) (now : ℕ) → Action
  complete_request : String → Action
  fire_timer : ℕ → Action
  clear_requests : Action

unfoldable pub step : RequestTracker → Action → RequestTracker
step s (track_request request_id command timeout_ms now) = track s request_id command timeout_ms now
step s (complete_request request_id) = complete s request_id
step s (fire_timer i) = fire s i
step s clear_requests = clear s

unfoldable pub run : RequestTracker → List Action → RequestTracker
run s [] = s
run s (a ∷ actions) = run (step s a) actions
