-- ===== src/LaunchBarrier.antt =====
-- packages/adapter-javascript/src/utils/js-debug-launch-barrier.ts: what the launch of a js-debug
-- session waits for. The event loop's timers are part of the state: a timer that is set and not
-- cleared can fire. `settlements` are the calls of the promise's resolve and reject, in order.
pub mod Settled
pub mod Tests
use mcp_debugger.Base.{
  ℕ, suc, Bool, true, false, not, ◌||◌, Option, none, some, List, [], ◌∷◌, ◌++◌, if◌then◌else◌,
  String, str_eq, nat_eq,
}
use mcp_debugger.Base.Int.{ℤ}
use mcp_debugger.Base.Dict
use mcp_debugger.Base.Dict.{Dict}

pub data BarrierError : Type 0 where
  proxy_exited : (code : Option ℤ) (signal : Option String) → BarrierError
  disposed : BarrierError

pub data Settlement : Type 0 where
  resolved : Settlement
  rejected : BarrierError → Settlement

-- A handle is the number of its timer; `timers` has the delays of those that can fire.
pub record JsDebugLaunchBarrier : Type 0 where
  pub timeout_handle : Option ℕ
  pub adapter_connected_handle : Option ℕ
  pub settled : Bool
  pub timers : Dict ℕ ℕ
  pub next_timer : ℕ
  pub settlements : List Settlement

abbrev pub default_timeout_ms : ℕ
default_timeout_ms = 5000

abbrev pub adapter_connected_delay_ms : ℕ
adapter_connected_delay_ms = 500

unfoldable pub new_barrier : ℕ → JsDebugLaunchBarrier
new_barrier timeout_ms = record {
  timeout_handle = some 0;
  adapter_connected_handle = none;
  settled = false;
  timers = (0, timeout_ms) ∷ [];
  next_timer = 1;
  settlements = [];
}

-- `clearTimeout(handle)`, where there is a handle.
abbrev pub clear_handle : Option ℕ → Dict ℕ ℕ → Dict ℕ ℕ
clear_handle none timers = timers
clear_handle (some handle) timers = Dict.delete handle timers

unfoldable pub settle : Settlement → JsDebugLaunchBarrier → JsDebugLaunchBarrier
settle settlement b = record b { settled = true; settlements = b.settlements ++ settlement ∷ [] }

unfoldable pub clear_timers : JsDebugLaunchBarrier → JsDebugLaunchBarrier
clear_timers b = record b {
  timeout_handle = none;
  adapter_connected_handle = none;
  timers = clear_handle b.adapter_connected_handle (clear_handle b.timeout_handle b.timers);
}

unfoldable pub dispose : JsDebugLaunchBarrier → JsDebugLaunchBarrier
unfolding clear_timers settle
dispose b =
    let cleared = clear_timers b in
    if cleared.settled then cleared else settle (rejected disposed) cleared

-- `resolveBarrier` and `rejectBarrier`.
unfoldable pub settle_barrier : Settlement → JsDebugLaunchBarrier → JsDebugLaunchBarrier
unfolding dispose
settle_barrier settlement b =
    if b.settled
    then b
    else let disposed_barrier = dispose (record b { settled = true }) in
      record disposed_barrier { settlements = disposed_barrier.settlements ++ settlement ∷ [] }

unfoldable pub on_proxy_status : String → JsDebugLaunchBarrier → JsDebugLaunchBarrier
on_proxy_status status b =
    if b.settled || not (str_eq status "adapter_connected") then b else record b {
      adapter_connected_handle = some b.next_timer;
      timers =
          (b.next_timer, adapter_connected_delay_ms)
          ∷ clear_handle b.adapter_connected_handle b.timers;
      next_timer = suc b.next_timer;
    }

unfoldable pub on_dap_event : String → JsDebugLaunchBarrier → JsDebugLaunchBarrier
unfolding settle_barrier
on_dap_event event b =
    if b.settled
    then b
    else if str_eq event "stopped"
    then settle_barrier resolved b
    else if str_eq event "terminated" || str_eq event "exited"
    then settle_barrier resolved b
    else b

unfoldable pub on_proxy_exit :
    Option ℤ → Option String → JsDebugLaunchBarrier → JsDebugLaunchBarrier
unfolding settle_barrier
on_proxy_exit code signal b =
    if b.settled then b else settle_barrier (rejected (proxy_exited code signal)) b

-- The two callbacks do the same: nothing once settled, else resolve.
unfoldable pub timer_callback : JsDebugLaunchBarrier → JsDebugLaunchBarrier
unfolding settle_barrier
timer_callback b = if b.settled then b else settle_barrier resolved b

-- The event loop runs a timer that is set, and forgets it.
unfoldable pub run_timer : ℕ → JsDebugLaunchBarrier → JsDebugLaunchBarrier
unfolding timer_callback
run_timer timer b =
    if Dict.has timer b.timers
    then timer_callback (record b { timers = Dict.delete timer b.timers })
    else b

pub data Event : Type 0 where
  proxy_status : String → Event
  dap_event : String → Event
  proxy_exit : Option ℤ → Option String → Event
  timer_fires : ℕ → Event
  dispose_called : Event

unfoldable pub step : Event → JsDebugLaunchBarrier → JsDebugLaunchBarrier
unfolding on_proxy_status on_dap_event on_proxy_exit run_timer dispose
step (proxy_status status) b = on_proxy_status status b
step (dap_event event) b = on_dap_event event b
step (proxy_exit code signal) b = on_proxy_exit code signal b
step (timer_fires timer) b = run_timer timer b
step dispose_called b = dispose b

unfoldable pub run : List Event → JsDebugLaunchBarrier → JsDebugLaunchBarrier
unfolding step
run [] b = b
run (e ∷ es) b = run es (step e b)
