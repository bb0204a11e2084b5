-- ===== src/LaunchBarrier/Settled.antt =====
-- The barrier as a machine with two states: waiting, and settled for good.
use mcp_debugger.Base.{
  ℕ, zero, suc, ◌≡◌, refl, ap, ◌∙◌, Bool, true, false, ◌||◌, ◌==◌, Option, none, some, List, [],
  ◌∷◌, ◌++◌, if◌then◌else◌, String, str_eq, nat_eq, arith,
}
use mcp_debugger.Base.Dict
use mcp_debugger.Base.Int.{ℤ}
use mcp_debugger.LaunchBarrier.{
  proxy_exited, disposed, Settlement, resolved, rejected, JsDebugLaunchBarrier, new_barrier,
  adapter_connected_delay_ms, dispose, settle_barrier, on_proxy_status, on_dap_event, on_proxy_exit,
  timer_callback, run_timer, Event, proxy_status, dap_event, proxy_exit, timer_fires,
  dispose_called, step, run,
}

-- How often the adapter connected, and, once settled, how.
pub data View : Type 0 where
  waiting : (connections : ℕ) → View
  done : Settlement → (connections : ℕ) → View

-- The event that settles a barrier, and how.
abbrev pub settles : ℕ → Event → Option Settlement
settles connections (proxy_status status) = none
settles connections (dap_event event) =
    if str_eq event "stopped" || (str_eq event "terminated" || str_eq event "exited")
    then some resolved
    else none
settles connections (proxy_exit code signal) = some (rejected (proxy_exited code signal))
settles connections (timer_fires timer) =
    if timer == 0 || timer == connections then some resolved else none
settles connections dispose_called = some (rejected disposed)

abbrev pub connects : Event → Bool
connects (proxy_status status) = str_eq status "adapter_connected"
connects e = false

abbrev next_view : ℕ → Option Settlement → Bool → View
next_view connections (some settlement) connected = done settlement connections
next_view connections none connected = waiting (if connected then suc connections else connections)

abbrev pub view_step : Event → View → View
view_step e (waiting connections) = next_view connections (settles connections e) (connects e)
view_step e (done settlement connections) = done settlement connections

abbrev pub run_view : List Event → View → View
run_view [] v = v
run_view (e ∷ es) v = run_view es (view_step e v)

-- The fields of a barrier: while it waits, the time-out's timer and the latest connection's are
-- set; once settled, no timer is, and one call was made.
abbrev pub barrier_of : ℕ → View → JsDebugLaunchBarrier
barrier_of timeout_ms (waiting zero) = record {
  timeout_handle = some 0;
  adapter_connected_handle = none;
  settled = false;
  timers = (0, timeout_ms) ∷ [];
  next_timer = 1;
  settlements = [];
}
barrier_of timeout_ms (waiting (suc n)) = record {
  timeout_handle = some 0;
  adapter_connected_handle = some (suc n);
  settled = false;
  timers = (suc n, adapter_connected_delay_ms) ∷ (0, timeout_ms) ∷ [];
  next_timer = suc (suc n);
  settlements = [];
}
barrier_of timeout_ms (done settlement connections) = record {
  timeout_handle = none;
  adapter_connected_handle = none;
  settled = true;
  timers = [];
  next_timer = suc connections;
  settlements = settlement ∷ [];
}

settle_barrier-waiting :
    (timeout_ms connections : ℕ) (settlement : Settlement)
    → settle_barrier settlement (barrier_of timeout_ms (waiting connections))
      ≡ barrier_of timeout_ms (done settlement connections)
unfolding settle_barrier Dict.delete
settle_barrier-waiting timeout_ms zero settlement = ground arith
settle_barrier-waiting timeout_ms (suc n) settlement = ground arith

step-settled :
    (timeout_ms connections : ℕ) (settlement : Settlement) (e : Event)
    → step e (barrier_of timeout_ms (done settlement connections))
      ≡ barrier_of timeout_ms (done settlement connections)
unfolding step Dict.has
step-settled timeout_ms connections settlement (proxy_status status) = refl
step-settled timeout_ms connections settlement (dap_event event) = refl
step-settled timeout_ms connections settlement (proxy_exit code signal) = refl
step-settled timeout_ms connections settlement (timer_fires timer) = refl
step-settled timeout_ms connections settlement dispose_called = refl

on_proxy_status-waiting :
    (timeout_ms connections : ℕ) (status : String)
    → on_proxy_status status (barrier_of timeout_ms (waiting connections))
      ≡ barrier_of timeout_ms (view_step (proxy_status status) (waiting connections))
unfolding on_proxy_status Dict.delete
on_proxy_status-waiting timeout_ms zero status = ground arith
on_proxy_status-waiting timeout_ms (suc n) status = ground arith

on_dap_event-waiting :
    (timeout_ms connections : ℕ) (event : String)
    → on_dap_event event (barrier_of timeout_ms (waiting connections))
      ≡ barrier_of timeout_ms (view_step (dap_event event) (waiting connections))
unfolding on_dap_event settle_barrier Dict.delete
on_dap_event-waiting timeout_ms zero event = ground arith
on_dap_event-waiting timeout_ms (suc n) event = ground arith

on_proxy_exit-waiting :
    (timeout_ms connections : ℕ) (code : Option ℤ) (signal : Option String)
    → on_proxy_exit code signal (barrier_of timeout_ms (waiting connections))
      ≡ barrier_of timeout_ms (view_step (proxy_exit code signal) (waiting connections))
unfolding on_proxy_exit settle_barrier Dict.delete
on_proxy_exit-waiting timeout_ms zero code signal = ground arith
on_proxy_exit-waiting timeout_ms (suc n) code signal = ground arith

run_timer-waiting :
    (timeout_ms connections timer : ℕ)
    → run_timer timer (barrier_of timeout_ms (waiting connections))
      ≡ barrier_of timeout_ms (view_step (timer_fires timer) (waiting connections))
unfolding run_timer timer_callback settle_barrier Dict.delete Dict.has
run_timer-waiting timeout_ms zero timer = ground arith
run_timer-waiting timeout_ms (suc n) timer = ground arith

dispose-waiting :
    (timeout_ms connections : ℕ)
    → dispose (barrier_of timeout_ms (waiting connections))
      ≡ barrier_of timeout_ms (view_step dispose_called (waiting connections))
unfolding dispose Dict.delete
dispose-waiting timeout_ms zero = ground arith
dispose-waiting timeout_ms (suc n) = ground arith

step-barrier_of :
    (timeout_ms : ℕ) (v : View) (e : Event)
    → step e (barrier_of timeout_ms v) ≡ barrier_of timeout_ms (view_step e v)
unfolding step
step-barrier_of timeout_ms (done settlement n) e = step-settled timeout_ms n settlement e
step-barrier_of timeout_ms (waiting n) (proxy_status status) =
    on_proxy_status-waiting timeout_ms n status
step-barrier_of timeout_ms (waiting n) (dap_event event) = on_dap_event-waiting timeout_ms n event
step-barrier_of timeout_ms (waiting n) (proxy_exit code signal) =
    on_proxy_exit-waiting timeout_ms n code signal
step-barrier_of timeout_ms (waiting n) (timer_fires timer) = run_timer-waiting timeout_ms n timer
step-barrier_of timeout_ms (waiting n) dispose_called = dispose-waiting timeout_ms n

run-barrier_of :
    (timeout_ms : ℕ) (es : List Event) (v : View)
    → run es (barrier_of timeout_ms v) ≡ barrier_of timeout_ms (run_view es v)
unfolding run
run-barrier_of timeout_ms [] v = refl
run-barrier_of timeout_ms (e ∷ es) v =
    ap (run es) (step-barrier_of timeout_ms v e) ∙ run-barrier_of timeout_ms es (view_step e v)

-- After any events a new barrier has the fields of the machine with two states: while it waits it
-- has made no call, and the time-out's timer and that of the latest connection are set; the first
-- event that settles it makes the one call there is and leaves no timer, and later events do nothing.
pub run-new_barrier :
    (timeout_ms : ℕ) (es : List Event)
    → run es (new_barrier timeout_ms) ≡ barrier_of timeout_ms (run_view es (waiting 0))
unfolding new_barrier
run-new_barrier timeout_ms es = run-barrier_of timeout_ms es (waiting 0)

run_view-done :
    (es : List Event) (settlement : Settlement) (n : ℕ)
    → run_view es (done settlement n) ≡ done settlement n
run_view-done [] settlement n = refl
run_view-done (e ∷ es) settlement n = run_view-done es settlement n

abbrev IsDone : View → Type 0
IsDone v = (settlement : Settlement) × ((n : ℕ) × (v ≡ done settlement n))

run_view-IsDone :
    (es later : List Event) (v : View) → IsDone (run_view (es ++ timer_fires 0 ∷ later) v)
run_view-IsDone [] later (waiting n) = (resolved, (n, run_view-done later resolved n))
run_view-IsDone [] later (done settlement n) = (settlement, (n, run_view-done later settlement n))
run_view-IsDone (e ∷ es) later v = run_view-IsDone es later (view_step e v)

-- Whatever came before, a barrier is settled once its time-out's timer had its turn, and has made
-- exactly one call.
pub run-timeout_settles :
    (timeout_ms : ℕ) (es later : List Event)
    → (settlement : Settlement) × ((run
          (es ++ timer_fires 0 ∷ later)
          (new_barrier timeout_ms)).settlements
        ≡ settlement ∷ [])
run-timeout_settles timeout_ms es later =
    let (settlement, (n, e)) = run_view-IsDone es later (waiting 0) in
    (
      settlement,
      ap (λ b. b.settlements)
          (run-new_barrier timeout_ms (es ++ timer_fires 0 ∷ later) ∙ ap (barrier_of timeout_ms) e),
    )
