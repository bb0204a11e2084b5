-- ===== src/LaunchBarrier/Tests.antt =====
-- The barrier over a concrete launch.
use mcp_debugger.Base.{◌≡◌, refl, none, List, [], ◌∷◌, ◌++◌}
use mcp_debugger.LaunchBarrier.{
  Settlement, resolved, Event, proxy_status, dap_event, proxy_exit, timer_fires, default_timeout_ms,
  new_barrier, run,
}
use mcp_debugger.LaunchBarrier.Settled.{
  waiting, done, barrier_of, run_view, run-new_barrier, run-timeout_settles,
}

abbrev launch : List Event
launch =
    proxy_status "adapter_connected"
    ∷ dap_event "output"
    ∷ timer_fires 1
    ∷ proxy_exit none none
    ∷ []

launch_view : run_view launch (waiting 0) ≡ done resolved 1
launch_view = refl

run-new_barrier_example :
    run launch (new_barrier default_timeout_ms)
    ≡ barrier_of default_timeout_ms (run_view launch (waiting 0))
run-new_barrier_example = run-new_barrier default_timeout_ms launch

run-timeout_settles_example :
    (settlement : Settlement) × ((run
        (launch ++ timer_fires 0 ∷ [])
        (new_barrier default_timeout_ms)).settlements
      ≡ settlement ∷ [])
run-timeout_settles_example = run-timeout_settles default_timeout_ms launch []
