-- ===== src/Proxy/Manager/InitRetry/Tests.antt =====
-- The loop for workers that acknowledge late, exit, or stay silent.
use mcp_debugger.Base.{ℕ, zero, suc, ◌≤◌, ◌≡◌, refl, true, false}
use mcp_debugger.Proxy.Manager.InitRetry.{
  delivered, not_delivered, exited_already, Turn, acknowledged, gave_up, delay, wait_for_ack,
  attempt_once, run_turns, send_init_with_retry,
}
use mcp_debugger.Proxy.Manager.InitRetry.Tries.{IsEnded, send_init_with_retry-IsEnded}

abbrev silent : Turn
silent = record {
  send = delivered;
  ack_at_send = false;
  ack_in_wait = false;
  ack_in_backoff = false;
}

-- The first send throws, and the acknowledgement of the second comes during the backoff.
abbrev late : ℕ → Turn
late zero = record silent { send = not_delivered }
late (suc zero) = record silent { ack_in_backoff = true }
late n = silent

abbrev dying : ℕ → Turn
dying zero = silent
dying n = record silent { send = exited_already }

late_run :
    send_init_with_retry late
    ≡ (acknowledged, record { acked = true; attempts_made = 2; window_ms = 2500 })
unfolding send_init_with_retry run_turns attempt_once wait_for_ack delay
late_run = refl

dying_run :
    send_init_with_retry dying
    ≡ (gave_up true, record { acked = false; attempts_made = 2; window_ms = 1000 })
unfolding send_init_with_retry run_turns attempt_once wait_for_ack delay
dying_run = refl

silent_run :
    send_init_with_retry (λ n. silent)
    ≡ (gave_up false, record { acked = false; attempts_made = 6; window_ms = 39000 })
unfolding send_init_with_retry run_turns attempt_once wait_for_ack delay
silent_run = refl

send_init_with_retry-IsEnded_example :
    let (outcome, run) = send_init_with_retry late in
    IsEnded late outcome run × (run.window_ms ≤ 39000)
send_init_with_retry-IsEnded_example = send_init_with_retry-IsEnded late
