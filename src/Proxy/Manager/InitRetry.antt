-- ===== src/Proxy/Manager/InitRetry.antt =====
-- `sendInitWithRetry` of src/proxy/proxy-manager.ts: the init command is sent until the worker acknowledges
-- it. What comes of each attempt is given; a wait counts in full, though an acknowledgement ends it early.
pub mod Tries
mod Tests
use mcp_debugger.Base.{ℕ, zero, suc, ◌+◌, min, Bool, true, false, List, [], ◌∷◌, if◌then◌else◌, ltb}

-- `sendCommand` returned, threw, or threw after the worker had exited.
pub data Send : Type 0 where
  delivered not_delivered exited_already : Send

-- When an acknowledgement comes in an attempt.
pub record Turn : Type 0 where
  pub send : Send
  pub ack_at_send : Bool
  pub ack_in_wait : Bool
  pub ack_in_backoff : Bool

pub data InitOutcome : Type 0 where
  acknowledged : InitOutcome
  gave_up : (failed_fast : Bool) → InitOutcome

pub record InitRun : Type 0 where
  pub acked : Bool
  pub attempts_made : ℕ
  pub window_ms : ℕ

pub data Next : Type 0 where
  stops : InitOutcome → InitRun → Next
  goes_on : InitRun → Next

abbrev pub max_retries : ℕ
max_retries = 5

abbrev delays : List ℕ
delays = 500 ∷ 1000 ∷ 2000 ∷ 4000 ∷ 8000 ∷ []

abbrev pick : List ℕ → ℕ → ℕ
pick [] n = 0
pick (ms ∷ rest) zero = ms
pick (ms ∷ rest) (suc n) = pick rest n

unfoldable pub delay : ℕ → ℕ
delay attempt = pick delays (min attempt 4)

-- `waitForAck(ms)`: an acknowledgement that is latched ends it at once.
unfoldable pub wait_for_ack : Bool → ℕ → InitRun → InitRun
wait_for_ack arrives ms run =
    if run.acked then run else record run { acked = arrives; window_ms = run.window_ms + ms }

abbrev pub stop_if_acked : InitRun → Next
stop_if_acked run = if run.acked then stops acknowledged run else goes_on run

-- The last attempt has no backoff.
abbrev pub back_off : Bool → Turn → ℕ → InitRun → Next
back_off true turn ms run = stop_if_acked (wait_for_ack turn.ack_in_backoff ms run)
back_off false turn ms run = goes_on run

abbrev pub then_back_off : Bool → Turn → ℕ → Next → Next
then_back_off retries turn ms (stops outcome run) = stops outcome run
then_back_off retries turn ms (goes_on run) = back_off retries turn ms run

abbrev pub after_send : Send → Bool → Turn → ℕ → InitRun → Next
after_send delivered retries turn ms run =
    then_back_off retries turn ms (stop_if_acked (wait_for_ack turn.ack_in_wait ms run))
after_send not_delivered retries turn ms run = back_off retries turn ms run
after_send exited_already retries turn ms run = stops (gave_up true) run

-- One turn of the loop.
unfoldable pub attempt_once : Turn → InitRun → Next
attempt_once turn run =
    if run.acked
    then stops acknowledged run
    else after_send turn.send (ltb run.attempts_made max_retries) turn (delay run.attempts_made)
        (record run { attempts_made = run.attempts_made + 1; acked = turn.ack_at_send })

abbrev pub follow : (InitRun → InitOutcome × InitRun) → Next → InitOutcome × InitRun
follow next (stops outcome run) = (outcome, run)
follow next (goes_on run) = next run

unfoldable pub run_turns : ℕ → (ℕ → Turn) → InitRun → InitOutcome × InitRun
run_turns zero turns run = (gave_up false, run)
run_turns (suc left) turns run =
    follow (run_turns left turns) (attempt_once (turns run.attempts_made) run)

-- The loop runs for attempts 0 to `maxRetries`.
unfoldable pub send_init_with_retry : (ℕ → Turn) → InitOutcome × InitRun
send_init_with_retry turns =
    run_turns (max_retries + 1) turns (record { acked = false; attempts_made = 0; window_ms = 0 })
