-- ===== src/Proxy/Manager/InitRetry/Tries.antt =====
-- How often the init command is sent, for how long, and that no acknowledgement is passed over.
use mcp_debugger.Base.{
  ℕ, zero, suc, ◌+◌, ◌≤◌, ◌<◌, ◌≡◌, ◌≢◌, refl, subst, sym, ap, Bool, true, false, ◌&&◌, ◌||◌, ◌⊎◌,
  if◌then◌else◌, ltb, arith, Bool-cases, inl, inr,
}
use mcp_debugger.Proxy.Manager.InitRetry.{
  Send, delivered, not_delivered, exited_already, Turn, InitOutcome, acknowledged, gave_up, InitRun,
  Next, stops, goes_on, max_retries, delay, wait_for_ack, after_send, attempt_once, follow,
  run_turns, send_init_with_retry,
}

-- Whether an attempt waits at a time when its acknowledgement comes or has come.
abbrev heard_by : Send → Bool → Turn → Bool
heard_by delivered retries turn =
    turn.ack_at_send || (turn.ack_in_wait || (retries && turn.ack_in_backoff))
heard_by not_delivered retries turn = retries && (turn.ack_at_send || turn.ack_in_backoff)
heard_by exited_already retries turn = false

abbrev pub hears : (ℕ → Turn) → ℕ → Bool
hears turns n = heard_by (turns n).send (ltb n max_retries) (turns n)

-- An attempt that hears nothing, of a worker that is not known to have exited.
abbrev pub IsVain : (ℕ → Turn) → ℕ → Type 0
IsVain turns n = (hears turns n ≡ false) × ((turns n).send ≢ exited_already)

-- How the last of so many attempts ended the loop.
abbrev pub EndsWith : InitOutcome → (ℕ → Turn) → ℕ → Type 0
EndsWith acknowledged turns made = (n : ℕ) × (made ≡ n + 1) × (hears turns n ≡ true)
EndsWith (gave_up true) turns made = (n : ℕ) × (made ≡ n + 1) × ((turns n).send ≡ exited_already)
EndsWith (gave_up false) turns made = (made ≡ max_retries + 1) × IsVain turns max_retries

abbrev cost : ℕ → ℕ
cost n = delay n + (if ltb n max_retries then delay n else 0)

abbrev pub budget : ℕ → ℕ
budget zero = 0
budget (suc n) = budget n + cost n

budget_next : (n : ℕ) → budget (n + 1) ≡ budget n + cost n
budget_next n = let next : n + 1 ≡ suc n = omega arith in ap budget next

-- What one turn leads to, by what it hears and what comes of its send.
abbrev Turned : Bool → Send → Bool → ℕ → ℕ → Next → Type 0
Turned heard send retries made limit (stops acknowledged run) =
    (heard ≡ true) × (run.attempts_made ≡ made) × (run.window_ms ≤ limit)
Turned heard send retries made limit (stops (gave_up true) run) =
    (send ≡ exited_already) × (run.attempts_made ≡ made) × (run.window_ms ≤ limit)
Turned heard send retries made limit (stops (gave_up false) run) = true ≡ false
Turned heard send retries made limit (goes_on run) =
    (heard ≡ false)
    × (send ≢ exited_already)
    × (run.attempts_made ≡ made)
    × (run.window_ms ≤ limit)
    × ((run.acked ≡ false) ⊎ (retries ≡ false))

after_send-Turned :
    (send : Send) (retries at_send in_wait in_backoff : Bool) (ms made w : ℕ)
    → let turn : Turn = record {
      send = send;
      ack_at_send = at_send;
      ack_in_wait = in_wait;
      ack_in_backoff = in_backoff;
    } in
      Turned
        (heard_by send retries turn)
        send
        retries
        made
        (w + (ms + (if retries then ms else 0)))
        (after_send send retries turn ms
          (record { acked = at_send; attempts_made = made; window_ms = w }))
unfolding wait_for_ack
after_send-Turned exited_already retries a b c ms made w = (refl, refl, omega arith)
after_send-Turned not_delivered true true b c ms made w = (refl, refl, omega arith)
after_send-Turned not_delivered true false b true ms made w = (refl, refl, omega arith)
after_send-Turned not_delivered true false b false ms made w =
    (refl, (λ e. cc), refl, omega arith, inl refl)
after_send-Turned not_delivered false a b c ms made w =
    (refl, (λ e. cc), refl, omega arith, inr refl)
after_send-Turned delivered retries true b c ms made w = (refl, refl, omega arith)
after_send-Turned delivered retries false true c ms made w = (refl, refl, omega arith)
after_send-Turned delivered true false false true ms made w = (refl, refl, omega arith)
after_send-Turned delivered true false false false ms made w =
    (refl, (λ e. cc), refl, omega arith, inl refl)
after_send-Turned delivered false false false c ms made w =
    (refl, (λ e. cc), refl, omega arith, inr refl)

attempt_once-Turned :
    (turns : ℕ → Turn) (n w : ℕ)
    → Turned
        (hears turns n)
        (turns n).send
        (ltb n max_retries)
        (n + 1)
        (w + cost n)
        (attempt_once (turns n) (record { acked = false; attempts_made = n; window_ms = w }))
unfolding attempt_once
attempt_once-Turned turns n w =
    let t = turns n in
    after_send-Turned t.send (ltb n max_retries) t.ack_at_send t.ack_in_wait t.ack_in_backoff
      (delay n) (n + 1) w

-- How the loop ends, and what came before.
pub record IsEnded (turns : ℕ → Turn) (outcome : InitOutcome) (run : InitRun) : Type 0 where
  pub last : EndsWith outcome turns run.attempts_made
  pub earlier : (i : ℕ) → i + 1 < run.attempts_made → IsVain turns i
  pub few : run.attempts_made ≤ max_retries + 1
  pub in_time : run.window_ms ≤ budget run.attempts_made

abbrev Ended : (ℕ → Turn) → InitOutcome × InitRun → Type 0
Ended turns result = IsEnded turns result.0 result.1

IsVain-suc :
    (turns : ℕ → Turn) (n : ℕ)
    → ((i : ℕ) → i < n → IsVain turns i)
    → IsVain turns n
    → (i : ℕ) → i < n + 1
    → IsVain turns i
IsVain-suc turns n quiet vain i below = elim (Bool-cases (ltb i n)) [
  | inl e ↦ quiet i (ground (arith, e))
  | inr e ↦ let same : n ≡ i = ground (arith, e, below) in subst (IsVain turns) same vain
]

module _ (turns : ℕ → Turn) where
  -- A turn that ends the loop.
  stops-Ended :
      (n w : ℕ) (outcome : InitOutcome) (run : InitRun)
      → n < max_retries + 1
      → w ≤ budget n
      → ((i : ℕ) → i < n → IsVain turns i)
      → Turned
          (hears turns n)
          (turns n).send
          (ltb n max_retries)
          (n + 1)
          (w + cost n)
          (stops outcome run)
      → Ended turns (outcome, run)
  stops-Ended n w acknowledged run below within quiet (heard, made, time) = record {
    last = (n, made, heard);
    earlier = λ i h. quiet i (omega (arith, h, made));
    few = omega (arith, made, below);
    in_time =
        subst (λ k. run.window_ms ≤ budget k) (sym made)
          (omega (arith, time, within, budget_next n));
  }
  stops-Ended n w (gave_up true) run below within quiet (exited, made, time) = record {
    last = (n, made, exited);
    earlier = λ i h. quiet i (omega (arith, h, made));
    few = omega (arith, made, below);
    in_time =
        subst (λ k. run.window_ms ≤ budget k) (sym made)
          (omega (arith, time, within, budget_next n));
  }
  stops-Ended n w (gave_up false) run below within quiet never = absurd cc

  follow-Ended :
      (left n w : ℕ) (next : Next)
      → n + suc left ≡ max_retries + 1
      → w ≤ budget n
      → ((i : ℕ) → i < n → IsVain turns i)
      → ((k v : ℕ) (acked : Bool)
          → k + left ≡ max_retries + 1
          → (acked ≡ false) ⊎ (left ≡ 0)
          → v ≤ budget k
          → ((i : ℕ) → i < k → IsVain turns i)
          → Ended turns
              (run_turns left turns (record { acked = acked; attempts_made = k; window_ms = v })))
      → Turned (hears turns n) (turns n).send (ltb n max_retries) (n + 1) (w + cost n) next
      → Ended turns (follow (run_turns left turns) next)
  follow-Ended left n w (stops outcome run) count within quiet again turned =
      stops-Ended n w outcome run (omega (arith, count)) within quiet turned
  follow-Ended left n w (goes_on run) count within quiet again (silent, alive, made, time, latch) =
      again run.attempts_made run.window_ms run.acked (omega (arith, made, count))
        (ground (arith, latch, count))
        (subst (λ k. run.window_ms ≤ budget k) (sym made)
          (omega (arith, time, within, budget_next n)))
        (λ i h. IsVain-suc turns n quiet (silent, alive) i (omega (arith, h, made)))

  turns-Ended :
      (left n w : ℕ) (acked : Bool)
      → n + left ≡ max_retries + 1
      → (acked ≡ false) ⊎ (left ≡ 0)
      → w ≤ budget n
      → ((i : ℕ) → i < n → IsVain turns i)
      → Ended turns
          (run_turns left turns (record { acked = acked; attempts_made = n; window_ms = w }))
  unfolding run_turns
  turns-Ended zero n w acked count fresh within quiet = record {
    last = (omega (arith, count), quiet max_retries (omega (arith, count)));
    earlier = λ i h. quiet i (omega (arith, h));
    few = omega (arith, count);
    in_time = within;
  }
  turns-Ended (suc left) n w true count fresh within quiet = absurd (ground (arith, fresh))
  turns-Ended (suc left) n w false count fresh within quiet =
      let run : InitRun = record { acked = false; attempts_made = n; window_ms = w } in
      follow-Ended left n w (attempt_once (turns n) run) count within quiet
        (λ k v acked. turns-Ended left k v acked) (attempt_once-Turned turns n w)

budget_le : (n : ℕ) → n ≤ max_retries + 1 → budget n ≤ 39000
unfolding delay
budget_le zero few = omega arith
budget_le (suc zero) few = omega arith
budget_le (suc (suc zero)) few = omega arith
budget_le (suc (suc (suc zero))) few = omega arith
budget_le (suc (suc (suc (suc zero)))) few = omega arith
budget_le (suc (suc (suc (suc (suc zero))))) few = omega arith
budget_le (suc (suc (suc (suc (suc (suc zero)))))) few = omega arith
budget_le (suc (suc (suc (suc (suc (suc (suc n))))))) few = absurd (omega (arith, few))

-- Whatever comes of its attempts, the loop makes six at most and waits for 39 seconds at most. It ends
-- as acknowledged in the first attempt that hears an acknowledgement, and as failed at once in the
-- first whose send throws after the worker has exited, whichever comes first; it fails for want of an
-- acknowledgement only after six attempts that did neither.
pub send_init_with_retry-IsEnded :
    (turns : ℕ → Turn)
    → let (outcome, run) = send_init_with_retry turns in
      IsEnded turns outcome run × (run.window_ms ≤ 39000)
unfolding send_init_with_retry
send_init_with_retry-IsEnded turns =
    let ended =
      turns-Ended turns (max_retries + 1) 0 0 false refl (inl refl) (omega arith)
        (λ i h. absurd (omega (arith, h))) in
    (ended, omega (arith, ended.in_time, budget_le _ ended.few))
