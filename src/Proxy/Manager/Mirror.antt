-- ===== src/Proxy/Manager/Mirror.antt =====
-- A request that could not be sent, in the functional core's mirror of the pending requests.
pub mod Barriers
pub mod Responses
use mcp_debugger.Base.{
  ℕ, arith, Bool, ◌≡◌, refl, sym, ◌∙◌, ap, subst, String, true, false, Option, some, none, List,
  ◌∷◌, ◌==◌, string_eq, nat_eq, if-cases,
}
use mcp_debugger.Base.Dict
use mcp_debugger.Base.Dict.{Dict, get-put_self, get-delete_self}
use mcp_debugger.DapCore.State.{
  PendingRequest, DapSessionState, add_pending_request, remove_pending_request, get_pending_request,
}
use mcp_debugger.Proxy.Manager.{
  ProxyManager, PendingDapRequest, Barrier, fire_as, request_by, Outcome, no_barrier,
  barrier_and_response, barrier_only, rejected, not_sent, release_waiting, dispose_barrier,
  replace_barrier, set_active_launch_barrier, clear_barrier, clear_active_launch_barrier, owns,
  clear_owned_barrier, arm, disarm, settle_request, enter_request, withdraw_request, forget_request,
  on_request_timeout, fire, on_mirror, request_timeout, clear_timeout, request_response,
  request_barrier, send_dap_request,
}
use mcp_debugger.Proxy.Manager.Slots.{
  Slots, slots, slots-arm, slots-disarm, slots-clear_owned_barrier,
  slots-clear_active_launch_barrier,
}
use mcp_debugger.Proxy.Manager.Mirror.Barriers.{
  mirror-clear_active_launch_barrier, mirror-clear_owned_barrier, mirror-arm, mirror-disarm,
}
use mcp_debugger.Proxy.Manager.Mirror.Responses.{
  Mirrors, Gone, request_response-Gone, request_response-Mirrors, fire-Gone, fire-Mirrors,
}

abbrev pub Rejects : String → ProxyManager → Type 0
Rejects id m =
    (earlier : List (String × Outcome)) × (m.settlements ≡ (id, rejected not_sent) ∷ earlier)

-- What is left of a request that could not be sent: with a response to come, nothing in the table and
-- no timer, but its entry in the mirror, which its time-out would have removed, had it been sent; with
-- a barrier alone, the table, the timers and the mirror are as they were.
abbrev pub Leaves : Barrier → String → String → ℕ → ProxyManager → Type 0
Leaves (barrier_only barrier) id command now m =
    let after = send_dap_request (barrier_only barrier) id command now false m in
    (slots after ≡ slots m) × (after.dap_state ≡ m.dap_state)
Leaves barrier id command now m =
    let after = send_dap_request barrier id command now false m in
    let timed_out = fire m.next_timer (send_dap_request barrier id command now true m) in
    (Gone id m.next_timer after
      × Mirrors id (some (record { request_id = id; command = command; seq = 0; timestamp = now }))
          after)
    × (Gone id m.next_timer timed_out × Mirrors id none timed_out)

send_dap_request_running :
    (barrier : Barrier) (id command : String) (now : ℕ) (sent : Bool) (m : ProxyManager)
    → m.proxy_process ≡ true
    → m.is_initialized ≡ true
    → send_dap_request barrier id command now sent m
      ≡ request_by barrier id command now sent (arm barrier id m)
unfolding send_dap_request
send_dap_request_running b id command now sent m running initialized =
    rw (running, initialized) refl

-- The lemmas above, at a manager whose barrier is set.
module _ (b : Barrier) (id command : String) (now : ℕ) (m : ProxyManager) (state : DapSessionState)
    (mirrored : m.dap_state ≡ some state) where
  abbrev armed : ProxyManager
  armed = arm b id m

  armed_mirrored : armed.dap_state ≡ some state
  armed_mirrored = mirror-arm b id m ∙ mirrored

  same_timer : armed.next_timer ≡ m.next_timer
  same_timer = ap (λ (s : Slots). s.2) (slots-arm b id m)

  request_response-kept :
      let after = request_response b id command now false armed in
      Gone id m.next_timer after
      × Mirrors id
          (some (record { request_id = id; command = command; seq = 0; timestamp = now }))
          after
  request_response-kept = (
    subst (λ timer. Gone id timer (request_response b id command now false armed)) same_timer
        (request_response-Gone b id command now armed),
    request_response-Mirrors b id command now armed state armed_mirrored,
  )

  request_response-timed :
      let after = fire m.next_timer (request_response b id command now true armed) in
      Gone id m.next_timer after × Mirrors id none after
  unfolding request_response
  request_response-timed =
      subst
        (λ timer.
          let after = fire timer (enter_request id command now armed) in
          Gone id timer after × Mirrors id none after)
        same_timer
        (fire-Gone b id command now armed, fire-Mirrors b id command now armed state armed_mirrored)

request_by-Rejects :
    (b : Barrier) (id command : String) (now : ℕ) (m : ProxyManager)
    → Rejects id (request_by b id command now false m)
unfolding request_response request_barrier settle_request
request_by-Rejects no_barrier id command now m = (_, refl)
request_by-Rejects (barrier_and_response barrier) id command now m = (_, refl)
request_by-Rejects (barrier_only barrier) id command now m = (_, refl)

request_by-Leaves :
    (b : Barrier) (id command : String) (now : ℕ) (m : ProxyManager) (state : DapSessionState)
    → m.proxy_process ≡ true
    → m.is_initialized ≡ true
    → m.dap_state ≡ some state
    → Leaves b id command now m
unfolding request_barrier settle_request
request_by-Leaves no_barrier id command now m state running initialized mirrored =
    rw
      (
        send_dap_request_running no_barrier id command now false m running initialized,
        send_dap_request_running no_barrier id command now true m running initialized,
      )
      (
        request_response-kept no_barrier id command now m state mirrored,
        request_response-timed no_barrier id command now m state mirrored,
      )
request_by-Leaves (barrier_and_response barrier) id command now m state running initialized
      mirrored =
    let b = barrier_and_response barrier in
    rw
      (
        send_dap_request_running b id command now false m running initialized,
        send_dap_request_running b id command now true m running initialized,
      )
      (
        request_response-kept b id command now m state mirrored,
        request_response-timed b id command now m state mirrored,
      )
request_by-Leaves (barrier_only barrier) id command now m state running initialized mirrored =
    let b = barrier_only barrier in
    rw (send_dap_request_running b id command now false m running initialized) (
      slots-clear_active_launch_barrier (some barrier) (arm b id m) ∙ slots-arm b id m,
      mirror-clear_active_launch_barrier (some barrier) (arm b id m) ∙ mirror-arm b id m,
    )

-- When a running, initialized proxy with a mirror cannot send a request, whatever its launch barrier,
-- its promise is rejected for that. If the request waits for a response, then neither it nor its timer
-- stands in the manager's tables any more, but the functional core's mirror keeps its entry, while a
-- request that was sent and times out leaves the mirror too. If it waits for its barrier alone, the
-- tables, the timers and the mirror are as before.
pub send_dap_request-Leaves :
    (b : Barrier) (id command : String) (now : ℕ) (m : ProxyManager) (state : DapSessionState)
    → m.proxy_process ≡ true
    → m.is_initialized ≡ true
    → m.dap_state ≡ some state
    → Rejects id (send_dap_request b id command now false m) × Leaves b id command now m
send_dap_request-Leaves b id command now m state running initialized mirrored = (
  subst (Rejects id) (sym (send_dap_request_running b id command now false m running initialized))
      (request_by-Rejects b id command now (arm b id m)),
  request_by-Leaves b id command now m state running initialized mirrored,
)
