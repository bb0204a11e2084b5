-- ===== src/Proxy/Manager/Mirror/Responses.antt =====
-- A request that waits for a response: what a failed send leaves of it, and what its time-out does.
use mcp_debugger.Base.{
  ℕ, arith, ◌≡◌, sym, ◌∙◌, ap, subst, String, false, Option, some, none, ◌∷◌, string_eq, nat_eq,
}
use mcp_debugger.Base.Dict
use mcp_debugger.Base.Dict.{Dict, get-put_self, get-delete_self}
use mcp_debugger.DapCore.State.{
  PendingRequest, DapSessionState, add_pending_request, remove_pending_request, get_pending_request,
}
use mcp_debugger.Proxy.Manager.{
  ProxyManager, PendingDapRequest, Barrier, fire_as, rejected, clear_owned_barrier, disarm,
  settle_request, enter_request, withdraw_request, forget_request, on_request_timeout, fire,
  on_mirror, request_timeout, clear_timeout, request_response,
}
use mcp_debugger.Proxy.Manager.Slots.{Slots, slots, slots-disarm, slots-clear_owned_barrier}
use mcp_debugger.Proxy.Manager.Mirror.Barriers.{mirror-clear_owned_barrier, mirror-disarm}

-- What the mirror has for a request.
abbrev pub Mirrors : String → Option PendingRequest → ProxyManager → Type 0
Mirrors id entry m =
    (state : DapSessionState) × ((m.dap_state ≡ some state)
      × (get_pending_request state id ≡ entry))

-- The table and the timers have nothing of the request that was given the timer.
abbrev pub Gone : String → ℕ → ProxyManager → Type 0
Gone id timer m = (Dict.get id m.pending_dap_requests ≡ none) × (Dict.get timer m.timers ≡ none)

GoneAt : String → ℕ → Slots → Type 0
GoneAt id timer (requests, timers, next) =
    (Dict.get id requests ≡ none) × (Dict.get timer timers ≡ none)

-- A barrier that is disposed of leaves what is gone so.
slots-Gone :
    (id : String) (timer : ℕ) (m m' : ProxyManager)
    → slots m ≡ slots m'
    → Gone id timer m'
    → Gone id timer m
unfolding GoneAt
slots-Gone id timer m m' e gone = subst (GoneAt id timer) (sym e) gone

get_first :
    (timer : ℕ) (id : String) (rest : Dict ℕ String) → Dict.get timer ((timer, id) ∷ rest) ≡ some id
unfolding Dict.get
get_first timer id rest = ground arith

module _ (barrier : Barrier) (id command : String) (now : ℕ) (m : ProxyManager) where
  abbrev entry : PendingRequest
  entry = record { request_id = id; command = command; seq = 0; timestamp = now }

  pub request_response-Gone : Gone id m.next_timer (request_response barrier id command now false m)
  unfolding request_response settle_request enter_request withdraw_request
  request_response-Gone =
      let withdrawn = withdraw_request id m.next_timer (enter_request id command now m) in
      slots-Gone id m.next_timer (disarm barrier withdrawn) withdrawn
        (slots-disarm barrier withdrawn)
        (
          get-delete_self id (Dict.put id _ m.pending_dap_requests),
          get-delete_self m.next_timer ((m.next_timer, id) ∷ m.timers),
        )

  pub request_response-Mirrors :
      (state : DapSessionState)
      → m.dap_state ≡ some state
      → Mirrors id (some entry) (request_response barrier id command now false m)
  unfolding request_response settle_request enter_request withdraw_request add_pending_request
      get_pending_request
  request_response-Mirrors state mirrored =
      let withdrawn = withdraw_request id m.next_timer (enter_request id command now m) in
      (
        add_pending_request state entry,
        (
          mirror-disarm barrier withdrawn
              ∙ ap (on_mirror (λ s. add_pending_request s entry)) mirrored,
          get-put_self id entry state.pending_requests,
        ),
      )

  -- A request that was sent, at its time-out.
  fire-enter_request :
      fire m.next_timer (enter_request id command now m)
      ≡ settle_request id (rejected (request_timeout command)) (
          clear_owned_barrier id
            (forget_request id (clear_timeout m.next_timer (enter_request id command now m))))
  unfolding fire enter_request on_request_timeout
  fire-enter_request =
      let pending : PendingDapRequest = record { command = command; timer = m.next_timer } in
      let entered = enter_request id command now m in
      ap (λ found. fire_as m.next_timer found entered) (get_first m.next_timer id m.timers)
      ∙ ap (λ found. on_request_timeout id found (clear_timeout m.next_timer entered))
          (get-put_self id pending m.pending_dap_requests)

  pub fire-Gone : Gone id m.next_timer (fire m.next_timer (enter_request id command now m))
  unfolding settle_request enter_request forget_request
  fire-Gone =
      let forgotten =
        forget_request id (clear_timeout m.next_timer (enter_request id command now m)) in
      subst (Gone id m.next_timer) (sym fire-enter_request) (
        slots-Gone id m.next_timer (clear_owned_barrier id forgotten) forgotten
          (slots-clear_owned_barrier id forgotten)
          (
            get-delete_self id (Dict.put id _ m.pending_dap_requests),
            get-delete_self m.next_timer ((m.next_timer, id) ∷ m.timers),
          ))

  pub fire-Mirrors :
      (state : DapSessionState)
      → m.dap_state ≡ some state
      → Mirrors id none (fire m.next_timer (enter_request id command now m))
  unfolding settle_request enter_request forget_request add_pending_request remove_pending_request
      get_pending_request
  fire-Mirrors state mirrored =
      let forgotten =
        forget_request id (clear_timeout m.next_timer (enter_request id command now m)) in
      subst (Mirrors id none) (sym fire-enter_request) (
        remove_pending_request (add_pending_request state entry) id,
        (
          mirror-clear_owned_barrier id forgotten
              ∙ ap
                  (λ mirror.
                    on_mirror (λ s. remove_pending_request s id)
                      (on_mirror (λ s. add_pending_request s entry) mirror))
                  mirrored,
          get-delete_self id (Dict.put id entry state.pending_requests),
        ),
      )
