-- ===== src/DapCore/Pending.antt =====
-- The requests that the core holds as pending, over any history.
use mcp_debugger.Base.{
  String, ◌≡◌, refl, ◌≢◌, Bool, false, Option, none, some, List, [], ◌∷◌, arith, str_eq, str_eq_iff,
  string_eq, if◌then◌else◌, ◌∙◌, Option-cases, inl, inr,
}
use mcp_debugger.Base.Dict
use mcp_debugger.Base.Dict.{get-put, get-delete, delete_absent}
use mcp_debugger.DapCore.State.{
  PendingRequest, DapSessionState, set_initialized, set_adapter_configured, set_current_thread_id,
  add_pending_request, remove_pending_request, clear_pending_requests, get_pending_request,
}
use mcp_debugger.DapCore.Handlers.{
  failure, dap_response, Content, ProxyMessage, handle_status_message, handle_error_message,
  state_after_event, handle_dap_event, handle_dap_response, handle_content, handle_proxy_message,
}
use mcp_debugger.DapCore.Session.{
  take_state, Action, receive, send, give_up, adopt_thread, clean_up, step, run,
}

-- The request of a session that a message answers: only a response under the session's id does.
unfoldable pub answered_by : Content → Option String
answered_by (dap_response request_id) = some request_id
answered_by _ = none

abbrev pub is_answer : String → String → ProxyMessage → Bool
is_answer session_id request_id m = elim (answered_by m.content) [
  | none ↦ false
  | some answered ↦ if str_eq m.session_id session_id then str_eq answered request_id else false
]

-- What is pending under one request id after an action, said without the core's state: the last
-- request sent under the id, unless it was answered, given up or cleaned up since.
unfoldable pub latest : String → String → Option PendingRequest → Action → Option PendingRequest
latest session_id request_id held (receive m) =
    if is_answer session_id request_id m then none else held
latest session_id request_id held (send request) =
    if str_eq request.request_id request_id then some request else held
latest session_id request_id held (give_up given) = if str_eq given request_id then none else held
latest session_id request_id held (adopt_thread thread) = held
latest session_id request_id held clean_up = none

unfoldable pub latest_of :
    String → String → Option PendingRequest → List Action → Option PendingRequest
latest_of session_id request_id held [] = held
latest_of session_id request_id held (a ∷ actions) =
    latest_of session_id request_id (latest session_id request_id held a) actions

pending_handlers : Unit {0}
unfolding take_state handle_content handle_status_message handle_error_message handle_dap_response
    handle_dap_event state_after_event set_initialized set_adapter_configured remove_pending_request
    set_current_thread_id add_pending_request clear_pending_requests get_pending_request answered_by
pending_handlers = tt

module _ (s : DapSessionState) where
  content-pending :
      (id : String) (m : ProxyMessage) (c : Content)
      → Dict.get id (take_state s (handle_content s m c)).pending_requests ≡ (elim (answered_by c) [
        | none ↦ Dict.get id s.pending_requests
        | some answered ↦ if str_eq answered id then none else Dict.get id s.pending_requests
      ])
  unfolding pending_handlers
  content-pending id m (dap_response r) = elim (Option-cases (Dict.get r s.pending_requests)) [
    | inl e ↦ ground (arith, str_eq_iff r id, e)
    | inr (p, e) ↦ rw (e, handle_dap_response) (get-delete r id s.pending_requests)
  ]
  content-pending id m (failure text) = refl
  content-pending id m c = ground arith

  step-get_pending_request :
      (a : Action) (id : String)
      → get_pending_request (step s a) id ≡ latest s.session_id id (get_pending_request s id) a
  unfolding step handle_proxy_message pending_handlers latest Dict.get
  step-get_pending_request (receive m) id =
      ground (arith, content-pending id m m.content, str_eq_iff m.session_id s.session_id)
  step-get_pending_request (send r) id = get-put r.request_id id r s.pending_requests
  step-get_pending_request (give_up given) id = get-delete given id s.pending_requests
  step-get_pending_request (adopt_thread thread) id = refl
  step-get_pending_request clean_up id = refl

  content-session_id :
      (m : ProxyMessage) (c : Content)
      → (take_state s (handle_content s m c)).session_id ≡ s.session_id
  unfolding pending_handlers
  content-session_id m (failure text) = refl
  content-session_id m c = ground arith

  step-session_id : (a : Action) → (step s a).session_id ≡ s.session_id
  unfolding step handle_proxy_message pending_handlers
  step-session_id (receive m) = ground (arith, content-session_id m m.content)
  step-session_id a = ground arith

  -- A response whose request is not pending changes nothing.
  step_ignored :
      (m : ProxyMessage) (id : String)
      → m.content ≡ dap_response id
      → get_pending_request s id ≡ none
      → step s (receive m) ≡ s
  unfolding step handle_proxy_message pending_handlers
  step_ignored m id answer missing = ground arith

-- After any history, what the core holds under a request id is the last request sent under it, if
-- no response of the session, time-out or clean-up came since, and nothing otherwise.
pub run-get_pending_request :
    (s : DapSessionState) (id : String) (actions : List Action)
    → get_pending_request (run s actions) id
      ≡ latest_of s.session_id id (get_pending_request s id) actions
unfolding run latest_of
run-get_pending_request s id [] = refl
run-get_pending_request s id (a ∷ actions) =
    run-get_pending_request (step s a) id actions
    ∙ simp (step-session_id s a, step-get_pending_request s a id)

-- A response of the session takes its request out and leaves the others, and the same response a
-- second time changes nothing at all.
pub answer_once :
    (s : DapSessionState) (m : ProxyMessage) (id : String)
    → m.session_id ≡ s.session_id
    → m.content ≡ dap_response id
    → let t = step s (receive m) in
      (get_pending_request t id ≡ none)
      × ((j : String) → j ≢ id → get_pending_request t j ≡ get_pending_request s j)
      × (step t (receive m) ≡ t)
unfolding latest pending_handlers
answer_once s m id same answer =
    let gone : get_pending_request (step s (receive m)) id ≡ none = ground (
      arith,
      step-get_pending_request s (receive m) id,
      str_eq_iff m.session_id s.session_id,
      str_eq_iff id id,
    ) in
    (
      gone,
      λ j other. ground (
        arith,
        step-get_pending_request s (receive m) j,
        str_eq_iff m.session_id s.session_id,
        str_eq_iff id j,
      ),
      step_ignored (step s (receive m)) m id answer gone,
    )
