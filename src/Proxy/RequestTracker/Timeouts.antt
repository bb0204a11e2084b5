-- ===== src/Proxy/RequestTracker/Timeouts.antt =====
-- What a time-out does, and that a request settles once.
use mcp_debugger.Base.{
  ℕ, ◌≡◌, ◌≢◌, refl, String, Option, none, some, [], ◌∷◌, ◌++◌, arith, str_eq_iff, nat_eq,
  string_eq, if◌then◌else◌,
}
use mcp_debugger.Base.Dict
use mcp_debugger.Base.Dict.{get-put_self, get-delete, get-delete_self, get-put}
use mcp_debugger.Proxy.RequestTracker.{
  TrackedRequest, Timer, RequestTracker, complete, track, on_timer, fire, given_or,
}
use mcp_debugger.Proxy.RequestTracker.Linked.{Linked}

fire_absent : (s : RequestTracker) (i : ℕ) → Dict.get i s.timers ≡ none → fire s i ≡ s
unfolding fire
fire_absent s i h = rw (h, fire)

abbrev fired : RequestTracker → ℕ → Timer → RequestTracker
fired s i t = record s {
  timers = Dict.delete i s.timers;
  pending_requests = Dict.delete t.request_id s.pending_requests;
  reported = if s.reports then s.reported ++ t ∷ [] else s.reported;
}

fire_live :
    (s : RequestTracker) (i : ℕ) (t : Timer)
    → Linked s
    → Dict.get i s.timers ≡ some t
    → fire s i ≡ fired s i t
unfolding fire on_timer
fire_live s i t v h = let (r, held, timed, same) = v.pending i t h in rw (h, fire, held, on_timer)

-- A live timer that fires removes exactly its own request and, in the class with the callback,
-- reports exactly that request; it cannot fire again.
pub fire_lem :
    (s : RequestTracker) (i : ℕ) (t : Timer)
    → Linked s
    → Dict.get i s.timers ≡ some t
    → let s' = fire s i in
      (Dict.get t.request_id s'.pending_requests ≡ none)
      × ((j : String)
          → j ≢ t.request_id
          → Dict.get j s'.pending_requests ≡ Dict.get j s.pending_requests)
      × (s'.reported ≡ (if s.reports then s.reported ++ t ∷ [] else s.reported))
      × (fire s' i ≡ s')
fire_lem s i t v h = rw (fire_live s i t v h) (
  get-delete_self t.request_id s.pending_requests,
  λ j other.
      ground (arith, get-delete t.request_id j s.pending_requests, str_eq_iff t.request_id j),
  refl,
  fire_absent (fired s i t) i (get-delete_self i s.timers),
)

-- Once a request is completed, or tracked anew under its id, its old timer has no effect.
pub fire_stale :
    (s : RequestTracker) (id : String) (r : TrackedRequest)
    → Linked s
    → Dict.get id s.pending_requests ≡ some r
    → (command : String) (timeout_ms : Option ℕ) (now : ℕ)
    → (fire (complete s id) r.timer ≡ complete s id)
      × (fire (track s id command timeout_ms now) r.timer ≡ track s id command timeout_ms now)
unfolding complete track
fire_stale s id r v h command timeout_ms now =
    let (t, live, same) = v.live id r h in
    let gone : Dict.get r.timer (complete s id).timers ≡ none =
      rw (h, complete) (get-delete_self r.timer s.timers) in
    let old : (complete s id).next_timer ≡ s.next_timer = rw (h, complete) in
    let kept : Dict.get r.timer (track s id command timeout_ms now).timers ≡ none = ground (
      arith,
      gone,
      old,
      v.fresh r.timer t live,
      get-put (complete s id).next_timer r.timer
          (record {
            request_id = id;
            command = command;
            timeout = given_or timeout_ms (complete s id).default_timeout_ms;
          })
          (complete s id).timers,
    ) in
    (
      fire_absent (complete s id) r.timer gone,
      fire_absent (track s id command timeout_ms now) r.timer kept,
    )
