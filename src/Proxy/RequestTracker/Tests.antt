-- ===== src/Proxy/RequestTracker/Tests.antt =====
-- The tracker at a concrete history.
use mcp_debugger.Base.{
  ◌≡◌, ◌≢◌, refl, String, true, none, some, List, [], ◌∷◌, ◌++◌, nat_eq, string_eq, if◌then◌else◌,
}
use mcp_debugger.Base.Int.{pos}
use mcp_debugger.Base.Dict
use mcp_debugger.Proxy.RequestTracker.{
  TrackedRequest, Timer, RequestTracker, Action, track_request, fire_timer, new_tracker, run, step,
  track, complete, fire, on_timer, get_pending_count, get_elapsed_time, is_pending, default_timeout,
}
use mcp_debugger.Proxy.RequestTracker.Linked.{Linked, run-new_tracker-Linked}
use mcp_debugger.Proxy.RequestTracker.Timeouts.{fire_lem, fire_stale}

abbrev history : List Action
history =
    track_request "a" "threads" none 10 ∷ track_request "a" "next" (some 50) 20 ∷ fire_timer 0 ∷ []

tracker : Unit {0}
unfolding new_tracker run step track complete fire on_timer Dict.get Dict.put Dict.delete Dict.has
    get_pending_count get_elapsed_time is_pending
tracker = tt

abbrev tracked : RequestTracker
tracked = run (new_tracker true default_timeout) history

-- The first timer was cleared when the request was tracked anew.
still_pending :
    (get_pending_count tracked ≡ 1)
    × (is_pending tracked "a" ≡ true)
    × (get_elapsed_time tracked "a" 25 ≡ some (pos 5))
unfolding tracker
still_pending = (refl, refl, refl)

abbrev second : TrackedRequest
second = record { request_id = "a"; command = "next"; timer = 1; timestamp = 20 }

abbrev second_timer : Timer
second_timer = record { request_id = "a"; command = "next"; timeout = 50 }

run-new_tracker-Linked_example : Linked tracked
run-new_tracker-Linked_example = run-new_tracker-Linked true default_timeout history

fire_lem_example :
    let s = fire tracked 1 in
    (Dict.get "a" s.pending_requests ≡ none)
    × ((j : String) → j ≢ "a" → Dict.get j s.pending_requests ≡ Dict.get j tracked.pending_requests)
    × (s.reported
        ≡ (if tracked.reports then tracked.reported ++ second_timer ∷ [] else tracked.reported))
    × (fire s 1 ≡ s)
unfolding tracker
fire_lem_example =
    fire_lem tracked 1 second_timer (run-new_tracker-Linked true default_timeout history) refl

fire_stale_example :
    (fire (complete tracked "a") 1 ≡ complete tracked "a")
    × (fire (track tracked "a" "next" none 30) 1 ≡ track tracked "a" "next" none 30)
unfolding tracker
fire_stale_example =
    fire_stale tracked "a" second (run-new_tracker-Linked true default_timeout history) refl "next"
      none 30
