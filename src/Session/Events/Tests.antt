-- ===== src/Session/Events/Tests.antt =====
-- The store and the handlers on a concrete session.
use mcp_debugger.Base.{◌≡◌, refl, true, false, none, some, [], ◌∷◌, ◌++◌, string_eq}
use mcp_debugger.Base.Dict
use mcp_debugger.Base.Int.{pos}
use mcp_debugger.Session.States.{SessionState, map_legacy_state, map_to_legacy_state, same_state}
use mcp_debugger.Session.Store.{
  SessionStore, ManagedSession, CreateSessionParams, new_session, info_of, create_session,
  update_session_state, includes_language, debug_languages, change_state, get_all,
}
use mcp_debugger.Session.Store.Laws.{
  IsConsistent, IsWritten, IsRestated, collapse, map_to_legacy_state-map_legacy_state,
  update_session_state-IsRestated, create_session_lem,
}
use mcp_debugger.Session.Events.{
  Launch, Watched, continued, exited, exit, auto_continue, handle, handle_stopped, handle_exited,
  release, deliver,
}
use mcp_debugger.Session.Events.Consistent.{IsWatched, Ends}
use mcp_debugger.Session.Events.Settled.{deliver-IsWatched, deliver-terminal}
use mcp_debugger.Session.Events.Stops.{IsHandled, handle_stopped_lem}

abbrev params : CreateSessionParams
params = record { language = "python"; name = none; executable_path = none }

abbrev python_session : ManagedSession
python_session = new_session (λ language path. path) params "0123456789" 7

abbrev one_session : SessionStore
one_session = ("a", python_session) ∷ []

abbrev launched : Launch
launched = record {
  proxy = 1;
  pid = some 4242;
  request_is_attach = false;
  attach_mode = false;
  stop_on_entry = false;
  first_stop_may_be_non_entry = false;
  dry_run_handler_setup = false;
}

abbrev any_first_stop : Launch
any_first_stop = record launched { first_stop_may_be_non_entry = true }

abbrev watched : Watched
watched = record { session = python_session; listening = true; started = [] }

supported : includes_language "python" debug_languages ≡ true
unfolding includes_language
supported = refl

held : Dict.get "a" one_session ≡ some python_session
unfolding Dict.get
held = refl

python_session-IsConsistent : IsConsistent python_session
unfolding new_session map_legacy_state
python_session-IsConsistent = (refl, refl)

ended :
    (deliver launched ((8, exited (some (pos 3))) ∷ (9, continued) ∷ []) watched).session.state
    ≡ SessionState.stopped
unfolding deliver handle new_session change_state same_state release handle_exited
ended = refl

fresh : Dict.get "b" one_session ≡ none
unfolding Dict.get
fresh = refl

create_session_example :
    let session = new_session (λ language path. path) params "b" 8 in
    IsConsistent session
    × ((after : SessionStore) × ((create_session (λ language path. path) params "b" 8 one_session
            ≡ some (info_of (λ proxy. true) session, after))
          × (IsWritten "b" session one_session after
              × (get_all (λ proxy. true) after
                  ≡ get_all (λ proxy. true) one_session ++ info_of (λ proxy. true) session ∷ []))))
create_session_example =
    create_session_lem (λ language path. path) params "b" 8 (λ proxy. true) one_session fresh
      supported

update_session_state-IsRestated_example :
    IsRestated "a" SessionState.paused
      (change_state SessionState.paused 9 python_session)
      one_session
      (update_session_state "a" SessionState.paused 9 one_session)
update_session_state-IsRestated_example =
    update_session_state-IsRestated "a" SessionState.paused 9 one_session python_session held
      python_session-IsConsistent

map_to_legacy_state-map_legacy_state_example :
    map_to_legacy_state
      (map_legacy_state SessionState.ready).lifecycle
      (map_legacy_state SessionState.ready).execution
    ≡ collapse SessionState.ready
map_to_legacy_state-map_legacy_state_example =
    map_to_legacy_state-map_legacy_state SessionState.ready

deliver-IsWatched_example :
    IsWatched (deliver launched ((8, continued) ∷ (9, exit (some (pos 1)) none none) ∷ []) watched)
deliver-IsWatched_example =
    deliver-IsWatched launched ((8, continued) ∷ (9, exit (some (pos 1)) none none) ∷ []) watched
      (python_session-IsConsistent, tt)

deliver-terminal_example :
    (deliver launched ((8, exited (some (pos 3))) ∷ (9, continued) ∷ []) watched
      ≡ handle launched 8 (exited (some (pos 3))) watched)
    × Ends (handle launched 8 (exited (some (pos 3))) watched).session
deliver-terminal_example =
    deliver-terminal launched 8 (exited (some (pos 3))) ((9, continued) ∷ []) watched
      python_session-IsConsistent refl refl

-- An exception as the first stop of a launch whose first stop may be another.
handle_stopped_example :
    IsHandled any_first_stop 8 (some (pos 1)) "exception" none (some "ValueError") none watched (
      handle_stopped any_first_stop 8
        (some (pos 1))
        "exception"
        none
        (some "ValueError")
        none
        watched)
handle_stopped_example =
    handle_stopped_lem any_first_stop 8 (some (pos 1)) "exception" none (some "ValueError") none
      watched

exception_shown :
    (handle_stopped any_first_stop 8 (some (pos 1)) "exception" none none none watched).started ≡ []
unfolding handle_stopped new_session
exception_shown = refl

pause_passed_over :
    (handle_stopped any_first_stop 8 (some (pos 1)) "pause" none none none watched).started
    ≡ auto_continue ∷ []
unfolding handle_stopped new_session
pause_passed_over = refl

pause_shown : (handle_stopped launched 8 (some (pos 1)) "pause" none none none watched).started ≡ []
unfolding handle_stopped new_session
pause_shown = refl
