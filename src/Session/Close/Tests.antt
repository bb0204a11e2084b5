-- ===== src/Session/Close/Tests.antt =====
-- Closing concrete sessions.
use mcp_debugger.Base.{ℕ, ◌≡◌, refl, true, Option, none, some, [], ◌∷◌, string_eq}
use mcp_debugger.Base.Dict
use mcp_debugger.Session.States.{map_legacy_state, same_state}
use mcp_debugger.Session.Store.{
  ManagedSession, SessionStore, new_session, get_or_throw, update, update_state,
  update_session_state, remove,
}
use mcp_debugger.Session.Close.{Closed, leave, stop_proxy_preserving_session, close_session}
use mcp_debugger.Session.Close.Outcome.{CloseOutcome, close_session-CloseOutcome}

abbrev session : ManagedSession
session =
    record (new_session (λ language path. path)
      (record { language = "python"; name = none; executable_path = none }) "0123456789" 7) {
        proxy_manager = some 1;
        pending_proxy_stop = some 2;
      }

abbrev store : SessionStore
store = ("a", session) ∷ ("b", session) ∷ []

abbrev pids : ℕ → Option ℕ
pids proxy = some 4242

abbrev rest : Closed
rest = record {
  closed = true;
  store = ("b", session) ∷ [];
  stopped = 1 ∷ [];
  awaited = 2 ∷ [];
  verified = some 4242;
}

one_closed : close_session pids "a" 9 store ≡ some rest
unfolding close_session leave new_session update_session_state update update_state get_or_throw
    remove map_legacy_state same_state Dict.get Dict.put Dict.delete Dict.has
one_closed = refl

preserved : (stop_proxy_preserving_session pids session).session.proxy_manager ≡ none
unfolding stop_proxy_preserving_session new_session
preserved = refl

close_session-CloseOutcome_example :
    (c : Closed) × (close_session pids "a" 9 store ≡ some c)
    × CloseOutcome pids "a" (Dict.get "a" store) store c
close_session-CloseOutcome_example = close_session-CloseOutcome pids "a" 9 store
