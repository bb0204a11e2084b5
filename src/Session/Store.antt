-- ===== src/Session/Store.antt =====
-- src/session/session-store.ts: the sessions by their id. A failure is the error that is thrown.
-- The fresh id, the clock and the adapter policies are arguments; a session's other fields are those
-- that the session manager's event handlers use (Session/Events).
pub mod Laws
use mcp_debugger.Base.{
  ℕ, Bool, true, false, not, Option, none, some, List, [], ◌∷◌, ◌++◌, take, map, length,
  if◌then◌else◌, String, string_eq, str_eq, ◌>>=◌,
}
use mcp_debugger.Base.Dict
use mcp_debugger.Base.Dict.{Dict}
use mcp_debugger.Base.Int.{ℤ}
use mcp_debugger.Base.Text.{codes}
use mcp_debugger.Session.States.{
  SessionState, SessionLifecycleState, ExecutionState, same_state, map_legacy_state,
}

pub record LastStop : Type 0 where
  pub reason : String
  pub raw_reason : Option String
  pub thread_id : Option ℤ
  pub timestamp : ℕ
  pub description : Option String
  pub text : Option String

-- The mirror that a session is exposed at; the time of it is left out.
pub record SessionExposure : Type 0 where
  pub host : String
  pub port : ℕ
  pub token : String

pub record Endpoint : Type 0 where
  pub host : String
  pub port : ℕ

pub record ManagedSession : Type 0 where
  pub id : String
  pub name : List ℕ
  pub language : String
  pub state : SessionState
  pub created_at : ℕ
  pub updated_at : ℕ
  pub executable_path : Option String
  pub session_lifecycle : SessionLifecycleState
  pub execution_state : Option ExecutionState
  pub proxy_manager : Option ℕ
  pub pending_proxy_stop : Option ℕ
  pub last_proxy_pid : Option ℕ
  pub first_stop_handled : Bool
  pub pause_pending : Bool
  pub last_stop : Option LastStop
  pub exit_code : Option ℤ
  pub supports_exception_info_request : Bool
  pub exposure : Option SessionExposure

abbrev pub SessionStore : Type 0
SessionStore = Dict String ManagedSession

pub record DebugSessionInfo : Type 0 where
  pub id : String
  pub name : List ℕ
  pub language : String
  pub state : SessionState
  pub created_at : ℕ
  pub updated_at : ℕ
  pub last_stop : Option LastStop
  pub exit_code : Option ℤ
  pub exposure : Option Endpoint

pub record CreateSessionParams : Type 0 where
  pub language : String
  pub name : Option (List ℕ)
  pub executable_path : Option String

abbrev pub debug_languages : List String
debug_languages =
    "python" ∷ "ruby" ∷ "javascript" ∷ "rust" ∷ "go" ∷ "java" ∷ "dotnet" ∷ "cpp" ∷ "mock" ∷ []

unfoldable pub includes_language : String → List String → Bool
includes_language language [] = false
includes_language language (l ∷ ls) =
    if str_eq l language then true else includes_language language ls

-- `name || default`
abbrev name_or : Option (List ℕ) → List ℕ → List ℕ
name_or none default = default
name_or (some []) default = default
name_or (some (c ∷ name)) default = c ∷ name

-- The session that `createSession` puts into the store; the clock is read once.
unfoldable pub new_session :
    (String → Option String → Option String) → CreateSessionParams → String → ℕ → ManagedSession
new_session resolve_path params session_id now = record {
  id = session_id;
  name = name_or params.name (codes "session-" ++ take 8 (codes session_id));
  language = params.language;
  state = SessionState.created;
  created_at = now;
  updated_at = now;
  executable_path = resolve_path params.language params.executable_path;
  session_lifecycle = SessionLifecycleState.created;
  execution_state = none;
  proxy_manager = none;
  pending_proxy_stop = none;
  last_proxy_pid = none;
  first_stop_handled = false;
  pause_pending = false;
  last_stop = none;
  exit_code = none;
  supports_exception_info_request = false;
  exposure = none;
}

-- The endpoint without its token, and only while the proxy manager runs.
abbrev pub shown_exposure : (ℕ → Bool) → Option SessionExposure → Option ℕ → Option Endpoint
shown_exposure is_running (some e) (some proxy) =
    if is_running proxy then some (record { host = e.host; port = e.port }) else none
shown_exposure is_running (some e) none = none
shown_exposure is_running none proxy = none

-- `is_running` is what the proxy managers' `isRunning` says.
unfoldable pub info_of : (ℕ → Bool) → ManagedSession → DebugSessionInfo
info_of is_running s = record {
  id = s.id;
  name = s.name;
  language = s.language;
  state = s.state;
  created_at = s.created_at;
  updated_at = s.updated_at;
  last_stop = s.last_stop;
  exit_code = s.exit_code;
  exposure = shown_exposure is_running s.exposure s.proxy_manager;
}

-- `none` is the error for a language that is not supported. `resolve_path` is the policies'
-- `resolveExecutablePath`, by language; `session_id` is the fresh identifier.
unfoldable pub create_session :
    (String → Option String → Option String)
    → CreateSessionParams
    → String
    → ℕ
    → SessionStore
    → Option (DebugSessionInfo × SessionStore)
create_session resolve_path params session_id now store =
    let session = new_session resolve_path params session_id now in
    if includes_language params.language debug_languages
    then some (info_of (λ proxy. false) session, Dict.put session_id session store)
    else none

-- `none` is the `SessionNotFoundError`, here and in what follows.
unfoldable pub get_or_throw : String → SessionStore → Option ManagedSession
get_or_throw session_id store = Dict.get session_id store

-- `Object.assign` writes the fields that `updates` has; then the clock's reading is set.
unfoldable pub update :
    String → (ManagedSession → ManagedSession) → ℕ → SessionStore → Option SessionStore
update session_id updates now store = do
  session ← get_or_throw session_id store
  let updated = updates session
  some (Dict.put session_id (record updated { updated_at = now }) store)

abbrev pub with_state : SessionState → ℕ → ManagedSession → ManagedSession
with_state new_state now session =
    if same_state session.state new_state
    then session
    else record session { state = new_state; updated_at = now }

unfoldable pub update_state : String → SessionState → ℕ → SessionStore → Option SessionStore
update_state session_id new_state now store = do
  session ← get_or_throw session_id store
  some (Dict.put session_id (with_state new_state now session) store)

unfoldable pub remove : String → SessionStore → Bool × SessionStore
remove session_id store = (Dict.has session_id store, Dict.delete session_id store)

unfoldable pub get_all : (ℕ → Bool) → SessionStore → List DebugSessionInfo
get_all is_running [] = []
get_all is_running ((id, s) ∷ store) = info_of is_running s ∷ get_all is_running store

unfoldable pub get_all_managed : SessionStore → List ManagedSession
get_all_managed [] = []
get_all_managed ((id, s) ∷ store) = s ∷ get_all_managed store

unfoldable pub set : String → ManagedSession → SessionStore → SessionStore
set session_id session store = Dict.put session_id session store

unfoldable pub has : String → SessionStore → Bool
has session_id store = Dict.has session_id store

unfoldable pub size : SessionStore → ℕ
size store = length store

unfoldable pub clear : SessionStore → SessionStore
clear store = []

-- `_updateSessionState` of src/session/session-manager-core.ts, for the session of that id.
unfoldable pub update_session_state : String → SessionState → ℕ → SessionStore → Option SessionStore
unfolding update update_state
update_session_state session_id new_state now store =
    let pair = map_legacy_state new_state in
    let updates : ManagedSession → ManagedSession =
      λ s. record s { session_lifecycle = pair.lifecycle; execution_state = pair.execution } in
    get_or_throw session_id store >>= λ session.
    if same_state session.state new_state
    then some store
    else update_state session_id new_state now store >>= update session_id updates now

-- What a change of state writes.
abbrev pub restated : SessionState → ℕ → ManagedSession → ManagedSession
restated new_state now s = record s {
  state = new_state;
  updated_at = now;
  session_lifecycle = (map_legacy_state new_state).lifecycle;
  execution_state = (map_legacy_state new_state).execution;
}

-- The same change, seen from the session that the store holds.
unfoldable pub change_state : SessionState → ℕ → ManagedSession → ManagedSession
change_state new_state now s = if same_state s.state new_state then s else restated new_state now s
