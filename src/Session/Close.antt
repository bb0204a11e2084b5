-- ===== src/Session/Close.antt =====
-- closeSession and stopProxyPreservingSession of src/session/session-manager-core.ts, each as one step: what
-- other calls do to the session while a stop is awaited is left out. Errors of a stop are swallowed.
pub mod Outcome
mod Tests
use mcp_debugger.Base.{
  ℕ, zero, suc, Bool, true, false, Option, none, some, List, [], ◌∷◌, String, string_eq, ◌>>=◌,
}
use mcp_debugger.Base.Dict
use mcp_debugger.Session.States.{SessionState, SessionLifecycleState}
use mcp_debugger.Session.Store.{ManagedSession, SessionStore, update, update_session_state, remove}

-- A session on its way out, with the proxies whose stop was called, and the stops that were awaited.
pub record Leaving : Type 0 where
  pub session : ManagedSession
  pub stopped : List ℕ
  pub awaited : List ℕ

abbrev or_last : Option ℕ → Option ℕ → Option ℕ
or_last none last = last
or_last (some pid) last = some pid

-- `pid_of` is what the proxies' `getProxyPid` says.
abbrev let_proxy_go : (ℕ → Option ℕ) → Option ℕ → ManagedSession → Leaving
let_proxy_go pid_of none s = record { session = s; stopped = []; awaited = [] }
let_proxy_go pid_of (some proxy) s = record {
  session = record s {
    last_proxy_pid = or_last (pid_of proxy) s.last_proxy_pid;
    proxy_manager = none;
  };
  stopped = proxy ∷ [];
  awaited = [];
}

-- A stop that a terminal event's handler left in flight.
abbrev await_stop : Option ℕ → Leaving → Leaving
await_stop none l = l
await_stop (some proxy) l = record l {
  session = record (l.session) { pending_proxy_stop = none };
  awaited = proxy ∷ [];
}

unfoldable pub leave : (ℕ → Option ℕ) → ManagedSession → Leaving
leave pid_of s =
    let gone = let_proxy_go pid_of s.proxy_manager s in
    await_stop gone.session.pending_proxy_stop gone

-- The mirror goes with a proxy that was stopped.
abbrev drop_exposure : Option ℕ → ManagedSession → ManagedSession
drop_exposure none s = s
drop_exposure (some proxy) s = record s { exposure = none }

unfoldable pub stop_proxy_preserving_session : (ℕ → Option ℕ) → ManagedSession → Leaving
stop_proxy_preserving_session pid_of s =
    let gone = let_proxy_go pid_of s.proxy_manager s in
    let unexposed = record gone { session = drop_exposure s.proxy_manager (gone.session) } in
    await_stop unexposed.session.pending_proxy_stop unexposed

-- `closed` is what the call returns; `verified` the process that is looked for afterwards.
pub record Closed : Type 0 where
  pub closed : Bool
  pub store : SessionStore
  pub stopped : List ℕ
  pub awaited : List ℕ
  pub verified : Option ℕ

abbrev pub pid_to_verify : Option ℕ → Option ℕ
pid_to_verify none = none
pid_to_verify (some zero) = none
pid_to_verify (some (suc pid)) = some (suc pid)

abbrev pub terminate_lifecycle : ManagedSession → ManagedSession
terminate_lifecycle s = record s { session_lifecycle = SessionLifecycleState.terminated }

-- The session object is shared with the store, so what is written to it is there.
abbrev close_found : String → ℕ → SessionStore → Leaving → Option Closed
close_found id now store l =
    update_session_state id SessionState.stopped now (Dict.put id l.session store) >>= λ marked.
    update id terminate_lifecycle now marked >>= λ over. some (record {
      closed = true;
      store = (remove id over).1;
      stopped = l.stopped;
      awaited = l.awaited;
      verified = pid_to_verify l.session.last_proxy_pid;
    })

abbrev close_as : (ℕ → Option ℕ) → String → ℕ → SessionStore → Option ManagedSession → Option Closed
close_as pid_of id now store none =
    some (record { closed = false; store = store; stopped = []; awaited = []; verified = none })
close_as pid_of id now store (some s) = close_found id now store (leave pid_of s)

-- `none` is the error for a session that is not in the store.
unfoldable pub close_session : (ℕ → Option ℕ) → String → ℕ → SessionStore → Option Closed
close_session pid_of id now store = close_as pid_of id now store (Dict.get id store)
