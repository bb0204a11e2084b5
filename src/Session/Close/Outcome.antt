-- ===== src/Session/Close/Outcome.antt =====
-- What closing a session leaves.
use mcp_debugger.Base.{
  ℕ, ◌≡◌, refl, ap, true, false, Option, none, some, List, [], ◌∷◌, String, string_eq, str_eq,
  str_eq_iff, if◌then◌else◌, arith,
}
use mcp_debugger.Base.Dict
use mcp_debugger.Base.Dict.{get-put, get-put_self, get-delete}
use mcp_debugger.Session.States.{SessionState}
use mcp_debugger.Session.Store.{
  ManagedSession, SessionStore, get_or_throw, update, change_state, remove,
}
use mcp_debugger.Session.Store.Laws.{update_session_state-IsWritten}
use mcp_debugger.Session.Close.{
  leave, Closed, pid_to_verify, terminate_lifecycle, close_found, close_as, close_session,
}

abbrev pub listed : Option ℕ → List ℕ
listed none = []
listed (some proxy) = proxy ∷ []

abbrev pub latest : Option ℕ → Option ℕ → Option ℕ
latest none last = last
latest (some pid) last = some pid

-- The process id that is known of a session's proxy in the end.
abbrev pub known_pid : (ℕ → Option ℕ) → Option ℕ → Option ℕ → Option ℕ
known_pid pid_of none last = last
known_pid pid_of (some proxy) last = latest (pid_of proxy) last

pub record IsClosed (pid_of : ℕ → Option ℕ) (id : String) (s : ManagedSession)
    (before : SessionStore) (c : Closed) : Type 0 where
  pub is_true : c.closed ≡ true
  pub only_it :
      (k : String) → Dict.get k c.store ≡ (if str_eq id k then none else Dict.get k before)
  pub stops_its_proxy : c.stopped ≡ listed s.proxy_manager
  pub awaits_its_stop : c.awaited ≡ listed s.pending_proxy_stop
  pub verifies_its_pid :
      c.verified ≡ pid_to_verify (known_pid pid_of s.proxy_manager s.last_proxy_pid)

-- Of a session that is there, and of one that is not.
abbrev pub CloseOutcome :
    (ℕ → Option ℕ) → String → Option ManagedSession → SessionStore → Closed → Type 0
CloseOutcome pid_of id none before c =
    (c.closed ≡ false) × (c.store ≡ before) × (c.stopped ≡ []) × (c.awaited ≡ [])
CloseOutcome pid_of id (some s) before c = IsClosed pid_of id s before c

leave-stopped :
    (pid_of : ℕ → Option ℕ) (s : ManagedSession)
    → ((leave pid_of s).stopped ≡ listed s.proxy_manager)
      × ((leave pid_of s).awaited ≡ listed s.pending_proxy_stop)
      × ((leave pid_of s).session.last_proxy_pid
          ≡ known_pid pid_of s.proxy_manager s.last_proxy_pid)
unfolding leave
leave-stopped pid_of s = ground arith

close_found-IsClosed :
    (pid_of : ℕ → Option ℕ) (id : String) (now : ℕ) (store : SessionStore) (s : ManagedSession)
    → (c : Closed) × (close_found id now store (leave pid_of s) ≡ some c)
      × IsClosed pid_of id s store c
unfolding update get_or_throw remove
close_found-IsClosed pid_of id now store s =
    let l = leave pid_of s in
    let (stopped, awaited, pid) = leave-stopped pid_of s in
    let before = Dict.put id l.session store in
    let (marked, (done, written)) =
      update_session_state-IsWritten id SessionState.stopped now before l.session
        (get-put_self id l.session store) in
    let changed = change_state SessionState.stopped now l.session in
    let there : Dict.get id marked ≡ some changed = ground (arith, written id, str_eq_iff id id) in
    let over = Dict.put id (record (terminate_lifecycle changed) { updated_at = now }) marked in
    let c : Closed = record {
      closed = true;
      store = Dict.delete id over;
      stopped = l.stopped;
      awaited = l.awaited;
      verified = pid_to_verify l.session.last_proxy_pid;
    } in
    (
      c,
      rw (done, there) refl,
      record {
        is_true = refl;
        only_it = λ k. ground (
          arith,
          get-delete id k over,
          get-put id k (record (terminate_lifecycle changed) { updated_at = now }) marked,
          written k,
          get-put id k l.session store,
        );
        stops_its_proxy = stopped;
        awaits_its_stop = awaited;
        verifies_its_pid = ap pid_to_verify pid;
      },
    )

close_as-CloseOutcome :
    (pid_of : ℕ → Option ℕ) (id : String) (now : ℕ) (store : SessionStore)
    (found : Option ManagedSession)
    → (c : Closed) × (close_as pid_of id now store found ≡ some c)
      × CloseOutcome pid_of id found store c
close_as-CloseOutcome pid_of id now store none = (_, refl, (refl, refl, refl, refl))
close_as-CloseOutcome pid_of id now store (some s) = close_found-IsClosed pid_of id now store s

-- Closing never throws. A session that is not there is reported and nothing changes. One that is there
-- leaves the store, alone; the stop of its proxy manager is called if it has one, a stop that was in
-- flight is awaited, and its latest known process is the one that is looked for afterwards.
pub close_session-CloseOutcome :
    (pid_of : ℕ → Option ℕ) (id : String) (now : ℕ) (store : SessionStore)
    → (c : Closed) × (close_session pid_of id now store ≡ some c)
      × CloseOutcome pid_of id (Dict.get id store) store c
unfolding close_session
close_session-CloseOutcome pid_of id now store =
    close_as-CloseOutcome pid_of id now store (Dict.get id store)
