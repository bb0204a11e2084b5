-- ===== src/Session/Store/Laws.antt =====
-- The states of the sessions in the store.
use mcp_debugger.Base.{
  Bool, ℕ, ◌≡◌, refl, subst, true, false, Option, none, some, [], ◌∷◌, ◌++◌, if◌then◌else◌, String,
  string_eq, str_eq, arith, Bool-cases, inl, inr, str_eq_iff,
}
use mcp_debugger.Base.Dict
use mcp_debugger.Base.Dict.{get-put, get-put_self}
use mcp_debugger.Session.States.{
  SessionState, map_legacy_state, map_to_legacy_state, same_state, same_state→≡,
}
use mcp_debugger.Session.Store.{
  SessionStore, ManagedSession, CreateSessionParams, debug_languages, includes_language,
  new_session, info_of, create_session, get_or_throw, update, with_state, update_state, get_all,
  update_session_state, restated, change_state,
}

-- The old model's state of a session that went through the new model: only `ready` is lost.
abbrev pub collapse : SessionState → SessionState
collapse SessionState.ready = SessionState.initializing
collapse s = s

-- A state mapped to the new model and back is the same, but that `ready` comes back as
-- `initializing`.
pub map_to_legacy_state-map_legacy_state :
    (s : SessionState)
    → map_to_legacy_state (map_legacy_state s).lifecycle (map_legacy_state s).execution ≡ collapse s
unfolding map_legacy_state map_to_legacy_state
map_to_legacy_state-map_legacy_state SessionState.created = refl
map_to_legacy_state-map_legacy_state SessionState.initializing = refl
map_to_legacy_state-map_legacy_state SessionState.ready = refl
map_to_legacy_state-map_legacy_state SessionState.running = refl
map_to_legacy_state-map_legacy_state SessionState.paused = refl
map_to_legacy_state-map_legacy_state SessionState.stopped = refl
map_to_legacy_state-map_legacy_state SessionState.error = refl

-- The two models say the same of a session.
abbrev pub IsConsistent : ManagedSession → Type 0
IsConsistent s =
    (s.session_lifecycle ≡ (map_legacy_state s.state).lifecycle)
    × (s.execution_state ≡ (map_legacy_state s.state).execution)

-- A change of state of a session that is there.
update_session_state_same :
    (id : String) (new_state : SessionState) (now : ℕ) (store : SessionStore) (s : ManagedSession)
    → Dict.get id store ≡ some s
    → same_state s.state new_state ≡ true
    → update_session_state id new_state now store ≡ some store
unfolding update_session_state get_or_throw
update_session_state_same id new_state now store s there same = rw (there, same) refl

update_session_state_other :
    (id : String) (new_state : SessionState) (now : ℕ) (store : SessionStore) (s : ManagedSession)
    → Dict.get id store ≡ some s
    → same_state s.state new_state ≡ false
    → update_session_state id new_state now store
      ≡ some
          (Dict.put id (restated new_state now s) (Dict.put id (with_state new_state now s) store))
unfolding update_session_state get_or_throw update update_state
update_session_state_other id new_state now store s there other =
    rw (there, other, get-put_self) refl

-- The store after one session was written: that session is there, the others are what they were.
abbrev pub IsWritten : String → ManagedSession → SessionStore → SessionStore → Type 0
IsWritten id s before after =
    (k : String) → Dict.get k after ≡ (if str_eq id k then some s else Dict.get k before)

get-unchanged :
    (id : String) (s : ManagedSession) (store : SessionStore)
    → Dict.get id store ≡ some s
    → IsWritten id s store store
get-unchanged id s store there k = elim (Bool-cases (str_eq id k)) [
  | inl same ↦ rw same (subst (λ j. Dict.get j store ≡ some s) ((str_eq_iff id k).0 same) there)
  | inr other ↦ rw other refl
]

get-put_twice :
    (id : String) (s t : ManagedSession) (store : SessionStore)
    → IsWritten id s store (Dict.put id s (Dict.put id t store))
get-put_twice id s t store k = rw (get-put, get-put) (ground arith)

abbrev pub IsRestated :
    String → SessionState → ManagedSession → SessionStore → Option SessionStore → Type 0
IsRestated id new_state s before outcome =
    (s.state ≡ new_state)
    × (IsConsistent s
        × ((after : SessionStore) × ((outcome ≡ some after) × IsWritten id s before after)))

pub change_state-IsConsistent :
    (new_state : SessionState) (now : ℕ) (s : ManagedSession)
    → IsConsistent s
    → ((change_state new_state now s).state ≡ new_state)
      × IsConsistent (change_state new_state now s)
unfolding change_state
change_state-IsConsistent new_state now s agree = elim (Bool-cases (same_state s.state new_state)) [
  | inl same ↦ rw (same, change_state) (same_state→≡ s.state new_state same, agree)
  | inr other ↦ rw (other, change_state) (refl, (refl, refl))
]

pub update_session_state-IsWritten :
    (id : String) (new_state : SessionState) (now : ℕ) (store : SessionStore) (s : ManagedSession)
    → Dict.get id store ≡ some s
    → (after : SessionStore) × ((update_session_state id new_state now store ≡ some after)
        × IsWritten id (change_state new_state now s) store after)
unfolding change_state
update_session_state-IsWritten id new_state now store s there =
    elim (Bool-cases (same_state s.state new_state)) [
      | inl same ↦
          rw (same, change_state)
            (
              store,
              (
                update_session_state_same id new_state now store s there same,
                get-unchanged id s store there,
              ),
            )
      | inr other ↦
          rw (other, change_state)
            (
              _,
              (
                update_session_state_other id new_state now store s there other,
                get-put_twice id (restated new_state now s) (with_state new_state now s) store,
              ),
            )
    ]

-- Changing the state of a session that is in the store, on which the two models agree, succeeds: it
-- is there in the new state, the models agree on it, and every other session is what it was.
pub update_session_state-IsRestated :
    (id : String) (new_state : SessionState) (now : ℕ) (store : SessionStore) (s : ManagedSession)
    → Dict.get id store ≡ some s
    → IsConsistent s
    → IsRestated id new_state
        (change_state new_state now s)
        store
        (update_session_state id new_state now store)
update_session_state-IsRestated id new_state now store s there agree =
    let changed = change_state-IsConsistent new_state now s agree in
    (changed.0, (changed.1, update_session_state-IsWritten id new_state now store s there))

get_all-put :
    (is_running : ℕ → Bool) (id : String) (s : ManagedSession) (store : SessionStore)
    → Dict.get id store ≡ none
    → get_all is_running (Dict.put id s store)
      ≡ get_all is_running store ++ info_of is_running s ∷ []
unfolding get_all Dict.get Dict.put
get_all-put is_running id s [] fresh = refl
get_all-put is_running id s ((k, t) ∷ store) fresh =
    ground (arith, get_all-put is_running id s store)

new_session-IsConsistent :
    (resolve_path : String → Option String → Option String) (params : CreateSessionParams)
    (id : String) (now : ℕ)
    → IsConsistent (new_session resolve_path params id now)
unfolding new_session map_legacy_state
new_session-IsConsistent resolve_path params id now = (refl, refl)

-- A new session with a supported language, under an id that is not in use, is in the store, comes
-- last in the list, and the two models agree on it; every other session is what it was.
pub create_session_lem :
    (resolve_path : String → Option String → Option String) (params : CreateSessionParams)
    (id : String) (now : ℕ) (is_running : ℕ → Bool) (store : SessionStore)
    → Dict.get id store ≡ none
    → includes_language params.language debug_languages ≡ true
    → let session = new_session resolve_path params id now in
      IsConsistent session
      × ((after : SessionStore) × ((create_session resolve_path params id now store
              ≡ some (info_of is_running session, after))
            × (IsWritten id session store after
                × (get_all is_running after
                    ≡ get_all is_running store ++ info_of is_running session ∷ []))))
unfolding create_session info_of new_session
create_session_lem resolve_path params id now is_running store fresh supported = (
  new_session-IsConsistent resolve_path params id now,
  (_, (rw supported refl, ((λ k. get-put id k _ store), get_all-put is_running id _ store fresh))),
)
