-- ===== src/Session/Events/Consistent.antt =====
-- Every handler keeps the two models of the state in agreement, and those that end a session end it.
use mcp_debugger.Base.{
  ℕ, ◌≡◌, refl, ◌∙◌, ◌⊎◌, inl, inr, Bool, true, false, not, ◌||◌, Option, none, some, if◌then◌else◌,
  String, arith, Bool-cases,
}
use mcp_debugger.Base.Int.{ℤ}
use mcp_debugger.Session.States.{SessionState, same_state, same_state→≡}
use mcp_debugger.Session.Store.{ManagedSession, change_state}
use mcp_debugger.Session.Store.Laws.{IsConsistent, change_state-IsConsistent}
use mcp_debugger.Session.Events.{
  Launch, Watched, should_auto_continue, stop_reason, last_stop_of, handle_stopped,
  handle_continued, handle_adapter_configured, release, handle_terminated, handle_exited,
  handle_error, handle_dry_run_complete, exit_state, exit_code_after, is_defined, is_zero, given,
  handle_exit,
}

pub if-same {ℓ κ} :
    {A : Type ℓ} {B : Type κ} (b : Bool) (x y : A) (f : A → B) (z : B)
    → f x ≡ z
    → f y ≡ z
    → f (if b then x else y) ≡ z
if-same true x y f z h k = h
if-same false x y f z h k = k

pub if-true {ℓ} : {A : Type ℓ} (b : Bool) (x y : A) → b ≡ true → (if b then x else y) ≡ x
if-true true x y h = refl
if-true false x y h = absurd (ground (arith, h))

pub if-false {ℓ} : {A : Type ℓ} (b : Bool) (x y : A) → b ≡ false → (if b then x else y) ≡ y
if-false true x y h = absurd (ground (arith, h))
if-false false x y h = refl

abbrev pub HasEnded : ManagedSession → Type 0
HasEnded s =
    (s.proxy_manager ≡ none) × ((s.state ≡ SessionState.stopped) ⊎ (s.state ≡ SessionState.error))

-- Where no handler is registered any more, the session has ended.
abbrev pub EndedUnless : Bool → ManagedSession → Type 0
EndedUnless true s = Unit {0}
EndedUnless false s = HasEnded s

abbrev pub IsWatched : Watched → Type 0
IsWatched w = IsConsistent w.session × EndedUnless w.listening w.session

pub handle_continued-IsConsistent :
    (now : ℕ) (s : ManagedSession) → IsConsistent s → IsConsistent (handle_continued now s)
unfolding handle_continued
handle_continued-IsConsistent now s c = elim (Bool-cases (same_state s.state SessionState.paused)) [
  | inl same ↦ rw (same, handle_continued) c
  | inr other ↦
      rw (other, handle_continued) (change_state-IsConsistent SessionState.running now s c).1
]

pub handle_adapter_configured-IsConsistent :
    (launch : Launch) (now : ℕ) (s : ManagedSession)
    → IsConsistent s
    → IsConsistent (handle_adapter_configured launch now s)
unfolding handle_adapter_configured
handle_adapter_configured-IsConsistent launch now s c = elim (Bool-cases launch.stop_on_entry) [
  | inl waits ↦ rw (waits, handle_adapter_configured) c
  | inr runs ↦
      rw (runs, handle_adapter_configured)
        (change_state-IsConsistent SessionState.running now s c).1
]

pub handle_dry_run_complete-IsConsistent :
    (launch : Launch) (now : ℕ) (s : ManagedSession)
    → IsConsistent s
    → IsConsistent (handle_dry_run_complete launch now s)
unfolding handle_dry_run_complete
handle_dry_run_complete-IsConsistent launch now s c =
    let changed = (change_state-IsConsistent SessionState.stopped now s c).1 in
    elim (Bool-cases launch.dry_run_handler_setup) [
      | inl waits ↦ rw (waits, handle_dry_run_complete) changed
      | inr none_waits ↦ rw (none_waits, handle_dry_run_complete) changed
    ]

pub handle_stopped-IsConsistent :
    (launch : Launch) (now : ℕ) (thread_id : Option ℤ) (raw_reason : String)
    (normalized description text : Option String) (w : Watched)
    → IsConsistent w.session
    → IsConsistent
        (handle_stopped launch now thread_id raw_reason normalized description text w).session
unfolding handle_stopped
handle_stopped-IsConsistent launch now thread_id raw_reason normalized description text w c =
    let reason = stop_reason raw_reason normalized in
    let session = record (w.session) { pause_pending = false } in
    let recorded = record session {
      last_stop = some (last_stop_of thread_id raw_reason reason description text now);
    } in
    elim (Bool-cases (should_auto_continue launch (not session.first_stop_handled) reason)) [
      | inl goes_on ↦
          rw (goes_on, handle_stopped)
            (change_state-IsConsistent SessionState.paused now session c).1
      | inr stays ↦
          rw (stays, handle_stopped)
            (change_state-IsConsistent SessionState.paused now recorded c).1
    ]

abbrev pub Ends : ManagedSession → Type 0
Ends s = IsConsistent s × HasEnded s

change_state-Ends :
    (launch : Launch) (reap : Bool) (st : SessionState) (now : ℕ) (s : ManagedSession)
    → IsConsistent s
    → (st ≡ SessionState.stopped) ⊎ (st ≡ SessionState.error)
    → Ends (release launch reap (change_state st now s))
unfolding release
change_state-Ends launch reap st now s c (inl e) =
    let changed = change_state-IsConsistent st now s c in (changed.1, (refl, inl (changed.0 ∙ e)))
change_state-Ends launch reap st now s c (inr e) =
    let changed = change_state-IsConsistent st now s c in (changed.1, (refl, inr (changed.0 ∙ e)))

abbrev IsEnd : SessionState → Type 0
IsEnd st = (st ≡ SessionState.stopped) ⊎ (st ≡ SessionState.error)

if-ends : (b : Bool) (s t : SessionState) → IsEnd s → IsEnd t → IsEnd (if b then s else t)
if-ends true s t h k = h
if-ends false s t h k = k

exit_state-ends :
    (code : Option ℤ) (signal : Option String) (expected : Option Bool)
    → IsEnd (exit_state code signal expected)
unfolding exit_state
exit_state-ends code signal (some true) = inl refl
exit_state-ends code signal (some false) = if-ends (is_zero code) _ _ (inl refl) (inr refl)
exit_state-ends none signal none = if-ends (given signal) _ _ (inr refl) (inl refl)
exit_state-ends (some code) signal none = if-ends (is_zero (some code)) _ _ (inl refl) (inr refl)

or-IsEnd :
    (st : SessionState)
    → same_state st SessionState.stopped || same_state st SessionState.error ≡ true
    → IsEnd st
or-IsEnd st h = elim (Bool-cases (same_state st SessionState.stopped)) [
  | inl a ↦ inl (same_state→≡ st SessionState.stopped a)
  | inr a ↦ inr (same_state→≡ st SessionState.error (simp a at h))
]

release-Ends :
    (launch : Launch) (reap : Bool) (s : ManagedSession)
    → IsConsistent s
    → IsEnd s.state
    → Ends (release launch reap s)
unfolding release
release-Ends launch reap s c e = (c, (refl, e))

pub handle_exit-Ends :
    (launch : Launch) (now : ℕ) (code : Option ℤ) (signal : Option String) (expected : Option Bool)
    (s : ManagedSession)
    → IsConsistent s
    → Ends (handle_exit launch now code signal expected s)
unfolding handle_exit
handle_exit-Ends launch now code signal expected s c =
    let recorded = record s { exit_code = exit_code_after s.exit_code expected code } in
    elim (Bool-cases
      (same_state s.state SessionState.stopped || same_state s.state SessionState.error)) [
        | inl ended ↦
            rw (ended, handle_exit)
              (release-Ends launch (is_defined expected) s c (or-IsEnd s.state ended))
        | inr alive ↦
            rw (alive, handle_exit)
              (change_state-Ends launch (is_defined expected) (exit_state code signal expected) now
                recorded c (exit_state-ends code signal expected))
      ]

pub handle_terminated-Ends :
    (launch : Launch) (now : ℕ) (s : ManagedSession)
    → IsConsistent s
    → Ends (handle_terminated launch now s)
unfolding handle_terminated
handle_terminated-Ends launch now s c =
    change_state-Ends launch true SessionState.stopped now s c (inl refl)

pub handle_exited-Ends :
    (launch : Launch) (now : ℕ) (exit_code : Option ℤ) (s : ManagedSession)
    → IsConsistent s
    → Ends (handle_exited launch now exit_code s)
unfolding handle_exited
handle_exited-Ends launch now exit_code s c =
    change_state-Ends launch true SessionState.stopped now _ c (inl refl)

pub handle_error-Ends :
    (launch : Launch) (now : ℕ) (s : ManagedSession)
    → IsConsistent s
    → Ends (handle_error launch now s)
unfolding handle_error
handle_error-Ends launch now s c =
    change_state-Ends launch true SessionState.error now s c (inr refl)
