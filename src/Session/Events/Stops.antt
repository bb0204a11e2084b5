-- ===== src/Session/Events/Stops.antt =====
-- What a stop does: when it is passed over, and what is kept of one that is shown.
use mcp_debugger.Base.{
  ℕ, ◌≡◌, ◌⊎◌, refl, inl, inr, Bool, true, false, not, Option, none, some, List, [], ◌∷◌, ◌++◌,
  String, str_eq, str_eq_iff, Bool-cases,
}
use mcp_debugger.Base.Int.{ℤ}
use mcp_debugger.Base.Reads.{
  Reads, Reads-or, Reads-and, Reads-not, Reads-false, Reads-true, Reads-neither, by_reading,
}
use mcp_debugger.Session.States.{SessionState, same_state, same_state→≡}
use mcp_debugger.Session.Store.{ManagedSession, LastStop, change_state}
use mcp_debugger.Session.Events.{
  Launch, Watched, Effect, auto_continue, request_exception_info, is_user_break,
  should_auto_continue, stop_reason, if_given, last_stop_of, exception_request, handle_stopped,
}

-- The reason of a stop: what the policy makes of the adapter's reason, if that is a text.
abbrev pub IsReason : String → Option String → String → Type 0
IsReason raw_reason none reason = reason ≡ raw_reason
IsReason raw_reason (some normalized) reason =
    ((normalized ≡ "") × (reason ≡ raw_reason)) ⊎ ((¬ (normalized ≡ "")) × (reason ≡ normalized))

abbrev pub IsUserBreak : String → Type 0
IsUserBreak reason =
    (reason ≡ "breakpoint")
    ⊎ ((reason ≡ "function breakpoint")
        ⊎ ((reason ≡ "data breakpoint")
            ⊎ ((reason ≡ "instruction breakpoint") ⊎ (reason ≡ "exception"))))

-- The stops that are passed over: in a launch that neither attaches nor stops on entry, a stop on
-- entry, or a first stop that may stand for one and is no breakpoint's and no exception's.
abbrev pub IsPassedOver : Launch → ManagedSession → String → Type 0
IsPassedOver launch s reason =
    ((launch.request_is_attach ≡ false) × (launch.attach_mode ≡ false))
    × ((launch.stop_on_entry ≡ false)
        × ((reason ≡ "entry")
            ⊎ ((launch.first_stop_may_be_non_entry ≡ true)
                × ((s.first_stop_handled ≡ false) × (¬ IsUserBreak reason)))))

-- A text of the event that is kept, unless it is not there or empty.
abbrev pub IsKept : Option String → Option String → Type 0
IsKept none kept = kept ≡ none
IsKept (some text) kept = ((text ≡ "") × (kept ≡ none)) ⊎ ((¬ (text ≡ "")) × (kept ≡ some text))

-- What is recorded of a stop; the adapter's reason only where another one stands for it.
abbrev pub IsRecord :
    Option ℤ → String → String → Option String → Option String → ℕ → LastStop → Type 0
IsRecord thread_id raw_reason reason description text now stop =
    (stop.reason ≡ reason)
    × ((stop.thread_id ≡ thread_id)
        × ((stop.timestamp ≡ now)
            × ((((reason ≡ raw_reason) × (stop.raw_reason ≡ none))
                  ⊎ ((¬ (reason ≡ raw_reason)) × (stop.raw_reason ≡ some raw_reason)))
                × (IsKept description stop.description × IsKept text stop.text))))

-- The exception's details are asked for when the stop is an exception's by both reasons, its thread
-- is known, and the adapter has such a request.
abbrev pub Asks : Option ℤ → String → String → Bool → List Effect → Type 0
Asks none raw_reason reason supported asked = asked ≡ []
Asks (some thread_id) raw_reason reason supported asked =
    (((reason ≡ "exception") × ((raw_reason ≡ "exception") × (supported ≡ true)))
      × (asked ≡ request_exception_info thread_id ∷ []))
    ⊎ ((¬ ((reason ≡ "exception") × ((raw_reason ≡ "exception") × (supported ≡ true))))
        × (asked ≡ []))

abbrev pub PassesOver : Watched → Watched → Type 0
PassesOver w after =
    (after.session.last_stop ≡ w.session.last_stop)
    × (after.started ≡ w.started ++ auto_continue ∷ [])

abbrev pub Shows :
    ℕ → Option ℤ → String → String → Option String → Option String → Watched → Watched → Type 0
Shows now thread_id raw_reason reason description text w after =
    ((stop : LastStop) × ((after.session.last_stop ≡ some stop)
        × IsRecord thread_id raw_reason reason description text now stop))
    × ((asked : List Effect) × ((after.started ≡ w.started ++ asked)
          × Asks thread_id raw_reason reason w.session.supports_exception_info_request asked))

-- What a stop leaves, either way.
abbrev pub IsHandled :
    Launch
    → ℕ
    → Option ℤ
    → String
    → Option String
    → Option String
    → Option String
    → Watched
    → Watched
    → Type 0
IsHandled launch now thread_id raw_reason normalized description text w after =
    ((after.session.state ≡ SessionState.paused)
      × ((after.session.first_stop_handled ≡ true) × (after.session.pause_pending ≡ false)))
    × ((reason : String) × (IsReason raw_reason normalized reason
          × ((IsPassedOver launch w.session reason × PassesOver w after)
              ⊎ ((¬ IsPassedOver launch w.session reason)
                  × Shows now thread_id raw_reason reason description text w after))))

Reads-is_user_break : (reason : String) → Reads (is_user_break reason) (IsUserBreak reason)
Reads-is_user_break reason = Reads-or _ _ (str_eq_iff reason "breakpoint") (
    Reads-or _ _ (str_eq_iff reason "function breakpoint") (
      Reads-or _ _ (str_eq_iff reason "data breakpoint") (
        Reads-or _ _ (str_eq_iff reason "instruction breakpoint") (str_eq_iff reason "exception"))))

Reads-should_auto_continue :
    (launch : Launch) (s : ManagedSession) (reason : String)
    → Reads
        (should_auto_continue launch (not s.first_stop_handled) reason)
        (IsPassedOver launch s reason)
Reads-should_auto_continue launch s reason =
    Reads-and _ _ (Reads-neither launch.request_is_attach launch.attach_mode) (
      Reads-and _ _ (Reads-false launch.stop_on_entry) (
        Reads-or _ _ (str_eq_iff reason "entry") (
          Reads-and _ _ (Reads-true launch.first_stop_may_be_non_entry) (
            Reads-and _ _ (Reads-false s.first_stop_handled)
              (Reads-not (is_user_break reason) (Reads-is_user_break reason))))))

stop_reason-IsReason :
    (raw_reason : String) (normalized : Option String)
    → IsReason raw_reason normalized (stop_reason raw_reason normalized)
stop_reason-IsReason raw_reason none = refl
stop_reason-IsReason raw_reason (some normalized) =
    by_reading (λ reason. IsReason raw_reason (some normalized) reason) _ _ _
      (str_eq_iff normalized "") (λ e. inl (e, refl)) (λ n. inr (n, refl))

if_given-IsKept : (text : Option String) → IsKept text (if_given text)
if_given-IsKept none = refl
if_given-IsKept (some text) = elim (Bool-cases (str_eq text "")) [
  | inl same ↦ rw same (inl ((str_eq_iff text "").0 same, refl))
  | inr other ↦ rw other (inr (λ p. let apart = (str_eq_iff text "").1 p in absurd cc, refl))
]

exception_request-Asks :
    (thread_id : Option ℤ) (raw_reason reason : String) (supported : Bool)
    → Asks thread_id raw_reason reason supported
        (exception_request thread_id raw_reason reason supported)
exception_request-Asks none raw_reason reason supported = refl
exception_request-Asks (some thread_id) raw_reason reason supported =
    by_reading (Asks (some thread_id) raw_reason reason supported) _ _ _
      (Reads-and _ _ (str_eq_iff reason "exception")
        (Reads-and _ _ (str_eq_iff raw_reason "exception") (Reads-true supported)))
      (λ e. inl (e, refl)) (λ n. inr (n, refl))

last_stop_of-IsRecord :
    (thread_id : Option ℤ) (raw_reason reason : String) (description text : Option String) (now : ℕ)
    → IsRecord thread_id raw_reason reason description text now
        (last_stop_of thread_id raw_reason reason description text now)
last_stop_of-IsRecord thread_id raw_reason reason description text now = (
  refl,
  (
    refl,
    (
      refl,
      (
        by_reading
            (λ shown.
              ((reason ≡ raw_reason) × (shown ≡ none))
              ⊎ ((¬ (reason ≡ raw_reason)) × (shown ≡ some raw_reason)))
            _ _ _ (str_eq_iff reason raw_reason) (λ e. inl (e, refl)) (λ n. inr (n, refl)),
        (if_given-IsKept description, if_given-IsKept text),
      ),
    ),
  ),
)

change_state-last_stop :
    (st : SessionState) (now : ℕ) (s : ManagedSession)
    → let after = change_state st now s in
      (after.last_stop ≡ s.last_stop)
      × ((after.state ≡ st) × (after.pause_pending ≡ s.pause_pending))
unfolding change_state
change_state-last_stop st now s = elim (Bool-cases (same_state s.state st)) [
  | inl same ↦ rw (same, change_state) (refl, (same_state→≡ s.state st same, refl))
  | inr other ↦ rw (other, change_state) (refl, (refl, refl))
]

-- A stop sets the session to paused, before what it starts has run, counts as handled and ends a
-- pending pause. Its reason is the policy's, if the policy gives a text that is not empty, else the
-- adapter's. It is passed over exactly when the session neither attaches nor stops on entry, and
-- either the reason is "entry" or the stop is the first one of a launch whose first stop may be
-- another, with a reason that is none of the five of breakpoints and exceptions: then the recorded
-- last stop is left alone, and continuing is all that is started. Every other stop is recorded with
-- its reasons, thread, time and texts, and nothing is started but a request for an exception's
-- details: exactly when both reasons are "exception", the thread is known and the adapter has the
-- request.
pub handle_stopped_lem :
    (launch : Launch) (now : ℕ) (thread_id : Option ℤ) (raw_reason : String)
    (normalized description text : Option String) (w : Watched)
    → IsHandled launch now thread_id raw_reason normalized description text w
        (handle_stopped launch now thread_id raw_reason normalized description text w)
unfolding handle_stopped
handle_stopped_lem launch now thread_id raw_reason normalized description text w =
    let reason = stop_reason raw_reason normalized in
    let session = record (w.session) { pause_pending = false } in
    let stop = last_stop_of thread_id raw_reason reason description text now in
    let over = change_state-last_stop SessionState.paused now session in
    let shown =
      change_state-last_stop SessionState.paused now (record session { last_stop = some stop }) in
    let by_reason = stop_reason-IsReason raw_reason normalized in
    by_reading (IsHandled launch now thread_id raw_reason normalized description text w)
      (should_auto_continue launch (not w.session.first_stop_handled) reason) _ _
      (Reads-should_auto_continue launch w.session reason)
      (λ p. ((over.1.0, (refl, over.1.1)), (reason, (by_reason, inl (p, (over.0, refl))))))
      (λ n. (
        (shown.1.0, (refl, shown.1.1)),
        (
          reason,
          (
            by_reason,
            inr (
              n,
              (
                (
                  stop,
                  (shown.0, last_stop_of-IsRecord thread_id raw_reason reason description text now),
                ),
                (
                  exception_request thread_id raw_reason reason
                      w.session.supports_exception_info_request,
                  (refl, exception_request-Asks thread_id raw_reason reason _),
                ),
              ),
            ),
          ),
        ),
      ))
