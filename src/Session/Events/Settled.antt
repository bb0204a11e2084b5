-- ===== src/Session/Events/Settled.antt =====
-- How a session ends, and that it stays ended.
use mcp_debugger.Base.{
  ℕ, ◌≡◌, refl, sym, ap, subst, ◌∙◌, inl, inr, Bool, true, false, not, Option, List, [], ◌∷◌,
  String, arith, Bool-cases,
}
use mcp_debugger.Base.Int.{ℤ}
use mcp_debugger.Session.Store.{ManagedSession}
use mcp_debugger.Session.Store.Laws.{IsConsistent}
use mcp_debugger.Session.Events.{
  Launch, Watched, ProxyEvent, stopped, continued, terminated, adapter_configured, dry_run_complete,
  failed, exited, exit, should_auto_continue, stop_reason, handle_stopped, handle, deliver,
}
use mcp_debugger.Session.Events.Consistent.{
  if-same, if-true, if-false, HasEnded, EndedUnless, IsWatched, handle_continued-IsConsistent,
  handle_adapter_configured-IsConsistent, handle_dry_run_complete-IsConsistent,
  handle_stopped-IsConsistent, Ends, handle_exit-Ends, handle_terminated-Ends, handle_exited-Ends,
  handle_error-Ends,
}

handle_stopped-listening :
    (launch : Launch) (now : ℕ) (thread_id : Option ℤ) (raw_reason : String)
    (normalized description text : Option String) (w : Watched)
    → (handle_stopped launch now thread_id raw_reason normalized description text w).listening
      ≡ w.listening
unfolding handle_stopped
handle_stopped-listening launch now thread_id raw_reason normalized description text w =
    if-same
      (should_auto_continue launch (not w.session.first_stop_handled)
        (stop_reason raw_reason normalized))
      _ _ (λ (x : Watched). x.listening) w.listening refl refl

listening-EndedUnless : (l : Bool) (s : ManagedSession) → l ≡ true → EndedUnless l s
listening-EndedUnless true s h = tt
listening-EndedUnless false s h = absurd (ground (arith, h))

handle-IsWatched :
    (launch : Launch) (now : ℕ) (e : ProxyEvent) (w : Watched)
    → IsConsistent w.session
    → w.listening ≡ true
    → IsWatched (handle launch now e w)
unfolding handle
handle-IsWatched launch now (stopped thread_id raw_reason normalized description text) w c l = (
  handle_stopped-IsConsistent launch now thread_id raw_reason normalized description text w c,
  listening-EndedUnless _ _
      (handle_stopped-listening launch now thread_id raw_reason normalized description text w ∙ l),
)
handle-IsWatched launch now continued w c l =
    (handle_continued-IsConsistent now w.session c, rw l tt)
handle-IsWatched launch now adapter_configured w c l =
    (handle_adapter_configured-IsConsistent launch now w.session c, rw l tt)
handle-IsWatched launch now dry_run_complete w c l =
    (handle_dry_run_complete-IsConsistent launch now w.session c, rw l tt)
handle-IsWatched launch now terminated w c l = handle_terminated-Ends launch now w.session c
handle-IsWatched launch now (exited exit_code) w c l =
    handle_exited-Ends launch now exit_code w.session c
handle-IsWatched launch now failed w c l = handle_error-Ends launch now w.session c
handle-IsWatched launch now (exit code signal expected) w c l =
    handle_exit-Ends launch now code signal expected w.session c

-- Without handlers, events do nothing.
deliver-silent :
    (launch : Launch) (es : List (ℕ × ProxyEvent)) (w : Watched)
    → w.listening ≡ false
    → deliver launch es w ≡ w
unfolding deliver
deliver-silent launch [] w l = refl
deliver-silent launch ((now, e) ∷ es) w l =
    ap (deliver launch es) (if-false w.listening _ w l) ∙ deliver-silent launch es w l

-- Over the events of a launch, in any order and number, the two models of the state agree after them
-- if they did before, and once the handlers are gone the session has no proxy manager and is
-- stopped or in error, if that held before.
pub deliver-IsWatched :
    (launch : Launch) (es : List (ℕ × ProxyEvent)) (w : Watched)
    → IsWatched w
    → IsWatched (deliver launch es w)
unfolding deliver
deliver-IsWatched launch [] w h = h
deliver-IsWatched launch ((now, e) ∷ es) w h = elim (Bool-cases w.listening) [
  | inl on ↦
      subst (λ x. IsWatched (deliver launch es x)) (sym (if-true w.listening _ w on))
        (deliver-IsWatched launch es (handle launch now e w)
          (handle-IsWatched launch now e w h.0 on))
  | inr off ↦
      subst (λ x. IsWatched (deliver launch es x)) (sym (if-false w.listening _ w off))
        (deliver-IsWatched launch es w h)
]

abbrev pub is_terminal : ProxyEvent → Bool
is_terminal terminated = true
is_terminal failed = true
is_terminal (exited exit_code) = true
is_terminal (exit code signal expected) = true
is_terminal e = false

off-HasEnded : (l : Bool) (s : ManagedSession) → l ≡ false → EndedUnless l s → HasEnded s
off-HasEnded true s h k = absurd (ground (arith, h))
off-HasEnded false s h k = k

handle-over :
    (launch : Launch) (now : ℕ) (e : ProxyEvent) (w : Watched)
    → is_terminal e ≡ true
    → (handle launch now e w).listening ≡ false
unfolding handle
handle-over launch now (stopped thread_id raw_reason normalized description text) w t =
    absurd (ground (arith, t))
handle-over launch now continued w t = absurd (ground (arith, t))
handle-over launch now adapter_configured w t = absurd (ground (arith, t))
handle-over launch now dry_run_complete w t = absurd (ground (arith, t))
handle-over launch now terminated w t = refl
handle-over launch now (exited exit_code) w t = refl
handle-over launch now failed w t = refl
handle-over launch now (exit code signal expected) w t = refl

-- The first terminated, exited, error or exit event of a launch decides how its session ends: with
-- handlers registered and the two models agreeing before it, the session then has no proxy manager
-- and is stopped or in error, and no later event of that launch changes anything.
pub deliver-terminal :
    (launch : Launch) (now : ℕ) (e : ProxyEvent) (later : List (ℕ × ProxyEvent)) (w : Watched)
    → IsConsistent w.session
    → w.listening ≡ true
    → is_terminal e ≡ true
    → (deliver launch ((now, e) ∷ later) w ≡ handle launch now e w)
      × Ends (handle launch now e w).session
unfolding deliver
deliver-terminal launch now e later w c on t =
    let watched = handle-IsWatched launch now e w c on in
    (
      ap (deliver launch later) (if-true w.listening _ w on)
          ∙ deliver-silent launch later (handle launch now e w) (handle-over launch now e w t),
      (watched.0, off-HasEnded _ _ (handle-over launch now e w t) watched.1),
    )
