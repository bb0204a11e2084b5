-- ===== src/Proxy/RequestTracker/Linked.antt =====
-- Requests and timers are linked one to one, over any history.
use mcp_debugger.Base.{
  ℕ, ◌+◌, ◌<◌, ◌≡◌, ◌≢◌, refl, inl, inr, String, Bool, Option, none, some, List, [], ◌∷◌, arith,
  str_eq, str_eq_iff, ◌==◌, Bool-cases, Option-cases, nat_eq, string_eq,
}
use mcp_debugger.Base.Dict
use mcp_debugger.Base.Dict.{Dict, get-put, get-delete, get-delete_self}
use mcp_debugger.Proxy.RequestTracker.{
  TrackedRequest, Timer, RequestTracker, new_tracker, complete, track, on_timer, fire, clear_all,
  clear, Action, track_request, complete_request, fire_timer, clear_requests, step, run,
}

-- The timer of a pending request is live and stands for that request; the request of a live timer
-- is pending under that timer, with the same command; new timers get new numbers.
pub record Linked (s : RequestTracker) : Type 0 where
  pub live :
      (id : String) (r : TrackedRequest)
      → Dict.get id s.pending_requests ≡ some r
      → (t : Timer) × (Dict.get r.timer s.timers ≡ some t) × (t.request_id ≡ id)
  pub pending :
      (i : ℕ) (t : Timer)
      → Dict.get i s.timers ≡ some t
      → (r : TrackedRequest) × (Dict.get t.request_id s.pending_requests ≡ some r)
        × (r.timer ≡ i)
        × (r.command ≡ t.command)
  pub fresh : (i : ℕ) (t : Timer) → Dict.get i s.timers ≡ some t → i < s.next_timer

-- The state without one request and its timer.
abbrev without : RequestTracker → String → ℕ → RequestTracker
without s id i = record s {
  timers = Dict.delete i s.timers;
  pending_requests = Dict.delete id s.pending_requests;
}

module _ (s : RequestTracker) (v : Linked s) where
  same_timer :
      (id j : String) (r u : TrackedRequest)
      → Dict.get id s.pending_requests ≡ some r
      → Dict.get j s.pending_requests ≡ some u
      → r.timer ≡ u.timer
      → id ≡ j
  same_timer id j r u hr hu e =
      let (t, live, same) = v.live id r hr in let (t', live', same') = v.live j u hu in cc

  without-live :
      (id : String) (r : TrackedRequest)
      → Dict.get id s.pending_requests ≡ some r
      → (j : String) (u : TrackedRequest) → Dict.get j (Dict.delete id s.pending_requests) ≡ some u
      → (t : Timer) × (Dict.get u.timer (Dict.delete r.timer s.timers) ≡ some t)
        × (t.request_id ≡ j)
  without-live id r hr j u hu =
      let other : (id ≢ j) × (Dict.get j s.pending_requests ≡ some u) =
        ground (arith, get-delete id j s.pending_requests, str_eq_iff id j) in
      let (t, live, same) = v.live j u other.1 in
      (t, ground (arith, get-delete r.timer u.timer s.timers, same_timer id j r u hr other.1), same)

  without-pending :
      (id : String) (r : TrackedRequest)
      → Dict.get id s.pending_requests ≡ some r
      → (i : ℕ) (t : Timer) → Dict.get i (Dict.delete r.timer s.timers) ≡ some t
      → (u : TrackedRequest) × (Dict.get t.request_id (Dict.delete id s.pending_requests) ≡ some u)
        × (u.timer ≡ i)
        × (u.command ≡ t.command)
  without-pending id r hr i t ht =
      let other : (r.timer ≢ i) × (Dict.get i s.timers ≡ some t) =
        ground (arith, get-delete r.timer i s.timers) in
      let (u, held, timed, same) = v.pending i t other.1 in
      let apart : id ≢ t.request_id = λ e. other.0 (let both : r ≡ u = cc in cc) in
      (
        u,
        ground (
          arith,
          get-delete id t.request_id s.pending_requests,
          str_eq_iff id t.request_id,
          apart,
        ),
        timed,
        same,
      )

  without-Linked :
      (id : String) (r : TrackedRequest)
      → Dict.get id s.pending_requests ≡ some r
      → Linked (without s id r.timer)
  without-Linked id r hr = record {
    live = without-live id r hr;
    pending = without-pending id r hr;
    fresh = λ i t ht. v.fresh i t (ground (arith, get-delete r.timer i s.timers));
  }

  complete-Linked : (id : String) → Linked (complete s id)
  unfolding complete
  complete-Linked id = elim (Option-cases (Dict.get id s.pending_requests)) [
    | inl e ↦ rw (e, complete) v
    | inr (r, e) ↦ rw (e, complete) (without-Linked id r e)
  ]

  complete-none : (id : String) → Dict.get id (complete s id).pending_requests ≡ none
  unfolding complete
  complete-none id = elim (Option-cases (Dict.get id s.pending_requests)) [
    | inl e ↦ rw (e, complete) e
    | inr (r, e) ↦ rw (e, complete) (get-delete_self id s.pending_requests)
  ]

  fire-Linked : (i : ℕ) → Linked (fire s i)
  unfolding fire on_timer
  fire-Linked i = elim (Option-cases (Dict.get i s.timers)) [
    | inl e ↦ rw (e, fire) v
    | inr (t, e) ↦
        let (r, held, timed, same) = v.pending i t e in
        let out = without-Linked t.request_id r held in
        rw (e, fire, held, on_timer, ← timed)
          (record { live = out.live; pending = out.pending; fresh = out.fresh })
  ]

-- A fresh timer for a request that was not pending.
module _ (s : RequestTracker) (v : Linked s) where
  abbrev entered : TrackedRequest → Timer → RequestTracker
  entered r t = record s {
    timers = Dict.put s.next_timer t s.timers;
    next_timer = s.next_timer + 1;
    pending_requests = Dict.put r.request_id r s.pending_requests;
  }

  module _ (r : TrackedRequest) (t : Timer) (at_next : r.timer ≡ s.next_timer)
      (same_id : t.request_id ≡ r.request_id) (same_command : t.command ≡ r.command)
      (absent : Dict.get r.request_id s.pending_requests ≡ none) where
    entered-live :
        (id : String) (u : TrackedRequest)
        → Dict.get id (Dict.put r.request_id r s.pending_requests) ≡ some u
        → (w : Timer) × (Dict.get u.timer (Dict.put s.next_timer t s.timers) ≡ some w)
          × (w.request_id ≡ id)
    entered-live id u hu = elim (Bool-cases (str_eq r.request_id id)) [
      | inl e ↦
          let same : r ≡ u = ground (arith, get-put r.request_id id r s.pending_requests) in
          (
            t,
            ground (arith, get-put s.next_timer u.timer t s.timers),
            ground (arith, str_eq_iff r.request_id id),
          )
      | inr e ↦
          let old : Dict.get id s.pending_requests ≡ some u =
            ground (arith, get-put r.request_id id r s.pending_requests) in
          let (w, live, same) = v.live id u old in
          (w, ground (arith, get-put s.next_timer u.timer t s.timers, v.fresh u.timer w live), same)
    ]

    entered-pending :
        (i : ℕ) (w : Timer)
        → Dict.get i (Dict.put s.next_timer t s.timers) ≡ some w
        → (u : TrackedRequest) × (Dict.get w.request_id (Dict.put r.request_id r s.pending_requests)
            ≡ some u)
          × (u.timer ≡ i)
          × (u.command ≡ w.command)
    entered-pending i w hw = elim (Bool-cases (s.next_timer == i)) [
      | inl e ↦
          let same : t ≡ w = ground (arith, get-put s.next_timer i t s.timers) in
          let id : r.request_id ≡ w.request_id = cc in
          (
            r,
            ground (
              arith,
              get-put r.request_id w.request_id r s.pending_requests,
              str_eq_iff r.request_id w.request_id,
            ),
            ground arith,
            cc,
          )
      | inr e ↦
          let old : Dict.get i s.timers ≡ some w =
            ground (arith, get-put s.next_timer i t s.timers) in
          let (u, held, timed, same) = v.pending i w old in
          let apart : r.request_id ≢ w.request_id =
            λ q. let gone : Dict.get w.request_id s.pending_requests ≡ none = cc in cc in
          (
            u,
            ground (
              arith,
              get-put r.request_id w.request_id r s.pending_requests,
              str_eq_iff r.request_id w.request_id,
              apart,
            ),
            timed,
            same,
          )
    ]

    entered-Linked : Linked (entered r t)
    entered-Linked = record {
      live = entered-live;
      pending = entered-pending;
      fresh = λ i u hu. ground (arith, get-put s.next_timer i t s.timers, v.fresh i u);
    }

-- Clearing everything takes out every timer of a pending request, and enters none.
clear_all-some :
    (requests : Dict String TrackedRequest) (timers : Dict ℕ Timer) (i : ℕ) (t : Timer)
    → Dict.get i (clear_all requests timers) ≡ some t
    → Dict.get i timers ≡ some t
unfolding clear_all
clear_all-some [] timers i t h = h
clear_all-some ((id, r) ∷ rest) timers i t h =
    let kept = clear_all-some rest (Dict.delete r.timer timers) i t h in
    ground (arith, kept, get-delete r.timer i timers)

clear_all-none :
    (requests : Dict String TrackedRequest) (timers : Dict ℕ Timer) (id : String)
    (r : TrackedRequest)
    → Dict.get id requests ≡ some r
    → Dict.get r.timer (clear_all requests timers) ≡ none
unfolding clear_all Dict.get
clear_all-none [] timers id r h = cc
clear_all-none ((j, u) ∷ rest) timers id r h = elim (Bool-cases (str_eq j id)) [
  | inl e ↦
      let same : u ≡ r = ground arith in
      elim (Option-cases (Dict.get r.timer (clear_all rest (Dict.delete u.timer timers)))) [
        | inl gone ↦ gone
        | inr (t, left) ↦
            let kept = clear_all-some rest (Dict.delete u.timer timers) r.timer t left in
            absurd (ground (arith, same, kept, get-delete u.timer r.timer timers))
      ]
  | inr e ↦ clear_all-none rest (Dict.delete u.timer timers) id r (ground arith)
]

clear-Linked : (s : RequestTracker) → Linked s → Linked (clear s)
unfolding clear Dict.get
clear-Linked s v = record {
  live = λ id r h. absurd (cc);
  pending = λ i t h. absurd (left i t h);
  fresh = λ i t h. absurd (left i t h);
}
  where
    left : (i : ℕ) (t : Timer) → Dict.get i (clear_all s.pending_requests s.timers) ≡ some t → ⊥
    left i t h =
        let (r, held, timed, same) =
          v.pending i t (clear_all-some s.pending_requests s.timers i t h) in
        let gone = clear_all-none s.pending_requests s.timers t.request_id r held in
        let there : Dict.get r.timer (clear_all s.pending_requests s.timers) ≡ some t =
          rw timed h in
        cc

track-Linked :
    (s : RequestTracker) (id command : String) (timeout_ms : Option ℕ) (now : ℕ)
    → Linked s
    → Linked (track s id command timeout_ms now)
unfolding track
track-Linked s id command timeout_ms now v =
    entered-Linked (complete s id) (complete-Linked s v id) _ _ refl refl refl
      (complete-none s v id)

step-Linked : (s : RequestTracker) (a : Action) → Linked s → Linked (step s a)
unfolding step
step-Linked s (track_request id command timeout_ms now) v =
    track-Linked s id command timeout_ms now v
step-Linked s (complete_request id) v = complete-Linked s v id
step-Linked s (fire_timer i) v = fire-Linked s v i
step-Linked s clear_requests v = clear-Linked s v

new_tracker-Linked : (reports : Bool) (default_ms : ℕ) → Linked (new_tracker reports default_ms)
unfolding new_tracker Dict.get
new_tracker-Linked reports default_ms = record {
  live = λ id r h. absurd (cc);
  pending = λ i t h. absurd (cc);
  fresh = λ i t h. absurd (cc);
}

run-Linked : (s : RequestTracker) (actions : List Action) → Linked s → Linked (run s actions)
unfolding run
run-Linked s [] v = v
run-Linked s (a ∷ actions) v = run-Linked (step s a) actions (step-Linked s a v)

-- After any history of a tracker, pending requests and live timers stand one to one: each pending
-- request has a live timer of its own, and each live timer a pending request with its command.
pub run-new_tracker-Linked :
    (reports : Bool) (default_ms : ℕ) (actions : List Action)
    → Linked (run (new_tracker reports default_ms) actions)
run-new_tracker-Linked reports default_ms actions =
    run-Linked (new_tracker reports default_ms) actions (new_tracker-Linked reports default_ms)
