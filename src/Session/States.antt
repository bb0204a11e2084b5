-- ===== src/Session/States.antt =====
-- packages/shared/src/models/index.ts: the states of a session, in the old model and in the new one.
use mcp_debugger.Base.{
  ℕ, zero, suc, ◌==◌, ==_iff, ◌≡◌, refl, sym, ap, ◌∙◌, Bool, true, Option, none, some,
}

pub data SessionLifecycleState : Type 0 where
  created active terminated : SessionLifecycleState

pub data ExecutionState : Type 0 where
  initializing running paused terminated error : ExecutionState

pub data SessionState : Type 0 where
  created initializing ready running paused stopped error : SessionState

pub record StatePair : Type 0 where
  pub lifecycle : SessionLifecycleState
  pub execution : Option ExecutionState

abbrev active_in : ExecutionState → StatePair
active_in execution = record {
  lifecycle = SessionLifecycleState.active;
  execution = some execution;
}

unfoldable pub map_legacy_state : SessionState → StatePair
map_legacy_state SessionState.created = record {
  lifecycle = SessionLifecycleState.created;
  execution = none;
}
map_legacy_state SessionState.initializing = active_in ExecutionState.initializing
map_legacy_state SessionState.ready = active_in ExecutionState.initializing
map_legacy_state SessionState.running = active_in ExecutionState.running
map_legacy_state SessionState.paused = active_in ExecutionState.paused
map_legacy_state SessionState.stopped = record {
  lifecycle = SessionLifecycleState.terminated;
  execution = none;
}
map_legacy_state SessionState.error = active_in ExecutionState.error

abbrev active_legacy : Option ExecutionState → SessionState
active_legacy (some ExecutionState.initializing) = SessionState.initializing
active_legacy (some ExecutionState.running) = SessionState.running
active_legacy (some ExecutionState.paused) = SessionState.paused
active_legacy (some ExecutionState.terminated) = SessionState.stopped
active_legacy (some ExecutionState.error) = SessionState.error
active_legacy none = SessionState.ready

unfoldable pub map_to_legacy_state : SessionLifecycleState → Option ExecutionState → SessionState
map_to_legacy_state SessionLifecycleState.created execution = SessionState.created
map_to_legacy_state SessionLifecycleState.terminated execution = SessionState.stopped
map_to_legacy_state SessionLifecycleState.active execution = active_legacy execution

abbrev state_index : SessionState → ℕ
state_index SessionState.created = 0
state_index SessionState.initializing = 1
state_index SessionState.ready = 2
state_index SessionState.running = 3
state_index SessionState.paused = 4
state_index SessionState.stopped = 5
state_index SessionState.error = 6

abbrev state_at : ℕ → SessionState
state_at zero = SessionState.created
state_at (suc zero) = SessionState.initializing
state_at (suc (suc zero)) = SessionState.ready
state_at (suc (suc (suc zero))) = SessionState.running
state_at (suc (suc (suc (suc zero)))) = SessionState.paused
state_at (suc (suc (suc (suc (suc zero))))) = SessionState.stopped
state_at (suc (suc (suc (suc (suc (suc n)))))) = SessionState.error

-- `a === b` on states.
unfoldable pub same_state : SessionState → SessionState → Bool
same_state s t = state_index s == state_index t

state_at-state_index : (s : SessionState) → state_at (state_index s) ≡ s
state_at-state_index SessionState.created = refl
state_at-state_index SessionState.initializing = refl
state_at-state_index SessionState.ready = refl
state_at-state_index SessionState.running = refl
state_at-state_index SessionState.paused = refl
state_at-state_index SessionState.stopped = refl
state_at-state_index SessionState.error = refl

pub same_state→≡ : (s t : SessionState) → same_state s t ≡ true → s ≡ t
unfolding same_state
same_state→≡ s t h =
    sym (state_at-state_index s)
    ∙ (ap state_at ((==_iff (state_index s) (state_index t)).0 h) ∙ state_at-state_index t)
