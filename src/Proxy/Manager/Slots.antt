-- ===== src/Proxy/Manager/Slots.antt =====
-- The table of pending requests with its timers: what changes it, and what leaves it alone.
use mcp_debugger.Base.{[], ◌∷◌, ℕ, ◌≡◌, refl, ap, String, Option, none, some, List, ◌==◌, if-cases}
use mcp_debugger.Base.Dict.{Dict}
use mcp_debugger.Proxy.Manager.{
  ProxyManager, PendingDapRequest, Outcome, Barrier, no_barrier, barrier_and_response, barrier_only,
  release_waiting, dispose_barrier, replace_barrier, set_active_launch_barrier, clear_barrier,
  clear_active_launch_barrier, leave_wait, owns, clear_owned_barrier, arm, disarm,
}
use mcp_debugger.Proxy.Manager.Books.{Books, books}

abbrev pub Slots : Type 0
Slots = Dict String PendingDapRequest × Dict ℕ String × ℕ

abbrev pub slots : ProxyManager → Slots
slots m = (m.pending_dap_requests, m.timers, m.next_timer)

abbrev slots_of : Books → Slots
slots_of (settlements, pending, waiting, timers, next_timer, active) = (pending, timers, next_timer)

pub slots-books : (m m' : ProxyManager) → books m ≡ books m' → slots m ≡ slots m'
slots-books m m' e = ap slots_of e

pub slots-release_waiting :
    (barrier : ℕ) (outcome : Outcome) (m : ProxyManager)
    → slots (release_waiting barrier outcome m) ≡ slots m
unfolding release_waiting
slots-release_waiting barrier outcome m = refl

slots-dispose_barrier :
    (barrier : ℕ) (m : ProxyManager) → slots (dispose_barrier barrier m) ≡ slots m
unfolding dispose_barrier release_waiting
slots-dispose_barrier barrier m = refl

slots-clear_barrier :
    (wanted : Option ℕ) (active : Option (ℕ × String)) (m : ProxyManager)
    → slots (clear_barrier wanted active m) ≡ slots m
slots-clear_barrier none none m = refl
slots-clear_barrier (some barrier) none m = refl
slots-clear_barrier none (some (active, owner)) m = slots-dispose_barrier active m
slots-clear_barrier (some barrier) (some (active, owner)) m =
    if-cases (λ x. slots x ≡ slots m) (active == barrier) _ _ (λ _. slots-dispose_barrier active m)
      (λ _. refl)

pub slots-clear_active_launch_barrier :
    (wanted : Option ℕ) (m : ProxyManager) → slots (clear_active_launch_barrier wanted m) ≡ slots m
unfolding clear_active_launch_barrier
slots-clear_active_launch_barrier wanted m = slots-clear_barrier wanted m.active_launch_barrier m

pub slots-leave_wait :
    (barrier : ℕ) (ids : List String) (m : ProxyManager)
    → slots (leave_wait barrier ids m) ≡ slots m
slots-leave_wait barrier [] m = refl
slots-leave_wait barrier (id ∷ ids) m = slots-clear_active_launch_barrier (some barrier) m

pub slots-clear_owned_barrier :
    (id : String) (m : ProxyManager) → slots (clear_owned_barrier id m) ≡ slots m
unfolding clear_owned_barrier
slots-clear_owned_barrier id m =
    if-cases (λ x. slots x ≡ slots m) (owns m.active_launch_barrier id) _ _
      (λ _. slots-clear_active_launch_barrier none m) (λ _. refl)

slots-replace_barrier :
    (barrier : ℕ) (active : Option (ℕ × String)) (m : ProxyManager)
    → slots (replace_barrier barrier active m) ≡ slots m
slots-replace_barrier barrier none m = refl
slots-replace_barrier barrier (some (active, owner)) m =
    if-cases (λ x. slots x ≡ slots m) (active == barrier) _ _ (λ _. refl)
      (λ _. slots-dispose_barrier active m)

slots-set_active_launch_barrier :
    (barrier : ℕ) (id : String) (m : ProxyManager)
    → slots (set_active_launch_barrier barrier id m) ≡ slots m
unfolding set_active_launch_barrier
slots-set_active_launch_barrier barrier id m =
    slots-replace_barrier barrier m.active_launch_barrier m

pub slots-arm :
    (barrier : Barrier) (id : String) (m : ProxyManager) → slots (arm barrier id m) ≡ slots m
slots-arm no_barrier id m = refl
slots-arm (barrier_and_response barrier) id m = slots-set_active_launch_barrier barrier id m
slots-arm (barrier_only barrier) id m = slots-set_active_launch_barrier barrier id m

pub slots-disarm : (barrier : Barrier) (m : ProxyManager) → slots (disarm barrier m) ≡ slots m
slots-disarm no_barrier m = refl
slots-disarm (barrier_and_response barrier) m = slots-clear_active_launch_barrier (some barrier) m
slots-disarm (barrier_only barrier) m = slots-clear_active_launch_barrier (some barrier) m
