-- ===== src/Proxy/Manager/Mirror/Barriers.antt =====
-- Launch barriers leave the functional core's mirror alone.
use mcp_debugger.Base.{ℕ, ◌≡◌, refl, String, Option, some, none, ◌==◌, if-cases}
use mcp_debugger.Proxy.Manager.{
  ProxyManager, Barrier, no_barrier, barrier_and_response, barrier_only, release_waiting,
  dispose_barrier, replace_barrier, set_active_launch_barrier, clear_barrier,
  clear_active_launch_barrier, owns, clear_owned_barrier, arm, disarm,
}

mirror-dispose_barrier :
    (barrier : ℕ) (m : ProxyManager) → (dispose_barrier barrier m).dap_state ≡ m.dap_state
unfolding dispose_barrier release_waiting
mirror-dispose_barrier barrier m = refl

mirror-clear_barrier :
    (wanted : Option ℕ) (active : Option (ℕ × String)) (m : ProxyManager)
    → (clear_barrier wanted active m).dap_state ≡ m.dap_state
mirror-clear_barrier none none m = refl
mirror-clear_barrier (some barrier) none m = refl
mirror-clear_barrier none (some (active, owner)) m = mirror-dispose_barrier active m
mirror-clear_barrier (some barrier) (some (active, owner)) m =
    if-cases (λ (x : ProxyManager). x.dap_state ≡ m.dap_state) (active == barrier) _ _
      (λ _. mirror-dispose_barrier active m) (λ _. refl)

pub mirror-clear_active_launch_barrier :
    (wanted : Option ℕ) (m : ProxyManager)
    → (clear_active_launch_barrier wanted m).dap_state ≡ m.dap_state
unfolding clear_active_launch_barrier
mirror-clear_active_launch_barrier wanted m = mirror-clear_barrier wanted m.active_launch_barrier m

pub mirror-clear_owned_barrier :
    (id : String) (m : ProxyManager) → (clear_owned_barrier id m).dap_state ≡ m.dap_state
unfolding clear_owned_barrier
mirror-clear_owned_barrier id m =
    if-cases (λ (x : ProxyManager). x.dap_state ≡ m.dap_state) (owns m.active_launch_barrier id) _ _
      (λ _. mirror-clear_active_launch_barrier none m) (λ _. refl)

mirror-replace_barrier :
    (barrier : ℕ) (active : Option (ℕ × String)) (m : ProxyManager)
    → (replace_barrier barrier active m).dap_state ≡ m.dap_state
mirror-replace_barrier barrier none m = refl
mirror-replace_barrier barrier (some (active, owner)) m =
    if-cases (λ (x : ProxyManager). x.dap_state ≡ m.dap_state) (active == barrier) _ _ (λ _. refl)
      (λ _. mirror-dispose_barrier active m)

mirror-set_active_launch_barrier :
    (barrier : ℕ) (id : String) (m : ProxyManager)
    → (set_active_launch_barrier barrier id m).dap_state ≡ m.dap_state
unfolding set_active_launch_barrier
mirror-set_active_launch_barrier barrier id m =
    mirror-replace_barrier barrier m.active_launch_barrier m

pub mirror-arm :
    (barrier : Barrier) (id : String) (m : ProxyManager)
    → (arm barrier id m).dap_state ≡ m.dap_state
mirror-arm no_barrier id m = refl
mirror-arm (barrier_and_response barrier) id m = mirror-set_active_launch_barrier barrier id m
mirror-arm (barrier_only barrier) id m = mirror-set_active_launch_barrier barrier id m

pub mirror-disarm :
    (barrier : Barrier) (m : ProxyManager) → (disarm barrier m).dap_state ≡ m.dap_state
mirror-disarm no_barrier m = refl
mirror-disarm (barrier_and_response barrier) m = mirror-clear_active_launch_barrier (some barrier) m
mirror-disarm (barrier_only barrier) m = mirror-clear_active_launch_barrier (some barrier) m
