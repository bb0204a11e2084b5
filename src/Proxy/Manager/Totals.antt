-- ===== src/Proxy/Manager/Totals.antt =====
-- How often a request id stands among the settlements, in the table and with a barrier.
use mcp_debugger.Base.{
  ℕ, ◌+◌, ◌≤◌, ◌≡◌, refl, subst, ◌∙◌, String, Option, none, some, List, [], ◌∷◌, if◌then◌else◌,
  str_eq, str_eq_iff, string_eq, nat_eq, arith, Bool-cases, inl, inr,
}
use mcp_debugger.Base.Dict
use mcp_debugger.Base.Dict.{Dict, count, count-get-none, count-get-some, count-delete, count-put}
use mcp_debugger.Proxy.Manager.{
  ProxyManager, PendingDapRequest, Outcome, rejected, Failure, barrier_failed, cancelled, dispose,
  tell, clear_mirror, cancel_pending, settle_request, waiting_for, waiting_else, settle_all,
  release_waiting, dispose_barrier, replace_barrier, set_active_launch_barrier, clear_barrier,
  clear_active_launch_barrier, leave_wait, clear_owned_barrier, forget_request, reject_all,
  reject_pending, cleanup,
}

-- The promises made for an id that are settled, in the table, or waiting for a barrier.
abbrev pub total : String → ProxyManager → ℕ
total k m = count k m.settlements + (count k m.pending_dap_requests + count k m.waiting)

abbrev pub hit : String → String → ℕ
hit j k = if str_eq j k then 1 else 0

count-waiting :
    (k : String) (barrier : ℕ) (outcome : Outcome) (waiting : Dict String ℕ)
    (settlements : List (String × Outcome))
    → count k (settle_all (waiting_for barrier waiting) outcome settlements)
        + count k (waiting_else barrier waiting)
      ≡ count k settlements + count k waiting
unfolding settle_all waiting_for waiting_else
count-waiting k barrier outcome [] settlements = refl
count-waiting k barrier outcome ((id, b) ∷ waiting) settlements =
    ground (arith, count-waiting k barrier outcome waiting settlements)

pub total-release_waiting :
    (k : String) (barrier : ℕ) (outcome : Outcome) (m : ProxyManager)
    → total k (release_waiting barrier outcome m) ≡ total k m
unfolding release_waiting
total-release_waiting k barrier outcome m =
    omega (arith, count-waiting k barrier outcome m.waiting m.settlements)

total-dispose_barrier :
    (k : String) (barrier : ℕ) (m : ProxyManager) → total k (dispose_barrier barrier m) ≡ total k m
unfolding dispose_barrier
total-dispose_barrier k barrier m =
    total-release_waiting k barrier (rejected barrier_failed) (tell barrier dispose m)

total-clear_barrier :
    (k : String) (wanted : Option ℕ) (active : Option (ℕ × String)) (m : ProxyManager)
    → total k (clear_barrier wanted active m) ≡ total k m
total-clear_barrier k none none m = refl
total-clear_barrier k (some barrier) none m = refl
total-clear_barrier k none (some (active, owner)) m = total-dispose_barrier k active m
total-clear_barrier k (some barrier) (some (active, owner)) m =
    ground (arith, total-dispose_barrier k active m)

pub total-clear_active_launch_barrier :
    (k : String) (wanted : Option ℕ) (m : ProxyManager)
    → total k (clear_active_launch_barrier wanted m) ≡ total k m
unfolding clear_active_launch_barrier
total-clear_active_launch_barrier k wanted m =
    total-clear_barrier k wanted m.active_launch_barrier m

pub total-leave_wait :
    (k : String) (barrier : ℕ) (ids : List String) (m : ProxyManager)
    → total k (leave_wait barrier ids m) ≡ total k m
total-leave_wait k barrier [] m = refl
total-leave_wait k barrier (id ∷ ids) m = total-clear_active_launch_barrier k (some barrier) m

pub total-clear_owned_barrier :
    (k id : String) (m : ProxyManager) → total k (clear_owned_barrier id m) ≡ total k m
unfolding clear_owned_barrier
total-clear_owned_barrier k id m = ground (arith, total-clear_active_launch_barrier k none m)

total-replace_barrier :
    (k : String) (barrier : ℕ) (active : Option (ℕ × String)) (m : ProxyManager)
    → total k (replace_barrier barrier active m) ≡ total k m
total-replace_barrier k barrier none m = refl
total-replace_barrier k barrier (some (active, owner)) m =
    ground (arith, total-dispose_barrier k active m)

pub total-set_active_launch_barrier :
    (k : String) (barrier : ℕ) (id : String) (m : ProxyManager)
    → total k (set_active_launch_barrier barrier id m) ≡ total k m
unfolding set_active_launch_barrier
total-set_active_launch_barrier k barrier id m =
    total-replace_barrier k barrier m.active_launch_barrier m

pub total-settle_request :
    (k id : String) (outcome : Outcome) (m : ProxyManager)
    → total k (settle_request id outcome m) ≡ hit id k + total k m
unfolding settle_request
total-settle_request k id outcome m = omega arith

-- A request that stands in the table once is taken out of it.
pub total-forget_request :
    (k id : String) (pending : PendingDapRequest) (m : ProxyManager)
    → Dict.get id m.pending_dap_requests ≡ some pending
    → total k m ≤ 1
    → hit id k + total k (forget_request id m) ≡ total k m
unfolding forget_request
total-forget_request k id pending m there once = elim (Bool-cases (str_eq id k)) [
  | inl same ↦
      let here : id ≡ k = (str_eq_iff id k).0 same in
      let stands : 1 ≤ count k m.pending_dap_requests =
        subst (λ j. 1 ≤ count j m.pending_dap_requests) here
          (count-get-some id pending m.pending_dap_requests there) in
      ground (arith, same, stands, once, count-delete k id m.pending_dap_requests)
  | inr other ↦ ground (arith, other, count-delete k id m.pending_dap_requests)
]

count-reject_all :
    (k : String) (why : PendingDapRequest → Failure) (pending : Dict String PendingDapRequest)
    (settlements : List (String × Outcome))
    → count k (reject_all why pending settlements) ≡ count k pending + count k settlements
unfolding reject_all
count-reject_all k why [] settlements = omega arith
count-reject_all k why ((id, p) ∷ pending) settlements =
    omega (arith, count-reject_all k why pending settlements)

pub total-reject_pending :
    (k : String) (why : PendingDapRequest → Failure) (m : ProxyManager)
    → total k (reject_pending why m) ≡ total k m
unfolding reject_pending
total-reject_pending k why m =
    omega (arith, count-reject_all k why m.pending_dap_requests m.settlements)

pub total-cleanup : (k : String) (m : ProxyManager) → total k (cleanup m) ≡ total k m
unfolding cleanup
total-cleanup k m =
    total-clear_active_launch_barrier k none (clear_mirror (cancel_pending m))
    ∙ total-reject_pending k (λ pending. cancelled pending.command) m
