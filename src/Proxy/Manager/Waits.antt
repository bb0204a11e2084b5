-- ===== src/Proxy/Manager/Waits.antt =====
-- A request waits for no barrier but the active one.
pub mod Moves
use mcp_debugger.Base.{
  List, ℕ, ◌≡◌, refl, subst, sym, ap, ◌∙◌, String, Bool, not, ◌||◌, Option, none, some, [], ◌∷◌,
  arith, str_eq, string_eq, nat_eq, if-cases, ◌==◌, ==_iff,
}
use mcp_debugger.Base.Int.{ℤ}
use mcp_debugger.Base.Dict
use mcp_debugger.Base.Dict.{Dict}
use mcp_debugger.DapCore.State.{DapSessionState}
use mcp_debugger.DapCore.Handlers.{
  Content, status, failure, dap_event, dap_response, unknown,
  handle_proxy_message as handle_by_core,
}
use mcp_debugger.Proxy.Manager.{
  ProxyManager, PendingDapRequest, Outcome, BarrierCall, Barrier, no_barrier, barrier_and_response,
  barrier_only, proxy_exited, cancelled, clear_mirror, cancel_pending, tell, request_sent,
  settle_request, clear_timeout, forget_request, owns, clear_owned_barrier, clear_barrier,
  clear_active_launch_barrier, leave_wait, drop_barrier, dispose_barrier, replace_barrier,
  set_active_launch_barrier, on_request_timeout, fire_as, fire, enter_request, withdraw_request,
  arm, disarm, request_response, request_barrier, request_by, send_dap_request, release_waiting,
  waiting_else, barrier_settles, reject_pending, cleanup,
}
use mcp_debugger.Proxy.Manager.Messages.{
  Incoming, Received, heartbeat, invalid, valid, tell_active, capture_thread, answer, respond,
  handle_dap_response, is_dap_event, after_core, through_core, fast_path, receive,
  handle_proxy_message,
}
use mcp_debugger.Proxy.Manager.Lifecycle.{handle_proxy_exit, announce_dry_run, announce_exit}
use mcp_debugger.Proxy.Manager.Books.{
  Books, books, books-capture_thread, books-tell_active, books-announce_exit,
  books-announce_dry_run, books-fast_path, follow_core, books-follow_core,
}

abbrev WaitsFor : Option (ℕ × String) → Dict String ℕ → Type 0
WaitsFor none waiting = waiting ≡ []
WaitsFor (some (active, owner)) waiting = waiting_else active waiting ≡ []

abbrev pub IsWaiting : ProxyManager → Type 0
IsWaiting m = WaitsFor m.active_launch_barrier m.waiting

abbrev WaitsAt : Books → Type 0
WaitsAt (settlements, pending, waiting, timers, next_timer, active) = WaitsFor active waiting

pub books-IsWaiting : (m m' : ProxyManager) → books m ≡ books m' → IsWaiting m' → IsWaiting m
books-IsWaiting m m' e v = subst WaitsAt (sym e) v

waiting_else-nil :
    (a b : ℕ) (waiting : Dict String ℕ)
    → waiting_else a waiting ≡ []
    → waiting_else a (waiting_else b waiting) ≡ []
unfolding waiting_else
waiting_else-nil a b [] e = refl
waiting_else-nil a b ((id, c) ∷ waiting) e = ground (arith, waiting_else-nil a b waiting)

waiting_else-put :
    (b : ℕ) (id : String) (waiting : Dict String ℕ)
    → waiting_else b waiting ≡ []
    → waiting_else b (Dict.put id b waiting) ≡ []
unfolding waiting_else Dict.put
waiting_else-put b id [] e = ground arith
waiting_else-put b id ((j, c) ∷ waiting) e = ground (arith, waiting_else-put b id waiting)

release-WaitsFor :
    (active : Option (ℕ × String)) (b : ℕ) (waiting : Dict String ℕ)
    → WaitsFor active waiting
    → WaitsFor active (waiting_else b waiting)
unfolding waiting_else
release-WaitsFor none b waiting v = ap (waiting_else b) v
release-WaitsFor (some (active, owner)) b waiting v = waiting_else-nil active b waiting v

clear_barrier-IsWaiting :
    (wanted : Option ℕ) (active : Option (ℕ × String)) (m : ProxyManager)
    → m.active_launch_barrier ≡ active
    → IsWaiting m
    → IsWaiting (clear_barrier wanted active m)
unfolding dispose_barrier release_waiting
clear_barrier-IsWaiting none none m e v = v
clear_barrier-IsWaiting (some barrier) none m e v = v
clear_barrier-IsWaiting none (some (active, owner)) m e v = subst (λ a. WaitsFor a m.waiting) e v
clear_barrier-IsWaiting (some barrier) (some (active, owner)) m e v =
    if-cases IsWaiting (active == barrier) _ _ (λ _. subst (λ a. WaitsFor a m.waiting) e v) (λ _. v)

pub clear_active_launch_barrier-IsWaiting :
    (wanted : Option ℕ) (m : ProxyManager)
    → IsWaiting m
    → IsWaiting (clear_active_launch_barrier wanted m)
unfolding clear_active_launch_barrier
clear_active_launch_barrier-IsWaiting wanted m v =
    clear_barrier-IsWaiting wanted m.active_launch_barrier m refl v

clear_barrier-waiting :
    (active : Option (ℕ × String)) (m : ProxyManager)
    → WaitsFor active m.waiting
    → (clear_barrier none active m).waiting ≡ []
unfolding dispose_barrier release_waiting
clear_barrier-waiting none m v = v
clear_barrier-waiting (some (active, owner)) m v = v

-- With no barrier active, no request waits.
pub clear_active_launch_barrier-waiting :
    (m : ProxyManager) → IsWaiting m → (clear_active_launch_barrier none m).waiting ≡ []
unfolding clear_active_launch_barrier
clear_active_launch_barrier-waiting m v = clear_barrier-waiting m.active_launch_barrier m v

pub leave_wait-IsWaiting :
    (barrier : ℕ) (ids : List String) (m : ProxyManager)
    → IsWaiting m
    → IsWaiting (leave_wait barrier ids m)
leave_wait-IsWaiting barrier [] m v = v
leave_wait-IsWaiting barrier (id ∷ ids) m v =
    clear_active_launch_barrier-IsWaiting (some barrier) m v

pub clear_owned_barrier-IsWaiting :
    (id : String) (m : ProxyManager) → IsWaiting m → IsWaiting (clear_owned_barrier id m)
unfolding clear_owned_barrier
clear_owned_barrier-IsWaiting id m v =
    if-cases IsWaiting (owns m.active_launch_barrier id) _ _
      (λ _. clear_active_launch_barrier-IsWaiting none m v) (λ _. v)

replace_barrier-waiting :
    (barrier : ℕ) (active : Option (ℕ × String)) (m : ProxyManager)
    → WaitsFor active m.waiting
    → waiting_else barrier (replace_barrier barrier active m).waiting ≡ []
unfolding dispose_barrier release_waiting waiting_else
replace_barrier-waiting barrier none m v = ap (waiting_else barrier) v
replace_barrier-waiting barrier (some (active, owner)) m v =
    if-cases (λ x. waiting_else barrier x.waiting ≡ []) (active == barrier) m
      (dispose_barrier active m)
      (λ same. subst (λ b. waiting_else b m.waiting ≡ []) ((==_iff active barrier).0 same) v)
      (λ _. ap (waiting_else barrier) v)

pub set_active_launch_barrier-waiting :
    (barrier : ℕ) (id : String) (m : ProxyManager)
    → IsWaiting m
    → waiting_else barrier (set_active_launch_barrier barrier id m).waiting ≡ []
unfolding set_active_launch_barrier
set_active_launch_barrier-waiting barrier id m v =
    replace_barrier-waiting barrier m.active_launch_barrier m v

pub release_waiting-IsWaiting :
    (barrier : ℕ) (outcome : Outcome) (m : ProxyManager)
    → IsWaiting m
    → IsWaiting (release_waiting barrier outcome m)
unfolding release_waiting
release_waiting-IsWaiting barrier outcome m v =
    release-WaitsFor m.active_launch_barrier barrier m.waiting v

pub wait-IsWaiting :
    (barrier : ℕ) (id owner : String) (waiting : Dict String ℕ)
    → WaitsFor (some (barrier, owner)) waiting
    → WaitsFor (some (barrier, owner)) (Dict.put id barrier waiting)
wait-IsWaiting barrier id owner waiting v = waiting_else-put barrier id waiting v
