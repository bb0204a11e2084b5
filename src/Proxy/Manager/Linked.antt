-- ===== src/Proxy/Manager/Linked.antt =====
-- Pending requests and live timers are linked one to one, over any history.
pub mod Moves
use mcp_debugger.Base.{
  ℕ, suc, ◌<◌, ◌≡◌, ◌≢◌, refl, subst, sym, ◌∙◌, inl, inr, String, Option, none, some, [], ◌∷◌,
  arith, str_eq, str_eq_iff, string_eq, nat_eq, ◌==◌, Bool-cases, Option-cases,
}
use mcp_debugger.Base.Dict
use mcp_debugger.Base.Dict.{
  Dict, get-put, get-put_self, get-delete, get-delete_self, delete_each-some, delete_each-none,
}
use mcp_debugger.Proxy.Manager.{ProxyManager, PendingDapRequest}
use mcp_debugger.Proxy.Manager.Slots.{Slots, slots}

-- The timer of a pending request is live and stands for it; the request of a live timer is pending
-- under that timer; new timers get new numbers.
pub record Linked (requests : Dict String PendingDapRequest) (timers : Dict ℕ String) (next : ℕ)
    : Type 0 where
  pub live :
      (id : String) (p : PendingDapRequest)
      → Dict.get id requests ≡ some p
      → Dict.get p.timer timers ≡ some id
  pub pending :
      (i : ℕ) (id : String)
      → Dict.get i timers ≡ some id
      → (p : PendingDapRequest) × (Dict.get id requests ≡ some p) × (p.timer ≡ i)
  pub fresh : (i : ℕ) (id : String) → Dict.get i timers ≡ some id → i < next

abbrev pub IsLinked : ProxyManager → Type 0
IsLinked m = Linked m.pending_dap_requests m.timers m.next_timer

abbrev LinkedAt : Slots → Type 0
LinkedAt (requests, timers, next) = Linked requests timers next

-- What leaves the table and the timers alone leaves them linked.
pub slots-IsLinked : (m m' : ProxyManager) → slots m ≡ slots m' → IsLinked m' → IsLinked m
slots-IsLinked m m' e v = subst LinkedAt (sym e) v

module _ (requests : Dict String PendingDapRequest) (timers : Dict ℕ String) (next : ℕ)
    (v : Linked requests timers next) where
  -- A request and its timer go together.
  pub delete-Linked :
      (id : String) (p : PendingDapRequest)
      → Dict.get id requests ≡ some p
      → Linked (Dict.delete id requests) (Dict.delete p.timer timers) next
  delete-Linked id p there = record {
    live = λ j q h.
        let other : (id ≢ j) × (Dict.get j requests ≡ some q) =
          ground (arith, get-delete id j requests, str_eq_iff id j) in
        let mine = v.live id p there in
        let its = v.live j q other.1 in
        let apart : p.timer ≢ q.timer = λ e. other.0 (cc) in
        ground (arith, get-delete p.timer q.timer timers, apart, its);
    pending = λ i j h.
        let other : (p.timer ≢ i) × (Dict.get i timers ≡ some j) =
          ground (arith, get-delete p.timer i timers) in
        let (q, held, timed) = v.pending i j other.1 in
        let apart : id ≢ j = λ e. other.0 (let both : p ≡ q = cc in cc) in
        (q, ground (arith, get-delete id j requests, str_eq_iff id j, apart), timed);
    fresh = λ i j h. v.fresh i j (ground (arith, get-delete p.timer i timers));
  }

  -- A request that was not there comes in under a fresh timer.
  pub put-Linked :
      (id : String) (p : PendingDapRequest)
      → p.timer ≡ next
      → Dict.get id requests ≡ none
      → Linked (Dict.put id p requests) ((next, id) ∷ timers) (suc next)
  unfolding Dict.get
  put-Linked id p at_next absent = record {
    live = λ j q h. elim (Bool-cases (str_eq id j)) [
      | inl e ↦
          let same : p ≡ q = ground (arith, get-put id j p requests) in
          ground (arith, str_eq_iff id j, same)
      | inr e ↦
          let old : Dict.get j requests ≡ some q = ground (arith, get-put id j p requests) in
          let its = v.live j q old in ground (arith, its, v.fresh q.timer j its)
    ];
    pending = λ i j h. elim (Bool-cases (next == i)) [
      | inl e ↦
          let same : id ≡ j = ground arith in
          (p, ground (arith, get-put id j p requests, str_eq_iff id j, same), ground arith)
      | inr e ↦
          let old : Dict.get i timers ≡ some j = ground arith in
          let (q, held, timed) = v.pending i j old in
          let apart : id ≢ j = λ same. let gone : Dict.get j requests ≡ none = cc in cc in
          (q, ground (arith, get-put id j p requests, str_eq_iff id j, apart), timed)
    ];
    fresh = λ i j h. ground (arith, v.fresh i j);
  }

  -- No timer is left when those of the whole table are cleared.
  pub delete_each-timer :
      (i : ℕ) → Dict.get i (Dict.delete_each (λ p. p.timer) requests timers) ≡ none
  delete_each-timer i =
      elim (Option-cases (Dict.get i (Dict.delete_each (λ p. p.timer) requests timers))) [
        | inl gone ↦ gone
        | inr (id, left) ↦
            let (p, held, timed) =
              v.pending i id (delete_each-some (λ p. p.timer) requests timers i id left) in
            let gone = delete_each-none (λ p. p.timer) requests timers id p held in
            absurd (ground (arith, left, gone, timed))
      ]

  pub delete_each-Linked : Linked [] (Dict.delete_each (λ p. p.timer) requests timers) next
  unfolding Dict.get
  delete_each-Linked = record {
    live = λ id p h. absurd (cc);
    pending = λ i id h. absurd (let gone = delete_each-timer i in cc);
    fresh = λ i id h. absurd (let gone = delete_each-timer i in cc);
  }
