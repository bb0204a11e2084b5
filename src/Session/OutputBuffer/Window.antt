-- ===== src/Session/OutputBuffer/Window.antt =====
-- The buffer against the history of what was pushed: it is the window of the latest entries.
use mcp_debugger.Base.{
  ℕ, zero, suc, ◌+◌, ◌-◌, ◌≤◌, ◌≡◌, refl, ap, List, [], ◌∷◌, ◌++◌, arith, length, length-append,
  length-take, length-drop, drop, take, if◌then◌else◌, ltb, append_assoc, sym, subst, append-nil,
  All, All-drop, ◌<◌,
}
use mcp_debugger.Session.OutputBuffer.{
  OutputEntry, OutputRingBuffer, Chunk, new_buffer, entry_of, push, shift, max_output_entry_chars,
}

-- The entries of a history, numbered from `seq` on.
unfoldable pub numbered : ℕ → List Chunk → List OutputEntry
numbered seq [] = []
numbered seq (c ∷ cs) = entry_of seq c ∷ numbered (suc seq) cs

unfoldable pub push_all : OutputRingBuffer → List Chunk → OutputRingBuffer
push_all b [] = b
push_all b (c ∷ cs) = push_all (push b c).0 cs

-- A buffer of that capacity, after that history.
pub record IsWindow (most : ℕ) (all : List OutputEntry) (b : OutputRingBuffer) : Type 0 where
  pub same_cap : b.cap ≡ most
  pub numbering : b.next_seq ≡ length all + 1
  pub evicted : b.dropped_count ≡ length all - most
  pub latest : b.entries ≡ drop (length all - most) all

shift-drop : (n : ℕ) (xs : List OutputEntry) → shift (drop n xs) ≡ drop (suc n) xs
shift-drop zero [] = refl
shift-drop zero (x ∷ xs) = refl
shift-drop (suc n) [] = refl
shift-drop (suc n) (x ∷ xs) = shift-drop n xs

drop-append_le :
    (n : ℕ) (xs ys : List OutputEntry) → n ≤ length xs → drop n (xs ++ ys) ≡ drop n xs ++ ys
drop-append_le zero xs ys h = refl
drop-append_le (suc n) [] ys h = elim h [ ]
drop-append_le (suc n) (x ∷ xs) ys h = drop-append_le n xs ys (omega arith)

module _ (most : ℕ) (all : List OutputEntry) (e : OutputEntry) where
  abbrev kept : List OutputEntry
  kept = drop (length all - most) all ++ e ∷ []

  kept-drop : kept ≡ drop (length all - most) (all ++ e ∷ [])
  kept-drop = sym (drop-append_le (length all - most) all (e ∷ []) (omega arith))

  length-grown : length (all ++ e ∷ []) ≡ length all + 1
  length-grown = omega (arith, length-append all (e ∷ []))

  length-kept : length kept ≡ length all - (length all - most) + 1
  length-kept = omega (
    arith,
    length-append (drop (length all - most) all) (e ∷ []),
    length-drop (length all - most) all,
  )

  window-full :
      most ≤ length all → shift kept ≡ drop (length (all ++ e ∷ []) - most) (all ++ e ∷ [])
  window-full h =
      let one : length (all ++ e ∷ []) - most ≡ suc (length all - most) =
        omega (arith, length-grown) in
      rw (one, kept-drop) (shift-drop (length all - most) (all ++ e ∷ []))

  window-room : length all < most → kept ≡ drop (length (all ++ e ∷ []) - most) (all ++ e ∷ [])
  window-room h =
      let none_out : length (all ++ e ∷ []) - most ≡ 0 = omega (arith, length-grown) in
      let none_before : length all - most ≡ 0 = omega arith in rw (none_out, none_before) refl

  window-step :
      (if ltb most (length kept) then shift kept else kept)
      ≡ drop (length (all ++ e ∷ []) - most) (all ++ e ∷ [])
  window-step = ground (arith, length-kept, window-full, window-room)

dropped-step :
    (n most k : ℕ)
    → k ≡ n - (n - most) + 1
    → (if ltb most k then n - most + 1 else n - most) ≡ n + 1 - most
dropped-step n most k h = ground arith

-- One push moves the window by one entry.
push-IsWindow :
    (most : ℕ) (all : List OutputEntry) (b : OutputRingBuffer) (c : Chunk)
    → IsWindow most all b
    → IsWindow most (all ++ entry_of b.next_seq c ∷ []) (push b c).0
unfolding push
push-IsWindow most all b c w =
    let e = entry_of b.next_seq c in
    record {
      same_cap = w.same_cap;
      numbering = omega (arith, w.numbering, length-grown most all e);
      evicted =
          rw (w.latest, w.same_cap, w.evicted, length-grown most all e)
            (dropped-step (length all) most (length (kept most all e)) (length-kept most all e));
      latest = rw (w.latest, w.same_cap) (window-step most all e);
    }

push_all-IsWindow :
    (most : ℕ) (all : List OutputEntry) (b : OutputRingBuffer) (cs : List Chunk)
    → IsWindow most all b
    → IsWindow most (all ++ numbered (length all + 1) cs) (push_all b cs)
unfolding push_all numbered
push_all-IsWindow most all b [] w = rw append-nil w
push_all-IsWindow most all b (c ∷ cs) w =
    let e = entry_of (length all + 1) c in
    let first : IsWindow most (all ++ e ∷ []) (push b c).0 =
      rw (← w.numbering) (push-IsWindow most all b c w) in
    let next : length (all ++ e ∷ []) + 1 ≡ suc (length all + 1) =
      omega (arith, length-grown most all e) in
    let rest = numbered (suc (length all + 1)) cs in
    let later : IsWindow most ((all ++ e ∷ []) ++ rest) (push_all (push b c).0 cs) =
      rw (← next) (push_all-IsWindow most (all ++ e ∷ []) (push b c).0 cs first) in
    subst (λ t. IsWindow most t (push_all (push b c).0 cs)) (append_assoc all (e ∷ []) rest) later

-- After any history the buffer holds exactly the latest `most` entries, numbered from 1 in the order
-- of their arrival, and counts the others as dropped.
pub push_all-new_buffer-IsWindow :
    (most : ℕ) (cs : List Chunk) → IsWindow most (numbered 1 cs) (push_all (new_buffer most) cs)
unfolding new_buffer
push_all-new_buffer-IsWindow most cs = push_all-IsWindow most [] (new_buffer most) cs (ground arith)

length-numbered : (seq : ℕ) (cs : List Chunk) → length (numbered seq cs) ≡ length cs
unfolding numbered
length-numbered seq [] = refl
length-numbered seq (c ∷ cs) = ap suc (length-numbered (suc seq) cs)

length-cut :
    (most : ℕ) (xs : List ℕ) → length (if ltb most (length xs) then take most xs else xs) ≤ most
length-cut most xs = ground (arith, length-take most xs)

abbrev FitsEntry : OutputEntry → Type 0
FitsEntry e = length e.output ≤ max_output_entry_chars

All-FitsEntry-numbered : (seq : ℕ) (cs : List Chunk) → All FitsEntry (numbered seq cs)
unfolding numbered entry_of
All-FitsEntry-numbered seq [] = tt
All-FitsEntry-numbered seq (c ∷ cs) =
    (length-cut max_output_entry_chars c.output, All-FitsEntry-numbered (suc seq) cs)

-- After any history the buffer holds at most `most` entries, each of at most 8192 characters.
pub push_all-new_buffer_bounded :
    (most : ℕ) (cs : List Chunk)
    → let b = push_all (new_buffer most) cs in
      (length b.entries ≤ most) × All (λ e. length e.output ≤ max_output_entry_chars) b.entries
push_all-new_buffer_bounded most cs =
    let w = push_all-new_buffer-IsWindow most cs in
    let all = numbered 1 cs in
    (
      rw w.latest (omega (arith, length-drop (length all - most) all)),
      rw w.latest (All-drop FitsEntry (length all - most) all (All-FitsEntry-numbered 1 cs)),
    )
