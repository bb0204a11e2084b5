-- ===== src/Session/OutputBuffer/Paging.antt =====
-- Reading the buffer page by page with the cursor that each page returns.
use mcp_debugger.Base.{
  ℕ, zero, suc, ◌-◌, ◌≤◌, ◌<◌, ◌≡◌, refl, ◌∙◌, false, List, [], ◌∷◌, ◌++◌, arith, length, drop,
  take, keep, ltb, sym, take-append-drop, Bool-cases, inl, inr, ◌↔◌,
}
use mcp_debugger.Session.OutputBuffer.Window.{numbered, push_all, push_all-new_buffer-IsWindow}
use mcp_debugger.Session.OutputBuffer.{
  entry_of, OutputEntry, OutputRingBuffer, Chunk, new_buffer, is_after, last_seq, read,
}

-- The numbers of the entries rise along the buffer, and lie above `low`.
abbrev pub Rising : ℕ → List OutputEntry → Type 0
Rising low [] = Unit {0}
Rising low (e ∷ es) = (low < e.seq) × Rising e.seq es

Rising-mono : (low high : ℕ) (es : List OutputEntry) → low ≤ high → Rising high es → Rising low es
Rising-mono low high [] h r = tt
Rising-mono low high (e ∷ es) h r = (omega arith, r.1)

-- Nothing is filtered out above the cursor.
keep_above : (since : ℕ) (es : List OutputEntry) → Rising since es → keep (is_after since) es ≡ es
keep_above since [] r = refl
keep_above since (e ∷ es) r =
    ground (arith, keep_above since es (Rising-mono since e.seq es (omega arith) r.1))

last_seq-le :
    (n since : ℕ) (es : List OutputEntry) → Rising since es → since ≤ last_seq (take n es) since
last_seq-le zero since es r = omega arith
last_seq-le (suc n) since [] r = omega arith
last_seq-le (suc n) since (e ∷ es) r = omega (arith, last_seq-le n e.seq es r.1)

-- After the first `n` entries, the entries past the cursor are the others.
keep-last_seq :
    (n since : ℕ) (es : List OutputEntry)
    → Rising since es
    → keep (is_after (last_seq (take n es) since)) es ≡ drop n es
keep-last_seq zero since es r = keep_above since es r
keep-last_seq (suc n) since [] r = refl
keep-last_seq (suc n) since (e ∷ es) r =
    ground (arith, last_seq-le n e.seq es r.1, keep-last_seq n e.seq es r.1)

-- Entries at or below the cursor stand at the front, so filtering drops a front part.
keep_twice :
    (since later : ℕ) (es : List OutputEntry)
    → since ≤ later
    → keep (is_after later) (keep (is_after since) es) ≡ keep (is_after later) es
keep_twice since later [] h = refl
keep_twice since later (e ∷ es) h = ground (arith, keep_twice since later es h)

Rising-keep :
    (since low : ℕ) (es : List OutputEntry)
    → Rising low es
    → Rising since (keep (is_after since) es)
Rising-keep since low [] r = tt
Rising-keep since low (e ∷ es) r = elim (Bool-cases (ltb since e.seq)) [
  | inl after ↦
      let above : Rising since es = Rising-mono since e.seq es (ground arith) r.1 in
      rw (after, keep_above since es above) (ground arith, r.1)
  | inr before ↦ rw before (Rising-keep since e.seq es r.1)
]

Rising-numbered : (seq : ℕ) (cs : List Chunk) → Rising seq (numbered (suc seq) cs)
unfolding numbered entry_of
Rising-numbered seq [] = tt
Rising-numbered seq (c ∷ cs) = (omega arith, Rising-numbered (suc seq) cs)

Rising-drop : (n low : ℕ) (es : List OutputEntry) → Rising low es → Rising low (drop n es)
Rising-drop zero low es r = r
Rising-drop (suc n) low [] r = r
Rising-drop (suc n) low (e ∷ es) r =
    Rising-mono low e.seq (drop n es) (omega arith) (Rising-drop n e.seq es r.1)

empty-drop_iff :
    (limit : ℕ) (es : List OutputEntry)
    → (ltb (length (take limit es)) (length es) ≡ false) ↔ (drop limit es ≡ [])
empty-drop_iff zero [] = ground arith
empty-drop_iff zero (e ∷ es) = ground arith
empty-drop_iff (suc n) [] = ground arith
empty-drop_iff (suc n) (e ∷ es) = ground (arith, empty-drop_iff n es)

module _ (b : OutputRingBuffer) (since limit : ℕ) where
  abbrev matched : List OutputEntry
  matched = keep (is_after since) b.entries

  after_page :
      Rising 0 b.entries
      → keep (is_after (last_seq (take limit matched) since)) b.entries ≡ drop limit matched
  after_page rising =
      let r = Rising-keep since 0 b.entries rising in
      let c = last_seq (take limit matched) since in
      sym (keep_twice since c b.entries (last_seq-le limit since matched r))
      ∙ keep-last_seq limit since matched r

-- A reader that goes on from the cursor of each page misses nothing and sees nothing twice: after any
-- history, a page followed by all that lies past its cursor is all that lies past the old cursor, and
-- `hasMore` is false exactly if nothing lies past the new one.
pub read-next_since :
    (most : ℕ) (cs : List Chunk) (since limit : ℕ)
    → let b = push_all (new_buffer most) cs in
      let r = read b since limit in
      (r.entries ++ keep (is_after r.next_since) b.entries ≡ keep (is_after since) b.entries)
      × ((r.has_more ≡ false) ↔ (keep (is_after r.next_since) b.entries ≡ []))
unfolding read
read-next_since most cs since limit =
    let b = push_all (new_buffer most) cs in
    let w = push_all-new_buffer-IsWindow most cs in
    let rising : Rising 0 b.entries =
      rw w.latest (Rising-drop (length (numbered 1 cs) - most) 0 _ (Rising-numbered 0 cs)) in
    let rest = after_page b since limit rising in
    let m = matched b since limit in
    (rw rest (take-append-drop limit m), rw rest (empty-drop_iff limit m))
