-- ===== src/Session/OutputBuffer.antt =====
-- src/session/output-buffer.ts. Text is a list of UTF-16 code units, as JavaScript counts it; the
-- time stamp that `push` takes from the clock by default is an argument.
pub mod Window
pub mod Paging
pub mod Tests
use mcp_debugger.Base.{
  ℕ, suc, ◌+◌, Bool, true, false, List, [], ◌∷◌, ◌++◌, ltb, length, take, keep, if◌then◌else◌,
}

abbrev pub output_buffer_cap : ℕ
output_buffer_cap = 1000

abbrev pub max_output_entry_chars : ℕ
max_output_entry_chars = 8192

-- The optional flags of an entry are Booleans: absent is false.
pub record OutputEntry : Type 0 where
  pub seq : ℕ
  pub category : List ℕ
  pub output : List ℕ
  pub timestamp : ℕ
  pub truncated : Bool
  pub redacted : Bool

pub record OutputRingBuffer : Type 0 where
  pub entries : List OutputEntry
  pub next_seq : ℕ
  pub dropped_count : ℕ
  pub cap : ℕ

unfoldable pub new_buffer : ℕ → OutputRingBuffer
new_buffer cap = record { entries = []; next_seq = 1; dropped_count = 0; cap = cap }

-- What `push` is called with, apart from the buffer.
pub record Chunk : Type 0 where
  pub category : List ℕ
  pub output : List ℕ
  pub timestamp : ℕ
  pub redacted : Bool

unfoldable pub entry_of : ℕ → Chunk → OutputEntry
entry_of seq c =
    let truncated = ltb max_output_entry_chars (length c.output) in
    record {
      seq = seq;
      category = c.category;
      output = if truncated then take max_output_entry_chars c.output else c.output;
      timestamp = c.timestamp;
      truncated = truncated;
      redacted = c.redacted;
    }

-- `Array.prototype.shift`
abbrev shift : List OutputEntry → List OutputEntry
shift [] = []
shift (x ∷ xs) = xs

unfoldable pub push : OutputRingBuffer → Chunk → OutputRingBuffer × OutputEntry
unfolding entry_of
push b c =
    let entry = entry_of b.next_seq c in
    let grown = b.entries ++ entry ∷ [] in
    let over = ltb b.cap (length grown) in
    (
      record b {
        entries = if over then shift grown else grown;
        next_seq = b.next_seq + 1;
        dropped_count = if over then b.dropped_count + 1 else b.dropped_count;
      },
      entry,
    )

pub record OutputReadResult : Type 0 where
  pub entries : List OutputEntry
  pub next_since : ℕ
  pub has_more : Bool
  pub dropped : ℕ

abbrev pub is_after : ℕ → OutputEntry → Bool
is_after since e = ltb since e.seq

-- The seq of the last entry of a page, or the given one if the page is empty.
abbrev pub last_seq : List OutputEntry → ℕ → ℕ
last_seq [] since = since
last_seq (e ∷ es) since = last_seq es e.seq

unfoldable pub read : OutputRingBuffer → ℕ → ℕ → OutputReadResult
read b since limit =
    let matched = keep (is_after since) b.entries in
    let page = take limit matched in
    record {
      entries = page;
      next_since = last_seq page since;
      has_more = ltb (length page) (length matched);
      dropped = b.dropped_count;
    }

unfoldable pub render_text : List OutputEntry → List ℕ
render_text [] = []
render_text (e ∷ es) = e.output ++ render_text es
