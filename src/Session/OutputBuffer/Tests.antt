-- ===== src/Session/OutputBuffer/Tests.antt =====
-- The buffer at a concrete history.
use mcp_debugger.Base.{ℕ, ◌≤◌, ◌≡◌, refl, ◌↔◌, false, List, [], ◌∷◌, ◌++◌, All, length, keep, map}
use mcp_debugger.Session.OutputBuffer.{
  Chunk, max_output_entry_chars, new_buffer, entry_of, push, read, is_after, render_text,
}
use mcp_debugger.Session.OutputBuffer.Window.{
  numbered, push_all, IsWindow, push_all-new_buffer-IsWindow, push_all-new_buffer_bounded,
}
use mcp_debugger.Session.OutputBuffer.Paging.{read-next_since}

abbrev chunk : ℕ → Chunk
chunk c = record { category = 1 ∷ []; output = c ∷ []; timestamp = 3; redacted = false }

abbrev pushed : List Chunk
pushed = chunk 65 ∷ chunk 66 ∷ chunk 67 ∷ []

latest_two : map (λ e. e.seq) (push_all (new_buffer 2) pushed).entries ≡ 2 ∷ 3 ∷ []
unfolding push_all new_buffer push entry_of
latest_two = refl

rendered : render_text (push_all (new_buffer 2) pushed).entries ≡ 66 ∷ 67 ∷ []
unfolding push_all new_buffer push entry_of render_text
rendered = refl

push_all-new_buffer-IsWindow_example :
    IsWindow 2 (numbered 1 pushed) (push_all (new_buffer 2) pushed)
push_all-new_buffer-IsWindow_example = push_all-new_buffer-IsWindow 2 pushed

push_all-new_buffer_bounded_example :
    let b = push_all (new_buffer 2) pushed in
    (length b.entries ≤ 2) × All (λ e. length e.output ≤ max_output_entry_chars) b.entries
push_all-new_buffer_bounded_example = push_all-new_buffer_bounded 2 pushed

read-next_since_example :
    let b = push_all (new_buffer 2) pushed in
    let r = read b 0 1 in
    (r.entries ++ keep (is_after r.next_since) b.entries ≡ keep (is_after 0) b.entries)
    × ((r.has_more ≡ false) ↔ (keep (is_after r.next_since) b.entries ≡ []))
read-next_since_example = read-next_since 2 pushed 0 1
