-- ===== src/Proxy/Framing/Rounds.antt =====
-- One round of the decoder's loop, case by case.
use mcp_debugger.Base.{
  ℕ, ◌+◌, ◌≤◌, ◌<◌, ◌≡◌, refl, ap, true, false, none, some, List, [], ◌∷◌, ◌++◌, arith, length,
  take, drop, take-length_append, ltb, lt→ltb, append-nil, append_assoc,
}
use mcp_debugger.Base.Number.{Parsed}
use mcp_debugger.Base.Text.{index_of}
use mcp_debugger.Proxy.Framing.{
  Codec, DapFrameDecoder, Round, two_crlf, reset, concat, full_body, push_chunk, accepted,
  after_header, header_round, body_round, by_phase, round, decode_body, failure, overflow,
  header_length, split_lines, max_header_bytes,
}

concat-append : (xs ys : List (List ℕ)) → concat (xs ++ ys) ≡ concat xs ++ concat ys
concat-append [] ys = refl
concat-append (x ∷ xs) ys = simp (concat-append xs ys, append_assoc)

pub concat-push_chunk :
    (chunks : List (List ℕ)) (input : List ℕ)
    → concat (push_chunk chunks input) ≡ concat chunks ++ input
concat-push_chunk chunks [] = rw append-nil
concat-push_chunk chunks (x ∷ input) = simp (concat-append, append-nil)

pub full_body_lem :
    (chunks : List (List ℕ)) (total : ℕ)
    → total ≡ length (concat chunks)
    → full_body chunks total ≡ concat chunks
unfolding full_body
full_body_lem (chunk ∷ []) total h = rw append-nil
full_body_lem [] total h = rw h
full_body_lem (x ∷ y ∷ chunks) total h = rw h (take-length_append (concat (x ∷ y ∷ chunks)) _)

module _ {Message : Type 0} (c : Codec Message) (d : DapFrameDecoder) (input : List ℕ) where
  abbrev pub waiting : Round Message
  waiting = record {
    decoder = record d {
      body_chunks = push_chunk d.body_chunks input;
      body_bytes = d.body_bytes + length input;
    };
    input = [];
    events = [];
    again = false;
  }

  abbrev pub completed : ℕ → Round Message
  completed size =
      let full = full_body (push_chunk d.body_chunks input) (d.body_bytes + length input) in
      record {
        decoder = record d { body_chunks = []; body_bytes = 0; content_length = none };
        input = drop size full;
        events = decode_body c (c.from_utf8 (take size full));
        again = true;
      }

  pub body_round_short :
      (size : ℕ) → d.body_bytes + length input < size → body_round c d size input ≡ waiting
  unfolding body_round
  body_round_short size h = rw (lt→ltb (d.body_bytes + length input) size h)

  pub body_round_full :
      (size : ℕ) → size ≤ d.body_bytes + length input → body_round c d size input ≡ completed size
  unfolding body_round
  body_round_full size h =
      let over : ltb (d.body_bytes + length input) size ≡ false = ground arith in rw over

  -- No header yet: the bytes are kept, or thrown away if there are too many.
  abbrev pub unfinished : Round Message
  unfinished = record {
    decoder = record d { header_data = d.header_data ++ input };
    input = [];
    events = [];
    again = false;
  }

  pub header_round-none :
      index_of two_crlf (d.header_data ++ input) ≡ none
      → length (d.header_data ++ input) ≤ max_header_bytes
      → header_round c d input ≡ unfinished
  unfolding header_round
  header_round-none e h =
      let small : ltb max_header_bytes (length (d.header_data ++ input)) ≡ false = ground arith in
      rw (e, header_round, small)

  abbrev pub flooded : Round Message
  flooded = record { decoder = reset d; input = []; events = failure overflow ∷ []; again = false }

  pub header_round-flooded :
      index_of two_crlf (d.header_data ++ input) ≡ none
      → max_header_bytes < length (d.header_data ++ input)
      → header_round c d input ≡ flooded
  unfolding header_round
  header_round-flooded e h =
      rw (e, header_round, lt→ltb max_header_bytes (length (d.header_data ++ input)) h)

  pub header_round-some :
      (at : ℕ)
      → index_of two_crlf (d.header_data ++ input) ≡ some at
      → header_round c d input
        ≡ after_header d
            (header_length (split_lines [] (c.from_utf8 (take at (d.header_data ++ input)))))
            (drop (at + 4) (d.header_data ++ input))
  unfolding header_round
  header_round-some at e = rw (e, header_round)

  pub round_header : d.content_length ≡ none → round c d input ≡ header_round c d input
  unfolding round by_phase
  round_header e = ap (by_phase c d input) e

  pub round_body :
      (size : ℕ) → d.content_length ≡ some size → round c d input ≡ body_round c d size input
  unfolding round by_phase
  round_body size e = ap (by_phase c d input) e

  -- A header block that announces a body within the cap begins the body.
  abbrev pub begun : ℕ → List ℕ → Round Message
  begun size rest = record {
    decoder = record d { header_data = []; content_length = some size };
    input = rest;
    events = [];
    again = true;
  }

  pub after_header_fits :
      (parsed : Parsed) (size : ℕ) (rest : List ℕ)
      → accepted parsed ≡ some size
      → size ≤ d.max_content_length
      → after_header d parsed rest ≡ begun size rest
  unfolding after_header
  after_header_fits parsed size rest e h =
      let within : ltb d.max_content_length size ≡ false = ground arith in
      rw (e, after_header, within)
