-- ===== src/Proxy/Framing/Sound.antt =====
-- The decoder on any input: every push ends, and what is buffered afterwards is bounded.
use mcp_debugger.Base.{
  ℕ, ◌+◌, ◌≤◌, ◌<◌, ◌≡◌, refl, ap, ◌∙◌, true, false, Option, none, some, List, [], ◌++◌, arith, sym,
  ltb→lt, length, length-append, length-drop, take, drop, ltb, Bool-cases, Option-cases, inl, inr,
}
use mcp_debugger.Base.Number.{Parsed}
use mcp_debugger.Base.Text.{codes, index_of}
use mcp_debugger.Base.Text.Search.{index_of-le}
use mcp_debugger.Proxy.Framing.{
  Codec, DapFrameDecoder, Round, two_crlf, reset, concat, full_body, push_chunk, accepted,
  drop_found, after_header, header_round, body_round, round, header_length, split_lines, held,
  max_header_bytes,
}
use mcp_debugger.Proxy.Framing.Rounds.{
  concat-push_chunk, full_body_lem, waiting, completed, body_round_short, body_round_full,
  header_round-none, header_round-flooded, header_round-some, round_header, round_body,
}

-- In the body phase the chunks add up to their count, the length is positive and within the cap, and
-- no header bytes are held; in the header phase no chunks are.
pub record Sound (d : DapFrameDecoder) : Type 0 where
  pub sized : d.body_bytes ≡ length (concat d.body_chunks)
  pub idle : d.content_length ≡ none → d.body_chunks ≡ []
  pub positive : (size : ℕ) → d.content_length ≡ some size → 0 < size
  pub capped : (size : ℕ) → d.content_length ≡ some size → size ≤ d.max_content_length
  pub headless : (size : ℕ) → d.content_length ≡ some size → d.header_data ≡ []

-- What a decoder holds between two pushes: a header block below its limit, or less than the body.
pub record Bounded (d : DapFrameDecoder) : Type 0 where
  pub few_header_bytes : length d.header_data ≤ max_header_bytes
  pub partial_body : (size : ℕ) → d.content_length ≡ some size → d.body_bytes < size
  pub no_body : d.content_length ≡ none → d.body_bytes ≡ 0

-- A round keeps the decoder sound; one that goes on leaves fewer bytes, and the last leaves few.
pub record Advances (d : DapFrameDecoder) (input : List ℕ) {Message : Type 0} (r : Round Message)
    : Type 0 where
  pub sound : Sound r.decoder
  pub fewer : r.again ≡ true → held r.decoder r.input < held d input
  pub bounded : r.again ≡ false → Bounded r.decoder
  pub same_max : r.decoder.max_content_length ≡ d.max_content_length

module _ {Message : Type 0} (c : Codec Message) (d : DapFrameDecoder) (input : List ℕ)
    (v : Sound d) where
  abbrev pub bytes : ℕ
  bytes = d.body_bytes + length input

  pub grown : bytes ≡ length (concat (push_chunk d.body_chunks input))
  grown =
      rw (concat-push_chunk d.body_chunks input)
        (omega (arith, v.sized, length-append (concat d.body_chunks) input))

  length-full : length (full_body (push_chunk d.body_chunks input) bytes) ≡ bytes
  length-full = rw (full_body_lem (push_chunk d.body_chunks input) bytes grown) (sym grown)

  waiting-Advances :
      (size : ℕ)
      → d.content_length ≡ some size
      → d.body_bytes + length input < size
      → Advances d input (waiting c d input)
  waiting-Advances size e h = record {
    sound = record {
      sized = grown;
      idle = λ n. cc;
      positive = v.positive;
      capped = v.capped;
      headless = v.headless;
    };
    fewer = λ n. cc;
    bounded = λ _. record {
      few_header_bytes = rw (v.headless size e) (omega arith);
      partial_body = λ n q. ground arith;
      no_body = λ q. cc;
    };
    same_max = refl;
  }

  completed-Advances :
      (size : ℕ)
      → d.content_length ≡ some size
      → size ≤ d.body_bytes + length input
      → Advances d input (completed c d input size)
  completed-Advances size e h = record {
    sound = record {
      sized = refl;
      idle = λ _. refl;
      positive = λ n q. cc;
      capped = λ n q. cc;
      headless = λ n q. cc;
    };
    fewer = λ _. omega (
      arith,
      v.positive size e,
      length-full,
      length-drop size (full_body (push_chunk d.body_chunks input) bytes),
    );
    bounded = λ q. cc;
    same_max = refl;
  }

  body_round-Advances :
      (size : ℕ) → d.content_length ≡ some size → Advances d input (body_round c d size input)
  body_round-Advances size e = elim (Bool-cases (ltb bytes size)) [
    | inl short ↦
        rw (body_round_short c d input size (ltb→lt bytes size short))
          (waiting-Advances size e (ltb→lt bytes size short))
    | inr full ↦
        let over : size ≤ bytes = ground arith in
        rw (body_round_full c d input size over) (completed-Advances size e over)
  ]

module _ (d : DapFrameDecoder) (v : Sound d) (idle : d.content_length ≡ none) where
  no_bytes : d.body_bytes ≡ 0
  no_bytes = v.sized ∙ ap (λ chunks. length (concat chunks)) (v.idle idle)

  reset-Sound : Sound (reset d)
  unfolding reset
  reset-Sound = record {
    sized = refl;
    idle = λ _. refl;
    positive = λ n q. cc;
    capped = λ n q. cc;
    headless = λ n q. cc;
  }

  reset-Bounded : Bounded (reset d)
  unfolding reset
  reset-Bounded = record {
    few_header_bytes = omega arith;
    partial_body = λ n q. cc;
    no_body = λ _. refl;
  }

  kept-Sound : (data' : List ℕ) → Sound (record d { header_data = data' })
  kept-Sound data' = record {
    sized = v.sized;
    idle = v.idle;
    positive = v.positive;
    capped = v.capped;
    headless = λ n q. cc;
  }

  begun-Sound :
      (size : ℕ)
      → 0 < size
      → size ≤ d.max_content_length
      → Sound (record d { header_data = []; content_length = some size })
  begun-Sound size pos_size fits = record {
    sized = v.sized;
    idle = λ q. cc;
    positive = λ n q. ground arith;
    capped = λ n q. ground arith;
    headless = λ n q. refl;
  }

length-drop_found :
    (found : Option ℕ) (rest : List ℕ) → length (drop_found found rest) ≤ length rest
length-drop_found none rest = omega arith
length-drop_found (some at) rest = omega (arith, length-drop at rest)

accepted_pos : (parsed : Parsed) (size : ℕ) → accepted parsed ≡ some size → 0 < size
accepted_pos parsed size h = ground arith

module _ (Message : Type 0) (d : DapFrameDecoder) (v : Sound d)
    (idle : d.content_length ≡ none) where
  -- After a header block the loop goes on, with at most the rest of the bytes.
  after_header-Sound :
      (parsed : Parsed) (rest : List ℕ)
      → let r : Round Message = after_header d parsed rest in
        Sound r.decoder
        × (r.again ≡ true)
        × (held r.decoder r.input ≤ length rest)
        × (r.decoder.max_content_length ≡ d.max_content_length)
  unfolding after_header reset
  after_header-Sound parsed rest = elim (Option-cases (accepted parsed)) [
    | inl bad ↦
        rw (bad, after_header)
          (
            reset-Sound d v idle,
            refl,
            omega (arith, length-drop_found (index_of (codes "Content-Length") rest) rest),
            refl,
          )
    | inr (size, good) ↦ elim (Bool-cases (ltb d.max_content_length size)) [
      | inl over ↦ rw (good, after_header, over) (reset-Sound d v idle, refl, omega arith, refl)
      | inr fits ↦
          rw (good, after_header, fits)
            (
              begun-Sound d v idle size (accepted_pos parsed size good) (ground arith),
              refl,
              omega (arith, no_bytes d v idle),
              refl,
            )
    ]
  ]

module _ {Message : Type 0} (c : Codec Message) (d : DapFrameDecoder) (input : List ℕ)
    (v : Sound d) where
  header_round-Advances : d.content_length ≡ none → Advances d input (header_round c d input)
  unfolding reset
  header_round-Advances idle = elim (Option-cases (index_of two_crlf (d.header_data ++ input))) [
    | inl missing ↦ elim (Bool-cases (ltb max_header_bytes (length (d.header_data ++ input)))) [
      | inl many ↦ rw (header_round-flooded c d input missing (ltb→lt _ _ many)) (record {
        sound = reset-Sound d v idle;
        fewer = λ q. cc;
        bounded = λ _. reset-Bounded d v idle;
        same_max = refl;
      })
      | inr few ↦
          let small : length (d.header_data ++ input) ≤ max_header_bytes = ground arith in
          rw (header_round-none c d input missing small) (record {
            sound = kept-Sound d v idle (d.header_data ++ input);
            fewer = λ q. cc;
            bounded = λ _. record {
              few_header_bytes = small;
              partial_body = λ n q. cc;
              no_body = λ _. no_bytes d v idle;
            };
            same_max = refl;
          })
    ]
    | inr (at, found) ↦
        let rest = drop (at + 4) (d.header_data ++ input) in
        let parsed =
          header_length (split_lines [] (c.from_utf8 (take at (d.header_data ++ input)))) in
        let (sound, again, few, same) = after_header-Sound Message d v idle parsed rest in
        rw (header_round-some c d input at found) (record {
          sound = sound;
          fewer = λ _. omega (
            arith,
            few,
            length-drop (at + 4) (d.header_data ++ input),
            index_of-le two_crlf (d.header_data ++ input) at found,
            length-append d.header_data input,
          );
          bounded = λ q. cc;
          same_max = same;
        })
  ]

  pub round-Advances : Advances d input (round c d input)
  round-Advances = elim (Option-cases d.content_length) [
    | inl idle ↦ rw (round_header c d input idle) (header_round-Advances idle)
    | inr (size, e) ↦ rw (round_body c d input size e) (body_round-Advances c d input v size e)
  ]
