-- ===== src/Proxy/Framing/Ready.antt =====
-- The decoder on a stream of well-formed frames, one round at a time.
use mcp_debugger.Base.{
  ℕ, ◌+◌, ◌^◌, ◌≤◌, ◌<◌, ◌≡◌, ◌≢◌, refl, sym, ap, ◌∙◌, false, none, some, List, [], ◌∷◌, ◌++◌,
  arith, length, length-append, length-drop, take, drop, take-length_append, drop-length_append,
  append_assoc, map,
}
use mcp_debugger.Base.Int.{pos}
use mcp_debugger.Base.Number.{finite, infinity_bound}
use mcp_debugger.Base.Text.{index_of}
use mcp_debugger.Base.Text.Search.{append-split, index_of-append, two_lines-none}
use mcp_debugger.Proxy.Framing.{
  Codec, DapFrameDecoder, message, Round, two_crlf, header_of, encode_dap_message, concat,
  decode_body, header_length, split_lines,
}
use mcp_debugger.Proxy.Framing.Header.{
  IsCodec, header_of-Lacks, header_length-header_of, encode_dap_message_lem, header_of-IsAscii,
}

module _ {Message : Type 0} (c : Codec Message) where
  -- The bytes of a message's body.
  abbrev pub body_of : Message → List ℕ
  body_of m = c.to_utf8 (c.stringify m)

  -- The bytes of a sequence of frames.
  unfoldable pub stream : List Message → List ℕ
  stream [] = []
  stream (m ∷ ms) = encode_dap_message c m ++ stream ms

  -- A message whose body the decoder accepts.
  pub record Fits (most : ℕ) (m : Message) : Type 0 where
    pub within_cap : length (body_of m) ≤ most
    pub exact_size : length (body_of m) < 10 ^ 16

  -- With `rest` still to come, the decoder and its input stand before the messages `all`: either
  -- between two frames or inside a header block, or in the body of the first message.
  pub data Ready (d : DapFrameDecoder) (input rest : List ℕ) (all : List Message) : Type 0 where
    in_header :
        d.content_length ≡ none
        → (d.header_data ++ input) ++ rest ≡ stream all
        → Ready d input rest all
    in_body :
        (m : Message) (ms : List Message)
        → all ≡ m ∷ ms
        → d.content_length ≡ some (length (body_of m))
        → (concat d.body_chunks ++ input) ++ rest ≡ body_of m ++ stream ms
        → Ready d input rest all

  -- What a round does at such a place: it delivers the messages `done` and stands before `left`; if
  -- it stops in the header phase, no complete header block is held.
  pub record Delivers (d : DapFrameDecoder) (rest : List ℕ) (all : List Message) (r : Round Message)
      : Type 0 where
    pub done : List Message
    pub left : List Message
    pub parts : all ≡ done ++ left
    pub delivered : r.events ≡ map message done
    pub ready : Ready r.decoder r.input rest left
    pub stuck :
        r.again ≡ false
        → (r.input ≡ [])
          × (r.decoder.content_length ≡ none → index_of two_crlf r.decoder.header_data ≡ none)

take-front : (xs ys zs : List ℕ) → take (length xs) ((xs ++ ys) ++ zs) ≡ xs
take-front xs ys zs = rw append_assoc (take-length_append xs (ys ++ zs))

module _ {Message : Type 0} (c : Codec Message) (laws : IsCodec c) where
  pub body_of_pos : (m : Message) → 0 < length (body_of c m)
  body_of_pos m = go (body_of c m) (laws.text_back m)
    where
      go : (b : List ℕ) → c.from_utf8 b ≡ c.stringify m → 0 < length b
      go [] e = absurd (laws.text_there m (sym e ∙ laws.ascii_in [] tt))
      go (x ∷ b) e = omega arith

  pub decode_body_of : (m : Message) → decode_body c (c.from_utf8 (body_of c m)) ≡ message m ∷ []
  decode_body_of m =
      rw (laws.text_back m) (go (c.stringify m) (laws.text_there m) (laws.parse_back m))
    where
      go : (t : List ℕ) → t ≢ [] → c.parse t ≡ some m → decode_body c t ≡ message m ∷ []
      go [] full e = absurd (full refl)
      go (x ∷ t) full e = rw e

  -- The separator and what stands before it.
  abbrev pub front_of : Message → List ℕ
  front_of m = header_of (length (body_of c m)) ++ two_crlf

  pub stream-cons :
      (m : Message) (ms : List Message)
      → stream c (m ∷ ms) ≡ front_of m ++ (body_of c m ++ stream c ms)
  unfolding stream
  stream-cons m ms =
      rw (encode_dap_message_lem c laws m) (append_assoc (front_of m) (body_of c m) (stream c ms))

  pub length-front_of :
      (m : Message) → length (front_of m) ≡ length (header_of (length (body_of c m))) + 4
  length-front_of m = length-append (header_of (length (body_of c m))) two_crlf

  -- A header block that is not complete.
  pub front-none :
      (m : Message) (start rest tail : List ℕ)
      → start ++ rest ≡ front_of m ++ tail
      → length start < length (front_of m)
      → index_of two_crlf start ≡ none
  front-none m start rest tail e h =
      let (cut, _) = append-split (front_of m) tail start rest (sym e) (omega arith) in
      two_lines-none (header_of (length (body_of c m))) start (drop (length start) (front_of m))
        (header_of-Lacks (length (body_of c m))) (sym cut)
        (λ q. absurd (omega (arith, ap length q, length-drop (length start) (front_of m))))

  -- A complete header block is found and read.
  pub front-some :
      (m : Message) (x : List ℕ)
      → index_of two_crlf (front_of m ++ x) ≡ some (length (header_of (length (body_of c m))))
  front-some m x =
      index_of-append 13 (10 ∷ 13 ∷ 10 ∷ []) (header_of (length (body_of c m))) x
        (header_of-Lacks (length (body_of c m))) refl

  pub front-read :
      (m : Message) (x : List ℕ)
      → length (body_of c m) < infinity_bound
      → header_length (
          split_lines []
            (c.from_utf8 (take (length (header_of (length (body_of c m)))) (front_of m ++ x))))
        ≡ finite (pos (length (body_of c m)))
  front-read m x h =
      let head = header_of (length (body_of c m)) in
      ap (λ b. header_length (split_lines [] (c.from_utf8 b))) (take-front head two_crlf x)
      ∙ ap (λ b. header_length (split_lines [] b))
          (laws.ascii_in head (header_of-IsAscii (length (body_of c m))))
      ∙ header_length-header_of (length (body_of c m)) h

  pub front-drop :
      (m : Message) (x : List ℕ)
      → drop (length (header_of (length (body_of c m))) + 4) (front_of m ++ x) ≡ x
  front-drop m x = rw (← length-front_of m) (drop-length_append (front_of m) x)
