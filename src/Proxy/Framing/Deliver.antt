-- ===== src/Proxy/Framing/Deliver.antt =====
-- One round on a stream of well-formed frames delivers what it should.
use mcp_debugger.Base.{
  ℕ, zero, suc, ◌+◌, ◌^◌, ◌≤◌, ◌<◌, ◌≡◌, refl, sym, subst, ap, ◌∙◌, none, some, List, [], ◌∷◌, ◌++◌,
  arith, length, length-append, take, drop, take-length_append, append-nil, ltb, ltb→lt, Bool-cases,
  inl, inr, All,
}
use mcp_debugger.Base.Int.{pos}
use mcp_debugger.Base.Number.{Parsed, finite, infinity_bound}
use mcp_debugger.Base.Text.{index_of}
use mcp_debugger.Base.Text.Search.{append-split}
use mcp_debugger.Proxy.Framing.{
  Codec, DapFrameDecoder, two_crlf, header_of, accepted, concat, full_body, push_chunk, decode_body,
  header_round, header_length, split_lines, round, max_header_bytes,
}
use mcp_debugger.Proxy.Framing.Rounds.{
  concat-push_chunk, full_body_lem, waiting, completed, unfinished, begun, body_round_short,
  body_round_full, header_round-none, header_round-some, after_header_fits, round_header,
  round_body,
}
use mcp_debugger.Proxy.Framing.Sound.{Sound, grown}
use mcp_debugger.Proxy.Framing.Header.{IsCodec, length-header_of}
use mcp_debugger.Proxy.Framing.Ready.{
  body_of, stream, Fits, Ready, in_header, in_body, Delivers, body_of_pos, decode_body_of, front_of,
  stream-cons, length-front_of, front-none, front-some, front-read, front-drop,
}

accepted_size :
    (parsed : Parsed) (size : ℕ)
    → parsed ≡ finite (pos size)
    → 0 < size
    → accepted parsed ≡ some size
accepted_size parsed zero e h = absurd (omega arith)
accepted_size parsed (suc size) e h = rw e

finite_size : (size : ℕ) → size < 10 ^ 16 → size < infinity_bound
unfolding infinity_bound
finite_size size h = omega arith

empty_front : (xs ys : List ℕ) → xs ++ ys ≡ [] → xs ≡ []
empty_front [] ys e = refl
empty_front (x ∷ xs) ys e = cc

pub nowhere : index_of two_crlf [] ≡ none
unfolding index_of
nowhere = refl

module _ {Message : Type 0} (c : Codec Message) (laws : IsCodec c) (d : DapFrameDecoder)
    (input rest : List ℕ) (v : Sound d) where
  abbrev buffered : List ℕ
  buffered = d.header_data ++ input

  -- No complete header block: the bytes are kept.
  unfinished-Delivers :
      (all : List Message)
      → d.content_length ≡ none
      → buffered ++ rest ≡ stream c all
      → index_of two_crlf buffered ≡ none
      → Delivers c d rest all (unfinished c d input)
  unfinished-Delivers all idle e missing = record {
    done = [];
    left = all;
    parts = refl;
    delivered = refl;
    ready = in_header idle (ap (λ b. b ++ rest) (append-nil buffered) ∙ e);
    stuck = λ _. (refl, λ _. missing);
  }

  waiting-Delivers :
      (m : Message) (ms all : List Message)
      → all ≡ m ∷ ms
      → d.content_length ≡ some (length (body_of c m))
      → (concat d.body_chunks ++ input) ++ rest ≡ body_of c m ++ stream c ms
      → Delivers c d rest all (waiting c d input)
  waiting-Delivers m ms all split size e = record {
    done = [];
    left = all;
    parts = refl;
    delivered = refl;
    ready =
        in_body m ms split size
          (ap (λ b. b ++ rest) (append-nil _ ∙ concat-push_chunk d.body_chunks input) ∙ e);
    stuck = λ _. (refl, λ q. cc);
  }

  completed-Delivers :
      (m : Message) (ms all : List Message)
      → all ≡ m ∷ ms
      → d.content_length ≡ some (length (body_of c m))
      → (concat d.body_chunks ++ input) ++ rest ≡ body_of c m ++ stream c ms
      → length (body_of c m) ≤ d.body_bytes + length input
      → Delivers c d rest all (completed c d input (length (body_of c m)))
  completed-Delivers m ms all split size e enough =
      let body = body_of c m in
      let whole = concat d.body_chunks ++ input in
      let full = full_body (push_chunk d.body_chunks input) (d.body_bytes + length input) in
      let is_whole : full ≡ whole =
        full_body_lem (push_chunk d.body_chunks input) (d.body_bytes + length input)
          (grown c d input v)
        ∙ concat-push_chunk d.body_chunks input in
      let fits : length body ≤ length whole =
        omega (arith, v.sized, length-append (concat d.body_chunks) input) in
      let (cut, later) = append-split whole rest body (stream c ms) e fits in
      record {
        done = m ∷ [];
        left = ms;
        parts = split;
        delivered =
            ap (λ f. decode_body c (c.from_utf8 (take (length body) f))) (is_whole ∙ cut)
            ∙ ap (λ b. decode_body c (c.from_utf8 b))
                (take-length_append body (drop (length body) whole))
            ∙ decode_body_of c laws m;
        ready = in_header refl (
            ap (λ h. (h ++ drop (length body) full) ++ rest) (v.headless (length body) size)
            ∙ ap (λ f. drop (length body) f ++ rest) is_whole
            ∙ later);
        stuck = λ q. cc;
      }

  -- The first header block is complete: its body begins.
  begun-Delivers :
      (m : Message) (ms : List Message)
      → Fits c d.max_content_length m
      → d.content_length ≡ none
      → buffered ++ rest ≡ front_of c laws m ++ (body_of c m ++ stream c ms)
      → length (front_of c laws m) ≤ length buffered
      → Delivers c d rest (m ∷ ms) (header_round c d input)
  begun-Delivers m ms fits idle e enough =
      let size = length (body_of c m) in
      let head = length (header_of size) in
      let x = drop (length (front_of c laws m)) buffered in
      let (cut, later) =
        append-split buffered rest (front_of c laws m) (body_of c m ++ stream c ms) e enough in
      let found : index_of two_crlf buffered ≡ some head =
        ap (index_of two_crlf) cut ∙ front-some c laws m x in
      let parsed = header_length (split_lines [] (c.from_utf8 (take head buffered))) in
      let read : parsed ≡ finite (pos size) =
        ap (λ b. header_length (split_lines [] (c.from_utf8 (take head b)))) cut
        ∙ front-read c laws m x (finite_size size fits.exact_size) in
      let behind_it : drop (head + 4) buffered ≡ x =
        ap (drop (head + 4)) cut ∙ front-drop c laws m x in
      let now : header_round c d input ≡ begun c d input size (drop (head + 4) buffered) =
        header_round-some c d input head found
        ∙ after_header_fits c d input parsed size (drop (head + 4) buffered)
            (accepted_size parsed size read (body_of_pos c laws m)) fits.within_cap in
      subst (Delivers c d rest (m ∷ ms)) (sym now) (record {
        done = [];
        left = m ∷ ms;
        parts = refl;
        delivered = refl;
        ready = in_body m ms refl refl (
            ap (λ chunks. (concat chunks ++ drop (head + 4) buffered) ++ rest) (v.idle idle)
            ∙ ap (λ b. b ++ rest) behind_it
            ∙ later);
        stuck = λ q. cc;
      })

  header-Delivers :
      (all : List Message)
      → All (Fits c d.max_content_length) all
      → d.content_length ≡ none
      → buffered ++ rest ≡ stream c all
      → Delivers c d rest all (header_round c d input)
  unfolding stream
  header-Delivers [] fits idle e =
      let nothing : buffered ≡ [] = empty_front buffered rest e in
      let missing : index_of two_crlf buffered ≡ none = ap (index_of two_crlf) nothing ∙ nowhere in
      subst (Delivers c d rest [])
        (sym (header_round-none c d input missing (omega (arith, ap length nothing))))
        (unfinished-Delivers [] idle e missing)
  header-Delivers (m ∷ ms) (fit, fits) idle e =
      let e' = e ∙ stream-cons c laws m ms in
      elim (Bool-cases (ltb (length buffered) (length (front_of c laws m)))) [
        | inl short ↦
            let fewer = ltb→lt (length buffered) (length (front_of c laws m)) short in
            let missing = front-none c laws m buffered rest (body_of c m ++ stream c ms) e' fewer in
            let small : length buffered ≤ max_header_bytes = omega (
              arith,
              fewer,
              length-front_of c laws m,
              length-header_of (length (body_of c m)) fit.exact_size,
            ) in
            subst (Delivers c d rest (m ∷ ms)) (sym (header_round-none c d input missing small))
              (unfinished-Delivers (m ∷ ms) idle e missing)
        | inr enough ↦ begun-Delivers m ms fit idle e' (ground arith)
      ]

  -- Every round before well-formed frames delivers.
  pub round-Delivers :
      (all : List Message)
      → All (Fits c d.max_content_length) all
      → Ready c d input rest all
      → Delivers c d rest all (round c d input)
  round-Delivers all fits (in_header idle e) =
      subst (Delivers c d rest all) (sym (round_header c d input idle))
        (header-Delivers all fits idle e)
  round-Delivers all fits (in_body m ms split size e) =
      subst (Delivers c d rest all) (sym (round_body c d input (length (body_of c m)) size))
        (elim (Bool-cases (ltb (d.body_bytes + length input) (length (body_of c m)))) [
          | inl short ↦
              subst (Delivers c d rest all)
                (sym (body_round_short c d input (length (body_of c m)) (ltb→lt _ _ short)))
                (waiting-Delivers m ms all split size e)
          | inr long ↦
              let enough : length (body_of c m) ≤ d.body_bytes + length input = ground arith in
              subst (Delivers c d rest all)
                (sym (body_round_full c d input (length (body_of c m)) enough))
                (completed-Delivers m ms all split size e enough)
        ])
