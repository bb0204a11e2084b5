-- ===== src/Proxy/Framing/Stream.antt =====
-- Encoded messages come out of the decoder as they went in, however the bytes are cut into chunks.
use mcp_debugger.Base.{
  ℕ, zero, suc, ◌<◌, ◌≡◌, refl, sym, subst, ap, ◌∙◌, none, some, List, [], ◌∷◌, ◌++◌, arith, length,
  length-append, append-nil, append_assoc, map, map-append, Bool-cases, inl, inr, All,
  All-append_right,
}
use mcp_debugger.Base.Text.{index_of}
use mcp_debugger.Proxy.Framing.{
  Codec, DapFrameDecoder, message, Left, two_crlf, concat, new_decoder, loop, held, push, push_all,
  behind, round,
}
use mcp_debugger.Proxy.Framing.Sound.{Sound, Bounded, round-Advances}
use mcp_debugger.Proxy.Framing.Header.{IsCodec}
use mcp_debugger.Proxy.Framing.Ready.{
  body_of, stream, Fits, Ready, in_header, in_body, front_of, stream-cons, front-some,
}
use mcp_debugger.Proxy.Framing.Deliver.{nowhere, round-Delivers}

-- A call that delivers the messages `done` and rests before `left`, with `rest` still to come.
pub record Rests {Message : Type 0} (c : Codec Message) (most : ℕ) (rest : List ℕ)
    (all : List Message) (result : Left Message) : Type 0 where
  pub decoder : DapFrameDecoder
  pub done : List Message
  pub left : List Message
  pub parts : all ≡ done ++ left
  pub ends : result ≡ some (decoder, map message done)
  pub ready : Ready c decoder [] rest left
  pub stuck : decoder.content_length ≡ none → index_of two_crlf decoder.header_data ≡ none
  pub sound : Sound decoder
  pub bounded : Bounded decoder
  pub same_max : decoder.max_content_length ≡ most

module _ {Message : Type 0} (c : Codec Message) (laws : IsCodec c) where
  behind-Rests :
      (most : ℕ) (rest : List ℕ) (done left : List Message) (result : Left Message)
      → Rests c most rest left result
      → Rests c most rest (done ++ left) (behind (map message done) result)
  behind-Rests most rest done left result r = record {
    decoder = r.decoder;
    done = done ++ r.done;
    left = r.left;
    parts = ap (λ l. done ++ l) r.parts ∙ sym (append_assoc done r.done r.left);
    ends =
        ap (behind (map message done)) r.ends
        ∙ ap (λ l. some (r.decoder, l)) (sym (map-append message done r.done));
    ready = r.ready;
    stuck = r.stuck;
    sound = r.sound;
    bounded = r.bounded;
    same_max = r.same_max;
  }

  loop-Rests :
      (fuel : ℕ) (d : DapFrameDecoder) (input rest : List ℕ) (all : List Message)
      → Sound d
      → All (Fits c d.max_content_length) all
      → Ready c d input rest all
      → held d input < fuel
      → Rests c d.max_content_length rest all (loop c fuel d input)
  unfolding loop
  loop-Rests zero d input rest all v fits ready h = absurd (omega arith)
  loop-Rests (suc fuel) d input rest all v fits ready h =
      let r = round c d input in
      let a = round-Advances c d input v in
      let o = round-Delivers c laws d input rest v all fits ready in
      elim (Bool-cases r.again) [
        | inl more ↦
            let later : All (Fits c r.decoder.max_content_length) o.left = rw a.same_max (
              All-append_right (Fits c d.max_content_length) o.done o.left
                (subst (All (Fits c d.max_content_length)) o.parts fits)) in
            let tail : Rests c d.max_content_length rest o.left (loop c fuel r.decoder r.input) =
              subst (λ most. Rests c most rest o.left (loop c fuel r.decoder r.input)) a.same_max
                (loop-Rests fuel r.decoder r.input rest o.left a.sound later o.ready
                  (omega (arith, a.fewer more))) in
            rw (more, loop)
              (subst
                (λ l.
                  Rests c d.max_content_length rest l
                    (behind r.events (loop c fuel r.decoder r.input)))
                (sym o.parts)
                (subst
                  (λ events.
                    Rests c d.max_content_length rest (o.done ++ o.left)
                      (behind events (loop c fuel r.decoder r.input)))
                  (sym o.delivered)
                  (behind-Rests d.max_content_length rest o.done o.left
                    (loop c fuel r.decoder r.input) tail)))
        | inr stop ↦
            rw (stop, loop)
              (record {
                decoder = r.decoder;
                done = o.done;
                left = o.left;
                parts = o.parts;
                ends = ap (λ events. some (r.decoder, events)) o.delivered;
                ready = subst (λ b. Ready c r.decoder b rest o.left) (o.stuck stop).0 o.ready;
                stuck = (o.stuck stop).1;
                sound = a.sound;
                bounded = a.bounded stop;
                same_max = a.same_max;
              })
      ]

  -- The next chunk moves from what is still to come into the input.
  take_chunk :
      (d : DapFrameDecoder) (chunk rest : List ℕ) (all : List Message)
      → Ready c d [] (chunk ++ rest) all
      → Ready c d chunk rest all
  take_chunk d chunk rest all (in_header idle e) = in_header idle (
      append_assoc d.header_data chunk rest
      ∙ ap (λ h. h ++ (chunk ++ rest)) (sym (append-nil d.header_data))
      ∙ e)
  take_chunk d chunk rest all (in_body m ms split size e) = in_body m ms split size (
      append_assoc (concat d.body_chunks) chunk rest
      ∙ ap (λ h. h ++ (chunk ++ rest)) (sym (append-nil (concat d.body_chunks)))
      ∙ e)

  push-Rests :
      (d : DapFrameDecoder) (chunk rest : List ℕ) (all : List Message)
      → Sound d
      → All (Fits c d.max_content_length) all
      → Ready c d [] (chunk ++ rest) all
      → Rests c d.max_content_length rest all (push c d chunk)
  unfolding push
  push-Rests d chunk rest all v fits ready =
      loop-Rests (suc (held d chunk)) d chunk rest all v fits (take_chunk d chunk rest all ready)
        (omega arith)

  push_all-Rests :
      (d : DapFrameDecoder) (chunks : List (List ℕ)) (all : List Message)
      → Sound d
      → Bounded d
      → (d.content_length ≡ none → index_of two_crlf d.header_data ≡ none)
      → All (Fits c d.max_content_length) all
      → Ready c d [] (concat chunks) all
      → Rests c d.max_content_length [] all (push_all c d chunks)
  unfolding push_all
  push_all-Rests d [] all v b stuck fits ready = record {
    decoder = d;
    done = [];
    left = all;
    parts = refl;
    ends = refl;
    ready = ready;
    stuck = stuck;
    sound = v;
    bounded = b;
    same_max = refl;
  }
  push_all-Rests d (chunk ∷ chunks) all v b stuck fits ready =
      let r = push-Rests d chunk (concat chunks) all v fits ready in
      let later : All (Fits c r.decoder.max_content_length) r.left = rw r.same_max (
        All-append_right (Fits c d.max_content_length) r.done r.left
          (subst (All (Fits c d.max_content_length)) r.parts fits)) in
      let tail : Rests c d.max_content_length [] r.left (push_all c r.decoder chunks) =
        subst (λ most. Rests c most [] r.left (push_all c r.decoder chunks)) r.same_max
          (push_all-Rests r.decoder chunks r.left r.sound r.bounded r.stuck later r.ready) in
      rw (r.ends, push_all)
        (subst
          (λ l.
            Rests c d.max_content_length [] l
              (behind (map message r.done) (push_all c r.decoder chunks)))
          (sym r.parts)
          (behind-Rests d.max_content_length [] r.done r.left (push_all c r.decoder chunks) tail))

  -- With nothing more to come, a resting decoder has nothing left.
  rested :
      (d : DapFrameDecoder) (left : List Message)
      → Ready c d [] [] left
      → (d.content_length ≡ none → index_of two_crlf d.header_data ≡ none)
      → Sound d
      → Bounded d
      → (left ≡ []) × (d ≡ new_decoder d.max_content_length)
  unfolding stream new_decoder
  rested d [] (in_header idle e) stuck v b =
      let no_header : d.header_data ≡ [] = sym (append-nil _) ∙ sym (append-nil _) ∙ e in
      (refl, ground (arith, no_header, v.idle idle, b.no_body idle))
  rested d (m ∷ ms) (in_header idle e) stuck v b =
      let whole : d.header_data ≡ front_of c laws m ++ (body_of c m ++ stream c ms) =
        sym (append-nil _) ∙ sym (append-nil _) ∙ e ∙ stream-cons c laws m ms in
      let found = ap (index_of two_crlf) whole ∙ front-some c laws m (body_of c m ++ stream c ms) in
      let missing = stuck idle in cc
  rested d left (in_body m ms split size e) stuck v b =
      let few = b.partial_body (length (body_of c m)) size in
      let whole : concat d.body_chunks ≡ body_of c m ++ stream c ms =
        sym (append-nil _) ∙ sym (append-nil _) ∙ e in
      absurd (omega (arith, v.sized, ap length whole, length-append (body_of c m) (stream c ms)))

  -- However the bytes of a sequence of encoded messages are cut into chunks, a new decoder delivers
  -- exactly these messages in order, reports no error, and ends as it began. The bodies must be
  -- within its cap and shorter than 10^16 bytes.
  pub push_all-stream :
      (most : ℕ) (messages : List Message) (chunks : List (List ℕ))
      → All (Fits c most) messages
      → concat chunks ≡ stream c messages
      → push_all c (new_decoder most) chunks ≡ some (new_decoder most, map message messages)
  unfolding new_decoder
  push_all-stream most messages chunks fits cut =
      let r =
        push_all-Rests (new_decoder most) chunks messages
          (record {
            sized = refl;
            idle = λ _. refl;
            positive = λ n q. cc;
            capped = λ n q. cc;
            headless = λ n q. cc;
          })
          (record { few_header_bytes = omega arith; partial_body = λ n q. cc; no_body = λ _. refl })
          (λ _. nowhere) fits (in_header refl cut) in
      let (empty, fresh) = rested r.decoder r.left r.ready r.stuck r.sound r.bounded in
      let all_done : messages ≡ r.done =
        r.parts ∙ ap (λ l. r.done ++ l) empty ∙ append-nil r.done in
      let same : r.decoder ≡ new_decoder most = fresh ∙ ap new_decoder r.same_max in
      r.ends ∙ cc (all_done, same)
