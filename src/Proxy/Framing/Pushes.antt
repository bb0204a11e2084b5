-- ===== src/Proxy/Framing/Pushes.antt =====
-- Every push ends, on any bytes at all, and leaves a bounded decoder.
use mcp_debugger.Base.{
  ℕ, zero, suc, ◌<◌, ◌≡◌, refl, some, List, [], ◌∷◌, ◌++◌, arith, Bool-cases, inl, inr,
}
use mcp_debugger.Proxy.Framing.{
  Codec, DapFrameDecoder, Event, Left, new_decoder, loop, held, push, push_all, behind, round,
}
use mcp_debugger.Proxy.Framing.Sound.{Sound, Bounded, round-Advances}

-- The call ends, within a sound and bounded decoder with the same cap.
pub record Ends {Message : Type 0} (most : ℕ) (left : Left Message) : Type 0 where
  pub decoder : DapFrameDecoder
  pub events : List (Event Message)
  pub ends : left ≡ some (decoder, events)
  pub sound : Sound decoder
  pub bounded : Bounded decoder
  pub same_max : decoder.max_content_length ≡ most

module _ {Message : Type 0} (c : Codec Message) where
  behind-Ends :
      (most : ℕ) (events : List (Event Message)) (left : Left Message)
      → Ends most left
      → Ends most (behind events left)
  behind-Ends most events left e = record {
    decoder = e.decoder;
    events = events ++ e.events;
    ends = rw (e.ends, behind);
    sound = e.sound;
    bounded = e.bounded;
    same_max = e.same_max;
  }

  loop-Ends :
      (fuel : ℕ) (d : DapFrameDecoder) (input : List ℕ)
      → Sound d
      → held d input < fuel
      → Ends d.max_content_length (loop c fuel d input)
  unfolding loop
  loop-Ends zero d input v h = absurd (omega arith)
  loop-Ends (suc fuel) d input v h =
      let a = round-Advances c d input v in
      let r = round c d input in
      elim (Bool-cases r.again) [
        | inl more ↦
            rw (more, loop)
              (behind-Ends d.max_content_length r.events (loop c fuel r.decoder r.input) (
                rw a.same_max at
                  (loop-Ends fuel r.decoder r.input a.sound (omega (arith, a.fewer more)))))
        | inr stop ↦
            rw (stop, loop)
              (record {
                decoder = r.decoder;
                events = r.events;
                ends = refl;
                sound = a.sound;
                bounded = a.bounded stop;
                same_max = a.same_max;
              })
      ]

  pub push-Ends :
      (d : DapFrameDecoder) (input : List ℕ) → Sound d → Ends d.max_content_length (push c d input)
  unfolding push
  push-Ends d input v = loop-Ends (suc (held d input)) d input v (omega arith)

  push_all-Ends :
      (d : DapFrameDecoder) (chunks : List (List ℕ))
      → Sound d
      → Bounded d
      → Ends d.max_content_length (push_all c d chunks)
  unfolding push_all
  push_all-Ends d [] v b = record {
    decoder = d;
    events = [];
    ends = refl;
    sound = v;
    bounded = b;
    same_max = refl;
  }
  push_all-Ends d (chunk ∷ chunks) v b =
      let e = push-Ends d chunk v in
      rw (e.ends, push_all)
        (behind-Ends d.max_content_length e.events (push_all c e.decoder chunks)
          (rw e.same_max at (push_all-Ends e.decoder chunks e.sound e.bounded)))

  -- Whatever bytes arrive in whatever chunks, every push returns; afterwards a new decoder holds
  -- either at most 16384 header bytes and no body, or fewer body bytes than the announced length,
  -- which is at most the cap.
  pub push_all-new_decoder-Ends :
      (most : ℕ) (chunks : List (List ℕ)) → Ends most (push_all c (new_decoder most) chunks)
  unfolding new_decoder
  push_all-new_decoder-Ends most chunks =
      push_all-Ends (new_decoder most) chunks
        (record {
          sized = refl;
          idle = λ _. refl;
          positive = λ n q. cc;
          capped = λ n q. cc;
          headless = λ n q. cc;
        })
        (record { few_header_bytes = omega arith; partial_body = λ n q. cc; no_body = λ _. refl })
