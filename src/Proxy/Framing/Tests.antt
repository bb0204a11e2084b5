-- ===== src/Proxy/Framing/Tests.antt =====
-- The decoder at concrete bytes, with a codec for the JSON texts `true` and `false`.
use mcp_debugger.Base.{
  ℕ, ◌≡◌, refl, Bool, true, false, Option, none, some, List, [], ◌∷◌, ◌++◌, arith, take, drop, ◌==◌,
  if◌then◌else◌,
}
use mcp_debugger.Base.Number.{parse_int, trim}
use mcp_debugger.Base.Text.{codes, index_of, lower, decimal}
use mcp_debugger.Proxy.Framing.{
  Codec, message, failure, header, overflow, two_crlf, default_max_content_length, new_decoder,
  encode_dap_message, loop, push, push_all, round, body_round, header_round, after_header,
  header_length, split_lines, full_body,
}
use mcp_debugger.Proxy.Framing.Header.{IsCodec}
use mcp_debugger.Proxy.Framing.Ready.{stream}
use mcp_debugger.Proxy.Framing.Stream.{push_all-stream}
use mcp_debugger.Proxy.Framing.Pushes.{Ends, push_all-new_decoder-Ends}

abbrev print : Bool → List ℕ
print true = codes "true"
print false = codes "false"

abbrev parse : List ℕ → Option Bool
parse [] = none
parse (c ∷ cs) = if c == b't' then some true else if c == b'f' then some false else none

abbrev booleans : Codec Bool
booleans = record { to_utf8 = λ t. t; from_utf8 = λ b. b; stringify = print; parse = parse }

print-ne-nil : (m : Bool) → print m ≡ [] → ⊥
print-ne-nil true e = cc
print-ne-nil false e = cc

parse-print : (m : Bool) → parse (print m) ≡ some m
parse-print true = refl
parse-print false = refl

booleans-IsCodec : IsCodec booleans
booleans-IsCodec = record {
  ascii_out = λ front text h. refl;
  ascii_in = λ bytes h. refl;
  text_back = λ m. refl;
  text_there = print-ne-nil;
  parse_back = parse-print;
}

decoder : Unit {0}
unfolding encode_dap_message new_decoder push_all push loop round body_round header_round
    after_header header_length split_lines full_body parse_int trim index_of lower decimal stream
decoder = tt

abbrev two_frames : List ℕ
two_frames = encode_dap_message booleans true ++ encode_dap_message booleans false

abbrev three_chunks : List (List ℕ)
three_chunks = take 5 two_frames ∷ take 20 (drop 5 two_frames) ∷ drop 25 two_frames ∷ []

encoded : encode_dap_message booleans true ≡ codes "Content-Length: 4" ++ two_crlf ++ codes "true"
unfolding decoder
encoded = refl

-- A malformed block costs itself alone: decoding goes on at the next header.
resynced :
    push_all booleans
      (new_decoder default_max_content_length)
      ((codes "Content-Length: x" ++ two_crlf ++ encode_dap_message booleans true) ∷ [])
    ≡ some (new_decoder default_max_content_length, failure header ∷ message true ∷ [])
unfolding decoder
resynced = refl

too_long :
    push_all booleans (new_decoder 3) (encode_dap_message booleans true ∷ [])
    ≡ some (new_decoder 3, failure overflow ∷ [])
unfolding decoder
too_long = refl

push_all-stream_example :
    push_all booleans (new_decoder 100) three_chunks
    ≡ some (new_decoder 100, message true ∷ message false ∷ [])
unfolding decoder
push_all-stream_example =
    push_all-stream booleans booleans-IsCodec 100 (true ∷ false ∷ []) three_chunks
      (
        record { within_cap = omega arith; exact_size = omega arith },
        (record { within_cap = omega arith; exact_size = omega arith }, tt),
      )
      refl

push_all-new_decoder-Ends_example :
    Ends 100 (push_all booleans (new_decoder 100) (codes "Content-" ∷ codes "junk" ∷ []))
push_all-new_decoder-Ends_example =
    push_all-new_decoder-Ends booleans 100 (codes "Content-" ∷ codes "junk" ∷ [])
