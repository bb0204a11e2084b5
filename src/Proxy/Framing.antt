-- ===== src/Proxy/Framing.antt =====
-- src/proxy/dap-framing.ts: Content-Length framing of protocol messages. Buffers are lists of bytes
-- and texts lists of code units. What the runtime gives is a parameter, `Codec`: UTF-8 both ways,
-- `JSON.stringify` and `JSON.parse` (whose exception is `none`). The calls of `onError` and the
-- messages are recorded in order; the text of an error is left out, its context is kept.
pub mod Rounds
pub mod Sound
pub mod Pushes
pub mod Header
pub mod Ready
pub mod Deliver
pub mod Stream
pub mod Tests
use mcp_debugger.Base.{
  ℕ, zero, suc, ◌+◌, ◌*◌, Bool, true, false, ◌&&◌, Option, none, some, List, [], ◌∷◌, ◌++◌, map,
  ltb, ◌==◌, length, take, drop, if◌then◌else◌,
}
use mcp_debugger.Base.Int.{pos}
use mcp_debugger.Base.Number.{Parsed, nan, infinite, finite, parse_int, trim}
use mcp_debugger.Base.Text.{codes, is_empty, starts_with, index_of, lower, decimal}

pub record Codec (Message : Type 0) : Type 0 where
  pub to_utf8 : List ℕ → List ℕ
  pub from_utf8 : List ℕ → List ℕ
  pub stringify : Message → List ℕ
  pub parse : List ℕ → Option Message

abbrev pub two_crlf : List ℕ
two_crlf = 13 ∷ 10 ∷ 13 ∷ 10 ∷ []

abbrev pub default_max_content_length : ℕ
default_max_content_length = 67108864

abbrev pub max_header_bytes : ℕ
max_header_bytes = 16384

-- The header block of a body of that many bytes.
abbrev pub header_of : ℕ → List ℕ
header_of size = codes "Content-Length: " ++ decimal size

unfoldable pub encode_dap_message : {Message : Type 0} → Codec Message → Message → List ℕ
encode_dap_message c message =
    let json = c.stringify message in
    c.to_utf8 (header_of (length (c.to_utf8 json)) ++ two_crlf ++ json)

pub data ErrorContext : Type 0 where
  header json overflow : ErrorContext

pub data Event (Message : Type 0) : Type 0 where
  message : Message → Event Message
  failure : ErrorContext → Event Message

-- `contentLength`, where -1 is `none`.
pub record DapFrameDecoder : Type 0 where
  pub header_data : List ℕ
  pub body_chunks : List (List ℕ)
  pub body_bytes : ℕ
  pub content_length : Option ℕ
  pub max_content_length : ℕ

unfoldable pub new_decoder : ℕ → DapFrameDecoder
new_decoder max_content_length = record {
  header_data = [];
  body_chunks = [];
  body_bytes = 0;
  content_length = none;
  max_content_length = max_content_length;
}

unfoldable pub reset : DapFrameDecoder → DapFrameDecoder
reset d = record d { header_data = []; body_chunks = []; body_bytes = 0; content_length = none }

-- `header.split('\r\n')`, with the line that has been begun.
unfoldable pub split_lines : List ℕ → List ℕ → List (List ℕ)
split_lines line [] = line ∷ []
split_lines line (c ∷ []) = (line ++ c ∷ []) ∷ []
split_lines line (c ∷ d ∷ cs) =
    let closed = line ∷ split_lines [] cs in
    let longer = split_lines (line ++ c ∷ []) (d ∷ cs) in
    if c == 13 && d == 10 then closed else longer

abbrev pub colon : ℕ
colon = 58

abbrev until_colon : List ℕ → List ℕ
until_colon [] = []
until_colon (c ∷ cs) = if c == colon then [] else c ∷ until_colon cs

-- `line.split(':')[1] ?? ''`
abbrev pub second_part : List ℕ → List ℕ
second_part [] = []
second_part (c ∷ cs) = if c == colon then until_colon cs else second_part cs

abbrev pub is_length_line : List ℕ → Bool
is_length_line line = starts_with (codes "content-length") (map lower line)

-- The value of the first line that starts with `content-length`; `nan` is `null`.
unfoldable pub header_length : List (List ℕ) → Parsed
header_length [] = nan
header_length (line ∷ lines) =
    if is_length_line line then parse_int (trim (second_part line)) else header_length lines

-- A length that passes `parsedLength === null || parsedLength <= 0 || !Number.isFinite(parsedLength)`.
abbrev pub accepted : Parsed → Option ℕ
accepted (finite (pos (suc n))) = some (suc n)
accepted _ = none

-- What one round of the loop leaves: the decoder, the input, what was produced, and whether the loop
-- goes on.
pub record Round (Message : Type 0) : Type 0 where
  pub decoder : DapFrameDecoder
  pub input : List ℕ
  pub events : List (Event Message)
  pub again : Bool

abbrev concat : List (List ℕ) → List ℕ
concat [] = []
concat (c ∷ cs) = c ++ concat cs

abbrev zeros : ℕ → List ℕ
zeros zero = []
zeros (suc n) = 0 ∷ zeros n

-- `Buffer.concat(chunks, total)`, which cuts or pads to the given length.
unfoldable pub buffer_concat : List (List ℕ) → ℕ → List ℕ
buffer_concat chunks total = take total (concat chunks ++ zeros total)

unfoldable pub full_body : List (List ℕ) → ℕ → List ℕ
unfolding buffer_concat
full_body (chunk ∷ []) total = chunk
full_body chunks total = buffer_concat chunks total

abbrev push_chunk : List (List ℕ) → List ℕ → List (List ℕ)
push_chunk chunks input = if is_empty input then chunks else chunks ++ input ∷ []

-- A complete body: the message, the error that parsing raised, or nothing for an empty text.
abbrev decode_body : {Message : Type 0} → Codec Message → List ℕ → List (Event Message)
decode_body c text =
    if is_empty text
    then []
    else elim (c.parse text) [ none ↦ failure json ∷ [] | some m ↦ message m ∷ [] ]

unfoldable pub body_round :
    {Message : Type 0} → Codec Message → DapFrameDecoder → ℕ → List ℕ → Round Message
body_round c d size input =
    let chunks = push_chunk d.body_chunks input in
    let bytes = d.body_bytes + length input in
    let full = full_body chunks bytes in
    if ltb bytes size
    then record {
      decoder = record d { body_chunks = chunks; body_bytes = bytes };
      input = [];
      events = [];
      again = false;
    }
    else record {
      decoder = record d { body_chunks = []; body_bytes = 0; content_length = none };
      input = drop size full;
      events = decode_body c (c.from_utf8 (take size full));
      again = true;
    }

abbrev drop_found : Option ℕ → List ℕ → List ℕ
drop_found none remainder = []
drop_found (some at) remainder = drop at remainder

-- The header block was read: its length, and what follows it.
unfoldable pub after_header : {Message : Type 0} → DapFrameDecoder → Parsed → List ℕ → Round Message
unfolding reset
after_header d parsed remainder = elim (accepted parsed) [
  | none ↦ record {
    decoder = reset d;
    input = drop_found (index_of (codes "Content-Length") remainder) remainder;
    events = failure header ∷ [];
    again = true;
  }
  | some size ↦
      if ltb d.max_content_length size
      then record { decoder = reset d; input = []; events = failure overflow ∷ []; again = true }
      else record {
        decoder = record d { header_data = []; content_length = some size };
        input = remainder;
        events = [];
        again = true;
      }
]

unfoldable pub header_round :
    {Message : Type 0} → Codec Message → DapFrameDecoder → List ℕ → Round Message
unfolding reset
header_round c d input =
    let buffered = d.header_data ++ input in
    elim (index_of two_crlf buffered) [
      | none ↦
          if ltb max_header_bytes (length buffered)
          then record {
            decoder = reset d;
            input = [];
            events = failure overflow ∷ [];
            again = false;
          }
          else record {
            decoder = record d { header_data = buffered };
            input = [];
            events = [];
            again = false;
          }
      | some at ↦
          after_header d (header_length (split_lines [] (c.from_utf8 (take at buffered))))
            (drop (at + 4) buffered)
    ]

unfoldable pub by_phase :
    {Message : Type 0} → Codec Message → DapFrameDecoder → List ℕ → Option ℕ → Round Message
by_phase c d input (some size) = body_round c d size input
by_phase c d input none = header_round c d input

unfoldable pub round : {Message : Type 0} → Codec Message → DapFrameDecoder → List ℕ → Round Message
unfolding by_phase
round c d input = by_phase c d input d.content_length

-- What a loop leaves, behind the events of an earlier round; `none` says that the fuel ran out.
abbrev pub Left : Type 0 → Type 0
Left Message = Option (DapFrameDecoder × List (Event Message))

abbrev pub behind : {Message : Type 0} → List (Event Message) → Left Message → Left Message
behind events none = none
behind events (some (d, more)) = some (d, events ++ more)

unfoldable pub loop :
    {Message : Type 0} → Codec Message → ℕ → DapFrameDecoder → List ℕ → Left Message
loop c zero d input = none
loop c (suc fuel) d input =
    let r = round c d input in
    elim r.again [
      | true ↦ behind r.events (loop c fuel r.decoder r.input)
      | false ↦ some (r.decoder, r.events)
    ]

-- The bytes that a decoder and its input hold: every round that goes on makes them fewer.
abbrev pub held : DapFrameDecoder → List ℕ → ℕ
held d input = length d.header_data + d.body_bytes + length input

unfoldable pub push : {Message : Type 0} → Codec Message → DapFrameDecoder → List ℕ → Left Message
unfolding loop
push c d input = loop c (suc (held d input)) d input

unfoldable pub push_all :
    {Message : Type 0} → Codec Message → DapFrameDecoder → List (List ℕ) → Left Message
push_all c d [] = some (d, [])
push_all c d (chunk ∷ chunks) = elim (push c d chunk) [
  | none ↦ none
  | some (d', events) ↦ behind events (push_all c d' chunks)
]
