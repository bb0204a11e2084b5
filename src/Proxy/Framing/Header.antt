-- ===== src/Proxy/Framing/Header.antt =====
-- What is assumed of the runtime, and that the decoder reads the header block that is written.
use mcp_debugger.Base.{
  ℕ, ◌^◌, ◌≤◌, ◌<◌, ◌≡◌, ◌≢◌, refl, ap, true, some, List, [], ◌∷◌, ◌++◌, arith, length, All,
  All-append, append_assoc, append-nil, ◌⊎◌,
}
use mcp_debugger.Base.Int.{pos}
use mcp_debugger.Base.Number.{finite, infinity_bound}
use mcp_debugger.Base.Text.{codes, decimal, lower}
use mcp_debugger.Base.Text.Search.{Lacks}
use mcp_debugger.Base.Text.Decimal.{IsDigit, decimal-IsDigit, length-decimal, parse_int-decimal}
use mcp_debugger.Proxy.Framing.{
  Codec, two_crlf, header_of, encode_dap_message, split_lines, second_part, until_colon,
  is_length_line, header_length,
}

abbrev pub IsAscii : ℕ → Type 0
IsAscii c = c < 128

-- UTF-8 leaves ASCII alone; a message is printed as a text that is not empty, that UTF-8 carries,
-- and that parses to the message.
pub record IsCodec {Message : Type 0} (c : Codec Message) : Type 0 where
  pub ascii_out :
      (front text : List ℕ)
      → All IsAscii front
      → c.to_utf8 (front ++ text) ≡ front ++ c.to_utf8 text
  pub ascii_in : (bytes : List ℕ) → All IsAscii bytes → c.from_utf8 bytes ≡ bytes
  pub text_back : (m : Message) → c.from_utf8 (c.to_utf8 (c.stringify m)) ≡ c.stringify m
  pub text_there : (m : Message) → c.stringify m ≢ []
  pub parse_back : (m : Message) → c.parse (c.stringify m) ≡ some m

digits-lack : (p : ℕ) (ds : List ℕ) → p < 48 ⊎ 57 < p → All IsDigit ds → Lacks p ds
digits-lack p [] far h = tt
digits-lack p (d ∷ ds) far h = (omega arith, digits-lack p ds far h.1)

digits-IsAscii : (ds : List ℕ) → All IsDigit ds → All IsAscii ds
digits-IsAscii [] h = tt
digits-IsAscii (d ∷ ds) h = (omega arith, digits-IsAscii ds h.1)

split_lines-one : (line cs : List ℕ) → Lacks 13 cs → split_lines line cs ≡ (line ++ cs) ∷ []
unfolding split_lines
split_lines-one line [] h = rw append-nil
split_lines-one line (c ∷ []) h = refl
split_lines-one line (c ∷ d ∷ cs) h =
    ground
      (arith, split_lines-one (line ++ c ∷ []) (d ∷ cs) h.1, append_assoc line (c ∷ []) (d ∷ cs))

until_colon-digits : (ds : List ℕ) → All IsDigit ds → until_colon ds ≡ ds
until_colon-digits [] h = refl
until_colon-digits (d ∷ ds) h = ground (arith, until_colon-digits ds h.1)

module _ (size : ℕ) where
  pub header_of-Lacks : Lacks 13 (header_of size)
  header_of-Lacks =
      All-append (λ c. c ≢ 13) (codes "Content-Length: ") (decimal size) (omega arith)
        (digits-lack 13 (decimal size) (omega arith) (decimal-IsDigit size))

  pub header_of-IsAscii : All IsAscii (header_of size)
  header_of-IsAscii =
      All-append IsAscii (codes "Content-Length: ") (decimal size) (omega arith)
        (digits-IsAscii (decimal size) (decimal-IsDigit size))

  pub length-header_of : size < 10 ^ 16 → length (header_of size) ≤ 33
  length-header_of h = omega (arith, length-decimal size 16 h)

  header_of-is_length_line : is_length_line (header_of size) ≡ true
  unfolding lower
  header_of-is_length_line = refl

  second_part-header_of : second_part (header_of size) ≡ 32 ∷ decimal size
  second_part-header_of =
      ap (λ ds. 32 ∷ ds) (until_colon-digits (decimal size) (decimal-IsDigit size))

  pub header_length-header_of :
      size < infinity_bound → header_length (split_lines [] (header_of size)) ≡ finite (pos size)
  unfolding header_length
  header_length-header_of h =
      rw
        (
          split_lines-one [] (header_of size) header_of-Lacks,
          header_length,
          header_of-is_length_line,
          second_part-header_of,
        )
        (parse_int-decimal size h)

-- The frame of a message: the header block, the separator and the body's bytes.
pub encode_dap_message_lem :
    {Message : Type 0} (c : Codec Message)
    → IsCodec c
    → (m : Message)
    → encode_dap_message c m
      ≡ header_of (length (c.to_utf8 (c.stringify m))) ++ two_crlf ++ c.to_utf8 (c.stringify m)
unfolding encode_dap_message
encode_dap_message_lem c laws m =
    let json = c.stringify m in
    let front = header_of (length (c.to_utf8 json)) ++ two_crlf in
    laws.ascii_out front json (
      All-append IsAscii (header_of (length (c.to_utf8 json))) two_crlf
        (header_of-IsAscii (length (c.to_utf8 json))) (omega arith))
