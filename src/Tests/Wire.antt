-- ===== src/Tests/Wire.antt =====
-- The wire formats of engineio/payload and parser at concrete inputs.
use go_socket_io.Prelude.{
  ℕ, ◌+◌, ◌-◌, ◌*◌, ◌/◌, ◌%◌, ◌<◌, ◌≡◌, refl, inl, inr, true, false, Option, none, some, [], ◌∷◌,
  ◌++◌, Bytes, All, arith, length,
}
use go_socket_io.Packet.{string_frame, binary_frame}
use go_socket_io.Reader.{eof, invalid_payload, from_bytes}
use go_socket_io.Payload.Base64.{Base64}
use go_socket_io.Payload.Decoder.{Decoder, done, read_all, set_next_reader}
use go_socket_io.Payload.Stream.Binary.{binary_content_lost}
use go_socket_io.Payload.Stream.{Packet, send_all, receive, send, fresh_decoder}
use go_socket_io.Payload.Stream.RoundTrip.{receive-send_all}
use go_socket_io.Parser.Header.{empty_header, write_header, read_header}
use go_socket_io.Parser.Header.Fields.{header_of}
use go_socket_io.Parser.Header.RoundTrip.{read_header-write_header}

-- Each byte as two letters from `A`, for its two halves.
hex_encode : Bytes → Bytes
hex_encode [] = []
hex_encode (b ∷ bs) = (65 + b / 16) ∷ (65 + b % 16) ∷ hex_encode bs

hex_decode : Bytes → Option Bytes
hex_decode [] = some []
hex_decode (a ∷ []) = none
hex_decode (a ∷ b ∷ bs) = elim (hex_decode bs) [
  | none ↦ none
  | some out ↦ some (((a - 65) * 16 + (b - 65)) ∷ out)
]

halves : (b : ℕ) → (65 + b / 16 - 65) * 16 + (65 + b % 16 - 65) ≡ b
halves b = omega arith

hex_decode-hex_encode : (bs : Bytes) → All (λ b. b < 256) bs → hex_decode (hex_encode bs) ≡ some bs
unfolding hex_decode hex_encode
hex_decode-hex_encode [] h = refl
hex_decode-hex_encode (b ∷ bs) h = rw (hex_decode-hex_encode bs h.1, halves b) refl

hex : Base64
hex = record {
  encode = hex_encode;
  decode = hex_decode;
  corrupt = invalid_payload;
  rune_count = length;
  decode-encode = hex_decode-hex_encode;
  decode-nil = unfold hex_decode in refl;
  rune_count-encode = λ bs. refl;
}

-- `é!` as a string, and two bytes.
abbrev greeting : Packet
greeting = record { ft = string_frame; pt = 4; content = 195 ∷ 169 ∷ 33 ∷ [] }

abbrev blob : Packet
blob = record { ft = binary_frame; pt = 4; content = 200 ∷ 7 ∷ [] }

receive-send_all_example :
    (d : Decoder) × (receive hex 3
        (1 ∷ 2 ∷ 1 ∷ 5 ∷ [])
        false
        (from_bytes (send_all hex false (greeting ∷ blob ∷ [])) eof)
      ≡ done (greeting ∷ blob ∷ [], none, d))
    × (d.raw ≡ none)
unfolding hex hex_encode
receive-send_all_example =
    receive-send_all hex false 1 (2 ∷ 1 ∷ 5 ∷ []) (ground arith) 3 greeting (blob ∷ [])
      (ground arith)
      (
        (
          ground arith,
          inl (
            refl,
            inr (
                inl (
                  ground arith,
                  ground arith,
                  (ground arith, ground arith, inl (ground arith, refl)),
                )),
            ground arith,
          ),
        ),
        ground arith,
      )
      (((ground arith, inr (refl, ground arith, ground arith)), ground arith), tt)

-- An event in `/a` with two buffers, to be acknowledged as 12, and the text `[]` behind it.
read_header-write_header_example :
    read_header empty_header (
      from_bytes (write_header true 2 2 (header_of 2 12 true (47 ∷ 97 ∷ [])) ++ (91 ∷ 93 ∷ [])) eof)
    ≡ (header_of 5 12 true (47 ∷ 97 ∷ []), 2, none, from_bytes (91 ∷ 93 ∷ []) eof)
read_header-write_header_example =
    read_header-write_header true 2 2 2 12 true (47 ∷ 97 ∷ []) (91 ∷ 93 ∷ []) (omega arith)
      (omega arith) (ground arith) (omega arith) (ground arith) tt

binary_content_lost_example :
    (d' : Decoder) × (set_next_reader fresh_decoder
        (from_bytes
          (send hex true (record { ft = binary_frame; pt = 4; content = 128 ∷ 150 ∷ [] })
            ++ (1 ∷ []))
          eof)
        true
      ≡ (none, d'))
    × (read_all hex (5 ∷ []) d' ≡ done ([], none, d'))
    × (d'.raw ≡ some (from_bytes (128 ∷ 150 ∷ 1 ∷ []) eof))
binary_content_lost_example =
    binary_content_lost hex 5 [] 4 (128 ∷ 150 ∷ []) (1 ∷ []) eof fresh_decoder (ground arith)
      ((ground arith, ground arith), ((ground arith, ground arith), tt))
