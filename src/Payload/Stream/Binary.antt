-- ===== src/Payload/Stream/Binary.antt =====
-- Binary content in a binary frame: `writeBinaryHeader` counts its code units, as if it were text.
use go_socket_io.Prelude.{
  ℕ, ◌≤◌, ◌<◌, ◌≡◌, refl, true, false, none, some, List, [], ◌∷◌, ◌++◌, Bytes, All, arith, ◌∙◌,
}
use go_socket_io.Packet.{binary_frame, binary_byte, byte_to_packet_type-binary_byte}
use go_socket_io.Reader.{Err, from_bytes}
use go_socket_io.Payload.Base64.{Base64}
use go_socket_io.Payload.Units.{unit_sum, code_units}
use go_socket_io.Payload.Encoder
use go_socket_io.Payload.Decoder.{Decoder, done, read_all, set_next_reader}
use go_socket_io.Payload.Stream.{send, at_packet}
use go_socket_io.Payload.Stream.Content.{read_all_end}
use go_socket_io.Payload.Stream.Header.{sent_binary}

-- A byte that continues a character of UTF-8.
abbrev pub Continues : ℕ → Type 0
Continues b = (128 ≤ b) × (b < 192)

continues_lem : (b : ℕ) → Continues b → code_units b ≡ 0
unfolding code_units
continues_lem b h = ground arith

unit_sum_none : (content : Bytes) → All Continues content → unit_sum content ≡ 0
unfolding unit_sum
unit_sum_none [] h = refl
unit_sum_none (b ∷ bs) h = omega (arith, continues_lem b h.0, unit_sum_none bs h.1)

-- Of a binary packet whose bytes are all from 0x80 to 0xBF, sent where binary is supported, the decoder reads
-- the header without an error and then no content at all, and the content is left in the source, where the next
-- header is looked for.
pub binary_content_lost :
    (c : Base64) (k : ℕ) (ks : List ℕ) (pt : ℕ) (content rest : Bytes) (e : Err) (d : Decoder)
    → pt < 7
    → All Continues content
    → (d' : Decoder) × (set_next_reader d
          (from_bytes
            (send c true (record { ft = binary_frame; pt = pt; content = content }) ++ rest)
            e)
          true
        ≡ (none, d'))
      × (read_all c (k ∷ ks) d' ≡ done ([], none, d'))
      × (d'.raw ≡ some (from_bytes (content ++ rest) e))
unfolding set_next_reader send at_packet Encoder.next_writer Encoder.close Encoder.write
    Encoder.header Encoder.frame_cache Encoder.calc_code_unit_length
binary_content_lost c k ks pt content rest e d known h =
    let none_counted = unit_sum_none content h in
    let at_zero : Decoder = record {
      raw = some (from_bytes (content ++ rest) e);
      limit = 0;
      base64 = false;
      ft = binary_frame;
      pt = pt;
      support_binary = true;
    } in
    (
      at_zero,
      sent_binary c pt content rest e d known binary_frame (binary_byte pt) (omega arith)
            (byte_to_packet_type-binary_byte pt (omega arith)) (omega (arith, none_counted))
          ∙ (λ i. (none, record at_zero { limit = none_counted i })),
      read_all_end c k ks at_zero false,
      refl,
    )
