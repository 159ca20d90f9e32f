-- ===== src/Payload/Stream/Header.antt =====
-- The headers of packets: `Close` of encoder.go and `setNextReader` of decoder.go.
use go_socket_io.Prelude.{
  ℕ, suc, ◌+◌, ◌^◌, ◌<◌, ◌≡◌, inl, inr, Bool, true, false, none, [], ◌∷◌, ◌++◌, Bytes, arith,
  append_assoc, length, ltb, ◌∙◌, ap,
}
use go_socket_io.Packet.{
  string_frame, binary_frame, string_byte, binary_byte, byte_to_packet_type,
  byte_to_packet_type-string_byte, byte_to_packet_type-binary_byte,
}
use go_socket_io.Payload.Lengths.{write_text_len, write_binary_len}
use go_socket_io.Reader.{Err, from_bytes, ok, >>=-ok, read_byte}
use go_socket_io.Payload.Lengths.Reader.{read_text_len, read_binary_len}
use go_socket_io.Payload.Lengths.RoundTrip.{
  read_text_len-write_text_len, read_binary_len-write_binary_len,
}
use go_socket_io.Payload.Base64.{Base64}
use go_socket_io.Payload.Units.{IsText, unit_sum, unit_sum-le-length}
use go_socket_io.Payload.Decoder.{
  Decoder, text_read, binary_read, after_mark, binary_rest, decrement, started, set_next_reader,
}
use go_socket_io.Payload.Encoder
use go_socket_io.Payload.Stream.{Packet, send, IsSendable, at_packet}

after_mark_text :
    (l pt : ℕ) (rest : Bytes) (e : Err)
    → pt < 7
    → after_mark l (string_byte pt) (from_bytes rest e)
      ≡ ok (record { ft = string_frame; pt = pt; limit = l }) (from_bytes rest e)
unfolding after_mark string_byte byte_to_packet_type
after_mark_text l pt rest e h = ground arith

after_mark_binary :
    (l pt : ℕ) (rest : Bytes) (e : Err)
    → pt < 7
    → after_mark l b'b' (from_bytes (string_byte pt ∷ rest) e)
      ≡ ok (record { ft = binary_frame; pt = pt; limit = decrement l }) (from_bytes rest e)
unfolding after_mark string_byte byte_to_packet_type read_byte
after_mark_binary l pt rest e h = ground arith

decrement-suc : (n : ℕ) → n < 2 ^ 63 → decrement (suc n) ≡ n
decrement-suc n h = omega arith

-- `textRead` on the header of a text packet.
pub text_read-text :
    (n pt : ℕ) (rest : Bytes) (e : Err)
    → pt < 7
    → n < 2 ^ 62
    → text_read (from_bytes (write_text_len (1 + n) ++ (string_byte pt ∷ rest)) e)
      ≡ ok (record { ft = string_frame; pt = pt; limit = n }) (from_bytes rest e)
unfolding text_read read_byte
text_read-text n pt rest e hp hn =
    >>=-ok read_text_len _
      (read_text_len-write_text_len (1 + n) (string_byte pt ∷ rest) e (omega arith))
    ∙ (after_mark_text (decrement (1 + n)) pt rest e hp
        ∙ ap (λ l. ok (record { ft = string_frame; pt = pt; limit = l }) (from_bytes rest e))
            (omega arith))

-- `textRead` on the header of a base64 packet.
pub text_read-base64 :
    (n pt : ℕ) (rest : Bytes) (e : Err)
    → pt < 7
    → n < 2 ^ 62
    → text_read (from_bytes (write_text_len (n + 2) ++ (b'b' ∷ string_byte pt ∷ rest)) e)
      ≡ ok (record { ft = binary_frame; pt = pt; limit = n }) (from_bytes rest e)
unfolding text_read read_byte
text_read-base64 n pt rest e hp hn =
    >>=-ok read_text_len _
      (read_text_len-write_text_len (n + 2) (b'b' ∷ string_byte pt ∷ rest) e (omega arith))
    ∙ (after_mark_binary (decrement (n + 2)) pt rest e hp
        ∙ ap (λ l. ok (record { ft = binary_frame; pt = pt; limit = l }) (from_bytes rest e))
            (omega arith))

binary_rest_header :
    (ft n pt b : ℕ) (rest : Bytes) (e : Err)
    → n < 2 ^ 62
    → byte_to_packet_type b ft ≡ pt
    → binary_rest ft (from_bytes (write_binary_len (1 + n) ++ (b ∷ rest)) e)
      ≡ ok (record { ft = ft; pt = pt; limit = n }) (from_bytes rest e)
unfolding binary_rest read_byte
binary_rest_header ft n pt b rest e hn hb =
    >>=-ok read_binary_len _ (read_binary_len-write_binary_len (1 + n) (b ∷ rest) e (omega arith))
    ∙ (λ i. ok (record { ft = ft; pt = hb i; limit = back i }) (from_bytes rest e))
  where
    back : decrement (1 + n) ≡ n
    back = omega arith

not_above_one : (ft : ℕ) → ft < 2 → ltb 1 ft ≡ false
not_above_one ft h = ground arith

-- `binaryRead` on the header of a packet of either frame type.
pub binary_read_header :
    (ft n pt b : ℕ) (rest : Bytes) (e : Err)
    → ft < 2
    → n < 2 ^ 62
    → byte_to_packet_type b ft ≡ pt
    → binary_read (from_bytes (ft ∷ (write_binary_len (1 + n) ++ (b ∷ rest))) e)
      ≡ ok (record { ft = ft; pt = pt; limit = n }) (from_bytes rest e)
unfolding binary_read read_byte
binary_read_header ft n pt b rest e hf hn hb =
    rw (not_above_one ft hf) (binary_rest_header ft n pt b rest e hn hb)

regroup : (a m b rest : Bytes) → ((a ++ m) ++ b) ++ rest ≡ a ++ (m ++ (b ++ rest))
regroup a m b rest = simp append_assoc

units_fit : (bs : Bytes) → IsText 0 bs → length bs < 2 ^ 62 → unit_sum bs < 2 ^ 62
units_fit bs t fits = omega (arith, unit_sum-le-length 0 bs t)

-- The functions on the way of a packet into its bytes.
sending : Unit {0}
unfolding started send at_packet Encoder.next_writer Encoder.close Encoder.write Encoder.header
    Encoder.frame_cache Encoder.calc_code_unit_length
sending = tt

module _ (c : Base64) (pt : ℕ) (content rest : Bytes) (e : Err) (d : Decoder) (known : pt < 7) where
  abbrev packet : ℕ → Packet
  packet ft = record { ft = ft; pt = pt; content = content }

  sent_text :
      unit_sum content < 2 ^ 62
      → set_next_reader d (from_bytes (send c false (packet string_frame) ++ rest) e) false
        ≡ (none, at_packet c false (packet string_frame) rest e)
  unfolding set_next_reader sending
  sent_text fits =
      let header = write_text_len (1 + unit_sum content) in
      ap (λ bs. started d false (text_read (from_bytes bs e)))
        (regroup header (string_byte pt ∷ []) content rest)
      ∙ ap (started d false) (text_read-text (unit_sum content) pt (content ++ rest) e known fits)

  sent_base64 :
      length (c.encode content) < 2 ^ 62
      → set_next_reader d (from_bytes (send c false (packet binary_frame) ++ rest) e) false
        ≡ (none, at_packet c false (packet binary_frame) rest e)
  unfolding set_next_reader sending
  sent_base64 fits =
      let coded = c.encode content in
      ap
        (λ n. started d false (
          text_read (
            from_bytes (((write_text_len (n + 2) ++ (b'b' ∷ string_byte pt ∷ [])) ++ coded) ++ rest)
              e)))
        (c.rune_count-encode content)
      ∙ (ap (λ bs. started d false (text_read (from_bytes bs e)))
            (regroup (write_text_len (length coded + 2)) (b'b' ∷ string_byte pt ∷ []) coded rest)
          ∙ ap (started d false) (text_read-base64 (length coded) pt (coded ++ rest) e known fits))

  pub sent_binary :
      (ft b : ℕ)
      → ft < 2
      → byte_to_packet_type b ft ≡ pt
      → unit_sum content < 2 ^ 62
      → started d true (
          binary_read (
            from_bytes
              ((ft ∷ (write_binary_len (1 + unit_sum content) ++ (b ∷ [])) ++ content) ++ rest)
              e))
        ≡ (none, at_packet c true (packet ft) rest e)
  unfolding set_next_reader sending
  sent_binary ft b hf hb fits =
      ap (λ bs. started d true (binary_read (from_bytes (ft ∷ bs) e)))
        (regroup (write_binary_len (1 + unit_sum content)) (b ∷ []) content rest)
      ∙ ap (started d true)
          (binary_read_header ft (unit_sum content) pt b (content ++ rest) e hf fits hb)

pub with_type :
    (p : Packet) (ft : ℕ) → p.ft ≡ ft → p ≡ record { ft = ft; pt = p.pt; content = p.content }
with_type p ft h = λ i. record { ft = h i; pt = p.pt; content = p.content }

module _ (c : Base64) where
  -- The header of a packet that was sent is read, and the decoder stands at its content.
  pub set_next_reader-send :
      (support_binary : Bool) (p : Packet) (rest : Bytes) (e : Err) (d : Decoder)
      → IsSendable c support_binary p
      → set_next_reader d (from_bytes (send c support_binary p ++ rest) e) support_binary
        ≡ (none, at_packet c support_binary p rest e)
  set_next_reader-send false p rest e d (hp, inl (hf, t, fits)) =
      rw (with_type p string_frame hf)
        (sent_text c p.pt p.content rest e d hp (units_fit p.content t fits))
  set_next_reader-send false p rest e d (hp, inr (hf, bytes, fits)) =
      rw (with_type p binary_frame hf) (sent_base64 c p.pt p.content rest e d hp fits)
  set_next_reader-send true p rest e d (hp, inl (hf, t, fits)) = rw (with_type p string_frame hf) (
      unfold set_next_reader sending in
      sent_binary c p.pt p.content rest e d hp string_frame (string_byte p.pt) (omega arith)
        (byte_to_packet_type-string_byte p.pt (omega arith)) (units_fit p.content t fits))
  set_next_reader-send true p rest e d (hp, inr (hf, t, fits)) = rw (with_type p binary_frame hf) (
      unfold set_next_reader sending in
      sent_binary c p.pt p.content rest e d hp binary_frame (binary_byte p.pt) (omega arith)
        (byte_to_packet_type-binary_byte p.pt (omega arith)) (units_fit p.content t fits))
