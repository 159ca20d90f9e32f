-- ===== src/Parser/Frames/Acks.antt =====
-- An ack from `Encode` to `DecodeHeader` and `DecodeArgs`.
use go_socket_io.Prelude.{
  ℕ, ◌^◌, ◌<◌, ◌≡◌, refl, sym, ap, ◌∙◌, Bool, true, false, Option, none, some, List, ◌∷◌, ◌++◌,
  Bytes, arith, length, map,
}
use go_socket_io.Packet.{string_frame, binary_frame}
use go_socket_io.Reader.{Err, eof, from_bytes}
use go_socket_io.Parser.Header.{empty_header, ack, wire_type, write_header}
use go_socket_io.Parser.Header.Fields.{header_of, IsNamespace, IsId}
use go_socket_io.Parser.Header.RoundTrip.{read_header-write_header, wire_count}
use go_socket_io.Parser.Values.{Value, Values, detach_all}
use go_socket_io.Parser.Values.Numbering.{
  is_attachable, are_attachable, contents, all_contents, numbered, all_numbered,
}
use go_socket_io.Parser.Values.Restore.{all_without_data, all_plain, detach_all-numbered}
use go_socket_io.Parser.Frames.{
  Frame, encode, packet_frames, Incoming, frame, Decoder, plain_type, after_header, decode_header,
  Json, values, with_buffers, detached, decode_args, decoded_args, arguments,
}
use go_socket_io.Parser.Frames.RoundTrip.{as_incoming, read_back, attached}

typ_back : (n : ℕ) → plain_type (λ q. none) eof (wire_type n ack) ≡ ack
typ_back n = ground arith

count_back : (n : ℕ) → wire_count n n ack ≡ n
count_back n = ground arith

module _ (json : Value → Bytes) (unquote : Bytes → Option Bytes) (bad_json : Err)
    (decode : Bytes → Json) where
  -- What a JSON array gives to `DecodeArgs`.
  pub record IsAckText (v : Value) (u : Values) : Type 0 where
    pub tail : Bytes
    pub text : json (numbered 0 v) ≡ b'[' ∷ tail
    pub decoded : decode (b'[' ∷ tail) ≡ values (all_without_data (all_numbered 0 u))
    pub same_data : all_contents u ≡ contents v
    pub addressable : are_attachable true u ≡ true

  abbrev ack_decoder : ℕ → Bytes → Decoder
  ack_decoder n tail = record {
    last_open = true;
    packet_reader = from_bytes (b'[' ∷ tail) eof;
    buffer_count = n;
    is_event = false;
  }

  ack_header :
      (n id : ℕ) (need_ack : Bool) (ns tail : Bytes) (d : Decoder)
      → n < 2 ^ 64
      → IsNamespace ns
      → IsId need_ack id
      → decode_header unquote bad_json empty_header
          (frame string_frame
            (write_header true n n (header_of ack id need_ack ns) ++ (b'[' ∷ tail)))
          d
        ≡ (none, header_of ack id need_ack ns, none, ack_decoder n tail)
  unfolding decode_header after_header
  ack_header n id need_ack ns tail d fits hn hi =
      let start : Decoder = record d {
        last_open = true;
        packet_reader =
            from_bytes (write_header true n n (header_of ack id need_ack ns) ++ (b'[' ∷ tail)) eof;
      } in
      ap (after_header unquote bad_json start) (
        read_header-write_header true n n ack id need_ack ns (b'[' ∷ tail) (omega arith) fits hn hi
          refl tt)
      ∙ ap (after_header unquote bad_json start) (λ i. (
        header_of (wire_type n ack) id need_ack ns,
        count_back n i,
        none,
        from_bytes (b'[' ∷ tail) eof,
      ))
      ∙ typed
    where
      typed :
          after_header unquote bad_json
            (record d {
              last_open = true;
              packet_reader =
                  from_bytes
                    (write_header true n n (header_of ack id need_ack ns) ++ (b'[' ∷ tail))
                    eof;
            })
            (header_of (wire_type n ack) id need_ack ns, n, none, from_bytes (b'[' ∷ tail) eof)
          ≡ (none, header_of ack id need_ack ns, none, ack_decoder n tail)
      typed = rw (typ_back n) refl

  ack_arguments :
      (tail : Bytes) (u : Values) (bs : List Bytes) (rest : List Incoming)
      → decode (b'[' ∷ tail) ≡ values (all_without_data (all_numbered 0 u))
      → are_attachable true u ≡ true
      → bs ≡ all_contents u
      → (decode_args decode
          (as_incoming (map (λ b. (binary_frame, b)) bs) ++ rest)
          (ack_decoder (length bs) tail)).0
        ≡ arguments (all_plain u) rest
  unfolding decode_args decoded_args
  ack_arguments tail u bs rest decoded addressable same = rw decoded (
      ap (with_buffers (all_without_data (all_numbered 0 u))) (read_back bs rest)
      ∙ (ap (λ cs. detached rest (detach_all true (all_without_data (all_numbered 0 u)) cs)) same
          ∙ ap (detached rest) (detach_all-numbered true u addressable)))

  -- An ack that `Encode` writes is decoded with its header and its values, buffers included, and the frames behind
  -- it are left; if its buffers can be addressed and are fewer than 2^64, its namespace is empty or starts with
  -- a slash and has no comma and no question mark, its id is a `uint64` and is 0 without an ack, and its JSON is
  -- an array of which the receiver makes the values with their placeholders, in the types that it asks for.
  pub decode-encode_ack :
      (v : Value) (u : Values) (id : ℕ) (need_ack : Bool) (ns : Bytes) (d : Decoder)
      (rest : List Incoming)
      → IsAckText v u
      → is_attachable false v ≡ true
      → length (contents v) < 2 ^ 64
      → IsNamespace ns
      → IsId need_ack id
      → (first : Bytes) × (frames : List Frame) × (d' : Decoder) × (encode json
            (header_of ack id need_ack ns)
            (some v)
          ≡ ((string_frame, first) ∷ frames, none))
        × (decode_header unquote bad_json empty_header (frame string_frame first) d
            ≡ (none, header_of ack id need_ack ns, none, d'))
        × ((decode_args decode (as_incoming frames ++ rest) d').0 ≡ arguments (all_plain u) rest)
  unfolding encode packet_frames
  decode-encode_ack v u id need_ack ns d rest t h fits hn hi =
      let n = length (contents v) in
      let header = header_of ack id need_ack ns in
      (
        write_header true n n header ++ (b'[' ∷ t.tail),
        map (λ b. (binary_frame, b)) (contents v),
        ack_decoder n t.tail,
        ap (packet_frames json header true) (attached v h) ∙ (λ i. (
          (string_frame, write_header true n n header ++ t.text i)
              ∷ map (λ b. (binary_frame, b)) (contents v),
          none,
        )),
        ack_header n id need_ack ns t.tail d fits hn hi,
        ack_arguments t.tail u (contents v) rest t.decoded t.addressable (sym t.same_data),
      )
