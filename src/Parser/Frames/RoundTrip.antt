-- ===== src/Parser/Frames/RoundTrip.antt =====
-- An event from `Encode` to `DecodeHeader` and `DecodeArgs`.
use go_socket_io.Prelude.{
  ℕ, ◌+◌, ◌^◌, ◌<◌, ◌≡◌, ◌≢◌, refl, sym, ap, ◌∙◌, ◌⊎◌, inl, inr, Bool, true, false, Option, none,
  some, List, [], ◌∷◌, ◌++◌, Bytes, Lacks, if◌then◌else◌, ◌==◌, arith, length, map, append_assoc,
  append-nil,
}
use go_socket_io.Packet.{string_frame, binary_frame}
use go_socket_io.Reader.{Err, eof, failed_buffer_address, from_bytes, ok, read_byte}
use go_socket_io.Parser.Header.{Header, empty_header, event, wire_type, write_header, read_header}
use go_socket_io.Parser.Header.Fields.{header_of, IsNamespace, IsId}
use go_socket_io.Parser.Header.RoundTrip.{read_header-write_header, wire_count}
use go_socket_io.Parser.Values.{Value, Values, attach, detach_all, slice, interface, cons, nil}
use go_socket_io.Parser.Values.Numbering.{
  is_attachable, are_attachable, contents, all_contents, numbered, all_numbered,
  attach-eq-described,
}
use go_socket_io.Parser.Values.Restore.{all_without_data, all_plain, detach_all-numbered}
use go_socket_io.Parser.Frames.{
  Frame, encode, packet_frames, Incoming, frame, Decoder, event_loop, event_name, read_event,
  plain_type, after_header, after_event, decode_header, Json, values, gathered, add_buffer,
  read_buffers, with_buffers, detached, decode_args, decoded_args, arguments,
}

-- Frames as the session's reader gives them.
abbrev pub as_incoming : List Frame → List Incoming
as_incoming [] = []
as_incoming ((ft, bs) ∷ frames) = frame ft bs ∷ as_incoming frames

pub read_back :
    (bs : List Bytes) (rest : List Incoming)
    → read_buffers (length bs) (as_incoming (map (λ b. (binary_frame, b)) bs) ++ rest)
      ≡ gathered bs rest
unfolding read_buffers
read_back [] rest = refl
read_back (b ∷ bs) rest = ap (add_buffer b) (read_back bs rest)

-- The bytes of an event's name are read up to the byte that ends them.
abbrev pub tail_of : ℕ → Bytes → Bytes
tail_of sep tail = if sep == b',' then tail else sep ∷ tail

event_loop_lem :
    (q buf tail : Bytes) (sep : ℕ) (e : Err)
    → Lacks b',' q
    → Lacks b']' q
    → (sep ≡ b',') ⊎ (sep ≡ b']')
    → event_loop (q ++ (sep ∷ tail)) e buf ≡ ok (buf ++ q) (from_bytes (tail_of sep tail) e)
unfolding event_loop
event_loop_lem [] buf tail sep e h k (inl s) = rw (s, append-nil) refl
event_loop_lem [] buf tail sep e h k (inr s) = rw (s, append-nil) refl
event_loop_lem (b ∷ q) buf tail sep e (hb, h) (kb, k) s =
    rw (is_not b b',' hb, is_not b b']' kb)
      (event_loop_lem q (buf ++ (b ∷ [])) tail sep e h k s
        ∙ ap (λ x. ok x (from_bytes (tail_of sep tail) e)) (append_assoc buf (b ∷ []) q))
  where
    is_not : (b c : ℕ) → b ≢ c → (b == c) ≡ false
    is_not b c h = ground arith

typ_back : (n : ℕ) → plain_type (λ q. none) eof (wire_type n event) ≡ event
typ_back n = ground arith

count_back : (n : ℕ) → wire_count n n event ≡ n
count_back n = ground arith

pub attached :
    (v : Value)
    → is_attachable false v ≡ true
    → attach false (slice (cons (interface v) nil)) 0
      ≡ some (slice (cons (interface (numbered 0 v)) nil), contents v, length (contents v))
unfolding is_attachable contents numbered
attached v h =
    attach-eq-described false (slice (cons (interface v) nil)) 0
    ∙ rw (h) (λ i. some (
      slice (cons (interface (numbered 0 v)) nil),
      append-nil (contents v) i,
      counted (append-nil (contents v) i) i,
    ))
  where
    counted : (bs : List Bytes) → 0 + length bs ≡ length bs
    counted bs = omega arith

module _ (json : Value → Bytes) (unquote : Bytes → Option Bytes) (bad_json : Err)
    (decode : Bytes → Json) where
  -- The parts that a JSON array gives to `readEvent` and to `DecodeArgs`.
  pub record IsEventText (v : Value) (name : Bytes) (u : Values) : Type 0 where
    pub quoted : Bytes
    pub sep : ℕ
    pub tail : Bytes
    pub text : json (numbered 0 v) ≡ b'[' ∷ (quoted ++ (sep ∷ tail))
    pub no_comma : Lacks b',' quoted
    pub no_bracket : Lacks b']' quoted
    pub ends : (sep ≡ b',') ⊎ (sep ≡ b']')
    pub unquoted : unquote quoted ≡ some name
    pub decoded : decode (b'[' ∷ tail_of sep tail) ≡ values (all_without_data (all_numbered 0 u))
    pub same_data : all_contents u ≡ contents v
    pub addressable : are_attachable true u ≡ true

  abbrev read_decoder : ℕ → Bytes → Decoder
  read_decoder n left = record {
    last_open = true;
    packet_reader = from_bytes left eof;
    buffer_count = n;
    is_event = true;
  }

  name_read :
      (v : Value) (name : Bytes) (u : Values) (t : IsEventText v name u)
      → read_event unquote bad_json (from_bytes (b'[' ∷ (t.quoted ++ (t.sep ∷ t.tail))) eof)
        ≡ ok (some name) (from_bytes (tail_of t.sep t.tail) eof)
  unfolding read_event event_name read_byte
  name_read v name u t =
      ap (event_name unquote bad_json)
        (event_loop_lem t.quoted [] t.tail t.sep eof t.no_comma t.no_bracket t.ends)
      ∙ rw (t.unquoted, event_name) refl

  header_read :
      (v : Value) (name : Bytes) (u : Values) (t : IsEventText v name u) (n id : ℕ)
      (need_ack : Bool) (ns : Bytes) (d : Decoder)
      → n < 2 ^ 64
      → IsNamespace ns
      → IsId need_ack id
      → decode_header unquote bad_json empty_header
          (frame string_frame (
            write_header true n n (header_of event id need_ack ns)
            ++ (b'[' ∷ (t.quoted ++ (t.sep ∷ t.tail)))))
          d
        ≡ (none, header_of event id need_ack ns, some name, read_decoder n (tail_of t.sep t.tail))
  unfolding decode_header after_header after_event
  header_read v name u t n id need_ack ns d fits hn hi =
      let start : Decoder = record d {
        last_open = true;
        packet_reader =
            from_bytes
              (write_header true n n (header_of event id need_ack ns)
                ++ (b'[' ∷ (t.quoted ++ (t.sep ∷ t.tail))))
              eof;
      } in
      ap (after_header unquote bad_json start) (
        read_header-write_header true n n event id need_ack ns
          (b'[' ∷ (t.quoted ++ (t.sep ∷ t.tail))) (omega arith) fits hn hi refl tt)
      ∙ (ap (after_header unquote bad_json start) (λ i. (
        header_of (wire_type n event) id need_ack ns,
        count_back n i,
        none,
        from_bytes (b'[' ∷ (t.quoted ++ (t.sep ∷ t.tail))) eof,
      ))
          ∙ typed)
    where
      typed :
          after_header unquote bad_json
            (record d {
              last_open = true;
              packet_reader =
                  from_bytes
                    (write_header true n n (header_of event id need_ack ns)
                      ++ (b'[' ∷ (t.quoted ++ (t.sep ∷ t.tail))))
                    eof;
            })
            (
              header_of (wire_type n event) id need_ack ns,
              n,
              none,
              from_bytes (b'[' ∷ (t.quoted ++ (t.sep ∷ t.tail))) eof,
            )
          ≡ (none, header_of event id need_ack ns, some name, read_decoder n (tail_of t.sep t.tail))
      typed = rw (typ_back n) (rw (name_read v name u t) refl)

  args_read :
      (v : Value) (name : Bytes) (u : Values) (t : IsEventText v name u) (bs : List Bytes)
      (rest : List Incoming)
      → bs ≡ all_contents u
      → (decode_args decode
          (as_incoming (map (λ b. (binary_frame, b)) bs) ++ rest)
          (read_decoder (length bs) (tail_of t.sep t.tail))).0
        ≡ arguments (all_plain u) rest
  unfolding decode_args decoded_args
  args_read v name u t bs rest same = rw (t.decoded) (
      ap (with_buffers (all_without_data (all_numbered 0 u))) (read_back bs rest)
      ∙ (ap (λ cs. detached rest (detach_all true (all_without_data (all_numbered 0 u)) cs)) same
          ∙ ap (detached rest) (detach_all-numbered true u t.addressable)))

  -- An event that `Encode` writes is decoded with its header, its name and its arguments, buffers included,
  -- and the frames behind it are left; if its buffers can be addressed and are fewer than 2^64, its namespace is
  -- empty or starts with a slash and has no comma and no question mark, its id is a `uint64` and is 0 without an
  -- ack, and its JSON is an array that starts with the event's name, in which there is no comma and no bracket,
  -- and of which the receiver makes the arguments with their placeholders, in the types that it asks for.
  pub decode-encode :
      (v : Value) (name : Bytes) (u : Values) (id : ℕ) (need_ack : Bool) (ns : Bytes) (d : Decoder)
      (rest : List Incoming)
      → IsEventText v name u
      → is_attachable false v ≡ true
      → length (contents v) < 2 ^ 64
      → IsNamespace ns
      → IsId need_ack id
      → (first : Bytes) × (frames : List Frame) × (d' : Decoder) × (encode json
            (header_of event id need_ack ns)
            (some v)
          ≡ ((string_frame, first) ∷ frames, none))
        × (decode_header unquote bad_json empty_header (frame string_frame first) d
            ≡ (none, header_of event id need_ack ns, some name, d'))
        × ((decode_args decode (as_incoming frames ++ rest) d').0 ≡ arguments (all_plain u) rest)
  unfolding encode packet_frames
  decode-encode v name u id need_ack ns d rest t h fits hn hi =
      let n = length (contents v) in
      let header = header_of event id need_ack ns in
      (
        write_header true n n header ++ (b'[' ∷ (t.quoted ++ (t.sep ∷ t.tail))),
        map (λ b. (binary_frame, b)) (contents v),
        read_decoder n (tail_of t.sep t.tail),
        ap (packet_frames json header true) (attached v h) ∙ (λ i. (
          (string_frame, write_header true n n header ++ t.text i)
              ∷ map (λ b. (binary_frame, b)) (contents v),
          none,
        )),
        header_read v name u t n id need_ack ns d fits hn hi,
        args_read v name u t (contents v) rest (sym t.same_data),
      )

unattached :
    (v : Value)
    → is_attachable false v ≡ false
    → attach false (slice (cons (interface v) nil)) 0 ≡ none
unfolding is_attachable
unattached v h = attach-eq-described false (slice (cons (interface v) nil)) 0 ∙ rw (h) refl

-- An argument that cannot be numbered reaches the peer as an empty text frame, for which its decoder answers
-- the end of the input.
pub decode-encode_unattachable :
    (json : Value → Bytes) (unquote : Bytes → Option Bytes) (bad_json : Err) (h : Header)
    (v : Value) (d : Decoder)
    → is_attachable false v ≡ false
    → (first : Bytes) × (encode json h (some v)
        ≡ ((string_frame, first) ∷ [], some failed_buffer_address))
      × ((decode_header unquote bad_json empty_header (frame string_frame first) d).0 ≡ some eof)
unfolding encode packet_frames is_attachable decode_header after_header read_header read_byte
decode-encode_unattachable json unquote bad_json h v d g =
    ([], ap (packet_frames json h true) (unattached v g), refl)
