-- ===== src/Exchange/Discarded.antt =====
-- An event for a namespace that is not connected: its packet is discarded, and its buffers are not.
use go_socket_io.Prelude.{
  ℕ, ◌<◌, ◌^◌, ◌≡◌, refl, sym, ap, ◌∙◌, Bool, true, false, Option, none, some, List, [], ◌∷◌, ◌++◌,
  Bytes, length, map, bytes-Eq,
}
use go_socket_io.Prelude.Dict
use go_socket_io.Packet.{string_frame, binary_frame}
use go_socket_io.Reader.{Err, invalid_first_packet_type}
use go_socket_io.Parser.Header.{Header, event}
use go_socket_io.Parser.Header.Fields.{header_of, IsNamespace, IsId}
use go_socket_io.Parser.Values.{Value, Values}
use go_socket_io.Parser.Values.Numbering.{is_attachable, contents}
use go_socket_io.Parser.Frames.{
  encode, packet_frames, Incoming, Decoder, decode_header, discard_last, Json,
}
use go_socket_io.Parser.Frames.RoundTrip.{as_incoming, attached, IsEventText, decode-encode}
use go_socket_io.Namespace
use go_socket_io.Namespace.{Conn, on_error, raised, root_namespace}
use go_socket_io.Namespace.Handlers.{event_at, event_packet_handler}
use go_socket_io.Server.{root_of, handle_packet, ended_by}
use go_socket_io.Exchange.{
  turned, decodes, event_of, packet_of, finished, handled, read_body, decoded_header, read_turn,
}
use go_socket_io.Exchange.Turns.{header_turn}

behind : {A : Type 0} → List A → List A
behind [] = []
behind (x ∷ xs) = xs

behind_cons :
    {A : Type 0} (x : A) (xs ys : List A) (fs : List A × Option Err)
    → fs ≡ (x ∷ xs, none)
    → behind fs.0 ≡ ys
    → xs ≡ ys
unfolding behind
behind_cons x xs ys fs e g = sym (λ i. behind (e i).0) ∙ g

-- The frames behind the first are those of the buffers.
frames_behind :
    (json : Value → Bytes) (h : Header) (v : Value)
    → is_attachable false v ≡ true
    → behind (encode json h (some v)).0 ≡ map (λ b. (binary_frame, b)) (contents v)
unfolding behind encode packet_frames
frames_behind json h v g = λ i. behind (packet_frames json h true (attached v g i)).0

module _ (unquote : Bytes → Option Bytes) (bad_json : Err)
    (decode : Header → Bytes → Bytes → Json) where
  absent_turn :
      (server : Bool) (last : Bytes) (id : ℕ) (need_ack : Bool) (ns name : Bytes) (d : Decoder)
      (frames : List Incoming) (c : Conn Value)
      → Dict.lookup ns c.namespaces ≡ none
      → read_body unquote bad_json decode server
          (header_of event id need_ack ns)
          (event_of last (some name))
          d
          frames
          c
        ≡ turned false c name (discard_last d) frames
  unfolding read_body event_of decodes handled packet_of handle_packet event_packet_handler event_at
      ended_by
  absent_turn server last id need_ack ns name d frames c e =
      let h = header_of event id need_ack ns in
      let kept : decodes h c ≡ false = rw e refl in
      rw (kept, read_body)
        (λ i.
          finished
            (ended_by
              (event_at (Namespace.arguments []) name h (e i) (Dict.lookup ns c.handlers) c))
            name (discard_last d) frames)

  -- An event with at least one buffer, for a namespace that the other side has not connected, is written and read in
  -- two turns: the first leaves the connection as it was and the frames of the buffers behind; the second takes
  -- the first buffer for a packet and ends the loop with an error. The arguments travel: the buffers can be
  -- addressed and are fewer than 2^64, the namespace starts with a slash or is empty, is not a slash alone, and has no comma and no question mark, the id is a `uint64` and is 0 without an ack, the name of the event as JSON text has no comma and no closing bracket, and JSON makes the arguments again of their text.
  pub discarded_buffers :
      (json : Value → Bytes) (server : Bool) (last name : Bytes) (v : Value) (u : Values) (id : ℕ)
      (need_ack : Bool) (ns b : Bytes) (bs : List Bytes) (d : Decoder) (rest : List Incoming)
      (c : Conn Value)
      → IsEventText json unquote bad_json (decode (header_of event id need_ack ns) name) v name u
      → is_attachable false v ≡ true
      → length (contents v) < 2 ^ 64
      → IsNamespace ns
      → IsId need_ack id
      → root_of ns ≡ ns
      → contents v ≡ b ∷ bs
      → Dict.lookup ns c.namespaces ≡ none
      → (d' : Decoder) × (left : List Incoming) × (read_turn unquote bad_json decode server last d
            (as_incoming (encode json (header_of event id need_ack ns) (some v)).0 ++ rest)
            c
          ≡ turned false c name d' left)
        × (read_turn unquote bad_json decode server name d' left c
            ≡ turned true
                (on_error root_namespace (raised invalid_first_packet_type) c)
                name
                d'
                (as_incoming (map (λ x. (binary_frame, x)) bs) ++ rest))
  discarded_buffers json server last name v u id need_ack ns b bs d rest c t g fits hn hid root
        some_buffer absent =
      let h = header_of event id need_ack ns in
      let (first, frames, d', encoded, decoded, values) =
        decode-encode json unquote bad_json (decode h name) v name u id need_ack ns d rest t g fits
          hn hid in
      let same : frames ≡ map (λ x. (binary_frame, x)) (b ∷ bs) =
        behind_cons (string_frame, first) frames (map (λ x. (binary_frame, x)) (b ∷ bs))
          (encode json h (some v)) encoded
          (frames_behind json h v g ∙ ap (map (λ x. (binary_frame, x))) some_buffer) in
      (
        discard_last d',
        as_incoming (map (λ x. (binary_frame, x)) (b ∷ bs)) ++ rest,
        (λ i. read_turn unquote bad_json decode server last d (as_incoming (encoded i).0 ++ rest) c)
            ∙ header_turn unquote bad_json decode server last d d' first
                (as_incoming frames ++ rest) h (some name) c decoded root
            ∙ absent_turn server last id need_ack ns name d' (as_incoming frames ++ rest) c absent
            ∙ (λ i. turned false c name (discard_last d') (as_incoming (same i) ++ rest)),
        unfold read_turn decoded_header decode_header event_of in refl,
      )
