-- ===== src/Exchange/Turns.antt =====
-- One turn of `serveRead` over the frames of an event or of an ack, and the frames of one packet.
use go_socket_io.Prelude.{
  ℕ, ◌≡◌, refl, ◌∙◌, Bool, true, Option, none, some, List, [], ◌∷◌, ◌++◌, Bytes, append-nil,
  bytes-Eq, ℕ-Eq,
}
use go_socket_io.Prelude.Dict
use go_socket_io.Prelude.Dict.{has_value}
use go_socket_io.Packet.{string_frame}
use go_socket_io.Reader.{Err}
use go_socket_io.Parser.Header.{Header, empty_header, event, ack}
use go_socket_io.Parser.Header.Fields.{header_of}
use go_socket_io.Parser.Values.{Value, Values}
use go_socket_io.Parser.Frames.{
  Frame, encode, Incoming, frame, Decoder, decode_header, Json, arguments, decode_args,
}
use go_socket_io.Namespace
use go_socket_io.Namespace.{
  Fault, Answer, Handler, NamespaceConn, Conn, dispatch_event, event_called, call, on_error, write,
}
use go_socket_io.Namespace.Handlers.{
  event_answer, event_at, event_packet_handler, ack_at, ack_packet_handler,
}
use go_socket_io.Server.{root_of, handle_packet, ended_by}
use go_socket_io.Exchange.{
  as_data, listed, write_loop, encode_failed, decodes, event_of, packet_of, finished, handled,
  with_arguments, read_body, decoded_header, read_turn,
}

-- The frames of one packet.
pub write_one :
    (json : Value → Bytes) (h : Header) (vs : List Value) (fs : List Frame) (c : Conn Value)
    → encode json h (some (as_data vs)) ≡ (fs, none)
    → write_loop json ((h, vs) ∷ []) c ≡ (fs, c)
unfolding write_loop encode_failed
write_one json h vs fs c e =
    (λ i. ((e i).0 ++ [], encode_failed json h (e i).1 c)) ∙ (λ i. (append-nil fs i, c))

-- What the handler of an event has left.
abbrev pub event_left :
    Header
    → Bytes
    → List Value
    → NamespaceConn Value
    → Handler Value
    → Conn Value
    → Bool × Conn Value
event_left h name args nc handler c =
    ended_by (event_answer h (dispatch_event handler nc.namespace name args c))

module _ (unquote : Bytes → Option Bytes) (bad_json : Err)
    (decode : Header → Bytes → Bytes → Json) where
  pub header_turn :
      (server : Bool) (last : Bytes) (d d' : Decoder) (first : Bytes) (frames : List Incoming)
      (h : Header) (name : Option Bytes) (c : Conn Value)
      → decode_header unquote bad_json empty_header (frame string_frame first) d
        ≡ (none, h, name, d')
      → root_of h.namespace ≡ h.namespace
      → read_turn unquote bad_json decode server last d (frame string_frame first ∷ frames) c
        ≡ read_body unquote bad_json decode server h (event_of last name) d' frames c
  unfolding read_turn decoded_header
  header_turn server last d d' first frames h name c e rooted =
      (λ i. decoded_header unquote bad_json decode server last (e i) frames c) ∙ (λ i.
        read_body unquote bad_json decode server (record h { namespace = rooted i })
          (event_of last name) d' frames c)

  body_turn :
      (server : Bool) (h : Header) (name : Bytes) (d : Decoder) (frames rest : List Incoming)
      (vs : Values) (c : Conn Value)
      → decodes h c ≡ true
      → (decode_args (decode h name) frames d).0 ≡ arguments vs rest
      → read_body unquote bad_json decode server h name d frames c
        ≡ handled server h name
            (Namespace.arguments (listed vs))
            c
            (decode_args (decode h name) frames d).1
            rest
  unfolding read_body with_arguments
  body_turn server h name d frames rest vs c reads e =
      rw (reads, read_body)
        (λ i. with_arguments server h name (e i, (decode_args (decode h name) frames d).1) frames c)

  -- A turn over the frames of an event whose namespace is connected and has a handler.
  pub event_turn :
      (server : Bool) (last : Bytes) (d d' : Decoder) (first : Bytes) (frames rest : List Incoming)
      (id : ℕ) (need_ack : Bool) (ns name : Bytes) (vs : Values) (nc : NamespaceConn Value)
      (handler : Handler Value) (c : Conn Value)
      → decode_header unquote bad_json empty_header (frame string_frame first) d
        ≡ (none, header_of event id need_ack ns, some name, d')
      → (decode_args (decode (header_of event id need_ack ns) name) frames d').0 ≡ arguments vs rest
      → root_of ns ≡ ns
      → Dict.lookup ns c.namespaces ≡ some nc
      → Dict.lookup ns c.handlers ≡ some handler
      → read_turn unquote bad_json decode server last d (frame string_frame first ∷ frames) c
        ≡ finished
            (event_left (header_of event id need_ack ns) name (listed vs) nc handler c)
            name
            (decode_args (decode (header_of event id need_ack ns) name) frames d').1
            rest
  event_turn server last d d' first frames rest id need_ack ns name vs nc handler c e a rooted hn
        hh =
      let h = header_of event id need_ack ns in
      header_turn server last d d' first frames h (some name) c e rooted
      ∙ unfold event_of in
        body_turn server h name d' frames rest vs c (unfold decodes in rw (hn, hh) refl) a
        ∙ unfold handled packet_of handle_packet event_packet_handler event_at in
          (λ i.
            finished (ended_by (event_at (Namespace.arguments (listed vs)) name h (hn i) (hh i) c))
              name (decode_args (decode h name) frames d').1 rest)

  -- A turn over the frames of an ack whose namespace is connected.
  pub ack_turn :
      (server : Bool) (last : Bytes) (d d' : Decoder) (first : Bytes) (frames rest : List Incoming)
      (id : ℕ) (need_ack : Bool) (ns : Bytes) (vs : Values) (nc : NamespaceConn Value)
      (c : Conn Value)
      → decode_header unquote bad_json empty_header (frame string_frame first) d
        ≡ (none, header_of ack id need_ack ns, none, d')
      → (decode_args (decode (header_of ack id need_ack ns) last) frames d').0 ≡ arguments vs rest
      → root_of ns ≡ ns
      → Dict.lookup ns c.namespaces ≡ some nc
      → read_turn unquote bad_json decode server last d (frame string_frame first ∷ frames) c
        ≡ finished
            (ended_by
              (ack_at (Namespace.arguments (listed vs)) (header_of ack id need_ack ns) (some nc) c))
            last
            (decode_args (decode (header_of ack id need_ack ns) last) frames d').1
            rest
  ack_turn server last d d' first frames rest id need_ack ns vs nc c e a rooted hn =
      let h = header_of ack id need_ack ns in
      header_turn server last d d' first frames h none c e rooted
      ∙ unfold event_of in
        body_turn server h last d' frames rest vs c (unfold decodes in rw hn refl) a
        ∙ unfold handled packet_of handle_packet ack_packet_handler in
          (λ i.
            finished (ended_by (ack_at (Namespace.arguments (listed vs)) h (hn i) c)) last
              (decode_args (decode h last) frames d').1 rest)
