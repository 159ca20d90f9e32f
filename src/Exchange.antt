-- ===== src/Exchange.antt =====
-- A connection over its frames: `serveWrite` of server.go, which encodes the packets that a connection has
-- written, and a turn of `serveRead`, which decodes a packet and hands it to its handler. An argument of an event
-- is a value of Parser/Values; what a `json.Decoder` makes of the arguments for a handler's types is a
-- parameter.
pub mod Turns
pub mod Calls
pub mod Returns
pub mod Loop
pub mod Arity
pub mod Discarded
use go_socket_io.Prelude.{
  ℕ, Bool, true, false, Option, none, some, List, [], ◌∷◌, ◌++◌, Bytes, if◌then◌else◌, ◌==◌, ◌||◌,
  ◌&&◌, ℕ-Eq, bytes-Eq,
}
use go_socket_io.Prelude.Dict
use go_socket_io.Prelude.Dict.{has_value}
use go_socket_io.Reader.{Err}
use go_socket_io.Parser.Header.{Header, empty_header, disconnect, event, ack}
use go_socket_io.Parser.Values.{Value, Values, slice, interface, nil, cons}
use go_socket_io.Parser.Frames.{
  Frame, encode, Incoming, Decoder, discard_last, decode_header, Json, Arguments, blocked, panics,
  fails, no_arguments, arguments, decode_args,
}
use go_socket_io.Namespace
use go_socket_io.Namespace.{Fault, raised, Decoded, undecodable, Conn, on_error, root_namespace}
use go_socket_io.Server.{Packet, root_of, handle_packet, ended_by}

-- `pkg.Data`, a slice of interfaces.
abbrev pub boxed : List Value → Values
boxed [] = nil
boxed (v ∷ vs) = cons (interface v) (boxed vs)

abbrev pub as_data : List Value → Value
as_data vs = slice (boxed vs)

abbrev pub listed : Values → List Value
listed nil = []
listed (cons v vs) = v ∷ listed vs

module _ (json : Value → Bytes) where
  encode_failed : Header → Option Err → Conn Value → Conn Value
  encode_failed h none c = c
  encode_failed h (some e) c = on_error h.namespace (raised e) c

  -- `serveWrite` over these packets: the frames, and the connection with the errors.
  unfoldable pub write_loop : List (Header × List Value) → Conn Value → List Frame × Conn Value
  unfolding encode_failed
  write_loop [] c = ([], c)
  write_loop ((h, vs) ∷ ps) c =
      let (frames, e) = encode json h (some (as_data vs)) in
      let (more, c') = write_loop ps (encode_failed h e c) in (frames ++ more, c')

  -- The packets that the connection has written.
  unfoldable pub serve_write : Conn Value → List Frame × Conn Value
  serve_write c = write_loop c.written (record c { written = [] })

-- A turn of `serveRead`: it waits for a frame, a panic, or whether the loop has ended, with the connection, the
-- loop's `event`, the decoder and the frames behind.
pub data Turn : Type 0 where
  waits crashes : Turn
  turned : Bool → Conn Value → Bytes → Decoder → List Incoming → Turn

-- Whether the handler of a packet decodes its arguments; the others discard the frame.
unfoldable pub decodes : Header → Conn Value → Bool
decodes h c =
    if h.typ == ack
    then has_value (Dict.lookup h.namespace c.namespaces)
    else if h.typ == disconnect
    then true
    else if h.typ == event
    then has_value (Dict.lookup h.namespace c.namespaces)
      && has_value (Dict.lookup h.namespace c.handlers)
    else false

-- `event` keeps the name of the event before where a packet has none.
unfoldable pub event_of : Bytes → Option Bytes → Bytes
event_of last none = last
event_of last (some name) = name

packet_of : Header → Bytes → Decoded Value → Packet Value
packet_of h name d = record { header = h; event = name; decoded = d; discarded = none }

abbrev pub finished : Bool × Conn Value → Bytes → Decoder → List Incoming → Turn
finished (ended, c) name d rest = turned ended c name d rest

-- The handler's part of a turn.
handled : Bool → Header → Bytes → Decoded Value → Conn Value → Decoder → List Incoming → Turn
unfolding packet_of
handled server h name decoded c d rest =
    finished (ended_by (handle_packet server (packet_of h name decoded) h c)) name d rest

-- After a failure of `DecodeArgs` the loop ends, with whatever frames are behind.
with_arguments : Bool → Header → Bytes → Arguments × Decoder → List Incoming → Conn Value → Turn
with_arguments server h name (blocked, d) frames c = waits
with_arguments server h name (panics, d) frames c = crashes
with_arguments server h name (fails e, d) frames c =
    handled server h name (undecodable e) c d frames
with_arguments server h name (no_arguments, d) frames c =
    handled server h name (Namespace.arguments []) c d frames
with_arguments server h name (arguments vs rest, d) frames c =
    handled server h name (Namespace.arguments (listed vs)) c d rest

-- `decode` is what a `json.Decoder` makes of the arguments, for the types of the packet's handler.
module _ (unquote : Bytes → Option Bytes) (bad_json : Err)
    (decode : Header → Bytes → Bytes → Json) where
  unfoldable pub read_body : Bool → Header → Bytes → Decoder → List Incoming → Conn Value → Turn
  unfolding with_arguments handled
  read_body server h name d frames c = elim (decodes h c) [
    | true ↦ with_arguments server h name (decode_args (decode h name) frames d) frames c
    | false ↦ handled server h name (Namespace.arguments []) c (discard_last d) frames
  ]

  decoded_header :
      Bool
      → Bytes
      → Option Err × Header × Option Bytes × Decoder
      → List Incoming
      → Conn Value
      → Turn
  decoded_header server last (some e, h, name, d) frames c =
      turned true (on_error root_namespace (raised e) c) (event_of last name) d frames
  decoded_header server last (none, h, name, d) frames c =
      read_body server (record h { namespace = root_of h.namespace }) (event_of last name) d frames
        c

  -- With `false` for a client.
  unfoldable pub read_turn : Bool → Bytes → Decoder → List Incoming → Conn Value → Turn
  unfolding decoded_header read_body with_arguments handled event_of
  read_turn server last d [] c = waits
  read_turn server last d (f ∷ frames) c =
      decoded_header server last (decode_header unquote bad_json empty_header f d) frames c
