-- ===== src/Tests/Exchanges.antt =====
-- Connections over their frames, and clients, at concrete inputs.
use go_socket_io.Prelude.{
  ℕ, ◌≡◌, refl, inl, true, false, Bool, none, some, Option, List, [], ◌∷◌, ◌++◌, Bytes, codes,
  arith, if◌then◌else◌, bytes_eq, map,
}
use go_socket_io.Prelude.Dict
use go_socket_io.Packet.{string_frame, binary_frame}
use go_socket_io.Reader.{eof, fault, from_bytes, invalid_first_packet_type}
use go_socket_io.Digits.{digits_loop}
use go_socket_io.Parser.Header.{Header, event, ack, empty_header, write_uint64, base_loop}
use go_socket_io.Parser.Header.Fields.{header_of}
use go_socket_io.Parser.Values.{
  Value, other, pointer, interface, buffer, slice, nil, cons, marshal_json,
}
use go_socket_io.Parser.Values.Numbering.{
  are_attachable, is_attachable, numbered, contents, all_numbered,
}
use go_socket_io.Parser.Values.Restore.{all_without_data, all_plain}
use go_socket_io.Parser.Frames.{
  Frame, Incoming, frame, Decoder, encode, decode_header, decode_args, Json, json_error, values,
  arguments,
}
use go_socket_io.Parser.Frames.RoundTrip.{IsEventText, as_incoming}
use go_socket_io.Parser.Frames.Acks.{IsAckText, decode-encode_ack}
use go_socket_io.Namespace.{
  Handler, NamespaceConn, Conn, emit, event_called, ack_called, on_error, raised, root_namespace,
}
use go_socket_io.Server.{root_of}
use go_socket_io.Exchange.{as_data, listed, serve_write, turned, read_turn}
use go_socket_io.Exchange.Returns.{call_returns}
use go_socket_io.Exchange.Discarded.{discarded_buffers}
use go_socket_io.Namespace.Functions.{GoFunction, FuncHandler, returns}

abbrev data_of : Bytes → Value
data_of bs = pointer (buffer (record { num = 0; is_binary = false; content = bs }))

-- `["a",<a buffer>]` and `[<a buffer>]`
abbrev json_text : Value → Bytes
json_text (slice (cons (interface (other name)) (cons (interface (pointer (buffer b))) nil))) =
    b'[' ∷ (name ++ (b',' ∷ (marshal_json b ++ (b']' ∷ []))))
json_text (slice (cons (interface (pointer (buffer b))) nil)) =
    b'[' ∷ (marshal_json b ++ (b']' ∷ []))
json_text _ = []

abbrev unquote_text : Bytes → Option Bytes
unquote_text text = if bytes_eq text (codes "\"a\"") then some (codes "a") else none

abbrev decode_text : Header → Bytes → Bytes → Json
decode_text h name text =
    if bytes_eq text (codes "[{\"_placeholder\":true,\"num\":0}]")
    then values (all_without_data (all_numbered 0 (cons (data_of []) nil)))
    else json_error (fault 1)

abbrev of_name : Bytes → Value
of_name name = other (b'"' ∷ (name ++ (b'"' ∷ [])))

abbrev chat : Bytes
chat = codes "/chat"

abbrev question : List Value
question = data_of (8 ∷ 9 ∷ []) ∷ []

abbrev reply : List Value
reply = data_of (1 ∷ []) ∷ []

abbrev new_decoder : Decoder
new_decoder = record {
  last_open = false;
  packet_reader = from_bytes [] eof;
  buffer_count = 0;
  is_event = false;
}

question_text :
    (id : ℕ) (need_ack : Bool)
    → IsEventText json_text unquote_text
        (fault 1)
        (decode_text (header_of event id need_ack chat) (codes "a"))
        (as_data (of_name (codes "a") ∷ question))
        (codes "a")
        (cons (data_of (8 ∷ 9 ∷ [])) nil)
unfolding numbered write_uint64 digits_loop base_loop contents are_attachable marshal_json
    all_without_data
question_text id need_ack = record {
  quoted = codes "\"a\"";
  sep = b',';
  tail = codes "{\"_placeholder\":true,\"num\":0}]";
  text = refl;
  no_comma = ground arith;
  no_bracket = ground arith;
  ends = inl refl;
  unquoted = refl;
  decoded = refl;
  same_data = refl;
  addressable = refl;
}

reply_text :
    IsAckText json_text unquote_text
      (fault 1)
      (decode_text (header_of ack 5 true chat) [])
      (as_data reply)
      (cons (data_of (1 ∷ [])) nil)
unfolding numbered write_uint64 digits_loop base_loop contents are_attachable marshal_json
    all_without_data
reply_text = record {
  tail = codes "{\"_placeholder\":true,\"num\":0}]";
  text = refl;
  decoded = refl;
  same_data = refl;
  addressable = refl;
}

decode-encode_ack_example :
    (first : Bytes) × (frames : List Frame) × (d' : Decoder) × (encode json_text
        (header_of ack 5 true chat)
        (some (as_data reply))
      ≡ ((string_frame, first) ∷ frames, none))
    × (decode_header unquote_text (fault 1) empty_header (frame string_frame first) new_decoder
        ≡ (none, header_of ack 5 true chat, none, d'))
    × ((decode_args (decode_text (header_of ack 5 true chat) []) (as_incoming frames ++ []) d').0
        ≡ arguments (all_plain (cons (data_of (1 ∷ [])) nil)) [])
unfolding is_attachable contents
decode-encode_ack_example =
    decode-encode_ack json_text unquote_text (fault 1) (decode_text (header_of ack 5 true chat) [])
      (as_data reply) (cons (data_of (1 ∷ [])) nil) 5 true chat new_decoder [] reply_text refl
      (omega arith) (ground arith) (omega arith)

-- Two sides with the namespace connected, of which the one that asks has given four ids.
abbrev chat_conn : NamespaceConn Value
chat_conn = record { namespace = chat; broadcast = chat; acks = [] }

abbrev answering : Handler Value
answering = record {
  on_connect = none;
  on_disconnect = false;
  on_error = false;
  events = (codes "a", λ args. (reply, none)) ∷ [];
}

abbrev side : List (Bytes × Handler Value) → Conn Value
side handlers = record {
  session_id = codes "s";
  last_id = 4;
  handlers = handlers;
  rooms = [];
  namespaces = (chat, chat_conn) ∷ [];
  written = [];
  errors = [];
  calls = [];
  closed = false;
}

abbrev got_question : List Value
got_question = listed (all_plain (cons (data_of (8 ∷ 9 ∷ [])) nil))

abbrev got_reply : List Value
got_reply = listed (all_plain (cons (data_of (1 ∷ [])) nil))

call_returns_example :
    let sent =
      serve_write json_text
        (emit of_name (codes "a") question (some (λ args. ([], none))) chat_conn (side [])) in
    (r1 : Conn Value) × (d1 : Decoder) × (read_turn unquote_text
        (fault 1)
        decode_text
        true
        []
        new_decoder
        (as_incoming sent.0 ++ [])
        (side ((chat, answering) ∷ []))
      ≡ turned false r1 (codes "a") d1 [])
    × (r1.calls ≡ event_called chat (codes "a") got_question ∷ [])
    × ((ended : Bool) × (c1 : Conn Value) × (d3 : Decoder) × (read_turn unquote_text
            (fault 1)
            decode_text
            false
            []
            new_decoder
            (as_incoming (serve_write json_text r1).0 ++ [])
            sent.1
          ≡ turned ended c1 [] d3 [])
        × (c1.calls ≡ ack_called chat 5 got_reply ∷ []))
unfolding is_attachable contents Dict.lookup
call_returns_example =
    call_returns json_text unquote_text (fault 1) decode_text of_name [] [] (codes "a") question
      reply (cons (data_of (8 ∷ 9 ∷ [])) nil) (cons (data_of (1 ∷ [])) nil) chat_conn chat_conn
      answering (λ args. ([], none)) (λ args. (reply, none)) (side [])
      (side ((chat, answering) ∷ [])) new_decoder new_decoder [] [] refl (omega arith)
      (record {
        text = question_text 5 true;
        addressable = refl;
        fits = omega arith;
        named = ground arith;
      })
      (record { text = reply_text; addressable = refl; fits = omega arith; named = ground arith })
      refl refl refl refl refl

discarded_buffers_example :
    (d' : Decoder) × (left : List Incoming) × (read_turn unquote_text
        (fault 1)
        decode_text
        true
        []
        new_decoder
        (as_incoming
            (encode json_text
              (header_of event 0 false chat)
              (some (as_data (of_name (codes "a") ∷ question)))).0
          ++ [])
        (record (side []) { namespaces = [] })
      ≡ turned false (record (side []) { namespaces = [] }) (codes "a") d' left)
    × (read_turn unquote_text
          (fault 1)
          decode_text
          true
          (codes "a")
          d'
          left
          (record (side []) { namespaces = [] })
        ≡ turned true
            (on_error root_namespace
              (raised invalid_first_packet_type)
              (record (side []) { namespaces = [] }))
            (codes "a")
            d'
            (as_incoming (map (λ x. (binary_frame, x)) []) ++ []))
unfolding is_attachable contents Dict.lookup root_of
discarded_buffers_example =
    discarded_buffers unquote_text (fault 1) decode_text json_text true [] (codes "a")
      (as_data (of_name (codes "a") ∷ question)) (cons (data_of (8 ∷ 9 ∷ [])) nil) 0 false chat
      (8 ∷ 9 ∷ []) [] new_decoder [] (record (side []) { namespaces = [] }) (question_text 0 false)
      refl (omega arith) (ground arith) refl refl refl refl

-- A function of the connection and one value, which returns it.
abbrev echo : GoFunction Value
echo = record {
  is_func = true;
  ins = codes "Conn" ∷ codes "Buffer" ∷ [];
  body = λ args. returns args;
}

abbrev echo_events : List (Bytes × FuncHandler Value)
echo_events = (codes "a", record { arg_types = codes "Buffer" ∷ []; f = echo }) ∷ []

abbrev decode_one : Bytes → Json
decode_one text = values (cons (other text) nil)
