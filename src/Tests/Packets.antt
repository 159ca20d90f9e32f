-- ===== src/Tests/Packets.antt =====
-- Events with buffers at concrete inputs.
use go_socket_io.Prelude.{
  ◌+◌, ◌≡◌, refl, inl, true, false, none, some, List, [], ◌∷◌, ◌++◌, Bytes, codes, length, arith,
  if◌then◌else◌, bytes_eq, Option,
}
use go_socket_io.Packet.{string_frame}
use go_socket_io.Reader.{eof, fault, failed_buffer_address, from_bytes}
use go_socket_io.Parser.Header.{event, empty_header, write_uint64, base_loop}
use go_socket_io.Digits.{digits_loop}
use go_socket_io.Parser.Header.Fields.{header_of}
use go_socket_io.Parser.Values.{
  Buffer, Value, Values, other, pointer, interface, buffer, slice, array, dict, struct, nil, cons,
  attach, restored, marshal_json,
}
use go_socket_io.Parser.Values.Numbering.{
  attach-eq-described, are_attachable, is_attachable, numbered, contents, all_numbered,
}
use go_socket_io.Parser.Values.Restore.{without_data, all_without_data, plain, all_plain}
use go_socket_io.Parser.Frames.{
  Decoder, Frame, frame, encode, decode_header, decode_args, Json, json_error, values, arguments,
}
use go_socket_io.Parser.Frames.RoundTrip.{
  IsEventText, as_incoming, decode-encode, decode-encode_unattachable,
}

data_of : Bytes → Value
data_of bs = buffer (record { num = 0; is_binary = false; content = bs })

-- A field with a buffer, and a slice with one in a pointer.
message_value : Value
unfolding data_of
message_value =
    struct (cons (data_of (7 ∷ [])) (cons (slice (cons (pointer (data_of (8 ∷ 9 ∷ []))) nil)) nil))

attach-eq-described_example : attach true message_value 3 ≡ (
    if is_attachable true message_value
    then some
        (numbered 3 message_value, contents message_value, 3 + length (contents message_value))
    else none)
attach-eq-described_example = attach-eq-described true message_value 3

-- `["a",<a buffer>]`
json_text : Value → Bytes
unfolding marshal_json
json_text (slice (cons (interface (other name)) (cons (interface (pointer (buffer b))) nil))) =
    b'[' ∷ (name ++ (b',' ∷ (marshal_json b ++ (b']' ∷ []))))
json_text _ = []

unquote_text : Bytes → Option Bytes
unquote_text text = if bytes_eq text (codes "\"a\"") then some (codes "a") else none

one_argument : Values
one_argument = cons (pointer (data_of (8 ∷ 9 ∷ []))) nil

event_value : Value
event_value = slice (
    cons (interface (other (codes "\"a\"")))
      (cons (interface (pointer (data_of (8 ∷ 9 ∷ [])))) nil))

decode_text : Bytes → Json
decode_text text =
    if bytes_eq text (codes "[{\"_placeholder\":true,\"num\":0}]")
    then values (all_without_data (all_numbered 0 one_argument))
    else json_error (fault 1)

event_text :
    IsEventText json_text unquote_text (fault 1) decode_text event_value (codes "a") one_argument
unfolding json_text unquote_text decode_text event_value one_argument data_of numbered write_uint64
    digits_loop base_loop contents are_attachable
event_text = record {
  quoted = codes "\"a\"";
  sep = b',';
  tail = codes "{\"_placeholder\":true,\"num\":0}]";
  text = refl;
  no_comma = ground arith;
  no_bracket = ground arith;
  ends = inl refl;
  unquoted = refl;
  decoded = refl;
  same_data = refl;
  addressable = refl;
}

new_decoder : Decoder
new_decoder = record {
  last_open = false;
  packet_reader = from_bytes [] eof;
  buffer_count = 0;
  is_event = false;
}

decode-encode_example :
    (first : Bytes) × (frames : List Frame) × (d' : Decoder) × (encode json_text
        (header_of event 5 true (codes "/chat"))
        (some event_value)
      ≡ ((string_frame, first) ∷ frames, none))
    × (decode_header unquote_text (fault 1) empty_header (frame string_frame first) new_decoder
        ≡ (none, header_of event 5 true (codes "/chat"), some (codes "a"), d'))
    × ((decode_args decode_text (as_incoming frames ++ []) d').0
        ≡ arguments (all_plain one_argument) [])
unfolding event_value data_of is_attachable contents
decode-encode_example =
    decode-encode json_text unquote_text (fault 1) decode_text event_value (codes "a") one_argument
      5 true (codes "/chat") new_decoder [] event_text refl (omega arith) (ground arith)
      (omega arith)

-- A buffer in a map, which is not addressable.
decode-encode_unattachable_example :
    (first : Bytes) × (encode json_text
        (header_of event 0 false [])
        (some (dict (codes "k" ∷ []) (cons (data_of (1 ∷ [])) nil)))
      ≡ ((string_frame, first) ∷ [], some failed_buffer_address))
    × ((decode_header unquote_text (fault 1) empty_header (frame string_frame first) new_decoder).0
        ≡ some eof)
unfolding data_of is_attachable
decode-encode_unattachable_example =
    decode-encode_unattachable json_text unquote_text (fault 1) (header_of event 0 false [])
      (dict (codes "k" ∷ []) (cons (data_of (1 ∷ [])) nil)) new_decoder refl
