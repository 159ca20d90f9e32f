-- ===== src/Parser/Frames.antt =====
-- Packets in the frames of a session: `Encode` of parser/encoder.go, and `DecodeHeader`, `DecodeArgs` and
-- `DiscardLast` of parser/decoder.go. A writer accepts what it is given; a reader answers as `Incoming` says.
-- JSON is encoding/json's: `json` is the text of a value, `unquote` what `json.Unmarshal` makes of a string,
-- and `decode` what a `json.Decoder` makes of the arguments of the types that are asked for.
pub mod RoundTrip
pub mod Acks
pub mod Counts
use go_socket_io.Prelude.{
  ℕ, zero, suc, ◌+◌, ◌-◌, Bool, true, false, not, ◌||◌, Option, none, some, List, [], ◌∷◌, ◌++◌,
  Bytes, ◌==◌, if◌then◌else◌, map, length,
}
use go_socket_io.Packet.{FrameType, string_frame, binary_frame}
use go_socket_io.Reader.{
  Err, eof, invalid_first_packet_type, invalid_binary_buffer_type, failed_buffer_address, Source,
  from_bytes, Read, ok, err, read_byte, unread,
}
use go_socket_io.Parser.Header.{
  Header, event, ack, binary_event, binary_ack, write_header, read_header,
}
use go_socket_io.Parser.Values.{
  Value, Values, slice, interface, nil, cons, Detached, panic, failed, restored, attach, detach_all,
}

abbrev pub Frame : Type 0
Frame = FrameType × Bytes

-- `args` of `writePacket`, without arguments or with one.
abbrev pub as_slice : Option Value → Value
as_slice none = slice nil
as_slice (some v) = slice (cons (interface v) nil)

abbrev pub first_of : Value → Option Value
first_of (slice (cons (interface v) vs)) = some v
first_of _ = none

abbrev pub json_of : (Value → Bytes) → Option Value → Bytes
json_of json none = []
json_of json (some v) = json v

abbrev pub is_some : {A : Type 0} → Option A → Bool
is_some none = false
is_some (some a) = true

-- `writePacket`, and the frames behind its own. Where `attachBuffer` fails, its frame has been opened, and is
-- closed empty.
unfoldable pub packet_frames :
    (Value → Bytes) → Header → Bool → Option (Value × List Bytes × ℕ) → List Frame × Option Err
packet_frames json h has_args none = ((string_frame, []) ∷ [], some failed_buffer_address)
packet_frames json h has_args (some (v, buffers, max)) = (
  (string_frame, write_header has_args (length buffers) max h ++ json_of json (first_of v))
      ∷ map (λ b. (binary_frame, b)) buffers,
  none,
)

-- The frames that `Encode` writes.
unfoldable pub encode : (Value → Bytes) → Header → Option Value → List Frame × Option Err
unfolding packet_frames
encode json h args = packet_frames json h (is_some args) (attach false (as_slice args) 0)

-- What `NextReader` of the session answers.
pub data Incoming : Type 0 where
  refused : Err → Incoming
  frame : FrameType → Bytes → Incoming

-- `last_open` tells whether there is a `lastFrame`.
pub record Decoder : Type 0 where
  pub last_open : Bool
  pub packet_reader : Source
  pub buffer_count : ℕ
  pub is_event : Bool

unfoldable pub discard_last : Decoder → Decoder
discard_last d = record d { last_open = false }

-- The loop of `readEvent`: the bytes before a comma, which is read too, or before a bracket, which is not.
unfoldable pub event_loop : Bytes → Err → Bytes → Read Bytes
event_loop [] e buf = err e (from_bytes [] e)
event_loop (b ∷ bs) e buf =
    let more = event_loop bs e (buf ++ (b ∷ [])) in
    if b == b','
    then ok buf (from_bytes bs e)
    else if b == b']'
    then ok buf (from_bytes (b ∷ bs) e)
    else more

module _ (unquote : Bytes → Option Bytes) (bad_json : Err) where
  event_name : Read Bytes → Read (Option Bytes)
  event_name (err e r) = err e r
  event_name (ok buf r) = elim (unquote buf) [
    | none ↦ err bad_json r
    | some name ↦ ok (some name) r
  ]

  event_from : Read ℕ → Read (Option Bytes)
  event_from (err e r) = err e r
  event_from (ok b r) =
      if not (b == b'[') then ok none (unread b r) else event_name (event_loop r.left r.stop [])

  -- `readEvent`: the event, if there is an array.
  unfoldable pub read_event : Source → Read (Option Bytes)
  unfolding event_from event_name
  read_event r = event_from (read_byte r)

  -- The type behind `DecodeHeader`, which does not tell the binary types apart.
  abbrev pub plain_type : ℕ → ℕ
  plain_type typ = if typ == binary_event || typ == binary_ack then typ - 3 else typ

  -- The error, the header, the event if one was read, and the decoder.
  abbrev pub Decoded : Type 0
  Decoded = Option Err × Header × Option Bytes × Decoder

  after_event : Header → Decoder → Read (Option Bytes) → Decoded
  after_event h d (err e r) = (some e, h, none, record d { packet_reader = r })
  after_event h d (ok name r) = (none, h, name, record d { packet_reader = r })

  after_header : Decoder → Header × ℕ × Option Err × Source → Decoded
  after_header d (h, count, some e, r) = (some e, h, none, record d { packet_reader = r })
  after_header d (h, count, none, r) =
      let h' = record h { typ = plain_type h.typ } in
      let d' = record d { packet_reader = r; buffer_count = count; is_event = h'.typ == event } in
      if h'.typ == event then after_event h' d' (read_event r) else (none, h', none, d')

  unfoldable pub decode_header : Header → Incoming → Decoder → Decoded
  unfolding after_header after_event
  decode_header h (refused e) d = (some e, h, none, d)
  decode_header h (frame ft bs) d =
      if not (ft == string_frame)
      then (some invalid_first_packet_type, h, none, d)
      else after_header (record d { last_open = true; packet_reader = from_bytes bs eof })
          (read_header h (from_bytes bs eof))

-- What `json.Decoder` answers.
pub data Json : Type 0 where
  json_eof : Json
  json_error : Err → Json
  values : Values → Json

-- `readBuffer` for each buffer: their data, and the frames that are left; `none` where no frame is there yet.
pub data Buffers : Type 0 where
  waiting : Buffers
  broken : Err → Buffers
  gathered : List Bytes → List Incoming → Buffers

abbrev pub add_buffer : Bytes → Buffers → Buffers
add_buffer b waiting = waiting
add_buffer b (broken e) = broken e
add_buffer b (gathered bs rest) = gathered (b ∷ bs) rest

unfoldable pub read_buffers : ℕ → List Incoming → Buffers
read_buffers zero frames = gathered [] frames
read_buffers (suc n) [] = waiting
read_buffers (suc n) (refused e ∷ frames) = broken e
read_buffers (suc n) (frame ft b ∷ frames) =
    let more = read_buffers n frames in
    if not (ft == binary_frame) then broken invalid_binary_buffer_type else add_buffer b more

pub data Arguments : Type 0 where
  blocked panics : Arguments
  fails : Err → Arguments
  no_arguments : Arguments
  arguments : Values → List Incoming → Arguments

abbrev pub detached : List Incoming → Detached Values → Arguments
detached rest panic = panics
detached rest failed = fails failed_buffer_address
detached rest (restored vs) = arguments vs rest

abbrev pub with_buffers : Values → Buffers → Arguments
with_buffers vs waiting = blocked
with_buffers vs (broken e) = fails e
with_buffers vs (gathered bs rest) = detached rest (detach_all true vs bs)

decoded_args : ℕ → List Incoming → Json → Arguments
decoded_args count frames json_eof = no_arguments
decoded_args count frames (json_error e) = fails e
decoded_args count frames (values vs) = with_buffers vs (read_buffers count frames)

-- The text that `DecodeArgs` decodes: an event's array has lost its bracket to `readEvent`.
abbrev pub args_text : Decoder → Bytes
args_text d = if d.is_event then b'[' ∷ d.packet_reader.left else d.packet_reader.left

-- `DecodeArgs`, where these frames follow.
unfoldable pub decode_args : (Bytes → Json) → List Incoming → Decoder → Arguments × Decoder
unfolding decoded_args
decode_args decode frames d =
    (decoded_args d.buffer_count frames (decode (args_text d)), discard_last d)
