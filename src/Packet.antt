-- ===== src/Packet.antt =====
-- engineio/frame/frame.go and engineio/packet/packet.go: the one-byte codes of frame types and
-- packet types. A Go `byte` is a number below 256, and its arithmetic wraps.
use go_socket_io.Prelude.{ℕ, ◌+◌, ◌-◌, ◌%◌, ◌<◌, ◌≡◌, ◌==◌, if◌then◌else◌, arith}

-- `frame.Type` and `packet.Type` are integers with named constants.
abbrev pub FrameType : Type 0
FrameType = ℕ

abbrev pub PacketType : Type 0
PacketType = ℕ

abbrev pub string_frame : FrameType
string_frame = 0

abbrev pub binary_frame : FrameType
binary_frame = 1

abbrev pub open_packet : PacketType
open_packet = 0

abbrev pub close_packet : PacketType
close_packet = 1

abbrev pub ping : PacketType
ping = 2

abbrev pub pong : PacketType
pong = 3

abbrev pub message : PacketType
message = 4

abbrev pub upgrade : PacketType
upgrade = 5

abbrev pub noop : PacketType
noop = 6

-- `frame.ByteToFrameType` and `frame.Type.Byte` convert between types of one width.
abbrev pub byte_to_frame_type : ℕ → FrameType
byte_to_frame_type b = b

abbrev pub frame_byte : FrameType → ℕ
frame_byte t = t % 256

-- `byte(id) + '0'`
unfoldable pub string_byte : PacketType → ℕ
string_byte id = (id % 256 + b'0') % 256

unfoldable pub binary_byte : PacketType → ℕ
binary_byte id = id % 256

-- `b -= '0'` wraps below '0'.
unfoldable pub byte_to_packet_type : ℕ → FrameType → PacketType
byte_to_packet_type b typ = if typ == string_frame then (b + 256 - b'0') % 256 else b

pub byte_to_packet_type-string_byte :
    (id : PacketType) → id < 256 → byte_to_packet_type (string_byte id) string_frame ≡ id
unfolding byte_to_packet_type string_byte
byte_to_packet_type-string_byte id h = omega arith

pub byte_to_packet_type-binary_byte :
    (id : PacketType) → id < 256 → byte_to_packet_type (binary_byte id) binary_frame ≡ id
unfolding byte_to_packet_type binary_byte
byte_to_packet_type-binary_byte id h = omega arith
