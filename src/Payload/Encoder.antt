-- ===== src/Payload/Encoder.antt =====
-- engineio/payload/encoder.go: a packet is collected, and written behind its header on `Close`.
use go_socket_io.Prelude.{
  ℕ, ◌+◌, Bool, not, ◌&&◌, Option, none, some, [], ◌∷◌, ◌++◌, Bytes, ◌==◌, if◌then◌else◌,
}
use go_socket_io.Packet.{FrameType, PacketType, binary_frame, frame_byte, string_byte, binary_byte}
use go_socket_io.Payload.Lengths.{write_text_len, write_binary_len}
use go_socket_io.Reader.{Err}
use go_socket_io.Payload.Base64.{Base64}
use go_socket_io.Payload.Units.{unit_sum}

-- `written` is what `Write` was given since `NextWriter`; it goes into `frameCache`, as it is or
-- through `b64Writer`, which `base64` says is set.
pub record Encoder : Type 0 where
  pub support_binary : Bool
  pub ft : FrameType
  pub pt : PacketType
  pub base64 : Bool
  pub written : Bytes

unfoldable pub noop_bytes : Encoder → Bytes
noop_bytes e = if e.support_binary then 0x00 ∷ 0x01 ∷ 0xff ∷ b'6' ∷ [] else b'1' ∷ b':' ∷ b'6' ∷ []

-- `NextWriter`, where `getWriter` answers the given error or a writer.
unfoldable pub next_writer : Option Err → FrameType → PacketType → Encoder → Option Err × Encoder
next_writer refusal ft pt e = elim refusal [
  | some x ↦ (some x, e)
  | none ↦ (
    none,
    record e {
      ft = ft;
      pt = pt;
      base64 = not e.support_binary && ft == binary_frame;
      written = [];
    },
  )
]

unfoldable pub write : Bytes → Encoder → Encoder
write p e = record e { written = e.written ++ p }

-- `frameCache` when `b64Writer` has been closed.
unfoldable pub frame_cache : Base64 → Encoder → Bytes
frame_cache c e = if e.base64 then c.encode e.written else e.written

unfoldable pub calc_code_unit_length : Bytes → ℕ
calc_code_unit_length bs = 1 + unit_sum bs

write_text_header : Encoder → Bytes → Bytes
write_text_header e cache = write_text_len (calc_code_unit_length cache) ++ (string_byte e.pt ∷ [])

write_b64_header : Base64 → Encoder → Bytes → Bytes
write_b64_header c e cache =
    write_text_len (c.rune_count cache + 2) ++ (b'b' ∷ string_byte e.pt ∷ [])

write_binary_header : Encoder → Bytes → Bytes
write_binary_header e cache =
    let b = if e.ft == binary_frame then binary_byte e.pt else string_byte e.pt in
    frame_byte e.ft ∷ (write_binary_len (calc_code_unit_length cache) ++ (b ∷ []))

-- The header that `Close` chooses.
unfoldable pub header : Base64 → Encoder → Bytes → Bytes
unfolding write_text_header write_b64_header write_binary_header
header c e cache =
    if e.support_binary
    then write_binary_header e cache
    else if e.ft == binary_frame
    then write_b64_header c e cache
    else write_text_header e cache

-- `if err == nil { err = … }`
abbrev pub or_else : Option Err → Option Err → Option Err
or_else none later = later
or_else (some x) later = some x

abbrev pub sent_if : Option Err → Bytes → Bytes
sent_if none bs = bs
sent_if (some x) bs = []

-- `Close`, where the writer answers the given errors to the header and to the frame: what reached the
-- writer, and the answer.
unfoldable pub close :
    Base64
    → (header_error frame_error : Option Err) → (Option Err → Option Err)
    → Encoder
    → Bytes × Option Err
close c header_error frame_error put e =
    let cache = frame_cache c e in
    let error = or_else header_error frame_error in
    (
      sent_if header_error (header c e cache ++ sent_if frame_error cache),
      or_else (put error) error,
    )
