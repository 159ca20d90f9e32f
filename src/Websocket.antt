-- ===== src/Websocket.antt =====
-- engineio/transport/websocket/wrapper.go and the one-byte header of engineio/packet/encoder.go and decoder.go:
-- goroutines that write packets on one websocket connection. The websocket package sends what is written between
-- its `NextWriter` and the writer's `Close` as one message of the writer's type. The reader's side is
-- `decode_frame`. The connection itself takes every byte.
pub mod Owned
pub mod Steps
pub mod Whole
pub mod Readers
use go_socket_io.Prelude.{
  ℕ, ◌+◌, Bool, true, false, not, ◌||◌, Option, none, some, List, [], ◌∷◌, ◌++◌, Bytes,
  if◌then◌else◌, ◌==◌, ℕ-Eq, map,
}
use go_socket_io.Packet.{
  FrameType, PacketType, string_frame, binary_frame, string_byte, binary_byte, byte_to_packet_type,
}
use go_socket_io.Payload.Stream.{Packet}

abbrev pub Frame : Type 0
Frame = FrameType × Bytes

-- `locked` is `writeLocker`, `held` are the goroutines with a writer that is not closed, and `active` is the one whose
-- writer the package takes bytes from, for the message `current`.
pub record Socket : Type 0 where
  pub locked : Bool
  pub held : List ℕ
  pub active : Option ℕ
  pub current : Frame
  pub wire : List Frame

abbrev pub new_socket : Socket
new_socket = record { locked = false; held = []; active = none; current = (0, []); wire = [] }

abbrev pub is_owned : Option ℕ → Bool
is_owned none = false
is_owned (some o) = true

abbrev pub owned_by : ℕ → Option ℕ → Bool
owned_by o none = false
owned_by o (some p) = o == p

abbrev pub holds : ℕ → List ℕ → Bool
holds o [] = false
holds o (p ∷ ps) = let later = holds o ps in if o == p then true else later

abbrev pub without : ℕ → List ℕ → List ℕ
without o [] = []
without o (p ∷ ps) = let later = without o ps in if o == p then ps else p ∷ later

-- The byte that `Encoder.NextWriter` writes first.
unfoldable pub type_byte : FrameType → PacketType → ℕ
type_byte ft pt = if ft == string_frame then string_byte pt else binary_byte pt

abbrev pub is_frame : FrameType → Bool
is_frame ft = ft == string_frame || ft == binary_frame

-- `NextWriter` of the package closes the writer before, where it is still open, and so ends its message.
abbrev pub flushed : Socket → List Frame
flushed s = if is_owned s.active then s.wire ++ (s.current ∷ []) else s.wire

-- `wrapper.NextWriter` behind `Encoder.NextWriter`: an error for another frame type, and `none` where the
-- goroutine waits for the lock.
unfoldable pub next_writer : ℕ → FrameType → PacketType → Socket → Option Socket
next_writer o ft pt s =
    if not (is_frame ft)
    then some s
    else if s.locked
    then none
    else some (record s {
      locked = true;
      held = o ∷ s.held;
      active = some o;
      current = (ft, type_byte ft pt ∷ []);
      wire = flushed s;
    })

-- `Write` of a goroutine's writer, `none` where it has none: an error of the package if the writer is not active.
unfoldable pub write : ℕ → Bytes → Socket → Option Socket
write o bs s =
    if not (holds o s.held)
    then none
    else if owned_by o s.active
    then some (record s { current = (s.current.0, s.current.1 ++ bs) })
    else some s

-- `Close` of a goroutine's writer, `none` where it has none: the lock is released, also on an error of the package.
unfoldable pub close : ℕ → Socket → Option Socket
close o s =
    if not (holds o s.held)
    then none
    else if owned_by o s.active
    then some (record s {
      locked = false;
      held = without o s.held;
      active = none;
      wire = s.wire ++ (s.current ∷ []);
    })
    else some (record s { locked = false; held = without o s.held })

-- `SetWriteDeadline`, which takes the same lock.
unfoldable pub set_write_deadline : Socket → Option Socket
set_write_deadline s = if s.locked then none else some s

pub data Event : Type 0 where
  opened : ℕ → FrameType → PacketType → Event
  wrote : ℕ → Bytes → Event
  closed : ℕ → Event
  deadline_set : Event

unfoldable pub step : Event → Socket → Option Socket
step (opened o ft pt) s = next_writer o ft pt s
step (wrote o bs) s = write o bs s
step (closed o) s = close o s
step deadline_set s = set_write_deadline s

unfoldable pub run : List Event → Socket → Option Socket
run [] s = some s
run (e ∷ es) s = elim (step e s) [ none ↦ none | some s' ↦ run es s' ]

-- `Decoder.NextReader`, and what is left to read; `none` where there is no first byte.
unfoldable pub decode_frame : Frame → Option Packet
decode_frame (ft, []) = none
decode_frame (ft, b ∷ bs) = some (record { ft = ft; pt = byte_to_packet_type b ft; content = bs })
