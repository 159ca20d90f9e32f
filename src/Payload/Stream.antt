-- ===== src/Payload/Stream.antt =====
-- A payload: packets one behind the other, as encoder.go writes them for one `FlushOut` after the
-- other and decoder.go reads them from one `FeedIn`; engineio/packet/types.go has the packet.
pub mod Header
pub mod Content
pub mod Binary
pub mod RoundTrip
use go_socket_io.Prelude.{
  ℕ, zero, suc, ◌+◌, ◌^◌, ◌<◌, ◌≡◌, ◌⊎◌, Bool, true, false, not, ◌&&◌, Option, none, some, List, [],
  ◌∷◌, ◌++◌, Bytes, All, ◌==◌, if◌then◌else◌, length,
}
use go_socket_io.Packet.{FrameType, PacketType, string_frame, binary_frame}
use go_socket_io.Reader.{Err, eof, Source, from_bytes}
use go_socket_io.Payload.Base64
use go_socket_io.Payload.Base64.{Base64}
use go_socket_io.Payload.Units.{IsText, unit_sum}
use go_socket_io.Payload.Encoder
use go_socket_io.Payload.Encoder.{Encoder}
use go_socket_io.Payload.Decoder
use go_socket_io.Payload.Decoder.{Decoder, Outcome, done, panic, unfinished, Fed, fed}

-- `packet.Packet`
pub record Packet : Type 0 where
  pub ft : FrameType
  pub pt : PacketType
  pub content : Bytes

abbrev pub fresh_encoder : Bool → Encoder
fresh_encoder support_binary = record {
  support_binary = support_binary;
  ft = string_frame;
  pt = 0;
  base64 = false;
  written = [];
}

-- The zero `decoder`.
abbrev pub fresh_decoder : Decoder
fresh_decoder = record {
  raw = none;
  limit = 0;
  base64 = false;
  ft = string_frame;
  pt = 0;
  support_binary = false;
}

abbrev pub accept : Option Err → Option Err
accept e = none

infixl 5 ◌>>=◌
abbrev pub ◌>>=◌ {ℓ κ} : {A : Type ℓ} {B : Type κ} → Outcome A → (A → Outcome B) → Outcome B
done a >>= f = f a
panic >>= f = panic
unfinished >>= f = unfinished

-- The packets, the first error, and the decoder behind them.
abbrev pub Received : Type 0
Received = List Packet × Option Err × Decoder

unfoldable pub with_packet : Packet → Received → Outcome Received
with_packet p (ps, e, d) = done (p ∷ ps, e, d)

-- An error ends the reading.
unfoldable pub go_on :
    (Decoder → Outcome Received) → Packet → Option Err → Decoder → Outcome Received
unfolding with_packet
go_on more p none d = more d >>= with_packet p
go_on more p (some e) d = done ([], some e, d)

-- The end of the source, or a packet and what follows it.
unfoldable pub receive_from :
    (Decoder → Outcome Received)
    → Decoder
    → Option Source
    → Outcome (Packet × Option Err × Decoder)
    → Outcome Received
unfolding go_on
receive_from more d none one = done ([], none, d)
receive_from more d (some r) one = do (p, e, d') ← one; go_on more p e d'

-- What `NextReader` has answered.
unfoldable pub when_ready : (Decoder → Outcome Received) → Option Err × Decoder → Outcome Received
when_ready more (none, d) = more d
when_ready more (some x, d) = done ([], some x, d)

module _ (c : Base64) where
  -- `NextWriter`, `Write` and `Close`, where the feeder and the writer accept everything.
  unfoldable pub send : Bool → Packet → Bytes
  send support_binary p =
      let (refusal, e) = Encoder.next_writer none p.ft p.pt (fresh_encoder support_binary) in
      (Encoder.close c none none accept (Encoder.write p.content e)).0

  unfoldable pub send_all : Bool → List Packet → Bytes
  send_all support_binary [] = []
  send_all support_binary (p ∷ ps) = send support_binary p ++ send_all support_binary ps

  -- `NextReader`'s packet, read to its end and closed.
  unfoldable pub receive_one : List ℕ → Decoder → Outcome (Packet × Option Err × Decoder)
  receive_one sizes d = do
    (content, e, d') ← Decoder.read_all c sizes d
    (e', d'') ← Decoder.close c sizes accept d'
    done (record { ft = d.ft; pt = d.pt; content = content }, Encoder.or_else e e', d'')

  -- A client that reads packets until `Close` has given the source back. `fuel` bounds the packets, and
  -- `sizes` are the sizes of its reads.
  unfoldable pub receive_all : ℕ → List ℕ → Decoder → Outcome Received
  unfolding receive_from
  receive_all zero sizes d = unfinished
  receive_all (suc fuel) sizes d =
      receive_from (receive_all fuel sizes) d d.raw (receive_one sizes d)

  -- `FeedIn` of a source, and the reading of all its packets.
  unfoldable pub receive : ℕ → List ℕ → Bool → Source → Outcome Received
  unfolding when_ready
  receive fuel sizes support_binary r =
      when_ready (receive_all fuel sizes)
        (Decoder.next_reader (fed r support_binary) accept fresh_decoder)

  -- What the theorems ask of a packet: the packet types are 0 to 6, the content fits an `int64`, and it
  -- is text wherever code units are counted, which is everywhere but in a base64 frame.
  abbrev pub IsSendable : Bool → Packet → Type 0
  IsSendable support_binary p =
      (p.pt < 7)
      × ((p.ft ≡ string_frame) × IsText 0 p.content × (length p.content < 2 ^ 62)
          ⊎ (if support_binary
              then (p.ft ≡ binary_frame) × IsText 0 p.content × (length p.content < 2 ^ 62)
              else (p.ft ≡ binary_frame)
                × All (λ b. b < 256) p.content
                × (length (c.encode p.content) < 2 ^ 62)))

  -- The decoder at the start of a packet, with `rest` behind the packet.
  unfoldable pub at_packet : Bool → Packet → Bytes → Err → Decoder
  at_packet support_binary p rest e =
      if not support_binary && p.ft == binary_frame
      then record {
        raw = some (from_bytes (c.encode p.content ++ rest) e);
        limit = length (c.encode p.content);
        base64 = true;
        ft = p.ft;
        pt = p.pt;
        support_binary = support_binary;
      }
      else record {
        raw = some (from_bytes (p.content ++ rest) e);
        limit = unit_sum p.content;
        base64 = false;
        ft = p.ft;
        pt = p.pt;
        support_binary = support_binary;
      }
