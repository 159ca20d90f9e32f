-- ===== src/Payload/Decoder.antt =====
-- engineio/payload/decoder.go: packets are read off a byte source, one after the other.
pub mod Text
use go_socket_io.Prelude.{
  ℕ, ◌+◌, ◌-◌, ◌%◌, ◌^◌, ◌||◌, Bool, true, false, not, ◌&&◌, Option, none, some, List, [], ◌∷◌,
  ◌++◌, Bytes, ltb, leb, ◌==◌, if◌then◌else◌, length, take, drop,
}
use Prim.Native.Nat.{min}
use go_socket_io.Packet.{
  FrameType, PacketType, string_frame, binary_frame, byte_to_frame_type, byte_to_packet_type,
}
use go_socket_io.Payload.Lengths.{not_positive}
use go_socket_io.Reader.{
  Err, eof, invalid_payload, Source, from_bytes, Read, ok, err, ◌>>=◌, return, read_byte,
}
use go_socket_io.Payload.Lengths.Reader.{read_text_len, read_binary_len}
use go_socket_io.Payload.Base64
use go_socket_io.Payload.Base64.{Base64}
use go_socket_io.Payload.Units.{unicode_count}

-- `l--` on an `int64`.
abbrev pub decrement : ℕ → ℕ
decrement l = (l + 2 ^ 64 - 1) % 2 ^ 64

-- The three results of `textRead` and of `binaryRead`.
pub record Start : Type 0 where
  pub ft : FrameType
  pub pt : PacketType
  pub limit : ℕ

abbrev pub start_of : FrameType → PacketType → ℕ → Start
start_of ft pt l = record { ft = ft; pt = pt; limit = l }

-- `b == 'b'` marks a base64 frame; its packet type is one byte further.
unfoldable pub after_mark : ℕ → ℕ → Source → Read Start
after_mark l b =
    if b == b'b'
    then (do
      b' ← read_byte
      return (start_of binary_frame (byte_to_packet_type b' string_frame) (decrement l)))
    else return (start_of string_frame (byte_to_packet_type b string_frame) l)

unfoldable pub text_read : Source → Read Start
unfolding after_mark
text_read = do l ← read_text_len; b ← read_byte; after_mark (decrement l) b

unfoldable pub binary_rest : FrameType → Source → Read Start
binary_rest ft = do
  l ← read_binary_len
  b ← read_byte
  return (start_of ft (byte_to_packet_type b ft) (decrement l))

unfoldable pub fail : Err → Source → Read Start
fail e r = err e r

unfoldable pub binary_read : Source → Read Start
unfolding binary_rest fail
binary_read = do
  b ← read_byte
  if ltb 1 b then fail invalid_payload else binary_rest (byte_to_frame_type b)

-- `limitReader.R` is `rawReader` whenever a packet is read, so both are `raw`; `limit` is
-- `limitReader.N`, and `base64` says that `b64Reader` is set.
pub record Decoder : Type 0 where
  pub raw : Option Source
  pub limit : ℕ
  pub base64 : Bool
  pub ft : FrameType
  pub pt : PacketType
  pub support_binary : Bool

unfoldable pub is_set : Option Source → Bool
is_set none = false
is_set (some r) = true

-- `setNextReader` answers its error, if there is one. On an error the decoder's fields stay, but a
-- source that is `d.rawReader` already, as it is when `Close` calls this, has been read from.
unfoldable pub started : Decoder → Bool → Read Start → Option Err × Decoder
unfolding is_set
started d support_binary (ok s r) = (
  none,
  record {
    raw = some r;
    limit = s.limit;
    base64 = not support_binary && s.ft == binary_frame;
    ft = s.ft;
    pt = s.pt;
    support_binary = support_binary;
  },
)
started d support_binary (err e r) = (some e, if is_set d.raw then record d { raw = some r } else d)

unfoldable pub set_next_reader : Decoder → Source → Bool → Option Err × Decoder
unfolding started
set_next_reader d r support_binary =
    started d support_binary (if support_binary then binary_read r else text_read r)

-- The feeder: what `getReader` answers, and `putReader`.
pub data Fed : Type 0 where
  fed : Source → Bool → Fed
  refused : Err → Fed

unfoldable pub send_error : (Option Err → Option Err) → Option Err → Option Err
send_error put e = elim (put e) [ some e' ↦ some e' | none ↦ e ]

unfoldable pub report : (Option Err → Option Err) → Option Err × Decoder → Option Err × Decoder
unfolding send_error
report put (none, d) = (none, d)
report put (some e, d) = (send_error put (some e), d)

unfoldable pub next_reader_of :
    Option Source → Fed → (Option Err → Option Err) → Decoder → Option Err × Decoder
unfolding report
next_reader_of (some r) get put d = (none, d)
next_reader_of none (refused e) put d = (some e, d)
next_reader_of none (fed r support_binary) put d = report put (set_next_reader d r support_binary)

-- `NextReader`; without an error it answers `d.ft`, `d.pt` and the decoder as the reader.
unfoldable pub next_reader : Fed → (Option Err → Option Err) → Decoder → Option Err × Decoder
unfolding next_reader_of
next_reader get put d = next_reader_of d.raw get put d

-- A call answers, dereferences the nil `rawReader`, or has not answered after the reads it was given.
pub data Outcome {ℓ} (A : Type ℓ) : Type ℓ where
  done : A → Outcome A
  panic : Outcome A
  unfinished : Outcome A

-- `Read` of at most `k` bytes, without base64: the bytes, the error and the decoder.
unfoldable pub read_from : ℕ → Source → Decoder → Bytes × Option Err × Decoder
read_from k r d = elim r.left [
  | [] ↦ ([], some r.stop, d)
  | b ∷ bs ↦
      let p = take (min k d.limit) (b ∷ bs) in
      (
        p,
        none,
        record d {
          raw = some (from_bytes (drop (min k d.limit) (b ∷ bs)) r.stop);
          limit = (d.limit - length p + unicode_count p) % 2 ^ 64;
        },
      )
]

unfoldable pub read_raw : ℕ → Decoder → Outcome (Bytes × Option Err × Decoder)
unfolding read_from
read_raw k d =
    if not_positive d.limit
    then done ([], some eof, d)
    else elim d.raw [ none ↦ panic | some r ↦ done (read_from k r d) ]

unfoldable pub is_eof : Err → Bool
is_eof eof = true
is_eof _ = false

unfoldable pub unless_eof : Err → Option Err
unless_eof eof = none
unless_eof e = some e

-- One round of a reading loop; `more` is the rest of it, and `out` what has been read.
unfoldable pub drain_step :
    (Decoder → Bytes → Outcome (Bytes × Option Err × Decoder))
    → Bytes
    → Outcome (Bytes × Option Err × Decoder)
    → Outcome (Bytes × Option Err × Decoder)
unfolding unless_eof
drain_step more out panic = panic
drain_step more out unfinished = unfinished
drain_step more out (done (p, none, d)) = more d (out ++ p)
drain_step more out (done (p, some e, d)) = done (out ++ p, unless_eof e, d)

-- Reading on until an error, as `io.Copy` and `ioutil.ReadAll` do, by reads of the given sizes. `eof`
-- is how reading ends, and no error of theirs.
unfoldable pub drain_raw : List ℕ → Decoder → Bytes → Outcome (Bytes × Option Err × Decoder)
unfolding drain_step
drain_raw [] d out = unfinished
drain_raw (k ∷ ks) d out = drain_step (drain_raw ks) out (read_raw k d)

-- The same through `b64Reader`, whose reads of the limited source are the library's: it delivers what
-- the bytes up to the limit decode to.
unfoldable pub decoded : Base64 → Bytes → Decoder → Outcome (Bytes × Option Err × Decoder)
decoded c input d = elim (c.decode input) [
  | some out ↦ done (out, none, d)
  | none ↦ done ([], some c.corrupt, d)
]

unfoldable pub drain_base64_of :
    Base64 → ℕ → Source → Decoder → Outcome (Bytes × Option Err × Decoder)
unfolding decoded
drain_base64_of c n r d =
    let input = take n r.left in
    let d' = record d {
      raw = some (from_bytes (drop n r.left) r.stop);
      limit = n - length input;
    } in
    if ltb (length input) n && not (is_eof r.stop)
    then done ([], some r.stop, d')
    else decoded c input d'

unfoldable pub drain_base64 : Base64 → Decoder → Outcome (Bytes × Option Err × Decoder)
unfolding drain_base64_of is_eof
drain_base64 c d =
    if not_positive d.limit
    then decoded c [] d
    else elim d.raw [ none ↦ panic | some r ↦ drain_base64_of c d.limit r d ]

-- `ioutil.ReadAll(d)`: the data, the error and the decoder.
unfoldable pub read_all : Base64 → List ℕ → Decoder → Outcome (Bytes × Option Err × Decoder)
read_all c sizes d = if d.base64 then drain_base64 c d else drain_raw sizes d []

-- What `Close` does when the next header cannot be read.
unfoldable pub closed :
    (Option Err → Option Err) → Option Err × Decoder → Outcome (Option Err × Decoder)
unfolding send_error is_eof
closed put (none, d) = done (none, d)
closed put (some e, d) =
    if is_eof e
    then done (send_error put none, record d { raw = none; limit = 0; base64 = false })
    else done (send_error put (some e), d)

unfoldable pub close_after :
    (Option Err → Option Err)
    → Outcome (Bytes × Option Err × Decoder)
    → Outcome (Option Err × Decoder)
unfolding closed
close_after put panic = panic
close_after put unfinished = unfinished
close_after put (done (out, some e, d)) = done (send_error put (some e), d)
close_after put (done (out, none, d)) = elim d.raw [
  | none ↦ panic
  | some r ↦ closed put (set_next_reader d r d.support_binary)
]

-- `Close` discards what is left of the packet and reads the header of the next.
unfoldable pub close :
    Base64 → List ℕ → (Option Err → Option Err) → Decoder → Outcome (Option Err × Decoder)
unfolding close_after
close c sizes put d = close_after put (read_all c sizes d)
