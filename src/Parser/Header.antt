-- ===== src/Parser/Header.antt =====
-- parser/packet.go, and the header of a packet in parser/encoder.go and parser/decoder.go.
pub mod Numbers
pub mod Fields
pub mod RoundTrip
use go_socket_io.Prelude.{
  ℕ, zero, suc, ◌+◌, ◌-◌, ◌*◌, ◌/◌, ◌%◌, ◌^◌, Bool, true, false, not, ◌&&◌, ◌||◌, Option, none,
  some, List, [], ◌∷◌, ◌++◌, Bytes, ltb, leb, ◌==◌, if◌then◌else◌,
}
use go_socket_io.Reader.{
  Err, eof, invalid_packet_type, Source, from_bytes, Read, ok, err, read_byte, unread,
}
use go_socket_io.Digits.{digits_loop}

-- `parser.Type`, a byte.
abbrev pub PacketType : Type 0
PacketType = ℕ

abbrev pub connect : PacketType
connect = 0

abbrev pub disconnect : PacketType
disconnect = 1

abbrev pub event : PacketType
event = 2

abbrev pub ack : PacketType
ack = 3

abbrev pub error : PacketType
error = 4

abbrev pub binary_event : PacketType
binary_event = 5

abbrev pub binary_ack : PacketType
binary_ack = 6

pub record Header : Type 0 where
  pub typ : PacketType
  pub id : ℕ
  pub need_ack : Bool
  pub namespace : Bytes
  pub query : Bytes

-- The zero value, in which a caller has the header read.
abbrev pub empty_header : Header
empty_header = record { typ = 0; id = 0; need_ack = false; namespace = []; query = [] }

-- A `uint64` has at most 20 digits: the first loop below makes at most 19 rounds, the second 20.
abbrev pub rounds : ℕ
rounds = 20

-- `for i/base >= 10 { base *= 10 }`
unfoldable pub base_loop : ℕ → ℕ → ℕ → ℕ
base_loop zero i base = base
base_loop (suc f) i base =
    let more = base_loop f i (base * 10 % 2 ^ 64) in if leb 10 (i / base) then more else base

-- The loop over the digits is the one of engineio/payload/util.go.
unfoldable pub write_uint64 : ℕ → Bytes
write_uint64 i = digits_loop (suc rounds) b'0' i (base_loop rounds i 1)

abbrev pub is_nil : Bytes → Bool
is_nil [] = true
is_nil (b ∷ bs) = false

-- The type that is written: packets with buffers get a type of their own.
abbrev pub wire_type : ℕ → PacketType → PacketType
wire_type buffers typ =
    if ltb 0 buffers && (typ == event || typ == ack) then (typ + 3) % 256 else typ

-- `if h.Type == binaryAck || h.Type == binaryEvent { … }`
unfoldable pub write_count : ℕ → PacketType → Bytes
write_count max typ =
    if typ == binary_ack || typ == binary_event then write_uint64 max ++ (b'-' ∷ []) else []

-- `if h.Namespace != "" { … }`, where `args` says that the arguments are not nil.
unfoldable pub write_namespace : Bool → Header → Bytes
write_namespace args h =
    if is_nil h.namespace
    then []
    else if not (h.id == 0) || args
    then h.namespace ++ (b',' ∷ [])
    else h.namespace

unfoldable pub write_id : Header → Bytes
write_id h = if h.need_ack then write_uint64 h.id else []

-- What `writePacket` writes in front of the JSON text, where `attachBuffer` has found `buffers`
-- buffers and counted to `max`.
unfoldable pub write_header : Bool → ℕ → ℕ → Header → Bytes
write_header args buffers max h =
    let typ = wire_type buffers h.typ in
    ((typ + b'0') % 256) ∷ (write_count max typ ++ (write_namespace args h ++ write_id h))

-- `readUint64FromText`: the number, and whether there was a digit. The byte behind it stays unread.
unfoldable pub read_uint_loop : Bytes → Err → ℕ → Bool → Read (ℕ × Bool)
read_uint_loop [] e ret true = ok (ret, true) (from_bytes [] e)
read_uint_loop [] e ret false = err e (from_bytes [] e)
read_uint_loop (b ∷ bs) e ret has_read =
    let more = read_uint_loop bs e ((ret * 10 + (b - b'0')) % 2 ^ 64) true in
    if leb b'0' b && leb b b'9' then more else ok (ret, has_read) (from_bytes (b ∷ bs) e)

unfoldable pub read_uint64 : Source → Read (ℕ × Bool)
read_uint64 r = read_uint_loop r.left r.stop 0 false

-- `readString`: the bytes up to `until`, which is read too, or up to the end if there are any.
unfoldable pub read_string_loop : Bytes → Err → ℕ → Bytes → Read Bytes
read_string_loop [] e until out =
    if is_nil out then err e (from_bytes [] e) else ok out (from_bytes [] e)
read_string_loop (b ∷ bs) e until out =
    let more = read_string_loop bs e until (out ++ (b ∷ [])) in
    if b == until then ok out (from_bytes bs e) else more

unfoldable pub read_string : ℕ → Source → Read Bytes
read_string until r = read_string_loop r.left r.stop until []

-- `if err == io.EOF { err = nil }`
unfoldable pub no_eof : Err → Option Err
no_eof eof = none
no_eof e = some e

-- The header that the caller has, the buffer count, the error, and the source.
abbrev pub HeaderRead : Type 0
HeaderRead = Header × ℕ × Option Err × Source

-- `strings.IndexByte(ns, '?')`, as the parts before and behind it.
unfoldable pub cut_query : Bytes → Option (Bytes × Bytes)
cut_query [] = none
cut_query (b ∷ bs) =
    if b == b'?'
    then some ([], bs)
    else elim (cut_query bs) [ none ↦ none | some (path, query) ↦ some (b ∷ path, query) ]

-- `header.Namespace = ns`, and the cut at the query, if there is one.
unfoldable pub set_namespace : Bytes → Header → Header
set_namespace ns h = elim (cut_query ns) [
  | none ↦ record h { namespace = ns }
  | some (path, query) ↦ record h { namespace = path; query = query }
]

-- `header.ID, header.NeedAck, err = …`; without an id here, the number read first is the id.
unfoldable pub after_id : Header → ℕ → ℕ → Bool → Read (ℕ × Bool) → HeaderRead
after_id h count num has (err e r) = (record h { id = 0; need_ack = false }, count, no_eof e, r)
after_id h count num has (ok (id, true) r) = (record h { id = id; need_ack = true }, count, none, r)
after_id h count num has (ok (id, false) r) =
    (record h { id = num; need_ack = has }, count, none, r)

unfoldable pub after_namespace : Header → ℕ → ℕ → Bool → Read Bytes → HeaderRead
unfolding after_id
after_namespace h count num has (err e r) = (record h { namespace = [] }, count, no_eof e, r)
after_namespace h count num has (ok ns r) =
    after_id (set_namespace ns h) count num has (read_uint64 r)

-- The byte that tells whether a namespace follows.
unfoldable pub at_namespace : Header → ℕ → ℕ → Bool → Read ℕ → HeaderRead
unfolding after_namespace
at_namespace h count num has (err e r) = (h, count, no_eof e, r)
at_namespace h count num has (ok b r) =
    if b == b'/'
    then after_namespace h count num has (read_string b',' (unread b r))
    else after_id h count num has (read_uint64 (unread b r))

-- The byte that tells whether the number is a buffer count.
unfoldable pub at_count : Header → ℕ → Bool → Read ℕ → HeaderRead
unfolding at_namespace
at_count h num has (err e r) = (record h { id = num; need_ack = has }, 0, no_eof e, r)
at_count h num has (ok b r) =
    if b == b'-'
    then at_namespace h num 0 false (read_byte r)
    else at_namespace h 0 num has (read_byte (unread b r))

unfoldable pub after_number : Header → Read (ℕ × Bool) → HeaderRead
unfolding at_count
after_number h (err e r) = (h, 0, no_eof e, r)
after_number h (ok (num, has) r) = at_count h num has (read_byte r)

unfoldable pub after_type : Header → Read ℕ → HeaderRead
unfolding after_number
after_type h (err e r) = (h, 0, some e, r)
after_type h (ok b r) =
    let typ = (b + 256 - b'0') % 256 in
    let h' = record h { typ = typ } in
    if ltb binary_ack typ
    then (h', 0, some invalid_packet_type, r)
    else after_number h' (read_uint64 r)

unfoldable pub read_header : Header → Source → HeaderRead
unfolding after_type
read_header h r = after_type h (read_byte r)
