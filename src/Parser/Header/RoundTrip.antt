-- ===== src/Parser/Header/RoundTrip.antt =====
-- The header as a whole: `writePacket` and `readHeader`.
use go_socket_io.Prelude.{
  ℕ, ◌+◌, ◌^◌, ◌<◌, ◌≡◌, refl, inl, inr, Bool, true, false, none, [], ◌∷◌, ◌++◌, Bytes, arith,
  append_assoc, ◌∙◌, ap, sym, ltb, if◌then◌else◌, ◌-◌, ◌%◌, ◌==◌, not, ◌||◌, Bool-cases,
}
use go_socket_io.Reader.{eof, from_bytes, read_byte}
use go_socket_io.Parser.Header.{
  PacketType, binary_event, binary_ack, wire_type, write_uint64, write_count, write_namespace,
  write_id, write_header, read_uint_loop, read_uint64, read_header, no_eof, empty_header,
  at_namespace, at_count, after_number,
}
use go_socket_io.Parser.Header.Numbers.{read_uint64-write_uint64}
use go_socket_io.Parser.Header.Fields.{
  header_of, src, IsArguments, IsId, no_digit, keep_id, IsNamespace, IsEnded, comma_text,
  plain_text, read_namespace,
}

number_of_count :
    (typ max : ℕ) (text : Bytes)
    → max < 2 ^ 64
    → after_number
        (header_of typ 0 false [])
        (read_uint64 (src ((write_uint64 max ++ (b'-' ∷ [])) ++ text)))
      ≡ at_namespace (header_of typ 0 false []) max 0 false (read_byte (src text))
number_of_count typ max text fits = rw (append_assoc (write_uint64 max) (b'-' ∷ []) text) (
    ap (after_number (header_of typ 0 false []))
      (read_uint64-write_uint64 max (b'-' ∷ text) eof fits (inl (omega arith)))
    ∙ unfold after_number read_byte in refl)

-- A slash is no digit, so the number behind the type is none.
number_before_slash :
    (typ b : ℕ) (text : Bytes)
    → b ≡ b'/'
    → after_number (header_of typ 0 false []) (read_uint64 (src (b ∷ text)))
      ≡ at_namespace (header_of typ 0 false []) 0 0 false (read_byte (src (b ∷ text)))
number_before_slash typ b text h =
    rw h (unfold after_number at_count read_uint64 read_uint_loop read_byte in refl)

-- The number behind the type is the id, where there is no count and no namespace.
number-IsId :
    (typ : ℕ) (ack : Bool) (id : ℕ) (json : Bytes)
    → IsId ack id
    → IsArguments json
    → after_number
        (header_of typ 0 false [])
        (read_uint64 (src (write_id (header_of typ id ack []) ++ json)))
      ≡ (header_of typ id ack [], 0, none, src json)
number-IsId typ true id [] hi ha =
    unfold write_id in
    (ap (after_number (header_of typ 0 false [])) (read_uint64-write_uint64 id [] eof hi tt)
      ∙ unfold after_number at_count read_byte no_eof in refl)
number-IsId typ true id (b ∷ bs) hi ha =
    unfold write_id in
    (ap (after_number (header_of typ 0 false []))
        (read_uint64-write_uint64 id (b ∷ bs) eof hi (no_digit (b ∷ bs) ha))
      ∙ rw ha (unfold after_number at_count read_byte in keep_id typ id true b'[' bs refl))
number-IsId typ false id [] hi ha =
    unfold write_id after_number read_uint64 read_uint_loop no_eof in rw hi
number-IsId typ false id (b ∷ bs) hi ha =
    rw (ha, hi)
      (unfold write_id after_number at_count read_uint64 read_uint_loop read_byte in
        keep_id typ 0 false b'[' bs refl)

namespace_head :
    (args : Bool) (typ id : ℕ) (ack : Bool) (b : ℕ) (bs text : Bytes)
    → (rest : Bytes) × (write_namespace args (header_of typ id ack (b ∷ bs)) ++ text ≡ b ∷ rest)
namespace_head args typ id ack b bs text = elim (Bool-cases (not (id == 0) || args)) [
  | inl comma ↦ (bs ++ (b',' ∷ text), comma_text args typ id ack b bs text comma)
  | inr plain ↦ (bs ++ text, plain_text args typ id ack b bs text plain)
]

-- Everything behind the type, where no count is written.
read_uncounted :
    (args : Bool) (typ : ℕ) (ns : Bytes) (ack : Bool) (id : ℕ) (json : Bytes)
    → IsNamespace ns
    → IsId ack id
    → IsArguments json
    → IsEnded args ns ack id json
    → let h = header_of typ id ack ns in
      after_number
        (header_of typ 0 false [])
        (read_uint64 (src (write_namespace args h ++ (write_id h ++ json))))
      ≡ (h, 0, none, src json)
read_uncounted args typ [] ack id json hn hi ha he =
    unfold write_namespace in number-IsId typ ack id json hi ha
read_uncounted args typ (b ∷ bs) ack id json hn hi ha he =
    let text = write_id (header_of typ id ack (b ∷ bs)) ++ json in
    let (rest, e) = namespace_head args typ id ack b bs text in
    let back = read_namespace args typ 0 (b ∷ bs) ack id json hn hi ha he in
    let number = λ (t : Bytes). after_number (header_of typ 0 false []) (read_uint64 (src t)) in
    let peek =
      λ (t : Bytes). at_namespace (header_of typ 0 false []) 0 0 false (read_byte (src t)) in
    ap number e ∙ (number_before_slash typ b rest hn.0 ∙ (ap peek (sym e) ∙ back))

-- The buffer count that a reader finds.
abbrev pub wire_count : ℕ → ℕ → PacketType → ℕ
wire_count buffers max typ =
    let w = wire_type buffers typ in if w == binary_ack || w == binary_event then max else 0

read_type :
    (w : ℕ) (text : Bytes)
    → w < 7
    → read_header empty_header (src (((w + b'0') % 256) ∷ text))
      ≡ after_number (header_of w 0 false []) (read_uint64 (src text))
unfolding read_header read_byte
read_type w text h = rw (back, small)
  where
    back : ((w + b'0') % 256 + 256 - b'0') % 256 ≡ w
    back = omega arith

    small : ltb binary_ack w ≡ false
    small = ground arith

wire_small : (buffers typ : ℕ) → typ < 5 → wire_type buffers typ < 7
wire_small buffers typ h = ground arith

-- Everything behind the type.
read_behind_type :
    (args : Bool) (max w : ℕ) (ns : Bytes) (ack : Bool) (id : ℕ) (json : Bytes)
    → max < 2 ^ 64
    → IsNamespace ns
    → IsId ack id
    → IsArguments json
    → IsEnded args ns ack id json
    → let h = header_of w id ack ns in
      after_number
        (header_of w 0 false [])
        (read_uint64 (src (write_count max w ++ (write_namespace args h ++ (write_id h ++ json)))))
      ≡ (h, (if w == binary_ack || w == binary_event then max else 0), none, src json)
unfolding write_count
read_behind_type args max w ns ack id json hm hn hi ha he =
    elim (Bool-cases (w == binary_ack || w == binary_event)) [
      | inl counted ↦
          rw counted
            (number_of_count w max _ hm ∙ read_namespace args w max ns ack id json hn hi ha he)
      | inr plain ↦ rw plain (read_uncounted args w ns ack id json hn hi ha he)
    ]

-- The type of a header shows in its first byte alone.
same_rest :
    (args : Bool) (typ w id : ℕ) (ack : Bool) (ns json : Bytes)
    → write_namespace args (header_of typ id ack ns) ++ (write_id (header_of typ id ack ns) ++ json)
      ≡ write_namespace args (header_of w id ack ns) ++ (write_id (header_of w id ack ns) ++ json)
unfolding write_namespace write_id
same_rest args typ w id ack ns json = refl

-- A header without a query is read back as it was written, with the type of the wire and the buffer count, and
-- what is behind it stays, if its type is below 5, its buffer count and its id are `uint64`s, the id being 0
-- without an ack, its namespace is empty or starts with a slash and has no comma and no question mark, an array
-- or nothing stands behind it, and, without arguments, nothing does and no id 0 follows a namespace.
pub read_header-write_header :
    (args : Bool) (buffers max typ id : ℕ) (ack : Bool) (ns json : Bytes)
    → typ < 5
    → max < 2 ^ 64
    → IsNamespace ns
    → IsId ack id
    → IsArguments json
    → IsEnded args ns ack id json
    → read_header empty_header
        (from_bytes (write_header args buffers max (header_of typ id ack ns) ++ json) eof)
      ≡ (
        header_of (wire_type buffers typ) id ack ns,
        wire_count buffers max typ,
        none,
        from_bytes json eof,
      )
unfolding write_header
read_header-write_header args buffers max typ id ack ns json ht hm hn hi ha he =
    let w = wire_type buffers typ in
    let h = header_of typ id ack ns in
    rw
      (
        append_assoc (write_count max w) (write_namespace args h ++ write_id h) json,
        append_assoc (write_namespace args h) (write_id h) json,
        same_rest args typ w id ack ns json,
      )
      (read_type w _ (wire_small buffers typ ht)
        ∙ read_behind_type args max w ns ack id json hm hn hi ha he)
