-- ===== src/Parser/Header/Fields.antt =====
-- The fields of a header: parser/encoder.go and parser/decoder.go.
use go_socket_io.Prelude.{
  ℕ, ◌^◌, ◌<◌, ◌≡◌, ◌≢◌, refl, ◌⊎◌, inl, inr, Bool, true, false, none, [], ◌∷◌, ◌++◌, Bytes, arith,
  append_assoc, append-nil, ◌∙◌, ap, Lacks, ◌==◌, not, ◌||◌, Bool-cases,
}
use go_socket_io.Reader.{eof, Source, ok, from_bytes, read_byte}
use go_socket_io.Parser.Header.{
  Header, PacketType, write_uint64, write_namespace, write_id, read_uint_loop, read_uint64, no_eof,
  after_id, after_namespace, at_namespace,
}
use go_socket_io.Parser.Header.Numbers.{
  NoDigit, read_uint64-write_uint64, write_uint64_head, read_string_comma, read_string_end,
  set_namespace_plain,
}

abbrev pub header_of : PacketType → ℕ → Bool → Bytes → Header
header_of typ id need_ack ns = record {
  typ = typ;
  id = id;
  need_ack = need_ack;
  namespace = ns;
  query = [];
}

abbrev pub src : Bytes → Source
src bs = from_bytes bs eof

-- The JSON text behind a header: nothing, or an array.
abbrev pub IsArguments : Bytes → Type 0
IsArguments [] = Unit
IsArguments (b ∷ bs) = b ≡ b'['

-- Without an id to be acknowledged, the id is zero.
abbrev pub IsId : Bool → ℕ → Type 0
IsId true id = id < 2 ^ 64
IsId false id = id ≡ 0

pub no_digit : (json : Bytes) → IsArguments json → NoDigit json
no_digit [] h = tt
no_digit (b ∷ bs) h = ground arith

-- The id behind a namespace or a buffer count.
pub read_id :
    (typ c : ℕ) (ns : Bytes) (ack : Bool) (id : ℕ) (json : Bytes)
    → IsId ack id
    → IsArguments json
    → after_id
        (header_of typ 0 false ns)
        c
        0
        false
        (read_uint64 (src (write_id (header_of typ id ack ns) ++ json)))
      ≡ (header_of typ id ack ns, c, none, src json)
unfolding write_id
read_id typ c ns true id json h a =
    ap (after_id (header_of typ 0 false ns) c 0 false)
      (read_uint64-write_uint64 id json eof h (no_digit json a))
    ∙ unfold after_id in refl
read_id typ c ns false id [] h a = unfold after_id read_uint64 read_uint_loop no_eof in rw h
read_id typ c ns false id (b ∷ bs) h a = unfold after_id read_uint64 read_uint_loop in rw (h, a)

-- The number that was read first is the id when no other id follows.
pub keep_id :
    (typ id : ℕ) (ack : Bool) (b : ℕ) (bs : Bytes)
    → b ≡ b'['
    → at_namespace (header_of typ 0 false []) 0 id ack (ok b (src bs))
      ≡ (header_of typ id ack [], 0, none, src (b ∷ bs))
unfolding at_namespace read_uint64 read_uint_loop
keep_id typ id ack b bs h = rw h

-- A namespace is empty, or it begins with a slash and holds no comma and no question mark.
abbrev pub IsNamespace : Bytes → Type 0
IsNamespace [] = Unit
IsNamespace (b ∷ bs) = (b ≡ b'/') × Lacks b',' (b ∷ bs) × Lacks b'?' (b ∷ bs)

-- Nothing runs into a namespace: a comma ends it, or the frame does.
abbrev pub IsEnded : Bool → Bytes → Bool → ℕ → Bytes → Type 0
IsEnded true ns ack id json = Unit
IsEnded false [] ack id json = json ≡ []
IsEnded false (b ∷ bs) ack id json = (json ≡ []) × ((ack ≡ false) ⊎ (id ≢ 0))

pub slash_test : (b : ℕ) → b ≢ b'/' → (b == b'/') ≡ false
slash_test b h = ground arith

-- Without a slash the number behind the type is looked at once more.
pub no_namespace :
    (h : Header) (c num : ℕ) (has : Bool) (text : Bytes) {b : ℕ} {bs : Bytes}
    → text ≡ b ∷ bs
    → b ≢ b'/'
    → at_namespace h c num has (read_byte (src text))
      ≡ after_id h c num has (read_uint64 (src text))
unfolding at_namespace read_byte
no_namespace h c num has text {b} e ne = rw e (rw (slash_test b ne))

-- A namespace that a comma ends.
pub namespace_comma :
    (typ c : ℕ) (b : ℕ) (bs text : Bytes)
    → IsNamespace (b ∷ bs)
    → at_namespace
        (header_of typ 0 false [])
        c
        0
        false
        (read_byte (src ((b ∷ bs) ++ (b',' ∷ text))))
      ≡ after_id (header_of typ 0 false (b ∷ bs)) c 0 false (read_uint64 (src text))
unfolding at_namespace read_byte
namespace_comma typ c b bs text h = rw slash (
    ap (after_namespace (header_of typ 0 false []) c 0 false)
      (read_string_comma (b ∷ bs) text eof h.1)
    ∙ ap (λ g. after_id g c 0 false (read_uint64 (src text)))
        (set_namespace_plain (b ∷ bs) (header_of typ 0 false []) h.2))
  where
    slash : (b == b'/') ≡ true
    slash = ground arith

-- A namespace that the frame ends.
pub namespace_end :
    (typ c : ℕ) (b : ℕ) (bs : Bytes)
    → IsNamespace (b ∷ bs)
    → at_namespace (header_of typ 0 false []) c 0 false (read_byte (src (b ∷ bs)))
      ≡ (header_of typ 0 false (b ∷ bs), c, none, src [])
unfolding at_namespace read_byte
namespace_end typ c b bs h = rw slash (
    ap (after_namespace (header_of typ 0 false []) c 0 false)
      (read_string_end (b ∷ bs) eof h.1 refl)
    ∙ ap (λ g. after_id g c 0 false (read_uint64 (src [])))
        (set_namespace_plain (b ∷ bs) (header_of typ 0 false []) h.2)
    ∙ unfold after_id read_uint64 read_uint_loop no_eof in refl)
  where
    slash : (b == b'/') ≡ true
    slash = ground arith

pub comma_text :
    (args : Bool) (typ id : ℕ) (ack : Bool) (b : ℕ) (bs text : Bytes)
    → (not (id == 0) || args) ≡ true
    → write_namespace args (header_of typ id ack (b ∷ bs)) ++ text ≡ (b ∷ bs) ++ (b',' ∷ text)
unfolding write_namespace
comma_text args typ id ack b bs text h = rw (h, append_assoc (b ∷ bs) (b',' ∷ []) text)

pub plain_text :
    (args : Bool) (typ id : ℕ) (ack : Bool) (b : ℕ) (bs text : Bytes)
    → (not (id == 0) || args) ≡ false
    → write_namespace args (header_of typ id ack (b ∷ bs)) ++ text ≡ (b ∷ bs) ++ text
unfolding write_namespace
plain_text args typ id ack b bs text h = rw h

pub ended :
    (args : Bool) (typ c b : ℕ) (bs : Bytes) (ack : Bool) (id : ℕ) (json : Bytes)
    → IsNamespace (b ∷ bs)
    → IsId ack id
    → IsEnded args (b ∷ bs) ack id json
    → (not (id == 0) || args) ≡ false
    → let h = header_of typ id ack (b ∷ bs) in
      at_namespace
        (header_of typ 0 false [])
        c
        0
        false
        (read_byte (src ((b ∷ bs) ++ (write_id h ++ json))))
      ≡ (h, c, none, src json)
ended true typ c b bs ack id json hn hi he t = absurd (ground arith)
ended false typ c b bs true id json hn hi he t = absurd (ground arith)
ended false typ c b bs false id [] hn hi he t =
    unfold write_id in rw (append-nil, hi) (namespace_end typ c b bs hn)
ended false typ c b bs false id (x ∷ xs) hn hi he t = absurd (cc (he.0))

-- The namespace and the id, behind the type and the count.
pub read_namespace :
    (args : Bool) (typ c : ℕ) (ns : Bytes) (ack : Bool) (id : ℕ) (json : Bytes)
    → IsNamespace ns
    → IsId ack id
    → IsArguments json
    → IsEnded args ns ack id json
    → let h = header_of typ id ack ns in
      at_namespace
        (header_of typ 0 false [])
        c
        0
        false
        (read_byte (src (write_namespace args h ++ (write_id h ++ json))))
      ≡ (h, c, none, src json)
read_namespace args typ c [] true id json hn hi ha he =
    let (b, bs, e, lo, hi') = write_uint64_head id json hi in
    unfold write_namespace write_id in
    (no_namespace (header_of typ 0 false []) c 0 false (write_uint64 id ++ json) e (omega arith)
      ∙ read_id typ c [] true id json hi ha)
read_namespace args typ c [] false id [] hn hi ha he =
    unfold at_namespace read_byte no_eof write_id write_namespace in rw hi
read_namespace args typ c [] false id (b ∷ bs) hn hi ha he =
    unfold write_namespace write_id in
    (no_namespace (header_of typ 0 false []) c 0 false (b ∷ bs) refl (omega arith)
      ∙ read_id typ c [] false id (b ∷ bs) hi ha)
read_namespace args typ c (b ∷ bs) ack id json hn hi ha he =
    elim (Bool-cases (not (id == 0) || args)) [
      | inl comma ↦
          rw (comma_text args typ id ack b bs _ comma)
            (namespace_comma typ c b bs _ hn ∙ read_id typ c (b ∷ bs) ack id json hi ha)
      | inr plain ↦
          rw (plain_text args typ id ack b bs _ plain)
            (ended args typ c b bs ack id json hn hi he plain)
    ]
