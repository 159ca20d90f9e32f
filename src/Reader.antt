-- ===== src/Reader.antt =====
-- A byte source, as engineio/payload and parser read it through their `byteReader` interfaces: the
-- bytes that it has left and the error that it answers when they are used up.
use go_socket_io.Prelude.{ℕ, ◌≡◌, [], ◌∷◌, Bytes}

-- `io.EOF`, the errors of engineio/payload/errors.go and of parser/errors.go; `fault` is any other,
-- such as a network error.
pub data Err : Type 0 where
  eof invalid_payload paused timeout overlap : Err
  invalid_packet_type invalid_binary_buffer_type invalid_first_packet_type : Err
  failed_buffer_address : Err
  fault : ℕ → Err

pub record Source : Type 0 where
  pub left : Bytes
  pub stop : Err

abbrev pub from_bytes : Bytes → Err → Source
from_bytes bs e = record { left = bs; stop = e }

-- What a function that reads from a source answers, and the source behind what it has read.
pub data Read {ℓ} (A : Type ℓ) : Type ℓ where
  ok : A → Source → Read A
  err : Err → Source → Read A

infixl 5 ◌>>=◌
abbrev pub ◌>>=◌ {ℓ κ} :
    {A : Type ℓ} {B : Type κ} → (Source → Read A) → (A → Source → Read B) → Source → Read B
◌>>=◌ m f r = elim (m r) [ ok a r' ↦ f a r' | err e r' ↦ err e r' ]

-- A step that succeeds hands its result and its source on.
pub >>=-ok {ℓ κ} :
    {A : Type ℓ} {B : Type κ} (m : Source → Read A) (f : A → Source → Read B) {r r' : Source}
    {a : A}
    → m r ≡ ok a r'
    → (m >>= f) r ≡ f a r'
>>=-ok m f h = λ i. elim (h i) [ ok a r' ↦ f a r' | err e r' ↦ err e r' ]

abbrev pub return {ℓ} : {A : Type ℓ} → A → Source → Read A
return a r = ok a r

unfoldable pub read_byte_of : Bytes → Err → Read ℕ
read_byte_of [] e = err e (from_bytes [] e)
read_byte_of (b ∷ bs) e = ok b (from_bytes bs e)

-- `ReadByte`
unfoldable pub read_byte : Source → Read ℕ
unfolding read_byte_of
read_byte r = read_byte_of r.left r.stop

-- `UnreadByte` behind a `ReadByte` that gave `b`.
abbrev pub unread : ℕ → Source → Source
unread b r = from_bytes (b ∷ r.left) r.stop
