-- ===== src/Payload/Base64.antt =====
-- What the package uses of `encoding/base64` and `unicode/utf8`, which are not part of the
-- repository, with what it relies on.
use go_socket_io.Reader.{Err}
use go_socket_io.Prelude.{ℕ, ◌<◌, ◌≡◌, Option, some, [], Bytes, All, length}

-- `encode` is all that a `base64.NewEncoder` has written when it is closed, and `decode` what a
-- `base64.NewDecoder` delivers of a whole input, `none` for a corrupt one.
pub record Base64 : Type 0 where
  pub encode : Bytes → Bytes
  pub decode : Bytes → Option Bytes
  -- The error for a corrupt input.
  pub corrupt : Err
  pub rune_count : Bytes → ℕ
  -- A decoder gives back the bytes that an encoder was given.
  pub decode-encode : (bs : Bytes) → All (λ b. b < 256) bs → decode (encode bs) ≡ some bs
  -- Nothing decodes to nothing.
  pub decode-nil : decode [] ≡ some []
  -- An encoder writes ASCII, and each ASCII byte is a rune.
  pub rune_count-encode : (bs : Bytes) → rune_count (encode bs) ≡ length (encode bs)
