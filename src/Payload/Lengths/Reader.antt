-- ===== src/Payload/Lengths/Reader.antt =====
-- The readers of the lengths in engineio/payload/util.go.
use go_socket_io.Prelude.{
  ℕ, ◌+◌, ◌-◌, ◌*◌, ◌%◌, ◌^◌, ◌||◌, [], ◌∷◌, Bytes, ltb, ◌==◌, if◌then◌else◌,
}
use go_socket_io.Reader.{Err, invalid_payload, Source, from_bytes, Read, ok, err}

-- `ret*10 + int64(b)`, which wraps.
abbrev pub shift_in : ℕ → ℕ → ℕ
shift_in ret b = (ret * 10 + b) % 2 ^ 64

-- The loop of `readTextLen` and of `readBinaryLen`. A digit `d` is the byte `base + d`: `base` is '0'
-- for text, and 0 for binary, where `b < base` is never true.
unfoldable pub read_len_loop : (base terminator : ℕ) → Bytes → Err → ℕ → Read ℕ
read_len_loop base terminator [] e ret = err e (from_bytes [] e)
read_len_loop base terminator (b ∷ bs) e ret =
    let more = read_len_loop base terminator bs e (shift_in ret (b - base)) in
    if b == terminator
    then ok ret (from_bytes bs e)
    else if ltb b base || ltb (base + 9) b
    then err invalid_payload (from_bytes bs e)
    else more

unfoldable pub read_binary_len : Source → Read ℕ
read_binary_len r = read_len_loop 0 0xff r.left r.stop 0

unfoldable pub read_text_len : Source → Read ℕ
read_text_len r = read_len_loop b'0' b':' r.left r.stop 0
