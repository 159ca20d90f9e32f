-- ===== src/Payload/Lengths.antt =====
-- engineio/payload/util.go: the decimal lengths in front of a packet. An `int64` is its bit
-- pattern, a number below 2^64; the patterns from 2^63 on are the negative values.
pub mod Reader
pub mod RoundTrip
use go_socket_io.Prelude.{
  ℕ, zero, suc, ◌+◌, ◌-◌, ◌*◌, ◌/◌, ◌%◌, ◌^◌, ◌<◌, Bool, ◌||◌, List, [], ◌∷◌, ◌++◌, Bytes, ltb, leb,
  ◌==◌, if◌then◌else◌,
}
use go_socket_io.Digits.{digits_loop}

-- `l <= 0` for an `int64`.
abbrev pub not_positive : ℕ → Bool
not_positive l = l == 0 || leb (2 ^ 63) l

-- An `int64` has at most 19 digits, so no loop below makes more than 19 rounds.
abbrev pub rounds : ℕ
rounds = 20

-- `for n := l / 10; n > 0; n /= 10 { max *= 10 }`
unfoldable pub scale_loop : ℕ → ℕ → ℕ → ℕ
scale_loop zero n max = max
scale_loop (suc f) n max =
    let more = scale_loop f (n / 10) (max * 10 % 2 ^ 64) in if ltb 0 n then more else max

unfoldable pub scale : ℕ → ℕ
scale l = scale_loop rounds (l / 10) 1

unfoldable pub digits : ℕ → ℕ → Bytes
digits base l = digits_loop rounds base l (scale l)

-- The writers append to a `bytes.Buffer`, which never fails.
unfoldable pub write_binary_len : ℕ → Bytes
write_binary_len l = if not_positive l then 0x00 ∷ 0xff ∷ [] else digits 0 l ++ (0xff ∷ [])

unfoldable pub write_text_len : ℕ → Bytes
write_text_len l = if not_positive l then b'0' ∷ b':' ∷ [] else digits b'0' l ++ (b':' ∷ [])
