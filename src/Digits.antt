-- ===== src/Digits.antt =====
-- Decimal digits, as engineio/payload/util.go and parser/encoder.go write them: from a power of ten
-- down, with a division for each digit.
pub mod Power
pub mod Scan
use go_socket_io.Prelude.{
  ℕ, zero, suc, ◌+◌, ◌-◌, ◌*◌, ◌/◌, ◌%◌, List, [], ◌∷◌, Bytes, ltb, if◌then◌else◌,
}

-- `for max > 0 { n := l / max; … WriteByte(byte(n) + base); l -= n * max; max /= 10 }`, where
-- `base` is 0 in `writeBinaryLen`, and '0' in `writeTextLen` and `writeUint64`.
unfoldable pub digits_loop : ℕ → (base l max : ℕ) → Bytes
digits_loop zero base l max = []
digits_loop (suc f) base l max =
    let n = l / max in
    let more = digits_loop f base (l - n * max) (max / 10) in
    if ltb 0 max then ((n % 256 + base) % 256) ∷ more else []
