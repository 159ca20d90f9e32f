-- ===== src/Polling/Timestamp.antt =====
-- engineio/transport/utils/clock.go: the text that each request of the polling transport carries.
use go_socket_io.Prelude.{
  ℕ, zero, suc, ◌+◌, ◌-◌, ◌*◌, ◌/◌, ◌%◌, ◌^◌, ◌<◌, ◌≡◌, sym, ◌∙◌, ap, [], ◌∷◌, Bytes, ltb, arith,
  if◌then◌else◌, ◌==◌, ℕ-Eq,
}

-- `chars[n]`
unfoldable pub chars : ℕ → ℕ
chars n =
    if ltb n 10
    then b'0' + n
    else if ltb n 36
    then b'A' + (n - 10)
    else if ltb n 62
    then b'a' + (n - 36)
    else if ltb n 63
    then b'-'
    else b'_'

-- The loop.
unfoldable pub timestamp_loop : ℕ → ℕ → Bytes
timestamp_loop zero now = []
timestamp_loop (suc f) now =
    let more = timestamp_loop f (now / 64) in if ltb 0 now then chars (now % 64) ∷ more else []

-- `TimestampFromClock`, at an `int64` that is not negative: 11 rounds are enough below 2^63.
unfoldable pub timestamp_from_clock : ℕ → Bytes
timestamp_from_clock now = timestamp_loop 11 now

-- The place of a byte among the 64.
place : ℕ → ℕ
place c =
    if c == b'-'
    then 62
    else if c == b'_'
    then 63
    else if ltb c 58
    then c - 48
    else if ltb c 91
    then c - 55
    else c - 61

value : Bytes → ℕ
value [] = 0
value (c ∷ cs) = place c + 64 * value cs

place-chars : (n : ℕ) → n < 64 → place (chars n) ≡ n
unfolding place chars
place-chars n h = ground arith

-- The powers of 64, in the form in which they compute at `suc k`.
abbrev power : ℕ → ℕ
power zero = 1
power (suc k) = 64 * power k

value-timestamp_loop : (f now : ℕ) → now < power f → value (timestamp_loop f now) ≡ now
unfolding value timestamp_loop
value-timestamp_loop zero now h = omega arith
value-timestamp_loop (suc f) now h = ground (
  arith,
  place-chars (now % 64) (omega arith),
  value-timestamp_loop f (now / 64) (smaller f now h),
)
  where
    smaller : (f now : ℕ) → now < 64 * power f → now / 64 < power f
    smaller f now h = omega arith

-- Two times from the clock that are below 2^63 have the same text only if they are the same time.
timestamp_from_clock_injective :
    (a b : ℕ) → a < 2 ^ 63 → b < 2 ^ 63 → timestamp_from_clock a ≡ timestamp_from_clock b → a ≡ b
unfolding timestamp_from_clock
timestamp_from_clock_injective a b ha hb e =
    sym (value-timestamp_loop 11 a (omega arith))
    ∙ ap value e
    ∙ value-timestamp_loop 11 b (omega arith)
