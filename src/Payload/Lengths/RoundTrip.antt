-- ===== src/Payload/Lengths/RoundTrip.antt =====
-- The writers and the readers of lengths in engineio/payload/util.go.
use go_socket_io.Prelude.{
  ℕ, zero, suc, ◌+◌, ◌*◌, ◌/◌, ◌%◌, ◌^◌, ◌<◌, ◌≤◌, ◌≡◌, refl, ◌⊎◌, inl, inr, [], ◌∷◌, ◌++◌, Bytes,
  arith, append_assoc, ◌∙◌, ap, false,
}
use go_socket_io.Reader.{Err, ok, from_bytes}
use go_socket_io.Digits.Power.{ten_pow, ten_pow_pos, power_above, ten_pow_tenth}
use go_socket_io.Digits.Scan.{scan-digits}
use go_socket_io.Payload.Lengths.{
  rounds, not_positive, scale_loop, scale, digits, write_text_len, write_binary_len,
}
use go_socket_io.Payload.Lengths.Reader.{read_len_loop, read_text_len, read_binary_len}

no_wrap : (a p : ℕ) → 1 ≤ p → a * (10 * p) < 2 ^ 64 → a * 10 < 2 ^ 64
no_wrap a p h g = grind arith

scale_loop_lem :
    (f k n max : ℕ)
    → k < f
    → n < ten_pow k
    → ten_pow k ≤ 10 * n + 1
    → max * ten_pow k < 2 ^ 64
    → scale_loop f n max ≡ max * ten_pow k
unfolding scale_loop
scale_loop_lem zero k n max b h lo fits = absurd (omega arith)
scale_loop_lem (suc f) zero n max b h lo fits = ground arith
scale_loop_lem (suc f) (suc k) n max b h lo fits = ground (
  arith,
  ten_pow_pos k,
  no_wrap max (ten_pow k) (ten_pow_pos k) fits,
  ten_pow_tenth k n lo,
  scale_loop_lem f k (n / 10) (max * 10),
)

-- For a length above 0 the loops start at the power of ten of its first digit.
scale_power :
    (l : ℕ)
    → 0 < l
    → l < 2 ^ 63
    → (k : ℕ) × (k < rounds) × (scale l ≡ ten_pow k) × (l < ten_pow (suc k))
unfolding scale
scale_power l pos fits =
    let (k, le, above, below) = power_above 19 (l / 10) (omega arith) in
    (
      k,
      omega arith,
      scale_loop_lem rounds k (l / 10) 1 (omega arith) above below (omega arith) ∙ omega arith,
      omega arith,
    )

-- The digits stand for bytes from `base` on, and `t` ends them.
module _ (base t : ℕ) (apart : base + 9 < t) (byte : t < 256) where
  read_len_loop_digit :
      (q acc : ℕ) (tail : Bytes) (e : Err)
      → q < 10
      → acc * 10 + q < 2 ^ 64
      → read_len_loop base t (((q % 256 + base) % 256) ∷ tail) e acc
        ≡ read_len_loop base t tail e (acc * 10 + q)
  unfolding read_len_loop
  read_len_loop_digit q acc tail e h fits = ground arith

  read_len_loop_of_digits :
      (l : ℕ) (tail : Bytes) (e : Err)
      → 0 < l
      → l < 2 ^ 63
      → read_len_loop base t (digits base l ++ tail) e 0 ≡ read_len_loop base t tail e l
  unfolding digits
  read_len_loop_of_digits l tail e pos fits =
      let (k, le, s, above) = scale_power l pos fits in
      rw s (
        scan-digits base (λ bs acc. read_len_loop base t bs e acc)
          (λ q acc rest. read_len_loop_digit q acc rest e) rounds k l 0 tail le above (omega arith)
        ∙ ap (read_len_loop base t tail e) (omega arith))

positive_digits : (l : ℕ) → l < 2 ^ 63 → (l ≡ 0) ⊎ ((0 < l) × (not_positive l ≡ false))
positive_digits zero h = inl refl
positive_digits (suc l) h = inr (omega arith, ground arith)

-- A length of at most 2^63 - 1 is read back from its decimal text, and the bytes behind it stay.
pub read_text_len-write_text_len :
    (l : ℕ) (rest : Bytes) (e : Err)
    → l < 2 ^ 63
    → read_text_len (from_bytes (write_text_len l ++ rest) e) ≡ ok l (from_bytes rest e)
unfolding read_text_len write_text_len
read_text_len-write_text_len l rest e fits = elim (positive_digits l fits) [
  | inl z ↦ rw z (unfold read_len_loop in refl)
  | inr (pos, t) ↦
      rw (t, append_assoc (digits b'0' l) (b':' ∷ []) rest)
        (read_len_loop_of_digits b'0' b':' (omega arith) (omega arith) l (b':' ∷ rest) e pos fits
          ∙ unfold read_len_loop in refl)
]

-- A length of at most 2^63 - 1 is read back from its binary form, and the bytes behind it stay.
pub read_binary_len-write_binary_len :
    (l : ℕ) (rest : Bytes) (e : Err)
    → l < 2 ^ 63
    → read_binary_len (from_bytes (write_binary_len l ++ rest) e) ≡ ok l (from_bytes rest e)
unfolding read_binary_len write_binary_len
read_binary_len-write_binary_len l rest e fits = elim (positive_digits l fits) [
  | inl z ↦ rw z (unfold read_len_loop in refl)
  | inr (pos, t) ↦
      rw (t, append_assoc (digits 0 l) (0xff ∷ []) rest)
        (read_len_loop_of_digits 0 0xff (omega arith) (omega arith) l (0xff ∷ rest) e pos fits
          ∙ unfold read_len_loop in refl)
]
