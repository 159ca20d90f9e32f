-- ===== src/Digits/Scan.antt =====
-- Scanners that take in a digit as `acc * 10 + q`, on the digits that the loops write.
use go_socket_io.Prelude.{
  ℕ, zero, suc, ◌+◌, ◌-◌, ◌*◌, ◌/◌, ◌%◌, ◌^◌, ◌<◌, ◌≡◌, refl, [], ◌∷◌, ◌++◌, Bytes, arith, ◌∙◌, ap,
}
use go_socket_io.Digits.{digits_loop}
use go_socket_io.Digits.Power.{ten_pow, ten_pow_pos, div_facts, head_fits, regroup}

pub digits_loop_step :
    (base f l m : ℕ)
    → 0 < m
    → digits_loop (suc f) base l m
      ≡ ((l / m % 256 + base) % 256) ∷ digits_loop f base (l - l / m * m) (m / 10)
unfolding digits_loop
digits_loop_step base f l m h = ground arith

pub digits_loop_end : (base f l : ℕ) → digits_loop f base l 0 ≡ []
unfolding digits_loop
digits_loop_end base zero l = refl
digits_loop_end base (suc f) l = refl

-- `scan` takes in the digit of the byte `base + q`.
module _ {R : Type 0} (base : ℕ) (scan : Bytes → ℕ → R)
    (digit : (q acc : ℕ) (tail : Bytes)
      → q < 10
      → acc * 10 + q < 2 ^ 64
      → scan (((q % 256 + base) % 256) ∷ tail) acc ≡ scan tail (acc * 10 + q)) where
  take_digit :
      (f l m acc : ℕ) (tail : Bytes)
      → 0 < m
      → l < 10 * m
      → acc * 10 + l / m < 2 ^ 64
      → scan (digits_loop (suc f) base l m ++ tail) acc
        ≡ scan (digits_loop f base (l - l / m * m) (m / 10) ++ tail) (acc * 10 + l / m)
  take_digit f l m acc tail pos h fits =
      rw (digits_loop_step base f l m pos) (digit (l / m) acc _ (div_facts l m pos h).0 fits)

  -- Reading the digits of `l`, highest first, adds `l` behind `acc`.
  pub scan-digits :
      (f k l acc : ℕ) (tail : Bytes)
      → k < f
      → l < ten_pow (suc k)
      → acc * ten_pow (suc k) + l < 2 ^ 64
      → scan (digits_loop f base l (ten_pow k) ++ tail) acc ≡ scan tail (acc * ten_pow (suc k) + l)
  scan-digits zero k l acc tail b h fits = absurd (omega arith)
  scan-digits (suc f) zero l acc tail b h fits =
      take_digit f l 1 acc tail (omega arith) h (omega arith)
      ∙ rw (digits_loop_end base f (l - l / 1 * 1)) (ap (scan tail) (omega arith))
  scan-digits (suc f) (suc k) l acc tail b h fits =
      let p = ten_pow k in
      let (small, le, rest) = div_facts l (10 * p) (omega (arith, ten_pow_pos k)) h in
      let q = l / (10 * p) in
      take_digit f l (10 * p) acc tail (omega (arith, ten_pow_pos k)) h
        (head_fits acc q (10 * p) l (omega (arith, ten_pow_pos k)) le fits)
      ∙ (ap (λ m. scan (digits_loop f base (l - q * (10 * p)) m ++ tail) (acc * 10 + q)) (tenth p)
          ∙ (scan-digits f k (l - q * (10 * p)) (acc * 10 + q) tail (omega arith) rest
                (rw (regroup acc q p l le) fits)
              ∙ ap (scan tail) (regroup acc q p l le)))
    where
      tenth : (p : ℕ) → 10 * p / 10 ≡ p
      tenth p = omega arith
