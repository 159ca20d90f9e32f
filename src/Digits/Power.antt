-- ===== src/Digits/Power.antt =====
-- Powers of ten.
use native.Mathlib.Decide.{dec_lt}
use native.Mathlib.Nat.{div-add-mod', mod-lt, div-lt_iff_lt-mul}
use go_socket_io.Prelude.{ℕ, zero, suc, ◌+◌, ◌-◌, ◌*◌, ◌/◌, ◌^◌, ◌<◌, ◌≤◌, ◌≡◌, arith}

-- The powers of ten, in the form in which they compute at `suc k`.
abbrev pub ten_pow : ℕ → ℕ
ten_pow zero = 1
ten_pow (suc k) = 10 * ten_pow k

pub ten_pow_pos : (k : ℕ) → 1 ≤ ten_pow k
ten_pow_pos zero = omega arith
ten_pow_pos (suc k) = omega (arith, ten_pow_pos k)

-- Every number lies between two neighbouring powers of ten.
pub power_above :
    (f n : ℕ) → n < ten_pow f → (k : ℕ) × (k ≤ f) × (n < ten_pow k) × (ten_pow k ≤ 10 * n + 1)
power_above zero n h = (0, omega arith, omega arith, omega arith)
power_above (suc f) n h = elim (dec_lt n (ten_pow f)) [
  | yes p ↦ let (k, le, above, below) = power_above f n p in (k, omega arith, above, below)
  | no p ↦ (suc f, omega arith, h, omega arith)
]

-- A power of ten that is at most `n` is at most ten times `n / 10`, but for one.
pub ten_pow_tenth : (k n : ℕ) → ten_pow (suc k) ≤ 10 * n + 1 → ten_pow k ≤ 10 * (n / 10) + 1
ten_pow_tenth zero n h = omega arith
ten_pow_tenth (suc k) n h = omega arith

pub div_facts :
    (l m : ℕ) → 0 < m → l < 10 * m → (l / m < 10) × (l / m * m ≤ l) × (l - l / m * m < m)
div_facts l m h fits = (
  (div-lt_iff_lt-mul h).1 fits,
  omega (arith, div-add-mod' l m),
  omega (arith, div-add-mod' l m, mod-lt l h),
)

pub head_fits : (a q p l : ℕ) → 1 ≤ p → q * p ≤ l → a * (10 * p) + l < 2 ^ 64 → a * 10 + q < 2 ^ 64
head_fits a q p l h g fits = grind arith

pub regroup :
    (a q p l : ℕ)
    → q * (10 * p) ≤ l
    → (a * 10 + q) * (10 * p) + (l - q * (10 * p)) ≡ a * (10 * (10 * p)) + l
regroup a q p l h = omega arith
