-- ===== src/Parser/Header/Numbers.antt =====
-- Numbers and namespaces in a header: parser/encoder.go and parser/decoder.go.
use native.Mathlib.Decide.{dec_lt}
use native.Mathlib.Nat.{div-lt_iff_lt-mul}
use go_socket_io.Prelude.{
  ℕ, zero, suc, ◌+◌, ◌-◌, ◌*◌, ◌/◌, ◌%◌, ◌^◌, ◌<◌, ◌≤◌, ◌≡◌, refl, ◌⊎◌, Bool, true, false, none, [],
  ◌∷◌, ◌++◌, Bytes, arith, append_assoc, append-nil, ◌∙◌, ap, sym, leb, Lacks,
}
use go_socket_io.Reader.{Err, ok, from_bytes}
use go_socket_io.Digits.{digits_loop}
use go_socket_io.Digits.Power.{ten_pow, ten_pow_pos, div_facts}
use go_socket_io.Digits.Scan.{scan-digits, digits_loop_step}
use go_socket_io.Parser.Header.{
  rounds, base_loop, write_uint64, read_uint_loop, read_uint64, read_string_loop, read_string,
  is_nil, cut_query, set_namespace, Header,
}

at_least : (q : ℕ) → 10 ≤ q → leb 10 q ≡ true
at_least q h = ground arith

below_ten : (q : ℕ) → q < 10 → leb 10 q ≡ false
below_ten q h = ground arith

tenfold : (i base : ℕ) → 0 < base → 10 * base ≤ i → 10 ≤ i / base
tenfold i base pos h = elim (dec_lt (i / base) 10) [
  | yes p ↦ absurd (omega (arith, (div-lt_iff_lt-mul {x = i} {y = 10} pos).0 p))
  | no p ↦ omega arith
]

base_loop_step :
    (f i base : ℕ)
    → 0 < base
    → 10 * base ≤ i
    → i < 2 ^ 64
    → base_loop (suc f) i base ≡ base_loop f i (10 * base)
unfolding base_loop
base_loop_step f i base pos h fits =
    let big : leb 10 (i / base) ≡ true = at_least (i / base) (tenfold i base pos h) in
    let next : base * 10 % 2 ^ 64 ≡ 10 * base = omega arith in rw (big, next)

base_loop_stop : (f i base : ℕ) → 0 < base → i < 10 * base → base_loop f i base ≡ base
unfolding base_loop
base_loop_stop zero i base pos h = refl
base_loop_stop (suc f) i base pos h = rw (below_ten (i / base) (div_facts i base pos h).0)

rise : (j n i : ℕ) → j ≡ n → i < ten_pow n → i < ten_pow (suc j)
rise j n i e h = rw e (omega arith)

-- The loop ends at the power of ten of the first digit.
base_loop_power :
    (f j n i : ℕ)
    → j + f ≡ n
    → i < ten_pow n
    → i < 2 ^ 64
    → (k : ℕ) × (k ≤ n) × (base_loop f i (ten_pow j) ≡ ten_pow k) × (i < ten_pow (suc k))
base_loop_power zero j n i e h fits = (
  j,
  omega arith,
  base_loop_stop zero i (ten_pow j) (ten_pow_pos j) (rise j n i (omega arith) h),
  rise j n i (omega arith) h,
)
base_loop_power (suc f) j n i e h fits = elim (dec_lt i (ten_pow (suc j))) [
  | yes p ↦ (j, omega arith, base_loop_stop (suc f) i (ten_pow j) (ten_pow_pos j) p, p)
  | no p ↦
      let (k, le, same, above) = base_loop_power f (suc j) n i (omega arith) h fits in
      (k, le, base_loop_step f i (ten_pow j) (ten_pow_pos j) (omega arith) fits ∙ same, above)
]

read_uint_digit :
    (q acc : ℕ) (tail : Bytes) (e : Err) (has : Bool)
    → q < 10
    → acc * 10 + q < 2 ^ 64
    → read_uint_loop (((q % 256 + b'0') % 256) ∷ tail) e acc has
      ≡ read_uint_loop tail e (acc * 10 + q) true
unfolding read_uint_loop
read_uint_digit q acc tail e has h fits = ground arith

-- What stands behind a number does not begin with a digit.
abbrev pub NoDigit : Bytes → Type 0
NoDigit [] = Unit
NoDigit (b ∷ bs) = (b < b'0') ⊎ (b'9' < b)

read_uint_end :
    (n : ℕ) (tail : Bytes) (e : Err)
    → NoDigit tail
    → read_uint_loop tail e n true ≡ ok (n, true) (from_bytes tail e)
unfolding read_uint_loop
read_uint_end n [] e h = refl
read_uint_end n (b ∷ bs) e h = ground arith

first_digit :
    (f k n : ℕ) (tail : Bytes) (e : Err)
    → n < ten_pow (suc k)
    → read_uint_loop (digits_loop (suc f) b'0' n (ten_pow k) ++ tail) e 0 false
      ≡ read_uint_loop (digits_loop (suc f) b'0' n (ten_pow k) ++ tail) e 0 true
first_digit f k n tail e above =
    let m = ten_pow k in
    let small = (div_facts n m (ten_pow_pos k) above).0 in
    let step = λ (has : Bool).
      read_uint_digit (n / m) 0 (digits_loop f b'0' (n - n / m * m) (m / 10) ++ tail) e has small
        (omega arith) in
    rw (digits_loop_step b'0' f n m (ten_pow_pos k)) (step false ∙ sym (step true))

-- A `uint64` is read back from its decimal text, and what is behind it stays.
pub read_uint64-write_uint64 :
    (n : ℕ) (tail : Bytes) (e : Err)
    → n < 2 ^ 64
    → NoDigit tail
    → read_uint64 (from_bytes (write_uint64 n ++ tail) e) ≡ ok (n, true) (from_bytes tail e)
unfolding read_uint64 write_uint64
read_uint64-write_uint64 n tail e fits h =
    let (k, le, same, above) = base_loop_power rounds 0 rounds n refl (omega arith) fits in
    rw same (
      first_digit rounds k n tail e above
      ∙ scan-digits b'0' (λ bs acc. read_uint_loop bs e acc true)
          (λ q acc rest. read_uint_digit q acc rest e true) (suc rounds) k n 0 tail (omega arith)
          above (omega arith)
      ∙ ap (λ m. read_uint_loop tail e m true) (omega arith)
      ∙ read_uint_end n tail e h)

read_string_loop_lem :
    (ns rest out : Bytes) (e : Err)
    → Lacks b',' ns
    → read_string_loop (ns ++ (b',' ∷ rest)) e b',' out ≡ ok (out ++ ns) (from_bytes rest e)
unfolding read_string_loop
read_string_loop_lem [] rest out e h = ap (λ o. ok o (from_bytes rest e)) (sym (append-nil out))
read_string_loop_lem (b ∷ ns) rest out e h =
    ground (arith, read_string_loop_lem ns rest (out ++ (b ∷ [])) e, append_assoc out (b ∷ []) ns)

read_string_loop_end :
    (ns out : Bytes) (e : Err)
    → Lacks b',' ns
    → is_nil (out ++ ns) ≡ false
    → read_string_loop ns e b',' out ≡ ok (out ++ ns) (from_bytes [] e)
unfolding read_string_loop
read_string_loop_end [] out e h g =
    let g' : is_nil out ≡ false = rw append-nil at g in rw (g', append-nil)
read_string_loop_end (b ∷ ns) out e h g =
    ground (arith, read_string_loop_end ns (out ++ (b ∷ [])) e, append_assoc out (b ∷ []) ns)

-- A namespace without a comma is read up to its comma, or up to the end of the frame.
pub read_string_comma :
    (ns rest : Bytes) (e : Err)
    → Lacks b',' ns
    → read_string b',' (from_bytes (ns ++ (b',' ∷ rest)) e) ≡ ok ns (from_bytes rest e)
unfolding read_string
read_string_comma ns rest e h = read_string_loop_lem ns rest [] e h

pub read_string_end :
    (ns : Bytes) (e : Err)
    → Lacks b',' ns
    → is_nil ns ≡ false
    → read_string b',' (from_bytes ns e) ≡ ok ns (from_bytes [] e)
unfolding read_string
read_string_end ns e h g = read_string_loop_end ns [] e h g

cut_query-none : (ns : Bytes) → Lacks b'?' ns → cut_query ns ≡ none
unfolding cut_query
cut_query-none [] h = refl
cut_query-none (b ∷ ns) h = ground (arith, cut_query-none ns)

-- Without a question mark the whole text is the namespace.
pub set_namespace_plain :
    (ns : Bytes) (h : Header) → Lacks b'?' ns → set_namespace ns h ≡ record h { namespace = ns }
unfolding set_namespace
set_namespace_plain ns h lacks = rw (cut_query-none ns lacks, set_namespace)

-- The text of a number begins with a digit.
pub write_uint64_head :
    (n : ℕ) (tail : Bytes)
    → n < 2 ^ 64
    → (b : ℕ) × (bs : Bytes) × (write_uint64 n ++ tail ≡ b ∷ bs) × (b'0' ≤ b) × (b ≤ b'9')
unfolding write_uint64
write_uint64_head n tail fits =
    let (k, le, same, above) = base_loop_power rounds 0 rounds n refl (omega arith) fits in
    let m = ten_pow k in
    let small = (div_facts n m (ten_pow_pos k) above).0 in
    (
      (n / m % 256 + b'0') % 256,
      digits_loop rounds b'0' (n - n / m * m) (m / 10) ++ tail,
      rw (same, digits_loop_step b'0' rounds n m (ten_pow_pos k)) refl,
      omega arith,
      omega arith,
    )
