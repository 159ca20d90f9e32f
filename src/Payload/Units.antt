-- ===== src/Payload/Units.antt =====
-- How engineio/payload counts text: in UTF-16 code units, as a JavaScript peer does. A byte starts a
-- character of 4, 3 or 2 bytes, continues one, or stands for itself.
use go_socket_io.Prelude.{
  ℕ, zero, suc, ◌+◌, ◌/◌, ◌^◌, ◌≤◌, ◌<◌, ◌≡◌, ◌⊎◌, inl, inr, [], ◌∷◌, ◌++◌, Bytes, ◌==◌,
  if◌then◌else◌, length, arith,
}

-- `codeUnitSize` of one byte in `calcCodeUnitLength`.
unfoldable pub code_units : ℕ → ℕ
code_units b =
    if b / 2 ^ 3 == 30
    then 2
    else if b / 2 ^ 4 == 14
    then 1
    else if b / 2 ^ 5 == 6
    then 1
    else if b / 2 ^ 6 == 2
    then 0
    else 1

-- What a byte adds to `unicodeCount` in `decoder.Read`.
unfoldable pub extra_bytes : ℕ → ℕ
extra_bytes b =
    if b / 2 ^ 3 == 30 then 2 else if b / 2 ^ 4 == 14 then 2 else if b / 2 ^ 5 == 6 then 1 else 0

unfoldable pub unit_sum : Bytes → ℕ
unit_sum [] = 0
unit_sum (b ∷ bs) = code_units b + unit_sum bs

unfoldable pub unicode_count : Bytes → ℕ
unicode_count [] = 0
unicode_count (b ∷ bs) = extra_bytes b + unicode_count bs

-- Text of whole UTF-8 characters, behind `pending` bytes that the character before still lacks.
abbrev pub IsText : ℕ → Bytes → Type 0
IsText pending [] = pending ≡ 0
IsText zero (b ∷ bs) =
    ((b < 128) × IsText 0 bs)
    ⊎ (((192 ≤ b) × (b < 224) × IsText 1 bs)
        ⊎ (((224 ≤ b) × (b < 240) × IsText 2 bs) ⊎ ((240 ≤ b) × (b < 248) × IsText 3 bs)))
IsText (suc k) (b ∷ bs) = (128 ≤ b) × (b < 192) × IsText k bs

-- A read leaves the limit at the code units that are left and the bytes that are pending.
pub unit_sum-append :
    (p : ℕ) (front back : Bytes)
    → IsText p (front ++ back)
    → (q : ℕ) × IsText q back
      × (p + unit_sum (front ++ back) + unicode_count front ≡ q + unit_sum back + length front)
unfolding unit_sum unicode_count code_units extra_bytes
unit_sum-append p [] back h = (p, h, omega arith)
unit_sum-append zero (b ∷ bs) back (inl (lo, t)) =
    let (q, t', e) = unit_sum-append 0 bs back t in (q, t', ground arith)
unit_sum-append zero (b ∷ bs) back (inr (inl (lo, hi, t))) =
    let (q, t', e) = unit_sum-append 1 bs back t in (q, t', ground arith)
unit_sum-append zero (b ∷ bs) back (inr (inr (inl (lo, hi, t)))) =
    let (q, t', e) = unit_sum-append 2 bs back t in (q, t', ground arith)
unit_sum-append zero (b ∷ bs) back (inr (inr (inr (lo, hi, t)))) =
    let (q, t', e) = unit_sum-append 3 bs back t in (q, t', ground arith)
unit_sum-append (suc p) (b ∷ bs) back h =
    let (q, t, e) = unit_sum-append p bs back h.2 in (q, t, ground arith)

pub unit_sum-le-length : (p : ℕ) (bs : Bytes) → IsText p bs → p + unit_sum bs ≤ length bs
unfolding unit_sum code_units
unit_sum-le-length p [] h = ground arith
unit_sum-le-length zero (b ∷ bs) h = ground (
  arith,
  unit_sum-le-length 0 bs,
  unit_sum-le-length 1 bs,
  unit_sum-le-length 2 bs,
  unit_sum-le-length 3 bs,
)
unit_sum-le-length (suc p) (b ∷ bs) h = ground (arith, unit_sum-le-length p bs)

-- Text that is not used up has a code unit left or a byte pending.
pub unit_sum_pos : (p b : ℕ) (bs : Bytes) → IsText p (b ∷ bs) → 1 ≤ p + unit_sum (b ∷ bs)
unfolding unit_sum code_units
unit_sum_pos zero b bs h = ground arith
unit_sum_pos (suc p) b bs h = omega arith
