-- ===== src/Payload/Decoder/Text.antt =====
-- Reading the data of a text frame, by reads of any sizes.
use go_socket_io.Prelude.{
  ℕ, zero, suc, ◌+◌, ◌-◌, ◌%◌, ◌^◌, ◌≤◌, ◌<◌, ◌≡◌, refl, none, some, List, [], ◌∷◌, ◌++◌, Bytes,
  All, arith, length, length-append, take, drop, append_assoc, false, ◌∙◌, ap, sym,
}
use Prim.Native.Nat.{min}
use go_socket_io.Payload.Lengths.{not_positive}
use go_socket_io.Reader.{Err, eof, from_bytes}
use go_socket_io.Payload.Units.{
  IsText, unit_sum, unicode_count, unit_sum-append, unit_sum-le-length, unit_sum_pos,
}
use go_socket_io.Payload.Decoder.{Decoder, done, read_raw, drain_raw}

take-drop : (n : ℕ) (bs : Bytes) → take n bs ++ drop n bs ≡ bs
take-drop zero bs = refl
take-drop (suc n) [] = refl
take-drop (suc n) (b ∷ bs) = ap (◌∷◌ b) (take-drop n bs)

take_within : (n : ℕ) (bs more : Bytes) → n ≤ length bs → take n (bs ++ more) ≡ take n bs
take_within zero bs more h = refl
take_within (suc n) [] more h = absurd (omega arith)
take_within (suc n) (b ∷ bs) more h = ap (◌∷◌ b) (take_within n bs more (omega arith))

drop_within : (n : ℕ) (bs more : Bytes) → n ≤ length bs → drop n (bs ++ more) ≡ drop n bs ++ more
drop_within zero bs more h = refl
drop_within (suc n) [] more h = absurd (omega arith)
drop_within (suc n) (b ∷ bs) more h = drop_within n bs more (omega arith)

length-take : (n : ℕ) (bs : Bytes) → n ≤ length bs → length (take n bs) ≡ n
length-take zero bs h = omega arith
length-take (suc n) [] h = absurd (omega arith)
length-take (suc n) (b ∷ bs) h = ap suc (length-take n bs (omega arith))

-- The decoder stands inside a text frame: `bs` is the text that is left of it, behind `p` pending
-- bytes of a character that has been read in part, and `rest` is what follows the frame.
abbrev pub within_frame : Decoder → ℕ → Bytes → Bytes → Err → Decoder
within_frame d p bs rest e = record d {
  raw = some (from_bytes (bs ++ rest) e);
  limit = p + unit_sum bs;
}

read_raw_step :
    (k n m b : ℕ) (l : Bytes) (e : Err) (d : Decoder)
    → not_positive n ≡ false
    → min k n ≡ m
    → read_raw k (record d { raw = some (from_bytes (b ∷ l) e); limit = n })
      ≡ done (
        take m (b ∷ l),
        none,
        record d {
          raw = some (from_bytes (drop m (b ∷ l)) e);
          limit = (n - length (take m (b ∷ l)) + unicode_count (take m (b ∷ l))) % 2 ^ 64;
        },
      )
unfolding read_raw
read_raw_step k n m b l e d h g = rw (h, g)

positive : (n : ℕ) → 0 < n → n < 2 ^ 63 → not_positive n ≡ false
positive n pos fits = ground arith

limit_after :
    (limit left taken extra below whole : ℕ)
    → limit + extra ≡ left + taken
    → taken ≤ limit
    → left ≤ below
    → taken + below ≡ whole
    → whole < 2 ^ 63
    → (limit - taken + extra) % 2 ^ 64 ≡ left
limit_after limit left taken extra below whole sums le bound split fits = omega arith

-- A read inside a text frame takes some of its bytes, and leaves the decoder inside it.
read_raw_some :
    (k p b : ℕ) (bs rest : Bytes) (e : Err) (d : Decoder)
    → 0 < k
    → IsText p (b ∷ bs)
    → length (b ∷ bs) < 2 ^ 63
    → (n q : ℕ) × (0 < n)
      × (n ≤ length (b ∷ bs))
      × IsText q (drop n (b ∷ bs))
      × (read_raw k (within_frame d p (b ∷ bs) rest e)
          ≡ done (take n (b ∷ bs), none, within_frame d q (drop n (b ∷ bs)) rest e))
read_raw_some k p b bs rest e d pos t fits =
    let limit = p + unit_sum (b ∷ bs) in
    let n = min k limit in
    let least : 1 ≤ limit = unit_sum_pos p b bs t in
    let most : limit ≤ length (b ∷ bs) = unit_sum-le-length p (b ∷ bs) t in
    let within : n ≤ length (b ∷ bs) = omega arith in
    let whole = take-drop n (b ∷ bs) in
    let (q, t', sums) = unit_sum-append p (take n (b ∷ bs)) (drop n (b ∷ bs)) (rw whole t) in
    let after =
      limit_after limit (q + unit_sum (drop n (b ∷ bs))) (length (take n (b ∷ bs)))
        (unicode_count (take n (b ∷ bs))) (length (drop n (b ∷ bs))) (length (b ∷ bs))
        (rw whole at sums) (omega (arith, length-take n (b ∷ bs) within))
        (unit_sum-le-length q _ t') (sym (length-append _ _) ∙ ap length whole) fits in
    (
      n,
      q,
      omega arith,
      within,
      t',
      read_raw_step k limit n b (bs ++ rest) e d (positive limit least (omega arith)) refl
          ∙ rw (take_within n (b ∷ bs) rest within, drop_within n (b ∷ bs) rest within, after) refl,
    )

read_raw_end :
    (k : ℕ) (rest : Bytes) (e : Err) (d : Decoder)
    → read_raw k (within_frame d 0 [] rest e) ≡ done ([], some eof, within_frame d 0 [] rest e)
unfolding read_raw unit_sum
read_raw_end k rest e d = refl

-- By reads of any sizes above 0, and more of them than bytes, the text of a frame is read to its end,
-- and the bytes behind the frame are left.
pub drain_raw-text :
    (ks : List ℕ) (p : ℕ) (bs rest : Bytes) (e : Err) (d : Decoder) (out : Bytes)
    → All (λ k. 0 < k) ks
    → length bs < length ks
    → IsText p bs
    → length bs < 2 ^ 63
    → drain_raw ks (within_frame d p bs rest e) out
      ≡ done (out ++ bs, none, within_frame d 0 [] rest e)
unfolding drain_raw
drain_raw-text [] p bs rest e d out sizes enough t fits = absurd (omega arith)
drain_raw-text (k ∷ ks) p [] rest e d out sizes enough t fits = rw (t, read_raw_end k rest e d) refl
drain_raw-text (k ∷ ks) p (b ∷ bs) rest e d out sizes enough t fits =
    let (n, q, pos, within, t', step) = read_raw_some k p b bs rest e d sizes.0 t fits in
    let whole = take-drop n (b ∷ bs) in
    let split = sym (length-append (take n (b ∷ bs)) (drop n (b ∷ bs))) ∙ ap length whole in
    let taken = length-take n (b ∷ bs) within in
    rw step (
      drain_raw-text ks q (drop n (b ∷ bs)) rest e d (out ++ take n (b ∷ bs)) sizes.1 (omega arith)
        t' (omega arith)
      ∙ rw (append_assoc, whole) refl)
