-- ===== src/Parser/Values/Numbering.antt =====
-- `attachBuffer` against a description of it: which values it accepts, the order of the data, and the numbers.
use go_socket_io.Prelude.{
  ℕ, ◌+◌, ◌≡◌, refl, ◌&&◌, Bool, true, false, none, some, List, [], ◌∷◌, ◌++◌, Bytes, if◌then◌else◌,
  arith, length, length-append, ap, ◌∙◌,
}
use go_socket_io.Parser.Values.{
  Value, Values, other, pointer, interface, buffer, struct, array, slice, dict, nil, cons, Walk,
  rebuilt, joined, then_walk, attach, attach_all,
}

-- Every buffer in the value can be addressed.
unfoldable mutual
  pub is_attachable : Bool → Value → Bool
  is_attachable a (other text) = true
  is_attachable a (pointer v) = is_attachable true v
  is_attachable a (interface v) = is_attachable false v
  is_attachable a (buffer b) = a
  is_attachable a (struct vs) = are_attachable a vs
  is_attachable a (array vs) = are_attachable a vs
  is_attachable a (slice vs) = are_attachable true vs
  is_attachable a (dict keys vs) = are_attachable false vs

  pub are_attachable : Bool → Values → Bool
  are_attachable a nil = true
  are_attachable a (cons v vs) = is_attachable a v && are_attachable a vs

-- The data of the buffers, from left to right.
unfoldable mutual
  pub contents : Value → List Bytes
  contents (other text) = []
  contents (pointer v) = contents v
  contents (interface v) = contents v
  contents (buffer b) = b.content ∷ []
  contents (struct vs) = all_contents vs
  contents (array vs) = all_contents vs
  contents (slice vs) = all_contents vs
  contents (dict keys vs) = all_contents vs

  pub all_contents : Values → List Bytes
  all_contents nil = []
  all_contents (cons v vs) = contents v ++ all_contents vs

-- The value whose buffers are marked as binary and numbered from left to right.
unfoldable mutual
  pub numbered : ℕ → Value → Value
  numbered i (other text) = other text
  numbered i (pointer v) = pointer (numbered i v)
  numbered i (interface v) = interface (numbered i v)
  numbered i (buffer b) = buffer (record b { num = i; is_binary = true })
  numbered i (struct vs) = struct (all_numbered i vs)
  numbered i (array vs) = array (all_numbered i vs)
  numbered i (slice vs) = slice (all_numbered i vs)
  numbered i (dict keys vs) = dict keys (all_numbered i vs)

  pub all_numbered : ℕ → Values → Values
  all_numbered i nil = nil
  all_numbered i (cons v vs) = cons (numbered i v) (all_numbered (i + length (contents v)) vs)

abbrev described : {A : Type 0} → Bool → A → List Bytes → ℕ → Walk A
described ok a bs i = if ok then some (a, bs, i + length bs) else none

rebuilt-described :
    {A B : Type 0} (f : A → B) (ok : Bool) (a : A) (bs : List Bytes) (i : ℕ)
    → rebuilt f (described ok a bs i) ≡ described ok (f a) bs i
rebuilt-described f true a bs i = refl
rebuilt-described f false a bs i = refl

joined-described :
    (ok ok' : Bool) (v : Value) (vs : ℕ → Values) (bs cs : List Bytes) (i : ℕ)
    → then_walk (described ok v bs i) (λ j. described ok' (vs j) cs j)
      ≡ described (ok && ok') (cons v (vs (i + length bs))) (bs ++ cs) i
joined-described true true v vs bs cs i =
    ap (λ n. some (cons v (vs (i + length bs)), bs ++ cs, n))
      (omega (arith, length-append {0} bs cs))
joined-described true false v vs bs cs i = refl
joined-described false ok' v vs bs cs i = refl

walk_rest :
    (w : Walk Value) (f g : ℕ → Walk Values) → ((j : ℕ) → f j ≡ g j) → then_walk w f ≡ then_walk w g
walk_rest none f g h = refl
walk_rest (some (v, bs, j)) f g h = ap (joined v bs) (h j)

mutual
  unfolding attach is_attachable contents numbered

  attach_lem :
      (a : Bool) (v : Value) (i : ℕ)
      → attach a v i ≡ described (is_attachable a v) (numbered i v) (contents v) i
  attach_lem a (other text) i = ap (λ n. some (other text, [], n)) (omega arith)
  attach_lem a (pointer v) i =
      ap (rebuilt pointer) (attach_lem true v i) ∙ rebuilt-described pointer _ _ _ i
  attach_lem a (interface v) i =
      ap (rebuilt interface) (attach_lem false v i) ∙ rebuilt-described interface _ _ _ i
  attach_lem true (buffer b) i = refl
  attach_lem false (buffer b) i = refl
  attach_lem a (struct vs) i =
      ap (rebuilt struct) (attach_all_lem a vs i) ∙ rebuilt-described struct _ _ _ i
  attach_lem a (array vs) i =
      ap (rebuilt array) (attach_all_lem a vs i) ∙ rebuilt-described array _ _ _ i
  attach_lem a (slice vs) i =
      ap (rebuilt slice) (attach_all_lem true vs i) ∙ rebuilt-described slice _ _ _ i
  attach_lem a (dict keys vs) i =
      ap (rebuilt (dict keys)) (attach_all_lem false vs i) ∙ rebuilt-described (dict keys) _ _ _ i

  attach_all_lem :
      (a : Bool) (vs : Values) (i : ℕ)
      → attach_all a vs i ≡ described (are_attachable a vs) (all_numbered i vs) (all_contents vs) i
  attach_all_lem a nil i = ap (λ n. some (nil, [], n)) (omega arith)
  attach_all_lem a (cons v vs) i =
      ap (λ w. then_walk w (attach_all a vs)) (attach_lem a v i)
      ∙ (walk_rest (described (is_attachable a v) (numbered i v) (contents v) i) (attach_all a vs)
            (λ j. described (are_attachable a vs) (all_numbered j vs) (all_contents vs) j)
            (attach_all_lem a vs)
          ∙ joined-described (is_attachable a v) (are_attachable a vs) (numbered i v)
              (λ j. all_numbered j vs) (contents v) (all_contents vs) i)

-- `attachBuffer` fails exactly for a value with a buffer that cannot be addressed. Otherwise it gives the data
-- of all buffers from left to right, numbers the buffers in this order from the given number on, and moves the
-- number on by as many as there are.
pub attach-eq-described :
    (addressable : Bool) (v : Value) (i : ℕ)
    → attach addressable v i ≡ (
        if is_attachable addressable v
        then some (numbered i v, contents v, i + length (contents v))
        else none)
attach-eq-described addressable v i = attach_lem addressable v i
