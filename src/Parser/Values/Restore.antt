-- ===== src/Parser/Values/Restore.antt =====
-- `attachBuffer` on the one side and `detachBuffer` on the other, with the JSON between them.
use mathlib.Core.Path.{subst}
use go_socket_io.Prelude.{
  ℕ, zero, suc, ◌<◌, ◌≡◌, ◌≢◌, refl, sym, append-nil, ◌&&◌, Bool, true, false, Option, none, some,
  List, [], ◌∷◌, ◌++◌, Bytes, if◌then◌else◌, arith, length, length-append, append_assoc, Bool-cases,
  inl, inr, ap, ◌∙◌, get_elem?,
}
use go_socket_io.Parser.Values.{
  Buffer, Value, Values, other, pointer, interface, buffer, struct, array, slice, dict, nil, cons,
  Detached, panic, failed, restored, map_detached, then_detached, fetched, detach, detach_all,
}
use go_socket_io.Parser.Values.Numbering.{
  is_attachable, are_attachable, contents, all_contents, numbered, all_numbered,
}

-- What the JSON of a value keeps of a numbered buffer: its number and its mark.
unfoldable mutual
  pub without_data : Value → Value
  without_data (other text) = other text
  without_data (pointer v) = pointer (without_data v)
  without_data (interface v) = interface (without_data v)
  without_data (buffer b) = buffer (record b { content = [] })
  without_data (struct vs) = struct (all_without_data vs)
  without_data (array vs) = array (all_without_data vs)
  without_data (slice vs) = slice (all_without_data vs)
  without_data (dict keys vs) = dict keys (all_without_data vs)

  pub all_without_data : Values → Values
  all_without_data nil = nil
  all_without_data (cons v vs) = cons (without_data v) (all_without_data vs)

-- The value whose buffers have their data and no number or mark.
unfoldable mutual
  pub plain : Value → Value
  plain (other text) = other text
  plain (pointer v) = pointer (plain v)
  plain (interface v) = interface (plain v)
  plain (buffer b) = buffer (record { num = 0; is_binary = false; content = b.content })
  plain (struct vs) = struct (all_plain vs)
  plain (array vs) = array (all_plain vs)
  plain (slice vs) = slice (all_plain vs)
  plain (dict keys vs) = dict keys (all_plain vs)

  pub all_plain : Values → Values
  all_plain nil = nil
  all_plain (cons v vs) = cons (plain v) (all_plain vs)

get_behind :
    (front : List Bytes) (b : Bytes) (back : List Bytes)
    → get_elem? (front ++ (b ∷ back)) (length front) ≡ some b
get_behind [] b back = refl
get_behind (f ∷ fs) b back = get_behind fs b back

both : (a b : Bool) → a && b ≡ true → (a ≡ true) × (b ≡ true)
both a b h = ground arith

regroup : (front b c back : List Bytes) → front ++ ((b ++ c) ++ back) ≡ (front ++ b) ++ (c ++ back)
regroup front b c back = simp append_assoc

mutual
  unfolding detach is_attachable contents numbered without_data plain

  detach_lem :
      (a : Bool) (v : Value) (front back : List Bytes)
      → is_attachable a v ≡ true
      → detach a (without_data (numbered (length front) v)) (front ++ (contents v ++ back))
        ≡ restored (plain v)
  detach_lem a (other text) front back h = refl
  detach_lem a (pointer v) front back h = ap (map_detached pointer) (detach_lem true v front back h)
  detach_lem a (interface v) front back h =
      ap (map_detached interface) (detach_lem false v front back h)
  detach_lem true (buffer b) front back h = ap fetched (get_behind front b.content back)
  detach_lem false (buffer b) front back h = absurd (cc)
  detach_lem a (struct vs) front back h =
      ap (map_detached struct) (detach_all_lem a vs front back h)
  detach_lem a (array vs) front back h = ap (map_detached array) (detach_all_lem a vs front back h)
  detach_lem a (slice vs) front back h =
      ap (map_detached slice) (detach_all_lem true vs front back h)
  detach_lem a (dict keys vs) front back h =
      ap (map_detached (dict keys)) (detach_all_lem false vs front back h)

  detach_all_lem :
      (a : Bool) (vs : Values) (front back : List Bytes)
      → are_attachable a vs ≡ true
      → detach_all a
          (all_without_data (all_numbered (length front) vs))
          (front ++ (all_contents vs ++ back))
        ≡ restored (all_plain vs)
  detach_all_lem a nil front back h = refl
  detach_all_lem a (cons v vs) front back h =
      let parts = both (is_attachable a v) (are_attachable a vs) h in
      let first =
        ap (λ bs. detach a (without_data (numbered (length front) v)) (front ++ bs))
          (append_assoc (contents v) (all_contents vs) back)
        ∙ detach_lem a v front (all_contents vs ++ back) parts.0 in
      let rest =
        (λ i.
          detach_all a
            (all_without_data (all_numbered (sym (length-append front (contents v)) i) vs))
            (regroup front (contents v) (all_contents vs) back i))
        ∙ detach_all_lem a vs (front ++ contents v) back parts.1 in
      λ i. then_detached (first i) (rest i)

-- The buffers of a value come back: where every buffer can be addressed, the value with its buffers numbered
-- from 0 and their data left out, as its JSON has it, gets its data back from the list that `attachBuffer` gave.
detach-numbered :
    (addressable : Bool) (v : Value)
    → is_attachable addressable v ≡ true
    → detach addressable (without_data (numbered 0 v)) (contents v) ≡ restored (plain v)
detach-numbered addressable v h =
    ap (detach addressable (without_data (numbered 0 v))) (sym (append-nil (contents v)))
    ∙ detach_lem addressable v [] [] h

-- The same of a list of values.
pub detach_all-numbered :
    (addressable : Bool) (vs : Values)
    → are_attachable addressable vs ≡ true
    → detach_all addressable (all_without_data (all_numbered 0 vs)) (all_contents vs)
      ≡ restored (all_plain vs)
detach_all-numbered addressable vs h =
    ap (detach_all addressable (all_without_data (all_numbered 0 vs)))
      (sym (append-nil (all_contents vs)))
    ∙ detach_all_lem addressable vs [] [] h

-- Every placeholder has a number below the count.
unfoldable mutual
  pub AreBelow : ℕ → Value → Type 0
  AreBelow n (other text) = Unit
  AreBelow n (pointer v) = AreBelow n v
  AreBelow n (interface v) = AreBelow n v
  AreBelow n (buffer b) = if b.is_binary then b.num < n else Unit
  AreBelow n (struct vs) = AllBelow n vs
  AreBelow n (array vs) = AllBelow n vs
  AreBelow n (slice vs) = AllBelow n vs
  AreBelow n (dict keys vs) = AllBelow n vs

  pub AllBelow : ℕ → Values → Type 0
  AllBelow n nil = Unit
  AllBelow n (cons v vs) = AreBelow n v × AllBelow n vs

below_of :
    (b : Buffer) (n : ℕ)
    → b.is_binary ≡ true
    → (if b.is_binary then b.num < n else Unit {0})
    → b.num < n
below_of b n t h = subst (λ (c : Bool). if c then b.num < n else Unit {0}) t h

map_detached-ne-panic :
    {A B : Type 0} (f : A → B) (d : Detached A) → d ≢ panic → map_detached f d ≢ panic
map_detached-ne-panic f panic h = absurd (h refl)
map_detached-ne-panic f failed h = λ e. cc
map_detached-ne-panic f (restored a) h = λ e. cc

then_detached-ne-panic :
    (d : Detached Value) (ds : Detached Values)
    → d ≢ panic
    → ds ≢ panic
    → then_detached d ds ≢ panic
then_detached-ne-panic panic ds h k = absurd (h refl)
then_detached-ne-panic failed ds h k = λ e. cc
then_detached-ne-panic (restored v) ds h k = map_detached-ne-panic (cons v) ds k

get_below : (bs : List Bytes) (i : ℕ) → i < length bs → get_elem? bs i ≢ none
get_below [] i h = absurd (omega arith)
get_below (b ∷ bs) zero h = λ e. cc
get_below (b ∷ bs) (suc i) h = get_below bs i (omega arith)

fetched-ne-panic : (o : Option Bytes) → o ≢ none → fetched o ≢ panic
fetched-ne-panic none h = absurd (h refl)
fetched-ne-panic (some b) h = λ e. cc

mutual
  unfolding detach AreBelow

  no_panic :
      (a : Bool) (v : Value) (bs : List Bytes) → AreBelow (length bs) v → detach a v bs ≢ panic
  no_panic a (other text) bs h = λ e. cc
  no_panic a (pointer v) bs h =
      map_detached-ne-panic pointer (detach true v bs) (no_panic true v bs h)
  no_panic a (interface v) bs h =
      map_detached-ne-panic interface (detach false v bs) (no_panic false v bs h)
  no_panic false (buffer b) bs h = λ e. cc
  no_panic true (buffer b) bs h = elim (Bool-cases b.is_binary) [
    | inl t ↦
        rw t
          (fetched-ne-panic (get_elem? bs b.num) (get_below bs b.num (below_of b (length bs) t h)))
    | inr t ↦ rw t (λ e. cc)
  ]
  no_panic a (struct vs) bs h =
      map_detached-ne-panic struct (detach_all a vs bs) (no_panic_all a vs bs h)
  no_panic a (array vs) bs h =
      map_detached-ne-panic array (detach_all a vs bs) (no_panic_all a vs bs h)
  no_panic a (slice vs) bs h =
      map_detached-ne-panic slice (detach_all true vs bs) (no_panic_all true vs bs h)
  no_panic a (dict keys vs) bs h =
      map_detached-ne-panic (dict keys) (detach_all false vs bs) (no_panic_all false vs bs h)

  no_panic_all :
      (a : Bool) (vs : Values) (bs : List Bytes)
      → AllBelow (length bs) vs
      → detach_all a vs bs ≢ panic
  no_panic_all a nil bs h = λ e. cc
  no_panic_all a (cons v vs) bs h =
      then_detached-ne-panic (detach a v bs) (detach_all a vs bs) (no_panic a v bs h.0)
        (no_panic_all a vs bs h.1)
