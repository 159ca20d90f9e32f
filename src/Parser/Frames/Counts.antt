-- ===== src/Parser/Frames/Counts.antt =====
-- How many values `DecodeArgs` makes.
use go_socket_io.Prelude.{ℕ, suc, ◌≡◌, refl, ap, Bool, true, List, Bytes, arith}
use go_socket_io.Parser.Values.{
  Value, Values, nil, cons, detach, detach_all, Detached, panic, failed, restored, then_detached,
}
use go_socket_io.Parser.Frames.{
  Incoming, Decoder, Json, json_eof, json_error, values, Arguments, blocked, panics, fails,
  no_arguments, arguments, args_text, decode_args, decoded_args, Buffers, waiting, broken, gathered,
  read_buffers, with_buffers, detached,
}

abbrev pub count : Values → ℕ
count nil = 0
count (cons v vs) = suc (count vs)

-- The JSON makes this many values, if it makes any.
abbrev pub IsOf : ℕ → Json → Type 0
IsOf n json_eof = Unit
IsOf n (json_error e) = Unit
IsOf n (values vs) = count vs ≡ n

AreRestored : ℕ → Detached Values → Type 0
AreRestored n panic = Unit
AreRestored n failed = Unit
AreRestored n (restored vs) = count vs ≡ n

abbrev pub HasCount : ℕ → Arguments → Type 0
HasCount n blocked = Unit
HasCount n panics = Unit
HasCount n (fails e) = Unit
HasCount n no_arguments = Unit
HasCount n (arguments vs rest) = count vs ≡ n

then-AreRestored :
    (x : Detached Value) (y : Detached Values) (n : ℕ)
    → AreRestored n y
    → AreRestored (suc n) (then_detached x y)
unfolding AreRestored
then-AreRestored panic y n h = tt
then-AreRestored failed y n h = tt
then-AreRestored (restored v) panic n h = tt
then-AreRestored (restored v) failed n h = tt
then-AreRestored (restored v) (restored vs) n h = ap suc h

detach_all-AreRestored :
    (b : Bool) (vs : Values) (bs : List Bytes) → AreRestored (count vs) (detach_all b vs bs)
unfolding detach_all
detach_all-AreRestored b nil bs = unfold AreRestored in refl
detach_all-AreRestored b (cons v vs) bs =
    then-AreRestored (detach b v bs) (detach_all b vs bs) (count vs)
      (detach_all-AreRestored b vs bs)

detached-HasCount :
    (n : ℕ) (rest : List Incoming) (x : Detached Values)
    → AreRestored n x
    → HasCount n (detached rest x)
unfolding AreRestored
detached-HasCount n rest panic h = tt
detached-HasCount n rest failed h = tt
detached-HasCount n rest (restored vs) h = h

with_buffers-HasCount : (vs : Values) (bs : Buffers) → HasCount (count vs) (with_buffers vs bs)
with_buffers-HasCount vs waiting = tt
with_buffers-HasCount vs (broken e) = tt
with_buffers-HasCount vs (gathered bs rest) =
    detached-HasCount (count vs) rest (detach_all true vs bs) (detach_all-AreRestored true vs bs)

counted : (n : ℕ) (a : Arguments) (m : ℕ) → m ≡ n → HasCount m a → HasCount n a
counted n blocked m e h = tt
counted n panics m e h = tt
counted n (fails x) m e h = tt
counted n no_arguments m e h = tt
counted n (arguments vs rest) m e h = omega (arith, e, h)

decoded_args-HasCount :
    (n k : ℕ) (frames : List Incoming) (j : Json) → IsOf n j → HasCount n (decoded_args k frames j)
unfolding decoded_args
decoded_args-HasCount n k frames json_eof h = tt
decoded_args-HasCount n k frames (json_error e) h = tt
decoded_args-HasCount n k frames (values vs) h =
    counted n (with_buffers vs (read_buffers k frames)) (count vs) h
      (with_buffers-HasCount vs (read_buffers k frames))

-- As many values come out of `DecodeArgs` as the JSON has made.
pub decode_args-HasCount :
    (n : ℕ) (decode : Bytes → Json) (frames : List Incoming) (d : Decoder)
    → ((text : Bytes) → IsOf n (decode text))
    → HasCount n (decode_args decode frames d).0
unfolding decode_args
decode_args-HasCount n decode frames d law =
    decoded_args-HasCount n d.buffer_count frames (decode (args_text d)) (law (args_text d))
