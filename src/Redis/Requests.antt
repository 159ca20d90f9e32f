-- ===== src/Redis/Requests.antt =====
-- `Len` and `AllRooms` over several servers: the answers are counted as they come, in any order.
use go_socket_io.Prelude.{
  ℕ, suc, ◌+◌, ◌<◌, ◌≤◌, ◌≢◌, ◌≡◌, refl, sym, ap, ◌∙◌, Bool, true, false, Option, none, some, List,
  [], ◌∷◌, ◌++◌, Bytes, map, length, if◌then◌else◌, ◌==◌, arith, bytes_eq_iff, bytes-Eq,
}
use go_socket_io.Prelude.Dict
use go_socket_io.Prelude.Dict.{lookup-insert}
use go_socket_io.Broadcast
use go_socket_io.Redis.{
  Request, room_len, Message, ask_len, tell_len, Node, on_request, on_response, begin_len, end_len,
  len_of, counted, response_to, put_request,
}

abbrev pub sum : List ℕ → ℕ
sum [] = 0
sum (k ∷ ks) = k + sum ks

flagged :
    (total count s : ℕ) (flag : Bool)
    → len_of (some (room_len total count s flag)) ≡ (if flag then some s else none)
unfolding len_of
flagged total count s true = refl
flagged total count s false = refl

module _ {C E : Type 0} where
  -- What the servers answer to a request, each in its turn.
  unfoldable pub answers : Message → List (Node C E) → List Message
  answers m [] = []
  answers m (n ∷ ns) = (on_request m n).1 ++ answers m ns

  -- The answers as they reach the server that waits; `none` where it panics.
  unfoldable pub hear_all : List Message → Node C E → Option (Node C E)
  hear_all [] n = some n
  hear_all (m ∷ ms) n = elim (on_response m n) [ none ↦ none | some n' ↦ hear_all ms n' ]

  -- The server with its request at that count.
  abbrev pub asked : Bytes → Request → Node C E → Node C E
  asked i request n = record n { requests = Dict.insert i request n.requests }

  found :
      (i : Bytes) (request : Request) (n : Node C E)
      → Dict.lookup i (asked i request n).requests ≡ some request
  found i request n = ground (arith, lookup-insert i i request n.requests, bytes_eq_iff i i)

  one_answer :
      (i : Bytes) (k total count connections : ℕ) (n : Node C E)
      → Dict.lookup i n.requests ≡ some (room_len total count connections (total == count))
      → count < total
      → on_response (tell_len i k) n
        ≡ some (asked i (room_len total (count + 1) (connections + k) (total == count + 1)) n)
  unfolding on_response response_to put_request counted
  one_answer i k total count connections n known below =
      rw (known, response_to)
        (λ j. some (asked i (room_len total (count + 1) (connections + k) (flag j)) n))
    where
      flag : (if total == count + 1 then true else total == count) ≡ (total == count + 1)
      flag = ground arith

  hear_lens :
      (i room : Bytes) (total count connections : ℕ) (ns : List (Node C E)) (n : Node C E)
      → Dict.lookup i n.requests ≡ some (room_len total count connections (total == count))
      → count + length ns ≤ total
      → (n' : Node C E) × (hear_all (answers (ask_len i room) ns) n ≡ some n')
        × (Dict.lookup i n'.requests
            ≡ some (
                room_len total
                  (count + length ns)
                  (connections + sum (map (λ m. Broadcast.len room m.rooms) ns))
                  (total == count + length ns)))
  unfolding hear_all answers on_request
  hear_lens i room total count connections [] n known below = (
    n,
    refl,
    known ∙ (λ j. some (
        room_len total (none_more count j) (none_more connections j) (total == none_more count j))),
  )
    where
      none_more : (c : ℕ) → c ≡ c + 0
      none_more c = omega arith
  hear_lens i room total count connections (m ∷ ns) n known below =
      let k = Broadcast.len room m.rooms in
      let next = room_len total (count + 1) (connections + k) (total == count + 1) in
      let (n', r, e) =
        hear_lens i room total (count + 1) (connections + k) ns (asked i next n) (found i next n)
          (omega arith) in
      (
        n',
        rw (one_answer i k total count connections n known (omega arith), hear_all) r,
        e ∙ (λ j. some (
            room_len total (next_one count (length ns) j)
              (shift connections k (sum (map (λ m. Broadcast.len room m.rooms) ns)) j)
              (total == next_one count (length ns) j))),
      )
    where
      next_one : (a c : ℕ) → a + 1 + c ≡ a + suc c
      next_one a c = omega arith

      shift : (a b c : ℕ) → a + b + c ≡ a + (b + c)
      shift a b c = omega arith

  ended :
      (i : Bytes) (o : Option ℕ) (n : Node C E)
      → (elim o as (λ x. Option ℕ × Node C E) [
        | none ↦ (none, n)
        | some k ↦ (some k, record n { requests = Dict.remove i n.requests })
      ]).0
        ≡ o
  ended i none n = refl
  ended i (some k) n = refl

  end_first :
      (i : Bytes) (n : Node C E) {o : Option Request}
      → Dict.lookup i n.requests ≡ o
      → (end_len i n).0 ≡ len_of o
  unfolding end_len
  end_first i n e = ended i (len_of (Dict.lookup i n.requests)) n ∙ ap len_of e

  -- `Len` waits until as many servers have answered as Redis counted, in whatever order they do, and then
  -- returns the number of connections that the room has on all of them together; if Redis counted any, and no
  -- more answer than it counted.
  pub end_len-answers :
      (i room : Bytes) (total : ℕ) (ns : List (Node C E)) (n : Node C E)
      → total ≢ 0
      → length ns ≤ total
      → (n' : Node C E) × (hear_all
            (answers (ask_len i room) ns)
            (begin_len i (some total) true n).1
          ≡ some n')
        × ((end_len i n').0 ≡ (
            if total == length ns
            then some (sum (map (λ m. Broadcast.len room m.rooms) ns))
            else none))
  unfolding begin_len
  end_len-answers i room total ns n some_count below =
      let start = room_len total 0 0 (total == 0) in
      let (n', r, e) =
        hear_lens i room total 0 0 ns (asked i start n) (found i start n) (omega arith) in
      (
        n',
        ap (λ b. hear_all (answers (ask_len i room) ns) (asked i (room_len total 0 0 b) n))
              (sym not_none)
            ∙ r,
        end_first i n' e
            ∙ (flagged total (0 + length ns) (0 + sum (map (λ m. Broadcast.len room m.rooms) ns))
                  (total == 0 + length ns)
                ∙ (λ j.
                    if total == from_zero (length ns) j
                    then some (from_zero (sum (map (λ m. Broadcast.len room m.rooms) ns)) j)
                    else none)),
      )
    where
      from_zero : (c : ℕ) → 0 + c ≡ c
      from_zero c = omega arith

      not_none : (total == 0) ≡ false
      not_none = ground arith
