-- ===== src/Redis.antt =====
-- redis_broadcast.go: the rooms of a namespace over several servers, which tell each other through a Redis
-- server. A message is what its JSON holds; Redis hands a published message to each subscriber. The lock makes
-- each method one step, and a wait for answers is a step before them and one behind them.
pub mod Channels
pub mod Cluster
pub mod Requests
pub mod Dispatch
pub mod Options
use go_socket_io.Prelude.{
  ℕ, ◌+◌, Bool, true, false, Option, none, some, List, [], ◌∷◌, ◌++◌, Bytes, map, length,
  if◌then◌else◌, ◌==◌, not, bytes_eq, bytes-Eq,
}
use go_socket_io.Prelude.Dict
use go_socket_io.Prelude.Dict.{has_value}
use go_socket_io.Broadcast
use go_socket_io.Broadcast.{RoomMap, is_empty}

-- `strings.Split(s, "#")`
abbrev pub hash : ℕ
hash = b'#'

abbrev pub onto_first : ℕ → List Bytes → List Bytes
onto_first b [] = (b ∷ []) ∷ []
onto_first b (part ∷ parts) = (b ∷ part) ∷ parts

unfoldable pub split : Bytes → List Bytes
split [] = [] ∷ []
split (b ∷ bs) = let parts = split bs in if b == hash then [] ∷ parts else onto_first b parts

-- The last part but one and the last, `none` where there is only one part.
unfoldable pub last_two : List Bytes → Option (Bytes × Bytes)
last_two [] = none
last_two (a ∷ []) = none
last_two (a ∷ b ∷ []) = some (a, b)
last_two (a ∷ b ∷ c ∷ parts) = last_two (b ∷ c ∷ parts)

-- `key`, the channel of a server's messages.
unfoldable pub channel_key : (prefix nsp uid : Bytes) → Bytes
channel_key prefix nsp uid = prefix ++ (hash ∷ (nsp ++ (hash ∷ uid)))

-- `roomLenRequest` and `allRoomRequest`, as the server that waits has them; the rooms are the keys of a map.
pub data Request : Type 0 where
  room_len : (num_sub msg_count connections : ℕ) → Bool → Request
  all_room : (num_sub msg_count : ℕ) → List Bytes → Bool → Request

-- What is published on the request and the response channel.
pub data Message : Type 0 where
  ask_len : (id room : Bytes) → Message
  ask_rooms : (id : Bytes) → Message
  ask_clear : (id room uid : Bytes) → Message
  tell_len : (id : Bytes) → ℕ → Message
  -- `none` where the field is no array.
  tell_rooms : (id : Bytes) → Option (List Bytes) → Message

-- A server's broadcast of one namespace. `E` is an event with its arguments; `emitted` are the calls of `Emit`.
pub record Node (C E : Type 0) : Type 0 where
  pub nsp : Bytes
  pub uid : Bytes
  pub prefix : Bytes
  pub rooms : RoomMap C
  pub requests : List (Bytes × Request)
  pub emitted : List (C × E)

-- What `onMessage` finds in the JSON: it is malformed or has no texts for room and event, it has no two options, or it
-- is complete.
module _ (E : Type 0) where
  pub data Body : Type 0 where
    malformed out_of_range : Body
    body : (room : Bytes) → E → Body

-- How `onMessage` returns: with a panic, with an error, which ends `dispatch`, or without.
module _ (C E : Type 0) where
  pub data Heard : Type 0 where
    crashed ended : Heard
    goes_on : Node C E → Heard

abbrev pub has_room : Bytes → List Bytes → Bool
has_room room [] = false
has_room room (r ∷ rs) = if bytes_eq r room then true else has_room room rs

-- `rooms[room] = true` for each of the rooms.
unfoldable pub add_rooms : List Bytes → List Bytes → List Bytes
add_rooms [] known = known
add_rooms (r ∷ rs) known = add_rooms rs (if has_room r known then known else known ++ (r ∷ []))

-- A response that has been counted; one of the other type is a panic.
counted : Message → Request → Option Request
counted (tell_len i k) (room_len num_sub msg_count connections done) = some (
    room_len num_sub (msg_count + 1) (connections + k)
      (if num_sub == msg_count + 1 then true else done))
counted (tell_rooms i none) (all_room num_sub msg_count rs done) =
    some (all_room num_sub msg_count rs true)
counted (tell_rooms i (some more)) (all_room num_sub msg_count rs done) = some (
    all_room num_sub (msg_count + 1) (add_rooms more rs)
      (if num_sub == msg_count + 1 then true else done))
counted _ request = none

abbrev pub response_id : Message → Option Bytes
response_id (tell_len i k) = some i
response_id (tell_rooms i rs) = some i
response_id _ = none

len_of : Option Request → Option ℕ
len_of (some (room_len num_sub msg_count connections true)) = some connections
len_of _ = none

rooms_in : Option Request → Option (List Bytes)
rooms_in (some (all_room num_sub msg_count rs true)) = some rs
rooms_in _ = none

module _ {C E : Type 0} (id : C → Bytes) where
  unfoldable pub join : Bytes → C → Node C E → Node C E
  join room c n = record n { rooms = Broadcast.join id room c n.rooms }

  unfoldable pub leave : Bytes → C → Node C E → Node C E
  leave room c n = record n { rooms = Broadcast.leave id room c n.rooms }

  unfoldable pub leave_all : C → Node C E → Node C E
  leave_all c n = record n { rooms = Broadcast.leave_all id c n.rooms }

  unfoldable pub get_rooms_by_conn : C → Node C E → List Bytes
  get_rooms_by_conn c n = Broadcast.rooms_of id c n.rooms

module _ {C E : Type 0} where
  unfoldable pub emit_to : List C → E → Node C E → Node C E
  emit_to cs e n = record n { emitted = n.emitted ++ map (λ c. (c, e)) cs }

  -- `send` and `sendAll`, which do not publish.
  unfoldable pub send_local : Bytes → E → Node C E → Node C E
  unfolding emit_to
  send_local room e n = emit_to (Broadcast.send room n.rooms) e n

  unfoldable pub send_all_local : E → Node C E → Node C E
  unfolding emit_to
  send_all_local e n = emit_to (Broadcast.send_all n.rooms) e n

  unfoldable pub clear_local : Bytes → Node C E → Node C E
  clear_local room n = record n { rooms = Broadcast.clear room n.rooms }

  unfoldable pub all_rooms_local : Node C E → List Bytes
  all_rooms_local n = Broadcast.all_rooms n.rooms

  heard_body : Body E → Node C E → Heard C E
  heard_body malformed n = ended
  heard_body out_of_range n = crashed
  heard_body (body room e) n =
      if not (is_empty room) then goes_on (send_local room e n) else goes_on (send_all_local e n)

  message_from : Option (Bytes × Bytes) → Body E → Node C E → Heard C E
  unfolding heard_body
  message_from none b n = crashed
  message_from (some (nsp, uid)) b n =
      if not (bytes_eq n.nsp nsp)
      then goes_on n
      else if bytes_eq n.uid uid
      then goes_on n
      else heard_body b n

  -- `onMessage`: only a message from another server of the namespace is read.
  unfoldable pub on_message : Bytes → Body E → Node C E → Heard C E
  unfolding message_from
  on_message channel b n = message_from (last_two (split channel)) b n

  -- `onRequest`: the node, and what it publishes.
  unfoldable pub on_request : Message → Node C E → Node C E × List Message
  on_request (ask_len i room) n = (n, tell_len i (Broadcast.len room n.rooms) ∷ [])
  on_request (ask_rooms i) n = (n, tell_rooms i (some (all_rooms_local n)) ∷ [])
  on_request (ask_clear i room uid) n =
      if bytes_eq n.uid uid then (n, []) else (clear_local room n, [])
  on_request (tell_len i k) n = (n, [])
  on_request (tell_rooms i rs) n = (n, [])

  put_request : Bytes → Node C E → Option Request → Option (Node C E)
  put_request i n none = none
  put_request i n (some request) = some (record n { requests = Dict.insert i request n.requests })

  response_to : Message → Bytes → Option Request → Node C E → Option (Node C E)
  response_to m i none n = some n
  response_to m i (some request) n = put_request i n (counted m request)

  -- `onResponse`, `none` for a panic.
  unfoldable pub on_response : Message → Node C E → Option (Node C E)
  unfolding response_to put_request counted
  on_response m n = elim (response_id m) [
    | none ↦ some n
    | some i ↦ response_to m i (Dict.lookup i n.requests) n
  ]

  -- `Len` up to its wait, with what `getNumSub` answers and whether the request is published; `none` where it
  -- returns -1.
  unfoldable pub begin_len : Bytes → Option ℕ → Bool → Node C E → Bool × Node C E
  begin_len i none published n = (false, n)
  begin_len i (some num_sub) published n =
      (published, record n { requests = Dict.insert i (room_len num_sub 0 0 false) n.requests })

  -- `Len` behind its wait, `none` where it still waits.
  unfoldable pub end_len : Bytes → Node C E → Option ℕ × Node C E
  unfolding len_of
  end_len i n = elim (len_of (Dict.lookup i n.requests)) [
    | none ↦ (none, n)
    | some k ↦ (some k, record n { requests = Dict.remove i n.requests })
  ]

  -- `AllRooms` in the same two parts; an error of `getNumSub` counts as no subscribers.
  unfoldable pub begin_all_rooms : Bytes → Option ℕ → Bool → Node C E → Bool × Node C E
  begin_all_rooms i num_sub published n = (
    published,
    record n {
      requests =
          Dict.insert i (all_room (elim num_sub [ none ↦ 0 | some k ↦ k ]) 0 [] false) n.requests;
    },
  )

  unfoldable pub end_all_rooms : Bytes → Node C E → Option (List Bytes) × Node C E
  unfolding rooms_in
  end_all_rooms i n = elim (rooms_in (Dict.lookup i n.requests)) [
    | none ↦ (none, n)
    | some rs ↦ (some rs, record n { requests = Dict.remove i n.requests })
  ]
