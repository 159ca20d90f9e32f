-- ===== src/Broadcast.antt =====
-- broadcast.go: the rooms of a namespace, and the connections in each. The lock makes each method one
-- step, and `Send` and `SendAll` are the lists of the connections that they call `Emit` on.
pub mod View
pub mod Tidy
pub mod Rooms
pub mod Histories
use go_socket_io.Prelude.{
  ℕ, Bool, true, false, Option, none, some, List, [], ◌∷◌, ◌++◌, Bytes, map, length, if◌then◌else◌,
  bytes-Eq,
}
use go_socket_io.Prelude.Dict
use go_socket_io.Prelude.Dict.{has_value}

-- `map[string]Conn` and `map[string]map[string]Conn`
abbrev pub Members : Type 0 → Type 0
Members C = List (Bytes × C)

abbrev pub RoomMap : Type 0 → Type 0
RoomMap C = List (Bytes × Members C)

abbrev pub is_empty {ℓ} : {A : Type ℓ} → List A → Bool
is_empty [] = true
is_empty (x ∷ xs) = false

unfoldable pub new_broadcast : {C : Type 0} → RoomMap C
new_broadcast = []

-- `bc.rooms[room]`, an empty map where there is none.
unfoldable pub members : {C : Type 0} → Bytes → RoomMap C → Members C
members room bc = elim (Dict.lookup room bc) [ none ↦ [] | some m ↦ m ]

-- `id` is `Conn.ID`.
module _ {C : Type 0} (id : C → Bytes) where
  unfoldable pub join : Bytes → C → RoomMap C → RoomMap C
  join room connection bc =
      Dict.insert room (Dict.insert (id connection) connection (members room bc)) bc

  -- `delete(connections, id)`, and the room goes with its last connection.
  leave_from : Bytes → C → RoomMap C → Option (Members C) → RoomMap C
  leave_from room connection bc none = bc
  leave_from room connection bc (some m) =
      let m' = Dict.remove (id connection) m in
      if is_empty m' then Dict.remove room bc else Dict.insert room m' bc

  unfoldable pub leave : Bytes → C → RoomMap C → RoomMap C
  unfolding leave_from
  leave room connection bc = leave_from room connection bc (Dict.lookup room bc)

  unfoldable pub leave_all : C → RoomMap C → RoomMap C
  leave_all connection [] = []
  leave_all connection ((room, m) ∷ bc) =
      let rest = leave_all connection bc in
      let m' = Dict.remove (id connection) m in if is_empty m' then rest else (room, m') ∷ rest

  -- The rooms that the connection has joined; without a connection, `all_rooms`.
  unfoldable pub rooms_of : C → RoomMap C → List Bytes
  rooms_of connection [] = []
  rooms_of connection ((room, m) ∷ bc) =
      let rest = rooms_of connection bc in
      if has_value (Dict.lookup (id connection) m) then room ∷ rest else rest

module _ {C : Type 0} where
  unfoldable pub clear : Bytes → RoomMap C → RoomMap C
  clear room bc = Dict.remove room bc

  unfoldable pub send : Bytes → RoomMap C → List C
  send room bc = map (λ e. e.1) (members room bc)

  unfoldable pub send_all : RoomMap C → List C
  send_all [] = []
  send_all ((room, m) ∷ bc) = map (λ e. e.1) m ++ send_all bc

  -- `ForEach`: the connections that `f` is called on.
  unfoldable pub for_each : Bytes → RoomMap C → List C
  for_each room bc = elim (Dict.lookup room bc) [ none ↦ [] | some m ↦ map (λ e. e.1) m ]

  unfoldable pub len : Bytes → RoomMap C → ℕ
  len room bc = length (members room bc)

  unfoldable pub all_rooms : RoomMap C → List Bytes
  all_rooms bc = map (λ e. e.0) bc
