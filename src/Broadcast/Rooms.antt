-- ===== src/Broadcast/Rooms.antt =====
-- `Rooms` of broadcast.go, for one connection.
use go_socket_io.Prelude.{
  Bool, false, none, List, [], ◌∷◌, Bytes, ◌≡◌, refl, arith, bytes_eq, bytes_eq_iff, bytes-Eq, ◌||◌,
}
use go_socket_io.Prelude.Dict.{lookup, has_value, IsDistinct, lookup-remove}
use go_socket_io.Broadcast.{RoomMap, members, rooms_of, leave_all}
use go_socket_io.Broadcast.View.{occupant}

abbrev pub contains : Bytes → List Bytes → Bool
contains r [] = false
contains r (s ∷ ss) = bytes_eq s r || contains r ss

module _ {C : Type 0} (id : C → Bytes) where
  absent_room :
      (r : Bytes) (c : C) (bc : RoomMap C)
      → lookup r bc ≡ none
      → contains r (rooms_of id c bc) ≡ false
  unfolding lookup rooms_of
  absent_room r c [] h = refl
  absent_room r c ((room, m) ∷ bc) h = ground (arith, absent_room r c bc)

  -- Where the names of the rooms are distinct, `Rooms` names exactly the rooms where the connection's id is.
  contains-rooms_of :
      (r : Bytes) (c : C) (bc : RoomMap C)
      → IsDistinct bc
      → contains r (rooms_of id c bc) ≡ has_value (occupant r (id c) bc)
  unfolding rooms_of occupant members lookup
  contains-rooms_of r c [] h = refl
  contains-rooms_of r c ((room, m) ∷ bc) h =
      ground (arith, bytes_eq_iff room r, contains-rooms_of r c bc h.1, absent_room r c bc)

  -- After `LeaveAll` the connection is in no room.
  pub rooms_of-leave_all : (c : C) (bc : RoomMap C) → rooms_of id c (leave_all id c bc) ≡ []
  unfolding rooms_of leave_all
  rooms_of-leave_all c [] = refl
  rooms_of-leave_all c ((room, m) ∷ bc) =
      ground
        (arith, rooms_of-leave_all c bc, lookup-remove (id c) (id c) m, bytes_eq_iff (id c) (id c))
