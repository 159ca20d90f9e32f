-- ===== src/Broadcast/View.antt =====
-- What each method of the broadcast does to the question who is in which room.
use go_socket_io.Prelude.{
  true, ◌&&◌, Option, none, some, [], ◌∷◌, Bytes, ◌≡◌, refl, arith, if◌then◌else◌, bytes_eq,
  bytes_eq_iff, bytes-Eq, Bool-cases, inl, inr,
}
use go_socket_io.Prelude.Dict
use go_socket_io.Prelude.Dict.{lookup, lookup-insert, lookup-remove, IsDistinct}
use go_socket_io.Broadcast.{
  RoomMap, Members, members, join, leave, leave_from, leave_all, clear, is_empty,
}

-- The connection under an id in a room.
unfoldable pub occupant : {C : Type 0} → Bytes → Bytes → RoomMap C → Option C
occupant room i bc = lookup i (members room bc)

lookup_of_empty : {C : Type 0} (m : Members C) (i : Bytes) → is_empty m ≡ true → lookup i m ≡ none
unfolding lookup
lookup_of_empty [] i h = refl
lookup_of_empty (e ∷ m) i h = absurd (cc)

lookup_nothing : {C : Type 0} (i : Bytes) → lookup {V = C} i [] ≡ none
unfolding lookup
lookup_nothing i = refl

module _ {C : Type 0} (id : C → Bytes) where
  -- `Join` puts the connection into the room, under its id, and changes nothing else.
  pub occupant-join :
      (room r i : Bytes) (c : C) (bc : RoomMap C)
      → occupant r i (join id room c bc)
        ≡ (if bytes_eq room r && bytes_eq (id c) i then some c else occupant r i bc)
  unfolding occupant join members
  occupant-join room r i c bc = ground (
    arith,
    bytes_eq_iff room r,
    lookup-insert room r (Dict.insert (id c) c (members room bc)) bc,
    lookup-insert (id c) i c (members room bc),
  )

  occupant-leave_from :
      (room r i : Bytes) (c : C) (bc : RoomMap C) (o : Option (Members C))
      → lookup room bc ≡ o
      → occupant r i (leave_from id room c bc o)
        ≡ (if bytes_eq room r && bytes_eq (id c) i then none else occupant r i bc)
  unfolding occupant leave_from members
  occupant-leave_from room r i c bc none h =
      ground (arith, bytes_eq_iff room r, lookup_nothing {C = C} i)
  occupant-leave_from room r i c bc (some m) h = ground (
    arith,
    bytes_eq_iff room r,
    lookup-insert room r (Dict.remove (id c) m) bc,
    lookup-remove room r bc,
    lookup-remove (id c) i m,
    lookup_of_empty (Dict.remove (id c) m) i,
  )

  -- `Leave` takes the id out of that room, and changes nothing else.
  pub occupant-leave :
      (room r i : Bytes) (c : C) (bc : RoomMap C)
      → occupant r i (leave id room c bc)
        ≡ (if bytes_eq room r && bytes_eq (id c) i then none else occupant r i bc)
  unfolding leave
  occupant-leave room r i c bc = occupant-leave_from room r i c bc (lookup room bc) refl

  -- Where the names of the rooms are distinct, `LeaveAll` takes the id out of every room, and changes nothing
  -- else.
  pub occupant-leave_all :
      (r i : Bytes) (c : C) (bc : RoomMap C)
      → IsDistinct bc
      → occupant r i (leave_all id c bc) ≡ (if bytes_eq (id c) i then none else occupant r i bc)
  unfolding occupant leave_all members lookup
  occupant-leave_all r i c [] h = ground arith
  occupant-leave_all r i c ((room, m) ∷ bc) h = ground (
    arith,
    bytes_eq_iff room r,
    occupant-leave_all r i c bc h.1,
    lookup-remove (id c) i m,
    lookup_of_empty (Dict.remove (id c) m) i,
  )

  -- `Clear` empties that room, and changes nothing else.
  pub occupant-clear :
      (room r i : Bytes) (bc : RoomMap C)
      → occupant r i (clear room bc) ≡ (if bytes_eq room r then none else occupant r i bc)
  unfolding occupant clear members
  occupant-clear room r i bc = elim (Bool-cases (bytes_eq room r)) [
    | inl t ↦ ground (arith, lookup_nothing {C = C} i, lookup-remove room r bc)
    | inr t ↦ ground (arith, lookup_nothing {C = C} i, lookup-remove room r bc)
  ]
