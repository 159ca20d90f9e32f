-- ===== src/Broadcast/Tidy.antt =====
-- The shape of the maps in broadcast.go: the names of the rooms, the ids in each, and empty rooms.
use go_socket_io.Prelude.{
  false, Option, none, some, [], ◌∷◌, Bytes, ◌≡◌, refl, arith, bytes-Eq, Bool-cases, inl, inr,
}
use go_socket_io.Prelude.Dict
use go_socket_io.Prelude.Dict.{
  lookup, IsDistinct, lookup-insert, lookup-remove, insert-IsDistinct, remove-IsDistinct,
}
use go_socket_io.Broadcast.{
  RoomMap, Members, members, join, leave, leave_from, leave_all, clear, is_empty,
}

module _ {C : Type 0} where
  -- Each room has connections, each under its own id.
  abbrev pub AreRooms : RoomMap C → Type 0
  AreRooms [] = Unit
  AreRooms ((room, m) ∷ bc) = (is_empty m ≡ false) × IsDistinct m × AreRooms bc

  abbrev pub IsTidy : RoomMap C → Type 0
  IsTidy bc = IsDistinct bc × AreRooms bc

  pub members-IsDistinct :
      (room : Bytes) (bc : RoomMap C) → AreRooms bc → IsDistinct (members room bc)
  unfolding members lookup
  members-IsDistinct room [] h = tt
  members-IsDistinct room ((r, m) ∷ bc) h = ground (arith, members-IsDistinct room bc h.2)

  insert-AreRooms :
      (room : Bytes) (m : Members C) (bc : RoomMap C)
      → is_empty m ≡ false
      → IsDistinct m
      → AreRooms bc
      → AreRooms (Dict.insert room m bc)
  unfolding Dict.insert
  insert-AreRooms room m [] f d h = (f, d, tt)
  insert-AreRooms room m ((r, n) ∷ bc) f d h = ground (arith, insert-AreRooms room m bc f d h.2)

  remove-AreRooms : (room : Bytes) (bc : RoomMap C) → AreRooms bc → AreRooms (Dict.remove room bc)
  unfolding Dict.remove
  remove-AreRooms room [] h = tt
  remove-AreRooms room ((r, n) ∷ bc) h = ground (arith, remove-AreRooms room bc h.2)

  insert_is_not_empty : (i : Bytes) (c : C) (m : Members C) → is_empty (Dict.insert i c m) ≡ false
  unfolding Dict.insert
  insert_is_not_empty i c [] = refl
  insert_is_not_empty i c ((j, d) ∷ m) = ground arith

  pub clear-IsTidy : (room : Bytes) (bc : RoomMap C) → IsTidy bc → IsTidy (clear room bc)
  unfolding clear
  clear-IsTidy room bc h = (remove-IsDistinct room bc h.0, remove-AreRooms room bc h.1)

module _ {C : Type 0} (id : C → Bytes) where
  -- Where the names of the rooms are distinct, and each room has a connection and distinct ids, it is so too
  -- after `Join`.
  pub join-IsTidy : (room : Bytes) (c : C) (bc : RoomMap C) → IsTidy bc → IsTidy (join id room c bc)
  unfolding join
  join-IsTidy room c bc h =
      let m = Dict.insert (id c) c (members room bc) in
      (
        insert-IsDistinct room m bc h.0,
        insert-AreRooms room m bc (insert_is_not_empty (id c) c (members room bc))
            (insert-IsDistinct (id c) c (members room bc) (members-IsDistinct room bc h.1)) h.1,
      )

  lookup_room :
      (room : Bytes) (bc : RoomMap C) (m : Members C)
      → AreRooms bc
      → lookup room bc ≡ some m
      → IsDistinct m
  unfolding lookup
  lookup_room room [] m h e = absurd (cc)
  lookup_room room ((r, n) ∷ bc) m h e = ground (arith, lookup_room room bc m h.2)

  leave_from-IsTidy :
      (room : Bytes) (c : C) (bc : RoomMap C) (o : Option (Members C))
      → lookup room bc ≡ o
      → IsTidy bc
      → IsTidy (leave_from id room c bc o)
  unfolding leave_from
  leave_from-IsTidy room c bc none e h = h
  leave_from-IsTidy room c bc (some m) e h =
      let m' = Dict.remove (id c) m in
      elim (Bool-cases (is_empty m')) [
        | inl t ↦ rw (t) (remove-IsDistinct room bc h.0, remove-AreRooms room bc h.1)
        | inr t ↦ rw (t) (
          insert-IsDistinct room m' bc h.0,
          insert-AreRooms room m' bc t (remove-IsDistinct (id c) m (lookup_room room bc m h.1 e))
              h.1,
        )
      ]

  -- Where the names of the rooms are distinct, and each room has a connection and distinct ids, it is so too
  -- after `Leave`: a room that has lost its last connection is gone.
  pub leave-IsTidy :
      (room : Bytes) (c : C) (bc : RoomMap C) → IsTidy bc → IsTidy (leave id room c bc)
  unfolding leave
  leave-IsTidy room c bc h = leave_from-IsTidy room c bc (lookup room bc) refl h

  still_absent :
      (r : Bytes) (c : C) (bc : RoomMap C)
      → lookup r bc ≡ none
      → lookup r (leave_all id c bc) ≡ none
  unfolding lookup leave_all
  still_absent r c [] h = refl
  still_absent r c ((room, m) ∷ bc) h = ground (arith, still_absent r c bc)

  -- Where the names of the rooms are distinct, and each room has a connection and distinct ids, it is so too
  -- after `LeaveAll`: a room that has lost its last connection is gone.
  pub leave_all-IsTidy : (c : C) (bc : RoomMap C) → IsTidy bc → IsTidy (leave_all id c bc)
  unfolding leave_all
  leave_all-IsTidy c [] h = (tt, tt)
  leave_all-IsTidy c ((room, m) ∷ bc) ((absent, d), (f, dm, h)) =
      let m' = Dict.remove (id c) m in
      let rest = leave_all-IsTidy c bc (d, h) in
      elim (Bool-cases (is_empty m')) [
        | inl t ↦ rw (t) rest
        | inr t ↦
            rw (t)
              ((still_absent room c bc absent, rest.0), (t, remove-IsDistinct (id c) m dm, rest.1))
      ]
