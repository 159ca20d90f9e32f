-- ===== src/Broadcast/Histories.antt =====
-- Any history of calls of broadcast.go's methods, and what an abstract table of who is in which room says of it.
use go_socket_io.Prelude.{
  Bool, ◌&&◌, Option, none, some, List, [], ◌∷◌, Bytes, ◌≡◌, refl, ◌∙◌, if◌then◌else◌, bytes_eq,
  bytes-Eq,
}
use go_socket_io.Prelude.Dict.{lookup}
use go_socket_io.Broadcast.{RoomMap, new_broadcast, members, join, leave, leave_all, clear}
use go_socket_io.Broadcast.View.{
  occupant, occupant-join, occupant-leave, occupant-leave_all, occupant-clear,
}
use go_socket_io.Broadcast.Tidy.{IsTidy, join-IsTidy, leave-IsTidy, leave_all-IsTidy, clear-IsTidy}

pub data Op (C : Type 0) : Type 0 where
  joined left : Bytes → C → Op C
  left_all : C → Op C
  cleared : Bytes → Op C

-- Who is in a room under an id.
abbrev pub Table : Type 0 → Type 0
Table C = Bytes → Bytes → Option C

abbrev pub nobody : {C : Type 0} → Table C
nobody r i = none

abbrev pub Shows : {C : Type 0} → RoomMap C → Table C → Type 0
Shows {C} bc table = ((r i : Bytes) → occupant r i bc ≡ table r i) × IsTidy bc

module _ {C : Type 0} (id : C → Bytes) where
  abbrev pub record_op : Op C → Table C → Table C
  record_op (joined room c) table r i =
      if bytes_eq room r && bytes_eq (id c) i then some c else table r i
  record_op (left room c) table r i =
      if bytes_eq room r && bytes_eq (id c) i then none else table r i
  record_op (left_all c) table r i = if bytes_eq (id c) i then none else table r i
  record_op (cleared room) table r i = if bytes_eq room r then none else table r i

  abbrev pub record_all : List (Op C) → Table C → Table C
  record_all [] table = table
  record_all (op ∷ ops) table = record_all ops (record_op op table)

  abbrev pub apply : Op C → RoomMap C → RoomMap C
  apply (joined room c) bc = join id room c bc
  apply (left room c) bc = leave id room c bc
  apply (left_all c) bc = leave_all id c bc
  apply (cleared room) bc = clear room bc

  abbrev pub apply_all : List (Op C) → RoomMap C → RoomMap C
  apply_all [] bc = bc
  apply_all (op ∷ ops) bc = apply_all ops (apply op bc)

  kept :
      {A : Type 0} (b : Bool) (x : A) {y z : A}
      → y ≡ z
      → (if b then x else y) ≡ (if b then x else z)
  kept b x e i = if b then x else (e i)

  apply-Shows :
      (op : Op C) (bc : RoomMap C) (table : Table C)
      → Shows bc table
      → Shows (apply op bc) (record_op op table)
  apply-Shows (joined room c) bc table h = (
    λ r i.
        occupant-join id room r i c bc
        ∙ kept (bytes_eq room r && bytes_eq (id c) i) (some c) (h.0 r i),
    join-IsTidy id room c bc h.1,
  )
  apply-Shows (left room c) bc table h = (
    λ r i.
        occupant-leave id room r i c bc
        ∙ kept (bytes_eq room r && bytes_eq (id c) i) none (h.0 r i),
    leave-IsTidy id room c bc h.1,
  )
  apply-Shows (left_all c) bc table h = (
    λ r i. occupant-leave_all id r i c bc h.1.0 ∙ kept (bytes_eq (id c) i) none (h.0 r i),
    leave_all-IsTidy id c bc h.1,
  )
  apply-Shows (cleared room) bc table h = (
    λ r i. occupant-clear id room r i bc ∙ kept (bytes_eq room r) none (h.0 r i),
    clear-IsTidy room bc h.1,
  )

  apply_all-Shows :
      (ops : List (Op C)) (bc : RoomMap C) (table : Table C)
      → Shows bc table
      → Shows (apply_all ops bc) (record_all ops table)
  apply_all-Shows [] bc table h = h
  apply_all-Shows (op ∷ ops) bc table h =
      apply_all-Shows ops (apply op bc) (record_op op table) (apply-Shows op bc table h)

  empty-Shows : Shows {C = C} new_broadcast nobody
  unfolding new_broadcast occupant members lookup
  empty-Shows = (λ r i. refl, (tt, tt))

  -- After any calls of `Join`, `Leave`, `LeaveAll` and `Clear` on a new broadcast, its rooms show who is
  -- where as the table of these calls says, the names of the rooms and the ids in each are distinct, and no room
  -- is empty.
  pub history-Shows :
      (ops : List (Op C)) → Shows (apply_all ops new_broadcast) (record_all ops nobody)
  history-Shows ops = apply_all-Shows ops new_broadcast nobody empty-Shows
