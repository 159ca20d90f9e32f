-- ===== src/Server/Rooms.antt =====
-- Where a connection's session stands in the rooms of the namespaces, while its packets are handled and after.
use mathlib.Core.Path.{subst}
use go_socket_io.Prelude.{
  true, false, none, some, List, [], ◌∷◌, Bytes, ◌≡◌, refl, sym, ◌∙◌, ap, inl, inr, arith,
  if◌then◌else◌, bytes_eq, bytes_eq_iff, bytes-Eq, ℕ-Eq, Bool-cases,
}
use go_socket_io.Prelude.Dict
use go_socket_io.Prelude.Dict.{lookup-insert, lookup-remove}
use go_socket_io.Broadcast
use go_socket_io.Broadcast.{RoomMap}
use go_socket_io.Broadcast.View.{occupant, occupant-leave_all}
use go_socket_io.Broadcast.Tidy.{IsTidy, join-IsTidy, leave-IsTidy, leave_all-IsTidy}
use go_socket_io.Namespace.{
  Member, NamespaceConn, Conn, rooms_at, member, join, leave_all, set_namespace,
}
use go_socket_io.Server.{leave}

abbrev pub RoomTable : Type 0
RoomTable = List (Bytes × RoomMap Member)

unfoldable pub at_name : Bytes → RoomTable → RoomMap Member
at_name name rooms = elim (Dict.lookup name rooms) as (λ x. RoomMap Member) [
  | none ↦ []
  | some bc ↦ bc
]

at_name-insert :
    (name k : Bytes) (bc : RoomMap Member) (rooms : RoomTable)
    → at_name name (Dict.insert k bc rooms) ≡ (if bytes_eq k name then bc else at_name name rooms)
unfolding at_name
at_name-insert name k bc rooms = ground (arith, lookup-insert k name bc rooms)

module _ {V : Type 0} where
  -- A namespace's connection stands under the name of the handler whose broadcast it has.
  abbrev pub AreOwn : List (Bytes × NamespaceConn V) → Type 0
  AreOwn [] = Unit
  AreOwn ((name, nc) ∷ ncs) = (nc.broadcast ≡ name) × AreOwn ncs

  -- The session is only in rooms of namespaces it is connected to.
  pub record IsHoused (id : Bytes) (rooms : RoomTable) (ncs : List (Bytes × NamespaceConn V))
      : Type 0 where
    pub tidy : (name : Bytes) → IsTidy (at_name name rooms)
    pub own : AreOwn ncs
    pub outside :
        (name room : Bytes)
        → Dict.lookup name ncs ≡ none
        → occupant room id (at_name name rooms) ≡ none

  abbrev pub Housed : Conn V → Type 0
  Housed c = IsHoused c.session_id c.rooms c.namespaces

  pub insert-AreOwn :
      (name : Bytes) (nc : NamespaceConn V) (ncs : List (Bytes × NamespaceConn V))
      → nc.broadcast ≡ name
      → AreOwn ncs
      → AreOwn (Dict.insert name nc ncs)
  unfolding Dict.insert
  insert-AreOwn name nc [] e h = (e, tt)
  insert-AreOwn name nc ((k, old) ∷ ncs) e h = ground (arith, insert-AreOwn name nc ncs e h.1)

  pub remove-AreOwn :
      (name : Bytes) (ncs : List (Bytes × NamespaceConn V))
      → AreOwn ncs
      → AreOwn (Dict.remove name ncs)
  unfolding Dict.remove
  remove-AreOwn name [] h = tt
  remove-AreOwn name ((k, old) ∷ ncs) h = ground (arith, remove-AreOwn name ncs h.1)

  pub lookup-AreOwn :
      (name : Bytes) (nc : NamespaceConn V) (ncs : List (Bytes × NamespaceConn V))
      → AreOwn ncs
      → Dict.lookup name ncs ≡ some nc
      → nc.broadcast ≡ name
  unfolding Dict.lookup
  lookup-AreOwn name nc [] h e = absurd (cc)
  lookup-AreOwn name nc ((k, old) ∷ ncs) h e =
      ground (arith, bytes_eq_iff k name, lookup-AreOwn name nc ncs h.1)

  -- One namespace has other rooms.
  one_namespace-IsHoused :
      (id k : Bytes) (bc : RoomMap Member) (rooms : RoomTable)
      (ncs ncs' : List (Bytes × NamespaceConn V))
      → IsHoused id rooms ncs
      → IsTidy bc
      → AreOwn ncs'
      → ((room : Bytes) → Dict.lookup k ncs' ≡ none → occupant room id bc ≡ none)
      → ((name : Bytes)
          → bytes_eq k name ≡ false
          → Dict.lookup name ncs' ≡ none
          → Dict.lookup name ncs ≡ none)
      → IsHoused id (Dict.insert k bc rooms) ncs'
  one_namespace-IsHoused id k bc rooms ncs ncs' h tidy own here there = record {
    tidy = λ name. elim (Bool-cases (bytes_eq k name)) [
      | inl t ↦ subst IsTidy (sym (found name t)) tidy
      | inr t ↦ subst IsTidy (sym (passed name t)) (h.tidy name)
    ];
    own = own;
    outside = λ name room e. elim (Bool-cases (bytes_eq k name)) [
      | inl t ↦
          ap (occupant room id) (found name t)
          ∙ here room (subst (λ n. Dict.lookup n ncs' ≡ none) (sym ((bytes_eq_iff k name).0 t)) e)
      | inr t ↦ ap (occupant room id) (passed name t) ∙ h.outside name room (there name t e)
    ];
  }
    where
      found : (name : Bytes) → bytes_eq k name ≡ true → at_name name (Dict.insert k bc rooms) ≡ bc
      found name t = at_name-insert name k bc rooms ∙ rw t refl

      passed :
          (name : Bytes)
          → bytes_eq k name ≡ false
          → at_name name (Dict.insert k bc rooms) ≡ at_name name rooms
      passed name t = at_name-insert name k bc rooms ∙ rw t refl

  -- A namespace's connection that joins or leaves a room.
  pub join-Housed :
      (room name : Bytes) (nc : NamespaceConn V) (c : Conn V)
      → Dict.lookup name c.namespaces ≡ some nc
      → Housed c
      → Housed (join room nc c)
  unfolding join rooms_at at_name
  join-Housed room name nc c g h =
      one_namespace-IsHoused c.session_id nc.broadcast
        (Broadcast.join (λ m. m.session_id) room (member nc c) (at_name nc.broadcast c.rooms))
        c.rooms c.namespaces c.namespaces h
        (join-IsTidy (λ m. m.session_id) room (member nc c) (at_name nc.broadcast c.rooms)
          (h.tidy nc.broadcast))
        h.own (λ r e. absurd (ground (arith, g, e, lookup-AreOwn name nc c.namespaces h.own g)))
        (λ n t e. e)

  pub leave-Housed :
      (room name : Bytes) (nc : NamespaceConn V) (c : Conn V)
      → Dict.lookup name c.namespaces ≡ some nc
      → Housed c
      → Housed (leave room nc c)
  unfolding rooms_at at_name
  leave-Housed room name nc c g h =
      one_namespace-IsHoused c.session_id nc.broadcast
        (Broadcast.leave (λ m. m.session_id) room (member nc c) (at_name nc.broadcast c.rooms))
        c.rooms c.namespaces c.namespaces h
        (leave-IsTidy (λ m. m.session_id) room (member nc c) (at_name nc.broadcast c.rooms)
          (h.tidy nc.broadcast))
        h.own (λ r e. absurd (ground (arith, g, e, lookup-AreOwn name nc c.namespaces h.own g)))
        (λ n t e. e)

  -- A new namespace's connection, in the room of its session.
  pub open-Housed :
      (room name : Bytes) (nc : NamespaceConn V) (c : Conn V)
      → nc.broadcast ≡ name
      → Housed c
      → Housed (join room nc (set_namespace name nc c))
  unfolding set_namespace
  open-Housed room name nc c e h =
      join-Housed room name nc (set_namespace name nc c)
        (unfold set_namespace in
          ground (arith, lookup-insert name name nc c.namespaces, bytes_eq_iff name name))
        (record {
          tidy = h.tidy;
          own = insert-AreOwn name nc c.namespaces e h.own;
          outside =
              λ n r g. h.outside n r (ground (arith, g, lookup-insert name n nc c.namespaces));
        })

  -- One that leaves all rooms, and the namespaces that are left.
  pub leave_all-IsHoused :
      (name : Bytes) (nc : NamespaceConn V) (c : Conn V) (ncs ncs' : List (Bytes × NamespaceConn V))
      → nc.broadcast ≡ name
      → AreOwn ncs'
      → ((n : Bytes)
          → bytes_eq name n ≡ false
          → Dict.lookup n ncs' ≡ none
          → Dict.lookup n ncs ≡ none)
      → IsHoused c.session_id c.rooms ncs
      → IsHoused c.session_id (leave_all nc c).rooms ncs'
  unfolding leave_all rooms_at at_name
  leave_all-IsHoused name nc c ncs ncs' e own there h =
      one_namespace-IsHoused c.session_id nc.broadcast
        (Broadcast.leave_all (λ m. m.session_id) (member nc c) (at_name nc.broadcast c.rooms))
        c.rooms ncs ncs' h
        (leave_all-IsTidy (λ m. m.session_id) (member nc c) (at_name nc.broadcast c.rooms)
          (h.tidy nc.broadcast))
        own
        (λ r g.
          occupant-leave_all (λ m. m.session_id) r c.session_id (member nc c)
            (at_name nc.broadcast c.rooms) (h.tidy nc.broadcast).0
          ∙ unfold member in ground (arith, bytes_eq_iff c.session_id c.session_id))
        (λ n t g. there n (ap (λ b. bytes_eq b n) (sym e) ∙ t) g)
