-- ===== src/Namespace/Members.antt =====
-- `Join` and `LeaveAll` of namespace_conn.go, and the rooms of broadcast.go.
use go_socket_io.Prelude.{some, List, [], Bytes, ◌≡◌, refl, bytes_eq_iff, bytes-Eq, arith, ap, ◌∙◌}
use go_socket_io.Prelude.Dict
use go_socket_io.Prelude.Dict.{lookup-insert}
use go_socket_io.Parser.Header.{Header}
use go_socket_io.Broadcast
use go_socket_io.Broadcast.Rooms.{rooms_of-leave_all}
use go_socket_io.Broadcast.View.{occupant, occupant-join}
use go_socket_io.Namespace.{
  Member, NamespaceConn, Conn, arguments, rooms_at, member, leave_all, join, delete_namespace,
  dispatch_disconnect, call,
}
use go_socket_io.Namespace.Handlers.{disconnect_packet_handler, disconnect_at}

module _ {V : Type 0} where
  rooms_at-insert :
      (name : Bytes) (bc : Broadcast.RoomMap Member) (c : Conn V)
      → rooms_at name (record c { rooms = Dict.insert name bc c.rooms }) ≡ bc
  unfolding rooms_at
  rooms_at-insert name bc c = rw (found, rooms_at) refl
    where
      found : Dict.lookup name (Dict.insert name bc c.rooms) ≡ some bc
      found = ground (arith, lookup-insert name name bc c.rooms, bytes_eq_iff name name)

  -- `Join` puts the connection into the room of its namespace, under the session's id.
  pub occupant-join_conn :
      (room : Bytes) (nc : NamespaceConn V) (c : Conn V)
      → occupant room c.session_id (rooms_at nc.broadcast (join room nc c)) ≡ some (member nc c)
  unfolding join
  occupant-join_conn room nc c =
      let id : Member → Bytes = λ m. m.session_id in
      ap (occupant room c.session_id) (
        rooms_at-insert nc.broadcast
          (Broadcast.join id room (member nc c) (rooms_at nc.broadcast c)) c)
      ∙ occupant-join id room room c.session_id (member nc c) (rooms_at nc.broadcast c)
      ∙ unfold member in
        ground (arith, bytes_eq_iff room room, bytes_eq_iff c.session_id c.session_id)

  gone_rooms :
      (nc : NamespaceConn V) (c : Conn V)
      → Broadcast.rooms_of
          (λ m. m.session_id)
          (member nc c)
          (rooms_at nc.broadcast (leave_all nc c))
        ≡ []
  unfolding leave_all
  gone_rooms nc c =
      let id : Member → Bytes = λ m. m.session_id in
      ap (Broadcast.rooms_of id (member nc c)) (
        rooms_at-insert nc.broadcast
          (Broadcast.leave_all id (member nc c) (rooms_at nc.broadcast c)) c)
      ∙ rooms_of-leave_all id (member nc c) (rooms_at nc.broadcast c)

  disconnect_rooms :
      (h : Header) (nc : NamespaceConn V) (c : Conn V)
      → rooms_at nc.broadcast (disconnect_at h (some nc) c).1
        ≡ rooms_at nc.broadcast (leave_all nc c)
  unfolding disconnect_at rooms_at dispatch_disconnect delete_namespace call
  disconnect_rooms h nc c = ground arith

  -- After a disconnect packet whose arguments can be decoded, the connection of its namespace is in no room.
  disconnect_packet_handler_rooms :
      (args : List V) (h : Header) (nc : NamespaceConn V) (c : Conn V)
      → Dict.lookup h.namespace c.namespaces ≡ some nc
      → Broadcast.rooms_of
          (λ m. m.session_id)
          (member nc c)
          (rooms_at nc.broadcast (disconnect_packet_handler (arguments args) h c).1)
        ≡ []
  unfolding disconnect_packet_handler
  disconnect_packet_handler_rooms args h nc c g =
      rw (g, disconnect_packet_handler)
        (ap (Broadcast.rooms_of (λ m. m.session_id) (member nc c)) (disconnect_rooms h nc c)
          ∙ gone_rooms nc c)
