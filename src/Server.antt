-- ===== src/Server.antt =====
-- server.go and the constructor of connection.go: the handlers and rooms of all namespaces, the room methods,
-- and a connection from its start to its end. What the decoder gives for each packet is an input, and so is a
-- call of `Join` or `Leave` that a user's function makes.
pub mod Rooms
pub mod Serving
pub mod Kept
pub mod Ready
pub mod Ends
use go_socket_io.Prelude.{
  ℕ, Bool, true, false, Option, none, some, List, [], ◌∷◌, ◌++◌, Bytes, if◌then◌else◌, ◌==◌, ◌||◌,
  ◌≡◌, bytes_eq, ℕ-Eq, bytes-Eq,
}
use go_socket_io.Prelude.Dict
use go_socket_io.Prelude.Dict.{has_value}
use go_socket_io.Reader.{Err}
use go_socket_io.Parser.Header.{Header, connect, disconnect, event, ack}
use go_socket_io.Broadcast
use go_socket_io.Broadcast.{RoomMap, new_broadcast}
use go_socket_io.Engine
use go_socket_io.Namespace
use go_socket_io.Namespace.{
  Fault, raised, Decoded, Answer, Handler, NamespaceConn, Member, Conn, root_namespace,
  alias_root_namespace, rooms_at, member, join, new_namespace_conn, connect_conn, close_conn,
}
use go_socket_io.Namespace.Errors.{refused_calls}
use go_socket_io.Namespace.Handlers.{
  connect_packet_handler, disconnect_packet_handler, event_packet_handler, ack_packet_handler,
}

-- `getNamespace` and `createNamespace` read `/` as the root's name; so does `serveRead`.
unfoldable pub root_of : Bytes → Bytes
root_of name = if bytes_eq name alias_root_namespace then root_namespace else name

abbrev pub session_id : Member → Bytes
session_id m = m.session_id

module _ (V : Type 0) where
  pub record Server : Type 0 where
    pub handlers : List (Bytes × Handler V)
    pub rooms : List (Bytes × RoomMap Member)
    pub engine : Engine.Server

  -- A packet: its header, its event, what `DecodeArgs` and `DiscardLast` answer.
  pub record Packet : Type 0 where
    pub header : Header
    pub event : Bytes
    pub decoded : Decoded V
    pub discarded : Option Err

  pub data Input : Type 0 where
    undecoded : Err → Input
    received : Packet → Input
    -- `Join` and `Leave` of a namespace's connection.
    joined left : Bytes → Bytes → Input

module _ {V : Type 0} where
  abbrev pub new_handler : Handler V
  new_handler = record { on_connect = none; on_disconnect = false; on_error = false; events = [] }

  unfoldable pub get_namespace : Bytes → Server V → Option (Handler V)
  get_namespace name s = Dict.lookup (root_of name) s.handlers

  unfoldable pub create_namespace : Bytes → Server V → Handler V × Server V
  create_namespace name s = (
    new_handler,
    record s {
      handlers = Dict.insert (root_of name) new_handler s.handlers;
      rooms = Dict.insert (root_of name) new_broadcast s.rooms;
    },
  )

  -- The handler of a namespace, made where there is none, and changed.
  changed : Bytes → (Handler V → Handler V) → Handler V × Server V → Server V
  changed name f (h, s) = record s { handlers = Dict.insert (root_of name) (f h) s.handlers }

  unfoldable pub with_namespace : Bytes → (Handler V → Handler V) → Server V → Server V
  unfolding changed create_namespace get_namespace root_of
  with_namespace name f s = elim (get_namespace name s) [
    | none ↦ changed name f (create_namespace name s)
    | some h ↦ changed name f (h, s)
  ]

  unfoldable pub on_connect : Bytes → Option Err → Server V → Server V
  on_connect name answer = with_namespace name (λ h. record h { on_connect = some answer })

  unfoldable pub on_disconnect : Bytes → Server V → Server V
  on_disconnect name = with_namespace name (λ h. record h { on_disconnect = true })

  unfoldable pub on_error : Bytes → Server V → Server V
  on_error name = with_namespace name (λ h. record h { on_error = true })

  unfoldable pub on_event : Bytes → Bytes → (List V → Answer V) → Server V → Server V
  on_event name e f = with_namespace name (λ h. record h { events = Dict.insert e f h.events })

  unfoldable pub namespace_rooms : Bytes → Server V → RoomMap Member
  unfolding root_of
  namespace_rooms name s = elim (Dict.lookup (root_of name) s.rooms) [ none ↦ [] | some bc ↦ bc ]

  -- A method on the rooms of a namespace; `false` where there is none.
  unfoldable pub in_rooms : (RoomMap Member → RoomMap Member) → Bytes → Server V → Bool × Server V
  unfolding get_namespace root_of
  in_rooms f name s = elim (get_namespace name s) [
    | none ↦ (false, s)
    | some h ↦
        (true, record s { rooms = Dict.insert (root_of name) (f (namespace_rooms name s)) s.rooms })
  ]

  unfoldable pub join_room : Bytes → Bytes → Member → Server V → Bool × Server V
  join_room name room m = in_rooms (Broadcast.join session_id room m) name

  unfoldable pub leave_room : Bytes → Bytes → Member → Server V → Bool × Server V
  leave_room name room m = in_rooms (Broadcast.leave session_id room m) name

  unfoldable pub leave_all_rooms : Bytes → Member → Server V → Bool × Server V
  leave_all_rooms name m = in_rooms (Broadcast.leave_all session_id m) name

  unfoldable pub clear_room : Bytes → Bytes → Server V → Bool × Server V
  clear_room name room = in_rooms (Broadcast.clear room) name

  -- A method that reads the rooms of a namespace.
  unfoldable pub from_rooms : {A : Type 0} → (RoomMap Member → A) → Bytes → Server V → Option A
  unfolding get_namespace root_of
  from_rooms f name s = elim (get_namespace name s) [
    | none ↦ none
    | some h ↦ some (f (namespace_rooms name s))
  ]

  -- The connections that an event is emitted to, `none` for `false`.
  unfoldable pub broadcast_to_room : Bytes → Bytes → Server V → Option (List Member)
  broadcast_to_room name room = from_rooms (Broadcast.send room) name

  unfoldable pub broadcast_to_namespace : Bytes → Server V → Option (List Member)
  broadcast_to_namespace name = from_rooms Broadcast.send_all name

  unfoldable pub for_each : Bytes → Bytes → Server V → Option (List Member)
  for_each name room = from_rooms (Broadcast.for_each room) name

  unfoldable pub rooms : Bytes → Server V → Option (List Bytes)
  rooms name = from_rooms Broadcast.all_rooms name

  -- `none` for -1.
  unfoldable pub room_len : Bytes → Bytes → Server V → Option ℕ
  room_len name room = from_rooms (Broadcast.len room) name

  -- `newConn`, with the handlers and rooms that the connection shares.
  unfoldable pub conn_with :
      Bytes → List (Bytes × Handler V) → List (Bytes × RoomMap Member) → Conn V
  conn_with id handlers rooms = record {
    session_id = id;
    last_id = 0;
    handlers = handlers;
    rooms = rooms;
    namespaces = [];
    written = [];
    errors = [];
    calls = [];
    closed = false;
  }

  unfoldable pub new_conn : Bytes → Server V → Conn V
  unfolding conn_with
  new_conn id s = conn_with id s.handlers s.rooms

  -- One turn of `serveRead`, behind `DecodeHeader`; with `false` of the client's `clientRead`.
  unfoldable pub handle_packet : Bool → Packet V → Header → Conn V → Option Fault × Conn V
  handle_packet server p h c =
      if h.typ == ack
      then ack_packet_handler p.decoded h c
      else if h.typ == connect
      then connect_packet_handler server p.discarded h c
      else if h.typ == disconnect
      then disconnect_packet_handler p.decoded h c
      else if h.typ == event
      then event_packet_handler p.decoded p.event h c
      else (none, c)

  -- An error ends the loop.
  unfoldable pub ended_by : Option Fault × Conn V → Bool × Conn V
  ended_by (none, c) = (false, c)
  ended_by (some f, c) = (true, c)

  abbrev pub leave : Bytes → NamespaceConn V → Conn V → Conn V
  leave room nc c = record c {
    rooms =
        Dict.insert nc.broadcast
          (Broadcast.leave (λ m. m.session_id) room (member nc c) (rooms_at nc.broadcast c))
          c.rooms;
  }

  -- The `namespaceConn` that a user's function has of a namespace, also where the namespace is not connected any more.
  unfoldable pub reached : Bytes → Option (NamespaceConn V) → NamespaceConn V
  reached name none =
      new_namespace_conn (if bytes_eq name root_namespace then alias_root_namespace else name) name
  reached name (some nc) = nc

  unfoldable pub serve_input : Bool → Input V → Conn V → Bool × Conn V
  serve_input server (undecoded e) c = (true, Namespace.on_error root_namespace (raised e) c)
  serve_input server (received p) c =
      ended_by
        (handle_packet server p (record p.header { namespace = root_of p.header.namespace }) c)
  serve_input server (joined name room) c =
      (false, join room (reached name (Dict.lookup name c.namespaces)) c)
  serve_input server (left name room) c =
      (false, leave room (reached name (Dict.lookup name c.namespaces)) c)

  go_on : (Conn V → Bool × Conn V) → Bool × Conn V → Bool × Conn V
  go_on more (true, c) = (true, c)
  go_on more (false, c) = more c

  -- `serveRead`'s loop, and whether it has ended.
  unfoldable pub read_loop : Bool → List (Input V) → Conn V → Bool × Conn V
  unfolding go_on
  read_loop server [] c = (false, c)
  read_loop server (i ∷ is) c = go_on (read_loop server is) (serve_input server i c)

  -- Each `Join` and `Leave`, until the loop ends, is of a namespace that is connected at that moment.
  abbrev pub IsReached : Input V → Conn V → Type 0
  IsReached (joined name room) c = has_value (Dict.lookup name c.namespaces) ≡ true
  IsReached (left name room) c = has_value (Dict.lookup name c.namespaces) ≡ true
  IsReached _ c = Unit

  abbrev pub Onward : (Conn V → Type 0) → Bool × Conn V → Type 0
  Onward P (true, c) = Unit
  Onward P (false, c) = P c

  unfoldable pub AreReached : Bool → List (Input V) → Conn V → Type 0
  AreReached server [] c = Unit
  AreReached server (i ∷ is) c =
      IsReached i c × Onward (AreReached server is) (serve_input server i c)

  -- The deferred calls of `serveRead`.
  unfoldable pub read_end : Server V → Bool × Conn V → Conn V × Server V
  read_end s (false, c) = (c, record s { rooms = c.rooms })
  read_end s (true, c) =
      let c' = close_conn c in
      (c', record s { rooms = c'.rooms; engine = Engine.remove c.session_id s.engine })

  unfoldable pub connected : List (Input V) → Server V → Option Fault × Conn V → Conn V × Server V
  unfolding read_end
  connected inputs s (none, c) = read_end s (read_loop true inputs c)
  connected inputs s (some f, c) =
      let c' = close_conn c in
      (
        record c' { calls = c'.calls ++ refused_calls (Dict.lookup root_namespace s.handlers) f },
        record s { rooms = c'.rooms },
      )

  -- `serveConn`, where the encoder answers `encoded` to the first packet.
  unfoldable pub serve_conn : Option Err → Bytes → List (Input V) → Server V → Conn V × Server V
  unfolding connected
  serve_conn encoded id inputs s = connected inputs s (connect_conn encoded (new_conn id s))
