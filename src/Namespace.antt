-- ===== src/Namespace.antt =====
-- namespaces.go, namespace_handler.go, namespace_conn.go and connection.go: a
-- connection's namespaces, and what each packet does to them. `V` stands for a `reflect.Value`. The user's
-- functions answer with what the handlers below say, and each call of one is recorded; what the decoder
-- answers is an argument. The contexts that users keep in a connection are left out.
pub mod Handlers
pub mod Errors
pub mod Functions
pub mod Packets
pub mod Acks
pub mod Members
use go_socket_io.Prelude.{
  ℕ, ◌+◌, Bool, true, false, Option, none, some, List, [], ◌∷◌, ◌++◌, Bytes, if◌then◌else◌, ◌==◌,
  ◌||◌, bytes_eq, ℕ-Eq, bytes-Eq,
}
use go_socket_io.Prelude.Dict
use go_socket_io.Prelude.Dict.{has_value}
use go_socket_io.Reader.{Err}
use go_socket_io.Parser.Header.{Header, connect, disconnect, event, ack, error, empty_header}
use go_socket_io.Broadcast
use go_socket_io.Broadcast.{RoomMap, is_empty}

-- `rootNamespace` is the empty name, and `aliasRootNamespace` is `/`.
abbrev pub root_namespace : Bytes
root_namespace = []

abbrev pub alias_root_namespace : Bytes
alias_root_namespace = 47 ∷ []

pub data Fault : Type 0 where
  unavailable_root_handler failed_connect_namespace handle_dispatch decode_args
        invalid_packet_type :
      Fault
  -- an error of the decoder or of a user's function
  raised : Err → Fault

-- A member of a room: a namespace's connection, by the session's id.
pub record Member : Type 0 where
  pub session_id : Bytes
  pub name : Bytes

module _ (V : Type 0) where
  -- The arguments that `DecodeArgs` gives, or its error.
  pub data Decoded : Type 0 where
    undecodable : Err → Decoded
    arguments : List V → Decoded

  -- `funcHandler.Call`: the values that the function returns, or what it panicked with.
  abbrev pub Answer : Type 0
  Answer = List V × Option Err

  -- `namespaceHandler`; a function that is nil is `none`.
  pub record Handler : Type 0 where
    pub on_connect : Option (Option Err)
    pub on_disconnect : Bool
    pub on_error : Bool
    pub events : List (Bytes × (List V → Answer))

  -- `namespaceConn`: its name, the handler whose broadcast it has, and the functions that wait for an ack.
  pub record NamespaceConn : Type 0 where
    pub namespace : Bytes
    pub broadcast : Bytes
    pub acks : List (ℕ × (List V → Answer))

  -- A call of a user's function.
  pub data Call : Type 0 where
    connected : Bytes → Call
    disconnected : Bytes → Call
    event_called : Bytes → Bytes → List V → Call
    ack_called : Bytes → ℕ → List V → Call
    -- with `none` for a connection that is nil
    error_called : Option Bytes → Fault → Call

  -- `conn`, with the handlers and broadcasts it shares with others, and what it has put into its channels.
  pub record Conn : Type 0 where
    pub session_id : Bytes
    pub last_id : ℕ
    pub handlers : List (Bytes × Handler)
    pub rooms : List (Bytes × RoomMap Member)
    pub namespaces : List (Bytes × NamespaceConn)
    pub written : List (Header × List V)
    pub errors : List (Bytes × Fault)
    pub calls : List Call
    pub closed : Bool

module _ {V : Type 0} where
  unfoldable pub write : Header → List V → Conn V → Conn V
  write h args c = record c { written = c.written ++ ((h, args) ∷ []) }

  unfoldable pub on_error : Bytes → Fault → Conn V → Conn V
  on_error namespace e c = record c { errors = c.errors ++ ((namespace, e) ∷ []) }

  unfoldable pub call : Call V → Conn V → Conn V
  call x c = record c { calls = c.calls ++ (x ∷ []) }

  unfoldable pub next_id : Conn V → ℕ × Conn V
  next_id c = (c.last_id + 1, record c { last_id = c.last_id + 1 })

  -- The broadcast of a handler.
  unfoldable pub rooms_at : Bytes → Conn V → RoomMap Member
  rooms_at namespace c = elim (Dict.lookup namespace c.rooms) [ none ↦ [] | some bc ↦ bc ]

  unfoldable pub member : NamespaceConn V → Conn V → Member
  member nc c = record { session_id = c.session_id; name = nc.namespace }

  unfoldable pub join : Bytes → NamespaceConn V → Conn V → Conn V
  join room nc c = record c {
    rooms =
        Dict.insert nc.broadcast
          (Broadcast.join (λ m. m.session_id) room (member nc c) (rooms_at nc.broadcast c)) c.rooms;
  }

  unfoldable pub leave_all : NamespaceConn V → Conn V → Conn V
  leave_all nc c = record c {
    rooms =
        Dict.insert nc.broadcast
          (Broadcast.leave_all (λ m. m.session_id) (member nc c) (rooms_at nc.broadcast c)) c.rooms;
  }

  unfoldable pub set_namespace : Bytes → NamespaceConn V → Conn V → Conn V
  set_namespace name nc c = record c { namespaces = Dict.insert name nc c.namespaces }

  unfoldable pub delete_namespace : Bytes → Conn V → Conn V
  delete_namespace name c = record c { namespaces = Dict.remove name c.namespaces }

  abbrev pub new_namespace_conn : Bytes → Bytes → NamespaceConn V
  new_namespace_conn name broadcast = record { namespace = name; broadcast = broadcast; acks = [] }

  -- The case `parser.Connect` of `dispatch`.
  unfoldable pub dispatch_connect : Handler V → Bytes → Conn V → Option Err × Conn V
  dispatch_connect h name c = elim h.on_connect [
    | none ↦ (none, c)
    | some e ↦ (e, call (connected name) c)
  ]

  -- The case `parser.Disconnect`.
  unfoldable pub dispatch_disconnect : Handler V → Bytes → Conn V → Conn V
  dispatch_disconnect h name c = if h.on_disconnect then call (disconnected name) c else c

  unfoldable pub dispatch_event : Handler V → Bytes → Bytes → List V → Conn V → Answer V × Conn V
  dispatch_event h name e args c = elim (Dict.lookup e h.events) [
    | none ↦ (([], none), c)
    | some f ↦ (f args, call (event_called name e args) c)
  ]

  -- `nc.ack.Store`, where the connection is one of the namespaces.
  unfoldable pub store_ack : ℕ → (List V → Answer V) → Bytes → Conn V → Conn V
  store_ack id f name c = elim (Dict.lookup name c.namespaces) [
    | none ↦ c
    | some nc ↦ set_namespace name (record nc { acks = Dict.insert id f nc.acks }) c
  ]

  -- `Emit` of a namespace's connection; `of_name` is the event's name as a value, and the function waits
  -- for the ack.
  unfoldable pub emit :
      (Bytes → V) → Bytes → List V → Option (List V → Answer V) → NamespaceConn V → Conn V → Conn V
  emit of_name e args ack_function nc c =
      let h = record empty_header {
        typ = event;
        namespace = if bytes_eq nc.namespace alias_root_namespace then [] else nc.namespace;
      } in
      elim ack_function [
        | none ↦ write h (of_name e ∷ args) c
        | some f ↦
            let (id, c') = next_id c in
            write (record h { id = id; need_ack = true }) (of_name e ∷ args)
              (store_ack id f nc.broadcast c')
      ]

  -- `conn.connect`; `encoded` is what the encoder answers to the connect packet.
  unfoldable pub connect_root : Option Err → Option (Handler V) → Conn V → Option Fault × Conn V
  connect_root encoded none c = (some unavailable_root_handler, c)
  connect_root encoded (some handler) c =
      let root : NamespaceConn V = new_namespace_conn alias_root_namespace root_namespace in
      let joined = join c.session_id root (set_namespace root_namespace root c) in
      elim encoded [
        | some e ↦ (some (raised e), joined)
        | none ↦ connect_result (dispatch_connect handler alias_root_namespace joined)
      ]
    where
      connect_result : Option Err × Conn V → Option Fault × Conn V
      connect_result (none, c) = (none, c)
      connect_result (some e, c) = (some (raised e), c)

  unfoldable pub connect_conn : Option Err → Conn V → Option Fault × Conn V
  unfolding connect_root dispatch_connect call
  connect_conn encoded c = connect_root encoded (Dict.lookup root_namespace c.handlers) c

  unfoldable pub tell_disconnected : NamespaceConn V → Option (Handler V) → Conn V → Conn V
  tell_disconnected nc none c = c
  tell_disconnected nc (some handler) c = dispatch_disconnect handler nc.namespace c

  -- `Close`: every namespace's connection leaves its rooms, its function for a disconnect called.
  unfoldable pub close_namespaces : List (Bytes × NamespaceConn V) → Conn V → Conn V
  close_namespaces [] c = c
  close_namespaces ((name, nc) ∷ ncs) c =
      close_namespaces ncs (leave_all nc (tell_disconnected nc (Dict.lookup name c.handlers) c))

  unfoldable pub close_conn : Conn V → Conn V
  unfolding close_namespaces tell_disconnected dispatch_disconnect call leave_all
  close_conn c = if c.closed then c else record (close_namespaces c.namespaces c) { closed = true }
