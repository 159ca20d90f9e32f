-- ===== src/Client.antt =====
-- client.go: a client's address and namespace, its handlers, and its connection from `Connect` to the end of
-- `clientRead`. The packages `net/url` and `path` are parameters, and so is what the dialer answers. The turns of
-- `clientRead`, `clientWrite` and `clientError` are those of Server, Exchange and Namespace/Errors.
pub mod Connects
pub mod Ends
use mathlib.Core.Option.{map}
use go_socket_io.Prelude.{
  ℕ, Bool, true, false, Option, none, some, List, [], ◌∷◌, ◌++◌, Bytes, if◌then◌else◌, ◌||◌,
  bytes_eq, bytes-Eq,
}
use go_socket_io.Prelude.Dict
use go_socket_io.Reader.{Err}
use go_socket_io.Parser.Header.{Header}
use go_socket_io.Broadcast.{RoomMap, new_broadcast}
use go_socket_io.Namespace
use go_socket_io.Namespace.{
  Fault, raised, unavailable_root_handler, Answer, Handler, NamespaceConn, Member, Conn,
  root_namespace, new_namespace_conn, set_namespace, join, close_conn,
}
use go_socket_io.Parser.Values.{Value}
use go_socket_io.Parser.Frames.{Frame, Incoming, Decoder, Json}
use go_socket_io.Namespace.Errors.{refused_calls, serve_error}
use go_socket_io.Exchange.{serve_write}
use go_socket_io.Exchange.Loop.{Served, serve_read}
use go_socket_io.Server.{root_of, new_handler, conn_with, Input, read_loop}

-- What `url.Parse` answers.
module _ (U : Type 0) where
  pub data Parsed : Type 0 where
    unparsed : Err → Parsed
    parsed : U → Parsed

-- What the dialer answers: an error, or a connection with its session's id.
pub data Dialed : Type 0 where
  undialed : Err → Dialed
  dialed : Bytes → Dialed

module _ (V : Type 0) where
  -- `Client`; the rooms are those of its handlers' broadcasts, and `conn` is nil before `Connect`.
  pub record Client : Type 0 where
    pub namespace : Bytes
    pub url : Bytes
    pub handlers : List (Bytes × Handler V)
    pub rooms : List (Bytes × RoomMap Member)
    pub conn : Option (Conn V)

  -- What `NewClient` answers.
  pub data Made : Type 0 where
    empty_addr : Made
    bad_addr : Err → Made
    made : Client → Made

-- `fmtNS`.
abbrev pub fmt_ns : Bytes → Bytes
fmt_ns ns = root_of ns

-- `strings.HasSuffix`.
has_suffix : Bytes → Bytes → Bool
has_suffix suffix [] = bytes_eq [] suffix
has_suffix suffix (b ∷ bs) = bytes_eq (b ∷ bs) suffix || has_suffix suffix bs

-- "/socket.io" and "socket.io".
abbrev pub slash_socket_io : Bytes
slash_socket_io = 47 ∷ 115 ∷ 111 ∷ 99 ∷ 107 ∷ 101 ∷ 116 ∷ 46 ∷ 105 ∷ 111 ∷ []

abbrev pub socket_io : Bytes
socket_io = 115 ∷ 111 ∷ 99 ∷ 107 ∷ 101 ∷ 116 ∷ 46 ∷ 105 ∷ 111 ∷ []

module _ {U : Type 0} (path : U → Bytes) (with_path : Bytes → U → U)
    (escaped_path : U → Bytes) where
  -- The escaped path, with a slash behind it where it ends in "socket.io".
  with_slash : U → U
  with_slash u =
      let escaped = with_path (escaped_path u) u in
      if has_suffix socket_io (path escaped)
      then with_path (path escaped ++ (47 ∷ [])) escaped
      else escaped

module _ {V U : Type 0} (parse : Bytes → Parsed U) (path : U → Bytes) (with_path : Bytes → U → U)
    (escaped_path text : U → Bytes) (join_path : Bytes → Bytes → Bytes) where
  client_at : Parsed U → Made V
  client_at (unparsed e) = bad_addr e
  client_at (parsed u) =
      let namespace = fmt_ns (path u) in
      made (record {
        namespace = namespace;
        url = text (
            with_slash path with_path escaped_path
              (with_path (join_path slash_socket_io namespace) u));
        handlers = [];
        rooms = [];
        conn = none;
      })

  unfoldable pub new_client : Bytes → Made V
  unfolding client_at with_slash has_suffix
  new_client addr = if bytes_eq addr [] then empty_addr else client_at (parse addr)

module _ {V : Type 0} where
  -- The connection shares the handlers and their rooms.
  abbrev conn_handlers : List (Bytes × Handler V) → Conn V → Conn V
  conn_handlers hs k = record k { handlers = hs }

  abbrev conn_rooms : List (Bytes × RoomMap Member) → Conn V → Conn V
  conn_rooms rs k = record k { rooms = rs }

  set_handlers : List (Bytes × Handler V) → Client V → Client V
  set_handlers hs c = record c { handlers = hs; conn = map (conn_handlers hs) c.conn }

  set_rooms : List (Bytes × RoomMap Member) → Client V → Client V
  set_rooms rs c = record c { rooms = rs; conn = map (conn_rooms rs) c.conn }

  unfoldable pub get_namespace : Bytes → Client V → Option (Handler V)
  get_namespace name c = Dict.lookup name c.handlers

  unfoldable pub create_namespace : Bytes → Client V → Handler V × Client V
  unfolding set_handlers set_rooms
  create_namespace name c = (
    new_handler,
    set_rooms (Dict.insert name new_broadcast c.rooms)
        (set_handlers (Dict.insert name new_handler c.handlers) c),
  )

  changed : (Handler V → Handler V) → Handler V × Client V → Client V
  changed f (h, c) = set_handlers (Dict.insert c.namespace (f h) c.handlers) c

  -- The handler of the client's namespace, made where there is none, and changed.
  unfoldable pub with_handler : (Handler V → Handler V) → Client V → Client V
  unfolding changed create_namespace get_namespace set_handlers
  with_handler f c = elim (get_namespace c.namespace c) [
    | none ↦ changed f (create_namespace c.namespace c)
    | some h ↦ changed f (h, c)
  ]

  unfoldable pub on_connect : Option Err → Client V → Client V
  on_connect answer = with_handler (λ h. record h { on_connect = some answer })

  unfoldable pub on_disconnect : Client V → Client V
  on_disconnect = with_handler (λ h. record h { on_disconnect = true })

  unfoldable pub on_error : Client V → Client V
  on_error = with_handler (λ h. record h { on_error = true })

  unfoldable pub on_event : Bytes → (List V → Answer V) → Client V → Client V
  on_event e f = with_handler (λ h. record h { events = Dict.insert e f h.events })

  -- The client with this connection, whose rooms it shares.
  holding : Conn V → Client V → Client V
  holding k c = record c { rooms = k.rooms; conn = some k }

  -- `conn.connectClient`; `encoded` is what the encoder answers to the connect packet. The function of
  -- `OnConnect` is not called here.
  unfoldable pub connect_client : Option Err → Conn V → Option Fault × Conn V
  connect_client encoded c = elim (Dict.lookup root_namespace c.handlers) [
    | none ↦ (some unavailable_root_handler, c)
    | some handler ↦
        let root : NamespaceConn V =
          new_namespace_conn Namespace.alias_root_namespace root_namespace in
        (map raised encoded, join c.session_id root (set_namespace root_namespace root c))
  ]

  connect_end : Client V → Option Fault × Conn V → Option Fault × Client V
  connect_end c (none, k) = (none, holding k c)
  connect_end c (some f, k) =
      let k' = close_conn k in
      (
        some f,
        holding
            (record k' {
              calls = k'.calls ++ refused_calls (Dict.lookup root_namespace c.handlers) f;
            })
            c,
      )

  unfoldable pub connect : Dialed → Option Err → Client V → Option Fault × Client V
  unfolding connect_end holding connect_client
  connect (undialed e) encoded c = (some (raised e), c)
  connect (dialed id) encoded c =
      connect_end c (connect_client encoded (conn_with id c.handlers c.rooms))

  -- `Close` and `Emit`, with `none` for the panic of a nil connection.
  unfoldable pub close : Client V → Option (Client V)
  unfolding holding
  close c = map (λ k. holding (close_conn k) c) c.conn

  emit_on : (NamespaceConn V → Conn V → Conn V) → Bytes → Conn V → Conn V
  emit_on f name k = elim (Dict.lookup name k.namespaces) [ none ↦ k | some nc ↦ f nc k ]

  unfoldable pub emit :
      (Bytes → V) → Bytes → List V → Option (List V → Answer V) → Client V → Option (Client V)
  unfolding emit_on holding
  emit of_name e args ack_function c =
      map (λ k. holding (emit_on (Namespace.emit of_name e args ack_function) c.namespace k) c)
        c.conn

  -- The deferred call of `clientRead`.
  unfoldable pub read_end : Client V → Bool × Conn V → Client V
  unfolding holding
  read_end c (false, k) = holding k c
  read_end c (true, k) = holding (close_conn k) c

  connected : List (Input V) → Option Fault × Client V → Client V
  connected inputs (some f, c) = c
  connected inputs (none, c) = elim c.conn [
    | none ↦ c
    | some k ↦ read_end c (read_loop false inputs k)
  ]

  -- `Connect` and the `clientRead` that it starts.
  unfoldable pub serve : Dialed → Option Err → List (Input V) → Client V → Client V
  unfolding connected
  serve d encoded inputs c = connected inputs (connect d encoded c)

  -- `clientError`
  abbrev pub client_error : Conn V → Conn V
  client_error = serve_error

-- `clientWrite` and `clientRead` over the frames of the connection.
abbrev pub client_write : (Value → Bytes) → Conn Value → List Frame × Conn Value
client_write = serve_write

abbrev pub client_read :
    (Bytes → Option Bytes)
    → Err
    → (Header → Bytes → Bytes → Json)
    → ℕ
    → Bytes
    → Decoder
    → List Incoming
    → Conn Value
    → Served
client_read unquote bad_json decode fuel = serve_read unquote bad_json decode fuel false
