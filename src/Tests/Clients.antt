-- ===== src/Tests/Clients.antt =====
-- Clients, errors, parameters and the broadcast of Redis at concrete inputs.
use go_socket_io.Prelude.{
  Bool, List, map, tally, ℕ, ◌≡◌, refl, true, false, ◌&&◌, none, some, Option, [], ◌∷◌, ◌++◌, Bytes,
  codes, arith, if◌then◌else◌, bytes_eq,
}
use go_socket_io.Prelude.Dict
use go_socket_io.Packet.{string_frame, binary_frame, ping, pong}
use go_socket_io.Reader.{fault}
use go_socket_io.Parser.Header.{Header, empty_header, event}
use go_socket_io.Namespace
use go_socket_io.Namespace.{
  Fault, raised, handle_dispatch, unavailable_root_handler, Handler, NamespaceConn, Conn, arguments,
  event_called, error_called,
}
use go_socket_io.Namespace.Errors.{serve_error, connect_failure_untold, event_failure_told}
use go_socket_io.Namespace.Handlers.{connect_packet_handler, event_packet_handler}
use go_socket_io.Server.{conn_with, root_of}
use go_socket_io.Client
use go_socket_io.Client.{Client, Parsed, parsed, made, new_client, dialed, connect, serve}
use go_socket_io.Client.Connects.{
  disconnect_function, event_function, register_all, connect-new_client,
}
use go_socket_io.Session
use go_socket_io.Session.{returned}
use go_socket_io.Engine.Client.{tick}
use go_socket_io.Engine
use go_socket_io.Polling.Headers.{Asked, Headers, true_text, set_headers, set_headers_lem}
use go_socket_io.Engine.KeepAlive.{packets, repeat, to_session, to_client, is_set_read, keep_alive}
use go_socket_io.Engine.Params.{
  ConnParameters, JsonParameters, Decoded, bad_json, decoded, parameters, read_conn_parameters,
  write_to, read_conn_parameters-write_to,
}
use go_socket_io.Redis.{
  Message, Node, ask_rooms, tell_len, channel_key, send_local, Body, body, on_request, on_response,
}
use go_socket_io.Redis.Dispatch.{
  message, going, req_channel, res_channel, going_or_panic, published, dispatch_turn,
  dispatch_turn_routes,
}

-- An address that is its own path, for the namespace `/chat`.
abbrev chat : Bytes
chat = codes "/chat"

abbrev parse : Bytes → Parsed Bytes
parse addr = parsed addr

abbrev chat_client : Client ℕ
chat_client = record {
  namespace = chat;
  url = codes "/socket.io/chat";
  handlers = [];
  rooms = [];
  conn = none;
}

connect-new_client_example :
    (connect (dialed (1 ∷ [])) none (
      register_all
        (disconnect_function ∷ event_function (codes "a") (λ args. (args, none)) ∷ [])
        chat_client)).0
    ≡ (if bytes_eq chat [] && true then none else some unavailable_root_handler)
unfolding new_client root_of
connect-new_client_example =
    connect-new_client parse (λ u. u) (λ p u. p) (λ u. u) (λ u. u) (λ a b. a ++ b) chat chat_client
      (disconnect_function ∷ event_function (codes "a") (λ args. (args, none)) ∷ []) (1 ∷ []) refl

-- A client of the root, with a handler.
abbrev root_client : Client ℕ
root_client = record chat_client {
  namespace = [];
  handlers =
      ([], record { on_connect = none; on_disconnect = true; on_error = false; events = [] }) ∷ [];
}

-- A namespace whose event `a` fails.
abbrev failing : Handler ℕ
failing = record {
  on_connect = none;
  on_disconnect = false;
  on_error = true;
  events = (codes "a", λ args. ([], some (fault 1))) ∷ [];
}

abbrev channel : NamespaceConn ℕ
channel = record { namespace = chat; broadcast = chat; acks = [] }

abbrev socket : Conn ℕ
socket = record (conn_with (1 ∷ []) ((chat, failing) ∷ []) []) { namespaces = (chat, channel) ∷ [] }

abbrev request : Header
request = record empty_header { typ = event; id = 5; need_ack = true; namespace = chat }

event_failure_told_example :
    let r = event_packet_handler (arguments (3 ∷ [])) (codes "a") request socket in
    (r.0 ≡ some handle_dispatch)
    × (r.1.written ≡ [])
    × ((serve_error r.1).calls
        ≡ event_called chat (codes "a") (3 ∷ []) ∷ error_called (some chat) (raised (fault 1)) ∷ [])
unfolding Dict.lookup conn_with
event_failure_told_example =
    event_failure_told (3 ∷ []) (codes "a") request channel failing (λ args. ([], some (fault 1)))
      (fault 1) socket refl refl refl refl refl refl

connect_failure_untold_example :
    (serve_error
      (connect_packet_handler true none
        (record empty_header { namespace = codes "/x" })
        socket).1).calls
    ≡ []
unfolding Dict.lookup conn_with
connect_failure_untold_example =
    connect_failure_untold true (record empty_header { namespace = codes "/x" }) socket refl refl

-- 25 seconds and a bit, and a minute.
abbrev some_parameters : ConnParameters
some_parameters = record {
  ping_interval = 25000000123;
  ping_timeout = 60000000000;
  sid = 1 ∷ [];
  upgrades = codes "websocket" ∷ [];
}

abbrev encode_json : JsonParameters → Bytes
encode_json j = j.ping_interval ∷ j.ping_timeout ∷ j.sid

abbrev decode_json : Bytes → Decoded
decode_json (interval ∷ timeout ∷ sid) = decoded (record {
  sid = sid;
  upgrades = codes "websocket" ∷ [];
  ping_interval = interval;
  ping_timeout = timeout;
})
decode_json _ = bad_json (fault 1)

read_conn_parameters-write_to_example :
    read_conn_parameters decode_json (write_to encode_json some_parameters).0
    ≡ parameters (record some_parameters { ping_interval = 25000000000 })
read_conn_parameters-write_to_example =
    read_conn_parameters-write_to encode_json decode_json some_parameters refl (omega arith)
      (omega arith)

abbrev listener : Node Bytes ℕ
listener = record {
  nsp = chat;
  uid = 1 ∷ [];
  prefix = codes "p";
  rooms = (codes "r", (codes "c", codes "c") ∷ []) ∷ [];
  requests = [];
  emitted = [];
}

dispatch_turn_routes_example :
    let request : Bytes → Option Message = λ text. some (ask_rooms (4 ∷ [])) in
    let response : Bytes → Option Message = λ text. some (tell_len (4 ∷ []) 2) in
    let body_of : Bytes → Body ℕ = λ text. body (codes "r") 6 in
    (dispatch_turn request response body_of
        (message (channel_key (codes "p") chat (2 ∷ [])) [])
        listener
      ≡ going (send_local (codes "r") 6 listener) [])
    × (dispatch_turn request response body_of (message (req_channel (codes "p") chat) []) listener
        ≡ published (on_request (ask_rooms (4 ∷ [])) listener))
    × (dispatch_turn request response body_of (message (res_channel (codes "p") chat) []) listener
        ≡ going_or_panic (on_response (tell_len (4 ∷ []) 2) listener))
dispatch_turn_routes_example =
    dispatch_turn_routes (λ text. some (ask_rooms (4 ∷ []))) (λ text. some (tell_len (4 ∷ []) 2))
      (λ text. body (codes "r") 6) listener (2 ∷ []) [] (codes "r") 6 (ask_rooms (4 ∷ []))
      (tell_len (4 ∷ []) 2) (ground arith) (ground arith) (λ e. absurd (ground (arith, e))) refl
      refl refl

keep_alive_example :
    let pings = packets (Engine.Client.serve (repeat 3 (tick none none))).1 in
    let session =
      Session.next_reader (map to_session pings ++ (to_session (string_frame, 4) ∷ [])) in
    let pongs = packets session.1 in
    let client =
      Engine.Client.next_reader (map to_client pongs ++ (to_client (binary_frame, 4) ∷ [])) in
    (pings ≡ repeat 3 (string_frame, ping))
    × (pongs ≡ repeat 3 (string_frame, pong))
    × (session.0 ≡ returned string_frame)
    × (client.0 ≡ returned binary_frame)
    × (tally is_set_read client.1 ≡ 3)
keep_alive_example = keep_alive 3 string_frame binary_frame

-- A check that trusts one origin.
abbrev friend : Bytes
friend = codes "http://friend"

abbrev only_friend : Option (Asked → Bool)
only_friend = some (λ r. bytes_eq r.origin friend)

abbrev from_friend : Asked
from_friend = record { jsonp = []; origin = friend; user_agent = codes "x;MSIE 8" }

abbrev no_headers : Headers
no_headers = record { xss_protection = none; allow_origin = none; allow_credentials = none }

set_headers_lem_example :
    let h = set_headers only_friend none from_friend no_headers in
    (h.allow_credentials ≡ some true_text)
    × (true ≡ true → h.allow_origin ≡ some friend)
    × (true ≡ false → h.allow_origin ≡ none)
set_headers_lem_example = set_headers_lem only_friend none from_friend no_headers refl

-- A text message, a message of a type that no frame has, and a binary message.
abbrev messages : List (ℕ × Bytes)
messages = (1, codes "4a") ∷ (9, 7 ∷ []) ∷ (2, 4 ∷ 8 ∷ []) ∷ []
