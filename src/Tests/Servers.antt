-- ===== src/Tests/Servers.antt =====
-- The engine, the server, the rooms over several servers and the dialer at concrete inputs.
use go_socket_io.Prelude.{
  Option, ℕ, ◌≡◌, refl, ap, true, false, not, none, some, List, [], ◌∷◌, ◌&&◌, Bytes, codes, length,
  map, arith, if◌then◌else◌, ◌==◌, bytes-Eq,
}
use go_socket_io.Prelude.Dict
use go_socket_io.Prelude.Dict.{has_value, lookup}
use go_socket_io.Packet.{message, string_byte, binary_byte}
use go_socket_io.Reader.{eof}
use go_socket_io.Broadcast
use go_socket_io.Broadcast.{members}
use go_socket_io.Broadcast.View.{occupant}
use go_socket_io.Redis.{Body, body, Node, begin_len, end_len, ask_len}
use go_socket_io.Redis.Requests.{answers, hear_all, sum, end_len-answers}
use go_socket_io.Engine
use go_socket_io.Engine.{
  Request, Entry, requested, initialised, new_server, new_id, run, serve_http, served,
}
use go_socket_io.Engine.Ids.{new_id-IsFresh}
use go_socket_io.Engine.Requests.{is_served, serve_http_lem}
use go_socket_io.Engine.Dial.{Transport, by_packet, dial, open_after, as_list, dial_closes}
use go_socket_io.Websocket
use go_socket_io.Websocket.{
  Socket, opened, wrote, closed, deadline_set, decode_frame, new_socket, next_writer, write, close,
  set_write_deadline, type_byte,
}
use go_socket_io.Websocket.Steps.{sent, no_drafts}
use go_socket_io.Websocket.Whole.{run-sent}
use go_socket_io.Namespace
use go_socket_io.Server
use go_socket_io.Namespace.{connect_conn}
use go_socket_io.Server.{new_conn, new_handler, serve_conn}
use go_socket_io.Server.Rooms.{at_name}
use go_socket_io.Server.Ends.{serve_conn_forgets}

-- Servers with a connection in the room `r`.
node : Bytes → Node Bytes ℕ
node uid = record {
  nsp = codes "/chat";
  uid = uid;
  prefix = codes "socket.io";
  rooms = (codes "r", (uid, uid) ∷ []) ∷ [];
  requests = [];
  emitted = [];
}

-- JSON makes an eight of the seven.
abbrev published_text : Bytes → ℕ → Option Bytes
published_text room e = some room

abbrev body_in : Bytes → Body ℕ
body_in text = body text 8

end_len-answers_example :
    (n' : Node Bytes ℕ) × (hear_all
        (answers (ask_len (codes "1") (codes "r")) (node (codes "a") ∷ node (codes "b") ∷ []))
        (begin_len (codes "1") (some 2) true (node (codes "a"))).1
      ≡ some n')
    × ((end_len (codes "1") n').0 ≡ (
        if 2 == length (node (codes "a") ∷ node (codes "b") ∷ [])
        then some (
            sum (
              map
                (λ m. Broadcast.len (codes "r") m.rooms)
                (node (codes "a") ∷ node (codes "b") ∷ [])))
        else none))
end_len-answers_example =
    end_len-answers (codes "1") (codes "r") 2 (node (codes "a") ∷ node (codes "b") ∷ [])
      (node (codes "a")) (omega arith) (omega arith)

-- A number as one digit, in place of `strconv.FormatUint`.
one_digit : ℕ → Bytes
one_digit n = n ∷ []

first_digit : Bytes → ℕ
first_digit [] = 0
first_digit (b ∷ bs) = b

polling_request : Request
polling_request = record {
  transport = codes "polling";
  sid = [];
  checked = none;
  accepted = none;
  is_handshake = false;
  session_made = none;
}

transports : List Bytes
transports = codes "polling" ∷ codes "websocket" ∷ []

polling_entry : Entry
polling_entry = record { transport = codes "polling"; upgrades = codes "websocket" ∷ [] }

one_session : Engine.Server
one_session = record {
  transports = codes "polling" ∷ codes "websocket" ∷ [];
  last_id = 2;
  sessions =
      (1 ∷ [], record { transport = codes "polling"; upgrades = codes "websocket" ∷ [] }) ∷ [];
  starting =
      (2 ∷ [], record { transport = codes "polling"; upgrades = codes "websocket" ∷ [] }) ∷ [];
  accepted = (1 ∷ []) ∷ [];
  closed = false;
}

new_id-IsFresh_example :
    (Dict.lookup (new_id one_digit one_session).0 one_session.sessions ≡ none)
    × (Dict.lookup (new_id one_digit one_session).0 one_session.starting ≡ none)
unfolding one_digit first_digit transports one_session polling_request run Engine.step lookup
    serve_http Engine.has_transport new_server Engine.new_session Engine.add Dict.insert
    Engine.upgrade_from Dict.remove
new_id-IsFresh_example =
    new_id-IsFresh one_digit (λ a b ha hb e. ap first_digit e) transports
      (requested polling_request ∷ initialised (1 ∷ []) true ∷ requested polling_request ∷ [])
      one_session (omega arith) refl

serve_http_lem_example :
    let (response, s') = serve_http one_digit polling_request one_session in
    (s'.sessions ≡ one_session.sessions)
    × (s'.accepted ≡ one_session.accepted)
    × (if is_served response && not (has_value (Dict.lookup [] one_session.sessions))
        then (response ≡ served (new_id one_digit one_session).0)
          × ((entry : Entry) × (s'.starting
                ≡ ((new_id one_digit one_session).0, entry) ∷ one_session.starting)
              × (entry.transport ≡ codes "polling"))
        else s'.starting ≡ one_session.starting)
unfolding polling_request
serve_http_lem_example = serve_http_lem one_digit polling_request one_session

-- A server with a handler for the root, and a session in the engine's table.
root_server : Server.Server ℕ
root_server = record {
  handlers = ([], record new_handler { on_disconnect = true }) ∷ [];
  rooms = [];
  engine = record (new_server transports) {
    sessions = (1 ∷ [], record { transport = codes "polling"; upgrades = [] }) ∷ [];
  };
}

-- The encoder refuses the first packet.
serve_conn_forgets_example :
    Dict.lookup (1 ∷ []) (serve_conn (some eof) (1 ∷ []) [] root_server).1.engine.sessions ≡ (
      if has_value (connect_conn (some eof) (new_conn (1 ∷ []) root_server)).0
      then Dict.lookup (1 ∷ []) root_server.engine.sessions
      else none)
unfolding root_server lookup new_conn Namespace.close_conn Namespace.join Namespace.set_namespace
    at_name occupant members serve_conn connect_conn
serve_conn_forgets_example =
    serve_conn_forgets (some eof) (1 ∷ []) [] root_server (λ name. (tt, tt)) (λ name room. refl)
      refl

-- A transport whose first packet is no open packet.
refusing : Transport
refusing = record { name = codes "polling"; dialled = none; opening = by_packet message none }

dial_closes_example :
    let d = dial (refusing ∷ refusing ∷ []) in
    open_after d.effects []
    ≡ (if has_value d.transport then as_list d.transport else codes "polling" ∷ [])
unfolding refusing
dial_closes_example = dial_closes refusing (refusing ∷ [])

-- One goroutine writes a message in two parts, then another a pong.
abbrev calls : List Websocket.Event
calls =
    opened 1 0 4
    ∷ wrote 1 (7 ∷ [])
    ∷ wrote 1 (8 ∷ [])
    ∷ closed 1
    ∷ deadline_set
    ∷ opened 2 1 3
    ∷ closed 2
    ∷ []

abbrev two_frames : Socket
two_frames = record {
  locked = false;
  held = [];
  active = none;
  current = (1, 3 ∷ []);
  wire = (0, 52 ∷ 7 ∷ 8 ∷ []) ∷ (1, 3 ∷ []) ∷ [];
}

run-sent_example : map decode_frame two_frames.wire ≡ map some (sent calls no_drafts)
unfolding Websocket.run Websocket.step next_writer write close set_write_deadline type_byte
    binary_byte string_byte
run-sent_example = run-sent calls {s = two_frames} (omega arith, (omega arith, tt)) refl
