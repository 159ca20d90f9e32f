-- ===== src/Tests/Rooms.antt =====
-- The broadcast and the namespaces at concrete inputs.
use go_socket_io.Prelude.{ℕ, true, false, none, some, List, [], ◌∷◌, Bytes, arith, bytes-Eq}
use go_socket_io.Prelude.Dict
use go_socket_io.Prelude.Dict.{has_value}
use go_socket_io.Parser.Header.{Header, empty_header, event}
use go_socket_io.Broadcast
use go_socket_io.Broadcast.{RoomMap}
use go_socket_io.Broadcast.Histories.{
  Op, joined, left, left_all, cleared, Shows, nobody, apply_all, record_all, history-Shows,
}
use go_socket_io.Broadcast.Tidy.{IsTidy}
use go_socket_io.Namespace.{Conn, Handler, NamespaceConn}

-- A connection that is its own id.
itself : Bytes → Bytes
itself c = c

abbrev alice : Bytes
alice = 97 ∷ []

abbrev bob : Bytes
bob = 98 ∷ []

abbrev hall : Bytes
hall = 104 ∷ []

-- Two rooms: `h` with both, `a` with alice.
abbrev crowd : RoomMap Bytes
crowd = (hall, (alice, alice) ∷ (bob, bob) ∷ []) ∷ (alice, (alice, alice) ∷ []) ∷ []

crowd-IsTidy : IsTidy crowd
unfolding Dict.lookup
crowd-IsTidy = ground arith

-- A connection with the root and the namespace `a`, of which an ack is awaited.
abbrev handler : Handler ℕ
handler = record {
  on_connect = some none;
  on_disconnect = true;
  on_error = false;
  events = (hall, λ args. (args, none)) ∷ [];
}

abbrev channel : NamespaceConn ℕ
channel = record { namespace = alice; broadcast = alice; acks = (7, λ args. ([], none)) ∷ [] }

abbrev socket : Conn ℕ
socket = record {
  session_id = bob;
  last_id = 7;
  handlers = (alice, handler) ∷ (hall, handler) ∷ [];
  rooms = (alice, (bob, (bob, record { session_id = bob; name = alice }) ∷ []) ∷ []) ∷ [];
  namespaces = (alice, channel) ∷ [];
  written = [];
  errors = [];
  calls = [];
  closed = false;
}

abbrev request : Header
request = record empty_header { typ = event; id = 5; need_ack = true; namespace = alice }

abbrev joining : Header
joining = record empty_header { namespace = hall }

-- Two connections join two rooms, one leaves all of its own, and a room is cleared.
abbrev history : List (Op Bytes)
history =
    joined hall alice
    ∷ joined hall bob
    ∷ joined bob alice
    ∷ left hall bob
    ∷ left_all alice
    ∷ joined alice bob
    ∷ cleared hall
    ∷ []

history-Shows_example :
    Shows (apply_all itself history Broadcast.new_broadcast) (record_all itself history nobody)
history-Shows_example = history-Shows itself history
