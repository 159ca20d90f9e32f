-- ===== src/Engine.antt =====
-- engineio/server.go, engineio/session/session_manager.go, session_id_generator.go and
-- engineio/transport/manager.go: the table of sessions, and what a request does to it. A transport's
-- answers stand in the request. `InitSession` and an upgrade run beside the requests, so that their ends are
-- events of their own.
pub mod Ids
pub mod Requests
pub mod Client
pub mod Dial
pub mod Params
pub mod KeepAlive
use go_socket_io.Prelude.{
  ℕ, ◌+◌, ◌%◌, ◌^◌, Bool, true, false, not, Option, none, some, List, [], ◌∷◌, ◌++◌, Bytes, length,
  if◌then◌else◌, bytes_eq, bytes-Eq,
}
use go_socket_io.Prelude.Dict
use go_socket_io.Prelude.Dict.{has_value}
use go_socket_io.Broadcast.{is_empty}
use go_socket_io.Reader.{Err}

-- `transport.Manager.UpgradeFrom`: the names behind the first that is equal.
unfoldable pub upgrade_from : Bytes → List Bytes → List Bytes
upgrade_from name [] = []
upgrade_from name (n ∷ ns) =
    let later = upgrade_from name ns in if bytes_eq n name then ns else later

-- `transport.Manager.Get`
unfoldable pub has_transport : Bytes → List Bytes → Bool
has_transport name [] = false
has_transport name (n ∷ ns) =
    let later = has_transport name ns in if bytes_eq n name then true else later

-- A session as the table has it: its transport, and the transports that its parameters name.
pub record Entry : Type 0 where
  pub transport : Bytes
  pub upgrades : List Bytes

-- `last_id` is the generator's counter; `starting` are the sessions whose `InitSession` runs, and `accepted` the ids
-- that have gone into `connChan` or wait to.
pub record Server : Type 0 where
  pub transports : List Bytes
  pub last_id : ℕ
  pub sessions : List (Bytes × Entry)
  pub starting : List (Bytes × Entry)
  pub accepted : List Bytes
  pub closed : Bool

unfoldable pub new_server : List Bytes → Server
new_server transports = record {
  transports = transports;
  last_id = 0;
  sessions = [];
  starting = [];
  accepted = [];
  closed = false;
}

-- What the checker, `Accept` and `session.New` answer.
pub record Request : Type 0 where
  pub transport : Bytes
  pub sid : Bytes
  pub checked : Option Err
  pub accepted : Option Err
  -- The error of `Accept` is a `websocket.HandshakeError`.
  pub is_handshake : Bool
  pub session_made : Option Err

pub data Response : Type 0 where
  invalid_transport checker_error invalid_sid accept_error session_error : Response
  -- The websocket library has answered.
  no_answer : Response
  -- `Upgrade` of the session, and the new connection serves the request.
  upgrade_started : Bytes → Response
  -- The session's connection serves the request.
  served : Bytes → Response

-- The session manager's methods.
unfoldable pub add : Bytes → Entry → Server → Server
add sid entry s = record s { sessions = Dict.insert sid entry s.sessions }

unfoldable pub remove : Bytes → Server → Server
remove sid s =
    if has_value (Dict.lookup sid s.sessions)
    then record s { sessions = Dict.remove sid s.sessions }
    else s

unfoldable pub count : Server → ℕ
count s = length s.sessions

-- A request for a session that is there.
in_session : Request → Bytes → Entry → Server → Response × Server
in_session r sid entry s =
    if bytes_eq entry.transport r.transport then (served sid, s) else elim r.accepted [
      | none ↦ (upgrade_started sid, s)
      | some e ↦ (if r.is_handshake then no_answer else accept_error, s)
    ]

-- A new session has the transport of its request.
started : Option Bytes × Server → Response × Server
started (none, s) = (session_error, s)
started (some sid, s) = (served sid, s)

-- The end of `InitSession`: the session is added and goes into the channel, if there was no error; `none` is the
-- panic of a closed channel.
init_end : Bytes → Bool → Option Entry → Server → Option Server
init_end sid ok none s = some s
init_end sid ok (some entry) s =
    let s' = record s { starting = Dict.remove sid s.starting } in
    if not ok
    then some s'
    else if s.closed
    then none
    else some (record (add sid entry s') { accepted = s.accepted ++ (sid ∷ []) })

-- The end of an upgrade: the session has the other transport.
upgrade_end : Bytes → Bytes → Option Entry → Server → Server
upgrade_end sid name none s = s
upgrade_end sid name (some entry) s = add sid (record entry { transport = name }) s

-- `Accept` takes the next id from the channel, `none` where there is none.
unfoldable pub accept : Server → Option Bytes × Server
accept s = elim s.accepted [
  | [] ↦ (none, s)
  | sid ∷ sids ↦ (some sid, record s { accepted = sids })
]

unfoldable pub close : Server → Server
close s = record s { closed = true }

pub data Event : Type 0 where
  requested : Request → Event
  initialised : Bytes → Bool → Event
  upgraded : Bytes → Bytes → Event
  removed : Bytes → Event
  accepting closing : Event

-- `strconv.FormatUint(id, 36)`
module _ (format : ℕ → Bytes) where
  -- `NewID`
  unfoldable pub new_id : Server → Bytes × Server
  new_id s = let n = (s.last_id + 1) % 2 ^ 64 in (format n, record s { last_id = n })

  -- `newSession`, which takes an id first; `InitSession` starts.
  unfoldable pub new_session : Request → Server → Option Bytes × Server
  unfolding new_id
  new_session r s =
      let (sid, s') = new_id s in
      if has_value r.session_made then (none, s') else (
        some sid,
        record s' {
          starting =
              (
                sid,
                record {
                  transport = r.transport;
                  upgrades = upgrade_from r.transport s.transports;
                },
              )
              ∷ s'.starting;
        },
      )

  at_session : Request → Option Entry → Server → Response × Server
  at_session r (some entry) s = in_session r r.sid entry s
  at_session r none s =
      if not (is_empty r.sid)
      then (invalid_sid, s)
      else if has_value r.accepted
      then (accept_error, s)
      else started (new_session r s)

  unfoldable pub serve_http : Request → Server → Response × Server
  unfolding at_session in_session started
  serve_http r s =
      if not (has_transport r.transport s.transports)
      then (invalid_transport, s)
      else if has_value r.checked
      then (checker_error, s)
      else at_session r (Dict.lookup r.sid s.sessions) s

  unfoldable pub step : Event → Server → Option Server
  unfolding init_end upgrade_end
  step (requested r) s = some (serve_http r s).1
  step (initialised sid ok) s = init_end sid ok (Dict.lookup sid s.starting) s
  step (upgraded sid name) s = some (upgrade_end sid name (Dict.lookup sid s.sessions) s)
  step (removed sid) s = some (remove sid s)
  step accepting s = some (accept s).1
  step closing s = some (close s)

  unfoldable pub run : List Event → Server → Option Server
  run [] s = some s
  run (e ∷ es) s = elim (step e s) [ none ↦ none | some s' ↦ run es s' ]
