-- ===== src/Server/Ends.antt =====
-- `serveConn` and `serveRead` of server.go, from a connection's start to its end.
use go_socket_io.Prelude.{
  Bool, true, false, Option, none, some, List, Bytes, ◌≡◌, refl, arith, if◌then◌else◌, bytes_eq_iff,
  bytes-Eq, ℕ-Eq,
}
use go_socket_io.Prelude.Dict
use go_socket_io.Prelude.Dict.{has_value, lookup-insert, lookup-remove}
use go_socket_io.Reader.{Err}
use go_socket_io.Broadcast.Tidy.{IsTidy}
use go_socket_io.Engine
use go_socket_io.Namespace.{Fault, Conn, root_namespace, connect_conn}
use go_socket_io.Server.{Server, Input, new_conn, read_loop, read_end, connected, serve_conn}
use go_socket_io.Server.Ready.{IsGone, Ready, connect_root-Ready, conn_with-Ready, loop_open}
use go_socket_io.Server.Rooms.{at_name}

module _ {V : Type 0} where
  read_end_forgets :
      (id : Bytes) (s : Server V) (r : Bool × Conn V)
      → (r.1.session_id ≡ id) × (r.1.closed ≡ false)
      → (read_end s r).0.closed ≡ true
      → Dict.lookup id (read_end s r).1.engine.sessions ≡ none
  unfolding read_end Engine.remove
  read_end_forgets id s (false, c) k e = absurd (ground (arith, k.1, e))
  read_end_forgets id s (true, c) k e =
      ground (arith, k.0, bytes_eq_iff id id, lookup-remove id id s.engine.sessions)

  connected_forgets :
      (id : Bytes) (inputs : List (Input V)) (s : Server V) (r : Option Fault × Conn V)
      → Ready id r.1
      → (connected inputs s r).0.closed ≡ true
      → Dict.lookup id (connected inputs s r).1.engine.sessions
        ≡ (if has_value r.0 then Dict.lookup id s.engine.sessions else none)
  unfolding connected
  connected_forgets id inputs s (none, c) k e =
      read_end_forgets id s (read_loop true inputs c) (loop_open true id inputs c k) e
  connected_forgets id inputs s (some f, c) k e = refl

  -- Once its connection is closed, a session is out of the engine's table if `connect` has succeeded; where
  -- `connect` fails, the table still has what it had. The session is in no room at first, in each
  -- namespace's rooms the names of the rooms and the ids in each are distinct, and no room is empty.
  pub serve_conn_forgets :
      (encoded : Option Err) (id : Bytes) (inputs : List (Input V)) (s : Server V)
      → ((name : Bytes) → IsTidy (at_name name s.rooms))
      → IsGone id s.rooms
      → (serve_conn encoded id inputs s).0.closed ≡ true
      → Dict.lookup id (serve_conn encoded id inputs s).1.engine.sessions ≡ (
          if has_value (connect_conn encoded (new_conn id s)).0
          then Dict.lookup id s.engine.sessions
          else none)
  unfolding serve_conn connect_conn new_conn
  serve_conn_forgets encoded id inputs s tidy gone e =
      let c = new_conn id s in
      connected_forgets id inputs s (connect_conn encoded c)
        (connect_root-Ready encoded (Dict.lookup root_namespace c.handlers) id c
          (conn_with-Ready id s.handlers s.rooms tidy gone))
        e
