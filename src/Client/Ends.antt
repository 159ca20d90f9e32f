-- ===== src/Client/Ends.antt =====
-- A client's connection at its end.
use go_socket_io.Prelude.{true, Option, some, Bytes, ◌≡◌, bytes-Eq}
use go_socket_io.Prelude.Dict
use go_socket_io.Namespace.{Conn}
use go_socket_io.Server.Ready.{IsGone, Ready}
use go_socket_io.Client.{Client}

module _ {V : Type 0} where
  -- Where the connection of a client has been closed, the session is in no room.
  Left : Bytes → Client V → Type 0
  Left id c = (k : Conn V) → c.conn ≡ some k → k.closed ≡ true → IsGone id c.rooms
