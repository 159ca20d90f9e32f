-- ===== src/Redis/Options.antt =====
-- adapter_options.go and `Adapter` of server.go: the options of the connection to Redis.
use go_socket_io.Prelude.{
  Bool, true, false, ℕ, Option, none, some, [], ◌∷◌, ◌++◌, Bytes, ◌≡◌, if◌then◌else◌, not, arith,
}
use go_socket_io.Broadcast.{is_empty}
use go_socket_io.Reader.{Err}

-- `RedisAdapterOptions`
pub record Options : Type 0 where
  pub host : Bytes
  pub port : Bytes
  pub addr : Bytes
  pub prefix : Bytes
  pub network : Bytes
  pub password : Bytes
  pub db : ℕ

-- "127.0.0.1:6379"
abbrev pub default_addr : Bytes
default_addr = 49 ∷ 50 ∷ 55 ∷ 46 ∷ 48 ∷ 46 ∷ 48 ∷ 46 ∷ 49 ∷ 58 ∷ 54 ∷ 51 ∷ 55 ∷ 57 ∷ []

-- `defaultOptions`; the prefix is "socket.io" and the network "tcp".
abbrev pub default_options : Options
default_options = record {
  host = [];
  port = [];
  addr = default_addr;
  prefix = 115 ∷ 111 ∷ 99 ∷ 107 ∷ 101 ∷ 116 ∷ 46 ∷ 105 ∷ 111 ∷ [];
  network = 116 ∷ 99 ∷ 112 ∷ [];
  password = [];
  db = 0;
}

or_default : Bytes → Bytes → Bytes
or_default given default = if not (is_empty given) then given else default

unfoldable pub get_options : Option Options → Options
unfolding or_default
get_options none = default_options
get_options (some o) = record default_options {
  host = or_default o.host default_options.host;
  port = or_default o.port default_options.port;
  addr = or_default o.addr default_options.addr;
  prefix = or_default o.prefix default_options.prefix;
  network = or_default o.network default_options.network;
  password = or_default o.password default_options.password;
}

-- `getAddr`
unfoldable pub get_addr : Options → Bytes
get_addr o = if is_empty o.addr then o.host ++ (b':' ∷ o.port) else o.addr

-- `Adapter` of server.go, where dialing and closing a connection answer these errors: its answer, and the options that
-- the server has then.
unfoldable pub adapter :
    (dialing closing : Option Err)
    → Option Options
    → Option Options
    → (Bool × Option Err) × Option Options
adapter (some e) closing opts old = ((false, some e), old)
adapter none closing opts old = ((true, closing), some (get_options opts))

-- Redis is dialed at `Addr`, or at the default address where that is empty: `Host` and `Port` are never used, and the
-- database is always 0, whatever `DB` is.
get_addr-get_options :
    (o : Options)
    → (get_addr (get_options (some o)) ≡ (if is_empty o.addr then default_addr else o.addr))
      × ((get_options (some o)).db ≡ 0)
unfolding get_addr get_options or_default
get_addr-get_options o = ground arith
