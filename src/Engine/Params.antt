-- ===== src/Engine/Params.antt =====
-- engineio/transport/parameters.go: the parameters of a connection, which the server writes into its OPEN packet
-- and the client reads. encoding/json is a parameter. A duration is a number of nanoseconds below 2^63 that
-- is not negative; an `int` has 64 bits.
use go_socket_io.Prelude.{ℕ, ◌*◌, ◌/◌, ◌%◌, ◌^◌, ◌<◌, ◌≡◌, ap, ◌∙◌, List, Bytes, length, arith}
use go_socket_io.Reader.{Err}

pub record ConnParameters : Type 0 where
  pub ping_interval : ℕ
  pub ping_timeout : ℕ
  pub sid : Bytes
  pub upgrades : List Bytes

-- `jsonParameters`
pub record JsonParameters : Type 0 where
  pub sid : Bytes
  pub upgrades : List Bytes
  pub ping_interval : ℕ
  pub ping_timeout : ℕ

-- What `Decode` answers.
pub data Decoded : Type 0 where
  bad_json : Err → Decoded
  decoded : JsonParameters → Decoded

pub data ReadParameters : Type 0 where
  failed : Err → ReadParameters
  parameters : ConnParameters → ReadParameters

-- `time.Millisecond`
abbrev pub millisecond : ℕ
millisecond = 1000000

-- A product of two `int64`s.
abbrev pub times : ℕ → ℕ → ℕ
times a b = a * b % 2 ^ 64

from_json : Decoded → ReadParameters
from_json (bad_json e) = failed e
from_json (decoded p) = parameters (record {
  ping_interval = times p.ping_interval millisecond;
  ping_timeout = times p.ping_timeout millisecond;
  sid = p.sid;
  upgrades = p.upgrades;
})

unfoldable pub read_conn_parameters : (Bytes → Decoded) → Bytes → ReadParameters
unfolding from_json
read_conn_parameters decode bs = from_json (decode bs)

abbrev pub as_json : ConnParameters → JsonParameters
as_json p = record {
  sid = p.sid;
  upgrades = p.upgrades;
  ping_interval = p.ping_interval / millisecond;
  ping_timeout = p.ping_timeout / millisecond;
}

-- `WriteTo` a writer that accepts every byte: what it gets, and the count that is returned.
unfoldable pub write_to : (JsonParameters → Bytes) → ConnParameters → Bytes × ℕ
write_to encode p = let text = encode (as_json p) in (text, length text)

whole : (n : ℕ) → n < 2 ^ 63 → times (n / millisecond) millisecond ≡ n / millisecond * millisecond
whole n h = omega (arith, h)

-- Parameters that are written are read with their id and upgrades, and with each duration rounded down to whole
-- milliseconds, without an overflow; if the durations are below 2^63 and JSON decodes what it has encoded of them.
pub read_conn_parameters-write_to :
    (encode : JsonParameters → Bytes) (decode : Bytes → Decoded) (p : ConnParameters)
    → decode (encode (as_json p)) ≡ decoded (as_json p)
    → p.ping_interval < 2 ^ 63
    → p.ping_timeout < 2 ^ 63
    → read_conn_parameters decode (write_to encode p).0
      ≡ parameters (record p {
        ping_interval = p.ping_interval / millisecond * millisecond;
        ping_timeout = p.ping_timeout / millisecond * millisecond;
      })
unfolding read_conn_parameters write_to
read_conn_parameters-write_to encode decode p back hi ht =
    ap from_json back
    ∙ unfold from_json in
      (λ i. parameters (record p {
        ping_interval = whole p.ping_interval hi i;
        ping_timeout = whole p.ping_timeout ht i;
      }))
