-- ===== src/Exchange/Loop.antt =====
-- The loop of `serveRead` over the frames of a connection.
use go_socket_io.Prelude.{ℕ, zero, suc, Bool, true, false, Option, List, Bytes}
use go_socket_io.Reader.{Err}
use go_socket_io.Parser.Header.{Header}
use go_socket_io.Parser.Values.{Value}
use go_socket_io.Parser.Frames.{Incoming, Decoder, Json}
use go_socket_io.Namespace.{Conn}
use go_socket_io.Exchange.{Turn, waits, crashes, turned, read_turn}

-- How far the loop has come: it has no fuel left, it waits for a frame, it has panicked, or it has ended.
pub data Served : Type 0 where
  unfinished crashed : Served
  waiting_with ended_with : Conn Value → Served

after_turn : (Bytes → Decoder → List Incoming → Conn Value → Served) → Conn Value → Turn → Served
after_turn more c waits = waiting_with c
after_turn more c crashes = crashed
after_turn more c (turned true c' name d rest) = ended_with c'
after_turn more c (turned false c' name d rest) = more name d rest c'

module _ (unquote : Bytes → Option Bytes) (bad_json : Err)
    (decode : Header → Bytes → Bytes → Json) where
  -- `serveRead`, for as many turns as the fuel allows.
  unfoldable pub serve_read : ℕ → Bool → Bytes → Decoder → List Incoming → Conn Value → Served
  unfolding after_turn
  serve_read zero server last d frames c = unfinished
  serve_read (suc fuel) server last d frames c =
      after_turn (serve_read fuel server) c
        (read_turn unquote bad_json decode server last d frames c)
