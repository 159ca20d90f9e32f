-- ===== src/Engine/Client.antt =====
-- engineio/client.go: the client's end of a connection reads messages and sends pings. As for a session, each
-- call of the transport's connection answers with what the arguments say, and the calls are recorded.
use go_socket_io.Prelude.{
  Bool, true, false, Option, none, some, List, [], ◌∷◌, ◌≡◌, refl, arith, tally, if◌then◌else◌,
  ◌==◌,
}
use go_socket_io.Packet.{FrameType, PacketType, string_frame, close_packet, ping, pong, message}
use go_socket_io.Reader.{Err, eof}
use go_socket_io.Session.{
  Effect, set_read_deadline, set_write_deadline, reader_opened, reader_closed, writer_opened,
  writer_closed, conn_closed, Traced, after, Result, blocked, failed, returned,
}

-- What the connection's `NextReader` gives: an error, or a packet and what `SetReadDeadline` answers.
pub data Incoming : Type 0 where
  unread : Err → Incoming
  packet : FrameType → PacketType → Option Err → Incoming

-- Behind the switch: the reader is closed, and the loop goes on.
skip : Traced Result → Traced Result
skip more = after (reader_closed ∷ []) more

-- A packet that has come; `more` is the loop's next turn.
unfoldable pub handle : FrameType → PacketType → Option Err → Traced Result → Traced Result
unfolding after skip
handle ft pt deadline more = after (reader_opened ∷ []) (
    if pt == pong
    then after (set_read_deadline ∷ [])
        (elim deadline [ none ↦ skip more | some e ↦ (failed e, []) ])
    else if pt == close_packet
    then (failed eof, conn_closed ∷ [])
    else if pt == message
    then (returned ft, [])
    else skip more)

-- `NextReader` where the connection gives these packets and then waits.
unfoldable pub next_reader : List Incoming → Traced Result
unfolding handle
next_reader [] = (blocked, [])
next_reader (unread e ∷ is) = (failed e, [])
next_reader (packet ft pt deadline ∷ is) = handle ft pt deadline (next_reader is)

-- One turn of `serve`: the client has been closed, or the interval is over; then what `NextWriter`, `Close`
-- of the writer and `SetWriteDeadline` answer, whose error is only logged.
pub data Turn : Type 0 where
  quit : Turn
  tick : Option Err → Option Err → Turn

ping_sent : Option Err → Option Err → Bool × List Effect → Bool × List Effect
ping_sent (some e) on_close (b, es) = (true, conn_closed ∷ [])
ping_sent none (some e) (b, es) =
    (true, writer_opened string_frame ping ∷ writer_closed ∷ conn_closed ∷ [])
ping_sent none none (b, es) =
    (b, writer_opened string_frame ping ∷ writer_closed ∷ set_write_deadline ∷ es)

-- `serve`, and whether it has ended.
unfoldable pub serve : List Turn → Bool × List Effect
unfolding ping_sent
serve [] = (false, [])
serve (quit ∷ ts) = (true, conn_closed ∷ [])
serve (tick on_writer on_close ∷ ts) = ping_sent on_writer on_close (serve ts)

abbrev closes_conn : Effect → Bool
closes_conn conn_closed = true
closes_conn _ = false

abbrev opens_writer : Effect → Bool
opens_writer (writer_opened ft pt) = true
opens_writer _ = false

abbrev closes_writer : Effect → Bool
closes_writer writer_closed = true
closes_writer _ = false

-- `serve` closes the connection once if it has ended, and not before; unless it was refused a writer, it has
-- closed each writer of a ping.
pub serve_closes :
    (ts : List Turn)
    → (tally closes_conn (serve ts).1 ≡ (if (serve ts).0 then 1 else 0))
      × (tally opens_writer (serve ts).1 ≡ tally closes_writer (serve ts).1)
unfolding serve
serve_closes [] = (refl, refl)
serve_closes (quit ∷ ts) = (refl, refl)
serve_closes (tick (some e) on_close ∷ ts) = (refl, refl)
serve_closes (tick none (some e) ∷ ts) = (refl, refl)
serve_closes (tick none none ∷ ts) = let rest = serve_closes ts in ground (arith, rest.0, rest.1)
