-- ===== src/Session.antt =====
-- engineio/session/session.go: a session reads and writes the packets of its connection, answers pings,
-- and moves to another transport. A transport's connection is not modelled: each call of it answers with
-- what the arguments below say, and the calls are recorded in their order. Errors that are only logged
-- are no part of a result.
pub mod Upgrade
pub mod Reading
use go_socket_io.Prelude.{
  ℕ, ◌+◌, Bool, true, false, Option, none, some, List, [], ◌∷◌, ◌++◌, if◌then◌else◌, ◌==◌,
}
use go_socket_io.Packet.{
  FrameType, PacketType, string_frame, open_packet, close_packet, ping, pong, message,
}
use go_socket_io.Reader.{Err, eof}

-- What is called on a connection and on the readers and writers of its packets.
pub data Effect : Type 0 where
  set_read_deadline set_write_deadline : Effect
  reader_opened : Effect
  reader_closed : Effect
  writer_opened : FrameType → PacketType → Effect
  writer_closed : Effect
  -- `io.Copy(w, r)`
  echoed : Effect
  -- `params.WriteTo(w)`
  params_written : Effect
  conn_closed : Effect

-- How a session's calls end: an error with whether it is a `payload.Error` that is temporary, or a value.
pub data Reply (A : Type 0) : Type 0 where
  refused : Err → Bool → Reply A
  got : A → Reply A

abbrev pub Traced : Type 0 → Type 0
Traced A = A × List Effect

unfoldable pub after : {A : Type 0} → List Effect → Traced A → Traced A
after es (a, more) = (a, es ++ more)

-- `nextReader` and `nextWriter` ask again after a temporary error. `none`: it asks on when the replies
-- are used up. The replies behind the one that counts are left.
unfoldable pub next_reply : {A : Type 0} → List (Reply A) → Option (Reply A × List (Reply A))
next_reply [] = none
next_reply (refused e true ∷ replies) = next_reply replies
next_reply (refused e false ∷ replies) = some (refused e false, replies)
next_reply (got a ∷ replies) = some (got a, replies)

-- `setDeadline`, with the answers of `SetReadDeadline` and `SetWriteDeadline`.
unfoldable pub set_deadline : Option Err → Option Err → Traced (Option Err)
set_deadline (some e) on_write = (some e, set_read_deadline ∷ [])
set_deadline none on_write = (on_write, set_read_deadline ∷ set_write_deadline ∷ [])

-- An error of one of the session's own calls closes the session.
unfoldable pub close_on_error : Traced (Option Err) → Traced (Option Err)
close_on_error (none, es) = (none, es)
close_on_error (some e, es) = (some e, es ++ (conn_closed ∷ []))

-- `New`: the deadlines of the new session.
unfoldable pub new_session : Option Err → Option Err → Traced (Option Err)
unfolding close_on_error set_deadline
new_session on_read on_write = close_on_error (set_deadline on_read on_write)

-- What the connection answers to `InitSession`.
pub record InitAnswers : Type 0 where
  pub writer : List (Reply Unit)
  pub params_write : Option Err
  pub writer_close : Option Err

pub init_with : InitAnswers → Reply Unit → Traced (Option Err)
init_with a (refused e temporary) = (some e, conn_closed ∷ [])
init_with a (got u) = elim a.params_write [
  | some e ↦ (
    some e,
    writer_opened string_frame open_packet ∷ params_written ∷ writer_closed ∷ conn_closed ∷ [],
  )
  | none ↦
      after (writer_opened string_frame open_packet ∷ params_written ∷ writer_closed ∷ [])
        (elim a.writer_close [ none ↦ (none, []) | some e ↦ (some e, conn_closed ∷ []) ])
]

unfoldable pub init_session : InitAnswers → Option (Traced (Option Err))
unfolding init_with
init_session a = elim (next_reply a.writer) [
  | none ↦ none
  | some (reply, more) ↦ some (init_with a reply)
]

-- What the connection answers to the calls that one packet makes.
pub record Answers : Type 0 where
  pub writer : List (Reply Unit)
  pub copy : Option Err
  pub on_read_deadline : Option Err
  pub on_write_deadline : Option Err

-- The echo of a ping, `none` where `nextWriter` does not return.
pong_with : Answers → FrameType → Reply Unit → Traced (Option Err)
pong_with a ft (refused e temporary) = (some e, [])
pong_with a ft (got u) =
    (a.copy, writer_opened ft pong ∷ echoed ∷ writer_closed ∷ reader_closed ∷ [])

unfoldable pub answer_ping : Answers → FrameType → Option (Traced (Option Err))
unfolding pong_with
answer_ping a ft = elim (next_reply a.writer) [
  | none ↦ none
  | some (reply, more) ↦ some (pong_with a ft reply)
]

-- What `NextReader` returns: the frame type of a message, whose reader is open, or an error.
pub data Result : Type 0 where
  blocked : Result
  failed : Err → Result
  returned : FrameType → Result

-- A packet that the connection's `NextReader` gives, and what the calls about it answer.
abbrev pub Incoming : Type 0
Incoming = Reply (FrameType × PacketType × Answers)

-- Behind a pong: the deadlines, then the next packet.
unfoldable pub ponged : Answers → Traced Result → Traced (Option Err) → Traced Result
unfolding after set_deadline
ponged a more (some e, es) = (failed e, es ++ (conn_closed ∷ []))
ponged a more (none, es) =
    let (refusal, set) = set_deadline a.on_read_deadline a.on_write_deadline in
    after es (after set (elim refusal [ none ↦ more | some e ↦ (failed e, conn_closed ∷ []) ]))

-- A packet that has come; `more` is the loop's next turn.
unfoldable pub handle : FrameType → PacketType → Answers → Traced Result → Traced Result
unfolding after ponged answer_ping
handle ft pt a more = after (reader_opened ∷ []) (
    if pt == ping
    then elim (answer_ping a ft) [ none ↦ (blocked, []) | some answer ↦ ponged a more answer ]
    else if pt == close_packet
    then (failed eof, reader_closed ∷ conn_closed ∷ [])
    else if pt == message
    then (returned ft, [])
    else after (reader_closed ∷ []) more)

-- `NextReader` where the connection gives these packets and then waits.
unfoldable pub next_reader : List Incoming → Traced Result
unfolding handle
next_reader [] = (blocked, [])
next_reader (refused e true ∷ replies) = next_reader replies
next_reader (refused e false ∷ replies) = (failed e, conn_closed ∷ [])
next_reader (got (ft, pt, a) ∷ replies) = handle ft pt a (next_reader replies)
