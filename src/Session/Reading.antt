-- ===== src/Session/Reading.antt =====
-- What `NextReader` and `InitSession` do to the session's connection, over any packets and any failures.
use go_socket_io.Prelude.{
  ℕ, ◌+◌, ◌≡◌, refl, Bool, true, false, Option, none, some, List, [], ◌∷◌, ◌++◌, map, if◌then◌else◌,
  arith, tally, All, sym, ap,
}
use mathlib.Core.Option.{some-injective}
use go_socket_io.Prelude.Dict.{has_value}
use go_socket_io.Packet.{FrameType, ping, pong, message}
use go_socket_io.Reader.{Err}
use go_socket_io.Session.{
  Effect, set_read_deadline, set_write_deadline, reader_opened, reader_closed, writer_opened,
  writer_closed, echoed, conn_closed, Reply, refused, got, Traced, next_reply, set_deadline,
  new_session, InitAnswers, init_session, init_with, Answers, answer_ping, ponged, handle, after,
  next_reader, Result, failed, returned, Incoming,
}

abbrev pub is_conn_closed : Effect → Bool
is_conn_closed conn_closed = true
is_conn_closed _ = false

abbrev pub opens_reader : Effect → Bool
opens_reader reader_opened = true
opens_reader _ = false

abbrev pub closes_reader : Effect → Bool
closes_reader reader_closed = true
closes_reader _ = false

abbrev pub opens_writer : Effect → Bool
opens_writer (writer_opened ft pt) = true
opens_writer _ = false

abbrev pub closes_writer : Effect → Bool
closes_writer writer_closed = true
closes_writer _ = false

abbrev pub is_failed : Result → Bool
is_failed (failed e) = true
is_failed _ = false

abbrev pub is_returned : Result → Bool
is_returned (returned ft) = true
is_returned _ = false

-- A new session that is refused a deadline is closed, once, and no other is; the error is the first.
pub new_session_closes :
    (on_read on_write : Option Err)
    → (tally is_conn_closed (new_session on_read on_write).1
        ≡ (if has_value (new_session on_read on_write).0 then 1 else 0))
      × ((new_session on_read on_write).0 ≡ (if has_value on_read then on_read else on_write))
unfolding new_session
new_session_closes on_read on_write = ground arith

abbrev WritesOpen : Traced (Option Err) → Type 0
WritesOpen r =
    (tally is_conn_closed r.1 ≡ (if has_value r.0 then 1 else 0))
    × (tally opens_writer r.1 ≡ tally closes_writer r.1)

init_with-closes : (a : InitAnswers) (reply : Reply Unit) → WritesOpen (init_with a reply)
unfolding init_with after
init_with-closes a (refused e temporary) = ground arith
init_with-closes a (got u) = ground arith

init_after :
    (a : InitAnswers) (o : Option (Reply Unit × List (Reply Unit))) (r : Traced (Option Err))
    → elim o [ none ↦ none | some (reply, more) ↦ some (init_with a reply) ] ≡ some r
    → WritesOpen r
init_after a none r h = absurd (cc)
init_after a (some (reply, more)) r h =
    rw (sym (some-injective (init_with a reply) r h)) (init_with-closes a reply)

-- `InitSession` closes the session once if it returns an error, and not at all otherwise; the writer that
-- it got is closed once.
init_session_closes :
    (a : InitAnswers) (r : Traced (Option Err))
    → init_session a ≡ some r
    → (tally is_conn_closed r.1 ≡ (if has_value r.0 then 1 else 0))
      × (tally opens_writer r.1 ≡ tally closes_writer r.1)
unfolding init_session
init_session_closes a r h = init_after a (next_reply a.writer) r h

handle-closes :
    (ft pt : ℕ) (a : Answers) (more : Traced Result)
    → tally is_conn_closed more.1 ≡ (if is_failed more.0 then 1 else 0)
    → tally is_conn_closed (handle ft pt a more).1
      ≡ (if is_failed (handle ft pt a more).0 then 1 else 0)
unfolding handle
handle-closes ft pt a more h = ground arith

-- `NextReader` closes the session once if it returns an error, and not at all if it returns a message
-- or still waits.
pub next_reader-closes :
    (replies : List Incoming)
    → tally is_conn_closed (next_reader replies).1
      ≡ (if is_failed (next_reader replies).0 then 1 else 0)
unfolding next_reader
next_reader-closes [] = refl
next_reader-closes (refused e true ∷ replies) = next_reader-closes replies
next_reader-closes (refused e false ∷ replies) = refl
next_reader-closes (got (ft, pt, a) ∷ replies) =
    handle-closes ft pt a (next_reader replies) (next_reader-closes replies)

-- A writer for a pong is not refused.
abbrev pub GivesWriter : Incoming → Type 0
GivesWriter (refused e temporary) = Unit
GivesWriter (got (ft, pt, a)) =
    (rest : List (Reply Unit)) × (next_reply a.writer ≡ some (got tt, rest))

handle-readers :
    (ft pt : ℕ) (a : Answers) (more : Traced Result) (rest : List (Reply Unit))
    → next_reply a.writer ≡ some (got tt, rest)
    → tally opens_reader more.1 ≡ tally closes_reader more.1 + (if is_returned more.0 then 1 else 0)
    → tally opens_reader (handle ft pt a more).1
      ≡ tally closes_reader (handle ft pt a more).1
        + (if is_returned (handle ft pt a more).0 then 1 else 0)
unfolding handle
handle-readers ft pt a more rest g h = ground arith

-- Where no writer for a pong is refused, every reader that the connection gives is closed once, but for
-- the reader of the message that `NextReader` returns, which is left open.
next_reader-readers :
    (replies : List Incoming)
    → All GivesWriter replies
    → tally opens_reader (next_reader replies).1
      ≡ tally closes_reader (next_reader replies).1
        + (if is_returned (next_reader replies).0 then 1 else 0)
unfolding next_reader
next_reader-readers [] h = refl
next_reader-readers (refused e true ∷ replies) h = next_reader-readers replies h.1
next_reader-readers (refused e false ∷ replies) h = refl
next_reader-readers (got (ft, pt, a) ∷ replies) h =
    handle-readers ft pt a (next_reader replies) h.0.0 h.0.1 (next_reader-readers replies h.1)

-- A ping whose echo and whose deadlines succeed.
abbrev pub good_answers : Answers
good_answers = record {
  writer = got tt ∷ [];
  copy = none;
  on_read_deadline = none;
  on_write_deadline = none;
}

abbrev pub good_ping : FrameType → Incoming
good_ping ft = got (ft, ping, good_answers)

abbrev pub turn : FrameType → List Effect
turn ft =
    reader_opened
    ∷ writer_opened ft pong
    ∷ echoed
    ∷ writer_closed
    ∷ reader_closed
    ∷ set_read_deadline
    ∷ set_write_deadline
    ∷ []

abbrev pub turns : List FrameType → List Effect
turns [] = []
turns (ft ∷ fts) = turn ft ++ turns fts

-- The pings before a message are each answered by one pong of the same frame type, which echoes the ping, and
-- each extends both deadlines; then the message is returned, with its reader open and nothing closed.
next_reader-pings :
    (fts : List FrameType) (ft : FrameType) (a : Answers) (replies : List Incoming)
    → next_reader (map good_ping fts ++ (got (ft, message, a) ∷ replies))
      ≡ (returned ft, turns fts ++ (reader_opened ∷ []))
unfolding next_reader handle after ponged answer_ping next_reply set_deadline
next_reader-pings [] ft a replies = refl
next_reader-pings (f ∷ fts) ft a replies = ap (after (turn f)) (next_reader-pings fts ft a replies)
