-- ===== src/Engine/KeepAlive.antt =====
-- The pings of engineio/client.go, the answers of engineio/session/session.go to them, and the client's reader.
use go_socket_io.Prelude.{
  ℕ, zero, suc, ◌≡◌, refl, ap, ◌∙◌, Bool, true, false, none, List, [], ◌∷◌, ◌++◌, map, tally, arith,
}
use go_socket_io.Packet.{FrameType, PacketType, string_frame, ping, pong, message}
use go_socket_io.Session
use go_socket_io.Session.{
  Effect, set_read_deadline, set_write_deadline, reader_opened, reader_closed, writer_opened,
  writer_closed, Traced, after, Result, returned, got, Answers, next_reply, answer_ping, ponged,
  set_deadline,
}
use go_socket_io.Engine.Client
use go_socket_io.Engine.Client.{Turn, tick, serve, packet}

abbrev pub Sent : Type 0
Sent = FrameType × PacketType

-- The packets for which writers were opened.
unfoldable pub packets : List Effect → List Sent
packets [] = []
packets (writer_opened ft pt ∷ es) = (ft, pt) ∷ packets es
packets (e ∷ es) = packets es

abbrev pub is_set_read : Effect → Bool
is_set_read set_read_deadline = true
is_set_read _ = false

abbrev pub repeat : {A : Type 0} → ℕ → A → List A
repeat zero a = []
repeat (suc n) a = a ∷ repeat n a

-- A connection on which every call succeeds.
abbrev pub willing : Answers
willing = record {
  writer = got tt ∷ [];
  copy = none;
  on_read_deadline = none;
  on_write_deadline = none;
}

abbrev pub to_session : Sent → Session.Incoming
to_session (ft, pt) = got (ft, pt, willing)

abbrev pub to_client : Sent → Client.Incoming
to_client (ft, pt) = packet ft pt none

pings_sent : (n : ℕ) → packets (serve (repeat n (tick none none))).1 ≡ repeat n (string_frame, ping)
unfolding packets serve
pings_sent zero = refl
pings_sent (suc n) = ap (◌∷◌ (string_frame, ping)) (pings_sent n)

-- A session that has these pings and then a message.
pongs_sent :
    (n : ℕ) (ft : FrameType)
    → let r =
        Session.next_reader
          (map to_session (repeat n (string_frame, ping)) ++ (to_session (ft, message) ∷ [])) in
      (r.0 ≡ returned ft) × (packets r.1 ≡ repeat n (string_frame, pong))
unfolding packets Session.next_reader Session.handle answer_ping next_reply ponged after
    set_deadline
pongs_sent zero ft = (refl, refl)
pongs_sent (suc n) ft = let more = pongs_sent n ft in (more.0, ap (◌∷◌ (string_frame, pong)) more.1)

pongs_read :
    (n : ℕ) (ft : FrameType)
    → let r =
        Client.next_reader
          (map to_client (repeat n (string_frame, pong)) ++ (to_client (ft, message) ∷ [])) in
      (r.0 ≡ returned ft) × (tally is_set_read r.1 ≡ n)
unfolding Client.next_reader Client.handle after
pongs_read zero ft = (refl, refl)
pongs_read (suc n) ft = let more = pongs_read n ft in (more.0, omega (arith, more.1))

-- Each ping of a client whose interval is over is answered by its session with one pong, before the session
-- returns the message behind the pings; and for each pong the client moves its deadline on, before it returns the
-- message behind the pongs; if no call of either connection fails.
pub keep_alive :
    (n : ℕ) (ft ft' : FrameType)
    → let pings = packets (serve (repeat n (tick none none))).1 in
      let session = Session.next_reader (map to_session pings ++ (to_session (ft, message) ∷ [])) in
      let pongs = packets session.1 in
      let client = Client.next_reader (map to_client pongs ++ (to_client (ft', message) ∷ [])) in
      (pings ≡ repeat n (string_frame, ping))
      × (pongs ≡ repeat n (string_frame, pong))
      × (session.0 ≡ returned ft)
      × (client.0 ≡ returned ft')
      × (tally is_set_read client.1 ≡ n)
keep_alive n ft ft' =
    let asked = pings_sent n in
    let answered = pongs_sent n ft in
    let same : packets
          (Session.next_reader (
            map to_session (packets (serve (repeat n (tick none none))).1)
            ++ (to_session (ft, message) ∷ []))).1
        ≡ repeat n (string_frame, pong) =
      ap
        (λ ps.
          packets (Session.next_reader (map to_session ps ++ (to_session (ft, message) ∷ []))).1)
        asked
      ∙ answered.1 in
    let read = pongs_read n ft' in
    (
      asked,
      same,
      ap (λ ps. (Session.next_reader (map to_session ps ++ (to_session (ft, message) ∷ []))).0)
            asked
          ∙ answered.0,
      ap (λ ps. (Client.next_reader (map to_client ps ++ (to_client (ft', message) ∷ []))).0) same
          ∙ read.0,
      ap
            (λ ps.
              tally is_set_read
                (Client.next_reader (map to_client ps ++ (to_client (ft', message) ∷ []))).1)
            same
          ∙ read.1,
    )
