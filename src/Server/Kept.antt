-- ===== src/Server/Kept.antt =====
-- What no packet changes in a connection: its session, and that it is open.
use go_socket_io.Prelude.{
  Bool, true, false, Option, none, some, List, [], ◌∷◌, Bytes, ◌≡◌, refl, ◌∙◌, arith, if◌then◌else◌,
  ◌==◌, bytes-Eq, ℕ-Eq,
}
use go_socket_io.Reader.{Err}
use go_socket_io.Parser.Header.{Header, connect, disconnect, event, ack}
use go_socket_io.Namespace.{
  Fault, Conn, Decoded, on_error, write, join, leave_all, set_namespace, delete_namespace,
  dispatch_connect, dispatch_event, dispatch_disconnect, call,
}
use go_socket_io.Namespace.Handlers.{
  opened, connect_answer, connect_at, connect_packet_handler, disconnect_at,
  disconnect_packet_handler, event_answer, event_at, event_packet_handler, forget_ack, ack_answer,
  ack_call, ack_at, ack_packet_handler,
}
use go_socket_io.Server.{
  Packet, Input, undecoded, received, joined, left, root_of, handle_packet, ended_by, serve_input,
  go_on, read_loop,
}

module _ {V : Type 0} where
  -- What no input changes.
  unfoldable pub Kept : Conn V → Conn V → Type 0
  Kept c c' = (c'.session_id ≡ c.session_id) × (c'.closed ≡ c.closed)

  ack-Kept : (d : Decoded V) (h : Header) (c : Conn V) → Kept c (ack_packet_handler d h c).1
  unfolding Kept ack_packet_handler ack_at ack_answer ack_call forget_ack set_namespace call
      on_error
  ack-Kept d h c = ground arith

  connect-Kept :
      (server : Bool) (d : Option Err) (h : Header) (c : Conn V)
      → Kept c (connect_packet_handler server d h c).1
  unfolding Kept connect_packet_handler connect_at connect_answer opened dispatch_connect join
      set_namespace call on_error write
  connect-Kept server d h c = ground arith

  disconnect-Kept :
      (d : Decoded V) (h : Header) (c : Conn V) → Kept c (disconnect_packet_handler d h c).1
  unfolding Kept disconnect_packet_handler disconnect_at dispatch_disconnect leave_all
      delete_namespace call on_error
  disconnect-Kept d h c = ground arith

  event-Kept :
      (d : Decoded V) (e : Bytes) (h : Header) (c : Conn V)
      → Kept c (event_packet_handler d e h c).1
  unfolding Kept event_packet_handler event_at event_answer dispatch_event call on_error write
  event-Kept d e h c = ground arith

  either-Kept :
      (b : Bool) (x y : Option Fault × Conn V) (c : Conn V)
      → Kept c x.1
      → Kept c y.1
      → Kept c (if b then x else y).1
  either-Kept true x y c hx hy = hx
  either-Kept false x y c hx hy = hy

  packet-Kept :
      (server : Bool) (p : Packet V) (h : Header) (c : Conn V)
      → Kept c (handle_packet server p h c).1
  unfolding Kept handle_packet
  packet-Kept server p h c =
      either-Kept (h.typ == ack) (ack_packet_handler p.decoded h c) _ c (ack-Kept p.decoded h c) (
        either-Kept (h.typ == connect) (connect_packet_handler server p.discarded h c) _ c
          (connect-Kept server p.discarded h c)
          (either-Kept (h.typ == disconnect) (disconnect_packet_handler p.decoded h c) _ c
            (disconnect-Kept p.decoded h c)
            (either-Kept (h.typ == event) (event_packet_handler p.decoded p.event h c) (none, c) c
              (event-Kept p.decoded p.event h c) (refl, refl))))

  ended-Kept : (r : Option Fault × Conn V) (c : Conn V) → Kept c r.1 → Kept c (ended_by r).1
  unfolding ended_by
  ended-Kept (none, c') c k = k
  ended-Kept (some f, c') c k = k

  input-Kept : (server : Bool) (i : Input V) (c : Conn V) → Kept c (serve_input server i c).1
  unfolding serve_input
  input-Kept server (undecoded e) c = unfold Kept on_error in (refl, refl)
  input-Kept server (received p) c =
      let h = record p.header { namespace = root_of p.header.namespace } in
      ended-Kept (handle_packet server p h c) c (packet-Kept server p h c)
  input-Kept server (joined name room) c = unfold Kept join in (refl, refl)
  input-Kept server (left name room) c = unfold Kept in (refl, refl)

  go_on-Kept :
      (more : Conn V → Bool × Conn V) (r : Bool × Conn V) (c : Conn V)
      → ((c' : Conn V) → Kept c' (more c').1)
      → Kept c r.1
      → Kept c (go_on more r).1
  unfolding go_on Kept
  go_on-Kept more (true, c') c f k = k
  go_on-Kept more (false, c') c f k = ((f c').0 ∙ k.0, (f c').1 ∙ k.1)

  pub loop-Kept :
      (server : Bool) (is : List (Input V)) (c : Conn V) → Kept c (read_loop server is c).1
  unfolding read_loop
  loop-Kept server [] c = unfold Kept in (refl, refl)
  loop-Kept server (i ∷ is) c =
      go_on-Kept (read_loop server is) (serve_input server i c) c (loop-Kept server is)
        (input-Kept server i c)
