-- ===== src/Server/Serving.antt =====
-- What each packet does to the rooms that a connection's session is in.
use mathlib.Core.Path.{subst}
use go_socket_io.Prelude.{
  ℕ, Bool, true, false, Option, none, some, List, [], ◌∷◌, Bytes, ◌≡◌, refl, sym, arith,
  if◌then◌else◌, ◌==◌, bytes-Eq, ℕ-Eq,
}
use go_socket_io.Prelude.Dict
use go_socket_io.Prelude.Dict.{has_value, lookup-insert, lookup-remove}
use go_socket_io.Reader.{Err}
use go_socket_io.Parser.Header.{Header, connect, disconnect, event, ack}
use go_socket_io.Namespace.{
  Fault, Handler, NamespaceConn, Conn, Decoded, undecodable, arguments, on_error, write, join,
  leave_all, set_namespace, delete_namespace, new_namespace_conn, dispatch_connect, dispatch_event,
  dispatch_disconnect, call,
}
use go_socket_io.Namespace.Handlers.{
  opened, name_of, connect_answer, connect_at, connect_packet_handler, disconnect_at,
  disconnect_packet_handler, event_answer, event_at, event_packet_handler, forget_ack, ack_answer,
  ack_call, ack_at, ack_packet_handler,
}
use go_socket_io.Server.{
  Packet, Input, undecoded, received, joined, left, leave, root_of, handle_packet, ended_by,
  reached, IsReached, Onward, AreReached, serve_input, go_on, read_loop,
}
use go_socket_io.Server.Rooms.{
  RoomTable, IsHoused, Housed, insert-AreOwn, remove-AreOwn, lookup-AreOwn, join-Housed,
  leave-Housed, open-Housed, leave_all-IsHoused,
}

abbrev pub House : Type 0 → Type 0
House V = Bytes × RoomTable × List (Bytes × NamespaceConn V)

module _ {V : Type 0} where
  abbrev pub house : Conn V → House V
  house c = (c.session_id, c.rooms, c.namespaces)

  pub moved : (c c' : Conn V) → house c' ≡ house c → Housed c → Housed c'
  moved c c' e h = subst (λ (t : House V). IsHoused t.0 t.1 t.2) (sym e) h

  event_house :
      (d : Decoded V) (e : Bytes) (h : Header) (o : Option (NamespaceConn V))
      (p : Option (Handler V)) (c : Conn V)
      → house (event_at d e h o p c).1 ≡ house c
  unfolding event_at event_answer dispatch_event call on_error write
  event_house d e h none p c = refl
  event_house d e h (some nc) none c = refl
  event_house (undecodable x) e h (some nc) (some handler) c = refl
  event_house (arguments args) e h (some nc) (some handler) c = ground arith

  forget-Housed :
      (name : Bytes) (id : ℕ) (nc : NamespaceConn V) (c : Conn V)
      → Dict.lookup name c.namespaces ≡ some nc
      → Housed c
      → Housed (forget_ack name id nc c)
  unfolding forget_ack set_namespace
  forget-Housed name id nc c g h =
      let nc' = record nc { acks = Dict.remove id nc.acks } in
      record {
        tidy = h.tidy;
        own =
            insert-AreOwn name nc' c.namespaces (lookup-AreOwn name nc c.namespaces h.own g) h.own;
        outside = λ n r e. h.outside n r (ground (arith, e, lookup-insert name n nc' c.namespaces));
      }

  ack_house :
      (d : Decoded V) (h : Header) (nc : NamespaceConn V) (c : Conn V)
      → house (ack_at d h (some nc) c).1 ≡ house (forget_ack h.namespace h.id nc c)
  unfolding ack_at ack_answer ack_call call on_error
  ack_house (undecodable x) h nc c = refl
  ack_house (arguments args) h nc c = ground arith

  ack-Housed :
      (d : Decoded V) (h : Header) (o : Option (NamespaceConn V)) (c : Conn V)
      → Dict.lookup h.namespace c.namespaces ≡ o
      → Housed c
      → Housed (ack_at d h o c).1
  ack-Housed d h none c g k = unfold ack_at in k
  ack-Housed d h (some nc) c g k =
      moved (forget_ack h.namespace h.id nc c) (ack_at d h (some nc) c).1 (ack_house d h nc c)
        (forget-Housed h.namespace h.id nc c g k)

  answer_house :
      (server : Bool) (h : Header) (handler : Handler V) (name : Bytes) (c : Conn V)
      → house (connect_answer server h (dispatch_connect handler name c)).1 ≡ house c
  unfolding connect_answer dispatch_connect call on_error write
  answer_house server h handler name c = ground arith

  opened-Housed :
      (name : Bytes) (o : Option (NamespaceConn V)) (c : Conn V)
      → Housed c
      → Housed (opened name o c)
  unfolding opened
  opened-Housed name none c k =
      open-Housed c.session_id name (new_namespace_conn name name) c refl k
  opened-Housed name (some nc) c k = k

  connect-Housed :
      (server : Bool) (d : Option Err) (h : Header) (o : Option (Handler V)) (c : Conn V)
      → Housed c
      → Housed (connect_at server h o c).1
  unfolding connect_at on_error
  connect-Housed server d h none c k = k
  connect-Housed server d h (some handler) c k =
      let old = Dict.lookup h.namespace c.namespaces in
      let c' = opened h.namespace old c in
      moved c' (connect_answer server h (dispatch_connect handler (name_of h.namespace old) c')).1
        (answer_house server h handler (name_of h.namespace old) c')
        (opened-Housed h.namespace old c k)

  connect_packet-Housed :
      (server : Bool) (d : Option Err) (h : Header) (c : Conn V)
      → Housed c
      → Housed (connect_packet_handler server d h c).1
  unfolding connect_packet_handler on_error
  connect_packet-Housed server (some e) h c k = k
  connect_packet-Housed server none h c k =
      connect-Housed server none h (Dict.lookup h.namespace c.handlers) c k

  gone_house :
      (h : Header) (nc : NamespaceConn V) (c : Conn V)
      → house (disconnect_at h (some nc) c).1
        ≡ house (delete_namespace h.namespace (leave_all nc c))
  unfolding disconnect_at dispatch_disconnect call
  gone_house h nc c = ground arith

  disconnect-Housed :
      (h : Header) (o : Option (NamespaceConn V)) (c : Conn V)
      → Dict.lookup h.namespace c.namespaces ≡ o
      → Housed c
      → Housed (disconnect_at h o c).1
  disconnect-Housed h none c g k = unfold disconnect_at in k
  disconnect-Housed h (some nc) c g k =
      moved (delete_namespace h.namespace (leave_all nc c)) (disconnect_at h (some nc) c).1
        (gone_house h nc c)
        (unfold delete_namespace leave_all in
          leave_all-IsHoused h.namespace nc c c.namespaces (Dict.remove h.namespace c.namespaces)
            (lookup-AreOwn h.namespace nc c.namespaces k.own g)
            (remove-AreOwn h.namespace c.namespaces k.own)
            (λ n t e. ground (arith, t, e, lookup-remove h.namespace n c.namespaces)) k)

  disconnect_packet-Housed :
      (d : Decoded V) (h : Header) (c : Conn V)
      → Housed c
      → Housed (disconnect_packet_handler d h c).1
  unfolding disconnect_packet_handler on_error
  disconnect_packet-Housed (undecodable e) h c k = k
  disconnect_packet-Housed (arguments args) h c k =
      disconnect-Housed h (Dict.lookup h.namespace c.namespaces) c refl k

  either-Housed :
      (b : Bool) (x y : Option Fault × Conn V)
      → Housed x.1
      → Housed y.1
      → Housed (if b then x else y).1
  either-Housed true x y hx hy = hx
  either-Housed false x y hx hy = hy

  ack_packet-Housed :
      (d : Decoded V) (h : Header) (c : Conn V) → Housed c → Housed (ack_packet_handler d h c).1
  unfolding ack_packet_handler
  ack_packet-Housed d h c k = ack-Housed d h (Dict.lookup h.namespace c.namespaces) c refl k

  event_packet-Housed :
      (d : Decoded V) (e : Bytes) (h : Header) (c : Conn V)
      → Housed c
      → Housed (event_packet_handler d e h c).1
  unfolding event_packet_handler
  event_packet-Housed d e h c k =
      moved c
        (event_at d e h (Dict.lookup h.namespace c.namespaces) (Dict.lookup h.namespace c.handlers)
          c).1
        (event_house d e h (Dict.lookup h.namespace c.namespaces)
          (Dict.lookup h.namespace c.handlers) c)
        k

  packet-Housed :
      (server : Bool) (p : Packet V) (h : Header) (c : Conn V)
      → Housed c
      → Housed (handle_packet server p h c).1
  unfolding handle_packet
  packet-Housed server p h c k =
      either-Housed (h.typ == ack) (ack_packet_handler p.decoded h c) _
        (ack_packet-Housed p.decoded h c k)
        (either-Housed (h.typ == connect) (connect_packet_handler server p.discarded h c) _
          (connect_packet-Housed server p.discarded h c k)
          (either-Housed (h.typ == disconnect) (disconnect_packet_handler p.decoded h c) _
            (disconnect_packet-Housed p.decoded h c k)
            (either-Housed (h.typ == event) (event_packet_handler p.decoded p.event h c) (none, c)
              (event_packet-Housed p.decoded p.event h c k) k)))

  ended_conn : (r : Option Fault × Conn V) → (ended_by r).1 ≡ r.1
  unfolding ended_by
  ended_conn (none, c) = refl
  ended_conn (some f, c) = refl

  join_call-Housed :
      (name room : Bytes) (o : Option (NamespaceConn V)) (c : Conn V)
      → Dict.lookup name c.namespaces ≡ o
      → has_value o ≡ true
      → Housed c
      → Housed (join room (reached name o) c)
  unfolding reached
  join_call-Housed name room none c g h k = absurd (cc)
  join_call-Housed name room (some nc) c g h k = join-Housed room name nc c g k

  leave_call-Housed :
      (name room : Bytes) (o : Option (NamespaceConn V)) (c : Conn V)
      → Dict.lookup name c.namespaces ≡ o
      → has_value o ≡ true
      → Housed c
      → Housed (leave room (reached name o) c)
  unfolding reached
  leave_call-Housed name room none c g h k = absurd (cc)
  leave_call-Housed name room (some nc) c g h k = leave-Housed room name nc c g k

  input-Housed :
      (server : Bool) (i : Input V) (c : Conn V)
      → IsReached i c
      → Housed c
      → Housed (serve_input server i c).1
  unfolding serve_input
  input-Housed server (undecoded e) c h k = unfold on_error in k
  input-Housed server (received p) c h k =
      let h = record p.header { namespace = root_of p.header.namespace } in
      subst Housed (sym (ended_conn (handle_packet server p h c))) (packet-Housed server p h c k)
  input-Housed server (joined name room) c h k =
      join_call-Housed name room (Dict.lookup name c.namespaces) c refl h k
  input-Housed server (left name room) c h k =
      leave_call-Housed name room (Dict.lookup name c.namespaces) c refl h k

  go_on-Housed :
      (P : Conn V → Type 0) (more : Conn V → Bool × Conn V) (r : Bool × Conn V)
      → ((c : Conn V) → P c → Housed c → Housed (more c).1)
      → Onward P r
      → Housed r.1
      → Housed (go_on more r).1
  unfolding go_on
  go_on-Housed P more (true, c) f h k = k
  go_on-Housed P more (false, c) f h k = f c h k

  pub loop-Housed :
      (server : Bool) (is : List (Input V)) (c : Conn V)
      → AreReached server is c
      → Housed c
      → Housed (read_loop server is c).1
  unfolding read_loop AreReached
  loop-Housed server [] c h k = k
  loop-Housed server (i ∷ is) c h k =
      go_on-Housed (AreReached server is) (read_loop server is) (serve_input server i c)
        (loop-Housed server is) h.1 (input-Housed server i c h.0 k)
