-- ===== src/Namespace/Packets.antt =====
-- The handlers of connection_handlers.go, and the namespaces and channels of the connection.
use go_socket_io.Prelude.{
  ◌+◌, ◌≡◌, refl, ◌⊎◌, inl, inr, Bool, true, false, not, ◌&&◌, ◌||◌, Option, none, some, List, [],
  ◌∷◌, ◌++◌, Bytes, bytes_eq, bytes_eq_iff, if◌then◌else◌, arith, bytes-Eq, ℕ-Eq, length,
  length-append, ap,
}
use go_socket_io.Prelude.Dict
use go_socket_io.Prelude.Dict.{has_value, lookup-insert, lookup-remove}
use go_socket_io.Reader.{Err}
use go_socket_io.Parser.Header.{Header, ack}
use go_socket_io.Namespace.{
  Fault, raised, Decoded, undecodable, arguments, Answer, Handler, NamespaceConn, Conn, call, write,
  on_error, join, leave_all, set_namespace, delete_namespace, dispatch_event,
}
use go_socket_io.Namespace.Handlers.{
  event_answer, event_at, connect_packet_handler, disconnect_packet_handler, event_packet_handler,
}

module _ {V : Type 0} where
  -- A connect packet connects its namespace if the packet can be discarded and the namespace has a handler,
  -- whatever the handler's function answers, and no other namespace is connected or disconnected.
  connect_packet_handler_namespaces :
      (server : Bool) (discarded : Option Err) (h : Header) (c : Conn V) (name : Bytes)
      → has_value (Dict.lookup name (connect_packet_handler server discarded h c).1.namespaces) ≡ (
          has_value (Dict.lookup name c.namespaces)
          || not (has_value discarded)
            && has_value (Dict.lookup h.namespace c.handlers)
            && bytes_eq h.namespace name)
  unfolding connect_packet_handler join set_namespace write on_error
  connect_packet_handler_namespaces server discarded h c name = ground (
    arith,
    bytes_eq_iff h.namespace name,
    lookup-insert h.namespace name
        (record { namespace = h.namespace; broadcast = h.namespace; acks = [] }) c.namespaces,
  )

  -- A disconnect packet whose arguments can be decoded takes its namespace away, and no other.
  disconnect_packet_handler_namespaces :
      (args : List V) (h : Header) (c : Conn V) (name : Bytes)
      → Dict.lookup name (disconnect_packet_handler (arguments args) h c).1.namespaces
        ≡ (if bytes_eq h.namespace name then none else Dict.lookup name c.namespaces)
  unfolding disconnect_packet_handler leave_all delete_namespace
  disconnect_packet_handler_namespaces args h c name =
      ground (arith, bytes_eq_iff h.namespace name, lookup-remove h.namespace name c.namespaces)

  dispatch_event_lem :
      (handler : Handler V) (name e : Bytes) (args : List V) (c : Conn V)
      → ((dispatch_event handler name e args c).1.errors ≡ c.errors)
        × ((dispatch_event handler name e args c).1.written ≡ c.written)
  unfolding dispatch_event call
  dispatch_event_lem handler name e args c = ground arith

  event_answer_errors :
      (h : Header) (r : Answer V × Conn V) (es : List (Bytes × Fault))
      → r.1.errors ≡ es
      → length (event_answer h r).1.errors
        ≡ length es + (if has_value (event_answer h r).0 then 1 else 0)
  unfolding event_answer on_error write
  event_answer_errors h ((ret, some e), c) es g =
      rw (length-append c.errors ((h.namespace, raised e) ∷ []), g) refl
  event_answer_errors h ((ret, none), c) es g = ground arith

  event_at_errors :
      (decoded : Decoded V) (e : Bytes) (h : Header) (nc : Option (NamespaceConn V))
      (handler : Option (Handler V)) (c : Conn V)
      → length (event_at decoded e h nc handler c).1.errors
        ≡ length c.errors + (if has_value (event_at decoded e h nc handler c).0 then 1 else 0)
  unfolding event_at on_error
  event_at_errors decoded e h none handler c = omega arith
  event_at_errors decoded e h (some nc) none c = omega arith
  event_at_errors (undecodable x) e h (some nc) (some handler) c =
      length-append c.errors ((h.namespace, raised x) ∷ [])
  event_at_errors (arguments args) e h (some nc) (some handler) c =
      event_answer_errors h (dispatch_event handler nc.namespace e args c) c.errors
        (dispatch_event_lem handler nc.namespace e args c).0

  -- An event reports an error exactly if its handler returns one, and then just one.
  pub event_packet_handler_errors :
      (decoded : Decoded V) (e : Bytes) (h : Header) (c : Conn V)
      → length (event_packet_handler decoded e h c).1.errors
        ≡ length c.errors + (if has_value (event_packet_handler decoded e h c).0 then 1 else 0)
  unfolding event_packet_handler
  event_packet_handler_errors decoded e h c =
      event_at_errors decoded e h (Dict.lookup h.namespace c.namespaces)
        (Dict.lookup h.namespace c.handlers) c

  -- The answer to an event has been written, with its id and in its namespace.
  abbrev pub IsAcked : Header → List (Header × List V) → List (Header × List V) → Type 0
  IsAcked h before now = (ret : List V) × (now ≡ before ++ ((record h { typ = ack }, ret) ∷ []))

  abbrev pub Answered : Header → List (Header × List V) → Option Fault × Conn V → Bool → Type 0
  Answered h before r served =
      (r.1.written ≡ before) × (h.need_ack && served && not (has_value r.0) ≡ false)
      ⊎ IsAcked h before r.1.written

  written_if :
      (h : Header) (b : Bool) (c : Conn V) (ws : List (Header × List V))
      → c.written ≡ ws
      → let now = (if b then write (record h { typ = ack }) [] c else c).written in
        (now ≡ ws) × (b && true && true ≡ false) ⊎ IsAcked h ws now
  unfolding write
  written_if h true c ws g =
      let acked : IsAcked h ws (c.written ++ ((record h { typ = ack }, []) ∷ [])) =
        ([], ap (λ w. w ++ ((record h { typ = ack }, []) ∷ [])) g) in
      inr acked
  written_if h false c ws g = inl (g, ground arith)

  event_answer_written :
      (h : Header) (r : Answer V × Conn V) (ws : List (Header × List V))
      → r.1.written ≡ ws
      → Answered h ws (event_answer h r) true
  unfolding event_answer on_error write
  event_answer_written h ((ret, some e), c) ws g = inl (g, ground arith)
  event_answer_written h ((v ∷ ret, none), c) ws g =
      let acked : IsAcked h ws (c.written ++ ((record h { typ = ack }, v ∷ ret) ∷ [])) =
        (v ∷ ret, ap (λ w. w ++ ((record h { typ = ack }, v ∷ ret) ∷ [])) g) in
      inr acked
  event_answer_written h (([], none), c) ws g = written_if h h.need_ack c ws g

  event_at_written :
      (decoded : Decoded V) (e : Bytes) (h : Header) (nc : Option (NamespaceConn V))
      (handler : Option (Handler V)) (c : Conn V)
      → Answered h c.written (event_at decoded e h nc handler c) (has_value nc && has_value handler)
  unfolding event_at on_error
  event_at_written decoded e h none handler c = inl (refl, ground arith)
  event_at_written decoded e h (some nc) none c = inl (refl, ground arith)
  event_at_written (undecodable x) e h (some nc) (some handler) c = inl (refl, ground arith)
  event_at_written (arguments args) e h (some nc) (some handler) c =
      event_answer_written h (dispatch_event handler nc.namespace e args c) c.written
        (dispatch_event_lem handler nc.namespace e args c).1

  -- An event writes nothing, or one ack with its id and in its namespace; and it does write the ack if it asks
  -- for one, its namespace is connected and has a handler, and the event's handler returns no error.
  event_packet_handler_written :
      (decoded : Decoded V) (e : Bytes) (h : Header) (c : Conn V)
      → Answered h c.written (event_packet_handler decoded e h c) (
          has_value (Dict.lookup h.namespace c.namespaces)
          && has_value (Dict.lookup h.namespace c.handlers))
  unfolding event_packet_handler
  event_packet_handler_written decoded e h c =
      event_at_written decoded e h (Dict.lookup h.namespace c.namespaces)
        (Dict.lookup h.namespace c.handlers) c
