-- ===== src/Namespace/Handlers.antt =====
-- connection_handlers.go: what each packet does to a connection.
use go_socket_io.Prelude.{
  ℕ, Bool, true, false, Option, none, some, List, [], ◌∷◌, Bytes, if◌then◌else◌, ◌||◌, ℕ-Eq,
  bytes-Eq,
}
use go_socket_io.Prelude.Dict
use go_socket_io.Prelude.Dict.{has_value}
use go_socket_io.Reader.{Err}
use go_socket_io.Parser.Header.{Header, ack}
use go_socket_io.Namespace.{
  Fault, raised, Decoded, Answer, Handler, NamespaceConn, Conn, write, on_error, call, join,
  leave_all, set_namespace, delete_namespace, new_namespace_conn, dispatch_connect,
  dispatch_disconnect, dispatch_event, failed_connect_namespace, handle_dispatch, decode_args,
  undecodable, arguments, ack_called,
}

-- The namespace's connection, made and put into its room where there is none.
module _ {V : Type 0} where
  unfoldable pub opened : Bytes → Option (NamespaceConn V) → Conn V → Conn V
  opened name (some nc) c = c
  opened name none c =
      join c.session_id (new_namespace_conn name name)
        (set_namespace name (new_namespace_conn name name) c)

  abbrev pub name_of : Bytes → Option (NamespaceConn V) → Bytes
  name_of name (some nc) = nc.namespace
  name_of name none = name

  -- What the dispatch of a connect packet has answered; the server answers the packet, a client does not.
  unfoldable pub connect_answer : Bool → Header → Option Err × Conn V → Option Fault × Conn V
  connect_answer server h (none, c) = (none, if server then write h [] c else c)
  connect_answer server h (some e, c) = (some handle_dispatch, on_error h.namespace (raised e) c)

  unfoldable pub connect_at : Bool → Header → Option (Handler V) → Conn V → Option Fault × Conn V
  connect_at server h none c =
      (some failed_connect_namespace, on_error h.namespace failed_connect_namespace c)
  connect_at server h (some handler) c =
      let old = Dict.lookup h.namespace c.namespaces in
      connect_answer server h
        (dispatch_connect handler (name_of h.namespace old) (opened h.namespace old c))

  -- `connectPacketHandler`, and with `false` the client's, which writes nothing. `discarded` is what
  -- `DiscardLast` answers.
  unfoldable pub connect_packet_handler :
      Bool → Option Err → Header → Conn V → Option Fault × Conn V
  unfolding connect_at connect_answer opened dispatch_connect call
  connect_packet_handler server discarded h c = elim discarded [
    | some e ↦ (none, on_error h.namespace (raised e) c)
    | none ↦ connect_at server h (Dict.lookup h.namespace c.handlers) c
  ]

  unfoldable pub disconnect_at : Header → Option (NamespaceConn V) → Conn V → Option Fault × Conn V
  disconnect_at h none c = (none, c)
  disconnect_at h (some nc) c =
      let gone = delete_namespace h.namespace (leave_all nc c) in
      elim (Dict.lookup h.namespace c.handlers) [
        | none ↦ (none, gone)
        | some handler ↦ (none, dispatch_disconnect handler nc.namespace gone)
      ]

  -- `disconnectPacketHandler`, from whose code the client's does not differ.
  unfoldable pub disconnect_packet_handler : Decoded V → Header → Conn V → Option Fault × Conn V
  unfolding disconnect_at dispatch_disconnect call
  disconnect_packet_handler (undecodable e) h c =
      (some decode_args, on_error h.namespace (raised e) c)
  disconnect_packet_handler (arguments args) h c =
      disconnect_at h (Dict.lookup h.namespace c.namespaces) c

  -- What an event's function has answered.
  unfoldable pub event_answer : Header → Answer V × Conn V → Option Fault × Conn V
  event_answer h ((ret, some e), c) = (some handle_dispatch, on_error h.namespace (raised e) c)
  event_answer h ((ret, none), c) =
      (none, if not_empty ret || h.need_ack then write (record h { typ = ack }) ret c else c)
    where
      not_empty : List V → Bool
      not_empty [] = false
      not_empty (v ∷ vs) = true

  unfoldable pub event_at :
      Decoded V
      → Bytes
      → Header
      → Option (NamespaceConn V)
      → Option (Handler V)
      → Conn V
      → Option Fault × Conn V
  event_at decoded e h none handler c = (none, c)
  event_at decoded e h (some nc) none c = (none, c)
  event_at (undecodable x) e h (some nc) (some handler) c =
      (some decode_args, on_error h.namespace (raised x) c)
  event_at (arguments args) e h (some nc) (some handler) c =
      event_answer h (dispatch_event handler nc.namespace e args c)

  unfoldable pub event_packet_handler : Decoded V → Bytes → Header → Conn V → Option Fault × Conn V
  unfolding event_at event_answer
  event_packet_handler decoded e h c =
      event_at decoded e h (Dict.lookup h.namespace c.namespaces)
        (Dict.lookup h.namespace c.handlers) c

  -- `nc.ack.Delete`, when the handler returns.
  unfoldable pub forget_ack : Bytes → ℕ → NamespaceConn V → Conn V → Conn V
  forget_ack name id nc c = set_namespace name (record nc { acks = Dict.remove id nc.acks }) c

  unfoldable pub ack_answer : Header → Answer V × Conn V → Option Fault × Conn V
  ack_answer h ((ret, none), c) = (none, c)
  ack_answer h ((ret, some e), c) = (some handle_dispatch, on_error h.namespace (raised e) c)

  -- Without a function for the id, a function that does nothing is called.
  unfoldable pub ack_call : Header → List V → NamespaceConn V → Conn V → Answer V × Conn V
  ack_call h args nc c = elim (Dict.lookup h.id nc.acks) [
    | none ↦ (([], none), c)
    | some f ↦ (f args, call (ack_called nc.namespace h.id args) c)
  ]

  unfoldable pub ack_at :
      Decoded V → Header → Option (NamespaceConn V) → Conn V → Option Fault × Conn V
  ack_at decoded h none c = (none, c)
  ack_at (undecodable e) h (some nc) c =
      (some decode_args, on_error h.namespace (raised e) (forget_ack h.namespace h.id nc c))
  ack_at (arguments args) h (some nc) c =
      ack_answer h (ack_call h args nc (forget_ack h.namespace h.id nc c))

  unfoldable pub ack_packet_handler : Decoded V → Header → Conn V → Option Fault × Conn V
  unfolding ack_at ack_answer ack_call forget_ack call
  ack_packet_handler decoded h c = ack_at decoded h (Dict.lookup h.namespace c.namespaces) c

  -- The client's handlers.
  abbrev pub client_connect_packet_handler : Option Err → Header → Conn V → Option Fault × Conn V
  client_connect_packet_handler = connect_packet_handler false

  abbrev pub client_disconnect_packet_handler : Decoded V → Header → Conn V → Option Fault × Conn V
  client_disconnect_packet_handler = disconnect_packet_handler
