-- ===== src/Namespace/Errors.antt =====
-- `serveError` of server.go and `clientError` of client.go, which give a connection's errors to the functions of
-- `OnError`.
use go_socket_io.Prelude.{
  Bool, true, Option, none, some, List, [], ◌∷◌, ◌++◌, append_assoc, Bytes, ◌≡◌, if◌then◌else◌,
  arith, ℕ-Eq, bytes-Eq,
}
use go_socket_io.Prelude.Dict
use go_socket_io.Reader.{Err}
use go_socket_io.Parser.Header.{Header}
use go_socket_io.Namespace.{
  Fault, raised, handle_dispatch, arguments, Answer, Handler, NamespaceConn, Call, event_called,
  error_called, Conn, on_error, call, dispatch_event,
}
use go_socket_io.Namespace.Handlers.{
  connect_packet_handler, connect_at, event_packet_handler, event_at, event_answer,
}

module _ {V : Type 0} where
  -- The function of a handler, called where the namespace is connected.
  unfoldable pub tell_at : Option (NamespaceConn V) → Option (Handler V) → Fault → Conn V → Conn V
  tell_at nc none e c = c
  tell_at none (some handler) e c = c
  tell_at (some nc) (some handler) e c =
      if handler.on_error then call (error_called (some nc.namespace) e) c else c

  -- A turn of the loop.
  unfoldable pub tell : Bytes → Fault → Conn V → Conn V
  tell name e c = tell_at (Dict.lookup name c.namespaces) (Dict.lookup name c.handlers) e c

  tell_all : List (Bytes × Fault) → Conn V → Conn V
  tell_all [] c = c
  tell_all ((name, e) ∷ es) c = tell_all es (tell name e c)

  -- The loop over the errors that wait.
  unfoldable pub serve_error : Conn V → Conn V
  unfolding tell_all tell tell_at call
  serve_error c = tell_all c.errors (record c { errors = [] })

  -- What a connection calls that `connect` has refused, its root's function with a nil connection.
  unfoldable pub refused_calls : Option (Handler V) → Fault → List (Call V)
  refused_calls none e = []
  refused_calls (some handler) e = if handler.on_error then error_called none e ∷ [] else []

  -- The error of a connect packet for a namespace without a handler is given to no function: where no other error waits and the packet's frame has been discarded, the packet adds no call.
  pub connect_failure_untold :
      (server : Bool) (h : Header) (c : Conn V)
      → Dict.lookup h.namespace c.handlers ≡ none
      → c.errors ≡ []
      → (serve_error (connect_packet_handler server none h c).1).calls ≡ c.calls
  unfolding connect_packet_handler connect_at on_error serve_error tell_all tell tell_at
  connect_failure_untold server h c e waiting = ground arith

  -- Where the function of an event fails, its arguments are decoded, the namespace is connected with an `OnError` function, and no other
  -- error waits, the handler of the packet ends with an error, writes nothing, and the failure is given to that
  -- function once, behind the call of the event's.
  pub event_failure_told :
      (args : List V) (name : Bytes) (h : Header) (nc : NamespaceConn V) (handler : Handler V)
      (f : List V → Answer V) (e : Err) (c : Conn V)
      → Dict.lookup h.namespace c.namespaces ≡ some nc
      → Dict.lookup h.namespace c.handlers ≡ some handler
      → Dict.lookup name handler.events ≡ some f
      → (f args).1 ≡ some e
      → handler.on_error ≡ true
      → c.errors ≡ []
      → let r = event_packet_handler (arguments args) name h c in
        (r.0 ≡ some handle_dispatch)
        × (r.1.written ≡ c.written)
        × ((serve_error r.1).calls
            ≡ c.calls
              ++ (event_called nc.namespace name args
                  ∷ error_called (some nc.namespace) (raised e)
                  ∷ []))
  unfolding event_packet_handler event_at event_answer dispatch_event on_error serve_error tell_all
      tell tell_at call
  event_failure_told args name h nc handler f e c hn hh hf he told waiting = ground (
    arith,
    append_assoc c.calls (event_called nc.namespace name args ∷ [])
        (error_called (some nc.namespace) (raised e) ∷ []),
  )
