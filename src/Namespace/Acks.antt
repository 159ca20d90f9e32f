-- ===== src/Namespace/Acks.antt =====
-- The functions that wait for an ack: `ackPacketHandler` of connection_handlers.go, and `Emit`.
use go_socket_io.Prelude.{
  ℕ, ◌+◌, ◌≡◌, refl, Option, none, some, List, [], ◌∷◌, ◌++◌, Bytes, bytes_eq_iff, arith, bytes-Eq,
  ℕ-Eq, ap, ◌∙◌,
}
use go_socket_io.Prelude.Dict
use go_socket_io.Prelude.Dict.{has_value, lookup-insert, lookup-remove}
use go_socket_io.Parser.Header.{Header, ack, empty_header}
use go_socket_io.Namespace.{
  emit, store_ack, next_id, ack_called, Decoded, undecodable, arguments, Answer, NamespaceConn,
  Conn, call, write, on_error, set_namespace,
}
use go_socket_io.Namespace.Handlers.{ack_at, ack_call, ack_answer, forget_ack, ack_packet_handler}

module _ {V : Type 0} where
  abbrev without : ℕ → NamespaceConn V → NamespaceConn V
  without id nc = record nc { acks = Dict.remove id nc.acks }

  no_function : (id : ℕ) (nc : NamespaceConn V) → Dict.lookup id (without id nc).acks ≡ none
  no_function id nc = ground (arith, lookup-remove id id nc.acks, ℕ-Eq.beq_iff id id)

  ack_answer_lem :
      (h : Header) (r : Answer V × Conn V)
      → ((ack_answer h r).1.calls ≡ r.1.calls) × ((ack_answer h r).1.namespaces ≡ r.1.namespaces)
  unfolding ack_answer on_error
  ack_answer_lem h ((ret, none), c) = (refl, refl)
  ack_answer_lem h ((ret, some e), c) = (refl, refl)

  -- An ack for an id without a function calls none.
  ack_without :
      (again : Decoded V) (h : Header) (nc : NamespaceConn V) (c : Conn V)
      → Dict.lookup h.id nc.acks ≡ none
      → (ack_at again h (some nc) c).1.calls ≡ c.calls
  unfolding ack_at ack_call forget_ack set_namespace on_error
  ack_without (undecodable e) h nc c g = refl
  ack_without (arguments args) h nc c g =
      (ack_answer_lem h (ack_call h args nc (forget_ack h.namespace h.id nc c))).0
      ∙ rw (g, ack_call) refl

  ack_call_namespaces :
      (h : Header) (args : List V) (nc : NamespaceConn V) (c : Conn V)
      → (ack_call h args nc c).1.namespaces ≡ c.namespaces
  unfolding ack_call call
  ack_call_namespaces h args nc c = ground arith

  ack_at_namespaces :
      (decoded : Decoded V) (h : Header) (nc : NamespaceConn V) (c : Conn V)
      → (ack_at decoded h (some nc) c).1.namespaces
        ≡ Dict.insert h.namespace (without h.id nc) c.namespaces
  unfolding ack_at forget_ack set_namespace on_error
  ack_at_namespaces (undecodable e) h nc c = refl
  ack_at_namespaces (arguments args) h nc c =
      (ack_answer_lem h (ack_call h args nc (forget_ack h.namespace h.id nc c))).1
      ∙ ack_call_namespaces h args nc (forget_ack h.namespace h.id nc c)

  second_ack :
      (decoded again : Decoded V) (h : Header) (o : Option (NamespaceConn V)) (c : Conn V)
      → Dict.lookup h.namespace c.namespaces ≡ o
      → let c' = (ack_at decoded h o c).1 in
        (ack_at again h (Dict.lookup h.namespace c'.namespaces) c').1.calls ≡ c'.calls
  second_ack decoded again h none c g = unfold ack_at in (rw (g, ack_at) refl)
  second_ack decoded again h (some nc) c g =
      let c' = (ack_at decoded h (some nc) c).1 in
      rw (found) (ack_without again h (without h.id nc) c' (no_function h.id nc))
    where
      found :
          Dict.lookup h.namespace (ack_at decoded h (some nc) c).1.namespaces
          ≡ some (without h.id nc)
      found =
          ap (Dict.lookup h.namespace) (ack_at_namespaces decoded h nc c)
          ∙ ground (
            arith,
            lookup-insert h.namespace h.namespace (without h.id nc) c.namespaces,
            bytes_eq_iff h.namespace h.namespace,
          )

  -- A second ack for an id calls no function, whatever came of the first.
  ack_packet_handler_once :
      (decoded again : Decoded V) (h : Header) (c : Conn V)
      → let c' = (ack_packet_handler decoded h c).1 in
        (ack_packet_handler again h c').1.calls ≡ c'.calls
  unfolding ack_packet_handler
  ack_packet_handler_once decoded again h c =
      second_ack decoded again h (Dict.lookup h.namespace c.namespaces) c refl

  -- An ack for an id with a function calls it once.
  pub ack_with :
      (args : List V) (h : Header) (nc : NamespaceConn V) (f : List V → Answer V) (c : Conn V)
      → Dict.lookup h.id nc.acks ≡ some f
      → (ack_at (arguments args) h (some nc) c).1.calls
        ≡ c.calls ++ (ack_called nc.namespace h.id args ∷ [])
  unfolding ack_at ack_call forget_ack set_namespace call
  ack_with args h nc f c g =
      (ack_answer_lem h (ack_call h args nc (forget_ack h.namespace h.id nc c))).0
      ∙ rw (g, ack_call) refl

  abbrev pub awaiting : ℕ → (List V → Answer V) → NamespaceConn V → NamespaceConn V
  awaiting id f nc = record nc { acks = Dict.insert id f nc.acks }

  pub emit_stored :
      (of_name : Bytes → V) (e : Bytes) (args : List V) (f : List V → Answer V)
      (nc : NamespaceConn V) (c : Conn V)
      → Dict.lookup nc.broadcast c.namespaces ≡ some nc
      → (Dict.lookup nc.broadcast (emit of_name e args (some f) nc c).namespaces
          ≡ some (awaiting (c.last_id + 1) f nc))
        × ((emit of_name e args (some f) nc c).calls ≡ c.calls)
  unfolding emit store_ack next_id set_namespace write Dict.lookup Dict.insert
  emit_stored of_name e args f nc c g = rw (g) (
    (ground (
      arith,
      lookup-insert nc.broadcast nc.broadcast (awaiting (c.last_id + 1) f nc) c.namespaces,
      bytes_eq_iff nc.broadcast nc.broadcast,
    )),
    refl,
  )

  pub stored_ack :
      (id : ℕ) (f : List V → Answer V) (nc : NamespaceConn V)
      → Dict.lookup id (awaiting id f nc).acks ≡ some f
  stored_ack id f nc = ground (arith, lookup-insert id id f nc.acks, ℕ-Eq.beq_iff id id)

  -- Where a namespace's connection emits an event with a function, the ack that comes for the id of the
  -- event calls a function once, in that namespace, with the ack's arguments.
  ack_packet_handler-emit :
      (of_name : Bytes → V) (e : Bytes) (args back : List V) (f : List V → Answer V)
      (nc : NamespaceConn V) (c : Conn V)
      → Dict.lookup nc.broadcast c.namespaces ≡ some nc
      → let h = record empty_header { typ = ack; id = c.last_id + 1; namespace = nc.broadcast } in
        (ack_packet_handler (arguments back) h (emit of_name e args (some f) nc c)).1.calls
        ≡ c.calls ++ (ack_called nc.namespace (c.last_id + 1) back ∷ [])
  unfolding ack_packet_handler
  ack_packet_handler-emit of_name e args back f nc c g =
      let h = record empty_header { typ = ack; id = c.last_id + 1; namespace = nc.broadcast } in
      let c' = emit of_name e args (some f) nc c in
      let stored = emit_stored of_name e args f nc c g in
      ap (λ o. (ack_at (arguments back) h o c').1.calls) stored.0
      ∙ ack_with back h (awaiting (c.last_id + 1) f nc) f c' (stored_ack (c.last_id + 1) f nc)
      ∙ ap (λ calls. calls ++ (ack_called nc.namespace (c.last_id + 1) back ∷ [])) stored.1
