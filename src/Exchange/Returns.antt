-- ===== src/Exchange/Returns.antt =====
-- An event that waits for an ack: from `Emit` to the user's function on the other side, and its answer back to the
-- function that waits.
use go_socket_io.Prelude.{
  ℕ, ◌+◌, ◌<◌, ◌^◌, ◌≡◌, refl, ap, ◌∙◌, Bool, true, false, Option, none, some, List, [], ◌∷◌, ◌++◌,
  Bytes, bytes-Eq, ℕ-Eq, Option-cases, inl, inr,
}
use go_socket_io.Prelude.Dict
use go_socket_io.Packet.{string_frame}
use go_socket_io.Reader.{Err}
use go_socket_io.Parser.Header.{Header, event, ack}
use go_socket_io.Parser.Header.Fields.{header_of}
use go_socket_io.Parser.Values.{Value, Values}
use go_socket_io.Parser.Values.Restore.{all_plain}
use go_socket_io.Parser.Frames.{Incoming, Decoder, Json, decode_args}
use go_socket_io.Parser.Frames.RoundTrip.{as_incoming}
use go_socket_io.Parser.Frames.Acks.{decode-encode_ack}
use go_socket_io.Namespace
use go_socket_io.Namespace.{
  Fault, Answer, Handler, NamespaceConn, Conn, emit, write, next_id, store_ack, set_namespace,
  dispatch_event, event_called, ack_called, call, alias_root_namespace, on_error,
}
use go_socket_io.Namespace.Handlers.{event_answer, ack_at}
use go_socket_io.Namespace.Acks.{emit_stored, awaiting, ack_with, stored_ack}
use go_socket_io.Server.{root_of, ended_by}
use go_socket_io.Exchange.{as_data, listed, write_loop, serve_write, turned, read_turn}
use go_socket_io.Exchange.Calls.{sent_name, rooted, dispatched, Travels, TravelsBack, event_written}
use go_socket_io.Exchange.Turns.{write_one, event_left, ack_turn}

emit_written :
    (of_name : Bytes → Value) (e : Bytes) (args : List Value) (f : List Value → Answer Value)
    (nc : NamespaceConn Value) (c : Conn Value)
    → (emit of_name e args (some f) nc c).written
      ≡ c.written ++ ((header_of event (c.last_id + 1) true (sent_name nc), of_name e ∷ args) ∷ [])
unfolding emit write next_id store_ack set_namespace Dict.lookup
emit_written of_name e args f nc c = elim (Option-cases (Dict.lookup nc.broadcast c.namespaces)) [
  | inl t ↦ rw (t) refl
  | inr (nc', t) ↦ rw (t) refl
]

-- The ack of an event that asks for one.
acked :
    (id : ℕ) (ns : Bytes) (ret : List Value) (c : Conn Value)
    → event_answer (header_of event id true ns) ((ret, none), c)
      ≡ (none, write (header_of ack id true ns) ret c)
unfolding event_answer write
acked id ns [] c = refl
acked id ns (v ∷ vs) c = refl

left_acked :
    (id : ℕ) (ns name : Bytes) (args ret : List Value) (nc : NamespaceConn Value)
    (handler : Handler Value) (g : List Value → Answer Value) (c : Conn Value)
    → Dict.lookup name handler.events ≡ some g
    → g args ≡ (ret, none)
    → event_left (header_of event id true ns) name args nc handler c
      ≡ (false, write (header_of ack id true ns) ret (call (event_called nc.namespace name args) c))
left_acked id ns name args ret nc handler g c e answer =
    let h = header_of event id true ns in
    let called = call (event_called nc.namespace name args) c in
    ap (λ r. ended_by (event_answer h r)) (dispatched name nc.namespace args handler g c e)
    ∙ (λ i. ended_by (event_answer h (answer i, called)))
    ∙ (λ i. ended_by (acked id ns ret called i))
    ∙ unfold ended_by in refl

module _ (json : Value → Bytes) (unquote : Bytes → Option Bytes) (bad_json : Err)
    (decode : Header → Bytes → Bytes → Json) (of_name : Bytes → Value) where
  ack_written :
      (id : ℕ) (ns : Bytes) (ret : List Value) (w : Values) (r c : Conn Value) (server : Bool)
      (last : Bytes) (d : Decoder) (rest : List Incoming) (nc : NamespaceConn Value)
      → id < 2 ^ 64
      → TravelsBack json unquote bad_json decode of_name (header_of ack id true ns) last ret w
      → root_of ns ≡ ns
      → Dict.lookup ns c.namespaces ≡ some nc
      → let written = write_loop json ((header_of ack id true ns, ret) ∷ []) r in
        let left = ended_by (
          ack_at
            (Namespace.arguments (listed (all_plain w)))
            (header_of ack id true ns)
            (some nc)
            c) in
        (d' : Decoder) × (read_turn unquote bad_json decode server last d
            (as_incoming written.0 ++ rest)
            c
          ≡ turned left.0 left.1 last d' rest)
  ack_written id ns ret w r c server last d rest nc hid t root hn =
      let h = header_of ack id true ns in
      let (first, frames, d', encoded, decoded, values) =
        decode-encode_ack json unquote bad_json (decode h last) (as_data ret) w id true ns d rest
          t.text t.addressable t.fits t.named hid in
      let one = write_one json h ret ((string_frame, first) ∷ frames) r encoded in
      (
        (decode_args (decode h last) (as_incoming frames ++ rest) d').1,
        (λ i. read_turn unquote bad_json decode server last d (as_incoming (one i).0 ++ rest) c)
            ∙ ack_turn unquote bad_json decode server last d d' first (as_incoming frames ++ rest)
                rest id true ns (all_plain w) nc c decoded values root hn,
      )

  ended_calls : (r : Option Fault × Conn Value) → (ended_by r).1.calls ≡ r.1.calls
  unfolding ended_by
  ended_calls (none, c) = refl
  ended_calls (some f, c) = refl

  -- An event that is emitted with a function, and whose packet is written and read, calls the function for it on
  -- the other side, once, with the arguments; the packet that this side writes then, written and read in turn,
  -- calls the function that waits, once, with what the first has returned; the first of the two reads does not end
  -- its loop. This holds if the name of the event as JSON
  -- text has no comma and no closing bracket, the function for the event returns without an error, the namespace's connection stands under
  -- the name in its headers, the other side has the namespace connected with a handler of it and a function for
  -- the event, the ids have not reached 2^64, no packet waits to be written on either side, and the arguments
  -- and the answers travel: their buffers can be addressed and are fewer than 2^64, the namespace starts with a
  -- slash or is empty and has no comma and no question mark, and JSON makes them again of their text.
  pub call_returns :
      (last last' e : Bytes) (args ret : List Value) (u w : Values) (nc nc' : NamespaceConn Value)
      (handler : Handler Value) (f g : List Value → Answer Value) (c r : Conn Value)
      (d d2 : Decoder) (rest rest' : List Incoming)
      → sent_name nc ≡ nc.broadcast
      → c.last_id + 1 < 2 ^ 64
      → Travels json unquote bad_json decode of_name
          (header_of event (c.last_id + 1) true (sent_name nc))
          e
          args
          u
      → TravelsBack json unquote bad_json decode of_name
          (header_of ack (c.last_id + 1) true (sent_name nc))
          last'
          ret
          w
      → Dict.lookup nc.broadcast c.namespaces ≡ some nc
      → Dict.lookup (sent_name nc) r.namespaces ≡ some nc'
      → Dict.lookup (sent_name nc) r.handlers ≡ some handler
      → Dict.lookup e handler.events ≡ some g
      → g (listed (all_plain u)) ≡ (ret, none)
      → let sent = serve_write json (emit of_name e args (some f) nc (record c { written = [] })) in
        (r1 : Conn Value) × (d1 : Decoder) × (read_turn unquote bad_json decode true last d
            (as_incoming sent.0 ++ rest)
            (record r { written = [] })
          ≡ turned false r1 e d1 rest)
        × (r1.calls ≡ r.calls ++ (event_called nc'.namespace e (listed (all_plain u)) ∷ []))
        × ((ended : Bool) × (c1 : Conn Value) × (d3 : Decoder) × (read_turn unquote bad_json decode
                false last' d2
                (as_incoming (serve_write json r1).0 ++ rest')
                sent.1
              ≡ turned ended c1 last' d3 rest')
            × (c1.calls
                ≡ c.calls ++ (ack_called nc.namespace (c.last_id + 1) (listed (all_plain w)) ∷ [])))
  unfolding serve_write write call
  call_returns last last' e args ret u w nc nc' handler f g c r d d2 rest rest' own hid t back hc hn
        hh hg answer =
      let id = c.last_id + 1 in
      let ns = sent_name nc in
      let c0 : Conn Value = record c { written = [] } in
      let r0 : Conn Value = record r { written = [] } in
      let emitted : Conn Value = emit of_name e args (some f) nc c0 in
      let e0 : Conn Value = record emitted { written = [] } in
      let written = emit_written of_name e args f nc c0 in
      let stored = emit_stored of_name e args f nc c0 hc in
      let args' = listed (all_plain u) in
      let r1 : Conn Value =
        write (header_of ack id true ns) ret (call (event_called nc'.namespace e args') r0) in
      let (d1, read, same) =
        event_written json unquote bad_json decode of_name id true ns e args u e0 r0 true last d
          rest nc' handler hid t (rooted nc) hn hh in
      let left = left_acked id ns e args' ret nc' handler g r0 hg answer in
      let nc2 = awaiting id f nc in
      let here : Dict.lookup ns e0.namespaces ≡ some nc2 =
        ap (λ n. Dict.lookup n e0.namespaces) own ∙ stored.0 in
      let (d3, read') =
        ack_written id ns ret w (record r1 { written = [] }) e0 false last' d2 rest' nc2 hid back
          (rooted nc) here in
      let end =
        ack_at (Namespace.arguments (listed (all_plain w))) (header_of ack id true ns) (some nc2)
          e0 in
      (
        r1,
        d1,
        (λ i.
              read_turn unquote bad_json decode true last d
                (as_incoming (write_loop json (written i) e0).0 ++ rest) r0)
            ∙ read
            ∙ (λ i. turned (left i).0 (left i).1 e d1 rest),
        refl,
        (
          (ended_by end).0,
          (ended_by end).1,
          d3,
          (λ i.
                read_turn unquote bad_json decode false last' d2
                  (as_incoming (serve_write json r1).0 ++ rest') (write_loop json (written i) e0).1)
              ∙ (λ i.
                  read_turn unquote bad_json decode false last' d2
                    (as_incoming (serve_write json r1).0 ++ rest') (same i))
              ∙ read',
          ended_calls end
              ∙ ack_with (listed (all_plain w)) (header_of ack id true ns) nc2 f e0
                  (stored_ack id f nc)
              ∙ ap (λ l. l ++ (ack_called nc.namespace id (listed (all_plain w)) ∷ [])) stored.1,
        ),
      )
