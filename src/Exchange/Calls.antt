-- ===== src/Exchange/Calls.antt =====
-- An event from `Emit` on one side to the user's function on the other, and the ack on its way back.
use go_socket_io.Prelude.{
  ℕ, ◌<◌, ◌^◌, ◌≡◌, refl, ap, ◌∙◌, Bool, true, false, Option, none, some, List, [], ◌∷◌, ◌++◌,
  Bytes, arith, if◌then◌else◌, bytes_eq, bytes-Eq, ℕ-Eq, length,
}
use go_socket_io.Prelude.Dict
use go_socket_io.Packet.{string_frame}
use go_socket_io.Reader.{Err}
use go_socket_io.Parser.Header.{Header, event}
use go_socket_io.Parser.Header.Fields.{header_of, IsNamespace, IsId}
use go_socket_io.Parser.Values.{Value, Values}
use go_socket_io.Parser.Values.Numbering.{is_attachable, contents}
use go_socket_io.Parser.Values.Restore.{all_plain}
use go_socket_io.Parser.Frames.{Incoming, Decoder, Json, decode_args}
use go_socket_io.Parser.Frames.RoundTrip.{as_incoming, IsEventText, decode-encode}
use go_socket_io.Parser.Frames.Acks.{IsAckText}
use go_socket_io.Namespace.{
  Answer, Handler, NamespaceConn, Conn, emit, write, dispatch_event, event_called, call,
  alias_root_namespace, on_error,
}
use go_socket_io.Namespace.Handlers.{event_answer}
use go_socket_io.Server.{root_of, ended_by}
use go_socket_io.Exchange.{as_data, listed, write_loop, serve_write, turned, read_turn}
use go_socket_io.Exchange.Turns.{write_one, event_left, event_turn}

-- The namespace in the header of an event.
abbrev pub sent_name : NamespaceConn Value → Bytes
sent_name nc = if bytes_eq nc.namespace alias_root_namespace then [] else nc.namespace

pub rooted : (nc : NamespaceConn Value) → root_of (sent_name nc) ≡ sent_name nc
unfolding root_of
rooted nc = ground arith

answer_calls :
    (h : Header) (a : Answer Value) (c : Conn Value)
    → (ended_by (event_answer h (a, c))).1.calls ≡ c.calls
unfolding ended_by event_answer write on_error
answer_calls h (ret, some e) c = refl
answer_calls h (ret, none) c = ground arith

pub dispatched :
    (name ns : Bytes) (args : List Value) (handler : Handler Value) (f : List Value → Answer Value)
    (c : Conn Value)
    → Dict.lookup name handler.events ≡ some f
    → dispatch_event handler ns name args c ≡ (f args, call (event_called ns name args) c)
unfolding dispatch_event call
dispatched name ns args handler f c e = rw (e, dispatch_event) refl

pub event_calls :
    (h : Header) (name : Bytes) (args : List Value) (nc : NamespaceConn Value)
    (handler : Handler Value) (f : List Value → Answer Value) (c : Conn Value)
    → Dict.lookup name handler.events ≡ some f
    → (event_left h name args nc handler c).1.calls
      ≡ c.calls ++ (event_called nc.namespace name args ∷ [])
event_calls h name args nc handler f c e =
    ap (λ r. (ended_by (event_answer h r)).1.calls)
      (dispatched name nc.namespace args handler f c e)
    ∙ answer_calls h (f args) (call (event_called nc.namespace name args) c)
    ∙ unfold call in refl

module _ (json : Value → Bytes) (unquote : Bytes → Option Bytes) (bad_json : Err)
    (decode : Header → Bytes → Bytes → Json) (of_name : Bytes → Value) where
  -- What an event's arguments `args` are on the way, and `u` when they have arrived.
  pub record Travels (h : Header) (e : Bytes) (args : List Value) (u : Values) : Type 0 where
    pub text : IsEventText json unquote bad_json (decode h e) (as_data (of_name e ∷ args)) e u
    pub addressable : is_attachable false (as_data (of_name e ∷ args)) ≡ true
    pub fits : length (contents (as_data (of_name e ∷ args))) < 2 ^ 64
    pub named : IsNamespace h.namespace

  -- The same of the values of an ack; `last` is the name of the event before.
  pub record TravelsBack (h : Header) (last : Bytes) (ret : List Value) (u : Values) : Type 0 where
    pub text : IsAckText json unquote bad_json (decode h last) (as_data ret) u
    pub addressable : is_attachable false (as_data ret) ≡ true
    pub fits : length (contents (as_data ret)) < 2 ^ 64
    pub named : IsNamespace h.namespace

  pub event_written :
      (id : ℕ) (need_ack : Bool) (ns e : Bytes) (args : List Value) (u : Values) (c r : Conn Value)
      (server : Bool) (last : Bytes) (d : Decoder) (rest : List Incoming) (nc : NamespaceConn Value)
      (handler : Handler Value)
      → IsId need_ack id
      → Travels (header_of event id need_ack ns) e args u
      → root_of ns ≡ ns
      → Dict.lookup ns r.namespaces ≡ some nc
      → Dict.lookup ns r.handlers ≡ some handler
      → let written = write_loop json ((header_of event id need_ack ns, of_name e ∷ args) ∷ []) c in
        let left =
          event_left (header_of event id need_ack ns) e (listed (all_plain u)) nc handler r in
        (d' : Decoder) × (read_turn unquote bad_json decode server last d
            (as_incoming written.0 ++ rest)
            r
          ≡ turned left.0 left.1 e d' rest)
        × (written.1 ≡ c)
  event_written id need_ack ns e args u c r server last d rest nc handler hid t root hn hh =
      let h = header_of event id need_ack ns in
      let (first, frames, d', encoded, decoded, values) =
        decode-encode json unquote bad_json (decode h e) (as_data (of_name e ∷ args)) e u id
          need_ack ns d rest t.text t.addressable t.fits t.named hid in
      let one = write_one json h (of_name e ∷ args) ((string_frame, first) ∷ frames) c encoded in
      (
        (decode_args (decode h e) (as_incoming frames ++ rest) d').1,
        (λ i. read_turn unquote bad_json decode server last d (as_incoming (one i).0 ++ rest) r)
            ∙ event_turn unquote bad_json decode server last d d' first (as_incoming frames ++ rest)
                rest id need_ack ns e (all_plain u) nc handler r decoded values root hn hh,
        λ i. (one i).1,
      )

  -- An event that is emitted without a function, and whose packet is written and read, calls the function for it
  -- on the other side, once, with the arguments; if the other side has the namespace connected and a handler of
  -- it with a function for the event, and the arguments travel: their buffers can be addressed and are fewer than
  -- 2^64, the namespace starts with a slash or is empty and has no comma and no question mark, and JSON makes
  -- the arguments again of their text.
  serve_write-event_called :
      (server : Bool) (last e : Bytes) (args : List Value) (u : Values)
      (nc nc' : NamespaceConn Value) (handler : Handler Value) (f : List Value → Answer Value)
      (c r : Conn Value) (d : Decoder) (rest : List Incoming)
      → Travels (header_of event 0 false (sent_name nc)) e args u
      → Dict.lookup (sent_name nc) r.namespaces ≡ some nc'
      → Dict.lookup (sent_name nc) r.handlers ≡ some handler
      → Dict.lookup e handler.events ≡ some f
      → let frames =
          (serve_write json (emit of_name e args none nc (record c { written = [] }))).0 in
        (ended : Bool) × (r' : Conn Value) × (d' : Decoder) × (read_turn unquote bad_json decode
            server last d
            (as_incoming frames ++ rest)
            r
          ≡ turned ended r' e d' rest)
        × (r'.calls ≡ r.calls ++ (event_called nc'.namespace e (listed (all_plain u)) ∷ []))
  unfolding serve_write emit write
  serve_write-event_called server last e args u nc nc' handler f c r d rest t hn hh hf =
      let h = header_of event 0 false (sent_name nc) in
      let left = event_left h e (listed (all_plain u)) nc' handler r in
      let (d', read, same) =
        event_written 0 false (sent_name nc) e args u (record c { written = [] }) r server last d
          rest nc' handler refl t (rooted nc) hn hh in
      (left.0, left.1, d', read, event_calls h e (listed (all_plain u)) nc' handler f r hf)
