-- ===== src/Engine/Dial.antt =====
-- engineio/dialer.go: `Dial` tries the transports from the last to the first. What a transport and its
-- connection answer is an argument; the query of the address is left out.
use go_socket_io.Prelude.{
  ◌∙◌, Option, none, some, List, [], ◌∷◌, ◌++◌, Bytes, ◌≡◌, refl, Option-cases, inl, inr,
  if◌then◌else◌, ◌==◌, bytes_eq, bytes_eq_refl, ℕ-Eq, bytes-Eq,
}
use go_socket_io.Prelude.Dict.{has_value}
use go_socket_io.Packet.{PacketType, open_packet}
use go_socket_io.Reader.{Err}

-- How a connection opens: `Open` of an `Opener`, or a packet that is read, with what `ReadConnParameters`
-- answers.
pub data Opening : Type 0 where
  by_opener : Option Err → Opening
  unread : Err → Opening
  by_packet : PacketType → Option Err → Opening

-- `invalid_open` is the error of a first packet of another type.
pub data Failure : Type 0 where
  invalid_open : Failure
  raised : Err → Failure

-- A transport: its name, the error of its `Dial`, and its connection. A `Dial` that fails gives no connection.
pub record Transport : Type 0 where
  pub name : Bytes
  pub dialled : Option Err
  pub opening : Opening

pub data Effect : Type 0 where
  conn_dialled conn_closed : Bytes → Effect
  reader_closed : Effect

raised_by : Option Err → Option Failure
raised_by none = none
raised_by (some e) = some (raised e)

unfoldable pub open_error : Opening → Option Failure
unfolding raised_by
open_error (by_opener e) = raised_by e
open_error (unread e) = some (raised e)
open_error (by_packet pt e) = if pt == open_packet then raised_by e else some invalid_open

unfoldable pub reader_effects : Opening → List Effect
reader_effects (by_packet pt e) = reader_closed ∷ []
reader_effects _ = []

-- `conn.Close` of the connection before.
unfoldable pub close_last : Option Bytes → List Effect
close_last none = []
close_last (some name) = conn_closed name ∷ []

-- The transport whose connection is returned, or the last error; then the calls.
pub record Dialled : Type 0 where
  pub transport : Option Bytes
  pub failure : Option Failure
  pub effects : List Effect

after : List Effect → Dialled → Dialled
after es d = record d { effects = es ++ d.effects }

opened : Bytes → Option Failure → Dialled → Dialled
opened name none later = record { transport = some name; failure = none; effects = [] }
opened name (some f) later = later

-- The loop, over the transports from the last to the first.
unfoldable pub dial_loop : List Transport → Option Bytes → Option Failure → Dialled
unfolding after opened
dial_loop [] last failure = record { transport = none; failure = failure; effects = [] }
dial_loop (t ∷ ts) last failure = after (close_last last) (elim t.dialled [
  | some e ↦ dial_loop ts none (some (raised e))
  | none ↦
      after (conn_dialled t.name ∷ reader_effects t.opening)
        (opened t.name (open_error t.opening) (dial_loop ts (some t.name) (open_error t.opening)))
])

reversed : {A : Type 0} → List A → List A
reversed [] = []
reversed (x ∷ xs) = reversed xs ++ (x ∷ [])

unfoldable pub dial : List Transport → Dialled
unfolding reversed
dial ts = dial_loop (reversed ts) none none

-- The connections that stay open, by the names of their transports, after some more calls.
drop_name : Bytes → List Bytes → List Bytes
drop_name name [] = []
drop_name name (n ∷ ns) = let later = drop_name name ns in if bytes_eq name n then ns else n ∷ later

unfoldable pub open_after : List Effect → List Bytes → List Bytes
unfolding drop_name
open_after [] left = left
open_after (conn_dialled name ∷ es) left = open_after es (name ∷ left)
open_after (conn_closed name ∷ es) left = open_after es (drop_name name left)
open_after (reader_closed ∷ es) left = open_after es left

abbrev pub as_list : Option Bytes → List Bytes
as_list none = []
as_list (some name) = name ∷ []

closes_last :
    (last : Option Bytes) (es : List Effect)
    → open_after (close_last last ++ es) (as_list last) ≡ open_after es []
unfolding close_last open_after drop_name
closes_last none es = refl
closes_last (some name) es = rw (bytes_eq_refl name) refl

skips_reader :
    (o : Opening) (es : List Effect) (left : List Bytes)
    → open_after (reader_effects o ++ es) left ≡ open_after es left
unfolding reader_effects open_after
skips_reader (by_opener e) es left = refl
skips_reader (unread e) es left = refl
skips_reader (by_packet pt e) es left = refl

-- The connection that should stay open, where `t` is tried last.
abbrev pub one_left : Transport → Dialled → List Bytes
one_left t d =
    if has_value d.transport
    then as_list d.transport
    else if has_value t.dialled
    then []
    else t.name ∷ []

after_last :
    (last : Option Bytes) (x : Dialled)
    → open_after (after (close_last last) x).effects (as_list last) ≡ open_after x.effects []
unfolding after
after_last last x = closes_last last x.effects

once_opened :
    (t : Transport) (x : Dialled)
    → open_after (after (conn_dialled t.name ∷ reader_effects t.opening) x).effects []
      ≡ open_after x.effects (t.name ∷ [])
unfolding after open_after
once_opened t x = skips_reader t.opening x.effects (t.name ∷ [])

same_left :
    (es : List Effect) (t : Transport) (x : Dialled) → one_left t (after es x) ≡ one_left t x
unfolding after
same_left es t x = refl

-- The loop behind a transport whose `Dial` has succeeded.
opened-open :
    (name : Bytes) (oe : Option Failure) (t : Transport) (later : Dialled)
    → open_after later.effects (name ∷ []) ≡ one_left t later
    → open_after (opened name oe later).effects (name ∷ []) ≡ one_left t (opened name oe later)
unfolding opened open_after
opened-open name none t later h = refl
opened-open name (some f) t later h = h

-- The last transport, where no other follows.
opened_last :
    (t : Transport) (oe : Option Failure)
    → t.dialled ≡ none
    → open_after (opened t.name oe (dial_loop [] (some t.name) oe)).effects (t.name ∷ [])
      ≡ one_left t (opened t.name oe (dial_loop [] (some t.name) oe))
unfolding opened open_after dial_loop
opened_last t none e = refl
opened_last t (some f) e = rw e refl

dial_loop-open :
    (ts : List Transport) (t : Transport) (last : Option Bytes) (failure : Option Failure)
    → let d = dial_loop (ts ++ (t ∷ [])) last failure in
      open_after d.effects (as_list last) ≡ one_left t d
unfolding dial_loop
dial_loop-open [] t last failure = elim (Option-cases t.dialled) [
  | inl e ↦
      let x =
        opened t.name (open_error t.opening) (dial_loop [] (some t.name) (open_error t.opening)) in
      rw e (
        after_last last (after (conn_dialled t.name ∷ reader_effects t.opening) x)
        ∙ once_opened t x
        ∙ opened_last t (open_error t.opening) e
        ∙ (λ i.
            if has_value x.transport
            then as_list x.transport
            else if has_value (e i)
            then []
            else t.name ∷ []))
  | inr (x, e) ↦
      rw e (after_last last (dial_loop [] none (some (raised x))) ∙ unfold open_after in refl)
]
dial_loop-open (s ∷ ts) t last failure = elim (Option-cases s.dialled) [
  | inl e ↦
      let later = dial_loop (ts ++ (t ∷ [])) (some s.name) (open_error s.opening) in
      let x = opened s.name (open_error s.opening) later in
      rw e (
        after_last last (after (conn_dialled s.name ∷ reader_effects s.opening) x)
        ∙ once_opened s x
        ∙ opened-open s.name (open_error s.opening) t later
            (dial_loop-open ts t (some s.name) (open_error s.opening)))
  | inr (x, e) ↦ rw e (
      after_last last (dial_loop (ts ++ (t ∷ [])) none (some (raised x)))
      ∙ dial_loop-open ts t none (some (raised x)))
]

-- Behind the calls of `Dial`, the connections that it has opened and not closed are exactly one: that of the transport
-- that is returned; where none is returned, that of the first of the transports, or none if its `Dial` fails.
pub dial_closes :
    (t : Transport) (ts : List Transport)
    → let d = dial (t ∷ ts) in
      open_after d.effects [] ≡ (
        if has_value d.transport
        then as_list d.transport
        else if has_value t.dialled
        then []
        else t.name ∷ [])
unfolding dial
dial_closes t ts = dial_loop-open (reversed ts) t none none
