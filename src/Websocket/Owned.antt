-- ===== src/Websocket/Owned.antt =====
-- A websocket connection whose only writer is that of the goroutine with the lock: what the wrapper's lock makes of
-- the package's writers.
use go_socket_io.Prelude.{
  ℕ, ◌≡◌, refl, ◌∙◌, not, Option, none, some, List, [], ◌∷◌, ◌++◌, Bytes, if◌then◌else◌, ℕ-Eq,
  arith,
}
use go_socket_io.Packet.{FrameType, PacketType}
use go_socket_io.Websocket
use go_socket_io.Websocket.{
  Frame, Socket, is_owned, owned_by, type_byte, is_frame, holds, without, flushed, Event, opened,
  wrote, closed, deadline_set, new_socket,
}

-- A connection as one owner sees it: `owner` is the goroutine with the lock and the only writer.
pub record Owned : Type 0 where
  pub owner : Option ℕ
  pub current : Frame
  pub wire : List Frame

abbrev pub unowned : Owned
unowned = record { owner = none; current = (0, []); wire = [] }

unfoldable pub open_writer : ℕ → FrameType → PacketType → Owned → Option Owned
open_writer o ft pt s =
    if not (is_frame ft)
    then some s
    else if is_owned s.owner
    then none
    else some (record s { owner = some o; current = (ft, type_byte ft pt ∷ []) })

unfoldable pub put_bytes : ℕ → Bytes → Owned → Option Owned
put_bytes o bs s =
    if owned_by o s.owner
    then some (record s { current = (s.current.0, s.current.1 ++ bs) })
    else none

unfoldable pub release : ℕ → Owned → Option Owned
release o s =
    if owned_by o s.owner
    then some (record s { owner = none; wire = s.wire ++ (s.current ∷ []) })
    else none

unfoldable pub extend : Owned → Option Owned
extend s = if is_owned s.owner then none else some s

unfoldable pub owned_step : Event → Owned → Option Owned
owned_step (opened o ft pt) s = open_writer o ft pt s
owned_step (wrote o bs) s = put_bytes o bs s
owned_step (closed o) s = release o s
owned_step deadline_set s = extend s

unfoldable pub owned_run : List Event → Owned → Option Owned
owned_run [] s = some s
owned_run (e ∷ es) s = elim (owned_step e s) [ none ↦ none | some s' ↦ owned_run es s' ]

-- The state of the wrapper and the package.
abbrev pub held_by : Option ℕ → List ℕ
held_by none = []
held_by (some o) = o ∷ []

abbrev pub concrete : Owned → Socket
concrete s = record {
  locked = is_owned s.owner;
  held = held_by s.owner;
  active = s.owner;
  current = s.current;
  wire = s.wire;
}

abbrev pub all_concrete : Option Owned → Option Socket
all_concrete none = none
all_concrete (some s) = some (concrete s)

step-concrete :
    (e : Event) (p : Option ℕ) (f : Frame) (fs : List Frame)
    → let s : Owned = record { owner = p; current = f; wire = fs } in
      Websocket.step e (concrete s) ≡ all_concrete (owned_step e s)
unfolding Websocket.step owned_step Websocket.next_writer open_writer Websocket.write put_bytes
    Websocket.close release Websocket.set_write_deadline extend
step-concrete (opened o ft pt) none f fs = ground arith
step-concrete (opened o ft pt) (some p) f fs = ground arith
step-concrete (wrote o bs) none f fs = refl
step-concrete (wrote o bs) (some p) f fs = ground arith
step-concrete (closed o) none f fs = refl
step-concrete (closed o) (some p) f fs = ground arith
step-concrete deadline_set none f fs = refl
step-concrete deadline_set (some p) f fs = refl

run_after :
    (es : List Event) (o : Option Owned)
    → ((t : Owned) → Websocket.run es (concrete t) ≡ all_concrete (owned_run es t))
    → (elim (all_concrete o) as (λ x. Option Socket) [ none ↦ none | some n ↦ Websocket.run es n ])
      ≡ all_concrete (elim o as (λ x. Option Owned) [ none ↦ none | some n ↦ owned_run es n ])
run_after es none f = refl
run_after es (some t) f = f t

-- The wrapper's lock leaves one goroutine at most a writer: a run of the connection is one of its owners.
pub run-concrete :
    (es : List Event) (s : Owned) → Websocket.run es (concrete s) ≡ all_concrete (owned_run es s)
unfolding Websocket.run owned_run
run-concrete [] s = refl
run-concrete (e ∷ es) s =
    (λ i. elim (step-concrete e s.owner s.current s.wire i) as (λ x. Option Socket) [
      | none ↦ none
      | some n ↦ Websocket.run es n
    ])
    ∙ run_after es (owned_step e s) (run-concrete es)
