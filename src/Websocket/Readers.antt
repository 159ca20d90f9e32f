-- ===== src/Websocket/Readers.antt =====
-- `wrapper.NextReader` and `rcWrapper` of engineio/transport/websocket/wrapper.go: the readers of one websocket
-- connection. The websocket package gives the messages in their order; its `NextReader` drops what is left of the
-- message before, whose reader then reads nothing. The reader's lock is free again whenever a method has returned, and
-- the timer only logs.
use go_socket_io.Prelude.{
  ℕ, zero, suc, ◌+◌, ◌<◌, ◌≡◌, refl, Bool, true, false, Option, none, some, List, [], ◌∷◌, Bytes,
  if◌then◌else◌, ◌==◌, arith,
}
use go_socket_io.Packet.{FrameType, string_frame, binary_frame}

-- `websocket.TextMessage` and `websocket.BinaryMessage`.
abbrev pub text_message : ℕ
text_message = 1

abbrev pub binary_message : ℕ
binary_message = 2

-- `opened` counts the readers, of which the last one has `current`; `closed` are those that are closed.
pub record Inbox : Type 0 where
  pub queue : List (ℕ × Bytes)
  pub current : Bytes
  pub opened : ℕ
  pub closed : List ℕ

-- What `NextReader` answers: it waits, it fails, or it gives a reader of a frame.
pub data Next : Type 0 where
  waits : Next
  invalid_frame : Inbox → Next
  reader : FrameType → ℕ → Inbox → Next

unfoldable pub next_reader : Inbox → Next
next_reader i = elim i.queue [
  | [] ↦ waits
  | (m ∷ ms) ↦
      let i' = record i { queue = ms; current = m.1; opened = i.opened + 1 } in
      if m.0 == text_message
      then reader string_frame i'.opened i'
      else if m.0 == binary_message
      then reader binary_frame i'.opened i'
      else invalid_frame i'
]

-- `io.ReadAll` of a reader.
unfoldable pub read_all : ℕ → Inbox → Bytes × Inbox
read_all r i = if r == i.opened then (i.current, record i { current = [] }) else ([], i)

has : ℕ → List ℕ → Bool
has r [] = false
has r (c ∷ cs) = let later = has r cs in if c == r then true else later

-- `Close`, `none` for the panic of a second one: it drains the reader.
unfoldable pub close : ℕ → Inbox → Option Inbox
unfolding has
close r i =
    if has r i.closed then none else some (record (read_all r i).1 { closed = r ∷ i.closed })

-- A client that reads each message to its end and closes its reader; `none` for a panic.
read_on : (Inbox → Option (List (FrameType × Bytes))) → Next → Option (List (FrameType × Bytes))
read_on more waits = some []
read_on more (invalid_frame i) = more i
read_on more (reader ft r i) =
    let (bs, i') = read_all r i in
    elim (close r i') [
      | none ↦ none
      | some i'' ↦ elim (more i'') [ none ↦ none | some fs ↦ some ((ft, bs) ∷ fs) ]
    ]

unfoldable pub receive : ℕ → Inbox → Option (List (FrameType × Bytes))
unfolding read_on
receive zero i = some []
receive (suc fuel) i = read_on (receive fuel) (next_reader i)

-- The frames of the messages whose type is one of the two.
unfoldable pub frames_of : List (ℕ × Bytes) → List (FrameType × Bytes)
frames_of [] = []
frames_of ((t, bs) ∷ ms) =
    let more = frames_of ms in
    if t == text_message
    then (string_frame, bs) ∷ more
    else if t == binary_message
    then (binary_frame, bs) ∷ more
    else more

-- No reader beyond the count is closed.
abbrev AreOld : ℕ → List ℕ → Type 0
AreOld n [] = Unit
AreOld n (c ∷ cs) = (c < n + 1) × AreOld n cs

-- The lock does not hold `NextReader` back while a reader is open: the next message is given at once, and the
-- reader before, which has not been closed, then reads nothing of its own message.
next_reader_overtakes :
    (bs next : Bytes) (ms : List (ℕ × Bytes)) (old : Bytes) (n : ℕ) (cs : List ℕ)
    → (first : Inbox) × (second : Inbox) × (next_reader
          (record { queue = (1, bs) ∷ (2, next) ∷ ms; current = old; opened = n; closed = cs })
        ≡ reader string_frame (n + 1) first)
      × (next_reader first ≡ reader binary_frame (n + 1 + 1) second)
      × ((read_all (n + 1) second).0 ≡ [])
      × ((read_all (n + 1 + 1) second).0 ≡ next)
unfolding next_reader read_all
next_reader_overtakes bs next ms old n cs = (
  record { queue = (2, next) ∷ ms; current = bs; opened = n + 1; closed = cs },
  record { queue = ms; current = next; opened = n + 1 + 1; closed = cs },
  refl,
  refl,
  ground arith,
  ground arith,
)
