-- ===== src/Payload/Handover.antt =====
-- `New`, `Close` and the hand-over of engineio/payload/payload.go: goroutines that call `FeedIn`, each a number, and the
-- goroutine of the decoder, which asks for a source, reads it and answers with an error. A source is a number. A step
-- is one goroutine's, or a rendezvous of two on a channel; the deadlines, which may pass at any time, and `Close`
-- are steps of their own.
pub mod Own
use go_socket_io.Prelude.{
  ℕ, ◌≡◌, Bool, true, false, Option, none, some, List, [], ◌∷◌, if◌then◌else◌, ◌==◌, ℕ-Eq,
}
use go_socket_io.Payload.Feeder.{
  Cause, overlap, paused, timeout, PayloadError, op_error, read, payload, store, load,
}

-- Where a goroutine is in `FeedIn`: outside, in its first loop, or in its second.
pub data Feeding : Type 0 where
  idle : Feeding
  offering awaiting : ℕ → Feeding

-- Where the decoder is: behind `getReader`, or with a source, or in `putReader`.
pub data Reading : Type 0 where
  free asking : Reading
  holding : ℕ → Reading
  answering : ℕ → Option Cause → Reading

-- A `FeedIn` that has returned: its source, the source of the answer if it has got one, and its result.
pub record Return : Type 0 where
  pub source : ℕ
  pub answer_of : Option ℕ
  pub result : Option PayloadError

-- `feeding` is the flag that is set by `CompareAndSwap`.
pub record Payload : Type 0 where
  pub closed : Bool
  pub held : Option PayloadError
  pub feeding : Bool
  pub feeders : ℕ → Feeding
  pub reading : Reading
  pub returned : List Return

-- `New`
abbrev pub new : Payload
new = record {
  closed = false;
  held = none;
  feeding = false;
  feeders = λ k. idle;
  reading = free;
  returned = [];
}

abbrev pub close : Payload → Payload
close p = record p { closed = true }

-- A goroutine moves on.
abbrev pub place : ℕ → Feeding → (ℕ → Feeding) → ℕ → Feeding
place k f feeders j = if k == j then f else feeders j

abbrev pub told : ℕ → Option ℕ → Option PayloadError → Payload → Payload
told s from e p = record p {
  returned = record { source = s; answer_of = from; result = e } ∷ p.returned;
}

-- `FeedIn` returns, and its deferred call resets the flag.
abbrev pub back : ℕ → ℕ → Option ℕ → Option PayloadError × Option PayloadError → Payload → Payload
back k s from (e, held) p =
    told s from e (record p { held = held; feeding = false; feeders = place k idle p.feeders })

-- The decoder behind an answer: without a source, or, where the answer is an error, perhaps still with it.
pub data Behind (s : ℕ) : Option Cause → Reading → Type 0 where
  released : {e : Option Cause} → Behind s e free
  kept : {c : Cause} → Behind s (some c) (holding s)

pub data Step : Payload → Payload → Type 0 where
  feed :
      (p : Payload) (k s : ℕ)
      → p.closed ≡ false
      → p.feeding ≡ false
      → p.feeders k ≡ idle
      → Step p (record p { feeding = true; feeders = place k (offering s) p.feeders })
  -- The flag is set already, or the pauser lets nobody in.
  feed_overlapped :
      (p : Payload) (k s : ℕ)
      → p.closed ≡ false
      → p.feeding ≡ true
      → p.feeders k ≡ idle
      → Step p (told s none (some (op_error read overlap)) p)
  feed_paused :
      (p : Payload) (k s : ℕ)
      → p.closed ≡ false
      → p.feeding ≡ false
      → p.feeders k ≡ idle
      → Step p (told s none (some (op_error payload paused)) p)
  feed_closed :
      (p : Payload) (k s : ℕ)
      → p.closed ≡ true
      → p.feeders k ≡ idle
      → Step p (told s none (some (load p.held)) p)
  ask : (p : Payload) → p.closed ≡ false → p.reading ≡ free → Step p (record p { reading = asking })
  -- `p.readerChan`
  handed :
      (p : Payload) (k s : ℕ)
      → p.feeders k ≡ offering s
      → p.reading ≡ asking
      → Step p (record p { feeders = place k (awaiting s) p.feeders; reading = holding s })
  finished :
      (p : Payload) (s : ℕ) (e : Option Cause)
      → p.reading ≡ holding s
      → Step p (record p { reading = answering s e })
  -- `p.readError`
  answered :
      (p : Payload) (k t s : ℕ) (e : Option Cause) (r : Reading)
      → p.feeders k ≡ awaiting t
      → p.reading ≡ answering s e
      → Behind s e r
      → Step p (back k t (some s) (store read e p.held) (record p { reading = r }))
  -- The deadline passes: in either loop of `FeedIn`, in `getReader` and in `putReader`.
  offer_expired :
      (p : Payload) (k s : ℕ)
      → p.feeders k ≡ offering s
      → Step p (back k s none (store read (some timeout) p.held) p)
  await_expired :
      (p : Payload) (k s : ℕ)
      → p.feeders k ≡ awaiting s
      → Step p (back k s none (store read (some timeout) p.held) p)
  ask_expired :
      (p : Payload)
      → p.reading ≡ asking
      → Step p (record p { reading = free; held = (store read (some timeout) p.held).1 })
  answer_expired :
      (p : Payload) (s : ℕ) (e : Option Cause) (r : Reading)
      → p.reading ≡ answering s e
      → Behind s e r
      → Step p (record p { reading = r; held = (store read (some timeout) p.held).1 })
  -- A pause ends `getReader`.
  ask_paused : (p : Payload) → p.reading ≡ asking → Step p (record p { reading = free })
  -- `Close`, and what it ends; the second loop of `FeedIn` does not look.
  closing : (p : Payload) → Step p (close p)
  offer_closed :
      (p : Payload) (k s : ℕ)
      → p.closed ≡ true
      → p.feeders k ≡ offering s
      → Step p (back k s none (some (load p.held), p.held) p)
  ask_closed :
      (p : Payload) → p.closed ≡ true → p.reading ≡ asking → Step p (record p { reading = free })
  answer_closed :
      (p : Payload) (s : ℕ) (e : Option Cause) (r : Reading)
      → p.closed ≡ true
      → p.reading ≡ answering s e
      → Behind s e r
      → Step p (record p { reading = r })

pub data Reach (p : Payload) : Payload → Type 0 where
  here : Reach p p
  next : {q r : Payload} → Reach p q → Step q r → Reach p r

abbrev pub IsOwn : Return → Type 0
IsOwn r = elim r.answer_of [ none ↦ Unit | some s ↦ s ≡ r.source ]
