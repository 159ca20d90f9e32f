-- ===== src/Payload/Feeder/Outcomes.antt =====
-- What the hand-over leaves behind, whichever way it ends.
use go_socket_io.Prelude.{
  ◌≡◌, refl, ◌⊎◌, inl, inr, Bool, true, false, Option, none, some, List, [], ◌∷◌, arith, tally,
}
use go_socket_io.Payload.Feeder.{
  Cause, PayloadError, store, load, Turn, expired, woken, chosen, Effect, enter, leave, worker_in,
  worker_out, handed, noop_written, Ending, waits, returns, FeedAnswers, feed_in, FlushAnswers,
  flush_out, PutChoice, put_closed, put_taken, put_writer,
}

abbrev pub is_waiting : {A : Type 0} → Ending A → Bool
is_waiting waits = true
is_waiting (returns a) = false

abbrev pub is_enter : Effect → Bool
is_enter enter = true
is_enter _ = false

abbrev pub is_leave : Effect → Bool
is_leave leave = true
is_leave _ = false

abbrev pub is_worker_in : Effect → Bool
is_worker_in worker_in = true
is_worker_in _ = false

abbrev pub is_worker_out : Effect → Bool
is_worker_out worker_out = true
is_worker_out _ = false

abbrev pub is_noop : Effect → Bool
is_noop noop_written = true
is_noop _ = false

abbrev pub is_handed : Effect → Bool
is_handed handed = true
is_handed _ = false

-- When `FeedIn` has returned, it has reset the feeding flag as often as it set it, and left the pauser's
-- workers as often as it was let in.
pub feed_in_releases :
    (a : FeedAnswers)
    → is_waiting (feed_in a).ending ≡ false
    → (tally is_leave (feed_in a).effects ≡ tally is_enter (feed_in a).effects)
      × (tally is_worker_out (feed_in a).effects ≡ tally is_worker_in (feed_in a).effects)
unfolding feed_in
feed_in_releases a h = ground arith

-- When `FlushOut` has returned, it has reset the flushing flag as often as it set it, and left the pauser's
-- workers as often as it was let in.
flush_out_releases :
    (a : FlushAnswers)
    → is_waiting (flush_out a).ending ≡ false
    → (tally is_leave (flush_out a).effects ≡ tally is_enter (flush_out a).effects)
      × (tally is_worker_out (flush_out a).effects ≡ tally is_worker_in (flush_out a).effects)
unfolding flush_out
flush_out_releases a h = ground arith

-- `FlushOut` never hands the writer over and also writes a NOOP to it itself.
pub flush_out_writes_once :
    (a : FlushAnswers)
    → let r = flush_out a in
      (tally is_noop r.effects ≡ 0)
      ⊎ (tally is_noop r.effects ≡ 1) × (tally is_handed r.effects ≡ 0)
unfolding flush_out
flush_out_writes_once a = ground arith

-- An error that a payload holds is never replaced, and one that `FeedIn` adds is the one that it returns.
pub feed_in_holds :
    (a : FeedAnswers)
    → let r = feed_in a in (r.held ≡ a.held) ⊎ (a.held ≡ none) × (r.ending ≡ returns r.held)
unfolding feed_in
feed_in_holds a = ground arith

-- Where an error is held, `putWriter` keeps it, and it is all that `putWriter` can return.
pub put_writer_sticky :
    (closed : Bool) (e : Option Cause) (turns : List (Turn PutChoice)) (old : PayloadError)
    → let r = put_writer closed e turns (some old) in
      (r.held ≡ some old) × ((r.ending ≡ waits) ⊎ (r.ending ≡ returns (some old)))
unfolding put_writer store load
put_writer_sticky true e [] old = (refl, inr refl)
put_writer_sticky false e [] old = (refl, inl refl)
put_writer_sticky true e (turn ∷ turns) old = (refl, inr refl)
put_writer_sticky false e (expired ∷ turns) old = (refl, inr refl)
put_writer_sticky false e (woken ∷ turns) old = put_writer_sticky false e turns old
put_writer_sticky false e (chosen put_closed ∷ turns) old = (refl, inr refl)
put_writer_sticky false e (chosen put_taken ∷ turns) old = (refl, inr refl)
