-- ===== src/Payload/Pauser/Safety.antt =====
-- The invariant of the pauser (engineio/payload/pauser.go), over all runs.
use go_socket_io.Prelude.{
  ◌≡◌, ◌≢◌, refl, true, none, some, List, [], ◌∷◌, arith, Option-cases, inl, inr, ◌⊎◌,
}
use go_socket_io.Payload.Pauser.{
  normal, pausing, paused, Pauser, System, Event, call_pause, call_resume, call_working, call_done,
  wake, pause, wait_workers, resume, working, done, new_pauser, step, run, start,
}

pub record IsSafe (p : Pauser) : Type 0 where
  pub nobody_inside : p.status ≡ paused → p.worker ≡ 0
  pub paused_iff : p.status ≡ paused → p.paused_closed ≡ true
  pub paused_only : p.paused_closed ≡ true → p.status ≡ paused
  pub pausing_only : p.pausing_closed ≡ true → p.status ≢ normal
  pub pausing_shown : p.status ≡ pausing → p.pausing_closed ≡ true

step-ne-none : (e : Event) (s : System) → IsSafe s.pauser → step e s ≢ none
unfolding step pause wait_workers resume working done
step-ne-none call_pause s h = ground arith
step-ne-none call_resume s h = ground arith
step-ne-none call_working s h = ground arith
step-ne-none call_done s h = ground arith
step-ne-none wake s h = ground arith

step-IsSafe :
    (e : Event) (s : System) {s' : System} → IsSafe s.pauser → step e s ≡ some s' → IsSafe s'.pauser
unfolding step pause wait_workers resume working done
step-IsSafe call_pause s h g = ground arith
step-IsSafe call_resume s h g = ground arith
step-IsSafe call_working s h g = ground arith
step-IsSafe call_done s h g = ground arith
step-IsSafe wake s h g = ground arith

start-IsSafe : IsSafe start.pauser
unfolding start new_pauser
start-IsSafe = ground arith

run-IsSafe :
    (es : List Event) (s : System)
    → IsSafe s.pauser
    → (s' : System) × (run es s ≡ some s') × IsSafe s'.pauser
unfolding run
run-IsSafe [] s h = (s, refl, h)
run-IsSafe (e ∷ es) s h = elim (Option-cases (step e s)) [
  | inl g ↦ absurd (step-ne-none e s h g)
  | inr (s', g) ↦
      let (t, r, safe) = run-IsSafe es s' (step-IsSafe e s h g) in (t, rw (g, run) r, safe)
]

quiet : (p : Pauser) → IsSafe p → (p.status ≢ paused) ⊎ (p.worker ≡ 0) × (p.paused_closed ≡ true)
quiet p safe = ground arith

-- However its methods are interleaved, a pauser never panics, and whenever it is paused no worker is
-- inside and the channel of `PausedTrigger` is closed.
pub run_never_panics :
    (es : List Event)
    → (s : System) × (run es start ≡ some s)
      × ((s.pauser.status ≢ paused) ⊎ (s.pauser.worker ≡ 0) × (s.pauser.paused_closed ≡ true))
run_never_panics es =
    let (s, r, safe) = run-IsSafe es start start-IsSafe in (s, r, quiet s.pauser safe)
