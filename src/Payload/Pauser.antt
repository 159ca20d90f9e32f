-- ===== src/Payload/Pauser.antt =====
-- engineio/payload/pauser.go: workers are let in until a pause, which waits for those inside.
-- Every method holds the lock, but for `Pause`, which gives it up while it waits; so a run is a sequence
-- of the events below, in any order.
pub mod Safety
pub mod Progress
use go_socket_io.Prelude.{
  ℕ, suc, ◌+◌, ◌-◌, Bool, true, false, Option, none, some, List, [], ◌∷◌, ◌==◌, if◌then◌else◌, ◌||◌,
}

pub data Status : Type 0 where
  normal pausing paused : Status

-- A channel is open or closed; closing a closed one panics.
pub record Pauser : Type 0 where
  pub worker : ℕ
  pub pausing_closed : Bool
  pub paused_closed : Bool
  pub status : Status

unfoldable pub new_pauser : Pauser
new_pauser = record { worker = 0; pausing_closed = false; paused_closed = false; status = normal }

pub data Paused : Type 0 where
  panic : Paused
  waits : Pauser → Paused
  returns : Bool → Pauser → Paused

finish_as : Status → Pauser → Paused
finish_as paused p = returns false p
finish_as _ p =
    if p.paused_closed
    then panic
    else returns true (record p { paused_closed = true; status = paused })

-- The loop `for p.worker != 0` and what is behind it.
unfoldable pub wait_workers : Pauser → Paused
unfolding finish_as
wait_workers p = if p.worker == 0 then finish_as p.status p else waits p

enter_as : Status → Pauser → Paused
enter_as paused p = returns false p
enter_as normal p =
    if p.pausing_closed
    then panic
    else wait_workers (record p { pausing_closed = true; status = pausing })
enter_as pausing p = wait_workers p

-- `Pause`, up to its return or its first wait.
unfoldable pub pause : Pauser → Paused
unfolding enter_as wait_workers
pause p = enter_as p.status p

unfoldable pub resume : Pauser → Pauser
resume p = record p { status = normal; paused_closed = false; pausing_closed = false }

is_paused : Status → Bool
is_paused paused = true
is_paused _ = false

unfoldable pub working : Pauser → Pauser × Bool
unfolding is_paused
working p = if is_paused p.status then (p, false) else (record p { worker = p.worker + 1 }, true)

-- With whether `Broadcast` is called.
unfoldable pub done : Pauser → Pauser × Bool
unfolding is_paused
done p =
    if is_paused p.status || p.worker == 0
    then (p, false)
    else (record p { worker = p.worker - 1 }, true)

-- The pauser, and how many calls of `Pause` sleep in `Wait`, and how many a `Broadcast` has woken that have not gone on.
pub record System : Type 0 where
  pub pauser : Pauser
  pub waiting : ℕ
  pub woken : ℕ

-- A goroutine calls a method, or one that was woken in `Pause` goes on.
pub data Event : Type 0 where
  call_pause call_resume call_working call_done wake : Event

abbrev pub broadcast : Bool → System → System
broadcast false s = s
broadcast true s = record s { waiting = 0; woken = s.woken + s.waiting }

-- `Pause` calls `Broadcast` where it returns true.
paused_to : System → Paused → Option System
paused_to s panic = none
paused_to s (waits p) = some (record s { pauser = p; waiting = s.waiting + 1 })
paused_to s (returns b p) = some (broadcast b (record s { pauser = p }))

-- One event; `none` is a panic. Nothing goes on that has not been woken.
unfoldable pub step : Event → System → Option System
unfolding paused_to
step call_pause s = paused_to s (pause s.pauser)
step call_resume s = some (record s { pauser = resume s.pauser })
step call_working s = some (record s { pauser = (working s.pauser).0 })
step call_done s =
    let (p, called) = done s.pauser in some (broadcast called (record s { pauser = p }))
step wake s =
    if s.woken == 0
    then some s
    else paused_to (record s { woken = s.woken - 1 }) (wait_workers s.pauser)

unfoldable pub run : List Event → System → Option System
run [] s = some s
run (e ∷ es) s = elim (step e s) [ none ↦ none | some s' ↦ run es s' ]

unfoldable pub start : System
start = record { pauser = new_pauser; waiting = 0; woken = 0 }
