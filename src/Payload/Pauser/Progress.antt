-- ===== src/Payload/Pauser/Progress.antt =====
-- Runs of the pauser in which a pause waits for workers (engineio/payload/pauser.go).
use go_socket_io.Prelude.{
  ℕ, zero, suc, ◌+◌, ◌≡◌, ◌≢◌, refl, Bool, true, false, some, List, [], ◌∷◌, ◌++◌, arith, ◌∙◌, sym,
  ap, length,
}
use go_socket_io.Payload.Pauser.{
  Status, normal, pausing, paused, Pauser, System, Event, call_pause, call_resume, call_done, wake,
  pause, wait_workers, resume, working, done, step, run,
}
use go_socket_io.Payload.Pauser.Safety.{IsSafe}

abbrev pub dones : ℕ → List Event
dones zero = []
dones (suc n) = call_done ∷ dones n

-- The ends of workers, and behind which of them a call of `Pause` that has been woken goes on.
abbrev pub ends : List Bool → List Event
ends [] = []
ends (true ∷ ws) = call_done ∷ wake ∷ ends ws
ends (false ∷ ws) = call_done ∷ ends ws

abbrev state : ℕ → Bool → Bool → Status → (waiting woken : ℕ) → System
state n a b st waiting woken = record {
  pauser = record { worker = n; pausing_closed = a; paused_closed = b; status = st };
  waiting = waiting;
  woken = woken;
}

abbrev pub system : ℕ → Bool → Bool → Status → ℕ → System
system n a b st waiting = state n a b st waiting 0

-- `Done` wakes every call that sleeps.
one_done :
    (n : ℕ) (a b : Bool) (st : Status) (waiting woken : ℕ)
    → st ≢ paused
    → step call_done (state (suc n) a b st waiting woken)
      ≡ some (state n a b st 0 (woken + waiting))
unfolding step done
one_done n a b st waiting woken h = ground arith

pause_waits :
    (n : ℕ) (a b : Bool) (st : Status)
    → st ≢ paused
    → (a ≡ true → st ≢ normal)
    → (st ≡ pausing → a ≡ true)
    → step call_pause (system (suc n) a b st 0) ≡ some (system (suc n) true b pausing 1)
unfolding step pause
pause_waits n a b st h g k = ground arith

-- A call that goes on while workers are inside sleeps again.
wake_waits :
    (n : ℕ) (a b : Bool) (st : Status)
    → step wake (state (suc n) a b st 0 1) ≡ some (state (suc n) a b st 1 0)
unfolding step wait_workers
wake_waits n a b st = ground arith

wake_pauses :
    (a : Bool) (st : Status)
    → st ≢ paused
    → step wake (state 0 a false st 0 1) ≡ some (state 0 a true paused 0 0)
unfolding step wait_workers
wake_pauses a st h = ground arith

run-step :
    (e : Event) (es : List Event) (s : System) {s' : System}
    → step e s ≡ some s'
    → run (e ∷ es) s ≡ run es s'
unfolding run
run-step e es s h = rw (h, run)

-- Nothing is left to go on.
wake_idle : (s : System) → s.woken ≡ 0 → run (wake ∷ []) s ≡ some s
unfolding run step
wake_idle s h = ground arith

-- `k + 1` workers are inside, and one call sleeps or has been woken.
run-ends :
    (k : ℕ) (ws : List Bool) (a : Bool) (st : Status) (waiting woken : ℕ)
    → st ≢ paused
    → length ws ≡ suc k
    → woken + waiting ≡ 1
    → run (ends ws ++ (wake ∷ [])) (state (suc k) a false st waiting woken)
      ≡ some (state 0 a true paused 0 0)
run-ends k [] a st waiting woken h e one = absurd (omega (arith, e))
run-ends zero (w ∷ v ∷ ws) a st waiting woken h e one = absurd (omega (arith, e))
run-ends zero (true ∷ []) a st waiting woken h e one =
    run-step call_done _ _
      (one_done 0 a false st waiting woken h ∙ (λ i. some (state 0 a false st 0 (one i))))
    ∙ run-step wake _ _ (wake_pauses a st h)
    ∙ wake_idle _ refl
run-ends zero (false ∷ []) a st waiting woken h e one =
    run-step call_done _ _
      (one_done 0 a false st waiting woken h ∙ (λ i. some (state 0 a false st 0 (one i))))
    ∙ run-step wake _ _ (wake_pauses a st h)
    ∙ unfold run in refl
run-ends (suc k) (true ∷ ws) a st waiting woken h e one =
    run-step call_done _ _ (
      one_done (suc k) a false st waiting woken h
      ∙ (λ i. some (state (suc k) a false st 0 (one i))))
    ∙ run-step wake _ _ (wake_waits k a false st)
    ∙ run-ends k ws a st 1 0 h (omega (arith, e)) refl
run-ends (suc k) (false ∷ ws) a st waiting woken h e one =
    run-step call_done _ _ (
      one_done (suc k) a false st waiting woken h
      ∙ (λ i. some (state (suc k) a false st 0 (one i))))
    ∙ run-ends k ws a st 0 1 h (omega (arith, e)) refl

none_between : ℕ → List Bool
none_between zero = []
none_between (suc n) = false ∷ none_between n

dones-ends : (n : ℕ) → ends (none_between n) ≡ dones n
unfolding none_between
dones-ends zero = refl
dones-ends (suc n) = ap (◌∷◌ call_done) (dones-ends n)

length-none_between : (n : ℕ) → length (none_between n) ≡ n
unfolding none_between
length-none_between zero = refl
length-none_between (suc n) = ap suc (length-none_between n)

run-dones :
    (k : ℕ) (a : Bool) (st : Status)
    → st ≢ paused
    → run (dones (suc k) ++ (wake ∷ [])) (system (suc k) a false st 1)
      ≡ some (system 0 a true paused 0)
run-dones k a st h =
    (λ i. run (sym (dones-ends (suc k)) i ++ (wake ∷ [])) (system (suc k) a false st 1))
    ∙ run-ends k (none_between (suc k)) a st 1 0 h (length-none_between (suc k)) refl

pausing-ne-paused : pausing ≢ paused
pausing-ne-paused = λ e. cc

normal-ne-paused : normal ≢ paused
normal-ne-paused = λ e. cc

open_unless_paused : (p : Pauser) → IsSafe p → p.status ≢ paused → p.paused_closed ≡ false
open_unless_paused p h ne = ground arith

paused_after :
    (n : ℕ) (ws : List Bool) (p : Pauser)
    → IsSafe p
    → p.status ≢ paused
    → p.worker ≡ suc n
    → length ws ≡ suc n
    → run (call_pause ∷ (ends ws ++ (wake ∷ []))) (record { pauser = p; waiting = 0; woken = 0 })
      ≡ some (system 0 true true paused 0)
paused_after n ws p h ne w e = rw (same) (
    run-step call_pause _ (system (suc n) p.pausing_closed false p.status 0)
      (pause_waits n p.pausing_closed false p.status ne h.pausing_only h.pausing_shown)
    ∙ run-ends n ws true pausing 1 0 pausing-ne-paused e refl)
  where
    same : p ≡ record {
      worker = suc n;
      pausing_closed = p.pausing_closed;
      paused_closed = false;
      status = p.status;
    }
    same = λ i. record {
      worker = w i;
      pausing_closed = p.pausing_closed;
      paused_closed = open_unless_paused p h ne i;
      status = p.status;
    }

-- From a safe pauser that is not paused and has workers inside, where no call of `Pause` waits: a pause sleeps until a
-- `Done` wakes it, and wherever it goes on between the ends of the workers, and at the latest behind the last of
-- them, it is complete then: `Working` lets nobody in and no call of `Pause` sleeps. Only a `Broadcast` of the code
-- lets it go on.
pub pause_completes :
    (p : Pauser) (n : ℕ) (ws : List Bool)
    → IsSafe p
    → p.status ≢ paused
    → p.worker ≡ suc n
    → length ws ≡ suc n
    → (s : System) × (run
          (call_pause ∷ (ends ws ++ (wake ∷ [])))
          (record { pauser = p; waiting = 0; woken = 0 })
        ≡ some s)
      × (s.pauser.status ≡ paused)
      × (s.waiting ≡ 0)
      × ((working s.pauser).1 ≡ false)
pause_completes p n ws h ne w e =
    (system 0 true true paused 0, paused_after n ws p h ne w e, refl, refl, unfold working in refl)

-- A `Resume` does not call off a pause that waits: with `n + 1` workers inside, a pause, a resume, the
-- ends of the workers and the waking of the pause leave the pauser paused, with the channel of
-- `PausingTrigger` open.
pub resume_overtaken :
    (n : ℕ)
    → run
        (call_pause ∷ call_resume ∷ (dones (suc n) ++ (wake ∷ [])))
        (system (suc n) false false normal 0)
      ≡ some (system 0 false true paused 0)
resume_overtaken n =
    run-step call_pause _ (system (suc n) false false normal 0)
      (pause_waits n false false normal normal-ne-paused (λ e. cc) (λ e. cc))
    ∙ run-step call_resume _ (system (suc n) true false pausing 1)
        {s' = system (suc n) false false normal 1} (unfold step resume in refl)
    ∙ run-dones n false normal normal-ne-paused
