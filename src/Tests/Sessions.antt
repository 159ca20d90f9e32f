-- ===== src/Tests/Sessions.antt =====
-- The pauser, the hand-over and the session at concrete inputs.
use go_socket_io.Prelude.{
  ℕ, ◌+◌, ◌≡◌, ◌≢◌, ◌⊎◌, refl, true, false, Option, none, some, List, [], ◌∷◌, ◌++◌, arith,
  if◌then◌else◌, tally, All,
}
use go_socket_io.Reader.{Err, eof, fault}
use go_socket_io.Packet.{string_frame, binary_frame, noop}
use go_socket_io.Payload.Pauser.{
  Pauser, System, call_pause, call_resume, call_working, call_done, wake, normal, paused, working,
  run, start,
}
use go_socket_io.Payload.Pauser.Safety.{IsSafe, run_never_panics}
use go_socket_io.Payload.Pauser.Progress.{dones, ends, pause_completes, resume_overtaken, system}
use go_socket_io.Payload.Feeder
use go_socket_io.Payload.Feeder.Outcomes as Handover
use go_socket_io.Payload.Feeder.{timeout, overlap, op_error, read, store}
use go_socket_io.Payload.Handover as Rendezvous
use go_socket_io.Payload.Handover.{
  new, told, place, kept, feed_overlapped, back, offering, awaiting, asking, holding, answering,
  here, next, feed, ask, handed, finished, answered, IsOwn,
}
use go_socket_io.Payload.Handover.Own.{Reach-IsOwn}
use go_socket_io.Session
use go_socket_io.Session.Reading
use go_socket_io.Session.Upgrade
use go_socket_io.Session.Upgrade.Outcomes as Upgraded

run_never_panics_example :
    (s : System) × (run (call_working ∷ call_pause ∷ call_done ∷ wake ∷ []) start ≡ some s)
    × ((s.pauser.status ≢ paused) ⊎ (s.pauser.worker ≡ 0) × (s.pauser.paused_closed ≡ true))
run_never_panics_example = run_never_panics (call_working ∷ call_pause ∷ call_done ∷ wake ∷ [])

abbrev busy : Pauser
busy = record { worker = 2; pausing_closed = false; paused_closed = false; status = normal }

busy-IsSafe : IsSafe busy
busy-IsSafe = ground arith

pause_completes_example :
    (s : System) × (run
        (call_pause ∷ (ends (true ∷ false ∷ []) ++ (wake ∷ [])))
        (record { pauser = busy; waiting = 0; woken = 0 })
      ≡ some s)
    × (s.pauser.status ≡ paused)
    × (s.waiting ≡ 0)
    × ((working s.pauser).1 ≡ false)
pause_completes_example = pause_completes busy 1 (true ∷ false ∷ []) busy-IsSafe (λ e. cc) refl refl

resume_overtaken_example :
    run (call_pause ∷ call_resume ∷ (dones 2 ++ (wake ∷ []))) (system 2 false false normal 0)
    ≡ some (system 0 false true paused 0)
resume_overtaken_example = resume_overtaken 1

abbrev fed : Feeder.FeedAnswers
fed = record {
  closed = false;
  alone = true;
  let_in = true;
  handing = Feeder.woken ∷ Feeder.chosen Feeder.feed_taken ∷ [];
  answers = Feeder.chosen (some (Feeder.other (fault 1))) ∷ [];
  held = none;
}

abbrev flushed : Feeder.FlushAnswers
flushed = record {
  closed = false;
  alone = true;
  let_in = true;
  handing = Feeder.woken ∷ Feeder.chosen Feeder.flush_pausing ∷ [];
  answers = [];
  noop = none;
  held = none;
}

feed_in_releases_example :
    (tally Handover.is_leave (Feeder.feed_in fed).effects
      ≡ tally Handover.is_enter (Feeder.feed_in fed).effects)
    × (tally Handover.is_worker_out (Feeder.feed_in fed).effects
        ≡ tally Handover.is_worker_in (Feeder.feed_in fed).effects)
unfolding Feeder.feed_in Feeder.settle
feed_in_releases_example = Handover.feed_in_releases fed refl

abbrev held_error : Feeder.PayloadError
held_error = Feeder.op_error Feeder.read Feeder.timeout

-- An upgrade from connection 1 to connection 2, of which the confirmation is a noop.
abbrev refused_upgrade : Upgrade.Answers
refused_upgrade = record {
  read_deadline_set = true;
  probe_read = true;
  probe_frame = string_frame;
  probe_type = 2;
  write_deadline_set = true;
  writer_got = true;
  copied = true;
  reader_closes = true;
  writer_closes = true;
  pausable = true;
  confirm_read = true;
  confirm_type = noop;
  confirm_closes = true;
}

abbrev accepted_upgrade : Upgrade.Answers
accepted_upgrade = record refused_upgrade { confirm_type = 5 }

abbrev polling : Upgrade.Session ℕ
polling = record { conn = 1; transport = 112 ∷ [] }

upgrading_session_example :
    (Upgrade.upgrading accepted_upgrade (119 ∷ []) 2 polling).0
    ≡ record { conn = 2; transport = 119 ∷ [] }
upgrading_session_example = Upgraded.upgrading_session accepted_upgrade (119 ∷ []) 2 polling

upgrading_closes_one_example :
    (tally Upgraded.is_new_closed (Upgrade.upgrading refused_upgrade (119 ∷ []) 2 polling).1 ≡ 1)
    × (tally Upgraded.is_old_closed (Upgrade.upgrading refused_upgrade (119 ∷ []) 2 polling).1 ≡ 0)
upgrading_closes_one_example = Upgraded.upgrading_closes_one refused_upgrade (119 ∷ []) 2 polling

upgrading_resumes_example :
    tally Upgraded.is_pause (Upgrade.upgrading refused_upgrade (119 ∷ []) 2 polling).1
    ≡ tally Upgraded.is_resume (Upgrade.upgrading refused_upgrade (119 ∷ []) 2 polling).1 + 0
upgrading_resumes_example = Upgraded.upgrading_resumes refused_upgrade (119 ∷ []) 2 polling

abbrev init_answers : Session.InitAnswers
init_answers = record {
  writer = Session.got tt ∷ [];
  params_write = none;
  writer_close = some (fault 2);
}

abbrev opening : Session.Traced (Option Err)
opening = (
  some (fault 2),
  Session.writer_opened string_frame 0
      ∷ Session.params_written
      ∷ Session.writer_closed
      ∷ Session.conn_closed
      ∷ [],
)

abbrev incoming : List Session.Incoming
incoming =
    Session.refused (fault 3) true
    ∷ Reading.good_ping binary_frame
    ∷ Session.got (string_frame, noop, Reading.good_answers)
    ∷ Session.refused eof false
    ∷ []

next_reader-closes_example :
    tally Reading.is_conn_closed (Session.next_reader incoming).1
    ≡ (if Reading.is_failed (Session.next_reader incoming).0 then 1 else 0)
next_reader-closes_example = Reading.next_reader-closes incoming

-- A source is read and answered, and the next is not taken before the deadline.
abbrev offered : Rendezvous.Payload
offered = record new { feeding = true; feeders = place 1 (offering 5) new.feeders }

abbrev asked : Rendezvous.Payload
asked = record offered { reading = asking }

abbrev handed_over : Rendezvous.Payload
handed_over = record asked { feeders = place 1 (awaiting 5) offered.feeders; reading = holding 5 }

-- A second goroutine is refused, and the first gets an error, behind which the decoder keeps its source.
abbrev refused_second : Rendezvous.Payload
refused_second = told 6 none (some (op_error read overlap)) handed_over

abbrev given_back : Rendezvous.Payload
given_back =
    back 1 5 (some 5) (store read (some timeout) none)
      (record refused_second { reading = holding 5 })

Reach-IsOwn_example : All IsOwn given_back.returned
unfolding store
Reach-IsOwn_example = Reach-IsOwn given_back (
    next
      (next
        (next
          (next (next (next here (feed new 1 5 refl refl refl)) (ask offered refl refl))
            (handed asked 1 5 refl refl))
          (feed_overlapped handed_over 2 6 refl refl refl))
        (finished refused_second 5 (some timeout) refl))
      (answered (record refused_second { reading = answering 5 (some timeout) }) 1 5 5
        (some timeout) (holding 5) refl refl kept))
